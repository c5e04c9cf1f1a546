-- ===== src/Encoding/Equality.antt =====
-- The derived equality of `Value`, which compares members in order.
use cbr.Prelude.{
  ◌≡◌, refl, ap, arith, Bool, true, false, ◌&&◌, text_eq, text_eq_refl, text_eq→eq, ◌==◌, ==_self,
  ℤ, pos, negsuc,
}
use cbr.Encoding.Value.{
  Value, null, int, string, array, object, Items, no_items, item, Fields, no_fields, field,
}

abbrev pub int_eq : ℤ → ℤ → Bool
int_eq (pos m) (pos n) = m == n
int_eq (negsuc m) (negsuc n) = m == n
int_eq (pos m) (negsuc n) = false
int_eq (negsuc m) (pos n) = false

abbrev pub bool_eq : Bool → Bool → Bool
bool_eq true b = b
bool_eq false true = false
bool_eq false false = true

unfoldable mutual
  pub value_eq : Value → Value → Bool
  value_eq null null = true
  value_eq (Value.bool a) (Value.bool b) = bool_eq a b
  value_eq (int a) (int b) = int_eq a b
  value_eq (string a) (string b) = text_eq a b
  value_eq (array a) (array b) = items_eq a b
  value_eq (object a) (object b) = fields_eq a b
  value_eq _ _ = false

  pub items_eq : Items → Items → Bool
  items_eq no_items no_items = true
  items_eq (item a xs) (item b ys) = value_eq a b && items_eq xs ys
  items_eq no_items (item b ys) = false
  items_eq (item a xs) no_items = false

  pub fields_eq : Fields → Fields → Bool
  fields_eq no_fields no_fields = true
  fields_eq (field k a xs) (field l b ys) = text_eq k l && (value_eq a b && fields_eq xs ys)
  fields_eq no_fields (field l b ys) = false
  fields_eq (field k a xs) no_fields = false

bool_eq_refl : (b : Bool) → bool_eq b b ≡ true
bool_eq_refl true = refl
bool_eq_refl false = refl

int_eq_refl : (n : ℤ) → int_eq n n ≡ true
int_eq_refl (pos n) = ==_self n
int_eq_refl (negsuc n) = ==_self n

mutual
  unfolding value_eq

  pub value_eq_refl : (v : Value) → value_eq v v ≡ true
  value_eq_refl null = refl
  value_eq_refl (Value.bool b) = bool_eq_refl b
  value_eq_refl (int n) = int_eq_refl n
  value_eq_refl (string t) = text_eq_refl t
  value_eq_refl (array items) = items_eq_refl items
  value_eq_refl (object members) = fields_eq_refl members

  items_eq_refl : (items : Items) → items_eq items items ≡ true
  items_eq_refl no_items = refl
  items_eq_refl (item v more) = rw (value_eq_refl v, items_eq_refl more) refl

  fields_eq_refl : (members : Fields) → fields_eq members members ≡ true
  fields_eq_refl no_fields = refl
  fields_eq_refl (field k v more) = rw (text_eq_refl k, value_eq_refl v, fields_eq_refl more) refl

bool_eq→eq : (a b : Bool) → bool_eq a b ≡ true → a ≡ b
bool_eq→eq true true h = refl
bool_eq→eq true false h = cc
bool_eq→eq false true h = cc
bool_eq→eq false false h = refl

pub int_eq→eq : (a b : ℤ) → int_eq a b ≡ true → a ≡ b
int_eq→eq (pos m) (pos n) h = ap pos (ground arith)
int_eq→eq (pos m) (negsuc n) h = cc
int_eq→eq (negsuc m) (pos n) h = cc
int_eq→eq (negsuc m) (negsuc n) h = ap negsuc (ground arith)

pub and_parts : (a b : Bool) → (a && b) ≡ true → (a ≡ true) × (b ≡ true)
and_parts true b h = (refl, h)
and_parts false b h = cc

mutual
  unfolding value_eq

  pub value_eq→eq : (a b : Value) → value_eq a b ≡ true → a ≡ b
  value_eq→eq null null h = refl
  value_eq→eq null _ h = cc
  value_eq→eq (Value.bool a) (Value.bool b) h = ap Value.bool (bool_eq→eq a b h)
  value_eq→eq (Value.bool a) _ h = cc
  value_eq→eq (int a) (int b) h = ap int (int_eq→eq a b h)
  value_eq→eq (int a) _ h = cc
  value_eq→eq (string a) (string b) h = ap string (text_eq→eq a b h)
  value_eq→eq (string a) _ h = cc
  value_eq→eq (array a) (array b) h = ap array (items_eq→eq a b h)
  value_eq→eq (array a) _ h = cc
  value_eq→eq (object a) (object b) h = ap object (fields_eq→eq a b h)
  value_eq→eq (object a) _ h = cc

  items_eq→eq : (a b : Items) → items_eq a b ≡ true → a ≡ b
  items_eq→eq no_items no_items h = refl
  items_eq→eq no_items (item b ys) h = cc
  items_eq→eq (item a xs) no_items h = cc
  items_eq→eq (item a xs) (item b ys) h =
      let p = and_parts (value_eq a b) (items_eq xs ys) h in
      rw (value_eq→eq a b p.0, items_eq→eq xs ys p.1) refl

  fields_eq→eq : (a b : Fields) → fields_eq a b ≡ true → a ≡ b
  fields_eq→eq no_fields no_fields h = refl
  fields_eq→eq no_fields (field l b ys) h = cc
  fields_eq→eq (field k a xs) no_fields h = cc
  fields_eq→eq (field k a xs) (field l b ys) h =
      let p = and_parts (text_eq k l) (value_eq a b && fields_eq xs ys) h in
      let q = and_parts (value_eq a b) (fields_eq xs ys) p.1 in
      rw (text_eq→eq k l p.0, value_eq→eq a b q.0, fields_eq→eq xs ys q.1) refl
