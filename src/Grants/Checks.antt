-- ===== src/Grants/Checks.antt =====
-- What each part of an issue payload ensures.
use cbr.Prelude.Results.{Ensures, Ensures-bind, Ensures-weaken, Ensures-any}
use cbr.Prelude.{
  ℕ, ◌+◌, ◌≡◌, refl, arith, Bool, true, false, ◌&&◌, Option, none, some, Bool-cases, inl, inr, List,
  [], ◌∷◌, ◌++◌, Text, codes, All, pos, leb_ℤ,
}
use cbr.Encoding.Decimal.{digits}
use cbr.Encoding.Access.{text_at}
use cbr.Encoding.Value.{Value, null, int, string, array, object, Items, no_items, item, get, as_str}
use cbr.Envelope.Names.{is_identifier}
use cbr.Envelope.Members.{all_known}
use cbr.Grants.Records.{Resource, Binding}
use cbr.Grants.Issue.{
  is_nonempty, nonempty_text, value_or, nonempty_at, right_names, rights_of, is_some, resource_of,
  resource_list, resources_of, flag_of, natural_of, terms_of, is_instant, expiry_of, binding_of,
  names_work, is_work_binding, check_constraint, check_constraints, constraints_of, parent_of,
}

abbrev pub is_nonempty_list {ℓ} : {A : Type ℓ} → List A → Bool
is_nonempty_list [] = false
is_nonempty_list (x ∷ xs) = true

-- A resource has a kind, and is narrowed at most once.
pub record IsResource (r : Resource) : Type 0 where
  pub kind : is_nonempty r.kind ≡ true
  pub narrowed_once : (is_some r.id && is_some r.id_prefix) ≡ false

abbrev pub IsExpiry : Option Text → Type 0
IsExpiry none = Unit
IsExpiry (some instant) = is_instant instant ≡ true

abbrev pub IsBinding : Option Binding → Type 0
IsBinding none = Unit
IsBinding (some b) = (is_nonempty b.scope ≡ true) × (leb_ℤ (pos 0) b.epoch ≡ true)

abbrev pub IsParent : Option Text → Type 0
IsParent none = Unit
IsParent (some id) = is_identifier id ≡ true

abbrev pub AreConstraints : Items → Type 0
AreConstraints no_items = Unit
AreConstraints (item value more) =
    ((is_work_binding (text_at value (codes "kind")) && names_work value) ≡ true)
    × AreConstraints more

nonempty-Ensures :
    (found : Option Text) (path reason : Text)
    → Ensures (λ text. is_nonempty text ≡ true) (value_or (nonempty_text found) path reason)
nonempty-Ensures none path reason = tt
nonempty-Ensures (some []) path reason = tt
nonempty-Ensures (some (c ∷ text)) path reason = refl

right_names-Ensures :
    (index : ℕ) (items : Items)
    → Ensures (All (λ right. is_nonempty right ≡ true)) (right_names index items)
unfolding right_names
right_names-Ensures index no_items = tt
right_names-Ensures index (item value more) =
    Ensures-bind _ _
      (value_or (nonempty_text (as_str value)) (codes "rights/" ++ digits index)
        (codes "not a right name"))
      _
      (nonempty-Ensures (as_str value) (codes "rights/" ++ digits index) (codes "not a right name"))
      (λ name named.
        Ensures-bind _ _ (right_names (index + 1) more) _ (right_names-Ensures (index + 1) more)
          (λ names all_named. (named, all_named)))

pub rights_of-Ensures :
    (found : Option Value)
    → Ensures
        (λ rights.
          (is_nonempty_list rights ≡ true) × All (λ right. is_nonempty right ≡ true) rights)
        (rights_of found)
unfolding rights_of right_names
rights_of-Ensures (some (array (item value more))) =
    Ensures-bind _ _
      (value_or (nonempty_text (as_str value)) (codes "rights/" ++ digits 0)
        (codes "not a right name"))
      _ (nonempty-Ensures (as_str value) (codes "rights/" ++ digits 0) (codes "not a right name"))
      (λ name named.
        Ensures-bind _ _ (right_names 1 more) _ (right_names-Ensures 1 more)
          (λ names all_named. (refl, (named, all_named))))
rights_of-Ensures none = tt
rights_of-Ensures (some null) = tt
rights_of-Ensures (some (Value.bool b)) = tt
rights_of-Ensures (some (int n)) = tt
rights_of-Ensures (some (string text)) = tt
rights_of-Ensures (some (array no_items)) = tt
rights_of-Ensures (some (object members)) = tt

resource_of-Ensures : (path : Text) (value : Value) → Ensures IsResource (resource_of path value)
unfolding resource_of
resource_of-Ensures path (object members) =
    Ensures-bind _ _
      (all_known (codes "/payload/" ++ path ++ codes "/")
        (codes "kind" ∷ codes "id" ∷ codes "id_prefix" ∷ []) members)
      _ (Ensures-any _)
      (λ done u.
        Ensures-bind _ _
          (value_or (nonempty_text (text_at (object members) (codes "kind")))
            (path ++ codes "/kind") (codes "not a subject kind"))
          _
          (nonempty-Ensures (text_at (object members) (codes "kind")) (path ++ codes "/kind")
            (codes "not a subject kind"))
          (λ kind named.
            elim (Bool-cases (
              is_some (text_at (object members) (codes "id"))
              && is_some (text_at (object members) (codes "id_prefix")))) [
                | inl e ↦ rw e tt
                | inr e ↦ rw e (record { kind = named; narrowed_once = e })
              ]))
resource_of-Ensures path null = tt
resource_of-Ensures path (Value.bool b) = tt
resource_of-Ensures path (int n) = tt
resource_of-Ensures path (string text) = tt
resource_of-Ensures path (array items) = tt

resource_list-Ensures :
    (index : ℕ) (items : Items) → Ensures (All IsResource) (resource_list index items)
unfolding resource_list
resource_list-Ensures index no_items = tt
resource_list-Ensures index (item value more) =
    Ensures-bind _ _ (resource_of (codes "resources/" ++ digits index) value) _
      (resource_of-Ensures (codes "resources/" ++ digits index) value)
      (λ resource r.
        Ensures-bind _ _ (resource_list (index + 1) more) _ (resource_list-Ensures (index + 1) more)
          (λ resources rs. (r, rs)))

pub resources_of-Ensures :
    (found : Option Value)
    → Ensures
        (λ resources. (is_nonempty_list resources ≡ true) × All IsResource resources)
        (resources_of found)
unfolding resources_of resource_list
resources_of-Ensures (some (array (item value more))) =
    Ensures-bind _ _ (resource_of (codes "resources/" ++ digits 0) value) _
      (resource_of-Ensures (codes "resources/" ++ digits 0) value)
      (λ resource r.
        Ensures-bind _ _ (resource_list 1 more) _ (resource_list-Ensures 1 more)
          (λ resources rs. (refl, (r, rs))))
resources_of-Ensures none = tt
resources_of-Ensures (some null) = tt
resources_of-Ensures (some (Value.bool b)) = tt
resources_of-Ensures (some (int n)) = tt
resources_of-Ensures (some (string text)) = tt
resources_of-Ensures (some (array no_items)) = tt
resources_of-Ensures (some (object members)) = tt

pub terms_of-Ensures :
    (found : Option Value)
    → Ensures (λ terms. leb_ℤ (pos 0) terms.max_depth ≡ true) (terms_of found)
unfolding terms_of
terms_of-Ensures (some (object members)) =
    Ensures-bind _ _
      (all_known (codes "/payload/delegation/") (codes "allowed" ∷ codes "max_depth" ∷ []) members)
      _ (Ensures-any _)
      (λ done u.
        Ensures-bind _ _
          (value_or (flag_of (get (object members) (codes "allowed"))) (codes "delegation/allowed")
            (codes "not a boolean"))
          _ (Ensures-any _)
          (λ allowed v.
            Ensures-bind _ _
              (value_or (natural_of (get (object members) (codes "max_depth")))
                (codes "delegation/max_depth") (codes "not a non-negative integer"))
              _ (Ensures-any _) (λ max_depth w. ground arith)))
terms_of-Ensures none = tt
terms_of-Ensures (some null) = tt
terms_of-Ensures (some (Value.bool b)) = tt
terms_of-Ensures (some (int n)) = tt
terms_of-Ensures (some (string text)) = tt
terms_of-Ensures (some (array items)) = tt

pub expiry_of-Ensures : (found : Option Value) → Ensures IsExpiry (expiry_of found)
unfolding expiry_of
expiry_of-Ensures none = tt
expiry_of-Ensures (some (string instant)) = elim (Bool-cases (is_instant instant)) [
  | inl e ↦ rw e e
  | inr e ↦ rw e tt
]
expiry_of-Ensures (some null) = tt
expiry_of-Ensures (some (Value.bool b)) = tt
expiry_of-Ensures (some (int n)) = tt
expiry_of-Ensures (some (array items)) = tt
expiry_of-Ensures (some (object members)) = tt

pub binding_of-Ensures : (found : Option Value) → Ensures IsBinding (binding_of found)
unfolding binding_of
binding_of-Ensures none = tt
binding_of-Ensures (some (object members)) =
    Ensures-bind _ _
      (all_known (codes "/payload/authority_binding/") (codes "scope" ∷ codes "epoch" ∷ []) members)
      _ (Ensures-any _)
      (λ done u.
        Ensures-bind _ _
          (value_or (nonempty_text (text_at (object members) (codes "scope")))
            (codes "authority_binding/scope") (codes "not a scope name"))
          _
          (nonempty-Ensures (text_at (object members) (codes "scope"))
            (codes "authority_binding/scope") (codes "not a scope name"))
          (λ scope named.
            Ensures-bind _ _
              (value_or (natural_of (get (object members) (codes "epoch")))
                (codes "authority_binding/epoch") (codes "not a non-negative integer"))
              _ (Ensures-any _) (λ epoch v. (named, ground arith))))
binding_of-Ensures (some null) = tt
binding_of-Ensures (some (Value.bool b)) = tt
binding_of-Ensures (some (int n)) = tt
binding_of-Ensures (some (string text)) = tt
binding_of-Ensures (some (array items)) = tt

check_constraint-Ensures :
    (path : Text) (value : Value)
    → Ensures
        (λ done. (is_work_binding (text_at value (codes "kind")) && names_work value) ≡ true)
        (check_constraint path value)
unfolding check_constraint
check_constraint-Ensures path value =
    elim (Bool-cases (is_work_binding (text_at value (codes "kind")))) [
      | inr e ↦ rw e tt
      | inl e ↦ elim (Bool-cases (names_work value)) [
        | inr f ↦ rw e (rw f tt)
        | inl f ↦ rw e (rw f refl)
      ]
    ]

check_constraints-Ensures :
    (index : ℕ) (items : Items)
    → Ensures (λ done. AreConstraints items) (check_constraints index items)
unfolding check_constraints
check_constraints-Ensures index no_items = tt
check_constraints-Ensures index (item value more) =
    Ensures-bind _ _ (check_constraint (codes "constraints/" ++ digits index) value) _
      (check_constraint-Ensures (codes "constraints/" ++ digits index) value)
      (λ done c.
        Ensures-weaken _ _ (check_constraints (index + 1) more) (λ done cs. (c, cs))
          (check_constraints-Ensures (index + 1) more))

pub constraints_of-Ensures : (found : Option Value) → Ensures AreConstraints (constraints_of found)
unfolding constraints_of
constraints_of-Ensures none = tt
constraints_of-Ensures (some (array items)) =
    Ensures-bind _ _ (check_constraints 0 items) _ (check_constraints-Ensures 0 items) (λ done c. c)
constraints_of-Ensures (some null) = tt
constraints_of-Ensures (some (Value.bool b)) = tt
constraints_of-Ensures (some (int n)) = tt
constraints_of-Ensures (some (string text)) = tt
constraints_of-Ensures (some (object members)) = tt

pub parent_of-Ensures : (found : Option Value) → Ensures IsParent (parent_of found)
unfolding parent_of
parent_of-Ensures none = tt
parent_of-Ensures (some (string id)) = elim (Bool-cases (is_identifier id)) [
  | inl e ↦ rw e e
  | inr e ↦ rw e tt
]
parent_of-Ensures (some null) = tt
parent_of-Ensures (some (Value.bool b)) = tt
parent_of-Ensures (some (int n)) = tt
parent_of-Ensures (some (array items)) = tt
parent_of-Ensures (some (object members)) = tt

pub nonempty_at-Ensures :
    (payload : Value) (name : Text)
    → Ensures (λ text. is_nonempty text ≡ true) (nonempty_at payload name)
unfolding nonempty_at
nonempty_at-Ensures payload name =
    nonempty-Ensures (text_at payload name) name (codes "not a non-empty string")
