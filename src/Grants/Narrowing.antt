-- ===== src/Grants/Narrowing.antt =====
-- What one delegation ensures: a child is no wider than its parent.
use cbr.Prelude.Results.{ok, err}
use cbr.Prelude.{
  ◌≡◌, refl, sym, arith, subst, Bool, true, false, ◌||◌, not, Option, none, some, Bool-cases, inl,
  inr, List, [], ◌∷◌, Text, text_eq, text_eq→eq, text_le, starts_with, all, any, if◌then◌else◌, ℤ,
  pos, ltb_ℤ, ◌-ℤ◌,
}
use cbr.Encoding.Equality.{value_eq, value_eq→eq, int_eq→eq, and_parts}
use cbr.Encoding.Value.{Value, Items, no_items, item}
use cbr.Effects.{SubjectKey}
use cbr.Grants.Records.{Resource, Binding, Grant}
use cbr.Grants.Decision.{
  covers, id_within, covers_resource, narrowed, Denial, Need, Context, has_expired, is_stale,
  Allowed, usable, holds_right, covered, permits, outlives, holds_value, holds_values, rebinds,
  may_delegate_to,
}

-- What a delegation that was allowed has passed.
pub record IsNarrower (g child : Grant) : Type 0 where
  pub depth : ltb_ℤ g.delegation.max_depth (pos 1) ≡ false
  pub rights : any (λ right. not (holds_right g.rights right)) child.rights ≡ false
  pub resources :
      all (λ resource. any (λ parent. covers_resource parent resource) g.resources) child.resources
      ≡ true
  pub expiry : outlives g.expires_at child.expires_at ≡ false
  pub deeper : ltb_ℤ (g.delegation.max_depth -ℤ pos 1) child.delegation.max_depth ≡ false
  pub constraints : holds_values child.constraints g.constraints ≡ true
  pub binding : rebinds g.authority_binding child.authority_binding ≡ false

passed :
    (b : Bool) (d : Denial) (m : Allowed)
    → (if b then err d else m) ≡ ok tt
    → (b ≡ false) × (m ≡ ok tt)
passed true d m e = cc
passed false d m e = (refl, e)

not-false : (b : Bool) → not b ≡ false → b ≡ true
not-false true e = refl
not-false false e = cc

or_false : (a b : Bool) → (a || b) ≡ false → (a ≡ false) × (b ≡ false)
or_false true b e = cc
or_false false b e = (refl, e)

pub may_delegate_to-IsNarrower :
    (g child : Grant) → may_delegate_to g child ≡ ok tt → IsNarrower g child
unfolding may_delegate_to
may_delegate_to-IsNarrower g child e =
    let p₁ = passed _ _ _ e in
    let p₂ = passed _ _ _ p₁.1 in
    let p₃ = passed _ _ _ p₂.1 in
    let p₄ = passed _ _ _ p₃.1 in
    let p₅ = passed _ _ _ p₄.1 in
    let p₆ = passed _ _ _ p₅.1 in
    let p₇ = passed _ _ _ p₆.1 in
    record {
      depth = (or_false _ _ p₁.0).1;
      rights = p₂.0;
      resources = not-false _ p₃.0;
      expiry = p₄.0;
      deeper = p₅.0;
      constraints = not-false _ p₆.0;
      binding = p₇.0;
    }

starts_with_trans :
    (p c t : Text) → starts_with p c ≡ true → starts_with c t ≡ true → starts_with p t ≡ true
unfolding starts_with
starts_with_trans [] c t e f = refl
starts_with_trans (x ∷ p) [] t e f = cc
starts_with_trans (x ∷ p) (y ∷ c) [] e f = cc
starts_with_trans (x ∷ p) (y ∷ c) (z ∷ t) e f = ground (arith, starts_with_trans p c t)

narrowed-within :
    (id id_prefix child_id child_prefix : Option Text) (key : Text)
    → narrowed id id_prefix child_id child_prefix ≡ true
    → id_within child_id child_prefix key ≡ true
    → id_within id id_prefix key ≡ true
narrowed-within none none child_id child_prefix key e f = refl
narrowed-within (some exact) id_prefix none child_prefix key e f = cc
narrowed-within (some exact) id_prefix (some other) child_prefix key e f =
    subst (λ x. text_eq x key ≡ true) (text_eq→eq other exact e) f
narrowed-within none (some start) (some child) child_prefix key e f =
    subst (λ x. starts_with start x ≡ true) (text_eq→eq child key f) e
narrowed-within none (some start) none (some child) key e f = starts_with_trans start child key e f
narrowed-within none (some start) none none key e f = cc

covers_resource-covers :
    (r child : Resource) (key : SubjectKey)
    → covers_resource r child ≡ true
    → covers child key ≡ true
    → covers r key ≡ true
unfolding covers_resource covers
covers_resource-covers r child key e f =
    let p = and_parts _ _ e in
    let q = and_parts _ _ f in
    let kind =
      subst (λ x. text_eq x key.kind ≡ true) (sym (text_eq→eq r.kind child.kind p.0)) q.0 in
    rw (kind, narrowed-within r.id r.id_prefix child.id child.id_prefix key.id p.1 q.1) refl

any-covers :
    (parents : List Resource) (child : Resource) (key : SubjectKey)
    → any (λ parent. covers_resource parent child) parents ≡ true
    → covers child key ≡ true
    → any (λ parent. covers parent key) parents ≡ true
any-covers [] child key e f = e
any-covers (r ∷ parents) child key e f = elim (Bool-cases (covers_resource r child)) [
  | inl here ↦ rw (covers_resource-covers r child key here f) refl
  | inr there ↦ elim (Bool-cases (covers r key)) [
    | inl here ↦ rw here refl
    | inr away ↦ rw away (any-covers parents child key (rw there at e) f)
  ]
]

covered-narrows :
    (parents children : List Resource) (subject : Option SubjectKey)
    → all (λ resource. any (λ parent. covers_resource parent resource) parents) children ≡ true
    → covered children subject ≡ true
    → covered parents subject ≡ true
covered-narrows parents children none e f = refl
covered-narrows parents [] (some key) e f = cc
covered-narrows parents (child ∷ children) (some key) e f =
    let p = and_parts (any (λ parent. covers_resource parent child) parents) _ e in
    elim (Bool-cases (covers child key)) [
      | inl here ↦ any-covers parents child key p.0 here
      | inr away ↦ covered-narrows parents children (some key) p.1 (rw away at f)
    ]

holds_right-narrows :
    (parent child : List Text) (right : Text)
    → any (λ held. not (holds_right parent held)) child ≡ false
    → holds_right child right ≡ true
    → holds_right parent right ≡ true
holds_right-narrows parent [] right e f = cc
holds_right-narrows parent (held ∷ child) right e f =
    let p = or_false (not (holds_right parent held)) _ e in
    elim (Bool-cases (text_eq held right)) [
      | inl here ↦
          subst (λ x. holds_right parent x ≡ true) (text_eq→eq held right here) (not-false _ p.0)
      | inr away ↦ holds_right-narrows parent child right p.1 (rw away at f)
    ]

all-narrows :
    {A : Type 0} (p q : A → Bool) (xs : List A)
    → ((x : A) → p x ≡ true → q x ≡ true)
    → all p xs ≡ true
    → all q xs ≡ true
all-narrows p q [] h e = refl
all-narrows p q (x ∷ xs) h e =
    let parts = and_parts (p x) (all p xs) e in rw (h x parts.0, all-narrows p q xs h parts.1) refl

pub permits-narrows :
    (g child : Grant) (needs : List Need)
    → IsNarrower g child
    → permits child needs ≡ ok tt
    → permits g needs ≡ ok tt
unfolding permits
permits-narrows g child needs n e =
    let p = passed _ _ _ e in
    let q = passed _ _ _ p.1 in
    let rights : all (λ need. holds_right g.rights need.right) needs ≡ true =
      all-narrows _ _ needs
        (λ (need : Need) h. holds_right-narrows g.rights child.rights need.right n.rights h)
        (not-false _ p.0) in
    let subjects : all (λ need. covered g.resources need.subject) needs ≡ true =
      all-narrows _ _ needs
        (λ (need : Need) h. covered-narrows g.resources child.resources need.subject n.resources h)
        (not-false _ q.0) in
    rw (rights, subjects) refl

text_le_trans : (a b c : Text) → text_le a b ≡ true → text_le b c ≡ true → text_le a c ≡ true
unfolding text_le
text_le_trans [] b c e f = refl
text_le_trans (x ∷ a) [] c e f = cc
text_le_trans (x ∷ a) (y ∷ b) [] e f = cc
text_le_trans (x ∷ a) (y ∷ b) (z ∷ c) e f = ground (arith, text_le_trans a b c)

expiry-narrows :
    (parent child : Option Text) (now : Text)
    → outlives parent child ≡ false
    → has_expired child now ≡ false
    → has_expired parent now ≡ false
expiry-narrows none child now e f = refl
expiry-narrows (some parent) none now e f = cc
expiry-narrows (some parent) (some child) now e f = elim (Bool-cases (text_le parent now)) [
  | inr live ↦ live
  | inl past ↦ absurd (cc (text_le_trans child parent now (not-false _ e) past))
]

binding-narrows :
    (parent child : Option Binding) (epochs : List (Text × ℤ))
    → rebinds parent child ≡ false
    → is_stale child epochs ≡ false
    → is_stale parent epochs ≡ false
binding-narrows none child epochs e f = refl
binding-narrows (some parent) none epochs e f = cc
binding-narrows (some parent) (some child) epochs e f =
    let p = and_parts _ _ (not-false _ e) in
    let scope = text_eq→eq child.scope parent.scope p.0 in
    let epoch = int_eq→eq child.epoch parent.epoch p.1 in rw (sym scope, sym epoch) f

-- Usable but for its own revocation.
abbrev pub kept : Grant → Grant
kept g = record g { revoked = false }

pub usable-narrows :
    (g child : Grant) (context : Context)
    → IsNarrower g child
    → usable (kept child) context ≡ ok tt
    → usable (kept g) context ≡ ok tt
unfolding usable
usable-narrows g child context n e =
    let p = passed _ _ _ e in
    let q = passed _ _ _ p.1 in
    simp
      (
        expiry-narrows g.expires_at child.expires_at context.now n.expiry p.0,
        binding-narrows g.authority_binding child.authority_binding context.epochs n.binding q.0,
      )
      refl

pub holds_values-holds :
    (within values : Items) (value : Value)
    → holds_values within values ≡ true
    → holds_value values value ≡ true
    → holds_value within value ≡ true
holds_values-holds within no_items value e f = cc
holds_values-holds within (item first more) value e f =
    let p = and_parts (holds_value within first) (holds_values within more) e in
    elim (Bool-cases (value_eq first value)) [
      | inl same ↦ subst (λ x. holds_value within x ≡ true) (value_eq→eq first value same) p.0
      | inr other ↦ holds_values-holds within more value p.1 (rw other at f)
    ]
