-- ===== src/Memo/Stamps.antt =====
-- The level stamps are sound: an input whose level shows no change has not changed.
use cbr.Prelude.{
  ℕ, ◌≤◌, ◌≡◌, false, some, Text, Bytes, text_eq, text_eq→eq, arith, Bool-cases, inl, inr,
}
use cbr.Memo.Durability.{Durability, level}
use cbr.Memo.Store.{Store, Input, set_input, is_same}

-- Inputs are set, one after the other.
pub data Edits (s : Store) : Store → Type 0 where
  here : Edits s s
  next :
      {t : Store}
      → Edits s t
      → (key : Text) (value : Bytes) (durability : Durability)
      → Edits s (set_input t key value durability).0

-- No stamp is ahead of the revision.
pub record IsStamped (s : Store) : Type 0 where
  pub levels : (l : ℕ) → s.changed l ≤ s.revision

-- Setting an input keeps every level's stamp at or below the revision.
set_input-IsStamped :
    (s : Store) (key : Text) (value : Bytes) (d : Durability)
    → IsStamped s
    → IsStamped (set_input s key value d).0
unfolding set_input
set_input-IsStamped s key value d h = record { levels = λ l. ground (arith, h.levels l) }

revision_grows :
    (s : Store) (key : Text) (value : Bytes) (d : Durability)
    → s.revision ≤ (set_input s key value d).0.revision
unfolding set_input
revision_grows s key value d = ground arith

-- A stamp only grows, when its store is stamped.
stamp_grows :
    (s : Store) (key : Text) (value : Bytes) (d : Durability) (l : ℕ)
    → IsStamped s
    → s.changed l ≤ (set_input s key value d).0.changed l
unfolding set_input
stamp_grows s key value d l h = ground (arith, h.levels l)

-- One edit either leaves an input alone or announces its level.
edit_announces :
    (s : Store) (key : Text) (value : Bytes) (d : Durability) (k : Text) (input : Input)
    → s.inputs k ≡ some input
    → (set_input s key value d).0.changed (level input.durability) ≤ s.revision
    → (set_input s key value d).0.inputs k ≡ some input
unfolding set_input
edit_announces s key value d k input e h = elim (Bool-cases (text_eq key k)) [
  | inl same ↦
      let e' : s.inputs key ≡ some input = rw (text_eq→eq key k same) e in
      elim (Bool-cases (is_same (s.inputs key) value d)) [
        | inl f ↦ rw f e
        | inr f ↦ absurd (announced e' f)
      ]
  | inr other ↦ ground (arith, other)
]
  where
    announced : s.inputs key ≡ some input → is_same (s.inputs key) value d ≡ false → ⊥
    announced e' f = ground (arith, e', f, h)

Edits-IsStamped : {s t : Store} → IsStamped s → Edits s t → IsStamped t
Edits-IsStamped h here = h
Edits-IsStamped h (next {t} edits key value d) =
    set_input-IsStamped t key value d (Edits-IsStamped h edits)

Edits-revision : {s t : Store} → Edits s t → s.revision ≤ t.revision
Edits-revision {s} here = omega arith
Edits-revision {s} (next {t} edits key value d) =
    omega (arith, Edits-revision edits, revision_grows t key value d)

-- An input whose level, the one that it had at the start, has been announced by no edit since
-- then is as it was: a memo may trust the level that it recorded, whatever durabilities the
-- inputs were given in between.
pub shallow_verification_sound :
    {s t : Store} (k : Text) (input : Input)
    → IsStamped s
    → Edits s t
    → s.inputs k ≡ some input
    → t.changed (level input.durability) ≤ s.revision
    → t.inputs k ≡ some input
shallow_verification_sound k input stamped here e h = e
shallow_verification_sound {s} k input stamped (next {t} edits key value d) e h =
    let before = Edits-IsStamped stamped edits in
    let grown = stamp_grows t key value d (level input.durability) before in
    let e' = shallow_verification_sound k input stamped edits e (omega arith) in
    edit_announces t key value d k input e' (omega (arith, Edits-revision edits))
