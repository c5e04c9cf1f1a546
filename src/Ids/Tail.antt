-- ===== src/Ids/Tail.antt =====
-- The end of an identifier that a shortened one keeps: how long it is, and which bytes it has.
use cbr.Prelude.{
  ℕ, zero, suc, ◌-◌, ◌≤◌, ◌≡◌, refl, arith, Bool, true, false, ◌&&◌, not, Bool-cases, inl, inr,
  Option, none, some, Option-cases, [], ◌∷◌, Bytes, length, length-drop, drop, all, get_or, ◌==◌,
}
use cbr.Ids.Codec.{in_grammar}
use cbr.Ids.Bounded.{
  marks, next_position, last_position, behind, find_from, lowest, or_else, tail_start, tail,
}

find_from-le :
    (test : ℕ → Bool) (from count at : ℕ) → find_from test from count ≡ some at → from ≤ at
unfolding find_from
find_from-le test from zero at e = cc
find_from-le test from (suc count) at e = elim (Bool-cases (test from)) [
  | inl f ↦ ground (arith, e, f)
  | inr f ↦ ground (arith, e, f, find_from-le test (suc from) count at)
]

from-le-or_else :
    (test : ℕ → Bool) (from count other : ℕ)
    → from ≤ other
    → from ≤ or_else (find_from test from count) other
from-le-or_else test from count other h = elim (Option-cases (find_from test from count)) [
  | inl e ↦ rw e h
  | inr (at, e) ↦ rw e (find_from-le test from count at e)
]

behind-next_position :
    (found : Bool) (o : Option ℕ) (k : ℕ) → behind (next_position found o) ≤ suc k → behind o ≤ k
behind-next_position found (some at) k h = omega (arith, h)
behind-next_position found none k h = omega arith

nothing_behind :
    (found : Bool) (o : Option ℕ)
    → behind (next_position found o) ≤ 0
    → (found ≡ false) × (behind o ≤ 0)
nothing_behind found (some at) h = ground arith
nothing_behind true none h = ground arith
nothing_behind false none h = (refl, h)

next_position-behind :
    (found : Bool) (o : Option ℕ) → behind (next_position found o) ≤ suc (behind o)
next_position-behind found (some at) = omega arith
next_position-behind true none = omega arith
next_position-behind false none = omega arith

behind-le : (test : ℕ → Bool) (bytes : Bytes) → behind (last_position test bytes) ≤ length bytes
behind-le test [] = omega arith
behind-le test (byte ∷ more) =
    omega (arith, next_position-behind (test byte) (last_position test more), behind-le test more)

all-drop-behind :
    (test : ℕ → Bool) (k : ℕ) (bytes : Bytes)
    → behind (last_position (λ byte. not (test byte)) bytes) ≤ k
    → all test (drop k bytes) ≡ true
all-drop-behind test zero [] h = refl
all-drop-behind test (suc k) [] h = refl
all-drop-behind test zero (byte ∷ more) h =
    let (kept_here, none_behind) =
      nothing_behind (not (test byte)) (last_position (λ b. not (test b)) more) h in
    ground (arith, kept_here, all-drop-behind test zero more none_behind)
all-drop-behind test (suc k) (byte ∷ more) h =
    all-drop-behind test k more
      (behind-next_position (not (test byte)) (last_position (λ b. not (test b)) more) k h)

lowest-le : (rest : Bytes) (room : ℕ) → lowest rest room ≤ length rest
lowest-le rest room = omega (arith, behind-le (λ byte. not (in_grammar byte)) rest)

lowest-le-tail_start : (rest : Bytes) (room : ℕ) → lowest rest room ≤ tail_start rest room
lowest-le-tail_start rest room =
    from-le-or_else (λ at. get_or rest at 0 == b':' && not (get_or (marks rest) at false))
      (lowest rest room) (length rest - lowest rest room) _
      (from-le-or_else (λ at. not (get_or (marks rest) at false)) (lowest rest room)
        (suc (length rest) - lowest rest room) _ (lowest-le rest room))

pub length-tail : (rest : Bytes) (room : ℕ) → length (tail rest room) ≤ room
unfolding tail
length-tail rest room =
    omega (arith, length-drop (tail_start rest room) rest, lowest-le-tail_start rest room)

pub all-in_grammar-tail : (rest : Bytes) (room : ℕ) → all in_grammar (tail rest room) ≡ true
unfolding tail
all-in_grammar-tail rest room =
    all-drop-behind in_grammar (tail_start rest room) rest
      (omega (arith, lowest-le-tail_start rest room))
