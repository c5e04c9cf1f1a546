-- ===== src/Memory/Retrieval.antt =====
-- crates/cbr-memory/src/retrieval.rs: the records of a search, and its keyset order. A score is an
-- f64 that is not NaN: a parameter, with the comparison of the standard library.
use cbr.Prelude.{
  ℕ, ◌+◌, ◌*◌, min, ◌-◌, ◌^◌, Bool, true, false, ◌&&◌, ◌||◌, Option, none, some, List, [], ◌∷◌,
  Text, codes, ltb, ◌==◌, if◌then◌else◌, ℤ, negsuc, ltb_ℤ,
}

abbrev pub compiler : Text
compiler = codes "cbr-index/2"

abbrev pub canonical_read_bytes : ℕ
canonical_read_bytes = 8 * 2 ^ 20

-- `usize::saturating_add`
abbrev pub saturating_add : ℕ → ℕ → ℕ
saturating_add a b = min (a + b) (2 ^ 64 - 1)

pub data State : Type 0 where
  complete lagging unavailable : State

abbrev pub is_complete : State → Bool
is_complete complete = true
is_complete lagging = false
is_complete unavailable = false

abbrev pub state_name : State → Text
state_name complete = codes "complete"
state_name lagging = codes "lagging"
state_name unavailable = codes "unavailable"

pub data Origin : Type 0 where
  index canonical : Origin

abbrev pub is_canonical : Origin → Bool
is_canonical canonical = true
is_canonical index = false

pub data Truncation : Type 0 where
  rows bytes : Truncation

pub data Terms : Type 0 where
  all_terms any_term : Terms

-- The part of a manifest that a search reads.
pub record Manifest : Type 0 where
  pub frontier : Text
  pub compiler : Text

pub record Source : Type 0 where
  pub repository : Text
  pub frontier : Option Text
  pub state : State
  pub reason : Option Text

pub record Ask : Type 0 where
  pub query : Text
  pub within : Option Text
  pub terms : Terms

pub record Readable : Type 0 where
  pub id : Text
  pub basis : Text

pub data Order : Type 0 where
  less equal greater : Order

abbrev pub is_greater : Order → Bool
is_greater greater = true
is_greater less = false
is_greater equal = false

abbrev pub is_equal : Order → Bool
is_equal equal = true
is_equal less = false
is_equal greater = false

-- The next component of a tuple decides where this one does not.
abbrev pub then_with : Order → Order → Order
then_with less later = less
then_with equal later = later
then_with greater later = greater

abbrev pub number_cmp : ℕ → ℕ → Order
number_cmp a b = if ltb a b then less else if a == b then equal else greater

unfoldable pub text_cmp : Text → Text → Order
text_cmp [] [] = equal
text_cmp [] (y ∷ ys) = less
text_cmp (x ∷ xs) [] = greater
text_cmp (x ∷ xs) (y ∷ ys) = then_with (number_cmp x y) (text_cmp xs ys)

abbrev pub int_cmp : ℤ → ℤ → Order
int_cmp a b = if ltb_ℤ a b then less else if ltb_ℤ b a then greater else equal

module _ (Score : Type 0) where
  pub record Found : Type 0 where
    pub repository : Text
    pub path : Text
    pub blob : Text
    pub start_byte : ℤ
    pub end_byte : ℤ
    pub start_line : ℕ
    pub end_line : ℕ
    pub score : Score
    pub origin : Origin
    pub clipped : Bool

  pub record Cursor : Type 0 where
    pub score : Score
    pub repository : Text
    pub path : Text
    pub start_byte : ℤ

  pub record Bounds : Type 0 where
    pub rows : ℕ
    pub cursor : Option Cursor
    pub span_bytes : ℕ
    pub batch_bytes : ℕ

  pub record Answer : Type 0 where
    pub found : List Found
    pub sources : List Source
    pub cursor : Option Cursor
    pub truncated : Option Truncation

  -- `lexical::After`
  pub record After : Type 0 where
    pub score : Score
    pub path : Text
    pub start_byte : ℤ
    pub include_equal_score : Bool

module _ {Score : Type 0} (score_cmp : Score → Score → Order) where
  -- The match on the order of a source's repository and the cursor's.
  abbrev pub after_at : Order → Cursor Score → After Score
  after_at equal cursor = record {
    score = cursor.score;
    path = cursor.path;
    start_byte = cursor.start_byte;
    include_equal_score = true;
  }
  after_at greater cursor = record {
    score = cursor.score;
    path = [];
    start_byte = negsuc 0;
    include_equal_score = true;
  }
  after_at less cursor = record {
    score = cursor.score;
    path = [];
    start_byte = negsuc 0;
    include_equal_score = false;
  }

  abbrev pub after_of : Option (Cursor Score) → Text → Option (After Score)
  after_of none repository = none
  after_of (some cursor) repository = some (after_at (text_cmp repository cursor.repository) cursor)

  unfoldable pub after : Bounds Score → Text → Option (After Score)
  after bounds repository = after_of bounds.cursor repository

  unfoldable pub passes : Option (After Score) → Score → Text → ℤ → Bool
  passes none score path start_byte = true
  passes (some after) score path start_byte =
      is_greater (score_cmp score after.score)
      || (after.include_equal_score
          && (is_equal (score_cmp score after.score)
              && (is_greater (text_cmp path after.path)
                  || (is_equal (text_cmp path after.path) && ltb_ℤ after.start_byte start_byte))))

  -- `order(left).partial_cmp(&order(right))`, over the components of the two tuples.
  abbrev pub compare_keys : Cursor Score → Cursor Score → Order
  compare_keys a b = then_with (score_cmp a.score b.score) (
      then_with (text_cmp a.repository b.repository)
        (then_with (text_cmp a.path b.path) (int_cmp a.start_byte b.start_byte)))

  abbrev pub cursor_of : Found Score → Cursor Score
  cursor_of found = record {
    score = found.score;
    repository = found.repository;
    path = found.path;
    start_byte = found.start_byte;
  }
