-- ===== src/Memory/Search.antt =====
-- crates/cbr-memory/src/retrieval.rs: a search over the caller's view. What the tables answer, and
-- the entries of a tree, are parameters.
use cbr.Prelude.Results.{Result, ok, err, ◌>>=◌}
use cbr.Prelude.{
  ℕ, ◌+◌, Bool, true, false, ◌&&◌, ◌||◌, not, Option, none, some, List, [], ◌∷◌, ◌++◌, Text, codes,
  text_eq, length, all, any, leb, ltb, if◌then◌else◌, ℤ, pos, pos_part, ◌-ℤ◌, ◌+ℤ◌,
}
use cbr.Encoding.Decimal.{digits}
use cbr.Memory.Terms.{Characters, query_terms}
use cbr.Memory.Canonical.{Entry, from_canonical}
use cbr.Memory.Retrieval.{
  compiler, canonical_read_bytes, saturating_add, State, complete, lagging, unavailable,
  is_complete, state_name, index, is_canonical, Truncation, Manifest, Source, Ask, Readable, Order,
  is_greater, text_cmp, Found, Cursor, Bounds, Answer, After, after, compare_keys, cursor_of,
}

-- `lexical::Hit`
pub record Hit (Score : Type 0) : Type 0 where
  pub path : Text
  pub blob : Text
  pub start_byte : ℤ
  pub end_byte : ℤ
  pub start_line : ℕ
  pub end_line : ℕ
  pub score : Score

abbrev pub state_of : Option Manifest → Text → State
state_of none basis = unavailable
state_of (some manifest) basis =
    if text_eq manifest.frontier basis && text_eq manifest.compiler compiler
    then complete
    else lagging

abbrev pub is_empty {ℓ} : {A : Type ℓ} → List A → Bool
is_empty [] = true
is_empty (x ∷ xs) = false

abbrev pub is_some {ℓ} : {A : Type ℓ} → Option A → Bool
is_some none = false
is_some (some a) = true

-- A stable sort: each element in front of the first that is greater.
module _ {A : Type 0} (cmp : A → A → Order) where
  abbrev pub insert : A → List A → List A
  insert a [] = a ∷ []
  insert a (b ∷ sorted) = elim (is_greater (cmp a b)) [
    | true ↦ b ∷ insert a sorted
    | false ↦ a ∷ b ∷ sorted
  ]

  abbrev pub sort : List A → List A
  sort [] = []
  sort (a ∷ as_given) = insert a (sort as_given)

module _ {Score : Type 0} where
  abbrev pub clip : ℕ → Found Score → Found Score
  clip span_bytes candidate =
      if ltb span_bytes (pos_part (candidate.end_byte -ℤ candidate.start_byte))
      then record candidate { end_byte = candidate.start_byte +ℤ pos span_bytes; clipped = true }
      else candidate

  abbrev pub span_of : Found Score → ℕ
  span_of found = pos_part (found.end_byte -ℤ found.start_byte)

  -- The loop over the candidates: the page, and which cap ended it.
  unfoldable pub page :
      Bounds Score
      → List (Found Score)
      → List (Found Score)
      → ℕ
      → List (Found Score) × Option Truncation
  page bounds [] found bytes = (found, none)
  page bounds (candidate ∷ more) found bytes = elim (leb bounds.rows (length found)) [
    | true ↦ (found, some Truncation.rows)
    | false ↦
        elim (not (is_empty found)
          && ltb bounds.batch_bytes
              (saturating_add bytes (span_of (clip bounds.span_bytes candidate)))) [
                | true ↦ (found, some Truncation.bytes)
                | false ↦
                    page bounds more (found ++ clip bounds.span_bytes candidate ∷ [])
                      (bytes + span_of (clip bounds.span_bytes candidate))
              ]
  ]

  abbrev pub last : List (Found Score) → Option (Found Score)
  last [] = none
  last (found ∷ []) = some found
  last (found ∷ next ∷ more) = last (next ∷ more)

  abbrev pub answers_for : Source → Found Score → Bool
  answers_for source found = text_eq found.repository source.repository && is_canonical found.origin

  -- `Answer::declares_its_gaps`
  abbrev pub is_declared : List (Found Score) → Source → Bool
  is_declared found source =
      is_complete source.state || (is_some source.reason || any (answers_for source) found)

  abbrev pub declares_its_gaps : Answer Score → Bool
  declares_its_gaps answer = all (is_declared answer.found) answer.sources

  abbrev pub hit_row : Readable → Hit Score → Found Score
  hit_row repository hit = record {
    repository = repository.id;
    path = hit.path;
    blob = hit.blob;
    start_byte = hit.start_byte;
    end_byte = hit.end_byte;
    start_line = hit.start_line;
    end_line = hit.end_line;
    score = hit.score;
    origin = index;
    clipped = false;
  }

  abbrev pub hit_rows : Readable → List (Hit Score) → List (Found Score)
  hit_rows repository [] = []
  hit_rows repository (hit ∷ hits) = hit_row repository hit ∷ hit_rows repository hits

-- What a fallback answers, with the reason for what it lacks.
abbrev pub fallback_reason {ℓ} :
    {A : Type ℓ} → State → Result (List A × Bool) Text → List A × Option Text
fallback_reason state (ok (found, true)) = (
  found,
  some (
      codes "the "
      ++ state_name state
      ++ codes " projection's canonical fallback stopped at its "
      ++ digits canonical_read_bytes
      ++ codes "-byte read budget"),
)
fallback_reason state (ok ([], false)) = (
  [],
  some (
      codes "the projection is "
      ++ state_name state
      ++ codes " and the canonical fallback found nothing at this basis"),
)
fallback_reason state (ok (first ∷ found, false)) = (first ∷ found, none)
fallback_reason state (err error) = (
  [],
  some (
      codes "the projection is "
      ++ state_name state
      ++ codes " and its canonical records could not be read: "
      ++ error),
)

module _ {Score : Type 0} (score_cmp : Score → Score → Order) where
  abbrev pub next_cursor : List (Found Score) → List (Found Score) → Option (Cursor Score)
  next_cursor candidates found =
      if ltb (length found) (length candidates)
      then elim (last found) [ none ↦ none | some row ↦ some (cursor_of score_cmp row) ]
      else none

  abbrev pub answer_of : Bounds Score → List (Found Score) → List Source → Answer Score
  answer_of bounds candidates sources =
      let shown = page bounds candidates [] 0 in
      let cursor = next_cursor candidates shown.0 in
      record {
        found = shown.0;
        sources = sources;
        cursor = cursor;
        truncated = elim cursor [ none ↦ none | some c ↦ shown.1 ];
      }

module _ {Score : Type 0} (score_cmp : Score → Score → Order) (no_score : Score)
    (chars : Characters) (manifest_of : Text → Result (Option Manifest) Text)
    (search_after : Text → Ask → Option (After Score) → ℕ → Result (List (Hit Score)) Text)
    (tree_entries : Readable → Result (List Entry) Text) where
  unfoldable pub from_index :
      Readable → Text → Ask → Bounds Score → Option (After Score) → Result (List (Found Score)) Text
  from_index repository frontier ask bounds after = do
    hits ← search_after frontier ask after (saturating_add bounds.rows 1)
    ok (hit_rows repository hits)

  abbrev pub source_of : Readable → State → Option Text → Source
  source_of repository state reason = record {
    repository = repository.id;
    frontier = some repository.basis;
    state = state;
    reason = reason;
  }

  -- A repository's rows, in its state; a complete one's frontier is the basis.
  unfoldable pub rows_of :
      Readable → Ask → List Text → Bounds Score → State → Result (List (Found Score) × Source) Text
  rows_of repository ask terms bounds complete = do
    rows ← from_index repository repository.basis ask bounds (after score_cmp bounds repository.id)
    ok (rows, source_of repository complete none)
  rows_of repository ask terms bounds state =
      let (rows, reason) = fallback_reason state (
        from_canonical score_cmp no_score chars (tree_entries repository) repository ask terms
          bounds (after score_cmp bounds repository.id)) in
      ok (rows, source_of repository state reason)

  -- An empty query matches nothing anywhere, which is not a gap.
  unfoldable pub search_one :
      Ask → List Text → Bounds Score → Readable → Result (List (Found Score) × Source) Text
  search_one ask terms bounds repository = do
    manifest ← manifest_of repository.id
    if is_empty terms
        then ok ([], source_of repository complete none)
        else rows_of repository ask terms bounds (state_of manifest repository.basis)

  unfoldable pub gather :
      Ask
      → List Text
      → Bounds Score
      → List Readable
      → Result (List (Found Score) × List Source) Text
  gather ask terms bounds [] = ok ([], [])
  gather ask terms bounds (repository ∷ more) = do
    one ← search_one ask terms bounds repository
    others ← gather ask terms bounds more
    ok (one.0 ++ others.0, one.1 ∷ others.1)

  unfoldable pub search : List Readable → Ask → Bounds Score → Result (Answer Score) Text
  search view ask bounds = do
    gathered ←
        gather ask (query_terms chars ask.query) bounds (sort (λ a b. text_cmp a.id b.id) view)
    ok (
        answer_of score_cmp bounds
          (sort (λ a b. compare_keys score_cmp (cursor_of score_cmp a) (cursor_of score_cmp b))
            gathered.0)
          gathered.1)
