-- ===== src/Memory/Gaps.antt =====
-- A whole answer says what it lacks.
use cbr.Prelude.Results.{Result, ok, err, Ensures, Ensures-bind, Ensures-ok, Ensures-any}
use cbr.Prelude.{
  ℕ, ◌+◌, ◌≤◌, ◌≡◌, refl, ap, ◌∙◌, arith, subst, Bool, true, false, ◌&&◌, Bool-cases, ◌⊎◌, inl, inr,
  Option, none, some, List, [], ◌∷◌, ◌++◌, Text, All, text_eq, text_eq_refl, length, any, leb,
  leb→le, ltb, if◌then◌else◌, pos,
}
use cbr.Memory.Chunks.{Chunk, chunk_lines, chunks}
use cbr.Memory.Terms.{Characters, query_terms}
use cbr.Memory.Canonical.{
  Entry, is_skipped, is_text, canonical_row, matches, tokens_of, from_chunks, from_entries,
  from_canonical,
}
use cbr.Memory.Retrieval.{
  State, complete, lagging, unavailable, is_complete, is_canonical, Manifest, Source, Ask, Readable,
  Order, Found, Bounds, Answer, After, after, cursor_of, canonical_read_bytes, text_cmp,
  compare_keys, saturating_add, passes,
}
use cbr.Memory.Search.{
  Hit, is_empty, sort, clip, span_of, page, last, answers_for, is_declared, declares_its_gaps,
  fallback_reason, state_of, from_index, rows_of, search_one, gather, next_cursor, answer_of,
  search,
}
use cbr.Memory.Shown.{
  pick, pick_if, pick_contents, row_declares, or-true, any-append, any-sort, All-implied, All-snoc,
  all-of, is_declared-more, clips, any-clips, page-length, page-IsWhole,
}

module _ {Score : Type 0} (score_cmp : Score → Score → Order) (no_score : Score)
    (chars : Characters) where
  abbrev IsRow : Readable → Found Score → Type 0
  IsRow repository row = (row.repository ≡ repository.id) × (is_canonical row.origin ≡ true)

  from_chunks-IsRow :
      (repository : Readable) (ask : Ask) (terms : List Text) (after : Option (After Score))
      (wanted : ℕ) (entry : Entry) (cs : List Chunk) (found : List (Found Score))
      → All (IsRow repository) found
      → All
          (IsRow repository)
          (from_chunks score_cmp no_score chars repository ask terms after wanted entry cs found)
  unfolding from_chunks
  from_chunks-IsRow repository ask terms after wanted entry [] found h = h
  from_chunks-IsRow repository ask terms after wanted entry (c ∷ cs) found h =
      pick (All (IsRow repository)) (leb wanted (length found)) _ _ h (
        pick (All (IsRow repository))
          (passes score_cmp after no_score entry.path (pos c.start_byte)
            && matches ask.terms terms (tokens_of score_cmp no_score chars c.text))
          _ _
          (from_chunks-IsRow repository ask terms after wanted entry cs
            (found ++ canonical_row score_cmp no_score chars repository entry c ∷ [])
            (All-snoc (IsRow repository) found
              (canonical_row score_cmp no_score chars repository entry c) h (refl, refl)))
          (from_chunks-IsRow repository ask terms after wanted entry cs found h))

  from_entries-IsRow :
      (repository : Readable) (ask : Ask) (terms : List Text) (after : Option (After Score))
      (wanted : ℕ) (entries : List Entry) (found : List (Found Score)) (read : ℕ)
      → All (IsRow repository) found
      → Ensures
          (λ r. All (IsRow repository) r.0)
          (from_entries score_cmp no_score chars repository ask terms after wanted entries found
            read)
  unfolding from_entries
  from_entries-IsRow repository ask terms after wanted [] found read h = h
  from_entries-IsRow repository ask terms after wanted (entry ∷ more) found read h =
      let P =
        Ensures {A = List (Found Score) × Bool} {E = Text} (λ r. All (IsRow repository) r.0) in
      pick P (leb wanted (length found)) _ _ h (
        pick P (is_skipped ask entry) _ _
          (from_entries-IsRow repository ask terms after wanted more found read h)
          (pick P (leb canonical_read_bytes read) _ _ h (
            pick_contents P entry.contents _ _
              (λ bytes.
                pick P (is_text bytes) _ _
                  (from_entries-IsRow repository ask terms after wanted more
                    (from_chunks score_cmp no_score chars repository ask terms after wanted entry
                      (chunks bytes chunk_lines) found)
                    (read + length bytes)
                    (from_chunks-IsRow repository ask terms after wanted entry
                      (chunks bytes chunk_lines) found h))
                  (from_entries-IsRow repository ask terms after wanted more found
                    (read + length bytes) h))
              (from_entries-IsRow repository ask terms after wanted more found read h)
              (λ error. tt))))

  fallback-declared :
      (state : State) (m : Result (List (Found Score) × Bool) Text) (repository : Readable)
      → Ensures (λ r. All (IsRow repository) r.0) m
      → is_declared (fallback_reason state m).0 (record {
        repository = repository.id;
        frontier = some repository.basis;
        state = state;
        reason = (fallback_reason state m).1;
      })
        ≡ true
  fallback-declared state (err error) repository h = or-true (is_complete state)
  fallback-declared state (ok (found, true)) repository h = or-true (is_complete state)
  fallback-declared state (ok ([], false)) repository h = or-true (is_complete state)
  fallback-declared state (ok (row ∷ found, false)) repository h =
      row_declares (is_complete state) _ _ _
        (subst (λ t. text_eq row.repository t ≡ true) h.0.0 (text_eq_refl row.repository)) h.0.1

  from_canonical-IsRow :
      (entries : Result (List Entry) Text) (repository : Readable) (ask : Ask) (terms : List Text)
      (bounds : Bounds Score) (after : Option (After Score))
      → Ensures
          (λ r. All (IsRow repository) r.0)
          (from_canonical score_cmp no_score chars entries repository ask terms bounds after)
  unfolding from_canonical
  from_canonical-IsRow (err error) repository ask terms bounds after = tt
  from_canonical-IsRow (ok entries) repository ask terms bounds after =
      from_entries-IsRow repository ask terms after (saturating_add bounds.rows 1) entries [] 0 tt

module _ {Score : Type 0} (score_cmp : Score → Score → Order) where
  last-length : (xs : List (Found Score)) → last xs ≡ none → length xs ≡ 0
  last-length [] e = refl
  last-length (x ∷ []) e = cc
  last-length (x ∷ y ∷ xs) e = absurd (omega (arith, last-length (y ∷ xs) e))

  cursor_none :
      (b : Bool) (o : Option (Found Score))
      → (if b then (elim o [ none ↦ none | some row ↦ some (cursor_of score_cmp row) ]) else none)
        ≡ none
      → (b ≡ false) ⊎ (o ≡ none)
  cursor_none false o e = inl refl
  cursor_none true none e = inr refl
  cursor_none true (some row) e = cc

  first_shown :
      (bounds : Bounds Score) (candidates : List (Found Score))
      → 1 ≤ bounds.rows
      → 1 ≤ length candidates
      → 1 ≤ length (page bounds candidates [] 0).0
  unfolding page
  first_shown bounds [] h k = absurd (omega (arith, k))
  first_shown bounds (x ∷ xs) h k = elim (Bool-cases (leb bounds.rows 0)) [
    | inl e ↦ absurd (omega (arith, h, leb→le bounds.rows 0 e))
    | inr e ↦
        rw (e, page)
          (page-length bounds xs (clip bounds.span_bytes x ∷ [])
            (0 + span_of (clip bounds.span_bytes x)))
  ]

  -- Without a cursor the page is every candidate.
  no_cursor-whole :
      (bounds : Bounds Score) (candidates : List (Found Score))
      → 1 ≤ bounds.rows
      → next_cursor score_cmp candidates (page bounds candidates [] 0).0 ≡ none
      → (page bounds candidates [] 0).0 ≡ clips bounds.span_bytes candidates
  no_cursor-whole bounds candidates h e =
      let shown = (page bounds candidates [] 0).0 in
      let whole = page-IsWhole bounds candidates [] 0 in
      elim (cursor_none (ltb (length shown) (length candidates)) (last shown) e) [
        | inl f ↦ whole (ground (arith, f))
        | inr f ↦ whole (elim (Bool-cases (leb 1 (length candidates))) [
          | inl g ↦ absurd (
              omega (
                arith,
                last-length shown f,
                first_shown bounds candidates h (leb→le 1 (length candidates) g),
              ))
          | inr g ↦ ground (arith, g)
        ])
      ]

  answer_of-declares :
      (bounds : Bounds Score) (candidates : List (Found Score)) (sources : List Source)
      → 1 ≤ bounds.rows
      → All (λ source. is_declared candidates source ≡ true) sources
      → (answer_of score_cmp bounds candidates sources).cursor ≡ none
      → declares_its_gaps (answer_of score_cmp bounds candidates sources) ≡ true
  answer_of-declares bounds candidates sources h k e =
      let whole = no_cursor-whole bounds candidates h e in
      all-of (is_declared (page bounds candidates [] 0).0) sources (
        All-implied
          (λ source. is_declared-more source candidates (page bounds candidates [] 0).0 (λ f.
            ap (any (answers_for source)) whole
            ∙ any-clips source bounds.span_bytes candidates
            ∙ f))
          sources k)

module _ {Score : Type 0} (score_cmp : Score → Score → Order) (no_score : Score)
    (chars : Characters) (manifest_of : Text → Result (Option Manifest) Text)
    (search_after : Text → Ask → Option (After Score) → ℕ → Result (List (Hit Score)) Text)
    (tree_entries : Readable → Result (List Entry) Text) where
  abbrev Declares : List (Found Score) × Source → Type 0
  Declares r = is_declared r.0 r.1 ≡ true

  rows_of-Declares :
      (repository : Readable) (ask : Ask) (terms : List Text) (bounds : Bounds Score)
      (state : State)
      → Ensures Declares (
          rows_of score_cmp no_score chars manifest_of search_after tree_entries repository ask
            terms bounds state)
  unfolding rows_of
  rows_of-Declares repository ask terms bounds complete =
      Ensures-bind _ Declares
        (from_index score_cmp no_score chars manifest_of search_after tree_entries repository
          repository.basis ask bounds (after score_cmp bounds repository.id))
        _
        (Ensures-any (
          from_index score_cmp no_score chars manifest_of search_after tree_entries repository
            repository.basis ask bounds (after score_cmp bounds repository.id)))
        (λ rows u. refl)
  rows_of-Declares repository ask terms bounds lagging =
      fallback-declared score_cmp no_score chars lagging _ repository (
        from_canonical-IsRow score_cmp no_score chars (tree_entries repository) repository ask terms
          bounds (after score_cmp bounds repository.id))
  rows_of-Declares repository ask terms bounds unavailable =
      fallback-declared score_cmp no_score chars unavailable _ repository (
        from_canonical-IsRow score_cmp no_score chars (tree_entries repository) repository ask terms
          bounds (after score_cmp bounds repository.id))

  search_one-Declares :
      (ask : Ask) (terms : List Text) (bounds : Bounds Score) (repository : Readable)
      → Ensures Declares (
          search_one score_cmp no_score chars manifest_of search_after tree_entries ask terms bounds
            repository)
  unfolding search_one
  search_one-Declares ask terms bounds repository =
      Ensures-bind _ Declares (manifest_of repository.id) _
        (Ensures-any (manifest_of repository.id))
        (λ manifest u.
          pick_if (Ensures Declares) (is_empty terms) _ _ refl
            (rows_of-Declares repository ask terms bounds (state_of manifest repository.basis)))

  abbrev AllDeclare : List (Found Score) × List Source → Type 0
  AllDeclare r = All (λ source. is_declared r.0 source ≡ true) r.1

  gather-AllDeclare :
      (ask : Ask) (terms : List Text) (bounds : Bounds Score) (view : List Readable)
      → Ensures AllDeclare (
          gather score_cmp no_score chars manifest_of search_after tree_entries ask terms bounds
            view)
  unfolding gather
  gather-AllDeclare ask terms bounds [] = tt
  gather-AllDeclare ask terms bounds (repository ∷ more) =
      Ensures-bind Declares AllDeclare
        (search_one score_cmp no_score chars manifest_of search_after tree_entries ask terms bounds
          repository)
        _ (search_one-Declares ask terms bounds repository)
        (λ one h.
          Ensures-bind AllDeclare AllDeclare
            (gather score_cmp no_score chars manifest_of search_after tree_entries ask terms bounds
              more)
            _ (gather-AllDeclare ask terms bounds more)
            (λ others k. (
              is_declared-more one.1 one.0 (one.0 ++ others.0)
                  (λ e. rw (any-append (answers_for one.1) one.0 others.0, e) refl) h,
              All-implied
                  (λ source. is_declared-more source others.0 (one.0 ++ others.0) (λ e.
                    rw (any-append (answers_for source) one.0 others.0, e)
                      (or-true (any (answers_for source) one.0))))
                  others.1 k,
            )))

  search-Ensures :
      (view : List Readable) (ask : Ask) (bounds : Bounds Score)
      → 1 ≤ bounds.rows
      → Ensures
          (λ answer. answer.cursor ≡ none → declares_its_gaps answer ≡ true)
          (search score_cmp no_score chars manifest_of search_after tree_entries view ask bounds)
  unfolding search
  search-Ensures view ask bounds h =
      Ensures-bind AllDeclare _
        (gather score_cmp no_score chars manifest_of search_after tree_entries ask
          (query_terms chars ask.query) bounds (sort (λ a b. text_cmp a.id b.id) view))
        _
        (gather-AllDeclare ask (query_terms chars ask.query) bounds
          (sort (λ a b. text_cmp a.id b.id) view))
        (λ gathered k.
          let cmp = λ (a b : Found Score).
            compare_keys score_cmp (cursor_of score_cmp a) (cursor_of score_cmp b) in
          answer_of-declares score_cmp bounds (sort cmp gathered.0) gathered.1 h (
            All-implied
              (λ source.
                is_declared-more source gathered.0 (sort cmp gathered.0)
                  (λ e. any-sort cmp (answers_for source) gathered.0 ∙ e))
              gathered.1 k))

  -- An answer that is the last page, so that it has no cursor, declares its gaps: each source that
  -- is less than complete has a reason, or a row from the canonical records stands in the answer.
  -- At least one row is asked for.
  pub search-declares_its_gaps :
      (view : List Readable) (ask : Ask) (bounds : Bounds Score) (answer : Answer Score)
      → 1 ≤ bounds.rows
      → search score_cmp no_score chars manifest_of search_after tree_entries view ask bounds
        ≡ ok answer
      → answer.cursor ≡ none
      → declares_its_gaps answer ≡ true
  search-declares_its_gaps view ask bounds answer h e =
      Ensures-ok (λ a. a.cursor ≡ none → declares_its_gaps a ≡ true)
        (search score_cmp no_score chars manifest_of search_after tree_entries view ask bounds)
        answer (search-Ensures view ask bounds h) e
