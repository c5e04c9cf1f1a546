-- ===== src/Memory/Canonical.antt =====
-- crates/cbr-memory/src/retrieval.rs: the bounded canonical fallback, and one complete source's
-- rows. The entries of a tree and the contents of a blob are git's; the rows of the index are
-- SQLite's.
use cbr.Prelude.Results.{Result, ok, err}
use cbr.Prelude.{
  ℕ, zero, suc, ◌+◌, Bool, true, false, ◌&&◌, ◌||◌, not, Option, none, some, List, [], ◌∷◌, ◌++◌,
  Text, Bytes, codes, text_eq, length, all, any, leb, pos,
}
use cbr.Encoding.Utf8.{next_char}
use cbr.Memory.Chunks.{Chunk, chunk_lines, chunks}
use cbr.Memory.Terms.{Characters, normalise, split_parts}
use cbr.Memory.Retrieval.{
  canonical_read_bytes, saturating_add, canonical, Terms, all_terms, any_term, Ask, Readable, Order,
  Found, Bounds, After, passes,
}

-- An entry of a tree; `contents` is what reading the blob within the bound answers.
pub record Entry : Type 0 where
  pub mode : Text
  pub path : Text
  pub blob : Text
  pub contents : Result (Option Bytes) Text

-- `String::from_utf8`; every character takes a byte, so the length of the input is enough fuel.
unfoldable pub decode_chars : ℕ → Bytes → Option Text
decode_chars fuel [] = some []
decode_chars zero (b ∷ rest) = none
decode_chars (suc fuel) (b ∷ rest) = elim (next_char (b ∷ rest)) [
  | none ↦ none
  | some (c, more) ↦ elim (decode_chars fuel more) [ none ↦ none | some text ↦ some (c ∷ text) ]
]

abbrev pub or_empty : Option Text → Text
or_empty none = []
or_empty (some text) = text

abbrev pub holds : List Text → Text → Bool
holds tokens term = any (λ token. text_eq token term) tokens

abbrev pub matches : Terms → List Text → List Text → Bool
matches all_terms terms tokens = all (λ term. holds tokens term) terms
matches any_term terms tokens = any (λ term. holds tokens term) terms

abbrev pub is_outside : Option Text → Text → Bool
is_outside none path = false
is_outside (some within) path = not (text_eq within path)

-- Neither a regular file nor, when one path is asked for, another path.
abbrev pub is_skipped : Ask → Entry → Bool
is_skipped ask entry =
    not (text_eq entry.mode (codes "100644") || text_eq entry.mode (codes "100755"))
    || is_outside ask.within entry.path

abbrev pub is_text : Bytes → Bool
is_text bytes = elim (decode_chars (length bytes) bytes) [ none ↦ false | some text ↦ true ]

-- A blob that is too large is passed over, and one that cannot be read is an error.
abbrev pub with_contents :
    {A : Type 0}
    → Result (Option Bytes) Text
    → (Bytes → Result A Text)
    → Result A Text
    → Result A Text
with_contents (err error) read skip = err error
with_contents (ok none) read skip = skip
with_contents (ok (some bytes)) read skip = read bytes

module _ {Score : Type 0} (score_cmp : Score → Score → Order) (no_score : Score)
    (chars : Characters) where
  abbrev pub tokens_of : Bytes → List Text
  tokens_of text =
      split_parts (λ c. text_eq (c ∷ []) (codes " ")) []
        (normalise chars (or_empty (decode_chars (length text) text)))

  abbrev pub canonical_row : Readable → Entry → Chunk → Found Score
  canonical_row repository entry chunk = record {
    repository = repository.id;
    path = entry.path;
    blob = entry.blob;
    start_byte = pos chunk.start_byte;
    end_byte = pos chunk.end_byte;
    start_line = chunk.start_line;
    end_line = chunk.end_line;
    score = no_score;
    origin = canonical;
    clipped = false;
  }

  -- The chunks of one text, while rows are wanted.
  unfoldable pub from_chunks :
      Readable
      → Ask
      → List Text
      → Option (After Score)
      → ℕ
      → Entry
      → List Chunk
      → List (Found Score)
      → List (Found Score)
  from_chunks repository ask terms after wanted entry [] found = found
  from_chunks repository ask terms after wanted entry (chunk ∷ more) found =
      elim (leb wanted (length found)) [
        | true ↦ found
        | false ↦
            elim (passes score_cmp after no_score entry.path (pos chunk.start_byte)
              && matches ask.terms terms (tokens_of chunk.text)) [
                | true ↦
                    from_chunks repository ask terms after wanted entry more
                      (found ++ canonical_row repository entry chunk ∷ [])
                | false ↦ from_chunks repository ask terms after wanted entry more found
              ]
      ]

  -- The entries of the tree; `read` is the bytes read so far.
  unfoldable pub from_entries :
      Readable
      → Ask
      → List Text
      → Option (After Score)
      → ℕ
      → List Entry
      → List (Found Score)
      → ℕ
      → Result (List (Found Score) × Bool) Text
  from_entries repository ask terms after wanted [] found read = ok (found, false)
  from_entries repository ask terms after wanted (entry ∷ more) found read =
      elim (leb wanted (length found)) [
        | true ↦ ok (found, false)
        | false ↦ elim (is_skipped ask entry) [
          | true ↦ from_entries repository ask terms after wanted more found read
          | false ↦ elim (leb canonical_read_bytes read) [
            | true ↦ ok (found, true)
            | false ↦
                with_contents entry.contents
                  (λ bytes. elim (is_text bytes) [
                    | true ↦
                        from_entries repository ask terms after wanted more
                          (from_chunks repository ask terms after wanted entry
                            (chunks bytes chunk_lines) found)
                          (read + length bytes)
                    | false ↦
                        from_entries repository ask terms after wanted more found
                          (read + length bytes)
                  ])
                  (from_entries repository ask terms after wanted more found read)
          ]
        ]
      ]

  unfoldable pub from_canonical :
      Result (List Entry) Text
      → Readable
      → Ask
      → List Text
      → Bounds Score
      → Option (After Score)
      → Result (List (Found Score) × Bool) Text
  from_canonical (err error) repository ask terms bounds after = err error
  from_canonical (ok entries) repository ask terms bounds after =
      from_entries repository ask terms after (saturating_add bounds.rows 1) entries [] 0
