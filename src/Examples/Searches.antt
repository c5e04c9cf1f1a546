-- ===== src/Examples/Searches.antt =====
-- Runs of the chunks and of the search.
use cbr.Prelude.Results.{Result, ok}
use cbr.Prelude.{
  ℕ, ◌≡◌, refl, arith, Bool, true, false, ◌||◌, Option, none, some, List, [], ◌∷◌, Text, codes, max,
  in_range, pos, text_eq, ◌+ℤ◌, ◌-ℤ◌,
}
use cbr.Encoding.Utf8.{next_char}
use cbr.Encoding.Decimal.{digits, digits_from}
use cbr.Memory.Chunks.{chunks, chunks_bounded, scan, last_chunk}
use cbr.Memory.Tiled.{IsTiling, texts}
use cbr.Memory.Tiling.{chunks_bounded-IsTiling}
use cbr.Memory.Terms.{
  Characters, query_terms, split_parts, split_identifier, identifier_parts, normalise,
}
use cbr.Memory.Canonical.{Entry, from_canonical, from_entries, from_chunks, decode_chars}
use cbr.Memory.Retrieval.{
  unavailable, canonical, Manifest, Readable, Ask, all_terms, number_cmp, text_cmp, is_greater,
  Found, Cursor, Bounds, Answer, After, after, passes, compare_keys, cursor_of,
}
use cbr.Memory.Search.{Hit, search, gather, search_one, rows_of, page, declares_its_gaps}
use cbr.Memory.Keyset.{passes-compare_keys}
use cbr.Memory.Gaps.{search-declares_its_gaps}

chunks_bounded-IsTiling_example :
    IsTiling (max 1 1) (max 8 1) 0 1 (chunks_bounded (codes "ab\nc\nd") 1 8)
    × (texts (chunks_bounded (codes "ab\nc\nd") 1 8) ≡ codes "ab\nc\nd")
chunks_bounded-IsTiling_example = chunks_bounded-IsTiling (codes "ab\nc\nd") 1 8

-- Two lines that end in line feeds, not cut: the last line is given as 3.
last_line_over :
    chunks_bounded (codes "a\nb\n") 20 2048
    ≡ record { text = codes "a\nb\n"; start_byte = 0; end_byte = 4; start_line = 1; end_line = 3 }
      ∷ []
unfolding chunks_bounded scan last_chunk
last_line_over = refl

abbrev row : Text → Text → Found ℕ
row repository path = record {
  repository = repository;
  path = path;
  blob = codes "b";
  start_byte = pos 0;
  end_byte = pos 6;
  start_line = 1;
  end_line = 2;
  score = 0;
  origin = canonical;
  clipped = false;
}

abbrev cursor : Cursor ℕ
cursor = record { score = 0; repository = codes "q"; path = codes "z"; start_byte = pos 4 }

abbrev bounds_behind : Bounds ℕ
bounds_behind = record { rows = 5; cursor = some cursor; span_bytes = 100; batch_bytes = 1000 }

passes-compare_keys_example :
    passes number_cmp (after number_cmp bounds_behind (codes "r")) 0 (codes "f") (pos 0)
    ≡ is_greater
        (compare_keys number_cmp (cursor_of number_cmp (row (codes "r") (codes "f"))) cursor)
passes-compare_keys_example =
    passes-compare_keys number_cmp bounds_behind cursor (row (codes "r") (codes "f")) refl refl

abbrev is_letter : ℕ → Bool
is_letter c = in_range b'a' b'z' c || in_range b'A' b'Z' c

abbrev letters : Characters
letters = record {
  is_alphanumeric = λ c. is_letter c || in_range b'0' b'9' c;
  is_alphabetic = is_letter;
  is_numeric = λ c. in_range b'0' b'9' c;
  is_lowercase = λ c. in_range b'a' b'z' c;
  is_uppercase = λ c. in_range b'A' b'Z' c;
  to_lowercase = λ text. text;
}

-- No repository is indexed.
abbrev no_manifest : Text → Result (Option Manifest) Text
no_manifest repository = ok none

abbrev no_hits : Text → Ask → Option (After ℕ) → ℕ → Result (List (Hit ℕ)) Text
no_hits tree ask position limit = ok []

abbrev one_file : Readable → Result (List Entry) Text
one_file repository = ok (
    record {
      mode = codes "100644";
      path = codes "f";
      blob = codes "b";
      contents = ok (some (codes "hello\n"));
    }
    ∷ [])

abbrev view : List Readable
view = record { id = codes "r"; basis = codes "t" } ∷ []

abbrev ask : Ask
ask = record { query = codes "hello"; within = none; terms = all_terms }

abbrev bounds : Bounds ℕ
bounds = record { rows = 5; cursor = none; span_bytes = 100; batch_bytes = 1000 }

abbrev answer : Answer ℕ
answer = record {
  found = row (codes "r") (codes "f") ∷ [];
  sources =
      record {
        repository = codes "r";
        frontier = some (codes "t");
        state = unavailable;
        reason = none;
      }
      ∷ [];
  cursor = none;
  truncated = none;
}

search_answers :
    search number_cmp 0 letters no_manifest no_hits one_file view ask bounds ≡ ok answer
unfolding search gather search_one query_terms split_parts split_identifier identifier_parts rows_of
    page from_canonical from_entries text_eq decode_chars next_char from_chunks chunks
    chunks_bounded scan last_chunk digits digits_from after passes text_cmp normalise ◌+ℤ◌ ◌-ℤ◌
search_answers = refl

search-declares_its_gaps_example : declares_its_gaps answer ≡ true
search-declares_its_gaps_example =
    search-declares_its_gaps number_cmp 0 letters no_manifest no_hits one_file view ask bounds
      answer (omega arith) search_answers refl
