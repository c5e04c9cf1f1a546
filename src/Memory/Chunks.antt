-- ===== src/Memory/Chunks.antt =====
-- crates/cbr-memory/src/lexical.rs: a text divided into chunks, over its UTF-8 bytes. Numbers of
-- lines are those of a text within the largest blob, so that they stay below 2 ^ 32.
use cbr.Prelude.{
  ℕ, suc, ◌+◌, ◌-◌, max, true, false, ◌||◌, List, [], ◌∷◌, Bytes, length, take, drop, leb, ltb,
  ◌==◌, if◌then◌else◌,
}

abbrev pub chunk_bytes : ℕ
chunk_bytes = 2048

-- `CHUNK_LINES` of index.rs
abbrev pub chunk_lines : ℕ
chunk_lines = 20

pub record Chunk : Type 0 where
  pub text : Bytes
  pub start_byte : ℕ
  pub end_byte : ℕ
  pub start_line : ℕ
  pub end_line : ℕ

-- `&text[from..to]`
abbrev pub slice : Bytes → ℕ → ℕ → Bytes
slice text from to = take (to - from) (drop from text)

-- `matches('\n').count()`
abbrev pub newlines : Bytes → ℕ
newlines [] = 0
newlines (byte ∷ more) = let rest = newlines more in if byte == 10 then suc rest else rest

-- What is left behind the last line that was cut.
unfoldable pub last_chunk : Bytes → ℕ → ℕ → List Chunk
last_chunk text start start_line =
    if ltb start (length text)
    then record {
      text = drop start text;
      start_byte = start;
      end_byte = length text;
      start_line = start_line;
      end_line = start_line + newlines (drop start text);
    }
      ∷ []
    else []

-- The loop, at a byte of the text; `counted` is the lines since `start`.
unfoldable pub scan : Bytes → ℕ → ℕ → Bytes → ℕ → ℕ → ℕ → ℕ → List Chunk
scan text lines bytes [] offset start start_line counted = last_chunk text start start_line
scan text lines bytes (byte ∷ rest) offset start start_line counted = elim (byte == 10) [
  | false ↦ scan text lines bytes rest (offset + 1) start start_line counted
  | true ↦ elim (counted + 1 == lines || leb bytes (offset + 1 - start)) [
    | false ↦ scan text lines bytes rest (offset + 1) start start_line (counted + 1)
    | true ↦
        record {
          text = slice text start (offset + 1);
          start_byte = start;
          end_byte = offset + 1;
          start_line = start_line;
          end_line = start_line + (counted + 1) - 1;
        }
        ∷ scan text lines bytes rest (offset + 1) (offset + 1) (start_line + (counted + 1)) 0
  ]
]

unfoldable pub chunks_bounded : Bytes → ℕ → ℕ → List Chunk
chunks_bounded text lines bytes = scan text (max lines 1) (max bytes 1) text 0 0 1 0

unfoldable pub chunks : Bytes → ℕ → List Chunk
chunks text lines = chunks_bounded text lines chunk_bytes
