-- ===== src/Memory/Tiled.antt =====
-- What it is for chunks to tile a text (lexical.rs: chunks_bounded).
use cbr.Prelude.{
  ℕ, ◌+◌, ◌-◌, ◌≤◌, ◌≡◌, Bool, true, ◌||◌, ◌&&◌, not, if◌then◌else◌, ◌<◌, ◌⊎◌, List, [], ◌∷◌, ◌++◌,
  Bytes, length, leb, ◌==◌,
}
use cbr.Memory.Chunks.{Chunk, newlines}
use cbr.Memory.Slices.{ends_line, but_last_line}

-- How many lines a text has, the last one with or without a line feed.
abbrev pub lines_of : Bytes → ℕ
lines_of text = newlines text + (if ends_line text then 0 else 1)

-- One of the two bounds has cut a chunk of that text.
abbrev pub is_cut : ℕ → ℕ → Bytes → Bool
is_cut lines bytes text = newlines text == lines || leb bytes (length text)

-- The line that `end_line` counts too many: the chunk ends in a line feed, and no bound cut it.
abbrev pub overcount : ℕ → ℕ → Bytes → ℕ
overcount lines bytes text = if ends_line text && not (is_cut lines bytes text) then 1 else 0

pub record IsChunk (lines bytes at line : ℕ) (c : Chunk) (more : List Chunk) : Type 0 where
  pub start_byte : c.start_byte ≡ at
  pub end_byte : c.end_byte ≡ at + length c.text
  pub some_bytes : 1 ≤ length c.text
  pub start_line : c.start_line ≡ line
  pub end_line : c.end_line ≡ line + lines_of c.text - 1 + overcount lines bytes c.text
  pub whole_lines : ((ends_line c.text && is_cut lines bytes c.text) ≡ true) ⊎ (more ≡ [])
  pub few_lines : lines_of c.text ≤ lines
  pub few_bytes : length (but_last_line c.text) < bytes

abbrev pub IsTiling : ℕ → ℕ → ℕ → ℕ → List Chunk → Type 0
IsTiling lines bytes at line [] = Unit
IsTiling lines bytes at line (c ∷ more) =
    IsChunk lines bytes at line c more
    × IsTiling lines bytes (at + length c.text) (line + newlines c.text) more

abbrev pub texts : List Chunk → Bytes
texts [] = []
texts (c ∷ more) = c.text ++ texts more
