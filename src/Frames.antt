-- ===== src/Frames.antt =====
-- crates/cbr-provider/src/frames.rs: the frames of the stream binding. The input is the list of
-- what its `read` will answer; after the last answer every `read` is the end of the input.
pub mod Cut
pub mod Scan
pub mod Lines
use cbr.Prelude.{
  ℕ, zero, suc, ◌+◌, Bool, true, false, ◌||◌, Option, none, some, List, [], ◌∷◌, ◌++◌, Bytes,
  length, take, drop, all, ltb, ◌==◌, if◌then◌else◌,
}

pub data Frame : Type 0 where
  content : Bytes → Frame
  blank too_large eof idle : Frame

-- An answer of `read`: bytes, a read timeout, or another error.
pub data Read : Type 0 where
  got : Bytes → Read
  timed_out failed : Read

pub record FrameReader : Type 0 where
  pub input : List Read
  pub buffered : Bytes
  pub at : ℕ
  pub at_end : Bool
  pub partial : Bytes

-- `FrameReader::new`
abbrev pub opened : List Read → FrameReader
opened input = record { input = input; buffered = []; at = 0; at_end = false; partial = [] }

-- `position`: where the line feed is.
abbrev pub newline_in : Bytes → Option ℕ
newline_in [] = none
newline_in (byte ∷ bytes) =
    if byte == 10
    then some 0
    else elim (newline_in bytes) [ none ↦ none | some offset ↦ some (1 + offset) ]

abbrev is_blank : ℕ → Bool
is_blank byte = byte == 32 || (byte == 9 || (byte == 13 || byte == 10))

-- What a finished frame is handed over as.
unfoldable pub finish : ℕ → Bytes → Frame
finish limit frame =
    if ltb limit (length frame)
    then too_large
    else if all is_blank frame
    then blank
    else content frame

-- One pass of the loop over the bytes that are buffered; `none` is that it goes on.
unfoldable pub scan : FrameReader → ℕ → Option Frame × FrameReader
scan r limit =
    let chunk = drop r.at r.buffered in
    elim (newline_in chunk) [
      | some offset ↦ (
        some (finish limit (r.partial ++ take offset chunk)),
        record r { at = r.at + (offset + 1); partial = [] },
      )
      | none ↦
          let r₁ = record r { at = length r.buffered; partial = r.partial ++ chunk } in
          (if ltb limit (length r₁.partial) then some too_large else none, r₁)
    ]

-- What `resize` leaves in the buffer when `read` fails.
abbrev zeros : ℕ → Bytes
zeros zero = []
zeros (suc n) = 0 ∷ zeros n

-- The loop from where every buffered byte is taken; `none` is the error of `read`.
unfoldable pub fill : List Read → FrameReader → ℕ → Option Frame × FrameReader
fill [] r limit =
    if r.at_end
    then (some eof, r)
    else (some eof, record r { input = []; buffered = []; at = 0; at_end = true })
fill (timed_out ∷ reads) r limit =
    if r.at_end
    then (some eof, r)
    else (some idle, record r { input = reads; buffered = []; at = 0 })
fill (failed ∷ reads) r limit =
    if r.at_end then (some eof, r) else (none, record r { input = reads; buffered = zeros 8192 })
fill (got [] ∷ reads) r limit =
    if r.at_end
    then (some eof, r)
    else (some eof, record r { input = reads; buffered = []; at = 0; at_end = true })
fill (got (byte ∷ bytes) ∷ reads) r limit =
    if r.at_end
    then (some eof, r)
    else let (found, r₁) =
        scan (record r { input = reads; buffered = byte ∷ bytes; at = 0 }) limit in
      elim found [ some frame ↦ (some frame, r₁) | none ↦ fill reads r₁ limit ]

unfoldable pub next_frame : FrameReader → ℕ → Option Frame × FrameReader
next_frame r limit =
    if r.at == length r.buffered
    then fill r.input r limit
    else let (found, r₁) = scan r limit in
      elim found [ some frame ↦ (some frame, r₁) | none ↦ fill r₁.input r₁ limit ]
