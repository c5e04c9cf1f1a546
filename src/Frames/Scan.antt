-- ===== src/Frames/Scan.antt =====
-- One pass over the buffered bytes, and what it means that an answer delivers a stream.
use cbr.Prelude.{
  ℕ, ◌+◌, ◌≤◌, ◌<◌, ◌≡◌, refl, sym, ◌∙◌, ap, arith, false, Option, some, none, Option-cases, List,
  [], ◌∷◌, ◌++◌, append_assoc, append-nil, Bytes, length, length-drop, take, drop, ltb, ltb→lt,
  Bool-cases, inl, inr, if◌then◌else◌,
}
use cbr.Prelude.Partial.{eq_of_some}
use cbr.Frames.{
  Frame, too_large, eof, Read, got, timed_out, failed, FrameReader, newline_in, finish, scan,
}
use cbr.Frames.Cut.{
  cut, follow, first_frame, cut-newline_none, cut-newline_some, cut-append_some, cut-append_none,
  newline_in-lt, drop-drop, first_frame-some, first_frame-none, first_frame-long, no_rest,
  too_short,
}

-- The bytes that the reads of the input give.
abbrev pub all_bytes : List Read → Bytes
all_bytes [] = []
all_bytes (got bytes ∷ reads) = bytes ++ all_bytes reads
all_bytes (timed_out ∷ reads) = all_bytes reads
all_bytes (failed ∷ reads) = all_bytes reads

-- Every read gives at least one byte.
abbrev pub IsFlowing : List Read → Type 0
IsFlowing [] = Unit
IsFlowing (got [] ∷ reads) = ⊥
IsFlowing (got (byte ∷ bytes) ∷ reads) = IsFlowing reads
IsFlowing (timed_out ∷ reads) = ⊥
IsFlowing (failed ∷ reads) = ⊥

-- What the reader has not handed over: the frame it assembles, the buffer, and the input.
abbrev pub stream_of : FrameReader → Bytes
stream_of r = r.partial ++ (drop r.at r.buffered ++ all_bytes r.input)

-- A reader between two frames.
pub record IsReady (limit : ℕ) (r : FrameReader) : Type 0 where
  pub flowing : IsFlowing r.input
  pub open_eq : r.at_end ≡ false
  pub partial_cut : cut r.partial ≡ none
  pub partial_le : length r.partial ≤ limit
  pub at_le : r.at ≤ length r.buffered

-- `out` is the answer to a stream.
pub record Delivers (limit : ℕ) (stream : Bytes) (out : Option Frame × FrameReader) : Type 0 where
  pub frame_eq : out.0 ≡ some (first_frame limit stream)
  pub rest_eq :
      (line rest : Bytes)
      → cut stream ≡ some (line, rest)
      → length line ≤ limit
      → stream_of out.1 ≡ rest
  pub ready :
      (line rest : Bytes)
      → cut stream ≡ some (line, rest)
      → length line ≤ limit
      → IsReady limit out.1

-- At the end of the input.
pub ended-Delivers :
    (limit : ℕ) (p : Bytes) (r : FrameReader)
    → cut p ≡ none
    → length p ≤ limit
    → Delivers limit (p ++ []) (some eof, r)
ended-Delivers limit p r n le = rw (append-nil p) (record {
  frame_eq = ap some (sym (first_frame-none limit p n ∙ ground arith));
  rest_eq = λ line rest e. absurd (no_rest p n line rest e);
  ready = λ line rest e. absurd (no_rest p n line rest e);
})

too_long_Delivers :
    (limit : ℕ) (p s : Bytes) (r : FrameReader)
    → cut p ≡ none
    → limit < length p
    → Delivers limit (p ++ s) (some too_large, r)
too_long_Delivers limit p s r n g = record {
  frame_eq = ap some (sym (first_frame-long limit p s n g));
  rest_eq = λ line rest e le. absurd (too_short limit p s n g line rest e le);
  ready = λ line rest e le. absurd (too_short limit p s n g line rest e le);
}

-- The loop over the buffered bytes, whatever is read when they hold no line feed.
unfoldable pub scanned :
    (next : FrameReader → Option Frame × FrameReader)
    → Option Frame × FrameReader
    → Option Frame × FrameReader
scanned next (some frame, r) = (some frame, r)
scanned next (none, r) = next r

module _ (limit : ℕ) (r : FrameReader) (ready : IsReady limit r) where
  unfoldable pub found_reader : ℕ → FrameReader
  found_reader offset = record r { at = r.at + (offset + 1); partial = [] }

  found_le :
      (offset : ℕ)
      → newline_in (drop r.at r.buffered) ≡ some offset
      → r.at + (offset + 1) ≤ length r.buffered
  found_le offset e = omega (
    arith,
    newline_in-lt (drop r.at r.buffered) offset e,
    length-drop r.at r.buffered,
    ready.at_le,
  )

  scan-some :
      (offset : ℕ)
      → newline_in (drop r.at r.buffered) ≡ some offset
      → scan r limit ≡ (
        some (finish limit (r.partial ++ take offset (drop r.at r.buffered))),
        found_reader offset,
      )
  unfolding scan found_reader
  scan-some offset e = rw (e, scan) refl

  scan-found :
      (next : FrameReader → Option Frame × FrameReader) (offset : ℕ)
      → newline_in (drop r.at r.buffered) ≡ some offset
      → Delivers limit (stream_of r) (scanned next (scan r limit))
  unfolding scanned found_reader
  scan-found next offset e =
      let chunk = drop r.at r.buffered in
      let w : cut (stream_of r)
          ≡ some (r.partial ++ take offset chunk, drop (offset + 1) chunk ++ all_bytes r.input) =
        cut-append_none r.partial (chunk ++ all_bytes r.input) ready.partial_cut
        ∙ ap (follow r.partial)
            (cut-append_some chunk (all_bytes r.input) _ _ (cut-newline_some chunk offset e)) in
      rw (scan-some offset e) (record {
        frame_eq = ap some (sym (first_frame-some limit (stream_of r) _ _ w));
        rest_eq = λ line rest d le.
            ap (λ x. x ++ all_bytes r.input) (drop-drop r.at (offset + 1) r.buffered)
            ∙ ap (λ p. p.1) (eq_of_some (sym w ∙ d));
        ready = λ line rest d le. record {
          flowing = ready.flowing;
          open_eq = ready.open_eq;
          partial_cut = refl;
          partial_le = omega arith;
          at_le = found_le offset e;
        };
      })

  unfoldable pub passed_reader : FrameReader
  passed_reader = record r { at = length r.buffered; partial = r.partial ++ drop r.at r.buffered }

  passed_stream : stream_of r ≡ (r.partial ++ drop r.at r.buffered) ++ all_bytes r.input
  passed_stream = sym (append_assoc r.partial (drop r.at r.buffered) (all_bytes r.input))

  scan-none :
      newline_in (drop r.at r.buffered) ≡ none
      → scan r limit ≡ (
        if ltb limit (length (r.partial ++ drop r.at r.buffered)) then some too_large else none,
        passed_reader,
      )
  unfolding scan passed_reader
  scan-none e = rw (e, scan) refl

  passed_cut :
      newline_in (drop r.at r.buffered) ≡ none → cut (r.partial ++ drop r.at r.buffered) ≡ none
  passed_cut e =
      cut-append_none r.partial (drop r.at r.buffered) ready.partial_cut
      ∙ ap (follow r.partial) (cut-newline_none (drop r.at r.buffered) e)

  -- What is too long already is refused; otherwise the loop goes on with all of it kept.
  scan-passed :
      (next : FrameReader → Option Frame × FrameReader)
      → newline_in (drop r.at r.buffered) ≡ none
      → (IsReady limit passed_reader
          → Delivers limit
              ((r.partial ++ drop r.at r.buffered) ++ all_bytes r.input)
              (next passed_reader))
      → Delivers limit (stream_of r) (scanned next (scan r limit))
  unfolding scanned passed_reader
  scan-passed next e go =
      let p = r.partial ++ drop r.at r.buffered in
      elim (Bool-cases (ltb limit (length p))) [
        | inl over ↦
            rw (scan-none e, over, passed_stream)
              (too_long_Delivers limit p (all_bytes r.input) _ (passed_cut e) (ltb→lt _ _ over))
        | inr fits ↦
            rw (scan-none e, fits, passed_stream)
              (go (record {
                flowing = ready.flowing;
                open_eq = ready.open_eq;
                partial_cut = passed_cut e;
                partial_le = ground arith;
                at_le = omega arith;
              }))
      ]

pub scan-Delivers :
    (limit : ℕ) (r : FrameReader) (ready : IsReady limit r)
    (next : FrameReader → Option Frame × FrameReader)
    → (newline_in (drop r.at r.buffered) ≡ none
        → IsReady limit (passed_reader limit r ready)
        → Delivers limit
            ((r.partial ++ drop r.at r.buffered) ++ all_bytes r.input)
            (next (passed_reader limit r ready)))
    → Delivers limit (stream_of r) (scanned next (scan r limit))
scan-Delivers limit r ready next go = elim (Option-cases (newline_in (drop r.at r.buffered))) [
  | inl e ↦ scan-passed limit r ready next e (go e)
  | inr (offset, e) ↦ scan-found limit r ready next offset e
]
