-- ===== src/Frames/Lines.antt =====
-- The frames do not depend on how the input is divided among the reads.
use cbr.Prelude.{
  ℕ, ◌≤◌, ◌≡◌, refl, sym, ◌∙◌, ap, arith, Bool, true, false, Option, some, none, List, [], ◌∷◌,
  ◌++◌, subst, Bytes, length, drop, Bool-cases, inl, inr, if◌then◌else◌, ◌==◌,
}
use cbr.Frames.{Frame, Read, got, timed_out, failed, FrameReader, scan, fill, next_frame}
use cbr.Frames.Cut.{cut, first_frame, drop-length}
use cbr.Frames.Scan.{
  all_bytes, IsFlowing, stream_of, IsReady, Delivers, ended-Delivers, scanned, scan-Delivers,
  passed_reader,
}

if_false : {A : Type 0} {b : Bool} (x y : A) → b ≡ false → (if b then x else y) ≡ y
if_false x y e = rw e refl

if_true : {A : Type 0} {b : Bool} (x y : A) → b ≡ true → (if b then x else y) ≡ x
if_true x y e = rw e refl

scanned-elim :
    (next : FrameReader → Option Frame × FrameReader) (out : Option Frame × FrameReader)
    → elim out.0 [ none ↦ next out.1 | some frame ↦ (some frame, out.1) ] ≡ scanned next out
unfolding scanned
scanned-elim next (some frame, r) = refl
scanned-elim next (none, r) = refl

fill-scanned :
    (byte : ℕ) (bytes : Bytes) (reads : List Read) (r : FrameReader) (limit : ℕ)
    → r.at_end ≡ false
    → fill (got (byte ∷ bytes) ∷ reads) r limit
      ≡ scanned
          (λ r₁. fill reads r₁ limit)
          (scan (record r { input = reads; buffered = byte ∷ bytes; at = 0 }) limit)
unfolding fill scanned
fill-scanned byte bytes reads r limit e =
    if_false _ _ e ∙ scanned-elim (λ r₁. fill reads r₁ limit) (scan _ limit)

fill-Delivers :
    (limit : ℕ) (reads : List Read) (r : FrameReader)
    → IsFlowing reads
    → r.at_end ≡ false
    → cut r.partial ≡ none
    → length r.partial ≤ limit
    → Delivers limit (r.partial ++ all_bytes reads) (fill reads r limit)
unfolding fill passed_reader
fill-Delivers limit [] r flowing o n le = rw o (ended-Delivers limit r.partial _ n le)
fill-Delivers limit (got [] ∷ reads) r flowing o n le = absurd flowing
fill-Delivers limit (timed_out ∷ reads) r flowing o n le = absurd flowing
fill-Delivers limit (failed ∷ reads) r flowing o n le = absurd flowing
fill-Delivers limit (got (byte ∷ bytes) ∷ reads) r flowing o n le =
    let r₀ = record r { input = reads; buffered = byte ∷ bytes; at = 0 } in
    let ready : IsReady limit r₀ = record {
      flowing = flowing;
      open_eq = o;
      partial_cut = n;
      partial_le = le;
      at_le = omega arith;
    } in
    rw (fill-scanned byte bytes reads r limit o) (
      scan-Delivers limit r₀ ready (λ r₁. fill reads r₁ limit)
        (λ e kept.
          fill-Delivers limit reads (passed_reader limit r₀ ready) flowing o kept.partial_cut
            kept.partial_le))

next_frame-Delivers :
    (limit : ℕ) (r : FrameReader)
    → IsReady limit r
    → Delivers limit (stream_of r) (next_frame r limit)
unfolding next_frame passed_reader
next_frame-Delivers limit r ready = elim (Bool-cases (r.at == length r.buffered)) [
  | inl e ↦
      let taken : drop r.at r.buffered ≡ [] =
        ap (λ k. drop k r.buffered) (ground arith) ∙ drop-length r.buffered in
      let all : stream_of r ≡ r.partial ++ all_bytes r.input =
        ap (λ c. r.partial ++ (c ++ all_bytes r.input)) taken in
      subst (Delivers limit (stream_of r)) (sym (if_true _ _ e)) (
        subst (λ s. Delivers limit s (fill r.input r limit)) (sym all)
          (fill-Delivers limit r.input r ready.flowing ready.open_eq ready.partial_cut
            ready.partial_le))
  | inr e ↦
      let next : FrameReader → Option Frame × FrameReader = λ r₁. fill r₁.input r₁ limit in
      subst (Delivers limit (stream_of r)) (sym (if_false _ _ e ∙ scanned-elim next (scan r limit)))
        (scan-Delivers limit r ready next (λ n kept.
          fill-Delivers limit r.input (passed_reader limit r ready) kept.flowing kept.open_eq
            kept.partial_cut kept.partial_le))
]

-- Whatever the sizes of the reads, `next_frame` answers the first frame of the bytes that it has
-- not handed over: the line before the first line feed, blank or with content; too large when it
-- is longer than the limit; the end of the input when no line feed is left. The reads give at
-- least a byte each, and the frame assembled before holds no line feed and is within the limit.
pub next_frame-first_frame :
    (limit : ℕ) (r : FrameReader)
    → IsReady limit r
    → (next_frame r limit).0 ≡ some (first_frame limit (stream_of r))
next_frame-first_frame limit r ready = (next_frame-Delivers limit r ready).frame_eq

-- After a line that the limit allows, what the reader has left is what follows its line feed, and
-- it is ready for the next frame: no byte is lost or read twice.
pub next_frame-rest :
    (limit : ℕ) (r : FrameReader) (line rest : Bytes)
    → IsReady limit r
    → cut (stream_of r) ≡ some (line, rest)
    → length line ≤ limit
    → (stream_of (next_frame r limit).1 ≡ rest) × IsReady limit (next_frame r limit).1
next_frame-rest limit r line rest ready e le =
    let out = next_frame-Delivers limit r ready in
    (out.rest_eq line rest e le, out.ready line rest e le)
