-- ===== src/Memory/Tiling.antt =====
-- The chunks of a text tile it.
use cbr.Prelude.{
  ℕ, ◌+◌, ◌-◌, ◌≤◌, max, ◌≡◌, refl, sym, ◌∙◌, ap, arith, subst, true, false, ◌||◌, Bool-cases, inl,
  inr, [], ◌∷◌, ◌++◌, append-nil, Bytes, length, length-append, leb, ◌==◌,
}
use cbr.Memory.Chunks.{slice, newlines, last_chunk, scan, chunks_bounded}
use cbr.Memory.Slices.{newlines-append, append-snoc}
use cbr.Memory.Tiled.{IsChunk, IsTiling, texts}
use cbr.Memory.Cuts.{
  IsAt, Tiles, slice_at, last_chunk-Tiles, scan-step, scan-line, scan-cut, IsAt-other, IsAt-line,
  IsAt-cut, cut-IsChunk,
}

module _ (text : Bytes) (lines bytes : ℕ) where
  scan-end :
      (offset start line counted : ℕ)
      → scan text lines bytes [] offset start line counted ≡ last_chunk text start line
  unfolding scan
  scan-end offset start line counted = refl

  cut-Tiles :
      (byte : ℕ) (rest done cur : Bytes) (line counted offset start : ℕ)
      → (byte == 10) ≡ true
      → offset ≡ length done + length cur
      → start ≡ length done
      → (counted + 1 == lines || leb bytes (offset + 1 - start)) ≡ true
      → IsAt text lines bytes done cur (byte ∷ rest) counted
      → Tiles text lines bytes
          (done ++ (cur ++ byte ∷ []))
          rest
          (line + (counted + 1))
          (scan text lines bytes rest (offset + 1) (offset + 1) (line + (counted + 1)) 0)
      → Tiles text lines bytes done (cur ++ byte ∷ rest) line (
          record {
            text = slice text start (offset + 1);
            start_byte = start;
            end_byte = offset + 1;
            start_line = line;
            end_line = line + (counted + 1) - 1;
          }
          ∷ scan text lines bytes rest (offset + 1) (offset + 1) (line + (counted + 1)) 0)
  cut-Tiles byte rest done cur line counted offset start e o s f at later =
      let more = scan text lines bytes rest (offset + 1) (offset + 1) (line + (counted + 1)) 0 in
      let n : newlines (cur ++ byte ∷ []) ≡ counted + 1 =
        ground (arith, e, at.counted_eq, newlines-append cur (byte ∷ [])) in
      let next : IsTiling lines bytes (length done + length (cur ++ byte ∷ []))
          (line + newlines (cur ++ byte ∷ [])) more =
        subst (λ k. IsTiling lines bytes k (line + newlines (cur ++ byte ∷ [])) more)
          (length-append done (cur ++ byte ∷ []))
          (subst (λ k. IsTiling lines bytes (length (done ++ (cur ++ byte ∷ []))) (line + k) more)
            (sym n) later.0) in
      subst
        (λ t.
          (IsChunk lines bytes (length done) line
              (record {
                text = t;
                start_byte = start;
                end_byte = offset + 1;
                start_line = line;
                end_line = line + (counted + 1) - 1;
              })
              more
            × IsTiling lines bytes (length done + length t) (line + newlines t) more)
          × (t ++ texts more ≡ cur ++ byte ∷ rest))
        (sym (rw (o, s) (slice_at text lines bytes done cur rest byte at.text_eq)))
        (
          (
            cut-IsChunk text lines bytes done cur rest line byte counted offset start more e o s f
                at,
            next,
          ),
          ap (λ z. (cur ++ byte ∷ []) ++ z) later.1 ∙ append-snoc cur rest byte,
        )

  scan-Tiles :
      (rest done cur : Bytes) (line counted offset start : ℕ)
      → 1 ≤ lines
      → offset ≡ length done + length cur
      → start ≡ length done
      → IsAt text lines bytes done cur rest counted
      → Tiles text lines bytes done
          (cur ++ rest)
          line
          (scan text lines bytes rest offset start line counted)
  scan-Tiles [] done cur line counted offset start h o s at =
      rw (scan-end offset start line counted, s)
        (subst (λ left. Tiles text lines bytes done left line (last_chunk text (length done) line))
          (sym (append-nil cur)) (last_chunk-Tiles text lines bytes done cur line counted at))
  scan-Tiles (byte ∷ rest) done cur line counted offset start h o s at =
      elim (Bool-cases (byte == 10)) [
        | inr e ↦ rw (scan-step text lines bytes byte rest offset start line counted e) (
            subst
              (λ left.
                Tiles text lines bytes done left line
                  (scan text lines bytes rest (offset + 1) start line counted))
              (append-snoc cur rest byte)
              (scan-Tiles rest done (cur ++ byte ∷ []) line counted (offset + 1) start h
                (omega (arith, o, length-append cur (byte ∷ []))) s
                (IsAt-other text lines bytes done cur rest byte counted e at)))
        | inl e ↦ elim (Bool-cases (counted + 1 == lines || leb bytes (offset + 1 - start))) [
          | inr f ↦ rw (scan-line text lines bytes byte rest offset start line counted e f) (
              subst
                (λ left.
                  Tiles text lines bytes done left line
                    (scan text lines bytes rest (offset + 1) start line (counted + 1)))
                (append-snoc cur rest byte)
                (scan-Tiles rest done (cur ++ byte ∷ []) line (counted + 1) (offset + 1) start h
                  (omega (arith, o, length-append cur (byte ∷ []))) s
                  (IsAt-line text lines bytes done cur rest byte counted e
                    (subst (λ n. (counted + 1 == lines || leb bytes n) ≡ false)
                      (omega (arith, o, s)) f)
                    at)))
          | inl f ↦ rw (scan-cut text lines bytes byte rest offset start line counted e f) (
              cut-Tiles byte rest done cur line counted offset start e o s f at (
                scan-Tiles rest (done ++ (cur ++ byte ∷ [])) [] (line + (counted + 1)) 0
                  (offset + 1) (offset + 1) h
                  (omega (
                    arith,
                    o,
                    length-append done (cur ++ byte ∷ []),
                    length-append cur (byte ∷ []),
                  ))
                  (omega (
                    arith,
                    o,
                    length-append done (cur ++ byte ∷ []),
                    length-append cur (byte ∷ []),
                  ))
                  (IsAt-cut text lines bytes done cur rest byte counted h at)))
        ]
      ]

-- The chunks of a text tile it: put together they are the text, each starts where the one before
-- ends, in bytes and in lines, and none is empty. A chunk has at most the given number of
-- lines, and without its last line it is shorter than the bound on bytes, so that it may pass that
-- bound by no more than its last line. Each chunk but the last ends in a line feed and has reached
-- one of the two bounds. The end line that it gives is its last line, except that one is counted too
-- many where it ends in a line feed and has reached neither bound. A bound of 0 counts as 1.
pub chunks_bounded-IsTiling :
    (text : Bytes) (lines bytes : ℕ)
    → IsTiling (max lines 1) (max bytes 1) 0 1 (chunks_bounded text lines bytes)
      × (texts (chunks_bounded text lines bytes) ≡ text)
unfolding chunks_bounded
chunks_bounded-IsTiling text lines bytes =
    scan-Tiles text (max lines 1) (max bytes 1) text [] [] 1 0 0 0 (omega arith) refl refl (record {
      text_eq = refl;
      counted_eq = refl;
      counted_lt = omega arith;
      bound_pos = omega arith;
      below = refl;
    })
