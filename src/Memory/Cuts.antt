-- ===== src/Memory/Cuts.antt =====
-- The chunks that the loop of chunks_bounded (lexical.rs) cuts, one step at a time.
use cbr.Prelude.{
  ℕ, suc, ◌+◌, ◌-◌, ◌≤◌, ◌≡◌, refl, sym, ◌∙◌, ap, arith, subst, true, false, ◌||◌, Bool-cases, inl,
  inr, List, [], ◌∷◌, ◌++◌, append_assoc, append-nil, Bytes, length, length-append, take, leb, ltb,
  ltb→lt, lt→ltb, ◌==◌,
}
use cbr.Memory.Chunks.{Chunk, slice, newlines, last_chunk, scan}
use cbr.Memory.Slices.{
  all_below, drop-append, take-append, newlines-append, all_below-snoc, all_below-but_last,
  but_last-snoc, append-snoc, ends_line, ends_line-snoc, ends_line-newlines, ends_line-below,
  but_last_line-below,
}
use cbr.Memory.Tiled.{lines_of, is_cut, overcount, IsChunk, IsTiling, texts}

module _ (text : Bytes) (lines bytes : ℕ) where
  -- The loop stands behind the chunks that were cut and the current one.
  pub record IsAt (done cur rest : Bytes) (counted : ℕ) : Type 0 where
    pub text_eq : text ≡ done ++ (cur ++ rest)
    pub counted_eq : counted ≡ newlines cur
    pub counted_lt : suc counted ≤ lines
    pub bound_pos : 1 ≤ bytes
    pub below : all_below bytes 0 cur ≡ true

  abbrev pub Tiles : Bytes → Bytes → ℕ → List Chunk → Type 0
  Tiles done left line cs = IsTiling lines bytes (length done) line cs × (texts cs ≡ left)

  pub slice_at :
      (done cur rest : Bytes) (byte : ℕ)
      → text ≡ done ++ (cur ++ byte ∷ rest)
      → slice text (length done) (length done + length cur + 1) ≡ cur ++ byte ∷ []
  slice_at done cur rest byte e =
      rw (e, drop-append done (cur ++ byte ∷ rest), sym (append-snoc cur rest byte))
        (subst (λ n. take n ((cur ++ byte ∷ []) ++ rest) ≡ cur ++ byte ∷ [])
          (omega (arith, length-append cur (byte ∷ []))) (take-append (cur ++ byte ∷ []) rest))

  last_chunk-none : (start line : ℕ) → length text ≤ start → last_chunk text start line ≡ []
  unfolding last_chunk
  last_chunk-none start line h = elim (Bool-cases (ltb start (length text))) [
    | inl e ↦ absurd (omega (arith, h, ltb→lt start (length text) e))
    | inr e ↦ rw e refl
  ]

  last_chunk-some :
      (done cur : Bytes) (line : ℕ)
      → text ≡ done ++ cur
      → 1 ≤ length cur
      → last_chunk text (length done) line
        ≡ record {
          text = cur;
          start_byte = length done;
          end_byte = length done + length cur;
          start_line = line;
          end_line = line + newlines cur;
        }
          ∷ []
  unfolding last_chunk
  last_chunk-some done cur line e h =
      rw (e, drop-append done cur, length-append done cur)
        (rw (lt→ltb (length done) (length done + length cur) (omega (arith, h))) refl)

  -- A chunk that no bound cut has a line too many exactly when it ends in a line feed.
  last_end_line :
      (done cur : Bytes) (line counted : ℕ)
      → IsAt done cur [] counted
      → line + newlines cur ≡ line + lines_of cur - 1 + overcount lines bytes cur
  last_end_line done cur line counted at = elim (Bool-cases (ends_line cur)) [
    | inr e ↦ rw e (omega arith)
    | inl e ↦
        let short = ends_line-below bytes 0 cur at.below e in
        let uncut : is_cut lines bytes cur ≡ false =
          ground (arith, short, at.counted_eq, at.counted_lt) in
        rw (e, uncut) (omega (arith, ends_line-newlines cur e))
  ]

  pub last_chunk-Tiles :
      (done cur : Bytes) (line counted : ℕ)
      → IsAt done cur [] counted
      → Tiles done cur line (last_chunk text (length done) line)
  last_chunk-Tiles done [] line counted at =
      subst (Tiles done [] line)
        (sym (
          last_chunk-none (length done) line
            (omega (arith, ap length at.text_eq, length-append done []))))
        (tt, refl)
  last_chunk-Tiles done (byte ∷ more) line counted at =
      let cur = byte ∷ more in
      let e : text ≡ done ++ cur = at.text_eq ∙ ap (λ z. done ++ z) (append-nil cur) in
      subst (Tiles done cur line) (sym (last_chunk-some done cur line e (omega arith))) (
        (
          record {
            start_byte = refl;
            end_byte = refl;
            some_bytes = omega arith;
            start_line = refl;
            end_line = last_end_line done cur line counted at;
            whole_lines = inr refl;
            few_lines = ground (arith, at.counted_lt, at.counted_eq);
            few_bytes =
                but_last_line-below bytes cur at.bound_pos
                  (all_below-but_last bytes 0 cur at.below);
          },
          tt,
        ),
        append-nil cur,
      )

  pub scan-step :
      (byte : ℕ) (rest : Bytes) (offset start line counted : ℕ)
      → (byte == 10) ≡ false
      → scan text lines bytes (byte ∷ rest) offset start line counted
        ≡ scan text lines bytes rest (offset + 1) start line counted
  unfolding scan
  scan-step byte rest offset start line counted e = rw (e, scan) refl

  pub scan-line :
      (byte : ℕ) (rest : Bytes) (offset start line counted : ℕ)
      → (byte == 10) ≡ true
      → (counted + 1 == lines || leb bytes (offset + 1 - start)) ≡ false
      → scan text lines bytes (byte ∷ rest) offset start line counted
        ≡ scan text lines bytes rest (offset + 1) start line (counted + 1)
  unfolding scan
  scan-line byte rest offset start line counted e f = rw (e, f, scan) refl

  pub scan-cut :
      (byte : ℕ) (rest : Bytes) (offset start line counted : ℕ)
      → (byte == 10) ≡ true
      → (counted + 1 == lines || leb bytes (offset + 1 - start)) ≡ true
      → scan text lines bytes (byte ∷ rest) offset start line counted
        ≡ record {
          text = slice text start (offset + 1);
          start_byte = start;
          end_byte = offset + 1;
          start_line = line;
          end_line = line + (counted + 1) - 1;
        }
          ∷ scan text lines bytes rest (offset + 1) (offset + 1) (line + (counted + 1)) 0
  unfolding scan
  scan-cut byte rest offset start line counted e f = rw (e, f, scan) refl

  pub IsAt-other :
      (done cur rest : Bytes) (byte counted : ℕ)
      → (byte == 10) ≡ false
      → IsAt done cur (byte ∷ rest) counted
      → IsAt done (cur ++ byte ∷ []) rest counted
  IsAt-other done cur rest byte counted e at = record {
    text_eq = at.text_eq ∙ ap (λ z. done ++ z) (sym (append-snoc cur rest byte));
    counted_eq = ground (arith, e, at.counted_eq, newlines-append cur (byte ∷ []));
    counted_lt = at.counted_lt;
    bound_pos = at.bound_pos;
    below = all_below-snoc bytes 0 cur byte at.below (rw e refl);
  }

  pub IsAt-line :
      (done cur rest : Bytes) (byte counted : ℕ)
      → (byte == 10) ≡ true
      → (counted + 1 == lines || leb bytes (length cur + 1)) ≡ false
      → IsAt done cur (byte ∷ rest) counted
      → IsAt done (cur ++ byte ∷ []) rest (counted + 1)
  IsAt-line done cur rest byte counted e f at = record {
    text_eq = at.text_eq ∙ ap (λ z. done ++ z) (sym (append-snoc cur rest byte));
    counted_eq = ground (arith, e, at.counted_eq, newlines-append cur (byte ∷ []));
    counted_lt = ground (arith, f, at.counted_lt);
    bound_pos = at.bound_pos;
    below = all_below-snoc bytes 0 cur byte at.below (ground (arith, f));
  }

  pub IsAt-cut :
      (done cur rest : Bytes) (byte counted : ℕ)
      → 1 ≤ lines
      → IsAt done cur (byte ∷ rest) counted
      → IsAt (done ++ (cur ++ byte ∷ [])) [] rest 0
  IsAt-cut done cur rest byte counted h at = record {
    text_eq =
        at.text_eq
        ∙ ap (λ z. done ++ z) (sym (append-snoc cur rest byte))
        ∙ sym (append_assoc done (cur ++ byte ∷ []) rest);
    counted_eq = refl;
    counted_lt = h;
    bound_pos = at.bound_pos;
    below = refl;
  }

  pub cut-IsChunk :
      (done cur rest : Bytes) (line byte counted offset start : ℕ) (more : List Chunk)
      → (byte == 10) ≡ true
      → offset ≡ length done + length cur
      → start ≡ length done
      → (counted + 1 == lines || leb bytes (offset + 1 - start)) ≡ true
      → IsAt done cur (byte ∷ rest) counted
      → IsChunk lines bytes
          (length done)
          line
          (record {
            text = cur ++ byte ∷ [];
            start_byte = start;
            end_byte = offset + 1;
            start_line = line;
            end_line = line + (counted + 1) - 1;
          })
          more
  cut-IsChunk done cur rest line byte counted offset start more e o s f at =
      let n : newlines (cur ++ byte ∷ []) ≡ counted + 1 =
        ground (arith, e, at.counted_eq, newlines-append cur (byte ∷ [])) in
      let l = length-append cur (byte ∷ []) in
      let ended : ends_line (cur ++ byte ∷ []) ≡ true = ends_line-snoc cur byte ∙ e in
      let cut : is_cut lines bytes (cur ++ byte ∷ []) ≡ true =
        subst (λ k. (k == lines || leb bytes (length (cur ++ byte ∷ []))) ≡ true) (sym n)
          (subst (λ k. (counted + 1 == lines || leb bytes k) ≡ true) (omega (arith, l, o, s)) f) in
      record {
        start_byte = s;
        end_byte = omega (arith, l, o);
        some_bytes = omega (arith, l);
        start_line = refl;
        end_line = rw (ended, cut) (omega (arith, n));
        whole_lines = inl (rw (ended, cut) refl);
        few_lines = rw ended (omega (arith, n, at.counted_lt));
        few_bytes =
            but_last_line-below bytes (cur ++ byte ∷ []) at.bound_pos
              (rw (but_last-snoc cur byte) at.below);
      }
