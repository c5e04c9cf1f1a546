-- ===== src/Ids/Apart.antt =====
-- When two texts behind one prefix have one identifier.
use cbr.Prelude.{
  ◌+◌, ◌-◌, ◌≡◌, refl, sym, ◌∙◌, subst, arith, Bool, true, false, ◌&&◌, ◌||◌, not, Bool-cases, ◌⊎◌,
  inl, inr, [], ◌∷◌, ◌++◌, Bytes, length, length-take,
}
use mathlib.Core.List.{append_cancel_left}
use mathlib.Core.Logic.{◌≢◌}
use cbr.Encoding.Digest.{hex, sha256_hex}
use cbr.Ids.Bounded.{
  mark, max_bytes, digest_digits, domain, tail, starts_escaped, is_whole, kept_digest, bounded,
}
use cbr.Ids.Grammar.{length-hex}

heads_equal : (xs ys us vs : Bytes) → length xs ≡ length ys → xs ++ us ≡ ys ++ vs → xs ≡ ys
heads_equal [] [] us vs n e = refl
heads_equal [] (y ∷ ys) us vs n e = cc
heads_equal (x ∷ xs) [] us vs n e = cc
heads_equal (x ∷ xs) (y ∷ ys) us vs n e = grind (arith, heads_equal xs ys us vs)

not_escaped : (a b : Bool) → (not a && b) ≡ true → a ≡ false
not_escaped a b h = ground arith

false-true : true ≡ false → ⊥
false-true h = cc

module _ (sha256 : Bytes → Bytes) (is_long : (bytes : Bytes) → length (sha256 bytes) ≡ 32) where
  length-kept_digest : (rest : Bytes) → length (kept_digest sha256 rest) ≡ 32
  unfolding sha256_hex
  length-kept_digest rest = omega (
    arith,
    length-take digest_digits (hex (sha256 (domain ++ rest))),
    length-hex (sha256 (domain ++ rest)),
    is_long (domain ++ rest),
  )

  -- What a shortened identifier has behind its prefix.
  abbrev shortened : Bytes → Bytes → Bytes
  shortened before rest =
      mark
      ++ (kept_digest sha256 rest
          ++ tail rest (max_bytes - (length before + length mark + digest_digits)))

  bounded-whole :
      (before rest : Bytes)
      → is_whole before rest ≡ true
      → bounded sha256 before rest ≡ before ++ rest
  unfolding bounded
  bounded-whole before rest e = rw e refl

  bounded-shortened :
      (before rest : Bytes)
      → is_whole before rest ≡ false
      → bounded sha256 before rest ≡ before ++ shortened before rest
  unfolding bounded
  bounded-shortened before rest e = rw e refl

  whole_apart :
      (before rest other : Bytes) → is_whole before rest ≡ true → rest ≢ shortened before other
  whole_apart before rest other e p =
      (false-true
        (subst (λ text. starts_escaped text ≡ false) p (not_escaped (starts_escaped rest) _ e)))

  -- Two texts with one identifier behind one prefix are the same text, or both are shortened and
  -- the digits that are kept of their digests agree.
  pub bounded_apart :
      (before a b : Bytes)
      → bounded sha256 before a ≡ bounded sha256 before b
      → (a ≡ b)
        ⊎ (((is_whole before a || is_whole before b) ≡ false)
            × (kept_digest sha256 a ≡ kept_digest sha256 b))
  bounded_apart before a b e = elim (Bool-cases (is_whole before a)) [
    | inl p ↦ elim (Bool-cases (is_whole before b)) [
      | inl q ↦ inl (
          append_cancel_left before a b
            (sym (bounded-whole before a p) ∙ e ∙ bounded-whole before b q))
      | inr q ↦
          elim (whole_apart before a b p (
            append_cancel_left before _ _
              (sym (bounded-whole before a p) ∙ e ∙ bounded-shortened before b q))) [ ]
    ]
    | inr p ↦ elim (Bool-cases (is_whole before b)) [
      | inl q ↦
          elim (whole_apart before b a q (
            append_cancel_left before _ _
              (sym (bounded-whole before b q) ∙ sym e ∙ bounded-shortened before a p))) [ ]
      | inr q ↦ inr (
        rw (p, q) refl,
        heads_equal (kept_digest sha256 a) (kept_digest sha256 b) _ _
            (length-kept_digest a ∙ sym (length-kept_digest b))
            (append_cancel_left mark _ _ (
              append_cancel_left before _ _
                (sym (bounded-shortened before a p) ∙ e ∙ bounded-shortened before b q))),
      )
    ]
  ]
