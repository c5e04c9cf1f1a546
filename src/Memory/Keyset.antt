-- ===== src/Memory/Keyset.antt =====
-- Each source continues where the merged order says.
use cbr.Prelude.{
  ◌≡◌, refl, ap, ◌∙◌, arith, Bool, true, false, ◌&&◌, ◌||◌, some, [], ◌∷◌, Text, ℤ, pos, negsuc,
  ltb_ℤ, leb_ℤ,
}
use cbr.Memory.Retrieval.{
  Order, less, equal, greater, is_greater, is_equal, then_with, text_cmp, int_cmp, Cursor, Found,
  Bounds, after_at, after_of, after, passes, compare_keys, cursor_of,
}

is_greater-int_cmp : (a b : ℤ) → is_greater (int_cmp a b) ≡ ltb_ℤ b a
is_greater-int_cmp a b = ground arith

is_greater-then_with :
    (a b : Order) → is_greater (then_with a b) ≡ (is_greater a || (is_equal a && is_greater b))
is_greater-then_with less b = refl
is_greater-then_with equal b = refl
is_greater-then_with greater b = refl

nothing_later : (s : Order) → (is_greater s || false) ≡ is_greater (then_with s less)
nothing_later less = refl
nothing_later equal = refl
nothing_later greater = refl

everything_later :
    (s : Order) (b : Bool)
    → b ≡ true
    → (is_greater s || (is_equal s && b)) ≡ is_greater (then_with s greater)
everything_later less b h = refl
everything_later equal b h = h
everything_later greater b h = refl

position_later :
    (s p i : Order) (b : Bool)
    → is_greater i ≡ b
    → (is_greater s || (is_equal s && (is_greater p || (is_equal p && b))))
      ≡ is_greater (then_with s (then_with p i))
position_later s p i b h =
    rw (is_greater-then_with s (then_with p i), is_greater-then_with p i, h) refl

-- Every position is behind the one in front of the first path.
behind_start :
    (path : Text) (start : ℤ)
    → leb_ℤ (pos 0) start ≡ true
    → (is_greater (text_cmp path []) || (is_equal (text_cmp path []) && ltb_ℤ (negsuc 0) start))
      ≡ true
unfolding text_cmp
behind_start [] start h = ground arith
behind_start (x ∷ path) start h = refl

module _ {Score : Type 0} (score_cmp : Score → Score → Order) where
  passes-after_at :
      (o : Order) (cursor : Cursor Score) (score : Score) (path : Text) (start_byte : ℤ)
      → leb_ℤ (pos 0) start_byte ≡ true
      → passes score_cmp (some (after_at score_cmp o cursor)) score path start_byte
        ≡ is_greater (
            then_with (score_cmp score cursor.score) (
              then_with o
                (then_with (text_cmp path cursor.path) (int_cmp start_byte cursor.start_byte))))
  unfolding passes
  passes-after_at less cursor score path start_byte h = nothing_later (score_cmp score cursor.score)
  passes-after_at equal cursor score path start_byte h =
      position_later (score_cmp score cursor.score) (text_cmp path cursor.path)
        (int_cmp start_byte cursor.start_byte) _ (is_greater-int_cmp start_byte cursor.start_byte)
  passes-after_at greater cursor score path start_byte h =
      everything_later (score_cmp score cursor.score) _ (behind_start path start_byte h)

  -- The row that a source may answer with under a cursor is the row whose key, in the order of the
  -- merged answer, is behind the cursor's. The row starts at a byte that is not negative.
  pub passes-compare_keys :
      (bounds : Bounds Score) (cursor : Cursor Score) (found : Found Score)
      → bounds.cursor ≡ some cursor
      → leb_ℤ (pos 0) found.start_byte ≡ true
      → passes score_cmp
          (after score_cmp bounds found.repository)
          found.score
          found.path
          found.start_byte
        ≡ is_greater (compare_keys score_cmp (cursor_of score_cmp found) cursor)
  unfolding after
  passes-compare_keys bounds cursor found e h =
      ap
        (λ c.
          passes score_cmp (after_of score_cmp c found.repository) found.score found.path
            found.start_byte)
        e
      ∙ passes-after_at (text_cmp found.repository cursor.repository) cursor found.score found.path
          found.start_byte h
