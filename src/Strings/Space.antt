-- ===== src/Strings/Space.antt =====
-- `strings.TrimSpace`. A space is a rune of `unicode.IsSpace`, here by its UTF-8 bytes. The trailing
-- spaces are cut from the reversed text, whose spaces have their bytes reversed.
pub mod Plain
use mathlib.Core.List.{reverse, reverse-reverse, reverse-append}
use next_now_x.Prelude.{
  ◌≡◌, refl, sym, ap, ◌∙◌, subst, ℕ, ◌++◌, Str, [], ◌∷◌, Bool, true, false, ◌&&◌, ◌||◌, leb, ◌==◌,
  Bool-cases, inl, inr, arith,
}

abbrev pub within : ℕ → ℕ → ℕ → Bool
within lo hi b = leb lo b && leb b hi

-- Tab to carriage return, and the blank.
unfoldable is_ascii_space : ℕ → Bool
is_ascii_space a = within 0x09 0x0d a || a == 0x20

-- U+0085 and U+00A0.
unfoldable is_space_2 : ℕ → ℕ → Bool
is_space_2 a b = a == 0xc2 && (b == 0x85 || b == 0xa0)

-- U+1680, U+2000 to U+200A, U+2028, U+2029, U+202F, U+205F and U+3000.
unfoldable is_space_3 : ℕ → ℕ → ℕ → Bool
is_space_3 a b c =
    (a == 0xe1 && (b == 0x9a && c == 0x80))
    || ((a == 0xe2 && (b == 0x80 && (within 0x80 0x8a c || (within 0xa8 0xa9 c || c == 0xaf))))
        || ((a == 0xe2 && (b == 0x81 && c == 0x9f)) || (a == 0xe3 && (b == 0x80 && c == 0x80))))

module _ (one : ℕ → Bool) (two : ℕ → ℕ → Bool) (three : ℕ → ℕ → ℕ → Bool) where
  -- Whether a text begins with a space.
  starts : Str → Bool
  starts [] = false
  starts (a ∷ []) = one a
  starts (a ∷ b ∷ []) = one a || two a b
  starts (a ∷ b ∷ c ∷ s) = one a || (two a b || three a b c)

  strip : Str → Str
  strip [] = []
  strip (a ∷ []) = elim (one a) [ true ↦ [] | false ↦ a ∷ [] ]
  strip (a ∷ b ∷ []) = elim (one a) [
    | true ↦ strip (b ∷ [])
    | false ↦ elim (two a b) [ true ↦ [] | false ↦ a ∷ b ∷ [] ]
  ]
  strip (a ∷ b ∷ c ∷ s) = elim (one a) [
    | true ↦ strip (b ∷ c ∷ s)
    | false ↦ elim (two a b) [
      | true ↦ strip (c ∷ s)
      | false ↦ elim (three a b c) [ true ↦ strip s | false ↦ a ∷ b ∷ c ∷ s ]
    ]
  ]

  strip_fixed : (s : Str) → starts s ≡ false → strip s ≡ s
  unfolding strip starts
  strip_fixed [] h = refl
  strip_fixed (a ∷ []) h = ground arith
  strip_fixed (a ∷ b ∷ []) h = ground arith
  strip_fixed (a ∷ b ∷ c ∷ s) h = ground arith

  starts-strip : (s : Str) → starts (strip s) ≡ false
  unfolding strip starts
  starts-strip [] = refl
  starts-strip (a ∷ []) = ground arith
  starts-strip (a ∷ b ∷ []) = ground (arith, starts-strip (b ∷ []))
  starts-strip (a ∷ b ∷ c ∷ s) =
      ground (arith, starts-strip (b ∷ c ∷ s), starts-strip (c ∷ s), starts-strip s)

  starts-append : (s t : Str) → starts (s ++ t) ≡ false → starts s ≡ false
  unfolding starts
  starts-append [] t h = refl
  starts-append (a ∷ []) [] h = ground arith
  starts-append (a ∷ []) (b ∷ []) h = ground arith
  starts-append (a ∷ []) (b ∷ c ∷ t) h = ground arith
  starts-append (a ∷ b ∷ []) [] h = ground arith
  starts-append (a ∷ b ∷ []) (c ∷ t) h = ground arith
  starts-append (a ∷ b ∷ c ∷ s) t h = h

  -- What is left is the end of the text.
  strip-suffix : (s : Str) → (cut : Str) × (s ≡ cut ++ strip s)
  unfolding strip
  strip-suffix [] = ([], refl)
  strip-suffix (a ∷ []) = elim (Bool-cases (one a)) [
    | inl e ↦ (a ∷ [], ground arith)
    | inr e ↦ ([], ground arith)
  ]
  strip-suffix (a ∷ b ∷ []) =
      let (cut, h) = strip-suffix (b ∷ []) in
      elim (Bool-cases (one a)) [
        | inl e ↦ (a ∷ cut, ground (arith, h))
        | inr e ↦ elim (Bool-cases (two a b)) [
          | inl e' ↦ (a ∷ b ∷ [], ground arith)
          | inr e' ↦ ([], ground arith)
        ]
      ]
  strip-suffix (a ∷ b ∷ c ∷ s) =
      let (cut, h) = strip-suffix (b ∷ c ∷ s) in
      let (cut', h') = strip-suffix (c ∷ s) in
      let (cut'', h'') = strip-suffix s in
      elim (Bool-cases (one a)) [
        | inl e ↦ (a ∷ cut, ground (arith, h))
        | inr e ↦ elim (Bool-cases (two a b)) [
          | inl e' ↦ (a ∷ b ∷ cut', ground (arith, h'))
          | inr e' ↦ elim (Bool-cases (three a b c)) [
            | inl e'' ↦ (a ∷ b ∷ c ∷ cut'', ground (arith, h''))
            | inr e'' ↦ ([], ground arith)
          ]
        ]
      ]

  -- The other end of what is left is the end of the whole.
  strip-end : (s : Str) → (cut : Str) × (reverse s ≡ reverse (strip s) ++ cut)
  strip-end s =
      let (cut, e) = strip-suffix s in (reverse cut, ap reverse e ∙ reverse-append cut (strip s))

unfoldable trim_left : Str → Str
unfolding strip is_ascii_space is_space_2 is_space_3
trim_left s = strip is_ascii_space is_space_2 is_space_3 s

unfoldable trim_right : Str → Str
unfolding strip is_ascii_space is_space_2 is_space_3
trim_right s =
    reverse (strip is_ascii_space (λ b a. is_space_2 a b) (λ c b a. is_space_3 a b c) (reverse s))

unfoldable pub trim_space : Str → Str
unfolding trim_left trim_right
trim_space s = trim_right (trim_left s)

trim_right-trim_right : (s : Str) → trim_right (trim_right s) ≡ trim_right s
unfolding trim_right
trim_right-trim_right s = rw reverse-reverse (
    ap reverse (
      strip_fixed is_ascii_space _ _ (strip is_ascii_space _ _ (reverse s))
        (starts-strip is_ascii_space _ _ (reverse s))))

trim_left_fixed : (s : Str) → trim_left (trim_right (trim_left s)) ≡ trim_right (trim_left s)
unfolding trim_left trim_right
trim_left_fixed s =
    let t = trim_left s in
    let (cut, e) =
      strip-end is_ascii_space (λ b a. is_space_2 a b) (λ c b a. is_space_3 a b c) (reverse t) in
    strip_fixed is_ascii_space is_space_2 is_space_3 (trim_right t) (
      starts-append is_ascii_space is_space_2 is_space_3 (trim_right t) cut (
        subst (λ x. starts is_ascii_space is_space_2 is_space_3 x ≡ false)
          (sym (reverse-reverse t) ∙ e) (starts-strip is_ascii_space is_space_2 is_space_3 s)))

-- Trimmed text is not changed by trimming it again.
pub trim_space-trim_space : (s : Str) → trim_space (trim_space s) ≡ trim_space s
unfolding trim_space
trim_space-trim_space s = ap trim_right (trim_left_fixed s) ∙ trim_right-trim_right (trim_left s)

unfoldable pub starts_space : Str → Bool
unfolding starts is_ascii_space is_space_2 is_space_3
starts_space s = starts is_ascii_space is_space_2 is_space_3 s

unfoldable pub ends_space : Str → Bool
unfolding starts is_ascii_space is_space_2 is_space_3
ends_space s = starts is_ascii_space (λ b a. is_space_2 a b) (λ c b a. is_space_3 a b c) (reverse s)

-- Text with no space at either end is left alone.
pub trim_space_fixed : (s : Str) → starts_space s ≡ false → ends_space s ≡ false → trim_space s ≡ s
unfolding trim_space starts_space ends_space
trim_space_fixed s h k =
    ap trim_right (strip_fixed is_ascii_space is_space_2 is_space_3 s h)
    ∙ ap reverse (
        strip_fixed is_ascii_space (λ b a. is_space_2 a b) (λ c b a. is_space_3 a b c) (reverse s)
          k)
    ∙ reverse-reverse s
