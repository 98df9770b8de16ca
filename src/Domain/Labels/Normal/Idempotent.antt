-- ===== src/Domain/Labels/Normal/Idempotent.antt =====
-- internal/domain/task_labels.go: the results of `normalize_text` and `normalize_color`.
use next_now_x.Prelude.{
  ◌≡◌, ◌↔◌, ◌==◌, refl, ap, sym, ◌∙◌, subst, ℕ, ◌≤◌, ◌<◌, Str, [], ◌∷◌, Bool, true, false, ◌&&◌,
  map, ok, All, Result, Bool-cases, inl, inr, arith,
}
use next_now_x.Domain.Labels.Normal.{
  LabelError, normalize_text, trimmed_text, normalize_color, trimmed_color, is_hex, is_color,
}
use next_now_x.Strings.Space.{
  trim_space, trim_space-trim_space, trim_space_fixed, starts_space, ends_space,
}
use next_now_x.Strings.Utf8.{rune_count}
use next_now_x.Strings.Case.{to_lower, lower_byte}

rune_count-nil : rune_count [] ≡ 0
unfolding rune_count
rune_count-nil = refl

trimmed_text-normal :
    (value text : Str) → trimmed_text value ≡ ok text → (text ≡ value) × (rune_count text ≤ 32)
unfolding trimmed_text
trimmed_text-normal [] text h = ground (arith, rune_count-nil)
trimmed_text-normal (c ∷ s) text h = ground arith

-- A normalized text has at most 32 characters, and is its own normal form.
pub normalize_text-normal :
    (value text : Str)
    → normalize_text value ≡ ok text
    → (rune_count text ≤ 32) × (normalize_text text ≡ ok text)
unfolding normalize_text
normalize_text-normal value text h =
    let (same, short) = trimmed_text-normal (trim_space value) text h in
    (short, ap trimmed_text (ap trim_space same ∙ trim_space-trim_space value) ∙ h)

hex_lower :
    (a : ℕ)
    → is_hex a ≡ true
    → (is_hex (lower_byte a) ≡ true)
      × (lower_byte (lower_byte a) ≡ lower_byte a)
      × (a < 0x80)
      × (lower_byte a < 0x80)
unfolding is_hex lower_byte
hex_lower a h = ground arith

to_lower-ascii : (s : Str) → All (λ a. a < 0x80) s → to_lower s ≡ map lower_byte s
unfolding to_lower
to_lower-ascii [] h = refl
to_lower-ascii (a ∷ []) h = refl
to_lower-ascii (a ∷ b ∷ []) h = ground (arith, to_lower-ascii (b ∷ []) h.1)
to_lower-ascii (a ∷ b ∷ c ∷ s) h = ground (arith, to_lower-ascii (b ∷ c ∷ s) h.1)

abbrev seven : ℕ → ℕ → ℕ → ℕ → ℕ → ℕ → ℕ → Str
seven h a b c d e f = h ∷ a ∷ b ∷ c ∷ d ∷ e ∷ f ∷ []

ends_not : (a b c d e f : ℕ) → is_hex f ≡ true → ends_space (seven 35 a b c d e f) ≡ false
unfolding ends_space is_hex
ends_not a b c d e f h = ground arith

trim_space-color :
    (a b c d e f : ℕ) → is_hex f ≡ true → trim_space (seven 35 a b c d e f) ≡ seven 35 a b c d e f
trim_space-color a b c d e f h =
    trim_space_fixed (seven 35 a b c d e f) starts_not (ends_not a b c d e f h)
  where
    starts_not : starts_space (seven 35 a b c d e f) ≡ false
    starts_not = unfold starts_space in refl

abbrev AreHex : ℕ → ℕ → ℕ → ℕ → ℕ → ℕ → Type 0
AreHex a b c d e f =
    (is_hex a ≡ true)
    × (is_hex b ≡ true)
    × (is_hex c ≡ true)
    × (is_hex d ≡ true)
    × (is_hex e ≡ true)
    × (is_hex f ≡ true)

-- The test of the pattern on seven bytes, with the tests of the bytes as values.
abbrev color_test : ℕ → Bool → Bool → Bool → Bool → Bool → Bool → Bool
color_test h a b c d e f = h == 35 && (a && (b && (c && (d && (e && f)))))

color_test_iff :
    (h : ℕ) (a b c d e f : Bool)
    → (color_test h a b c d e f ≡ true)
      ↔ ((h ≡ 35) × (a ≡ true) × (b ≡ true) × (c ≡ true) × (d ≡ true) × (e ≡ true) × (f ≡ true))
color_test_iff h a b c d e f = ground arith

is_color_iff :
    (h a b c d e f : ℕ)
    → (is_color (seven h a b c d e f) ≡ true) ↔ (
        (h ≡ 35)
        × (is_hex a ≡ true)
        × (is_hex b ≡ true)
        × (is_hex c ≡ true)
        × (is_hex d ≡ true)
        × (is_hex e ≡ true)
        × (is_hex f ≡ true))
unfolding is_color
is_color_iff h a b c d e f =
    color_test_iff h (is_hex a) (is_hex b) (is_hex c) (is_hex d) (is_hex e) (is_hex f)

module _ (a b c d e f : ℕ) (hs : AreHex a b c d e f) where
  lowered :
      to_lower (seven 35 a b c d e f)
      ≡ seven 35
          (lower_byte a)
          (lower_byte b)
          (lower_byte c)
          (lower_byte d)
          (lower_byte e)
          (lower_byte f)
  lowered =
      to_lower-ascii (seven 35 a b c d e f) (
        omega (
          arith,
          hex_lower a hs.0,
          hex_lower b hs.1,
          hex_lower c hs.2,
          hex_lower d hs.3,
          hex_lower e hs.4,
          hex_lower f hs.5,
        ))
      ∙ unfold lower_byte in refl

  lower-AreHex :
      AreHex
        (lower_byte a)
        (lower_byte b)
        (lower_byte c)
        (lower_byte d)
        (lower_byte e)
        (lower_byte f)
  lower-AreHex = (
    (hex_lower a hs.0).0,
    (hex_lower b hs.1).0,
    (hex_lower c hs.2).0,
    (hex_lower d hs.3).0,
    (hex_lower e hs.4).0,
    (hex_lower f hs.5).0,
  )

normalize_color_lem : (value : Str) → normalize_color value ≡ trimmed_color (trim_space value)
unfolding normalize_color
normalize_color_lem value = refl

trimmed_color-color :
    (h a b c d e f : ℕ)
    → is_color (seven h a b c d e f) ≡ true
    → trimmed_color (seven h a b c d e f) ≡ ok (to_lower (seven h a b c d e f))
unfolding trimmed_color
trimmed_color-color h a b c d e f yes_color = rw yes_color

-- A lower-case colour.
trimmed_color-lower :
    (a b c d e f : ℕ)
    → AreHex a b c d e f
    → lower_byte a ≡ a
    → lower_byte b ≡ b
    → lower_byte c ≡ c
    → lower_byte d ≡ d
    → lower_byte e ≡ e
    → lower_byte f ≡ f
    → normalize_color (seven 35 a b c d e f) ≡ ok (seven 35 a b c d e f)
trimmed_color-lower a b c d e f hs la lb lc ld le lf =
    normalize_color_lem (seven 35 a b c d e f)
    ∙ ap trimmed_color (trim_space-color a b c d e f hs.5)
    ∙ trimmed_color-color 35 a b c d e f
        ((is_color_iff 35 a b c d e f).1 (refl, hs.0, hs.1, hs.2, hs.3, hs.4, hs.5))
    ∙ ap ok (lowered a b c d e f hs ∙ simp (la, lb, lc, ld, le, lf))

abbrev IsNormal : Str → Type 0
IsNormal color = normalize_color color ≡ ok color

ok_same : {s t : Str} → ◌≡◌ {A = Result LabelError Str} (ok s) (ok t) → s ≡ t
ok_same e = cc

lower-IsNormal :
    (a b c d e f : ℕ)
    → AreHex a b c d e f
    → IsNormal (
        seven 35
          (lower_byte a)
          (lower_byte b)
          (lower_byte c)
          (lower_byte d)
          (lower_byte e)
          (lower_byte f))
lower-IsNormal a b c d e f hs =
    trimmed_color-lower (lower_byte a) (lower_byte b) (lower_byte c) (lower_byte d) (lower_byte e)
      (lower_byte f) (lower-AreHex a b c d e f hs) (hex_lower a hs.0).1 (hex_lower b hs.1).1
      (hex_lower c hs.2).1 (hex_lower d hs.3).1 (hex_lower e hs.4).1 (hex_lower f hs.5).1

trimmed_color-normal :
    (value color : Str) → trimmed_color value ≡ ok color → normalize_color color ≡ ok color
unfolding trimmed_color
trimmed_color-normal [] color h =
    subst IsNormal (ok_same h) (unfold normalize_color trim_space in refl)
trimmed_color-normal (h ∷ a ∷ b ∷ c ∷ d ∷ e ∷ f ∷ []) color k =
    elim (Bool-cases (is_color (seven h a b c d e f))) [
      | inl is ↦
          let hs = (is_color_iff h a b c d e f).0 is in
          let same : to_lower (seven h a b c d e f) ≡ color =
            ok_same (sym (trimmed_color-color h a b c d e f is) ∙ k) in
          subst IsNormal
            (sym (lowered a b c d e f (hs.1, hs.2, hs.3, hs.4, hs.5, hs.6))
              ∙ ap (λ x. to_lower (seven x a b c d e f)) (sym hs.0)
              ∙ same)
            (lower-IsNormal a b c d e f (hs.1, hs.2, hs.3, hs.4, hs.5, hs.6))
      | inr not_one ↦ cc (rw not_one at k)
    ]
trimmed_color-normal (c ∷ s) color h = unfold is_color in cc

-- A normalized colour is its own normal form.
pub normalize_color-idempotent :
    (value color : Str) → normalize_color value ≡ ok color → normalize_color color ≡ ok color
normalize_color-idempotent value color h =
    trimmed_color-normal (trim_space value) color (sym (normalize_color_lem value) ∙ h)
