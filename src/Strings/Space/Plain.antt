-- ===== src/Strings/Space/Plain.antt =====
-- `strings.TrimSpace` and `strings.ToLower` on texts of printable ASCII.
use mathlib.Core.List.{reverse, reverse-cons}
use next_now_x.Prelude.{◌≡◌, refl, ap, ℕ, ◌++◌, ◌<◌, Str, [], ◌∷◌, All, false, arith}
use next_now_x.Strings.Space.{
  trim_space, trim_space_fixed, starts_space, ends_space, starts, is_ascii_space, is_space_2,
  is_space_3,
}
use next_now_x.Strings.Case.{to_lower, lower_byte, is_dotted_i, is_kelvin}

-- A printable ASCII character that is no space.
abbrev pub IsPlain : ℕ → Type 0
IsPlain c = (0x20 < c) × (c < 0x80)

-- One that stands before the letters.
abbrev pub IsLow : ℕ → Type 0
IsLow c = (0x20 < c) × (c < 0x41)

pub Low-IsPlain : (s : Str) → All IsLow s → All IsPlain s
Low-IsPlain [] h = tt
Low-IsPlain (c ∷ s) h = ((h.0.0, omega arith), Low-IsPlain s h.1)

All-append : (s t : Str) → All IsPlain s → All IsPlain t → All IsPlain (s ++ t)
All-append [] t h k = k
All-append (a ∷ s) t h k = (h.0, All-append s t h.1 k)

All-reverse : (s : Str) → All IsPlain s → All IsPlain (reverse s)
All-reverse [] h = tt
All-reverse (a ∷ s) h =
    rw (reverse-cons) (All-append (reverse s) (a ∷ []) (All-reverse s h.1) (h.0, tt))

starts_space_plain : (s : Str) → All IsPlain s → starts_space s ≡ false
unfolding starts_space
starts_space_plain [] h = refl
starts_space_plain (a ∷ []) h = ground arith
starts_space_plain (a ∷ b ∷ []) h = ground arith
starts_space_plain (a ∷ b ∷ c ∷ s) h = ground arith

reversed_plain :
    (s : Str)
    → All IsPlain s
    → starts is_ascii_space (λ b a. is_space_2 a b) (λ c b a. is_space_3 a b c) s ≡ false
unfolding starts is_ascii_space is_space_2 is_space_3
reversed_plain [] h = refl
reversed_plain (a ∷ []) h = ground arith
reversed_plain (a ∷ b ∷ []) h = ground arith
reversed_plain (a ∷ b ∷ c ∷ s) h = ground arith

ends_space_plain : (s : Str) → All IsPlain s → ends_space s ≡ false
unfolding ends_space
ends_space_plain s h = reversed_plain (reverse s) (All-reverse s h)

pub trim_space_plain : (s : Str) → All IsPlain s → trim_space s ≡ s
trim_space_plain s h = trim_space_fixed s (starts_space_plain s h) (ends_space_plain s h)

lower_byte_plain : (a : ℕ) → IsLow a → lower_byte a ≡ a
unfolding lower_byte
lower_byte_plain a h = ground arith

not_dotted_i : (a b : ℕ) → IsLow a → is_dotted_i a b ≡ false
unfolding is_dotted_i
not_dotted_i a b h = ground arith

not_kelvin : (a b c : ℕ) → IsLow a → is_kelvin a b c ≡ false
unfolding is_kelvin
not_kelvin a b c h = ground arith

pub to_lower_plain : (s : Str) → All IsLow s → to_lower s ≡ s
unfolding to_lower
to_lower_plain [] h = refl
to_lower_plain (a ∷ []) h = ap (λ x. x ∷ []) (lower_byte_plain a h.0)
to_lower_plain (a ∷ b ∷ []) h =
    rw (not_dotted_i a b h.0, to_lower)
      (rw (lower_byte_plain a h.0) (ap (λ s. a ∷ s) (to_lower_plain (b ∷ []) h.1)))
to_lower_plain (a ∷ b ∷ c ∷ s) h =
    rw (not_dotted_i a b h.0, not_kelvin a b c h.0, to_lower)
      (rw (lower_byte_plain a h.0) (ap (λ s. a ∷ s) (to_lower_plain (b ∷ c ∷ s) h.1)))
