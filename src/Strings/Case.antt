-- ===== src/Strings/Case.antt =====
-- `strings.ToLower`, as far as the result is compared with ASCII texts: of the upper-case letters
-- outside ASCII only U+0130 and U+212A have a lower case in ASCII, and the others are left alone.
use next_now_x.Prelude.{ℕ, ◌+◌, Str, [], ◌∷◌, Bool, true, false, ◌&&◌, ◌==◌, if◌then◌else◌}
use next_now_x.Strings.Space.{within}

unfoldable pub lower_byte : ℕ → ℕ
lower_byte a = if within b'A' b'Z' a then a + 32 else a

unfoldable pub is_dotted_i : ℕ → ℕ → Bool
is_dotted_i a b = a == 0xc4 && b == 0xb0

unfoldable pub is_kelvin : ℕ → ℕ → ℕ → Bool
is_kelvin a b c = a == 0xe2 && (b == 0x84 && c == 0xaa)

unfoldable pub to_lower : Str → Str
unfolding lower_byte is_dotted_i is_kelvin
to_lower [] = []
to_lower (a ∷ []) = lower_byte a ∷ []
to_lower (a ∷ b ∷ []) = elim (is_dotted_i a b) [
  | true ↦ b'i' ∷ []
  | false ↦ lower_byte a ∷ to_lower (b ∷ [])
]
to_lower (a ∷ b ∷ c ∷ s) = elim (is_dotted_i a b) [
  | true ↦ b'i' ∷ to_lower (c ∷ s)
  | false ↦ elim (is_kelvin a b c) [
    | true ↦ b'k' ∷ to_lower s
    | false ↦ lower_byte a ∷ to_lower (b ∷ c ∷ s)
  ]
]
