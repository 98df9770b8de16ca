-- ===== src/Strings/Utf8.antt =====
-- `unicode/utf8` and the `range` loop over a string: `runes` decodes a text as Go does, where
-- `none` stands for a byte that begins no valid encoding, and which is skipped alone.
use Prim.Native.Char.{code}
use Prim.Native.String.{String}
use next_now_x.Prelude.{
  ◌++◌, ◌/◌, ◌%◌, ℕ, ◌+◌, ◌*◌, ◌-◌, Str, List, [], ◌∷◌, Bool, true, false, ◌&&◌, ◌||◌, ltb, leb,
  ◌==◌, if◌then◌else◌, Option, some, none, length,
}
use next_now_x.Strings.Space.{within}

abbrev continues : ℕ → Bool
continues b = within 0x80 0xbf b

is_2 : ℕ → ℕ → Bool
is_2 a b = within 0xc2 0xdf a && continues b

-- The second byte excludes overlong forms (0xe0) and surrogates (0xed).
is_3 : ℕ → ℕ → ℕ → Bool
is_3 a b c =
    continues c
    && ((a == 0xe0 && within 0xa0 0xbf b)
        || ((within 0xe1 0xec a && continues b)
            || ((a == 0xed && within 0x80 0x9f b) || (within 0xee 0xef a && continues b))))

-- The second byte excludes overlong forms (0xf0) and what lies above U+10FFFF (0xf4).
is_4 : ℕ → ℕ → ℕ → ℕ → Bool
is_4 a b c d =
    continues c
    && (continues d
        && ((a == 0xf0 && within 0x90 0xbf b)
            || ((within 0xf1 0xf3 a && continues b) || (a == 0xf4 && within 0x80 0x8f b))))

abbrev one_byte : ℕ → Option ℕ
one_byte a = if ltb a 0x80 then some a else none

abbrev rune_2 : ℕ → ℕ → Option ℕ
rune_2 a b = some ((a - 0xc0) * 64 + (b - 0x80))

abbrev rune_3 : ℕ → ℕ → ℕ → Option ℕ
rune_3 a b c = some (((a - 0xe0) * 64 + (b - 0x80)) * 64 + (c - 0x80))

abbrev rune_4 : ℕ → ℕ → ℕ → ℕ → Option ℕ
rune_4 a b c d = some ((((a - 0xf0) * 64 + (b - 0x80)) * 64 + (c - 0x80)) * 64 + (d - 0x80))

unfoldable runes : Str → List (Option ℕ)
unfolding is_2 is_3 is_4
runes [] = []
runes (a ∷ []) = one_byte a ∷ []
runes (a ∷ b ∷ []) = elim (is_2 a b) [
  | true ↦ rune_2 a b ∷ []
  | false ↦ one_byte a ∷ runes (b ∷ [])
]
runes (a ∷ b ∷ c ∷ []) = elim (is_2 a b) [
  | true ↦ rune_2 a b ∷ runes (c ∷ [])
  | false ↦ elim (is_3 a b c) [ true ↦ rune_3 a b c ∷ [] | false ↦ one_byte a ∷ runes (b ∷ c ∷ []) ]
]
runes (a ∷ b ∷ c ∷ d ∷ s) = elim (is_2 a b) [
  | true ↦ rune_2 a b ∷ runes (c ∷ d ∷ s)
  | false ↦ elim (is_3 a b c) [
    | true ↦ rune_3 a b c ∷ runes (d ∷ s)
    | false ↦ elim (is_4 a b c d) [
      | true ↦ rune_4 a b c d ∷ runes s
      | false ↦ one_byte a ∷ runes (b ∷ c ∷ d ∷ s)
    ]
  ]
]

abbrev all_valid : List (Option ℕ) → Bool
all_valid [] = true
all_valid (none ∷ rs) = false
all_valid (some _ ∷ rs) = all_valid rs

-- `utf8.ValidString`.
unfoldable pub valid_string : Str → Bool
unfolding runes
valid_string s = all_valid (runes s)

-- `utf8.RuneCountInString`.
unfoldable pub rune_count : Str → ℕ
unfolding runes
rune_count s = length (runes s)

-- `unicode.IsControl`.
unfoldable pub is_control : ℕ → Bool
is_control r = leb r 0x1f || within 0x7f 0x9f r

abbrev any_rune : (ℕ → Bool) → List (Option ℕ) → Bool
any_rune p [] = false
any_rune p (none ∷ rs) = any_rune p rs
any_rune p (some r ∷ rs) = p r || any_rune p rs

-- Whether the `range` loop over a text meets a rune that passes the test. An invalid byte is met as
-- U+FFFD, which the tests of the program refuse.
unfoldable pub any_of_runes : (ℕ → Bool) → Str → Bool
unfolding runes
any_of_runes p s = any_rune p (runes s)

encode_rune : ℕ → Str
encode_rune r =
    if ltb r 0x80
    then r ∷ []
    else if ltb r 0x800
    then (0xc0 + r / 64) ∷ (0x80 + r % 64) ∷ []
    else if ltb r 0x10000
    then (0xe0 + r / 4096) ∷ (0x80 + r / 64 % 64) ∷ (0x80 + r % 64) ∷ []
    else (0xf0 + r / 262144) ∷ (0x80 + r / 4096 % 64) ∷ (0x80 + r / 64 % 64) ∷ (0x80 + r % 64) ∷ []

-- The bytes of a literal.
unfoldable pub encode : String → Str
unfolding encode_rune
encode String.[] = []
encode (String.◌∷◌ c s) = encode_rune (code c) ++ encode s
