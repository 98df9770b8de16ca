-- ===== src/Strings/Decimal.antt =====
-- `strconv.Itoa` and `strconv.Atoi`: decimal texts of integers. A Go `int` has 64 bits.
use next_now_x.Prelude.{
  ℕ, zero, suc, ◌+◌, ◌-◌, ◌*◌, ◌/◌, ◌%◌, ◌^◌, ◌≤◌, ◌<◌, ◌≡◌, refl, Str, [], ◌∷◌, ◌&&◌, leb, ltb,
  ◌==◌, if◌then◌else◌, Option, none, some, Bool-cases, inl, inr, arith, All, ap, ◌∙◌,
}
use next_now_x.Prelude.Int.{ℤ, pos, negsuc, ◌≤ℤ◌}

-- The digits of `n` before `out`; each round divides by ten, so that fuel above `n` is enough.
digits : ℕ → ℕ → Str → Str
digits zero n out = out
digits (suc fuel) n out =
    let rest = digits fuel (n / 10) ((b'0' + n % 10) ∷ out) in
    if ltb n 10 then (b'0' + n) ∷ out else rest

unfoldable pub format_nat : ℕ → Str
unfolding digits
format_nat n = digits (suc n) n []

unfoldable pub itoa : ℤ → Str
itoa (pos n) = format_nat n
itoa (negsuc n) = b'-' ∷ format_nat (suc n)

scan_digits : Str → ℕ → Option ℕ
scan_digits [] n = some n
scan_digits (c ∷ s) n =
    let rest = scan_digits s (n * 10 + (c - b'0')) in
    if leb b'0' c && leb c b'9' then rest else none

magnitude : Str → Option ℕ
unfolding scan_digits
magnitude [] = none
magnitude (c ∷ s) = scan_digits (c ∷ s) 0

abbrev negate : ℕ → ℤ
negate zero = pos 0
negate (suc n) = negsuc n

-- Numbers beyond 64 bits are a range error.
positive : Option ℕ → Option ℤ
positive none = none
positive (some n) = if ltb n (2 ^ 63) then some (pos n) else none

negative : Option ℕ → Option ℤ
negative none = none
negative (some n) = if leb n (2 ^ 63) then some (negate n) else none

unfoldable pub atoi : Str → Option ℤ
unfolding magnitude positive negative
atoi [] = none
atoi (c ∷ s) =
    if c == b'-'
    then negative (magnitude s)
    else if c == b'+'
    then positive (magnitude s)
    else positive (magnitude (c ∷ s))

-- A text of digits and, at its front, nothing else.
abbrev pub IsDigit : ℕ → Type 0
IsDigit c = (b'0' ≤ c) × (c ≤ b'9')

scan-digits :
    (fuel n : ℕ) (out : Str) → n < fuel → scan_digits (digits fuel n out) 0 ≡ scan_digits out n
unfolding digits scan_digits
scan-digits zero n out h = absurd (omega arith)
scan-digits (suc fuel) n out h = ground (arith, scan-digits fuel (n / 10) ((b'0' + n % 10) ∷ out))

digits-IsDigit : (fuel n : ℕ) (out : Str) → All IsDigit out → All IsDigit (digits fuel n out)
unfolding digits
digits-IsDigit zero n out h = h
digits-IsDigit (suc fuel) n out h = elim (Bool-cases (ltb n 10)) [
  | inl e ↦ rw e ((omega arith, ground arith), h)
  | inr e ↦
      rw e (digits-IsDigit fuel (n / 10) ((b'0' + n % 10) ∷ out) ((omega arith, omega arith), h))
]

digits_cons :
    (fuel n : ℕ) (out : Str) → n < fuel → (c : ℕ) × (s : Str) × (digits fuel n out ≡ c ∷ s)
unfolding digits
digits_cons zero n out h = absurd (omega arith)
digits_cons (suc fuel) n out h = elim (Bool-cases (ltb n 10)) [
  | inl e ↦ (b'0' + n, out, rw e refl)
  | inr e ↦ rw e (digits_cons fuel (n / 10) ((b'0' + n % 10) ∷ out) (ground arith))
]

pub format_nat-IsDigit : (n : ℕ) → All IsDigit (format_nat n)
unfolding format_nat
format_nat-IsDigit n = digits-IsDigit (suc n) n [] tt

pub format_nat_cons : (n : ℕ) → (c : ℕ) × (s : Str) × (format_nat n ≡ c ∷ s)
unfolding format_nat
format_nat_cons n = digits_cons (suc n) n [] (omega arith)

magnitude-scan : (c : ℕ) (s t : Str) → t ≡ c ∷ s → magnitude t ≡ scan_digits t 0
unfolding magnitude
magnitude-scan c s [] e = cc
magnitude-scan c s (b ∷ t) e = refl

magnitude-format_nat : (n : ℕ) → magnitude (format_nat n) ≡ some n
unfolding format_nat scan_digits
magnitude-format_nat n =
    let (c, s, e) = digits_cons (suc n) n [] (omega arith) in
    magnitude-scan c s (digits (suc n) n []) e ∙ scan-digits (suc n) n [] (omega arith)

-- A text of digits has no sign.
atoi-digits : (c : ℕ) (s t : Str) → t ≡ c ∷ s → All IsDigit t → atoi t ≡ positive (magnitude t)
unfolding atoi
atoi-digits c s [] e h = cc
atoi-digits c s (b ∷ t) e h = ground arith

positive_lem : (n : ℕ) → n < 2 ^ 63 → positive (some n) ≡ some (pos n)
unfolding positive
positive_lem n h = ground arith

negative_lem : (n : ℕ) → suc n ≤ 2 ^ 63 → negative (some (suc n)) ≡ some (negsuc n)
unfolding negative
negative_lem n h = ground arith

-- Every 64-bit integer is read back from its text.
pub atoi-itoa : (z : ℤ) → z ≤ℤ pos (2 ^ 63 - 1) → negsuc (2 ^ 63 - 1) ≤ℤ z → atoi (itoa z) ≡ some z
unfolding itoa
atoi-itoa (pos n) h k =
    let (c, s, e) = format_nat_cons n in
    atoi-digits c s (format_nat n) e (format_nat-IsDigit n)
    ∙ ap positive (magnitude-format_nat n)
    ∙ positive_lem n (omega arith)
atoi-itoa (negsuc n) h k =
    unfold atoi in ap negative (magnitude-format_nat (suc n)) ∙ negative_lem n (omega arith)

-- The texts of all integers, those beyond 64 bits too.
pub atoi-format_nat :
    (n : ℕ) → atoi (format_nat n) ≡ (if ltb n (2 ^ 63) then some (pos n) else none)
atoi-format_nat n =
    let (c, s, e) = format_nat_cons n in
    atoi-digits c s (format_nat n) e (format_nat-IsDigit n)
    ∙ unfold positive in ap positive (magnitude-format_nat n)

pub atoi_minus :
    (n : ℕ)
    → atoi (b'-' ∷ format_nat (suc n)) ≡ (if leb (suc n) (2 ^ 63) then some (negsuc n) else none)
atoi_minus n = unfold atoi negative in ap negative (magnitude-format_nat (suc n))
