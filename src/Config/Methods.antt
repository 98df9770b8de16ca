-- ===== src/Config/Methods.antt =====
-- internal/config/config.go, lines 320 to 323 and 610 to 632: the methods of authentication.
use next_now_x.Prelude.{
  ◌≡◌, refl, Str, str_eq, [], ◌∷◌, Bool, true, false, not, ◌&&◌, ◌||◌, ◌==◌, if◌then◌else◌, Result,
  ok, err, ℕ, All, arith,
}
use next_now_x.Strings.Space.{trim_space, trim_space-trim_space, within}
use next_now_x.Strings.Space.Plain.{IsPlain, trim_space_plain}
use next_now_x.Config.{invalid, Failure, config, AuthMethod, keychain, environment, inline, gh_cli}

is_letter : ℕ → Bool
is_letter c = within b'A' b'Z' c || within b'a' b'z' c

is_digit : ℕ → Bool
is_digit c = within b'0' b'9' c

every : (ℕ → Bool) → Str → Bool
every p [] = true
every p (c ∷ s) = p c && every p s

-- `envNamePattern`.
is_env_name : Str → Bool
unfolding is_letter is_digit every
is_env_name [] = false
is_env_name (c ∷ s) =
    (is_letter c || c == b'_') && every (λ b. is_letter b || (is_digit b || b == b'_')) s

-- `authIDPattern`.
unfoldable pub is_auth_id : Str → Bool
unfolding is_letter is_digit every
is_auth_id [] = false
is_auth_id (c ∷ s) =
    (is_letter c || is_digit c)
    && every (λ b. is_letter b || (is_digit b || (b == b'.' || (b == b'_' || b == b'-')))) s

abbrev accept_if : Bool → Result Failure (Unit {0})
accept_if true = ok tt
accept_if false = err (config invalid)

abbrev is_blank : Str → Bool
is_blank s = str_eq (trim_space s) []

-- The cases of `validateAuthMethod`.
method_fields : AuthMethod → Bool
unfolding is_env_name str_eq
method_fields m =
    if str_eq m.type keychain
    then not (is_blank m.account) && not (is_blank m.service)
    else if str_eq m.type environment
    then is_env_name (trim_space m.variable)
    else if str_eq m.type inline
    then not (is_blank m.token)
    else str_eq m.type gh_cli

-- `validateAuthMethod`.
unfoldable pub validate_auth_method : AuthMethod → Result Failure (Unit {0})
unfolding method_fields
validate_auth_method m =
    if not (str_eq m.type inline) && not (is_blank m.token)
    then err (config invalid)
    else accept_if (method_fields m)

-- Trimming the token does not change the result.
pub validate_auth_method_trimmed :
    (m : AuthMethod)
    → validate_auth_method (record m { token = trim_space m.token }) ≡ validate_auth_method m
unfolding validate_auth_method method_fields
validate_auth_method_trimmed m = rw (trim_space-trim_space m.token) refl

every-IsPlain :
    (p : ℕ → Bool) (s : Str) → ((c : ℕ) → p c ≡ true → IsPlain c) → every p s ≡ true → All IsPlain s
unfolding every
every-IsPlain p [] h e = tt
every-IsPlain p (c ∷ s) h e = (h c (ground arith), every-IsPlain p s h (ground arith))

first-IsPlain : (c : ℕ) → (is_letter c || is_digit c) ≡ true → IsPlain c
unfolding is_letter is_digit
first-IsPlain c h = ground arith

rest-IsPlain :
    (b : ℕ)
    → (is_letter b || (is_digit b || (b == b'.' || (b == b'_' || b == b'-')))) ≡ true
    → IsPlain b
unfolding is_letter is_digit
rest-IsPlain b h = ground arith

both : (a b : Bool) → (a && b) ≡ true → (a ≡ true) × (b ≡ true)
both true b h = (refl, h)
both false b h = cc

-- An id has no space, so that trimming leaves it alone.
pub trim_space-id : (s : Str) → is_auth_id s ≡ true → trim_space s ≡ s
unfolding is_auth_id
trim_space-id [] h = cc
trim_space-id (c ∷ s) h =
    let (first, rest) = both _ _ h in
    trim_space_plain (c ∷ s) (first-IsPlain c first, every-IsPlain _ s rest-IsPlain rest)
