-- ===== src/Config/Port.antt =====
-- internal/config/config.go, lines 26 to 94: the port of the server.
use next_now_x.Prelude.{
  ◌≡◌, ◌≢◌, ◌^◌, ◌≤◌, ◌↔◌, refl, sym, ap, ◌∙◌, subst, ℕ, zero, suc, Str, codes, str_eq, [], ◌∷◌,
  Bool, false, ◌||◌, leb, ltb, ◌==◌, if◌then◌else◌, Option, none, some, Result, ok, err, All, arith,
}
use next_now_x.Prelude.Int.{ℤ, pos, negsuc}
use next_now_x.Strings.Space.{trim_space}
use next_now_x.Strings.Space.Plain.{IsLow, Low-IsPlain, trim_space_plain, to_lower_plain}
use next_now_x.Strings.Case.{to_lower}
use next_now_x.Strings.Decimal.{
  atoi, itoa, format_nat, format_nat-IsDigit, format_nat_cons, IsDigit, atoi-format_nat, atoi_minus,
}
use next_now_x.Config.{invalid, Failure, config}

-- `ServerPortAutoValue`.
abbrev pub server_port_auto_value : Str
server_port_auto_value = codes "auto"

is_auto : Str → Bool
unfolding str_eq
is_auto s =
    str_eq s []
    || (str_eq s server_port_auto_value || (str_eq s (codes "null") || str_eq s (codes "~")))

-- The test of the number.
port_number : Option ℤ → Result Failure ℤ
port_number none = err (config invalid)
port_number (some (negsuc n)) = err (config invalid)
port_number (some (pos n)) = if ltb n 1 || ltb 65535 n then err (config invalid) else ok (pos n)

lowered_port : Str → Result Failure ℤ
unfolding is_auto port_number atoi
lowered_port s = if is_auto s then ok (pos 0) else port_number (atoi s)

-- `ParseServerPort`.
unfoldable pub parse_server_port : Str → Result Failure ℤ
unfolding lowered_port
parse_server_port value = lowered_port (to_lower (trim_space value))

-- `Auto`.
abbrev pub auto : ℤ → Bool
auto (pos n) = n == 0
auto (negsuc n) = false

-- `String`.
unfoldable pub port_string : ℤ → Str
unfolding itoa
port_string p = if auto p then server_port_auto_value else itoa p

-- What YAML gives for the value: a scalar by its text, or a node of another kind.
pub data Node : Type 0 where
  scalar : Str → Node
  other : Node

-- `UnmarshalYAML`.
unfoldable pub unmarshal_port : Node → Result Failure ℤ
unfolding parse_server_port
unmarshal_port (scalar s) = parse_server_port s
unmarshal_port other = err (config invalid)

-- `MarshalYAML`: the scalar of a text or of a number.
unfoldable pub marshal_port : ℤ → Node
unfolding itoa
marshal_port p = if auto p then scalar server_port_auto_value else scalar (itoa p)

-- 0 for auto, or a port number.
abbrev pub IsPort : ℤ → Type 0
IsPort (pos n) = n ≤ 65535
IsPort (negsuc n) = ⊥

port_number-IsPort : (o : Option ℤ) (p : ℤ) → port_number o ≡ ok p → IsPort p
unfolding port_number
port_number-IsPort none p h = cc
port_number-IsPort (some (negsuc n)) p h = cc
port_number-IsPort (some (pos n)) (pos m) h = ground arith
port_number-IsPort (some (pos n)) (negsuc m) h = ground arith

lowered_port-IsPort : (s : Str) (p : ℤ) → lowered_port s ≡ ok p → IsPort p
unfolding lowered_port
lowered_port-IsPort s (pos n) h = ground (arith, port_number-IsPort (atoi s) (pos n))
lowered_port-IsPort s (negsuc n) h = ground (arith, port_number-IsPort (atoi s) (negsuc n))

pub parse_server_port-IsPort : (s : Str) (p : ℤ) → parse_server_port s ≡ ok p → IsPort p
unfolding parse_server_port
parse_server_port-IsPort s p h = lowered_port-IsPort (to_lower (trim_space s)) p h

digit-IsLow : (s : Str) → All IsDigit s → All IsLow s
digit-IsLow [] h = tt
digit-IsLow (c ∷ s) h = ((omega arith, omega arith), digit-IsLow s h.1)

not_auto : (c : ℕ) (s t : Str) → t ≡ c ∷ s → All IsDigit t → is_auto t ≡ false
unfolding is_auto
not_auto c s [] e h = cc
not_auto c s (b ∷ t) e h = ground arith

-- The port of a number's text, which has no space and no letter.
lowered_port-digits :
    (c : ℕ) (s t : Str) (o : Option ℤ)
    → t ≡ c ∷ s
    → All IsDigit t
    → atoi t ≡ o
    → parse_server_port t ≡ port_number o
unfolding parse_server_port lowered_port
lowered_port-digits c s t o e digit h =
    let plain = digit-IsLow t digit in
    ap lowered_port
      (ap to_lower (trim_space_plain t (Low-IsPlain t plain)) ∙ to_lower_plain t plain)
    ∙ rw (not_auto c s t e digit) (ap port_number h)

port_string-suc : (n : ℕ) → port_string (pos (suc n)) ≡ format_nat (suc n)
unfolding port_string
port_string-suc n = ground arith

parse_digits :
    (n : ℕ)
    → parse_server_port (format_nat n) ≡ port_number (if ltb n (2 ^ 63) then some (pos n) else none)
parse_digits n =
    let (c, s, e) = format_nat_cons n in
    lowered_port-digits c s (format_nat n) _ e (format_nat-IsDigit n) (atoi-format_nat n)

in_range :
    (n : ℕ)
    → suc n ≤ 65535
    → port_number (if ltb (suc n) (2 ^ 63) then some (pos (suc n)) else none) ≡ ok (pos (suc n))
unfolding port_number
in_range n h = ground arith

out_of_range :
    (n : ℕ) (q : ℤ)
    → port_number (if ltb (suc n) (2 ^ 63) then some (pos (suc n)) else none) ≡ ok q
    → suc n ≤ 65535
unfolding port_number
out_of_range n q h = ground arith

text_back : (p : ℤ) → IsPort p → parse_server_port (port_string p) ≡ ok p
unfolding parse_server_port port_string trim_space to_lower str_eq
text_back (pos zero) h = refl
text_back (pos (suc n)) h =
    ap parse_server_port (port_string-suc n) ∙ parse_digits (suc n) ∙ in_range n h
text_back (negsuc n) h = absurd h

-- The value that is written is the text of the port.
marshal_port_lem : (p : ℤ) → marshal_port p ≡ scalar (port_string p)
unfolding marshal_port port_string
marshal_port_lem p = ground arith

unmarshal_port-IsPort : (n : Node) (p : ℤ) → unmarshal_port n ≡ ok p → IsPort p
unfolding unmarshal_port
unmarshal_port-IsPort (scalar s) p h = parse_server_port-IsPort s p h
unmarshal_port-IsPort other p h = cc

node_back : (p : ℤ) → IsPort p → unmarshal_port (marshal_port p) ≡ ok p
unfolding unmarshal_port
node_back p h = subst (λ n. unmarshal_port n ≡ ok p) (sym (marshal_port_lem p)) (text_back p h)

-- A port is read back from its text, as a setting and as a YAML value, if it is 0 or a port number;
-- any other number is not.
pub parse_server_port-port_string :
    (p : ℤ)
    → ((parse_server_port (port_string p) ≡ ok p) ↔ IsPort p)
      × ((unmarshal_port (marshal_port p) ≡ ok p) ↔ IsPort p)
parse_server_port-port_string p = (
  (parse_server_port-IsPort (port_string p) p, text_back p),
  (unmarshal_port-IsPort (marshal_port p) p, node_back p),
)

parse_minus :
    (n : ℕ)
    → parse_server_port (b'-' ∷ format_nat (suc n))
      ≡ port_number (if leb (suc n) (2 ^ 63) then some (negsuc n) else none)
unfolding parse_server_port lowered_port
parse_minus n =
    let t : Str = b'-' ∷ format_nat (suc n) in
    let plain : All IsLow t =
      ((omega arith, omega arith), digit-IsLow (format_nat (suc n)) (format_nat-IsDigit (suc n))) in
    ap lowered_port
      (ap to_lower (trim_space_plain t (Low-IsPlain t plain)) ∙ to_lower_plain t plain)
    ∙ ap port_number (atoi_minus n)

minus_out :
    (n : ℕ) (q : ℤ) → port_number (if leb (suc n) (2 ^ 63) then some (negsuc n) else none) ≢ ok q
unfolding port_number
minus_out n q h = ground arith

port_string-negsuc : (n : ℕ) → port_string (negsuc n) ≡ b'-' ∷ format_nat (suc n)
unfolding port_string
port_string-negsuc n = refl

-- Of a number that is no port the text is refused, beyond 64 bits too.
pub port_string-IsPort : (p q : ℤ) → parse_server_port (port_string p) ≡ ok q → IsPort p
port_string-IsPort (pos zero) q h = omega arith
port_string-IsPort (pos (suc n)) q h =
    out_of_range n q (sym (ap parse_server_port (port_string-suc n) ∙ parse_digits (suc n)) ∙ h)
port_string-IsPort (negsuc n) q h =
    minus_out n q (sym (ap parse_server_port (port_string-negsuc n) ∙ parse_minus n) ∙ h)
