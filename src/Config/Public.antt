-- ===== src/Config/Public.antt =====
-- internal/config/config.go, lines 240 to 275, 894 to 935 and 949 to 982: the settings that may be
-- shown.
use mathlib.Core.List.{append_assoc}
use next_now_x.Prelude.{
  ◌≡◌, ◌≢◌, refl, sym, ap, ◌∙◌, subst, ℕ, zero, suc, ◌-◌, ◌≤◌, ◌<◌, ◌++◌, Str, str_eq, List, [],
  ◌∷◌, Bool, true, false, ◌||◌, leb, if◌then◌else◌, Option, some, map, length, length-append, arith,
}
use next_now_x.Prelude.Int.{ℤ}
use next_now_x.Domain.Models.{TaskLabelOverrides}
use next_now_x.Strings.Utf8.{encode}
use next_now_x.Prompt.Language.{language_text, language_auto_value}
use next_now_x.Config.{
  Host, AuthMethod, ServerConfig, Config, Context, keychain, environment, inline, gh_cli,
  methods_of, effective_language,
}

pub record PublicAuthMethod : Type 0 where
  pub id : Str
  pub host : Str
  pub type : Str
  pub account : Str
  pub service : Str
  pub variable : Str
  pub user : Str
  pub secret_configured : Bool
  pub secret_hint : Str

pub record PublicGitHubConfig : Type 0 where
  pub hosts : List Host
  pub auth_methods : List PublicAuthMethod
  pub auto_sync_interval_seconds : ℤ

pub record PublicConfig : Type 0 where
  pub version : ℤ
  pub language : Str
  pub effective_language : Str
  pub github : PublicGitHubConfig
  pub server : ServerConfig
  pub task_labels : Option TaskLabelOverrides

abbrev take : ℕ → Str → Str
take zero s = []
take (suc n) [] = []
take (suc n) (c ∷ s) = c ∷ take n s

abbrev drop : ℕ → Str → Str
drop zero s = s
drop (suc n) [] = []
drop (suc n) (c ∷ s) = drop n s

abbrev ends : Str → Str
ends s = take 4 s ++ encode "…" ++ drop (length s - 4) s

mask_some : Str → Str
unfolding encode
mask_some s = if leb (length s) 8 then encode "••••" else ends s

-- `maskSecret`.
unfoldable pub mask_secret : Str → Str
unfolding mask_some
mask_secret [] = []
mask_secret (c ∷ s) = mask_some (c ∷ s)

abbrev is_set : Str → Bool
is_set [] = false
is_set (c ∷ s) = true

-- The body of the loop of `Public`.
unfoldable pub public_method : AuthMethod → PublicAuthMethod
unfolding mask_secret str_eq
public_method m = record {
  id = m.id;
  host = m.host;
  type = m.type;
  account = m.account;
  service = m.service;
  variable = m.variable;
  user = m.user;
  secret_configured =
      if str_eq m.type inline
      then is_set m.token
      else is_set m.token
        || (str_eq m.type environment || (str_eq m.type keychain || str_eq m.type gh_cli));
  secret_hint = if str_eq m.type inline then mask_secret m.token else [];
}

abbrev or_auto : Str → Str
or_auto [] = language_auto_value
or_auto (c ∷ s) = c ∷ s

module _ (x : Context) where
  -- `Public`.
  unfoldable pub public : Config → PublicConfig
  unfolding public_method effective_language
  public c = record {
    version = c.version;
    language = or_auto c.language;
    effective_language = language_text (effective_language x c.language);
    github = record {
      hosts = c.github.hosts;
      auth_methods = map public_method (methods_of c.github);
      auto_sync_interval_seconds = c.github.auto_sync_interval_seconds;
    };
    server = c.server;
    task_labels = c.task_labels;
  }

-- Two tokens that a reader of the hint cannot tell apart: both have at most 8 bytes, or they have the
-- same first 4 and last 4 bytes and more between them.
pub data Alike (s t : Str) : Type 0 where
  same : s ≡ t → Alike s t
  short : s ≢ [] → t ≢ [] → length s ≤ 8 → length t ≤ 8 → Alike s t
  long :
      (first last a b : Str)
      → length first ≡ 4
      → length last ≡ 4
      → 0 < length a
      → 0 < length b
      → s ≡ first ++ a ++ last
      → t ≡ first ++ b ++ last
      → Alike s t

take-append : (n : ℕ) (s t : Str) → length s ≡ n → take n (s ++ t) ≡ s
take-append zero [] t h = refl
take-append zero (c ∷ s) t h = absurd (omega arith)
take-append (suc n) [] t h = absurd (omega arith)
take-append (suc n) (c ∷ s) t h = ap (λ r. c ∷ r) (take-append n s t (omega arith))

drop-append : (n : ℕ) (s t : Str) → length s ≡ n → drop n (s ++ t) ≡ t
drop-append zero [] t h = refl
drop-append zero (c ∷ s) t h = absurd (omega arith)
drop-append (suc n) [] t h = absurd (omega arith)
drop-append (suc n) (c ∷ s) t h = drop-append n s t (omega arith)

ends_lem :
    (first a last : Str)
    → length first ≡ 4
    → length last ≡ 4
    → ends (first ++ a ++ last) ≡ first ++ encode "…" ++ last
ends_lem first a last h k =
    let head : take 4 (first ++ a ++ last) ≡ first =
      ap (take 4) (append_assoc first a last) ∙ take-append 4 first (a ++ last) h in
    let size : length (first ++ a ++ last) - 4 ≡ length (first ++ a) =
      omega (arith, length-append (first ++ a) last) in
    let tail : drop (length (first ++ a ++ last) - 4) (first ++ a ++ last) ≡ last =
      ap (λ n. drop n (first ++ a ++ last)) size
      ∙ drop-append (length (first ++ a)) (first ++ a) last refl in
    λ i. head i ++ encode "…" ++ tail i

mask_short : (s : Str) → s ≢ [] → length s ≤ 8 → mask_secret s ≡ encode "••••"
unfolding mask_secret
mask_short [] n h = absurd (n refl)
mask_short (c ∷ s) n h = ground arith

mask_long : (s : Str) → 8 < length s → mask_secret s ≡ ends s
unfolding mask_secret
mask_long [] h = absurd (omega arith)
mask_long (c ∷ s) h = ground arith

long_ne :
    (first a last : Str)
    → length first ≡ 4
    → length last ≡ 4
    → 0 < length a
    → 8 < length (first ++ a ++ last)
long_ne first a last h k p = omega (arith, length-append (first ++ a) last, length-append first a)

set_some : (s : Str) → s ≢ [] → is_set s ≡ true
set_some [] n = absurd (n refl)
set_some (c ∷ s) n = refl

long_set : (s : Str) → 8 < length s → is_set s ≡ true
long_set [] h = absurd (omega arith)
long_set (c ∷ s) h = refl

-- The hint and whether there is a token are the same.
Alike-mask : (s t : Str) → Alike s t → (mask_secret s ≡ mask_secret t) × (is_set s ≡ is_set t)
Alike-mask s t (same e) = (ap mask_secret e, ap is_set e)
Alike-mask s t (short n n' h h') =
    (mask_short s n h ∙ sym (mask_short t n' h'), set_some s n ∙ sym (set_some t n'))
Alike-mask s t (long first last a b h k p q e f) =
    let l : 8 < length s = subst (λ r. 8 < length r) (sym e) (long_ne first a last h k p) in
    let l' : 8 < length t = subst (λ r. 8 < length r) (sym f) (long_ne first b last h k q) in
    (
      mask_long s l
          ∙ ap ends e
          ∙ ends_lem first a last h k
          ∙ sym (mask_long t l' ∙ ap ends f ∙ ends_lem first b last h k),
      long_set s l ∙ sym (long_set t l'),
    )

-- The same methods with other tokens, each of them alike.
abbrev pub Pairwise : List AuthMethod → List Str → Type 0
Pairwise [] [] = Unit
Pairwise [] (t ∷ ts) = ⊥
Pairwise (m ∷ ms) [] = ⊥
Pairwise (m ∷ ms) (t ∷ ts) = Alike m.token t × Pairwise ms ts

abbrev pub with_tokens : List AuthMethod → List Str → List AuthMethod
with_tokens [] ts = []
with_tokens (m ∷ ms) [] = m ∷ ms
with_tokens (m ∷ ms) (t ∷ ts) = record m { token = t } ∷ with_tokens ms ts

method_alike :
    (m : AuthMethod) (t : Str)
    → Alike m.token t
    → public_method (record m { token = t }) ≡ public_method m
unfolding public_method
method_alike m t a = let (hint, given) = Alike-mask m.token t a in rw (sym hint, sym given) refl

methods_alike :
    (ms : List AuthMethod) (ts : List Str)
    → Pairwise ms ts
    → map public_method (with_tokens ms ts) ≡ map public_method ms
methods_alike [] [] p = refl
methods_alike [] (t ∷ ts) p = absurd p
methods_alike (m ∷ ms) [] p = absurd p
methods_alike (m ∷ ms) (t ∷ ts) p = λ i. method_alike m t p.0 i ∷ methods_alike ms ts p.1 i

-- What may be shown does not tell a token from another one that is alike: of a token of at most 8 bytes
-- it shows only that it is there, and of a longer one no more than its first 4 and its last 4 bytes.
pub public-with_tokens :
    (x : Context) (c : Config) (ms : List AuthMethod) (ts : List Str)
    → c.github.auth_methods ≡ some ms
    → Pairwise ms ts
    → public x (record c { github = record c.github { auth_methods = some (with_tokens ms ts) } })
      ≡ public x c
unfolding public
public-with_tokens x c ms ts e p = rw (e) (rw (methods_alike ms ts p) refl)
