-- ===== src/Prompt/Language.antt =====
-- internal/prompt/language.go: the language of the built-in templates.
use next_now_x.Prelude.{
  ℕ, Str, codes, str_eq, List, [], ◌∷◌, ◌==◌, if◌then◌else◌, Option, none, some,
}
use next_now_x.Strings.Space.{trim_space}
use next_now_x.Strings.Case.{to_lower}

pub data Language : Type 0 where
  english japanese : Language

-- `string(language)`.
abbrev pub language_text : Language → Str
language_text english = codes "en"
language_text japanese = codes "ja"

abbrev pub language_auto_value : Str
language_auto_value = codes "auto"

named_language : Str → Option Language
unfolding str_eq
named_language value =
    if str_eq value (language_text english)
    then some english
    else if str_eq value (language_text japanese)
    then some japanese
    else none

-- `ParseLanguage`; `none` is the result `"", false`.
unfoldable pub parse_language : Str → Option Language
unfolding named_language
parse_language value = named_language (to_lower (trim_space value))

locale_variables : List Str
locale_variables = codes "LC_ALL" ∷ codes "LC_MESSAGES" ∷ codes "LANG" ∷ []

-- `base[:strings.Index(base, separator)]`, or all of `base` without the separator.
unfoldable pub before : ℕ → Str → Str
before separator [] = []
before separator (c ∷ s) = let rest = before separator s in if c == separator then [] else c ∷ rest

separators : List ℕ
separators = b'.' ∷ b'@' ∷ b'_' ∷ b'-' ∷ []

-- The loop over the separators.
cut_all : List ℕ → Str → Str
unfolding before
cut_all [] base = base
cut_all (separator ∷ rest) base = cut_all rest (before separator base)

-- `languageOfLocale`.
unfoldable pub language_of_locale : Str → Option Language
unfolding cut_all separators parse_language
language_of_locale value = parse_language (cut_all separators (trim_space value))

-- The loop over the variables.
first_locale : List Str → (Str → Str) → Language
unfolding language_of_locale
first_locale [] lookup = english
first_locale (name ∷ rest) lookup =
    let next = first_locale rest lookup in
    elim (language_of_locale (lookup name)) [ some l ↦ l | none ↦ next ]

-- `ResolveLanguageWith`; `lookup` is `os.Getenv` in `ResolveLanguage`.
unfoldable pub resolve_language_with : Str → (Str → Str) → Language
unfolding parse_language first_locale locale_variables
resolve_language_with setting lookup = elim (parse_language setting) [
  | some l ↦ l
  | none ↦ first_locale locale_variables lookup
]
