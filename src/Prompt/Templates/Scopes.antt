-- ===== src/Prompt/Templates/Scopes.antt =====
-- internal/prompt/prompt.go: the templates that `Normalize` and `Resolve` return.
use next_now_x.Prelude.{
  ◌≡◌, refl, sym, ap, ◌∙◌, subst, ◌++◌, Str, codes, [], ◌∷◌, Result, ok, err, has_str, str_eq,
  bind-ok, check-ok,
}
use next_now_x.Domain.Models.{PromptTemplateOverrides}
use next_now_x.Strings.Space.{trim_space}
use next_now_x.Prompt.{
  Kind, design, implementation, batch, batch_design, TemplateError, validate_kind,
  validate_override,
}
use next_now_x.Prompt.Language.{Language, english, japanese}
use next_now_x.Prompt.Templates.{
  Templates, default_templates, template, override, set_template, if_blank, or_default, filled,
  in_field, kind_text, check_kind, checked, normalize, put, apply_kind, apply_override, resolve,
}

-- Each template passes the validation of its kind.
abbrev pub IsAccepted : Templates → Type 0
IsAccepted t = (kind : Kind) → validate_kind kind (template t kind) ≡ ok tt

in_field-ok :
    (t : Templates) (kind : Kind)
    → check_kind t kind ≡ ok tt
    → validate_kind kind (template t kind) ≡ ok tt
unfolding check_kind
in_field-ok t kind h =
    elim (validate_kind kind (template t kind))
        as (λ r. in_field (codes "prompts." ++ kind_text kind) r ≡ ok tt → r ≡ ok tt) [
          | ok tt ↦ λ h. refl
          | err e ↦ λ h. cc
        ]
      h

pub at_kinds :
    (P : Kind → Type 0)
    → P design
    → P implementation
    → P batch
    → P batch_design
    → (kind : Kind) → P kind
at_kinds P a b c d design = a
at_kinds P a b c d implementation = b
at_kinds P a b c d batch = c
at_kinds P a b c d batch_design = d

checked-ok : (t t' : Templates) → checked t ≡ ok t' → (t ≡ t') × IsAccepted t
unfolding checked
checked-ok t t' h =
    let (a, h) = check-ok (check_kind t design) _ h in
    let (b, h) = check-ok (check_kind t implementation) _ h in
    let (c, h) = check-ok (check_kind t batch) _ h in
    let (d, h) = check-ok (check_kind t batch_design) _ h in
    (
      cc,
      at_kinds (λ kind. validate_kind kind (template t kind) ≡ ok tt) (in_field-ok t design a)
          (in_field-ok t implementation b) (in_field-ok t batch c) (in_field-ok t batch_design d),
    )

if_blank_same : (s value : Str) → if_blank s value value ≡ value
if_blank_same [] value = refl
if_blank_same (c ∷ s) value = refl

pub or_default_empty : (fallback : Str) → or_default fallback [] ≡ fallback
unfolding or_default trim_space
or_default_empty fallback = refl

pub or_default_same : (value : Str) → or_default value value ≡ value
unfolding or_default
or_default_same value = if_blank_same (trim_space value) value

if_blank_fixed :
    (s fallback value : Str)
    → trim_space value ≡ s
    → or_default fallback (if_blank s fallback value) ≡ if_blank s fallback value
unfolding or_default
if_blank_fixed [] fallback value e = if_blank_same (trim_space fallback) fallback
if_blank_fixed (c ∷ s) fallback value e = rw e refl

or_default_fixed :
    (fallback value : Str)
    → or_default fallback (or_default fallback value) ≡ or_default fallback value
unfolding or_default
or_default_fixed fallback value = if_blank_fixed (trim_space value) fallback value refl

filled_fixed : (defaults t : Templates) → filled defaults (filled defaults t) ≡ filled defaults t
filled_fixed d t = cc (
  or_default_fixed d.design_text t.design_text,
  or_default_fixed d.implementation_text t.implementation_text,
  or_default_fixed d.batch_text t.batch_text,
  or_default_fixed d.batch_design_text t.batch_design_text,
)

-- `Normalize` sees of the templates only what it fills in.
pub normalize-filled :
    (language : Language) (t u : Templates)
    → filled (default_templates language) t ≡ filled (default_templates language) u
    → normalize language t ≡ normalize language u
unfolding normalize
normalize-filled language t u e = ap checked e

pub normalize-IsAccepted :
    (language : Language) (t t' : Templates) → normalize language t ≡ ok t' → IsAccepted t'
unfolding normalize
normalize-IsAccepted language t t' h =
    let (e, a) = checked-ok (filled (default_templates language) t) t' h in subst IsAccepted e a

again :
    (language : Language) (t t' : Templates)
    → normalize language t ≡ ok t'
    → normalize language t' ≡ ok t'
unfolding normalize
again language t t' h =
    let full = filled (default_templates language) t in
    let (e, a) = checked-ok full t' h in
    subst (λ x. checked (filled (default_templates language) x) ≡ ok t') e
      (ap checked (filled_fixed (default_templates language) t) ∙ h)

-- Templates that `Normalize` returns pass it unchanged the next time, in the same language, and every
-- one of them is accepted by the validation of its kind.
pub normalize-normalize :
    (language : Language) (t t' : Templates)
    → normalize language t ≡ ok t'
    → (normalize language t' ≡ ok t') × IsAccepted t'
normalize-normalize language t t' h = (again language t t' h, normalize-IsAccepted language t t' h)

abbrev pub unset : Templates
unset = record {
  design_text = [];
  implementation_text = [];
  batch_text = [];
  batch_design_text = [];
}

-- The built-in templates of both languages are accepted: settings without templates get them.
pub normalize-unset :
    (language : Language) → normalize language unset ≡ ok (default_templates language)
unfolding normalize default_templates trim_space has_str str_eq
normalize-unset english = refl
normalize-unset japanese = refl

-- The first text that is not empty.
abbrev pub first_set : Str → Str → Str
first_set [] value = value
first_set (c ∷ s) value = c ∷ s

set-IsAccepted :
    (kind : Kind) (value : Str) (t : Templates)
    → validate_kind kind value ≡ ok tt
    → IsAccepted t
    → IsAccepted (set_template kind value t)
set-IsAccepted design v t e a =
    at_kinds (λ k. validate_kind k (template (set_template design v t) k) ≡ ok tt) e
      (a implementation) (a batch) (a batch_design)
set-IsAccepted implementation v t e a =
    at_kinds (λ k. validate_kind k (template (set_template implementation v t) k) ≡ ok tt)
      (a design) e (a batch) (a batch_design)
set-IsAccepted batch v t e a =
    at_kinds (λ k. validate_kind k (template (set_template batch v t) k) ≡ ok tt) (a design)
      (a implementation) e (a batch_design)
set-IsAccepted batch_design v t e a =
    at_kinds (λ k. validate_kind k (template (set_template batch_design v t) k) ≡ ok tt) (a design)
      (a implementation) (a batch) e

set_same : (kind : Kind) (t : Templates) → set_template kind (template t kind) t ≡ t
set_same design t = refl
set_same implementation t = refl
set_same batch t = refl
set_same batch_design t = refl

put-ok :
    (scope : Str) (kind : Kind) (value : Str) (t t' : Templates)
    (r : Result TemplateError (Unit {0}))
    → put scope kind value t r ≡ ok t'
    → (r ≡ ok tt) × (t' ≡ set_template kind value t)
put-ok scope kind value t t' (ok tt) h = (refl, cc)
put-ok scope kind value t t' (err e) h = cc

apply_kind-ok :
    (scope : Str) (kind : Kind) (value : Str) (t t' : Templates)
    → apply_kind scope kind value t ≡ ok t'
    → IsAccepted t
    → (t' ≡ set_template kind (first_set value (template t kind)) t) × IsAccepted t'
unfolding apply_kind validate_override
apply_kind-ok scope kind [] t t' h a = (
  let e : t ≡ t' = cc in sym e ∙ sym (set_same kind t),
  let e : t ≡ t' = cc in subst IsAccepted e a,
)
apply_kind-ok scope kind (c ∷ s) t t' h a =
    let (v, e) = put-ok scope kind (c ∷ s) t t' (validate_override kind (c ∷ s)) h in
    (e, subst IsAccepted (sym e) (set-IsAccepted kind (c ∷ s) t v a))

apply_override-ok :
    (scope : Str) (o : PromptTemplateOverrides) (t t' : Templates)
    → apply_override scope o t ≡ ok t'
    → IsAccepted t
    → ((kind : Kind) → template t' kind ≡ first_set (override o kind) (template t kind))
      × IsAccepted t'
unfolding apply_override
apply_override-ok scope o t t' h k =
    let (a, e, h) = bind-ok (apply_kind scope design o.design t) _ h in
    let (e, k) = apply_kind-ok scope design o.design t a e k in
    let (b, e', h) = bind-ok (apply_kind scope implementation o.implementation a) _ h in
    let (e', k) = apply_kind-ok scope implementation o.implementation a b e' k in
    let (c, e'', h) = bind-ok (apply_kind scope batch o.batch b) _ h in
    let (e'', k) = apply_kind-ok scope batch o.batch b c e'' k in
    let (e3, k) = apply_kind-ok scope batch_design o.batch_design c t' h k in
    (
      at_kinds (λ kind. template t' kind ≡ first_set (override o kind) (template t kind)) (cc) (cc)
          (cc) (cc),
      k,
    )

-- Where the three scopes are composed without error, each template is the one of the feature if it is
-- set, else that of the project if it is set, else the global one (or the built-in one in its place),
-- and it is accepted by the validation of its kind.
pub resolve_lem :
    (language : Language) (global base t : Templates) (project feature : PromptTemplateOverrides)
    → normalize language global ≡ ok base
    → resolve language global project feature ≡ ok t
    → (kind : Kind)
    → (template t kind
        ≡ first_set
            (override feature kind)
            (first_set (override project kind) (template base kind)))
      × (validate_kind kind (template t kind) ≡ ok tt)
unfolding resolve
resolve_lem language global base t project feature n h kind =
    let (base', n', h) = bind-ok (normalize language global) _ h in
    let (mid, p, f) = bind-ok (apply_override (codes "project") project base') _ h in
    let same : base' ≡ base = cc in
    let (shown, a) =
      apply_override-ok (codes "project") project base' mid p
        (normalize-IsAccepted language global base' n') in
    let (shown', a') = apply_override-ok (codes "feature") feature mid t f a in
    (
      shown' kind
          ∙ ap (first_set (override feature kind))
              (shown kind ∙ ap (λ b. first_set (override project kind) (template b kind)) same),
      a' kind,
    )
