-- ===== src/App/Documents/Sources.antt =====
-- `validateDocumentSource` of internal/app/service.go: what it accepts.
use next_now_x.Prelude.{
  ℕ, ◌≤◌, ◌≡◌, refl, ap, subst, sym, ◌∙◌, Str, [], Option, Bool, true, false, not, ◌&&◌, length,
  ltb, Bool-cases, inl, inr, Result, ok, arith,
}
use next_now_x.Strings.Space.{trim_space}
use next_now_x.Strings.Utf8.{valid_string}
use next_now_x.Domain.Models.{DocumentKind, Document, Error}
use next_now_x.App.Archive.{is_empty}
use next_now_x.App.Documents.{
  max_document_content_bytes, is_web, markdown_source, located_source, source_of_kind,
  validate_document_source,
}

module _ (scheme_of : Str → Option Str) where
  -- The source of a document that can be stored.
  abbrev pub IsSource : DocumentKind → Document → Type 0
  IsSource DocumentKind.url d =
      (d.content ≡ []) × (is_empty d.locator ≡ false) × (is_web (scheme_of d.locator) ≡ true)
  IsSource DocumentKind.local_file d = (d.content ≡ []) × (is_empty d.locator ≡ false)
  IsSource DocumentKind.markdown d =
      (d.locator ≡ [])
      × (is_empty (trim_space d.content) ≡ false)
      × (valid_string d.content ≡ true)
      × (length d.content ≤ max_document_content_bytes)
  IsSource (DocumentKind.other _) d = ⊥

  within_limit : (limit n : ℕ) → ltb limit n ≡ false → n ≤ limit
  within_limit limit n h = ground arith

  ok_injective : (d d' : Document) → ◌≡◌ {A = Result Error Document} (ok d) (ok d') → d' ≡ d
  ok_injective d d' h = cc

  markdown_ok :
      (d : Document) (plan_command : Bool)
      → is_empty (trim_space d.content) ≡ false
      → valid_string d.content ≡ true
      → ltb max_document_content_bytes (length d.content) ≡ false
      → markdown_source d plan_command ≡ ok (record d { locator = [] })
  unfolding markdown_source
  markdown_ok d plan_command e v l = rw (e, v, l) refl

  markdown_lem :
      (d d' : Document) (plan_command : Bool)
      → markdown_source d plan_command ≡ ok d'
      → (d' ≡ record d { locator = [] }) × IsSource DocumentKind.markdown d'
  unfolding markdown_source
  markdown_lem d d' plan_command h = elim (Bool-cases (is_empty (trim_space d.content))) [
    | inl e ↦ absurd (ground (arith, e, h))
    | inr e ↦ elim (Bool-cases (valid_string d.content)) [
      | inr v ↦ absurd (ground (arith, e, v, h))
      | inl v ↦ elim (Bool-cases (ltb max_document_content_bytes (length d.content))) [
        | inl l ↦ absurd (ground (arith, e, v, l, h))
        | inr l ↦
            let q =
              ok_injective (record d { locator = [] }) d'
                (sym (markdown_ok d plan_command e v l) ∙ h) in
            (
              q,
              subst (IsSource DocumentKind.markdown) (sym q)
                  (refl, e, v, within_limit max_document_content_bytes (length d.content) l),
            )
      ]
    ]
  ]

  located_lem :
      (d d' : Document) (locator : Str) (is_url : Bool)
      → located_source scheme_of d locator is_url ≡ ok d'
      → (d' ≡ record d { locator = locator; content = [] })
        × (is_empty locator ≡ false)
        × ((is_url && not (is_web (scheme_of locator))) ≡ false)
  unfolding located_source
  located_lem d d' locator is_url h = ground arith

  is_web_of_test : (b : Bool) → (true && not b) ≡ false → b ≡ true
  is_web_of_test b h = ground arith

  kind_lem :
      (kind : DocumentKind) (d d' : Document) (plan_command : Bool)
      → source_of_kind scheme_of kind d plan_command ≡ ok d'
      → (d'.kind ≡ d.kind) × IsSource kind d'
  unfolding source_of_kind
  kind_lem DocumentKind.url d d' plan_command h =
      let l = located_lem d d' (trim_space d.locator) true h in
      (
        ap (λ (x : Document). x.kind) l.0,
        subst (IsSource DocumentKind.url) (sym l.0)
            (refl, l.1, is_web_of_test (is_web (scheme_of (trim_space d.locator))) l.2),
      )
  kind_lem DocumentKind.local_file d d' plan_command h =
      let l = located_lem d d' (trim_space d.locator) false h in
      (
        ap (λ (x : Document). x.kind) l.0,
        subst (IsSource DocumentKind.local_file) (sym l.0) (refl, l.1),
      )
  kind_lem DocumentKind.markdown d d' plan_command h =
      let m = markdown_lem d d' plan_command h in (ap (λ (x : Document). x.kind) m.0, m.1)
  kind_lem (DocumentKind.other t) d d' plan_command h = cc

  -- A document that is accepted keeps its kind, which is one of the three: markdown has text that is
  -- not blank, is valid UTF-8, has at most 1 MiB, and has no locator; a URL has a locator whose
  -- scheme is http or https, a local file has one, and neither has content.
  pub validate_document_source-IsSource :
      (d d' : Document) (plan_command : Bool)
      → validate_document_source scheme_of d plan_command ≡ ok d'
      → (d'.kind ≡ d.kind) × IsSource d.kind d'
  unfolding validate_document_source
  validate_document_source-IsSource d d' plan_command h = kind_lem d.kind d d' plan_command h
