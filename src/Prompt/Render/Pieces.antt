-- ===== src/Prompt/Render/Pieces.antt =====
-- internal/prompt/prompt.go: a template as a sequence of texts and placeholders, and what `Render`
-- makes of it.
use mathlib.Core.List.{append-nil, append_assoc}
use next_now_x.Domain.Models.{Task}
use next_now_x.Prompt.Templates.Scopes.{normalize-IsAccepted}
use next_now_x.Prelude.{
  some, none, Option, Result, err, ◌>>=◌, ◌≡◌, refl, sym, ap, subst, ◌++◌, ℕ, Str, List, [], ◌∷◌,
  ◌==◌, if◌then◌else◌, ok, In, All, arith,
}
use next_now_x.Strings.Space.{trim_space}
use next_now_x.Prompt.{
  Kind, design, implementation, batch, batch_design, Place, outside, brace, inside, closing,
  scan_step, step_inside, ended, scan, placeholders, validate_kind, validate_template_iff,
  supported_placeholders, required_placeholder, batch_supported_placeholders,
  batch_required_placeholder,
}
use next_now_x.Prompt.Templates.{template}
use next_now_x.Prompt.Render.{
  normalize, Language, Templates, Refusal, value_of, task_kind, task_values, render, batch_kind,
  batch_values, render_batch, pending, kept, expand, replace_placeholders,
}

pub data Piece : Type 0 where
  text : Str → Piece
  placeholder : Str → Piece

-- The template that the pieces are of.
abbrev pub source : List Piece → Str
source [] = []
source (text s ∷ ps) = s ++ source ps
source (placeholder s ∷ ps) = b'{' ∷ b'{' ∷ s ++ b'}' ∷ b'}' ∷ source ps

-- The pieces with values for the placeholders, by their names.
abbrev pub shown : (Str → Str) → List Piece → Str
shown value [] = []
shown value (text s ∷ ps) = s ++ shown value ps
shown value (placeholder s ∷ ps) = value (trim_space s) ++ shown value ps

abbrev pub names : List Piece → List Str
names [] = []
names (text s ∷ ps) = names ps
names (placeholder s ∷ ps) = trim_space s ∷ names ps

-- The placeholder that the next byte ends, before the pieces that follow.
ended_piece : Place → ℕ → List Piece → List Piece
ended_piece outside c ps = ps
ended_piece brace c ps = ps
ended_piece (inside s) c ps = ps
ended_piece (closing s) c ps = if c == b'}' then placeholder s ∷ ps else ps

pieces : Place → Str → List Piece
unfolding ended_piece
pieces p [] = text (pending p) ∷ []
pieces p (c ∷ s) = text (kept p c) ∷ ended_piece p c (pieces (scan_step p c) s)

-- One byte of the scan.
source_step :
    (p : Place) (c : ℕ) (s : Str) (ps : List Piece)
    → source ps ≡ pending (scan_step p c) ++ s
    → kept p c ++ source (ended_piece p c ps) ≡ pending p ++ c ∷ s
unfolding ended_piece pending kept scan_step step_inside
source_step outside c s ps h = ground arith
source_step brace c s ps h = ground arith
source_step (inside []) c s ps h = ground arith
source_step (inside (a ∷ t)) c s ps h =
    ground (arith, append_assoc t (b'}' ∷ []) s, append_assoc t (c ∷ []) s)
source_step (closing t) c s ps h =
    ground (arith, append_assoc t (b'}' ∷ []) (c ∷ s), append_assoc t (b'}' ∷ c ∷ []) s)

source-pieces : (p : Place) (s : Str) → source (pieces p s) ≡ pending p ++ s
unfolding pieces
source-pieces p [] = refl
source-pieces p (c ∷ s) =
    source_step p c s (pieces (scan_step p c) s) (source-pieces (scan_step p c) s)

shown-pieces :
    (value : Str → Str) (p : Place) (s : Str) → shown value (pieces p s) ≡ expand value p s
unfolding pieces expand ended
shown-pieces value p [] = append-nil (pending p)
shown-pieces value outside (c ∷ s) =
    ap (λ t. kept outside c ++ t) (shown-pieces value (scan_step outside c) s)
shown-pieces value brace (c ∷ s) =
    ap (λ t. kept brace c ++ t) (shown-pieces value (scan_step brace c) s)
shown-pieces value (inside t) (c ∷ s) =
    ap (λ t'. kept (inside t) c ++ t') (shown-pieces value (scan_step (inside t) c) s)
shown-pieces value (closing t) (c ∷ s) =
    ground (arith, shown-pieces value (scan_step (closing t) c) s)

names-pieces : (p : Place) (s : Str) → names (pieces p s) ≡ scan p s
unfolding pieces scan ended
names-pieces p [] = refl
names-pieces outside (c ∷ s) = names-pieces (scan_step outside c) s
names-pieces brace (c ∷ s) = names-pieces (scan_step brace c) s
names-pieces (inside t) (c ∷ s) = names-pieces (scan_step (inside t) c) s
names-pieces (closing t) (c ∷ s) = ground (arith, names-pieces (scan_step (closing t) c) s)

-- The text of an accepted template and its rendering, piece by piece; the placeholders among the
-- pieces are all that the pattern finds in the template, in their order.
abbrev pub Renders : (Str → Str) → List Str → Str → Str → Str → Type 0
Renders value supported required template body =
    (ps : List Piece) × (source ps ≡ template)
    × (shown value ps ≡ body)
    × (names ps ≡ placeholders template)
    × All (λ name. In name supported) (names ps)
    × In required (names ps)

abbrev vocabulary : Kind → List Str
vocabulary design = supported_placeholders
vocabulary implementation = supported_placeholders
vocabulary batch = batch_supported_placeholders
vocabulary batch_design = batch_supported_placeholders

abbrev required : Kind → Str
required design = required_placeholder
required implementation = required_placeholder
required batch = batch_required_placeholder
required batch_design = batch_required_placeholder

accepted-names :
    (kind : Kind) (s : Str)
    → validate_kind kind s ≡ ok tt
    → All (λ name. In name (vocabulary kind)) (placeholders s) × In (required kind) (placeholders s)
unfolding validate_kind
accepted-names design s h = let (_, a, b) = (validate_template_iff s _ _).0 h in (a, b)
accepted-names implementation s h = let (_, a, b) = (validate_template_iff s _ _).0 h in (a, b)
accepted-names batch s h = let (_, a, b) = (validate_template_iff s _ _).0 h in (a, b)
accepted-names batch_design s h = let (_, a, b) = (validate_template_iff s _ _).0 h in (a, b)

accepted-Renders :
    (value : Str → Str) (kind : Kind) (s : Str)
    → validate_kind kind s ≡ ok tt
    → Renders value (vocabulary kind) (required kind) s (replace_placeholders value s)
unfolding placeholders pending replace_placeholders
accepted-Renders value kind s h =
    let ps = pieces outside s in
    let (a, r) = accepted-names kind s h in
    let same : placeholders s ≡ names ps = sym (names-pieces outside s) in
    (
      ps,
      source-pieces outside s,
      shown-pieces value outside s,
      names-pieces outside s,
      subst (λ ns. All (λ name. In name (vocabulary kind)) ns) same a,
      subst (In (required kind)) same r,
    )

task_kind-vocabulary :
    (kind : Option Kind) (task : Task)
    → (vocabulary (task_kind kind task) ≡ supported_placeholders)
      × (required (task_kind kind task) ≡ required_placeholder)
unfolding task_kind
task_kind-vocabulary none task = ground arith
task_kind-vocabulary (some design) task = (refl, refl)
task_kind-vocabulary (some implementation) task = (refl, refl)
task_kind-vocabulary (some batch) task = ground arith
task_kind-vocabulary (some batch_design) task = ground arith

batch_kind-vocabulary :
    (kind : Option Kind)
    → (vocabulary (batch_kind kind) ≡ batch_supported_placeholders)
      × (required (batch_kind kind) ≡ batch_required_placeholder)
unfolding batch_kind
batch_kind-vocabulary none = (refl, refl)
batch_kind-vocabulary (some design) = (refl, refl)
batch_kind-vocabulary (some implementation) = (refl, refl)
batch_kind-vocabulary (some batch) = (refl, refl)
batch_kind-vocabulary (some batch_design) = (refl, refl)

-- The chain that `Render` and `RenderBatch` share.
abbrev rendered : (Str → Str) → Kind → Result Refusal Templates → Result Refusal (Kind × Str)
rendered value kind r = r >>= λ t. ok (kind, replace_placeholders value (template t kind))

rendered-Renders :
    (value : Str → Str) (kind k : Kind) (r : Result Refusal Templates) (body : Str)
    → ((t : Templates) → r ≡ ok t → (j : Kind) → validate_kind j (template t j) ≡ ok tt)
    → rendered value kind r ≡ ok (k, body)
    → (t : Templates) × (r ≡ ok t)
      × (k ≡ kind)
      × Renders value (vocabulary kind) (required kind) (template t kind) body
rendered-Renders value kind k (ok t) body accepted h =
    let e : kind ≡ k = cc in
    let e' : replace_placeholders value (template t kind) ≡ body = cc in
    (
      t,
      refl,
      sym e,
      subst (Renders value (vocabulary kind) (required kind) (template t kind)) e'
          (accepted-Renders value kind (template t kind) (accepted t refl kind)),
    )
rendered-Renders value kind k (err e) body accepted h = cc

-- A prompt that is rendered for a task is of the kind asked for, or of the kind for the task where
-- none or a batch kind is asked for. The stored or built-in template of that kind falls into texts
-- and placeholders such that the names of these placeholders are all that the pattern finds in the
-- template, in their order, and the prompt is the template in which each of them stands replaced by
-- the value of its name and each text is unchanged; every name is of the vocabulary, and the id of
-- the task is among them.
pub render-Renders :
    (task : Task) (kind : Option Kind) (templates : Templates) (language : Language) (k : Kind)
    (body : Str)
    → render task kind templates language ≡ ok (k, body)
    → (t : Templates) × (normalize language templates ≡ ok t)
      × (k ≡ task_kind kind task)
      × Renders
          (value_of (task_values task))
          supported_placeholders
          required_placeholder
          (template t (task_kind kind task))
          body
unfolding render
render-Renders task kind templates language k body h =
    let chosen = task_kind kind task in
    let (t, n, e, r) =
      rendered-Renders (value_of (task_values task)) chosen k (normalize language templates) body
        (normalize-IsAccepted language templates) h in
    let (v, q) = task_kind-vocabulary kind task in
    (
      t,
      n,
      e,
      subst
          (λ ns.
            Renders (value_of (task_values task)) ns required_placeholder (template t chosen) body)
          v
          (subst
            (λ x.
              Renders (value_of (task_values task)) (vocabulary chosen) x (template t chosen) body)
            q r),
    )

-- The same of a prompt for several tasks, whose kind is one of the two batch kinds and which has the
-- list of the tasks among its names.
pub render_batch-Renders :
    (feature_id : Str) (tasks : List Task) (kind : Option Kind) (templates : Templates)
    (language : Language) (k : Kind) (body : Str)
    → render_batch feature_id tasks kind templates language ≡ ok (k, body)
    → (t : Templates) × (normalize language templates ≡ ok t)
      × (k ≡ batch_kind kind)
      × Renders
          (value_of (batch_values feature_id tasks))
          batch_supported_placeholders
          batch_required_placeholder
          (template t (batch_kind kind))
          body
unfolding render_batch
render_batch-Renders feature_id tasks kind templates language k body h =
    let chosen = batch_kind kind in
    let value = value_of (batch_values feature_id tasks) in
    let (t, n, e, r) =
      rendered-Renders value chosen k (normalize language templates) body
        (normalize-IsAccepted language templates) h in
    let (v, q) = batch_kind-vocabulary kind in
    (
      t,
      n,
      e,
      subst (λ ns. Renders value ns batch_required_placeholder (template t chosen) body) v
          (subst (λ x. Renders value (vocabulary chosen) x (template t chosen) body) q r),
    )
