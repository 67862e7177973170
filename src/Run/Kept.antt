-- ===== src/Run/Kept.antt =====
-- What a ledger keeps of what it recorded: everything but for redactions, which validation repeats.
use mathlib.Core.Option
use orvo_agent.Base.{
  String, Option, none, some, List, [], ◌∷◌, ◌++◌, ◌≡◌, refl, sym, ap, ◌∙◌, Pointwise, append_nil,
  append_assoc, subst,
}
use orvo_agent.Value.{Fields}
use orvo_agent.Redaction.Engine.{Engine}
use orvo_agent.Redaction.Text.{redact_text, redact_uri}
use orvo_agent.Run.Metadata.{redact_metadata}
use orvo_agent.Run.Record.{
  ConnectorRunOutcome, ArtifactRef, DispatchOutcomeRef, ConnectorStatus, HealthState,
  default_connector_health_state,
}

-- The health state of an outcome that was validated: the one given, or the one of its status.
abbrev pub health_or_default : Option HealthState → ConnectorStatus → HealthState
health_or_default none status = default_connector_health_state status
health_or_default (some h) status = h

pub record SameOutcome (E : Engine) (o o' : ConnectorRunOutcome) : Type 0 where
  pub connector_id : o'.connector_id ≡ o.connector_id
  pub connector_type : o'.connector_type ≡ o.connector_type
  pub status : o'.status ≡ o.status
  pub health_state : o'.health_state ≡ some (health_or_default o.health_state o.status)
  pub started_at : o'.started_at ≡ o.started_at
  pub finished_at : o'.finished_at ≡ o.finished_at
  pub metrics_count : o'.metrics_count ≡ o.metrics_count
  pub error_summary : o'.error_summary ≡ Option.map (redact_text E) o.error_summary
  pub evidence_refs : o'.evidence_refs ≡ o.evidence_refs
  pub metadata : o'.metadata ≡ redact_metadata E o.metadata

pub record SameArtifact (E : Engine) (a a' : ArtifactRef) : Type 0 where
  pub artifact_id : a'.artifact_id ≡ a.artifact_id
  pub artifact_type : a'.artifact_type ≡ a.artifact_type
  pub uri : a'.uri ≡ Option.map (redact_uri E) a.uri
  pub evidence_refs : a'.evidence_refs ≡ a.evidence_refs
  pub operational_case_ids : a'.operational_case_ids ≡ a.operational_case_ids
  pub metadata : a'.metadata ≡ redact_metadata E a.metadata
  pub created_at : a'.created_at ≡ a.created_at

pub record SameDispatch (E : Engine) (d d' : DispatchOutcomeRef) : Type 0 where
  pub channel : d'.channel ≡ d.channel
  pub status : d'.status ≡ d.status
  pub attempt_number : d'.attempt_number ≡ d.attempt_number
  pub idempotency_key : d'.idempotency_key ≡ d.idempotency_key
  pub message_id : d'.message_id ≡ d.message_id
  pub provider_response_ref :
      d'.provider_response_ref ≡ Option.map (redact_uri E) d.provider_response_ref
  pub error_summary : d'.error_summary ≡ Option.map (redact_text E) d.error_summary
  pub metadata : d'.metadata ≡ redact_metadata E d.metadata
  pub created_at : d'.created_at ≡ d.created_at

abbrev pub SameMetadata : Engine → Fields → Fields → Type 0
SameMetadata E d d' = d' ≡ redact_metadata E d

abbrev pub SameText : Engine → Option String → Option String → Type 0
SameText E s s' = s' ≡ Option.map (redact_text E) s

abbrev pub SameReference : Engine → Option String → Option String → Type 0
SameReference E s s' = s' ≡ Option.map (redact_uri E) s

-- A step taken any number of times.
pub data Repeated {A : Type 0} (step : A → A → Type 0) (x : A) : A → Type 0 where
  never : Repeated step x x
  once_more : (y : A) {z : A} → Repeated step x y → step y z → Repeated step x z

module _ {A : Type 0} (step : A → A → Type 0) where
  pub Repeated-once : (x y : A) → step x y → Repeated step x y
  Repeated-once x y s = once_more x never s

  pub Repeated-trans : (x y z : A) → Repeated step x y → Repeated step y z → Repeated step x z
  Repeated-trans x y _ h never = h
  Repeated-trans x y z h (once_more w k s) = once_more w (Repeated-trans x y w h k) s

  pub all-refl : (xs : List A) → Pointwise (Repeated step) xs xs
  all-refl [] = tt
  all-refl (x ∷ xs) = (never, all-refl xs)

  pub all-once : (xs ys : List A) → Pointwise step xs ys → Pointwise (Repeated step) xs ys
  all-once [] [] h = tt
  all-once [] (y ∷ ys) h = elim h [ ]
  all-once (x ∷ xs) [] h = elim h [ ]
  all-once (x ∷ xs) (y ∷ ys) h = (once_more x never h.0, all-once xs ys h.1)

  pub all-trans :
      (xs ys zs : List A)
      → Pointwise (Repeated step) xs ys
      → Pointwise (Repeated step) ys zs
      → Pointwise (Repeated step) xs zs
  all-trans [] [] zs h k = k
  all-trans [] (y ∷ ys) zs h k = elim h [ ]
  all-trans (x ∷ xs) [] zs h k = elim h [ ]
  all-trans (x ∷ xs) (y ∷ ys) [] h k = elim k [ ]
  all-trans (x ∷ xs) (y ∷ ys) (z ∷ zs) h k =
      (Repeated-trans x y z h.0 k.0, all-trans xs ys zs h.1 k.1)

  -- The items stay in place but for the steps, and others may follow.
  abbrev pub Grows : List A → List A → Type 0
  Grows xs ys =
      (front : List A) × (new : List A) × (ys ≡ front ++ new) × Pointwise (Repeated step) xs front

  pub Grows-refl : (xs : List A) → Grows xs xs
  Grows-refl xs = (xs, [], sym (append_nil xs), all-refl xs)

  pub Grows-once : (xs ys : List A) → Pointwise step xs ys → Grows xs ys
  Grows-once xs ys h = (ys, [], sym (append_nil ys), all-once xs ys h)

  pub Grows-append : (xs new : List A) → Grows xs (xs ++ new)
  Grows-append xs new = (xs, new, refl, all-refl xs)

  split :
      (xs ys zs : List A)
      → Pointwise (Repeated step) (xs ++ ys) zs
      → (front : List A) × (back : List A) × (zs ≡ front ++ back)
        × Pointwise (Repeated step) xs front
  split [] ys zs h = ([], zs, refl, tt)
  split (x ∷ xs) ys [] h = elim h [ ]
  split (x ∷ xs) ys (z ∷ zs) h =
      let (front, back, e, p) = split xs ys zs h.1 in (z ∷ front, back, ap (◌∷◌ z) e, (h.0, p))

  pub Grows-trans : (xs ys zs : List A) → Grows xs ys → Grows ys zs → Grows xs zs
  Grows-trans xs ys zs (front, new, e, p) (front', new', e', p') =
      let (a, b, f, s) =
        split front new front' (subst (λ z. Pointwise (Repeated step) z front') e p') in
      (a, b ++ new', e' ∙ ap (λ z. z ++ new') f ∙ append_assoc a b new', all-trans xs front a p s)
