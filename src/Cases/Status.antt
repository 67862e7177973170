-- ===== src/Cases/Status.antt =====
-- The closed vocabularies of app/brain/operational_cases.py and the case lifecycle table. The status
-- "open" is `opened` here.
use orvo_agent.Base.{String, List, [], ◌∷◌, Eq, map}

pub data Status : Type 0 where
  opened acknowledged in_progress resolved dismissed : Status

pub data StatusCategory : Type 0 where
  to_do in_progress done : StatusCategory

pub data CaseType : Type 0 where
  sales_drop stockout_risk spend_without_orders data_stale fulfillment_backlog : CaseType
  unanswered_conversations channel_mix_shift : CaseType

pub data Severity : Type 0 where
  info warning critical : Severity

pub data Freshness : Type 0 where
  fresh stale degraded missing unknown : Freshness

pub data EventType : Type 0 where
  case_opened case_updated case_reopened status_changed case_assigned : EventType
  evidence_attached operator_comment : EventType

pub data ActorType : Type 0 where
  system operator : ActorType

pub Status-discrete : Discrete Status
Status-discrete = hlevel

pub CaseType-discrete : Discrete CaseType
CaseType-discrete = hlevel

pub Freshness-discrete : Discrete Freshness
Freshness-discrete = hlevel

pub ActorType-discrete : Discrete ActorType
ActorType-discrete = hlevel

instance unfoldable pub status_eq : Eq Status
unfolding Status-discrete
status_eq = record { dec = Status-discrete }

instance unfoldable pub case_type_eq : Eq CaseType
unfolding CaseType-discrete
case_type_eq = record { dec = CaseType-discrete }

instance unfoldable pub freshness_eq : Eq Freshness
unfolding Freshness-discrete
freshness_eq = record { dec = Freshness-discrete }

instance unfoldable pub actor_type_eq : Eq ActorType
unfolding ActorType-discrete
actor_type_eq = record { dec = ActorType-discrete }

abbrev pub actionable_statuses : List Status
actionable_statuses = opened ∷ acknowledged ∷ Status.in_progress ∷ []

abbrev pub terminal_statuses : List Status
terminal_statuses = resolved ∷ dismissed ∷ []

-- `_CASE_STATUS_TRANSITIONS`
abbrev pub case_status_transitions : Status → List Status
case_status_transitions opened = acknowledged ∷ Status.in_progress ∷ dismissed ∷ []
case_status_transitions acknowledged = Status.in_progress ∷ resolved ∷ dismissed ∷ []
case_status_transitions Status.in_progress = resolved ∷ dismissed ∷ []
case_status_transitions resolved = []
case_status_transitions dismissed = []

-- `operational_case_status_category`
abbrev pub operational_case_status_category : Status → StatusCategory
operational_case_status_category opened = to_do
operational_case_status_category acknowledged = StatusCategory.in_progress
operational_case_status_category Status.in_progress = StatusCategory.in_progress
operational_case_status_category resolved = done
operational_case_status_category dismissed = done

-- `operational_case_status_transitions`
pub operational_case_status_transitions : List (Status × List Status)
operational_case_status_transitions =
    map (λ s. (s, case_status_transitions s))
      (opened ∷ acknowledged ∷ Status.in_progress ∷ resolved ∷ dismissed ∷ [])

-- How the f-strings print the literals.
abbrev pub status_text : Status → String
status_text opened = "open"
status_text acknowledged = "acknowledged"
status_text Status.in_progress = "in_progress"
status_text resolved = "resolved"
status_text dismissed = "dismissed"

abbrev pub case_type_text : CaseType → String
case_type_text sales_drop = "sales_drop"
case_type_text stockout_risk = "stockout_risk"
case_type_text spend_without_orders = "spend_without_orders"
case_type_text data_stale = "data_stale"
case_type_text fulfillment_backlog = "fulfillment_backlog"
case_type_text unanswered_conversations = "unanswered_conversations"
case_type_text channel_mix_shift = "channel_mix_shift"
