-- ===== src/External/Request.antt =====
-- Requests, providers, the checks and the projections of app/brain/external_actions.py.
use Prim.Native.Char.{Char, code}
use Prim.Native.String.{[] as end_of_text, ◌∷◌ as cons_char}
use orvo_agent.Base.{
  ℕ, String, Bool, true, false, not, ◌&&◌, ◌||◌, Option, none, some, List, [], ◌∷◌, ◌==◌, string_eq,
  nat_eq, pair_eq, if◌then◌else◌, map, contains, ◌++◌, ◌<>◌, leb, Result, ok, raise, raise_if, ◌>>◌,
}
use orvo_agent.Base.Sort.{sort_by, text_leb}
use orvo_agent.Value.{
  pos, negsuc, Value, Fields, str, null, bool, int, dict, list, tuple, other, end, field, nil,
  fields_of, get_field,
}
use orvo_agent.Redaction.Engine.{Engine}
use orvo_agent.Redaction.Redactor.{dict_or_empty}
use orvo_agent.Redaction.Secrets.{redact_fields}
use orvo_agent.Platform.{Platform, text_or_null}
use orvo_agent.Run.Record.{ConnectorStatus, RunRecord, ConnectorRunOutcome}
use orvo_agent.Workflow.Record.{
  WorkflowActionLedgerRecord, ApprovalState, pending_execution, approval_state_eq,
  execution_state_eq,
}
use orvo_agent.Redaction.Text.{redact_text}
use orvo_agent.Catalog.{texts}

-- What the boundary takes from Python: `str.lower`, `str`, and whether a value of a type that is not
-- modelled is true.
pub record Builtins : Type 0 where
  pub lower : String → String
  pub str_of : Value → String
  pub other_is_true : String → Bool

pub record ExternalActionRequest : Type 0 where
  pub business_id : String
  pub run_id : String
  pub toolkit : String
  pub action_key : String
  pub operation_type : String
  pub payload : Value
  pub idempotency_key : String
  pub actor_ref : Option String
  pub workflow_action_ledger_id : Option String

-- A provider without its client.
pub record ExternalActionProvider : Type 0 where
  pub allowed_actions : List (String × String)
  pub provider_name : String

pub record ExternalActionError : Type 0 where
  pub code : String
  pub message : String

abbrev pub reserved_core_toolkits : List String
reserved_core_toolkits =
    "tiendanube" ∷ "nuvemshop" ∷ "mercadolibre" ∷ "mercado_libre" ∷ "whatsapp" ∷ "meta_whatsapp"
    ∷ "meta_cloud_api" ∷ []

abbrev is_between : ℕ → ℕ → ℕ → Bool
is_between low high n = leb low n && leb n high

-- `[a-z0-9]`
abbrev is_lower_or_digit : Char → Bool
is_lower_or_digit c = is_between 97 122 (code c) || is_between 48 57 (code c)

-- each character is a lower-case letter, a digit or one of those
unfoldable pub all_safe : List ℕ → String → Bool
unfolding nat_eq
all_safe marks end_of_text = true
all_safe marks (cons_char c s) =
    let rest = all_safe marks s in (is_lower_or_digit c || contains marks (code c)) && rest

-- `_SAFE_TOOLKIT_RE.fullmatch` and `_SAFE_ACTION_KEY_RE.fullmatch`, which differ in the marks
unfoldable pub is_safe : List ℕ → String → Bool
unfolding all_safe
is_safe marks end_of_text = false
is_safe marks (cons_char c s) = is_lower_or_digit c && all_safe marks s

-- underscore and dash; and the dot for action keys
abbrev pub toolkit_marks : List ℕ
toolkit_marks = 95 ∷ 45 ∷ []

abbrev pub action_key_marks : List ℕ
action_key_marks = 95 ∷ 46 ∷ 45 ∷ []

abbrev is_dict : Value → Bool
is_dict (dict d) = true
is_dict _ = false

-- `outcome.status == "succeeded"`
abbrev pub is_succeeded : ConnectorStatus → Bool
is_succeeded ConnectorStatus.succeeded = true
is_succeeded _ = false

-- `value == text`, for what `get` returns
unfoldable pub holds_text : Option Value → String → Bool
holds_text (some (str s)) t = s == t
holds_text _ t = false

-- `_approval_state`
unfoldable pub approval_state : ExternalActionRequest → Option WorkflowActionLedgerRecord → String
approval_state q r =
    if q.operation_type == "read"
    then "not_required"
    else elim r [ none ↦ "pending_approval" | some s ↦ "approved" ]

-- `ExternalActionProvider.is_allowed`
unfoldable pub is_allowed : ExternalActionProvider → ExternalActionRequest → Bool
is_allowed p q = contains p.allowed_actions (q.toolkit, q.action_key)

-- `_has_executed_idempotency_key`
unfoldable pub has_executed_key : List ConnectorRunOutcome → String → Bool
unfolding holds_text
has_executed_key [] key = false
has_executed_key (o ∷ outcomes) key =
    let rest = has_executed_key outcomes key in
    if holds_text (get_field o.metadata "idempotency_key") key
    then (if is_succeeded o.status
        then true
        else if holds_text (get_field o.metadata "execution_state") "executed"
        then true
        else rest)
    else rest

-- the tests on the record with the ledger id of the request
unfoldable pub is_approved_for :
    ExternalActionProvider → ExternalActionRequest → WorkflowActionLedgerRecord → Bool
unfolding holds_text
is_approved_for p q r =
    r.approval_state == ApprovalState.approved
    && r.execution_state == pending_execution
    && r.idempotency_key == q.idempotency_key
    && r.action_key == "request_external_action"
    && holds_text (get_field r.params "provider") p.provider_name
    && holds_text (get_field r.params "toolkit") q.toolkit
    && holds_text (get_field r.params "external_action_key") q.action_key

-- the loop of `_find_approved_workflow_action`
unfoldable pub find_approved :
    ExternalActionProvider
    → ExternalActionRequest
    → String
    → List WorkflowActionLedgerRecord
    → Option WorkflowActionLedgerRecord
unfolding is_approved_for
find_approved p q id [] = none
find_approved p q id (r ∷ records) =
    if r.ledger_id == id
    then (if is_approved_for p q r then some r else none)
    else find_approved p q id records

-- `_find_approved_workflow_action`; the ledger is its `list_actions`
unfoldable pub find_approved_workflow_action :
    Option (String → List WorkflowActionLedgerRecord)
    → ExternalActionProvider
    → ExternalActionRequest
    → Option WorkflowActionLedgerRecord
unfolding find_approved
find_approved_workflow_action none p q = none
find_approved_workflow_action (some list_actions) p q = elim q.workflow_action_ledger_id [
  | none ↦ none
  | some id ↦ if id == "" then none else find_approved p q id (list_actions q.business_id)
]

module _ (E : Engine) where
  -- `ExternalActionError(code, message)`
  unfoldable pub external_error : String → String → ExternalActionError
  external_error code message = record {
    code = code;
    message =
        if redact_text E message == "" then "External action error" else redact_text E message;
  }

  -- `_validate_request`; that the ids are texts is in their type
  unfoldable pub validate_request :
      Platform → ExternalActionRequest → Result ExternalActionError (Unit {0})
  unfolding external_error is_safe
  validate_request P q = do
    raise_if
        (contains
          (map P.strip
            (q.business_id ∷ q.run_id ∷ q.toolkit ∷ q.action_key ∷ q.idempotency_key ∷ []))
          "")
        (external_error "external_action_invalid_request"
          "external action request requires non-empty ids")
    raise_if (not (is_safe toolkit_marks q.toolkit)) (
        external_error "external_action_invalid_request"
          "external action toolkit must be a lowercase safe control-plane identifier")
    raise_if (not (is_safe action_key_marks q.action_key)) (
        external_error "external_action_invalid_request"
          "external action key must be a lowercase safe control-plane identifier")
    raise_if (not (q.operation_type == "read" || q.operation_type == "write")) (
        external_error "external_action_invalid_request"
          "external action operation_type must be read or write")
    raise_if (not (is_dict q.payload)) (
        external_error "external_action_invalid_request"
          "external action payload must be an object")
    ok tt

  -- `_load_scoped_run`, from what `get_run` returned
  unfoldable pub scoped_run :
      ExternalActionRequest → Option RunRecord → Result ExternalActionError RunRecord
  unfolding external_error
  scoped_run q none =
      raise (external_error "external_action_run_not_found" "external action run not found")
  scoped_run q (some r) =
      if r.business_id == q.business_id
      then ok r
      else raise
          (external_error "external_action_run_scope_mismatch" "external action run scope mismatch")

-- `not value`
abbrev is_false : Builtins → Value → Bool
is_false B null = true
is_false B (bool b) = not b
is_false B (int (pos n)) = n == 0
is_false B (int (negsuc n)) = false
is_false B (str s) = s == ""
is_false B (list nil) = true
is_false B (tuple nil) = true
is_false B (dict end) = true
is_false B (other r) = not (B.other_is_true r)
is_false B _ = false

-- `response.get(key) or rest`
abbrev value_or : Builtins → Option Value → Value → Value
value_or B none rest = rest
value_or B (some v) rest = if is_false B v then rest else v

-- the `external_id` of `_response_summary` and `provider_response_ref`, as a text
unfoldable pub external_id : Builtins → Fields → String
external_id B response = B.str_of (
    value_or B (get_field response "external_id")
      (value_or B (get_field response "id") (str "unknown")))

-- the keys of a dict
abbrev keys_of : Fields → List String
keys_of end = []
keys_of (field k v d) = k ∷ keys_of d

-- `_response_summary`
unfoldable pub response_summary : Builtins → Fields → Fields
unfolding external_id sort_by text_leb
response_summary B response = fields_of (
    ("external_id", str (external_id B response))
    ∷ ("result_keys", list (texts (sort_by text_leb (keys_of response))))
    ∷ [])

-- `ExternalActionProvider.provider_response_ref`
unfoldable pub provider_response_ref :
    Builtins → ExternalActionProvider → ExternalActionRequest → Fields → String
unfolding external_id
provider_response_ref B p q response =
    p.provider_name <> "://" <> q.toolkit <> "/" <> q.action_key <> "/" <> external_id B response

-- The optional arguments of `_ledger_metadata`.
pub record AuditFacts : Type 0 where
  pub allowlist_decision : String
  pub idempotency_decision : String
  pub execution_state : Option String
  pub reserved_toolkit : Option String
  pub response : Option Fields
  pub response_ref : Option String

abbrev pub plain_facts : AuditFacts
plain_facts = record {
  allowlist_decision = "allowed";
  idempotency_decision = "new";
  execution_state = none;
  reserved_toolkit = none;
  response = none;
  response_ref = none;
}

-- `if value is not None: metadata[key] = value`
abbrev if_set : String → Option String → List (String × Value)
if_set key none = []
if_set key (some s) = (key, str s) ∷ []

abbrev if_response : Builtins → Option Fields → List (String × Value)
if_response B none = []
if_response B (some d) = ("response_summary", dict (response_summary B d)) ∷ []

-- `_redacted_dict`
unfoldable pub redacted_dict : Engine → Value → Fields
redacted_dict E v = redact_fields E (dict_or_empty v)

-- `_ledger_metadata`
unfoldable pub ledger_metadata :
    Engine
    → Builtins
    → ExternalActionProvider
    → ExternalActionRequest
    → String
    → AuditFacts
    → Fields
unfolding redacted_dict response_summary
ledger_metadata E B p q state facts = redact_fields E (
    fields_of (
      ("provider", str p.provider_name)
      ∷ ("toolkit", str q.toolkit)
      ∷ ("action_key", str q.action_key)
      ∷ ("operation_type", str q.operation_type)
      ∷ ("idempotency_key", str q.idempotency_key)
      ∷ ("idempotency_decision", str facts.idempotency_decision)
      ∷ ("actor_ref", text_or_null q.actor_ref)
      ∷ ("approval_state", str state)
      ∷ ("allowlist_decision", str facts.allowlist_decision)
      ∷ ("payload", dict (redacted_dict E q.payload))
      ∷ (if_set "workflow_action_ledger_id" q.workflow_action_ledger_id
          ++ if_set "execution_state" facts.execution_state
          ++ if_set "reserved_toolkit" facts.reserved_toolkit
          ++ if_response B facts.response
          ++ if_set "provider_response_ref" facts.response_ref)))

-- `_result_projection` of a success
unfoldable pub result_projection :
    Engine → ExternalActionProvider → ExternalActionRequest → String → Fields → String → Value
unfolding redacted_dict
result_projection E p q state response ref = dict (
    redact_fields E (
      fields_of (
        ("provider", str p.provider_name)
        ∷ ("toolkit", str q.toolkit)
        ∷ ("action_key", str q.action_key)
        ∷ ("operation_type", str q.operation_type)
        ∷ ("status", str "succeeded")
        ∷ ("idempotency_key", str q.idempotency_key)
        ∷ ("provider_response_ref", str ref)
        ∷ ("approval_state", str state)
        ∷ ("response", dict (redacted_dict E (dict response)))
        ∷ [])))
