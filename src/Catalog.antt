-- ===== src/Catalog.antt =====
-- app/brain/action_catalog.py: the registered action keys and their projections.
use orvo_agent.Base.{
  String, Bool, true, false, ◌&&◌, Option, none, some, List, [], ◌∷◌, ◌==◌, string_eq,
  if◌then◌else◌, map, filter, Eq, ◌++◌,
}
use orvo_agent.Value.{Value, Items, str, bool, dict, list, nil, cons, fields_of}
use orvo_agent.Redaction.Redactor.{dict_or, Redactor, safe_metadata}
use orvo_agent.Platform.{text_or_null}

pub data ActionMode : Type 0 where
  manual suggestion approval_required : ActionMode

-- `none` is `no_effect` here.
pub data ActionSideEffect : Type 0 where
  no_effect case_transition case_comment operator_request external : ActionSideEffect

pub ActionMode-discrete : Discrete ActionMode
ActionMode-discrete = hlevel

instance unfoldable pub action_mode_eq : Eq ActionMode
unfolding ActionMode-discrete
action_mode_eq = record { dec = ActionMode-discrete }

abbrev pub mode_text : ActionMode → String
mode_text manual = "manual"
mode_text suggestion = "suggestion"
mode_text approval_required = "approval_required"

abbrev pub side_effect_text : ActionSideEffect → String
side_effect_text no_effect = "none"
side_effect_text case_transition = "case_transition"
side_effect_text case_comment = "case_comment"
side_effect_text operator_request = "operator_request"
side_effect_text external = "external"

pub record ActionDefinition : Type 0 where
  pub action_key : String
  pub label : String
  pub mode : ActionMode
  pub side_effect : ActionSideEffect
  pub api_enabled : Bool
  pub api_mode : Option String
  pub status_effect : Option String
  pub requires_reason : Bool
  pub requires_comment : Bool
  pub input_fields : List String
  pub requires_approval : Bool
  pub case_families : List String
  pub notes : Option String

-- the defaults of the dataclass
abbrev pub definition : String → String → ActionMode → ActionSideEffect → ActionDefinition
definition action_key label mode side_effect = record {
  action_key = action_key;
  label = label;
  mode = mode;
  side_effect = side_effect;
  api_enabled = false;
  api_mode = none;
  status_effect = none;
  requires_reason = false;
  requires_comment = false;
  input_fields = [];
  requires_approval = false;
  case_families = [];
  notes = none;
}

-- `_ACTION_DEFINITIONS`
unfoldable pub action_definitions : List ActionDefinition
action_definitions =
    record (definition "acknowledge_case" "Acknowledge case" manual case_transition) {
      api_enabled = true;
      api_mode = some "manual_operator_mutation";
      status_effect = some "acknowledged";
    }
    ∷ record (definition "add_comment" "Add comment" manual case_comment) {
      api_enabled = true;
      api_mode = some "manual_operator_mutation";
      requires_comment = true;
    }
    ∷ record (definition "assign_owner" "Assign owner" manual operator_request) {
      api_enabled = true;
      api_mode = some "manual_operator_mutation";
      input_fields = "assignee_ref" ∷ [];
    }
    ∷ record (definition "dismiss_case" "Dismiss case" manual case_transition) {
      api_enabled = true;
      api_mode = some "manual_operator_mutation";
      status_effect = some "dismissed";
      requires_reason = true;
    }
    ∷ record (definition "mark_in_progress" "Mark in progress" manual case_transition) {
      api_enabled = true;
      api_mode = some "manual_operator_mutation";
      status_effect = some "in_progress";
    }
    ∷ record (definition "resolve_case" "Resolve case" manual case_transition) {
      api_enabled = true;
      api_mode = some "manual_operator_mutation";
      status_effect = some "resolved";
      requires_reason = true;
    }
    ∷ record (definition "request_follow_up" "Request follow-up" manual operator_request) {
      api_mode = some "manual_operator_action";
    }
    ∷ record (definition "request_external_action" "Request external action" approval_required
        external) {
          api_mode = some "approval_required_disabled";
          requires_reason = true;
          requires_approval = true;
          notes =
              some
                "Registered but disabled until governed approvals and durable idempotency exist.";
        }
    ∷ record (definition "check_storefront" "Check storefront" suggestion no_effect) {
      api_mode = some "suggestion_only";
      case_families = "sales_drop" ∷ "spend_without_orders" ∷ [];
    }
    ∷ record (definition "review_campaigns" "Review campaigns" suggestion no_effect) {
      api_mode = some "suggestion_only";
      case_families = "spend_without_orders" ∷ [];
    }
    ∷ record (definition "confirm_stock" "Confirm stock" suggestion no_effect) {
      api_mode = some "suggestion_only";
      case_families = "stockout_risk" ∷ [];
    }
    ∷ record (definition "pause_promotion" "Pause promotion" approval_required external) {
      api_mode = some "approval_required_disabled";
      requires_approval = true;
      case_families = "stockout_risk" ∷ "spend_without_orders" ∷ [];
      notes = some "Recommendation only until approved automation exists.";
    }
    ∷ record (definition "refresh_credentials" "Refresh credentials" manual operator_request) {
      api_mode = some "manual_operator_action";
      case_families = "data_stale" ∷ [];
    }
    ∷ record (definition "retry_connector" "Retry connector" manual operator_request) {
      api_mode = some "manual_operator_action";
      case_families = "data_stale" ∷ [];
    }
    ∷ record (definition "inspect_pending_orders" "Inspect pending orders" suggestion no_effect) {
      api_mode = some "suggestion_only";
      case_families = "fulfillment_backlog" ∷ [];
    }
    ∷ record (definition "reply_pending_chats" "Reply pending chats" suggestion no_effect) {
      api_mode = some "suggestion_only";
      case_families = "unanswered_conversations" ∷ [];
    }
    ∷ []

-- `definition.action_key == key`
abbrev pub find_definition : List ActionDefinition → String → Option ActionDefinition
find_definition [] key = none
find_definition (d ∷ ds) key = if d.action_key == key then some d else find_definition ds key

-- `ACTION_CATALOG.get(key)`: the keys of the definitions are distinct
unfoldable pub action_catalog : String → Option ActionDefinition
unfolding action_definitions
action_catalog key = find_definition action_definitions key

-- `key in ACTION_CATALOG`
unfoldable pub is_registered : String → Bool
unfolding action_catalog
is_registered key = elim (action_catalog key) [ none ↦ false | some d ↦ true ]

-- `API_ENABLED_CASE_ACTION_KEYS`
unfoldable pub api_enabled_case_action_keys : List String
unfolding action_definitions filter
api_enabled_case_action_keys =
    map (λ (d : ActionDefinition). d.action_key)
      (filter (λ (d : ActionDefinition). d.api_enabled) action_definitions)

-- a list of texts, as a value
abbrev pub texts : List String → Items
texts [] = nil
texts (s ∷ ss) = cons (str s) (texts ss)

abbrev pub values_of : List Value → Items
values_of [] = nil
values_of (v ∷ vs) = cons v (values_of vs)

-- `if text: payload[key] = text`
abbrev pub if_text : String → Option String → List (String × Value)
if_text key none = []
if_text key (some s) = if s == "" then [] else (key, str s) ∷ []

-- `if values: payload[key] = list(values)`
abbrev pub if_texts : String → List String → List (String × Value)
if_texts key [] = []
if_texts key (s ∷ ss) = (key, list (texts (s ∷ ss))) ∷ []

-- `self.api_mode or self.mode`
abbrev pub shown_mode : ActionDefinition → String
shown_mode d = elim d.api_mode [
  | none ↦ mode_text d.mode
  | some m ↦ if m == "" then mode_text d.mode else m
]

module _ (R : Redactor) where
  -- `ActionDefinition.operator_projection`
  unfoldable pub operator_projection : ActionDefinition → Bool → Value
  operator_projection d can_execute =
      let executable = d.api_enabled && can_execute in
      let payload : Value = dict (
        fields_of (
          ("action_key", str d.action_key)
            ∷ ("label", str d.label)
            ∷ ("mode", str (shown_mode d))
            ∷ ("api_enabled", bool d.api_enabled)
            ∷ ("operator_executable", bool executable)
            ∷ ("status_effect", text_or_null d.status_effect)
            ∷ ("requires_reason", bool d.requires_reason)
            ∷ ("requires_comment", bool d.requires_comment)
            ∷ ("approval_required", bool d.requires_approval)
            ∷ (if executable
                then []
                else (
                  "disabled_reason",
                  str (if d.api_enabled then "missing_case_action_permission" else "api_disabled"),
                )
                  ∷ [])
          ++ if_texts "input_fields" d.input_fields
          ++ if_texts "case_families" d.case_families
          ++ if_text "notes" d.notes)) in
      dict_or (R.secrets payload) payload

  -- `list_case_action_catalog`
  unfoldable pub list_case_action_catalog : String → Bool → Value
  unfolding operator_projection filter action_definitions api_enabled_case_action_keys
  list_case_action_catalog business_id can_execute =
      let executable =
        map (λ (d : ActionDefinition). d.action_key)
          (filter (λ (d : ActionDefinition). d.api_enabled && can_execute) action_definitions) in
      dict (
        safe_metadata R (
          fields_of (
            ("business_id", str business_id)
            ∷ ("api_enabled_action_keys", list (texts api_enabled_case_action_keys))
            ∷ ("operator_executable_action_keys", list (texts executable))
            ∷ (
              "actions",
              list (values_of (map (λ d. operator_projection d can_execute) action_definitions)),
            )
            ∷ [])))
