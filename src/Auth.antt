-- ===== src/Auth.antt =====
-- app/brain/operator_auth.py: the roles of internal operators, and what they may do. `lower` is
-- `str.lower`; the actor of a principal passes through `strip` only.
pub mod Access
pub mod Commas
use Prim.Native.String.{[] as end_of_text, ◌∷◌ as cons_char}
use orvo_agent.Base.{
  map, false, ◌>>=◌, ◌||◌, string_eq, not, contains, true, raise_if, ◌==◌, Bool, ◌<>◌, Result,
  if◌then◌else◌, ℕ, Option, List, String, refl, [], ◌∷◌, none, some, ok, raise,
}
use orvo_agent.Base.Text.{strip}
use orvo_agent.Base.Sort.{text_leb, sort_by}
use orvo_agent.Redaction.Redactor.{text_or_masked, Redactor}

-- `InternalOperatorAuthorizationError`; `role` is the role it names.
pub record AuthError : Type 0 where
  pub code : String
  pub message : String
  pub role : String
  pub permission : String
  pub status_code : ℕ
  pub allowed_businesses : Option (List String)

pub record Principal : Type 0 where
  pub actor_ref : String
  pub role : String
  pub allowed_businesses : Option (List String)

-- `_ROLE_PERMISSIONS.get(role, frozenset())`
unfoldable pub role_permissions : String → List String
role_permissions role =
    if role == "viewer"
    then "internal:read" ∷ []
    else if role == "operator"
    then "internal:read" ∷ "case:action" ∷ []
    else if role == "admin"
    then "internal:read" ∷ "case:action" ∷ "operator_audit:read" ∷ []
    else []

abbrev pub known_roles : List String
known_roles = "viewer" ∷ "operator" ∷ "admin" ∷ []

-- `normalize_operator_role`
unfoldable pub normalize_operator_role : (String → String) → Option String → Result AuthError String
normalize_operator_role lower none = ok "operator"
normalize_operator_role lower (some role) =
    if strip role == ""
    then ok "operator"
    else if contains known_roles (lower (strip role))
    then ok (lower (strip role))
    else raise (record {
      code = "unknown_operator_role";
      message = "Unknown operator role.";
      role = lower (strip role);
      permission = "role:known";
      status_code = 403;
      allowed_businesses = none;
    })

-- The first item of a list, with a character in front.
onto_head : String → List String → List String
onto_head c [] = c ∷ []
onto_head c (item ∷ items) = (c <> item) ∷ items

-- `value.split(",")`
unfoldable pub split_commas : String → List String
unfolding onto_head
split_commas end_of_text = "" ∷ []
split_commas (cons_char c s) =
    let items = split_commas s in
    if cons_char c end_of_text == "," then "" ∷ items else onto_head (cons_char c end_of_text) items

-- `(item.strip() for item in items if item.strip())`
unfoldable pub strip_items : List String → List String
strip_items [] = []
strip_items (item ∷ items) =
    let rest = strip_items items in if strip item == "" then rest else strip item ∷ rest

-- `parse_allowed_businesses`
unfoldable pub parse_allowed_businesses : Option String → Option (List String)
unfolding split_commas strip_items
parse_allowed_businesses none = none
parse_allowed_businesses (some value) = some (strip_items (split_commas value))

-- `actor_ref.strip() if actor_ref.strip() else "anonymous"`
unfoldable pub safe_actor_ref : Option String → String
safe_actor_ref none = "anonymous"
safe_actor_ref (some s) = if strip s == "" then "anonymous" else strip s

-- `build_internal_operator_principal`
unfoldable pub build_internal_operator_principal :
    (String → String) → Option String → Option String → Option String → Result AuthError Principal
unfolding safe_actor_ref normalize_operator_role parse_allowed_businesses
build_internal_operator_principal lower actor_ref role header = do
  normalized ← normalize_operator_role lower role
  ok (record {
    actor_ref = safe_actor_ref actor_ref;
    role = normalized;
    allowed_businesses = parse_allowed_businesses header;
  })

-- `require_internal_permission`
unfoldable pub require_internal_permission : Principal → String → Result AuthError (Unit {0})
unfolding role_permissions
require_internal_permission principal permission =
    raise_if (not (contains (role_permissions principal.role) permission)) (record {
      code = "missing_permission";
      message = "Operator role lacks required permission.";
      role = principal.role;
      permission = permission;
      status_code = 403;
      allowed_businesses = none;
    })

-- the condition of `require_internal_business_scope`
unfoldable pub is_granted : Option (List String) → String → Bool
is_granted none business_id = true
is_granted (some businesses) business_id =
    contains businesses "*" || contains businesses business_id

-- `require_internal_business_scope`
unfoldable pub require_internal_business_scope : Principal → String → Result AuthError (Unit {0})
unfolding is_granted
require_internal_business_scope principal business_id =
    raise_if (not (is_granted principal.allowed_businesses business_id)) (record {
      code = "business_scope_denied";
      message = "Operator is not granted access to this business.";
      role = principal.role;
      permission = "business:access";
      status_code = 403;
      allowed_businesses = principal.allowed_businesses;
    })

-- `permissions_for_role`
unfoldable pub permissions_for_role : String → List String
unfolding role_permissions sort_by text_leb
permissions_for_role role = sort_by text_leb (role_permissions role)

-- `audit_safe_operator_role`
unfoldable pub audit_safe_operator_role : String → String
audit_safe_operator_role role = if contains known_roles role then role else "[REDACTED]"

module _ (R : Redactor) where
  -- a text as the audit log and the session show it
  unfoldable pub shown : String → String
  unfolding text_or_masked
  shown value = if text_or_masked R value == value then text_or_masked R value else "[REDACTED]"

  -- `audit_safe_business_values`
  unfoldable pub audit_safe_business_values : Option (List String) → Option (List String)
  unfolding shown
  audit_safe_business_values none = none
  audit_safe_business_values (some values) = some (map shown values)

-- The dict of `project_internal_operator_session`, by its keys.
pub record Session : Type 0 where
  pub actor_ref : String
  pub role : String
  pub permissions : List String
  pub can_read_internal : Bool
  pub can_mutate_cases : Bool
  pub can_read_operator_audit : Bool
  pub legacy_token_scoped : Bool
  pub all_businesses : Bool
  pub allowed_businesses : Option (List String)

-- `bool(values and "*" in values)`
abbrev pub has_wildcard : Option (List String) → Bool
has_wildcard none = false
has_wildcard (some values) = contains values "*"

abbrev pub is_absent : Option (List String) → Bool
is_absent none = true
is_absent (some values) = false

-- `project_internal_operator_session`
unfoldable pub project_internal_operator_session : Redactor → Principal → Session
unfolding shown audit_safe_business_values permissions_for_role
project_internal_operator_session R p = record {
  actor_ref = shown R p.actor_ref;
  role = p.role;
  permissions = permissions_for_role p.role;
  can_read_internal = contains (permissions_for_role p.role) "internal:read";
  can_mutate_cases = contains (permissions_for_role p.role) "case:action";
  can_read_operator_audit = contains (permissions_for_role p.role) "operator_audit:read";
  legacy_token_scoped = is_absent p.allowed_businesses;
  all_businesses = has_wildcard p.allowed_businesses;
  allowed_businesses = audit_safe_business_values R p.allowed_businesses;
}
