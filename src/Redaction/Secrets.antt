-- ===== src/Redaction/Secrets.antt =====
-- `redact_secrets` of app/brain/security/redaction.py, over the values that metadata hold. The keys
-- of a dict are texts and distinct, so the new dict has an entry for each entry of the old one.
use text.Mathlib.Text.{starts_with}
use orvo_agent.Base.{String, List, [], ◌∷◌, contains, string_eq, if◌then◌else◌}
use orvo_agent.Value.{
  Value, null, bool, int, str, list, tuple, dict, other, Items, nil, cons, Fields, end, field,
}
use orvo_agent.Redaction.Engine.{Engine}
use orvo_agent.Redaction.Text.{normalized_key, is_secret_key, redact_uri, sanitize_secret_ref}

abbrev pub safe_secret_contract_keys : List String
safe_secret_contract_keys = "secret_param_names" ∷ "legacy_secret_param_names" ∷ []

abbrev pub safe_secret_ref_keys : List String
safe_secret_ref_keys = "secret_refs" ∷ []

abbrev pub masked : Value
masked = str "[REDACTED]"

module _ (E : Engine) where
  -- the value under a key of a `secret_refs` dict
  unfoldable pub redact_secret_ref : Value → Value
  redact_secret_ref (str s) =
      if starts_with s "secret://" then str (sanitize_secret_ref E s) else masked
  redact_secret_ref _ = masked

  unfoldable pub redact_ref_fields : Fields → Fields
  unfolding redact_secret_ref
  redact_ref_fields end = end
  redact_ref_fields (field k v d) = field k (redact_secret_ref v) (redact_ref_fields d)

unfoldable mutual
  pub redact_secret_refs : Engine → Value → Value
  redact_secret_refs E (dict d) = dict (redact_ref_fields E d)
  redact_secret_refs E (list xs) = list (redact_ref_items E xs)
  redact_secret_refs E (tuple xs) = tuple (redact_ref_items E xs)
  redact_secret_refs E _ = masked

  pub redact_ref_items : Engine → Items → Items
  redact_ref_items E nil = nil
  redact_ref_items E (cons v xs) = cons (redact_secret_refs E v) (redact_ref_items E xs)

-- The value under the key `k`, from its value as a dict of references and its redacted value.
unfoldable pub redact_entry : Engine → String → Value → Value → Value
redact_entry E k refs inner =
    let name = normalized_key E k in
    if contains safe_secret_ref_keys name
    then refs
    else if contains safe_secret_contract_keys name
    then inner
    else if is_secret_key E k
    then masked
    else inner

unfoldable mutual
  unfolding redact_entry

  pub redact_secrets : Engine → Value → Value
  redact_secrets E null = null
  redact_secrets E (bool b) = bool b
  redact_secrets E (int n) = int n
  redact_secrets E (str s) = str (redact_uri E s)
  redact_secrets E (list xs) = list (redact_items E xs)
  redact_secrets E (tuple xs) = tuple (redact_items E xs)
  redact_secrets E (dict d) = dict (redact_fields E d)
  redact_secrets E (other r) = other r

  pub redact_items : Engine → Items → Items
  redact_items E nil = nil
  redact_items E (cons v xs) = cons (redact_secrets E v) (redact_items E xs)

  pub redact_fields : Engine → Fields → Fields
  redact_fields E end = end
  redact_fields E (field k v d) =
      field k (redact_entry E k (redact_secret_refs E v) (redact_secrets E v)) (redact_fields E d)
