-- ===== src/Redaction/Redactor.antt =====
-- The interface that the stores redact by: `redact_text`, `redact_uri` and `redact_secrets`.
use orvo_agent.Base.{String, ◌==◌, string_eq, if◌then◌else◌}
use orvo_agent.Value.{Value, dict, Fields, end}
use orvo_agent.Redaction.Engine.{Engine}
use orvo_agent.Redaction.Text.{redact_text, redact_uri}
use orvo_agent.Redaction.Secrets.{redact_secrets}

pub record Redactor : Type 0 where
  pub text : String → String
  pub uri : String → String
  pub secrets : Value → Value

-- What the module app/brain/security/redaction.py provides.
unfoldable pub redactor : Engine → Redactor
redactor E = record { text = redact_text E; uri = redact_uri E; secrets = redact_secrets E }

-- `redacted if isinstance(redacted, dict) else {}`
abbrev pub dict_or_empty : Value → Fields
dict_or_empty (dict d) = d
dict_or_empty _ = end

-- `redacted if isinstance(redacted, dict) else event`
abbrev pub dict_or : Value → Value → Value
dict_or (dict d) event = dict d
dict_or _ event = event

module _ (R : Redactor) where
  -- `redact_text(value) or "[REDACTED]"`
  unfoldable pub text_or_masked : String → String
  text_or_masked s = if R.text s == "" then "[REDACTED]" else R.text s

  -- `redact_uri(value) or "[REDACTED]"`
  unfoldable pub uri_or_masked : String → String
  uri_or_masked s = if R.uri s == "" then "[REDACTED]" else R.uri s

  -- `_safe_metadata`, `_redacted_params` and the other guards on a redacted dict
  unfoldable pub safe_metadata : Fields → Fields
  safe_metadata d = dict_or_empty (R.secrets (dict d))
