-- ===== src/Redaction/Engine.antt =====
-- What app/brain/security/redaction.py calls in Python's `re`, `urllib.parse` and `str`.
use orvo_agent.Base.{ℕ, String, Option, List}

-- The compiled patterns of the module.
pub data Pattern : Type 0 where
  private_key_block auth_scheme_header bearer quoted_key_value unquoted_key_value : Pattern
  oauth_code_context quoted_bare_oauth_code unquoted_bare_oauth_code : Pattern

-- A match, as `start()`, `end()`, and `group(0)`, `group(1)`, ….
pub record Match : Type 0 where
  pub start : ℕ
  pub stop : ℕ
  pub groups : List String

-- A text cut at its matches.
pub data Piece : Type 0 where
  plain : String → Piece
  found : Match → Piece

pub record SplitUrl : Type 0 where
  pub scheme : String
  pub netloc : String
  pub path : String
  pub query : String
  pub fragment : String

pub record Engine : Type 0 where
  -- the text cut at the successive matches that `pattern.sub` replaces
  pub scan : Pattern → String → List Piece
  -- `str.lower`
  pub lower : String → String
  -- `none` where `urlsplit` raises a `ValueError`
  pub urlsplit : String → Option SplitUrl
  pub urlunsplit : SplitUrl → String
  -- `parse_qsl(…, keep_blank_values=True)`
  pub parse_qsl : String → List (String × String)
  -- `urlencode(…, doseq=True)`
  pub urlencode : List (String × String) → String
