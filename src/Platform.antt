-- ===== src/Platform.antt =====
-- What the workflow modules take from the host: the clock, `datetime.astimezone`, `isoformat`,
-- `hashlib.sha256` and `str.strip`.
use orvo_agent.Base.{ℕ, String, Option, none, some}
use orvo_agent.Base.Offset.{with_z}
use orvo_agent.Model.{Datetime, aware, naive}
use orvo_agent.Value.{Value, null, str}

pub record Platform : Type 0 where
  -- `datetime.now(timezone.utc)` of the call
  pub now : ℕ
  -- the instant that a naive `datetime` names in the time zone of the process
  pub local : ℕ → ℕ
  -- `isoformat()` in UTC
  pub isoformat : ℕ → String
  -- `sha256(text.encode("utf-8")).hexdigest()`
  pub sha256 : String → String
  pub strip : String → String

module _ (P : Platform) where
  -- `_iso`
  unfoldable pub iso : ℕ → String
  unfolding with_z
  iso t = with_z (P.isoformat t)

  -- `_coerce_utc`
  unfoldable pub coerce_utc : Option Datetime → ℕ
  coerce_utc none = P.now
  coerce_utc (some (aware t)) = t
  coerce_utc (some (naive t)) = P.local t

-- a text or None, as a value
abbrev pub text_or_null : Option String → Value
text_or_null none = null
text_or_null (some s) = str s
