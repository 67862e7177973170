-- ===== src/Audit.antt =====
-- The operator audit log of app/brain/operator_audit.py; the table is a list of rows.
use orvo_agent.Base.{
  ℕ, zero, suc, Bool, ◌&&◌, String, Option, none, some, List, [], ◌∷◌, ◌++◌, ◌==◌, string_eq,
  if◌then◌else◌, Result, ok, raise, map, filter, take, ltb, ◌<>◌, ◌≡◌, ◌≤◌, arith,
}
use orvo_agent.Base.Sort.{sort_by, text_leb}
use orvo_agent.Model.{Datetime}
use orvo_agent.Base.Offset.{with_z}
use orvo_agent.Platform.{iso, Platform, coerce_utc, text_or_null}
use orvo_agent.Redaction.Redactor.{Redactor, text_or_masked}
use orvo_agent.Value.{ℤ, pos, negsuc, Value, Fields, end, field, dict, str, fields_of}

abbrev default_retention_days : ℕ
default_retention_days = 90

abbrev max_retention_days : ℕ
max_retention_days = 90

-- `OperatorAuditExportError`
record OperatorAuditExportError : Type 0 where
  code : String
  message : String
  status_code : ℕ

-- `int(value)`, none where it raises; `str` of a number; `json.dumps` and `json.loads`, none where it
-- raises; the `isoformat` of the time that lies so many days back; the hex of `uuid4`
record AuditHost : Type 0 where
  to_int : String → Option ℤ
  shown : ℕ → String
  dumps : Value → String
  loads : String → Option Value
  cutoff : ℤ → String
  uuid : String

-- the arguments of `append_event`
record AuditFact : Type 0 where
  business_id : String
  actor_ref : String
  event_type : String
  target_type : String
  target_id : Option String
  request_id : Option String
  details : Option Fields
  created_at : Option Datetime

-- a row of `operator_audit_events`
record AuditRow : Type 0 where
  event_id : String
  business_id : String
  actor_ref : String
  event_type : String
  target_type : String
  target_id : Option String
  request_id : Option String
  created_at : String
  event_data : String

-- `redacted or fallback`
abbrev text_or_else : String → String → String
text_or_else s fallback = if s == "" then fallback else s

-- `data or {}`
abbrev or_no_data : Option Fields → Fields
or_no_data none = end
or_no_data (some d) = d

-- a dict, or the value in one
abbrev as_dict : Value → Value
as_dict (dict d) = dict d
as_dict v = dict (field "value" v end)

-- `ORDER BY created_at DESC, event_id DESC`
unfoldable newest_leb : AuditRow → AuditRow → Bool
unfolding text_leb
newest_leb r s =
    if r.created_at == s.created_at
    then text_leb s.event_id r.event_id
    else text_leb s.created_at r.created_at

-- SQL `LIMIT`: a negative one is none
unfoldable sql_limit : {A : Type 0} → ℤ → List A → List A
unfolding take
sql_limit (pos n) xs = take n xs
sql_limit (negsuc n) xs = xs

module _ (H : AuditHost) (R : Redactor) where
  unfoldable export_error : String → String → OperatorAuditExportError
  export_error code message = record {
    code = code;
    message = text_or_else (R.text message) "Operator audit export error";
    status_code = 400;
  }

  -- the checks of a number of days
  unfoldable checked_days : ℕ → Option ℤ → Result OperatorAuditExportError ℕ
  unfolding export_error
  checked_days most none =
      raise (export_error "invalid_retention_days" "retention_days must be an integer")
  checked_days most (some (negsuc n)) =
      raise (export_error "invalid_retention_days" "retention_days must be positive")
  checked_days most (some (pos zero)) =
      raise (export_error "invalid_retention_days" "retention_days must be positive")
  checked_days most (some (pos (suc n))) =
      if ltb most (suc n)
      then raise
          (export_error "invalid_retention_days" ("retention_days must be <= " <> H.shown most))
      else ok (suc n)

  -- with `default` and `max_days`
  unfoldable parse_audit_retention_days : Option String → ℕ → ℕ → Result OperatorAuditExportError ℕ
  unfolding checked_days
  parse_audit_retention_days none default most = ok default
  parse_audit_retention_days (some s) default most =
      if s == "" then ok default else checked_days most (H.to_int s)

  -- `_redact_audit_identifier`
  unfoldable redact_audit_identifier : String → String
  unfolding text_or_masked
  redact_audit_identifier s = if text_or_masked R s == s then text_or_masked R s else "[REDACTED]"

  abbrev redacted_if : Option String → Option String
  redacted_if none = none
  redacted_if (some s) = some (redact_audit_identifier s)

  -- the inserted row
  unfoldable audit_row : Platform → AuditFact → AuditRow
  unfolding redact_audit_identifier text_or_masked coerce_utc
  audit_row P f = record {
    event_id = "audit_" <> H.uuid;
    business_id = text_or_masked R f.business_id;
    actor_ref = text_or_else (redact_audit_identifier f.actor_ref) "[REDACTED]";
    event_type = text_or_else (R.text f.event_type) "operator_event";
    target_type = text_or_else (R.text f.target_type) "unknown";
    target_id = redacted_if f.target_id;
    request_id = redacted_if f.request_id;
    created_at = iso P (coerce_utc P f.created_at);
    event_data = H.dumps (as_dict (R.secrets (dict (or_no_data f.details))));
  }

  -- the id, and the rows after it; the event id is the primary key, and fresh
  unfoldable append_audit_event : Platform → AuditFact → List AuditRow → String × List AuditRow
  unfolding audit_row
  append_audit_event P f rows = ("audit_" <> H.uuid, rows ++ (audit_row P f ∷ []))

  -- `json.loads(raw_data)`, or the text in a dict
  abbrev loaded : String → Option Value → Value
  loaded raw none = dict (field "value" (str raw) end)
  loaded raw (some v) = v

  unfoldable audit_projection : AuditRow → Value
  audit_projection r = R.secrets (
      dict (
        fields_of (
          ("event_id", str r.event_id)
          ∷ ("business_id", str r.business_id)
          ∷ ("actor_ref", str r.actor_ref)
          ∷ ("event_type", str r.event_type)
          ∷ ("target_type", str r.target_type)
          ∷ ("target_id", text_or_null r.target_id)
          ∷ ("request_id", text_or_null r.request_id)
          ∷ ("created_at", str r.created_at)
          ∷ ("data", loaded r.event_data (H.loads r.event_data))
          ∷ [])))

  -- `WHERE business_id = ? AND created_at >= ?`
  unfoldable in_window : String → String → AuditRow → Bool
  unfolding text_leb
  in_window b since r = r.business_id == b && text_leb since r.created_at

  unfoldable list_events : List AuditRow → String → ℤ → ℤ → List Value
  unfolding filter sort_by newest_leb sql_limit audit_projection in_window
  list_events rows b limit days =
      map audit_projection
        (sql_limit limit (sort_by newest_leb (filter (in_window b (with_z (H.cutoff days))) rows)))

  checked_days-le :
      (most : ℕ) (o : Option ℤ) (n : ℕ) → checked_days most o ≡ ok n → (1 ≤ n) × (n ≤ most)
  unfolding checked_days
  checked_days-le most none n h = absurd (cc)
  checked_days-le most (some (negsuc k)) n h = absurd (cc)
  checked_days-le most (some (pos zero)) n h = absurd (cc)
  checked_days-le most (some (pos (suc k))) n h = (ground arith, ground arith)

  -- A window that is parsed is from one day to the most days, if the default is.
  parse_audit_retention_days-le :
      (value : Option String) (default most n : ℕ)
      → 1 ≤ default
      → default ≤ most
      → parse_audit_retention_days value default most ≡ ok n
      → (1 ≤ n) × (n ≤ most)
  unfolding parse_audit_retention_days
  parse_audit_retention_days-le none default most n low high h = (ground arith, ground arith)
  parse_audit_retention_days-le (some s) default most n low high h = elim (string_eq.dec s "") [
    | yes e ↦ (ground arith, ground arith)
    | no e ↦ checked_days-le most (H.to_int s) n (ground arith)
  ]
