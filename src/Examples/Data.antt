-- ===== src/Examples/Data.antt =====
-- Concrete cases and hosts for the examples.
use orvo_agent.Base.{nat_eq, string_eq, ◌==◌, if◌then◌else◌, refl, [], ◌∷◌, none, some, arith}
use orvo_agent.Cases.Status.{actor_type_eq, status_eq, opened, dismissed, sales_drop, warning}
use orvo_agent.Redaction.Redactor.{Redactor}
use orvo_agent.Cases.Detection.{Host}
use orvo_agent.Cases.Record.{Case, Detection}
use orvo_agent.Model.{is_set}
use orvo_agent.Value.{end}
use orvo_agent.Cases.Validity.{IsValid}

-- A redactor that masks one text and leaves all others.
abbrev pub example_redactor : Redactor
example_redactor = record {
  text = λ s. if s == "token=1" then "token=[REDACTED]" else s;
  uri = λ s. s;
  secrets = λ v. v;
}

abbrev pub host_1 : Host
host_1 = record {
  now = 100;
  uuid = λ i. if i == 0 then "case-1" else if i == 1 then "event-1" else "snapshot-1";
  str_of = λ v. "x";
}

abbrev pub host_2 : Host
host_2 = record { now = 200; uuid = λ i. if i == 0 then "case-2" else "event-2"; str_of = λ v. "x" }

abbrev pub sales_drop_today : Detection
sales_drop_today = record {
  business_id = "shop";
  case_type = sales_drop;
  dedupe_key = "sales_drop/shop";
  title = "Sales dropped";
  severity = warning;
  priority_score = 70;
  entity_scope = end;
  evidence_refs = "evidence://orders/1" ∷ [];
  run_id = some "run-1";
  artifact_refs = [];
  evidence_snapshots = [];
  metadata = end;
}

abbrev pub open_case_1 : Case
open_case_1 = record {
  case_id = "case-1";
  business_id = "shop";
  case_type = sales_drop;
  dedupe_key = "sales_drop/shop";
  title = "Sales dropped";
  status = opened;
  severity = warning;
  priority_score = 70;
  entity_scope = end;
  opened_at = 100;
  updated_at = 100;
  acknowledged_at = none;
  assigned_at = none;
  assignee_ref = none;
  resolved_at = none;
  dismissed_at = none;
  latest_run_id = none;
  source_run_ids = [];
  evidence_refs = [];
  artifact_refs = [];
  evidence_snapshots = [];
  timeline = [];
  metadata = end;
}

abbrev pub dismissed_case_1 : Case
dismissed_case_1 = record open_case_1 {
  status = dismissed;
  dismissed_at = some 150;
  updated_at = 150;
}

pub open_case_1-IsValid : IsValid open_case_1
unfolding is_set status_eq string_eq
open_case_1-IsValid = record {
  consistent = record {
    updated = omega arith;
    acknowledged = tt;
    assigned = tt;
    resolved = tt;
    dismissed = tt;
    assignment = refl;
    resolution = refl;
    dismissal = refl;
  };
  bounded = omega arith;
  has_id = refl;
  has_business = refl;
  has_dedupe_key = refl;
}

pub dismissed_case_1-IsValid : IsValid dismissed_case_1
unfolding is_set status_eq string_eq
dismissed_case_1-IsValid = record {
  consistent = record {
    updated = omega arith;
    acknowledged = tt;
    assigned = tt;
    resolved = tt;
    dismissed = omega arith;
    assignment = refl;
    resolution = refl;
    dismissal = refl;
  };
  bounded = omega arith;
  has_id = refl;
  has_business = refl;
  has_dedupe_key = refl;
}
