-- ===== src/Cases/Detection.antt =====
-- The evidence snapshots of a detection in app/brain/operational_cases.py.
use text.Mathlib.Text.{starts_with}
use Prim.Native.String.{[] as end_of_text, ◌∷◌ as cons_char}
use orvo_agent.Base.{
  ℕ, zero, suc, String, ◌<>◌, Option, none, some, List, [], ◌∷◌, ◌==◌, string_eq, head?,
  if◌then◌else◌, Result, ok, ◌>>=◌,
}
use orvo_agent.Value.{Value, Fields, end, get_field}
use orvo_agent.Redaction.Redactor.{Redactor}
use orvo_agent.Cases.Status.{CaseType, case_type_text, unknown}
use orvo_agent.Model.{Error}
use orvo_agent.Cases.Validators.{validate_snapshot}
use orvo_agent.Cases.Record.{Snapshot, Detection}
use orvo_agent.Cases.Unique.{unique_snapshots}

-- What a call takes from Python and the host: the clock, the `i`-th `uuid4()` of the call, and `str`.
pub record Host : Type 0 where
  pub now : ℕ
  pub uuid : ℕ → String
  pub str_of : Value → String

-- `a or b`, for optional texts
unfoldable pub or_text : Option String → Option String → Option String
or_text none b = b
or_text (some s) b = if s == "" then b else some s

-- `a or "literal"`
unfoldable pub or_default : Option String → String → String
or_default none d = d
or_default (some s) d = if s == "" then d else s

-- `s.split("/", 1)[0]`
before_slash : String → String
before_slash end_of_text = ""
before_slash (cons_char c s) =
    if cons_char c end_of_text == "/" then "" else cons_char c (before_slash s)

-- `s.removeprefix(prefix)` of a text that has the prefix, by its length
skip : ℕ → String → String
skip zero s = s
skip (suc n) end_of_text = ""
skip (suc n) (cons_char c s) = skip n s

-- `_source_from_evidence_ref`
unfoldable pub source_from_evidence_ref : String → String
unfolding before_slash skip or_default
source_from_evidence_ref evidence_ref =
    if starts_with evidence_ref "evidence://"
    then or_default (some (before_slash (skip 11 evidence_ref))) "unknown"
    else "unknown"

-- `str(d.get(k, "unknown"))`
unfoldable pub scope_part : Host → Fields → String → String
scope_part H scope k = elim (get_field scope k) [ none ↦ "unknown" | some v ↦ H.str_of v ]

-- `_snapshot_key`
unfoldable pub make_snapshot_key : Host → Option String → String → CaseType → Fields → String
unfolding or_default scope_part
make_snapshot_key H run_id evidence_ref case_type scope =
    or_default run_id "unknown-run"
    <> "/"
    <> evidence_ref
    <> "/"
    <> case_type_text case_type
    <> "/"
    <> scope_part H scope "kind"
    <> "/"
    <> scope_part H scope "id"

module _ (R : Redactor) (H : Host) (d : Detection) where
  -- `_minimal_snapshot_from_detection`; `id` is the snapshot's fresh id
  unfoldable pub minimal_snapshot_from_detection :
      String → String → Option String → Option String → ℕ → Result Error Snapshot
  unfolding make_snapshot_key source_from_evidence_ref validate_snapshot
  minimal_snapshot_from_detection id evidence_ref artifact_ref source_label captured_at =
      validate_snapshot R (record {
        snapshot_id = id;
        snapshot_key = make_snapshot_key H d.run_id evidence_ref d.case_type d.entity_scope;
        captured_at = captured_at;
        run_id = d.run_id;
        artifact_ref = artifact_ref;
        evidence_ref = evidence_ref;
        source = source_from_evidence_ref evidence_ref;
        source_label = source_label;
        case_type = some d.case_type;
        entity_scope = d.entity_scope;
        summary = d.title;
        freshness_state = unknown;
        metrics = [];
        metadata = end;
      })

  -- one snapshot for each evidence reference; the `i`-th takes the id `uuid (i + 2)`
  minimal_snapshots : ℕ → ℕ → List String → Result Error (List Snapshot)
  unfolding minimal_snapshot_from_detection
  minimal_snapshots i captured_at [] = ok []
  minimal_snapshots i captured_at (evidence_ref ∷ refs) = do
    snapshot ←
        minimal_snapshot_from_detection (H.uuid (suc (suc i))) evidence_ref (head? d.artifact_refs)
          none captured_at
    rest ← minimal_snapshots (suc i) captured_at refs
    ok (snapshot ∷ rest)

  -- the comprehension of `_snapshots_for_detection`, or the snapshots that the detection brings
  all_snapshots : ℕ → List Snapshot → Result Error (List Snapshot)
  unfolding minimal_snapshots
  all_snapshots captured_at [] = minimal_snapshots 0 captured_at d.evidence_refs
  all_snapshots captured_at (s ∷ snapshots) = ok (s ∷ snapshots)

  -- `_snapshots_for_detection`
  unfoldable pub snapshots_for_detection : ℕ → Result Error (List Snapshot)
  unfolding all_snapshots unique_snapshots
  snapshots_for_detection captured_at = do
    snapshots ← all_snapshots captured_at d.evidence_snapshots
    ok (unique_snapshots snapshots)
