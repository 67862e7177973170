-- ===== src/Examples/Snapshots.antt =====
-- The snapshot theorems on concrete snapshots.
use orvo_agent.Base.{map, List, String, [], ◌∷◌, none, ◌≡◌}
use orvo_agent.Cases.Unique.Laws.{unique_snapshots-first, first_with, AreDistinct}
use orvo_agent.Cases.Record.{Snapshot}
use orvo_agent.Value.{end}
use orvo_agent.Cases.Unique.{unique_snapshots}
use orvo_agent.Cases.Status.{fresh}

abbrev snapshot : String → String → Snapshot
snapshot id key = record {
  snapshot_id = id;
  snapshot_key = key;
  captured_at = 100;
  run_id = none;
  artifact_ref = none;
  evidence_ref = "evidence://orders/1";
  source = "orders";
  source_label = none;
  case_type = none;
  entity_scope = end;
  summary = "Sales dropped";
  freshness_state = fresh;
  metrics = [];
  metadata = end;
}

abbrev twice : List Snapshot
twice = snapshot "s1" "orders" ∷ snapshot "s2" "stock" ∷ snapshot "s3" "orders" ∷ []

unique_snapshots-first_example :
    AreDistinct (map (λ s. s.snapshot_key) (unique_snapshots twice))
    × ((k : String)
        → first_with (λ s. s.snapshot_key) k (unique_snapshots twice)
          ≡ first_with (λ s. s.snapshot_key) k twice)
unique_snapshots-first_example = unique_snapshots-first twice
