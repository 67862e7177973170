-- ===== src/Cases/Unique.antt =====
-- `_unique`, `_unique_snapshots` and `_canonical_snapshot_ids` of app/brain/operational_cases.py.
pub mod Laws
use orvo_agent.Base.{
  String, ◌||◌, Option, none, some, List, [], ◌∷◌, ◌==◌, string_eq, contains, if◌then◌else◌,
}
use orvo_agent.Base.Dict
use orvo_agent.Base.Dict.{Dict}
use orvo_agent.Cases.Record.{Snapshot}

-- The loop of both functions: an item whose key was seen is dropped.
unfoldable pub unique_by : {A : Type 0} → (A → String) → List String → List A → List A
unique_by key seen [] = []
unique_by key seen (x ∷ xs) =
    let skip = unique_by key seen xs in
    let keep = x ∷ unique_by key (key x ∷ seen) xs in if contains seen (key x) then skip else keep

-- `_unique`
unfoldable pub unique : List String → List String
unfolding unique_by
unique values = unique_by (λ value. value) [] values

-- `_unique_snapshots`
unfoldable pub unique_snapshots : List Snapshot → List Snapshot
unfolding unique_by
unique_snapshots snapshots = unique_by (λ s. s.snapshot_key) [] snapshots

-- `{snapshot.snapshot_key: snapshot.snapshot_id for snapshot in snapshots}`, over what is there
unfoldable pub ids_by_key : Dict String String → List Snapshot → Dict String String
ids_by_key by_key [] = by_key
ids_by_key by_key (s ∷ snapshots) =
    ids_by_key (Dict.put by_key s.snapshot_key s.snapshot_id) snapshots

-- The id to append for a key, if any.
new_id : Option String → List String → Option String
new_id none seen = none
new_id (some snapshot_id) seen = if contains seen snapshot_id then none else some snapshot_id

-- The loop of `_canonical_snapshot_ids`.
unfoldable pub canonical_ids : Dict String String → List String → List String → List String
unfolding new_id
canonical_ids by_key seen [] = []
canonical_ids by_key seen (key ∷ keys) =
    let skip = canonical_ids by_key seen keys in
    elim (new_id (Dict.get by_key key) seen) [
      | none ↦ skip
      | some snapshot_id ↦ snapshot_id ∷ canonical_ids by_key (snapshot_id ∷ seen) keys
    ]

-- `_canonical_snapshot_ids`
unfoldable pub canonical_snapshot_ids : List Snapshot → List String → List String
unfolding canonical_ids ids_by_key
canonical_snapshot_ids snapshots requested_keys =
    canonical_ids (ids_by_key [] snapshots) [] requested_keys
