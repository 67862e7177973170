-- ===== src/Run/InMemory.antt =====
-- `InMemoryRunLedger` of app/brain/run_ledger.py.
use orvo_agent.Base.{
  List, ltb, ◌==◌, if◌then◌else◌, Option, true, false, Bool, string_eq, arith, ◌≡◌, String, refl,
  [], ◌∷◌, some,
}
use orvo_agent.Base.Dict
use orvo_agent.Base.Dict.{values, get-put, Dict}
use orvo_agent.Run.Ledger.{IsLedger, LedgerOps}
use orvo_agent.Run.Record.{run_status_eq, RunStatus, RunRecord}
use orvo_agent.Base.Sort.{text_leb_trans, text_leb-total, text_leb}
use orvo_agent.Listing.{listing-IsListing, IsListing, listing}
use orvo_agent.Value.{ℤ}

abbrev pub Runs : Type 0
Runs = Dict String RunRecord

unfoldable pub in_memory_runs : LedgerOps Runs
in_memory_runs = record { get_run = Dict.get; persist_run = λ st r. Dict.put st r.run_id r }

-- Every run is stored under its own id.
abbrev pub AreUnderIds : Runs → Type 0
AreUnderIds [] = Unit
AreUnderIds ((id, r) ∷ st) = (r.run_id ≡ id) × AreUnderIds st

put-AreUnderIds :
    (st : Runs) (r : RunRecord) → AreUnderIds st → AreUnderIds (Dict.put st r.run_id r)
unfolding Dict.put
put-AreUnderIds [] r k = (refl, tt)
put-AreUnderIds ((id, d) ∷ st) r k = ground (arith, put-AreUnderIds st r k.1)

get-run_id :
    (st : Runs) (id : String) (r : RunRecord)
    → AreUnderIds st
    → Dict.get st id ≡ some r
    → r.run_id ≡ id
unfolding Dict.get
get-run_id [] id r i h = absurd (cc)
get-run_id ((j, d) ∷ st) id r i h = ground (arith, get-run_id st id r i.1)

-- The in-memory run ledger meets the contract that the mutations rely on.
pub in_memory_runs-IsLedger : IsLedger in_memory_runs AreUnderIds
unfolding in_memory_runs
in_memory_runs-IsLedger = record {
  persist-Inv = put-AreUnderIds;
  get-persist = λ st r id. get-put st r.run_id id r;
  get_id = get-run_id;
}

-- The reverse order of the keys `(started_at, run_id)`.
unfoldable pub run_geb : RunRecord → RunRecord → Bool
unfolding text_leb
run_geb r s =
    if ltb s.started_at r.started_at
    then true
    else if ltb r.started_at s.started_at
    then false
    else text_leb s.run_id r.run_id

abbrev pub run_of_business : String → RunRecord → Bool
run_of_business b r = r.business_id == b

abbrev pub run_has_status : RunStatus → RunRecord → Bool
run_has_status s r = r.status == s

unfoldable pub list_runs : Runs → Option String → Option RunStatus → Option ℤ → List RunRecord
unfolding listing run_geb
list_runs st business_id status limit =
    listing run_geb run_of_business run_has_status (values st) business_id status limit

run_geb-total : (r s : RunRecord) → run_geb r s ≡ false → run_geb s r ≡ true
unfolding run_geb
run_geb-total r s h = ground (arith, text_leb-total s.run_id r.run_id)

run_geb_trans : (r s t : RunRecord) → run_geb r s ≡ true → run_geb s t ≡ true → run_geb r t ≡ true
unfolding run_geb
run_geb_trans r s t h k = ground (arith, text_leb_trans t.run_id s.run_id r.run_id)

-- The listing of runs is the start of an ordering, from the latest to the oldest and then by id, of
-- all the stored runs that meet the filters: all of it without a limit, otherwise as many runs as the
-- limit says or all if there are fewer, and with a negative limit all but that many.
pub list_runs-IsListing :
    (st : Runs) (business_id : Option String) (status : Option RunStatus) (limit : Option ℤ)
    → IsListing run_geb run_of_business run_has_status
        (values st)
        business_id
        status
        limit
        (list_runs st business_id status limit)
unfolding list_runs
list_runs-IsListing st business_id status limit =
    listing-IsListing run_geb run_of_business run_has_status run_geb-total run_geb_trans (values st)
      business_id status limit
