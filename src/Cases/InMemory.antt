-- ===== src/Cases/InMemory.antt =====
-- `InMemoryOperationalCaseStore` of app/brain/operational_cases.py: a dict from ids to cases.
use orvo_agent.Base.{
  String, ◌&&◌, ◌≡◌, refl, Option, none, some, List, [], ◌∷◌, ◌==◌, string_eq, arith, if◌then◌else◌,
}
use orvo_agent.Base.Dict
use orvo_agent.Base.Dict.{get-nil, Dict, NodupKeys, values, get-put, put-NodupKeys}
use orvo_agent.Cases.Record.{Case}
use orvo_agent.Cases.Store.{IsLawful, StoreOps}

abbrev pub InMemory : Type 0
InMemory = Dict String Case

-- The loop of `find_by_dedupe_key`.
unfoldable pub find_case : List Case → String → String → Option Case
find_case [] business_id dedupe_key = none
find_case (c ∷ cases) business_id dedupe_key =
    if c.business_id == business_id && c.dedupe_key == dedupe_key
    then some c
    else find_case cases business_id dedupe_key

unfoldable pub in_memory : StoreOps InMemory
unfolding find_case
in_memory = record {
  get_case = Dict.get;
  find_by_dedupe_key = λ st. find_case (values st);
  persist = λ st c. Dict.put st c.case_id c;
}

-- Every case is stored under its own id, once.
abbrev pub IsKeyed : InMemory → Type 0
IsKeyed [] = Unit
IsKeyed ((id, c) ∷ st) = (c.case_id ≡ id) × (Dict.get st id ≡ none) × IsKeyed st

put-IsKeyed : (st : InMemory) (c : Case) → IsKeyed st → IsKeyed (Dict.put st c.case_id c)
unfolding Dict.put
put-IsKeyed [] c k = (refl, get-nil c.case_id, tt)
put-IsKeyed ((id, d) ∷ st) c k = ground (arith, put-IsKeyed st c k.2, get-put st c.case_id id c)

find_case-get :
    (st : InMemory) (b k : String) (c : Case)
    → IsKeyed st
    → find_case (values st) b k ≡ some c
    → (Dict.get st c.case_id ≡ some c) × (c.business_id ≡ b) × (c.dedupe_key ≡ k)
unfolding find_case Dict.get
find_case-get [] b k c i h = absurd (cc)
find_case-get ((id, d) ∷ st) b k c i h = ground (arith, find_case-get st b k c i.2)

find_case-none :
    (st : InMemory) (b k id : String) (c : Case)
    → find_case (values st) b k ≡ none
    → Dict.get st id ≡ some c
    → ¬ ((c.business_id ≡ b) × (c.dedupe_key ≡ k))
unfolding find_case Dict.get
find_case-none [] b k id c h g = absurd (cc)
find_case-none ((i, d) ∷ st) b k id c h g = ground (arith, find_case-none st b k id c)

get-id :
    (st : InMemory) (id : String) (c : Case) → IsKeyed st → Dict.get st id ≡ some c → c.case_id ≡ id
unfolding Dict.get
get-id [] id c i h = absurd (cc)
get-id ((j, d) ∷ st) id c i h = ground (arith, get-id st id c i.2)

-- The in-memory case store meets the contract that the operations rely on: what is persisted is
-- read, other cases are untouched, the search by dedupe key is sound and complete.
pub in_memory-IsLawful : IsLawful in_memory IsKeyed
unfolding in_memory
in_memory-IsLawful = record {
  persist-Inv = put-IsKeyed;
  get-persist = λ st c id. get-put st c.case_id id c;
  get_id = get-id;
  find-some = find_case-get;
  find-none = find_case-none;
}
