-- ===== src/Cases/Listing.antt =====
-- `list_cases` of the in-memory case store in app/brain/operational_cases.py.
use orvo_agent.Base.{
  string_eq, List, ltb, arith, false, ◌==◌, if◌then◌else◌, ◌≡◌, Option, Bool, String, true,
}
use orvo_agent.Base.Sort.{text_leb_trans, text_leb-total, text_leb}
use orvo_agent.Cases.Status.{status_eq, Status}
use orvo_agent.Listing.{listing-IsListing, IsListing, listing}
use orvo_agent.Cases.Record.{Case}
use orvo_agent.Cases.InMemory.{InMemory}
use orvo_agent.Value.{ℤ}
use orvo_agent.Base.Dict.{values}

-- The order of the keys `(-priority_score, opened_at, case_id)`.
unfoldable pub case_leb : Case → Case → Bool
unfolding text_leb
case_leb c d =
    if ltb d.priority_score c.priority_score
    then true
    else if ltb c.priority_score d.priority_score
    then false
    else if ltb c.opened_at d.opened_at
    then true
    else if ltb d.opened_at c.opened_at
    then false
    else text_leb c.case_id d.case_id

-- the test of the first filter
abbrev pub of_business : String → Case → Bool
of_business b c = c.business_id == b

-- the test of the second filter
abbrev pub has_status : Status → Case → Bool
has_status s c = c.status == s

unfoldable pub list_cases : InMemory → Option String → Option Status → Option ℤ → List Case
unfolding listing case_leb
list_cases st business_id status limit =
    listing case_leb of_business has_status (values st) business_id status limit

case_leb-total : (c d : Case) → case_leb c d ≡ false → case_leb d c ≡ true
unfolding case_leb
case_leb-total c d h = ground (arith, text_leb-total c.case_id d.case_id)

case_leb_trans : (c d e : Case) → case_leb c d ≡ true → case_leb d e ≡ true → case_leb c e ≡ true
unfolding case_leb
case_leb_trans c d e h k = ground (arith, text_leb_trans c.case_id d.case_id e.case_id)

-- The listing is the start of an ordering, by priority, age and id, of all the stored cases that meet
-- the filters: all of it without a limit, otherwise as many cases as the limit says or all if there
-- are fewer, and with a negative limit all but that many.
pub list_cases-IsListing :
    (st : InMemory) (business_id : Option String) (status : Option Status) (limit : Option ℤ)
    → IsListing case_leb of_business has_status
        (values st)
        business_id
        status
        limit
        (list_cases st business_id status limit)
unfolding list_cases
list_cases-IsListing st business_id status limit =
    listing-IsListing case_leb of_business has_status case_leb-total case_leb_trans (values st)
      business_id status limit
