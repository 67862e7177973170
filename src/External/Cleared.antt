-- ===== src/External/Cleared.antt =====
-- What the allowlist and the search for an execution of a key establish.
use orvo_agent.Base.{
  String, Option, some, List, [], ◌∷◌, ◌≡◌, ◌≢◌, ap, All, Bool, true, false, inl, inr, contains,
  string_eq, pair_eq, arith, if◌then◌else◌,
}
use orvo_agent.Base.Membership.{In}
use orvo_agent.Value.{Value, get_field, str}
use orvo_agent.Run.Record.{ConnectorRunOutcome, ConnectorStatus}
use orvo_agent.External.Request.{has_executed_key, holds_text, is_succeeded}

-- The outcome is no execution of the key: if it is for the key, it neither succeeded nor is marked as
-- executed.
abbrev pub IsOther : String → ConnectorRunOutcome → Type 0
IsOther key o =
    get_field o.metadata "idempotency_key" ≡ some (str key)
    → (o.status ≢ ConnectorStatus.succeeded)
      × (get_field o.metadata "execution_state" ≢ some (str "executed"))

pub contains-In :
    (pairs : List (String × String)) (p : String × String) → contains pairs p ≡ true → In p pairs
contains-In [] p h = absurd (cc)
contains-In (q ∷ pairs) p h = elim (pair_eq.dec q p) [
  | yes e ↦ inl e
  | no n ↦ inr (contains-In pairs p (ground arith))
]

holds_text-of_str : (o : Option Value) (t : String) → o ≡ some (str t) → holds_text o t ≡ true
unfolding holds_text
holds_text-of_str o t e = rw e (ground arith)

not_both : (b : Bool) → b ≡ true → b ≡ false → ⊥
not_both b h k = cc

three_tests :
    (for_key done marked rest : Bool)
    → (if for_key then (if done then true else if marked then true else rest) else rest) ≡ false
    → (rest ≡ false) × (for_key ≡ true → (done ≡ false) × (marked ≡ false))
three_tests for_key done marked rest h = ground arith

succeeded_is : (s : ConnectorStatus) → s ≡ ConnectorStatus.succeeded → is_succeeded s ≡ true
succeeded_is s e = ap is_succeeded e

pub has_executed_key-IsOther :
    (outcomes : List ConnectorRunOutcome) (key : String)
    → has_executed_key outcomes key ≡ false
    → All (IsOther key) outcomes
unfolding has_executed_key
has_executed_key-IsOther [] key h = tt
has_executed_key-IsOther (o ∷ outcomes) key h =
    let (rest, tests) =
      three_tests (holds_text (get_field o.metadata "idempotency_key") key) (is_succeeded o.status)
        (holds_text (get_field o.metadata "execution_state") "executed")
        (has_executed_key outcomes key) h in
    (
      λ e.
          let (done, marked) = tests (holds_text-of_str _ key e) in
          (
            λ s. not_both (is_succeeded o.status) (succeeded_is o.status s) done,
            λ x.
                not_both (holds_text (get_field o.metadata "execution_state") "executed")
                  (holds_text-of_str (get_field o.metadata "execution_state") "executed" x) marked,
          ),
      has_executed_key-IsOther outcomes key rest,
    )
