-- ===== src/Workflow/Mirror.antt =====
-- The SQLite store records as the in-memory store does.
use orvo_agent.Base.{
  if◌then◌else◌, ◌==◌, ℕ, String, true, false, none, some, List, [], ◌∷◌, ◌++◌, string_eq, pair_eq,
  All, map, ◌≢◌, ◌≡◌, refl, sym, ap, ◌∙◌, arith, Eq,
}
use orvo_agent.Base.Dict
use orvo_agent.Base.Dict.{Dict, NodupKeys, values, get-nil}
use orvo_agent.Redaction.Redactor.{Redactor}
use orvo_agent.Base.Offset.{has_z, from_z, with_z, with_z-nonempty, from_z-with_z}
use orvo_agent.Platform.{iso, Platform}
use orvo_agent.Workflow.Sqlite.{
  RequestRow, has_request, conflicts, ActionRow, parse_iso_or_now, Tables, json_dumps,
  json_loads_object, request_row, select_action, record_from_row, action_row, Codec,
}
use orvo_agent.Workflow.Record.{WorkflowActionLedgerWrite, WorkflowActionLedgerRecord}
use orvo_agent.Workflow.Ledger.{ActionStore}

pub All-of_get :
    {K V : Type 0} ⦃e : Eq K⦄ (Q : K → V → Type 0) (d : Dict K V)
    → NodupKeys d
    → ((k : K) (v : V) → Dict.get d k ≡ some v → Q k v)
    → All (λ (x : K × V). Q x.0 x.1) d
unfolding Dict.get
All-of_get Q [] n f = tt
All-of_get Q ((j, w) ∷ d) n f =
    (f j w (ground arith), All-of_get Q d n.1 (λ k v h. f k v (let fresh = n.0 in ground arith)))

pub put-new :
    {K V : Type 0} ⦃e : Eq K⦄ (d : Dict K V) (k : K) (v : V)
    → Dict.get d k ≡ none
    → values (Dict.put d k v) ≡ values d ++ (v ∷ [])
unfolding Dict.get Dict.put
put-new [] k v h = refl
put-new ((j, w) ∷ d) k v h = ground (arith, put-new d k v)

pub map-append_one :
    {A B : Type 0} (f : A → B) (xs : List A) (x : A)
    → map f (xs ++ (x ∷ [])) ≡ map f xs ++ (f x ∷ [])
map-append_one f [] x = refl
map-append_one f (y ∷ xs) x = ap (◌∷◌ (f y)) (map-append_one f xs x)

-- The record stands under its own key.
abbrev pub IsKeyed : String × String → WorkflowActionLedgerRecord → Type 0
IsKeyed k r = (r.business_id ≡ k.0) × (r.idempotency_key ≡ k.1)

module _ (P : Platform) (R : Redactor) (C : Codec) where
  -- The tables that hold what the in-memory store holds.
  unfoldable pub tables_of : ActionStore → Tables
  unfolding action_row request_row
  tables_of st = record {
    actions = map (action_row P R C) (values st.actions);
    requests = map (request_row P R C) (values st.approvals);
  }

  -- A record as it is read back.
  abbrev pub read_back : WorkflowActionLedgerRecord → WorkflowActionLedgerRecord
  read_back r = record_from_row P R C (action_row P R C r)

  abbrev pub read_write : WorkflowActionLedgerWrite → WorkflowActionLedgerWrite
  read_write w = record w { entry = read_back w.entry }

  -- `isoformat` writes no Z and no empty text, and `fromisoformat` reads what it writes.
  pub record ReadsTimes : Type 0 where
    pub read : (t : ℕ) → C.fromisoformat (P.isoformat t) ≡ t
    pub offset : (t : ℕ) → has_z (P.isoformat t) ≡ false
    pub nonempty : (t : ℕ) → P.isoformat t ≢ ""

  parse_iso_or_now-iso : ReadsTimes → (t : ℕ) → parse_iso_or_now P R C (iso P t) ≡ t
  unfolding parse_iso_or_now iso
  parse_iso_or_now-iso h t =
      let full : with_z (P.isoformat t) ≢ "" =
        with_z-nonempty (P.isoformat t) (h.offset t) (h.nonempty t) in
      otherwise (with_z (P.isoformat t)) full
      ∙ ap C.fromisoformat (from_z-with_z (P.isoformat t) (h.offset t))
      ∙ h.read t
    where
      otherwise :
          (s : String)
          → s ≢ ""
          → (if s == "" then P.now else C.fromisoformat (from_z s)) ≡ C.fromisoformat (from_z s)
      otherwise s n = ground arith

  -- If `isoformat` writes no Z and no empty text, and `fromisoformat` reads what it writes, then a
  -- record that is written to a row, with its times ending in Z for the offset of UTC, and read back, with
  -- the offset for the Z, is the same but for its parameters, which are redacted and then pass through
  -- JSON.
  pub record_from_row-action_row :
      (r : WorkflowActionLedgerRecord)
      → ReadsTimes
      → record_from_row P R C (action_row P R C r)
        ≡ record r { params = json_loads_object P R C (json_dumps P R C r.params) }
  unfolding record_from_row action_row
  record_from_row-action_row r h =
      rw (parse_iso_or_now-iso h r.created_at) (rw (parse_iso_or_now-iso h r.updated_at) refl)

  pub select_action-some :
      (d : Dict (String × String) WorkflowActionLedgerRecord) (b k : String)
      (r : WorkflowActionLedgerRecord)
      → All (λ (x : (String × String) × WorkflowActionLedgerRecord). IsKeyed x.0 x.1) d
      → Dict.get d (b, k) ≡ some r
      → select_action (map (action_row P R C) (values d)) b k ≡ some (action_row P R C r)
  unfolding select_action Dict.get action_row
  select_action-some [] b k r i h = absurd (cc)
  select_action-some ((j, s) ∷ d) b k r ((p, q), i) h = elim (pair_eq.dec j (b, k)) [
    | yes e ↦
        let pe : s.business_id ≡ b = p ∙ ap (λ (x : String × String). x.0) e in
        let qe : s.idempotency_key ≡ k = q ∙ ap (λ (x : String × String). x.1) e in ground arith
    | no n ↦
        let differ : ¬ ((s.business_id ≡ b) × (s.idempotency_key ≡ k)) =
          λ m. n (λ t. ((sym p ∙ m.0) t, (sym q ∙ m.1) t)) in
        ground (arith, select_action-some d b k r i)
  ]

  pub select_action-none :
      (d : Dict (String × String) WorkflowActionLedgerRecord) (b k : String)
      → All (λ (x : (String × String) × WorkflowActionLedgerRecord). IsKeyed x.0 x.1) d
      → Dict.get d (b, k) ≡ none
      → select_action (map (action_row P R C) (values d)) b k ≡ none
  unfolding select_action Dict.get action_row
  select_action-none [] b k i h = refl
  select_action-none ((j, s) ∷ d) b k ((p, q), i) h = elim (pair_eq.dec j (b, k)) [
    | yes e ↦ ground arith
    | no n ↦
        let differ : ¬ ((s.business_id ≡ b) × (s.idempotency_key ≡ k)) =
          λ m. n (λ t. ((sym p ∙ m.0) t, (sym q ∙ m.1) t)) in
        ground (arith, select_action-none d b k i)
  ]

-- The row at the end is the one that is selected, if no other has its key.
pub select_action-last :
    (rows : List ActionRow) (row : ActionRow)
    → select_action rows row.business_id row.idempotency_key ≡ none
    → select_action (rows ++ (row ∷ [])) row.business_id row.idempotency_key ≡ some row
unfolding select_action
select_action-last [] row h = ground arith
select_action-last (x ∷ rows) row h = ground (arith, select_action-last rows row)

pub conflicts_of_selected :
    (rows : List ActionRow) (row x : ActionRow)
    → select_action rows row.business_id row.idempotency_key ≡ some x
    → conflicts rows row ≡ true
unfolding select_action conflicts
conflicts_of_selected [] row x h = absurd (cc)
conflicts_of_selected (y ∷ rows) row x h = ground (arith, conflicts_of_selected rows row x)

pub conflicts-none :
    (rows : List ActionRow) (row : ActionRow)
    → All (λ (x : ActionRow). x.ledger_id ≢ row.ledger_id) rows
    → select_action rows row.business_id row.idempotency_key ≡ none
    → conflicts rows row ≡ false
unfolding select_action conflicts
conflicts-none [] row n h = refl
conflicts-none (y ∷ rows) row n h = let first = n.0 in ground (arith, conflicts-none rows row n.1)

pub has_request-none :
    (rows : List RequestRow) (id : String)
    → All (λ (x : RequestRow). x.approval_request_id ≢ id) rows
    → has_request rows id ≡ false
unfolding has_request
has_request-none [] id n = refl
has_request-none (q ∷ rows) id n = let first = n.0 in ground (arith, has_request-none rows id n.1)
