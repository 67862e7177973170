-- ===== src/Cases/Calls/Invariant.antt =====
-- What holds of every store that a sequence of calls leaves: the stored cases are valid, and a
-- business has at most one case for a dedupe key.
use orvo_agent.Base.{
  ◌∷◌, [], raise, ap, ok, ◌∙◌, inr, subst, sym, arith, List, ◌⊎◌, some, inl, ◌≡◌, String,
}
use orvo_agent.Cases.Store.{Outcome, IsLawful, StoreOps}
use orvo_agent.Redaction.Redactor.{Redactor}
use orvo_agent.Cases.Record.{Case}
use orvo_agent.Cases.Detection.{Host}
use orvo_agent.Cases.Validity.{IsValid}
use orvo_agent.Cases.Calls.Defs.{perform, Call, run}
use orvo_agent.Cases.Calls.Step.{created, perform-Stepped, Stepped, continued, Origin}

module _ {St : Type 0} (S : StoreOps St) where
  abbrev pub AllValid : St → Type 0
  AllValid st = (id : String) (c : Case) → S.get_case st id ≡ some c → IsValid c

  -- The dedupe key of a business determines the case.
  abbrev pub OnePerKey : St → Type 0
  OnePerKey st =
      (id id' : String) (c c' : Case)
      → S.get_case st id ≡ some c
      → S.get_case st id' ≡ some c'
      → c.business_id ≡ c'.business_id
      → c.dedupe_key ≡ c'.dedupe_key
      → id ≡ id'

  pub record Sound (Inv : St → Type 0) (st : St) : Type 0 where
    pub inv : Inv st
    pub all_valid : AllValid st
    pub one_per_key : OnePerKey st

module _ {St : Type 0} (S : StoreOps St) (R : Redactor) {Inv : St → Type 0}
    (L : IsLawful S Inv) where
  -- A case with the key of the saved one stands under its id, before and after.
  Claims : St → Case → Type 0
  Claims st c' =
      (id : String) (c : Case)
      → S.get_case st id ≡ some c
      → c.business_id ≡ c'.business_id
      → c.dedupe_key ≡ c'.dedupe_key
      → id ≡ c'.case_id

  Claims-of_Origin :
      (st : St) (H : Host) (call : Call) (c' : Case)
      → Sound S Inv st
      → Origin S R st H call c'
      → Claims st c'
  unfolding Claims
  Claims-of_Origin st H call c' s (continued c g k m) id d gd b e =
      let (_, x) = k.1 in
      s.one_per_key id c'.case_id d c gd g (b ∙ x.business_id) (e ∙ x.dedupe_key)
  Claims-of_Origin st H call c' s (created d n g) id c gc b e =
      absurd
        (L.find-none st d.business_id d.dedupe_key id c g gc (b ∙ n.business_id, e ∙ n.dedupe_key))

  get-persist_cases :
      (st : St) (c' : Case) (id : String) (c : Case)
      → S.get_case (S.persist st c') id ≡ some c
      → ((c'.case_id ≡ id) × (c ≡ c')) ⊎ (S.get_case st id ≡ some c)
  get-persist_cases st c' id c h = ground (arith, L.get-persist st c' id)

  one_id_of_cases :
      (st : St) (c' : Case)
      → Sound S Inv st
      → Claims st c'
      → (id id' : String) (c d : Case)
      → ((c'.case_id ≡ id) × (c ≡ c')) ⊎ (S.get_case st id ≡ some c)
      → ((c'.case_id ≡ id') × (d ≡ c')) ⊎ (S.get_case st id' ≡ some d)
      → c.business_id ≡ d.business_id
      → c.dedupe_key ≡ d.dedupe_key
      → id ≡ id'
  unfolding Claims
  one_id_of_cases st c' s k id id' c d (inl p) (inl q) b e = sym p.0 ∙ q.0
  one_id_of_cases st c' s k id id' c d (inl p) (inr q) b e =
      sym p.0
      ∙ sym (
          k id' d q (sym b ∙ ap (λ (x : Case). x.business_id) p.1)
            (sym e ∙ ap (λ (x : Case). x.dedupe_key) p.1))
  one_id_of_cases st c' s k id id' c d (inr p) (inl q) b e =
      k id c p (b ∙ ap (λ (x : Case). x.business_id) q.1) (e ∙ ap (λ (x : Case). x.dedupe_key) q.1)
      ∙ q.0
  one_id_of_cases st c' s k id id' c d (inr p) (inr q) b e = s.one_per_key id id' c d p q b e

  persist-Sound :
      (st : St) (c' : Case)
      → Sound S Inv st
      → IsValid c'
      → Claims st c'
      → Sound S Inv (S.persist st c')
  unfolding Claims
  persist-Sound st c' s v k = record {
    inv = L.persist-Inv st c' s.inv;
    all_valid = λ id c h. elim (get-persist_cases st c' id c h) [
      | inl p ↦ subst IsValid (sym p.1) v
      | inr g ↦ s.all_valid id c g
    ];
    one_per_key = λ id id' c d h h' b e.
        one_id_of_cases st c' s k id id' c d (get-persist_cases st c' id c h)
          (get-persist_cases st c' id' d h') b e;
  }

  Sound-of_Stepped :
      (st : St) (H : Host) (call : Call) (out : Outcome St)
      → Sound S Inv st
      → Stepped S R st H call out
      → Sound S Inv out.1
  Sound-of_Stepped st H call (ok c', st') s k =
      subst (Sound S Inv) (sym k.0)
        (persist-Sound st c' s k.1.0 (Claims-of_Origin st H call c' s k.1.1))
  Sound-of_Stepped st H call (raise e, st') s k = subst (Sound S Inv) (sym k) s

  pub perform-Sound :
      (st : St) (H : Host) (call : Call) → Sound S Inv st → Sound S Inv (perform S R st H call).1
  perform-Sound st H call s =
      Sound-of_Stepped st H call (perform S R st H call) s (perform-Stepped S R L st H call s.inv)

  -- Over any lawful store: from a state whose cases are valid and have distinct dedupe keys per
  -- business, every sequence of calls, failed ones included, leads to such a state.
  pub run-Sound :
      (st : St) (calls : List (Host × Call)) → Sound S Inv st → Sound S Inv (run S R st calls)
  unfolding run
  run-Sound st [] s = s
  run-Sound st ((H, call) ∷ calls) s =
      run-Sound (perform S R st H call).1 calls (perform-Sound st H call s)
