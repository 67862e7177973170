-- ===== src/Workflow/Rows.antt =====
-- What SELECT and UPDATE on the rows of a dictionary are on the dictionary.
use orvo_agent.Base.{
  Bool, true, false, none, some, List, [], ◌∷◌, string_eq, pair_eq, All, map, ◌≢◌, ◌≡◌, refl, sym,
  ap, ◌∙◌, arith, Eq,
}
use orvo_agent.Base.Dict
use orvo_agent.Base.Dict.{Dict, NodupKeys, values, get-nil}
use orvo_agent.Workflow.Updates.{update_where, fetch_one}

-- A row that an UPDATE changed is selected as it is now.
pub fetch_one-update_where :
    {A : Type 0} (p : A → Bool) (f : A → A) (xs : List A) (x : A)
    → ((y : A) → p (f y) ≡ p y)
    → fetch_one p xs ≡ some x
    → fetch_one p (update_where p f xs) ≡ some (f x)
unfolding fetch_one update_where
fetch_one-update_where p f [] x k h = absurd (cc)
fetch_one-update_where p f (y ∷ xs) x k h = ground (arith, k y, fetch_one-update_where p f xs x k)

update_where-none :
    {K V A : Type 0} (p : A → Bool) (f : A → A) (row : V → A) (d : Dict K V)
    → All (λ (e : K × V). p (row e.1) ≡ false) d
    → update_where p f (map row (values d)) ≡ map row (values d)
unfolding update_where
update_where-none p f row [] n = refl
update_where-none p f row ((j, w) ∷ d) n =
    rw n.0 (ap (◌∷◌ (row w)) (update_where-none p f row d n.1))

not-true : (b : Bool) → ¬ (b ≡ true) → b ≡ false
not-true true n = absurd (n refl)
not-true false n = refl

All-both :
    {A : Type 0} {Q S T : A → Type 0} (xs : List A)
    → All Q xs
    → All S xs
    → ((x : A) → Q x → S x → T x)
    → All T xs
All-both [] q s f = tt
All-both (x ∷ xs) q s f = (f x q.0 s.0, All-both xs q.1 s.1 f)

module _ {K V : Type 0} ⦃e : Eq K⦄ where
  keys_differ : (d : Dict K V) (k : K) → Dict.get d k ≡ none → All (λ (x : K × V). x.0 ≢ k) d
  unfolding Dict.get
  keys_differ [] k h = tt
  keys_differ ((j, w) ∷ d) k h = (λ same. ground arith, keys_differ d k (ground arith))

  head_value : (d : Dict K V) (j k : K) (w v : V) → j ≡ k → Dict.get ((j, w) ∷ d) k ≡ some v → w ≡ v
  unfolding Dict.get
  head_value d j k w v same h = ground arith

  put-head : (d : Dict K V) (j k : K) (w v : V) → j ≡ k → (j, v) ∷ d ≡ Dict.put ((j, w) ∷ d) k v
  unfolding Dict.put
  put-head d j k w v same = ground arith

  put-tail :
      (d : Dict K V) (j k : K) (w v : V)
      → j ≢ k
      → (j, w) ∷ Dict.put d k v ≡ Dict.put ((j, w) ∷ d) k v
  unfolding Dict.put
  put-tail d j k w v other = ground arith

-- An UPDATE of the one row of a key writes that key.
pub update_where-put :
    {K V A : Type 0} ⦃e : Eq K⦄ (p : A → Bool) (f : A → A) (row : V → A) (d : Dict K V) (k : K)
    (v after : V)
    → NodupKeys d
    → All (λ (x : K × V). p (row x.1) ≡ true → x.0 ≡ k) d
    → Dict.get d k ≡ some v
    → p (row v) ≡ true
    → f (row v) ≡ row after
    → update_where p f (map row (values d)) ≡ map row (values (Dict.put d k after))
unfolding update_where Dict.get
update_where-put p f row [] k v after n m g h q = absurd (cc)
update_where-put ⦃e⦄ p f row ((j, w) ∷ d) k v after n m g h q = elim (e.dec j k) [
  | yes same ↦
      let value : w ≡ v = head_value ⦃e = e⦄ d j k w v same g in
      let hit : p (row w) ≡ true = ap (λ x. p (row x)) value ∙ h in
      let changed : f (row w) ≡ row after = ap (λ x. f (row x)) value ∙ q in
      let rest = update_where-none p f row d (
        All-both d m.1 (keys_differ ⦃e = e⦄ d k (ap (Dict.get d) (sym same) ∙ n.0))
          (λ x y z. not-true (p (row x.1)) (λ t. z (y t)))) in
      rw hit (rw changed (rw rest (ap (map row) (ap values (put-head ⦃e = e⦄ d j k w after same)))))
  | no other ↦
      let miss : p (row w) ≡ false = not-true (p (row w)) (λ t. other (m.0 t)) in
      let tail : Dict.get d k ≡ some v = ground arith in
      let rest = update_where-put ⦃e = e⦄ p f row d k v after n.1 m.1 tail h q in
      rw miss (rw rest (ap (map row) (ap values (put-tail ⦃e = e⦄ d j k w after other))))
]
