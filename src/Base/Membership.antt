-- ===== src/Base/Membership.antt =====
-- Where an item stands in a list, and what filters, sorts, maps and dictionaries do to it.
use mathlib.Core.Path.{◌≡◌, refl, ap, sym}
use mathlib.Core.Bool.{Bool, true}
use mathlib.Core.Logic.{◌⊎◌, inl, inr}
use mathlib.Core.Option.{some}
use mathlib.Core.List.{List, [], ◌∷◌}
use native.Mathlib.Omega.{arith}
use orvo_agent.Base.Equality.{Bool-cases, Eq}
use orvo_agent.Base.Lists.{filter, map, Never}
use orvo_agent.Base.Sort.{sort_by, insert_by}
use orvo_agent.Base.Dict.{Dict, get, values, NodupKeys}
use orvo_agent.Base.{◌∙◌}

-- a place of the item in the list
abbrev pub In {ℓ} : {A : Type ℓ} → A → List A → Type ℓ
In a [] = Never
In a (x ∷ xs) = (x ≡ a) ⊎ In a xs

module _ {ℓ} {A : Type ℓ} where
  pub In-filter : (p : A → Bool) (a : A) (xs : List A) → In a xs → p a ≡ true → In a (filter p xs)
  unfolding filter
  In-filter p a [] m h = elim m [ ]
  In-filter p a (x ∷ xs) (inl e) h = rw (ap p e) (rw h (inl e))
  In-filter p a (x ∷ xs) (inr m) h = elim (Bool-cases (p x)) [
    | inl y ↦ rw y (inr (In-filter p a xs m h))
    | inr n ↦ rw n (In-filter p a xs m h)
  ]

  pub In-of_filter :
      (p : A → Bool) (a : A) (xs : List A) → In a (filter p xs) → In a xs × (p a ≡ true)
  unfolding filter
  In-of_filter p a [] m = elim m [ ]
  In-of_filter p a (x ∷ xs) m = elim (Bool-cases (p x)) [
    | inl y ↦ elim (rw y at m) [
      | inl e ↦ (inl e, sym (ap p e) ∙ y)
      | inr t ↦ let (i, h) = In-of_filter p a xs t in (inr i, h)
    ]
    | inr n ↦ let (i, h) = In-of_filter p a xs (rw n at m) in (inr i, h)
  ]

module _ {A : Type 0} (le : A → A → Bool) where
  In-insert_by : (a x : A) (xs : List A) → (x ≡ a) ⊎ In a xs → In a (insert_by le x xs)
  unfolding insert_by
  In-insert_by a x [] m = m
  In-insert_by a x (y ∷ ys) m = elim (Bool-cases (le x y)) [
    | inl e ↦ rw e m
    | inr e ↦ rw e (elim m [
      | inl h ↦ inr (In-insert_by a x ys (inl h))
      | inr (inl h) ↦ inl h
      | inr (inr h) ↦ inr (In-insert_by a x ys (inr h))
    ])
  ]

  pub In-sort_by : (a : A) (xs : List A) → In a xs → In a (sort_by le xs)
  unfolding sort_by
  In-sort_by a [] m = m
  In-sort_by a (x ∷ xs) (inl e) = In-insert_by a x _ (inl e)
  In-sort_by a (x ∷ xs) (inr m) = In-insert_by a x _ (inr (In-sort_by a xs m))

  In-of_insert_by : (a x : A) (xs : List A) → In a (insert_by le x xs) → (x ≡ a) ⊎ In a xs
  unfolding insert_by
  In-of_insert_by a x [] m = m
  In-of_insert_by a x (y ∷ ys) m = elim (Bool-cases (le x y)) [
    | inl e ↦ rw e at m
    | inr e ↦ elim (rw e at m) [
      | inl h ↦ inr (inl h)
      | inr t ↦ elim (In-of_insert_by a x ys t) [ inl h ↦ inl h | inr h ↦ inr (inr h) ]
    ]
  ]

  pub In-of_sort_by : (a : A) (xs : List A) → In a (sort_by le xs) → In a xs
  unfolding sort_by
  In-of_sort_by a [] m = m
  In-of_sort_by a (x ∷ xs) m = elim (In-of_insert_by a x _ m) [
    | inl e ↦ inl e
    | inr t ↦ inr (In-of_sort_by a xs t)
  ]

module _ {ℓ κ} {A : Type ℓ} {B : Type κ} where
  pub In-map : (f : A → B) (a : A) (xs : List A) → In a xs → In (f a) (map f xs)
  In-map f a [] m = elim m [ ]
  In-map f a (x ∷ xs) (inl e) = inl (ap f e)
  In-map f a (x ∷ xs) (inr m) = inr (In-map f a xs m)

  pub In-of_map :
      (f : A → B) (b : B) (xs : List A) → In b (map f xs) → (a : A) × In a xs × (f a ≡ b)
  In-of_map f b [] m = elim m [ ]
  In-of_map f b (x ∷ xs) (inl e) = (x, inl refl, e)
  In-of_map f b (x ∷ xs) (inr m) = let (a, i, e) = In-of_map f b xs m in (a, inr i, e)

module _ {ℓ κ} {K : Type ℓ} {V : Type κ} ⦃e : Eq K⦄ where
  pub In-values : (d : Dict K V) (k : K) (v : V) → get d k ≡ some v → In v (values d)
  unfolding get
  In-values [] k v h = absurd (cc)
  In-values ((j, w) ∷ d) k v h = ground (arith, In-values d k v)

  pub In-of_values :
      (d : Dict K V) (v : V) → NodupKeys d → In v (values d) → (k : K) × (get d k ≡ some v)
  unfolding get
  In-of_values [] v n m = elim m [ ]
  In-of_values ((j, w) ∷ d) v n (inl h) = (j, ground arith)
  In-of_values ((j, w) ∷ d) v n (inr m) = let (k, h) = In-of_values d v n.1 m in (k, ground arith)
