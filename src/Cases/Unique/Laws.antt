-- ===== src/Cases/Unique/Laws.antt =====
-- What the deduplication of app/brain/operational_cases.py keeps.
use orvo_agent.Base.{
  ap, String, false, not, ◌&&◌, ◌≡◌, refl, Option, none, some, List, [], ◌∷◌, ◌++◌, ◌==◌, string_eq,
  contains, map, arith, if◌then◌else◌,
}
use orvo_agent.Cases.Record.{Snapshot}
use orvo_agent.Cases.Unique.{unique, unique_snapshots, unique_by}

-- No text stands in the list twice.
abbrev pub AreDistinct : List String → Type 0
AreDistinct [] = Unit
AreDistinct (x ∷ xs) = (contains xs x ≡ false) × AreDistinct xs

-- The first item with the key.
abbrev pub first_with : {A : Type 0} → (A → String) → String → List A → Option A
first_with key k [] = none
first_with key k (x ∷ xs) = if key x == k then some x else first_with key k xs

module _ {A : Type 0} (key : A → String) where
  pub contains-unique_by :
      (seen : List String) (xs : List A) (k : String)
      → contains (map key (unique_by key seen xs)) k
        ≡ (contains (map key xs) k && not (contains seen k))
  unfolding unique_by
  contains-unique_by seen [] k = refl
  contains-unique_by seen (x ∷ xs) k =
      ground (arith, contains-unique_by seen xs k, contains-unique_by (key x ∷ seen) xs k)

  pub unique_by-AreDistinct :
      (seen : List String) (xs : List A) → AreDistinct (map key (unique_by key seen xs))
  unfolding unique_by
  unique_by-AreDistinct seen [] = tt
  unique_by-AreDistinct seen (x ∷ xs) = ground (
    arith,
    unique_by-AreDistinct seen xs,
    unique_by-AreDistinct (key x ∷ seen) xs,
    contains-unique_by (key x ∷ seen) xs (key x),
  )

  pub first_with-unique_by :
      (seen : List String) (xs : List A) (k : String)
      → first_with key k (unique_by key seen xs)
        ≡ (if contains seen k then none else first_with key k xs)
  unfolding unique_by
  first_with-unique_by seen [] k = ground arith
  first_with-unique_by seen (x ∷ xs) k =
      ground (arith, first_with-unique_by seen xs k, first_with-unique_by (key x ∷ seen) xs k)

  -- No key of the list was seen.
  abbrev Unseen : List String → List A → Type 0
  Unseen seen [] = Unit
  Unseen seen (x ∷ xs) = (contains seen (key x) ≡ false) × Unseen seen xs

  Unseen-cons :
      (k : String) (seen : List String) (xs : List A)
      → contains (map key xs) k ≡ false
      → Unseen seen xs
      → Unseen (k ∷ seen) xs
  Unseen-cons k seen [] absent u = tt
  Unseen-cons k seen (x ∷ xs) absent u = ground (arith, Unseen-cons k seen xs)

  Unseen-nil : (xs : List A) → Unseen [] xs
  Unseen-nil [] = tt
  Unseen-nil (x ∷ xs) = (refl, Unseen-nil xs)

  unique_by-append :
      (seen : List String) (xs ys : List A)
      → AreDistinct (map key xs)
      → Unseen seen xs
      → (rest : List A) × (unique_by key seen (xs ++ ys) ≡ xs ++ rest)
  unfolding unique_by
  unique_by-append seen [] ys d u = (unique_by key seen ys, refl)
  unique_by-append seen (x ∷ xs) ys d u =
      let (rest, e) =
        unique_by-append (key x ∷ seen) xs ys d.1 (Unseen-cons (key x) seen xs d.0 u.1) in
      (rest, rw u.0 (ap (◌∷◌ x) e))

-- Deduplicating snapshots leaves one for each key that stands in the list, the first one with it.
pub unique_snapshots-first :
    (snapshots : List Snapshot)
    → AreDistinct (map (λ s. s.snapshot_key) (unique_snapshots snapshots))
      × ((k : String)
          → first_with (λ s. s.snapshot_key) k (unique_snapshots snapshots)
            ≡ first_with (λ s. s.snapshot_key) k snapshots)
unfolding unique_snapshots
unique_snapshots-first snapshots = (
  unique_by-AreDistinct (λ s. s.snapshot_key) [] snapshots,
  λ k. first_with-unique_by (λ s. s.snapshot_key) [] snapshots k,
)

-- Merging new snapshots into snapshots with distinct keys keeps those in place and appends.
unique_snapshots-append :
    (existing added : List Snapshot)
    → AreDistinct (map (λ s. s.snapshot_key) existing)
    → (rest : List Snapshot) × (unique_snapshots (existing ++ added) ≡ existing ++ rest)
unfolding unique_snapshots
unique_snapshots-append existing added d =
    unique_by-append (λ s. s.snapshot_key) [] existing added d
      (Unseen-nil (λ s. s.snapshot_key) existing)

pub unique-AreDistinct_keeps :
    (values : List String)
    → AreDistinct (map (λ v. v) (unique values))
      × ((v : String)
          → contains (map (λ v. v) (unique values)) v ≡ contains (map (λ v. v) values) v)
unfolding unique
unique-AreDistinct_keeps values = (
  unique_by-AreDistinct (λ v. v) [] values,
  λ v. ground (arith, contains-unique_by (λ (w : String). w) [] values v),
)
