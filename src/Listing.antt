-- ===== src/Listing.antt =====
-- How the in-memory stores list their records: two optional filters, a sort, a limit.
use mathlib.Core.List.{Perm}
use orvo_agent.Base.{
  ℕ, zero, leb, if◌then◌else◌, ◌&&◌, ◌∙◌, ap, Bool-cases, inl, inr, arith, nat_eq, take-prefix,
  subst, append_nil, suc, sym, ◌-◌, false, true, ◌++◌, length, ◌≡◌, Bool, List, Option, take,
  filter, refl, none, some, [], ◌∷◌,
}
use orvo_agent.Value.{ℤ, pos, negsuc}
use orvo_agent.Base.Sort.{sort_by-Perm, sort_by-IsSorted, IsSorted, sort_by}

-- `if value is not None: records = [...]`
unfoldable pub narrow : {A B : Type 0} → Option B → (B → A → Bool) → List A → List A
unfolding filter
narrow none p xs = xs
narrow (some b) p xs = filter (p b) xs

-- `if limit is not None: records = records[:limit]`
unfoldable pub limited : {A : Type 0} → Option ℤ → List A → List A
unfolding take
limited none xs = xs
limited (some (pos n)) xs = take n xs
limited (some (negsuc n)) xs = take (length xs - suc n) xs

-- How many of so many records a limit leaves: as many as it says, and with a negative one all but as
-- many as it says from the end.
abbrev pub kept : Option ℤ → ℕ → ℕ
kept none n = n
kept (some (pos k)) n = if leb k n then k else n
kept (some (negsuc k)) n = n - suc k

length-take :
    {A : Type 0} (n : ℕ) (xs : List A)
    → length (take n xs) ≡ (if leb n (length xs) then n else length xs)
unfolding take
length-take zero xs = ground arith
length-take (suc n) [] = ground arith
length-take (suc n) (x ∷ xs) = ground (arith, length-take n xs)

limited-prefix :
    {A : Type 0} (limit : Option ℤ) (xs : List A)
    → (rest : List A) × (xs ≡ limited limit xs ++ rest)
      × (length (limited limit xs) ≡ kept limit (length xs))
unfolding limited
limited-prefix none xs = ([], sym (append_nil xs), refl)
limited-prefix (some (pos n)) xs = let (rest, e) = take-prefix n xs in (rest, e, length-take n xs)
limited-prefix (some (negsuc n)) xs =
    let (rest, e) = take-prefix (length xs - suc n) xs in
    (rest, e, let h = length-take (length xs - suc n) xs in ground arith)

-- Whether a record has what a filter asks for; a filter that is not given asks for nothing.
abbrev pub passes : {A B : Type 0} → Option B → (B → A → Bool) → A → Bool
passes none p a = true
passes (some b) p a = p b a

filter-all : {A : Type 0} (xs : List A) → filter (λ _. true) xs ≡ xs
unfolding filter
filter-all [] = refl
filter-all (x ∷ xs) = ap (◌∷◌ x) (filter-all xs)

narrow_lem :
    {A B : Type 0} (o : Option B) (p : B → A → Bool) (xs : List A)
    → narrow o p xs ≡ filter (passes o p) xs
unfolding narrow
narrow_lem none p xs = sym (filter-all xs)
narrow_lem (some b) p xs = refl

filter-filter :
    {A : Type 0} (p q : A → Bool) (xs : List A)
    → filter q (filter p xs) ≡ filter (λ x. p x && q x) xs
unfolding filter
filter-filter p q [] = refl
filter-filter p q (x ∷ xs) = elim (Bool-cases (p x)) [
  | inl y ↦ elim (Bool-cases (q x)) [
    | inl z ↦ rw y (rw z (ap (◌∷◌ x) (filter-filter p q xs)))
    | inr z ↦ rw y (rw z (filter-filter p q xs))
  ]
  | inr n ↦ rw n (filter-filter p q xs)
]

module _ {A B C : Type 0} (le : A → A → Bool) (p : B → A → Bool) (q : C → A → Bool) where
  unfoldable pub listing : List A → Option B → Option C → Option ℤ → List A
  unfolding narrow limited sort_by
  listing records b c limit = limited limit (sort_by le (narrow c q (narrow b p records)))

  -- `listed` is the start of an ordering of all the records that meet both filters, and as long as the
  -- limit says.
  abbrev pub IsListing : List A → Option B → Option C → Option ℤ → List A → Type 0
  IsListing records b c limit listed =
      (rest : List A) × IsSorted le (listed ++ rest)
      × Perm (listed ++ rest) (filter (λ x. passes b p x && passes c q x) records)
      × (length listed ≡ kept limit (length (listed ++ rest)))

  narrow-narrow :
      (b : Option B) (c : Option C) (records : List A)
      → narrow c q (narrow b p records) ≡ filter (λ x. passes b p x && passes c q x) records
  narrow-narrow b c records =
      narrow_lem c q (narrow b p records)
      ∙ ap (filter (passes c q)) (narrow_lem b p records)
      ∙ filter-filter (passes b p) (passes c q) records

  pub listing-IsListing :
      ((x y : A) → le x y ≡ false → le y x ≡ true)
      → ((x y z : A) → le x y ≡ true → le y z ≡ true → le x z ≡ true)
      → (records : List A) (b : Option B) (c : Option C) (limit : Option ℤ)
      → IsListing records b c limit (listing records b c limit)
  unfolding listing
  listing-IsListing total trans records b c limit =
      let mine = narrow c q (narrow b p records) in
      let (rest, e, n) = limited-prefix limit (sort_by le mine) in
      (
        rest,
        subst (IsSorted le) e (sort_by-IsSorted le total trans mine),
        subst (λ z. Perm z (filter (λ x. passes b p x && passes c q x) records)) e
            (subst (Perm (sort_by le mine)) (narrow-narrow b c records) (sort_by-Perm le mine)),
        n ∙ ap (λ z. kept limit (length z)) e,
      )
