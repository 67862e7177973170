-- ===== src/Auth/Commas.antt =====
-- The items between the commas of a text are the texts without a comma that it joins.
use Prim.Native.Char.{Char}
use Prim.Native.String.{[] as end_of_text, ◌∷◌ as cons_char}
use text.Mathlib.TextLemmas.{nil-append, cons-append}
use orvo_agent.Base.{
  String, ◌<>◌, Bool, false, true, ◌||◌, List, [], ◌∷◌, ◌≡◌, refl, ap, ◌∙◌, sym, All, arith,
  string_eq, ◌==◌, Bool-cases, inl, inr,
}
use orvo_agent.Auth.{split_commas, onto_head}

abbrev join_from : String → List String → String
join_from item [] = item
join_from item (next ∷ items) = item <> "," <> join_from next items

-- `",".join(items)`
abbrev pub join_commas : List String → String
join_commas [] = ""
join_commas (item ∷ items) = join_from item items

abbrev pub has_comma : String → Bool
has_comma end_of_text = false
has_comma (cons_char c s) = cons_char c end_of_text == "," || has_comma s

split_commas-cons :
    (s : String) → (item : String) × (items : List String) × (split_commas s ≡ item ∷ items)
unfolding split_commas
split_commas-cons end_of_text = ("", [], refl)
split_commas-cons (cons_char c s) =
    let (item, items, e) = split_commas-cons s in
    elim (Bool-cases (cons_char c end_of_text == ",")) [
      | inl y ↦ ("", split_commas s, rw y refl)
      | inr n ↦ (cons_char c end_of_text <> item, items, rw n (rw e (unfold onto_head in refl)))
    ]

onto-cons : (c : Char) (s : String) → cons_char c end_of_text <> s ≡ cons_char c s
onto-cons c s = cons-append c end_of_text s ∙ ap (cons_char c) (nil-append s)

join_from-onto_head :
    (c : Char) (items : List String)
    → join_commas (onto_head (cons_char c end_of_text) items) ≡ cons_char c (join_commas items)
unfolding onto_head
join_from-onto_head c [] = refl
join_from-onto_head c (item ∷ []) = onto-cons c item
join_from-onto_head c (item ∷ next ∷ items) =
    ap (λ t. t <> "," <> join_from next items) (onto-cons c item)
    ∙ cons-append c item ("," <> join_from next items)

comma_of_test : (c : Char) → (cons_char c end_of_text == ",") ≡ true → cons_char c end_of_text ≡ ","
comma_of_test c h = ground arith

join_commas-comma :
    (items : List String) (item : String) (more : List String)
    → items ≡ item ∷ more
    → join_commas ("" ∷ items) ≡ "," <> join_commas items
join_commas-comma items item more e = rw e (nil-append ("," <> join_from item more))

pub join_commas-split_commas : (s : String) → join_commas (split_commas s) ≡ s
unfolding split_commas
join_commas-split_commas end_of_text = refl
join_commas-split_commas (cons_char c s) =
    let (item, items, e) = split_commas-cons s in
    elim (Bool-cases (cons_char c end_of_text == ",")) [
      | inl y ↦ rw y (
          join_commas-comma (split_commas s) item items e
          ∙ ap (λ t. "," <> t) (join_commas-split_commas s)
          ∙ ap (λ t. t <> s) (sym (comma_of_test c y))
          ∙ onto-cons c s)
      | inr n ↦
          rw n
            (join_from-onto_head c (split_commas s) ∙ ap (cons_char c) (join_commas-split_commas s))
    ]

no_comma-cons :
    (c : Char) (s : String)
    → (cons_char c end_of_text == ",") ≡ false
    → has_comma s ≡ false
    → has_comma (cons_char c s) ≡ false
no_comma-cons c s n h = rw n h

onto_head-no_comma :
    (c : Char) (items : List String)
    → (cons_char c end_of_text == ",") ≡ false
    → All (λ item. has_comma item ≡ false) items
    → All (λ item. has_comma item ≡ false) (onto_head (cons_char c end_of_text) items)
unfolding onto_head
onto_head-no_comma c [] n a = (no_comma-cons c end_of_text n refl, tt)
onto_head-no_comma c (item ∷ items) n a =
    (ap has_comma (onto-cons c item) ∙ no_comma-cons c item n a.0, a.1)

pub split_commas-no_comma : (s : String) → All (λ item. has_comma item ≡ false) (split_commas s)
unfolding split_commas
split_commas-no_comma end_of_text = (refl, tt)
split_commas-no_comma (cons_char c s) = elim (Bool-cases (cons_char c end_of_text == ",")) [
  | inl y ↦ rw y ((refl, split_commas-no_comma s))
  | inr n ↦ rw n (onto_head-no_comma c (split_commas s) n (split_commas-no_comma s))
]
