-- ===== src/Base/Offset.antt =====
-- `s.replace("+00:00", "Z")` and `s.replace("Z", "+00:00")`, and that the second undoes the first.
use Prim.Native.Nat.{ℕ, zero, suc}
use Prim.Native.Char.{Char}
use Prim.Native.String.{String, [], ◌∷◌, ◌++◌ as ◌<>◌}
use mathlib.Core.Path.{◌≡◌, ◌∙◌, refl, ap, sym}
use mathlib.Core.Logic.{inl, inr}
use mathlib.Core.Bool.{Bool, true, false, ◌&&◌, ◌||◌}
use native.Mathlib.Omega.{arith}
use text.Mathlib.TextLemmas.{nil-append, cons-append}
use orvo_agent.Base.Equality.{Bool-cases, ◌==◌, string_eq, if◌then◌else◌}

-- `s.startswith(prefix)`
abbrev pub begins : String → String → Bool
begins [] s = true
begins (c ∷ prefix) [] = false
begins (c ∷ prefix) (d ∷ s) = c ∷ [] == d ∷ [] && begins prefix s

-- the rest of a text after so many characters that a match takes
unfoldable pub with_z_after : ℕ → String → String
unfolding string_eq
with_z_after n [] = []
with_z_after (suc n) (c ∷ s) = with_z_after n s
with_z_after zero (c ∷ s) =
    let matched = with_z_after 5 s in
    let rest = with_z_after 0 s in if begins "+00:00" (c ∷ s) then "Z" <> matched else c ∷ rest

-- `s.replace("+00:00", "Z")`
unfoldable pub with_z : String → String
unfolding with_z_after
with_z s = with_z_after 0 s

-- `s.replace("Z", "+00:00")`
unfoldable pub from_z : String → String
unfolding string_eq
from_z [] = []
from_z (c ∷ s) = let rest = from_z s in if c ∷ [] == "Z" then "+00:00" <> rest else c ∷ rest

-- `"Z" in s`
abbrev pub has_z : String → Bool
has_z [] = false
has_z (c ∷ s) = c ∷ [] == "Z" || has_z s

abbrev after : ℕ → String → String
after zero s = s
after (suc n) [] = []
after (suc n) (c ∷ s) = after n s

abbrev size : String → ℕ
size [] = 0
size (c ∷ s) = suc (size s)

both : (a b : Bool) → (a && b) ≡ true → (a ≡ true) × (b ≡ true)
both a b h = ground arith

neither : (a b : Bool) → (a || b) ≡ false → (a ≡ false) × (b ≡ false)
neither a b h = ground arith

char_of_test : (s t : String) → (s == t) ≡ true → s ≡ t
char_of_test s t h = ground arith

onto-cons : (c : Char) (s : String) → (c ∷ []) <> s ≡ c ∷ s
onto-cons c s = cons-append c [] s ∙ ap (λ t. c ∷ t) (nil-append s)

begins-after : (p s : String) → begins p s ≡ true → p <> after (size p) s ≡ s
begins-after [] s h = nil-append s
begins-after (c ∷ p) [] h = absurd (cc)
begins-after (c ∷ p) (d ∷ s) h =
    let (e, t) = both (c ∷ [] == d ∷ []) (begins p s) h in
    cons-append c p (after (size p) s)
    ∙ ap (λ x. c ∷ x) (begins-after p s t)
    ∙ sym (onto-cons c s)
    ∙ ap (λ x. x <> s) (char_of_test (c ∷ []) (d ∷ []) e)
    ∙ onto-cons d s

from_z-with_z_after : (n : ℕ) (s : String) → has_z s ≡ false → from_z (with_z_after n s) ≡ after n s
unfolding from_z with_z_after
from_z-with_z_after zero [] h = refl
from_z-with_z_after (suc n) [] h = refl
from_z-with_z_after (suc n) (c ∷ s) h =
    from_z-with_z_after n s (neither (c ∷ [] == "Z") (has_z s) h).1
from_z-with_z_after zero (c ∷ s) h =
    let (plain, rest) = neither (c ∷ [] == "Z") (has_z s) h in
    elim (Bool-cases (begins "+00:00" (c ∷ s))) [
      | inl y ↦ rw y (
          ap from_z (onto-cons _ (with_z_after 5 s))
          ∙ ap (λ t. "+00:00" <> t) (from_z-with_z_after 5 s rest)
          ∙ begins-after "+00:00" (c ∷ s) y)
      | inr n ↦ rw n (rw plain (ap (λ t. c ∷ t) (from_z-with_z_after 0 s rest)))
    ]

pub from_z-with_z : (s : String) → has_z s ≡ false → from_z (with_z s) ≡ s
unfolding with_z
from_z-with_z s h = from_z-with_z_after 0 s h

-- The text with Z is not empty, if the text is not.
pub with_z-nonempty : (s : String) → has_z s ≡ false → ¬ (s ≡ "") → ¬ (with_z s ≡ "")
unfolding from_z
with_z-nonempty s h n e = n (sym (from_z-with_z s h) ∙ ap from_z e)
