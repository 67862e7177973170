-- ===== src/Model.antt =====
-- What the models of the brain share: exceptions, `datetime` arguments, and the validation that
-- pydantic does by `Field(..., min_length=1)` and on lists.
use orvo_agent.Base.{
  arith, ◌∙◌, >>=-eq-ok, ok-injective, sym, ap, map, ◌≡◌, [], ◌∷◌, ◌>>=◌, none, string_eq, true,
  ltb, ◌<>◌, some, false, ◌==◌, Bool, List, raise_if, Option, Result, ℕ, String, ok,
}

-- The exceptions of the modules, with their message.
pub data Error : Type 0 where
  value_error key_error status_error : String → Error

pub data Datetime : Type 0 where
  aware naive : ℕ → Datetime

-- `Field(..., min_length=1)` on the named field
unfoldable pub min_length : String → String → Result Error (Unit {0})
min_length name s =
    raise_if (s == "") (value_error (name <> ": String should have at least 1 character"))

-- Validation of each item of a list.
unfoldable pub validate_all : {A : Type 0} → (A → Result Error A) → List A → Result Error (List A)
validate_all f [] = ok []
validate_all f (x ∷ xs) = do y ← f x; ys ← validate_all f xs; ok (y ∷ ys)

-- `t is not None and t < bound`
unfoldable pub is_before : Option ℕ → ℕ → Bool
is_before none bound = false
is_before (some t) bound = ltb t bound

unfoldable pub is_set : {A : Type 0} → Option A → Bool
is_set none = false
is_set (some a) = true

-- Validating a list item by item keeps what validating an item keeps.
pub map-validate_all :
    {A K : Type 0} (f : A → Result Error A) (key : A → K)
    → ((x y : A) → f x ≡ ok y → key y ≡ key x)
    → (xs ys : List A) → validate_all f xs ≡ ok ys
    → map key ys ≡ map key xs
unfolding validate_all
map-validate_all f key each [] ys h = ap (map key) (sym (ok-injective h))
map-validate_all f key each (x ∷ xs) ys h =
    let (y, fy, r) = >>=-eq-ok (f x) _ h in
    let (zs, vz, q) = >>=-eq-ok (validate_all f xs) _ r in
    let e = each x y fy in
    let es = map-validate_all f key each xs zs vz in
    ap (map key) (sym (ok-injective q)) ∙ ground arith
