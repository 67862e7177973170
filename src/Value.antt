-- ===== src/Value.antt =====
-- Values of a dynamic language: what `dict[str, Any]` metadata, payloads and parameters hold.
-- The keys of a dict are texts, as in JSON.
use native.Mathlib.Decide.{ℕ_discrete}
use orvo_agent.Base.{Eq, String, ℕ, Bool, true, false, Option, none, some, if◌then◌else◌}
use orvo_agent.Base.{◌==◌, string_eq, List, [], ◌∷◌}

-- `negsuc n` is -(n + 1).
pub data ℤ : Type 0 where
  pos : ℕ → ℤ
  negsuc : ℕ → ℤ

pub ℤ-discrete : Discrete ℤ
ℤ-discrete = hlevel (ℕ_discrete)

instance unfoldable pub int_eq : Eq ℤ
unfolding ℤ-discrete
int_eq = record { dec = ℤ-discrete }

-- `other r` is a value of any other type (a float, a date), by its `repr`.
mutual
  pub data Value : Type 0 where
    null : Value
    bool : Bool → Value
    int : ℤ → Value
    str : String → Value
    list : Items → Value
    tuple : Items → Value
    dict : Fields → Value
    other : String → Value

  pub data Items : Type 0 where
    nil : Items
    cons : Value → Items → Items

  pub data Fields : Type 0 where
    end : Fields
    field : String → Value → Fields → Fields

-- `d.get(k)`
unfoldable pub get_field : Fields → String → Option Value
get_field end k = none
get_field (field j v d) k = if j == k then some v else get_field d k

-- `d[k] = v`
unfoldable pub put_field : Fields → String → Value → Fields
put_field end k v = field k v end
put_field (field j w d) k v = if j == k then field j v d else field j w (put_field d k v)

-- `{**d, **e}`
unfoldable pub merge_fields : Fields → Fields → Fields
unfolding put_field
merge_fields d end = d
merge_fields d (field k v e) = merge_fields (put_field d k v) e

-- `not d`
abbrev pub no_fields : Fields → Bool
no_fields end = true
no_fields (field k v d) = false

-- `isinstance(v, str)`, with the text
abbrev pub as_text : Value → Option String
as_text (str s) = some s
as_text _ = none

-- `{"k": v, ...}`, with the keys distinct
abbrev pub fields_of : List (String × Value) → Fields
fields_of [] = end
fields_of ((k, v) ∷ d) = field k v (fields_of d)
