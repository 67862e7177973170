-- ===== src/Run/Metadata.antt =====
-- `redact_metadata` of app/brain/run_ledger.py.
use orvo_agent.Base.{string_eq, false, true, ◌==◌, if◌then◌else◌, ◌≡◌, String, refl}
use orvo_agent.Value.{
  Value, Items, Fields, list, dict, tuple, nil, cons, end, field, null, bool, int, str, other,
}
use orvo_agent.Redaction.Engine.{Engine}
use orvo_agent.Redaction.Secrets.{redact_fields, masked, redact_secrets}
use orvo_agent.Redaction.Text.{normalized_key}

-- `{str(k): "[REDACTED]" for k in d}`
unfoldable pub mask_fields : Fields → Fields
mask_fields end = end
mask_fields (field k v d) = field k masked (mask_fields d)

-- `["[REDACTED]" for _ in xs]`
unfoldable pub mask_items : Items → Items
mask_items nil = nil
mask_items (cons v xs) = cons masked (mask_items xs)

-- what replaces the value under a `secret_refs` key
unfoldable pub mask_refs : Value → Value
unfolding mask_fields mask_items
mask_refs (dict d) = dict (mask_fields d)
mask_refs (list xs) = list (mask_items xs)
mask_refs _ = masked

-- The value under a key, from itself and from its redacted value.
unfoldable pub ledger_entry : Engine → String → Value → Value → Value
unfolding mask_refs
ledger_entry E k v inner = if normalized_key E k == "secret_refs" then mask_refs v else inner

-- `_redact_run_ledger_secret_refs`
unfoldable mutual
  unfolding ledger_entry

  pub redact_run_ledger_secret_refs : Engine → Value → Value
  redact_run_ledger_secret_refs E null = null
  redact_run_ledger_secret_refs E (bool b) = bool b
  redact_run_ledger_secret_refs E (int n) = int n
  redact_run_ledger_secret_refs E (str s) = str s
  redact_run_ledger_secret_refs E (other r) = other r
  redact_run_ledger_secret_refs E (dict d) = dict (redact_ledger_fields E d)
  redact_run_ledger_secret_refs E (list xs) = list (redact_ledger_items E xs)
  redact_run_ledger_secret_refs E (tuple xs) = tuple (redact_ledger_items E xs)

  pub redact_ledger_items : Engine → Items → Items
  redact_ledger_items E nil = nil
  redact_ledger_items E (cons v xs) =
      cons (redact_run_ledger_secret_refs E v) (redact_ledger_items E xs)

  pub redact_ledger_fields : Engine → Fields → Fields
  redact_ledger_fields E end = end
  redact_ledger_fields E (field k v d) =
      field k (ledger_entry E k v (redact_run_ledger_secret_refs E v)) (redact_ledger_fields E d)

-- `redact_metadata`, of a dict
unfoldable pub redact_metadata : Engine → Fields → Fields
unfolding redact_secrets redact_run_ledger_secret_refs
redact_metadata E d = redact_ledger_fields E (redact_fields E d)

-- Nothing but the mask, at most under the names of the references or as a list.
abbrev pub AllMasked : Fields → Type 0
AllMasked end = Unit
AllMasked (field k v d) = (v ≡ masked) × AllMasked d

abbrev pub ItemsMasked : Items → Type 0
ItemsMasked nil = Unit
ItemsMasked (cons v xs) = (v ≡ masked) × ItemsMasked xs

abbrev pub IsMaskedRefs : Value → Type 0
IsMaskedRefs (dict d) = AllMasked d
IsMaskedRefs (list xs) = ItemsMasked xs
IsMaskedRefs v = v ≡ masked

-- At any depth, a `secret_refs` key holds no reference.
abbrev mutual
  pub HasNoRefs : Engine → Value → Type 0
  HasNoRefs E (dict d) = FieldsHaveNoRefs E d
  HasNoRefs E (list xs) = ItemsHaveNoRefs E xs
  HasNoRefs E (tuple xs) = ItemsHaveNoRefs E xs
  HasNoRefs E v = Unit

  pub ItemsHaveNoRefs : Engine → Items → Type 0
  ItemsHaveNoRefs E nil = Unit
  ItemsHaveNoRefs E (cons v xs) = HasNoRefs E v × ItemsHaveNoRefs E xs

  pub FieldsHaveNoRefs : Engine → Fields → Type 0
  FieldsHaveNoRefs E end = Unit
  FieldsHaveNoRefs E (field k v d) =
      ((normalized_key E k == "secret_refs") ≡ true → IsMaskedRefs v)
      × ((normalized_key E k == "secret_refs") ≡ false → HasNoRefs E v)
      × FieldsHaveNoRefs E d

mask_fields-AllMasked : (d : Fields) → AllMasked (mask_fields d)
unfolding mask_fields
mask_fields-AllMasked end = tt
mask_fields-AllMasked (field k v d) = (refl, mask_fields-AllMasked d)

mask_items-ItemsMasked : (xs : Items) → ItemsMasked (mask_items xs)
unfolding mask_items
mask_items-ItemsMasked nil = tt
mask_items-ItemsMasked (cons v xs) = (refl, mask_items-ItemsMasked xs)

mask_refs-IsMaskedRefs : (v : Value) → IsMaskedRefs (mask_refs v)
unfolding mask_refs
mask_refs-IsMaskedRefs (dict d) = mask_fields-AllMasked d
mask_refs-IsMaskedRefs (list xs) = mask_items-ItemsMasked xs
mask_refs-IsMaskedRefs _ = refl

ledger_entry-refs :
    (E : Engine) (k : String) (v inner : Value)
    → (normalized_key E k == "secret_refs") ≡ true
    → ledger_entry E k v inner ≡ mask_refs v
unfolding ledger_entry
ledger_entry-refs E k v inner h = rw h

ledger_entry-inner :
    (E : Engine) (k : String) (v inner : Value)
    → (normalized_key E k == "secret_refs") ≡ false
    → ledger_entry E k v inner ≡ inner
unfolding ledger_entry
ledger_entry-inner E k v inner h = rw h

mutual
  unfolding redact_run_ledger_secret_refs

  redacted-HasNoRefs : (E : Engine) (v : Value) → HasNoRefs E (redact_run_ledger_secret_refs E v)
  redacted-HasNoRefs E (dict d) = redacted-FieldsHaveNoRefs E d
  redacted-HasNoRefs E (list xs) = redacted-ItemsHaveNoRefs E xs
  redacted-HasNoRefs E (tuple xs) = redacted-ItemsHaveNoRefs E xs
  redacted-HasNoRefs E _ = tt

  redacted-ItemsHaveNoRefs :
      (E : Engine) (xs : Items) → ItemsHaveNoRefs E (redact_ledger_items E xs)
  redacted-ItemsHaveNoRefs E nil = tt
  redacted-ItemsHaveNoRefs E (cons v xs) = (redacted-HasNoRefs E v, redacted-ItemsHaveNoRefs E xs)

  redacted-FieldsHaveNoRefs :
      (E : Engine) (d : Fields) → FieldsHaveNoRefs E (redact_ledger_fields E d)
  redacted-FieldsHaveNoRefs E end = tt
  redacted-FieldsHaveNoRefs E (field k v d) = (
    λ h. rw (ledger_entry-refs E k v _ h) (mask_refs-IsMaskedRefs v),
    λ h. rw (ledger_entry-inner E k v _ h) (redacted-HasNoRefs E v),
    redacted-FieldsHaveNoRefs E d,
  )

-- The metadata that the run ledger stores has no secret reference under a secret_refs key at any
-- depth, only masks.
pub redact_metadata-FieldsHaveNoRefs :
    (E : Engine) (d : Fields) → FieldsHaveNoRefs E (redact_metadata E d)
unfolding redact_metadata
redact_metadata-FieldsHaveNoRefs E d = redacted-FieldsHaveNoRefs E (redact_fields E d)
