-- ===== src/Redaction/Coverage.antt =====
-- What a redacted value can still show.
use text.Mathlib.Text.{starts_with}
use orvo_agent.Base.{String, ◌≡◌, refl, ◌⊎◌, inl, inr, true, false, contains, string_eq, Bool-cases}
use orvo_agent.Value.{Value, null, str, list, tuple, dict, Items, nil, cons, Fields, end, field}
use orvo_agent.Redaction.Engine.{Engine}
use orvo_agent.Redaction.Text.{normalized_key, is_secret_key, sanitize_secret_ref}
use orvo_agent.Redaction.Uri.{IsSafeText, redact_uri-IsSafeText}
use orvo_agent.Redaction.Secrets.{
  safe_secret_contract_keys, safe_secret_ref_keys, masked, redact_secret_ref, redact_ref_fields,
  redact_secret_refs, redact_ref_items, redact_secrets, redact_items, redact_fields, redact_entry,
}

-- An entry of a `secret_refs` dict shows the mask, or a `secret://` reference without credentials.
abbrev pub IsMaskedRef : Engine → Value → Type 0
IsMaskedRef E v =
    (v ≡ masked)
    ⊎ ((s : String) × (starts_with s "secret://" ≡ true) × (v ≡ str (sanitize_secret_ref E s)))

abbrev pub AreMaskedRefs : Engine → Fields → Type 0
AreMaskedRefs E end = Unit
AreMaskedRefs E (field k v d) = IsMaskedRef E v × AreMaskedRefs E d

abbrev mutual
  pub HidesRefs : Engine → Value → Type 0
  HidesRefs E (dict d) = AreMaskedRefs E d
  HidesRefs E (list xs) = HidesRefItems E xs
  HidesRefs E (tuple xs) = HidesRefItems E xs
  HidesRefs E v = v ≡ masked

  pub HidesRefItems : Engine → Items → Type 0
  HidesRefItems E nil = Unit
  HidesRefItems E (cons v xs) = HidesRefs E v × HidesRefItems E xs

-- A value shows a text only as the safe form of one, and an entry of a dict, at any depth, shows
-- - under a `secret_refs` key nothing but references,
-- - under a key that names a secret, and is not of the connector contract, nothing but the mask,
-- - under any other key what `HidesSecrets` allows.
abbrev mutual
  pub HidesSecrets : Engine → Value → Type 0
  HidesSecrets E (str s) = (t : String) × IsSafeText E t s
  HidesSecrets E (list xs) = HidesItems E xs
  HidesSecrets E (tuple xs) = HidesItems E xs
  HidesSecrets E (dict d) = HidesFields E d
  HidesSecrets E v = Unit

  pub HidesItems : Engine → Items → Type 0
  HidesItems E nil = Unit
  HidesItems E (cons v xs) = HidesSecrets E v × HidesItems E xs

  pub HidesFields : Engine → Fields → Type 0
  HidesFields E end = Unit
  HidesFields E (field k v d) =
      (contains safe_secret_ref_keys (normalized_key E k) ≡ true → HidesRefs E v)
      × (contains safe_secret_ref_keys (normalized_key E k) ≡ false
          → contains safe_secret_contract_keys (normalized_key E k) ≡ false
          → is_secret_key E k ≡ true
          → v ≡ masked)
      × (contains safe_secret_ref_keys (normalized_key E k) ≡ false
          → ((contains safe_secret_contract_keys (normalized_key E k) ≡ true)
              ⊎ (is_secret_key E k ≡ false))
          → HidesSecrets E v)
      × HidesFields E d

module _ (E : Engine) (k : String) (refs inner : Value) where
  redact_entry_ref :
      contains safe_secret_ref_keys (normalized_key E k) ≡ true → redact_entry E k refs inner ≡ refs
  unfolding redact_entry
  redact_entry_ref r = rw r

  redact_entry_secret :
      contains safe_secret_ref_keys (normalized_key E k) ≡ false
      → contains safe_secret_contract_keys (normalized_key E k) ≡ false
      → is_secret_key E k ≡ true
      → redact_entry E k refs inner ≡ masked
  unfolding redact_entry
  redact_entry_secret r c s = rw (r, c, s)

  redact_entry_inner :
      contains safe_secret_ref_keys (normalized_key E k) ≡ false
      → ((contains safe_secret_contract_keys (normalized_key E k) ≡ true)
          ⊎ (is_secret_key E k ≡ false))
      → redact_entry E k refs inner ≡ inner
  unfolding redact_entry
  redact_entry_inner r (inl c) = rw (r, c)
  redact_entry_inner r (inr s) =
      elim (Bool-cases (contains safe_secret_contract_keys (normalized_key E k))) [
        | inl c ↦ rw (r, c)
        | inr c ↦ rw (r, c, s)
      ]

module _ (E : Engine) where
  redact_secret_ref-IsMaskedRef : (v : Value) → IsMaskedRef E (redact_secret_ref E v)
  unfolding redact_secret_ref
  redact_secret_ref-IsMaskedRef (str s) = elim (Bool-cases (starts_with s "secret://")) [
    | inl e ↦ rw e (inr (s, e, refl))
    | inr e ↦ rw e (inl refl)
  ]
  redact_secret_ref-IsMaskedRef null = inl refl
  redact_secret_ref-IsMaskedRef _ = inl refl

  redact_ref_fields-AreMaskedRefs : (d : Fields) → AreMaskedRefs E (redact_ref_fields E d)
  unfolding redact_ref_fields
  redact_ref_fields-AreMaskedRefs end = tt
  redact_ref_fields-AreMaskedRefs (field k v d) =
      (redact_secret_ref-IsMaskedRef v, redact_ref_fields-AreMaskedRefs d)

  mutual
    unfolding redact_secret_refs

    redact_secret_refs-HidesRefs : (v : Value) → HidesRefs E (redact_secret_refs E v)
    redact_secret_refs-HidesRefs (dict d) = redact_ref_fields-AreMaskedRefs d
    redact_secret_refs-HidesRefs (list xs) = redact_ref_items-HidesRefItems xs
    redact_secret_refs-HidesRefs (tuple xs) = redact_ref_items-HidesRefItems xs
    redact_secret_refs-HidesRefs _ = refl

    redact_ref_items-HidesRefItems : (xs : Items) → HidesRefItems E (redact_ref_items E xs)
    redact_ref_items-HidesRefItems nil = tt
    redact_ref_items-HidesRefItems (cons v xs) =
        (redact_secret_refs-HidesRefs v, redact_ref_items-HidesRefItems xs)

  mutual
    unfolding redact_secrets

    redact_secrets-HidesSecrets_of : (v : Value) → HidesSecrets E (redact_secrets E v)
    redact_secrets-HidesSecrets_of (str s) = (s, redact_uri-IsSafeText E s)
    redact_secrets-HidesSecrets_of (list xs) = redact_items-HidesItems xs
    redact_secrets-HidesSecrets_of (tuple xs) = redact_items-HidesItems xs
    redact_secrets-HidesSecrets_of (dict d) = redact_fields-HidesFields d
    redact_secrets-HidesSecrets_of _ = tt

    redact_items-HidesItems : (xs : Items) → HidesItems E (redact_items E xs)
    redact_items-HidesItems nil = tt
    redact_items-HidesItems (cons v xs) =
        (redact_secrets-HidesSecrets_of v, redact_items-HidesItems xs)

    redact_fields-HidesFields : (d : Fields) → HidesFields E (redact_fields E d)
    redact_fields-HidesFields end = tt
    redact_fields-HidesFields (field k v d) = (
      λ r. rw (redact_entry_ref E k _ _ r) (redact_secret_refs-HidesRefs v),
      λ r c s. redact_entry_secret E k _ _ r c s,
      λ r o. rw (redact_entry_inner E k _ _ r o) (redact_secrets-HidesSecrets_of v),
      redact_fields-HidesFields d,
    )
