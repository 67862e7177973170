-- ===== src/Redaction/Uri.antt =====
-- What `redact_uri` makes of a text.
use Prim.Native.String.{[] as end_of_text, ◌∷◌ as cons_char}
use orvo_agent.Base.{
  subst, String, ◌<>◌, Bool, true, false, ◌||◌, Option, none, some, List, [], ◌∷◌, ◌≡◌, refl, ◌⊎◌,
  inl, inr, ◌==◌, string_eq, map, All, arith, Bool-cases, if◌then◌else◌,
}
use orvo_agent.Redaction.Engine.{Engine, SplitUrl}
use orvo_agent.Redaction.Text.{
  redact_text, redact_uri, after_last_at, redact_url_userinfo, safe_query, is_secret_query_key,
}

-- `"@" in s`
abbrev pub has_at : String → Bool
has_at end_of_text = false
has_at (cons_char c s) = cons_char c end_of_text == "@" || has_at s

-- The authority names no user, or the mask in place of one.
abbrev pub HidesUser : String → Type 0
HidesUser netloc =
    (has_at netloc ≡ false)
    ⊎ ((host : String) × (netloc ≡ "[REDACTED]@" <> host) × (has_at host ≡ false))

-- The query is empty, or one in which the parameters with a secret name have the mask for a value.
abbrev pub HidesQuery : Engine → String → Type 0
HidesQuery E query =
    (query ≡ "")
    ⊎ ((parameters : List (String × String)) × (query ≡ E.urlencode parameters)
        × All (λ (p : String × String). is_secret_query_key E p.0 ≡ true → p.1 ≡ "[REDACTED]")
            parameters)

-- What is shown of a text: the redacted text where that is no URL; or else the redacted text or a URL
-- that is put together again, with neither a user nor the value of a secret parameter.
abbrev pub IsSafeText : Engine → String → String → Type 0
IsSafeText E s shown =
    ((E.urlsplit (redact_text E s) ≡ none) × (shown ≡ redact_text E s))
    ⊎ ((parts : SplitUrl) × HidesUser parts.netloc
        × HidesQuery E parts.query
        × (((E.urlsplit (redact_text E s) ≡ some parts) × (shown ≡ redact_text E s))
            ⊎ (shown ≡ E.urlunsplit parts)))

abbrev UserCut : String → Option String → Type 0
UserCut netloc none = has_at netloc ≡ false
UserCut netloc (some host) = has_at host ≡ false

not_at : (a b : Bool) → a ≡ false → b ≡ false → (a || b) ≡ false
not_at a b h k = ground arith

after_last_at-UserCut : (netloc : String) → UserCut netloc (after_last_at netloc)
unfolding after_last_at
after_last_at-UserCut end_of_text = refl
after_last_at-UserCut (cons_char c s) = cut (after_last_at s) (after_last_at-UserCut s)
  where
    cut :
        (found : Option String)
        → UserCut s found
        → UserCut (cons_char c s) (elim found [
          | some rest ↦ some rest
          | none ↦ if cons_char c end_of_text == "@" then some s else none
        ])
    cut (some rest) h = h
    cut none h = elim (Bool-cases (cons_char c end_of_text == "@")) [
      | inl y ↦ rw y h
      | inr n ↦ rw n (not_at (cons_char c end_of_text == "@") (has_at s) n h)
    ]

redact_url_userinfo-HidesUser :
    (E : Engine) (netloc : String) → HidesUser (redact_url_userinfo E netloc)
unfolding redact_url_userinfo
redact_url_userinfo-HidesUser E netloc =
    hidden (after_last_at netloc) (after_last_at-UserCut netloc)
  where
    hidden :
        (found : Option String)
        → UserCut netloc found
        → HidesUser (elim found [ none ↦ netloc | some host ↦ "[REDACTED]@" <> host ])
    hidden none h = inl h
    hidden (some host) h = inr (host, refl, h)

module _ (E : Engine) where
  masked_if :
      (secret : Bool) (value : String)
      → secret ≡ true
      → (if secret then "[REDACTED]" else value) ≡ "[REDACTED]"
  masked_if secret value h = ground arith

  hidden_parameters :
      (parameters : List (String × String))
      → All
          (λ (p : String × String). is_secret_query_key E p.0 ≡ true → p.1 ≡ "[REDACTED]")
          (map
            (λ (key, value). (key, if is_secret_query_key E key then "[REDACTED]" else value))
            parameters)
  hidden_parameters [] = tt
  hidden_parameters ((key, value) ∷ parameters) =
      (masked_if (is_secret_query_key E key) value, hidden_parameters parameters)

  safe_query-HidesQuery : (query : String) → HidesQuery E (safe_query E query)
  unfolding safe_query
  safe_query-HidesQuery query = inr (_, refl, hidden_parameters (E.parse_qsl query))

  text_of_test : (a b : String) → (a == b) ≡ true → a ≡ b
  text_of_test a b h = ground arith

  redact_uri_of :
      (s : String) (split : Option SplitUrl)
      → E.urlsplit (redact_text E s) ≡ split
      → IsSafeText E s (elim split [
        | none ↦ redact_text E s
        | some parts ↦
            if parts.query == ""
            then (if redact_url_userinfo E parts.netloc == parts.netloc
                then redact_text E s
                else E.urlunsplit (record parts { netloc = redact_url_userinfo E parts.netloc }))
            else E.urlunsplit (record parts {
              netloc = redact_url_userinfo E parts.netloc;
              query = safe_query E parts.query;
            })
      ])
  redact_uri_of s none h = inl (h, refl)
  redact_uri_of s (some parts) h =
      let netloc = redact_url_userinfo E parts.netloc in
      let user = redact_url_userinfo-HidesUser E parts.netloc in
      elim (Bool-cases (parts.query == "")) [
        | inl y ↦ elim (Bool-cases (netloc == parts.netloc)) [
          | inl z ↦ rw y (
              rw z (
                inr (
                  parts,
                  subst HidesUser (text_of_test netloc parts.netloc z) user,
                  inl (text_of_test parts.query "" y),
                  inl (h, refl),
                )))
          | inr z ↦ rw y (
              rw z (
                inr (
                  record parts { netloc = netloc },
                  user,
                  inl (text_of_test parts.query "" y),
                  inr refl,
                )))
        ]
        | inr n ↦ rw n (
            inr (
              record parts { netloc = netloc; query = safe_query E parts.query },
              user,
              safe_query-HidesQuery parts.query,
              inr refl,
            ))
      ]

  pub redact_uri-IsSafeText : (s : String) → IsSafeText E s (redact_uri E s)
  unfolding redact_uri
  redact_uri-IsSafeText s = redact_uri_of s (E.urlsplit (redact_text E s)) refl
