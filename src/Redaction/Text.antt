-- ===== src/Redaction/Text.antt =====
-- `redact_text` and `redact_uri` of app/brain/security/redaction.py.
use Prim.Native.String.{[] as end_of_text, ◌∷◌ as cons_char}
use text.Mathlib.Text.{find?}
use orvo_agent.Base.{
  ℕ, zero, suc, ◌+◌, ◌-◌, String, ◌<>◌, Bool, true, false, ◌||◌, Option, none, some, List, [], ◌∷◌,
  ◌==◌, string_eq, map, if◌then◌else◌,
}
use orvo_agent.Redaction.Engine.{
  private_key_block, auth_scheme_header, bearer, quoted_key_value, unquoted_key_value,
  oauth_code_context, quoted_bare_oauth_code, unquoted_bare_oauth_code, Match, Piece, plain, found,
  Engine,
}

abbrev pub secret_key_parts : List String
secret_key_parts =
    "access_token" ∷ "refresh_token" ∷ "api_key" ∷ "apikey" ∷ "authorization" ∷ "auth_header"
    ∷ "authorization_code" ∷ "oauth_code" ∷ "password" ∷ "private_key" ∷ "credential" ∷ "cookie"
    ∷ "session" ∷ "signature" ∷ "secret" ∷ "token" ∷ []

-- `part in text`
unfoldable pub is_part : String → String → Bool
is_part part text = elim (find? text part) [ none ↦ false | some _ ↦ true ]

abbrev any_part : List String → String → Bool
any_part [] text = false
any_part (part ∷ parts) text = is_part part text || any_part parts text

-- `s.replace("-", "_")`
dashes_to_underscores : String → String
dashes_to_underscores end_of_text = end_of_text
dashes_to_underscores (cons_char c s) =
    (if cons_char c end_of_text == "-" then "_" else cons_char c end_of_text)
    <> dashes_to_underscores s

-- `s[:n]` and `s[n:]`, by characters
take_text : ℕ → String → String
take_text zero s = ""
take_text (suc n) end_of_text = ""
take_text (suc n) (cons_char c s) = cons_char c (take_text n s)

drop_text : ℕ → String → String
drop_text zero s = s
drop_text (suc n) end_of_text = ""
drop_text (suc n) (cons_char c s) = drop_text n s

-- `s.rsplit('@', 1)[1]`, or `none` where the text has no '@'
unfoldable pub after_last_at : String → Option String
after_last_at end_of_text = none
after_last_at (cons_char c s) = elim (after_last_at s) [
  | some rest ↦ some rest
  | none ↦ if cons_char c end_of_text == "@" then some s else none
]

-- `match.group(i)`
group : ℕ → List String → String
group n [] = ""
group zero (g ∷ gs) = g
group (suc n) (g ∷ gs) = group n gs

-- `pattern.sub(replace, text)`, from the cut text
substitute : (Match → String) → List Piece → String
substitute replace [] = ""
substitute replace (plain s ∷ pieces) = s <> substitute replace pieces
substitute replace (found m ∷ pieces) = replace m <> substitute replace pieces

-- `pattern.search(text) is not None`
matches : List Piece → Bool
matches [] = false
matches (plain s ∷ pieces) = matches pieces
matches (found m ∷ pieces) = true

module _ (E : Engine) where
  unfoldable pub normalized_key : String → String
  unfolding dashes_to_underscores
  normalized_key key = dashes_to_underscores (E.lower key)

  unfoldable pub is_secret_key : String → Bool
  unfolding normalized_key is_part
  is_secret_key key = any_part secret_key_parts (normalized_key key)

  unfoldable pub is_secret_query_key : String → Bool
  unfolding is_secret_key
  is_secret_query_key key = normalized_key key == "code" || is_secret_key (normalized_key key)

  -- the window of 80 characters on either side of a match
  context : String → Match → String
  unfolding take_text drop_text
  context text m = take_text (m.stop + 80 - (m.start - 80)) (drop_text (m.start - 80) text)

  should_redact : Match → String → String → Bool
  unfolding context matches is_part
  should_redact m secret_value text =
      is_part "oauth" (E.lower secret_value) || matches (E.scan oauth_code_context (context text m))

  redact_quoted : String → Match → String
  unfolding should_redact group
  redact_quoted value m =
      if should_redact m (group 3 m.groups) value
      then group 1 m.groups <> group 2 m.groups <> "[REDACTED]" <> group 4 m.groups
      else group 0 m.groups

  redact_unquoted : String → Match → String
  unfolding should_redact group
  redact_unquoted value m =
      if should_redact m (group 2 m.groups) value
      then group 1 m.groups <> "[REDACTED]"
      else group 0 m.groups

  redact_bare_oauth_code_values : String → String
  unfolding substitute redact_quoted redact_unquoted
  redact_bare_oauth_code_values value =
      let quoted_redacted =
        substitute (redact_quoted value) (E.scan quoted_bare_oauth_code value) in
      substitute (redact_unquoted quoted_redacted) (E.scan unquoted_bare_oauth_code quoted_redacted)

  unfoldable pub redact_text : String → String
  unfolding substitute group redact_bare_oauth_code_values
  redact_text value =
      let no_block = substitute (λ m. "[REDACTED_PRIVATE_KEY]") (E.scan private_key_block value) in
      let no_scheme =
        substitute (λ m. group 1 m.groups <> "[REDACTED]") (E.scan auth_scheme_header no_block) in
      let no_bearer = substitute (λ m. "Bearer [REDACTED]") (E.scan bearer no_scheme) in
      let no_quoted =
        substitute (λ m. group 1 m.groups <> group 3 m.groups <> "[REDACTED]" <> group 5 m.groups)
          (E.scan quoted_key_value no_bearer) in
      let no_unquoted =
        substitute (λ m. group 1 m.groups <> "[REDACTED]") (E.scan unquoted_key_value no_quoted) in
      redact_bare_oauth_code_values no_unquoted

  unfoldable pub redact_url_userinfo : String → String
  unfolding after_last_at
  redact_url_userinfo netloc = elim (after_last_at netloc) [
    | none ↦ netloc
    | some host ↦ "[REDACTED]@" <> host
  ]

  unfoldable pub safe_query : String → String
  unfolding is_secret_query_key
  safe_query query = E.urlencode (
      map (λ (key, value). (key, if is_secret_query_key key then "[REDACTED]" else value))
        (E.parse_qsl query))

  unfoldable pub redact_uri : String → String
  unfolding redact_text redact_url_userinfo safe_query
  redact_uri value =
      let redacted = redact_text value in
      elim (E.urlsplit redacted) [
        | none ↦ redacted
        | some parts ↦
            let safe_netloc = redact_url_userinfo parts.netloc in
            if parts.query == ""
            then (if safe_netloc == parts.netloc
                then redacted
                else E.urlunsplit (record parts { netloc = safe_netloc }))
            else E.urlunsplit
                (record parts { netloc = safe_netloc; query = safe_query parts.query })
      ]

  -- `_sanitize_secret_ref`
  pub sanitize_secret_ref : String → String
  unfolding safe_query
  sanitize_secret_ref value = elim (E.urlsplit value) [
    | none ↦ "[REDACTED]"
    | some parts ↦
        if parts.scheme == "secret"
        then (if parts.query == ""
            then value
            else E.urlunsplit (record parts { query = safe_query parts.query }))
        else "[REDACTED]"
  ]
