-- ===== src/Auth/Access.antt =====
-- What an operator may do, and what is shown of one.
use orvo_agent.Base.{
  ◌≢◌, ◌↔◌, All, Never, false, map, ap, Bool, Pointwise, >>=-eq-ok, List, Bool-cases, ◌∙◌, sym,
  Result, ◌||◌, ok-injective, ◌==◌, subst, arith, true, ◌⊎◌, Option, contains, ◌≡◌, string_eq,
  String, refl, [], ◌∷◌, none, some, ok, raise, inl, inr,
}
use orvo_agent.Auth.{
  split_commas, audit_safe_business_values, strip_items, AuthError,
  project_internal_operator_session, is_granted, require_internal_business_scope,
  parse_allowed_businesses, known_roles, role_permissions, shown, build_internal_operator_principal,
  normalize_operator_role, require_internal_permission, Principal,
}
use orvo_agent.Base.Membership.{In}
use orvo_agent.Base.Text.{strip}
use orvo_agent.Auth.Commas.{join_commas, has_comma, join_commas-split_commas, split_commas-no_comma}
use orvo_agent.Redaction.Redactor.{text_or_masked, Redactor}

abbrev pub passes : Result AuthError (Unit {0}) → Bool
passes (ok u) = true
passes (raise e) = false

known_of_normalized :
    (lower : String → String) (role : Option String) (r : String)
    → normalize_operator_role lower role ≡ ok r
    → (r ≡ "operator") ⊎ (contains known_roles r ≡ true)
unfolding normalize_operator_role
known_of_normalized lower none r h = inl (sym (ok-injective h))
known_of_normalized lower (some s) r h = ground arith

role_cases :
    (r : String)
    → (r ≡ "operator") ⊎ (contains known_roles r ≡ true)
    → (r ≡ "viewer") ⊎ ((r ≡ "operator") ⊎ (r ≡ "admin"))
role_cases r h = ground arith

-- What the three roles may do.
abbrev pub IsLimited : String → Type 0
IsLimited r =
    (contains known_roles r ≡ true)
    × (contains (role_permissions r) "internal:read" ≡ true)
    × (contains (role_permissions r) "case:action" ≡ (r == "operator" || r == "admin"))
    × (contains (role_permissions r) "operator_audit:read" ≡ (r == "admin"))

IsLimited-of_role : (r : String) → (r ≡ "viewer") ⊎ ((r ≡ "operator") ⊎ (r ≡ "admin")) → IsLimited r
unfolding role_permissions string_eq
IsLimited-of_role r (inl e) = subst IsLimited (sym e) (refl, refl, refl, refl)
IsLimited-of_role r (inr (inl e)) = subst IsLimited (sym e) (refl, refl, refl, refl)
IsLimited-of_role r (inr (inr e)) = subst IsLimited (sym e) (refl, refl, refl, refl)

passes-require :
    (p : Principal) (permission : String)
    → passes (require_internal_permission p permission)
      ≡ contains (role_permissions p.role) permission
unfolding require_internal_permission
passes-require p permission = ground arith

role_of_built :
    (lower : String → String) (actor role header : Option String) (p : Principal)
    → build_internal_operator_principal lower actor role header ≡ ok p
    → (normalize_operator_role lower role ≡ ok p.role)
      × (p.allowed_businesses ≡ parse_allowed_businesses header)
unfolding build_internal_operator_principal
role_of_built lower actor role header p h =
    let (r, hr, q) = >>=-eq-ok (normalize_operator_role lower role) _ h in
    let e = ok-injective q in
    (hr ∙ ap (λ (x : Principal). ok x.role) e, sym (ap (λ (x : Principal). x.allowed_businesses) e))

-- A principal built from request headers has one of the three roles; it may read, act on cases
-- exactly as an operator or administrator, and read the audit log exactly as an administrator.
pub build_internal_operator_principal-passes :
    (lower : String → String) (actor role header : Option String) (p : Principal)
    → build_internal_operator_principal lower actor role header ≡ ok p
    → (contains known_roles p.role ≡ true)
      × (passes (require_internal_permission p "internal:read") ≡ true)
      × (passes (require_internal_permission p "case:action")
          ≡ (p.role == "operator" || p.role == "admin"))
      × (passes (require_internal_permission p "operator_audit:read") ≡ (p.role == "admin"))
build_internal_operator_principal-passes lower actor role header p h =
    let (hr, _) = role_of_built lower actor role header p h in
    let (k, i, c, a) =
      IsLimited-of_role p.role (role_cases p.role (known_of_normalized lower role p.role hr)) in
    (
      k,
      passes-require p "internal:read" ∙ i,
      passes-require p "case:action" ∙ c,
      passes-require p "operator_audit:read" ∙ a,
    )

passes-scope :
    (p : Principal) (business_id : String)
    → passes (require_internal_business_scope p business_id)
      ≡ is_granted p.allowed_businesses business_id
unfolding require_internal_business_scope
passes-scope p business_id = ground arith

-- The item, without the whitespace around it, is one of the items of the header.
abbrev pub Lists : List String → String → Type 0
Lists items name = (name ≢ "") × ((item : String) × In item items × (strip item ≡ name))

strip_items-Lists :
    (items : List String) (name : String)
    → contains (strip_items items) name ≡ true
    → Lists items name
unfolding strip_items
strip_items-Lists [] name h = absurd (cc)
strip_items-Lists (item ∷ items) name h = elim (string_eq.dec (strip item) name) [
  | yes e ↦ elim (string_eq.dec name "") [
    | yes x ↦ let (n, (i, m, q)) = strip_items-Lists items name (ground arith) in (n, (i, inr m, q))
    | no n ↦ (n, (item, inl refl, e))
  ]
  | no n ↦ let (k, (i, m, q)) = strip_items-Lists items name (ground arith) in (k, (i, inr m, q))
]

strip_items-of_Lists :
    (items : List String) (name item : String)
    → name ≢ ""
    → In item items
    → strip item ≡ name
    → contains (strip_items items) name ≡ true
unfolding strip_items
strip_items-of_Lists [] name item n m e = elim m [ ]
strip_items-of_Lists (x ∷ items) name item n (inl same) e =
    let f : strip x ≡ name = ap strip same ∙ e in ground arith
strip_items-of_Lists (x ∷ items) name item n (inr m) e =
    let rest = strip_items-of_Lists items name item n m e in ground arith

or_cases : (a b : Bool) → (a || b) ≡ true → (a ≡ true) ⊎ (b ≡ true)
or_cases a b h = ground arith

or_left : (a b : Bool) → a ≡ true → (a || b) ≡ true
or_left a b h = ground arith

or_right : (a b : Bool) → b ≡ true → (a || b) ≡ true
or_right a b h = ground arith

is_granted-Lists :
    (items : List String) (name : String)
    → (is_granted (some (strip_items items)) name ≡ true) ↔ (Lists items "*" ⊎ Lists items name)
unfolding is_granted
is_granted-Lists items name = (
  λ h. elim (or_cases (contains (strip_items items) "*") (contains (strip_items items) name) h) [
    | inl a ↦ inl (strip_items-Lists items "*" a)
    | inr b ↦ inr (strip_items-Lists items name b)
  ],
  λ l. elim l [
    | inl (n, (i, m, e)) ↦
        or_left (contains (strip_items items) "*") _ (strip_items-of_Lists items "*" i n m e)
    | inr (n, (i, m, e)) ↦
        or_right (contains (strip_items items) "*") _ (strip_items-of_Lists items name i n m e)
  ],
)

-- With a grant header a principal reaches a business exactly if one of the items between the commas
-- of the header is, without the whitespace around it, the wildcard or the business, which is not empty.
pub build_internal_operator_principal-scope :
    (lower : String → String) (actor role : Option String) (header business_id : String)
    (p : Principal)
    → build_internal_operator_principal lower actor role (some header) ≡ ok p
    → (items : List String) × (join_commas items ≡ header)
      × All (λ item. has_comma item ≡ false) items
      × ((passes (require_internal_business_scope p business_id) ≡ true)
          ↔ (Lists items "*" ⊎ Lists items business_id))
unfolding parse_allowed_businesses
build_internal_operator_principal-scope lower actor role header business_id p h =
    let (_, e) = role_of_built lower actor role (some header) p h in
    let granted = passes-scope p business_id ∙ ap (λ b. is_granted b business_id) e in
    let lists = is_granted-Lists (split_commas header) business_id in
    (
      split_commas header,
      join_commas-split_commas header,
      split_commas-no_comma header,
      (λ t. lists.0 (sym granted ∙ t), λ l. granted ∙ lists.1 l),
    )

eq_of_test : (a b : String) → (a == b) ≡ true → a ≡ b
eq_of_test a b h = ground arith

-- A text that is shown is the mask, or a text that redaction leaves as it is.
abbrev pub IsShown : Redactor → String → String → Type 0
IsShown R value s = (s ≡ "[REDACTED]") ⊎ ((s ≡ value) × (text_or_masked R value ≡ value))

shown-IsShown : (R : Redactor) (value : String) → IsShown R value (shown R value)
unfolding shown
shown-IsShown R value = elim (Bool-cases (text_or_masked R value == value)) [
  | inl y ↦ rw y (
      inr
        (eq_of_test (text_or_masked R value) value y, eq_of_test (text_or_masked R value) value y))
  | inr n ↦ rw n (inl refl)
]

shown_list :
    (R : Redactor) (values : List String) → Pointwise (IsShown R) values (map (shown R) values)
shown_list R [] = tt
shown_list R (v ∷ values) = (shown-IsShown R v, shown_list R values)

-- What is shown of a list of businesses that may be missing: each of them, and nothing if it is.
abbrev pub AreShown : Redactor → Option (List String) → Option (List String) → Type 0
AreShown R none none = Unit
AreShown R (some businesses) (some values) = Pointwise (IsShown R) businesses values
AreShown R _ _ = Never

audit_safe_business_values-AreShown :
    (R : Redactor) (businesses : Option (List String))
    → AreShown R businesses (audit_safe_business_values R businesses)
unfolding audit_safe_business_values
audit_safe_business_values-AreShown R none = tt
audit_safe_business_values-AreShown R (some businesses) = shown_list R businesses

-- The session of a principal shows its actor and each of its businesses only as the mask or as a
-- text that redaction leaves as it is, and no businesses for a principal without a grant list.
pub project_internal_operator_session-IsShown :
    (R : Redactor) (p : Principal)
    → IsShown R p.actor_ref (project_internal_operator_session R p).actor_ref
      × AreShown R p.allowed_businesses (project_internal_operator_session R p).allowed_businesses
unfolding project_internal_operator_session
project_internal_operator_session-IsShown R p =
    (shown-IsShown R p.actor_ref, audit_safe_business_values-AreShown R p.allowed_businesses)
