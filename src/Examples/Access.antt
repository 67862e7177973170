-- ===== src/Examples/Access.antt =====
-- The authorization theorems on concrete request headers.
use orvo_agent.Base.{
  All, false, ◌↔◌, ◌⊎◌, String, ◌||◌, ◌==◌, List, true, string_eq, contains, refl, [], ◌∷◌, some,
  ok, ◌≡◌,
}
use orvo_agent.Auth.{
  require_internal_permission, project_internal_operator_session, require_internal_business_scope,
  known_roles, Principal, parse_allowed_businesses, build_internal_operator_principal,
}
use orvo_agent.Auth.Access.{
  project_internal_operator_session-IsShown, build_internal_operator_principal-scope,
  build_internal_operator_principal-passes, IsShown, passes, AreShown, Lists,
}
use orvo_agent.Auth.Commas.{join_commas, has_comma}
use orvo_agent.Examples.Data.{example_redactor}
use orvo_agent.Base.Text.{strip}

viewer :
    (p : Principal) × (build_internal_operator_principal
        (λ s. s)
        (some "ana")
        (some " viewer ")
        (some "shop, ,store")
      ≡ ok p)
unfolding build_internal_operator_principal string_eq strip
viewer = (_, refl)

build_internal_operator_principal-passes_example :
    (contains known_roles (viewer.0).role ≡ true)
    × (passes (require_internal_permission (viewer.0) "internal:read") ≡ true)
    × (passes (require_internal_permission (viewer.0) "case:action")
        ≡ ((viewer.0).role == "operator" || (viewer.0).role == "admin"))
    × (passes (require_internal_permission (viewer.0) "operator_audit:read")
        ≡ ((viewer.0).role == "admin"))
build_internal_operator_principal-passes_example =
    build_internal_operator_principal-passes (λ s. s) (some "ana") (some " viewer ")
      (some "shop, ,store") (viewer.0) (viewer.1)

build_internal_operator_principal-scope_example :
    (items : List String) × (join_commas items ≡ "shop, ,store")
    × All (λ item. has_comma item ≡ false) items
    × ((passes (require_internal_business_scope (viewer.0) "shop") ≡ true)
        ↔ (Lists items "*" ⊎ Lists items "shop"))
build_internal_operator_principal-scope_example =
    build_internal_operator_principal-scope (λ s. s) (some "ana") (some " viewer ") "shop, ,store"
      "shop" (viewer.0) (viewer.1)

abbrev administrator : Principal
administrator = record {
  actor_ref = "token=1";
  role = "admin";
  allowed_businesses = some ("shop" ∷ []);
}

project_internal_operator_session-IsShown_example :
    IsShown example_redactor "token=1"
      (project_internal_operator_session example_redactor administrator).actor_ref
    × AreShown example_redactor
        (some ("shop" ∷ []))
        (project_internal_operator_session example_redactor administrator).allowed_businesses
project_internal_operator_session-IsShown_example =
    project_internal_operator_session-IsShown example_redactor administrator

-- The empty items of a header are dropped.
parse_allowed_businesses_runs :
    parse_allowed_businesses (some "shop, ,store") ≡ some ("shop" ∷ "store" ∷ [])
unfolding parse_allowed_businesses string_eq strip
parse_allowed_businesses_runs = refl
