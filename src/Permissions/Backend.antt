-- ===== src/Permissions/Backend.antt =====
-- backend/src/lib/permissions.js: the roles as the backend checks them. A permission is a text here, and
-- one that no list holds is refused.
use cards.Prelude.{
  Bool, true, false, ◌||◌, Option, none, some, List, [], ◌∷◌, String, str_eq, map, any, get_or,
  if◌then◌else◌,
}
use cards.Prelude.Text.{Text, codes}
use cards.Prelude.Trim.{trim}
use cards.Permissions.{Role, owner, admin, operator, viewer, lower, same_text}

unfoldable pub matrix : Role → List String
matrix owner = "*" ∷ []
matrix admin =
    "dashboard:read" ∷ "dashboard:update" ∷ "agent:read" ∷ "agent:create" ∷ "agent:update"
    ∷ "agent:delete" ∷ "agent:suspend" ∷ "order:read" ∷ "approval:read" ∷ "approval:decide"
    ∷ "alert:read" ∷ "alert:write" ∷ "audit:read" ∷ "team:manage" ∷ "settings:update"
    ∷ "merchant:read" ∷ "webhook:read" ∷ "webhook:test" ∷ []
matrix operator =
    "dashboard:read" ∷ "agent:read" ∷ "agent:create" ∷ "agent:update" ∷ "agent:suspend"
    ∷ "order:read" ∷ "approval:read" ∷ "approval:decide" ∷ "alert:read" ∷ "audit:read"
    ∷ "merchant:read" ∷ "webhook:read" ∷ "webhook:test" ∷ []
matrix viewer =
    "dashboard:read" ∷ "agent:read" ∷ "order:read" ∷ "approval:read" ∷ "alert:read" ∷ "audit:read"
    ∷ "merchant:read" ∷ "webhook:read" ∷ []

-- `KNOWN_ROLES`.
abbrev known_role : Text → Option Role
known_role r =
    if same_text r (codes "owner")
    then some owner
    else if same_text r (codes "admin")
    then some admin
    else if same_text r (codes "operator")
    then some operator
    else if same_text r (codes "viewer")
    then some viewer
    else none

abbrev pub canonical_role : Text → Role
canonical_role [] = viewer
canonical_role (c ∷ s) =
    if same_text (c ∷ s) (codes "user") then owner else get_or (known_role (c ∷ s)) viewer

unfoldable pub normalize_role : Option String → Role
normalize_role none = viewer
normalize_role (some role) = canonical_role (map lower (codes (trim role)))

abbrev pub includes : String → List String → Bool
includes s = any (λ t. str_eq t s)

abbrev pub role_can : Role → String → Bool
role_can role permission = includes "*" (matrix role) || includes permission (matrix role)

unfoldable pub can : Option String → String → Bool
unfolding matrix normalize_role
can role permission = role_can (normalize_role role) permission

abbrev pub known_permissions : List String
known_permissions =
    "dashboard:read" ∷ "dashboard:update" ∷ "dashboard:delete" ∷ "agent:read" ∷ "agent:create"
    ∷ "agent:update" ∷ "agent:delete" ∷ "agent:suspend" ∷ "order:read" ∷ "approval:read"
    ∷ "approval:decide" ∷ "alert:read" ∷ "alert:write" ∷ "audit:read" ∷ "team:manage"
    ∷ "settings:update" ∷ "merchant:read" ∷ "webhook:read" ∷ "webhook:test" ∷ []

-- The answer of the middleware; a permission that is not known is an exception at start-up.
pub data Access : Type 0 where
  unknown_permission unauthorized forbidden passed : Access

abbrev pub admit : Bool → Access
admit true = passed
admit false = forbidden

abbrev pub ask : Option (Option String) → String → Access
ask none permission = unauthorized
ask (some role) permission = admit (can role permission)

-- `requirePermission`; the user of the session is there or not, with a role or not.
unfoldable pub require_permission : String → Option (Option String) → Access
unfolding can
require_permission permission user =
    if includes permission known_permissions then ask user permission else unknown_permission
