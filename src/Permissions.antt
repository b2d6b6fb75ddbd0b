-- ===== src/Permissions.antt =====
-- web/app/dashboard/_lib/permissions.ts: the roles of a dashboard and what each may do.
pub mod Order
pub mod Backend
pub mod Agrees
pub mod Tests
use cards.Prelude.{
  ℕ, ◌+◌, Bool, true, false, ◌&&◌, ◌||◌, Option, none, some, List, [], ◌∷◌, String, ◌==◌, str_eq,
  leb, any, map, if◌then◌else◌,
}
use cards.Prelude.Text.{Text, codes}
use cards.Prelude.Trim.{trim}

pub data Role : Type 0 where
  owner admin operator viewer : Role

pub data Permission : Type 0 where
  dashboard_read dashboard_update dashboard_delete agent_read agent_create agent_update agent_delete
        agent_suspend order_read approval_read approval_decide alert_read alert_write audit_read
        team_manage settings_update merchant_read webhook_read webhook_test :
      Permission

-- The text that stands for a permission.
abbrev pub name : Permission → String
name dashboard_read = "dashboard:read"
name dashboard_update = "dashboard:update"
name dashboard_delete = "dashboard:delete"
name agent_read = "agent:read"
name agent_create = "agent:create"
name agent_update = "agent:update"
name agent_delete = "agent:delete"
name agent_suspend = "agent:suspend"
name order_read = "order:read"
name approval_read = "approval:read"
name approval_decide = "approval:decide"
name alert_read = "alert:read"
name alert_write = "alert:write"
name audit_read = "audit:read"
name team_manage = "team:manage"
name settings_update = "settings:update"
name merchant_read = "merchant:read"
name webhook_read = "webhook:read"
name webhook_test = "webhook:test"

-- An entry of the matrix: everything, or one permission.
pub data Grant : Type 0 where
  every : Grant
  one : Permission → Grant

unfoldable pub matrix : Role → List Grant
matrix owner = every ∷ []
matrix admin =
    one dashboard_read
    ∷ one dashboard_update
    ∷ one agent_read
    ∷ one agent_create
    ∷ one agent_update
    ∷ one agent_delete
    ∷ one agent_suspend
    ∷ one order_read
    ∷ one approval_read
    ∷ one approval_decide
    ∷ one alert_read
    ∷ one alert_write
    ∷ one audit_read
    ∷ one team_manage
    ∷ one settings_update
    ∷ one merchant_read
    ∷ one webhook_read
    ∷ one webhook_test
    ∷ []
matrix operator =
    one dashboard_read
    ∷ one agent_read
    ∷ one agent_create
    ∷ one agent_update
    ∷ one agent_suspend
    ∷ one order_read
    ∷ one approval_read
    ∷ one approval_decide
    ∷ one alert_read
    ∷ one audit_read
    ∷ one merchant_read
    ∷ one webhook_read
    ∷ one webhook_test
    ∷ []
matrix viewer =
    one dashboard_read
    ∷ one agent_read
    ∷ one order_read
    ∷ one approval_read
    ∷ one alert_read
    ∷ one audit_read
    ∷ one merchant_read
    ∷ one webhook_read
    ∷ []

-- `toLowerCase`, of which only the ASCII letters matter: no other letter has one of the letters of
-- the roles' names as its lower case.
abbrev pub lower : ℕ → ℕ
lower c = if leb b'A' c && leb c b'Z' then c + 32 else c

abbrev pub same_text : Text → Text → Bool
same_text [] [] = true
same_text [] (d ∷ t) = false
same_text (c ∷ s) [] = false
same_text (c ∷ s) (d ∷ t) = c == d && same_text s t

-- `user` is the value of an older schema.
abbrev pub role_of : Text → Role
role_of r =
    if same_text r (codes "user")
    then owner
    else if same_text r (codes "owner")
    then owner
    else if same_text r (codes "admin")
    then admin
    else if same_text r (codes "operator")
    then operator
    else viewer

unfoldable pub normalize_role : Option String → Role
normalize_role none = viewer
normalize_role (some role) = role_of (map lower (codes (trim role)))

abbrev pub is_every : Grant → Bool
is_every every = true
is_every (one p) = false

abbrev pub is_one : Permission → Grant → Bool
is_one p every = false
is_one p (one q) = str_eq (name q) (name p)

unfoldable pub grants : Role → Permission → Bool
unfolding matrix
grants role p = any is_every (matrix role) || any (is_one p) (matrix role)

unfoldable pub can : Option String → Permission → Bool
unfolding grants
can role p = grants (normalize_role role) p

abbrev pub permission_keys : List Permission
permission_keys =
    dashboard_read ∷ dashboard_update ∷ dashboard_delete ∷ agent_read ∷ agent_create ∷ agent_update
    ∷ agent_delete ∷ agent_suspend ∷ order_read ∷ approval_read ∷ approval_decide ∷ alert_read
    ∷ alert_write ∷ audit_read ∷ team_manage ∷ settings_update ∷ merchant_read ∷ webhook_read
    ∷ webhook_test ∷ []

pub record Checked : Type 0 where
  pub permission : Permission
  pub allowed : Bool

abbrev checks : Option String → List Permission → List Checked
checks role [] = []
checks role (p ∷ ps) = record { permission = p; allowed = can role p } ∷ checks role ps

unfoldable pub permissions_for : Option String → List Checked
permissions_for role = checks role permission_keys

-- `out[p]`.
abbrev pub get : Permission → List Checked → Option Bool
get p [] = none
get p (c ∷ cs) =
    let rest = get p cs in if str_eq (name c.permission) (name p) then some c.allowed else rest
