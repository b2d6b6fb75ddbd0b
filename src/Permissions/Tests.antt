-- ===== src/Permissions/Tests.antt =====
-- The roles at the texts that the backend and older rows hold.
use cards.Prelude.{none, if◌then◌else◌, ◌≡◌, refl, some}
use cards.Prelude.Trim.{trim}
use cards.Permissions.{owner, admin, viewer, team_manage, normalize_role}
use cards.Permissions.Backend.{
  require_permission, forbidden, unauthorized, passed, unknown_permission,
}
use cards.Permissions.Agrees.{require_permission-can}
use cards.Permissions.{can}

padded_role : normalize_role (some " Admin ") ≡ admin
unfolding normalize_role trim
padded_role = refl

old_role : normalize_role (some "user") ≡ owner
unfolding normalize_role trim
old_role = refl

unknown_role : normalize_role (some "root") ≡ viewer
unfolding normalize_role trim
unknown_role = refl

misspelt : require_permission "agnet:create" (some (some "owner")) ≡ unknown_permission
unfolding require_permission
misspelt = refl

require_permission-can_example :
    (require_permission "team:manage" (some (some "Operator"))
      ≡ (if can (some "Operator") team_manage then passed else forbidden))
    × (require_permission "team:manage" none ≡ unauthorized)
require_permission-can_example = require_permission-can team_manage (some "Operator")
