-- ===== src/Permissions/Agrees.antt =====
-- The backend's roles (backend/src/lib/permissions.js) against the dashboard's
-- (web/app/dashboard/_lib/permissions.ts).
use cards.Prelude.{
  ◌≡◌, refl, ap, ◌∙◌, Bool, true, false, ◌||◌, Option, none, some, List, [], ◌∷◌, String, str_eq,
  map, any, get_or, if◌then◌else◌,
}
use cards.Prelude.Text.{Text, codes}
use cards.Prelude.Trim.{trim}
use cards.Permissions.{
  Role, owner, admin, operator, viewer, Permission, dashboard_read, dashboard_update,
  dashboard_delete, agent_read, agent_create, agent_update, agent_delete, agent_suspend, order_read,
  approval_read, approval_decide, alert_read, alert_write, audit_read, team_manage, settings_update,
  merchant_read, webhook_read, webhook_test, name, Grant, every, one, lower, role_of, is_every,
  is_one, grants,
}
use cards.Permissions
use cards.Permissions.Backend
use cards.Permissions.Backend.{
  canonical_role, role_can, includes, known_permissions, require_permission, passed, forbidden,
  unauthorized, admit, ask,
}

known_name : (p : Permission) → includes (name p) known_permissions ≡ true
known_name dashboard_read = refl
known_name dashboard_update = refl
known_name dashboard_delete = refl
known_name agent_read = refl
known_name agent_create = refl
known_name agent_update = refl
known_name agent_delete = refl
known_name agent_suspend = refl
known_name order_read = refl
known_name approval_read = refl
known_name approval_decide = refl
known_name alert_read = refl
known_name alert_write = refl
known_name audit_read = refl
known_name team_manage = refl
known_name settings_update = refl
known_name merchant_read = refl
known_name webhook_read = refl
known_name webhook_test = refl

no_star : (p : Permission) → str_eq (name p) "*" ≡ false
no_star dashboard_read = refl
no_star dashboard_update = refl
no_star dashboard_delete = refl
no_star agent_read = refl
no_star agent_create = refl
no_star agent_update = refl
no_star agent_delete = refl
no_star agent_suspend = refl
no_star order_read = refl
no_star approval_read = refl
no_star approval_decide = refl
no_star alert_read = refl
no_star alert_write = refl
no_star audit_read = refl
no_star team_manage = refl
no_star settings_update = refl
no_star merchant_read = refl
no_star webhook_read = refl
no_star webhook_test = refl

star_no : (p : Permission) → str_eq "*" (name p) ≡ false
star_no dashboard_read = refl
star_no dashboard_update = refl
star_no dashboard_delete = refl
star_no agent_read = refl
star_no agent_create = refl
star_no agent_update = refl
star_no agent_delete = refl
star_no agent_suspend = refl
star_no order_read = refl
star_no approval_read = refl
star_no approval_decide = refl
star_no alert_read = refl
star_no alert_write = refl
star_no audit_read = refl
star_no team_manage = refl
star_no settings_update = refl
star_no merchant_read = refl
star_no webhook_read = refl
star_no webhook_test = refl

-- The text of an entry of the dashboard's matrix.
abbrev grant_text : Grant → String
grant_text every = "*"
grant_text (one p) = name p

matrix_texts :
    (r : Role) → cards.Permissions.Backend.matrix r ≡ map grant_text (cards.Permissions.matrix r)
unfolding cards.Permissions.Backend.matrix cards.Permissions.matrix
matrix_texts owner = refl
matrix_texts admin = refl
matrix_texts operator = refl
matrix_texts viewer = refl

includes_star : (gs : List Grant) → includes "*" (map grant_text gs) ≡ any is_every gs
includes_star [] = refl
includes_star (every ∷ gs) = refl
includes_star (one p ∷ gs) = rw (no_star p) (includes_star gs)

includes-name :
    (p : Permission) (gs : List Grant) → includes (name p) (map grant_text gs) ≡ any (is_one p) gs
includes-name p [] = refl
includes-name p (every ∷ gs) = rw (star_no p) (includes-name p gs)
includes-name p (one q ∷ gs) = ap (λ b. str_eq (name q) (name p) || b) (includes-name p gs)

role_can-grants : (r : Role) (p : Permission) → role_can r (name p) ≡ grants r p
unfolding grants
role_can-grants r p =
    ap (λ m. includes "*" m || includes (name p) m) (matrix_texts r)
    ∙ rw (includes_star (cards.Permissions.matrix r), includes-name p (cards.Permissions.matrix r))
        refl

same_role :
    (u o a p v : Bool)
    → (if u
        then owner
        else get_or
            (if o
              then some owner
              else if a
              then some admin
              else if p
              then some operator
              else if v
              then some viewer
              else none)
            viewer)
      ≡ (if u
          then owner
          else if o
          then owner
          else if a
          then admin
          else if p
          then operator
          else viewer)
same_role true o a p v = refl
same_role false true a p v = refl
same_role false false true p v = refl
same_role false false false true v = refl
same_role false false false false true = refl
same_role false false false false false = refl

canonical_role-role_of : (t : Text) → canonical_role t ≡ role_of t
canonical_role-role_of [] = refl
canonical_role-role_of (c ∷ s) = same_role _ _ _ _ _

normalize_role_same :
    (role : Option String)
    → cards.Permissions.Backend.normalize_role role ≡ cards.Permissions.normalize_role role
unfolding cards.Permissions.Backend.normalize_role cards.Permissions.normalize_role
normalize_role_same none = refl
normalize_role_same (some role) = canonical_role-role_of (map lower (codes (trim role)))

admit_if : (b : Bool) → admit b ≡ (if b then passed else forbidden)
admit_if true = refl
admit_if false = refl

-- For every permission of the dashboard and whatever the role of the user, the backend lets the request
-- through exactly where the dashboard says that the user can; without a user it is not authorised, and
-- no permission of the dashboard is unknown to the backend.
pub require_permission-can :
    (p : Permission) (role : Option String)
    → (require_permission (name p) (some role)
        ≡ (if cards.Permissions.can role p then passed else forbidden))
      × (require_permission (name p) none ≡ unauthorized)
unfolding require_permission cards.Permissions.Backend.can cards.Permissions.can
require_permission-can p role =
    rw
      (
        known_name p,
        normalize_role_same role,
        role_can-grants (cards.Permissions.normalize_role role) p,
      )
      (admit_if (grants (cards.Permissions.normalize_role role) p), refl)
