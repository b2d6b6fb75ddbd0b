-- ===== src/Permissions/Order.antt =====
-- The order of the roles of web/app/dashboard/_lib/permissions.ts.
use cards.Prelude.{ℕ, ◌≤◌, ◌≡◌, refl, Bool, true, false, Option, some, String, arith}
use cards.Permissions.{
  Role, owner, admin, operator, viewer, Permission, dashboard_read, dashboard_update,
  dashboard_delete, agent_read, agent_create, agent_update, agent_delete, agent_suspend, order_read,
  approval_read, approval_decide, alert_read, alert_write, audit_read, team_manage, settings_update,
  merchant_read, webhook_read, webhook_test, grants, can, normalize_role, permissions_for, get,
  matrix,
}

abbrev pub rank : Role → ℕ
rank viewer = 0
rank operator = 1
rank admin = 2
rank owner = 3

grants-operator : (p : Permission) → grants viewer p ≡ true → grants operator p ≡ true
unfolding grants
grants-operator dashboard_read h = refl
grants-operator dashboard_update h = cc
grants-operator dashboard_delete h = cc
grants-operator agent_read h = refl
grants-operator agent_create h = refl
grants-operator agent_update h = refl
grants-operator agent_delete h = cc
grants-operator agent_suspend h = refl
grants-operator order_read h = refl
grants-operator approval_read h = refl
grants-operator approval_decide h = refl
grants-operator alert_read h = refl
grants-operator alert_write h = cc
grants-operator audit_read h = refl
grants-operator team_manage h = cc
grants-operator settings_update h = cc
grants-operator merchant_read h = refl
grants-operator webhook_read h = refl
grants-operator webhook_test h = refl

grants-admin : (p : Permission) → grants operator p ≡ true → grants admin p ≡ true
unfolding grants
grants-admin dashboard_read h = refl
grants-admin dashboard_update h = refl
grants-admin dashboard_delete h = cc
grants-admin agent_read h = refl
grants-admin agent_create h = refl
grants-admin agent_update h = refl
grants-admin agent_delete h = refl
grants-admin agent_suspend h = refl
grants-admin order_read h = refl
grants-admin approval_read h = refl
grants-admin approval_decide h = refl
grants-admin alert_read h = refl
grants-admin alert_write h = refl
grants-admin audit_read h = refl
grants-admin team_manage h = refl
grants-admin settings_update h = refl
grants-admin merchant_read h = refl
grants-admin webhook_read h = refl
grants-admin webhook_test h = refl

grants-owner : (p : Permission) → grants owner p ≡ true
unfolding grants
grants-owner p = refl

-- Whoever has a higher role may do all that a lower one may.
grants_mono :
    (r s : Role) (p : Permission) → rank r ≤ rank s → grants r p ≡ true → grants s p ≡ true
grants_mono viewer viewer p h g = g
grants_mono viewer operator p h g = grants-operator p g
grants_mono viewer admin p h g = grants-admin p (grants-operator p g)
grants_mono operator operator p h g = g
grants_mono operator admin p h g = grants-admin p g
grants_mono admin admin p h g = g
grants_mono r owner p h g = grants-owner p
grants_mono operator viewer p h g = absurd (omega arith)
grants_mono admin viewer p h g = absurd (omega arith)
grants_mono admin operator p h g = absurd (omega arith)
grants_mono owner viewer p h g = absurd (omega arith)
grants_mono owner operator p h g = absurd (omega arith)
grants_mono owner admin p h g = absurd (omega arith)

-- The permissions that change nothing.
abbrev pub is_read : Permission → Bool
is_read dashboard_read = true
is_read agent_read = true
is_read order_read = true
is_read approval_read = true
is_read alert_read = true
is_read audit_read = true
is_read merchant_read = true
is_read webhook_read = true
is_read _ = false

-- A viewer, and so whoever has no role, or one that is not known, may read and do nothing else.
can-viewer :
    (role : Option String) (p : Permission) → normalize_role role ≡ viewer → can role p ≡ is_read p
unfolding can grants
can-viewer role dashboard_read h = rw (h, grants, matrix) refl
can-viewer role dashboard_update h = rw (h, grants, matrix) refl
can-viewer role dashboard_delete h = rw (h, grants, matrix) refl
can-viewer role agent_read h = rw (h, grants, matrix) refl
can-viewer role agent_create h = rw (h, grants, matrix) refl
can-viewer role agent_update h = rw (h, grants, matrix) refl
can-viewer role agent_delete h = rw (h, grants, matrix) refl
can-viewer role agent_suspend h = rw (h, grants, matrix) refl
can-viewer role order_read h = rw (h, grants, matrix) refl
can-viewer role approval_read h = rw (h, grants, matrix) refl
can-viewer role approval_decide h = rw (h, grants, matrix) refl
can-viewer role alert_read h = rw (h, grants, matrix) refl
can-viewer role alert_write h = rw (h, grants, matrix) refl
can-viewer role audit_read h = rw (h, grants, matrix) refl
can-viewer role team_manage h = rw (h, grants, matrix) refl
can-viewer role settings_update h = rw (h, grants, matrix) refl
can-viewer role merchant_read h = rw (h, grants, matrix) refl
can-viewer role webhook_read h = rw (h, grants, matrix) refl
can-viewer role webhook_test h = rw (h, grants, matrix) refl

-- `permissionsFor` holds, for each permission, what `can` answers.
get-permissions_for :
    (role : Option String) (p : Permission) → get p (permissions_for role) ≡ some (can role p)
unfolding permissions_for
get-permissions_for role dashboard_read = refl
get-permissions_for role dashboard_update = refl
get-permissions_for role dashboard_delete = refl
get-permissions_for role agent_read = refl
get-permissions_for role agent_create = refl
get-permissions_for role agent_update = refl
get-permissions_for role agent_delete = refl
get-permissions_for role agent_suspend = refl
get-permissions_for role order_read = refl
get-permissions_for role approval_read = refl
get-permissions_for role approval_decide = refl
get-permissions_for role alert_read = refl
get-permissions_for role alert_write = refl
get-permissions_for role audit_read = refl
get-permissions_for role team_manage = refl
get-permissions_for role settings_update = refl
get-permissions_for role merchant_read = refl
get-permissions_for role webhook_read = refl
get-permissions_for role webhook_test = refl
