-- ===== src/Users/Role.antt =====
-- internal/users/users.go: `type Role string` and its methods. A role is any text; three are known.
use step_ui_ng.Base.{
  ℕ, String, ◌≡◌, ◌⊎◌, Bool, true, false, ◌||◌, arith, leb, ◌==◌, string_eq, if◌then◌else◌, eq_iff,
  ◌↔◌, ◌≢◌, refl,
}

abbrev pub Role : Type 0
Role = String

abbrev pub superadmin : Role
superadmin = "superadmin"

abbrev pub admin : Role
admin = "admin"

abbrev pub viewer : Role
viewer = "viewer"

-- `Role.Valid`
unfoldable pub valid : Role → Bool
valid r = r == superadmin || r == admin || r == viewer

-- `Role.rank`
unfoldable pub rank : Role → ℕ
rank r = if r == superadmin then 3 else if r == admin then 2 else if r == viewer then 1 else 0

-- `Role.AtLeast`
unfoldable pub at_least : Role → Role → Bool
at_least r other = leb (rank other) (rank r)

-- `Role.CanManageUsers`
unfoldable pub can_manage_users : Role → Bool
can_manage_users r = at_least r admin

-- `Role.CanAssign`
unfoldable pub can_assign : Role → Role → Bool
can_assign r target = at_least r target

-- `Role.CanManage`
unfoldable pub can_manage : Role → Role → Bool
can_manage r target = if target == superadmin then r == superadmin else can_manage_users r

-- Only the three known roles have a rank, and the rank tells them apart.
pub rank-cases :
    (r : Role)
    → ((r ≡ superadmin) × (rank r ≡ 3))
      ⊎ ((r ≡ admin) × (rank r ≡ 2))
      ⊎ ((r ≡ viewer) × (rank r ≡ 1))
      ⊎ ((valid r ≡ false) × (rank r ≡ 0))
unfolding rank valid
rank-cases r = ground (arith, eq_iff r superadmin, eq_iff r admin, eq_iff r viewer)

-- The privilege guards: only a superadmin may assign the superadmin role; an account may be managed
-- exactly by a superadmin, or by an admin if it is no superadmin's; and a role may manage users
-- exactly if it may assign the admin role.
pub ceiling :
    (actor target : Role)
    → ((can_assign actor superadmin ≡ true) ↔ (actor ≡ superadmin))
      × ((can_manage actor target ≡ true)
          ↔ ((actor ≡ superadmin) ⊎ ((actor ≡ admin) × (target ≢ superadmin))))
      × ((can_manage_users actor ≡ true) ↔ ((actor ≡ superadmin) ⊎ (actor ≡ admin)))
      × (can_manage_users actor ≡ can_assign actor admin)
unfolding can_assign can_manage can_manage_users at_least rank
ceiling actor target = (
  ground (arith, eq_iff actor superadmin, eq_iff actor admin, eq_iff actor viewer),
  ground (
    arith,
    eq_iff actor superadmin,
    eq_iff actor admin,
    eq_iff actor viewer,
    eq_iff target superadmin,
  ),
  ground (arith, eq_iff actor superadmin, eq_iff actor admin, eq_iff actor viewer),
  refl,
)
