-- ===== src/Authorization/Access.antt =====
-- Tenants, sessions and roles: core/authorization.py. A page that is served, a redirection to the
-- login page and an abort with its status are the three answers of a guarded route.
use sentinel_wp.Base.{
  ℕ, ◌≡◌, ◌↔◌, ◌≢◌, Bool, true, false, not, ◌||◌, Option, none, some, [], ◌∷◌, arith, if◌then◌else◌,
}
use sentinel_wp.Base.Text.{Text, codes, text_eq, text_eq_iff}
use sentinel_wp.Authorization.{first_given}

-- The signed-in user, the role and the tenant of a session; `none` for a key that is not set.
pub record Session : Type 0 where
  pub user_id : Option Text
  pub role : Option Text
  pub tenant_id : Option Text

pub data Answer : Type 0 where
  served : Answer
  to_login : Answer
  aborted : ℕ → Answer

unfoldable pub get_current_role : Session → Text
get_current_role s = elim s.role [ none ↦ codes "viewer" | some r ↦ r ]

unfoldable pub get_current_tenant_id : Session → Text
get_current_tenant_id s = elim s.tenant_id [ none ↦ codes "default-tenant" | some t ↦ t ]

-- An absent tenant is the empty text.
unfoldable pub check_tenant_access : Session → (resource_tenant user_tenant : Text) → Bool
unfolding get_current_tenant_id
check_tenant_access s [] user_tenant = false
check_tenant_access s (c ∷ t) user_tenant =
    text_eq (c ∷ t) (first_given user_tenant (get_current_tenant_id s))

-- `none` is a resource that is not there; the inner text is its tenant.
unfoldable pub enforce_tenant_object : Session → Option Text → Text → Answer
unfolding get_current_tenant_id
enforce_tenant_object s none user_tenant = aborted 404
enforce_tenant_object s (some []) user_tenant = aborted 404
enforce_tenant_object s (some (c ∷ t)) user_tenant =
    if not (text_eq (c ∷ t) (first_given user_tenant (get_current_tenant_id s)))
    then aborted 404
    else served

abbrev has_role : Option Text → Text → Bool
has_role none wanted = false
has_role (some r) wanted = text_eq r wanted

-- The decorators around a route.
unfoldable pub login_required : Session → Answer → Answer
login_required s route = elim s.user_id [ none ↦ to_login | some u ↦ route ]

unfoldable pub analyst_required : Session → Answer → Answer
analyst_required s route = elim s.user_id [
  | none ↦ to_login
  | some u ↦
      if not (has_role s.role (codes "admin") || has_role s.role (codes "analyst"))
      then aborted 403
      else route
]

unfoldable pub admin_required : Session → Answer → Answer
admin_required s route = elim s.user_id [
  | none ↦ to_login
  | some u ↦ if not (has_role s.role (codes "admin")) then aborted 403 else route
]

-- A resource is served to the user of a tenant exactly if that tenant has access to it; else the
-- answer is 404, whether the resource is there or not.
pub enforce_tenant_object_cases :
    (s : Session) (resource_tenant user_tenant : Text)
    → (enforce_tenant_object s (some resource_tenant) user_tenant
        ≡ (if check_tenant_access s resource_tenant user_tenant then served else aborted 404))
      × ((check_tenant_access s resource_tenant user_tenant ≡ true) ↔ (
          (resource_tenant ≢ [])
          × (resource_tenant ≡ first_given user_tenant (get_current_tenant_id s))))
unfolding check_tenant_access enforce_tenant_object
enforce_tenant_object_cases s [] user_tenant = ground arith
enforce_tenant_object_cases s (c ∷ t) user_tenant =
    ground (arith, text_eq_iff (c ∷ t) (first_given user_tenant (get_current_tenant_id s)))

-- What an administrator's route serves, an analyst's does too, and what an analyst's route serves,
-- a signed-in user's does too.
pub roles_are_nested :
    (s : Session)
    → (admin_required s served ≡ served → analyst_required s served ≡ served)
      × (analyst_required s served ≡ served → login_required s served ≡ served)
      × (login_required s served ≡ to_login → admin_required s served ≡ to_login)
unfolding login_required analyst_required admin_required
roles_are_nested s = ground arith
