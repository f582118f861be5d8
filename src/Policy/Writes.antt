-- ===== src/Policy/Writes.antt =====
-- The tables of policies after a write: core/db/repositories/governance_repo.py.
use sentinel_wp.Base.{
  ℕ, ◌≡◌, refl, Bool, true, false, Option, none, some, List, [], ◌∷◌, ◌++◌, arith, ◌==◌,
  if◌then◌else◌, Option-cases,
}
use sentinel_wp.Base.Table.{get_row, get_row-modify_row}
use sentinel_wp.Policy.{
  Policy, PolicyVersion, PolicyVersionStatus, active, Governance, policy_key, version_key,
  update_policy, inserted_policy, update_version, inserted_version, save_policy,
  save_policy_version,
}

abbrev pub is_active : PolicyVersionStatus → Bool
is_active active = true
is_active _ = false

-- The policy of a version, if the version is ACTIVE.
abbrev pub policy_if_active : Option PolicyVersion → Option ℕ
policy_if_active none = none
policy_if_active (some v) = if is_active v.status then some v.policy_id else none

abbrev pub active_of : ℕ → Governance → Option ℕ
active_of k db = policy_if_active (get_row version_key k db.versions)

abbrev pub pointer_of : Option Policy → ℕ
pointer_of none = 0
pointer_of (some p) = p.active_version_id

-- The version that a policy points to, 0 for none.
abbrev pub pointer : ℕ → Governance → ℕ
pointer q db = pointer_of (get_row policy_key q db.policies)

or_row : {R : Type 0} (key : R → ℕ) → ℕ → Option R → R → Option R
or_row key k (some r) x = some r
or_row key k none x = if key x == k then some x else none

get_row-add :
    {R : Type 0} (key : R → ℕ) (k : ℕ) (rs : List R) (x : R)
    → get_row key k (rs ++ x ∷ []) ≡ or_row key k (get_row key k rs) x
unfolding or_row
get_row-add key k [] x = refl
get_row-add key k (r ∷ rs) x = ground (arith, get_row-add key k rs x)

pub versions-save :
    (now : ℕ) (v m : PolicyVersion) (db : Governance) (k : ℕ)
    → get_row version_key v.id db.versions ≡ some m
    → get_row version_key k (save_policy_version now v db).versions
      ≡ (if k == v.id then some (update_version v m) else get_row version_key k db.versions)
unfolding save_policy_version
versions-save now v m db k h =
    ground (arith, get_row-modify_row version_key k v.id (update_version v) db.versions (λ r. refl))

pub versions-add :
    (now : ℕ) (v : PolicyVersion) (db : Governance) (k : ℕ)
    → get_row version_key v.id db.versions ≡ none
    → get_row version_key k (save_policy_version now v db).versions
      ≡ (if k == v.id then some (inserted_version now v) else get_row version_key k db.versions)
unfolding save_policy_version or_row
versions-add now v db k h = ground (
  arith,
  get_row-add version_key k db.versions (inserted_version now v),
  Option-cases (get_row version_key k db.versions),
)

pub policies-save :
    (now : ℕ) (p m : Policy) (db : Governance) (q : ℕ)
    → get_row policy_key p.id db.policies ≡ some m
    → pointer q (save_policy now p db) ≡ (if q == p.id then p.active_version_id else pointer q db)
unfolding save_policy
policies-save now p m db q h =
    ground
      (arith, get_row-modify_row policy_key q p.id (update_policy now p) db.policies (λ r. refl))

pub policies-add :
    (now : ℕ) (p : Policy) (db : Governance) (q : ℕ)
    → get_row policy_key p.id db.policies ≡ none
    → p.active_version_id ≡ 0
    → pointer q (save_policy now p db) ≡ pointer q db
unfolding save_policy or_row
policies-add now p db q h e = ground (
  arith,
  get_row-add policy_key q db.policies (inserted_policy now p),
  Option-cases (get_row policy_key q db.policies),
)

pub policies-save_policy_version :
    (now : ℕ) (v : PolicyVersion) (db : Governance)
    → (save_policy_version now v db).policies ≡ db.policies
unfolding save_policy_version
policies-save_policy_version now v db = ground arith

pub versions-save_policy :
    (now : ℕ) (p : Policy) (db : Governance) → (save_policy now p db).versions ≡ db.versions
unfolding save_policy
versions-save_policy now p db = ground arith
