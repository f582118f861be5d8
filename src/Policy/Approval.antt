-- ===== src/Policy/Approval.antt =====
-- Who may activate a version, and how versions are numbered: core/policy/engine.py.
use sentinel_wp.Base.{
  ℕ, ◌≤◌, ◌<◌, ◌≡◌, ap, ◌∙◌, ◌≢◌, Bool, true, false, some, List, [], ◌∷◌, map, arith, ◌==◌, In,
  map-In, keep, keep-In,
}
use sentinel_wp.Base.Sort.{sort_desc-In}
use sentinel_wp.Base.Text.{Text}
use sentinel_wp.Base.Table.{get_row, key-get_row}
use sentinel_wp.Policy.{
  Policy, PolicyVersion, Definition, Governance, policy_key, version_key, get_policy,
  list_policy_versions,
}
use sentinel_wp.Policy.Engine.{
  ok, activate, activate_version, next_version, lacks_approval, activated, max_of,
}
use sentinel_wp.Policy.Writes.{active_of, pointer}
use sentinel_wp.Policy.Active.{activate_effect}
use sentinel_wp.Policy.Runs.{activate_version-Activated, get_policy-row}

-- Where approval is required, a version that a call activates is approved by the reviewer named in
-- the call, who is somebody and not the version's author.
pub activation_approved :
    (tenant_id now version_id approved_by actor : ℕ) (db db' : Governance) (v : PolicyVersion)
    → activate_version true tenant_id now version_id approved_by actor db ≡ ok db' v
    → (approved_by ≢ 0) × (v.approved_by ≡ approved_by) × (v.approved_by ≢ v.created_by)
activation_approved tenant_id now version_id approved_by actor db db' v h =
    let (u, p, e, n, l, same, done) =
      activate_version-Activated true tenant_id now version_id approved_by actor db db' v h in
    rw done (ground (arith, l))

max_of-le : (n : ℕ) (ns : List ℕ) → In n ns → n ≤ max_of ns
max_of-le n [] h = elim h [ ]
max_of-le n (m ∷ ns) h = ground (arith, h, max_of-le n ns)

-- A new version's number is above those of all versions of the policy.
pub next_version_above :
    (checksum : Definition → Text) (now version_id : ℕ) (definition : Definition) (created_by : ℕ)
    (policy : Policy) (db : Governance) (w : PolicyVersion)
    → In w db.versions
    → w.policy_id ≡ policy.id
    → w.version < (next_version checksum now version_id definition created_by policy db).version
unfolding next_version list_policy_versions
next_version_above checksum now version_id definition created_by policy db w i e =
    let kept = keep-In (λ v. v.policy_id == policy.id) w db.versions i (ground arith) in
    let listed =
      sort_desc-In (λ v. v.version) w (keep (λ v. v.policy_id == policy.id) db.versions) kept in
    let m =
      max_of-le w.version (map (λ v. v.version) (list_policy_versions policy.id db))
        (map-In (λ v. v.version) w (list_policy_versions policy.id db) listed) in
    ground (arith, m)

-- A call with a version, a policy of the tenant and the approval that is required succeeds whatever
-- the version's status is, and leaves the version as the ACTIVE one of its policy.
pub activate_version-eq-ok :
    (required : Bool) (tenant_id now version_id approved_by actor : ℕ) (db : Governance)
    (u : PolicyVersion) (p : Policy)
    → get_row version_key version_id db.versions ≡ some u
    → get_policy u.policy_id tenant_id db ≡ some p
    → lacks_approval required approved_by u ≡ false
    → (db' : Governance) × (activate_version required tenant_id now version_id approved_by actor db
        ≡ ok db' (activated now approved_by actor u))
      × (active_of version_id db' ≡ some u.policy_id)
      × (pointer u.policy_id db' ≡ version_id)
unfolding activate_version
activate_version-eq-ok required tenant_id now version_id approved_by actor db u p hu hp l =
    let own = key-get_row version_key version_id db.versions u hu in
    let row = get_policy-row u.policy_id tenant_id db p hp in
    let parent = key-get_row policy_key u.policy_id db.policies p row in
    let (actives, pointers) =
      activate_effect tenant_id now approved_by actor u p db
        (ap (λ i. get_row version_key i db.versions) own ∙ hu)
        (ap (λ i. get_row policy_key i db.policies) parent ∙ row) in
    (
      activate tenant_id now approved_by actor u p db,
      ground (arith, hu, hp, l),
      ground (arith, actives version_id, own),
      ground (arith, pointers u.policy_id, own, parent),
    )
