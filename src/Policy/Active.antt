-- ===== src/Policy/Active.antt =====
-- At most one version of a policy is ACTIVE: core/policy/engine.py.
use sentinel_wp.Base.{
  ℕ, ◌≡◌, refl, ap, ◌∙◌, ◌≢◌, inl, inr, not, ◌&&◌, none, some, arith, ◌==◌, if◌then◌else◌,
  Option-cases, Bool-cases,
}
use sentinel_wp.Base.Table.{get_row, key-get_row}
use sentinel_wp.Policy.{
  Policy, PolicyVersion, draft, retired, Governance, policy_key, version_key, update_version,
  save_policy, save_policy_version, log_audit_event,
}
use sentinel_wp.Policy.Engine.{retire_previous, activated, activate}
use sentinel_wp.Policy.Writes.{
  active_of, pointer, versions-save, versions-add, policies-save, policies-add,
  policies-save_policy_version, versions-save_policy,
}

-- Each ACTIVE version is the one that its policy points to, and no version has an empty id.
abbrev pub IsGoverned : Governance → Type 0
IsGoverned db =
    (get_row version_key 0 db.versions ≡ none)
    × ((k q : ℕ) → active_of k db ≡ some q → (k ≢ 0) × (pointer q db ≡ k))

-- A new draft leaves the ACTIVE versions as they are.
pub add_draft :
    (now : ℕ) (v : PolicyVersion) (db : Governance)
    → get_row version_key v.id db.versions ≡ none
    → v.id ≢ 0
    → v.status ≡ draft
    → IsGoverned db
    → IsGoverned (save_policy_version now v db)
add_draft now v db fresh nonzero is_draft (zero_free, governed) = (
  ground (arith, versions-add now v db 0 fresh),
  λ k q h.
      ground
        (arith, versions-add now v db k fresh, policies-save_policy_version now v db, governed k q),
)

pub add_policy :
    (now : ℕ) (p : Policy) (db : Governance)
    → get_row policy_key p.id db.policies ≡ none
    → p.active_version_id ≡ 0
    → IsGoverned db
    → IsGoverned (save_policy now p db)
add_policy now p db fresh empty (zero_free, governed) = (
  ground (arith, versions-save_policy now p db),
  λ k q h.
      ground
        (arith, versions-save_policy now p db, policies-add now p db q fresh empty, governed k q),
)

-- After the retirement no version is ACTIVE under the id that the policy points to.
active_of-retire_previous :
    (now : ℕ) (p : Policy) (db : Governance) (k : ℕ)
    → active_of k (retire_previous now p db) ≡ (
        if k == p.active_version_id && not (p.active_version_id == 0) then none else active_of k db)
unfolding retire_previous
active_of-retire_previous now p db k =
    elim (Option-cases (get_row version_key p.active_version_id db.versions)) [
      | inl e ↦ ground (arith, e)
      | inr (old, e) ↦
          let same = key-get_row version_key p.active_version_id db.versions old e in
          let saved =
            versions-save now (record old { status = retired }) old db k
              (ap (λ i. get_row version_key i db.versions) same ∙ e) in
          ground (arith, e, same, saved)
    ]

pub policies-retire_previous :
    (now : ℕ) (p : Policy) (db : Governance) → (retire_previous now p db).policies ≡ db.policies
unfolding retire_previous save_policy_version
policies-retire_previous now p db = ground arith

pub row-retire_previous :
    (now : ℕ) (p : Policy) (db : Governance) (k : ℕ) (w : PolicyVersion)
    → get_row version_key k db.versions ≡ some w
    → (m : PolicyVersion) × (get_row version_key k (retire_previous now p db).versions ≡ some m)
      × (m.policy_id ≡ w.policy_id)
unfolding retire_previous
row-retire_previous now p db k w h = elim (Bool-cases (p.active_version_id == 0)) [
  | inl z ↦ rw z (w, h, refl)
  | inr z ↦ elim (Option-cases (get_row version_key p.active_version_id db.versions)) [
    | inl e ↦ rw (z, e) (w, h, refl)
    | inr (old, e) ↦
        let same = key-get_row version_key p.active_version_id db.versions old e in
        let saved =
          versions-save now (record old { status = retired }) old db k
            (ap (λ i. get_row version_key i db.versions) same ∙ e) in
        elim (Bool-cases (k == old.id)) [
          | inl here ↦
              rw (z, e, saved, here)
                (
                  update_version (record old { status = retired }) old,
                  refl,
                  ground (arith, e, h, same, here),
                )
          | inr there ↦ rw (z, e, saved, there) (w, h, refl)
        ]
  ]
]

-- What an activation leaves: the version is the one ACTIVE version of its policy.
pub activate_effect :
    (tenant_id now approved_by actor : ℕ) (v : PolicyVersion) (p : Policy) (db : Governance)
    → get_row version_key v.id db.versions ≡ some v
    → get_row policy_key p.id db.policies ≡ some p
    → ((k : ℕ)
        → active_of k (activate tenant_id now approved_by actor v p db) ≡ (
            if k == v.id
            then some v.policy_id
            else if k == p.active_version_id && not (p.active_version_id == 0)
            then none
            else active_of k db))
      × ((q : ℕ)
          → pointer q (activate tenant_id now approved_by actor v p db)
            ≡ (if q == p.id then v.id else pointer q db))
unfolding activate log_audit_event
activate_effect tenant_id now approved_by actor v p db hv hp =
    let (m, row, same) = row-retire_previous now p db v.id v hv in
    let v' = activated now approved_by actor v in
    let p' : Policy = record p { active_version_id = v.id; updated_at = now } in
    let db1 = retire_previous now p db in
    let db2 = save_policy_version now v' db1 in
    let kept = policies-save_policy_version now v' db1 ∙ policies-retire_previous now p db in
    let found = ap (λ ps. get_row policy_key p.id ps) kept ∙ hp in
    (
      λ k. ground (
        arith,
        versions-save_policy now p' db2,
        versions-save now v' m db1 k row,
        active_of-retire_previous now p db k,
        same,
      ),
      λ q. ground (arith, policies-save now p' p db2 q found, kept),
    )

absent-retire_previous :
    (now : ℕ) (p : Policy) (db : Governance) (k : ℕ)
    → get_row version_key k db.versions ≡ none
    → get_row version_key k (retire_previous now p db).versions ≡ none
unfolding retire_previous
absent-retire_previous now p db k h =
    elim (Option-cases (get_row version_key p.active_version_id db.versions)) [
      | inl e ↦ ground (arith, e, h)
      | inr (old, e) ↦
          let same = key-get_row version_key p.active_version_id db.versions old e in
          let saved =
            versions-save now (record old { status = retired }) old db k
              (ap (λ i. get_row version_key i db.versions) same ∙ e) in
          ground (arith, e, h, same, saved)
    ]

absent-activate :
    (tenant_id now approved_by actor : ℕ) (v : PolicyVersion) (p : Policy) (db : Governance)
    → get_row version_key v.id db.versions ≡ some v
    → (k : ℕ) → get_row version_key k db.versions ≡ none
    → get_row version_key k (activate tenant_id now approved_by actor v p db).versions ≡ none
unfolding activate log_audit_event
absent-activate tenant_id now approved_by actor v p db hv k h =
    let (m, row, same) = row-retire_previous now p db v.id v hv in
    let v' = activated now approved_by actor v in
    let p' : Policy = record p { active_version_id = v.id; updated_at = now } in
    let db1 = retire_previous now p db in
    ground (
      arith,
      versions-save_policy now p' (save_policy_version now v' db1),
      versions-save now v' m db1 k row,
      absent-retire_previous now p db k h,
      h,
      hv,
    )

pub activate-IsGoverned :
    (tenant_id now approved_by actor : ℕ) (v : PolicyVersion) (p : Policy) (db : Governance)
    → get_row version_key v.id db.versions ≡ some v
    → get_row policy_key p.id db.policies ≡ some p
    → p.id ≡ v.policy_id
    → IsGoverned db
    → IsGoverned (activate tenant_id now approved_by actor v p db)
activate-IsGoverned tenant_id now approved_by actor v p db hv hp same (zero_free, governed) =
    let (actives, pointers) = activate_effect tenant_id now approved_by actor v p db hv hp in
    (
      absent-activate tenant_id now approved_by actor v p db hv 0 zero_free,
      λ k q h. ground (arith, actives k, pointers q, governed k q, zero_free, hv, same),
    )
