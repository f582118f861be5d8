-- ===== src/Policy/Crash.antt =====
-- Activations that do not complete: core/policy/engine.py.
use sentinel_wp.Base.{ℕ, ◌≡◌, ap, ◌∙◌, ◌≢◌, inl, inr, some, arith, Option-cases}
use sentinel_wp.Base.Table.{get_row, key-get_row}
use sentinel_wp.Policy.{
  Policy, PolicyVersion, retired, Governance, policy_key, version_key, save_policy_version,
}
use sentinel_wp.Policy.Engine.{activate, activate_until, activated, retire_previous}
use sentinel_wp.Policy.Writes.{active_of, pointer, versions-save, policies-save_policy_version}
use sentinel_wp.Policy.Active.{activate_effect, row-retire_previous, policies-retire_previous}

-- The retirement leaves every version alone but the one that the policy points to.
other-retire_previous :
    (now : ℕ) (p : Policy) (db : Governance) (k : ℕ)
    → k ≢ p.active_version_id
    → get_row version_key k (retire_previous now p db).versions ≡ get_row version_key k db.versions
unfolding retire_previous
other-retire_previous now p db k n =
    elim (Option-cases (get_row version_key p.active_version_id db.versions)) [
      | inl e ↦ ground (arith, e)
      | inr (old, e) ↦
          let same = key-get_row version_key p.active_version_id db.versions old e in
          let saved =
            versions-save now (record old { status = retired }) old db k
              (ap (λ i. get_row version_key i db.versions) same ∙ e) in
          ground (arith, e, same, saved, n)
    ]

-- For two versions of one policy, neither of which it points to: an activation of the first that dies
-- after it has made the version ACTIVE, before the policy points to it, and then an activation of the
-- second that completes, leave both versions ACTIVE, and the policy pointing to the second.
pub crash_leaves_two_active :
    (tenant now a u tenant2 now2 a2 u2 : ℕ) (v w : PolicyVersion) (p : Policy) (db : Governance)
    → get_row version_key v.id db.versions ≡ some v
    → get_row version_key w.id db.versions ≡ some w
    → get_row policy_key p.id db.policies ≡ some p
    → v.policy_id ≡ p.id
    → w.policy_id ≡ p.id
    → v.id ≢ w.id
    → v.id ≢ p.active_version_id
    → w.id ≢ p.active_version_id
    → let crashed = activate_until 2 tenant now a u v p db in
      let db' = activate tenant2 now2 a2 u2 w p crashed in
      (get_row policy_key p.id crashed.policies ≡ some p)
      × (active_of v.id db' ≡ some p.id)
      × (active_of w.id db' ≡ some p.id)
      × (pointer p.id db' ≡ w.id)
unfolding activate_until
crash_leaves_two_active tenant now a u tenant2 now2 a2 u2 v w p db hv hw hp pv pw vw va wa =
    let (m, r, same) = row-retire_previous now p db v.id v hv in
    let db1 = retire_previous now p db in
    let v' = activated now a u v in
    let crashed = save_policy_version now v' db1 in
    let kept = policies-save_policy_version now v' db1 ∙ policies-retire_previous now p db in
    let found = ap (λ ps. get_row policy_key p.id ps) kept ∙ hp in
    let row_w : get_row version_key w.id crashed.versions ≡ some w =
      ground (
        arith,
        versions-save now v' m db1 w.id r,
        other-retire_previous now p db w.id wa,
        hw,
        vw,
      ) in
    let (actives, pointers) = activate_effect tenant2 now2 a2 u2 w p crashed row_w found in
    (
      found,
      ground (arith, actives v.id, versions-save now v' m db1 v.id r, same, pv, vw, va),
      ground (arith, actives w.id, pw),
      ground (arith, pointers p.id),
    )
