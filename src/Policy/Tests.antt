-- ===== src/Policy/Tests.antt =====
-- Runs of the policy engine, and the theorems at concrete policies.
use sentinel_wp.Base.{
  ℕ, ◌≡◌, refl, ◌≢◌, inl, Bool, true, ◌||◌, ◌&&◌, some, [], ◌∷◌, ◌++◌, arith, In,
}
use sentinel_wp.Base.Text.{Text, codes, text_eq, text_eq_refl}
use sentinel_wp.Base.Table.{get_row}
use sentinel_wp.Base.Sort.{sort_desc}
use sentinel_wp.Policy.{
  Policy, PolicyVersion, sla, Definition, Governance, version_key, policy_key, get_policy,
  save_policy_version,
}
use sentinel_wp.Policy.Engine.{
  ok, permission_error, activate, activate_until, activate_version, create_policy,
  create_new_version, activated, draft_version,
}
use sentinel_wp.Policy.Writes.{active_of, pointer}
use sentinel_wp.Policy.Runs.{Reach, start, creates, drafts, activates, empty, one_active}
use sentinel_wp.Policy.Crash.{crash_leaves_two_active}
use sentinel_wp.Policy.Approval.{activation_approved}
use sentinel_wp.Policy.Diff.{diff_of, lookup, patched, SameField, patched-diff_of, IsDict}

-- The fields and values one after the other stand for the checksum.
abbrev checksum : Definition → Text
checksum [] = []
checksum ((k, x) ∷ d) = k ++ x ++ checksum d

abbrev days : Definition
days = (codes "days", codes "7") ∷ []

abbrev days_and_hours : Definition
days_and_hours = (codes "days", codes "3") ∷ (codes "hours", codes "4") ∷ []

-- Policy 5 of tenant 2 with its versions 10 and 11, made by user 20; user 21 approves.
abbrev created : Governance
created = (create_policy checksum 2 100 5 10 (codes "SLA") sla days 20 empty).0

abbrev first : PolicyVersion
first = draft_version 100 10 5 1 (checksum days) 20 days

abbrev second : PolicyVersion
second = draft_version 200 11 5 2 (checksum days_and_hours) 20 days_and_hours

abbrev the_policy : Policy
the_policy = record {
  id = 5;
  tenant_id = 2;
  name = codes "SLA";
  type_ = sla;
  active_version_id = 0;
  enabled = true;
  created_at = 100;
  updated_at = 0;
}

abbrev drafted : Governance
drafted = save_policy_version 200 second created

abbrev first_active : Governance
first_active = activate 2 300 21 20 first the_policy drafted

drafts_second : create_new_version checksum 2 200 5 11 days_and_hours 20 created ≡ ok drafted second
unfolding create_new_version create_policy sort_desc
drafts_second = refl

activates_first :
    activate_version true 2 300 10 21 20 drafted ≡ ok first_active (activated 300 21 20 first)
unfolding activate_version create_policy save_policy_version
activates_first = refl

self_approval_refused : activate_version true 2 300 10 20 20 drafted ≡ permission_error
unfolding activate_version create_policy save_policy_version
self_approval_refused = refl

reached : Reach checksum first_active
unfolding create_policy
reached = activates true 2 300 10 21 20 (activated 300 21 20 first) activates_first (
    drafts 2 200 5 11 days_and_hours 20 second (cc, refl) drafts_second
      (creates 2 100 5 10 (codes "SLA") sla days 20 refl (cc, refl) start))

first_is_active : active_of 10 first_active ≡ some 5
unfolding activate create_policy save_policy_version
first_is_active = refl

one_active_example : (first.id ≡ first.id) × (pointer 5 first_active ≡ 10)
one_active_example =
    one_active checksum first_active 10 10 5 reached first_is_active first_is_active

abbrev approver : ℕ
approver = 21

activation_approved_example : (approver ≢ 0) × (approver ≡ approver) × (approver ≢ first.created_by)
activation_approved_example =
    activation_approved 2 300 10 21 20 drafted first_active (activated 300 21 20 first)
      activates_first

first_stands : In first created.versions
unfolding create_policy
first_stands = inl refl

rows_found :
    (get_row version_key 11 first_active.versions ≡ some second)
    × ((p : Policy) × (get_policy 5 2 first_active ≡ some p))
unfolding activate create_policy save_policy_version get_policy
rows_found = (refl, (_, refl))

days_once : IsDict days
days_once = ground arith

-- 1 equals true, besides what is the same text.
abbrev same_value : Text → Text → Bool
same_value x y =
    text_eq x y
    || (text_eq x (codes "1") && text_eq y (codes "true")
        || text_eq x (codes "true") && text_eq y (codes "1"))

same_value_refl : (x : Text) → same_value x x ≡ true
same_value_refl x = ground (arith, text_eq_refl x)

patched-diff_of_example :
    SameField same_value
      (patched (diff_of same_value first second) (codes "hours") (lookup (codes "hours") days))
      (lookup (codes "hours") days_and_hours)
patched-diff_of_example =
    patched-diff_of same_value first second (codes "hours") same_value_refl days_once

drafted_rows :
    (get_row version_key 10 drafted.versions ≡ some first)
    × (get_row version_key 11 drafted.versions ≡ some second)
    × (get_row policy_key 5 drafted.policies ≡ some the_policy)
unfolding create_policy save_policy_version
drafted_rows = (refl, refl, refl)

other_versions : (first.id ≢ second.id) × (first.id ≢ 0) × (second.id ≢ 0)
other_versions = (cc, cc, cc)

crash_leaves_two_active_example :
    let crashed = activate_until 2 2 300 21 20 first the_policy drafted in
    let db' = activate 2 400 21 20 second the_policy crashed in
    (get_row policy_key 5 crashed.policies ≡ some the_policy)
    × (active_of 10 db' ≡ some 5)
    × (active_of 11 db' ≡ some 5)
    × (pointer 5 db' ≡ 11)
crash_leaves_two_active_example =
    crash_leaves_two_active 2 300 21 20 2 400 21 20 first second the_policy drafted drafted_rows.0
      drafted_rows.1 drafted_rows.2 refl refl other_versions.0 other_versions.1 other_versions.2
