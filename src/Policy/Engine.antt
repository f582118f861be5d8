-- ===== src/Policy/Engine.antt =====
-- The operations of PolicyEngine: core/policy/engine.py. The checksum of a definition (hashlib) is a
-- parameter, and so are the clock and the ids that uuid4 draws. A call that raises before it
-- writes leaves the tables as they are; `activate_until` has the calls that fail between two writes.
use sentinel_wp.Base.{
  ℕ, zero, suc, ◌+◌, Bool, true, ◌&&◌, ◌||◌, Option, none, some, List, [], ◌∷◌, ◌==◌, leb,
  if◌then◌else◌, map,
}
use sentinel_wp.Base.Text.{Text}
use sentinel_wp.Policy.{
  Policy, PolicyVersion, PolicyType, draft, active, retired, Definition, Governance, AuditEvent,
  policy_created, policy_version_activated, or_default, save_policy, get_policy,
  save_policy_version, get_policy_version, list_policy_versions, log_audit_event,
}

pub data Outcome (A : Type 0) : Type 0 where
  ok : Governance → A → Outcome A
  value_error : Outcome A
  permission_error : Outcome A

abbrev pub draft_version :
    (now version_id policy_id number : ℕ) (checksum : Text) (created_by : ℕ)
    → Definition
    → PolicyVersion
draft_version now version_id policy_id number checksum created_by definition = record {
  id = version_id;
  policy_id = policy_id;
  version = number;
  status = draft;
  definition_json = definition;
  checksum = checksum;
  created_by = created_by;
  approved_by = 0;
  created_at = now;
  activated_at = 0;
}

-- `max(numbers, default=0)`
abbrev pub max_of : List ℕ → ℕ
max_of [] = 0
max_of (n ∷ ns) = let rest = max_of ns in if leb rest n then n else rest

-- POLICY_APPROVAL_REQUIRED, and an approver who is missing or the author.
abbrev pub lacks_approval : Bool → ℕ → PolicyVersion → Bool
lacks_approval required approved_by v =
    required && (approved_by == 0 || approved_by == v.created_by)

-- Retires the version that the policy points to.
unfoldable pub retire_previous : (now : ℕ) → Policy → Governance → Governance
unfolding save_policy_version
retire_previous now policy db =
    if policy.active_version_id == 0
    then db
    else elim (get_policy_version policy.active_version_id db) [
      | none ↦ db
      | some old_ver ↦ save_policy_version now (record old_ver { status = retired }) db
    ]

abbrev pub activated : (now approved_by actor_user_id : ℕ) → PolicyVersion → PolicyVersion
activated now approved_by actor_user_id v = record v {
  status = active;
  approved_by = or_default approved_by actor_user_id;
  activated_at = now;
}

unfoldable pub activate :
    (tenant_id now approved_by actor_user_id : ℕ) → PolicyVersion → Policy → Governance → Governance
unfolding save_policy save_policy_version retire_previous log_audit_event
activate tenant_id now approved_by actor_user_id v policy db =
    let v' = activated now approved_by actor_user_id v in
    let db' = save_policy_version now v' (retire_previous now policy db) in
    let db'' = save_policy now (record policy { active_version_id = v.id; updated_at = now }) db' in
    log_audit_event
      (record {
        tenant_id = tenant_id;
        actor_user_id = actor_user_id;
        action = policy_version_activated;
        resource_id = v.id;
      })
      db''

-- Each of the four writes of `activate` is a transaction of its own; a process that dies has made the
-- first ones.
unfoldable pub activate_until :
    (commits tenant_id now approved_by actor_user_id : ℕ)
    → PolicyVersion
    → Policy
    → Governance
    → Governance
unfolding activate
activate_until zero tenant_id now approved_by actor_user_id v policy db = db
activate_until (suc zero) tenant_id now approved_by actor_user_id v policy db =
    retire_previous now policy db
activate_until (suc (suc zero)) tenant_id now approved_by actor_user_id v policy db =
    save_policy_version now (activated now approved_by actor_user_id v)
      (retire_previous now policy db)
activate_until (suc (suc (suc zero))) tenant_id now approved_by actor_user_id v policy db =
    save_policy now (record policy { active_version_id = v.id; updated_at = now })
      (save_policy_version now (activated now approved_by actor_user_id v)
        (retire_previous now policy db))
activate_until (suc (suc (suc (suc n)))) tenant_id now approved_by actor_user_id v policy db =
    activate tenant_id now approved_by actor_user_id v policy db

abbrev on_policy :
    (required : Bool) (tenant_id now approved_by actor_user_id : ℕ)
    → PolicyVersion
    → Governance
    → Option Policy
    → Outcome PolicyVersion
on_policy required tenant_id now approved_by actor_user_id v db none = value_error
on_policy required tenant_id now approved_by actor_user_id v db (some policy) =
    if lacks_approval required approved_by v
    then permission_error
    else ok (activate tenant_id now approved_by actor_user_id v policy db)
        (activated now approved_by actor_user_id v)

-- `required` is POLICY_APPROVAL_REQUIRED.
unfoldable pub activate_version :
    (required : Bool) (tenant_id now version_id approved_by actor_user_id : ℕ)
    → Governance
    → Outcome PolicyVersion
unfolding get_policy activate
activate_version required tenant_id now version_id approved_by actor_user_id db =
    elim (get_policy_version version_id db) [
      | none ↦ value_error
      | some v ↦
          on_policy required tenant_id now approved_by actor_user_id v db
            (get_policy v.policy_id tenant_id db)
    ]

module _ (compute_policy_checksum : Definition → Text) where
  unfoldable pub create_policy :
      (tenant_id now policy_id version_id : ℕ) (name : Text)
      → PolicyType
      → Definition
      → (created_by : ℕ) → Governance
      → Governance × Policy × PolicyVersion
  unfolding save_policy save_policy_version log_audit_event
  create_policy tenant_id now policy_id version_id name type_ definition created_by db =
      let policy : Policy = record {
        id = policy_id;
        tenant_id = tenant_id;
        name = name;
        type_ = type_;
        active_version_id = 0;
        enabled = true;
        created_at = now;
        updated_at = 0;
      } in
      let version =
        draft_version now version_id policy_id 1 (compute_policy_checksum definition) created_by
          definition in
      let event : AuditEvent = record {
        tenant_id = tenant_id;
        actor_user_id = created_by;
        action = policy_created;
        resource_id = policy_id;
      } in
      (
        log_audit_event event (save_policy_version now version (save_policy now policy db)),
        policy,
        version,
      )

  unfoldable pub next_version :
      (now version_id : ℕ) → Definition → (created_by : ℕ) → Policy → Governance → PolicyVersion
  unfolding list_policy_versions
  next_version now version_id definition created_by policy db =
      draft_version now version_id policy.id
        (max_of (map (λ v. v.version) (list_policy_versions policy.id db)) + 1)
        (compute_policy_checksum definition) created_by definition

  unfoldable pub create_new_version :
      (tenant_id now policy_id version_id : ℕ)
      → Definition
      → (created_by : ℕ) → Governance
      → Outcome PolicyVersion
  unfolding get_policy next_version save_policy_version
  create_new_version tenant_id now policy_id version_id definition created_by db =
      elim (get_policy policy_id tenant_id db) [
        | none ↦ value_error
        | some policy ↦
            let v = next_version now version_id definition created_by policy db in
            ok (save_policy_version now v db) v
      ]
