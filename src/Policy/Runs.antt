-- ===== src/Policy/Runs.antt =====
-- The runs of PolicyEngine: core/policy/engine.py. Each step is a call that completes, without
-- another in between; the ids
-- that uuid4 draws are new and not empty.
use sentinel_wp.Base.{
  ℕ, ◌≡◌, refl, sym, ap, ◌∙◌, ◌≢◌, inl, inr, Bool, true, false, none, some, [], arith, Option-cases,
  Bool-cases,
}
use sentinel_wp.Base.Text.{Text}
use sentinel_wp.Base.Table.{get_row, key-get_row}
use sentinel_wp.Policy.{
  Policy, PolicyVersion, PolicyType, Definition, Governance, policy_key, version_key, get_policy,
  save_policy, save_policy_version, log_audit_event,
}
use sentinel_wp.Policy.Engine.{
  ok, activate, activate_version, create_policy, next_version, create_new_version, draft_version,
  lacks_approval, activated,
}
use sentinel_wp.Policy.Writes.{active_of, pointer, versions-save_policy}
use sentinel_wp.Policy.Active.{IsGoverned, add_draft, add_policy, activate-IsGoverned}

abbrev pub empty : Governance
empty = record { policies = []; versions = []; audit_log = [] }

abbrev pub IsFresh : (version_id : ℕ) → Governance → Type 0
IsFresh version_id db = (version_id ≢ 0) × (get_row version_key version_id db.versions ≡ none)

module _ (compute_policy_checksum : Definition → Text) where
  -- The databases that the calls lead to, one after the other.
  pub data Reach : Governance → Type 0 where
    start : Reach empty
    creates :
        {db : Governance} (tenant_id now policy_id version_id : ℕ) (name : Text)
        (type_ : PolicyType) (definition : Definition) (created_by : ℕ)
        → get_row policy_key policy_id db.policies ≡ none
        → IsFresh version_id db
        → Reach db
        → Reach
            (create_policy compute_policy_checksum tenant_id now policy_id version_id name type_
              definition created_by db).0
    drafts :
        {db db' : Governance} (tenant_id now policy_id version_id : ℕ) (definition : Definition)
        (created_by : ℕ) (v : PolicyVersion)
        → IsFresh version_id db
        → create_new_version compute_policy_checksum tenant_id now policy_id version_id definition
            created_by db
          ≡ ok db' v
        → Reach db
        → Reach db'
    activates :
        {db db' : Governance} (required : Bool)
        (tenant_id now version_id approved_by actor_user_id : ℕ) (v : PolicyVersion)
        → activate_version required tenant_id now version_id approved_by actor_user_id db ≡ ok db' v
        → Reach db
        → Reach db'

pub get_policy-row :
    (policy_id tenant_id : ℕ) (db : Governance) (p : Policy)
    → get_policy policy_id tenant_id db ≡ some p
    → get_row policy_key policy_id db.policies ≡ some p
unfolding get_policy
get_policy-row policy_id tenant_id db p h = ground arith

-- What a call that does not raise has found and done.
abbrev pub Activated :
    (required : Bool) (tenant_id now version_id approved_by actor : ℕ)
    → (db db' : Governance) → PolicyVersion
    → Type 0
Activated required tenant_id now version_id approved_by actor db db' v =
    (u : PolicyVersion) × (p : Policy) × (get_row version_key version_id db.versions ≡ some u)
    × (get_row policy_key u.policy_id db.policies ≡ some p)
    × (lacks_approval required approved_by u ≡ false)
    × (db' ≡ activate tenant_id now approved_by actor u p db)
    × (v ≡ activated now approved_by actor u)

ok_injective :
    {A : Type 0} (db db' : Governance) (a a' : A) → ok db a ≡ ok db' a' → (db ≡ db') × (a ≡ a')
ok_injective db db' a a' h = (cc, cc)

pub activate_version-Activated :
    (required : Bool) (tenant_id now version_id approved_by actor : ℕ) (db db' : Governance)
    (v : PolicyVersion)
    → activate_version required tenant_id now version_id approved_by actor db ≡ ok db' v
    → Activated required tenant_id now version_id approved_by actor db db' v
unfolding activate_version
activate_version-Activated required tenant_id now version_id approved_by actor db db' v h =
    elim (Option-cases (get_row version_key version_id db.versions)) [
      | inl e ↦ ground (arith, e, h)
      | inr (u, e) ↦ elim (Option-cases (get_policy u.policy_id tenant_id db)) [
        | inl n ↦ ground (arith, e, n, h)
        | inr (p, n) ↦ elim (Bool-cases (lacks_approval required approved_by u)) [
          | inl l ↦ ground (arith, e, n, l, h)
          | inr l ↦ (
            u,
            p,
            e,
            get_policy-row u.policy_id tenant_id db p n,
            l,
            ground (arith, e, n, l, h),
            ground (arith, e, n, l, h),
          )
        ]
      ]
    ]

pub activate_version-IsGoverned :
    (required : Bool) (tenant_id now version_id approved_by actor : ℕ) (db db' : Governance)
    (v : PolicyVersion)
    → activate_version required tenant_id now version_id approved_by actor db ≡ ok db' v
    → IsGoverned db
    → IsGoverned db'
activate_version-IsGoverned required tenant_id now version_id approved_by actor db db' v h
      (zero_free, governed) =
    let (u, p, e, n, l, same, done) =
      activate_version-Activated required tenant_id now version_id approved_by actor db db' v h in
    rw same (
      activate-IsGoverned tenant_id now approved_by actor u p db
        (ap (λ i. get_row version_key i db.versions)
            (key-get_row version_key version_id db.versions u e)
          ∙ e)
        (ap (λ i. get_row policy_key i db.policies)
            (key-get_row policy_key u.policy_id db.policies p n)
          ∙ n)
        (key-get_row policy_key u.policy_id db.policies p n) (zero_free, governed))

create_new_version-IsGoverned :
    (checksum : Definition → Text) (tenant_id now policy_id version_id : ℕ)
    (definition : Definition) (created_by : ℕ) (db db' : Governance) (v : PolicyVersion)
    → IsFresh version_id db
    → create_new_version checksum tenant_id now policy_id version_id definition created_by db
      ≡ ok db' v
    → IsGoverned db
    → IsGoverned db'
unfolding create_new_version next_version
create_new_version-IsGoverned checksum tenant_id now policy_id version_id definition created_by db
      db' v (nonzero, fresh) h (zero_free, governed) =
    elim (Option-cases (get_policy policy_id tenant_id db)) [
      | inl n ↦ ground (arith, n, h)
      | inr (p, n) ↦
          let w = next_version checksum now version_id definition created_by p db in
          let same : save_policy_version now w db ≡ db' = ground (arith, n, h) in
          rw (← same) (add_draft now w db fresh nonzero refl (zero_free, governed))
    ]

create_policy-IsGoverned :
    (checksum : Definition → Text) (tenant_id now policy_id version_id : ℕ) (name : Text)
    (type_ : PolicyType) (definition : Definition) (created_by : ℕ) (db : Governance)
    → get_row policy_key policy_id db.policies ≡ none
    → IsFresh version_id db
    → IsGoverned db
    → IsGoverned
        (create_policy checksum tenant_id now policy_id version_id name type_ definition created_by
          db).0
unfolding create_policy log_audit_event
create_policy-IsGoverned checksum tenant_id now policy_id version_id name type_ definition
      created_by db fresh (nonzero, new) g =
    let policy : Policy = record {
      id = policy_id;
      tenant_id = tenant_id;
      name = name;
      type_ = type_;
      active_version_id = 0;
      enabled = true;
      created_at = now;
      updated_at = 0;
    } in
    add_draft now
      (draft_version now version_id policy_id 1 (checksum definition) created_by definition)
      (save_policy now policy db)
      (ap (get_row version_key version_id) (versions-save_policy now policy db) ∙ new) nonzero refl
      (add_policy now policy db fresh refl g)

-- In every database that the calls lead to, each ACTIVE version is the one that its policy points
-- to.
pub Reach-IsGoverned :
    (checksum : Definition → Text) (db : Governance) → Reach checksum db → IsGoverned db
Reach-IsGoverned checksum db start = (refl, λ k q h. ground arith)
Reach-IsGoverned checksum db (creates t now p v name ty d c fresh new r) =
    create_policy-IsGoverned checksum t now p v name ty d c _ fresh new
      (Reach-IsGoverned checksum _ r)
Reach-IsGoverned checksum db (drafts t now p v d c w fresh h r) =
    create_new_version-IsGoverned checksum t now p v d c _ db w fresh h
      (Reach-IsGoverned checksum _ r)
Reach-IsGoverned checksum db (activates required t now v a actor w h r) =
    activate_version-IsGoverned required t now v a actor _ db w h (Reach-IsGoverned checksum _ r)

-- In every database that the engine's calls lead to when they run one after the other and each of them
-- completes, or raises before it writes, and if the ids drawn are new, a policy has at most one ACTIVE
-- version, and points to it. Nothing is said of calls that overlap or that fail between two writes.
pub one_active :
    (checksum : Definition → Text) (db : Governance) (j k q : ℕ)
    → Reach checksum db
    → active_of j db ≡ some q
    → active_of k db ≡ some q
    → (j ≡ k) × (pointer q db ≡ k)
one_active checksum db j k q r hj hk =
    let (zero_free, governed) = Reach-IsGoverned checksum db r in
    (sym (governed j q hj).1 ∙ (governed k q hk).1, (governed k q hk).1)
