-- ===== src/Policy.antt =====
-- Versioned policies: Policy and PolicyVersion of core/models.py, and the tables that the methods of
-- core/db/repositories/governance_repo.py keep of them. Ids, users and times are numbers, 0 for an
-- absent one; a definition is a dictionary from fields to the JSON texts of their values.
pub mod Engine
pub mod Diff
pub mod Writes
pub mod Active
pub mod Runs
pub mod Crash
pub mod Approval
mod Tests
use sentinel_wp.Base.{
  ℕ, Bool, true, false, not, ◌&&◌, ◌||◌, Option, none, some, List, [], ◌∷◌, ◌++◌, ◌==◌,
  if◌then◌else◌, keep, is_some,
}
use sentinel_wp.Base.Text.{Text}
use sentinel_wp.Base.Sort.{sort_desc}
use sentinel_wp.Base.Table.{get_row, modify_row}

pub data PolicyType : Type 0 where
  scan_profile sla prioritization discovery evidence_retention notification risk_acceptance :
      PolicyType

pub data PolicyVersionStatus : Type 0 where
  draft active retired : PolicyVersionStatus

abbrev pub Definition : Type 0
Definition = List (Text × Text)

pub record Policy : Type 0 where
  pub id : ℕ
  pub tenant_id : ℕ
  pub name : Text
  pub type_ : PolicyType
  pub active_version_id : ℕ
  pub enabled : Bool
  pub created_at : ℕ
  pub updated_at : ℕ

pub record PolicyVersion : Type 0 where
  pub id : ℕ
  pub policy_id : ℕ
  pub version : ℕ
  pub status : PolicyVersionStatus
  pub definition_json : Definition
  pub checksum : Text
  pub created_by : ℕ
  pub approved_by : ℕ
  pub created_at : ℕ
  pub activated_at : ℕ

pub data AuditAction : Type 0 where
  policy_created policy_version_activated : AuditAction

-- An event of the audit log: who did what to which resource.
pub record AuditEvent : Type 0 where
  pub tenant_id : ℕ
  pub actor_user_id : ℕ
  pub action : AuditAction
  pub resource_id : ℕ

pub record Governance : Type 0 where
  pub policies : List Policy
  pub versions : List PolicyVersion
  pub audit_log : List AuditEvent

abbrev pub policy_key : Policy → ℕ
policy_key p = p.id

abbrev pub version_key : PolicyVersion → ℕ
version_key v = v.id

-- `x or d`
abbrev pub or_default : ℕ → ℕ → ℕ
or_default x d = if x == 0 then d else x

-- "default-tenant"
abbrev pub default_tenant : ℕ
default_tenant = 1

abbrev pub update_policy : (now : ℕ) → Policy → Policy → Policy
update_policy now policy m = record m {
  name = policy.name;
  type_ = policy.type_;
  active_version_id = policy.active_version_id;
  enabled = policy.enabled;
  updated_at = now;
}

abbrev pub inserted_policy : (now : ℕ) → Policy → Policy
inserted_policy now policy = record policy {
  tenant_id = or_default policy.tenant_id default_tenant;
  created_at = or_default policy.created_at now;
}

unfoldable pub save_policy : (now : ℕ) → Policy → Governance → Governance
save_policy now policy db =
    if is_some (get_row policy_key policy.id db.policies)
    then record db {
      policies = modify_row policy_key policy.id (update_policy now policy) db.policies;
    }
    else record db { policies = db.policies ++ inserted_policy now policy ∷ [] }

-- A tenant that is absent does not restrict the query.
abbrev pub in_tenant : ℕ → Policy → Option Policy
in_tenant tenant_id p = if tenant_id == 0 || p.tenant_id == tenant_id then some p else none

unfoldable pub get_policy : ℕ → ℕ → Governance → Option Policy
get_policy policy_id tenant_id db = elim (get_row policy_key policy_id db.policies) [
  | none ↦ none
  | some p ↦ in_tenant tenant_id p
]

abbrev pub update_version : PolicyVersion → PolicyVersion → PolicyVersion
update_version v m = record m {
  status = v.status;
  definition_json = v.definition_json;
  checksum = v.checksum;
  approved_by = v.approved_by;
  activated_at = v.activated_at;
}

abbrev pub inserted_version : (now : ℕ) → PolicyVersion → PolicyVersion
inserted_version now v = record v { created_at = or_default v.created_at now }

unfoldable pub save_policy_version : (now : ℕ) → PolicyVersion → Governance → Governance
save_policy_version now v db =
    if is_some (get_row version_key v.id db.versions)
    then record db { versions = modify_row version_key v.id (update_version v) db.versions }
    else record db { versions = db.versions ++ inserted_version now v ∷ [] }

abbrev pub get_policy_version : ℕ → Governance → Option PolicyVersion
get_policy_version version_id db = get_row version_key version_id db.versions

unfoldable pub list_policy_versions : ℕ → Governance → List PolicyVersion
list_policy_versions policy_id db =
    sort_desc (λ v. v.version) (keep (λ v. v.policy_id == policy_id) db.versions)

unfoldable pub log_audit_event : AuditEvent → Governance → Governance
log_audit_event e db = record db { audit_log = db.audit_log ++ e ∷ [] }
