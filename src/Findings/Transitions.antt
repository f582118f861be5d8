-- ===== src/Findings/Transitions.antt =====
-- Changes of status that a user or a task asks for: transition_finding_status of core/db/adapter.py
-- and the tasks of core/tasks/remediation_tasks.py. The comment that a transition stores and the
-- audit log are left out.
use sentinel_wp.Base.{
  ℕ, Bool, true, false, ◌&&◌, Option, none, some, List, [], ◌∷◌, if◌then◌else◌, any_of, is_some,
}
use sentinel_wp.Base.Text.{Text, codes, text_eq, upper, strip}
use sentinel_wp.Lifecycle.{
  FindingStatus, opened, in_progress, remediated, verified, risk_accepted, false_positive, closed,
  reopened, value, Validated, ok, invalid, validate_transition,
}
use sentinel_wp.Sla
use sentinel_wp.Sla.{SlaStatus, paused, breached, complied, evaluate_finding_sla_status}
use sentinel_wp.Findings.{
  Finding, History, Store, Actor, user, status_transition, get_by_id, save_finding, conflicts,
  expected_of, add_history, update_findings, Outcome, done, not_found, locked, refused, ◌>>=◌,
}

-- `status in (a.value, b.value, ...)`
abbrev pub is_one_of : Text → List FindingStatus → Bool
is_one_of s xs = any_of (λ x. text_eq s (value x)) xs

abbrev pub is_breached : SlaStatus → Bool
is_breached breached = true
is_breached _ = false

-- The finding as the SLA engine reads it.
unfoldable pub sla_view : Finding → Sla.Finding
sla_view f = record {
  severity = f.severity;
  priority_band = f.priority_band;
  kev = f.kev;
  status = f.status;
  sla_status = f.sla_status;
  sla_paused = is_some f.sla_paused_at;
  sla_due_at = f.sla_due_at;
}

-- `evaluate_finding_sla_status(finding)`, which no policy is given to.
unfoldable pub sla_now : (now : ℕ) → Finding → SlaStatus
unfolding sla_view evaluate_finding_sla_status
sla_now now f = evaluate_finding_sla_status (sla_view f) none now

abbrev or_accepted : Text → Text
or_accepted [] = codes "Risk acceptance approved"
or_accepted (c ∷ s) = c ∷ s

-- The deadline is no longer paused, as far as the two columns of the pause go.
abbrev unpaused : Finding → Finding
unpaused f = record f { sla_paused_at = none; sla_pause_reason = [] }

abbrev resumed : (now : ℕ) → Finding → Finding
unfolding sla_now
resumed now f = record f { sla_status = sla_now now f }

-- The assignments to the finding, whose status is `old` before and `target` after.
unfoldable pub entered : (now : ℕ) (comment old target : Text) → Finding → Finding
unfolding sla_now
entered now comment old target f0 =
    let f : Finding = record f0 { status = target; updated_at = some now } in
    if text_eq target (value risk_accepted)
    then record f {
      sla_status = paused;
      sla_paused_at = some now;
      sla_pause_reason = or_accepted comment;
    }
    else if is_one_of target (remediated ∷ verified ∷ closed ∷ false_positive ∷ [])
    then (if is_breached f.sla_status then f else record f { sla_status = complied })
    else if text_eq old (value risk_accepted)
        && is_one_of target (opened ∷ reopened ∷ in_progress ∷ [])
    then resumed now (unpaused f)
    else f

abbrev pub checked : Text → Text → Validated → Outcome FindingStatus
checked old target (ok s) = done s
checked old target (invalid c t r) = refused c t

abbrev pub history_of : (now : ℕ) → Actor → (old : Text) → Finding → History
history_of now actor old f = record {
  tenant_id = f.tenant_id;
  finding_id = f.id;
  actor = actor;
  action = status_transition;
  old_status = some old;
  new_status = f.status;
  created_at = now;
}

-- The call on the finding that was read.
unfoldable pub move :
    (now : ℕ) (new_status : Text) (actor_user_id : ℕ)
    → (comment : Text) (expected_version : Option ℕ) → Finding
    → Store
    → Outcome Store
unfolding save_finding entered validate_transition strip add_history update_findings
move now new_status actor_user_id comment expected_version f s =
    let target = strip (upper new_status) in
    if conflicts expected_version f.version
    then locked f.id (expected_of expected_version)
    else checked f.status target (validate_transition f.status target) >>= λ _.
        save_finding now (entered now comment f.status target f) expected_version s.findings
        >>= λ fs. done (
            add_history
              (history_of now (user actor_user_id) f.status (entered now comment f.status target f))
              (update_findings fs s))

abbrev pub move_found :
    (now finding_id : ℕ) (new_status : Text) (actor_user_id : ℕ)
    → (comment : Text) (expected_version : Option ℕ) → Store
    → Option Finding
    → Outcome Store
unfolding move
move_found now finding_id new_status actor_user_id comment expected_version s none =
    not_found finding_id
move_found now finding_id new_status actor_user_id comment expected_version s (some f) =
    move now new_status actor_user_id comment expected_version f s

unfoldable pub transition_finding_status :
    (now finding_id : ℕ) (new_status : Text) (actor_user_id tenant_id : ℕ)
    → (comment : Text) (expected_version : Option ℕ) → Store
    → Outcome Store
unfolding move get_by_id
transition_finding_status now finding_id new_status actor_user_id tenant_id comment expected_version
      s =
    move_found now finding_id new_status actor_user_id comment expected_version s
      (get_by_id finding_id tenant_id s.findings)
