-- ===== src/Differential/Safety.antt =====
-- What a whole report promises: core/differential.py.
use sentinel_wp.Base.{
  ℕ, zero, suc, ◌+◌, ◌≡◌, refl, sym, ap, ◌∙◌, ◌≢◌, inl, inr, true, false, Option, none, some, List,
  [], ◌∷◌, arith, length, In,
}
use sentinel_wp.Base.Text.{Text}
use sentinel_wp.Differential.{
  Scan, Posture, get_scan, list_by_scan, FindingChange, ScanDifferential, ChangeState, new,
  persisting, resolved, reopened, unknown, index, count_state, recompute_counts,
}
use sentinel_wp.Differential.Changes.{changes_of-Classified, counts_add_up}
use sentinel_wp.Differential.Report.{
  changes_of, compute_scan_differential, is_completed, compare_wp, compare_scans,
}

-- Both scans are there and the newer one is completed.
abbrev pub Comparable : Posture → Text → Text → Text → Type 0
Comparable db baseline_scan_id new_scan_id tenant_id =
    (b n : Scan) × (get_scan baseline_scan_id tenant_id db.scans ≡ some b)
    × (get_scan new_scan_id tenant_id db.scans ≡ some n)
    × (is_completed n ≡ true)

-- What a report holds, of the two scans that it found or did not find.
abbrev pub Report :
    Posture → Text → Text → Text → Option Scan → Option Scan → ScanDifferential → Type 0
Report db baseline_scan_id new_scan_id tenant_id (some b) (some n) d =
    (d.is_complete ≡ is_completed n)
    × (d.changes
        ≡ changes_of (is_completed n) (list_by_scan baseline_scan_id tenant_id db)
            (list_by_scan new_scan_id tenant_id db))
Report db baseline_scan_id new_scan_id tenant_id _ _ d = (d.is_complete ≡ false) × (d.changes ≡ [])

pub compare_scans-Report :
    (db : Posture) (old_id new_id t : Text) (a : Option Text) (b n : Option Scan)
    → Report db old_id new_id t b n (compare_scans db old_id new_id t a b n)
unfolding recompute_counts compare_wp
compare_scans-Report db old_id new_id t a none none = ground arith
compare_scans-Report db old_id new_id t a none (some n) = ground arith
compare_scans-Report db old_id new_id t a (some b) none = ground arith
compare_scans-Report db old_id new_id t a (some b) (some n) = ground arith

empty_absurd : (c : FindingChange) (cs : List FindingChange) → cs ≡ [] → ¬ In c cs
empty_absurd c [] e i = i
empty_absurd c (x ∷ cs) e i = cc

found_when_resolved :
    (db : Posture) (old_id new_id t : Text) (b n : Option Scan) (c : FindingChange)
    (d : ScanDifferential)
    → get_scan old_id t db.scans ≡ b
    → get_scan new_id t db.scans ≡ n
    → Report db old_id new_id t b n d
    → In c d.changes
    → c.change_state ≡ resolved
    → Comparable db old_id new_id t × (d.is_complete ≡ true)
found_when_resolved db old_id new_id t none n c d eb en (_, r) i h =
    elim (empty_absurd c d.changes r i) [ ]
found_when_resolved db old_id new_id t (some b) none c d eb en (_, r) i h =
    elim (empty_absurd c d.changes r i) [ ]
found_when_resolved db old_id new_id t (some b) (some n) c d eb en (m, r) i h =
    let states =
      changes_of-Classified (is_completed n) (list_by_scan old_id t db) (list_by_scan new_id t db) c
        (rw (← r) i) in
    let done = (states.1.0 h).1 in ((b, n, eb, en, done), m ∙ done)

-- A RESOLVED change is reported only if both scans are found and the newer one is completed, and
-- then the report is marked complete.
pub resolved_only_if_completed :
    (db : Posture) (old_id new_id t : Text) (a : Option Text) (c : FindingChange)
    → In c (compute_scan_differential db old_id new_id t a).changes
    → c.change_state ≡ resolved
    → Comparable db old_id new_id t
      × ((compute_scan_differential db old_id new_id t a).is_complete ≡ true)
unfolding compute_scan_differential
resolved_only_if_completed db old_id new_id t a c i h =
    found_when_resolved db old_id new_id t (get_scan old_id t db.scans) (get_scan new_id t db.scans)
      c
      (compare_scans db old_id new_id t a (get_scan old_id t db.scans) (get_scan new_id t db.scans))
      refl refl
      (compare_scans-Report db old_id new_id t a (get_scan old_id t db.scans)
        (get_scan new_id t db.scans))
      i h

pub counts_kept :
    (db : Posture) (old_id new_id t : Text) (a : Option Text) (b n : Option Scan)
    → let d = compare_scans db old_id new_id t a b n in
      (d.new_count ≡ count_state new d.changes)
      × (d.persisting_count ≡ count_state persisting d.changes)
      × (d.resolved_count ≡ count_state resolved d.changes)
      × (d.reopened_count ≡ count_state reopened d.changes)
unfolding recompute_counts compare_wp
counts_kept db old_id new_id t a none none = ground arith
counts_kept db old_id new_id t a none (some n) = ground arith
counts_kept db old_id new_id t a (some b) none = ground arith
counts_kept db old_id new_id t a (some b) (some n) = ground arith

state_at : ℕ → ChangeState
state_at zero = new
state_at (suc zero) = persisting
state_at (suc (suc zero)) = resolved
state_at (suc (suc (suc zero))) = reopened
state_at _ = unknown

state_at-index : (s : ChangeState) → state_at (index s) ≡ s
unfolding state_at
state_at-index new = refl
state_at-index persisting = refl
state_at-index resolved = refl
state_at-index reopened = refl
state_at-index unknown = refl

index_injective : (s t : ChangeState) → index s ≡ index t → s ≡ t
index_injective s t h = sym (state_at-index s) ∙ ap state_at h ∙ state_at-index t

pub no_state :
    (s : ChangeState) (cs : List FindingChange)
    → ((c : FindingChange) → In c cs → c.change_state ≢ s)
    → count_state s cs ≡ 0
no_state s [] h = refl
no_state s (c ∷ cs) h =
    let rest = no_state s cs (λ x i. h x (inr i)) in
    ground (arith, rest, index_injective c.change_state s, h c (inl refl))

sum_counts :
    (db : Posture) (old_id new_id t : Text) (a : Option Text) (b n : Option Scan)
    → let d = compare_scans db old_id new_id t a b n in
      d.is_complete ≡ true
      → length d.changes ≡ d.new_count + d.persisting_count + d.resolved_count + d.reopened_count
sum_counts db old_id new_id t a none n h = ground arith
sum_counts db old_id new_id t a (some b) none h = ground arith
sum_counts db old_id new_id t a (some b) (some n) h =
    let d = compare_scans db old_id new_id t a (some b) (some n) in
    let (m, r) = compare_scans-Report db old_id new_id t a (some b) (some n) in
    let none_unknown = no_state unknown d.changes (λ c i u.
      let states =
        changes_of-Classified (is_completed n) (list_by_scan old_id t db) (list_by_scan new_id t db)
          c (rw (← r) i) in
      ground (arith, (states.2.0 u).1)) in
    ground (arith, counts_kept db old_id new_id t a (some b) (some n), counts_add_up d.changes)

-- In a complete report the four counts add up to the number of changes.
pub complete_counts :
    (db : Posture) (old_id new_id t : Text) (a : Option Text)
    → let d = compute_scan_differential db old_id new_id t a in
      d.is_complete ≡ true
      → length d.changes ≡ d.new_count + d.persisting_count + d.resolved_count + d.reopened_count
unfolding compute_scan_differential
complete_counts db old_id new_id t a h =
    sum_counts db old_id new_id t a (get_scan old_id t db.scans) (get_scan new_id t db.scans) h
