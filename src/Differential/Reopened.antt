-- ===== src/Differential/Reopened.antt =====
-- When a change can be REOPENED: core/differential.py.
use sentinel_wp.Base.{
  ◌≡◌, refl, sym, ap, ◌∙◌, ◌≢◌, inl, inr, Bool, true, false, ◌&&◌, ◌||◌, Option, none, some, List,
  [], ◌++◌, arith, Bool-cases, any_of, In, In-map, In-keep,
}
use sentinel_wp.Base.Text.{Text, codes, text_eq, text_eq_iff, upper}
use sentinel_wp.Differential.{
  Scan, Finding, Posture, get_scan, list_by_scan, in_tenant, FindingChange, reopened, is_open,
  is_resolved, by_fp, index_all, sorted_keys, classify, change_of,
}
use sentinel_wp.Differential.Index.{by_fp-index_all, pick-Highest}
use sentinel_wp.Differential.Changes.{In-keys}
use sentinel_wp.Differential.Report.{
  changes_of, compute_scan_differential, is_completed, compare_scans,
}
use sentinel_wp.Differential.Safety.{compare_scans-Report, counts_kept, no_state}

-- One row for each fingerprint of a tenant: process_scan_findings of core/repository.py updates the
-- row that has it.
abbrev pub OneRow : Text → List Finding → Type 0
OneRow t fs =
    (f g : Finding)
    → In f fs
    → In g fs
    → in_tenant t f.tenant_id ≡ true
    → in_tenant t g.tenant_id ≡ true
    → f.fingerprint ≢ []
    → f.fingerprint ≡ g.fingerprint
    → f ≡ g

not_both : (s : Text) → (is_resolved s && is_open s) ≡ false
unfolding is_resolved is_open
not_both s = elim (Bool-cases (text_eq s (codes "VERIFIED"))) [
  | inl e ↦ rw ((text_eq_iff s (codes "VERIFIED")).0 e) refl
  | inr v ↦ elim (Bool-cases (text_eq s (codes "CLOSED"))) [
    | inl e ↦ rw ((text_eq_iff s (codes "CLOSED")).0 e) refl
    | inr c ↦ elim (Bool-cases (text_eq s (codes "REMEDIATED"))) [
      | inl e ↦ rw ((text_eq_iff s (codes "REMEDIATED")).0 e) refl
      | inr r ↦ rw (v, c, r) refl
    ]
  ]
]

same_row_not_reopened :
    (completed : Bool) (b n : Option Finding)
    → ((f g : Finding) → b ≡ some f → n ≡ some g → f ≡ g)
    → classify completed b n ≢ reopened
unfolding classify
same_row_not_reopened completed none none h = ground arith
same_row_not_reopened completed none (some g) h = ground arith
same_row_not_reopened completed (some f) none h = ground arith
same_row_not_reopened completed (some f) (some g) h =
    rw (h f g refl refl) (ground (arith, not_both (upper g.status)))

-- A finding that stands under a key is one of the scan's rows.
row_of :
    (k scan_id t : Text) (db : Posture) (f : Finding)
    → k ≢ []
    → by_fp k (index_all (list_by_scan scan_id t db) []) ≡ some f
    → In f db.findings × (in_tenant t f.tenant_id ≡ true) × (f.fingerprint ≡ k)
unfolding list_by_scan
row_of k scan_id t db f h e =
    let from =
      (pick-Highest k (list_by_scan scan_id t db) none f
        (sym (by_fp-index_all k (list_by_scan scan_id t db) [] h) ∙ e)).0 in
    ground (
      arith,
      text_eq_iff f.fingerprint k,
      In-keep
          (λ f.
            (text_eq f.scan_id scan_id
              || any_of (λ o. text_eq o.scan_id scan_id && text_eq o.finding_id f.id)
                  db.observations)
            && in_tenant t f.tenant_id)
          f db.findings,
    )

change_not_reopened :
    (db : Posture) (old_id new_id t k : Text) (completed : Bool)
    → OneRow t db.findings
    → k ≢ []
    → (change_of completed
        (index_all (list_by_scan old_id t db) [])
        (index_all (list_by_scan new_id t db) [])
        k).change_state
      ≢ reopened
unfolding change_of
change_not_reopened db old_id new_id t k completed one h =
    same_row_not_reopened completed (by_fp k (index_all (list_by_scan old_id t db) []))
      (by_fp k (index_all (list_by_scan new_id t db) []))
      (λ f g ef eg.
        let (i, u, p) = row_of k old_id t db f h ef in
        let (j, v, q) = row_of k new_id t db g h eg in
        one f g i j u v (λ e. h (sym p ∙ e)) (p ∙ sym q))

changes_not_reopened :
    (db : Posture) (old_id new_id t : Text) (completed : Bool) (c : FindingChange)
    → OneRow t db.findings
    → In c (changes_of completed (list_by_scan old_id t db) (list_by_scan new_id t db))
    → c.change_state ≢ reopened
unfolding changes_of
changes_not_reopened db old_id new_id t completed c one i =
    let bs = list_by_scan old_id t db in
    let ns = list_by_scan new_id t db in
    let (k, i', e) =
      In-map (change_of completed (index_all bs []) (index_all ns [])) c
        (sorted_keys (index_all bs [] ++ index_all ns [])) i in
    let nonempty = ((In-keys k bs ns).0 i').0 in
    λ s.
      change_not_reopened db old_id new_id t k completed one nonempty
        (ap (λ x. x.change_state) (sym e) ∙ s)

reopened_count_zero :
    (db : Posture) (old_id new_id t : Text) (a : Option Text) (b n : Option Scan)
    → OneRow t db.findings
    → (compare_scans db old_id new_id t a b n).reopened_count ≡ 0
reopened_count_zero db old_id new_id t a none n one = refl
reopened_count_zero db old_id new_id t a (some b) none one = refl
reopened_count_zero db old_id new_id t a (some b) (some n) one =
    let d = compare_scans db old_id new_id t a (some b) (some n) in
    let (m, r) = compare_scans-Report db old_id new_id t a (some b) (some n) in
    (counts_kept db old_id new_id t a (some b) (some n)).3
    ∙ no_state reopened d.changes
        (λ c i. changes_not_reopened db old_id new_id t (is_completed n) c one (rw (← r) i))

-- With one row for each fingerprint of the tenant, no report has a change that is REOPENED: both
-- scans read the status that the finding has now.
pub never_reopened :
    (db : Posture) (old_id new_id t : Text) (a : Option Text)
    → OneRow t db.findings
    → (compute_scan_differential db old_id new_id t a).reopened_count ≡ 0
unfolding compute_scan_differential
never_reopened db old_id new_id t a one =
    reopened_count_zero db old_id new_id t a (get_scan old_id t db.scans)
      (get_scan new_id t db.scans) one
