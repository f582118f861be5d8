-- ===== src/Schedule/Batches.antt =====
-- Batches delete what one statement deletes: purge_expired_records_task of
-- core/tasks/maintenance_tasks.py.
use sentinel_wp.Base.{
  ℕ, zero, suc, ◌+◌, ◌-◌, ◌≤◌, ◌<◌, ◌≡◌, refl, sym, ap, ◌∙◌, Bool, true, false, not, none, List, [],
  ◌∷◌, ◌==◌, ltb, arith, if◌then◌else◌, inl, inr, Bool-cases, keep, take, map, elem, length,
  count_if, min,
}
use sentinel_wp.Base.Table.{get_row, Keyed}
use sentinel_wp.ScanJob.{ScanJob, Jobs, job_key}
use sentinel_wp.Schedule.Purge.{is_expired, purge_at_once, batch, delete_ids, purge_batches}

-- Without the first `n` rows that `p` selects.
drop_first : ℕ → (ScanJob → Bool) → Jobs → Jobs
drop_first zero p jobs = jobs
drop_first (suc n) p [] = []
drop_first (suc n) p (j ∷ js) = if p j then drop_first n p js else j ∷ drop_first (suc n) p js

ids_of : ℕ → (ScanJob → Bool) → Jobs → List ℕ
ids_of n p jobs = map (λ (j : ScanJob). j.id) (take n (keep p jobs))

without : List ℕ → Jobs → Jobs
without ids jobs = keep (λ (j : ScanJob). not (elem j.id ids)) jobs

elem-take :
    (k n : ℕ) (p : ScanJob → Bool) (jobs : Jobs)
    → get_row job_key k jobs ≡ none
    → elem k (ids_of n p jobs) ≡ false
unfolding ids_of
elem-take k zero p jobs h = refl
elem-take k (suc n) p [] h = refl
elem-take k (suc n) p (j ∷ js) h = ground (arith, elem-take k n p js, elem-take k (suc n) p js)

without-absent :
    (k : ℕ) (ids : List ℕ) (jobs : Jobs)
    → get_row job_key k jobs ≡ none
    → without (k ∷ ids) jobs ≡ without ids jobs
unfolding without
without-absent k ids [] h = refl
without-absent k ids (j ∷ js) h = ground (arith, without-absent k ids js)

without_none : (jobs : Jobs) → without [] jobs ≡ jobs
unfolding without
without_none [] = refl
without_none (j ∷ js) = ap (λ r. j ∷ r) (without_none js)

without-head :
    (j : ScanJob) (ids : List ℕ) (js : Jobs)
    → without (j.id ∷ ids) (j ∷ js) ≡ without (j.id ∷ ids) js
unfolding without
without-head j ids js = ground arith

without-cons :
    (j : ScanJob) (ids : List ℕ) (js : Jobs)
    → elem j.id ids ≡ false
    → without ids (j ∷ js) ≡ j ∷ without ids js
unfolding without
without-cons j ids js e = rw e refl

ids_of-cons :
    (n : ℕ) (p : ScanJob → Bool) (j : ScanJob) (js : Jobs)
    → (p j ≡ true → ids_of (suc n) p (j ∷ js) ≡ j.id ∷ ids_of n p js)
      × (p j ≡ false → ids_of (suc n) p (j ∷ js) ≡ ids_of (suc n) p js)
unfolding ids_of
ids_of-cons n p j js = ((λ e. rw e refl), λ e. rw e refl)

drop_first-cons :
    (n : ℕ) (p : ScanJob → Bool) (j : ScanJob) (js : Jobs)
    → (p j ≡ true → drop_first (suc n) p (j ∷ js) ≡ drop_first n p js)
      × (p j ≡ false → drop_first (suc n) p (j ∷ js) ≡ j ∷ drop_first (suc n) p js)
unfolding drop_first
drop_first-cons n p j js = ((λ e. rw e refl), λ e. rw e refl)

without-ids_of :
    (n : ℕ) (p : ScanJob → Bool) (jobs : Jobs)
    → Keyed job_key jobs
    → without (ids_of n p jobs) jobs ≡ drop_first n p jobs
without-ids_of zero p jobs k = unfold drop_first ids_of in without_none jobs
without-ids_of (suc n) p [] k = unfold drop_first without in refl
without-ids_of (suc n) p (j ∷ js) (a, k) = elim (Bool-cases (p j)) [
  | inl e ↦
      ap (λ ids. without ids (j ∷ js)) ((ids_of-cons n p j js).0 e)
      ∙ without-head j (ids_of n p js) js
      ∙ without-absent j.id (ids_of n p js) js a
      ∙ without-ids_of n p js k
      ∙ sym ((drop_first-cons n p j js).0 e)
  | inr e ↦
      ap (λ ids. without ids (j ∷ js)) ((ids_of-cons n p j js).1 e)
      ∙ without-cons j (ids_of (suc n) p js) js (elem-take j.id (suc n) p js a)
      ∙ ap (λ r. j ∷ r) (without-ids_of (suc n) p js k)
      ∙ sym ((drop_first-cons n p j js).1 e)
]

-- What a batch leaves to do.
count_if-drop_first :
    (n : ℕ) (p : ScanJob → Bool) (jobs : Jobs)
    → count_if p (drop_first n p jobs) ≡ count_if p jobs - n
unfolding drop_first
count_if-drop_first zero p jobs = ground arith
count_if-drop_first (suc n) p [] = ground arith
count_if-drop_first (suc n) p (j ∷ js) =
    ground (arith, count_if-drop_first n p js, count_if-drop_first (suc n) p js)

keep-drop_first :
    (n : ℕ) (p : ScanJob → Bool) (jobs : Jobs)
    → keep (λ j. not (p j)) (drop_first n p jobs) ≡ keep (λ j. not (p j)) jobs
unfolding drop_first
keep-drop_first zero p jobs = refl
keep-drop_first (suc n) p [] = refl
keep-drop_first (suc n) p (j ∷ js) =
    ground (arith, keep-drop_first n p js, keep-drop_first (suc n) p js)

absent-drop_first :
    (k n : ℕ) (p : ScanJob → Bool) (jobs : Jobs)
    → get_row job_key k jobs ≡ none
    → get_row job_key k (drop_first n p jobs) ≡ none
unfolding drop_first
absent-drop_first k zero p jobs h = h
absent-drop_first k (suc n) p [] h = h
absent-drop_first k (suc n) p (j ∷ js) h =
    ground (arith, absent-drop_first k n p js, absent-drop_first k (suc n) p js)

Keyed-drop_first :
    (n : ℕ) (p : ScanJob → Bool) (jobs : Jobs)
    → Keyed job_key jobs
    → Keyed job_key (drop_first n p jobs)
unfolding drop_first
Keyed-drop_first zero p jobs k = k
Keyed-drop_first (suc n) p [] k = k
Keyed-drop_first (suc n) p (j ∷ js) (a, k) = elim (Bool-cases (p j)) [
  | inl e ↦ rw e (Keyed-drop_first n p js k)
  | inr e ↦ rw e (absent-drop_first j.id (suc n) p js a, Keyed-drop_first (suc n) p js k)
]

length-ids_of :
    (n : ℕ) (p : ScanJob → Bool) (jobs : Jobs) → length (ids_of n p jobs) ≡ min n (count_if p jobs)
unfolding ids_of
length-ids_of zero p jobs = ground arith
length-ids_of (suc n) p [] = ground arith
length-ids_of (suc n) p (j ∷ js) = ground (arith, length-ids_of n p js, length-ids_of (suc n) p js)

keep_all :
    (p : ScanJob → Bool) (jobs : Jobs) → count_if p jobs ≡ 0 → keep (λ j. not (p j)) jobs ≡ jobs
keep_all p [] h = refl
keep_all p (j ∷ js) h = ground (arith, keep_all p js)

-- Once no row is selected, what is left is what one statement leaves.
drop_first_all :
    (n : ℕ) (p : ScanJob → Bool) (jobs : Jobs)
    → count_if p jobs ≤ n
    → drop_first n p jobs ≡ keep (λ j. not (p j)) jobs
drop_first_all n p jobs h =
    sym (keep_all p (drop_first n p jobs) (omega (arith, count_if-drop_first n p jobs)))
    ∙ keep-drop_first n p jobs

length-batch :
    (b cutoff : ℕ) (jobs : Jobs)
    → length (batch b cutoff jobs) ≡ min b (count_if (is_expired cutoff) jobs)
unfolding batch
length-batch b cutoff jobs = unfold ids_of in length-ids_of b (is_expired cutoff) jobs

delete_ids-batch :
    (b cutoff : ℕ) (jobs : Jobs)
    → Keyed job_key jobs
    → delete_ids (batch b cutoff jobs) jobs ≡ drop_first b (is_expired cutoff) jobs
unfolding batch delete_ids
delete_ids-batch b cutoff jobs k =
    unfold ids_of without in without-ids_of b (is_expired cutoff) jobs k

-- The rounds of the loop, when they may be more than the selected rows.
batches_from :
    (fuel b cutoff total : ℕ) (jobs : Jobs)
    → 1 ≤ b
    → Keyed job_key jobs
    → count_if (is_expired cutoff) jobs < fuel
    → purge_batches fuel b cutoff (total, jobs)
      ≡ (total + count_if (is_expired cutoff) jobs, keep (λ j. not (is_expired cutoff j)) jobs)
unfolding purge_batches
batches_from zero b cutoff total jobs l k h = absurd (omega arith)
batches_from (suc fuel) b cutoff total jobs l k h =
    let p = is_expired cutoff in
    let c = count_if p jobs in
    let ids = batch b cutoff jobs in
    let len = length-batch b cutoff jobs in
    let del = delete_ids-batch b cutoff jobs k in
    elim (Bool-cases (length ids == 0)) [
      | inl e ↦
          let z : c ≡ 0 = ground (arith, len, l) in
          rw (e, purge_batches) (rw (z, keep_all p jobs z) (ground arith))
      | inr e ↦ elim (Bool-cases (ltb (length ids) b)) [
        | inl f ↦
            let z : c ≤ b = ground (arith, len) in
            let y : length ids ≡ c = ground (arith, len) in
            rw (e, f, purge_batches) (rw (y, del, drop_first_all b p jobs z) refl)
        | inr f ↦
            let y : length ids ≡ b = ground (arith, len) in
            let m : b ≤ c = ground (arith, len) in
            let rest = drop_first b p jobs in
            let left = count_if-drop_first b p jobs in
            rw (e, f, purge_batches)
              (rw (y, del)
                (batches_from fuel b cutoff (total + b) rest l (Keyed-drop_first b p jobs k)
                    (omega (arith, left, h, l, m))
                  ∙ rw (keep-drop_first b p jobs, left) (ground (arith, m))))
      ]
    ]

-- The loop ends, and does what the single DELETE does: with a positive batch size, over jobs of which
-- no two share an id, and with more rounds allowed than there are rows to delete, the batches count
-- and leave what the one statement counts and leaves.
pub purge_batches-eq-purge_at_once :
    (fuel b cutoff : ℕ) (jobs : Jobs)
    → 1 ≤ b
    → Keyed job_key jobs
    → count_if (is_expired cutoff) jobs < fuel
    → purge_batches fuel b cutoff (0, jobs) ≡ purge_at_once cutoff jobs
unfolding purge_at_once
purge_batches-eq-purge_at_once fuel b cutoff jobs l k h =
    batches_from fuel b cutoff 0 jobs l k h ∙ ground arith
