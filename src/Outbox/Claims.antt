-- ===== src/Outbox/Claims.antt =====
-- Which events `claim_events` takes: core/db/repositories/outbox_repo.py.
use sentinel_wp.Base.{
  ℕ, ◌-◌, ◌≤◌, ◌≡◌, refl, subst, length-map, ap, ◌≢◌, ◌⊎◌, inl, inr, Bool, true, false, Option,
  some, List, [], ◌∷◌, map, arith, ◌==◌, if◌then◌else◌, keep, elem, length, In, In-keep, In-take,
  length-take-le, In-map, map-In, elem-In, Bool-cases,
}
use sentinel_wp.Base.Sort.{In-sort_asc, sort_asc}
use sentinel_wp.Outbox.{processing, IntegrationOutbox, Events, event_row, is_final}
use sentinel_wp.Outbox.Queue.{
  is_candidate, selected, take_over, ids, take_over_all, claim_events, recover_stale_events,
  recover_row, is_stale,
}

module _ (now batch_size : ℕ) (event_type tenant_id : Option ℕ) (locked : ℕ → Bool)
    (t : Events) where
  selected-In :
      (m : IntegrationOutbox)
      → In m (selected now batch_size event_type tenant_id locked t)
      → In m t × (is_candidate now event_type tenant_id locked m ≡ true)
  unfolding selected
  selected-In m h = In-keep (is_candidate now event_type tenant_id locked) m t (
      In-sort_asc (λ x. x.created_at) m (keep (is_candidate now event_type tenant_id locked) t)
        (In-take batch_size m
          (sort_asc (λ x. x.created_at) (keep (is_candidate now event_type tenant_id locked) t)) h))

  length-selected-le : length (selected now batch_size event_type tenant_id locked t) ≤ batch_size
  unfolding selected
  length-selected-le = length-take-le batch_size _

  -- What the loop makes of a chosen row.
  taken_over :
      (worker_id : ℕ) (chosen : List ℕ) (m : IntegrationOutbox)
      → In m t
      → elem m.id chosen ≡ true
      → In (take_over now worker_id m) (take_over_all now worker_id chosen t)
  taken_over worker_id chosen m here chosen_id =
      let g =
        λ (x : IntegrationOutbox). if elem x.id chosen then take_over now worker_id x else x in
      subst (λ x. In x (map g t)) (rw chosen_id) (map-In g m t here)

  -- Every event that a worker is given was due and matched the filters and was not locked; it is
  -- in the table, now in PROCESSING under that worker, and at most `batch_size` are given.
  pub claim_events_sound :
      (worker_id : ℕ)
      → let (t', claimed) = claim_events now worker_id batch_size event_type tenant_id locked t in
        (length claimed ≤ batch_size)
        × ((e : IntegrationOutbox)
            → In e claimed
            → In e t'
              × (e.status ≡ processing)
              × (e.claimed_by ≡ some worker_id)
              × ((m : IntegrationOutbox) × In m t
                  × (is_candidate now event_type tenant_id locked m ≡ true)
                  × (e ≡ take_over now worker_id m)))
  unfolding claim_events
  claim_events_sound worker_id =
      let chosen = selected now batch_size event_type tenant_id locked t in
      (
        rw length-map length-selected-le,
        λ e h.
            let (m, picked, same) = In-map (take_over now worker_id) e chosen h in
            let (stored, candidate) = selected-In m picked in
            let given = elem-In m.id (ids chosen) (map-In event_row m chosen picked) in
            (
              rw same (taken_over worker_id (ids chosen) m stored given),
              ap (λ (x : IntegrationOutbox). x.status) same,
              ap (λ (x : IntegrationOutbox). x.claimed_by) same,
              (m, stored, candidate, same),
            ),
      )

-- A row after the loop: taken over, or as it was and not chosen.
after_loop :
    (now w : ℕ) (chosen : List ℕ) (t : Events) (m : IntegrationOutbox)
    → In m (take_over_all now w chosen t)
    → (m.status ≡ processing) ⊎ (elem m.id chosen ≡ false)
after_loop now w chosen t m h =
    let g = λ (x : IntegrationOutbox). if elem x.id chosen then take_over now w x else x in
    let (x, here, e) = In-map g m t h in
    elim (Bool-cases (elem x.id chosen)) [
      | inl c ↦ inl (ap (λ (y : IntegrationOutbox). y.status) (rw c at e))
      | inr c ↦ inr (rw (ap (λ (y : IntegrationOutbox). y.id) (rw c at e)) c)
    ]

-- Two workers that claim one after the other, at any times and with any filters, are given
-- different events.
pub claims_disjoint :
    (now w size : ℕ) (type tenant : Option ℕ) (locked : ℕ → Bool) (now' w' size' : ℕ)
    (type' tenant' : Option ℕ) (locked' : ℕ → Bool) (t : Events)
    → let (t', first) = claim_events now w size type tenant locked t in
      let (t'', second) = claim_events now' w' size' type' tenant' locked' t' in
      (e e' : IntegrationOutbox) → In e first → In e' second → e.id ≢ e'.id
unfolding claim_events
claims_disjoint now w size type tenant locked now' w' size' type' tenant' locked' t e e' h h' same =
    let chosen = selected now size type tenant locked t in
    let t' = take_over_all now w (ids chosen) t in
    let (m, picked, e-is) = In-map (take_over now w) e chosen h in
    let (m', picked', e'-is) =
      In-map (take_over now' w') e' (selected now' size' type' tenant' locked' t') h' in
    let (stored', candidate') = selected-In now' size' type' tenant' locked' t' m' picked' in
    let given = elem-In m.id (ids chosen) (map-In event_row m chosen picked) in
    elim (after_loop now w (ids chosen) t m' stored') [
      | inl busy ↦ ground arith
      | inr other ↦ ground arith
    ]

-- Primary keys are unique.
abbrev pub HasUniqueIds : Events → Type 0
HasUniqueIds t = (a b : IntegrationOutbox) → In a t → In b t → a.id ≡ b.id → a ≡ b

elem-ids :
    (n : ℕ) (xs : Events) → elem n (ids xs) ≡ true → (x : IntegrationOutbox) × In x xs × (x.id ≡ n)
elem-ids n [] h = cc
elem-ids n (x ∷ xs) h = elim (Bool-cases (n == x.id)) [
  | inl e ↦ (x, inl refl, ground arith)
  | inr e ↦ let (y, here, same) = elem-ids n xs (ground arith) in (y, inr here, same)
]

-- If the ids of the events are unique, an event whose delivery is over, published or dead, stays in
-- the table as it is when workers claim events and when stale events are recovered.
pub final_untouched :
    (now w size timeout : ℕ) (type tenant : Option ℕ) (locked : ℕ → Bool) (t : Events)
    (m : IntegrationOutbox)
    → HasUniqueIds t
    → In m t
    → is_final m.status ≡ true
    → In m (claim_events now w size type tenant locked t).0
      × In m (recover_stale_events now timeout t).0
unfolding claim_events recover_stale_events
final_untouched now w size timeout type tenant locked t m unique here final =
    let chosen = selected now size type tenant locked t in
    let g = λ (x : IntegrationOutbox). if elem x.id (ids chosen) then take_over now w x else x in
    let r = λ (x : IntegrationOutbox). if is_stale (now - timeout) x then recover_row x else x in
    (
      elim (Bool-cases (elem m.id (ids chosen))) [
        | inl c ↦
            let (x, picked, same) = elem-ids m.id chosen c in
            let (stored, candidate) = selected-In now size type tenant locked t x picked in
            ground (arith, unique x m stored here same)
        | inr c ↦ subst (λ x. In x (map g t)) (rw c) (map-In g m t here)
      ],
      subst (λ x. In x (map r t)) (ground arith) (map-In r m t here),
    )
