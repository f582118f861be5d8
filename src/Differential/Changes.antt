-- ===== src/Differential/Changes.antt =====
-- What the loop over the fingerprints reports: core/differential.py.
use sentinel_wp.Base.{
  ◌+◌, ◌≤◌, ◌≡◌, refl, ap, ◌≢◌, ◌↔◌, ◌⊎◌, Bool, true, false, ◌||◌, Option, none, some, List, [],
  ◌∷◌, ◌++◌, map, arith, any_of, length, In, In-map,
}
use sentinel_wp.Base.Text.{Text}
use sentinel_wp.Differential.{
  Finding, FindingChange, ChangeState, new, persisting, resolved, reopened, unknown, index, by_fp,
  index_all, sorted_keys, classify, change_of, count_state,
}
use sentinel_wp.Differential.Index.{
  has, no_empty_key, by_fp-eq-none_iff, by_fp-index_all-eq-none_iff,
}
use sentinel_wp.Differential.Keys.{Ascending, sorted_keys-Ascending, In-sorted_keys}
use sentinel_wp.Differential.Report.{changes_of}

abbrev pub fingerprints : List FindingChange → List Text
fingerprints cs = map (λ c. c.fingerprint) cs

fingerprints-map :
    (completed : Bool) (bs ns : List Finding) (ks : List Text)
    → fingerprints (map (change_of completed bs ns) ks) ≡ ks
unfolding change_of
fingerprints-map completed bs ns [] = refl
fingerprints-map completed bs ns (k ∷ ks) = ap (λ js. k ∷ js) (fingerprints-map completed bs ns ks)

any_of-append :
    (k : Text) (fs gs : List Finding)
    → any_of (has k) (fs ++ gs) ≡ (any_of (has k) fs || any_of (has k) gs)
any_of-append k [] gs = refl
any_of-append k (f ∷ fs) gs = ground (arith, any_of-append k fs gs)

is_key_iff :
    (k : Text) (fs : List Finding)
    → (any_of (has k) (index_all fs []) ≡ true) ↔ ((k ≢ []) × (any_of (has k) fs ≡ true))
is_key_iff [] fs = ground (arith, no_empty_key fs [], by_fp-eq-none_iff [] (index_all fs []))
is_key_iff (c ∷ k) fs =
    let nonempty : (c ∷ k) ≢ [] = cc in
    ground (
      arith,
      nonempty,
      by_fp-eq-none_iff (c ∷ k) (index_all fs []),
      by_fp-index_all-eq-none_iff (c ∷ k) fs nonempty,
    )

pub In-keys :
    (k : Text) (bs ns : List Finding)
    → In k (sorted_keys (index_all bs [] ++ index_all ns []))
      ↔ ((k ≢ []) × ((any_of (has k) bs || any_of (has k) ns) ≡ true))
In-keys k bs ns = ground (
  arith,
  In-sorted_keys k (index_all bs [] ++ index_all ns []),
  any_of-append k (index_all bs []) (index_all ns []),
  is_key_iff k bs,
  is_key_iff k ns,
)

-- The changes stand in ascending order of their fingerprints, no fingerprint twice, and the
-- fingerprints are those of the findings of the two scans that are not the empty text.
pub changes_of-fingerprints :
    (completed : Bool) (bs ns : List Finding)
    → Ascending (fingerprints (changes_of completed bs ns))
      × ((k : Text)
          → In k (fingerprints (changes_of completed bs ns))
            ↔ ((k ≢ []) × ((any_of (has k) bs || any_of (has k) ns) ≡ true)))
unfolding changes_of
changes_of-fingerprints completed bs ns =
    let keys = sorted_keys (index_all bs [] ++ index_all ns []) in
    rw (fingerprints-map completed (index_all bs []) (index_all ns []) keys)
      (sorted_keys-Ascending (index_all bs [] ++ index_all ns []), λ k. In-keys k bs ns)

-- What the change states of one fingerprint say of the findings of the two scans that bear it.
abbrev pub Classified : Bool → List Finding → List Finding → FindingChange → Type 0
Classified completed bs ns c =
    let was = any_of (has c.fingerprint) bs in
    let is = any_of (has c.fingerprint) ns in
    ((c.change_state ≡ new) ↔ (was ≡ false))
    × ((c.change_state ≡ resolved) ↔ ((is ≡ false) × (completed ≡ true)))
    × ((c.change_state ≡ unknown) ↔ ((is ≡ false) × (completed ≡ false)))

classify_states :
    (completed : Bool) (b n : Option Finding)
    → (b ≢ none) ⊎ (n ≢ none)
    → ((classify completed b n ≡ new) ↔ (b ≡ none))
      × ((classify completed b n ≡ resolved) ↔ ((n ≡ none) × (completed ≡ true)))
      × ((classify completed b n ≡ unknown) ↔ ((n ≡ none) × (completed ≡ false)))
unfolding classify
classify_states completed none none h = ground arith
classify_states completed none (some n) h = ground arith
classify_states completed (some b) none h = ground arith
classify_states completed (some b) (some n) h = ground arith

change_of-Classified :
    (completed : Bool) (bs ns : List Finding) (k : Text)
    → k ≢ []
    → (any_of (has k) bs || any_of (has k) ns) ≡ true
    → Classified completed bs ns (change_of completed (index_all bs []) (index_all ns []) k)
unfolding change_of
change_of-Classified completed bs ns k h any =
    let b = by_fp-index_all-eq-none_iff k bs h in
    let n = by_fp-index_all-eq-none_iff k ns h in
    let some_one : (by_fp k (index_all bs []) ≢ none) ⊎ (by_fp k (index_all ns []) ≢ none) =
      ground (arith, b, n) in
    let states =
      classify_states completed (by_fp k (index_all bs [])) (by_fp k (index_all ns [])) some_one in
    ground (arith, b, n, states)

-- A change is NEW exactly if no finding of the baseline bears its fingerprint, RESOLVED exactly if
-- none of the new scan does and that scan is completed, UNKNOWN exactly if none of the new scan
-- does and that scan is not completed. The status that the finding had in the baseline does not
-- matter: an absent finding that was CLOSED there is RESOLVED as well, though the module's
-- documentation asks for one that was open.
pub changes_of-Classified :
    (completed : Bool) (bs ns : List Finding) (c : FindingChange)
    → In c (changes_of completed bs ns)
    → Classified completed bs ns c
unfolding changes_of
changes_of-Classified completed bs ns c h =
    let (k, i, e) =
      In-map (change_of completed (index_all bs []) (index_all ns [])) c
        (sorted_keys (index_all bs [] ++ index_all ns [])) h in
    let (nonempty, any) = (In-keys k bs ns).0 i in
    rw e (change_of-Classified completed bs ns k nonempty any)

index_le : (s : ChangeState) → index s ≤ 4
index_le new = omega arith
index_le persisting = omega arith
index_le resolved = omega arith
index_le reopened = omega arith
index_le unknown = omega arith

-- The four counts of the report leave out the changes that are UNKNOWN.
pub counts_add_up :
    (cs : List FindingChange)
    → length cs
      ≡ count_state new cs
        + count_state persisting cs
        + count_state resolved cs
        + count_state reopened cs
        + count_state unknown cs
counts_add_up [] = omega arith
counts_add_up (c ∷ cs) = ground (arith, counts_add_up cs, index_le c.change_state)
