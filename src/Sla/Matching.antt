-- ===== src/Sla/Matching.antt =====
-- Which policy `match_sla_policy` selects: core/sla_engine.py.
use sentinel_wp.Base.{
  ℕ, ◌≤◌, ◌≡◌, inl, inr, Bool, true, false, Option, none, some, List, [], ◌∷◌, arith, find, In, All,
  Bool-cases,
}
use sentinel_wp.Base.Text.{Text}
use sentinel_wp.Base.Sort.{
  sort_desc, IsDescending, sort_desc-IsDescending, In-sort_desc, sort_desc-In,
}
use sentinel_wp.Sla.{SlaPolicy, Finding, policy_specificity, applies, match_sla_policy}

All-In : {A : Type 0} (P : A → Type 0) (a : A) (xs : List A) → All P xs → In a xs → P a
All-In P a [] h i = elim i [ ]
All-In P a (x ∷ xs) h (inl e) = rw e h.0
All-In P a (x ∷ xs) h (inr i) = All-In P a xs h.1 i

module _ {A : Type 0} (rank : A → ℕ) (p : A → Bool) where
  first_is_best :
      (x : A) (xs : List A) (b a : A)
      → IsDescending rank (x ∷ xs)
      → a ≡ x
      → In b (x ∷ xs)
      → rank b ≤ rank a
  first_is_best x xs b a d same (inl e) = ground arith
  first_is_best x xs b a d same (inr i) = rw same (All-In (λ y. rank y ≤ rank x) b xs d.0 i)

  find_first :
      (xs : List A) (a : A)
      → IsDescending rank xs
      → find p xs ≡ some a
      → In a xs × (p a ≡ true) × ((b : A) → In b xs → p b ≡ true → rank b ≤ rank a)
  find_first [] a d h = cc
  find_first (x ∷ xs) a d h =
      let lowest =
        λ (b a : A) (same : a ≡ x) (i : In b (x ∷ xs)). first_is_best x xs b a d same i in
      elim (Bool-cases (p x)) [
        | inl e ↦
            let same : a ≡ x = ground arith in (inl same, rw same e, λ b i q. lowest b a same i)
        | inr e ↦
            let (here, good, best) = find_first xs a d.1 (ground arith) in
            (inr here, good, λ b i q. ground (arith, best b))
      ]

  find-none : (xs : List A) → find p xs ≡ none → (b : A) → In b xs → p b ≡ false
  find-none [] h b i = elim i [ ]
  find-none (x ∷ xs) h b i = ground (arith, find-none xs (ground arith) b)

-- The policy returned applies to the finding, and no policy that applies is more specific; none is
-- returned only if no policy applies.
pub match_sla_policy_most_specific :
    (f : Finding) (policies : List SlaPolicy) (criticality : Option Text) (facing : Bool)
    → ((p : SlaPolicy)
        → match_sla_policy f policies criticality facing ≡ some p
        → In p policies
          × (applies f criticality facing p ≡ true)
          × ((q : SlaPolicy)
              → In q policies
              → applies f criticality facing q ≡ true
              → policy_specificity q ≤ policy_specificity p))
      × (match_sla_policy f policies criticality facing ≡ none
          → (q : SlaPolicy) → In q policies
          → applies f criticality facing q ≡ false)
unfolding match_sla_policy
match_sla_policy_most_specific f policies criticality facing =
    let good = applies f criticality facing in
    let sorted = sort_desc policy_specificity policies in
    (
      (λ p found.
          let (here, ok, best) =
            find_first policy_specificity good sorted p
              (sort_desc-IsDescending policy_specificity policies) found in
          (
            In-sort_desc policy_specificity p policies here,
            ok,
            λ q i. best q (sort_desc-In policy_specificity q policies i),
          )),
      λ empty q i.
          find-none policy_specificity good sorted empty q
            (sort_desc-In policy_specificity q policies i),
    )
