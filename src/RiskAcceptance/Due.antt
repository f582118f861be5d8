-- ===== src/RiskAcceptance/Due.antt =====
-- Which acceptances the task ends: expire_risk_acceptances of core/tasks/remediation_tasks.py.
use sentinel_wp.Base.{
  ℕ, ◌+◌, ◌<◌, subst, ◌≡◌, refl, ◌∙◌, Bool, true, false, ◌&&◌, Option, none, some, List, [], ◌∷◌,
  ◌==◌, arith, inl, inr, Bool-cases, In, In-keep,
}
use sentinel_wp.Base.Text.{codes, text_eq, upper, upper_char}
use sentinel_wp.Base.Table.{get_row-put_row, get_row-In, key-get_row}
use sentinel_wp.Sla.{Stamp, at, malformed}
use sentinel_wp.RiskAcceptance.{
  RiskAcceptance, World, acceptance, saved_acceptance, save_risk_acceptance, list_risk_acceptances,
  is_over, expire, expire_listed, expire_tenants, expire_risk_acceptances,
}
use sentinel_wp.RiskAcceptance.Expiry.{
  IsKeyed, marked, id-saved, Keyed-expire_listed, NoneDue-expire_tenants, expire_again,
}

expire-other :
    (now t : ℕ) (ra : RiskAcceptance) (w : World) (g : RiskAcceptance)
    → acceptance g.id w.acceptances ≡ some g
    → (ra.id == g.id) ≡ false
    → acceptance g.id (expire now t ra w).acceptances ≡ some g
unfolding expire save_risk_acceptance
expire-other now t ra w g h b =
    let o = acceptance ra.id w.acceptances in
    let x = saved_acceptance now (marked ra) o in
    let i : x.id ≡ ra.id =
      id-saved now ra o
        (λ y e. key-get_row (λ (r : RiskAcceptance). r.id) ra.id w.acceptances y e) in
    get_row-put_row (λ (r : RiskAcceptance). r.id) g.id x w.acceptances ∙ rw (i, b) h

not_id :
    (ra g : RiskAcceptance) {b : Bool}
    → (ra.id ≡ g.id → b ≡ false)
    → b ≡ true
    → (ra.id == g.id) ≡ false
not_id ra g h e = ground arith

approved_of :
    (ra : RiskAcceptance) (t : ℕ)
    → (ra.tenant_id == t && text_eq ra.status (codes "APPROVED")) ≡ true
    → text_eq ra.status (codes "APPROVED") ≡ true
approved_of ra t h = ground arith

lasting_not_over :
    (now : ℕ) (o : Option Stamp) → ((u : ℕ) → o ≡ some (at u) → now < u) → is_over now o ≡ false
lasting_not_over now none h = refl
lasting_not_over now (some malformed) h = refl
lasting_not_over now (some (at u)) h = ground (arith, h u refl)

-- An acceptance that none of the listed ones expires stays as it is.
expire_listed-kept :
    (now t : ℕ) (ras : List RiskAcceptance) (r : ℕ × World) (g : RiskAcceptance)
    → acceptance g.id (r.1).acceptances ≡ some g
    → ((ra : RiskAcceptance) → In ra ras → ra.id ≡ g.id → is_over now ra.valid_until ≡ false)
    → acceptance g.id ((expire_listed now t ras r).1).acceptances ≡ some g
unfolding expire_listed
expire_listed-kept now t [] r g e h = e
expire_listed-kept now t (ra ∷ ras) r g e h = elim (Bool-cases (is_over now ra.valid_until)) [
  | inr b ↦ rw (b, expire_listed) (expire_listed-kept now t ras r g e (λ x i. h x (inr i)))
  | inl b ↦
      rw (b, expire_listed)
        (expire_listed-kept now t ras (r.0 + 1, expire now t ra r.1) g
          (expire-other now t ra (r.1) g e (not_id ra g (h ra (inl refl)) b)) (λ x i. h x (inr i)))
]

expire_tenants-kept :
    (now : ℕ) (ts : List ℕ) (r : ℕ × World) (g : RiskAcceptance)
    → IsKeyed (r.1)
    → acceptance g.id (r.1).acceptances ≡ some g
    → (text_eq g.status (codes "APPROVED") ≡ true → is_over now g.valid_until ≡ false)
    → acceptance g.id ((expire_tenants now ts r).1).acceptances ≡ some g
unfolding expire_tenants list_risk_acceptances upper_char
expire_tenants-kept now [] r g k e h = e
expire_tenants-kept now (t ∷ ts) r g k e h =
    let ras = list_risk_acceptances t (codes "APPROVED") (r.1).acceptances in
    expire_tenants-kept now ts (expire_listed now t ras r) g (Keyed-expire_listed now t ras r k)
      (expire_listed-kept now t ras r g e (λ ra i same.
        let (stands, listed) =
          In-keep
            (λ (x : RiskAcceptance).
              x.tenant_id == t && text_eq x.status (upper (codes "APPROVED")))
            ra (r.1).acceptances i in
        let row = get_row-In (λ (x : RiskAcceptance). x.id) (r.1).acceptances ra k stands in
        let one : ra ≡ g = ground (arith, rw same at row, e) in
        rw one (h (rw one at (approved_of ra t listed)))))
      h

not_over_lasts : (now u : ℕ) → is_over now (some (at u)) ≡ false → now < u
not_over_lasts now u h = ground arith

-- A run of the task over a table with one row for each id ends the accepted risks that are due, and no
-- other: afterwards an APPROVED acceptance of a tenant that was visited, with an end that parses,
-- ends later than now; one that was not APPROVED, or that has no end, or one that does not parse, or
-- an end later than now, is as it was; and a second run at the same instant, for the same tenants,
-- counts no expiry and changes no table.
pub expires_due :
    (now : ℕ) (tenants : List ℕ) (w : World)
    → IsKeyed w
    → let w' = (expire_risk_acceptances now tenants w).1 in
      ((g : RiskAcceptance) (u : ℕ)
        → acceptance g.id w'.acceptances ≡ some g
        → In g.tenant_id tenants
        → text_eq g.status (codes "APPROVED") ≡ true
        → g.valid_until ≡ some (at u)
        → now < u)
      × ((g : RiskAcceptance)
          → acceptance g.id w.acceptances ≡ some g
          → (text_eq g.status (codes "APPROVED") ≡ true
              → (u : ℕ) → g.valid_until ≡ some (at u)
              → now < u)
          → acceptance g.id w'.acceptances ≡ some g)
      × (expire_risk_acceptances now tenants w' ≡ (0, w'))
unfolding expire_risk_acceptances
expires_due now tenants w k = (
  (λ g u e i s v. not_over_lasts now u (
      subst (λ o. is_over now o ≡ false) v
        (NoneDue-expire_tenants now g.tenant_id tenants (0, w) i g.id g e refl s))),
  (λ g e lasts.
      expire_tenants-kept now tenants (0, w) g k e
        (λ s. lasting_not_over now g.valid_until (lasts s))),
  expire_again now tenants w k,
)
