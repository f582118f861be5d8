-- ===== src/RiskAcceptance/Expiry.antt =====
-- The task that ends accepted risks: expire_risk_acceptances of core/tasks/remediation_tasks.py.
use sentinel_wp.Base.{
  ℕ, ◌+◌, ◌≡◌, ◌⊎◌, refl, sym, ◌∙◌, Bool, true, false, ◌&&◌, Option, none, some, List, [], ◌∷◌,
  ◌==◌, arith, if◌then◌else◌, inl, inr, Bool-cases, In, In-keep, keep-In, any_of,
}
use sentinel_wp.Base.Text.{Text, codes, text_eq, upper, upper_char}
use sentinel_wp.Base.Table.{
  Keyed, Keyed-put_row, get_row-put_row, In-get_row, get_row-In, key-get_row,
}
use sentinel_wp.RiskAcceptance.{
  RiskAcceptance, World, acceptance, saved_acceptance, save_risk_acceptance, list_risk_acceptances,
  is_over, expire, expire_listed, expire_tenants, expire_risk_acceptances,
}

abbrev pub IsKeyed : World → Type 0
IsKeyed w = Keyed (λ (ra : RiskAcceptance). ra.id) w.acceptances

abbrev expired_status : Text
expired_status = codes "EXPIRED"

abbrev pub marked : RiskAcceptance → RiskAcceptance
marked ra = record ra { status = codes "EXPIRED" }

status-saved :
    (now : ℕ) (ra : RiskAcceptance) (o : Option RiskAcceptance)
    → ((saved_acceptance now (marked ra) o).status ≡ expired_status)
      × ((saved_acceptance now (marked ra) (acceptance ra.id [])).id ≡ ra.id)
unfolding saved_acceptance
status-saved now ra none = (refl, refl)
status-saved now ra (some g) = (refl, refl)

pub id-saved :
    (now : ℕ) (ra : RiskAcceptance) (o : Option RiskAcceptance)
    → ((g : RiskAcceptance) → o ≡ some g → g.id ≡ ra.id)
    → (saved_acceptance now (marked ra) o).id ≡ ra.id
unfolding saved_acceptance
id-saved now ra none h = refl
id-saved now ra (some g) h = h g refl

-- After one expiry the row is EXPIRED, and the others are as they were.
expire-row :
    (now t : ℕ) (ra : RiskAcceptance) (w : World) (j : ℕ) (g : RiskAcceptance)
    → acceptance j (expire now t ra w).acceptances ≡ some g
    → (g.status ≡ expired_status) ⊎ ((acceptance j w.acceptances ≡ some g) × ((ra.id == j) ≡ false))
unfolding expire save_risk_acceptance
expire-row now t ra w j g h =
    let o = acceptance ra.id w.acceptances in
    let x = saved_acceptance now (marked ra) o in
    let i : x.id ≡ ra.id =
      id-saved now ra o
        (λ y e. key-get_row (λ (r : RiskAcceptance). r.id) ra.id w.acceptances y e) in
    let e = get_row-put_row (λ (r : RiskAcceptance). r.id) j x w.acceptances in
    let k : (if x.id == j then some x else acceptance j w.acceptances) ≡ some g = sym e ∙ h in
    elim (Bool-cases (ra.id == j)) [
      | inl b ↦ inl (ground (arith, (status-saved now ra o).0, rw (i, b) at k))
      | inr b ↦ inr (rw (i, b) at k, b)
    ]

Keyed-expire :
    (now t : ℕ) (ra : RiskAcceptance) (w : World) → IsKeyed w → IsKeyed (expire now t ra w)
unfolding expire save_risk_acceptance
Keyed-expire now t ra w h =
    Keyed-put_row _ (saved_acceptance now (marked ra) (acceptance ra.id w.acceptances))
      w.acceptances h

-- One of the listed acceptances is the row `j`, and is over.
abbrev hit : ℕ → ℕ → List RiskAcceptance → Bool
hit now j ras = any_of (λ (ra : RiskAcceptance). ra.id == j && is_over now ra.valid_until) ras

expire_listed-row :
    (now t : ℕ) (ras : List RiskAcceptance) (r : ℕ × World) (j : ℕ) (g : RiskAcceptance)
    → acceptance j ((expire_listed now t ras r).1).acceptances ≡ some g
    → (g.status ≡ expired_status)
      ⊎ ((acceptance j (r.1).acceptances ≡ some g) × (hit now j ras ≡ false))
unfolding expire_listed
expire_listed-row now t [] r j g h = inr (h, refl)
expire_listed-row now t (ra ∷ ras) r j g h = elim (Bool-cases (is_over now ra.valid_until)) [
  | inl b ↦ ground (
    arith,
    expire_listed-row now t ras (r.0 + 1, expire now t ra r.1) j g (rw (b, expire_listed) at h),
    expire-row now t ra (r.1) j g,
  )
  | inr b ↦ ground (arith, expire_listed-row now t ras r j g (rw (b, expire_listed) at h))
]

pub Keyed-expire_listed :
    (now t : ℕ) (ras : List RiskAcceptance) (r : ℕ × World)
    → IsKeyed (r.1)
    → IsKeyed ((expire_listed now t ras r).1)
unfolding expire_listed
Keyed-expire_listed now t [] r h = h
Keyed-expire_listed now t (ra ∷ ras) r h = elim (Bool-cases (is_over now ra.valid_until)) [
  | inl b ↦
      rw (b, expire_listed)
        (Keyed-expire_listed now t ras (r.0 + 1, expire now t ra r.1)
          (Keyed-expire now t ra (r.1) h))
  | inr b ↦ rw (b, expire_listed) (Keyed-expire_listed now t ras r h)
]

-- No approved acceptance of the tenant is over.
abbrev pub NoneDue : ℕ → ℕ → World → Type 0
NoneDue now t w =
    (j : ℕ) (g : RiskAcceptance)
    → acceptance j w.acceptances ≡ some g
    → g.tenant_id ≡ t
    → text_eq g.status (codes "APPROVED") ≡ true
    → is_over now g.valid_until ≡ false

approved_listed :
    (t : ℕ) (ras : List RiskAcceptance) (g : RiskAcceptance)
    → In g ras
    → g.tenant_id ≡ t
    → text_eq g.status (codes "APPROVED") ≡ true
    → In g (list_risk_acceptances t (codes "APPROVED") ras)
unfolding list_risk_acceptances upper_char
approved_listed t ras g i e s =
    keep-In
      (λ (ra : RiskAcceptance). ra.tenant_id == t && text_eq ra.status (upper (codes "APPROVED"))) g
      ras i (rw (e, s) (ground arith))

In-hit :
    (now j : ℕ) (g : RiskAcceptance) (ras : List RiskAcceptance)
    → In g ras
    → g.id ≡ j
    → is_over now g.valid_until ≡ true
    → hit now j ras ≡ true
In-hit now j g [] i e o = elim i [ ]
In-hit now j g (x ∷ xs) (inl q) e o = rw (← q, e, o) (ground arith)
In-hit now j g (x ∷ xs) (inr i) e o = ground (arith, In-hit now j g xs i)

not_approved : (s : Text) → s ≡ expired_status → text_eq s (codes "APPROVED") ≡ false
not_approved s e = rw e refl

NoneDue-expire_listed :
    (now t n : ℕ) (w : World)
    → NoneDue now t
        ((expire_listed now t (list_risk_acceptances t (codes "APPROVED") w.acceptances) (n, w)).1)
NoneDue-expire_listed now t n w j g h e s =
    let ras = list_risk_acceptances t (codes "APPROVED") w.acceptances in
    elim (expire_listed-row now t ras (n, w) j g h) [
      | inl x ↦ absurd (ground (arith, not_approved g.status x))
      | inr (p, q) ↦ elim (Bool-cases (is_over now g.valid_until)) [
        | inr o ↦ o
        | inl o ↦ absurd (
            ground (
              arith,
              In-hit now j g ras
                  (approved_listed t w.acceptances g
                    (In-get_row (λ (r : RiskAcceptance). r.id) j w.acceptances g p) e s)
                  (key-get_row (λ (r : RiskAcceptance). r.id) j w.acceptances g p) o,
            ))
      ]
    ]

-- An expiry makes no acceptance due.
NoneDue-kept :
    (now t t2 : ℕ) (ras : List RiskAcceptance) (r : ℕ × World)
    → NoneDue now t (r.1)
    → NoneDue now t ((expire_listed now t2 ras r).1)
NoneDue-kept now t t2 ras r d j g h e s = elim (expire_listed-row now t2 ras r j g h) [
  | inl x ↦ absurd (ground (arith, not_approved g.status x))
  | inr (p, q) ↦ d j g p e s
]

NoneDue-later :
    (now t : ℕ) (ts : List ℕ) (r : ℕ × World)
    → NoneDue now t (r.1)
    → NoneDue now t ((expire_tenants now ts r).1)
unfolding expire_tenants
NoneDue-later now t [] r d = d
NoneDue-later now t (t2 ∷ ts) r d =
    NoneDue-later now t ts _
      (NoneDue-kept now t t2 (list_risk_acceptances t2 (codes "APPROVED") (r.1).acceptances) r d)

pub NoneDue-expire_tenants :
    (now t : ℕ) (ts : List ℕ) (r : ℕ × World)
    → In t ts
    → NoneDue now t ((expire_tenants now ts r).1)
unfolding expire_tenants
NoneDue-expire_tenants now t [] r i = elim i [ ]
NoneDue-expire_tenants now t (t2 ∷ ts) r (inl e) =
    NoneDue-later now t ts _ (rw e (NoneDue-expire_listed now t2 (r.0) (r.1)))
NoneDue-expire_tenants now t (t2 ∷ ts) r (inr i) = NoneDue-expire_tenants now t ts _ i

Keyed-expire_tenants :
    (now : ℕ) (ts : List ℕ) (r : ℕ × World) → IsKeyed (r.1) → IsKeyed ((expire_tenants now ts r).1)
unfolding expire_tenants
Keyed-expire_tenants now [] r k = k
Keyed-expire_tenants now (t ∷ ts) r k =
    Keyed-expire_tenants now ts _
      (Keyed-expire_listed now t (list_risk_acceptances t (codes "APPROVED") (r.1).acceptances) r k)

expire_listed_none :
    (now t : ℕ) (ras : List RiskAcceptance) (r : ℕ × World)
    → ((ra : RiskAcceptance) → In ra ras → is_over now ra.valid_until ≡ false)
    → expire_listed now t ras r ≡ r
unfolding expire_listed
expire_listed_none now t [] r h = refl
expire_listed_none now t (ra ∷ ras) r h =
    rw (h ra (inl refl), expire_listed) (expire_listed_none now t ras r (λ x i. h x (inr i)))

listed_not_over :
    (now t : ℕ) (w : World) (ra : RiskAcceptance)
    → IsKeyed w
    → NoneDue now t w
    → In ra (list_risk_acceptances t (codes "APPROVED") w.acceptances)
    → is_over now ra.valid_until ≡ false
unfolding list_risk_acceptances upper_char
listed_not_over now t w ra k d i =
    let (i2, e) =
      In-keep
        (λ (ra : RiskAcceptance). ra.tenant_id == t && text_eq ra.status (upper (codes "APPROVED")))
        ra w.acceptances i in
    d ra.id ra (get_row-In (λ (r : RiskAcceptance). r.id) w.acceptances ra k i2) (ground arith)
      (ground arith)

nothing_due :
    (now : ℕ) (ts : List ℕ) (r : ℕ × World)
    → IsKeyed (r.1)
    → ((t : ℕ) → In t ts → NoneDue now t (r.1))
    → expire_tenants now ts r ≡ r
unfolding expire_tenants
nothing_due now [] r k d = refl
nothing_due now (t ∷ ts) r k d =
    rw
      (expire_listed_none now t (list_risk_acceptances t (codes "APPROVED") (r.1).acceptances) r
        (λ ra i. listed_not_over now t (r.1) ra k (d t (inl refl)) i))
      (nothing_due now ts r k (λ t i. d t (inr i)))

-- A second run at the same instant, for the same tenants, counts no expiry and changes no table.
pub expire_again :
    (now : ℕ) (tenants : List ℕ) (w : World)
    → IsKeyed w
    → expire_risk_acceptances now tenants ((expire_risk_acceptances now tenants w).1)
      ≡ (0, (expire_risk_acceptances now tenants w).1)
unfolding expire_risk_acceptances
expire_again now tenants w k =
    nothing_due now tenants (0, (expire_tenants now tenants (0, w)).1)
      (Keyed-expire_tenants now tenants (0, w) k)
      (λ t i. NoneDue-expire_tenants now t tenants (0, w) i)
