-- ===== src/Differential/Index.antt =====
-- The dictionaries by fingerprint: core/differential.py.
use sentinel_wp.Base.{
  ◌≤◌, ◌≡◌, refl, ap, ◌∙◌, ◌≢◌, ◌↔◌, ◌⊎◌, inl, inr, Bool, true, false, Option, none, some, List, [],
  ◌∷◌, arith, ltb, if◌then◌else◌, Bool-cases, any_of, In,
}
use sentinel_wp.Base.Text.{Text, text_eq, text_eq_iff, text_eq_refl}
use sentinel_wp.Differential.{Finding, by_fp, put, put_newer, index_one, index_all}

abbrev pub has : Text → Finding → Bool
has fp f = text_eq f.fingerprint fp

abbrev newer : Finding → Option Finding → Option Finding
newer f none = some f
newer f (some e) = if ltb e.observation_count f.observation_count then some f else some e

-- What stands under a fingerprint after the findings have come in one by one.
abbrev pub pick : Text → List Finding → Option Finding → Option Finding
pick fp [] e = e
pick fp (f ∷ fs) e = pick fp fs (if has fp f then newer f e else e)

by_fp-put :
    (fp : Text) (f : Finding) (gs : List Finding)
    → by_fp fp (put f gs) ≡ (if has fp f then some f else by_fp fp gs)
by_fp-put fp f [] = refl
by_fp-put fp f (g ∷ gs) = elim (Bool-cases (text_eq g.fingerprint f.fingerprint)) [
  | inl e ↦ rw (e, (text_eq_iff g.fingerprint f.fingerprint).0 e) (ground arith)
  | inr e ↦ ground (
    arith,
    by_fp-put fp f gs,
    text_eq_iff f.fingerprint fp,
    text_eq_iff g.fingerprint fp,
    text_eq_refl fp,
  )
]

pub not_empty : (fp : Text) → fp ≢ [] → text_eq fp [] ≡ false
not_empty [] h = elim (h refl) [ ]
not_empty (c ∷ s) h = refl

by_fp-put_newer :
    (fp : Text) (f : Finding) (e : Option Finding) (gs : List Finding)
    → (has fp f ≡ true → e ≡ by_fp fp gs)
    → by_fp fp (put_newer f e gs) ≡ (if has fp f then newer f e else by_fp fp gs)
by_fp-put_newer fp f none gs same = by_fp-put fp f gs
by_fp-put_newer fp f (some e) gs same = ground (arith, by_fp-put fp f gs, same)

by_fp-index_one :
    (fp : Text) (f : Finding) (gs : List Finding)
    → fp ≢ []
    → by_fp fp (index_one f gs) ≡ (if has fp f then newer f (by_fp fp gs) else by_fp fp gs)
unfolding index_one
by_fp-index_one fp f gs h = elim (Bool-cases (has fp f)) [
  | inl e ↦
      let p = (text_eq_iff f.fingerprint fp).0 e in
      let given = not_empty fp h in
      rw (p, given, text_eq_refl fp)
        (ground (arith, by_fp-put_newer fp f (by_fp fp gs) gs (λ _. refl)))
  | inr e ↦ ground (arith, by_fp-put_newer fp f (by_fp f.fingerprint gs) gs)
]

-- The dictionary holds under a fingerprint what the findings that bear it leave there.
pub by_fp-index_all :
    (fp : Text) (fs gs : List Finding)
    → fp ≢ []
    → by_fp fp (index_all fs gs) ≡ pick fp fs (by_fp fp gs)
unfolding index_all
by_fp-index_all fp [] gs h = refl
by_fp-index_all fp (f ∷ fs) gs h =
    by_fp-index_all fp fs (index_one f gs) h ∙ ap (pick fp fs) (by_fp-index_one fp f gs h)

-- `g` is one of the findings or `e`, and no finding under the fingerprint was observed more often.
abbrev pub Highest : Text → List Finding → Option Finding → Finding → Type 0
Highest fp fs e g =
    ((e ≡ some g) ⊎ (In g fs × (has fp g ≡ true)))
    × ((f : Finding) → In f fs → has fp f ≡ true → f.observation_count ≤ g.observation_count)
    × ((x : Finding) → e ≡ some x → x.observation_count ≤ g.observation_count)

newer-Highest :
    (fp : Text) (f : Finding) (fs : List Finding) (e : Option Finding) (g : Finding)
    → Highest fp fs (if has fp f then newer f e else e) g
    → Highest fp (f ∷ fs) e g
newer-Highest fp f fs none g (from, all, start) = (
  ground arith,
  λ f' i b. elim i [ inl same ↦ ground (arith, start f) | inr j ↦ all f' j b ],
  λ x h. ground arith,
)
newer-Highest fp f fs (some x) g (from, all, start) = (
  ground arith,
  λ f' i b. elim i [ inl same ↦ ground (arith, start f, start x) | inr j ↦ all f' j b ],
  λ y h. ground (arith, start f, start x),
)

pub pick-Highest :
    (fp : Text) (fs : List Finding) (e : Option Finding) (g : Finding)
    → pick fp fs e ≡ some g
    → Highest fp fs e g
pick-Highest fp [] e g h = (inl h, λ f i. elim i [ ], λ x same. ground arith)
pick-Highest fp (f ∷ fs) e g h =
    newer-Highest fp f fs e g (pick-Highest fp fs (if has fp f then newer f e else e) g h)

pub pick-eq-none_iff :
    (fp : Text) (fs : List Finding) (e : Option Finding)
    → (pick fp fs e ≡ none) ↔ ((e ≡ none) × (any_of (has fp) fs ≡ false))
pick-eq-none_iff fp [] e = ground arith
pick-eq-none_iff fp (f ∷ fs) none =
    ground (arith, pick-eq-none_iff fp fs none, pick-eq-none_iff fp fs (some f))
pick-eq-none_iff fp (f ∷ fs) (some x) =
    ground (arith, pick-eq-none_iff fp fs (some x), pick-eq-none_iff fp fs (some f))

put_newer-skips :
    (fp : Text) (f : Finding) (e : Option Finding) (gs : List Finding)
    → has fp f ≡ false
    → by_fp fp (put_newer f e gs) ≡ by_fp fp gs
put_newer-skips fp f none gs h = ground (arith, by_fp-put fp f gs)
put_newer-skips fp f (some e) gs h = ground (arith, by_fp-put fp f gs)

-- Nothing comes to stand under the empty text.
pub no_empty_key : (fs gs : List Finding) → by_fp [] (index_all fs gs) ≡ by_fp [] gs
unfolding index_all index_one
no_empty_key [] gs = refl
no_empty_key (f ∷ fs) gs =
    no_empty_key fs (index_one f gs)
    ∙ ground (arith, put_newer-skips [] f (by_fp f.fingerprint gs) gs)

pub by_fp-eq-none_iff :
    (fp : Text) (gs : List Finding) → (by_fp fp gs ≡ none) ↔ (any_of (has fp) gs ≡ false)
by_fp-eq-none_iff fp [] = ground arith
by_fp-eq-none_iff fp (g ∷ gs) = ground (arith, by_fp-eq-none_iff fp gs)

-- A fingerprint that is not the empty text is a key exactly if a finding bears it.
pub by_fp-index_all-eq-none_iff :
    (fp : Text) (fs : List Finding)
    → fp ≢ []
    → (by_fp fp (index_all fs []) ≡ none) ↔ (any_of (has fp) fs ≡ false)
by_fp-index_all-eq-none_iff fp fs h =
    rw (by_fp-index_all fp fs [] h) (ground (arith, pick-eq-none_iff fp fs none))
