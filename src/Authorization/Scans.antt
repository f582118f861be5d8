-- ===== src/Authorization/Scans.antt =====
-- When a scan is authorized: `verify_scan_authorization` of core/authorization.py.
use sentinel_wp.Base.{
  ℕ, ◌≤◌, ◌≡◌, refl, sym, ◌∙◌, ap, ◌⊎◌, inl, inr, true, false, Option, none, some, List, [], arith,
  if◌then◌else◌, Bool-cases, In, keep, In-keep,
}
use mathlib.Core.Path.{subst}
use sentinel_wp.Base.Sort.{sort_desc, In-sort_desc}
use sentinel_wp.Base.Text.{Text, codes, text_eq, lower_char}
use sentinel_wp.Authorization.{
  Asset, ScanAuthorization, Registry, norm, is_url, is_permitted, in_window,
  get_active_authorization, check_window, needs_window, is_given, decide_on_asset, first_given,
  asset_for, ensure_asset, verify_target, verify_scan_authorization,
}

-- `auth` is on record for the asset and the tenant, active and in its window at both readings of the
-- clock, and lists a profile that permits the mode.
abbrev pub Covers :
    (now later : ℕ)
    → (tenant_id mode : Text) → Asset
    → List ScanAuthorization
    → ScanAuthorization
    → Type 0
Covers now later tenant_id mode asset auths auth =
    In auth auths
    × (in_window now asset.id tenant_id auth ≡ true)
    × ((auth.valid_until ≡ 0) ⊎ (later ≤ auth.valid_until))
    × ((auth.valid_from ≡ 0) ⊎ (auth.valid_from ≤ later))
    × (is_permitted mode auth ≡ true)

abbrev pub Grounds :
    (now later : ℕ) → (tenant_id mode : Text) → Asset → List ScanAuthorization → Type 0
Grounds now later tenant_id mode asset auths =
    (text_eq mode (codes "passive") ≡ true)
    ⊎ ((needs_window mode ≡ true)
        × ((auth : ScanAuthorization) × Covers now later tenant_id mode asset auths auth))

head-In :
    (auths : List ScanAuthorization) (now asset_id : ℕ) (tenant_id : Text)
    (auth : ScanAuthorization)
    → get_active_authorization now asset_id tenant_id auths ≡ some auth
    → In auth (sort_desc (λ a. a.valid_until) (keep (in_window now asset_id tenant_id) auths))
unfolding get_active_authorization
head-In auths now asset_id tenant_id auth h = ground arith

found :
    (auths : List ScanAuthorization) (now asset_id : ℕ) (tenant_id : Text)
    (auth : ScanAuthorization)
    → get_active_authorization now asset_id tenant_id auths ≡ some auth
    → In auth auths × (in_window now asset_id tenant_id auth ≡ true)
found auths now asset_id tenant_id auth h = In-keep (in_window now asset_id tenant_id) auth auths (
    In-sort_desc (λ a. a.valid_until) auth (keep (in_window now asset_id tenant_id) auths)
      (head-In auths now asset_id tenant_id auth h))

checked :
    (later : ℕ) (mode : Text) (asset : Asset) (auth : ScanAuthorization)
    → (check_window later mode asset (some auth)).is_authorized ≡ true
    → ((auth.valid_until ≡ 0) ⊎ (later ≤ auth.valid_until))
      × ((auth.valid_from ≡ 0) ⊎ (auth.valid_from ≤ later))
      × (is_permitted mode auth ≡ true)
unfolding check_window
checked later mode asset auth h = (ground arith, ground arith, ground arith)

window_grounds :
    (later : ℕ) (mode : Text) (asset : Asset) (o : Option ScanAuthorization)
    → (check_window later mode asset o).is_authorized ≡ true
    → (auth : ScanAuthorization) × (o ≡ some auth)
unfolding check_window
window_grounds later mode asset none h = cc
window_grounds later mode asset (some auth) h = (auth, refl)

asset-check_window :
    (later : ℕ) (mode : Text) (asset : Asset) (o : Option ScanAuthorization)
    → (check_window later mode asset o).asset ≡ some asset
unfolding check_window
asset-check_window later mode asset none = refl
asset-check_window later mode asset (some auth) = ground arith

covered :
    (now later : ℕ) (tenant_id mode : Text) (asset : Asset) (auths : List ScanAuthorization)
    → (check_window later mode asset
        (get_active_authorization now asset.id tenant_id auths)).is_authorized
      ≡ true
    → (auth : ScanAuthorization) × Covers now later tenant_id mode asset auths auth
covered now later tenant_id mode asset auths h =
    let (auth, e) =
      window_grounds later mode asset (get_active_authorization now asset.id tenant_id auths) h in
    let (stands, opened) = found auths now asset.id tenant_id auth e in
    let (until, from, permitted) =
      checked later mode asset auth
        (ap (λ o. (check_window later mode asset o).is_authorized) (sym e) ∙ h) in
    (auth, (stands, opened, until, from, permitted))

decide_on_asset-Grounds :
    (now later : ℕ) (tenant_id mode : Text) (asset : Asset) (auths : List ScanAuthorization)
    → (decide_on_asset now later tenant_id mode asset auths).is_authorized ≡ true
    → ((decide_on_asset now later tenant_id mode asset auths).asset ≡ some asset)
      × (text_eq asset.status (codes "disabled") ≡ false)
      × Grounds now later tenant_id mode asset auths
unfolding decide_on_asset
decide_on_asset-Grounds now later tenant_id mode asset auths h =
    let o = get_active_authorization now asset.id tenant_id auths in
    elim (Bool-cases (text_eq asset.status (codes "disabled"))) [
      | inl e ↦ ground (arith, e, h)
      | inr e ↦ elim (Bool-cases (text_eq mode (codes "passive"))) [
        | inl p ↦ (ground (arith, e, p), e, inl p)
        | inr p ↦ elim (Bool-cases (needs_window mode)) [
          | inl w ↦ (
            ground (arith, e, p, w, asset-check_window later mode asset o),
            e,
            inr (w, covered now later tenant_id mode asset auths (ground (arith, e, p, w, h))),
          )
          | inr w ↦ ground (arith, e, p, w, h)
        ]
      ]
    ]

module _ (canonicalize_url : Text → Text × Text) where
  asset_for_keeps :
      (fresh : ℕ) (target_url tenant_id : Text) (db : Registry)
      → (asset_for canonicalize_url fresh target_url tenant_id db).0.authorizations
        ≡ db.authorizations
  unfolding asset_for ensure_asset
  asset_for_keeps fresh target_url tenant_id db = ground arith

  verify_target-Grounds :
      (fresh now later : ℕ) (tenant_id target_url mode : Text) (db : Registry)
      → (verify_target canonicalize_url fresh now later tenant_id target_url mode
          db).1.is_authorized
        ≡ true
      → (asset : Asset) × ((verify_target canonicalize_url fresh now later tenant_id target_url mode
            db).1.asset
          ≡ some asset)
        × (text_eq asset.status (codes "disabled") ≡ false)
        × Grounds now later tenant_id mode asset db.authorizations
  unfolding verify_target
  verify_target-Grounds fresh now later tenant_id target_url mode db h =
      let a = (asset_for canonicalize_url fresh target_url tenant_id db).1 in
      let auths = (asset_for canonicalize_url fresh target_url tenant_id db).0.authorizations in
      let kept = asset_for_keeps fresh target_url tenant_id db in
      elim (Bool-cases (text_eq mode (codes "offensive"))) [
        | inl e ↦ ground (arith, e, h)
        | inr e ↦ elim (Bool-cases (is_given (canonicalize_url target_url).0)) [
          | inr u ↦ ground (arith, e, u, h)
          | inl u ↦
              let g =
                decide_on_asset-Grounds now later tenant_id mode a auths
                  (ground (arith, e, u, h)) in
              (
                a,
                ground (arith, e, u, g.0),
                g.1,
                subst (λ xs. Grounds now later tenant_id mode a xs) kept g.2,
              )
        ]
      ]

  -- A scan is authorized only of an asset that is not disabled, and only in passive mode or on an
  -- active authorization of the tenant for that asset, in its window, with a profile that permits it.
  pub scan_needs_authorization :
      (fresh now later : ℕ) (tenant_id target_url scan_mode profile : Text) (db : Registry)
      → let verdict =
          (verify_scan_authorization canonicalize_url fresh now later tenant_id target_url scan_mode
            profile db).1 in
        verdict.is_authorized ≡ true
        → (asset : Asset) × (verdict.asset ≡ some asset)
          × (text_eq asset.status (codes "disabled") ≡ false)
          × Grounds now later
              (if is_url tenant_id then target_url else tenant_id)
              (norm (first_given profile scan_mode))
              asset
              db.authorizations
  unfolding verify_scan_authorization
  scan_needs_authorization fresh now later tenant_id target_url scan_mode profile db h =
      let mode = norm (first_given profile scan_mode) in
      elim (Bool-cases (is_url tenant_id)) [
        | inl e ↦ rw e (
            verify_target-Grounds fresh now later target_url tenant_id mode db
              (ground (arith, e, h)))
        | inr e ↦ rw e (
            verify_target-Grounds fresh now later tenant_id target_url mode db
              (ground (arith, e, h)))
      ]

is_permitted-full :
    (auth : ScanAuthorization)
    → is_permitted (codes "full") auth ≡ is_permitted (codes "safe_active") auth
unfolding is_permitted
is_permitted-full auth = ground arith

check_window-full :
    (later : ℕ) (asset : Asset) (o : Option ScanAuthorization)
    → (check_window later (codes "full") asset o).is_authorized
      ≡ (check_window later (codes "safe_active") asset o).is_authorized
unfolding check_window
check_window-full later asset none = refl
check_window-full later asset (some auth) = ground (arith, is_permitted-full auth)

decide_on_asset-full :
    (now later : ℕ) (tenant_id : Text) (asset : Asset) (auths : List ScanAuthorization)
    → (decide_on_asset now later tenant_id (codes "full") asset auths).is_authorized
      ≡ (decide_on_asset now later tenant_id (codes "safe_active") asset auths).is_authorized
unfolding decide_on_asset
decide_on_asset-full now later tenant_id asset auths =
    ground
      (arith, check_window-full later asset (get_active_authorization now asset.id tenant_id auths))

module _ (canonicalize_url : Text → Text × Text) where
  verify_target-full :
      (fresh now later : ℕ) (tenant_id target_url : Text) (db : Registry)
      → (verify_target canonicalize_url fresh now later tenant_id target_url
          (codes "full")
          db).1.is_authorized
        ≡ (verify_target canonicalize_url fresh now later tenant_id target_url
            (codes "safe_active")
            db).1.is_authorized
  unfolding verify_target
  verify_target-full fresh now later tenant_id target_url db =
      let (db', asset) = asset_for canonicalize_url fresh target_url tenant_id db in
      ground (arith, decide_on_asset-full now later tenant_id asset db'.authorizations)

  -- A scan in mode "full" is authorized exactly if one in mode "safe-active" is.
  pub full_like_safe_active :
      (fresh now later : ℕ) (tenant_id target_url : Text) (db : Registry)
      → (verify_scan_authorization canonicalize_url fresh now later tenant_id target_url
          (codes "full")
          []
          db).1.is_authorized
        ≡ (verify_scan_authorization canonicalize_url fresh now later tenant_id target_url
            (codes "safe-active")
            []
            db).1.is_authorized
  unfolding verify_scan_authorization norm lower_char
  full_like_safe_active fresh now later tenant_id target_url db = ground (
    arith,
    verify_target-full fresh now later tenant_id target_url db,
    verify_target-full fresh now later target_url tenant_id db,
  )
