-- ===== src/Authorization.antt =====
-- Who may touch what: core/authorization.py, with get_by_canonical_url, ensure_asset and
-- get_active_authorization of core/db/repositories/asset_repo.py. An instant is a number, 0 for the
-- empty text; `canonicalize_url` (core/canonical.py) is a parameter, and so are the clock and the id
-- that uuid4 draws. A message is the constructor of its text.
pub mod Scans
pub mod Access
mod Tests
use sentinel_wp.Base.{
  ℕ, Bool, true, false, not, ◌&&◌, ◌||◌, Option, none, some, List, [], ◌∷◌, ◌++◌, map, leb, ltb,
  ◌==◌, if◌then◌else◌, keep, find, any_of,
}
use sentinel_wp.Base.Sort.{sort_desc}
use sentinel_wp.Base.Text.{Text, codes, text_eq, lower, strip}

pub record Asset : Type 0 where
  pub id : ℕ
  pub tenant_id : Text
  pub canonical_url : Text
  pub hostname : Text
  pub status : Text

pub record ScanAuthorization : Type 0 where
  pub id : ℕ
  pub tenant_id : Text
  pub asset_id : ℕ
  pub status : Text
  pub allowed_profiles : Text
  pub valid_from : ℕ
  pub valid_until : ℕ

pub record Registry : Type 0 where
  pub assets : List Asset
  pub authorizations : List ScanAuthorization

pub data Reason : Type 0 where
  offensive_unsupported invalid_url asset_disabled passive_authorized no_authorization : Reason
  not_active expired not_yet_valid profile_not_permitted authorized_in_window unknown_mode : Reason

pub record Verdict : Type 0 where
  pub is_authorized : Bool
  pub reason : Reason
  pub asset : Option Asset

abbrev deny : Reason → Option Asset → Verdict
deny r a = record { is_authorized = false; reason = r; asset = a }

abbrev allow : Reason → Asset → Verdict
allow r a = record { is_authorized = true; reason = r; asset = some a }

abbrev dash_to_underscore : ℕ → ℕ
dash_to_underscore c = if c == b'-' then b'_' else c

-- `mode.replace("-", "_").lower()`
unfoldable pub norm : Text → Text
norm mode = lower (map dash_to_underscore mode)

abbrev starts_with : Text → Text → Bool
starts_with [] s = true
starts_with (c ∷ p) [] = false
starts_with (c ∷ p) (d ∷ s) = c == d && starts_with p s

abbrev pub is_url : Text → Bool
is_url s = starts_with (codes "http://") s || starts_with (codes "https://") s

abbrev add_to_first : ℕ → List Text → List Text
add_to_first c [] = (c ∷ []) ∷ []
add_to_first c (s ∷ ss) = (c ∷ s) ∷ ss

-- `text.split(",")`
abbrev split_commas : Text → List Text
split_commas [] = [] ∷ []
split_commas (c ∷ s) =
    let rest = split_commas s in if c == b',' then [] ∷ rest else add_to_first c rest

abbrev pub is_given : Text → Bool
is_given [] = false
is_given (c ∷ s) = true

-- The profiles that an authorization lists.
unfoldable pub profiles_of : Text → List Text
unfolding norm
profiles_of listed =
    map (λ p. norm (strip p)) (keep (λ p. is_given (strip p)) (split_commas listed))

abbrev lists : List Text → Text → Bool
lists profiles mode = any_of (λ p. text_eq p mode) profiles

unfoldable pub is_permitted : Text → ScanAuthorization → Bool
unfolding profiles_of
is_permitted mode auth =
    let profiles = profiles_of auth.allowed_profiles in
    lists profiles mode
    || lists profiles (codes "safe_active")
    || lists profiles (codes "full")
    || lists profiles (codes "*")

unfoldable pub get_by_canonical_url : Text → Text → List Asset → Option Asset
get_by_canonical_url canonical_url tenant_id assets =
    find (λ a. text_eq a.tenant_id tenant_id && text_eq a.canonical_url canonical_url) assets

-- The conditions of the query at the instant `now`.
abbrev pub in_window : (now asset_id : ℕ) → Text → ScanAuthorization → Bool
in_window now asset_id tenant_id a =
    a.asset_id == asset_id
    && text_eq a.status (codes "active")
    && leb a.valid_from now
    && leb now a.valid_until
    && (not (is_given tenant_id) || text_eq a.tenant_id tenant_id)

abbrev head_of : List ScanAuthorization → Option ScanAuthorization
head_of [] = none
head_of (a ∷ as_) = some a

unfoldable pub get_active_authorization :
    (now asset_id : ℕ) → Text → List ScanAuthorization → Option ScanAuthorization
get_active_authorization now asset_id tenant_id auths =
    head_of (sort_desc (λ a. a.valid_until) (keep (in_window now asset_id tenant_id) auths))

-- The checks on an authorization, at the instant `now` of the second reading of the clock.
unfoldable pub check_window : (now : ℕ) → Text → Asset → Option ScanAuthorization → Verdict
unfolding is_permitted
check_window now mode asset none = deny no_authorization (some asset)
check_window now mode asset (some auth) =
    if not (text_eq auth.status (codes "active"))
    then deny not_active (some asset)
    else if not (auth.valid_until == 0) && ltb auth.valid_until now
    then deny expired (some asset)
    else if not (auth.valid_from == 0) && ltb now auth.valid_from
    then deny not_yet_valid (some asset)
    else if not (is_permitted mode auth)
    then deny profile_not_permitted (some asset)
    else allow authorized_in_window asset

abbrev pub needs_window : Text → Bool
needs_window mode = text_eq mode (codes "safe_active") || text_eq mode (codes "full")

unfoldable pub decide_on_asset :
    (now later : ℕ) → (tenant_id mode : Text) → Asset → List ScanAuthorization → Verdict
unfolding get_active_authorization check_window
decide_on_asset now later tenant_id mode asset auths =
    if text_eq asset.status (codes "disabled")
    then deny asset_disabled (some asset)
    else if text_eq mode (codes "passive")
    then allow passive_authorized asset
    else if needs_window mode
    then check_window later mode asset (get_active_authorization now asset.id tenant_id auths)
    else deny unknown_mode (some asset)

abbrev pub first_given : Text → Text → Text
first_given [] mode = mode
first_given (c ∷ p) mode = c ∷ p

module _ (canonicalize_url : Text → Text × Text) where
  abbrev created_asset : ℕ → Text → Text → Asset
  created_asset fresh tenant_id target_url =
      let (url, host) = canonicalize_url target_url in
      record {
        id = fresh;
        tenant_id = tenant_id;
        canonical_url = url;
        hostname = host;
        status = codes "active";
      }

  -- `ensure_asset`
  unfoldable pub ensure_asset : (fresh : ℕ) → Text → Text → Registry → Registry × Asset
  unfolding get_by_canonical_url
  ensure_asset fresh target_url tenant_id db =
      elim (get_by_canonical_url (canonicalize_url target_url).0 tenant_id db.assets) [
        | some a ↦ (db, a)
        | none ↦
            let a = created_asset fresh tenant_id target_url in
            (record db { assets = db.assets ++ a ∷ [] }, a)
      ]

  -- The asset found under the canonical URL, or made for the target.
  unfoldable pub asset_for : (fresh : ℕ) → Text → Text → Registry → Registry × Asset
  unfolding get_by_canonical_url ensure_asset
  asset_for fresh target_url tenant_id db =
      elim (get_by_canonical_url (canonicalize_url target_url).0 tenant_id db.assets) [
        | some a ↦ (db, a)
        | none ↦ ensure_asset fresh target_url tenant_id db
      ]

  unfoldable pub verify_target :
      (fresh now later : ℕ) → (tenant_id target_url mode : Text) → Registry → Registry × Verdict
  unfolding asset_for decide_on_asset
  verify_target fresh now later tenant_id target_url mode db =
      if text_eq mode (codes "offensive")
      then (db, deny offensive_unsupported none)
      else if not (is_given (canonicalize_url target_url).0)
      then (db, deny invalid_url none)
      else let (db', asset) = asset_for fresh target_url tenant_id db in
        (db', decide_on_asset now later tenant_id mode asset db'.authorizations)

  -- A URL in the tenant's place is taken as the target.
  unfoldable pub verify_scan_authorization :
      (fresh now later : ℕ)
      → (tenant_id target_url scan_mode profile : Text) → Registry
      → Registry × Verdict
  unfolding verify_target norm
  verify_scan_authorization fresh now later tenant_id target_url scan_mode profile db =
      let mode = norm (first_given profile scan_mode) in
      if is_url tenant_id
      then verify_target fresh now later target_url tenant_id mode db
      else verify_target fresh now later tenant_id target_url mode db
