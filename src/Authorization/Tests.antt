-- ===== src/Authorization/Tests.antt =====
-- Runs of the guards, and the theorems at a concrete registry.
use sentinel_wp.Base.{ℕ, ◌≡◌, refl, true, false, some, [], ◌∷◌}
use sentinel_wp.Base.Sort.{sort_desc}
use sentinel_wp.Base.Text.{Text, codes, text_eq, lower_char, strip}
use sentinel_wp.Authorization.{
  Asset, Registry, Verdict, expired, no_authorization, norm, verify_scan_authorization,
}
use sentinel_wp.Authorization.Scans.{scan_needs_authorization, Grounds}
use sentinel_wp.Authorization.Access.{Session, served, aborted, admin_required}

-- The URL stands for its canonical form and for its host.
abbrev canonical : Text → Text × Text
canonical url = (url, url)

abbrev site : Text
site = codes "a.it"

abbrev tenant : Text
tenant = codes "t"

abbrev site_asset : Asset
site_asset = record {
  id = 7;
  tenant_id = tenant;
  canonical_url = site;
  hostname = site;
  status = codes "active";
}

-- The window of the one authorization is 10 to 20.
abbrev registry : Registry
registry = record {
  assets = site_asset ∷ [];
  authorizations =
      record {
        id = 3;
        tenant_id = tenant;
        asset_id = 7;
        status = codes "active";
        allowed_profiles = codes " Safe-Active , passive";
        valid_from = 10;
        valid_until = 20;
      }
      ∷ [];
}

abbrev mode : Text
mode = codes "safe-active"

abbrev verdict_at : (now later : ℕ) → Text → Verdict
verdict_at now later mode_ =
    (verify_scan_authorization canonical 9 now later tenant site mode_ [] registry).1

authorized_in_time : (verdict_at 15 15 mode).is_authorized ≡ true
unfolding verify_scan_authorization lower_char sort_desc strip
authorized_in_time = refl

expires_between_readings : (verdict_at 20 21 mode).reason ≡ expired
unfolding verify_scan_authorization lower_char sort_desc strip
expires_between_readings = refl

too_early : (verdict_at 5 5 mode).reason ≡ no_authorization
unfolding verify_scan_authorization lower_char sort_desc strip
too_early = refl

scan_needs_authorization_example :
    (asset : Asset) × ((verdict_at 15 15 mode).asset ≡ some asset)
    × (text_eq asset.status (codes "disabled") ≡ false)
    × Grounds 15 15 tenant (norm mode) asset registry.authorizations
scan_needs_authorization_example =
    scan_needs_authorization canonical 9 15 15 tenant site mode [] registry authorized_in_time

abbrev session : Session
session = record {
  user_id = some (codes "u");
  role = some (codes "analyst");
  tenant_id = some tenant;
}

not_an_admin : admin_required session served ≡ aborted 403
unfolding admin_required
not_an_admin = refl
