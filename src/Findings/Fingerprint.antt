-- ===== src/Findings/Fingerprint.antt =====
-- The identity of a finding across scans: core/fingerprint.py. The path of a URL
-- (`urllib.parse.urlparse`) and SHA-256 (`hashlib`) are parameters; a digest is a number.
use mathlib.Core.List.{reverse}
use sentinel_wp.Base.{ℕ, Bool, true, false, ◌||◌, List, [], ◌∷◌, ◌++◌, ◌==◌, if◌then◌else◌}
use sentinel_wp.Base.Text.{Text, codes, lower, upper, strip}

-- `x or d` for a text.
abbrev pub or_default : Text → Text → Text
or_default [] d = d
or_default (c ∷ s) d = c ∷ s

abbrev starts_with : Text → Text → Bool
starts_with [] s = true
starts_with (p ∷ ps) [] = false
starts_with (p ∷ ps) (c ∷ s) = if p == c then starts_with ps s else false

-- `text.split(c)[0]`
abbrev before : ℕ → Text → Text
before c [] = []
before c (x ∷ s) = if x == c then [] else x ∷ before c s

-- `text.replace("\\", "/")`
abbrev slashes : Text → Text
slashes [] = []
slashes (c ∷ s) = (if c == b'\\' then b'/' else c) ∷ slashes s

-- `re.sub(r"/+", "/", text)`; `after` says that the last character was a slash.
abbrev squeeze : (after : Bool) → Text → Text
squeeze after [] = []
squeeze true (c ∷ s) = if c == b'/' then squeeze true s else c ∷ squeeze false s
squeeze false (c ∷ s) = c ∷ squeeze (c == b'/') s

abbrev rooted : Text → Text
rooted s = if starts_with (codes "/") s then s else b'/' ∷ s

abbrev drop_slashes : Text → Text
drop_slashes [] = []
drop_slashes (c ∷ s) = if c == b'/' then drop_slashes s else c ∷ s

-- `text.rstrip("/")`
abbrev rstrip_slash : Text → Text
rstrip_slash s = reverse (drop_slashes (reverse s))

module _ (url_path : Text → Text) where
  unfoldable pub normalize_location : Text → Text
  unfolding strip
  normalize_location [] = []
  normalize_location (c ∷ s) =
      let loc = strip (c ∷ s) in
      let path =
        (if starts_with (codes "http://") loc || starts_with (codes "https://") loc
          then or_default (url_path loc) (codes "/")
          else before b'#' (before b'?' loc)) in
      or_default (rstrip_slash (rooted (squeeze false (lower (strip (slashes path)))))) (codes "/")

unfoldable pub normalize_identifier : Text → Text
unfolding strip
normalize_identifier s = upper (strip s)

unfoldable pub normalize_component : Text → Text
unfolding strip
normalize_component s = lower (strip s)

-- `"|".join(parts)`, in the order of the payload.
abbrev joined : List Text → Text
joined [] = []
joined (x ∷ []) = x
joined (x ∷ y ∷ xs) = x ++ b'|' ∷ joined (y ∷ xs)

abbrev with_component : Text → List Text → List Text
with_component [] rest = rest
with_component (c ∷ s) rest = (c ∷ s) ∷ rest

module _ (url_path : Text → Text) (sha256 : Text → ℕ) where
  unfoldable pub compute_finding_fingerprint :
      (tenant_id asset_id scanner_id finding_type location identifier component : Text) → ℕ
  unfolding strip normalize_location normalize_identifier normalize_component
  compute_finding_fingerprint tenant_id asset_id scanner_id finding_type location identifier
        component =
      sha256 (
        joined (
          strip (or_default tenant_id (codes "default-tenant"))
          ∷ strip (or_default asset_id (codes "global-asset"))
          ∷ lower (strip (or_default scanner_id (codes "general")))
          ∷ lower (strip (or_default finding_type (codes "unknown")))
          ∷ with_component (normalize_component component)
              (normalize_location url_path location ∷ normalize_identifier identifier ∷ [])))
