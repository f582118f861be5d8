-- ===== src/Version.antt =====
-- Version strings and the affected ranges of vulnerabilities:
-- core/vulnerability_intelligence/version_matcher.py. `\d` and the letters are those of ASCII.
pub mod Order
pub mod Ranges
pub mod Affected
pub mod Matching
mod Tests
use sentinel_wp.Base.{
  ℕ, zero, suc, ◌+◌, ◌-◌, ◌*◌, Bool, true, false, not, ◌&&◌, ◌||◌, Option, none, some, List, [],
  ◌∷◌, ◌++◌, leb, ◌==◌, if◌then◌else◌,
}
use sentinel_wp.Base.Int.{ℤ, pos, negsuc, ltb_ℤ}
use sentinel_wp.Base.Text.{Text, codes, text_eq, lower, strip}

-- A part of a parsed version.
pub data Part : Type 0 where
  number : ℕ → Part
  word : Text → Part

abbrev is_digit : ℕ → Bool
is_digit c = leb b'0' c && leb c b'9'

abbrev is_letter : ℕ → Bool
is_letter c = leb b'a' c && leb c b'z' || leb b'A' c && leb c b'Z'

-- The token that the scan of `re.findall` stands in.
pub data Token : Type 0 where
  between : Token
  in_number : ℕ → Token
  in_word : Text → Token

abbrev emit : Token → List Part → List Part
emit between rest = rest
emit (in_number n) rest = number n ∷ rest
emit (in_word w) rest = word w ∷ rest

abbrev add_digit : Token → ℕ → Token
add_digit (in_number n) d = in_number (n * 10 + d)
add_digit _ d = in_number d

abbrev add_letter : Token → ℕ → Token
add_letter (in_word w) c = in_word (w ++ c ∷ [])
add_letter _ c = in_word (c ∷ [])

abbrev continues_number : Token → Bool
continues_number (in_word _) = false
continues_number _ = true

abbrev continues_word : Token → Bool
continues_word (in_number _) = false
continues_word _ = true

-- The tokens that end at the character `c`, and the one that stands open behind it.
abbrev advance : Token → ℕ → List Part × Token
advance token c =
    if is_digit c
    then (
      (if continues_number token then [] else emit token []),
      add_digit (if continues_number token then token else between) (c - b'0'),
    )
    else if is_letter c
    then (
      (if continues_word token then [] else emit token []),
      add_letter (if continues_word token then token else between) c,
    )
    else (emit token [], between)

-- `re.findall(r'[a-zA-Z]+|\d+', text)`, with `int` applied to the runs of digits.
unfoldable pub find_parts : Token → Text → List Part
find_parts token [] = emit token []
find_parts token (c ∷ text) = let (done, open_) = advance token c in done ++ find_parts open_ text

-- What `parse_version` ends with: None, a tuple, or the ValueError of `int`.
pub data Parsed : Type 0 where
  no_version : Parsed
  version : List Part → Parsed
  value_error : Parsed

abbrev parts_or_none : List Part → Parsed
parts_or_none [] = no_version
parts_or_none (p ∷ ps) = version (p ∷ ps)

-- sys.int_info.default_max_str_digits: `int` refuses a text of more digits.
abbrev pub max_str_digits : ℕ
max_str_digits = 4300

-- Whether a run of digits is too long for `int`, `n` digits of the first being read.
unfoldable pub has_long_number : (n : ℕ) → Text → Bool
has_long_number n [] = false
has_long_number n (c ∷ text) =
    let rest = has_long_number (if is_digit c then n + 1 else 0) text in
    if is_digit c && leb max_str_digits n then true else rest

-- `no_version` for what is no string, for the empty one, and for the wildcard.
unfoldable pub parse_version : Option Text → Parsed
unfolding find_parts strip
parse_version none = no_version
parse_version (some []) = no_version
parse_version (some (c ∷ s)) =
    if text_eq (strip (c ∷ s)) (codes "*")
    then no_version
    else if has_long_number 0 (lower (c ∷ s))
    then value_error
    else parts_or_none (find_parts between (lower (c ∷ s)))

-- suffix_weights, with the default of its `get`.
unfoldable pub suffix_weight : Text → ℤ
suffix_weight w =
    if text_eq w (codes "alpha") || text_eq w (codes "a")
    then negsuc 2
    else if text_eq w (codes "beta") || text_eq w (codes "b")
    then negsuc 1
    else if text_eq w (codes "rc")
    then negsuc 0
    else negsuc 3

-- `get_val`: a pair, compared by its first component first.
abbrev pub get_val : Option Part → ℕ × ℤ
get_val none = (0, pos 0)
get_val (some (number n)) = (1, pos n)
get_val (some (word w)) = (0, suffix_weight w)

pub data Comparison : Type 0 where
  less equal greater : Comparison

abbrev pub val_lt : ℕ × ℤ → ℕ × ℤ → Bool
val_lt (k, v) (k', v') = if k == k' then ltb_ℤ v v' else leb (k + 1) k'

abbrev same_part : Option Part → Option Part → Bool
same_part none none = true
same_part (some (number n)) (some (number m)) = n == m
same_part (some (word v)) (some (word w)) = text_eq v w
same_part _ _ = false

-- One round of the loop; `equal` goes on to the next.
unfoldable pub compare_parts : Option Part → Option Part → Comparison
compare_parts a b =
    if same_part a b
    then equal
    else if val_lt (get_val a) (get_val b)
    then less
    else if val_lt (get_val b) (get_val a)
    then greater
    else equal

abbrev pub or_next : Comparison → Comparison → Comparison
or_next equal next = next
or_next c next = c

-- The loop over the positions of the longer version; a position past the end of one is `None`.
unfoldable pub compare_versions : List Part → List Part → Comparison
compare_versions [] [] = equal
compare_versions (a ∷ v) [] = or_next (compare_parts (some a) none) (compare_versions v [])
compare_versions [] (b ∷ w) = or_next (compare_parts none (some b)) (compare_versions [] w)
compare_versions (a ∷ v) (b ∷ w) = or_next (compare_parts (some a) (some b)) (compare_versions v w)
