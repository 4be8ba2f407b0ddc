-- ===== src/AssetCache/Freshness.antt =====
-- `freshness_seconds` of src/scrapeyard/engine/asset_cache.py. The methods of Python's texts and the
-- parsing of dates are parameters.
use scrapeyard.Prelude.{
  ℕ, ◌-◌, ◌*◌, String, Bool, true, false, ◌||◌, ltb, Option, none, some, List, [], ◌∷◌, ◌==◌,
  text_keys, if◌then◌else◌,
}
use scrapeyard.Prelude.Dict.{Dict, get}

-- `value.split(",")`, `value.strip().lower()`, `value.partition("=")` without the sign,
-- `value.strip().strip('"')`, `float(value)` where `value.isdigit()`, and the time from the date of a
-- response, or now, to its `Expires`: 0 if it is over, nothing if one of the two cannot be read.
pub record Texts : Type 0 where
  pub split_commas : String → List String
  pub strip_lower : String → String
  pub partition : String → String × String
  pub strip_quotes : String → String
  pub digits : String → Option ℕ
  pub time_to_expiry : String → Option String → ℕ → Option ℕ

abbrev pub or_empty : Option String → String
or_empty none = ""
or_empty (some value) = value

unfoldable pub varies : Texts → List String → Bool
varies x [] = false
varies x (token ∷ tokens) =
    let rest = varies x tokens in if x.strip_lower token == "accept-encoding" then rest else true

abbrev pub is_forbidding : String → Bool
is_forbidding name = name == "no-store" || name == "no-cache" || name == "private"

-- The directives: nothing where the function returns, otherwise the lifetime found.
abbrev pub max_age_or_stop : (ℕ → Option (Option ℕ)) → Option ℕ → Option (Option ℕ)
max_age_or_stop continue none = none
max_age_or_stop continue (some n) = continue n

unfoldable pub directives : Texts → List String → Option ℕ → Option (Option ℕ)
directives x [] lifetime = some lifetime
directives x (d ∷ ds) lifetime =
    let (name, value) = x.partition (x.strip_lower d) in
    let rest = directives x ds lifetime in
    let after = λ (n : ℕ). directives x ds (some (1000000 * n)) in
    if is_forbidding name
    then none
    else if name == "max-age"
    then max_age_or_stop after (x.digits (x.strip_quotes value))
    else rest

abbrev pub or_expires : Texts → ℕ → Dict String String → Option ℕ → Option String → Option ℕ
or_expires x now headers (some lifetime) expires = some lifetime
or_expires x now headers none none = none
or_expires x now headers none (some expires) = x.time_to_expiry expires (get "date" headers) now

abbrev pub age_of : Option ℕ → ℕ
age_of none = 0
age_of (some n) = 1000000 * n

abbrev pub left_after : ℕ → Option ℕ → Option ℕ
left_after age none = none
left_after age (some lifetime) = if ltb age lifetime then some (lifetime - age) else none

abbrev pub lifetime_of : Texts → ℕ → Dict String String → Option (Option ℕ) → Option ℕ
lifetime_of x now headers none = none
lifetime_of x now headers (some lifetime) =
    left_after (age_of (x.digits (or_empty (get "age" headers))))
      (or_expires x now headers lifetime (get "expires" headers))

abbrev pub has : Option String → Bool
has none = false
has (some _) = true

abbrev pub varies_too_much : Texts → String → Bool
varies_too_much x vary = if vary == "" then false else varies x (x.split_commas vary)

unfoldable pub freshness_seconds : Texts → ℕ → Dict String String → Option ℕ
unfolding varies directives
freshness_seconds x now headers =
    if has (get "set-cookie" headers)
    then none
    else if varies_too_much x (or_empty (get "vary" headers))
    then none
    else lifetime_of x now headers
        (directives x (x.split_commas (or_empty (get "cache-control" headers))) none)
