-- ===== src/Guard/Policy.antt =====
-- `RunDomainPolicy` of src/scrapeyard/engine/domain_guard.py over any guard. The names of the hosts of
-- URLs are a parameter.
use scrapeyard.Prelude.{
  ℕ, zero, suc, ◌+◌, String, Bool, true, false, ltb, Option, none, some, List, [], ◌∷◌, ◌++◌, ◌==◌,
  text_keys, if◌then◌else◌,
}
use scrapeyard.Prelude.Dict.{Dict, get, put}
use Prim.Native.String.{len, slice}
use text.Mathlib.Text.{starts_with}
use scrapeyard.Guard.{DomainGuard, or_zero}

-- `canonical_url_origin` (its host) and `url_host_label` of engine/url_guard.py.
pub record HostNames : Type 0 where
  pub origin_host : String → Option String
  pub host_label : String → String

unfoldable pub removeprefix : String → String → String
removeprefix s prefix = if starts_with s prefix then slice s (len prefix) (len s) else s

abbrev pub host_of : Option String → String → String
host_of none label = label
host_of (some host) label = host

unfoldable pub domain_guard_host : HostNames → String → String
unfolding removeprefix
domain_guard_host N url = removeprefix (host_of (N.origin_host url) (N.host_label url)) "www."

pub record DomainGuardUsage : Type 0 where
  pub pages_admitted : Dict String ℕ
  pub daily_limit_stops : Dict String ℕ
  pub cooldown_stops : Dict String ℕ
  pub cooldowns_started : List String

unfoldable pub new_usage : DomainGuardUsage
new_usage = record {
  pages_admitted = [];
  daily_limit_stops = [];
  cooldown_stops = [];
  cooldowns_started = [];
}

unfoldable pub count_one : String → Dict String ℕ → Dict String ℕ
count_one host counts = put host (or_zero (get host counts) + 1) counts

unfoldable pub holds : String → List String → Bool
holds host [] = false
holds host (h ∷ hs) = if h == host then true else holds host hs

-- What `admit` does: it returns, or raises `DomainCooldownActive` with the time that remains, or
-- `DomainDailyLimitReached`.
pub data Admission : Type 0 where
  admitted : Admission
  cooling : ℕ → Admission
  used_up : Admission

-- What the fetches of a run do with its policy, each at a time of a day.
pub data PolicyCall : Type 0 where
  fetch : String → String → ℕ → PolicyCall
  denied : String → ℕ → PolicyCall

module _ (N : HostNames) (G : DomainGuard) where
  pub record RunDomainPolicy : Type 0 where
    pub guard : G.State
    pub daily_page_limit : ℕ
    pub cooldown_seconds : ℕ
    pub usage : DomainGuardUsage

  abbrev pub count_page_attempt :
      String → RunDomainPolicy → Option ℕ × G.State → Admission × RunDomainPolicy
  count_page_attempt host p (none, s) = (
    used_up,
    record p {
      guard = s;
      usage = record p.usage { daily_limit_stops = count_one host p.usage.daily_limit_stops };
    },
  )
  count_page_attempt host p (some n, s) = (
    admitted,
    record p {
      guard = s;
      usage = record p.usage { pages_admitted = count_one host p.usage.pages_admitted };
    },
  )

  abbrev pub admit_page_of : String → String → ℕ → RunDomainPolicy → Admission × RunDomainPolicy
  admit_page_of host day now p =
      count_page_attempt host p (G.consume_page host p.daily_page_limit day now p.guard)

  -- The time that the cooldown has left, if any.
  abbrev pub after_cooldown :
      String → String → ℕ → RunDomainPolicy → ℕ × G.State → Admission × RunDomainPolicy
  after_cooldown host day now p (zero, s) = admit_page_of host day now (record p { guard = s })
  after_cooldown host day now p (suc n, s) = (
    cooling (suc n),
    record p {
      guard = s;
      usage = record p.usage { cooldown_stops = count_one host p.usage.cooldown_stops };
    },
  )

  abbrev pub admit_host : String → String → ℕ → RunDomainPolicy → Admission × RunDomainPolicy
  admit_host host day now p =
      if ltb 0 p.cooldown_seconds
      then after_cooldown host day now p (G.cooldown_remaining host now p.guard)
      else admit_page_of host day now p

  unfoldable pub admit : String → String → ℕ → RunDomainPolicy → Admission × RunDomainPolicy
  unfolding count_one domain_guard_host
  admit url day now p = admit_host (domain_guard_host N url) day now p

  unfoldable pub record_denial : String → ℕ → RunDomainPolicy → RunDomainPolicy
  unfolding holds domain_guard_host
  record_denial url now p =
      let host = domain_guard_host N url in
      let started = p.usage.cooldowns_started in
      if ltb 0 p.cooldown_seconds
      then record p {
        guard = G.start_cooldown host p.cooldown_seconds now p.guard;
        usage = record p.usage {
          cooldowns_started = if holds host started then started else started ++ (host ∷ []);
        };
      }
      else p

  -- `admit_page`: without an active policy every page is admitted.
  unfoldable pub admit_page :
      String → String → ℕ → Option RunDomainPolicy → Admission × Option RunDomainPolicy
  unfolding admit
  admit_page url day now none = (admitted, none)
  admit_page url day now (some p) = let (a, p') = admit url day now p in (a, some p')

  unfoldable pub follow : PolicyCall → RunDomainPolicy → RunDomainPolicy
  unfolding admit record_denial
  follow (fetch url day now) p = (admit url day now p).1
  follow (denied url now) p = record_denial url now p

  unfoldable pub follow_all : List PolicyCall → RunDomainPolicy → RunDomainPolicy
  unfolding follow
  follow_all [] p = p
  follow_all (c ∷ cs) p = follow_all cs (follow c p)
