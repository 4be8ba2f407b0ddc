-- ===== src/Examples/Guard.antt =====
-- Tests and examples for the domain guard, src/scrapeyard/engine/domain_guard.py.
use scrapeyard.Prelude.{
  ℕ, ◌+◌, ◌*◌, ◌≤◌, ◌≡◌, refl, String, arith, Option, none, some, List, [], ◌∷◌, ◌==◌, text_keys,
  if◌then◌else◌,
}
use scrapeyard.Prelude.Dict.{get, put}
use scrapeyard.Guard.{
  GuardCall, consume, remaining, start, look, counted, left, seen, done, answers, or_zero,
  effective_daily_page_limit,
}
use scrapeyard.Guard.Local.{local_guard, new_local_guard}
use scrapeyard.Guard.Local
use scrapeyard.Guard.Redis.{
  Server, IsRedis, Entry, redis_guard, alive, value_of, deadline_of, with_deadline, time_to_live,
}
use scrapeyard.Guard.Agreement.{redis_guard-local_guard}
use scrapeyard.Guard.Policy.{
  HostNames, RunDomainPolicy, PolicyCall, fetch, denied, cooling, admit, record_denial, follow_all,
  domain_guard_host,
}
use scrapeyard.Guard.Limit.{IsWithin, follow_all-IsWithin}
use scrapeyard.Guard.Cooldown.{denied_host_waits}

-- A server that keeps its entries as a function of the key.
abbrev pub Entries : Type 0
Entries = String → Option Entry

abbrev written : String → Option Entry → Entries → Entries
written k e s j = if k == j then e else s j

abbrev pub small_server : Server
small_server = record {
  State = Entries;
  read = λ k now s. value_of (alive now (s k));
  incr = λ k now s. (
    or_zero (value_of (alive now (s k))) + 1,
    written k (some (or_zero (value_of (alive now (s k))) + 1, deadline_of (alive now (s k)))) s,
  );
  expire = λ k seconds now s. written k (with_deadline (now + 1000 * seconds) (alive now (s k))) s;
  set_ex = λ k v seconds now s. written k (some (v, some (now + 1000 * seconds))) s;
  pttl = λ k now s. time_to_live now (alive now (s k));
  delete = λ k s. written k none s;
  script_load = λ script. script;
  entry = λ k s. s k;
}

pub small_server-IsRedis : IsRedis small_server
small_server-IsRedis = record {
  read_value = λ _ _ _. refl;
  incr_value = λ _ _ _. refl;
  incr_entry = λ _ _ _ _. refl;
  expire_entry = λ _ _ _ _ _. refl;
  set_entry = λ _ _ _ _ _ _. refl;
  pttl_value = λ _ _ _. refl;
  delete_entry = λ _ _ _. refl;
}

abbrev calls : List (ℕ × GuardCall)
calls =
    (10, consume "a.org" 2)
    ∷ (20, consume "a.org" 2)
    ∷ (20, consume "a.org" 2)
    ∷ (30, start "a.org" 5)
    ∷ (1030, remaining "a.org")
    ∷ (6000, look "a.org")
    ∷ []

redis_guard-local_guard_example :
    answers
      (redis_guard small_server (λ _. 1))
      "20260102"
      calls
      (record { script_sha = none; data_base = λ _. none })
    ≡ answers local_guard "20260102" calls new_local_guard
redis_guard-local_guard_example =
    redis_guard-local_guard small_server small_server-IsRedis (λ _. 1) none (λ _. none) "20260102" 0
      86400000 calls (λ _. refl) (omega arith) (omega arith)

-- What they answer.
calls_answered :
    answers local_guard "20260102" calls new_local_guard
    ≡ counted (some 1)
      ∷ counted (some 2)
      ∷ counted none
      ∷ done
      ∷ left 4000
      ∷ seen (record { host = "a.org"; day = "20260102"; pages_today = 2; cooldown_remaining = 0 })
      ∷ []
unfolding answers new_local_guard Local.consume_page Local.start_cooldown Local.cooldown_remaining
    Local.status get put
calls_answered = refl

abbrev names : HostNames
names = record { origin_host = λ url. some url; host_label = λ url. url }

www_is_dropped : domain_guard_host names "www.a.org" ≡ "a.org"
unfolding domain_guard_host
www_is_dropped = refl

abbrev policy : RunDomainPolicy names local_guard
policy = record {
  guard = record { pages = []; cooldowns = [] };
  daily_page_limit = 2;
  cooldown_seconds = 60;
  usage = record {
    pages_admitted = [];
    daily_limit_stops = [];
    cooldown_stops = [];
    cooldowns_started = [];
  };
}

abbrev day_calls : List PolicyCall
day_calls =
    fetch "www.a.org" "20260102" 10
    ∷ fetch "a.org" "20260102" 20
    ∷ denied "b.org" 25
    ∷ fetch "a.org" "20260102" 30
    ∷ []

follow_all-IsWithin_example : IsWithin 2 (follow_all names local_guard day_calls policy).guard
follow_all-IsWithin_example =
    follow_all-IsWithin names day_calls policy (omega arith) (λ h d. unfold get in omega arith)

denied_host_waits_example :
    let p' =
      follow_all names local_guard day_calls (record_denial names local_guard "a.org" 5 policy) in
    (r : ℕ) × ((admit names local_guard "www.a.org" "20260102" 100 p').0 ≡ cooling r)
    × (5 + 1000 * 60 ≤ 100 + r)
    × ((admit names local_guard "www.a.org" "20260102" 100 p').1.guard ≡ p'.guard)
unfolding domain_guard_host
denied_host_waits_example =
    denied_host_waits names "a.org" "www.a.org" "20260102" 5 100 day_calls policy (omega arith) refl
      (omega arith) (omega arith, omega arith)

job_limit_lowers : effective_daily_page_limit 5 (some 3) ≡ 3
unfolding effective_daily_page_limit
job_limit_lowers = refl
