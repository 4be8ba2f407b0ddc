-- ===== src/Guard/Redis.antt =====
-- `RedisDomainGuard` of src/scrapeyard/engine/domain_guard.py over a Redis server. The server is a
-- parameter: its commands, and what the documentation of Redis says of them.
use scrapeyard.Prelude.{
  ℕ, zero, suc, ◌+◌, ◌-◌, ◌*◌, ◌≡◌, String, Bool, true, false, ltb, nat_eq, Option, none, some,
  ◌==◌, text_keys, if◌then◌else◌,
}
use Prim.Native.String.{◌++◌ as ◌++ᵗ◌}
use scrapeyard.Prelude.Int.{ℤ, pos, negsuc}
use scrapeyard.Guard.{DomainGuard, DomainGuardStatus, or_zero, is_used_up}

-- A number under a key, and the time at which it expires, if it does.
abbrev pub Entry : Type 0
Entry = ℕ × Option ℕ

-- The commands that the guard sends; each is given the server's time. `script_load` gives the name
-- of a script.
pub record Server : Type 1 where
  pub State : Type 0
  pub read : String → ℕ → State → Option ℕ
  pub incr : String → ℕ → State → ℕ × State
  pub expire : String → ℕ → ℕ → State → State
  pub set_ex : String → ℕ → ℕ → ℕ → State → State
  pub pttl : String → ℕ → State → ℤ
  pub delete : String → State → State
  pub script_load : String → String
  pub entry : String → State → Option Entry

-- What a command sees of an entry: nothing once it has expired.
abbrev pub alive : ℕ → Option Entry → Option Entry
alive now none = none
alive now (some (v, none)) = some (v, none)
alive now (some (v, some d)) = if ltb now d then some (v, some d) else none

abbrev pub value_of : Option Entry → Option ℕ
value_of none = none
value_of (some (v, _)) = some v

abbrev pub deadline_of : Option Entry → Option ℕ
deadline_of none = none
deadline_of (some (_, d)) = d

abbrev pub with_deadline : ℕ → Option Entry → Option Entry
with_deadline d none = none
with_deadline d (some (v, _)) = some (v, some d)

-- -2 without a key, -1 for a key that does not expire.
abbrev pub time_to_live : ℕ → Option Entry → ℤ
time_to_live now none = negsuc 1
time_to_live now (some (v, none)) = negsuc 0
time_to_live now (some (v, some d)) = pos (d - now)

-- The documented effect of each command on the entries.
pub record IsRedis (R : Server) : Type 0 where
  pub read_value :
      (k : String) (now : ℕ) (s : R.State) → R.read k now s ≡ value_of (alive now (R.entry k s))
  pub incr_value :
      (k : String) (now : ℕ) (s : R.State)
      → (R.incr k now s).0 ≡ or_zero (value_of (alive now (R.entry k s))) + 1
  pub incr_entry :
      (k j : String) (now : ℕ) (s : R.State)
      → R.entry j (R.incr k now s).1 ≡ (
          if k == j
          then some (
            or_zero (value_of (alive now (R.entry k s))) + 1,
            deadline_of (alive now (R.entry k s)),
          )
          else R.entry j s)
  pub expire_entry :
      (k j : String) (seconds now : ℕ) (s : R.State)
      → R.entry j (R.expire k seconds now s) ≡ (
          if k == j
          then with_deadline (now + 1000 * seconds) (alive now (R.entry k s))
          else R.entry j s)
  pub set_entry :
      (k j : String) (v seconds now : ℕ) (s : R.State)
      → R.entry j (R.set_ex k v seconds now s)
        ≡ (if k == j then some (v, some (now + 1000 * seconds)) else R.entry j s)
  pub pttl_value :
      (k : String) (now : ℕ) (s : R.State)
      → R.pttl k now s ≡ time_to_live now (alive now (R.entry k s))
  pub delete_entry :
      (k j : String) (s : R.State)
      → R.entry j (R.delete k s) ≡ (if k == j then none else R.entry j s)

abbrev pub day_key_ttl_seconds : ℕ
day_key_ttl_seconds = 2 * 86400

unfoldable pub pages_key : String → String → String
pages_key host day = "scrapeyard:domain:" ++ᵗ ("pages:" ++ᵗ (host ++ᵗ (":" ++ᵗ day)))

unfoldable pub cooldown_key : String → String
cooldown_key host = "scrapeyard:domain:" ++ᵗ ("cooldown:" ++ᵗ host)

abbrev pub answer_of : Bool × ℕ → Option ℕ
answer_of (true, n) = some n
answer_of (false, n) = none

abbrev pub positive : ℤ → ℕ
positive (pos n) = n
positive (negsuc _) = 0

module _ (R : Server) where
  -- The Lua script: whether the page is admitted, and the count.
  abbrev pub count_page : String → ℕ → ℕ → R.State → (Bool × ℕ) × R.State
  count_page key ttl now s =
      let (count, s') = R.incr key now s in
      ((true, count), if nat_eq count 1 then R.expire key ttl now s' else s')

  unfoldable pub lua_consume : String → ℕ → ℕ → ℕ → R.State → (Bool × ℕ) × R.State
  lua_consume key limit ttl now s =
      let current = or_zero (R.read key now s) in
      if is_used_up limit current then ((false, current), s) else count_page key ttl now s

  pub record RedisDomainGuard : Type 0 where
    pub script_sha : Option String
    pub data_base : R.State

  abbrev pub load_script : Option String → String
  load_script none = R.script_load "consume"
  load_script (some sha) = sha

  -- The loop of `consume_page`: each loss of the script (`NoScriptError`) is one more turn.
  unfoldable pub consume_turns :
      ℕ → Option String → String → ℕ → ℕ → R.State → Option ℕ × RedisDomainGuard
  unfolding lua_consume
  consume_turns zero sha key limit now s =
      let (result, s') = lua_consume key limit day_key_ttl_seconds now s in
      (answer_of result, record { script_sha = some (load_script sha); data_base = s' })
  consume_turns (suc lost) sha key limit now s = consume_turns lost none key limit now s

  -- How often the server loses the script before the call at a time.
  module _ (losses : ℕ → ℕ) where
    unfoldable pub consume_page :
        String → ℕ → String → ℕ → RedisDomainGuard → Option ℕ × RedisDomainGuard
    unfolding consume_turns
    consume_page host limit day now g =
        consume_turns (losses now) g.script_sha (pages_key host day) limit now g.data_base

  unfoldable pub cooldown_remaining : String → ℕ → RedisDomainGuard → ℕ × RedisDomainGuard
  cooldown_remaining host now g = (positive (R.pttl (cooldown_key host) now g.data_base), g)

  unfoldable pub start_cooldown : String → ℕ → ℕ → RedisDomainGuard → RedisDomainGuard
  start_cooldown host seconds now g =
      if ltb 0 seconds
      then record g { data_base = R.set_ex (cooldown_key host) 1 seconds now g.data_base }
      else g

  unfoldable pub status :
      String → String → ℕ → RedisDomainGuard → DomainGuardStatus × RedisDomainGuard
  unfolding cooldown_remaining
  status host day now g = (
    record {
      host = host;
      day = day;
      pages_today = or_zero (R.read (pages_key host day) now g.data_base);
      cooldown_remaining = (cooldown_remaining host now g).0;
    },
    g,
  )

  unfoldable pub clear : String → String → ℕ → RedisDomainGuard → RedisDomainGuard
  clear host day now g = record g {
    data_base = R.delete (pages_key host day) (R.delete (cooldown_key host) g.data_base);
  }

  abbrev pub redis_guard : (ℕ → ℕ) → DomainGuard
  redis_guard losses = record {
    State = RedisDomainGuard;
    consume_page = consume_page losses;
    cooldown_remaining = cooldown_remaining;
    start_cooldown = start_cooldown;
    status = status;
    clear = clear;
  }
