-- ===== src/Guard/Local.antt =====
-- `LocalDomainGuard` of src/scrapeyard/engine/domain_guard.py.
use scrapeyard.Prelude.{
  ℕ, ◌+◌, ◌-◌, ◌*◌, String, ltb, leb, Option, none, some, [], ◌∷◌, ◌==◌, text_keys, pair_keys,
  if◌then◌else◌,
}
use scrapeyard.Prelude.Dict.{Dict, get, put, remove}
use scrapeyard.Guard.{DomainGuard, DomainGuardStatus, or_zero, is_used_up}

pub record LocalDomainGuard : Type 0 where
  pub pages : Dict (String × String) ℕ
  pub cooldowns : Dict String ℕ

unfoldable pub new_local_guard : LocalDomainGuard
new_local_guard = record { pages = []; cooldowns = [] }

unfoldable pub consume_page :
    String → ℕ → String → ℕ → LocalDomainGuard → Option ℕ × LocalDomainGuard
consume_page host limit day now g =
    let count = or_zero (get (host, day) g.pages) in
    if is_used_up limit count
    then (none, g)
    else (some (count + 1), record g { pages = put (host, day) (count + 1) g.pages })

abbrev pub remaining_until : String → ℕ → Option ℕ → LocalDomainGuard → ℕ × LocalDomainGuard
remaining_until host now none g = (0, g)
remaining_until host now (some until) g =
    if leb until now
    then (0, record g { cooldowns = remove host g.cooldowns })
    else (until - now, g)

unfoldable pub cooldown_remaining : String → ℕ → LocalDomainGuard → ℕ × LocalDomainGuard
cooldown_remaining host now g = remaining_until host now (get host g.cooldowns) g

unfoldable pub start_cooldown : String → ℕ → ℕ → LocalDomainGuard → LocalDomainGuard
start_cooldown host seconds now g =
    if ltb 0 seconds
    then record g { cooldowns = put host (now + 1000 * seconds) g.cooldowns }
    else g

unfoldable pub status :
    String → String → ℕ → LocalDomainGuard → DomainGuardStatus × LocalDomainGuard
unfolding cooldown_remaining
status host day now g =
    let (remaining, g') = cooldown_remaining host now g in
    (
      record {
        host = host;
        day = day;
        pages_today = or_zero (get (host, day) g.pages);
        cooldown_remaining = remaining;
      },
      g',
    )

-- All days of the host.
unfoldable pub without_host : String → Dict (String × String) ℕ → Dict (String × String) ℕ
without_host host [] = []
without_host host ((key, n) ∷ m) =
    let rest = without_host host m in if key.0 == host then rest else (key, n) ∷ rest

unfoldable pub clear : String → String → ℕ → LocalDomainGuard → LocalDomainGuard
unfolding without_host
clear host day now g = record {
  pages = without_host host g.pages;
  cooldowns = remove host g.cooldowns;
}

abbrev pub local_guard : DomainGuard
local_guard = record {
  State = LocalDomainGuard;
  consume_page = consume_page;
  cooldown_remaining = cooldown_remaining;
  start_cooldown = start_cooldown;
  status = status;
  clear = clear;
}
