-- ===== src/Examples/HostVerdicts.antt =====
-- Tests and examples for the host verdicts, src/scrapeyard/common/host_verdicts.py.
use scrapeyard.Prelude.{◌≤◌, ◌≡◌, refl, arith, none, some, List, [], ◌∷◌, length, text_keys}
use scrapeyard.Prelude.Dict.{get, put, remove}
use scrapeyard.HostVerdicts.{
  PublicHostVerdicts, VerdictCall, ask, learn, unlearn, is_fresh, run, spec_run,
}
use scrapeyard.HostVerdicts.Trust.{Vouched, run-spec_run}

abbrev calls : List VerdictCall
calls =
    learn "a.org" 10 ∷ learn "b.org" 12 ∷ ask "a.org" 20 ∷ learn "c.org" 21 ∷ unlearn "b.org" ∷ []

run-spec_run_example :
    (v : PublicHostVerdicts) × (run calls (record { ttl = 30; max_hosts = 2; expires = [] })
      ≡ some v)
    × (length v.expires ≤ 2)
    × Vouched (is_fresh "c.org" 40 v).0 40 (spec_run 30 "c.org" calls none)
run-spec_run_example = run-spec_run 30 2 calls "c.org" 40 (omega arith)

-- The oldest made room, and one was forgotten.
one_is_left :
    run calls (record { ttl = 30; max_hosts = 2; expires = [] })
    ≡ some (record { ttl = 30; max_hosts = 2; expires = ("c.org", 51) ∷ [] })
unfolding run get put remove
one_is_left = refl
