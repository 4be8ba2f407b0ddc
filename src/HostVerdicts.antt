-- ===== src/HostVerdicts.antt =====
-- The hosts that a run has seen resolve to public addresses, src/scrapeyard/common/host_verdicts.py.
-- Times are whole ticks; a call is given its reading of the clock.
pub mod Trust
use scrapeyard.Prelude.{
  ℕ, ◌+◌, String, Bool, true, false, ltb, leb, Option, none, some, List, [], ◌∷◌, length, ◌==◌,
  text_keys, if◌then◌else◌,
}
use scrapeyard.Prelude.Dict.{Dict, get, put, remove}

pub record PublicHostVerdicts : Type 0 where
  pub ttl : ℕ
  pub max_hosts : ℕ
  pub expires : Dict String ℕ

abbrev pub fresh_found : String → ℕ → Option ℕ → PublicHostVerdicts → Bool × PublicHostVerdicts
fresh_found host now none v = (false, v)
fresh_found host now (some until) v =
    if ltb now until then (true, v) else (false, record v { expires = remove host v.expires })

unfoldable pub is_fresh : String → ℕ → PublicHostVerdicts → Bool × PublicHostVerdicts
is_fresh host now v = fresh_found host now (get host v.expires) v

-- `del self._expires[next(iter(self._expires))]`: nothing for the `StopIteration` of an empty one.
abbrev pub drop_first : Dict String ℕ → Option (Dict String ℕ)
drop_first [] = none
drop_first (_ ∷ m) = some m

abbrev pub make_room : ℕ → Dict String ℕ → Option (Dict String ℕ)
make_room max_hosts m = if leb max_hosts (length m) then drop_first m else some m

abbrev pub add_verdict :
    String → ℕ → PublicHostVerdicts → Option (Dict String ℕ) → Option PublicHostVerdicts
add_verdict host until v none = none
add_verdict host until v (some m) = some (record v { expires = put host until m })

-- `record`, a word of the language here.
unfoldable pub record_host : String → ℕ → PublicHostVerdicts → Option PublicHostVerdicts
record_host host resolved_at v =
    add_verdict host (resolved_at + v.ttl) v (make_room v.max_hosts (remove host v.expires))

unfoldable pub forget : String → PublicHostVerdicts → PublicHostVerdicts
forget host v = record v { expires = remove host v.expires }

unfoldable pub clear : PublicHostVerdicts → PublicHostVerdicts
clear v = record v { expires = [] }

-- The calls of a run, and their effect; nothing where a call raises.
pub data VerdictCall : Type 0 where
  ask : String → ℕ → VerdictCall
  learn : String → ℕ → VerdictCall
  unlearn : String → VerdictCall
  unlearn_all : VerdictCall

unfoldable pub step : VerdictCall → PublicHostVerdicts → Option PublicHostVerdicts
unfolding is_fresh record_host forget clear
step (ask host now) v = some (is_fresh host now v).1
step (learn host resolved_at) v = record_host host resolved_at v
step (unlearn host) v = some (forget host v)
step unlearn_all v = some (clear v)

abbrev pub then_all :
    (PublicHostVerdicts → Option PublicHostVerdicts)
    → Option PublicHostVerdicts
    → Option PublicHostVerdicts
then_all rest none = none
then_all rest (some v) = rest v

unfoldable pub run : List VerdictCall → PublicHostVerdicts → Option PublicHostVerdicts
unfolding step
run [] v = some v
run (c ∷ cs) v = then_all (run cs) (step c v)

-- The specification: what the calls say of one host, with no bound on memory. A verdict lasts from the
-- last lookup that gave it, and is gone when a later one says otherwise.
abbrev pub spec_step : ℕ → String → VerdictCall → Option ℕ → Option ℕ
spec_step ttl host (ask h now) o = o
spec_step ttl host (learn h resolved_at) o = if h == host then some (resolved_at + ttl) else o
spec_step ttl host (unlearn h) o = if h == host then none else o
spec_step ttl host unlearn_all o = none

unfoldable pub spec_run : ℕ → String → List VerdictCall → Option ℕ → Option ℕ
spec_run ttl host [] o = o
spec_run ttl host (c ∷ cs) o = spec_run ttl host cs (spec_step ttl host c o)
