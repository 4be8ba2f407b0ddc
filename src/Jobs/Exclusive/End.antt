-- ===== src/Jobs/Exclusive/End.antt =====
-- Who owns a running run in src/scrapeyard/storage: heartbeats and finalization.
use scrapeyard.Prelude.{
  String, ℕ, ◌≡◌, refl, ◌∙◌, sym, ap, subst, Bool, true, false, not, ◌&&◌, Option, none, some, ◌==◌,
  ==-self, text_keys, inl, inr, Bool-cases, eq_of_some, if◌then◌else◌,
}
use mathlib.Core.Bool.{false≢true}
use scrapeyard.Prelude.Dict.{get, get-put}
use scrapeyard.Jobs.{
  is_same, is_terminal, Job, JobRun, JobStore, WebhookDelivery, value_error, error, raised,
  owned_by, update_run, update_job, transaction,
}
use scrapeyard.Jobs.Queue.{to_status}
use scrapeyard.Jobs.Ownership.{
  is_running, is_running_for, holds_job, beat, heartbeat_run, WebhookDeliveryCreate,
  insert_delivery, is_text, is_valid_delivery, commit_terminal_intent, RunEnd, finish_run, is_fresh,
  finalize_tx, finalize_owned_run,
}
use scrapeyard.Jobs.Rules.{
  Ends, continue-Ends, conclude-keeps, if-Ends, choose-Ends, update_job-Ends, update_run-Ends,
}
use scrapeyard.Jobs.Running.{
  IsOwned, Ended, terminal_is_not_running, and_right, quiet_job-IsOwned, put_run-IsOwned,
  quiet_of_end,
}

pub owned_by-get :
    (job_id : String) (row : Option JobRun) (run : JobRun)
    → owned_by job_id row ≡ some run
    → (row ≡ some run) × (run.job_id ≡ job_id)
owned_by-get job_id none run e = absurd (cc)
owned_by-get job_id (some x) run e = elim (Bool-cases (x.job_id == job_id)) [
  | inl same ↦
      let f : some x ≡ some run = subst (λ b. (if b then some x else none) ≡ some run) same e in
      (f, ap (λ r. r.job_id) (sym (eq_of_some f)) ∙ (text_keys.decides x.job_id job_id).0 same)
  | inr differs ↦ absurd (
      let f : none ≡ some run = subst (λ b. (if b then some x else none) ≡ some run) differs e in
      cc)
]

pub commit-IsOwned :
    (R : Type 0) (d : Option WebhookDeliveryCreate) (now : ℕ) (s : JobStore)
    → IsOwned s
    → Ends (λ _. IsOwned) (commit_terminal_intent {R = R} d now s)
unfolding commit_terminal_intent
commit-IsOwned R none now s o = o
commit-IsOwned R (some d) now s o =
    choose-Ends R (λ _. IsOwned) (is_text d.delivery_id (get "delivery_id" d.payload)) _
      (raised value_error) (λ _. insert (get d.delivery_id s.webhook_deliveries)) (λ _. tt)
  where
    insert :
        (row : Option WebhookDelivery) → Ends (λ _. IsOwned) (insert_delivery {R = R} d now row s)
    insert none = record { unique = o.unique; owned = o.owned }
    insert (some _) = o

-- A run that is ended is not running afterwards.
pub update_run-Ended :
    (R : Type 0) (job_id run_id : String) (matches : JobRun → Bool) (change : JobRun → JobRun)
    (s : JobStore)
    → ((run : JobRun) → is_running (change run) ≡ false)
    → IsOwned s
    → Ends
        (λ matched s'. IsOwned s' × (matched ≡ true → Ended job_id run_id s'))
        (update_run {R = R} job_id run_id matches change s)
update_run-Ended R job_id run_id matches change s dead o =
    update_run-Ends R (λ matched s'. IsOwned s' × (matched ≡ true → Ended job_id run_id s')) s
      job_id run_id matches change (o, λ e. absurd (false≢true e))
      (λ run e m. (
        put_run-IsOwned s run_id (change run) o
            (λ live. absurd (false≢true (sym (dead run) ∙ live))),
        λ _ x f _.
            ap is_running (
              sym (
                eq_of_some (
                  sym (stored (change run))
                  ∙ sym (get-put run_id run_id (change run) s.job_runs)
                  ∙ f)))
            ∙ dead run,
      ))
  where
    stored : (x : JobRun) → (if run_id == run_id then some x else get run_id s.job_runs) ≡ some x
    stored x = rw (==-self run_id) refl

pub update_its_job-IsOwned :
    (R : Type 0) (job_id run_id : String) (matches : Job → Bool) (change : Job → Job) (s : JobStore)
    → ((job : Job) → matches job ≡ true → is_same job.current_run_id (some run_id) ≡ true)
    → IsOwned s
    → Ended job_id run_id s
    → Ends (λ _. IsOwned) (update_job {R = R} job_id matches change s)
update_its_job-IsOwned R job_id run_id matches change s h o ended =
    update_job-Ends R (λ _. IsOwned) s job_id matches change o
      (λ job e m.
        quiet_job-IsOwned s job_id (change job) o
          (quiet_of_end s job_id run_id job o e (h job m) ended))

pub heartbeat_run-IsOwned :
    (job_id run_id : String) (now : ℕ) (s : JobStore)
    → IsOwned s
    → IsOwned (heartbeat_run job_id run_id now s).1
unfolding heartbeat_run
heartbeat_run-IsOwned job_id run_id now s o = conclude-keeps IsOwned s _ o (
    continue-Ends (λ _. IsOwned) (λ _. IsOwned) _ _
      (update_run-Ends (Unit {0}) (λ _. IsOwned) s job_id run_id
        (λ run. is_running run && holds_job run_id (get job_id s.jobs)) (beat now) o
        (λ run e m.
          put_run-IsOwned s run_id (beat now run) o (λ live.
            o.owned run_id run (owned_by-get job_id (get run_id s.job_runs) run e).0 live)))
      (λ matched s' o'. if-Ends (Unit {0}) (λ _. IsOwned) matched _ _ s' (λ _. o') (λ _. tt)))

finalize_tx-IsOwned :
    (job_id run_id : String) (e : RunEnd) (s : JobStore)
    → is_terminal e.status ≡ true
    → IsOwned s
    → Ends (λ _. IsOwned) (finalize_tx job_id run_id e s)
unfolding finalize_tx
finalize_tx-IsOwned job_id run_id e s final o =
    continue-Ends (λ matched s'. IsOwned s' × (matched ≡ true → Ended job_id run_id s'))
      (λ _. IsOwned) _ _
      (update_run-Ended (Unit {0}) job_id run_id (is_fresh e.heartbeat_cutoff) (finish_run e) s
        (λ run. terminal_is_not_running e.status final) o)
      (λ matched s' (o', ended).
        if-Ends (Unit {0}) (λ _. IsOwned) matched _ _ s'
          (λ m.
            continue-Ends (λ _. IsOwned) (λ _. IsOwned) _ _
              (update_its_job-IsOwned (Unit {0}) job_id run_id (is_running_for run_id)
                (to_status e.status e.completed_at) s' (λ job. and_right _ _) o' (ended m))
              (λ owned s'' o''.
                if-Ends (Unit {0}) (λ _. IsOwned) owned _ _ s''
                  (λ _. commit-IsOwned (Unit {0}) e.webhook_delivery e.completed_at s'' o'')
                  (λ _. tt)))
          (λ _. tt))

pub finalize_owned_run-IsOwned :
    (job_id run_id : String) (e : RunEnd) (s : JobStore)
    → IsOwned s
    → IsOwned (finalize_owned_run job_id run_id e s).1
unfolding finalize_owned_run
finalize_owned_run-IsOwned job_id run_id e s o = elim (Bool-cases (is_terminal e.status)) [
  | inl final ↦ rw final (valid final)
  | inr other ↦ rw other o
]
  where
    valid :
        is_terminal e.status ≡ true
        → IsOwned
            (if not (is_valid_delivery job_id run_id e.status e.webhook_delivery)
              then (error value_error, s)
              else transaction (finalize_tx job_id run_id e) s).1
    valid final = elim (Bool-cases (is_valid_delivery job_id run_id e.status e.webhook_delivery)) [
      | inl fine ↦
          rw fine (conclude-keeps IsOwned s _ o (finalize_tx-IsOwned job_id run_id e s final o))
      | inr bad ↦ rw bad o
    ]
