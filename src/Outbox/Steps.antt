-- ===== src/Outbox/Steps.antt =====
-- What the dispatcher, the cleanup and the stores of a running service do to the outbox of
-- src/scrapeyard/storage/webhook_outbox.py, as steps; among them the deletion of a job's deliveries by
-- src/scrapeyard/storage/job_deletion.py and of a run's by src/scrapeyard/storage/job_retention.py. The
-- migrations at startup, which encrypt stored texts again, are not among them.
use scrapeyard.Prelude.{
  ℕ, ◌≡◌, String, Bool, true, not, ◌&&◌, ◌==◌, text_keys, Option, List, [], ◌∷◌,
}
use scrapeyard.Outbox.{
  WebhookFailureReason, Table, mark_delivered, mark_retryable_failure, mark_failed,
  quarantine_malformed_row,
}
use scrapeyard.Outbox.Codec.{
  Coding, WebhookDeliveryCreate, enqueue_delivery, begin_attempt, get_delivery,
}
use scrapeyard.Outbox.Deletion.{delete_deliveries, is_run_of, prune_tombstones}
use scrapeyard.Outbox.Scrub.{scrub_terminal_deliveries}

pub data Step : Type 0 where
  enqueue : WebhookDeliveryCreate → ℕ → Step
  begin : String → ℕ → ℕ → Step
  read : String → ℕ → Step
  deliver : String → ℕ → Option ℕ → ℕ → Step
  retry : String → ℕ → ℕ → String → Option ℕ → ℕ → Step
  fail : String → ℕ → WebhookFailureReason → Option String → Option ℕ → ℕ → Step
  quarantine : String → ℕ → Step
  scrub : ℕ → ℕ → ℕ → ℕ → Step
  delete_job : String → Step
  prune_run : String → String → ℕ → Step

unfoldable pub apply : Coding → Step → Table → Table
apply c (enqueue d now) t = (enqueue_delivery c d now t).1
apply c (begin id expected at) t = (begin_attempt c id expected at t).1
apply c (read id now) t = (get_delivery c id now t).1
apply c (deliver id at expected more) t = (mark_delivered id at expected more t).1
apply c (retry id at next error expected more) t =
    (mark_retryable_failure id at next error expected more t).1
apply c (fail id at reason error expected more) t =
    (mark_failed id at reason error expected more t).1
apply c (quarantine id at) t = (quarantine_malformed_row id at t).1
apply c (scrub delivered_before failed_before at limit) t =
    (scrub_terminal_deliveries delivered_before failed_before at limit t).1
apply c (delete_job job_id) t = delete_deliveries job_id t
apply c (prune_run job_id run_id before) t = prune_tombstones job_id run_id before t

unfoldable pub apply_all : Coding → List Step → Table → Table
apply_all c [] t = t
apply_all c (s ∷ ss) t = apply_all c ss (apply c s t)

-- Whether a step leaves the deliveries of a job's run alone: it deletes neither the job nor the run.
abbrev pub spares : String → Option String → Step → Bool
spares job_id run (delete_job j) = not (job_id == j)
spares job_id run (prune_run j r before) = not ((job_id == j) && is_run_of r run)
spares job_id run _ = true

abbrev pub AllSpareRun : String → Option String → List Step → Type 0
AllSpareRun job_id run [] = Unit
AllSpareRun job_id run (s ∷ ss) = (spares job_id run s ≡ true) × AllSpareRun job_id run ss
