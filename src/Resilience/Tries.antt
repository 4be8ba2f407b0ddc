-- ===== src/Resilience/Tries.antt =====
-- How often `RetryHandler` of src/scrapeyard/engine/resilience.py tries, and what comes of it.
use scrapeyard.Prelude.{
  ℕ, zero, suc, ◌+◌, ◌-◌, ◌≤◌, ◌<◌, ◌≡◌, refl, subst, false, inl, inr, arith, Option, none, some,
  List, [], ◌∷◌, length, Bool-cases,
}
use scrapeyard.Resilience.Retry.{
  RetryHandler, delay_of, Outcome, returned, retryable, unresolved, transient, other, Point,
  before_retry_attempt, after_retry_attempt, before_retry_backoff, after_retry_backoff,
  Surroundings, Ending, value, raised, Run, is_denial, finish, unless, after_call, after_sleep,
  end_of_attempts, back_off, try_again, settle_call, attempts, execute,
}

abbrev pub AllAtMost : ℕ → List ℕ → Type 0
AllAtMost most [] = Unit {0}
AllAtMost most (x ∷ xs) = (x ≤ most) × AllAtMost most xs

-- So many calls at most, fewer sleeps than calls, and none too long.
pub record IsBounded {A E : Type 0} (most_calls most_sleeps most_delay : ℕ) (r : Run A E)
    : Type 0 where
  pub few_calls : r.calls ≤ most_calls
  pub few_sleeps : length r.slept ≤ most_sleeps
  pub short_sleeps : AllAtMost most_delay r.slept

module _ {A E : Type 0} (h : RetryHandler) (w : Surroundings A E) where
  finish-IsBounded : (n m : ℕ) (e : Ending A E) → IsBounded n m h.backoff_max (finish e)
  finish-IsBounded n m e = record {
    few_calls = omega arith;
    few_sleeps = omega arith;
    short_sleeps = tt;
  }

  unless-IsBounded :
      (n m : ℕ) (o : Option E) (r : Run A E)
      → IsBounded n m h.backoff_max r
      → IsBounded n m h.backoff_max (unless o r)
  unless-IsBounded n m none r b = b
  unless-IsBounded n m (some e) r b = finish-IsBounded n m (raised e)

  after_call-IsBounded :
      (n m : ℕ) (r : Run A E)
      → IsBounded n m h.backoff_max r
      → IsBounded (suc n) m h.backoff_max (after_call r)
  after_call-IsBounded n m r b = record {
    few_calls = omega (arith, b.few_calls);
    few_sleeps = b.few_sleeps;
    short_sleeps = b.short_sleeps;
  }

  delay-le : (attempt : ℕ) → delay_of h attempt ≤ h.backoff_max
  unfolding delay_of
  delay-le attempt = omega arith

  back_off-IsBounded :
      (n m attempt : ℕ) (r : Run A E)
      → IsBounded n m h.backoff_max r
      → IsBounded n (suc m) h.backoff_max (back_off h w attempt r)
  back_off-IsBounded n m attempt r b =
      let inner =
        unless-IsBounded n m (w.sleep attempt (delay_of h attempt)) _
          (unless-IsBounded n m (w.checkpoint after_retry_backoff attempt) r b) in
      unless-IsBounded n (suc m) (w.checkpoint before_retry_backoff attempt) _ (record {
        few_calls = inner.few_calls;
        few_sleeps = omega (arith, inner.few_sleeps);
        short_sleeps = (delay-le attempt, inner.short_sleeps);
      })

  try_again-IsBounded :
      (left attempt : ℕ) (e : E) (r : Run A E)
      → IsBounded left (left - 1) h.backoff_max r
      → IsBounded left left h.backoff_max (try_again h w left attempt e r)
  try_again-IsBounded zero attempt e r b = finish-IsBounded 0 0 (raised e)
  try_again-IsBounded (suc left) attempt e r b =
      let one_less : suc left - 1 ≡ left = omega arith in
      back_off-IsBounded (suc left) left attempt r
        (subst (λ k. IsBounded (suc left) k h.backoff_max r) one_less b)

  settle-IsBounded :
      (left attempt : ℕ) (o : Outcome A E) (rest : E → Run A E)
      → ((e : E) → IsBounded left (left - 1) h.backoff_max (rest e))
      → IsBounded left left h.backoff_max (settle_call h w left attempt o rest)
  settle-IsBounded left attempt (returned a) rest b =
      unless-IsBounded left left (w.checkpoint after_retry_attempt attempt) _
        (finish-IsBounded left left (value a))
  settle-IsBounded left attempt (retryable status e) rest b = elim (Bool-cases (is_denial status)) [
    | inl denial ↦ rw denial (finish-IsBounded left left (raised e))
    | inr passes ↦ rw passes (try_again-IsBounded left attempt e (rest e) (b e))
  ]
  settle-IsBounded left attempt (unresolved e) rest b =
      try_again-IsBounded left attempt e (rest e) (b e)
  settle-IsBounded left attempt (transient e) rest b =
      try_again-IsBounded left attempt e (rest e) (b e)
  settle-IsBounded left attempt (other e) rest b = finish-IsBounded left left (raised e)

  IsBounded-eq :
      (n m k : ℕ) (r : Run A E)
      → m ≡ k
      → IsBounded n m h.backoff_max r
      → IsBounded n k h.backoff_max r
  IsBounded-eq n m k r e b = subst (λ x. IsBounded n x h.backoff_max r) e b

  end-IsBounded :
      (last : Option E) → IsBounded {A = A} {E = E} 0 0 h.backoff_max (end_of_attempts last)
  end-IsBounded none = finish-IsBounded 0 0 _
  end-IsBounded (some e) = finish-IsBounded 0 0 _

  attempts-IsBounded :
      (left attempt : ℕ) (last : Option E)
      → IsBounded left (left - 1) h.backoff_max (attempts h w left attempt last)
  unfolding attempts
  attempts-IsBounded zero attempt last = end-IsBounded last
  attempts-IsBounded (suc left) attempt last =
      let one_less : left ≡ suc left - 1 = omega arith in
      unless-IsBounded (suc left) (suc left - 1) (w.checkpoint before_retry_attempt attempt) _ (
        IsBounded-eq (suc left) left (suc left - 1) _ one_less (
          after_call-IsBounded left left _ (
            settle-IsBounded left attempt (w.call attempt)
              (λ e. attempts h w left (attempt + 1) (some e))
              (λ e. attempts-IsBounded left (attempt + 1) (some e)))))

-- Whatever the calls, the checkpoints and the sleeps do, the function is called at most the maximal
-- number of attempts, there is at least one sleep less than that, and no sleep is longer than the
-- maximum of the backoff.
pub execute-IsBounded :
    {A E : Type 0} (h : RetryHandler) (w : Surroundings A E)
    → IsBounded h.max_attempts (h.max_attempts - 1) h.backoff_max (execute h w)
unfolding execute
execute-IsBounded h w = attempts-IsBounded h w h.max_attempts 0 none

-- A failure after which the handler tries again.
abbrev pub MayPass : {A E : Type 0} → Outcome A E → Type 0
MayPass (retryable status e) = is_denial status ≡ false
MayPass (unresolved e) = Unit {0}
MayPass (transient e) = Unit {0}
MayPass _ = ⊥

-- No checkpoint and no sleep raises.
pub record IsCalm {A E : Type 0} (w : Surroundings A E) : Type 0 where
  pub no_stop : (p : Point) (i : ℕ) → w.checkpoint p i ≡ none
  pub no_wake : (i d : ℕ) → w.sleep i d ≡ none

unfoldable pub delays : RetryHandler → ℕ → ℕ → List ℕ
delays h i zero = []
delays h i (suc n) = delay_of h i ∷ delays h (i + 1) n

module _ {A E : Type 0} (h : RetryHandler) (w : Surroundings A E) (calm : IsCalm w) where
  calm_back_off : (i : ℕ) (r : Run A E) → back_off h w i r ≡ after_sleep (delay_of h i) r
  calm_back_off i r =
      rw
        (
          calm.no_stop before_retry_backoff i,
          calm.no_wake i (delay_of h i),
          calm.no_stop after_retry_backoff i,
        )
        refl

  passing_call :
      (left i : ℕ) (o : Outcome A E) (rest : E → Run A E)
      → MayPass o
      → (e : E) × (settle_call h w (suc left) i o rest ≡ after_sleep (delay_of h i) (rest e))
  passing_call left i (returned a) rest p = elim p [ ]
  passing_call left i (retryable status e) rest p = (e, rw p (calm_back_off i (rest e)))
  passing_call left i (unresolved e) rest p = (e, calm_back_off i (rest e))
  passing_call left i (transient e) rest p = (e, calm_back_off i (rest e))
  passing_call left i (other e) rest p = elim p [ ]

  passes_later :
      (k left i : ℕ) (last : Option E) (a : A)
      → k < left
      → ((j : ℕ) → j < k → MayPass (w.call (i + j)))
      → w.call (i + k) ≡ returned a
      → attempts h w left i last ≡ record { ending = value a; calls = suc k; slept = delays h i k }
  unfolding attempts delays
  passes_later zero zero i last a l f e = absurd (omega arith)
  passes_later (suc k) zero i last a l f e = absurd (omega arith)
  passes_later zero (suc left) i last a l f e =
      let here : i + 0 ≡ i = omega arith in
      let call_here : w.call i ≡ returned a = (rw here at e) in
      rw (calm.no_stop before_retry_attempt i, call_here, calm.no_stop after_retry_attempt i) refl
  passes_later (suc k) (suc zero) i last a l f e = absurd (omega arith)
  passes_later (suc k) (suc (suc left)) i last a l f e =
      let here : i + 0 ≡ i = omega arith in
      let next : i + 1 + k ≡ i + suc k = omega arith in
      let passing : MayPass (w.call i) = subst (λ n. MayPass (w.call n)) here (f 0 (omega arith)) in
      let rest = λ (x : E). attempts h w (suc left) (i + 1) (some x) in
      let (x, settled) = passing_call left i (w.call i) rest passing in
      let again : rest x ≡ record { ending = value a; calls = suc k; slept = delays h (i + 1) k } =
        passes_later k (suc left) (i + 1) (some x) a (omega arith)
          (λ j b.
            let shift : i + suc j ≡ i + 1 + j = omega arith in
            subst (λ n. MayPass (w.call n)) shift (f (suc j) (omega arith)))
          (rw next e) in
      rw (calm.no_stop before_retry_attempt i, settled, again) refl

-- When the first calls, fewer than the attempts allowed, fail in ways that may pass, the next one
-- returns a value, and no checkpoint and no sleep raises, the handler returns that value, after one
-- more call than there were failures and with the delay of each failed attempt slept in turn.
pub execute_succeeds :
    {A E : Type 0} (h : RetryHandler) (w : Surroundings A E) (k : ℕ) (a : A)
    → IsCalm w
    → k < h.max_attempts
    → ((j : ℕ) → j < k → MayPass (w.call j))
    → w.call k ≡ returned a
    → execute h w ≡ record { ending = value a; calls = suc k; slept = delays h 0 k }
unfolding execute
execute_succeeds h w k a calm l f e =
    passes_later h w calm k h.max_attempts 0 none a l
      (λ j b. let same : j ≡ 0 + j = omega arith in subst (λ n. MayPass (w.call n)) same (f j b))
      (let same : 0 + k ≡ k = omega arith in rw same e)
