-- ===== src/Components/Retry/Bounds.antt =====
-- How often the policies of des-components/src/retry_policy.rs send a request again.
use des_cartes.Prelude.{
  ℕ, ◌-◌, ◌^◌, ◌≤◌, ◌<◌, ◌≡◌, refl, Bool, not, ◌||◌, Option, none, some, List, ltb, if◌then◌else◌,
  if_ind, add_u64, arith, OnSome,
}
use des_cartes.Core.Time.{SimTime, Duration}
use des_cartes.Core.Request.{RequestAttempt, Response}
use des_cartes.Components.Retry.{
  RetryPolicy, is_retryable, no_retry, FixedRetry, fixed_retry, ExponentialBackoff, backoff_delay,
  exponential_backoff, TokenBucket, refill, try_consume_token, token_bucket, SuccessBased,
  success_based,
}

-- What a client relies on: a policy that answers with a delay has one retry fewer left, and after
-- `reset` it has no more than its number of attempts.
pub record Limits {P : Type 0} (policy : RetryPolicy P) : Type 1 where
  pub Valid : P → Type 0
  pub left : P → ℕ
  pub retry :
      (attempt : RequestAttempt) (response : Option Response) (p : P)
      → Valid p
      → let r = policy.should_retry attempt response p in
        OnSome (λ delay. Valid r.1 × (left r.1 < left p)) r.0
  pub reset_valid : (p : P) → policy.max_attempts p < 2 ^ 64 - 1 → Valid (policy.reset p)
  pub reset_left : (p : P) → left (policy.reset p) ≤ policy.max_attempts p

pub no_retry-Limits : Limits no_retry
no_retry-Limits = record {
  Valid = λ p. Unit;
  left = λ p. 0;
  retry = λ attempt response p v. tt;
  reset_valid = λ p h. tt;
  reset_left = λ p. omega arith;
}

-- The policies that count their attempts, and what is left of their limit.
module _ {P : Type 0} (current limit : P → ℕ) where
  abbrev pub Counted : P → Type 0
  Counted p = (current p ≤ limit p) × (limit p < 2 ^ 64 - 1)

  abbrev pub Advanced : P → Option Duration × P → Type 0
  Advanced p r = OnSome (λ delay. Counted r.1 × (limit r.1 - current r.1 < limit p - current p)) r.0

  -- A policy that counts the attempt, and answers with a delay only within its limit, advances.
  pub advance :
      (p p' p'' : P) (stop : Bool) (delay : Duration)
      → Counted p
      → current p'' ≡ add_u64 (current p) 1
      → limit p'' ≡ limit p
      → Advanced p
          (if ltb (limit p) (add_u64 (current p) 1) || stop then (none, p') else (some delay, p''))
  advance p p' p'' stop delay v c l =
      if_ind (Advanced p) (ltb (limit p) (add_u64 (current p) 1) || stop) (λ e. tt)
        (λ e.
          let within : add_u64 (current p) 1 ≤ limit p = ground (arith, e) in
          ((omega (arith, within, c, l), omega (arith, v, l)), omega (arith, within, c, l, v)))

abbrev pub fixed_retry_limits : Limits fixed_retry
fixed_retry_limits = record {
  Valid = Counted (λ (p : FixedRetry). p.current_attempt) (λ p. p.max_attempts);
  left = λ p. p.max_attempts - p.current_attempt;
  retry = λ attempt response p v.
      let p' = record p { current_attempt = add_u64 p.current_attempt 1 } in
      advance (λ (p : FixedRetry). p.current_attempt) (λ p. p.max_attempts) p p' p'
        (not (is_retryable response)) p.retry_delay v refl refl;
  reset_valid = λ p h. (omega arith, h);
  reset_left = λ p. omega arith;
}

pub exponential_backoff-Limits :
    {G : Type 0} (scale : Duration → ℕ → Duration) (spread : G → Duration → Duration × G)
    → Limits (exponential_backoff scale spread)
exponential_backoff-Limits {G} scale spread = record {
  Valid = Counted (λ (p : ExponentialBackoff G). p.current_attempt) (λ p. p.max_attempts);
  left = λ p. p.max_attempts - p.current_attempt;
  retry = λ attempt response p v.
      let p' = record p { current_attempt = add_u64 p.current_attempt 1 } in
      let r = backoff_delay scale spread p' in
      advance (λ (p : ExponentialBackoff G). p.current_attempt) (λ p. p.max_attempts) p p' r.1
        (not (is_retryable response)) r.0 v (ground arith) (ground arith);
  reset_valid = λ p h. (omega arith, h);
  reset_left = λ p. omega arith;
}

pub refill-count :
    (earned : Duration → ℕ) (now : SimTime) (last : Option SimTime) (p : TokenBucket)
    → let p' = refill earned now last p in
      (p'.current_attempt ≡ p.current_attempt) × (p'.max_attempts ≡ p.max_attempts)
refill-count earned now none p = (refl, refl)
refill-count earned now (some last) p = (ground arith, ground arith)

pub token_bucket-Limits : (earned : Duration → ℕ) → Limits (token_bucket earned)
token_bucket-Limits earned = record {
  Valid = Counted (λ (p : TokenBucket). p.current_attempt) (λ p. p.max_attempts);
  left = λ p. p.max_attempts - p.current_attempt;
  retry = λ attempt response p v.
      let p' = record p { current_attempt = add_u64 p.current_attempt 1 } in
      let r = try_consume_token earned attempt.started_at p' in
      advance (λ (p : TokenBucket). p.current_attempt) (λ p. p.max_attempts) p p' r.1
        (not (is_retryable response)) (if r.0 then 0 else p.base_delay) v
        (ground (arith, (refill-count earned attempt.started_at p'.last_refill p').0))
        (ground (arith, (refill-count earned attempt.started_at p'.last_refill p').1));
  reset_valid = λ p h. (omega arith, h);
  reset_left = λ p. omega arith;
}

pub success_based-Limits :
    (is_low : List Bool → Bool) (stretch : Duration → Duration)
    → Limits (success_based is_low stretch)
success_based-Limits is_low stretch = record {
  Valid = Counted (λ (p : SuccessBased). p.current_attempt) (λ p. p.max_attempts);
  left = λ p. p.max_attempts - p.current_attempt;
  retry = λ attempt response p v.
      let p' = record p { current_attempt = add_u64 p.current_attempt 1 } in
      advance (λ (p : SuccessBased). p.current_attempt) (λ p. p.max_attempts) p p' p'
        (not (is_retryable response))
        (if is_low p.recent_outcomes then stretch p.base_delay else p.base_delay) v refl refl;
  reset_valid = λ p h. (omega arith, h);
  reset_left = λ p. omega arith;
}
