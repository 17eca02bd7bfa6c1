-- ===== src/Components/Retry.antt =====
-- des-components/src/retry_policy.rs: when a client sends a request again. What is computed in
-- floating point, and the random numbers, are parameters: the growth of a delay, its jitter, the
-- refill of a bucket, and the comparison of a success rate. Attempt counts are usize, tokens u32.
pub mod Bounds
use des_cartes.Prelude.{
  ℕ, ◌+◌, ◌-◌, ◌%◌, ◌^◌, ◌≤◌, ◌<◌, ◌≡◌, refl, min, Bool, true, false, not, ◌||◌, Option, none, some,
  List, [], ◌∷◌, ◌++◌, ltb, if◌then◌else◌, if_ind, length, erase_idx, add_u64, arith, OnSome,
}
use des_cartes.Core.Time.{SimTime, Duration, duration_since}
use des_cartes.Core.Request.{RequestAttempt, Response, is_success}

-- The trait `RetryPolicy`.
pub record RetryPolicy (P : Type 0) : Type 0 where
  pub should_retry : RequestAttempt → Option Response → P → Option Duration × P
  pub reset : P → P
  pub max_attempts : P → ℕ

-- Every answer but a success may be tried again, and so may a timeout.
abbrev pub is_retryable : Option Response → Bool
is_retryable none = true
is_retryable (some response) = not (is_success response)

abbrev pub no_retry : RetryPolicy Unit
no_retry = record {
  should_retry = λ attempt response p. (none, p);
  reset = λ p. p;
  max_attempts = λ p. 1;
}

pub record FixedRetry : Type 0 where
  pub max_attempts : ℕ
  pub current_attempt : ℕ
  pub retry_delay : Duration

abbrev pub new_fixed : ℕ → Duration → FixedRetry
new_fixed max_attempts retry_delay = record {
  max_attempts = max_attempts;
  current_attempt = 0;
  retry_delay = retry_delay;
}

abbrev pub fixed_should_retry : Option Response → FixedRetry → Option Duration × FixedRetry
fixed_should_retry response p =
    let p' = record p { current_attempt = add_u64 p.current_attempt 1 } in
    if ltb p.max_attempts p'.current_attempt || not (is_retryable response)
    then (none, p')
    else (some p.retry_delay, p')

abbrev pub fixed_retry : RetryPolicy FixedRetry
fixed_retry = record {
  should_retry = λ attempt response p. fixed_should_retry response p;
  reset = λ p. record p { current_attempt = 0 };
  max_attempts = λ p. p.max_attempts;
}

pub record ExponentialBackoff (G : Type 0) : Type 0 where
  pub max_attempts : ℕ
  pub current_attempt : ℕ
  pub base_delay : Duration
  pub max_delay : Duration
  pub jitter : Bool
  pub rng : G

module _ {G : Type 0} (scale : Duration → ℕ → Duration) (spread : G → Duration → Duration × G) where
  -- `scale` is the base delay times a power of the multiplier, in whole milliseconds.
  abbrev pub backoff_delay : ExponentialBackoff G → Duration × ExponentialBackoff G
  backoff_delay p =
      let delay = min (scale p.base_delay (p.current_attempt - 1)) p.max_delay in
      let (spread_delay, rng) = spread p.rng delay in
      if p.jitter then (spread_delay, record p { rng = rng }) else (delay, p)

  abbrev pub backoff_should_retry :
      Option Response → ExponentialBackoff G → Option Duration × ExponentialBackoff G
  backoff_should_retry response p =
      let p' = record p { current_attempt = add_u64 p.current_attempt 1 } in
      let (delay, p'') = backoff_delay p' in
      if ltb p.max_attempts p'.current_attempt || not (is_retryable response)
      then (none, p')
      else (some delay, p'')

  abbrev pub exponential_backoff : RetryPolicy (ExponentialBackoff G)
  exponential_backoff = record {
    should_retry = λ attempt response p. backoff_should_retry response p;
    reset = λ p. record p { current_attempt = 0 };
    max_attempts = λ p. p.max_attempts;
  }

pub record TokenBucket : Type 0 where
  pub max_attempts : ℕ
  pub current_attempt : ℕ
  pub max_tokens : ℕ
  pub current_tokens : ℕ
  pub last_refill : Option SimTime
  pub base_delay : Duration

module _ (earned : Duration → ℕ) where
  -- `earned` is the elapsed seconds times the refill rate, as a u32. The sum of tokens is a u32.
  abbrev pub refill : SimTime → Option SimTime → TokenBucket → TokenBucket
  refill now none p = record p { last_refill = some now }
  refill now (some last) p =
      let tokens = earned (duration_since now last) in
      if ltb 0 tokens
      then record p {
        current_tokens = min ((p.current_tokens + tokens) % 2 ^ 32) p.max_tokens;
        last_refill = some now;
      }
      else p

  abbrev pub try_consume_token : SimTime → TokenBucket → Bool × TokenBucket
  try_consume_token now p =
      let p' = refill now p.last_refill p in
      if ltb 0 p'.current_tokens
      then (true, record p' { current_tokens = p'.current_tokens - 1 })
      else (false, p')

  abbrev pub bucket_should_retry :
      RequestAttempt → Option Response → TokenBucket → Option Duration × TokenBucket
  bucket_should_retry attempt response p =
      let p' = record p { current_attempt = add_u64 p.current_attempt 1 } in
      let (consumed, p'') = try_consume_token attempt.started_at p' in
      if ltb p.max_attempts p'.current_attempt || not (is_retryable response)
      then (none, p')
      else (some (if consumed then 0 else p.base_delay), p'')

  abbrev pub token_bucket : RetryPolicy TokenBucket
  token_bucket = record {
    should_retry = bucket_should_retry;
    reset = λ p. record p { current_attempt = 0 };
    max_attempts = λ p. p.max_attempts;
  }

pub record SuccessBased : Type 0 where
  pub max_attempts : ℕ
  pub current_attempt : ℕ
  pub base_delay : Duration
  pub window_size : ℕ
  pub recent_outcomes : List Bool

abbrev pub record_outcome : Bool → SuccessBased → SuccessBased
record_outcome success p =
    let outcomes = p.recent_outcomes ++ success ∷ [] in
    record p {
      recent_outcomes =
          if ltb p.window_size (length outcomes) then erase_idx outcomes 0 else outcomes;
    }

module _ (is_low : List Bool → Bool) (stretch : Duration → Duration) where
  -- `is_low` compares the rate of successes with the least one; `stretch` multiplies the delay.
  abbrev pub success_should_retry : Option Response → SuccessBased → Option Duration × SuccessBased
  success_should_retry response p =
      let p' = record p { current_attempt = add_u64 p.current_attempt 1 } in
      let delay = if is_low p.recent_outcomes then stretch p.base_delay else p.base_delay in
      if ltb p.max_attempts p'.current_attempt || not (is_retryable response)
      then (none, p')
      else (some delay, p')

  abbrev pub success_based : RetryPolicy SuccessBased
  success_based = record {
    should_retry = λ attempt response p. success_should_retry response p;
    reset = λ p. record p { current_attempt = 0 };
    max_attempts = λ p. p.max_attempts;
  }
