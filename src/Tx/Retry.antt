-- ===== src/Tx/Retry.antt =====
-- tx.go: `InTxRetry`.
use row.Prelude.{
  ℕ, zero, suc, ◌+◌, ◌-◌, ◌*◌, ◌%◌, ◌^◌, Bool, not, ◌&&◌, ◌||◌, ltb, leb, ◌==◌, Option, none, some,
  if◌then◌else◌, codes,
}
use row.Errors.{Err, formatted, code_of, retryable}
use row.Tx.Session.{Outcome, returned, panicked}

-- An `int64` is its two's complement, below 2 ^ 64.
abbrev pub is_negative : ℕ → Bool
is_negative n = leb (2 ^ 63) n

-- Go's `a > b`
abbrev pub gt_int : ℕ → ℕ → Bool
gt_int a b = ltb ((b + 2 ^ 63) % 2 ^ 64) ((a + 2 ^ 63) % 2 ^ 64)

pub record RetryPolicy : Type 0 where
  pub attempts : ℕ
  pub base_delay : ℕ
  pub max_delay : ℕ

-- `DefaultRetryPolicy`, in nanoseconds
abbrev pub default_retry_policy : RetryPolicy
default_retry_policy = record { attempts = 5; base_delay = 5000000; max_delay = 200000000 }

-- `d`, the delay with its cap
abbrev pub capped : RetryPolicy → ℕ → ℕ
capped p delay = if gt_int p.max_delay 0 && gt_int delay p.max_delay then p.max_delay else delay

-- `rand.Int64N` panics if its argument is not positive.
abbrev pub jitter_panics : ℕ → Bool
jitter_panics n = n == 0 || is_negative n

-- `attempts`, with its smallest value
abbrev pub attempts_of : RetryPolicy → ℕ
attempts_of p = if is_negative p.attempts || (p.attempts == 0) then 1 else p.attempts

-- `attempt` is the call of `InTx`, and `sleep` the `select`: it waits for some time below the bound
-- and returns the error of the context if that ends first.
module _ {W : Type 0} (attempt : W → W × Outcome) (sleep : ℕ → W → W × Option Err)
    (p : RetryPolicy) where
  -- behind an attempt; `again` is the rest of the loop, with the error
  unfoldable pub after_attempt : (Err → W → W × Outcome) → W × Outcome → W × Outcome
  after_attempt again (w, panicked) = (w, panicked)
  after_attempt again (w, returned none) = (w, returned none)
  after_attempt again (w, returned (some e)) =
      if not (retryable (code_of e)) then (w, returned (some e)) else again e w

  -- behind the `select`
  unfoldable pub after_sleep : (W → W × Outcome) → W × Option Err → W × Outcome
  after_sleep continue (w, some e) = (w, returned (some e))
  after_sleep continue (w, none) = continue w

  -- the rounds of the loop behind the first, by the number of attempts left
  unfoldable pub retry_loop : ℕ → ℕ → Err → W → W × Outcome
  unfolding after_attempt after_sleep
  retry_loop zero delay last w =
      (w, returned (some (formatted (codes "row.InTxRetry: giving up") last)))
  retry_loop (suc n) delay last w =
      let bound = (capped p delay + 1) % 2 ^ 64 in
      let again = retry_loop n ((delay * 2) % 2 ^ 64) in
      if jitter_panics bound
      then (w, panicked)
      else after_sleep (λ v. after_attempt again (attempt v)) (sleep bound w)

  -- `InTxRetry`
  unfoldable pub in_tx_retry : W → W × Outcome
  unfolding retry_loop after_attempt
  in_tx_retry w = after_attempt (retry_loop (attempts_of p - 1) p.base_delay) (attempt w)
