-- ===== src/Tx/Backoff.antt =====
-- How often and how long `InTxRetry` tries.
use row.Prelude.{
  ℕ, zero, suc, ◌+◌, ◌-◌, ◌*◌, ◌%◌, ◌^◌, ◌≤◌, ◌<◌, Bool, true, false, not, ◌≡◌, refl, arith, inl,
  inr, Bool-cases, Option, none, some,
}
use row.Errors.{Err, code_of, retryable}
use row.Tx.Session.{Outcome, returned, panicked}
use row.Tx.Retry.{
  RetryPolicy, capped, jitter_panics, attempts_of, after_attempt, after_sleep, retry_loop,
  in_tx_retry,
}

-- A delay that is doubled `n` times.
unfoldable pub doubled : ℕ → ℕ → ℕ
doubled zero delay = delay
doubled (suc n) delay = doubled n (delay * 2)

doubled-le : (n delay : ℕ) → delay ≤ doubled n delay
unfolding doubled
doubled-le zero delay = omega arith
doubled-le (suc n) delay = omega (arith, doubled-le n (delay * 2))

-- A delay that can still be doubled is a bound that `rand.Int64N` accepts.
capped-positive :
    (p : RetryPolicy) (delay : ℕ)
    → p.max_delay < 2 ^ 64
    → delay * 2 < 2 ^ 63
    → jitter_panics ((capped p delay + 1) % 2 ^ 64) ≡ false
capped-positive p delay m h = ground arith

-- Whether a result is a panic.
abbrev pub panics : Outcome → Bool
panics (returned e) = false
panics panicked = true

module _ {W : Type 0} (attempt : W → W × Outcome) (sleep : ℕ → W → W × Option Err)
    (p : RetryPolicy) where
  after_attempt-panics :
      (again : Err → W → W × Outcome) (r : W × Outcome)
      → panics r.1 ≡ false
      → ((e : Err) (v : W) → panics (again e v).1 ≡ false)
      → panics (after_attempt attempt sleep p again r).1 ≡ false
  unfolding after_attempt
  after_attempt-panics again (w, panicked) h k = h
  after_attempt-panics again (w, returned none) h k = refl
  after_attempt-panics again (w, returned (some e)) h k =
      elim (Bool-cases (not (retryable (code_of e)))) [ inl y ↦ rw y refl | inr n ↦ rw n (k e w) ]

  after_sleep-panics :
      (continue : W → W × Outcome) (r : W × Option Err)
      → ((v : W) → panics (continue v).1 ≡ false)
      → panics (after_sleep attempt sleep p continue r).1 ≡ false
  unfolding after_sleep
  after_sleep-panics continue (w, some e) k = refl
  after_sleep-panics continue (w, none) k = k w

  retry_loop-panics :
      (n delay : ℕ) (last : Err) (w : W)
      → ((v : W) → panics (attempt v).1 ≡ false)
      → p.max_delay < 2 ^ 64
      → doubled n delay < 2 ^ 63
      → panics (retry_loop attempt sleep p n delay last w).1 ≡ false
  unfolding retry_loop doubled
  retry_loop-panics zero delay last w f m h = refl
  retry_loop-panics (suc n) delay last w f m h =
      let small : delay * 2 < 2 ^ 63 = omega (arith, h, doubled-le n (delay * 2)) in
      let e : (delay * 2) % 2 ^ 64 ≡ delay * 2 = omega (arith, small) in
      rw (capped-positive p delay m small, e)
        (after_sleep-panics
          (λ v.
            after_attempt attempt sleep p (retry_loop attempt sleep p n (delay * 2)) (attempt v))
          (sleep ((capped p delay + 1) % 2 ^ 64) w)
          λ v.
            after_attempt-panics (retry_loop attempt sleep p n (delay * 2)) (attempt v) (f v)
              λ err u. retry_loop-panics n (delay * 2) err u f m h)

  -- If no attempt panics, the cap is an int64, and the first delay can be doubled once for each
  -- further attempt within an int64, then `InTxRetry` does not panic.
  pub in_tx_retry-panics :
      (w : W)
      → ((v : W) → panics (attempt v).1 ≡ false)
      → p.max_delay < 2 ^ 64
      → doubled (attempts_of p - 1) p.base_delay < 2 ^ 63
      → panics (in_tx_retry attempt sleep p w).1 ≡ false
  unfolding in_tx_retry
  in_tx_retry-panics w f m h =
      after_attempt-panics (retry_loop attempt sleep p (attempts_of p - 1) p.base_delay) (attempt w)
        (f w) λ err u. retry_loop-panics (attempts_of p - 1) p.base_delay err u f m h

  -- A counter that each attempt moves by one.
  module _ (count : W → ℕ) (moves : (v : W) → count (attempt v).0 ≡ count v + 1)
      (keeps : (n : ℕ) (v : W) → count (sleep n v).0 ≡ count v) where
    after_attempt-count :
        (again : Err → W → W × Outcome) (n : ℕ) (r : W × Outcome)
        → ((e : Err) (v : W)
            → (count v ≤ count (again e v).0) × (count (again e v).0 ≤ count v + n))
        → (count r.0 ≤ count (after_attempt attempt sleep p again r).0)
          × (count (after_attempt attempt sleep p again r).0 ≤ count r.0 + n)
    unfolding after_attempt
    after_attempt-count again n (w, panicked) k = (omega arith, omega arith)
    after_attempt-count again n (w, returned none) k = (omega arith, omega arith)
    after_attempt-count again n (w, returned (some e)) k =
        elim (Bool-cases (not (retryable (code_of e)))) [
          | inl y ↦ rw y (omega arith, omega arith)
          | inr m ↦ rw m (k e w)
        ]

    after_sleep-count :
        (continue : W → W × Outcome) (n : ℕ) (r : W × Option Err)
        → ((v : W) → (count v ≤ count (continue v).0) × (count (continue v).0 ≤ count v + n))
        → (count r.0 ≤ count (after_sleep attempt sleep p continue r).0)
          × (count (after_sleep attempt sleep p continue r).0 ≤ count r.0 + n)
    unfolding after_sleep
    after_sleep-count continue n (w, some e) k = (omega arith, omega arith)
    after_sleep-count continue n (w, none) k = k w

    retry_loop-count :
        (n delay : ℕ) (last : Err) (w : W)
        → (count w ≤ count (retry_loop attempt sleep p n delay last w).0)
          × (count (retry_loop attempt sleep p n delay last w).0 ≤ count w + n)
    unfolding retry_loop
    retry_loop-count zero delay last w = (omega arith, omega arith)
    retry_loop-count (suc n) delay last w =
        let bound = (capped p delay + 1) % 2 ^ 64 in
        elim (Bool-cases (jitter_panics bound)) [
          | inl y ↦ rw y (omega arith, omega arith)
          | inr m ↦ rw m (
              let slept =
                after_sleep-count
                  (λ v.
                    after_attempt attempt sleep p
                      (retry_loop attempt sleep p n ((delay * 2) % 2 ^ 64)) (attempt v))
                  (suc n) (sleep bound w)
                  λ v.
                    let tried =
                      after_attempt-count (retry_loop attempt sleep p n ((delay * 2) % 2 ^ 64)) n
                        (attempt v) (retry_loop-count n ((delay * 2) % 2 ^ 64)) in
                    (omega (arith, tried, moves v), omega (arith, tried, moves v)) in
              (omega (arith, slept, keeps bound w), omega (arith, slept, keeps bound w)))
        ]

    -- `InTxRetry` runs the transaction at least once, and at most as often as the policy says, or
    -- once if that is less than one: a counter that each attempt moves by one and no wait moves
    -- counts so many.
    pub in_tx_retry-count :
        (w : W)
        → (count w + 1 ≤ count (in_tx_retry attempt sleep p w).0)
          × (count (in_tx_retry attempt sleep p w).0 ≤ count w + attempts_of p)
    unfolding in_tx_retry
    in_tx_retry-count w =
        let tried =
          after_attempt-count (retry_loop attempt sleep p (attempts_of p - 1) p.base_delay)
            (attempts_of p - 1) (attempt w) (retry_loop-count (attempts_of p - 1) p.base_delay) in
        let some_attempt : 1 ≤ attempts_of p = ground arith in
        (omega (arith, tried, moves w), omega (arith, tried, moves w, some_attempt))
