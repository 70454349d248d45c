-- ===== src/Tests/Transactions.antt =====
-- Examples for transactions.
use row.Prelude.{
  ℕ, ◌+◌, ◌-◌, ◌^◌, ◌≤◌, true, false, List, [], ◌∷◌, ◌≡◌, refl, ap, arith, Option, none, some, ◌==◌,
  if◌then◌else◌, Bytes, codes, drop,
}
use row.Errors.{Code, busy, Err, other, row_error}
use row.Dialect.Engines.{Dialect, sqlite}
use row.Tx.Session.{Database, World, Tx, Outcome, returned, panicked, Body, beginner, nest, in_tx}
use row.Tx.Nested.{IsSavepoints, nest-stack}
use row.Tx.Closed.{IsTransactions, in_tx-count}
use row.Tx.Retry.{RetryPolicy, default_retry_policy, attempts_of, in_tx_retry}
use row.Tx.Backoff.{doubled, panics, in_tx_retry-panics, in_tx_retry-count}

-- a database that is the stack of its savepoints, and a dialect that does not quote
abbrev run_savepoint : Bytes → List Bytes → List Bytes
run_savepoint (c ∷ c' ∷ s) w =
    if c == b'S' then drop 8 s ∷ w else (if c' == b'E' then drop 1 w else w)
run_savepoint _ w = w

abbrev savepoints : Database (List Bytes)
savepoints = record {
  begin = λ w. (w, none);
  commit = λ w. (w, none);
  rollback = λ w. (w, none);
  exec = λ s w. (run_savepoint s w, none);
  is_tx_done = λ e. false;
  err_text = λ e. [];
}

abbrev unquoted : Dialect
unquoted = record sqlite { quote_ident = λ name. name }

savepoints-IsSavepoints : IsSavepoints savepoints unquoted (λ w. w)
savepoints-IsSavepoints = record {
  opens = λ n w h. refl;
  keeps = λ n rest w e h. e;
  releases = λ n rest w e h. ap (drop 1) e;
}

abbrev quiet : {W : Type 0} → Body W
quiet tx v = (v, returned none)

abbrev outermost : Tx
outermost = record { savepoint = []; depth = 0 }

abbrev one_open : World (List Bytes)
one_open = record { seq = 4; outer = codes "row_sp_4" ∷ [] }

nest-stack_example :
    (nest savepoints unquoted outermost quiet one_open).0.outer ≡ codes "row_sp_4" ∷ []
unfolding row.Errors.wrap
nest-stack_example =
    nest-stack savepoints unquoted (λ w. w) savepoints-IsSavepoints outermost quiet one_open
      (λ tx v. refl) (unfold nest in refl)

-- a database that counts its open transactions
abbrev counted : Database ℕ
counted = record {
  begin = λ w. (w + 1, none);
  commit = λ w. (w - 1, none);
  rollback = λ w. (w - 1, none);
  exec = λ s w. (w, none);
  is_tx_done = λ e. false;
  err_text = λ e. [];
}

counted-IsTransactions : IsTransactions counted (λ w. w)
counted-IsTransactions = record {
  begins = λ w h. refl;
  refuses = λ w e h. cc;
  commits = λ w. refl;
  rolls_back = λ w. refl;
}

-- a body that panics
abbrev panicking : Body ℕ
panicking tx v = (v, panicked)

in_tx-count_example :
    (in_tx counted sqlite beginner false panicking (record { seq = 0; outer = 3 })).0.outer ≡ 3
in_tx-count_example =
    in_tx-count counted sqlite (λ w. w) counted-IsTransactions false panicking
      (record { seq = 0; outer = 3 }) (λ tx v. refl)

-- an attempt that counts itself, and finds the database locked
abbrev locked : ℕ → ℕ × Outcome
locked n = (n + 1, returned (some (row_error [] [] busy (other 0))))

abbrev no_wait : ℕ → ℕ → ℕ × Option Err
no_wait bound w = (w, none)

all_tried : (in_tx_retry locked no_wait default_retry_policy 0).0 ≡ 5
unfolding in_tx_retry row.Errors.retryable row.Errors.code_of
all_tried = refl

in_tx_retry-panics_example : panics (in_tx_retry locked no_wait default_retry_policy 0).1 ≡ false
in_tx_retry-panics_example =
    in_tx_retry-panics locked no_wait default_retry_policy 0 (λ v. refl) (omega arith)
      (unfold doubled in omega arith)

in_tx_retry-count_example :
    (0 + 1 ≤ (in_tx_retry locked no_wait default_retry_policy 0).0)
    × ((in_tx_retry locked no_wait default_retry_policy 0).0 ≤ 0 + attempts_of default_retry_policy)
in_tx_retry-count_example =
    in_tx_retry-count locked no_wait default_retry_policy (λ w. w) (λ v. refl) (λ n v. refl) 0

-- With a first delay of 2 ^ 62 nanoseconds the second round asks for a random number below zero,
-- whatever the cap.
abbrev long_policy : RetryPolicy
long_policy = record { attempts = 3; base_delay = 2 ^ 62; max_delay = 1000 }

delay_overflows : panics (in_tx_retry locked no_wait long_policy 0).1 ≡ true
unfolding in_tx_retry row.Errors.retryable row.Errors.code_of
delay_overflows = refl
