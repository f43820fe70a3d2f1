-- ===== src/Store/Contention.antt =====
-- src/contention.rs: waiting for a lock that another process holds. Times are milliseconds since the
-- retry began.
pub mod Bounded
use brgr.Base.{
  Bool, Option, Result, err, false, if◌then◌else◌, leb, ltb, none, ok, some, suc, true, zero, ℕ,
  ◌&&◌, ◌*◌, ◌+◌, ◌-◌,
}
use brgr.Store.{StoreError, database, database_busy, database_locked, DatabaseError}

abbrev pub busy_retry_budget : ℕ
busy_retry_budget = 10000

abbrev pub busy_retry_backoff : ℕ
busy_retry_backoff = 2

abbrev pub busy_retry_backoff_cap : ℕ
busy_retry_backoff_cap = 250

abbrev is_lock_code : DatabaseError → Bool
is_lock_code database_busy = true
is_lock_code database_locked = true
is_lock_code _ = false

unfoldable pub is_lock_contention : StoreError → Bool
is_lock_contention (database e) = is_lock_code e
is_lock_contention _ = false

abbrev pub min : ℕ → ℕ → ℕ
min a b = if leb a b then a else b

-- `delay.saturating_mul(2).min(BUSY_RETRY_BACKOFF_CAP)`
abbrev pub next_delay : ℕ → ℕ
next_delay delay = min (delay * 2) busy_retry_backoff_cap

-- One call of the operation: what it returns, how long it runs, and how much longer than asked the
-- sleep after it lasts.
pub record Call (A : Type 0) : Type 0 where
  pub outcome : Result StoreError A
  pub took : ℕ
  pub overslept : ℕ

pub record Returned (A : Type 0) : Type 0 where
  pub outcome : Result StoreError A
  pub calls : ℕ
  pub at : ℕ

module _ {A : Type 0} where
  abbrev pub contended : Result StoreError A → Bool
  contended (ok a) = false
  contended (err e) = is_lock_contention e

  -- The loop, from its n-th call on; each pass takes one fuel.
  unfoldable pub retry_loop : (ℕ → Call A) → ℕ → ℕ → ℕ → ℕ → ℕ → Option (Returned A)
  retry_loop operation deadline zero start delay n = none
  retry_loop operation deadline (suc fuel) start delay n =
      let call = operation n in
      let now = start + call.took in
      let rest =
        retry_loop operation deadline fuel (now + min delay (deadline - now) + call.overslept)
          (next_delay delay) (n + 1) in
      if contended call.outcome && ltb now deadline
      then rest
      else some (record { outcome = call.outcome; calls = n + 1; at = now })

  unfoldable pub retry_busy_within : ℕ → ℕ → (ℕ → Call A) → Option (Returned A)
  retry_busy_within fuel budget operation = retry_loop operation budget fuel 0 busy_retry_backoff 0

  unfoldable pub retry_busy : ℕ → (ℕ → Call A) → Option (Returned A)
  retry_busy fuel operation = retry_busy_within fuel busy_retry_budget operation
