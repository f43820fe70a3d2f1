-- ===== src/Store/Contention/Bounded.antt =====
-- The retry returns: its delays use up the budget, and what it returns is the last call's outcome.
use brgr.Base.{
  Bool-cases, ap, arith, false, inl, inr, ltb, refl, some, some_inj, subst, suc, true, zero, ℕ,
  ◌&&◌, ◌+◌, ◌-◌, ◌<◌, ◌≡◌, ◌≤◌,
}
use brgr.Store.Contention.{
  Call, Returned, busy_retry_backoff, busy_retry_budget, contended, min, next_delay, retry_busy,
  retry_busy_within, retry_loop,
}

-- The sum of the first k delays.
abbrev pub delays : ℕ → ℕ → ℕ
delays zero delay = 0
delays (suc k) delay = delay + delays k (next_delay delay)

-- The calls before the n-th one, down to the m-th, contended.
abbrev pub Contended : {A : Type 0} → (ℕ → Call A) → ℕ → ℕ → Type 0
Contended operation m zero = Unit
Contended operation m (suc k) =
    (contended (operation m).outcome ≡ true) × Contended operation (m + 1) k

module _ {A : Type 0} (operation : ℕ → Call A) (deadline : ℕ) where
  loop-returns :
      (k start delay n : ℕ)
      → deadline ≤ start + delays k delay
      → (r : Returned A) × (retry_loop operation deadline (suc k) start delay n ≡ some r)
        × (n < r.calls)
        × (r.calls ≤ n + suc k)
  unfolding retry_loop
  loop-returns zero start delay n enough = (
    record { outcome = (operation n).outcome; calls = n + 1; at = start + (operation n).took },
    ground arith,
    ground arith,
    ground arith,
  )
  loop-returns (suc k) start delay n enough =
      let call = operation n in
      let now = start + call.took in
      elim (Bool-cases (contended call.outcome && ltb now deadline)) [
        | inr stops ↦ (
          record { outcome = call.outcome; calls = n + 1; at = now },
          ground arith,
          ground arith,
          ground arith,
        )
        | inl waits ↦
            let (r, returns, after_, few) =
              loop-returns k (now + min delay (deadline - now) + call.overslept) (next_delay delay)
                (n + 1) (ground arith) in
            (r, ground arith, ground arith, ground arith)
      ]

  -- The calls n to n + k - 1 contended, and the one after them is the one returned: it did not
  -- contend, or the deadline had come.
  abbrev pub IsFirst : ℕ → Returned A → Type 0
  IsFirst n r =
      (k last : ℕ) × (last ≡ n + k)
      × (r.calls ≡ last + 1)
      × (r.outcome ≡ (operation last).outcome)
      × Contended operation n k
      × (contended r.outcome && ltb r.at deadline ≡ false)

  pub loop-IsFirst :
      (fuel start delay n : ℕ) (r : Returned A)
      → retry_loop operation deadline fuel start delay n ≡ some r
      → IsFirst n r
  unfolding retry_loop
  loop-IsFirst zero start delay n r h = absurd (ground arith)
  loop-IsFirst (suc fuel) start delay n r h =
      let call = operation n in
      let now = start + call.took in
      elim (Bool-cases (contended call.outcome && ltb now deadline)) [
        | inr stops ↦
            let last : Returned A = record { outcome = call.outcome; calls = n + 1; at = now } in
            subst (IsFirst n) (some_inj last r (ground arith))
              (0, n, ground arith, refl, refl, tt, stops)
        | inl waits ↦
            let (k, last, sum, many, is, before, late) =
              loop-IsFirst fuel (now + min delay (deadline - now) + call.overslept)
                (next_delay delay) (n + 1) r (ground arith) in
            (suc k, last, ground arith, many, is, (ground arith, before), late)
      ]

  -- From the n-th call on, k calls contend before the deadline, and the next one does not contend.
  abbrev pub Clears : ℕ → ℕ → ℕ → ℕ → Type 0
  Clears zero start delay n = contended (operation n).outcome ≡ false
  Clears (suc k) start delay n =
      let now = start + (operation n).took in
      (contended (operation n).outcome ≡ true)
      × (now < deadline)
      × Clears k (now + min delay (deadline - now) + (operation n).overslept) (next_delay delay)
          (n + 1)

  loop-Clears :
      (k fuel start delay n last : ℕ)
      → k < fuel
      → last ≡ n + k
      → Clears k start delay n
      → (r : Returned A) × (retry_loop operation deadline fuel start delay n ≡ some r)
        × (r.outcome ≡ (operation last).outcome)
        × (r.calls ≡ last + 1)
  unfolding retry_loop
  loop-Clears k zero start delay n last less sum h = absurd (ground arith)
  loop-Clears zero (suc fuel) start delay n last less sum h =
      let same : n ≡ last = ground arith in
      (
        record { outcome = (operation n).outcome; calls = n + 1; at = start + (operation n).took },
        ground arith,
        ap (λ i. (operation i).outcome) same,
        ap (λ i. i + 1) same,
      )
  loop-Clears (suc k) (suc fuel) start delay n last less sum (waits, early, rest) =
      let now = start + (operation n).took in
      let (r, returns, is, many) =
        loop-Clears k fuel (now + min delay (deadline - now) + (operation n).overslept)
          (next_delay delay) (n + 1) last (ground arith) (ground arith) rest in
      (r, ground arith, is, many)

-- Whatever the operation does, the retry returns: once the first k delays add up to the budget, it
-- makes k + 1 calls at most.
retry_busy_within-returns :
    {A : Type 0} (operation : ℕ → Call A) (budget k : ℕ)
    → budget ≤ delays k busy_retry_backoff
    → (r : Returned A) × (retry_busy_within (k + 1) budget operation ≡ some r) × (r.calls ≤ k + 1)
unfolding retry_busy_within
retry_busy_within-returns operation budget k enough =
    let (r, returns, some_, few) =
      loop-returns operation budget k 0 busy_retry_backoff 0 (ground arith) in
    (r, ground arith, ground arith)

-- Of the retry with the budget of the store, 47 calls are the most: it returns for every operation.
pub retry_busy-returns :
    {A : Type 0} (operation : ℕ → Call A)
    → (r : Returned A) × (retry_busy 47 operation ≡ some r) × (r.calls ≤ 47)
unfolding retry_busy
retry_busy-returns operation =
    retry_busy_within-returns operation busy_retry_budget 46 (ground arith)

-- What the retry returns is what its last call returned, and every call before that one failed on a
-- lock. An error of a lock is returned only once the budget is used up; every other outcome is
-- returned where it first comes.
pub retry_busy_within-IsFirst :
    {A : Type 0} (operation : ℕ → Call A) (fuel budget : ℕ) (r : Returned A)
    → retry_busy_within fuel budget operation ≡ some r
    → IsFirst operation budget 0 r
unfolding retry_busy_within
retry_busy_within-IsFirst operation fuel budget r h =
    loop-IsFirst operation budget fuel 0 busy_retry_backoff 0 r h

-- When k calls fail on a lock before the budget is used up and the next one does not, the retry
-- returns the outcome of that one, after k + 1 calls.
pub retry_busy_within-Clears :
    {A : Type 0} (operation : ℕ → Call A) (fuel budget k : ℕ)
    → k < fuel
    → Clears operation budget k 0 busy_retry_backoff 0
    → (r : Returned A) × (retry_busy_within fuel budget operation ≡ some r)
      × (r.outcome ≡ (operation k).outcome)
      × (r.calls ≡ k + 1)
unfolding retry_busy_within
retry_busy_within-Clears operation fuel budget k less h =
    loop-Clears operation budget k fuel 0 busy_retry_backoff 0 k less (ground arith) h
