-- ===== src/Store/StepKey/Retry.antt =====
-- The key before a retry key, and how a chain of retries ends.
use brgr.Base.{
  ==→≡, Bool-cases, Option-cases, [], all, ap, arith, codes, if◌then◌else◌, inl, inr, length,
  list_eq, nat_eq, none, ok, option_eq, refl, some, string_eq, subst, true, ℕ, ◌++◌, ◌+◌, ◌-◌, ◌==◌,
  ◌∷◌, ◌≡◌, ◌≤◌, ◌⊎◌,
}
use brgr.Store.{run_state_eq, takeover_state_eq}
use brgr.Store.StepKey.{
  Bytes, new_step_key, parse_retry_suffix, retry_key, retry_of, retry_predecessor, split_tilde,
  step_key_max, token_byte, valid_token,
}

split-token :
    (base rest : Bytes)
    → all token_byte base ≡ true
    → split_tilde (base ++ (126 ∷ rest)) ≡ some (base, rest)
unfolding split_tilde token_byte
split-token [] rest h = refl
split-token (c ∷ cs) rest h = let tail = split-token cs rest (ground arith) in ground arith

split-none : (base : Bytes) → all token_byte base ≡ true → split_tilde base ≡ none
unfolding split_tilde token_byte
split-none [] h = refl
split-none (c ∷ cs) h = let tail = split-none cs (ground arith) in ground arith

length-split :
    (key base rest : Bytes)
    → split_tilde key ≡ some (base, rest)
    → length key ≡ length base + 1 + length rest
unfolding split_tilde
length-split [] base rest h = cc
length-split (c ∷ cs) base rest h = elim (Bool-cases (c == 126)) [
  | inl tilde ↦ ground arith
  | inr other ↦ elim (Option-cases (split_tilde cs)) [
    | inl missing ↦ absurd (ground arith)
    | inr ((b, r), found) ↦ let tail = length-split cs b r found in ground arith
  ]
]

length-retry_key : (base : Bytes) (index : ℕ) → length (retry_key base index) ≡ length base + 7
length-retry_key [] index = ground arith
length-retry_key (c ∷ cs) index = let tail = length-retry_key cs index in ground arith

retry_cases :
    (rest : Bytes) (i : ℕ)
    → retry_of rest ≡ some i
    → ((i ≡ 1) ⊎ (i ≡ 2) ⊎ (i ≡ 3)) × (length rest ≡ 6)
unfolding retry_of
retry_cases rest i h = elim (Bool-cases (rest == codes "retry1")) [
  | inl one ↦ (inl (ground arith), ap length (==→≡ rest (codes "retry1") one))
  | inr not_one ↦ elim (Bool-cases (rest == codes "retry2")) [
    | inl two ↦ (inr (inl (ground arith)), ap length (==→≡ rest (codes "retry2") two))
    | inr not_two ↦ elim (Bool-cases (rest == codes "retry3")) [
      | inl three ↦ (inr (inr (ground arith)), ap length (==→≡ rest (codes "retry3") three))
      | inr not_three ↦ absurd (ground arith)
    ]
  ]
]

-- What an accepted retry key is made of.
parsed :
    (key base : Bytes) (i : ℕ)
    → parse_retry_suffix key ≡ some (base, i)
    → (valid_token base step_key_max ≡ true)
      × ((i ≡ 1) ⊎ (i ≡ 2) ⊎ (i ≡ 3))
      × (length base + 7 ≤ step_key_max)
unfolding parse_retry_suffix
parsed key base i h = elim (Option-cases (split_tilde key)) [
  | inl missing ↦ absurd (ground arith)
  | inr ((b, r), found) ↦ elim (Option-cases (retry_of r)) [
    | inl missing ↦ absurd (ground arith)
    | inr (j, known) ↦
        let long = length-split key b r found in
        let (which, six) = retry_cases r j known in
        let both : (b ≡ base) × (j ≡ i) = (ground arith, ground arith) in
        (
          ground arith,
          subst (λ n. (n ≡ 1) ⊎ (n ≡ 2) ⊎ (n ≡ 3)) both.1 which,
          subst (λ l. length l + 7 ≤ step_key_max) both.0 (ground arith),
        )
  ]
]

token_parts : (base : Bytes) (n : ℕ) → valid_token base n ≡ true → all token_byte base ≡ true
unfolding valid_token
token_parts base n h = ground arith

parse-retry_key :
    (base : Bytes) (i : ℕ)
    → valid_token base step_key_max ≡ true
    → length base + 7 ≤ step_key_max
    → retry_of (codes "retry" ++ ((48 + i) ∷ [])) ≡ some i
    → parse_retry_suffix (retry_key base i) ≡ some (base, i)
unfolding parse_retry_suffix
parse-retry_key base i token short known =
    let split =
      split-token base (codes "retry" ++ ((48 + i) ∷ [])) (token_parts base step_key_max token) in
    let long = length-retry_key base i in ground arith

parse-base : (base : Bytes) → valid_token base step_key_max ≡ true → parse_retry_suffix base ≡ none
unfolding parse_retry_suffix
parse-base base token =
    let whole = split-none base (token_parts base step_key_max token) in ground arith

accepted_base : (base : Bytes) → valid_token base step_key_max ≡ true → new_step_key base ≡ ok base
unfolding new_step_key
accepted_base base h = ground arith

accepted_retry :
    (q base : Bytes) (i : ℕ) → parse_retry_suffix q ≡ some (base, i) → new_step_key q ≡ ok q
unfolding new_step_key
accepted_retry q base i h = ground arith

retry_one : retry_of (codes "retry" ++ (48 + 1) ∷ []) ≡ some 1
unfolding retry_of
retry_one = refl

retry_two : retry_of (codes "retry" ++ (48 + 2) ∷ []) ≡ some 2
unfolding retry_of
retry_two = refl

-- The step that a retry key with base `base` and index `i` follows always exists as a key: for
-- index 1 it is the base itself, which is no retry key; for a greater index it is the retry key of
-- the same base with the index before. So the error of `retry_predecessor` never occurs, and a
-- chain of retries ends at its base after as many steps as the index says.
pub retry_predecessor_lem :
    (key base : Bytes) (i : ℕ)
    → parse_retry_suffix key ≡ some (base, i)
    → (q : Bytes) × (retry_predecessor key ≡ ok (some q))
      × (new_step_key q ≡ ok q)
      × (q ≡ (if i == 1 then base else retry_key base (i - 1)))
      × (parse_retry_suffix q ≡ (if i == 1 then none else some (base, i - 1)))
unfolding retry_predecessor
retry_predecessor_lem key base i h =
    let (token, which, short) = parsed key base i h in
    elim which [
      | inl one ↦
          let good = accepted_base base token in
          let plain = parse-base base token in
          (base, ground arith, good, ground arith, ground arith)
      | inr (inl two) ↦
          let again = parse-retry_key base 1 token short retry_one in
          let good = accepted_retry (retry_key base 1) base 1 again in
          (retry_key base 1, ground arith, good, ground arith, ground arith)
      | inr (inr three) ↦
          let again = parse-retry_key base 2 token short retry_two in
          let good = accepted_retry (retry_key base 2) base 2 again in
          (retry_key base 2, ground arith, good, ground arith, ground arith)
    ]
