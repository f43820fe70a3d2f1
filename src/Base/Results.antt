-- ===== src/Base/Results.antt =====
-- `Result<T, E>` and its `?`.
use mathlib.Core.Path.{◌≡◌, refl}
use mathlib.Core.Logic.{◌≢◌, ◌⊎◌, inl, inr}
use mathlib.Core.Bool.{Bool, true, false}
use mathlib.Core.Option.{Option, none, some}

pub data Result {ℓ} (E A : Type ℓ) : Type ℓ where
  ok : A → Result E A
  err : E → Result E A

infixl 5 ◌>>=◌ ◌>>◌
abbrev pub ◌>>=◌ {ℓ} : {E A B : Type ℓ} → Result E A → (A → Result E B) → Result E B
ok a >>= f = f a
err e >>= f = err e

abbrev pub ◌>>◌ {ℓ} : {E B : Type ℓ} → Result E (Unit {ℓ}) → Result E B → Result E B
m >> k = m >>= λ _. k

-- `if failed { return Err(e) }`
abbrev pub refuse {ℓ} : {E : Type ℓ} → Bool → E → Result E (Unit {ℓ})
refuse true e = err e
refuse false e = ok tt

-- `ok_or(e)?`
abbrev pub ok_or {ℓ} : {E A : Type ℓ} → Option A → E → Result E A
ok_or none e = err e
ok_or (some a) e = ok a

abbrev pub map_err {ℓ} : {E F A : Type ℓ} → (E → F) → Result E A → Result F A
map_err f (ok a) = ok a
map_err f (err e) = err (f e)

-- What a transaction leaves, without its result.
abbrev pub store_of {ℓ} : {E A B : Type ℓ} → Result E (A × B) → Result E B
store_of (ok p) = ok p.1
store_of (err e) = err e

-- A refused call is rolled back.
abbrev pub kept {ℓ} : {E S : Type ℓ} → S → Result E S → S
kept s (ok u) = u
kept s (err e) = s

pub >>=-eq-ok {ℓ} :
    {E A B : Type ℓ} (m : Result E A) (next : A → Result E B) {last : B}
    → (m >>= next) ≡ ok last
    → (mid : A) × (m ≡ ok mid) × (next mid ≡ ok last)
>>=-eq-ok (err e) next done = cc
>>=-eq-ok (ok mid) next done = (mid, refl, done)

pub Result-cases {ℓ} :
    {E A : Type ℓ} (m : Result E A) → ((a : A) × (m ≡ ok a)) ⊎ ((e : E) × (m ≡ err e))
Result-cases (ok a) = inl (a, refl)
Result-cases (err e) = inr (e, refl)

-- A chain of steps fails with an error only where a step does.
pub bind-fails {ℓ} :
    {E A B : Type ℓ} (m : Result E A) (k : A → Result E B) (x : E)
    → m ≢ err x
    → ((a : A) → k a ≢ err x)
    → (m >>= k) ≢ err x
bind-fails (ok a) k x here later h = later a h
bind-fails (err e) k x here later h = here (cc)
