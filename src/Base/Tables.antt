-- ===== src/Base/Tables.antt =====
-- A table of the store: its rows, the newest first, and the queries that the store makes.
use Prim.Native.Nat.{ℕ, suc}
use mathlib.Core.Bool.{Bool, true, false, ◌&&◌, ◌||◌}
use mathlib.Core.Option.{Option, none, some}
use mathlib.Core.List.{List, [], ◌∷◌, ◌++◌}
use mathlib.Core.Path.{◌≡◌, refl}
use native.Mathlib.Omega.{arith}
use mathlib.Core.Logic.{◌↔◌}
use brgr.Base.Tests.{if◌then◌else◌, Eq}

module _ {ℓ} {A : Type ℓ} where
  abbrev pub length : List A → ℕ
  length [] = 0
  length (x ∷ xs) = suc (length xs)

  abbrev pub is_empty : List A → Bool
  is_empty [] = true
  is_empty (x ∷ xs) = false

  -- SELECT … ORDER BY rowid DESC LIMIT 1
  abbrev pub find? : (A → Bool) → List A → Option A
  find? p [] = none
  find? p (x ∷ xs) = if p x then some x else find? p xs

  -- SELECT EXISTS(…)
  abbrev pub any : (A → Bool) → List A → Bool
  any p [] = false
  any p (x ∷ xs) = p x || any p xs

  abbrev pub all : (A → Bool) → List A → Bool
  all p [] = true
  all p (x ∷ xs) = p x && all p xs

  -- SELECT COUNT(*)
  abbrev pub count : (A → Bool) → List A → ℕ
  count p [] = 0
  count p (x ∷ xs) = let rest = count p xs in if p x then suc rest else rest

  abbrev pub filter : (A → Bool) → List A → List A
  filter p [] = []
  filter p (x ∷ xs) = let rest = filter p xs in if p x then x ∷ rest else rest

  -- UPDATE … WHERE
  abbrev pub update : (A → Bool) → (A → A) → List A → List A
  update p f [] = []
  update p f (x ∷ xs) = (if p x then f x else x) ∷ update p f xs

abbrev pub All {ℓ κ} : {A : Type ℓ} → (A → Type κ) → List A → Type κ
All P [] = Unit
All P (x ∷ xs) = P x × All P xs

module _ {ℓ} {A : Type ℓ} (p : A → Bool) where
  pub any→All : (xs : List A) → any p xs ≡ false → All (λ x. p x ≡ false) xs
  any→All [] h = tt
  any→All (x ∷ xs) h = (ground arith, any→All xs (ground arith))

  pub All→any : (xs : List A) → All (λ x. p x ≡ false) xs → any p xs ≡ false
  All→any [] h = refl
  All→any (x ∷ xs) h = ground (arith, All→any xs h.1)

  pub all→All : (xs : List A) → all p xs ≡ true → All (λ x. p x ≡ true) xs
  all→All [] h = tt
  all→All (x ∷ xs) h = (ground arith, all→All xs (ground arith))

  pub All→all : (xs : List A) → All (λ x. p x ≡ true) xs → all p xs ≡ true
  All→all [] h = refl
  All→all (x ∷ xs) h = ground (arith, All→all xs h.1)

pub All-map {ℓ κ μ} :
    {A : Type ℓ} {P : A → Type κ} {Q : A → Type μ} (xs : List A)
    → ((x : A) → P x → Q x)
    → All P xs
    → All Q xs
All-map [] f h = tt
All-map (x ∷ xs) f h = (f x h.0, All-map xs f h.1)

pub All-append {ℓ κ} :
    {A : Type ℓ} (P : A → Type κ) (xs ys : List A) → All P xs → All P ys → All P (xs ++ ys)
All-append P [] ys h k = k
All-append P (x ∷ xs) ys h k = (h.0, All-append P xs ys h.1 k)

pub All-append_left {ℓ κ} :
    {A : Type ℓ} (P : A → Type κ) (xs ys : List A) → All P (xs ++ ys) → All P xs
All-append_left P [] ys h = tt
All-append_left P (x ∷ xs) ys h = (h.0, All-append_left P xs ys h.1)

pub All-append_right {ℓ κ} :
    {A : Type ℓ} (P : A → Type κ) (xs ys : List A) → All P (xs ++ ys) → All P ys
All-append_right P [] ys h = h
All-append_right P (x ∷ xs) ys h = All-append_right P xs ys h.1

abbrev pub list_beq {ℓ} : {A : Type ℓ} → (A → A → Bool) → List A → List A → Bool
list_beq beq [] [] = true
list_beq beq [] (y ∷ ys) = false
list_beq beq (x ∷ xs) [] = false
list_beq beq (x ∷ xs) (y ∷ ys) = beq x y && list_beq beq xs ys

pub list_beq_iff {ℓ} :
    {A : Type ℓ} (e : Eq A) (xs ys : List A) → (list_beq e.beq xs ys ≡ true) ↔ (xs ≡ ys)
list_beq_iff e [] [] = (λ h. refl, λ h. refl)
list_beq_iff e [] (y ∷ ys) = (λ h. cc, λ h. cc)
list_beq_iff e (x ∷ xs) [] = (λ h. cc, λ h. cc)
list_beq_iff e (x ∷ xs) (y ∷ ys) = (
  λ h.
      let head = (e.beq_iff x y).0 (ground arith) in
      let tail = (list_beq_iff e xs ys).0 (ground arith) in cc,
  λ h.
      let head = (e.beq_iff x y).1 (cc) in let tail = (list_beq_iff e xs ys).1 (cc) in ground arith,
)

instance abbrev pub list_eq {ℓ} : {A : Type ℓ} ⦃e : Eq A⦄ → Eq (List A)
list_eq ⦃e⦄ = record { beq = list_beq e.beq; beq_iff = list_beq_iff e }
