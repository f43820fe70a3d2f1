-- ===== src/Base/Counts.antt =====
-- Lemmas on the queries and updates of tables: how many rows match, and which is found.
use Prim.Native.Nat.{◌≤◌}
use mathlib.Core.Bool.{Bool, false, not, true, ◌&&◌, ◌||◌}
use mathlib.Core.Option.{none, some}
use mathlib.Core.List.{List, [], ◌∷◌}
use mathlib.Core.Path.{ap, refl, subst, ◌≡◌}
use mathlib.Core.Logic.{inl, inr}
use native.Mathlib.Omega.{arith}
use brgr.Base.Tests.{Bool-cases}
use brgr.Base.Tables.{All, All-map, any, any→All, count, find?, update}

pub count-none {ℓ} : {A : Type ℓ} (p : A → Bool) (xs : List A) → any p xs ≡ false → count p xs ≡ 0
count-none p [] h = refl
count-none p (x ∷ xs) h = let rest = count-none p xs (ground arith) in ground arith

-- An update that makes no row match makes no more rows match.
pub count-update {ℓ} :
    {A : Type ℓ} (p q : A → Bool) (f : A → A) (xs : List A)
    → All (λ x. q x ≡ true → p (f x) ≡ true → p x ≡ true) xs
    → count p (update q f xs) ≤ count p xs
count-update p q f [] h = ground arith
count-update p q f (x ∷ xs) h =
    let rest = count-update p q f xs h.1 in
    elim (Bool-cases (q x)) [
      | inr other ↦ ground arith
      | inl hit ↦ elim (Bool-cases (p (f x))) [
        | inr out ↦ ground arith
        | inl in_ ↦ let was = h.0 hit in_ in ground arith
      ]
    ]

pub find-none {ℓ} : {A : Type ℓ} (p : A → Bool) (xs : List A) → any p xs ≡ false → find? p xs ≡ none
find-none p [] h = refl
find-none p (x ∷ xs) h = let rest = find-none p xs (ground arith) in ground arith

pub find-any {ℓ} : {A : Type ℓ} (p : A → Bool) (xs : List A) → find? p xs ≡ none → any p xs ≡ false
find-any p [] h = refl
find-any p (x ∷ xs) h = elim (Bool-cases (p x)) [
  | inl hit ↦ absurd (ground arith)
  | inr out ↦ let rest = find-any p xs (ground arith) in ground arith
]

pub found_id {ℓ} :
    {A : Type ℓ} (p : A → Bool) (xs : List A) (x : A) → find? p xs ≡ some x → p x ≡ true
found_id p [] x h = cc
found_id p (y ∷ ys) x h = elim (Bool-cases (p y)) [
  | inl hit ↦ ground arith
  | inr out ↦ found_id p ys x (ground arith)
]

pub find-cong {ℓ} :
    {A : Type ℓ} (p q : A → Bool) (xs : List A) → All (λ x. p x ≡ q x) xs → find? p xs ≡ find? q xs
find-cong p q [] h = refl
find-cong p q (x ∷ xs) h =
    let rest = find-cong p q xs h.1 in
    let here = h.0 in elim (Bool-cases (p x)) [ inl hit ↦ ground arith | inr out ↦ ground arith ]

count-zero {ℓ} : {A : Type ℓ} (p : A → Bool) (xs : List A) → count p xs ≤ 0 → any p xs ≡ false
count-zero p [] h = refl
count-zero p (x ∷ xs) h = elim (Bool-cases (p x)) [
  | inl hit ↦ absurd (ground arith)
  | inr out ↦ let rest = count-zero p xs (ground arith) in ground arith
]

-- Where at most one row matches, every row that matches is the one found.
pub sole-All {ℓ} :
    {A : Type ℓ} (p : A → Bool) (xs : List A) (t : A)
    → count p xs ≤ 1
    → find? p xs ≡ some t
    → All (λ x. p x ≡ true → x ≡ t) xs
sole-All p [] t few found = tt
sole-All p (x ∷ xs) t few found = elim (Bool-cases (p x)) [
  | inl hit ↦
      let empty = count-zero p xs (ground arith) in
      (λ h. ground arith, All-map xs (λ y out h. absurd (ground arith)) (any→All p xs empty))
  | inr out ↦ (λ h. absurd (ground arith), sole-All p xs t (ground arith) (ground arith))
]

pub All-of {ℓ κ} : {A : Type ℓ} {P : A → Type κ} (xs : List A) → ((x : A) → P x) → All P xs
All-of [] f = tt
All-of (x ∷ xs) f = (f x, All-of xs f)

pub some_inj {ℓ} : {A : Type ℓ} (x y : A) → some x ≡ some y → x ≡ y
some_inj x y h = cc

pub found-All {ℓ κ} :
    {A : Type ℓ} (Q : A → Type κ) (p : A → Bool) (xs : List A) (t : A)
    → find? p xs ≡ some t
    → All Q xs
    → Q t
found-All Q p [] t found h = cc
found-All Q p (x ∷ xs) t found h = elim (Bool-cases (p x)) [
  | inl hit ↦ subst Q (some_inj x t (ground arith)) h.0
  | inr out ↦ found-All Q p xs t (ground arith) h.1
]

-- An update that leaves a test alone on every row leaves the queries of that test alone.
pub any-update {ℓ} :
    {A : Type ℓ} (p q : A → Bool) (f : A → A) (xs : List A)
    → ((x : A) → p (f x) ≡ p x)
    → any p (update q f xs) ≡ any p xs
any-update p q f [] same = refl
any-update p q f (x ∷ xs) same =
    let rest = any-update p q f xs same in
    let here = same x in elim (Bool-cases (q x)) [ inl hit ↦ ground arith | inr out ↦ ground arith ]

pub found-any {ℓ} :
    {A : Type ℓ} (p q : A → Bool) (xs : List A) (x : A)
    → find? p xs ≡ some x
    → q x ≡ true
    → any q xs ≡ true
found-any p q [] x found hit = cc
found-any p q (y ∷ ys) x found hit = elim (Bool-cases (p y)) [
  | inl here ↦ let same = some_inj y x (ground arith) in let holds = ap q same in ground arith
  | inr there ↦ let rest = found-any p q ys x (ground arith) hit in ground arith
]

-- After an update, what it makes of a row holds of every row that still matches.
pub update-holds {ℓ} :
    {A : Type ℓ} (q r : A → Bool) (f : A → A) (xs : List A)
    → ((x : A) → r (f x) ≡ true)
    → All (λ x. not (q x) || r x ≡ true) (update q f xs)
update-holds q r f [] made = tt
update-holds q r f (x ∷ xs) made =
    let here = made x in
    elim (Bool-cases (q x)) [
      | inl hit ↦ (ground arith, update-holds q r f xs made)
      | inr out ↦ (ground arith, update-holds q r f xs made)
    ]

-- An update leaves no match of a test that its rows fail and that matches only rows it changes.
pub update-none {ℓ} :
    {A : Type ℓ} (d q : A → Bool) (f : A → A) (xs : List A)
    → ((x : A) → d (f x) ≡ false)
    → ((x : A) → d x && not (q x) ≡ false)
    → any d (update q f xs) ≡ false
update-none d q f [] fails within = refl
update-none d q f (x ∷ xs) fails within =
    let rest = update-none d q f xs fails within in
    let made = fails x in
    let only = within x in
    elim (Bool-cases (q x)) [ inl hit ↦ ground arith | inr out ↦ ground arith ]

pub count_mono {ℓ} :
    {A : Type ℓ} (d q : A → Bool) (xs : List A)
    → ((x : A) → d x && not (q x) ≡ false)
    → count d xs ≤ count q xs
count_mono d q [] within = ground arith
count_mono d q (x ∷ xs) within =
    let rest = count_mono d q xs within in
    let only = within x in
    elim (Bool-cases (d x)) [
      | inl hit ↦ ground arith
      | inr out ↦ elim (Bool-cases (q x)) [ inl a ↦ ground arith | inr b ↦ ground arith ]
    ]

-- Where one row matches the wider test at most, and one the narrower, they are the same row.
pub count-sole {ℓ} :
    {A : Type ℓ} (d q : A → Bool) (xs : List A)
    → ((x : A) → d x && not (q x) ≡ false)
    → count q xs ≤ 1
    → count d xs ≡ 1
    → All (λ x. q x && not (d x) ≡ false) xs
count-sole d q [] within few one = tt
count-sole d q (x ∷ xs) within few one =
    let only = within x in
    let less = count_mono d q xs within in
    elim (Bool-cases (d x)) [
      | inl hit ↦
          let none_ = count-zero q xs (ground arith) in
          (ground arith, All-map xs (λ y out. ground arith) (any→All q xs none_))
      | inr out ↦ elim (Bool-cases (q x)) [
        | inl wide ↦ absurd (ground arith)
        | inr narrow ↦ (ground arith, count-sole d q xs within (ground arith) (ground arith))
      ]
    ]

-- An update of the rows that match, which its rows no longer do.
pub update-turns {ℓ} :
    {A : Type ℓ} (d q : A → Bool) (f : A → A) (r : A → Bool) (xs : List A)
    → ((x : A) → r (f x) ≡ true)
    → All (λ x. q x && not (d x) ≡ false) xs
    → All (λ x. q x && not (r x) ≡ false) (update d f xs)
update-turns d q f r [] made h = tt
update-turns d q f r (x ∷ xs) made (here, rest) =
    let turned = made x in
    elim (Bool-cases (d x)) [
      | inl hit ↦ (ground arith, update-turns d q f r xs made rest)
      | inr out ↦ (ground arith, update-turns d q f r xs made rest)
    ]
