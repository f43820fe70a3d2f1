-- ===== src/Store/Takeover/OneOpen.antt =====
-- An owner has at most one handoff under way.
use text.Mathlib.TextEquality.{eq_iff}
use brgr.Base.{
  All-map, All-of, Bool, Bool-cases, List, Option, Result-cases, String, [], arith, count,
  count-none, count-update, false, find-any, find?, inl, inr, kept, list_eq, nat_beq_iff, nat_eq,
  none, not, option_eq, refl, sole-All, some, string_eq, subst, sym, true, update, ℕ, ◌&&◌, ◌==◌,
  ◌∷◌, ◌≡◌, ◌≤◌,
}
use brgr.Protocol.{OwnerId, outcome_eq, state_eq}
use brgr.Store.{
  Platform, Store, TakeoverRow, TakeoverState, committed, resumed, run_state_eq, takeover_beq_iff,
  takeover_state_eq,
}
use brgr.Store.Takeovers.{allows, is_terminal, row_of}
use brgr.Store.Takeover.{open_takeover}
use brgr.Store.Takeover.Moves.{
  Step, TakeoverCall, idle, move, moved, perform, perform-Step, start, wake, woken,
}

-- The rows of the index `one_open_takeover_per_owner`.
unfoldable pub is_open : OwnerId → TakeoverRow → Bool
is_open owner t = t.owner_id == owner && not (is_terminal t.state)

abbrev pub has_id : ℕ → TakeoverRow → Bool
has_id id t = t.takeover_id == id

pub record IsOrderly (s : Store) : Type 0 where
  pub one_open : (owner : OwnerId) → count (is_open owner) s.head_takeovers ≤ 1
  pub one_row : (id : ℕ) → count (has_id id) s.head_takeovers ≤ 1

allows_start : (a b : TakeoverState) → allows a b ≡ true → is_terminal a ≡ false
unfolding allows is_terminal
allows_start a b h = ground arith

moved_open :
    (owner : OwnerId) (id : ℕ) (t : TakeoverRow) (to : TakeoverState) (reason : Option String)
    (xs : List TakeoverRow)
    → count (has_id id) xs ≤ 1
    → find? (has_id id) xs ≡ some t
    → is_terminal t.state ≡ false
    → count (is_open owner) (moved id to reason xs) ≤ count (is_open owner) xs
unfolding is_open
moved_open owner id t to reason xs few found open_ =
    count-update (is_open owner) (has_id id) (λ x. record x { state = to; failure_reason = reason })
      xs
      (All-map xs (λ x only hit now. let same = only hit in ground arith)
        (sole-All (has_id id) xs t few found))

woken_open :
    (owner : OwnerId) (id : ℕ) (xs : List TakeoverRow)
    → count (is_open owner) (woken id xs) ≤ count (is_open owner) xs
unfolding is_open is_terminal
woken_open owner id xs =
    count-update (is_open owner) (λ t. t.takeover_id == id && t.state == committed)
      (λ t. record t { state = resumed }) xs
      (All-of xs (λ t hit now. ground (arith, takeover_beq_iff t.state committed)))

same_id :
    (wanted : ℕ) (q : TakeoverRow → Bool) (f : TakeoverRow → TakeoverRow) (xs : List TakeoverRow)
    → ((t : TakeoverRow) → (f t).takeover_id ≡ t.takeover_id)
    → count (has_id wanted) (update q f xs) ≤ count (has_id wanted) xs
same_id wanted q f xs h =
    count-update (has_id wanted) q f xs (All-of xs (λ t hit now. let same = h t in ground arith))

started_open :
    (s : Store) (owner : OwnerId) (row : TakeoverRow)
    → open_takeover s row.owner_id ≡ none
    → count (is_open owner) s.head_takeovers ≤ 1
    → count (is_open owner) (row ∷ s.head_takeovers) ≤ 1
unfolding is_open open_takeover
started_open s owner row free h = elim (Bool-cases (row.owner_id == owner)) [
  | inr other ↦ ground arith
  | inl here ↦
      let same = (eq_iff row.owner_id owner).0 here in
      let empty = count-none (is_open owner) s.head_takeovers (
        find-any (is_open owner) s.head_takeovers
          (subst (λ o. find? (is_open o) s.head_takeovers ≡ none) same free)) in
      ground arith
]

started_id :
    (s : Store) (id : ℕ) (row : TakeoverRow)
    → row_of s row.takeover_id ≡ none
    → count (has_id id) s.head_takeovers ≤ 1
    → count (has_id id) (row ∷ s.head_takeovers) ≤ 1
unfolding row_of
started_id s id row free h = elim (Bool-cases (row.takeover_id == id)) [
  | inr other ↦ ground arith
  | inl here ↦
      let same = (nat_beq_iff row.takeover_id id).0 here in
      let empty = count-none (has_id id) s.head_takeovers (
        find-any (has_id id) s.head_takeovers
          (subst (λ o. find? (has_id o) s.head_takeovers ≡ none) same free)) in
      ground arith
]

one_open-Step :
    (s u : Store) (owner : OwnerId)
    → IsOrderly s
    → Step s u
    → count (is_open owner) u.head_takeovers ≤ 1
unfolding row_of
one_open-Step s u owner h (idle rows trail) = let old = h.one_open owner in ground arith
one_open-Step s u owner h (start row fresh new free rows trail) =
    let more = started_open s owner row free (h.one_open owner) in ground arith
one_open-Step s u owner h (move id t to reason detail found legal other rows trail) =
    let old = h.one_open owner in
    let fewer =
      moved_open owner id t to reason s.head_takeovers (h.one_row id) found
        (allows_start t.state to legal) in
    ground arith
one_open-Step s u owner h (wake t b o session epoch waits seen rows trail) =
    let old = h.one_open owner in
    let fewer = woken_open owner t.takeover_id s.head_takeovers in ground arith

one_row-Step :
    (s u : Store) (id : ℕ) → IsOrderly s → Step s u → count (has_id id) u.head_takeovers ≤ 1
one_row-Step s u id h (idle rows trail) = let old = h.one_row id in ground arith
one_row-Step s u id h (start row fresh new free rows trail) =
    let more = started_id s id row new (h.one_row id) in ground arith
one_row-Step s u id h (move at t to reason detail found legal other rows trail) =
    let old = h.one_row id in
    let fewer =
      same_id id (has_id at) (λ x. record x { state = to; failure_reason = reason })
        s.head_takeovers (λ x. refl) in
    ground arith
one_row-Step s u id h (wake t b o session epoch waits seen rows trail) =
    let old = h.one_row id in
    let fewer =
      same_id id (λ x. x.takeover_id == t.takeover_id && x.state == committed)
        (λ x. record x { state = resumed }) s.head_takeovers (λ x. refl) in
    ground arith

pub IsOrderly-Step : (s u : Store) → IsOrderly s → Step s u → IsOrderly u
IsOrderly-Step s u h step = record {
  one_open = λ owner. one_open-Step s u owner h step;
  one_row = λ id. one_row-Step s u id h step;
}

unfoldable pub after : Platform → Store → List TakeoverCall → Store
after p s [] = s
after p s (c ∷ cs) = after p (kept s (perform p s c)) cs

kept-IsOrderly :
    (p : Platform) (s : Store) (c : TakeoverCall) → IsOrderly s → IsOrderly (kept s (perform p s c))
kept-IsOrderly p s c h = elim (Result-cases (perform p s c)) [
  | inr (x, refused) ↦ subst (λ m. IsOrderly (kept s m)) (sym refused) h
  | inl (u, done) ↦
      subst (λ m. IsOrderly (kept s m)) (sym done)
        (IsOrderly-Step s u h ((perform-Step p s u c done).0))
]

-- Whatever calls of `TakeoverCall`, so all but the claim of an abandoned head, are made on the
-- handoffs of an orderly store, refused or not: no owner has two handoffs that are not in a final
-- state, and no two handoffs have one id.
pub after-IsOrderly :
    (p : Platform) (s : Store) (cs : List TakeoverCall) → IsOrderly s → IsOrderly (after p s cs)
unfolding after
after-IsOrderly p s [] h = h
after-IsOrderly p s (c ∷ cs) h =
    after-IsOrderly p (kept s (perform p s c)) cs (kept-IsOrderly p s c h)
