-- ===== src/Store/Takeover/Trail.antt =====
-- The trail of events tells the state of every handoff.
use brgr.Base.{
  ==_refl, Bool, Bool-cases, List, Option, Option-cases, Result-cases, String, [], any, any→All,
  arith, false, find-any, find?, found-All, found_id, if◌then◌else◌, inl, inr, kept, list_eq,
  nat_beq_iff, nat_eq, none, option_eq, sole-All, some, string_eq, subst, sym, true, ℕ, ◌&&◌, ◌==◌,
  ◌∷◌, ◌≡◌,
}
use brgr.Protocol.{OwnerId, outcome_eq, state_eq}
use brgr.Store.{
  Platform, Store, TakeoverEventRow, TakeoverRow, TakeoverState, committed, requested, resumed,
  run_state_eq, takeover_beq_iff, takeover_state_eq,
}
use brgr.Store.Takeovers.{awaiting, row_of}
use brgr.Store.Takeover.Moves.{
  Step, TakeoverCall, event, idle, move, moved, perform, perform-Step, start, wake, woken,
}
use brgr.Store.Takeover.OneOpen.{IsOrderly, after, has_id, IsOrderly-Step}

unfoldable pub last_event : Store → ℕ → Option TakeoverEventRow
last_event s id = find? (λ e. e.takeover_id == id) s.takeover_events

abbrev state_in : Option TakeoverRow → Option TakeoverState
state_in none = none
state_in (some t) = some t.state

abbrev kind_in : Option TakeoverEventRow → Option TakeoverState
kind_in none = none
kind_in (some e) = some e.kind

-- The state of the row, and the kind of the newest event.
unfoldable pub state_of : Store → ℕ → Option TakeoverState
state_of s id = state_in (row_of s id)

unfoldable pub told : Store → ℕ → Option TakeoverState
told s id = kind_in (last_event s id)

unfoldable pub IsTold : Store → Type 0
IsTold s = (id : ℕ) → told s id ≡ state_of s id

moved_row :
    (id wanted : ℕ) (to : TakeoverState) (reason : Option String) (xs : List TakeoverRow)
    → state_in (find? (has_id wanted) (moved id to reason xs)) ≡ (
        if id == wanted && any (has_id wanted) xs
        then some to
        else state_in (find? (has_id wanted) xs))
moved_row id wanted to reason [] = elim (Bool-cases (id == wanted)) [
  | inl h ↦ ground arith
  | inr h ↦ ground arith
]
moved_row id wanted to reason (x ∷ xs) =
    let rest = moved_row id wanted to reason xs in
    elim (Bool-cases (x.takeover_id == wanted)) [
      | inl here ↦ elim (Bool-cases (id == wanted)) [ inl h ↦ ground arith | inr h ↦ ground arith ]
      | inr out ↦ elim (Bool-cases (x.takeover_id == id)) [
        | inl h ↦ ground arith
        | inr h ↦ ground arith
      ]
    ]

found-any {ℓ} :
    {A : Type ℓ} (p : A → Bool) (xs : List A) (t : A) → find? p xs ≡ some t → any p xs ≡ true
found-any p [] t h = cc
found-any p (x ∷ xs) t h = elim (Bool-cases (p x)) [
  | inl hit ↦ ground arith
  | inr out ↦ let rest = found-any p xs t (ground arith) in ground arith
]

told-move :
    (s u : Store) (id wanted : ℕ) (t : TakeoverRow) (to : TakeoverState)
    (reason detail : Option String)
    → told s wanted ≡ state_of s wanted
    → row_of s id ≡ some t
    → u.head_takeovers ≡ moved id to reason s.head_takeovers
    → u.takeover_events ≡ event s id to detail ∷ s.takeover_events
    → told u wanted ≡ state_of u wanted
unfolding told state_of last_event row_of
told-move s u id wanted t to reason detail h found rows trail =
    let after_ = moved_row id wanted to reason s.head_takeovers in
    elim (Bool-cases (id == wanted)) [
      | inr other ↦ ground arith
      | inl here ↦
          let same = (nat_beq_iff id wanted).0 here in
          let known =
            found-any (has_id wanted) s.head_takeovers t
              (subst (λ k. find? (has_id k) s.head_takeovers ≡ some t) same found) in
          ground arith
    ]

told-start :
    (s u : Store) (wanted : ℕ) (row : TakeoverRow)
    → told s wanted ≡ state_of s wanted
    → row.state ≡ requested
    → u.head_takeovers ≡ row ∷ s.head_takeovers
    → u.takeover_events ≡ event s row.takeover_id requested none ∷ s.takeover_events
    → told u wanted ≡ state_of u wanted
unfolding told state_of last_event row_of
told-start s u wanted row h fresh rows trail = elim (Bool-cases (row.takeover_id == wanted)) [
  | inl here ↦ ground arith
  | inr other ↦ ground arith
]

told-idle :
    (s u : Store) (wanted : ℕ)
    → told s wanted ≡ state_of s wanted
    → u.head_takeovers ≡ s.head_takeovers
    → u.takeover_events ≡ s.takeover_events
    → told u wanted ≡ state_of u wanted
unfolding told state_of last_event row_of
told-idle s u wanted h rows trail = ground arith

woken_row :
    (id wanted : ℕ) (xs : List TakeoverRow)
    → state_in (find? (has_id wanted) (woken id xs)) ≡ (
        if id == wanted && state_in (find? (has_id wanted) xs) == some committed
        then some resumed
        else state_in (find? (has_id wanted) xs))
woken_row id wanted [] = elim (Bool-cases (id == wanted)) [
  | inl h ↦ ground arith
  | inr h ↦ ground arith
]
woken_row id wanted (x ∷ xs) =
    let rest = woken_row id wanted xs in
    elim (Bool-cases (x.takeover_id == wanted)) [
      | inl here ↦ elim (Bool-cases (id == wanted)) [
        | inl h ↦ elim (Bool-cases (x.state == committed)) [
          | inl c ↦ ground arith
          | inr c ↦ ground arith
        ]
        | inr h ↦ ground arith
      ]
      | inr out ↦ elim (Bool-cases (x.takeover_id == id && x.state == committed)) [
        | inl h ↦ ground arith
        | inr h ↦ ground arith
      ]
    ]

-- The row that `awaiting` found is the row of its id, since no two rows share an id.
waiting_state :
    (s : Store) (owner : OwnerId) (session : String) (epoch : ℕ) (t : TakeoverRow)
    → IsOrderly s
    → awaiting s owner session epoch ≡ some t
    → state_of s t.takeover_id ≡ some committed
unfolding awaiting state_of row_of
waiting_state s owner session epoch t h waits =
    let waiting = found_id _ s.head_takeovers t waits in
    let own = ==_refl t.takeover_id in
    elim (Option-cases (find? (has_id t.takeover_id) s.head_takeovers)) [
      | inl none_there ↦
          let out =
            found-All (λ x. has_id t.takeover_id x ≡ false) _ s.head_takeovers t waits
              (any→All (has_id t.takeover_id) s.head_takeovers
                (find-any (has_id t.takeover_id) s.head_takeovers none_there)) in
          absurd (ground arith)
      | inr (y, there) ↦
          let only =
            found-All (λ x. has_id t.takeover_id x ≡ true → x ≡ y) _ s.head_takeovers t waits
              (sole-All (has_id t.takeover_id) s.head_takeovers y (h.one_row t.takeover_id)
                there) in
          let same = only own in
          let at = (takeover_beq_iff t.state committed).0 (ground arith) in ground arith
    ]

told-wake :
    (s u : Store) (wanted : ℕ) (t : TakeoverRow)
    → told s wanted ≡ state_of s wanted
    → state_of s t.takeover_id ≡ some committed
    → u.head_takeovers ≡ woken t.takeover_id s.head_takeovers
    → u.takeover_events ≡ event s t.takeover_id resumed none ∷ s.takeover_events
    → told u wanted ≡ state_of u wanted
unfolding told state_of last_event row_of
told-wake s u wanted t h waiting rows trail =
    let after_ = woken_row t.takeover_id wanted s.head_takeovers in
    elim (Bool-cases (t.takeover_id == wanted)) [
      | inr other ↦ ground arith
      | inl here ↦
          let same = (nat_beq_iff t.takeover_id wanted).0 here in
          let there =
            subst (λ k. state_in (find? (has_id k) s.head_takeovers) ≡ some committed) same
              waiting in
          ground arith
    ]

IsTold-Step : (s u : Store) → IsOrderly s → IsTold s → Step s u → IsTold u
unfolding IsTold
IsTold-Step s u o h (idle rows trail) id = told-idle s u id (h id) rows trail
IsTold-Step s u o h (start row fresh new free rows trail) id =
    told-start s u id row (h id) fresh rows trail
IsTold-Step s u o h (move at t to reason detail found legal other rows trail) id =
    told-move s u at id t to reason detail (h id) found rows trail
IsTold-Step s u o h (wake t b owner session epoch waits seen rows trail) id =
    told-wake s u id t (h id) (waiting_state s owner session epoch t o waits) rows trail

kept-IsTold :
    (p : Platform) (s : Store) (c : TakeoverCall)
    → IsOrderly s
    → IsTold s
    → IsOrderly (kept s (perform p s c)) × IsTold (kept s (perform p s c))
kept-IsTold p s c o h = elim (Result-cases (perform p s c)) [
  | inr (x, refused) ↦ subst (λ m. IsOrderly (kept s m) × IsTold (kept s m)) (sym refused) (o, h)
  | inl (u, done) ↦
      let (step, met) = perform-Step p s u c done in
      subst (λ m. IsOrderly (kept s m) × IsTold (kept s m)) (sym done)
        (IsOrderly-Step s u o step, IsTold-Step s u o h step)
]

-- Whatever calls of `TakeoverCall`, so all but the claim of an abandoned head, are made on the
-- handoffs of an orderly store whose trail tells every state: the newest event of each handoff
-- still names the state that its row is in, and a handoff without a row has no event.
pub after-IsTold :
    (p : Platform) (s : Store) (cs : List TakeoverCall)
    → IsOrderly s
    → IsTold s
    → IsTold (after p s cs)
unfolding after
after-IsTold p s [] o h = h
after-IsTold p s (c ∷ cs) o h =
    let next = kept-IsTold p s c o h in after-IsTold p (kept s (perform p s c)) cs next.0 next.1
