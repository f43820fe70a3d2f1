-- ===== src/Store/Subtree/Covered.antt =====
-- The cancellation of a subtree reaches every task below its root.
use brgr.Base.{
  ==_refl, ==→≡, >>=-eq-ok, Bool, Bool-cases, List, Option, Option-cases, Result-cases, [], any,
  arith, err, inl, inr, list_eq, nat_eq, none, ok, option_eq, refl, some, some_inj, string_eq,
  subst, suc, sym, true, update, zero, ℕ, ◌&&◌, ◌++◌, ◌==◌, ◌||◌, ◌∙◌, ◌∷◌, ◌≡◌, ◌≤◌,
}
use brgr.Protocol.{AttemptId, TaskId, TaskSpec, outcome_eq, state_eq}
use brgr.Store.{
  AttemptRow, CancellationRow, EdgeRow, Platform, Store, StoreError, run_state_eq,
  takeover_state_eq,
}
use brgr.Store.Owner.{OwnerProof}
use brgr.Store.Takeovers.Frame.{assert_owner_proof-moved}
use brgr.Store.Attempts.{attempt_of}
use brgr.Store.Messages.{assert_task_owner}
use brgr.Store.Debates.{task_spec}
use brgr.Store.Delegation.{cancellation_requested, max_revision, validated_parent_depth}
use brgr.Store.Subtree.{
  SubtreeNode, check_canceller, children_of, levels, next_level, put_intent, query_subtree,
  record_cancellation_intents, record_each, root_node,
}

abbrev pub is_edge : TaskId → TaskId → EdgeRow → Bool
is_edge parent child e = e.parent_task_id == parent && e.child_task_id == child

-- So many edges lead from one task to another.
unfoldable pub Leads : List EdgeRow → ℕ → TaskId → TaskId → Type 0
Leads edges zero a b = a ≡ b
Leads edges (suc k) a b = (c : TaskId) × (any (is_edge a c) edges ≡ true) × Leads edges k c b

abbrev names : TaskId → SubtreeNode → Bool
names task n = n.task_id == task

any-append : {A : Type 0} (p : A → Bool) (xs ys : List A) → any p (xs ++ ys) ≡ any p xs || any p ys
any-append p [] ys = refl
any-append p (x ∷ xs) ys = elim (Bool-cases (p x)) [
  | inl here ↦ ground arith
  | inr later ↦ let rest = any-append p xs ys in ground arith
]

children-named :
    (edges : List EdgeRow) (n : SubtreeNode) (c : TaskId)
    → any (is_edge n.task_id c) edges ≡ true
    → any (names c) (children_of edges n) ≡ true
children-named [] n c h = h
children-named (e ∷ edges) n c h = elim (Bool-cases (e.parent_task_id == n.task_id)) [
  | inl ours ↦ elim (Bool-cases (e.child_task_id == c)) [
    | inl found ↦ ground arith
    | inr other ↦ ground (arith, children-named edges n c (ground arith))
  ]
  | inr apart ↦ ground (arith, children-named edges n c (ground arith))
]

next-named :
    (edges : List EdgeRow) (level : List SubtreeNode) (a c : TaskId)
    → any (names a) level ≡ true
    → any (is_edge a c) edges ≡ true
    → any (names c) (next_level edges level) ≡ true
unfolding next_level
next-named edges [] a c there edge = absurd (ground arith)
next-named edges (n ∷ level) a c there edge =
    any-append (names c) (children_of edges n) (next_level edges level)
    ∙ (elim (Bool-cases (n.task_id == a)) [
      | inl here ↦
          let at : n.task_id ≡ a = ground arith in
          let found =
            children-named edges n c (subst (λ x. any (is_edge x c) edges ≡ true) (sym at) edge) in
          ground arith
      | inr later ↦
          let found = next-named edges level a c (ground arith) edge in
          elim (Bool-cases (any (names c) (children_of edges n))) [
            | inl early ↦ ground arith
            | inr none_ ↦ ground arith
          ]
    ])

levels-named :
    (k j : ℕ) (edges : List EdgeRow) (level : List SubtreeNode) (a b : TaskId)
    → j ≤ k
    → any (names a) level ≡ true
    → Leads edges j a b
    → any (names b) (levels k edges level) ≡ true
unfolding levels Leads
levels-named zero zero edges level a b small there same =
    subst (λ x. any (names x) level ≡ true) same there
levels-named zero (suc j) edges level a b small there way = absurd (ground arith)
levels-named (suc k) zero edges level a b small there same =
    let deep = levels k edges (next_level edges level) in
    let here = subst (λ x. any (names x) level ≡ true) same there in
    any-append (names b) deep level ∙ (elim (Bool-cases (any (names b) deep)) [
      | inl early ↦ ground arith
      | inr late ↦ ground arith
    ])
levels-named (suc k) (suc j) edges level a b small there (c, edge, way) =
    let deep = levels k edges (next_level edges level) in
    let found =
      levels-named k j edges (next_level edges level) c b (ground arith)
        (next-named edges level a c there edge) way in
    any-append (names b) deep level ∙ ground arith

-- A row of the intents that asks for a revision of a task.
abbrev asks_for : TaskId → Option ℕ → CancellationRow → Bool
asks_for task latest c = c.task_id == task && latest == some c.revision

intents-own :
    (cs : List CancellationRow) (t : TaskId) (n : ℕ)
    → any (λ c. c.task_id == t) cs ≡ true
    → any (asks_for t (some n)) (update (λ c. c.task_id == t) (λ c. record c { revision = n }) cs)
      ≡ true
intents-own [] t n h = absurd (ground arith)
intents-own (c ∷ cs) t n h = elim (Bool-cases (c.task_id == t)) [
  | inl here ↦ ground arith
  | inr later ↦ ground (arith, intents-own cs t n (ground arith))
]

intents-kept :
    (cs : List CancellationRow) (x t : TaskId) (m : Option ℕ) (n : ℕ)
    → (x ≡ t → m ≡ some n)
    → any (asks_for x m) cs ≡ true
    → any (asks_for x m) (update (λ c. c.task_id == t) (λ c. record c { revision = n }) cs) ≡ true
intents-kept [] x t m n latest h = h
intents-kept (c ∷ cs) x t m n latest h = elim (Bool-cases (asks_for x m c)) [
  | inr other ↦
      let rest = intents-kept cs x t m n latest (ground arith) in
      elim (Bool-cases (c.task_id == t)) [
        | inl here ↦ elim (Bool-cases (asks_for x m (record c { revision = n }))) [
          | inl now ↦ ground arith
          | inr still ↦ ground arith
        ]
        | inr apart ↦ ground arith
      ]
  | inl asks ↦ elim (Bool-cases (c.task_id == t)) [
    | inl here ↦ let is = latest (ground arith) in let same = ==_refl (some n) in ground arith
    | inr apart ↦ ground arith
  ]
]

put-own :
    (s : Store) (t : TaskId) (n : ℕ)
    → max_revision s.tasks t ≡ some n
    → cancellation_requested (put_intent s t n) t ≡ true
unfolding put_intent cancellation_requested
put-own s t n latest = elim (Bool-cases (any (λ c. c.task_id == t) s.cancellation_intents)) [
  | inl known ↦ let marks = intents-own s.cancellation_intents t n known in ground arith
  | inr new_ ↦ let a = ==_refl t in let b = ==_refl (some n) in ground arith
]

put-kept :
    (s : Store) (x t : TaskId) (n : ℕ)
    → max_revision s.tasks t ≡ some n
    → cancellation_requested s x ≡ true
    → cancellation_requested (put_intent s t n) x ≡ true
unfolding put_intent cancellation_requested
put-kept s x t n latest h = elim (Bool-cases (any (λ c. c.task_id == t) s.cancellation_intents)) [
  | inl known ↦
      let marks =
        intents-kept s.cancellation_intents x t (max_revision s.tasks x) n
          (λ same. subst (λ y. max_revision s.tasks y ≡ some n) (sym same) latest) h in
      ground arith
  | inr new_ ↦
      elim (Bool-cases
        (asks_for x (max_revision s.tasks x) (record { task_id = t; revision = n }))) [
          | inl now ↦ ground arith
          | inr still ↦ ground arith
        ]
]

put-tasks : (s : Store) (t : TaskId) (n : ℕ) → (put_intent s t n).tasks ≡ s.tasks
unfolding put_intent
put-tasks s t n = elim (Bool-cases (any (λ c. c.task_id == t) s.cancellation_intents)) [
  | inl known ↦ ground arith
  | inr new_ ↦ ground arith
]

each-kept :
    (s u : Store) (nodes : List SubtreeNode) (x : TaskId)
    → record_each s nodes ≡ ok u
    → cancellation_requested s x ≡ true
    → cancellation_requested u x ≡ true
unfolding record_each
each-kept s u [] x h marked = let same : s ≡ u = ground arith in rw (← same) marked
each-kept s u (n ∷ nodes) x h marked = elim (Option-cases (max_revision s.tasks n.task_id)) [
  | inl missing ↦ absurd (ground arith)
  | inr (latest, is) ↦
      each-kept (put_intent s n.task_id latest) u nodes x (ground arith)
        (put-kept s x n.task_id latest is marked)
]

each-marked :
    (s u : Store) (nodes : List SubtreeNode) (x : TaskId)
    → record_each s nodes ≡ ok u
    → any (names x) nodes ≡ true
    → cancellation_requested u x ≡ true
unfolding record_each
each-marked s u [] x h there = absurd (ground arith)
each-marked s u (n ∷ nodes) x h there = elim (Option-cases (max_revision s.tasks n.task_id)) [
  | inl missing ↦ absurd (ground arith)
  | inr (latest, is) ↦
      let t = put_intent s n.task_id latest in
      elim (Bool-cases (names x n)) [
        | inl here ↦
            let at : n.task_id ≡ x = ground arith in
            each-kept t u nodes x (ground arith)
              (subst (λ y. cancellation_requested t y ≡ true) at (put-own s n.task_id latest is))
        | inr later ↦ each-marked t u nodes x (ground arith) (ground arith)
      ]
]

canceller-edges :
    (s u : Store) (proof : Option OwnerProof) (root : TaskId)
    → check_canceller s proof root ≡ ok u
    → u.delegation_edges ≡ s.delegation_edges
unfolding assert_task_owner
canceller-edges s u none root h = ground arith
canceller-edges s u (some proof) root h =
    let same = assert_owner_proof-moved s u proof (ground arith) in cc

query-named :
    (s : Store) (root task : TaskId) (k : ℕ) (nodes : List SubtreeNode)
    → query_subtree s root ≡ ok nodes
    → k ≤ 8
    → Leads s.delegation_edges k root task
    → any (names task) nodes ≡ true
unfolding query_subtree
query-named s root task k nodes h small way =
    let root_named : any (names root) (root_node root ∷ []) ≡ true =
      (let same = ==_refl root in ground arith) in
    let found =
      levels-named 8 k s.delegation_edges (root_node root ∷ []) root task small root_named way in
    ground arith

-- When the cancellation of a task with its descendants is recorded, every task that a chain of eight
-- delegations or fewer leads to from it is cancelled, with whatever revision is its latest one; the
-- task itself is reached by none.
pub record_cancellation_intents-covers :
    (s u : Store) (root task : TaskId) (proof : Option OwnerProof) (nodes : List SubtreeNode)
    (k : ℕ)
    → record_cancellation_intents s root true proof ≡ ok (nodes, u)
    → k ≤ 8
    → Leads s.delegation_edges k root task
    → cancellation_requested u task ≡ true
unfolding record_cancellation_intents
record_cancellation_intents-covers s u root task proof nodes k h small way =
    let (spec, known, h1) = >>=-eq-ok (task_spec s root) _ h in
    let (v, checked, h2) = >>=-eq-ok (check_canceller s proof root) _ h1 in
    let (found, queried, h3) = >>=-eq-ok (query_subtree v root) _ h2 in
    let (w, recorded, h4) = >>=-eq-ok (record_each v found) _ h3 in
    let edges = canceller-edges s v proof root checked in
    let same : w ≡ u = ground arith in
    let here =
      query-named v root task k found queried small
        (subst (λ es. Leads es k root task) (sym edges) way) in
    rw (← same) (each-marked v w found task recorded here)

cancelled-any :
    (cs : List CancellationRow) (task : TaskId) (n : ℕ) (m : Option ℕ)
    → m ≡ some n
    → any (asks_for task m) cs ≡ true
    → any (λ c. c.task_id == task && c.revision == n) cs ≡ true
cancelled-any [] task n m is h = absurd (ground arith)
cancelled-any (c ∷ cs) task n m is h = elim (Bool-cases (asks_for task m c)) [
  | inl here ↦
      let same = ==→≡ m (some c.revision) (ground arith) in
      let at : n ≡ c.revision = some_inj n c.revision (sym is ∙ same) in ground arith
  | inr later ↦
      let rest = cancelled-any cs task n m is (ground arith) in
      elim (Bool-cases (c.task_id == task && c.revision == n)) [
        | inl early ↦ ground arith
        | inr late ↦ ground arith
      ]
]

-- An attempt of the latest revision of a cancelled task admits no child: the check of the parent that
-- every admission makes refuses it.
pub validated_parent_depth-cancelled :
    (p : Platform) (s : Store) (child : TaskSpec) (task : TaskId) (id : AttemptId) (a : AttemptRow)
    → cancellation_requested s task ≡ true
    → attempt_of s id ≡ some a
    → max_revision s.tasks task ≡ some a.revision
    → (e : StoreError) × (validated_parent_depth p s child (some (task, id)) ≡ err e)
unfolding cancellation_requested validated_parent_depth
validated_parent_depth-cancelled p s child task id a stopped known latest =
    let marks =
      cancelled-any s.cancellation_intents task a.revision (max_revision s.tasks task) latest
        stopped in
    elim (Result-cases (validated_parent_depth p s child (some (task, id)))) [
      | inr refused ↦ refused
      | inl (depth, done) ↦ absurd (ground arith)
    ]
