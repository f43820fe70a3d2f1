-- ===== src/Protocol/Confined.antt =====
-- Why an evidence path that passes the test stays inside the workspace.
use mathlib.Core.List.{append_assoc}
use brgr.Base.{All, All-append, List, [], any, arith, false, refl, sym, ℕ, ◌++◌, ◌∙◌, ◌∷◌, ◌≡◌}
use brgr.Protocol.Paths.{
  Component, components, cur_dir, escapes, git_name, is_refused, normal, parent_dir, root_dir, same,
}

-- Following a path from a directory, whose names stand the innermost first.
pub resolve : List (List ℕ) → List Component → List (List ℕ)
resolve dir [] = dir
resolve dir (root_dir ∷ cs) = resolve [] cs
resolve dir (cur_dir ∷ cs) = resolve dir cs
resolve [] (parent_dir ∷ cs) = resolve [] cs
resolve (n ∷ dir) (parent_dir ∷ cs) = resolve dir cs
resolve dir (normal n ∷ cs) = resolve (n ∷ dir) cs

-- Every name of the list is another than `.git`.
abbrev pub NoGit : List (List ℕ) → Type 0
NoGit names = All (λ n. same n git_name ≡ false) names

resolve_below :
    (dir : List (List ℕ)) (cs : List Component)
    → any is_refused cs ≡ false
    → (names : List (List ℕ)) × (resolve dir cs ≡ names ++ dir) × NoGit names
unfolding resolve is_refused
resolve_below dir [] h = ([], refl, tt)
resolve_below dir (root_dir ∷ cs) h = cc
resolve_below dir (cur_dir ∷ cs) h = cc
resolve_below dir (parent_dir ∷ cs) h = cc
resolve_below dir (normal n ∷ cs) h =
    let (names, at, clean) = resolve_below (n ∷ dir) cs (ground arith) in
    (
      names ++ (n ∷ []),
      at ∙ sym (append_assoc names (n ∷ []) dir),
      All-append _ names (n ∷ []) clean (ground arith, tt),
    )

-- From any directory, an accepted path leads to a place under that directory, by names none of
-- which is `.git`: it can neither be absolute nor climb out.
pub escapes-confined :
    (dir : List (List ℕ)) (path : List ℕ)
    → escapes path ≡ false
    → (names : List (List ℕ)) × (resolve dir (components path) ≡ names ++ dir) × NoGit names
unfolding escapes
escapes-confined dir path h = resolve_below dir (components path) h
