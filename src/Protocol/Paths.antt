-- ===== src/Protocol/Paths.antt =====
-- The parts of a path as `std::path::Path::components` gives them on a Unix system, over the code
-- points of the path. The source uses them to keep evidence files inside the workspace.
use brgr.Base.{
  Bool, List, [], any, false, if◌then◌else◌, nat_eq, option_eq, string_eq, true, ℕ, ◌++◌, ◌==◌,
  ◌||◌, ◌∷◌,
}

pub data Component : Type 0 where
  root_dir cur_dir parent_dir : Component
  normal : List ℕ → Component

abbrev pub slash : ℕ
slash = b'/'

abbrev pub dot : ℕ
dot = b'.'

-- Equality of two lists of code points.
unfoldable pub same : List ℕ → List ℕ → Bool
same [] [] = true
same [] (y ∷ ys) = false
same (x ∷ xs) [] = false
same (x ∷ xs) (y ∷ ys) = let rest = same xs ys in if x == y then rest else false

abbrev push_front : ℕ → List (List ℕ) → List (List ℕ)
push_front c [] = (c ∷ []) ∷ []
push_front c (s ∷ ss) = (c ∷ s) ∷ ss

-- The text between the slashes; never empty.
unfoldable pub segments : List ℕ → List (List ℕ)
segments [] = [] ∷ []
segments (c ∷ cs) = let rest = segments cs in if c == slash then [] ∷ rest else push_front c rest

abbrev pub dot_name : List ℕ
dot_name = dot ∷ []

abbrev pub dot_dot_name : List ℕ
dot_dot_name = dot ∷ dot ∷ []

abbrev pub git_name : List ℕ
git_name = b'.' ∷ b'g' ∷ b'i' ∷ b't' ∷ []

-- One segment behind the head of the path: empty ones and `.` are dropped.
unfoldable pub component : List ℕ → List Component
component s =
    if same s [] || same s dot_name
    then []
    else if same s dot_dot_name
    then parent_dir ∷ []
    else normal s ∷ []

unfoldable pub tail_components : List (List ℕ) → List Component
unfolding component
tail_components [] = []
tail_components (s ∷ ss) = component s ++ tail_components ss

-- What stands first: the root of an absolute path, a leading `.`, or nothing.
abbrev pub head_components : List (List ℕ) → List Component
head_components [] = []
head_components ([] ∷ []) = []
head_components ([] ∷ (s ∷ ss)) = root_dir ∷ []
head_components ((c ∷ s) ∷ ss) = if same (c ∷ s) dot_name then cur_dir ∷ [] else []

unfoldable pub components : List ℕ → List Component
unfolding segments tail_components same
components path = let ss = segments path in head_components ss ++ tail_components ss

-- `!matches!(component, Component::Normal(name) if name != ".git")`
unfoldable pub is_refused : Component → Bool
unfolding same
is_refused (normal name) = same name git_name
is_refused _ = true

unfoldable pub escapes : List ℕ → Bool
unfolding components is_refused
escapes path = any is_refused (components path)
