-- ===== src/Base/Texts.antt =====
-- Texts as the source reads them: blank texts, bytes, and parts between separators.
use Prim.Native.Nat.{ℕ}
use Prim.Native.Char.{code}
use Prim.Native.String.{String}
use mathlib.Core.Bool.{Bool, true, ◌&&◌, ◌||◌}
use mathlib.Core.List.{List, [], ◌∷◌}
use brgr.Base.Tests.{nat_beq, leb}
pub use Prim.Native.String.{len}

-- The code points of a text; `String` has its own `[]` and `∷`.
abbrev pub codes : String → List ℕ
codes String.[] = []
codes (String.◌∷◌ c s) = code c ∷ codes s

-- `char::is_whitespace`: the property White_Space of Unicode.
pub is_whitespace : ℕ → Bool
is_whitespace c =
    leb 9 c && leb c 13
    || nat_beq c 32
    || nat_beq c 0x85
    || nat_beq c 0xA0
    || nat_beq c 0x1680
    || leb 0x2000 c && leb c 0x200A
    || nat_beq c 0x2028
    || nat_beq c 0x2029
    || nat_beq c 0x202F
    || nat_beq c 0x205F
    || nat_beq c 0x3000

pub all_whitespace : List ℕ → Bool
all_whitespace [] = true
all_whitespace (c ∷ cs) = is_whitespace c && all_whitespace cs

-- `s.trim().is_empty()`
unfoldable pub is_blank : String → Bool
unfolding is_whitespace all_whitespace
is_blank s = all_whitespace (codes s)
