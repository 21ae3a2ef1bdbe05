-- ===== src/Common/Text.antt =====
-- What the program takes from Go's `strings` and `unicode`. A text is its sequence of code points.
use Prim.Native.Nat.{ℕ}
use Prim.Native.Char.{code}
use Prim.Native.String.{String, [], ◌∷◌, compare}
use mathlib.Core.Bool.{Bool, ◌&&◌, ◌||◌}
use mathlib.Core.Option.{Option, none, some}
use text.Mathlib.Text.{◌==◌, is_lt}
use ovek.Common.Tests.{leb, nat_eq, if◌then◌else◌}

-- unicode.IsSpace
abbrev pub is_space : ℕ → Bool
is_space c =
    (leb 9 c && leb c 13)
    || nat_eq c 32
    || nat_eq c 0x85
    || nat_eq c 0xa0
    || nat_eq c 0x1680
    || (leb 0x2000 c && leb c 0x200a)
    || nat_eq c 0x2028
    || nat_eq c 0x2029
    || nat_eq c 0x202f
    || nat_eq c 0x205f
    || nat_eq c 0x3000

unfoldable pub trim_left : String → String
trim_left [] = ""
trim_left (c ∷ s) = if is_space (code c) then trim_left s else c ∷ s

unfoldable pub trim_right : String → String
trim_right [] = ""
trim_right (c ∷ s) =
    let rest = trim_right s in if rest == "" && is_space (code c) then "" else c ∷ rest

-- strings.TrimSpace
unfoldable pub trim_space : String → String
unfolding trim_left trim_right
trim_space s = trim_right (trim_left s)

-- The order of SQLite's TEXT columns (collation BINARY) and of Go's strings.
unfoldable pub text_lt : String → String → Bool
text_lt s t = is_lt (compare s t)

-- s + t
unfoldable pub text_append : String → String → String
text_append s t = Prim.Native.String.◌++◌ s t

-- strings.TrimPrefix
unfoldable pub strip : String → String → Option String
strip s [] = some s
strip [] (p ∷ prefix) = none
strip (c ∷ s) (p ∷ prefix) = if nat_eq (code c) (code p) then strip s prefix else none

unfoldable pub trim_prefix : String → String → String
trim_prefix s prefix = elim (strip s prefix) [ none ↦ s | some rest ↦ rest ]
