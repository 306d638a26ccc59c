-- ===== src/Base/Strings.antt =====
-- Go strings: the `+` of strings and `strings.HasSuffix`, by bytes.
use Prim.Native.Nat.{ℕ, suc, ◌-◌}
use Prim.Native.Char.{code}
use Prim.Native.String.{String, [], ◌∷◌, ◌++◌, len, slice}
use sagiri_guard.Base.Tests.{nat_eq, if◌then◌else◌}
use mathlib.Core.Bool.{Bool}
use text.Mathlib.Text.{◌==◌}

abbrev pub append : String → String → String
append s t = s ++ t

-- whether the first text ends with the second
abbrev pub ends_with : String → String → Bool
ends_with s t = slice s (len s - len t) (len s) == t

-- `strings.Count` of a dot
unfoldable pub dots : String → ℕ
dots [] = 0
dots (c ∷ s) = let n = dots s in if nat_eq (code c) 46 then suc n else n
