-- ===== src/Prelude/Text.antt =====
-- Go strings as lists of bytes, and what the code uses of the package strings.
use Prim.Native.Char.{code}
use Prim.Native.String.{String}
use Prim.Native.Nat.{ℕ, suc}
use mathlib.Core.Path.{◌≡◌}
use mathlib.Core.Logic.{◌↔◌}
use mathlib.Core.Bool.{Bool, true, false, ◌&&◌}
use mathlib.Core.Option.{Option, none, some}
use mathlib.Core.Option
use mathlib.Core.List.{[], ◌∷◌}
use native.Mathlib.Omega.{arith}
use sandal.Prelude.Tests.{◌==◌, if◌then◌else◌}
use sandal.Prelude.Lists.{length, drop}
use sandal.Prelude.Words.{Bytes}

-- The code points of a text: its bytes, since every literal of the code is ASCII.
abbrev pub codes : String → Bytes
codes String.[] = []
codes (String.◌∷◌ c s) = code c ∷ codes s

-- s == t
unfoldable pub equal : Bytes → Bytes → Bool
equal [] [] = true
equal (x ∷ xs) (y ∷ ys) = x == y && equal xs ys
equal _ _ = false

pub equal_iff : (s t : Bytes) → (equal s t ≡ true) ↔ (s ≡ t)
unfolding equal
equal_iff (x ∷ xs) (y ∷ ys) = ground (arith, equal_iff xs ys)
equal_iff _ _ = ground arith

-- strings.HasPrefix(s, p)
unfoldable pub has_prefix : Bytes → Bytes → Bool
has_prefix s [] = true
has_prefix [] (y ∷ ys) = false
has_prefix (x ∷ xs) (y ∷ ys) = x == y && has_prefix xs ys

-- strings.CutPrefix(s, p): the rest, where it has the prefix.
unfoldable pub cut_prefix : Bytes → Bytes → Option Bytes
unfolding has_prefix
cut_prefix s p = if has_prefix s p then some (drop (length p) s) else none

-- strings.Index(s, t), strings.IndexByte: the first place where it occurs.
unfoldable pub index : Bytes → Bytes → Option ℕ
unfolding has_prefix
index [] t = if has_prefix [] t then some 0 else none
index (x ∷ s) t = if has_prefix (x ∷ s) t then some 0 else Option.map suc (index s t)

unfoldable pub index_byte : Bytes → ℕ → Option ℕ
index_byte [] b = none
index_byte (x ∷ s) b = if x == b then some 0 else Option.map suc (index_byte s b)

-- strings.LastIndexByte(s, b)
unfoldable pub last_index_byte : Bytes → ℕ → Option ℕ
last_index_byte [] b = none
last_index_byte (x ∷ s) b = elim (last_index_byte s b) [
  | some i ↦ some (suc i)
  | none ↦ if x == b then some 0 else none
]
