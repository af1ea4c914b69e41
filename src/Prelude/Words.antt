-- ===== src/Prelude/Words.antt =====
-- Machine words: a uintN is a number below 2 ^ N, and its bytes.
use Prim.Native.Nat.{ℕ, ◌+◌, ◌-◌, ◌*◌, ◌/◌, ◌%◌, ◌<◌}
use mathlib.Core.Path.{◌≡◌}
use native.Mathlib.Omega.{arith}
use mathlib.Core.List.{List, [], ◌∷◌}

abbrev pub Bytes : Type 0
Bytes = List ℕ

abbrev pub IsByte : ℕ → Type 0
IsByte b = b < 256

abbrev pub u8 : ℕ → ℕ
u8 n = n % 256

abbrev pub u16 : ℕ → ℕ
u16 n = n % 65536

abbrev pub u32 : ℕ → ℕ
u32 n = n % 4294967296

abbrev pub u64 : ℕ → ℕ
u64 n = n % 18446744073709551616

-- x - y on uint64.
abbrev pub sub64 : ℕ → ℕ → ℕ
sub64 x y = (x + 18446744073709551616 - y) % 18446744073709551616

-- binary.BigEndian
abbrev pub be16 : ℕ → Bytes
be16 v = u8 (v / 256) ∷ u8 v ∷ []

abbrev pub be32 : ℕ → Bytes
be32 v = u8 (v / 16777216) ∷ u8 (v / 65536) ∷ u8 (v / 256) ∷ u8 v ∷ []

abbrev pub from_be16 : ℕ → ℕ → ℕ
from_be16 a b = a * 256 + b

abbrev pub from_be32 : ℕ → ℕ → ℕ → ℕ → ℕ
from_be32 a b c d = a * 16777216 + b * 65536 + c * 256 + d

-- A word is read back from its bytes.
pub from_be16-be16 : (v : ℕ) → v < 65536 → from_be16 (u8 (v / 256)) (u8 v) ≡ v
from_be16-be16 v h = omega arith

pub from_be32-be32 :
    (v : ℕ)
    → v < 4294967296
    → from_be32 (u8 (v / 16777216)) (u8 (v / 65536)) (u8 (v / 256)) (u8 v) ≡ v
from_be32-be32 v h = omega arith

-- binary.LittleEndian
abbrev pub le16 : ℕ → Bytes
le16 v = u8 v ∷ u8 (v / 256) ∷ []

abbrev pub le32 : ℕ → Bytes
le32 v = u8 v ∷ u8 (v / 256) ∷ u8 (v / 65536) ∷ u8 (v / 16777216) ∷ []
