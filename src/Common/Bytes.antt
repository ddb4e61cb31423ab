-- ===== src/Common/Bytes.antt =====
-- Bytes, and the fixed-width integers of `to_le_bytes`, `to_be_bytes` and their inverses.
use Prim.Native.Nat.{ℕ, ◌+◌, ◌*◌, ◌/◌, ◌%◌, ◌^◌, ◌<◌}
use mathlib.Core.Path.{◌≡◌}
use mathlib.Core.List.{List, [], ◌∷◌}
use native.Mathlib.Omega.{arith}

abbrev pub IsByte : ℕ → Type 0
IsByte b = b < 256

abbrev pub IsU16 : ℕ → Type 0
IsU16 x = x < 2 ^ 16

abbrev pub IsU32 : ℕ → Type 0
IsU32 x = x < 2 ^ 32

abbrev pub IsU64 : ℕ → Type 0
IsU64 x = x < 2 ^ 64

-- `x as u8`
abbrev pub u8 : ℕ → ℕ
u8 x = x % 256

abbrev pub le16 : ℕ → List ℕ
le16 x = u8 x ∷ u8 (x / 2 ^ 8) ∷ []

abbrev pub le32 : ℕ → List ℕ
le32 x = u8 x ∷ u8 (x / 2 ^ 8) ∷ u8 (x / 2 ^ 16) ∷ u8 (x / 2 ^ 24) ∷ []

abbrev pub le64 : ℕ → List ℕ
le64 x =
    u8 x
    ∷ u8 (x / 2 ^ 8)
    ∷ u8 (x / 2 ^ 16)
    ∷ u8 (x / 2 ^ 24)
    ∷ u8 (x / 2 ^ 32)
    ∷ u8 (x / 2 ^ 40)
    ∷ u8 (x / 2 ^ 48)
    ∷ u8 (x / 2 ^ 56)
    ∷ []

abbrev pub be16 : ℕ → List ℕ
be16 x = u8 (x / 2 ^ 8) ∷ u8 x ∷ []

abbrev pub be32 : ℕ → List ℕ
be32 x = u8 (x / 2 ^ 24) ∷ u8 (x / 2 ^ 16) ∷ u8 (x / 2 ^ 8) ∷ u8 x ∷ []

abbrev pub be64 : ℕ → List ℕ
be64 x =
    u8 (x / 2 ^ 56)
    ∷ u8 (x / 2 ^ 48)
    ∷ u8 (x / 2 ^ 40)
    ∷ u8 (x / 2 ^ 32)
    ∷ u8 (x / 2 ^ 24)
    ∷ u8 (x / 2 ^ 16)
    ∷ u8 (x / 2 ^ 8)
    ∷ u8 x
    ∷ []

-- `u16::from_le_bytes([a, b])`, and so on; `from_be_bytes` is given its bytes the other way round.
abbrev pub from16 : ℕ → ℕ → ℕ
from16 a b = a + b * 2 ^ 8

abbrev pub from32 : ℕ → ℕ → ℕ → ℕ → ℕ
from32 a b c d = a + b * 2 ^ 8 + c * 2 ^ 16 + d * 2 ^ 24

abbrev pub from64 : ℕ → ℕ → ℕ → ℕ → ℕ → ℕ → ℕ → ℕ → ℕ
from64 a b c d e f g h = from32 a b c d + from32 e f g h * 2 ^ 32

pub from16-bytes : (x : ℕ) → IsU16 x → from16 (u8 x) (u8 (x / 2 ^ 8)) ≡ x
from16-bytes x h = omega arith

pub from32-bytes :
    (x : ℕ) → IsU32 x → from32 (u8 x) (u8 (x / 2 ^ 8)) (u8 (x / 2 ^ 16)) (u8 (x / 2 ^ 24)) ≡ x
from32-bytes x h = omega arith

high_half :
    (x : ℕ)
    → (u8 (x / 2 ^ 32) ≡ u8 (x / 2 ^ 32))
      × (u8 (x / 2 ^ 40) ≡ u8 (x / 2 ^ 32 / 2 ^ 8))
      × (u8 (x / 2 ^ 48) ≡ u8 (x / 2 ^ 32 / 2 ^ 16))
      × (u8 (x / 2 ^ 56) ≡ u8 (x / 2 ^ 32 / 2 ^ 24))
high_half x = omega arith

from32_low :
    (x : ℕ) → from32 (u8 x) (u8 (x / 2 ^ 8)) (u8 (x / 2 ^ 16)) (u8 (x / 2 ^ 24)) ≡ x % 2 ^ 32
from32_low x = omega arith

pub from64-bytes :
    (x : ℕ)
    → IsU64 x
    → from64
        (u8 x)
        (u8 (x / 2 ^ 8))
        (u8 (x / 2 ^ 16))
        (u8 (x / 2 ^ 24))
        (u8 (x / 2 ^ 32))
        (u8 (x / 2 ^ 40))
        (u8 (x / 2 ^ 48))
        (u8 (x / 2 ^ 56))
      ≡ x
from64-bytes x h =
    let (_, e, f, g) = high_half x in
    rw (e, f, g, from32_low x, from32-bytes (x / 2 ^ 32) (omega arith)) (omega arith)
