-- ===== src/Common/Text.antt =====
-- Byte strings, their comparison, and numbers of a fixed number of bytes.
use Prim.Native.Nat.{ℕ, ◌+◌, ◌*◌, ◌/◌, ◌%◌, ◌<◌, ◌^◌}
use Prim.Native.Char.{code}
use Prim.Native.String.{String}
use mathlib.Core.Bool.{Bool, true, false, ◌&&◌}
use mathlib.Core.Logic.{◌↔◌, ◌≢◌, ◌⊎◌}
use mathlib.Core.Path.{◌≡◌, refl}
use mathlib.Core.List.{List, [], ◌∷◌, ◌++◌}
use native.Mathlib.Omega.{arith}
use syn_os.Common.Tests.{◌==◌}
use syn_os.Common.Lists.{take}

-- A byte is a number below 256; the places that need the bound state it.
abbrev pub Bytes : Type 0
Bytes = List ℕ

-- The bytes of an ASCII literal.
abbrev pub codes : String → Bytes
codes String.[] = []
codes (String.◌∷◌ c s) = code c ∷ codes s

-- `strcmp(a, b) == 0`, and `memcmp` over two buffers of one length
unfoldable pub bytes_eq : Bytes → Bytes → Bool
bytes_eq [] [] = true
bytes_eq (x ∷ xs) (y ∷ ys) = x == y && bytes_eq xs ys
bytes_eq _ _ = false

pub bytes_eq_iff : (a b : Bytes) → (bytes_eq a b ≡ true) ↔ (a ≡ b)
unfolding bytes_eq
bytes_eq_iff (x ∷ a) (y ∷ b) = ground (arith, bytes_eq_iff a b)
bytes_eq_iff _ _ = ground arith

pub bytes_eq_refl : (a : Bytes) → bytes_eq a a ≡ true
bytes_eq_refl a = (bytes_eq_iff a a).1 refl

pub bytes_eq_ne : (a b : Bytes) → a ≢ b → bytes_eq a b ≡ false
bytes_eq_ne a b h = ground (arith, bytes_eq_iff a b)

pub bytes_eq_cases : (a b : Bytes) → (a ≡ b) ⊎ (a ≢ b)
bytes_eq_cases a b = ground (arith, bytes_eq_iff a b)

-- `memcmp(a, b, n) == 0`, for buffers that hold `n` bytes
abbrev pub memcmp_eq : Bytes → Bytes → ℕ → Bool
memcmp_eq a b n = bytes_eq (take n a) (take n b)

-- `htonl`: the four bytes of a `uint32_t`, the highest first
abbrev pub be32 : ℕ → Bytes
be32 n = (n / 0x1000000 % 256) ∷ (n / 0x10000 % 256) ∷ (n / 0x100 % 256) ∷ (n % 256) ∷ []

-- `ntohl` of the first four bytes of a buffer
abbrev pub read_be32 : Bytes → ℕ
read_be32 (a ∷ b ∷ c ∷ d ∷ _) = a * 0x1000000 + b * 0x10000 + c * 0x100 + d
read_be32 _ = 0

pub read_be32-be32 : (n : ℕ) (rest : Bytes) → n < 2 ^ 32 → read_be32 (be32 n ++ rest) ≡ n
read_be32-be32 n rest h = omega arith
