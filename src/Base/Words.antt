-- ===== src/Base/Words.antt =====
-- Unsigned machine words as native numbers, and their bytes in either order.
use Prim.Native.Nat.{ℕ, zero, suc, ◌+◌, ◌-◌, ◌*◌, ◌/◌, ◌%◌, ◌^◌, ◌<◌, bit_or}
use mathlib.Core.Path.{◌≡◌}
use mathlib.Core.List.{List, [], ◌∷◌}
use native.Mathlib.Omega.{arith}
use aliro_ccc_core.Base.Lists.{get_or, All}
use aliro_ccc_core.Base.Bits.{bit_or-shifted, shifted-bit_or}

abbrev pub Bytes : Type 0
Bytes = List ℕ

abbrev pub IsByte : ℕ → Type 0
IsByte b = b < 256

abbrev pub u8 : ℕ → ℕ
u8 n = n % 2 ^ 8

abbrev pub u16 : ℕ → ℕ
u16 n = n % 2 ^ 16

abbrev pub u32 : ℕ → ℕ
u32 n = n % 2 ^ 32

abbrev pub u64 : ℕ → ℕ
u64 n = n % 2 ^ 64

-- Unsigned subtraction; `-` on ℕ stops at 0.
abbrev pub sub_u32 : ℕ → ℕ → ℕ
sub_u32 a b = (a + 2 ^ 32 - b) % 2 ^ 32

abbrev pub sub_u64 : ℕ → ℕ → ℕ
sub_u64 a b = (a + 2 ^ 64 - b) % 2 ^ 64

infixl 75 ◌<<<◌ ◌>>>◌
abbrev pub ◌<<<◌ : ℕ → ℕ → ℕ
x <<< k = x * 2 ^ k

abbrev pub ◌>>>◌ : ℕ → ℕ → ℕ
x >>> k = x / 2 ^ k

-- The byte at an index. Every read of the sources is within a size that was tested before.
abbrev pub byte_at : Bytes → ℕ → ℕ
byte_at bs i = get_or bs i 0

pub byte_at-IsByte : (bs : Bytes) (i : ℕ) → All IsByte bs → IsByte (byte_at bs i)
byte_at-IsByte [] i h = omega arith
byte_at-IsByte (b ∷ bs) zero h = h.0
byte_at-IsByte (b ∷ bs) (suc i) h = byte_at-IsByte bs i h.1

-- `v & 0xFF` is `v % 256`.
abbrev pub le16 : ℕ → Bytes
le16 v = u8 v ∷ u8 (v >>> 8) ∷ []

abbrev pub le32 : ℕ → Bytes
le32 v = u8 v ∷ u8 (v >>> 8) ∷ u8 (v >>> 16) ∷ u8 (v >>> 24) ∷ []

abbrev pub be16 : ℕ → Bytes
be16 v = u8 (v >>> 8) ∷ u8 v ∷ []

abbrev pub be32 : ℕ → Bytes
be32 v = u8 (v >>> 24) ∷ u8 (v >>> 16) ∷ u8 (v >>> 8) ∷ u8 v ∷ []

-- `lo | hi << 8` and the like.
unfoldable pub of_le16 : ℕ → ℕ → ℕ
of_le16 a b = u16 (bit_or a (b <<< 8))

unfoldable pub of_le32 : ℕ → ℕ → ℕ → ℕ → ℕ
of_le32 a b c d = bit_or (bit_or (bit_or a (b <<< 8)) (c <<< 16)) (d <<< 24)

unfoldable pub of_le24 : ℕ → ℕ → ℕ → ℕ
of_le24 a b c = bit_or (bit_or a (b <<< 8)) (c <<< 16)

unfoldable pub of_be16 : ℕ → ℕ → ℕ
of_be16 a b = u16 (bit_or (a <<< 8) b)

unfoldable pub of_be32 : ℕ → ℕ → ℕ → ℕ → ℕ
of_be32 a b c d = bit_or (bit_or (bit_or (a <<< 24) (b <<< 16)) (c <<< 8)) d

pub of_le16_sum : (a b : ℕ) → IsByte a → IsByte b → of_le16 a b ≡ a + b * 256
unfolding of_le16
of_le16_sum a b ha hb = ground (arith, bit_or-shifted 8 a b ha)

pub of_le32_sum :
    (a b c d : ℕ)
    → IsByte a
    → IsByte b
    → IsByte c
    → of_le32 a b c d ≡ a + b * 256 + c * 65536 + d * 16777216
unfolding of_le32
of_le32_sum a b c d ha hb hc = ground (
  arith,
  bit_or-shifted 8 a b ha,
  bit_or-shifted 16 (a + b * 256) c (omega arith),
  bit_or-shifted 24 (a + b * 256 + c * 65536) d (omega arith),
)

pub of_le24_sum : (a b c : ℕ) → IsByte a → IsByte b → of_le24 a b c ≡ a + b * 256 + c * 65536
unfolding of_le24
of_le24_sum a b c ha hb =
    ground (arith, bit_or-shifted 8 a b ha, bit_or-shifted 16 (a + b * 256) c (omega arith))

pub of_be16_sum : (a b : ℕ) → IsByte a → IsByte b → of_be16 a b ≡ a * 256 + b
unfolding of_be16
of_be16_sum a b ha hb = ground (arith, shifted-bit_or 8 a b hb)

disjoint_be : (a b c : ℕ) → (a * 256 + b) * 65536 + c * 256 ≡ (a * 65536 + b * 256 + c) * 256
disjoint_be a b c = omega arith

pub of_be32_sum :
    (a b c d : ℕ)
    → IsByte b
    → IsByte c
    → IsByte d
    → of_be32 a b c d ≡ a * 16777216 + b * 65536 + c * 256 + d
unfolding of_be32
of_be32_sum a b c d hb hc hd = ground (
  arith,
  shifted-bit_or 24 a (b * 65536) (omega arith),
  shifted-bit_or 16 (a * 256 + b) (c * 256) (omega arith),
  shifted-bit_or 8 (a * 65536 + b * 256 + c) d (omega arith),
)

-- Reads of two and four bytes at an index.
abbrev pub read_le16 : Bytes → ℕ → ℕ
read_le16 bs i = of_le16 (byte_at bs i) (byte_at bs (i + 1))

abbrev pub read_le32 : Bytes → ℕ → ℕ
read_le32 bs i =
    of_le32 (byte_at bs i) (byte_at bs (i + 1)) (byte_at bs (i + 2)) (byte_at bs (i + 3))

abbrev pub read_be16 : Bytes → ℕ → ℕ
read_be16 bs i = of_be16 (byte_at bs i) (byte_at bs (i + 1))

abbrev pub read_be32 : Bytes → ℕ → ℕ
read_be32 bs i =
    of_be32 (byte_at bs i) (byte_at bs (i + 1)) (byte_at bs (i + 2)) (byte_at bs (i + 3))

-- What the bytes of a word read back as.
pub of_le16_bytes : (v : ℕ) → v < 2 ^ 16 → of_le16 (u8 v) (u8 (v >>> 8)) ≡ v
of_le16_bytes v h = ground (arith, of_le16_sum (u8 v) (u8 (v >>> 8)))

pub of_le32_bytes :
    (v : ℕ) → v < 2 ^ 32 → of_le32 (u8 v) (u8 (v >>> 8)) (u8 (v >>> 16)) (u8 (v >>> 24)) ≡ v
of_le32_bytes v h =
    ground (arith, of_le32_sum (u8 v) (u8 (v >>> 8)) (u8 (v >>> 16)) (u8 (v >>> 24)))

pub of_be16_bytes : (v : ℕ) → v < 2 ^ 16 → of_be16 (u8 (v >>> 8)) (u8 v) ≡ v
of_be16_bytes v h = ground (arith, of_be16_sum (u8 (v >>> 8)) (u8 v))

pub of_be32_bytes :
    (v : ℕ) → v < 2 ^ 32 → of_be32 (u8 (v >>> 24)) (u8 (v >>> 16)) (u8 (v >>> 8)) (u8 v) ≡ v
of_be32_bytes v h =
    ground (arith, of_be32_sum (u8 (v >>> 24)) (u8 (v >>> 16)) (u8 (v >>> 8)) (u8 v))

pub ruleset word_bytes = (of_le16_bytes, of_le32_bytes, of_be16_bytes, of_be32_bytes)
