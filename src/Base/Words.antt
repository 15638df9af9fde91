-- ===== src/Base/Words.antt =====
-- Fields of machine words, flags, and signed return codes.
use Prim.Native.Nat.{ℕ, zero, suc, ◌+◌, ◌-◌, ◌*◌, ◌/◌, ◌%◌}
use mathlib.Core.Path.{◌≡◌, refl}
use mathlib.Core.Bool.{Bool, true, false}
use native.Mathlib.Omega.{arith}
use ship_server.Base.Tests.{◌==◌, ltb}

-- The integers a C function returns; `negsuc n` is -(n + 1).
pub data ℤ : Type 0 where
  pos : ℕ → ℤ
  negsuc : ℕ → ℤ

-- The return code -n.
abbrev pub neg : ℕ → ℤ
neg zero = pos 0
neg (suc n) = negsuc n

abbrev pub is_zero : ℤ → Bool
is_zero (pos n) = n == 0
is_zero (negsuc n) = false

abbrev pub ltb_ℤ : ℤ → ℤ → Bool
ltb_ℤ (pos a) (pos b) = ltb a b
ltb_ℤ (pos a) (negsuc b) = false
ltb_ℤ (negsuc a) (pos b) = true
ltb_ℤ (negsuc a) (negsuc b) = ltb b a

pub ltb_ℤ_irrefl : (a : ℤ) → ltb_ℤ a a ≡ false
ltb_ℤ_irrefl (pos a) = ground arith
ltb_ℤ_irrefl (negsuc a) = ground arith

-- a < b and b ≤ c give a < c.
pub ltb_ℤ_trans : (a b c : ℤ) → ltb_ℤ a b ≡ true → ltb_ℤ c b ≡ false → ltb_ℤ a c ≡ true
ltb_ℤ_trans (pos a) (pos b) (pos c) h k = ground arith
ltb_ℤ_trans (pos a) (pos b) (negsuc c) h k = cc
ltb_ℤ_trans (pos a) (negsuc b) c h k = cc
ltb_ℤ_trans (negsuc a) (pos b) (pos c) h k = refl
ltb_ℤ_trans (negsuc a) (pos b) (negsuc c) h k = cc
ltb_ℤ_trans (negsuc a) (negsuc b) (pos c) h k = refl
ltb_ℤ_trans (negsuc a) (negsuc b) (negsuc c) h k = ground arith

abbrev pub u8 : ℕ
u8 = 256

abbrev pub u16 : ℕ
u16 = 65536

abbrev pub u32 : ℕ
u32 = 4294967296

abbrev pub u32_max : ℕ
u32_max = 4294967295

-- `word & bit` for a mask of one bit.
abbrev pub has_flag : ℕ → ℕ → Bool
has_flag word bit = (word / bit) % 2 == 1

-- `word & ~bit` for a mask of one bit.
abbrev pub clear_flag : ℕ → ℕ → ℕ
clear_flag word bit = word - bit * ((word / bit) % 2)

-- `word | bit` for a mask of one bit.
abbrev pub set_flag : ℕ → ℕ → ℕ
set_flag word bit = word + bit * (1 - (word / bit) % 2)

-- The byte of a little-endian word: `data_b[k]` for the word that holds it at position k.
abbrev pub byte0 : ℕ → ℕ
byte0 word = word % 256

abbrev pub byte1 : ℕ → ℕ
byte1 word = (word / 256) % 256

-- The write of byte 1, reduced to eight bits.
abbrev pub set_byte1 : ℕ → ℕ → ℕ
set_byte1 word v = word - 256 * ((word / 256) % 256) + 256 * (v % 256)

pub byte1-set_byte1 : (word v : ℕ) → byte1 (set_byte1 word v) ≡ v % 256
byte1-set_byte1 word v = omega arith
