-- ===== src/Huffman/Bits.antt =====
-- src/huffman.c: single bits of a block of bytes, the lowest bit of a byte first.
use microdc.Prelude.{
  ℕ, zero, suc, ◌+◌, ◌*◌, ◌/◌, ◌%◌, ◌^◌, ◌==◌, ltb, Bool, true, false, Option, none, some, List, [],
  ◌∷◌, ◌>>=◌, length, get_elem?, set, take, drop, if◌then◌else◌,
}
use microdc.Prelude.Text.{Bytes}

abbrev pub bit : Bool → ℕ
bit true = 1
bit false = 0

-- BYTE_BOUNDARY
abbrev pub byte_boundary : ℕ → ℕ
byte_boundary pos = (pos + 7) / 8 * 8

-- GET_BIT; `none` is a read behind the block
unfoldable pub get_bit : Bytes → ℕ → Option Bool
get_bit block pos = get_elem? block (pos / 8) >>= λ b. some (b / 2 ^ (pos % 8) % 2 == 1)

-- SET_BIT on a block that is given by its bits
unfoldable pub set_bit : List Bool → ℕ → Option (List Bool)
set_bit bits pos = if ltb pos (length bits) then some (set bits pos true) else none

-- the byte that the first eight bits make
unfoldable pub byte_of : List Bool → ℕ
byte_of [] = 0
byte_of (b ∷ bits) = bit b + 2 * byte_of bits

-- the first `n` bytes that the bits make
unfoldable pub pack : ℕ → List Bool → Bytes
pack zero bits = []
pack (suc n) bits = byte_of (take 8 bits) ∷ pack n (drop 8 bits)
