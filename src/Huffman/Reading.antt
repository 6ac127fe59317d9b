-- ===== src/Huffman/Reading.antt =====
-- src/huffman.c: the block as huffman_decode reads it, bit by bit, and that it reads the bits that
-- huffman_encode has packed.
use native.Mathlib.Nat.{pow-suc, div-div-eq-div-mul, mul_comm}
use microdc.Prelude.{
  ℕ, zero, suc, ◌+◌, ◌*◌, ◌/◌, ◌%◌, ◌^◌, ◌==◌, ◌<◌, ◌≡◌, refl, sym, ◌∙◌, ap, ap₂, arith, Bool, true,
  false, Option, some, List, [], ◌∷◌, ◌++◌, ◌>>=◌, append_assoc, length, length-append, get_elem?,
  take, drop, length-take, length-drop, take-append-drop,
}
use microdc.Prelude.Text.{Bytes}
use microdc.Huffman.Bits.{bit, get_bit, byte_of, pack}

-- the lowest bits of a number, the lowest first
byte_bits : ℕ → ℕ → List Bool
byte_bits zero x = []
byte_bits (suc n) x = (x % 2 == 1) ∷ byte_bits n (x / 2)

-- the bits of a block, in the order in which they are read
pub unpack : Bytes → List Bool
unpack [] = []
unpack (x ∷ s) = byte_bits 8 x ++ unpack s

length-byte_bits : (n x : ℕ) → length (byte_bits n x) ≡ n
unfolding byte_bits
length-byte_bits zero x = refl
length-byte_bits (suc n) x = ap suc (length-byte_bits n (x / 2))

pub length-unpack : (s : Bytes) → length (unpack s) ≡ 8 * length s
unfolding unpack
length-unpack [] = refl
length-unpack (x ∷ s) =
    omega (arith, length-append (byte_bits 8 x) (unpack s), length-byte_bits 8 x, length-unpack s)

pub unpack_append : (s t : Bytes) → unpack (s ++ t) ≡ unpack s ++ unpack t
unfolding unpack
unpack_append [] t = refl
unpack_append (x ∷ s) t =
    ap (λ l. byte_bits 8 x ++ l) (unpack_append s t)
    ∙ sym (append_assoc (byte_bits 8 x) (unpack s) (unpack t))

pub get_elem-middle :
    (pre rest : List Bool) (b : Bool) → get_elem? (pre ++ b ∷ rest) (length pre) ≡ some b
get_elem-middle [] rest b = refl
get_elem-middle (x ∷ pre) rest b = get_elem-middle pre rest b

elem_left : (xs ys : List Bool) (i : ℕ) → i < length xs → get_elem? (xs ++ ys) i ≡ get_elem? xs i
elem_left [] ys i h = absurd (omega arith)
elem_left (x ∷ xs) ys zero h = refl
elem_left (x ∷ xs) ys (suc i) h = elem_left xs ys i (omega arith)

elem_right : (xs ys : List Bool) (i : ℕ) → get_elem? (xs ++ ys) (length xs + i) ≡ get_elem? ys i
elem_right [] ys i = ap (get_elem? ys) (omega arith)
elem_right (x ∷ xs) ys i =
    let next : suc (length xs) + i ≡ suc (length xs + i) = omega arith in
    rw next (elem_right xs ys i)

byte_bit : (n x i : ℕ) → i < n → get_elem? (byte_bits n x) i ≡ some (x / 2 ^ i % 2 == 1)
unfolding byte_bits
byte_bit zero x i h = absurd (omega arith)
byte_bit (suc n) x zero h = let same : x / 2 ^ 0 ≡ x = omega arith in rw same refl
byte_bit (suc n) x (suc i) h =
    let deeper : x / 2 ^ suc i ≡ x / 2 / 2 ^ i =
      ap (λ m. x / m) (pow-suc 2 i ∙ mul_comm (2 ^ i) 2) ∙ sym (div-div-eq-div-mul x 2 (2 ^ i)) in
    rw deeper (byte_bit n (x / 2) i (omega arith))

read_byte : Bytes → ℕ → ℕ → Option Bool
read_byte block byte i = get_elem? block byte >>= λ b. some (b / 2 ^ i % 2 == 1)

read_byte_lem :
    (block : Bytes) (byte i : ℕ)
    → i < 8
    → read_byte block byte i ≡ get_elem? (unpack block) (8 * byte + i)
unfolding read_byte unpack
read_byte_lem [] byte i h = refl
read_byte_lem (x ∷ block) zero i h =
    let place : 8 * 0 + i ≡ i = omega arith in
    rw place (
      sym (
        elem_left (byte_bits 8 x) (unpack block) i (omega (arith, length-byte_bits 8 x))
        ∙ byte_bit 8 x i h))
read_byte_lem (x ∷ block) (suc byte) i h =
    let len = length-byte_bits 8 x in
    let place : 8 * suc byte + i ≡ length (byte_bits 8 x) + (8 * byte + i) = omega (arith, len) in
    rw (place, elem_right (byte_bits 8 x) (unpack block) (8 * byte + i))
      (read_byte_lem block byte i h)

-- GET_BIT reads the bits in this order.
pub get_bit_lem : (block : Bytes) (pos : ℕ) → get_bit block pos ≡ get_elem? (unpack block) pos
unfolding get_bit read_byte
get_bit_lem block pos =
    let place : 8 * (pos / 8) + pos % 8 ≡ pos = omega arith in
    let here : read_byte block (pos / 8) (pos % 8)
        ≡ get_elem? (unpack block) (8 * (pos / 8) + pos % 8) =
      read_byte_lem block (pos / 8) (pos % 8) (omega arith) in
    here ∙ ap (get_elem? (unpack block)) place

half : (b : Bool) (n : ℕ) → ((bit b + 2 * n) % 2 == 1) ≡ b
half true n = ground arith
half false n = ground arith

rest_of : (b : Bool) (n : ℕ) → (bit b + 2 * n) / 2 ≡ n
rest_of true n = omega arith
rest_of false n = omega arith

byte_bits-byte_of : (bits : List Bool) → byte_bits (length bits) (byte_of bits) ≡ bits
unfolding byte_bits byte_of
byte_bits-byte_of [] = refl
byte_bits-byte_of (b ∷ bits) =
    ap₂ (λ x xs. x ∷ xs) (half b (byte_of bits))
      (ap (byte_bits (length bits)) (rest_of b (byte_of bits)) ∙ byte_bits-byte_of bits)

-- The bits that are packed into bytes are read again.
pub unpack-pack : (n : ℕ) (bits : List Bool) → length bits ≡ 8 * n → unpack (pack n bits) ≡ bits
unfolding unpack pack
unpack-pack zero [] h = refl
unpack-pack zero (b ∷ bits) h = absurd (omega arith)
unpack-pack (suc n) bits h =
    let whole : length (take 8 bits) ≡ 8 = omega (arith, length-take 8 bits) in
    let front : byte_bits 8 (byte_of (take 8 bits)) ≡ take 8 bits =
      ap (λ m. byte_bits m (byte_of (take 8 bits))) (sym whole) ∙ byte_bits-byte_of (take 8 bits) in
    ap₂ (λ xs ys. xs ++ ys) front (unpack-pack n (drop 8 bits) (omega (arith, length-drop 8 bits)))
    ∙ take-append-drop 8 bits

pub length-pack : (n : ℕ) (bits : List Bool) → length (pack n bits) ≡ n
unfolding pack
length-pack zero bits = refl
length-pack (suc n) bits = ap suc (length-pack n (drop 8 bits))
