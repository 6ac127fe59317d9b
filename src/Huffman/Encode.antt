-- ===== src/Huffman/Encode.antt =====
-- src/huffman.c: huffman_encode. The vector of nodes is the list of its contents, on which
-- ptrv_insort is the insertion of PtrV.Order. `none` is a shift by 32 bits or more, or a write
-- outside the block of bits.
use Prim.Native.Nat.{bit_xor}
use microdc.Prelude.{
  ℕ, zero, suc, ◌+◌, ◌-◌, ◌*◌, ◌/◌, ◌%◌, ◌^◌, ◌==◌, ltb, leb, Bool, true, false, Option, none, some,
  List, [], ◌∷◌, ◌++◌, ◌>>=◌, length, replicate, if◌then◌else◌,
}
use microdc.Prelude.Text.{Bytes}
use microdc.PtrV.Order.{insert}
use microdc.Huffman.Bits.{byte_boundary, set_bit, pack}

pub record BitsNode : Type 0 where
  pub code : ℕ
  pub bitcount : ℕ

pub data EncodeNode : Type 0 where
  leaf : ℕ → ℕ → EncodeNode
  branch : ℕ → EncodeNode → EncodeNode → EncodeNode

abbrev pub node_count : EncodeNode → ℕ
node_count (leaf n value) = n
node_count (branch n left right) = n

abbrev pub is_leaf : EncodeNode → Bool
is_leaf (leaf n value) = true
is_leaf (branch n left right) = false

-- compare_encode_node(a, b) <= 0; the difference of the counts is a uint32_t read as an int
unfoldable pub before : EncodeNode → EncodeNode → Bool
before a b =
    if node_count a == node_count b
    then is_leaf a
    else leb (2 ^ 31) ((node_count a + 2 ^ 32 - node_count b) % 2 ^ 32)

-- counts[c]; there are fewer than 2 ^ 32 bytes
unfoldable pub count : ℕ → Bytes → ℕ
count c [] = 0
count c (b ∷ s) = if b == c then count c s + 1 else count c s

-- `n` numbers from `c` on
unfoldable pub range : ℕ → ℕ → List ℕ
range c zero = []
range c (suc n) = c ∷ range (c + 1) n

-- the loop that makes a leaf for each byte that occurs
unfoldable pub add_leaves : Bytes → List ℕ → List EncodeNode → List EncodeNode
add_leaves s [] tree = tree
add_leaves s (c ∷ cs) tree =
    add_leaves s cs (if ltb 0 (count c s) then insert before (leaf (count c s) c) tree else tree)

-- the loop that joins the first two nodes until one is left; each round takes one away
unfoldable pub join_nodes : ℕ → List EncodeNode → List EncodeNode
join_nodes zero tree = tree
join_nodes (suc fuel) [] = []
join_nodes (suc fuel) (a ∷ []) = a ∷ []
join_nodes (suc fuel) (a ∷ b ∷ tree) =
    join_nodes fuel (insert before (branch ((node_count a + node_count b) % 2 ^ 32) a b) tree)

-- ptrv_remove_first
abbrev pub first : List EncodeNode → Option EncodeNode
first [] = none
first (a ∷ tree) = some a

unfoldable pub huffman_tree : Bytes → Option EncodeNode
huffman_tree s = let tree = add_leaves s (range 0 256) [] in first (join_nodes (length tree) tree)

abbrev pub Table : Type 0
Table = ℕ → BitsNode

abbrev pub update : Table → ℕ → BitsNode → Table
update table c v d = if d == c then v else table d

unfoldable pub make_huffman_bits : Table → EncodeNode → ℕ → ℕ → Table
make_huffman_bits table (leaf n value) bitcount code =
    update table value (record { code = code; bitcount = bitcount % 256 })
make_huffman_bits table (branch n left right) bitcount code =
    make_huffman_bits (make_huffman_bits table left (bitcount + 1) ((code * 2 + 0) % 2 ^ 32)) right
      (bitcount + 1) ((code * 2 + 1) % 2 ^ 32)

-- add_bits, with the number of bits that are left to do
unfoldable pub add_bits : List Bool → ℕ → ℕ → ℕ → Option (List Bool)
add_bits bits pos code zero = some bits
add_bits bits pos code (suc n) =
    (if ltb 31 n then none else if code / 2 ^ n % 2 == 1 then set_bit bits pos else some bits)
    >>= λ bits'. add_bits bits' (pos + 1) code n

-- the codes of the given bytes, one behind the other, and the position behind them
unfoldable pub add_codes : Table → List ℕ → List Bool → ℕ → Option (List Bool × ℕ)
add_codes table [] bits pos = some (bits, pos)
add_codes table (c ∷ cs) bits pos = add_bits bits pos (table c).code (table c).bitcount >>= λ bits'.
    add_codes table cs bits' (pos + (table c).bitcount)

-- the bytes that occur, in order
unfoldable pub symbols : Bytes → List ℕ → List ℕ
symbols s [] = []
symbols s (c ∷ cs) = if count c s == 0 then symbols s cs else c ∷ symbols s cs

unfoldable pub leaf_data : Table → List ℕ → Bytes
leaf_data table [] = []
leaf_data table (c ∷ cs) = c ∷ (table c).bitcount ∷ leaf_data table cs

-- `keybits` and `bits`; the product of the latter is a uint32_t
unfoldable pub key_bits : Table → List ℕ → ℕ
key_bits table [] = 0
key_bits table (c ∷ cs) = (table c).bitcount + key_bits table cs

unfoldable pub text_bits : Table → Bytes → List ℕ → ℕ
text_bits table s [] = 0
text_bits table s (c ∷ cs) = (table c).bitcount * count c s % 2 ^ 32 + text_bits table s cs

unfoldable pub parity : Bytes → ℕ → ℕ
parity [] p = p
parity (b ∷ s) p = parity s (bit_xor p b)

-- uint32_t and uint16_t as they stand in memory
abbrev pub le32 : ℕ → Bytes → Bytes
le32 n rest = (n % 256) ∷ (n / 256 % 256) ∷ (n / 65536 % 256) ∷ (n / 16777216 % 256) ∷ rest

abbrev pub le16 : ℕ → Bytes → Bytes
le16 n rest = (n % 256) ∷ (n / 256 % 256) ∷ rest

-- the block of bits: the codes of all bytes that occur, and from the next byte on those of the text
unfoldable pub bit_data : Table → Bytes → List ℕ → ℕ → Option (List Bool)
bit_data table s cs bits = add_codes table cs (replicate bits false) 0 >>= λ keys.
    add_codes table s keys.0 (byte_boundary keys.1) >>= λ text. some text.0

-- the bits of the block: BYTE_BOUNDARY(bits) + BYTE_BOUNDARY(keybits)
unfoldable pub block_bits : Table → Bytes → List ℕ → ℕ
block_bits table s cs = byte_boundary (text_bits table s cs) + byte_boundary (key_bits table cs)

-- what is written for a text that is not empty, given the root of the tree
unfoldable pub encode_with : Bytes → EncodeNode → Option Bytes
encode_with s root =
    let table = make_huffman_bits (λ c. record { code = 0; bitcount = 0 }) root 0 0 in
    let cs = symbols s (range 0 256) in
    let bits = block_bits table s cs in
    bit_data table s cs bits >>= λ out. some (
      b'H'
      ∷ b'E'
      ∷ b'3'
      ∷ 13
      ∷ parity s 0
      ∷ le32 (length s) (le16 (length cs) (leaf_data table cs ++ pack (bits / 8) out)))

unfoldable pub huffman_encode : Bytes → Option Bytes
huffman_encode [] = some (b'H' ∷ b'E' ∷ b'3' ∷ 13 ∷ replicate 7 0)
huffman_encode (b ∷ s) = huffman_tree (b ∷ s) >>= encode_with (b ∷ s)
