-- ===== src/Huffman/Block.antt =====
-- src/huffman.c: huffman_decode on a block of the form that huffman_encode writes.
use microdc.Prelude.{
  ℕ, suc, ◌+◌, ◌*◌, ◌/◌, ◌%◌, ◌^◌, ◌==◌, ltb, ◌<◌, ◌≤◌, ◌≡◌, refl, sym, ◌∙◌, ap, arith, Bool, true,
  false, none, some, List, [], ◌∷◌, ◌++◌, append_assoc, length, length-append, length-replicate,
}
use microdc.Prelude.Text.{Bytes, All}
use microdc.Huffman.Bits.{byte_boundary, pack}
use microdc.Huffman.Encode.{EncodeNode, Table, key_bits, leaf_data, parity, le32, le16}
use microdc.Huffman.Decode.{BranchNode, null, node, boundary32, decode_leaves, huffman_decode}
use microdc.Huffman.Writing.{zeros, code, codes_of, length-codes_of, pad, both, length-both}
use microdc.Huffman.Reading.{unpack, length-unpack, unpack_append, unpack-pack}
use microdc.Huffman.Trie.{chr_at, Sound}
use microdc.Huffman.Planting.{
  leaves, length-leaves, length-leaf_data, leaf_data_len_lem, read_leaves_lem, put_all,
  plant_all_lem, Leads, put_all-Sound, decode_text_lem,
}

abbrev pub empty_node : BranchNode
empty_node = node null null none

empty_node-Sound : (root : EncodeNode) → Sound empty_node root
unfolding chr_at
empty_node-Sound root [] d e = ground arith
empty_node-Sound root (true ∷ q) d e = ground arith
empty_node-Sound root (false ∷ q) d e = ground arith

abbrev text_of : Table → List ℕ → List Bool
text_of table s = codes_of table s ++ zeros (pad (key_bits table s))

both_keys :
    (table : Table) (cs s : List ℕ)
    → both table cs s ≡ codes_of table cs ++ (zeros (pad (key_bits table cs)) ++ text_of table s)
unfolding both
both_keys table cs s =
    append_assoc (codes_of table cs) (zeros (pad (key_bits table cs))) (text_of table s)

both_text :
    (pre : List Bool) (table : Table) (cs s : List ℕ)
    → pre ++ both table cs s
      ≡ (pre ++ (codes_of table cs ++ zeros (pad (key_bits table cs)))) ++ text_of table s
unfolding both
both_text pre table cs s =
    sym (append_assoc pre (codes_of table cs ++ zeros (pad (key_bits table cs))) (text_of table s))

-- the lengths of the parts of the block
parts :
    (block : Bytes) (table : Table) (cs s : List ℕ) (pre : List Bool)
    → unpack block ≡ pre ++ both table cs s
    → 8 * length block
      ≡ length pre + (byte_boundary (key_bits table s) + byte_boundary (key_bits table cs))
parts block table cs s pre e =
    sym (length-unpack block)
    ∙ (ap length e
        ∙ (length-append pre (both table cs s) ∙ ap (λ m. length pre + m) (length-both table cs s)))

-- huffman_decode once the leaves are read
decode_leaves_lem :
    (block : Bytes) (p : ℕ) (pre : List Bool) (table : Table) (cs s : List ℕ) (root : EncodeNode)
    → 8 * length block < 2 ^ 32
    → length s < 2 ^ 26
    → length pre ≡ 8 * (11 + 2 * length cs)
    → unpack block ≡ pre ++ both table cs s
    → All (Leads root table) cs
    → All
        (λ c. (chr_at (put_all table cs empty_node) (code table c) ≡ some c) × Leads root table c)
        s
    → decode_leaves block p (length s) (leaves table cs) ≡ some (some (s, parity s 0 == p))
unfolding decode_leaves
decode_leaves_lem block p pre table cs s root small short start e h g =
    let size = parts block table cs s pre e in
    let keys = key_bits table cs in
    let tree = put_all table cs empty_node in
    let front = pre ++ (codes_of table cs ++ zeros (pad keys)) in
    let e_keys : unpack block
        ≡ pre ++ (codes_of table cs ++ (zeros (pad keys) ++ text_of table s)) =
      e ∙ ap (λ l. pre ++ l) (both_keys table cs s) in
    let e_text : unpack block ≡ front ++ text_of table s = e ∙ both_text pre table cs s in
    let fits : ltb (length block) (11 + 2 * length cs + boundary32 keys / 8) ≡ false =
      ground (arith, size) in
    let first_bit : (11 + 2 * length cs) * 8 % 2 ^ 32 ≡ length pre = omega (arith, size) in
    let len_codes = length-append pre (codes_of table cs) in
    let len_front = length-append pre (codes_of table cs ++ zeros (pad keys)) in
    let len_keys = length-append (codes_of table cs) (zeros (pad keys)) in
    let len_pad = length-replicate (pad keys) false in
    let keys_len = length-codes_of table cs in
    let first_text : boundary32 (length (pre ++ codes_of table cs)) ≡ length front =
      omega (arith, size) in
    let room : (length s + 1) % 2 ^ 32 ≡ suc (length s) = omega arith in
    rw
      (
        length-leaves table cs,
        leaf_data_len_lem table cs,
        fits,
        first_bit,
        plant_all_lem block table cs pre (zeros (pad keys) ++ text_of table s) empty_node small
            e_keys,
        first_text,
        room,
        decode_text_lem block table root tree s front (zeros (pad (key_bits table s))) small e_text
            (put_all-Sound root table cs empty_node h (empty_node-Sound root)) g,
      )
      refl

-- what huffman_encode writes
unfoldable pub written : Table → List ℕ → Bytes → Bytes
written table cs s =
    b'H'
    ∷ b'E'
    ∷ b'3'
    ∷ 13
    ∷ parity s 0
    ∷ le32 (length s) (
        le16 (length cs) (
          leaf_data table cs
          ++ pack ((byte_boundary (key_bits table s) + byte_boundary (key_bits table cs)) / 8)
              (both table cs s)))

abbrev header : List ℕ → Bytes → Bytes
header cs s = b'H' ∷ b'E' ∷ b'3' ∷ 13 ∷ parity s 0 ∷ le32 (length s) (le16 (length cs) [])

abbrev bytes_of : Table → List ℕ → Bytes → ℕ
bytes_of table cs s = (byte_boundary (key_bits table s) + byte_boundary (key_bits table cs)) / 8

unpack-written :
    (table : Table) (cs s : List ℕ)
    → unpack (written table cs s) ≡ unpack (header cs s ++ leaf_data table cs) ++ both table cs s
unfolding written
unpack-written table cs s =
    unpack_append (header cs s ++ leaf_data table cs) (pack (bytes_of table cs s) (both table cs s))
    ∙ ap (λ l. unpack (header cs s ++ leaf_data table cs) ++ l)
        (unpack-pack (bytes_of table cs s) (both table cs s)
          (omega (arith, length-both table cs s)))

length-front :
    (table : Table) (cs s : List ℕ)
    → length (unpack (header cs s ++ leaf_data table cs)) ≡ 8 * (11 + 2 * length cs)
length-front table cs s =
    length-unpack (header cs s ++ leaf_data table cs)
    ∙ omega (arith, length-append (header cs s) (leaf_data table cs), length-leaf_data table cs)

key_bits-le :
    (table : Table) (cs : List ℕ)
    → All (λ c. (table c).bitcount ≤ 32) cs
    → key_bits table cs ≤ 32 * length cs
unfolding key_bits
key_bits-le table [] h = omega arith
key_bits-le table (c ∷ cs) h = omega (arith, h.0, key_bits-le table cs h.1)

pub small_block :
    (table : Table) (cs s : List ℕ)
    → length s < 2 ^ 26
    → length cs ≤ 256
    → All (λ c. (table c).bitcount ≤ 32) cs
    → All (λ c. (table c).bitcount ≤ 32) s
    → 8 * length (written table cs s) < 2 ^ 32
small_block table cs s short few h g = omega (
  arith,
  parts (written table cs s) table cs s (unpack (header cs s ++ leaf_data table cs))
      (unpack-written table cs s),
  length-front table cs s,
  key_bits-le table cs h,
  key_bits-le table s g,
)

pub huffman_decode-written :
    (table : Table) (cs s : List ℕ) (root : EncodeNode)
    → 8 * length (written table cs s) < 2 ^ 32
    → length s < 2 ^ 26
    → length cs ≤ 256
    → All (Leads root table) cs
    → All
        (λ c. (chr_at (put_all table cs empty_node) (code table c) ≡ some c) × Leads root table c)
        s
    → huffman_decode (written table cs s) ≡ some (some (s, parity s 0 == parity s 0))
unfolding huffman_decode written
huffman_decode-written table cs s root small short few h g =
    let size : length s % 256
          + 256 * (length s / 256 % 256)
          + 65536 * (length s / 65536 % 256)
          + 16777216 * (length s / 16777216 % 256)
        ≡ length s =
      omega arith in
    let leaf_count : length cs % 256 + 256 * (length cs / 256 % 256) ≡ length cs = omega arith in
    let behind = pack (bytes_of table cs s) (both table cs s) in
    let split = length-append (leaf_data table cs) behind in
    let data_len = length-leaf_data table cs in
    let whole : ltb (length (written table cs s)) (11 + length cs * 2) ≡ false = ground arith in
    rw (leaf_count, size, whole, read_leaves_lem table cs behind)
      (decode_leaves_lem (written table cs s) (parity s 0)
        (unpack (header cs s ++ leaf_data table cs)) table cs s root small short
        (length-front table cs s) (unpack-written table cs s) h g)
