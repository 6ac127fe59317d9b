-- ===== src/Huffman/RoundTrip.antt =====
-- src/huffman.c: huffman_decode after huffman_encode.
use microdc.Prelude.{
  ℕ, ◌^◌, ◌==◌, ◌<◌, ◌≤◌, ◌≡◌, refl, ◌∙◌, ap, arith, true, some, List, [], ◌∷◌, length, replicate,
  ==_iff,
}
use microdc.Prelude.Text.{Bytes, All}
use microdc.Huffman.Encode.{
  EncodeNode, Table, count, range, symbols, parity, make_huffman_bits, block_bits, encode_with,
  huffman_tree, huffman_encode,
}
use microdc.Huffman.Decode.{
  plant_all, decode_text, read_leaves, leaf_data_len, decode_leaves, huffman_decode,
}
use microdc.Huffman.Tree.{member, depth, huffman_tree_total}
use microdc.Huffman.Codes.{no_codes, table_lem}
use microdc.Huffman.Writing.{code, bit_data_lem}
use microdc.Huffman.Counting.{
  count-All, symbols-All, All-count, All-symbols, length-symbols, text_bits-key_bits,
}
use microdc.Huffman.Trie.{chr_at}
use microdc.Huffman.Planting.{put_all, Leads, put_all_lem}
use microdc.Huffman.Block.{empty_node, written, small_block, huffman_decode-written}

parity_same : (p : ℕ) → (p == p) ≡ true
parity_same p = (==_iff p p).1 refl

table_of : EncodeNode → Table
table_of root = make_huffman_bits no_codes root 0 0

-- the bytes that occur
abbrev occurring : Bytes → List ℕ
occurring s = symbols s (range 0 256)

encode_with_lem :
    (s : Bytes) (root : EncodeNode)
    → All (λ b. b < 256) s
    → length s < 2 ^ 26
    → ((c : ℕ) → 0 < count c s → (table_of root c).bitcount ≤ 32)
    → encode_with s root ≡ some (written (table_of root) (occurring s) s)
unfolding encode_with table_of written block_bits
encode_with_lem s root bytes short small =
    let table = table_of root in
    let cs = occurring s in
    rw
      (
        text_bits-key_bits table s bytes short small,
        bit_data_lem table s cs (symbols-All s (range 0 256) small) (count-All s small),
      )
      refl

-- Each byte of a text has a short code, which leads to it.
entries :
    (s : Bytes) (root : EncodeNode)
    → depth root ≤ 32
    → ((c : ℕ) → 0 < count c s → member c root ≡ true)
    → (c : ℕ) → 0 < count c s
    → ((table_of root c).bitcount ≤ 32) × Leads root (table_of root) c
unfolding table_of
entries s root shallow inside c more = table_lem root c shallow (inside c more)

decode_lem :
    (s : Bytes) (root : EncodeNode)
    → All (λ b. b < 256) s
    → length s < 2 ^ 26
    → ((c : ℕ) → 0 < count c s → ((table_of root c).bitcount ≤ 32) × Leads root (table_of root) c)
    → huffman_decode (written (table_of root) (occurring s) s) ≡ some (some (s, true))
decode_lem s root bytes short entry =
    let table = table_of root in
    let cs = occurring s in
    let small : (c : ℕ) → 0 < count c s → (table c).bitcount ≤ 32 = λ c more. (entry c more).0 in
    let leads : (c : ℕ) → 0 < count c s → Leads root table c = λ c more. (entry c more).1 in
    let all_lead = symbols-All s (range 0 256) leads in
    let found = put_all_lem root table cs empty_node all_lead in
    let at_code : ℕ → Type 0 = λ c. chr_at (put_all table cs empty_node) (code table c) ≡ some c in
    let fits =
      small_block table cs s short (length-symbols s) (symbols-All s (range 0 256) small)
        (count-All s small) in
    let both_found = count-All {P = λ c. (at_code c) × Leads root table c} s (λ c more. (
      All-symbols at_code s 0 256 c (omega arith)
          (omega (arith, All-count (λ b. b < 256) s bytes c more)) more found,
      leads c more,
    )) in
    huffman_decode-written table cs s root fits short (length-symbols s) all_lead both_found
    ∙ ap (λ b. some (some (s, b))) (parity_same (parity s 0))

-- A text of bytes that is shorter than 2 ^ 26 is encoded without an error, and huffman_decode
-- returns the text for the result and finds the parity right, provided that the tree of the text,
-- if it has one, is at most 32 deep.
pub huffman_decode-huffman_encode :
    (s : Bytes)
    → All (λ c. c < 256) s
    → length s < 2 ^ 26
    → ((root : EncodeNode) → huffman_tree s ≡ some root → depth root ≤ 32)
    → (out : Bytes) × (huffman_encode s ≡ some out) × (huffman_decode out ≡ some (some (s, true)))
unfolding huffman_encode
huffman_decode-huffman_encode [] bytes short shallow = (
  b'H' ∷ b'E' ∷ b'3' ∷ 13 ∷ replicate 7 0,
  refl,
  unfold huffman_decode read_leaves decode_leaves leaf_data_len plant_all decode_text parity in
      refl,
)
huffman_decode-huffman_encode (b ∷ s) bytes short shallow =
    let (root, made, inside) = huffman_tree_total b s bytes.0 in
    let there : (c : ℕ) → 0 < count c (b ∷ s) → member c root ≡ true =
      λ c more. inside c (All-count (λ d. d < 256) (b ∷ s) bytes c more) more in
    let entry = entries (b ∷ s) root (shallow root made) there in
    (
      written (table_of root) (occurring (b ∷ s)) (b ∷ s),
      rw made (encode_with_lem (b ∷ s) root bytes short (λ c more. (entry c more).0)),
      decode_lem (b ∷ s) root bytes short entry,
    )
