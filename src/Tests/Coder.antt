-- ===== src/Tests/Coder.antt =====
-- The theorems about src/huffman.c at concrete texts.
use microdc.Prelude.{
  ◌∙◌, ◌==◌, if◌then◌else◌, ℕ, ◌≤◌, ◌<◌, ◌≡◌, refl, sym, ap, arith, true, Option, none, some, List,
  Bool, length,
}
use microdc.Prelude.Text.{Bytes, codes}
use microdc.PtrV.Order.{insert}
use microdc.Huffman.Encode.{
  EncodeNode, leaf, branch, Table, count, range, add_leaves, join_nodes, huffman_tree, before,
  symbols, block_bits, bit_data, huffman_encode, make_huffman_bits,
}
use microdc.Huffman.Decode.{huffman_decode}
use microdc.Huffman.Tree.{member, depth, huffman_tree_total}
use microdc.Huffman.Codes.{at_path, code_bits, no_codes, table_lem}
use microdc.Huffman.Writing.{both}
use microdc.Huffman.Room.{block_bits-bit_data}
use microdc.Huffman.RoundTrip.{huffman_decode-huffman_encode}

abbrev text : Bytes
text = codes "abcaa"

abbrev tree : EncodeNode
tree = branch 5 (branch 2 (leaf 1 b'c') (leaf 1 b'b')) (leaf 3 b'a')

tree_lem : huffman_tree text ≡ some tree
unfolding huffman_tree add_leaves join_nodes insert before count range
tree_lem = refl

abbrev depth_of : Option EncodeNode → ℕ
depth_of none = 0
depth_of (some root) = depth root

deep : depth_of (some tree) ≡ 2
unfolding depth
deep = refl

huffman_decode-huffman_encode_example :
    (out : Bytes) × (huffman_encode text ≡ some out)
    × (huffman_decode out ≡ some (some (text, true)))
huffman_decode-huffman_encode_example =
    huffman_decode-huffman_encode text
      (omega arith, (omega arith, (omega arith, (omega arith, (omega arith, tt))))) (omega arith)
      (λ root made. omega (arith, ap depth_of (sym made ∙ tree_lem), deep))

huffman_tree_total_example :
    (root : EncodeNode) × (huffman_tree text ≡ some root)
    × ((c : ℕ) → c < 256 → 0 < count c text → member c root ≡ true)
huffman_tree_total_example = huffman_tree_total b'a' (codes "bcaa") (omega arith)

table_example :
    ((make_huffman_bits no_codes tree 0 0 b'b').bitcount ≤ 32)
    × (at_path tree (
          code_bits
            (make_huffman_bits no_codes tree 0 0 b'b').bitcount
            (make_huffman_bits no_codes tree 0 0 b'b').code)
        ≡ some b'b')
table_example = table_lem tree b'b' (omega (arith, deep)) (unfold member in refl)

-- two codes of one and three bits
abbrev table : Table
table c = if c == b'a' then record { code = 1; bitcount = 1 } else record { code = 2; bitcount = 3 }

bit_data_example :
    (out : List Bool) × (bit_data table text
        (symbols text (range 0 256))
        (block_bits table text (symbols text (range 0 256)))
      ≡ some out)
    × (out ≡ both table (symbols text (range 0 256)) text)
    × (length out ≡ block_bits table text (symbols text (range 0 256)))
bit_data_example =
    block_bits-bit_data table text
      (omega arith, (omega arith, (omega arith, (omega arith, (omega arith, tt))))) (omega arith)
      (omega arith, (omega arith, (omega arith, (omega arith, (omega arith, tt)))))
