-- ===== src/Huffman/Room.antt =====
-- src/huffman.c: the block of bits that huffman_encode allocates is as large as what it writes there.
use microdc.Prelude.{◌^◌, ◌+◌, ◌<◌, ◌≤◌, ◌≡◌, refl, sym, ◌∙◌, ap, Bool, some, List, length}
use microdc.Prelude.Text.{Bytes, All}
use microdc.Huffman.Bits.{byte_boundary}
use microdc.Huffman.Encode.{Table, range, symbols, key_bits, block_bits, bit_data}
use microdc.Huffman.Writing.{both, length-both, bit_data_lem}
use microdc.Huffman.Counting.{symbols-All, All-count, text_bits-key_bits}

-- For a text of fewer than 2 ^ 26 bytes whose entries in the table have at most 32 bits, the number
-- of bits that is computed from the counts of the bytes is the number of bits that are written: the
-- codes of the bytes that occur and those of the text, each part filled up to a whole byte. They
-- are written without an error, and fill the block.
pub block_bits-bit_data :
    (table : Table) (s : Bytes)
    → All (λ b. b < 256) s
    → length s < 2 ^ 26
    → All (λ b. (table b).bitcount ≤ 32) s
    → (out : List Bool) × (bit_data table s
          (symbols s (range 0 256))
          (block_bits table s (symbols s (range 0 256)))
        ≡ some out)
      × (out ≡ both table (symbols s (range 0 256)) s)
      × (length out ≡ block_bits table s (symbols s (range 0 256)))
unfolding block_bits
block_bits-bit_data table s bytes short entries =
    let cs = symbols s (range 0 256) in
    let small = All-count (λ b. (table b).bitcount ≤ 32) s entries in
    let text = ap byte_boundary (text_bits-key_bits table s bytes short small) in
    (
      both table cs s,
      ap (λ n. bit_data table s cs (n + byte_boundary (key_bits table cs))) text
          ∙ bit_data_lem table s cs (symbols-All s (range 0 256) small) entries,
      refl,
      length-both table cs s ∙ ap (λ n. n + byte_boundary (key_bits table cs)) (sym text),
    )
