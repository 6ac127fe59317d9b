-- ===== src/Huffman.antt =====
-- src/huffman.c: compressed file lists. Encode and Decode are the two functions; Bits is the array
-- of bits that both work on. What they do is in the other modules, up to RoundTrip.
pub mod Bits
pub mod Encode
pub mod Decode
pub mod Tree
pub mod Codes
pub mod Writing
pub mod Block
pub mod RoundTrip
pub mod Room
pub mod Planting
pub mod Trie
pub mod Reading
pub mod Counting
