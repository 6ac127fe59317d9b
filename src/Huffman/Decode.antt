-- ===== src/Huffman/Decode.antt =====
-- src/huffman.c: huffman_decode. `none` is a read or a write outside a block, and `some none` the
-- result NULL. The result comes with whether the parity is right; if not, there is a warning.
use microdc.Prelude.{
  ℕ, zero, suc, ◌+◌, ◌-◌, ◌*◌, ◌/◌, ◌%◌, ◌^◌, ◌==◌, ◌&&◌, ◌||◌, not, ltb, Bool, Option, none, some,
  List, [], ◌∷◌, ◌>>=◌, length, if◌then◌else◌,
}
use microdc.Prelude.Text.{Bytes}
use microdc.Huffman.Bits.{byte_boundary, get_bit}
use microdc.Huffman.Encode.{parity}

-- a null pointer, or a node with its children; `none` is the chr -1
pub data BranchNode : Type 0 where
  null : BranchNode
  node : BranchNode → BranchNode → Option ℕ → BranchNode

abbrev pub left : BranchNode → BranchNode
left null = null
left (node l r c) = l

abbrev pub right : BranchNode → BranchNode
right null = null
right (node l r c) = r

abbrev pub chr : BranchNode → Option ℕ
chr null = none
chr (node l r c) = c

-- bit_pos++ on a uint32_t
abbrev pub next_bit : ℕ → ℕ
next_bit pos = (pos + 1) % 2 ^ 32

-- BYTE_BOUNDARY on a uint32_t
abbrev pub boundary32 : ℕ → ℕ
boundary32 pos = byte_boundary pos % 2 ^ 32

-- The loop that goes down `n` bits from a node and puts `c` there, with the subtree in place of the
-- node; nodes that are missing on the way are made.
unfoldable pub plant : Bytes → ℕ → ℕ → ℕ → BranchNode → Option BranchNode
plant block pos c zero t = some (node (left t) (right t) (some c))
plant block pos c (suc n) t = get_bit block pos >>= λ b.
    plant block (next_bit pos) c n (if b then right t else left t) >>= λ child.
    some (if b then node (left t) child (chr t) else node child (right t) (chr t))

abbrev pub skip_bits : ℕ → ℕ → ℕ
skip_bits pos n = (pos + n) % 2 ^ 32

-- the tree of all leaves, and the position behind their codes
unfoldable pub plant_all : Bytes → List (ℕ × ℕ) → ℕ → BranchNode → Option (BranchNode × ℕ)
plant_all block [] pos t = some (t, pos)
plant_all block (l ∷ leaves) pos t =
    plant block pos l.0 l.1 t >>= λ t'. plant_all block leaves (skip_bits pos l.1) t'

-- the bytes of the leaves, which stand behind the header
unfoldable pub read_leaves : ℕ → Bytes → Option (List (ℕ × ℕ))
read_leaves zero s = some []
read_leaves (suc n) [] = none
read_leaves (suc n) (c ∷ []) = none
read_leaves (suc n) (c ∷ len ∷ s) = read_leaves n s >>= λ leaves. some ((c, len) ∷ leaves)

unfoldable pub leaf_data_len : List (ℕ × ℕ) → ℕ
leaf_data_len [] = 0
leaf_data_len (l ∷ leaves) = l.1 + leaf_data_len leaves

-- The loop that goes down from a node to a byte: the byte and the position behind its code, `none`
-- if NULL is returned. The test lets a read of the byte behind the block through.
unfoldable pub decode_char : Bytes → BranchNode → ℕ → Option (Option (ℕ × ℕ))
decode_char block null pos = some none
decode_char block (node l r (some c)) pos = some (some (c, pos))
decode_char block (node l r none) pos =
    let on_right = decode_char block r (next_bit pos) in
    let on_left = decode_char block l (next_bit pos) in
    if ltb (length block) (boundary32 pos / 8)
    then some none
    else (get_bit block pos >>= λ b. if b then on_right else on_left)

-- the byte in front of the rest of the text; it is written where there is room
abbrev pub prepend : ℕ → ℕ → Option (Option Bytes) → Option (Option Bytes)
prepend c zero rest = none
prepend c (suc room) none = none
prepend c (suc room) (some none) = some none
prepend c (suc room) (some (some s)) = some (some (c ∷ s))

abbrev pub on_char :
    (ℕ → ℕ → Option (Option Bytes)) → Option (Option (ℕ × ℕ)) → Option (Option Bytes)
on_char f none = none
on_char f (some none) = some none
on_char f (some (some (c, pos))) = f c pos

-- The loop over the text, and the null behind it; `room` is what is left of the output block.
unfoldable pub decode_text : Bytes → BranchNode → ℕ → ℕ → ℕ → Option (Option Bytes)
decode_text block root zero zero pos = none
decode_text block root (suc room) zero pos = some (some [])
decode_text block root room (suc n) pos =
    on_char (λ c pos'. prepend c room (decode_text block root (room - 1) n pos'))
      (decode_char block root pos)

abbrev pub with_parity : ℕ → Option (Option Bytes) → Option (Option (Bytes × Bool))
with_parity p none = none
with_parity p (some none) = some none
with_parity p (some (some s)) = some (some (s, parity s 0 == p))

-- what follows once the leaves are read
unfoldable pub decode_leaves : Bytes → ℕ → ℕ → List (ℕ × ℕ) → Option (Option (Bytes × Bool))
decode_leaves block p unpack_size leaves =
    let start = 11 + 2 * length leaves in
    if ltb (length block) (start + boundary32 (leaf_data_len leaves) / 8)
    then some none
    else (plant_all block leaves (start * 8 % 2 ^ 32) (node null null none) >>= λ planted.
        with_parity p (
          decode_text block planted.0 ((unpack_size + 1) % 2 ^ 32) unpack_size
            (boundary32 planted.1)))

unfoldable pub huffman_decode : Bytes → Option (Option (Bytes × Bool))
huffman_decode (h ∷ e ∷ v ∷ d ∷ p ∷ s0 ∷ s1 ∷ s2 ∷ s3 ∷ n0 ∷ n1 ∷ s) =
    let block = h ∷ e ∷ v ∷ d ∷ p ∷ s0 ∷ s1 ∷ s2 ∷ s3 ∷ n0 ∷ n1 ∷ s in
    let unpack_size = s0 + 256 * s1 + 65536 * s2 + 16777216 * s3 in
    let leaf_count = n0 + 256 * n1 in
    if not (h == b'H') || not (e == b'E')
    then some none
    else if not (v == b'3') && not (v == b'0')
    then some none
    else if ltb (length block) (11 + leaf_count * 2)
    then some none
    else (read_leaves leaf_count s >>= decode_leaves block p unpack_size)
huffman_decode _ = some none
