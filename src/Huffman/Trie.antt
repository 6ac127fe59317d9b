-- ===== src/Huffman/Trie.antt =====
-- src/huffman.c: the tree that huffman_decode plants from the codes of the leaves. What stands in it
-- is what the codes say, and a code leads to its byte.
use microdc.Prelude.{
  ℕ, suc, ◌+◌, ◌*◌, ◌/◌, ◌^◌, ltb, ◌<◌, ◌≡◌, refl, sym, ◌∙◌, ap, arith, Bool, true, false, Option,
  none, some, List, [], ◌∷◌, ◌++◌, append-nil, append_assoc, length, length-append, if◌then◌else◌,
}
use microdc.Prelude.Text.{Bytes}
use microdc.Huffman.Bits.{get_bit}
use microdc.Huffman.Encode.{EncodeNode, leaf, branch}
use microdc.Huffman.Decode.{
  BranchNode, null, node, left, right, chr, next_bit, boundary32, plant, decode_char,
}
use microdc.Huffman.Codes.{at_path}
use microdc.Huffman.Reading.{unpack, length-unpack, get_elem-middle, get_bit_lem}

-- what stands at the end of a way
unfoldable pub chr_at : BranchNode → List Bool → Option ℕ
chr_at null p = none
chr_at (node l r c) [] = c
chr_at (node l r c) (b ∷ p) = chr_at (if b then r else l) p

-- `plant` with the way at hand
pub put : List Bool → ℕ → BranchNode → BranchNode
put [] c t = node (left t) (right t) (some c)
put (true ∷ p) c t = node (left t) (put p c (right t)) (chr t)
put (false ∷ p) c t = node (put p c (left t)) (right t) (chr t)

same_bit : Bool → Bool → Bool
same_bit true b = b
same_bit false true = false
same_bit false false = true

pub same : List Bool → List Bool → Bool
same [] [] = true
same [] (b ∷ q) = false
same (a ∷ p) [] = false
same (a ∷ p) (b ∷ q) = if same_bit a b then same p q else false

pub same_refl : (p : List Bool) → same p p ≡ true
unfolding same same_bit
same_refl [] = refl
same_refl (true ∷ p) = same_refl p
same_refl (false ∷ p) = same_refl p

pub same-eq : (p q : List Bool) → same p q ≡ true → p ≡ q
unfolding same same_bit
same-eq [] [] e = refl
same-eq [] (b ∷ q) e = ground arith
same-eq (a ∷ p) [] e = ground arith
same-eq (true ∷ p) (true ∷ q) e = ap (λ l. true ∷ l) (same-eq p q e)
same-eq (false ∷ p) (false ∷ q) e = ap (λ l. false ∷ l) (same-eq p q e)
same-eq (true ∷ p) (false ∷ q) e = ground arith
same-eq (false ∷ p) (true ∷ q) e = ground arith

at_left : (t : BranchNode) (q : List Bool) → chr_at (left t) q ≡ chr_at t (false ∷ q)
unfolding chr_at
at_left null q = refl
at_left (node l r c) q = refl

at_right : (t : BranchNode) (q : List Bool) → chr_at (right t) q ≡ chr_at t (true ∷ q)
unfolding chr_at
at_right null q = refl
at_right (node l r c) q = refl

at_end : (t : BranchNode) → chr t ≡ chr_at t []
unfolding chr_at
at_end null = refl
at_end (node l r c) = refl

-- Planting a byte changes what stands at the end of its way, and nothing else.
pub chr_at-put :
    (p : List Bool) (c : ℕ) (t : BranchNode) (q : List Bool)
    → chr_at (put p c t) q ≡ (if same p q then some c else chr_at t q)
unfolding chr_at put same same_bit
chr_at-put [] c t [] = refl
chr_at-put [] c t (true ∷ q) = at_right t q
chr_at-put [] c t (false ∷ q) = at_left t q
chr_at-put (true ∷ p) c t [] = at_end t
chr_at-put (false ∷ p) c t [] = at_end t
chr_at-put (true ∷ p) c t (true ∷ q) = rw (← at_right t q) (chr_at-put p c (right t) q)
chr_at-put (true ∷ p) c t (false ∷ q) = at_left t q
chr_at-put (false ∷ p) c t (true ∷ q) = at_right t q
chr_at-put (false ∷ p) c t (false ∷ q) = rw (← at_left t q) (chr_at-put p c (left t) q)

-- A bit of the block in front of which `pre` stands.
read_bit :
    (block : Bytes) (pre rest : List Bool) (b : Bool)
    → unpack block ≡ pre ++ b ∷ rest
    → get_bit block (length pre) ≡ some b
read_bit block pre rest b e = get_bit_lem block (length pre) ∙ rw e (get_elem-middle pre rest b)

advance :
    (block : Bytes) (pre rest : List Bool) (b : Bool)
    → 8 * length block < 2 ^ 32
    → unpack block ≡ pre ++ b ∷ rest
    → next_bit (length pre) ≡ length (pre ++ b ∷ [])
advance block pre rest b small e =
    let len = length-append pre (b ∷ rest) in
    let whole : length pre + suc (length rest) ≡ 8 * length block =
      sym len ∙ (sym (ap length e) ∙ length-unpack block) in
    omega (arith, length-append pre (b ∷ []))

-- The loop that plants a byte reads its code from the block.
pub plant-put :
    (block : Bytes) (p pre rest : List Bool) (c : ℕ) (t : BranchNode)
    → 8 * length block < 2 ^ 32
    → unpack block ≡ pre ++ (p ++ rest)
    → plant block (length pre) c (length p) t ≡ some (put p c t)
unfolding plant put
plant-put block [] pre rest c t small e = refl
plant-put block (true ∷ p) pre rest c t small e =
    rw
      (
        read_bit block pre (p ++ rest) true e,
        advance block pre (p ++ rest) true small e,
        plant-put block p (pre ++ true ∷ []) rest c (right t) small
            (e ∙ sym (append_assoc pre (true ∷ []) (p ++ rest))),
      )
      refl
plant-put block (false ∷ p) pre rest c t small e =
    rw
      (
        read_bit block pre (p ++ rest) false e,
        advance block pre (p ++ rest) false small e,
        plant-put block p (pre ++ false ∷ []) rest c (left t) small
            (e ∙ sym (append_assoc pre (false ∷ []) (p ++ rest))),
      )
      refl

-- Whatever stands in the tree stands at the same place of the encoder's tree.
abbrev pub Sound : BranchNode → EncodeNode → Type 0
Sound t root = (q : List Bool) (d : ℕ) → chr_at t q ≡ some d → at_path root q ≡ some d

in_bounds :
    (block : Bytes) (pre rest : List Bool) (b : Bool)
    → 8 * length block < 2 ^ 32
    → unpack block ≡ pre ++ b ∷ rest
    → ltb (length block) (boundary32 (length pre) / 8) ≡ false
in_bounds block pre rest b small e =
    let len = length-append pre (b ∷ rest) in
    let whole : length pre + suc (length rest) ≡ 8 * length block =
      sym len ∙ (sym (ap length e) ∙ length-unpack block) in
    ground arith

arrived : ℕ → List Bool → Option (Option (ℕ × ℕ))
arrived c l = some (some (c, length l))

further :
    (pre p : List Bool) (b : Bool) (c : ℕ)
    → arrived c ((pre ++ b ∷ []) ++ p) ≡ arrived c (pre ++ b ∷ p)
further pre p b c = ap (arrived c) (append_assoc pre (b ∷ []) p)

-- The loop that goes down to a byte takes exactly the byte's code.
pub decode_char_lem :
    (block : Bytes) (p pre rest : List Bool) (c : ℕ) (t : BranchNode) (root : EncodeNode)
    → 8 * length block < 2 ^ 32
    → unpack block ≡ pre ++ (p ++ rest)
    → Sound t root
    → chr_at t p ≡ some c
    → at_path root p ≡ some c
    → decode_char block t (length pre) ≡ some (some (c, length (pre ++ p)))
unfolding decode_char chr_at at_path arrived
decode_char_lem block [] pre rest c null root small e sound found there = ground arith
decode_char_lem block [] pre rest c (node l r x) root small e sound found there =
    rw found (ap (λ l. some (some (c, length l))) (sym (append-nil pre)))
decode_char_lem block (b ∷ p) pre rest c null root small e sound found there = ground arith
decode_char_lem block (b ∷ p) pre rest c (node l r x) (leaf n v) small e sound found there =
    ground arith
decode_char_lem block (b ∷ p) pre rest c (node l r (some d)) (branch n u v) small e sound found
      there =
    let not_here : none ≡ some d = sound [] d refl in ground (arith, not_here)
decode_char_lem block (true ∷ p) pre rest c (node l r none) (branch n u v) small e sound found
      there =
    rw
      (
        in_bounds block pre (p ++ rest) true small e,
        read_bit block pre (p ++ rest) true e,
        advance block pre (p ++ rest) true small e,
      )
      (decode_char_lem block p (pre ++ true ∷ []) rest c r v small
          (e ∙ sym (append_assoc pre (true ∷ []) (p ++ rest))) (λ q d h. sound (true ∷ q) d h) found
          there
        ∙ further pre p true c)
decode_char_lem block (false ∷ p) pre rest c (node l r none) (branch n u v) small e sound found
      there =
    rw
      (
        in_bounds block pre (p ++ rest) false small e,
        read_bit block pre (p ++ rest) false e,
        advance block pre (p ++ rest) false small e,
      )
      (decode_char_lem block p (pre ++ false ∷ []) rest c l u small
          (e ∙ sym (append_assoc pre (false ∷ []) (p ++ rest))) (λ q d h. sound (false ∷ q) d h)
          found there
        ∙ further pre p false c)
