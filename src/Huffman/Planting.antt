-- ===== src/Huffman/Planting.antt =====
-- src/huffman.c: huffman_decode behind its tests: the loop over the leaves plants their codes, and
-- the loop over the text reads the text.
use microdc.Prelude.{
  ℕ, suc, ◌+◌, ◌-◌, ◌*◌, ◌^◌, ◌<◌, ◌≡◌, refl, sym, ◌∙◌, ap, arith, Bool, Option, some, List, [],
  ◌∷◌, ◌++◌, append_assoc, append-nil, length, length-append, Bool-cases, inl, inr,
}
use microdc.Prelude.Text.{Bytes, All}
use microdc.Huffman.Encode.{EncodeNode, Table, leaf_data}
use microdc.Huffman.Decode.{
  BranchNode, plant_all, skip_bits, decode_text, read_leaves, leaf_data_len,
}
use microdc.Huffman.Encode.{key_bits}
use microdc.Huffman.Codes.{at_path}
use microdc.Huffman.Writing.{code, codes_of, length-code_bits}
use microdc.Huffman.Reading.{unpack, length-unpack}
use microdc.Huffman.Trie.{
  chr_at, put, same, same_refl, same-eq, chr_at-put, plant-put, Sound, decode_char_lem,
}

-- the leaves that are read, and the tree that they make
pub leaves : Table → List ℕ → List (ℕ × ℕ)
leaves table [] = []
leaves table (c ∷ cs) = (c, (table c).bitcount) ∷ leaves table cs

pub put_all : Table → List ℕ → BranchNode → BranchNode
put_all table [] t = t
put_all table (c ∷ cs) t = put_all table cs (put (code table c) c t)

pub read_leaves_lem :
    (table : Table) (cs : List ℕ) (rest : Bytes)
    → read_leaves (length cs) (leaf_data table cs ++ rest) ≡ some (leaves table cs)
unfolding read_leaves leaf_data leaves
read_leaves_lem table [] rest = refl
read_leaves_lem table (c ∷ cs) rest = rw (read_leaves_lem table cs rest) refl

pub length-leaves : (table : Table) (cs : List ℕ) → length (leaves table cs) ≡ length cs
unfolding leaves
length-leaves table [] = refl
length-leaves table (c ∷ cs) = ap suc (length-leaves table cs)

pub length-leaf_data : (table : Table) (cs : List ℕ) → length (leaf_data table cs) ≡ 2 * length cs
unfolding leaf_data
length-leaf_data table [] = refl
length-leaf_data table (c ∷ cs) = omega (arith, length-leaf_data table cs)

pub leaf_data_len_lem :
    (table : Table) (cs : List ℕ) → leaf_data_len (leaves table cs) ≡ key_bits table cs
unfolding leaf_data_len leaves key_bits
leaf_data_len_lem table [] = refl
leaf_data_len_lem table (c ∷ cs) = ap (λ n. (table c).bitcount + n) (leaf_data_len_lem table cs)

abbrev planted : BranchNode → List Bool → Option (BranchNode × ℕ)
planted t l = some (t, length l)

within :
    (block : Bytes) (pre part rest : List Bool)
    → 8 * length block < 2 ^ 32
    → unpack block ≡ pre ++ (part ++ rest)
    → length (pre ++ part) < 2 ^ 32
within block pre part rest small e =
    let len = length-append pre (part ++ rest) in
    let len' = length-append part rest in
    let len'' = length-append pre part in
    let whole : length pre + length (part ++ rest) ≡ 8 * length block =
      sym len ∙ (sym (ap length e) ∙ length-unpack block) in
    omega arith

pub plant_all_lem :
    (block : Bytes) (table : Table) (cs : List ℕ) (pre rest : List Bool) (t : BranchNode)
    → 8 * length block < 2 ^ 32
    → unpack block ≡ pre ++ (codes_of table cs ++ rest)
    → plant_all block (leaves table cs) (length pre) t
      ≡ planted (put_all table cs t) (pre ++ codes_of table cs)
unfolding plant_all leaves codes_of put_all
plant_all_lem block table [] pre rest t small e = ap (planted t) (sym (append-nil pre))
plant_all_lem block table (c ∷ cs) pre rest t small e =
    let here = code table c in
    let behind = codes_of table cs ++ rest in
    let split : unpack block ≡ pre ++ (here ++ behind) =
      e ∙ ap (λ l. pre ++ l) (append_assoc here (codes_of table cs) rest) in
    let len : length here ≡ (table c).bitcount =
      length-code_bits (table c).bitcount (table c).code in
    let fits = within block pre here behind small split in
    let next : skip_bits (length pre) (table c).bitcount ≡ length (pre ++ here) =
      omega (arith, length-append pre here) in
    rw (← len) (
      rw (plant-put block here pre behind c t small split, len, next)
        (plant_all_lem block table cs (pre ++ here) rest (put here c t) small
            (split ∙ sym (append_assoc pre here behind))
          ∙ ap (planted (put_all table cs (put here c t)))
              (append_assoc pre here (codes_of table cs))))

put-Sound :
    (t : BranchNode) (root : EncodeNode) (p : List Bool) (c : ℕ)
    → Sound t root
    → at_path root p ≡ some c
    → Sound (put p c t) root
put-Sound t root p c sound found q d e = elim (Bool-cases (same p q)) [
  | inl here ↦
      let this : some c ≡ some d = sym (chr_at-put p c t q ∙ rw here refl) ∙ e in
      ap (at_path root) (sym (same-eq p q here)) ∙ (found ∙ this)
  | inr other ↦ sound q d (sym (chr_at-put p c t q ∙ rw other refl) ∙ e)
]

-- the codes lead to the bytes
abbrev pub Leads : EncodeNode → Table → ℕ → Type 0
Leads root table c = at_path root (code table c) ≡ some c

pub put_all-Sound :
    (root : EncodeNode) (table : Table) (cs : List ℕ) (t : BranchNode)
    → All (Leads root table) cs
    → Sound t root
    → Sound (put_all table cs t) root
unfolding put_all
put_all-Sound root table [] t h sound = sound
put_all-Sound root table (c ∷ cs) t h sound =
    put_all-Sound root table cs _ h.1 (put-Sound t root (code table c) c sound h.0)

put_again :
    (root : EncodeNode) (table : Table) (t : BranchNode) (c d : ℕ)
    → Leads root table c
    → Leads root table d
    → chr_at t (code table c) ≡ some c
    → chr_at (put (code table d) d t) (code table c) ≡ some c
put_again root table t c d there there' e = elim (Bool-cases (same (code table d) (code table c))) [
  | inl here ↦
      chr_at-put (code table d) d t (code table c)
      ∙ rw here
          (sym there' ∙ (ap (at_path root) (same-eq (code table d) (code table c) here) ∙ there))
  | inr other ↦ chr_at-put (code table d) d t (code table c) ∙ rw other e
]

put_all-kept :
    (root : EncodeNode) (table : Table) (c : ℕ) (cs : List ℕ) (t : BranchNode)
    → Leads root table c
    → All (Leads root table) cs
    → chr_at t (code table c) ≡ some c
    → chr_at (put_all table cs t) (code table c) ≡ some c
unfolding put_all
put_all-kept root table c [] t there h e = e
put_all-kept root table c (d ∷ cs) t there h e =
    put_all-kept root table c cs _ there h.1 (put_again root table t c d there h.0 e)

-- Each code that is planted leads to its byte in the end.
pub put_all_lem :
    (root : EncodeNode) (table : Table) (cs : List ℕ) (t : BranchNode)
    → All (Leads root table) cs
    → All (λ c. chr_at (put_all table cs t) (code table c) ≡ some c) cs
unfolding put_all
put_all_lem root table [] t h = tt
put_all_lem root table (c ∷ cs) t h = (
  put_all-kept root table c cs _ h.0 h.1
      (chr_at-put (code table c) c t (code table c) ∙ rw (same_refl (code table c)) refl),
  put_all_lem root table cs (put (code table c) c t) h.1,
)

-- The loop over the text reads the text.
pub decode_text_lem :
    (block : Bytes) (table : Table) (root : EncodeNode) (t : BranchNode) (s : Bytes)
    (pre rest : List Bool)
    → 8 * length block < 2 ^ 32
    → unpack block ≡ pre ++ (codes_of table s ++ rest)
    → Sound t root
    → All (λ c. (chr_at t (code table c) ≡ some c) × Leads root table c) s
    → decode_text block t (suc (length s)) (length s) (length pre) ≡ some (some s)
unfolding decode_text codes_of
decode_text_lem block table root t [] pre rest small e sound h = refl
decode_text_lem block table root t (c ∷ s) pre rest small e sound h =
    let here = code table c in
    let behind = codes_of table s ++ rest in
    let split : unpack block ≡ pre ++ (here ++ behind) =
      e ∙ ap (λ l. pre ++ l) (append_assoc here (codes_of table s) rest) in
    let room : suc (suc (length s)) - 1 ≡ suc (length s) = omega arith in
    rw
      (
        decode_char_lem block here pre behind c t root small split sound h.0.0 h.0.1,
        room,
        decode_text_lem block table root t s (pre ++ here) rest small
            (split ∙ sym (append_assoc pre here behind)) sound h.1,
      )
      refl
