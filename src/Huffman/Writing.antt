-- ===== src/Huffman/Writing.antt =====
-- src/huffman.c: what huffman_encode writes. The block of bits is large enough, and holds the codes
-- of the bytes that occur and those of the text, each part filled up to a whole byte.
use microdc.Prelude.{
  ℕ, zero, suc, ◌+◌, ◌-◌, ◌/◌, ◌%◌, ◌^◌, ◌==◌, ltb, ◌≤◌, ◌≡◌, refl, sym, ◌∙◌, ap, ap₂, arith, Bool,
  true, false, Option, some, List, [], ◌∷◌, ◌++◌, append_assoc, length, set, replicate,
  length-append, length-replicate, if◌then◌else◌,
}
use microdc.Prelude.Text.{All}
use microdc.Huffman.Bits.{byte_boundary, set_bit}
use microdc.Huffman.Encode.{Table, add_bits, add_codes, key_bits, bit_data}
use microdc.Huffman.Codes.{code_bits}

abbrev pub zeros : ℕ → List Bool
zeros n = replicate n false

-- the code of a byte, and the codes of many
abbrev pub code : Table → ℕ → List Bool
code table c = code_bits (table c).bitcount (table c).code

unfoldable pub codes_of : Table → List ℕ → List Bool
codes_of table [] = []
codes_of table (c ∷ cs) = code table c ++ codes_of table cs

pub length-code_bits : (n c : ℕ) → length (code_bits n c) ≡ n
unfolding code_bits
length-code_bits zero c = refl
length-code_bits (suc n) c = ap suc (length-code_bits n c)

pub length-codes_of : (table : Table) (cs : List ℕ) → length (codes_of table cs) ≡ key_bits table cs
unfolding codes_of key_bits
length-codes_of table [] = refl
length-codes_of table (c ∷ cs) = omega (
  arith,
  length-append (code table c) (codes_of table cs),
  length-code_bits (table c).bitcount (table c).code,
  length-codes_of table cs,
)

set-append :
    (pre rest : List Bool) (b : Bool) → set (pre ++ b ∷ rest) (length pre) true ≡ pre ++ true ∷ rest
set-append [] rest b = refl
set-append (x ∷ pre) rest b = ap (λ l. x ∷ l) (set-append pre rest b)

-- one round of add_bits
put_bit :
    (pre rest : List Bool) (b : Bool)
    → (if b then set_bit (pre ++ false ∷ rest) (length pre) else some (pre ++ false ∷ rest))
      ≡ some ((pre ++ b ∷ []) ++ rest)
unfolding set_bit
put_bit pre rest true =
    let len = length-append pre (false ∷ rest) in
    let fits : ltb (length pre) (length (pre ++ false ∷ rest)) ≡ true = ground (arith, len) in
    rw fits (ap some (set-append pre rest false ∙ sym (append_assoc pre (true ∷ []) rest)))
put_bit pre rest false = ap some (sym (append_assoc pre (false ∷ []) rest))

add_bits_lem :
    (n k : ℕ) (pre : List Bool) (c : ℕ)
    → n ≤ 32
    → add_bits (pre ++ zeros (n + k)) (length pre) c n ≡ some (pre ++ (code_bits n c ++ zeros k))
unfolding add_bits code_bits
add_bits_lem zero k pre c h = ap (λ m. some (pre ++ zeros m)) (omega arith)
add_bits_lem (suc n) k pre c h =
    let b = c / 2 ^ n % 2 == 1 in
    let small : ltb 31 n ≡ false = ground arith in
    let split : suc n + k ≡ suc (n + k) = omega arith in
    let next : length (pre ++ b ∷ []) ≡ length pre + 1 = length-append pre (b ∷ []) in
    rw (split, small, put_bit pre (zeros (n + k)) b, ← next)
      (add_bits_lem n k (pre ++ b ∷ []) c (omega arith)
        ∙ ap some (append_assoc pre (b ∷ []) (code_bits n c ++ zeros k)))

placed : List Bool → ℕ → Option (List Bool × ℕ)
placed l m = some (l, m)

next_place :
    (pre here rest : List Bool) (n m k : ℕ)
    → length here ≡ n
    → placed ((pre ++ here) ++ (rest ++ zeros k)) (length (pre ++ here) + m)
      ≡ placed (pre ++ ((here ++ rest) ++ zeros k)) (length pre + (n + m))
next_place pre here rest n m k e =
    ap₂ placed
      (append_assoc pre here (rest ++ zeros k)
        ∙ ap (λ l. pre ++ l) (sym (append_assoc here rest (zeros k))))
      (omega (arith, length-append pre here))

-- The codes of bytes are written one behind the other, if there is room.
pub add_codes_lem :
    (table : Table) (cs : List ℕ) (k : ℕ) (pre : List Bool)
    → All (λ c. (table c).bitcount ≤ 32) cs
    → add_codes table cs (pre ++ zeros (key_bits table cs + k)) (length pre)
      ≡ some (pre ++ (codes_of table cs ++ zeros k), length pre + key_bits table cs)
unfolding add_codes key_bits codes_of
add_codes_lem table [] k pre h =
    ap some (ap₂ (λ m n. (pre ++ zeros m, n)) (omega arith) (omega arith))
add_codes_lem table (c ∷ cs) k pre h =
    let n = (table c).bitcount in
    let here = code table c in
    let split : n + key_bits table cs + k ≡ n + (key_bits table cs + k) = omega arith in
    let next : length (pre ++ here) ≡ length pre + n =
      length-append pre here ∙ ap (λ m. length pre + m) (length-code_bits n (table c).code) in
    let len : length here ≡ n = length-code_bits n (table c).code in
    rw
      (
        split,
        add_bits_lem n (key_bits table cs + k) pre (table c).code h.0,
        ← append_assoc pre here (zeros (key_bits table cs + k)),
        ← next,
      )
      (add_codes_lem table cs k (pre ++ here) h.1
        ∙ (unfold placed in next_place pre here _ n _ k len))

zeros_add : (m n : ℕ) → zeros (m + n) ≡ zeros m ++ zeros n
zeros_add zero n = ap zeros (omega arith)
zeros_add (suc m) n =
    let next : suc m + n ≡ suc (m + n) = omega arith in
    rw next (ap (λ l. false ∷ l) (zeros_add m n))

-- the bits that fill up to a whole byte
abbrev pub pad : ℕ → ℕ
pad n = byte_boundary n - n

pub pad_lem : (n : ℕ) → n + pad n ≡ byte_boundary n
pad_lem n = omega arith

-- both parts of the block of bits
unfoldable pub both : Table → List ℕ → List ℕ → List Bool
both table cs s =
    (codes_of table cs ++ zeros (pad (key_bits table cs)))
    ++ (codes_of table s ++ zeros (pad (key_bits table s)))

filled :
    (table : Table) (cs : List ℕ)
    → length (codes_of table cs ++ zeros (pad (key_bits table cs)))
      ≡ byte_boundary (key_bits table cs)
filled table cs = omega (
  arith,
  length-append (codes_of table cs) (zeros (pad (key_bits table cs))),
  length-codes_of table cs,
  length-replicate (pad (key_bits table cs)) false,
)

pub length-both :
    (table : Table) (cs s : List ℕ)
    → length (both table cs s)
      ≡ byte_boundary (key_bits table s) + byte_boundary (key_bits table cs)
unfolding both
length-both table cs s = omega (
  arith,
  length-append (codes_of table cs ++ zeros (pad (key_bits table cs)))
      (codes_of table s ++ zeros (pad (key_bits table s))),
  filled table cs,
  filled table s,
)

-- Both parts are written to a block of just their size.
pub bit_data_lem :
    (table : Table) (s cs : List ℕ)
    → All (λ c. (table c).bitcount ≤ 32) cs
    → All (λ c. (table c).bitcount ≤ 32) s
    → bit_data table s cs (byte_boundary (key_bits table s) + byte_boundary (key_bits table cs))
      ≡ some (both table cs s)
unfolding bit_data both
bit_data_lem table s cs h g =
    let keys = key_bits table cs in
    let text = key_bits table s in
    let room = text + pad text in
    let size : byte_boundary text + byte_boundary keys ≡ keys + (pad keys + room) = omega arith in
    let pre = codes_of table cs ++ zeros (pad keys) in
    let split : codes_of table cs ++ zeros (pad keys + room) ≡ pre ++ zeros room =
      ap (λ l. codes_of table cs ++ l) (zeros_add (pad keys) room)
      ∙ sym (append_assoc (codes_of table cs) (zeros (pad keys)) (zeros room)) in
    let place : byte_boundary (0 + keys) ≡ length pre =
      ap byte_boundary (omega arith) ∙ sym (filled table cs) in
    rw
      (
        size,
        add_codes_lem table cs (pad keys + room) [] h,
        split,
        place,
        add_codes_lem table s (pad text) pre g,
      )
      refl
