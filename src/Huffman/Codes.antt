-- ===== src/Huffman/Codes.antt =====
-- src/huffman.c: the codes. make_huffman_bits enters for each leaf the way from the root to it, as
-- a number; add_bits writes it out again if it has at most 32 bits.
use native.Mathlib.Nat.{
  pow-suc, div-div-eq-div-mul, mul-le-mul_right, le-mul_of_pos_right, pow-le-pow_right, mul_assoc,
  mul_comm, le_trans,
}
use microdc.Prelude.{
  pow_pos, ℕ, zero, suc, ◌+◌, ◌*◌, ◌/◌, ◌%◌, ◌^◌, ◌==◌, ◌<◌, ◌≤◌, ◌≡◌, refl, sym, ◌∙◌, ap, ap₂,
  arith, Bool, true, false, Option, none, some, List, [], ◌∷◌, length, Bool-cases, ==_iff, inl, inr,
  if◌then◌else◌,
}
use microdc.Huffman.Bits.{bit}
use microdc.Huffman.Encode.{BitsNode, EncodeNode, leaf, branch, Table, make_huffman_bits}
use microdc.Huffman.Tree.{member, depth}

-- What stands at the end of a way from a node, if it is a leaf.
unfoldable pub at_path : EncodeNode → List Bool → Option ℕ
at_path (leaf n value) [] = some value
at_path (leaf n value) (b ∷ p) = none
at_path (branch n left right) [] = none
at_path (branch n left right) (b ∷ p) = at_path (if b then right else left) p

pub at_path-le-depth :
    (node : EncodeNode) (p : List Bool) (c : ℕ) → at_path node p ≡ some c → length p ≤ depth node
unfolding at_path depth
at_path-le-depth (leaf n value) [] c e = omega arith
at_path-le-depth (leaf n value) (b ∷ p) c e = ground arith
at_path-le-depth (branch n l r) [] c e = ground arith
at_path-le-depth (branch n l r) (true ∷ p) c e = omega (arith, at_path-le-depth r p c e)
at_path-le-depth (branch n l r) (false ∷ p) c e = omega (arith, at_path-le-depth l p c e)

-- the number that a way makes behind the number `d`
unfoldable pub code_of : ℕ → List Bool → ℕ
code_of d [] = d
code_of d (b ∷ p) = code_of ((d * 2 + bit b) % 2 ^ 32) p

-- the bits of a number, as add_bits takes them
unfoldable pub code_bits : ℕ → ℕ → List Bool
code_bits zero code = []
code_bits (suc n) code = (code / 2 ^ n % 2 == 1) ∷ code_bits n code

make-other :
    (node : EncodeNode) (table : Table) (n d c : ℕ)
    → member c node ≡ false
    → make_huffman_bits table node n d c ≡ table c
unfolding make_huffman_bits member
make-other (leaf k value) table n d c e = ground arith
make-other (branch k l r) table n d c e =
    make-other r (make_huffman_bits table l (n + 1) ((d * 2 + 0) % 2 ^ 32)) (n + 1)
      ((d * 2 + 1) % 2 ^ 32) c (ground arith)
    ∙ make-other l table (n + 1) ((d * 2 + 0) % 2 ^ 32) c (ground arith)

-- The entry of a leaf is a way that leads to it.
abbrev pub Entry : EncodeNode → ℕ → ℕ → ℕ → BitsNode → Type 0
Entry node n d c v =
    (p : List Bool) × (at_path node p ≡ some c)
    × (v ≡ record { code = code_of d p; bitcount = (n + length p) % 256 })

step :
    (k n d c : ℕ) (l r : EncodeNode) (v : BitsNode) (b : Bool)
    → Entry (if b then r else l) (n + 1) ((d * 2 + bit b) % 2 ^ 32) c v
    → Entry (branch k l r) n d c v
unfolding at_path code_of
step k n d c l r v b (p, found, same) = (
  b ∷ p,
  found,
  same
      ∙ ap (λ m. record { code = code_of ((d * 2 + bit b) % 2 ^ 32) p; bitcount = m % 256 })
          (let longer : n + 1 + length p ≡ n + suc (length p) = omega arith in longer),
)

make-Entry :
    (node : EncodeNode) (table : Table) (n d c : ℕ)
    → member c node ≡ true
    → Entry node n d c (make_huffman_bits table node n d c)
unfolding make_huffman_bits member
make-Entry (leaf k value) table n d c e =
    let here = (==_iff value c).0 e in
    ([], unfold at_path in ap some here, unfold code_of in ground arith)
make-Entry (branch k l r) table n d c e =
    let table' = make_huffman_bits table l (n + 1) ((d * 2 + 0) % 2 ^ 32) in
    elim (Bool-cases (member c r)) [
      | inl inside ↦
          step k n d c l r _ true (make-Entry r table' (n + 1) ((d * 2 + 1) % 2 ^ 32) c inside)
      | inr outside ↦ rw (make-other r table' (n + 1) ((d * 2 + 1) % 2 ^ 32) c outside) (
          step k n d c l r _ false
            (make-Entry l table (n + 1) ((d * 2 + 0) % 2 ^ 32) c (ground arith)))
    ]

halve : (x n : ℕ) → x / 2 ^ suc n ≡ x / 2 ^ n / 2
halve x n = ap (λ m. x / m) (pow-suc 2 n) ∙ sym (div-div-eq-div-mul x (2 ^ n) 2)

bit-le : (b : Bool) → bit b ≤ 1
bit-le true = omega arith
bit-le false = omega arith

odd : (d : ℕ) (b : Bool) → ((d * 2 + bit b) % 2 == 1) ≡ b
odd d true = ground arith
odd d false = ground arith

bounded : (x n : ℕ) → (x + 1) * 2 ^ n ≤ 2 ^ 32 → x < 2 ^ 32
bounded x n h = let pos = pow_pos n in omega (arith, le-mul_of_pos_right (x + 1) pos)

shorter : (d b n : ℕ) → b ≤ 1 → (d + 1) * 2 ^ suc n ≤ 2 ^ 32 → (d * 2 + b + 1) * 2 ^ n ≤ 2 ^ 32
shorter d b n hb h =
    let whole : (d + 1) * 2 * 2 ^ n ≤ 2 ^ 32 =
      rw (mul_assoc (d + 1) 2 (2 ^ n), mul_comm 2 (2 ^ n), ← pow-suc 2 n) h in
    le_trans (mul-le-mul_right (2 ^ n) (omega arith)) whole

-- A number whose way is short enough is not cut off, and halving takes its bits away again.
code_of-shift :
    (d : ℕ) (p : List Bool) → (d + 1) * 2 ^ length p ≤ 2 ^ 32 → code_of d p / 2 ^ length p ≡ d
unfolding code_of
code_of-shift d [] h = omega arith
code_of-shift d (b ∷ p) h =
    let next = d * 2 + bit b in
    let bits : bit b ≤ 1 = bit-le b in
    let room : (next + 1) * 2 ^ length p ≤ 2 ^ 32 = shorter d (bit b) (length p) bits h in
    let small : next < 2 ^ 32 = bounded next (length p) room in
    let whole : next % 2 ^ 32 ≡ next = omega arith in
    rw whole (
      halve (code_of next p) (length p)
      ∙ (ap (λ m. m / 2) (code_of-shift next p room) ∙ omega arith))

first_bit :
    (d : ℕ) (b : Bool) (p : List Bool)
    → (d * 2 + bit b) % 2 ^ 32 ≡ d * 2 + bit b
    → (d * 2 + bit b + 1) * 2 ^ length p ≤ 2 ^ 32
    → code_bits (length p) (code_of (d * 2 + bit b) p) ≡ p
    → code_bits (length (b ∷ p)) (code_of d (b ∷ p)) ≡ b ∷ p
unfolding code_of code_bits
first_bit d b p whole room rest =
    rw whole (ap₂ (λ x xs. x ∷ xs) (ap (λ m. m % 2 == 1) (code_of-shift _ p room) ∙ odd d b) rest)

-- The bits of the number that a way of at most 32 steps makes are the way.
pub code_bits-code_of :
    (d : ℕ) (p : List Bool)
    → (d + 1) * 2 ^ length p ≤ 2 ^ 32
    → code_bits (length p) (code_of d p) ≡ p
unfolding code_bits
code_bits-code_of d [] h = refl
code_bits-code_of d (b ∷ p) h =
    let next = d * 2 + bit b in
    let bits : bit b ≤ 1 = bit-le b in
    let room : (next + 1) * 2 ^ length p ≤ 2 ^ 32 = shorter d (bit b) (length p) bits h in
    let small : next < 2 ^ 32 = bounded next (length p) room in
    let whole : next % 2 ^ 32 ≡ next = omega arith in
    first_bit d b p whole room (code_bits-code_of next p room)

abbrev pub no_codes : Table
no_codes c = record { code = 0; bitcount = 0 }

-- The entry of a byte in the table of a tree that is no deeper than 32 and has a leaf for the byte
-- has at most 32 bits, and these are a way to the byte.
pub table_lem :
    (root : EncodeNode) (c : ℕ)
    → depth root ≤ 32
    → member c root ≡ true
    → (((make_huffman_bits no_codes root 0 0 c).bitcount ≤ 32)
        × (at_path root (
              code_bits
                (make_huffman_bits no_codes root 0 0 c).bitcount
                (make_huffman_bits no_codes root 0 0 c).code)
            ≡ some c))
table_lem root c shallow inside =
    let (p, found, same) = make-Entry root no_codes 0 0 c inside in
    let short : length p ≤ 32 = omega (arith, at_path-le-depth root p c found) in
    let two : 0 < 2 = omega arith in
    let room : (0 + 1) * 2 ^ length p ≤ 2 ^ 32 = omega (arith, pow-le-pow_right two short) in
    let len : (0 + length p) % 256 ≡ length p = omega arith in
    rw (same, len, code_bits-code_of 0 p room) (short, found)
