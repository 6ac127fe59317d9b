-- ===== src/Huffman/Counting.antt =====
-- src/huffman.c: the number of bits that huffman_encode reserves for the text, and that it is the
-- number of bits that it writes.
use mathlib.Core.Path.{subst}
use native.Mathlib.Nat.{mul-le-mul_right, mul-zero, mul-suc}
use microdc.Prelude.{
  ℕ, zero, suc, ◌+◌, ◌*◌, ◌%◌, ◌^◌, ◌==◌, ltb, leb, ◌<◌, ◌≤◌, ◌≡◌, ◌≢◌, refl, sym, ◌∙◌, ap, ap₂,
  arith, Bool, true, false, ◌&&◌, List, [], ◌∷◌, length, Bool-cases, inl, inr, if◌then◌else◌,
  ==_iff,
}
use microdc.Prelude.Text.{Bytes, All}
use microdc.Huffman.Encode.{Table, count, range, symbols, key_bits, text_bits}

count-le-length : (c : ℕ) (s : Bytes) → count c s ≤ length s
unfolding count
count-le-length c [] = omega arith
count-le-length c (b ∷ s) = ground (arith, count-le-length c s)

-- What is true of each byte that occurs in a text is true of the text.
pub count-All : {P : ℕ → Type 0} (s : Bytes) → ((c : ℕ) → 0 < count c s → P c) → All P s
unfolding count
count-All [] h = tt
count-All (b ∷ s) h = (h b (ground arith), count-All s (λ c more. h c (ground arith)))

pub symbols-All :
    {P : ℕ → Type 0} (s : Bytes) (cs : List ℕ)
    → ((c : ℕ) → 0 < count c s → P c)
    → All P (symbols s cs)
unfolding symbols
symbols-All s [] h = tt
symbols-All s (c ∷ cs) h = elim (Bool-cases (count c s == 0)) [
  | inl missing ↦ rw missing (symbols-All s cs h)
  | inr there ↦ rw there (h c (ground arith), symbols-All s cs h)
]

pub All-count : (P : ℕ → Type 0) (s : Bytes) → All P s → (c : ℕ) → 0 < count c s → P c
unfolding count
All-count P [] h c more = absurd (omega arith)
All-count P (b ∷ s) h c more = elim (Bool-cases (b == c)) [
  | inl here ↦ subst P ((==_iff b c).0 here) h.0
  | inr there ↦ All-count P s h.1 c (ground arith)
]

length-range : (k n : ℕ) → length (range k n) ≡ n
unfolding range
length-range k zero = refl
length-range k (suc n) = ap suc (length-range (k + 1) n)

length-symbols-le : (s : Bytes) (cs : List ℕ) → length (symbols s cs) ≤ length cs
unfolding symbols
length-symbols-le s [] = omega arith
length-symbols-le s (c ∷ cs) = ground (arith, length-symbols-le s cs)

-- There are at most 256 bytes, so their number fits in a uint16_t.
pub length-symbols : (s : Bytes) → length (symbols s (range 0 256)) ≤ 256
length-symbols s = omega (arith, length-symbols-le s (range 0 256), length-range 0 256)

-- the sum of the products, and nothing wraps
total : Table → Bytes → List ℕ → ℕ
total table s [] = 0
total table s (c ∷ cs) = (table c).bitcount * count c s + total table s cs

small_product : (n m len : ℕ) → n ≤ 32 → m ≤ len → len < 2 ^ 26 → n * m % 2 ^ 32 ≡ n * m
small_product n m len h g k = omega (arith, mul-le-mul_right {m = n} {n = 32} m h)

text_bits-total :
    (table : Table) (s : Bytes) (cs : List ℕ)
    → length s < 2 ^ 26
    → ((c : ℕ) → 0 < count c s → (table c).bitcount ≤ 32)
    → text_bits table s (symbols s cs) ≡ total table s cs
unfolding text_bits symbols total
text_bits-total table s [] small h = refl
text_bits-total table s (c ∷ cs) small h = elim (Bool-cases (count c s == 0)) [
  | inl missing ↦
      let zero_times : count c s ≡ 0 = (==_iff (count c s) 0).0 missing in
      rw (missing, zero_times, mul-zero (table c).bitcount)
        (text_bits-total table s cs small h ∙ omega arith)
  | inr there ↦ rw there (
      ap₂ (λ m n. m + n)
        (small_product (table c).bitcount (count c s) (length s) (h c (ground arith))
          (count-le-length c s) small)
        (text_bits-total table s cs small h))
]

-- what a byte adds to the sum over `n` bytes from `k` on
abbrev share : ℕ → ℕ → ℕ → ℕ → ℕ
share b k n v = if leb k b && ltb b (k + n) then v else 0

total_cons :
    (table : Table) (b : ℕ) (s : Bytes) (k n : ℕ)
    → total table (b ∷ s) (range k n) ≡ share b k n (table b).bitcount + total table s (range k n)
unfolding total range count
total_cons table b s k zero = ground arith
total_cons table b s k (suc n) = elim (Bool-cases (b == k)) [
  | inl here ↦
      let same : b ≡ k = (==_iff b k).0 here in
      rw here (
        ground (
          arith,
          same,
          total_cons table b s (k + 1) n,
          ap (λ c. (table c).bitcount) same,
          mul-suc (table k).bitcount (count k s),
        ))
  | inr there ↦ rw there (ground (arith, total_cons table b s (k + 1) n))
]

total_nil : (table : Table) (cs : List ℕ) → total table [] cs ≡ 0
unfolding total count
total_nil table [] = refl
total_nil table (c ∷ cs) = omega (arith, mul-zero (table c).bitcount, total_nil table cs)

total-key_bits :
    (table : Table) (s : Bytes)
    → All (λ b. b < 256) s
    → total table s (range 0 256) ≡ key_bits table s
unfolding key_bits
total-key_bits table [] h = total_nil table (range 0 256)
total-key_bits table (b ∷ s) h =
    total_cons table b s 0 256 ∙ (ground (arith, h.0, total-key_bits table s h.1))

-- The bits that are reserved for a text are as many as its codes have.
pub text_bits-key_bits :
    (table : Table) (s : Bytes)
    → All (λ b. b < 256) s
    → length s < 2 ^ 26
    → ((c : ℕ) → 0 < count c s → (table c).bitcount ≤ 32)
    → text_bits table s (symbols s (range 0 256)) ≡ key_bits table s
text_bits-key_bits table s bytes small h =
    text_bits-total table s (range 0 256) small h ∙ total-key_bits table s bytes

All-rest :
    (P : ℕ → Type 0) (b : Bool) (k : ℕ) (rest : List ℕ)
    → All P (if b then rest else k ∷ rest)
    → All P rest
All-rest P true k rest h = h
All-rest P false k rest h = h.1

symbols_cons :
    (P : ℕ → Type 0) (s : Bytes) (k c : ℕ) (rest : List ℕ)
    → 0 < count c s
    → (All P rest → c ≢ k → P c)
    → All P (if count k s == 0 then rest else k ∷ rest)
    → P c
symbols_cons P s k c rest more later h = elim (Bool-cases (c == k)) [
  | inl here ↦
      let same : k ≡ c = sym ((==_iff c k).0 here) in
      let there : (count k s == 0) ≡ false = ground (arith, ap (λ d. count d s) same) in
      let all : All P (k ∷ rest) = rw there at h in subst P same all.0
  | inr other ↦
      let apart : c ≢ k = λ e. ground (arith, (==_iff c k).1 e) in
      later (All-rest P (count k s == 0) k rest h) apart
]

-- What is true of the bytes that occur is true of each byte that is counted.
pub All-symbols :
    (P : ℕ → Type 0) (s : Bytes) (k n c : ℕ)
    → k ≤ c
    → c < k + n
    → 0 < count c s
    → All P (symbols s (range k n))
    → P c
unfolding symbols range
All-symbols P s k zero c lo hi more h = absurd (omega arith)
All-symbols P s k (suc n) c lo hi more h =
    let rest : All P (symbols s (range (k + 1) n)) → c ≢ k → P c =
      λ h' other. All-symbols P s (k + 1) n c (omega (arith, other)) (omega arith) more h' in
    symbols_cons P s k c (symbols s (range (k + 1) n)) more rest h
