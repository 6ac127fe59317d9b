-- ===== src/HMap/Chain.antt =====
-- src/common/hmap.c: one chain, as a list of pairs of which the first with a key counts. The loops
-- over a chain without null keys do what its pure operations say.
use microdc.Prelude.{
  ℕ, suc, ◌+◌, ◌≤◌, ◌≡◌, refl, ap, arith, Bool, true, false, Option, none, some, List, [], ◌∷◌,
  ◌++◌, length, Bool-cases, inl, inr, if◌then◌else◌,
}
use microdc.Prelude.Text.{All}
use microdc.HMap.{Entry, behind, is_key, find_entry, replace_value, unlink}

-- What a hash function and a comparison must keep to.
pub record IsHash {ℓ} {K : Type ℓ} (hash : K → ℕ) (same : K → K → Bool) : Type ℓ where
  pub hash_eq : (a b : K) → same a b ≡ true → hash a ≡ hash b
  pub same_sym : (a b : K) → same a b ≡ same b a
  pub same_congr : (a b c : K) → same a b ≡ true → same a c ≡ same b c

module _ {ℓ κ} {K : Type ℓ} {V : Type κ} where
  abbrev pub HasKey : Entry K V → Type ℓ
  HasKey e = (k : K) × (e.key ≡ some k)

  abbrev pub value_of : Option (Entry K V) → Option (Option V)
  value_of none = none
  value_of (some e) = some e.value

  abbrev pub or_else : Option (Entry K V) → Option (Entry K V) → Option (Entry K V)
  or_else none b = b
  or_else (some e) b = some e

  -- the sum of weights
  unfoldable pub sum : (Entry K V → ℕ) → List (Entry K V) → ℕ
  sum w [] = 0
  sum w (e ∷ chain) = w e + sum w chain

  pub sum-append : (w : Entry K V → ℕ) (a b : List (Entry K V)) → sum w (a ++ b) ≡ sum w a + sum w b
  unfolding sum
  sum-append w [] b = omega arith
  sum-append w (e ∷ a) b = omega (arith, sum-append w a b)

  abbrev pub one : Entry K V → ℕ
  one e = 1

  pub sum-one : (a : List (Entry K V)) → sum one a ≡ length a
  unfolding sum
  sum-one [] = refl
  sum-one (e ∷ a) = omega (arith, sum-one a)

  -- the result of a loop that has found an entry or not
  abbrev pub answer : Option (Entry K V) → List (Entry K V) → Option (Option V × List (Entry K V))
  answer none chain = none
  answer (some e) chain = some (e.value, chain)

  behind-answer :
      (e : Entry K V) (r : Option (Entry K V)) (chain : List (Entry K V))
      → behind e (answer r chain) ≡ answer r (e ∷ chain)
  behind-answer e none chain = refl
  behind-answer e (some x) chain = refl

abbrev pub hit_key {ℓ} : {K : Type ℓ} → (K → K → Bool) → K → Option K → Bool
hit_key same k none = false
hit_key same k (some k') = same k k'

module _ {ℓ κ} {K : Type ℓ} {V : Type κ} (same : K → K → Bool) where
  abbrev pub hit : K → Entry K V → Bool
  hit k e = hit_key same k e.key

  abbrev pub hits : K → Entry K V → ℕ
  hits k e = if hit k e then 1 else 0

  unfoldable pub first : K → List (Entry K V) → Option (Entry K V)
  first k [] = none
  first k (e ∷ chain) = if hit k e then some e else first k chain

  -- a value that is replaced, and an entry that is taken out
  unfoldable pub assign : K → Option V → List (Entry K V) → List (Entry K V)
  assign k v [] = []
  assign k v (e ∷ chain) = if hit k e then record e { value = v } ∷ chain else e ∷ assign k v chain

  unfoldable pub erase : K → List (Entry K V) → List (Entry K V)
  erase k [] = []
  erase k (e ∷ chain) = if hit k e then chain else e ∷ erase k chain

  pub first-append :
      (k : K) (a b : List (Entry K V)) → first k (a ++ b) ≡ or_else (first k a) (first k b)
  unfolding first
  first-append k [] b = refl
  first-append k (e ∷ a) b = elim (Bool-cases (hit k e)) [
    | inl here ↦ rw here refl
    | inr other ↦ rw other (first-append k a b)
  ]

  -- the test of the loops, on an entry with a key
  is_key-hit : (k : K) (e : Entry K V) → HasKey e → is_key same (some k) e.key ≡ some (hit k e)
  is_key-hit k e (k', there) = rw there refl

  pub find_entry-first :
      (k : K) (chain : List (Entry K V))
      → All HasKey chain
      → find_entry same (some k) chain ≡ some (first k chain)
  unfolding find_entry first
  find_entry-first k [] h = refl
  find_entry-first k (e ∷ chain) h = elim (Bool-cases (hit k e)) [
    | inl here ↦ rw (is_key-hit k e h.0, here) refl
    | inr other ↦ rw (is_key-hit k e h.0, other) (find_entry-first k chain h.1)
  ]

  pub replace_value-assign :
      (k : K) (v : Option V) (chain : List (Entry K V))
      → All HasKey chain
      → replace_value same (some k) v chain ≡ some (answer (first k chain) (assign k v chain))
  unfolding replace_value first assign
  replace_value-assign k v [] h = refl
  replace_value-assign k v (e ∷ chain) h = elim (Bool-cases (hit k e)) [
    | inl here ↦ rw (is_key-hit k e h.0, here) refl
    | inr other ↦
        rw (is_key-hit k e h.0, other, replace_value-assign k v chain h.1)
          (ap some (behind-answer e (first k chain) (assign k v chain)))
  ]

  pub unlink-erase :
      (k : K) (chain : List (Entry K V))
      → All HasKey chain
      → unlink same (some k) chain ≡ some (answer (first k chain) (erase k chain))
  unfolding unlink first erase
  unlink-erase k [] h = refl
  unlink-erase k (e ∷ chain) h = elim (Bool-cases (hit k e)) [
    | inl here ↦ rw (is_key-hit k e h.0, here) refl
    | inr other ↦
        rw (is_key-hit k e h.0, other, unlink-erase k chain h.1)
          (ap some (behind-answer e (first k chain) (erase k chain)))
  ]

module _ {ℓ} {K : Type ℓ} {hash : K → ℕ} {same : K → K → Bool} (laws : IsHash hash same) where
  hit-congr : (q k : K) (key : Option K) → same q k ≡ true → hit_key same q key ≡ hit_key same k key
  hit-congr q k none e = refl
  hit-congr q k (some k') e = laws.same_congr q k k' e

  hit-other :
      (q k : K) (key : Option K)
      → same q k ≡ false
      → hit_key same k key ≡ true
      → hit_key same q key ≡ false
  hit-other q k none e there = refl
  hit-other q k (some k') e there =
      let back = laws.same_congr k k' q there in
      ground
        (arith, back, laws.same_sym q k, laws.same_sym q k', laws.same_sym k q, laws.same_sym k' q)

module _ {ℓ κ} {K : Type ℓ} {V : Type κ} {hash : K → ℕ} {same : K → K → Bool}
    (laws : IsHash hash same) where
  -- The first entry is the same for keys that are the same.
  pub first-same :
      (q k : K) (chain : List (Entry K V))
      → same q k ≡ true
      → first same q chain ≡ first same k chain
  unfolding first
  first-same q k [] e = refl
  first-same q k (x ∷ chain) e = rw (hit-congr laws q k x.key e, first-same q k chain e) refl

  pub first-assign :
      (k : K) (v : Option V) (chain : List (Entry K V)) (x : Entry K V)
      → first same k chain ≡ some x
      → value_of (first same k (assign same k v chain)) ≡ some v
  unfolding first assign
  first-assign k v [] x e = ground (arith, e)
  first-assign k v (y ∷ chain) x e = elim (Bool-cases (hit same k y)) [
    | inl here ↦ rw here (rw here refl)
    | inr other ↦ rw other (rw other (first-assign k v chain x (rw other at e)))
  ]

  pub first-assign_other :
      (q k : K) (v : Option V) (chain : List (Entry K V))
      → same q k ≡ false
      → value_of (first same q (assign same k v chain)) ≡ value_of (first same q chain)
  unfolding first assign
  first-assign_other q k v [] e = refl
  first-assign_other q k v (y ∷ chain) e = elim (Bool-cases (hit same k y)) [
    | inl here ↦ let miss = hit-other laws q k y.key e here in rw (here, miss) refl
    | inr other ↦ rw other (elim (Bool-cases (hit same q y)) [
      | inl here ↦ rw here refl
      | inr there ↦ rw there (first-assign_other q k v chain e)
    ])
  ]

  -- Of an entry that is there only once, nothing is left.
  pub first-eq-none :
      (k : K) (chain : List (Entry K V)) → sum (hits same k) chain ≡ 0 → first same k chain ≡ none
  unfolding first sum
  first-eq-none k [] h = refl
  first-eq-none k (y ∷ chain) h = elim (Bool-cases (hit same k y)) [
    | inl here ↦ absurd (ground (arith, h, here))
    | inr other ↦ rw other (first-eq-none k chain (omega (arith, h)))
  ]

  pub first-erase :
      (k : K) (chain : List (Entry K V))
      → sum (hits same k) chain ≤ 1
      → first same k (erase same k chain) ≡ none
  unfolding first erase sum
  first-erase k [] h = refl
  first-erase k (y ∷ chain) h = elim (Bool-cases (hit same k y)) [
    | inl here ↦ rw here (first-eq-none k chain (ground (arith, h, here)))
    | inr other ↦ rw other (rw other (first-erase k chain (omega (arith, h))))
  ]

  pub first-erase_other :
      (q k : K) (chain : List (Entry K V))
      → same q k ≡ false
      → first same q (erase same k chain) ≡ first same q chain
  unfolding first erase
  first-erase_other q k [] e = refl
  first-erase_other q k (y ∷ chain) e = elim (Bool-cases (hit same k y)) [
    | inl here ↦ let miss = hit-other laws q k y.key e here in rw (here, miss) refl
    | inr other ↦ rw other (elim (Bool-cases (hit same q y)) [
      | inl here ↦ rw here refl
      | inr there ↦ rw there (first-erase_other q k chain e)
    ])
  ]

-- What a weight makes of the two operations, if it does not look at values.
module _ {ℓ κ} {K : Type ℓ} {V : Type κ} (same : K → K → Bool) where
  abbrev pub OfKeys : (Entry K V → ℕ) → Type (ℓ ⊔ κ)
  OfKeys w = (e : Entry K V) (v : Option V) → w (record e { value = v }) ≡ w e

  pub sum-assign :
      (w : Entry K V → ℕ) (k : K) (v : Option V) (chain : List (Entry K V))
      → OfKeys w
      → sum w (assign same k v chain) ≡ sum w chain
  unfolding sum assign
  sum-assign w k v [] h = refl
  sum-assign w k v (y ∷ chain) h = elim (Bool-cases (hit same k y)) [
    | inl here ↦ rw here (ap (λ n. n + sum w chain) (h y v))
    | inr other ↦ rw other (ap (λ n. w y + n) (sum-assign w k v chain h))
  ]

  pub sum-erase-le :
      (w : Entry K V → ℕ) (k : K) (chain : List (Entry K V))
      → sum w (erase same k chain) ≤ sum w chain
  unfolding sum erase
  sum-erase-le w k [] = omega arith
  sum-erase-le w k (y ∷ chain) = ground (arith, sum-erase-le w k chain)

  pub length-erase :
      (k : K) (chain : List (Entry K V)) (x : Entry K V)
      → first same k chain ≡ some x
      → length chain ≡ suc (length (erase same k chain))
  unfolding first erase
  length-erase k [] x e = ground (arith, e)
  length-erase k (y ∷ chain) x e = elim (Bool-cases (hit same k y)) [
    | inl here ↦ rw here refl
    | inr other ↦ rw other (ap suc (length-erase k chain x (rw other at e)))
  ]
