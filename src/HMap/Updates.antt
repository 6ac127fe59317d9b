-- ===== src/HMap/Updates.antt =====
-- src/common/hmap.c: what the three changes of a chain do to the finite map: a value is replaced, an
-- entry is taken out, an entry is put in front.
use microdc.Prelude.{
  ℕ, suc, ◌+◌, ◌-◌, ◌≤◌, ◌%◌, ◌≡◌, refl, ◌∙◌, ap, arith, Bool, Option, none, some, List, [], ◌∷◌,
  length, get_elem?, set, Bool-cases, inl, inr,
}
use microdc.Prelude.Text.{All}
use microdc.HMap.{Entry, HMap, entries, store, insert_front}
use microdc.HMap.Chain.{
  IsHash, value_of, sum, one, sum-one, hit, hits, first, assign, erase, first-same, first-assign,
  first-assign_other, first-erase, first-erase_other, sum-assign, sum-erase-le, length-erase,
}
use microdc.HMap.Buckets.{BelongsTo, sum-set}
use microdc.HMap.Refine.{Holds, Represents, update, chain_of, set-Holds}

-- what is true of an entry whatever its value
assign-All {ℓ κ υ} :
    {K : Type ℓ} {V : Type κ} (same : K → K → Bool) (P : Entry K V → Type υ) (k : K) (v : Option V)
    (chain : List (Entry K V))
    → ((e : Entry K V) (w : Option V) → P e → P (record e { value = w }))
    → All P chain
    → All P (assign same k v chain)
unfolding assign
assign-All same P k v [] h all = tt
assign-All same P k v (e ∷ chain) h all = elim (Bool-cases (hit same k e)) [
  | inl here ↦ rw here (h e v all.0, all.1)
  | inr other ↦ rw other (all.0, assign-All same P k v chain h all.1)
]

none-sum {ℓ κ} :
    {K : Type ℓ} {V : Type κ} (same : K → K → Bool) (q : K) (chain : List (Entry K V))
    → value_of (first same q chain) ≡ none
    → sum (hits same q) chain ≡ 0
unfolding first sum
none-sum same q [] e = refl
none-sum same q (x ∷ chain) e = elim (Bool-cases (hit same q x)) [
  | inl here ↦ absurd (ground (arith, rw here at e))
  | inr other ↦ rw other (omega (arith, none-sum same q chain (rw other at e)))
]

erase-All {ℓ κ υ} :
    {K : Type ℓ} {V : Type κ} (same : K → K → Bool) (P : Entry K V → Type υ) (k : K)
    (chain : List (Entry K V))
    → All P chain
    → All P (erase same k chain)
unfolding erase
erase-All same P k [] all = tt
erase-All same P k (e ∷ chain) all = elim (Bool-cases (hit same k e)) [
  | inl here ↦ rw here all.1
  | inr other ↦ rw other (all.0, erase-All same P k chain all.1)
]

module _ {ℓ κ} {K : Type ℓ} {V : Type κ} {hash : K → ℕ} {same : K → K → Bool}
    (laws : IsHash hash same) where
  -- the chain of hmap_put if the key is there
  pub assigned :
      (map : HMap K V) (f : K → Option (Option V)) (k : K) (v : Option V) (chain : List (Entry K V))
      (x : Entry K V)
      → Represents laws map f
      → get_elem? map.buckets (hash k % length map.buckets) ≡ some chain
      → All (BelongsTo hash (length map.buckets) (hash k % length map.buckets)) chain
      → ((q : K)
          → hash q % length map.buckets ≡ hash k % length map.buckets
          → value_of (first same q chain) ≡ f q)
      → first same k chain ≡ some x
      → Represents laws
          (store map (hash k % length map.buckets) (assign same k v chain))
          (update same f k (some v))
  assigned map f k v chain x (holds, size) there belongs finds found =
      let i = hash k % length map.buckets in
      (
        set-Holds laws map.buckets f k (some v) chain (assign same k v chain) holds there
            (assign-All same (BelongsTo hash (length map.buckets) i) k v chain (λ e w b. b) belongs)
            (λ q. omega (arith, holds.2 q, sum-assign same (hits same q) k v chain (λ e w. refl)))
            (λ q alike. elim (Bool-cases (same q k)) [
              | inl alike' ↦ rw alike' (
                  ap value_of (first-same laws q k (assign same k v chain) alike')
                  ∙ first-assign laws k v chain x found)
              | inr apart ↦ rw apart (first-assign_other laws q k v chain apart ∙ finds q alike)
            ]),
        omega (
          arith,
          size,
          sum-one (entries map.buckets),
          sum-one (entries (set map.buckets i (assign same k v chain))),
          sum-set one map.buckets i chain (assign same k v chain) there,
          sum-assign same one k v chain (λ e w. refl),
        ),
      )

  chain_once :
      (buckets : List (List (Entry K V))) (i : ℕ) (q : K) (chain : List (Entry K V))
      → ((r : K) → sum (hits same r) (entries buckets) ≤ 1)
      → get_elem? buckets i ≡ some chain
      → sum (hits same q) chain ≤ 1
  unfolding sum
  chain_once buckets i q chain once there =
      omega (arith, once q, sum-set (hits same q) buckets i chain [] there)

  longer : (e : Entry K V) (chain : List (Entry K V)) → sum one (e ∷ chain) ≡ suc (sum one chain)
  unfolding sum
  longer e chain = omega arith

  -- A key that is not there is there once when it is put in.
  fresh_once :
      (f : K → Option (Option V)) (k q : K) (e : Entry K V) (buckets : List (List (Entry K V)))
      → Holds laws buckets f
      → f k ≡ none
      → e.key ≡ some k
      → (chain : List (Entry K V))
      → sum (hits same q) (e ∷ chain) + sum (hits same q) (entries buckets)
        ≤ 1 + sum (hits same q) chain
  unfolding sum
  fresh_once f k q e buckets holds absent key chain = elim (Bool-cases (same q k)) [
    | inl alike ↦
        let nothing : value_of (first same q (entries buckets)) ≡ none =
          ap value_of (first-same laws q k (entries buckets) alike) ∙ (holds.3 k ∙ absent) in
        rw (key, alike) (omega (arith, none-sum same q (entries buckets) nothing))
    | inr apart ↦ rw (key, apart) (omega (arith, holds.2 q))
  ]

  -- the chain of hmap_remove if the key is there
  pub erased :
      (map : HMap K V) (f : K → Option (Option V)) (k : K) (chain : List (Entry K V))
      (x : Entry K V)
      → Represents laws map f
      → get_elem? map.buckets (hash k % length map.buckets) ≡ some chain
      → All (BelongsTo hash (length map.buckets) (hash k % length map.buckets)) chain
      → ((q : K)
          → hash q % length map.buckets ≡ hash k % length map.buckets
          → value_of (first same q chain) ≡ f q)
      → first same k chain ≡ some x
      → Represents laws
          (record (store map (hash k % length map.buckets) (erase same k chain)) {
            size = map.size - 1;
          })
          (update same f k none)
  erased map f k chain x (holds, size) there belongs finds found =
      let i = hash k % length map.buckets in
      let sums = λ (w : Entry K V → ℕ). sum-set w map.buckets i chain (erase same k chain) there in
      (
        set-Holds laws map.buckets f k none chain (erase same k chain) holds there
            (erase-All same (BelongsTo hash (length map.buckets) i) k chain belongs)
            (λ q. omega (arith, holds.2 q, sum-erase-le same (hits same q) k chain))
            (λ q alike. elim (Bool-cases (same q k)) [
              | inl alike' ↦ rw alike' (
                  ap value_of (
                    first-same laws q k (erase same k chain) alike'
                    ∙ first-erase laws k chain (chain_once map.buckets i k chain holds.2 there)))
              | inr apart ↦
                  rw apart (ap value_of (first-erase_other laws q k chain apart) ∙ finds q alike)
            ]),
        omega (
          arith,
          size,
          sum-one (entries map.buckets),
          sum-one (entries (set map.buckets i (erase same k chain))),
          sums one,
          sum-one chain,
          sum-one (erase same k chain),
          length-erase same k chain x found,
        ),
      )

  -- a new entry in front of a chain
  pub inserted :
      (scaled : ℕ → ℕ) (map : HMap K V) (f : K → Option (Option V)) (k : K) (v : Option V)
      → Holds laws map.buckets f
      → f k ≡ none
      → map.size ≡ suc (length (entries map.buckets))
      → (map' : HMap K V) × (insert_front hash same scaled map (some k) v ≡ some map')
        × Represents laws map' (update same f k (some v))
  unfolding insert_front
  inserted scaled map f k v holds absent size =
      let (chain, there, belongs, finds) = chain_of laws map.buckets f k holds in
      let i = hash k % length map.buckets in
      let e : Entry K V = record { key = some k; value = v } in
      let sums = λ (w : Entry K V → ℕ). sum-set w map.buckets i chain (e ∷ chain) there in
      (
        store map i (e ∷ chain),
        rw there refl,
        (
          set-Holds laws map.buckets f k (some v) chain (e ∷ chain) holds there
              ((k, refl, refl), belongs)
              (λ q. fresh_once f k q e map.buckets holds absent refl chain)
              (λ q alike. elim (Bool-cases (same q k)) [
                | inl alike' ↦ unfold first in (rw alike' refl)
                | inr apart ↦ unfold first in (rw apart (finds q alike))
              ]),
          omega (
            arith,
            size,
            sum-one (entries map.buckets),
            sum-one (entries (set map.buckets i (e ∷ chain))),
            sums one,
            longer e chain,
          ),
        ),
      )
