-- ===== src/HMap/Refine.antt =====
-- src/common/hmap.c: a hash map is a finite map. The operations on keys that are not null do to a
-- function from keys to values what the operations of a finite map do.
use microdc.Prelude.{
  ℕ, zero, suc, ◌+◌, ◌*◌, ◌≤◌, ◌<◌, ◌%◌, ◌^◌, ◌==◌, ◌≡◌, ◌≢◌, refl, sym, ◌∙◌, ap, arith, Bool,
  Option, none, some, List, [], ◌∷◌, length, get_elem?, set, replicate, take, take_all,
  length-replicate, Bool-cases, inl, inr, if◌then◌else◌, ==_iff,
}
use microdc.Prelude.Text.{All, All-append}
use microdc.HMap.{Entry, HMap, entries, hmap_rehash, move_chains}
use microdc.HMap.Chain.{IsHash, HasKey, value_of, or_else, sum, one, sum-one, hits, first}
use microdc.HMap.Buckets.{
  BelongsTo, Placed, Placed-All, set-Placed, replicate-Placed, first-entries, get_elem-exists,
  length-set, get_elem-set, get_elem-set_other, sum-set,
}
use microdc.HMap.Rehash.{move_chains-Moved}

-- a pointer, or null where there is none
abbrev pub join {κ} : {V : Type κ} → Option (Option V) → Option V
join none = none
join (some v) = v

-- a finite map with another value at a key
abbrev pub update {ℓ κ} :
    {K : Type ℓ} {V : Type κ}
    → (K → K → Bool)
    → (K → Option (Option V))
    → K
    → Option (Option V)
    → K
    → Option (Option V)
update same f k v q = if same q k then v else f q

module _ {ℓ κ} {K : Type ℓ} {V : Type κ} {hash : K → ℕ} {same : K → K → Bool}
    (laws : IsHash hash same) where
  -- The buckets hold the pairs of a finite map, each once and in its place.
  abbrev pub Holds : List (List (Entry K V)) → (K → Option (Option V)) → Type (ℓ ⊔ κ)
  Holds buckets f =
      (0 < length buckets)
      × Placed hash (length buckets) 0 buckets
      × ((q : K) → sum (hits same q) (entries buckets) ≤ 1)
      × ((q : K) → value_of (first same q (entries buckets)) ≡ f q)

  -- The map is a representation of the finite map, and its size the number of pairs.
  abbrev pub Represents : HMap K V → (K → Option (Option V)) → Type (ℓ ⊔ κ)
  Represents map f = Holds map.buckets f × (map.size ≡ length (entries map.buckets))

  pub keyed_chain :
      (n i : ℕ) (chain : List (Entry K V)) → All (BelongsTo hash n i) chain → All HasKey chain
  keyed_chain n i [] h = tt
  keyed_chain n i (e ∷ chain) h = ((h.0.0, h.0.1), keyed_chain n i chain h.1)

  Placed-keyed :
      (n i : ℕ) (buckets : List (List (Entry K V)))
      → Placed hash n i buckets
      → All HasKey (entries buckets)
  unfolding Placed entries
  Placed-keyed n i [] h = tt
  Placed-keyed n i (chain ∷ buckets) h =
      All-append HasKey chain (entries buckets) (keyed_chain n i chain h.0)
        (Placed-keyed n (i + 1) buckets h.1)

  -- The chain in which a key is searched, with what is known of it.
  pub chain_of :
      (buckets : List (List (Entry K V))) (f : K → Option (Option V)) (k : K)
      → Holds buckets f
      → (chain : List (Entry K V)) × (get_elem? buckets (hash k % length buckets) ≡ some chain)
        × All (BelongsTo hash (length buckets) (hash k % length buckets)) chain
        × ((q : K)
            → hash q % length buckets ≡ hash k % length buckets
            → value_of (first same q chain) ≡ f q)
  chain_of buckets f k (some_buckets, placed, once, found) =
      let n = length buckets in
      let (chain, there) = get_elem-exists buckets (hash k % n) (ground arith) in
      let place : 0 + hash k % n ≡ hash k % n = omega arith in
      (
        chain,
        there,
        rw place at (Placed-All hash n 0 (hash k % n) buckets chain placed there),
        λ q alike.
            ap value_of (
              sym (
                first-entries laws q n 0 (hash k % n) buckets chain placed there
                  (alike ∙ sym place)))
            ∙ found q,
      )

  update_other :
      (f : K → Option (Option V)) (k : K) (v : Option (Option V)) (q : K) (n : ℕ)
      → hash q % n ≢ hash k % n
      → update same f k v q ≡ f q
  update_other f k v q n other = elim (Bool-cases (same q k)) [
    | inl alike ↦ absurd (other (ap (λ m. m % n) (laws.hash_eq q k alike)))
    | inr apart ↦ rw apart refl
  ]

  -- A chain is replaced by one that makes another finite map.
  pub set-Holds :
      (buckets : List (List (Entry K V))) (f : K → Option (Option V)) (k : K)
      (v : Option (Option V)) (chain chain' : List (Entry K V))
      → Holds buckets f
      → get_elem? buckets (hash k % length buckets) ≡ some chain
      → All (BelongsTo hash (length buckets) (hash k % length buckets)) chain'
      → ((q : K)
          → sum (hits same q) chain' + sum (hits same q) (entries buckets)
            ≤ 1 + sum (hits same q) chain)
      → ((q : K)
          → hash q % length buckets ≡ hash k % length buckets
          → value_of (first same q chain') ≡ update same f k v q)
      → Holds (set buckets (hash k % length buckets) chain') (update same f k v)
  set-Holds buckets f k v chain chain' (some_buckets, placed, once, found) there belongs counts
        finds =
      let n = length buckets in
      let i = hash k % n in
      let new = set buckets i chain' in
      let len : length new ≡ n = length-set buckets i chain' in
      let inside : i < n = ground arith in
      let place : 0 + i ≡ i = omega arith in
      let placed' : Placed hash n 0 new =
        set-Placed hash n 0 i buckets chain' placed (rw place belongs) in
      rw len (
        some_buckets,
        placed',
        λ q. omega (arith, sum-set (hits same q) buckets i chain chain' there, counts q),
        λ q. elim (Bool-cases (hash q % n == i)) [
          | inl alike ↦
              let same_place : hash q % n ≡ i = (==_iff (hash q % n) i).0 alike in
              ap value_of (
                first-entries laws q n 0 i new chain' placed' (get_elem-set buckets i chain' inside)
                  (same_place ∙ sym place))
              ∙ finds q same_place
          | inr apart ↦
              let other : hash q % n ≢ i =
                λ e. ground (arith, apart, (==_iff (hash q % n) i).1 e) in
              let (c, at_c) = get_elem-exists buckets (hash q % n) (ground arith) in
              let at_c' : get_elem? new (hash q % n) ≡ some c =
                get_elem-set_other buckets i (hash q % n) chain' (λ e. other (sym e)) ∙ at_c in
              let in_c : hash q % n ≡ 0 + hash q % n = omega arith in
              ap value_of (
                first-entries laws q n 0 (hash q % n) new c placed' at_c' in_c
                ∙ sym (first-entries laws q n 0 (hash q % n) buckets c placed at_c in_c))
              ∙ (found q ∙ sym (update_other f k v q n other))
        ],
      )

  empty_sum : (w : Entry K V → ℕ) (n : ℕ) → sum w (entries (replicate n [])) ≡ 0
  unfolding sum entries
  empty_sum w zero = refl
  empty_sum w (suc n) = empty_sum w n

  empty_elem : (n i : ℕ) → i < n → get_elem? {A = List (Entry K V)} (replicate n []) i ≡ some []
  empty_elem zero i h = absurd (omega arith)
  empty_elem (suc n) zero h = refl
  empty_elem (suc n) (suc i) h = empty_elem n i (omega arith)

  moved_first :
      (q : K) (n : ℕ) (old new : List (List (Entry K V)))
      → 0 < n
      → Placed hash n 0 new
      → ((c : List (Entry K V))
          → get_elem? (replicate n []) (hash q % n) ≡ some c
          → (c' : List (Entry K V)) × (get_elem? new (hash q % n) ≡ some c')
            × (first same q c' ≡ or_else (first same q c) (first same q (entries old))))
      → first same q (entries new) ≡ first same q (entries old)
  unfolding first
  moved_first q n old new more placed finds =
      let (c', there, same_first) = finds [] (empty_elem n (hash q % n) (ground arith)) in
      first-entries laws q n 0 (hash q % n) new c' placed there (omega arith) ∙ same_first

  -- Rehashing keeps the finite map and the number of its pairs.
  pub rehash-Holds :
      (scaled : ℕ → ℕ) (map : HMap K V) (f : K → Option (Option V))
      → length map.buckets < 2 ^ 32
      → Holds map.buckets f
      → Holds (hmap_rehash hash same scaled map).buckets f
        × (length (entries (hmap_rehash hash same scaled map).buckets)
            ≡ length (entries map.buckets))
  unfolding hmap_rehash
  rehash-Holds scaled map f small (some_buckets, placed, once, found) =
      let old = map.buckets in
      let n = (length old * 2 + 1) % 2 ^ 64 in
      let fresh : List (List (Entry K V)) = replicate n [] in
      let more : 0 < n = omega arith in
      let whole : take (length old % 2 ^ 32) old ≡ old =
        take_all (length old % 2 ^ 32) old (omega arith) in
      let len : length fresh ≡ n = length-replicate n [] in
      let (len', placed', sums, finds) =
        move_chains-Moved laws n old fresh more len (Placed-keyed (length old) 0 old placed)
          (replicate-Placed V hash n 0 n) in
      let new = move_chains hash old fresh in
      rw (whole, len')
        (
          (
            more,
            placed',
            λ q. omega (arith, sums (hits same q), empty_sum (hits same q) n, once q),
            λ q. ap value_of (moved_first q n old new more placed' (finds q)) ∙ found q,
          ),
          sym (sum-one (entries new))
              ∙ (sums one ∙ (omega (arith, empty_sum one n, sum-one (entries old)))),
        )
