-- ===== src/HMap/Operations.antt =====
-- src/common/hmap.c: the operations as those of a finite map.
use microdc.Prelude.{
  ℕ, zero, suc, ◌+◌, ◌-◌, ◌<◌, ◌%◌, ◌^◌, ltb, ◌≡◌, ◌⊎◌, refl, sym, ◌∙◌, ap, arith, Bool, true,
  false, Option, none, some, List, [], length, replicate, length-replicate, Bool-cases, inl, inr,
  if◌then◌else◌,
}
use microdc.HMap.{
  Entry, HMap, entries, or_null, is_some, store, hmap_get_entry, hmap_get, hmap_contains_key,
  hmap_remove, hmap_rehash, hmap_new, hmap_clear, put_new, hmap_put,
}
use microdc.HMap.Chain.{
  IsHash, value_of, sum, first, assign, erase, find_entry-first, replace_value-assign, unlink-erase,
  first-same,
}
use microdc.HMap.Buckets.{replicate-Placed}
use microdc.HMap.Refine.{Holds, Represents, join, update, keyed_chain, chain_of, rehash-Holds}
use microdc.HMap.Updates.{assigned, erased, inserted}

abbrev pub there_is {κ} : {V : Type κ} → Option (Option V) → Bool
there_is none = false
there_is (some v) = true

module _ {ℓ κ} {K : Type ℓ} {V : Type κ} where
  or_null-join : (x : Option (Entry K V)) → or_null x ≡ join (value_of x)
  or_null-join none = refl
  or_null-join (some e) = refl

  is_some-there : (x : Option (Entry K V)) → is_some x ≡ there_is (value_of x)
  is_some-there none = refl
  is_some-there (some e) = refl

module _ {ℓ κ} {K : Type ℓ} {V : Type κ} {hash : K → ℕ} {same : K → K → Bool}
    (laws : IsHash hash same) where
  -- On a map that represents a finite map, hmap_get and hmap_contains_key for a key that is not null
  -- return without an error the value there, or null, and whether there is one.
  pub hmap_get_lem :
      (map : HMap K V) (f : K → Option (Option V)) (k : K)
      → Represents laws map f
      → (hmap_get hash same map (some k) ≡ some (join (f k)))
        × (hmap_contains_key hash same map (some k) ≡ some (there_is (f k)))
  unfolding hmap_get hmap_contains_key hmap_get_entry
  hmap_get_lem map f k (holds, size) =
      let (chain, there, belongs, finds) = chain_of laws map.buckets f k holds in
      let keyed =
        keyed_chain laws (length map.buckets) (hash k % length map.buckets) chain belongs in
      let value : value_of (first same k chain) ≡ f k = finds k refl in
      rw (there, find_entry-first same k chain keyed, ← value)
        (ap some (or_null-join (first same k chain)), ap some (is_some-there (first same k chain)))

  size_kept : (scaled : ℕ → ℕ) (map : HMap K V) → (hmap_rehash hash same scaled map).size ≡ map.size
  unfolding hmap_rehash
  size_kept scaled map = refl

  -- the map behind the test of the threshold
  grown :
      (scaled : ℕ → ℕ) (map : HMap K V) (f : K → Option (Option V)) (b : Bool)
      → length map.buckets < 2 ^ 32
      → Holds laws map.buckets f
      → map.size ≡ suc (length (entries map.buckets))
      → Holds laws (if b then hmap_rehash hash same scaled map else map).buckets f
        × ((if b then hmap_rehash hash same scaled map else map).size
            ≡ suc (length (entries (if b then hmap_rehash hash same scaled map else map).buckets)))
  grown scaled map f true small holds size =
      let (holds', kept) = rehash-Holds laws scaled map f small holds in
      (holds', size_kept scaled map ∙ (size ∙ ap suc (sym kept)))
  grown scaled map f false small holds size = (holds, size)

  find_cases : (r : Option (Entry K V)) → ((x : Entry K V) × (r ≡ some x)) ⊎ (r ≡ none)
  find_cases none = inr refl
  find_cases (some x) = inl (x, refl)

  update_absent :
      (map : HMap K V) (f : K → Option (Option V)) (k q : K)
      → Represents laws map f
      → f k ≡ none
      → update same f k none q ≡ f q
  update_absent map f k q rep absent = elim (Bool-cases (same q k)) [
    | inl alike ↦ rw alike (
        sym (
          sym (rep.0.3 q)
          ∙ (ap value_of (first-same laws q k (entries map.buckets) alike) ∙ (rep.0.3 k ∙ absent))))
    | inr apart ↦ rw apart refl
  ]

  put_new_lem :
      (scaled : ℕ → ℕ) (map : HMap K V) (f : K → Option (Option V)) (k : K) (v : Option V)
      → Represents laws map f
      → length map.buckets < 2 ^ 32
      → map.size + 1 < 2 ^ 64
      → f k ≡ none
      → (map' : HMap K V) × (put_new hash same scaled map (some k) v ≡ some map')
        × Represents laws map' (update same f k (some v))
  unfolding put_new
  put_new_lem scaled map f k v (holds, size) small room absent =
      let size' = (map.size + 1) % 2 ^ 64 in
      let bigger : HMap K V = record map { size = size' } in
      let one_more : size' ≡ suc (length (entries map.buckets)) = omega (arith, size) in
      let (holds', exact) = grown scaled bigger f (ltb map.threshold size') small holds one_more in
      inserted laws scaled _ f k v holds' absent exact

  -- Putting a key that is not null into a map that represents a finite map, with fewer than 2 ^ 32
  -- buckets and 2 ^ 64 - 1 pairs, returns without an error the old value, or null, and makes a
  -- representation of the finite map with the new value at that key.
  pub hmap_put_lem :
      (scaled : ℕ → ℕ) (map : HMap K V) (f : K → Option (Option V)) (k : K) (v : Option V)
      → Represents laws map f
      → length map.buckets < 2 ^ 32
      → map.size + 1 < 2 ^ 64
      → (map' : HMap K V) × (hmap_put hash same scaled map (some k) v ≡ some (join (f k), map'))
        × Represents laws map' (update same f k (some v))
  unfolding hmap_put
  hmap_put_lem scaled map f k v rep small room =
      let (chain, there, belongs, finds) = chain_of laws map.buckets f k rep.0 in
      let keyed =
        keyed_chain laws (length map.buckets) (hash k % length map.buckets) chain belongs in
      elim (find_cases (first same k chain)) [
        | inl (x, found) ↦
            let old : f k ≡ some x.value = sym (finds k refl) ∙ ap value_of found in
            (
              store map (hash k % length map.buckets) (assign same k v chain),
              rw (there, replace_value-assign same k v chain keyed, found, old) refl,
              assigned laws map f k v chain x rep there belongs finds found,
            )
        | inr missing ↦
            let absent : f k ≡ none = sym (finds k refl) ∙ ap value_of missing in
            let (map', put, rep') = put_new_lem scaled map f k v rep small room absent in
            (
              map',
              rw (there, replace_value-assign same k v chain keyed, missing, put, absent) refl,
              rep',
            )
      ]

  -- Removing a key that is not null from a map that represents a finite map returns without an error
  -- its value, or null, and makes a representation of the finite map without that key.
  pub hmap_remove_lem :
      (map : HMap K V) (f : K → Option (Option V)) (k : K)
      → Represents laws map f
      → (map' : HMap K V) × (hmap_remove hash same map (some k) ≡ some (join (f k), map'))
        × Represents laws map' (update same f k none)
  unfolding hmap_remove
  hmap_remove_lem map f k rep =
      let (chain, there, belongs, finds) = chain_of laws map.buckets f k rep.0 in
      let keyed =
        keyed_chain laws (length map.buckets) (hash k % length map.buckets) chain belongs in
      elim (find_cases (first same k chain)) [
        | inl (x, found) ↦
            let old : f k ≡ some x.value = sym (finds k refl) ∙ ap value_of found in
            (
              record (store map (hash k % length map.buckets) (erase same k chain)) {
                size = map.size - 1;
              },
              rw (there, unlink-erase same k chain keyed, found, old) refl,
              erased laws map f k chain x rep there belongs finds found,
            )
        | inr missing ↦
            let absent : f k ≡ none = sym (finds k refl) ∙ ap value_of missing in
            (
              map,
              rw (there, unlink-erase same k chain keyed, missing, absent) refl,
              (
                (
                  rep.0.0,
                  rep.0.1,
                  rep.0.2,
                  λ q. rep.0.3 q ∙ sym (update_absent map f k q rep absent),
                ),
                rep.1,
              ),
            )
      ]

no_entries {ℓ κ} : (K : Type ℓ) (V : Type κ) (n : ℕ) → entries {K = K} {V = V} (replicate n []) ≡ []
unfolding entries
no_entries K V zero = refl
no_entries K V (suc n) = no_entries K V n

module _ {ℓ κ} {K : Type ℓ} (V : Type κ) {hash : K → ℕ} {same : K → K → Bool}
    (laws : IsHash hash same) where
  no_pairs :
      (n t : ℕ)
      → 0 < n
      → Represents {V = V} laws
          (record { buckets = replicate n []; threshold = t; size = 0 })
          (λ q. none)
  no_pairs n t more =
      let len : length {A = List (Entry K V)} (replicate n []) ≡ n = length-replicate n [] in
      let empty = no_entries K V n in
      (
        (
          rw len more,
          rw len (replicate-Placed V hash n 0 n),
          λ q. unfold sum in (rw empty (omega arith)),
          λ q. unfold first in (rw empty refl),
        ),
        rw empty refl,
      )

  -- A new map and a map that is cleared represent the finite map without pairs.
  pub hmap_new-Represents :
      (scaled : ℕ → ℕ) → Represents laws (hmap_new {V = V} hash same scaled) (λ q. none)
  unfolding hmap_new
  hmap_new-Represents scaled = no_pairs 11 (scaled 11 % 2 ^ 32) (omega arith)

  pub hmap_clear-Represents :
      (map : HMap K V) (f : K → Option (Option V))
      → Represents laws map f
      → Represents laws (hmap_clear map) (λ q. none)
  unfolding hmap_clear
  hmap_clear-Represents map f rep = no_pairs (length map.buckets) map.threshold rep.0.0
