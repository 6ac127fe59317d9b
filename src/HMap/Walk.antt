-- ===== src/HMap/Walk.antt =====
-- src/common/hmap.c: the loops over all entries. Their counters are uint32_t, and the number of
-- buckets is a size_t; `none` is a loop that does not end. A loop that ends does so within as many
-- rounds as there are buckets and one more, since with 2 ^ 32 buckets or more its counter only
-- takes values that it has already had.
pub mod Complete
use microdc.Prelude.{
  ℕ, zero, suc, ◌+◌, ◌%◌, ◌^◌, ltb, ◌<◌, ◌≤◌, ◌&&◌, not, ◌≡◌, refl, sym, ◌∙◌, ap, arith, Bool, true,
  false, Option, none, some, List, [], ◌∷◌, ◌++◌, length, drop, if◌then◌else◌, ◌>>=◌, Bool-cases,
  inl, inr,
}
use microdc.HMap.{Entry, HMap, entries}

pub record HMapIterator {ℓ κ} (K : Type ℓ) (V : Type κ) : Type (ℓ ⊔ κ) where
  pub index : ℕ
  pub entry : List (Entry K V)
  pub previous_entry : Option (Entry K V)

module _ {ℓ κ} {K : Type ℓ} {V : Type κ} where
  -- hmap_foreach_value and hmap_foreach_key: the arguments of the calls, in order
  unfoldable pub chain_values : List (Entry K V) → List (Option V)
  chain_values [] = []
  chain_values (e ∷ chain) = e.value ∷ chain_values chain

  -- map->buckets[i]
  abbrev pub first_chain : List (List (Entry K V)) → List (Entry K V)
  first_chain [] = []
  first_chain (chain ∷ buckets) = chain

  abbrev pub bucket : List (List (Entry K V)) → ℕ → List (Entry K V)
  bucket buckets i = first_chain (drop i buckets)

  -- the loop from `c` on, with at most `n` tests
  unfoldable pub foreach_value : ℕ → List (List (Entry K V)) → ℕ → Option (List (Option V))
  foreach_value zero buckets c = none
  foreach_value (suc n) buckets c =
      let rest = foreach_value n buckets ((c + 1) % 2 ^ 32) in
      if ltb c (length buckets)
      then (rest >>= λ later. some (chain_values (bucket buckets c) ++ later))
      else some []

  pub hmap_foreach_value : HMap K V → Option (List (Option V))
  hmap_foreach_value hmap = foreach_value (length hmap.buckets + 1) hmap.buckets 0

  abbrev pub has_entry : List (Entry K V) → Bool
  has_entry [] = false
  has_entry (e ∷ chain) = true

  -- the loop that looks for the next bucket that is not empty, with at most `n` tests
  unfoldable pub skip_empty : ℕ → List (List (Entry K V)) → ℕ → Option ℕ
  skip_empty zero buckets i = none
  skip_empty (suc n) buckets i =
      let rest = skip_empty n buckets ((i + 1) % 2 ^ 32) in
      if ltb i (length buckets) && not (has_entry (bucket buckets i)) then rest else some i

  -- the loop from `i` on, and what it sets
  unfoldable pub seek : List (List (Entry K V)) → ℕ → Option (Entry K V) → Option (HMapIterator K V)
  seek buckets i previous = skip_empty (length buckets + 1) buckets i >>= λ j. some (record {
    index = j;
    entry = if ltb j (length buckets) then bucket buckets j else [];
    previous_entry = previous;
  })

  pub hmap_iterator : HMap K V → Option (HMapIterator K V)
  hmap_iterator hmap = seek hmap.buckets 0 none

  pub hmap_iterator_has_next : HMapIterator K V → Bool
  hmap_iterator_has_next it = has_entry it.entry

  abbrev pub go_on :
      HMap K V → HMapIterator K V → List (Entry K V) → Option (Option V × HMapIterator K V)
  go_on hmap it [] = some (none, it)
  go_on hmap it (e ∷ []) =
      seek hmap.buckets ((it.index + 1) % 2 ^ 32) (some e) >>= λ it'. some (e.value, it')
  go_on hmap it (e ∷ e' ∷ chain) =
      some (e.value, record { index = it.index; entry = e' ∷ chain; previous_entry = some e })

  pub hmap_iterator_next : HMap K V → HMapIterator K V → Option (Option V × HMapIterator K V)
  hmap_iterator_next hmap it = go_on hmap it it.entry

  abbrev pub walk_on :
      (HMapIterator K V → Option (List (Option V) × HMapIterator K V))
      → Option (Option V × HMapIterator K V)
      → Option (List (Option V) × HMapIterator K V)
  walk_on again next = next >>= λ n. again n.1 >>= λ rest. some (n.0 ∷ rest.0, rest.1)

  -- a client's loop: while there is a next entry, take it; at most `n` times
  unfoldable pub walk :
      ℕ → HMap K V → HMapIterator K V → Option (List (Option V) × HMapIterator K V)
  walk zero hmap it = some ([], it)
  walk (suc n) hmap it =
      let rest = walk_on (walk n hmap) (hmap_iterator_next hmap it) in
      if hmap_iterator_has_next it then rest else some ([], it)
