-- ===== src/Tests/Maps.antt =====
-- The theorems about src/common/hmap.c at a map from texts to numbers.
use microdc.Prelude.{ℕ, ◌*◌, ◌/◌, ◌≡◌, refl, arith, true, false, none, some, [], ◌∷◌, length}
use microdc.Prelude.Text.{Bytes, codes}
use microdc.HMap.{
  HMap, hmap_new, hmap_put, hmap_get, hmap_remove, hmap_contains_key, strhash, entries,
}
use microdc.HMap.Refine.{Represents, update}
use microdc.HMap.Operations.{hmap_new-Represents, hmap_put_lem, hmap_get_lem, hmap_remove_lem}
use microdc.HMap.Walk.{
  HMapIterator, chain_values, walk, hmap_iterator, hmap_iterator_has_next, hmap_foreach_value,
}
use microdc.HMap.Walk.Complete.{walk-foreach_value}
use microdc.HMap.Text.{same_text, strhash-IsHash}

abbrev load : ℕ → ℕ
load n = n * 3 / 4

abbrev fresh : HMap Bytes ℕ
fresh = hmap_new strhash same_text load

new_size : fresh.size ≡ 0
unfolding hmap_new
new_size = refl

new_length : length fresh.buckets ≡ 11
unfolding hmap_new
new_length = refl

hmap_put_example :
    (map : HMap Bytes ℕ) × (hmap_put strhash same_text load fresh (some (codes "share")) (some 7)
      ≡ some (none, map))
    × Represents strhash-IsHash map (update same_text (λ q. none) (codes "share") (some (some 7)))
hmap_put_example =
    hmap_put_lem strhash-IsHash load fresh (λ q. none) (codes "share") (some 7)
      (hmap_new-Represents ℕ strhash-IsHash load) (omega (arith, new_length))
      (omega (arith, new_size))

-- one more pair, and what is known of the map
abbrev Put : Type 0
Put =
    (map : HMap Bytes ℕ) × (hmap_put strhash same_text load fresh (some (codes "port")) (some 411)
      ≡ some (none, map))
    × Represents strhash-IsHash map (update same_text (λ q. none) (codes "port") (some (some 411)))

put : Put
put =
    hmap_put_lem strhash-IsHash load fresh (λ q. none) (codes "port") (some 411)
      (hmap_new-Represents ℕ strhash-IsHash load) (omega (arith, new_length))
      (omega (arith, new_size))

hmap_get_example :
    (hmap_get strhash same_text put.0 (some (codes "port")) ≡ some (some 411))
    × (hmap_contains_key strhash same_text put.0 (some (codes "port")) ≡ some true)
unfolding same_text
hmap_get_example =
    hmap_get_lem strhash-IsHash put.0
      (update same_text (λ q. none) (codes "port") (some (some 411))) (codes "port") put.2

hmap_remove_example :
    (map : HMap Bytes ℕ) × (hmap_remove strhash same_text put.0 (some (codes "port"))
      ≡ some (some 411, map))
    × Represents strhash-IsHash map (
        update same_text
          (update same_text (λ q. none) (codes "port") (some (some 411)))
          (codes "port")
          none)
unfolding same_text
hmap_remove_example =
    hmap_remove_lem strhash-IsHash put.0
      (update same_text (λ q. none) (codes "port") (some (some 411))) (codes "port") put.2

-- two buckets, of which the first has two pairs
abbrev two : HMap ℕ ℕ
two = record {
  buckets =
      (record { key = some 4; value = some 40 } ∷ record { key = some 2; value = none } ∷ [])
      ∷ []
      ∷ (record { key = some 8; value = some 80 } ∷ [])
      ∷ [];
  threshold = 2;
  size = 3;
}

walk_example :
    (it : HMapIterator ℕ ℕ) × (last : HMapIterator ℕ ℕ) × (hmap_iterator two ≡ some it)
    × (hmap_foreach_value two ≡ some (chain_values (entries two.buckets)))
    × (walk (length (entries two.buckets)) two it ≡ some (chain_values (entries two.buckets), last))
    × (hmap_iterator_has_next last ≡ false)
walk_example = walk-foreach_value two (omega arith)
