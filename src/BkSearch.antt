-- ===== src/BkSearch.antt =====
-- src/common/bksearch.c: binary search in an ordered array. `cmp` is the comparison of the key with a
-- member, so that bksearchpartial and bsearchpartial, which differ in how they find the key of a
-- member, are one function. Places are indices; a read outside the array is `none`.
pub mod Laws
use microdc.Prelude.{
  ℕ, zero, suc, ◌+◌, ◌-◌, ◌/◌, ◌%◌, ◌^◌, ltb, Bool, true, false, Option, none, some, List, ◌>>=◌,
  length, get_elem?, if◌then◌else◌,
}

-- the sign of a comparison: the key is below the member, equal to it, or above it
pub data Sign : Type 0 where
  below : Sign
  equal : Sign
  above : Sign

abbrev pub is_equal : Sign → Bool
is_equal below = false
is_equal equal = true
is_equal above = false

abbrev pub middle : ℕ → ℕ → ℕ
middle l u = (l + u) % 2 ^ 64 / 2

module _ {ℓ} {A : Type ℓ} (cmp : A → Sign) (base : List A) where
  pub compare_at : ℕ → Option Sign
  compare_at i = get_elem? base i >>= λ a. some (cmp a)

module _ (sign : ℕ → Option Sign) where
  abbrev pub turn : Sign → Option (Option ℕ) → Option (Option ℕ) → ℕ → Option (Option ℕ)
  turn below lower upper idx = lower
  turn equal lower upper idx = some (some idx)
  turn above lower upper idx = upper

  -- the loop of bksearch; each round makes the gap between the bounds smaller
  unfoldable pub search : ℕ → ℕ → ℕ → Option (Option ℕ)
  search zero l u = if ltb l u then none else some none
  search (suc fuel) l u =
      let idx = middle l u in
      let lower = search fuel l idx in
      let upper = search fuel (idx + 1) u in
      if ltb l u then (sign idx >>= λ s. turn s lower upper idx) else some none

  abbrev pub same_bool : Bool → Bool → Bool
  same_bool true b = b
  same_bool false true = false
  same_bool false false = true

  -- the loop of bksearchpartial
  unfoldable pub search_edge : ℕ → Bool → ℕ → ℕ → Option ℕ
  search_edge zero matches_above l u = if ltb l u then none else some l
  search_edge (suc fuel) matches_above l u =
      let idx = middle l u in
      let lower = search_edge fuel matches_above l idx in
      let upper = search_edge fuel matches_above (idx + 1) u in
      if ltb l u
      then (sign idx >>= λ s. if same_bool (is_equal s) matches_above then lower else upper)
      else some l

  pub bksearchpartial : ℕ → ℕ → Bool → Option ℕ
  bksearchpartial l u matches_above = search_edge (u - l) matches_above l u >>= λ place.
      some (if matches_above then place else (place + 2 ^ 64 - 1) % 2 ^ 64)

  pub bksearch : ℕ → Option (Option ℕ)
  bksearch nmemb = search nmemb 0 nmemb

  -- the first and the last match; `none` if NULL is returned for both
  abbrev pub range_of : ℕ → Option ℕ → Option (Option (ℕ × ℕ))
  range_of nmemb none = some none
  range_of nmemb (some idx) = bksearchpartial 0 idx true >>= λ first_match.
      bksearchpartial (idx + 1) nmemb false >>= λ last_match. some (some (first_match, last_match))

  pub bksearchrange : ℕ → Option (Option (ℕ × ℕ))
  bksearchrange nmemb = bksearch nmemb >>= range_of nmemb
