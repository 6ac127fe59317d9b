-- ===== src/HMap.antt =====
-- src/common/hmap.c: hash maps with chains. A key or a value that is `none` is a null pointer. An
-- operation is `none` if it would read outside the array of buckets or give a null pointer to the
-- comparison, which strcmp does not bear. `scaled` is the product with the load factor, a float.
pub mod Chain
pub mod Buckets
pub mod Rehash
pub mod Refine
pub mod Updates
pub mod Operations
pub mod Walk
pub mod Text
use microdc.Prelude.{
  ℕ, zero, suc, ◌+◌, ◌-◌, ◌*◌, ◌%◌, ◌^◌, ltb, Bool, true, false, Option, none, some, List, [], ◌∷◌,
  ◌++◌, ◌>>=◌, length, get_elem?, set, take, replicate, if◌then◌else◌,
}
use microdc.Prelude.Text.{Bytes}

-- strhash; a char is signed
unfoldable pub strhash_from : ℕ → Bytes → ℕ
strhash_from hash [] = hash
strhash_from hash (c ∷ str) =
    strhash_from
      ((hash * 32 + 2 ^ 32 - hash + (if ltb c 128 then c else c + (2 ^ 32 - 256))) % 2 ^ 32) str

abbrev pub strhash : Bytes → ℕ
strhash str = strhash_from 0 str

pub record Entry {ℓ κ} (K : Type ℓ) (V : Type κ) : Type (ℓ ⊔ κ) where
  pub key : Option K
  pub value : Option V

pub record HMap {ℓ κ} (K : Type ℓ) (V : Type κ) : Type (ℓ ⊔ κ) where
  pub buckets : List (List (Entry K V))
  pub threshold : ℕ
  pub size : ℕ

module _ {ℓ κ} {K : Type ℓ} {V : Type κ} where
  -- a pointer that is found, or null
  abbrev pub or_null : Option (Entry K V) → Option V
  or_null none = none
  or_null (some e) = e.value

  -- the entries of all chains, bucket by bucket
  unfoldable pub entries : List (List (Entry K V)) → List (Entry K V)
  entries [] = []
  entries (chain ∷ buckets) = chain ++ entries buckets

  -- `dest`, the chain of a bucket, with an entry behind its last one
  unfoldable pub append_at : ℕ → Entry K V → List (List (Entry K V)) → List (List (Entry K V))
  append_at i e [] = []
  append_at zero e (chain ∷ buckets) = (chain ++ e ∷ []) ∷ buckets
  append_at (suc i) e (chain ∷ buckets) = chain ∷ append_at i e buckets

  -- the entry that a loop has passed, in front of what it returns
  abbrev pub behind :
      Entry K V → Option (Option V × List (Entry K V)) → Option (Option V × List (Entry K V))
  behind e none = none
  behind e (some (old, chain)) = some (old, e ∷ chain)

  abbrev pub store : HMap K V → ℕ → List (Entry K V) → HMap K V
  store map i chain = record map { buckets = set map.buckets i chain }

  -- hmap_remove once the loop is done; the size of a map that holds an entry is positive
  abbrev pub removed : HMap K V → ℕ → Option (Option V × List (Entry K V)) → Option V × HMap K V
  removed map i none = (none, map)
  removed map i (some (old, chain)) = (old, record (store map i chain) { size = map.size - 1 })

  abbrev pub is_some : Option (Entry K V) → Bool
  is_some none = false
  is_some (some e) = true

  pub hmap_clear : HMap K V → HMap K V
  hmap_clear map = record map { buckets = replicate (length map.buckets) []; size = 0 }

abbrev pub hmap_hash {ℓ} : {K : Type ℓ} → (K → ℕ) → ℕ → Option K → ℕ
hmap_hash hash buckets_length none = 0
hmap_hash hash buckets_length (some k) = hash k % buckets_length

-- the test of the loops over a chain
abbrev pub is_key {ℓ} : {K : Type ℓ} → (K → K → Bool) → Option K → Option K → Option Bool
is_key same none none = some true
is_key same none (some k) = some false
is_key same (some k) none = none
is_key same (some k) (some k') = some (same k k')

module _ {ℓ κ} {K : Type ℓ} {V : Type κ} (same : K → K → Bool) where
  unfoldable pub find_entry : Option K → List (Entry K V) → Option (Option (Entry K V))
  find_entry key [] = some none
  find_entry key (e ∷ chain) =
      let rest = find_entry key chain in
      is_key same key e.key >>= λ b. if b then some (some e) else rest

  -- The loop of hmap_put: the old value and the chain with the new one, if the key is there.
  unfoldable pub replace_value :
      Option K → Option V → List (Entry K V) → Option (Option (Option V × List (Entry K V)))
  replace_value key v [] = some none
  replace_value key v (e ∷ chain) =
      let rest = replace_value key v chain in
      is_key same key e.key >>= λ b.
      if b
      then some (some (e.value, record e { value = v } ∷ chain))
      else (rest >>= λ r. some (behind e r))

  -- The loop of hmap_remove: the value and the chain without the entry, if the key is there.
  unfoldable pub unlink :
      Option K → List (Entry K V) → Option (Option (Option V × List (Entry K V)))
  unlink key [] = some none
  unlink key (e ∷ chain) =
      let rest = unlink key chain in
      is_key same key e.key >>= λ b.
      if b then some (some (e.value, chain)) else (rest >>= λ r. some (behind e r))

module _ {ℓ κ} {K : Type ℓ} {V : Type κ} (hash : K → ℕ) where
  -- the loops of hmap_rehash, which put each entry behind the chain of its new bucket
  unfoldable pub move_entries : List (Entry K V) → List (List (Entry K V)) → List (List (Entry K V))
  move_entries [] buckets = buckets
  move_entries (e ∷ chain) buckets =
      move_entries chain (append_at (hmap_hash hash (length buckets) e.key) e buckets)

  unfoldable pub move_chains :
      List (List (Entry K V)) → List (List (Entry K V)) → List (List (Entry K V))
  move_chains [] buckets = buckets
  move_chains (chain ∷ old) buckets = move_chains old (move_entries chain buckets)

module _ {ℓ κ} {K : Type ℓ} {V : Type κ} (hash : K → ℕ) (same : K → K → Bool) where
  pub hmap_get_entry : HMap K V → Option K → Option (Option (Entry K V))
  hmap_get_entry map key =
      get_elem? map.buckets (hmap_hash hash (length map.buckets) key) >>= find_entry same key

  pub hmap_get : HMap K V → Option K → Option (Option V)
  hmap_get map key = hmap_get_entry map key >>= λ e. some (or_null e)

  pub hmap_contains_key : HMap K V → Option K → Option Bool
  hmap_contains_key map key = hmap_get_entry map key >>= λ e. some (is_some e)

  pub hmap_remove : HMap K V → Option K → Option (Option V × HMap K V)
  hmap_remove map key =
      let i = hmap_hash hash (length map.buckets) key in
      get_elem? map.buckets i >>= λ chain. unlink same key chain >>= λ r. some (removed map i r)

module _ {ℓ κ} {K : Type ℓ} {V : Type κ} (hash : K → ℕ) (same : K → K → Bool) (scaled : ℕ → ℕ) where
  -- old_capacity is a uint32_t
  pub hmap_rehash : HMap K V → HMap K V
  hmap_rehash map =
      let buckets_length = (length map.buckets * 2 + 1) % 2 ^ 64 in
      record map {
        buckets =
            move_chains hash (take (length map.buckets % 2 ^ 32) map.buckets)
              (replicate buckets_length []);
        threshold = scaled buckets_length % 2 ^ 32;
      }

  unfoldable pub hmap_new : HMap K V
  hmap_new = record { buckets = replicate 11 []; threshold = scaled 11 % 2 ^ 32; size = 0 }

  -- the end of hmap_put, with a new entry in front of the chain of its bucket
  pub insert_front : HMap K V → Option K → Option V → Option (HMap K V)
  insert_front map key v =
      let i = hmap_hash hash (length map.buckets) key in
      get_elem? map.buckets i >>= λ chain.
      some (store map i (record { key = key; value = v } ∷ chain))

  -- what hmap_put does with a key that is not there
  pub put_new : HMap K V → Option K → Option V → Option (HMap K V)
  put_new map key v =
      let map' = record map { size = (map.size + 1) % 2 ^ 64 } in
      insert_front (if ltb map.threshold map'.size then hmap_rehash map' else map') key v

  abbrev pub put_found :
      HMap K V
      → Option K
      → Option V
      → ℕ
      → Option (Option V × List (Entry K V))
      → Option (Option V × HMap K V)
  put_found map key v i none = put_new map key v >>= λ map'. some (none, map')
  put_found map key v i (some (old, chain)) = some (old, store map i chain)

  pub hmap_put : HMap K V → Option K → Option V → Option (Option V × HMap K V)
  hmap_put map key v =
      let i = hmap_hash hash (length map.buckets) key in
      get_elem? map.buckets i >>= λ chain. replace_value same key v chain >>= put_found map key v i
