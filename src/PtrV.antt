-- ===== src/PtrV.antt =====
-- src/common/ptrv.c: growing vectors of pointers. `mem` is the allocated block; sizes are uint32_t.
-- An access outside the block is `none`.
pub mod Laws
pub mod Order
use microdc.Prelude.{
  ℕ, ◌+◌, ◌-◌, ◌*◌, ◌%◌, ◌^◌, ◌≤◌, ◌<◌, ◌≡◌, Bool, true, false, Option, none, some, List, [], ◌∷◌,
  ltb, leb, if◌then◌else◌, ◌>>=◌, length, take, replicate, max, get_elem?,
}
use microdc.Prelude.Mem.{xmalloc, xrealloc, memcpy, memmove}

pub record PtrV {ℓ} (A : Type ℓ) : Type ℓ where
  pub mem : List A
  pub cur : ℕ
  pub cap : ℕ

abbrev pub uint32 : ℕ → ℕ
uint32 n = n % 2 ^ 32

module _ {ℓ} {A : Type ℓ} where
  abbrev pub contents : PtrV A → List A
  contents v = take v.cur v.mem

  pub record IsValid (v : PtrV A) : Type 0 where
    pub used : v.cur ≤ v.cap
    pub room : length v.mem ≡ v.cap

module _ {ℓ} {A : Type ℓ} where
  -- The loop of ptrv_insort: the place of the first element that `before` puts behind the new one.
  pub insort_place : (A → A → Bool) → A → List A → Option ℕ
  insort_place before element [] = none
  insort_place before element (x ∷ xs) =
      if before element x then some 0 else (insort_place before element xs >>= λ c. some (c + 1))

module _ {ℓ} {A : Type ℓ} (junk : A) where
  -- ptrv_new
  pub create : PtrV A
  create = record { mem = xmalloc junk 1; cur = 0; cap = 1 }

  -- the enlargement that ptrv_append and ptrv_insort share
  pub grow : PtrV A → PtrV A
  grow v =
      if leb v.cap v.cur
      then (let n = max 1 (uint32 (v.cap * 2)) in
          record { mem = xrealloc junk v.mem n; cur = v.cur; cap = n })
      else v

  -- ptrv_append
  pub append : PtrV A → A → Option (PtrV A)
  append v value =
      let v' = grow v in
      memcpy v'.mem v'.cur (value ∷ []) >>= λ m.
      some (record v' { mem = m; cur = uint32 (v'.cur + 1) })

  -- the enlargement of ptrv_prepend_n
  widen : PtrV A → ℕ → PtrV A
  widen v n =
      let cap' = max n (uint32 (v.cap * 2)) in
      if ltb v.cap n then record { mem = xrealloc junk v.mem cap'; cur = v.cur; cap = cap' } else v

  -- ptrv_prepend_n
  pub prepend_n : PtrV A → ℕ → A → Option (PtrV A)
  prepend_n v count value =
      let n = uint32 (v.cur + count) in
      let v' = widen v n in
      memmove v'.mem count 0 v'.cur >>= λ m.
      memcpy m 0 (replicate count value) >>= λ m'. some (record v' { mem = m'; cur = n })

  pub insert_at : PtrV A → A → ℕ → Option (PtrV A)
  insert_at v element c =
      let v' = grow v in
      memmove v'.mem (c + 1) c (v'.cur - c) >>= λ m.
      memcpy m c (element ∷ []) >>= λ m'. some (record v' { mem = m'; cur = uint32 (v'.cur + 1) })

  -- behind the loop: at the place that it found, or at the end
  pub insort_to : PtrV A → A → Option ℕ → Option (PtrV A)
  insort_to v element none = append v element
  insort_to v element (some c) = insert_at v element c

  -- ptrv_insort; `before a b` is `comparator(a, b) <= 0`
  pub insort : PtrV A → A → (A → A → Bool) → Option (PtrV A)
  insort v element before = insort_to v element (insort_place before element (contents v))

module _ {ℓ} {A : Type ℓ} where
  -- ptrv_remove_range
  pub remove_range : PtrV A → ℕ → ℕ → Option (PtrV A)
  remove_range v start end =
      let cur' = uint32 (v.cur + 2 ^ 32 - uint32 (end + 2 ^ 32 - start)) in
      if ltb end v.cur
      then (memmove v.mem start end (v.cur - end) >>= λ m. some (record v { mem = m; cur = cur' }))
      else some (record v { cur = cur' })

  -- ptrv_remove; the value is NULL where there is none
  pub remove : PtrV A → ℕ → Option (Option A × PtrV A)
  remove v pos =
      if ltb pos v.cur
      then (let value = get_elem? v.mem pos in
          let left = v.cur - 1 in
          if ltb 0 (left - pos)
          then (memmove v.mem pos (pos + 1) (left - pos) >>= λ m.
              some (value, record v { mem = m; cur = left }))
          else some (value, record v { cur = left }))
      else some (none, v)

  -- ptrv_clear
  pub clear : PtrV A → PtrV A
  clear v = record v { cur = 0 }

  find_from : (A → Bool) → ℕ → List A → Option ℕ
  find_from matches c [] = none
  find_from matches c (x ∷ xs) = if matches x then some c else find_from matches (c + 1) xs

  -- ptrv_find; `none` is the result -1, and `matches x` is `comparator(element, x) == 0`
  pub find : PtrV A → (A → Bool) → Option ℕ
  unfolding find_from
  find v matches = find_from matches 0 (contents v)
