-- ===== src/HMap/Buckets.antt =====
-- src/common/hmap.c: the array of buckets. An entry stands in the bucket of its hash, so searching
-- that bucket is searching all entries.
use microdc.Prelude.{
  ℕ, zero, suc, ◌+◌, ◌<◌, ◌%◌, ◌≡◌, ◌≢◌, refl, ◌∙◌, ap, arith, Bool, false, Option, none, some,
  List, [], ◌∷◌, length, get_elem?, set, replicate, Bool-cases, inl, inr,
}
use microdc.Prelude.Text.{All, All-append}
use microdc.HMap.{Entry, entries, append_at}
use microdc.HMap.Chain.{IsHash, or_else, sum, sum-append, hit, first, first-append}

module _ {ℓ κ} {K : Type ℓ} {V : Type κ} where
  abbrev get_or : List (Entry K V) → Option (List (Entry K V)) → List (Entry K V)
  get_or chain none = chain
  get_or chain (some c) = c

  pub some-injective : (c chain : List (Entry K V)) → some c ≡ some chain → c ≡ chain
  some-injective c chain e = ap (get_or c) e

  or-none : (a : Option (Entry K V)) → or_else a none ≡ a
  or-none none = refl
  or-none (some e) = refl

module _ {ℓ κ} {K : Type ℓ} {V : Type κ} (hash : K → ℕ) where
  -- the entry has a key, and belongs to bucket `i` of `n`
  abbrev pub BelongsTo : ℕ → ℕ → Entry K V → Type ℓ
  BelongsTo n i e = (k : K) × (e.key ≡ some k) × (hash k % n ≡ i)

  -- Each chain holds entries of its bucket; the first bucket is bucket `i`.
  unfoldable pub Placed : ℕ → ℕ → List (List (Entry K V)) → Type ℓ
  Placed n i [] = Unit
  Placed n i (chain ∷ buckets) = All (BelongsTo n i) chain × Placed n (i + 1) buckets

  pub Placed-All :
      (n i j : ℕ) (buckets : List (List (Entry K V))) (chain : List (Entry K V))
      → Placed n i buckets
      → get_elem? buckets j ≡ some chain
      → All (BelongsTo n (i + j)) chain
  unfolding Placed
  Placed-All n i j [] chain h e = ground (arith, e)
  Placed-All n i zero (c ∷ buckets) chain h e =
      let same_place : i + 0 ≡ i = omega arith in rw (same_place, ← some-injective c chain e) h.0
  Placed-All n i (suc j) (c ∷ buckets) chain h e =
      let same_place : i + suc j ≡ i + 1 + j = omega arith in
      rw same_place (Placed-All n (i + 1) j buckets chain h.1 e)

  pub set-Placed :
      (n i j : ℕ) (buckets : List (List (Entry K V))) (chain : List (Entry K V))
      → Placed n i buckets
      → All (BelongsTo n (i + j)) chain
      → Placed n i (set buckets j chain)
  unfolding Placed
  set-Placed n i j [] chain h g = tt
  set-Placed n i zero (c ∷ buckets) chain h g =
      let same_place : i + 0 ≡ i = omega arith in (rw same_place at g, h.1)
  set-Placed n i (suc j) (c ∷ buckets) chain h g =
      let same_place : i + suc j ≡ i + 1 + j = omega arith in
      (h.0, set-Placed n (i + 1) j buckets chain h.1 (rw same_place at g))

  pub append_at-Placed :
      (n i j : ℕ) (e : Entry K V) (buckets : List (List (Entry K V)))
      → Placed n i buckets
      → BelongsTo n (i + j) e
      → Placed n i (append_at j e buckets)
  unfolding Placed append_at
  append_at-Placed n i j e [] h g = tt
  append_at-Placed n i zero e (c ∷ buckets) h g =
      let same_place : i + 0 ≡ i = omega arith in
      let last : All (BelongsTo n (i + 0)) (e ∷ []) = (g, tt) in
      (All-append (BelongsTo n i) c (e ∷ []) h.0 (rw same_place at last), h.1)
  append_at-Placed n i (suc j) e (c ∷ buckets) h g =
      let same_place : i + suc j ≡ i + 1 + j = omega arith in
      (h.0, append_at-Placed n (i + 1) j e buckets h.1 (rw same_place at g))

pub replicate-Placed {ℓ κ} :
    {K : Type ℓ} (V : Type κ) (hash : K → ℕ) (n i m : ℕ) → Placed {V = V} hash n i (replicate m [])
unfolding Placed
replicate-Placed V hash n i zero = tt
replicate-Placed V hash n i (suc m) = (tt, replicate-Placed V hash n (i + 1) m)

module _ {ℓ κ} {K : Type ℓ} {V : Type κ} {hash : K → ℕ} {same : K → K → Bool}
    (laws : IsHash hash same) where
  -- No entry of another bucket is a hit.
  pub miss :
      (q : K) (n i : ℕ) (e : Entry K V)
      → hash q % n ≢ i
      → BelongsTo hash n i e
      → hit same q e ≡ false
  miss q n i e other (k, there, place) = elim (Bool-cases (same q k)) [
    | inl alike ↦ absurd (other (ap (λ m. m % n) (laws.hash_eq q k alike) ∙ place))
    | inr apart ↦ rw there apart
  ]

  first-other :
      (q : K) (n i : ℕ) (chain : List (Entry K V))
      → hash q % n ≢ i
      → All (BelongsTo hash n i) chain
      → first same q chain ≡ none
  unfolding first
  first-other q n i [] other h = refl
  first-other q n i (e ∷ chain) other h =
      rw (miss q n i e other h.0) (first-other q n i chain other h.1)

  first-behind :
      (q : K) (n i : ℕ) (buckets : List (List (Entry K V)))
      → hash q % n < i
      → Placed hash n i buckets
      → first same q (entries buckets) ≡ none
  unfolding Placed entries first
  first-behind q n i [] lo h = refl
  first-behind q n i (chain ∷ buckets) lo h =
      let other : hash q % n ≢ i = λ e. ground (arith, e, lo) in
      first-append same q chain (entries buckets)
      ∙ rw (first-other q n i chain other h.0) (first-behind q n (i + 1) buckets (omega arith) h.1)

  -- The search of one bucket finds what a search of all entries finds.
  pub first-entries :
      (q : K) (n i j : ℕ) (buckets : List (List (Entry K V))) (chain : List (Entry K V))
      → Placed hash n i buckets
      → get_elem? buckets j ≡ some chain
      → hash q % n ≡ i + j
      → first same q (entries buckets) ≡ first same q chain
  unfolding Placed entries
  first-entries q n i j [] chain h e place = ground (arith, e)
  first-entries q n i zero (c ∷ buckets) chain h e place =
      first-append same q c (entries buckets)
      ∙ rw (first-behind q n (i + 1) buckets (omega arith) h.1)
          (or-none (first same q c) ∙ ap (first same q) (some-injective c chain e))
  first-entries q n i (suc j) (c ∷ buckets) chain h e place =
      let other : hash q % n ≢ i = λ e'. ground (arith, e', place) in
      first-append same q c (entries buckets)
      ∙ rw (first-other q n i c other h.0)
          (first-entries q n (i + 1) j buckets chain h.1 e (omega arith))

-- writing a bucket
module _ {ℓ κ} {K : Type ℓ} {V : Type κ} where
  pub get_elem-exists :
      (buckets : List (List (Entry K V))) (i : ℕ)
      → i < length buckets
      → (chain : List (Entry K V)) × (get_elem? buckets i ≡ some chain)
  get_elem-exists [] i h = absurd (omega arith)
  get_elem-exists (c ∷ buckets) zero h = (c, refl)
  get_elem-exists (c ∷ buckets) (suc i) h = get_elem-exists buckets i (omega arith)

  pub length-set :
      (buckets : List (List (Entry K V))) (i : ℕ) (chain : List (Entry K V))
      → length (set buckets i chain) ≡ length buckets
  length-set [] i chain = refl
  length-set (c ∷ buckets) zero chain = refl
  length-set (c ∷ buckets) (suc i) chain = ap suc (length-set buckets i chain)

  pub get_elem-set :
      (buckets : List (List (Entry K V))) (i : ℕ) (chain : List (Entry K V))
      → i < length buckets
      → get_elem? (set buckets i chain) i ≡ some chain
  get_elem-set [] i chain h = absurd (omega arith)
  get_elem-set (c ∷ buckets) zero chain h = refl
  get_elem-set (c ∷ buckets) (suc i) chain h = get_elem-set buckets i chain (omega arith)

  pub get_elem-set_other :
      (buckets : List (List (Entry K V))) (i j : ℕ) (chain : List (Entry K V))
      → i ≢ j
      → get_elem? (set buckets i chain) j ≡ get_elem? buckets j
  get_elem-set_other [] i j chain h = refl
  get_elem-set_other (c ∷ buckets) zero zero chain h = absurd (h refl)
  get_elem-set_other (c ∷ buckets) zero (suc j) chain h = refl
  get_elem-set_other (c ∷ buckets) (suc i) zero chain h = refl
  get_elem-set_other (c ∷ buckets) (suc i) (suc j) chain h =
      get_elem-set_other buckets i j chain (λ e. h (ap suc e))

  pub sum-set :
      (w : Entry K V → ℕ) (buckets : List (List (Entry K V))) (i : ℕ) (old chain : List (Entry K V))
      → get_elem? buckets i ≡ some old
      → sum w (entries (set buckets i chain)) + sum w old ≡ sum w (entries buckets) + sum w chain
  unfolding entries
  sum-set w [] i old chain e = ground (arith, e)
  sum-set w (c ∷ buckets) zero old chain e = omega (
    arith,
    sum-append w chain (entries buckets),
    sum-append w c (entries buckets),
    ap (sum w) (some-injective c old e),
  )
  sum-set w (c ∷ buckets) (suc i) old chain e = omega (
    arith,
    sum-append w c (entries (set buckets i chain)),
    sum-append w c (entries buckets),
    sum-set w buckets i old chain e,
  )
