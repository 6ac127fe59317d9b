-- ===== src/HMap/Rehash.antt =====
-- src/common/hmap.c: hmap_rehash. It moves each entry to its bucket in a larger array, and changes
-- neither the entries nor what a search finds.
use microdc.Prelude.{
  ℕ, zero, suc, ◌+◌, ◌<◌, ◌%◌, ◌==◌, ◌≡◌, ◌≢◌, refl, sym, ◌∙◌, ap, arith, Bool, Option, none, some,
  List, [], ◌∷◌, ◌++◌, ◌>>=◌, length, get_elem?, Bool-cases, inl, inr, ==_iff,
}
use microdc.Prelude.Text.{All}
use microdc.HMap.{Entry, hmap_hash, entries, append_at, move_entries, move_chains}
use microdc.HMap.Chain.{IsHash, HasKey, or_else, sum, sum-append, first, first-append}
use microdc.HMap.Buckets.{BelongsTo, Placed, append_at-Placed, miss}

pub All-left {ℓ κ} : {A : Type ℓ} (P : A → Type κ) (xs ys : List A) → All P (xs ++ ys) → All P xs
All-left P [] ys h = tt
All-left P (x ∷ xs) ys h = (h.0, All-left P xs ys h.1)

pub All-right {ℓ κ} : {A : Type ℓ} (P : A → Type κ) (xs ys : List A) → All P (xs ++ ys) → All P ys
All-right P [] ys h = h
All-right P (x ∷ xs) ys h = All-right P xs ys h.1

module _ {ℓ κ} {K : Type ℓ} {V : Type κ} where
  length-append_at :
      (i : ℕ) (e : Entry K V) (buckets : List (List (Entry K V)))
      → length (append_at i e buckets) ≡ length buckets
  unfolding append_at
  length-append_at i e [] = refl
  length-append_at zero e (c ∷ buckets) = refl
  length-append_at (suc i) e (c ∷ buckets) = ap suc (length-append_at i e buckets)

  sum-append_at :
      (w : Entry K V → ℕ) (i : ℕ) (e : Entry K V) (buckets : List (List (Entry K V)))
      → i < length buckets
      → sum w (entries (append_at i e buckets)) ≡ w e + sum w (entries buckets)
  unfolding append_at entries sum
  sum-append_at w i e [] h = absurd (omega arith)
  sum-append_at w zero e (c ∷ buckets) h = omega (
    arith,
    sum-append w (c ++ e ∷ []) (entries buckets),
    sum-append w c (e ∷ []),
    sum-append w c (entries buckets),
  )
  sum-append_at w (suc i) e (c ∷ buckets) h = omega (
    arith,
    sum-append w c (entries (append_at i e buckets)),
    sum-append w c (entries buckets),
    sum-append_at w i e buckets (omega arith),
  )

  get_elem-append_at :
      (i : ℕ) (e : Entry K V) (buckets : List (List (Entry K V))) (chain : List (Entry K V))
      → get_elem? buckets i ≡ some chain
      → get_elem? (append_at i e buckets) i ≡ some (chain ++ e ∷ [])
  unfolding append_at
  get_elem-append_at i e [] chain h = ground (arith, h)
  get_elem-append_at zero e (c ∷ buckets) chain h = ap (λ o. o >>= λ c'. some (c' ++ e ∷ [])) h
  get_elem-append_at (suc i) e (c ∷ buckets) chain h = get_elem-append_at i e buckets chain h

  get_elem-append_at_other :
      (i j : ℕ) (e : Entry K V) (buckets : List (List (Entry K V)))
      → i ≢ j
      → get_elem? (append_at i e buckets) j ≡ get_elem? buckets j
  unfolding append_at
  get_elem-append_at_other i j e [] h = refl
  get_elem-append_at_other zero zero e (c ∷ buckets) h = absurd (h refl)
  get_elem-append_at_other zero (suc j) e (c ∷ buckets) h = refl
  get_elem-append_at_other (suc i) zero e (c ∷ buckets) h = refl
  get_elem-append_at_other (suc i) (suc j) e (c ∷ buckets) h =
      get_elem-append_at_other i j e buckets (λ e'. h (ap suc e'))

module _ {ℓ κ} {K : Type ℓ} {V : Type κ} {hash : K → ℕ} {same : K → K → Bool}
    (laws : IsHash hash same) where
  -- what a search finds in the bucket of a key, behind the entries that were there before
  abbrev Finds :
      ℕ → K → List (Entry K V) → List (List (Entry K V)) → List (List (Entry K V)) → Type (ℓ ⊔ κ)
  Finds n q chain buckets new =
      (c : List (Entry K V))
      → get_elem? buckets (hash q % n) ≡ some c
      → (c' : List (Entry K V)) × (get_elem? new (hash q % n) ≡ some c')
        × (first same q c' ≡ or_else (first same q c) (first same q chain))

  -- The entries are moved to their buckets.
  abbrev Moved :
      ℕ → List (Entry K V) → List (List (Entry K V)) → List (List (Entry K V)) → Type (ℓ ⊔ κ)
  Moved n chain buckets new =
      (length new ≡ n)
      × Placed hash n 0 new
      × ((w : Entry K V → ℕ) → sum w (entries new) ≡ sum w chain + sum w (entries buckets))
      × ((q : K) → Finds n q chain buckets new)

  or_else_assoc : (a b c : Option (Entry K V)) → or_else (or_else a b) c ≡ or_else a (or_else b c)
  or_else_assoc none b c = refl
  or_else_assoc (some e) b c = refl

  or_else-none : (a : Option (Entry K V)) → or_else a none ≡ a
  or_else-none none = refl
  or_else-none (some e) = refl

  first-missed :
      (q : K) (n : ℕ) (k : K) (e : Entry K V)
      → hash q % n ≢ hash k % n
      → e.key ≡ some k
      → first same q (e ∷ []) ≡ none
  unfolding first
  first-missed q n k e other there = rw (miss laws q n (hash k % n) e other (k, there, refl)) refl

  -- one entry
  append_at-Finds :
      (n : ℕ) (q k : K) (e : Entry K V) (buckets : List (List (Entry K V)))
      → e.key ≡ some k
      → Finds n q (e ∷ []) buckets (append_at (hash k % n) e buckets)
  append_at-Finds n q k e buckets there c found = elim (Bool-cases (hash k % n == hash q % n)) [
    | inl alike ↦
        let place : hash k % n ≡ hash q % n = (==_iff (hash k % n) (hash q % n)).0 alike in
        (
          c ++ e ∷ [],
          rw place (get_elem-append_at (hash q % n) e buckets c found),
          first-append same q c (e ∷ []),
        )
    | inr apart ↦
        let other : hash k % n ≢ hash q % n =
          λ e'. ground (arith, apart, (==_iff (hash k % n) (hash q % n)).1 e') in
        let missed : first same q (e ∷ []) ≡ none =
          first-missed q n k e (λ e'. other (sym e')) there in
        (
          c,
          get_elem-append_at_other (hash k % n) (hash q % n) e buckets other ∙ found,
          sym (ap (or_else (first same q c)) missed ∙ or_else-none (first same q c)),
        )
  ]

  append_at-Moved :
      (n : ℕ) (e : Entry K V) (buckets : List (List (Entry K V)))
      → 0 < n
      → length buckets ≡ n
      → HasKey e
      → Placed hash n 0 buckets
      → Moved n (e ∷ []) buckets (append_at (hmap_hash hash (length buckets) e.key) e buckets)
  append_at-Moved n e buckets some_buckets len (k, there) placed =
      let place : hmap_hash hash (length buckets) e.key ≡ hash k % n = rw (there, len) refl in
      let inside : hash k % n < length buckets = ground (arith, len) in
      let belongs : BelongsTo hash n (0 + hash k % n) e = (k, there, omega arith) in
      rw place (
        length-append_at (hash k % n) e buckets ∙ len,
        append_at-Placed hash n 0 (hash k % n) e buckets placed belongs,
        λ w. sum-append_at w (hash k % n) e buckets inside ∙ (unfold sum in omega arith),
        λ q. append_at-Finds n q k e buckets there,
      )

  Moved-trans :
      (n : ℕ) (a b : List (Entry K V)) (old mid new : List (List (Entry K V)))
      → Moved n a old mid
      → Moved n b mid new
      → Moved n (a ++ b) old new
  Moved-trans n a b old mid new (len, placed, sums, finds) (len', placed', sums', finds') = (
    len',
    placed',
    λ w. omega (arith, sums w, sums' w, sum-append w a b),
    λ q c found.
        let (c1, found1, there1) = finds q c found in
        let (c2, found2, there2) = finds' q c1 found1 in
        (
          c2,
          found2,
          there2
              ∙ rw there1 (
                  or_else_assoc (first same q c) (first same q a) (first same q b)
                  ∙ ap (or_else (first same q c)) (sym (first-append same q a b))),
        ),
  )

  move_entries-Moved :
      (n : ℕ) (chain : List (Entry K V)) (buckets : List (List (Entry K V)))
      → 0 < n
      → length buckets ≡ n
      → All HasKey chain
      → Placed hash n 0 buckets
      → Moved n chain buckets (move_entries hash chain buckets)
  unfolding move_entries
  move_entries-Moved n [] buckets some_buckets len keyed placed = (
    len,
    placed,
    λ w. unfold sum in omega arith,
    λ q c found. (c, found, sym (unfold first in or_else-none (first same q c))),
  )
  move_entries-Moved n (e ∷ chain) buckets some_buckets len keyed placed =
      let mid = append_at (hmap_hash hash (length buckets) e.key) e buckets in
      let one_moved : Moved n (e ∷ []) buckets mid =
        append_at-Moved n e buckets some_buckets len keyed.0 placed in
      Moved-trans n (e ∷ []) chain buckets mid _ one_moved
        (move_entries-Moved n chain mid some_buckets one_moved.0 keyed.1 one_moved.1)

  pub move_chains-Moved :
      (n : ℕ) (old buckets : List (List (Entry K V)))
      → 0 < n
      → length buckets ≡ n
      → All HasKey (entries old)
      → Placed hash n 0 buckets
      → Moved n (entries old) buckets (move_chains hash old buckets)
  unfolding move_chains entries
  move_chains-Moved n [] buckets some_buckets len keyed placed = (
    len,
    placed,
    λ w. unfold sum in omega arith,
    λ q c found. (c, found, sym (unfold first in or_else-none (first same q c))),
  )
  move_chains-Moved n (chain ∷ old) buckets some_buckets len keyed placed =
      let mid = move_entries hash chain buckets in
      let one_moved : Moved n chain buckets mid =
        move_entries-Moved n chain buckets some_buckets len
          (All-left HasKey chain (entries old) keyed) placed in
      Moved-trans n chain (entries old) buckets mid _ one_moved (
        move_chains-Moved n old mid some_buckets one_moved.0
          (All-right HasKey chain (entries old) keyed) one_moved.1)
