-- ===== src/BkSearch/Laws.antt =====
-- src/common/bksearch.c: in an array that is ordered by the comparison, the search finds a match if
-- there is one, and the range is that of all matches.
use microdc.Prelude.{
  ℕ, zero, suc, ◌+◌, ◌-◌, ◌%◌, ◌^◌, ◌≤◌, ◌<◌, ◌≡◌, refl, sym, ◌∙◌, ap, arith, ltb, true, false,
  Option, none, some, List, [], ◌∷◌, ◌++◌, ◌>>=◌, append-nil, length, length-append, get_elem?,
  Bool-cases, inl, inr,
}
use microdc.Prelude.Text.{All}
use microdc.BkSearch.{
  Sign, below, equal, above, middle, compare_at, search, search_edge, bksearchpartial, bksearch,
  bksearchrange,
}

-- The members in front of `g` are smaller than the key, those from `m` on are greater, and those
-- between them are the matches.
pub record Ordered (sign : ℕ → Option Sign) (g m n : ℕ) : Type 0 where
  pub smaller : (i : ℕ) → i < g → sign i ≡ some above
  pub matching : (i : ℕ) → g ≤ i → i < m → sign i ≡ some equal
  pub greater : (i : ℕ) → m ≤ i → i < n → sign i ≡ some below

middle_lem : (l u : ℕ) → l < u → u < 2 ^ 63 → (l ≤ middle l u) × (middle l u < u)
middle_lem l u h k = (omega arith, omega arith)

module _ (sign : ℕ → Option Sign) (g m n : ℕ) (ordered : Ordered sign g m n) where
  search-none :
      (fuel l u : ℕ)
      → g ≡ m
      → l ≤ g
      → m ≤ u
      → u ≤ n
      → n < 2 ^ 63
      → u - l ≤ fuel
      → search sign fuel l u ≡ some none
  unfolding search
  search-none zero l u none_there lo hi in_range small enough = ground arith
  search-none (suc fuel) l u none_there lo hi in_range small enough = elim (Bool-cases (ltb l u)) [
    | inr done ↦ rw done refl
    | inl more ↦
        let (left_of, right_of) = middle_lem l u (ground (arith, more)) (omega arith) in
        elim (Bool-cases (ltb (middle l u) g)) [
          | inl low ↦
              rw (more, ordered.smaller (middle l u) (ground (arith, low)))
                (search-none fuel (middle l u + 1) u none_there (ground (arith, low)) hi in_range
                  small (omega arith))
          | inr high ↦
              rw (more, ordered.greater (middle l u) (ground (arith, high)) (omega arith))
                (search-none fuel l (middle l u) none_there lo (ground (arith, high)) (omega arith)
                  small (omega arith))
        ]
  ]

  search-some :
      (fuel l u : ℕ)
      → g < m
      → l ≤ g
      → m ≤ u
      → u ≤ n
      → n < 2 ^ 63
      → u - l ≤ fuel
      → (idx : ℕ) × (search sign fuel l u ≡ some (some idx)) × (g ≤ idx) × (idx < m)
  unfolding search
  search-some zero l u there lo hi in_range small enough = absurd (omega arith)
  search-some (suc fuel) l u there lo hi in_range small enough =
      let more : ltb l u ≡ true = ground arith in
      let (left_of, right_of) = middle_lem l u (omega arith) (omega arith) in
      elim (Bool-cases (ltb (middle l u) g)) [
        | inl low ↦
            rw (more, ordered.smaller (middle l u) (ground (arith, low)))
              (search-some fuel (middle l u + 1) u there (ground (arith, low)) hi in_range small
                (omega arith))
        | inr not_low ↦ elim (Bool-cases (ltb (middle l u) m)) [
          | inl inside ↦
              rw
                (
                  more,
                  ordered.matching (middle l u) (ground (arith, not_low)) (ground (arith, inside)),
                )
                (middle l u, refl, ground (arith, not_low), ground (arith, inside))
          | inr high ↦
              rw (more, ordered.greater (middle l u) (ground (arith, high)) (omega arith))
                (search-some fuel l (middle l u) there lo (ground (arith, high)) (omega arith) small
                  (omega arith))
        ]
      ]

  -- the first match, below one that is known
  first_edge :
      (fuel l u : ℕ)
      → l ≤ g
      → g ≤ u
      → u ≤ m
      → m ≤ n
      → n < 2 ^ 63
      → u - l ≤ fuel
      → search_edge sign fuel true l u ≡ some g
  unfolding search_edge
  first_edge zero l u lo hi in_match in_range small enough =
      let same_place : l ≡ g = omega arith in
      let done : ltb l u ≡ false = ground arith in rw done (ap some same_place)
  first_edge (suc fuel) l u lo hi in_match in_range small enough = elim (Bool-cases (ltb l u)) [
    | inr done ↦ rw done (ap some (ground (arith, done)))
    | inl more ↦
        let (left_of, right_of) = middle_lem l u (ground (arith, more)) (omega arith) in
        elim (Bool-cases (ltb (middle l u) g)) [
          | inl low ↦
              rw (more, ordered.smaller (middle l u) (ground (arith, low)))
                (first_edge fuel (middle l u + 1) u (ground (arith, low)) hi in_match in_range small
                  (omega arith))
          | inr high ↦
              rw (more, ordered.matching (middle l u) (ground (arith, high)) (omega arith))
                (first_edge fuel l (middle l u) lo (ground (arith, high)) (omega arith) in_range
                  small (omega arith))
        ]
  ]

  -- the place behind the last match, above one that is known
  last_edge :
      (fuel l u : ℕ)
      → g ≤ l
      → l ≤ m
      → m ≤ u
      → u ≤ n
      → n < 2 ^ 63
      → u - l ≤ fuel
      → search_edge sign fuel false l u ≡ some m
  unfolding search_edge
  last_edge zero l u lo hi in_match in_range small enough =
      let same_place : l ≡ m = omega arith in
      let done : ltb l u ≡ false = ground arith in rw done (ap some same_place)
  last_edge (suc fuel) l u lo hi in_match in_range small enough = elim (Bool-cases (ltb l u)) [
    | inr done ↦ rw done (ap some (ground (arith, done)))
    | inl more ↦
        let (left_of, right_of) = middle_lem l u (ground (arith, more)) (omega arith) in
        elim (Bool-cases (ltb (middle l u) m)) [
          | inl low ↦
              rw (more, ordered.matching (middle l u) (omega arith) (ground (arith, low)))
                (last_edge fuel (middle l u + 1) u (omega arith) (ground (arith, low)) in_match
                  in_range small (omega arith))
          | inr high ↦
              rw (more, ordered.greater (middle l u) (ground (arith, high)) (omega arith))
                (last_edge fuel l (middle l u) lo hi (ground (arith, high)) (omega arith) small
                  (omega arith))
        ]
  ]

-- an array in three parts
module _ {ℓ} {A : Type ℓ} (cmp : A → Sign) where
  front :
      (v : Sign) (xs ys : List A) (i : ℕ)
      → All (λ a. cmp a ≡ v) xs
      → i < length xs
      → compare_at cmp (xs ++ ys) i ≡ some v
  unfolding compare_at
  front v [] ys i h lo = absurd (omega arith)
  front v (x ∷ xs) ys zero h lo = ap some h.0
  front v (x ∷ xs) ys (suc i) h lo = front v xs ys i h.1 (omega arith)

  behind :
      (xs ys : List A) (i : ℕ)
      → length xs ≤ i
      → compare_at cmp (xs ++ ys) i ≡ compare_at cmp ys (i - length xs)
  unfolding compare_at
  behind [] ys i h = ap (λ j. get_elem? ys j >>= λ a. some (cmp a)) (omega arith)
  behind (x ∷ xs) ys zero h = absurd (omega arith)
  behind (x ∷ xs) ys (suc i) h =
      let less : suc i - suc (length xs) ≡ i - length xs = omega arith in
      rw less (behind xs ys i (omega arith))

  parts-Ordered :
      (xs ys zs : List A)
      → All (λ a. cmp a ≡ above) xs
      → All (λ a. cmp a ≡ equal) ys
      → All (λ a. cmp a ≡ below) zs
      → Ordered
          (compare_at cmp (xs ++ (ys ++ zs)))
          (length xs)
          (length xs + length ys)
          (length (xs ++ (ys ++ zs)))
  parts-Ordered xs ys zs smaller matching greater = record {
    smaller = λ i h. front above xs (ys ++ zs) i smaller h;
    matching = λ i lo hi.
        behind xs (ys ++ zs) i lo ∙ front equal ys zs (i - length xs) matching (omega arith);
    greater = λ i lo hi.
        behind xs (ys ++ zs) i (omega arith)
        ∙ (behind ys zs (i - length xs) (omega arith)
            ∙ (ap (λ l. compare_at cmp l (i - length xs - length ys)) (sym (append-nil zs))
                ∙ front below zs [] (i - length xs - length ys) greater
                    (omega (arith, length-append xs (ys ++ zs), length-append ys zs))));
  }

  -- the first and the last place of a part that begins at a place
  abbrev pub places : ℕ → List A → Option (ℕ × ℕ)
  places start [] = none
  places start (y ∷ ys) = some (start, start + length ys)

  -- In an array of fewer than 2 ^ 63 members, of which first come those below the key, then the
  -- matches, then those above the key, bksearchrange ends without a read outside the array, and its
  -- result is the first and the last place of the matches, or none if there is no match.
  pub bksearchrange_lem :
      (xs ys zs : List A)
      → All (λ a. cmp a ≡ above) xs
      → All (λ a. cmp a ≡ equal) ys
      → All (λ a. cmp a ≡ below) zs
      → length (xs ++ (ys ++ zs)) < 2 ^ 63
      → bksearchrange (compare_at cmp (xs ++ (ys ++ zs))) (length (xs ++ (ys ++ zs)))
        ≡ some (places (length xs) ys)
  unfolding bksearchrange bksearch bksearchpartial
  bksearchrange_lem xs [] zs smaller matching greater small =
      let sign = compare_at cmp (xs ++ zs) in
      let n = length (xs ++ zs) in
      let order = parts-Ordered xs [] zs smaller matching greater in
      let len = length-append xs zs in
      rw
        (search-none sign (length xs) (length xs + 0) n order n 0 n (omega arith) (omega arith)
          (omega (arith, len)) (omega arith) small (omega arith))
        refl
  bksearchrange_lem xs (y ∷ ys) zs smaller matching greater small =
      let sign = compare_at cmp (xs ++ (y ∷ ys ++ zs)) in
      let n = length (xs ++ (y ∷ ys ++ zs)) in
      let g = length xs in
      let m = length xs + length (y ∷ ys) in
      let order = parts-Ordered xs (y ∷ ys) zs smaller matching greater in
      let len = length-append xs (y ∷ ys ++ zs) in
      let len' = length-append (y ∷ ys) zs in
      let (idx, found, lo, hi) =
        search-some sign g m n order n 0 n (omega arith) (omega arith) (omega arith) (omega arith)
          small (omega arith) in
      let first_place =
        first_edge sign g m n order (idx - 0) 0 idx (omega arith) lo (omega arith) (omega arith)
          small (omega arith) in
      let last_place =
        last_edge sign g m n order (n - (idx + 1)) (idx + 1) n (omega arith) (omega arith)
          (omega arith) (omega arith) small (omega arith) in
      let one_less : (m + 2 ^ 64 - 1) % 2 ^ 64 ≡ g + length ys = omega arith in
      rw (found, first_place, last_place, one_less) refl
