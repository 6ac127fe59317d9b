-- ===== src/HMap/Walk/Complete.antt =====
-- src/common/hmap.c: the loops over all entries end, and pass each entry once.
use microdc.Prelude.{
  ℕ, zero, suc, ◌+◌, ◌%◌, ◌^◌, ltb, ◌<◌, ◌≤◌, ◌≡◌, refl, sym, ◌∙◌, ap, arith, true, false, Option,
  none, some, List, [], ◌∷◌, ◌++◌, length, drop, if◌then◌else◌, Bool-cases, inl, inr,
}
use microdc.HMap.{Entry, HMap, entries}
use microdc.HMap.Walk.{
  HMapIterator, chain_values, bucket, foreach_value, hmap_foreach_value, has_entry, skip_empty,
  seek, hmap_iterator, hmap_iterator_has_next, hmap_iterator_next, walk,
}

module _ {ℓ κ} {K : Type ℓ} {V : Type κ} where
  drop_cons :
      (i : ℕ) (buckets : List (List (Entry K V)))
      → i < length buckets
      → drop i buckets ≡ bucket buckets i ∷ drop (i + 1) buckets
  drop_cons i [] h = absurd (omega arith)
  drop_cons zero (c ∷ buckets) h = refl
  drop_cons (suc i) (c ∷ buckets) h =
      let next : suc i + 1 ≡ suc (i + 1) = omega arith in
      rw next (drop_cons i buckets (omega arith))

  drop_past : (i : ℕ) (buckets : List (List (Entry K V))) → length buckets ≤ i → drop i buckets ≡ []
  drop_past zero [] h = refl
  drop_past (suc i) [] h = refl
  drop_past zero (c ∷ buckets) h = absurd (omega arith)
  drop_past (suc i) (c ∷ buckets) h = drop_past i buckets (omega arith)

  abbrev from : List (List (Entry K V)) → ℕ → List (Entry K V)
  from buckets i = entries (drop i buckets)

  from_cons :
      (i : ℕ) (buckets : List (List (Entry K V)))
      → i < length buckets
      → from buckets i ≡ bucket buckets i ++ from buckets (i + 1)
  unfolding entries
  from_cons i buckets h = ap entries (drop_cons i buckets h)

  from_past : (i : ℕ) (buckets : List (List (Entry K V))) → length buckets ≤ i → from buckets i ≡ []
  unfolding entries
  from_past i buckets h = ap entries (drop_past i buckets h)

  -- what `entry` is set to
  abbrev entry_at : List (List (Entry K V)) → ℕ → List (Entry K V)
  entry_at buckets j = if ltb j (length buckets) then bucket buckets j else []

  -- What the loop finds: no entry is passed, and it stops behind the buckets only if none is left.
  Found : List (List (Entry K V)) → ℕ → ℕ → Type (ℓ ⊔ κ)
  Found buckets i j =
      (entry_at buckets j ++ from buckets (j + 1) ≡ from buckets i)
      × (has_entry (entry_at buckets j) ≡ false → from buckets i ≡ [])
      × (has_entry (entry_at buckets j) ≡ true → j < length buckets)

  nothing_left : (chain : List (Entry K V)) → has_entry chain ≡ false → chain ≡ []
  nothing_left [] h = refl
  nothing_left (e ∷ chain) h = absurd (ground (arith, h))

  skip_empty_lem :
      (n i : ℕ) (buckets : List (List (Entry K V)))
      → length buckets < 2 ^ 32
      → 0 < n
      → length buckets < n + i
      → (j : ℕ) × (skip_empty n buckets i ≡ some j) × Found buckets i j
  unfolding skip_empty Found
  skip_empty_lem zero i buckets small more room = absurd (omega arith)
  skip_empty_lem (suc n) i buckets small more room = elim (Bool-cases (ltb i (length buckets))) [
    | inr past ↦
        let none_left = from_past i buckets (ground arith) in
        let none_behind = from_past (i + 1) buckets (ground arith) in
        (
          i,
          rw past refl,
          (
            rw past (none_behind ∙ sym none_left),
            (λ e. none_left),
            rw past (λ e. absurd (ground (arith, e))),
          ),
        )
    | inl here ↦
        let split = from_cons i buckets (ground arith) in
        elim (Bool-cases (has_entry (bucket buckets i))) [
          | inl full ↦ (
            i,
            rw (here, full) refl,
            (
              rw here (sym split),
              rw (here, full) (λ e. absurd (ground (arith, e))),
              (λ e. ground (arith, here)),
            ),
          )
          | inr hollow ↦
              let next : (i + 1) % 2 ^ 32 ≡ i + 1 = ground (arith, here) in
              let (j, found, whole) =
                skip_empty_lem n (i + 1) buckets small (ground (arith, here))
                  (omega (arith, room)) in
              let same : from buckets (i + 1) ≡ from buckets i =
                sym (split ∙ ap (λ l. l ++ from buckets (i + 1)) (nothing_left _ hollow)) in
              (
                j,
                rw (here, hollow) (ap (λ m. skip_empty n buckets m) next ∙ found),
                (whole.0 ∙ same, (λ e. sym same ∙ whole.1 e), whole.2),
              )
        ]
  ]

  abbrev iterator_at : List (List (Entry K V)) → ℕ → Option (Entry K V) → HMapIterator K V
  iterator_at buckets j previous = record {
    index = j;
    entry = entry_at buckets j;
    previous_entry = previous;
  }

  seek_lem :
      (i : ℕ) (buckets : List (List (Entry K V))) (previous : Option (Entry K V))
      → length buckets < 2 ^ 32
      → (j : ℕ) × (seek buckets i previous ≡ some (iterator_at buckets j previous))
        × Found buckets i j
  unfolding seek
  seek_lem i buckets previous small =
      let (j, found, whole) =
        skip_empty_lem (length buckets + 1) i buckets small (omega arith) (omega arith) in
      (j, rw found refl, whole)

  -- the loop of a client, from an iterator that stands at `chain` in bucket `i`
  walk_lem :
      (n : ℕ) (hmap : HMap K V) (i : ℕ) (chain : List (Entry K V)) (previous : Option (Entry K V))
      → length hmap.buckets < 2 ^ 32
      → length (chain ++ from hmap.buckets (i + 1)) ≤ n
      → (has_entry chain ≡ false → chain ++ from hmap.buckets (i + 1) ≡ [])
      → (has_entry chain ≡ true → i < length hmap.buckets)
      → (last : HMapIterator K V) × (walk n hmap
            (record { index = i; entry = chain; previous_entry = previous })
          ≡ some (chain_values (chain ++ from hmap.buckets (i + 1)), last))
        × (hmap_iterator_has_next last ≡ false)
  unfolding walk hmap_iterator_has_next hmap_iterator_next chain_values Found
  walk_lem zero hmap i [] previous small len ended inside = (
    record { index = i; entry = []; previous_entry = previous },
    ap (λ l. some (chain_values l, record { index = i; entry = []; previous_entry = previous }))
        (sym (ended refl)),
    refl,
  )
  walk_lem zero hmap i (e ∷ chain) previous small len ended inside = absurd (omega arith)
  walk_lem (suc n) hmap i [] previous small len ended inside = (
    record { index = i; entry = []; previous_entry = previous },
    ap (λ l. some (chain_values l, record { index = i; entry = []; previous_entry = previous }))
        (sym (ended refl)),
    refl,
  )
  walk_lem (suc n) hmap i (e ∷ []) previous small len ended inside =
      let here = inside refl in
      let next : (i + 1) % 2 ^ 32 ≡ i + 1 = omega arith in
      let (j, found, whole) = seek_lem (i + 1) hmap.buckets (some e) small in
      let (last, values, done) =
        walk_lem n hmap j (entry_at hmap.buckets j) (some e) small
          (omega (arith, ap length whole.0)) (λ nothing. whole.0 ∙ whole.1 nothing) whole.2 in
      (
        last,
        rw (next, found, values) (ap (λ l. some (e.value ∷ chain_values l, last)) whole.0),
        done,
      )
  walk_lem (suc n) hmap i (e ∷ e' ∷ chain) previous small len ended inside =
      let (last, values, done) =
        walk_lem n hmap i (e' ∷ chain) (some e) small (omega arith)
          (λ nothing. ground (arith, nothing)) (λ there. inside refl) in
      (last, rw values refl, done)

  chain_values-append :
      (a b : List (Entry K V)) → chain_values (a ++ b) ≡ chain_values a ++ chain_values b
  unfolding chain_values
  chain_values-append [] b = refl
  chain_values-append (e ∷ a) b = ap (λ l. e.value ∷ l) (chain_values-append a b)

  foreach_value-entries :
      (n c : ℕ) (buckets : List (List (Entry K V)))
      → length buckets < 2 ^ 32
      → 0 < n
      → length buckets < n + c
      → foreach_value n buckets c ≡ some (chain_values (from buckets c))
  unfolding foreach_value chain_values
  foreach_value-entries zero c buckets small more room = absurd (omega arith)
  foreach_value-entries (suc n) c buckets small more room =
      elim (Bool-cases (ltb c (length buckets))) [
        | inr past ↦ rw (past, from_past c buckets (ground arith)) refl
        | inl here ↦
            let next : (c + 1) % 2 ^ 32 ≡ c + 1 = ground (arith, here) in
            let later =
              foreach_value-entries n (c + 1) buckets small (ground (arith, here))
                (omega (arith, room)) in
            rw (here, next, later, from_cons c buckets (ground (arith, here)))
              (ap some (sym (chain_values-append (bucket buckets c) (from buckets (c + 1)))))
      ]

  -- For a map with fewer than 2 ^ 32 buckets, hmap_foreach_value ends, after a call for the value of
  -- each entry, bucket by bucket; and a loop that takes the next value from an iterator while there
  -- is one ends, after as many rounds as there are entries, with the same values in the same order.
  pub walk-foreach_value :
      (hmap : HMap K V)
      → length hmap.buckets < 2 ^ 32
      → (it : HMapIterator K V) × (last : HMapIterator K V) × (hmap_iterator hmap ≡ some it)
        × (hmap_foreach_value hmap ≡ some (chain_values (entries hmap.buckets)))
        × (walk (length (entries hmap.buckets)) hmap it
            ≡ some (chain_values (entries hmap.buckets), last))
        × (hmap_iterator_has_next last ≡ false)
  unfolding hmap_foreach_value hmap_iterator Found
  walk-foreach_value hmap small =
      let (j, found, whole) = seek_lem 0 hmap.buckets none small in
      let (last, values, done) =
        walk_lem (length (entries hmap.buckets)) hmap j (entry_at hmap.buckets j) none small
          (omega (arith, ap length whole.0)) (λ nothing. whole.0 ∙ whole.1 nothing) whole.2 in
      (
        iterator_at hmap.buckets j none,
        last,
        found,
        foreach_value-entries (length hmap.buckets + 1) 0 hmap.buckets small (omega arith)
            (omega arith),
        values ∙ ap (λ l. some (chain_values l, last)) whole.0,
        done,
      )
