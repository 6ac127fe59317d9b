-- ===== src/PtrV/Laws.antt =====
-- The pointer vector as a list: what each operation does to its contents. Sizes below 2 ^ 31 are
-- never wrapped around by the doubling.
use microdc.Prelude.{
  ℕ, ◌+◌, ◌-◌, ◌^◌, ◌≤◌, ◌<◌, ◌≡◌, refl, sym, ap, ap₂, get_elem?-take, take_all, ◌∙◌, inl, inr,
  arith, true, some, [], ◌∷◌, ◌++◌, append-nil, leb, ltb, Bool-cases, ◌>>=◌, length, take, drop,
  replicate, get_elem?, take-take, drop_all, length-take, length-replicate,
}
use microdc.Prelude.Mem.{length-xrealloc, take-xrealloc, memcpy_lem, open_gap, close_gap}
use microdc.PtrV.{
  PtrV, contents, IsValid, grow, widen, append, prepend_n, insert_at, uint32, remove_range, remove,
  uint32,
}

module _ {ℓ} {A : Type ℓ} (junk : A) where
  grow_lem :
      (v : PtrV A)
      → IsValid v
      → v.cap < 2 ^ 31
      → IsValid (grow junk v)
        × (v.cur + 1 ≤ (grow junk v).cap)
        × ((grow junk v).cur ≡ v.cur)
        × (contents (grow junk v) ≡ contents v)
  unfolding grow
  grow_lem v ok small = elim (Bool-cases (leb v.cap v.cur)) [
    | inl full ↦ rw full (
      record {
        used = omega (arith, ok.used);
        room = length-xrealloc junk v.mem _ (omega (arith, ok.room));
      },
      ground (arith, ok.used),
      refl,
      take-xrealloc junk v.mem _ v.cur (omega (arith, ok.used, ok.room)) (omega (arith, ok.room)),
    )
    | inr room ↦ rw room (ok, ground arith, refl, refl)
  ]

  -- ptrv_append puts the pointer at the end.
  pub append_lem :
      (v : PtrV A) (value : A)
      → IsValid v
      → v.cap < 2 ^ 31
      → (v' : PtrV A) × (append junk v value ≡ some v')
        × IsValid v'
        × (contents v' ≡ contents v ++ value ∷ [])
  unfolding append
  append_lem v value ok small =
      let (valid, room, same, kept) = grow_lem v ok small in
      let (m, copied, sized, shown) =
        memcpy_lem (grow junk v).mem (value ∷ []) (grow junk v).cur
          (omega (arith, valid.room, same)) in
      (
        record { mem = m; cur = v.cur + 1; cap = (grow junk v).cap },
        ground (arith, copied, same, ok.used),
        record { used = room; room = sized ∙ valid.room },
        ap (λ n. take n m) (let e : v.cur + 1 ≡ (grow junk v).cur + 1 = omega (arith, same) in e)
            ∙ (shown ∙ ap (λ l. l ++ value ∷ []) kept),
      )

  pub insert_at_lem :
      (v : PtrV A) (element : A) (c : ℕ)
      → IsValid v
      → v.cap < 2 ^ 31
      → c ≤ v.cur
      → (v' : PtrV A) × (insert_at junk v element c ≡ some v')
        × IsValid v'
        × (contents v' ≡ take c (contents v) ++ element ∷ drop c (contents v))
  unfolding insert_at
  insert_at_lem v element c ok small hc =
      let (valid, room, same, kept) = grow_lem v ok small in
      let w = grow junk v in
      let (m, out, moved, copied, sized, shown) =
        open_gap w.mem (element ∷ []) w.cur c (omega (arith, same))
          (omega (arith, valid.room, same)) in
      (
        record { mem = out; cur = v.cur + 1; cap = w.cap },
        ground (arith, moved, copied, same, ok.used),
        record { used = room; room = sized ∙ valid.room },
        ap (λ n. take n out) (let e : v.cur + 1 ≡ w.cur + 1 = omega (arith, same) in e)
            ∙ (shown
                ∙ (ap (λ l. l ++ element ∷ drop c (contents w))
                      (sym (take-take c w.cur w.mem (omega (arith, same))))
                    ∙ ap (λ l. take c l ++ element ∷ drop c l) kept)),
      )

  widen_lem :
      (v : PtrV A) (n : ℕ)
      → IsValid v
      → v.cap < 2 ^ 31
      → n < 2 ^ 32
      → IsValid (widen junk v n)
        × (n ≤ (widen junk v n).cap)
        × ((widen junk v n).cur ≡ v.cur)
        × (contents (widen junk v n) ≡ contents v)
  unfolding widen
  widen_lem v n ok small fits = elim (Bool-cases (ltb v.cap n)) [
    | inl more ↦ rw more (
      record {
        used = ground (arith, ok.used);
        room = length-xrealloc junk v.mem _ (ground (arith, ok.room));
      },
      omega arith,
      refl,
      take-xrealloc junk v.mem _ v.cur (omega (arith, ok.used, ok.room)) (ground (arith, ok.room)),
    )
    | inr room ↦ rw room (ok, ground arith, refl, refl)
  ]

  -- ptrv_prepend_n puts `count` copies of the pointer at the front.
  pub prepend_n_lem :
      (v : PtrV A) (count : ℕ) (value : A)
      → IsValid v
      → v.cap < 2 ^ 31
      → v.cur + count < 2 ^ 32
      → (v' : PtrV A) × (prepend_n junk v count value ≡ some v')
        × IsValid v'
        × (contents v' ≡ replicate count value ++ contents v)
  unfolding prepend_n
  prepend_n_lem v count value ok small fits =
      let n = v.cur + count in
      let (valid, room, same, kept) = widen_lem v n ok small fits in
      let w = widen junk v n in
      let new = replicate count value in
      let new_len : length new ≡ count = length-replicate count value in
      let (m, out, moved, copied, sized, shown) =
        open_gap w.mem new w.cur 0 (omega arith) (omega (arith, valid.room, same)) in
      (
        record { mem = out; cur = n; cap = w.cap },
        ground (arith, moved, copied, same, new_len),
        record { used = room; room = sized ∙ valid.room },
        ap (λ k. take k out) (let e : n ≡ w.cur + length new = omega (arith, same) in e)
            ∙ (shown ∙ ap (λ l. new ++ l) kept),
      )

module _ {ℓ} {A : Type ℓ} where
  -- ptrv_remove_range takes the pointers from `start` up to `end` out.
  pub remove_range_lem :
      (v : PtrV A) (start end : ℕ)
      → IsValid v
      → v.cap < 2 ^ 32
      → start ≤ end
      → end ≤ v.cur
      → (v' : PtrV A) × (remove_range v start end ≡ some v')
        × IsValid v'
        × (contents v' ≡ take start (contents v) ++ drop end (contents v))
  unfolding remove_range
  remove_range_lem v start end ok small h1 h2 =
      let (m, moved, sized, shown) =
        close_gap v.mem v.cur start end h1 h2 (omega (arith, ok.used, ok.room)) in
      elim (Bool-cases (ltb end v.cur)) [
        | inl more ↦ (
          record { mem = m; cur = v.cur - (end - start); cap = v.cap },
          ground (arith, moved, ok.used),
          record { used = omega (arith, ok.used); room = sized ∙ ok.room },
          shown
              ∙ ap (λ l. l ++ drop end (contents v))
                  (sym (take-take start v.cur v.mem (omega arith))),
        )
        | inr last ↦ (
          record v { cur = v.cur - (end - start) },
          ground (arith, ok.used),
          record { used = omega (arith, ok.used); room = ok.room },
          ap (λ k. take k v.mem) (let e : v.cur - (end - start) ≡ start = ground arith in e)
              ∙ (sym (take-take start v.cur v.mem (omega arith))
                  ∙ (sym (append-nil (take start (contents v)))
                      ∙ ap (λ l. take start (contents v) ++ l)
                          (sym (
                            drop_all end (contents v) (ground (arith, length-take v.cur v.mem)))))),
        )
      ]

  -- Removing a pointer that is there is removing a range of one.
  remove-eq :
      (v : PtrV A) (pos : ℕ)
      → ltb pos v.cur ≡ true
      → v.cur < 2 ^ 32
      → remove v pos ≡ (remove_range v pos (pos + 1) >>= λ w. some (get_elem? v.mem pos, w))
  unfolding remove remove_range
  remove-eq v pos within small =
      let e : v.cur - 1 - pos ≡ v.cur - (pos + 1) = omega arith in
      let c : uint32 (v.cur + 2 ^ 32 - uint32 (pos + 1 + 2 ^ 32 - pos)) ≡ v.cur - 1 =
        ground arith in
      let b : ltb 0 (v.cur - (pos + 1)) ≡ ltb (pos + 1) v.cur = ground arith in
      rw (within, e, c, b) (ground arith)

  -- ptrv_remove returns the pointer at a place that is in use and takes it out; at any other place it
  -- returns NULL and changes nothing.
  pub remove_lem :
      (v : PtrV A) (pos : ℕ)
      → IsValid v
      → v.cap < 2 ^ 32
      → (v' : PtrV A) × (remove v pos ≡ some (get_elem? (contents v) pos, v'))
        × IsValid v'
        × (contents v' ≡ take pos (contents v) ++ drop (pos + 1) (contents v))
  unfolding remove
  remove_lem v pos ok small = elim (Bool-cases (ltb pos v.cur)) [
    | inr out ↦ (
      v,
      rw (out, get_elem?-take v.mem v.cur pos) (rw out),
      ok,
      sym (
          ap₂ (λ a b. a ++ b) (take_all pos (contents v) (ground (arith, length-take v.cur v.mem)))
            (drop_all (pos + 1) (contents v) (ground (arith, length-take v.cur v.mem)))
          ∙ append-nil (contents v)),
    )
    | inl within ↦
        let (v', removed, valid, shown) =
          remove_range_lem v pos (pos + 1) ok small (omega arith) (ground arith) in
        (
          v',
          remove-eq v pos within (omega (arith, ok.used))
              ∙ ap (λ o. o >>= λ w. some (get_elem? v.mem pos, w)) removed
              ∙ rw (get_elem?-take v.mem v.cur pos, within),
          valid,
          shown,
        )
  ]
