-- ===== src/ByteQ/Laws.antt =====
-- The byte queue as a queue: what each operation does to its contents.
use mathlib.Core.Option
use microdc.Prelude.{
  ℕ, ◌+◌, ◌-◌, ◌*◌, ◌^◌, ◌≤◌, ◌<◌, ◌≡◌, refl, sym, ap, ◌∙◌, inl, inr, Bool-cases, drop-take,
  drop_all, arith, Option, none, some, suc, length-replicate, zero, List, [], ◌∷◌, ◌++◌, append-nil,
  ltb, ◌==◌, length, take, drop, length-take,
}
use microdc.Prelude.Mem.{memcpy, length-xrealloc, take-xrealloc, memcpy_lem, memmove_front}
use microdc.ByteQ.{
  ByteQ, contents, IsValid, size_t, create, enlarge, assure, append, fill, advance, remove,
  after_write, write, read,
}

-- The bytes that a call of `read` delivered.
abbrev pub got_bytes {ℓ} : {A : Type ℓ} → Option (List A) → List A
got_bytes none = []
got_bytes (some got) = got

module _ {ℓ} {A : Type ℓ} where
  pub length-contents : (q : ByteQ A) → IsValid q → length (contents q) ≡ q.cur
  length-contents q v = omega (arith, length-take q.cur q.mem, v.used, v.room)

  -- Filling the free room behind the contents appends to them.
  pub fill-appends :
      (q : ByteQ A) (got : List A)
      → IsValid q
      → q.cur + length got ≤ q.cap
      → (q' : ByteQ A) × (fill q (some got) ≡ some (some (length got), q'))
        × IsValid q'
        × (contents q' ≡ contents q ++ got)
  unfolding fill
  fill-appends q [] v h = (q, refl, v, sym (append-nil (contents q)))
  fill-appends q (x ∷ xs) v h =
      let (m, copied, kept, shown) = memcpy_lem q.mem (x ∷ xs) q.cur (omega (arith, v.room)) in
      (
        record { mem = m; cur = q.cur + length (x ∷ xs); cap = q.cap },
        ground (arith, copied),
        record { used = h; room = kept ∙ v.room; small = v.small },
        shown,
      )

  -- The same for whatever the call returned.
  pub fill_lem :
      (q : ByteQ A) (o : Option (List A))
      → IsValid q
      → ((got : List A) → o ≡ some got → length got ≤ q.cap - q.cur)
      → (q' : ByteQ A) × (fill q o ≡ some (Option.map length o, q'))
        × IsValid q'
        × (contents q' ≡ contents q ++ got_bytes o)
  unfolding fill
  fill_lem q none v h = (q, refl, v, sym (append-nil (contents q)))
  fill_lem q (some got) v h = fill-appends q got v (omega (arith, h got refl, v.used))

  drop-contents :
      (q : ByteQ A) (len : ℕ)
      → len ≤ q.cur
      → take (q.cur - len) (drop len q.mem) ≡ drop len (contents q)
  drop-contents q len h = sym (drop-take len q.cur (q.cur - len) q.mem (omega arith))

  -- Dropping bytes that are there moves the others to the front.
  pub advance_lem :
      (q : ByteQ A) (len : ℕ)
      → IsValid q
      → len ≤ q.cur
      → (q' : ByteQ A) × (advance q len ≡ some q')
        × IsValid q'
        × (q'.cap ≡ q.cap)
        × (contents q' ≡ drop len (contents q))
  unfolding advance
  advance_lem q len v h = elim (Bool-cases (ltb 0 (q.cur - len))) [
    | inl more ↦
        let (m, moved, kept, shown) =
          memmove_front q.mem len (q.cur - len) (omega (arith, v.used, v.room)) in
        (
          record { mem = m; cur = q.cur - len; cap = q.cap },
          rw (more, moved),
          record { used = omega (arith, v.used); room = kept ∙ v.room; small = v.small },
          refl,
          shown ∙ drop-contents q len h,
        )
    | inr done ↦ (
      record q { cur = q.cur - len },
      rw done,
      record { used = omega (arith, v.used); room = v.room; small = v.small },
      refl,
      ap (λ n. take n q.mem) (let none_left : q.cur - len ≡ 0 = ground arith in none_left)
          ∙ sym (drop_all len (contents q) (ground (arith, length-contents q v))),
    )
  ]

  -- byteq_remove drops the bytes from the front, and its assertion fails exactly if there are fewer.
  pub remove_lem :
      (q : ByteQ A) (len : ℕ)
      → IsValid q
      → (len ≤ q.cur
          → (q' : ByteQ A) × (remove q len ≡ some q')
            × IsValid q'
            × (contents q' ≡ drop len (contents q)))
        × (q.cur < len → remove q len ≡ none)
  unfolding remove
  remove_lem q len v = (
    λ h.
        let (q', done, valid, _, shown) = advance_lem q len v h in
        (q', ground (arith, done), valid, shown),
    λ h. ground arith,
  )

module _ {ℓ} {A : Type ℓ} (junk : A) where
  -- Reallocating keeps the contents.
  pub assure_lem :
      (q : ByteQ A) (n : ℕ)
      → IsValid q
      → n < 2 ^ 64
      → IsValid (assure junk q n)
        × (n ≤ (assure junk q n).cap)
        × ((assure junk q n).cur ≡ q.cur)
        × (contents (assure junk q n) ≡ contents q)
  unfolding assure
  assure_lem q n v h = elim (Bool-cases (ltb q.cap n)) [
    | inl grow ↦ rw grow (
      record {
        used = ground arith;
        room = omega (arith, length-xrealloc junk q.mem n (ground (arith, v.room)));
        small = h;
      },
      omega arith,
      refl,
      take-xrealloc junk q.mem n q.cur (omega (arith, v.used, v.room)) (ground (arith, v.room)),
    )
    | inr fits ↦ rw fits (v, ground arith, refl, refl)
  ]

  -- byteq_append puts the bytes at the end, whatever the room was, as long as size_t can count them.
  pub append_lem :
      (q : ByteQ A) (bytes : List A)
      → IsValid q
      → q.cur + length bytes < 2 ^ 64
      → (q' : ByteQ A) × (append junk q bytes ≡ some q')
        × IsValid q'
        × (contents q' ≡ contents q ++ bytes)
  unfolding append
  append_lem q [] v h = (q, refl, v, sym (append-nil (contents q)))
  append_lem q (x ∷ xs) v h =
      let n = q.cur + length (x ∷ xs) in
      let (valid, room, same, kept) = assure_lem q n v h in
      let (m, copied, sized, shown) =
        memcpy_lem (assure junk q n).mem (x ∷ xs) (assure junk q n).cur
          (omega (arith, valid.room, same)) in
      (
        record { mem = m; cur = n; cap = (assure junk q n).cap },
        ground (arith, copied),
        record { used = room; room = sized ∙ valid.room; small = valid.small },
        ap (λ k. take k m)
              (let e : n ≡ (assure junk q n).cur + length (x ∷ xs) = omega (arith, same) in e)
            ∙ (shown ∙ ap (λ l. l ++ (x ∷ xs)) kept),
      )

  enlarge_lem :
      (q : ByteQ A)
      → IsValid q
      → q.cap < 2 ^ 63
      → IsValid (enlarge junk q) × (contents (enlarge junk q) ≡ contents q)
  unfolding enlarge
  enlarge_lem q v h =
      let n = size_t (q.cap * 2) in
      let grows : length q.mem ≤ n = omega (arith, v.room) in
      (
        record {
          used = omega (arith, v.used);
          room = length-xrealloc junk q.mem n grows;
          small = omega arith;
        },
        take-xrealloc junk q.mem n q.cur (omega (arith, v.used, v.room)) grows,
      )

  -- byteq_read gives `read` at least one byte of room, and appends what it got. A failing `read`
  -- leaves the contents alone.
  pub read_lem :
      (q : ByteQ A) (get : ℕ → Option (List A))
      → IsValid q
      → 0 < q.cap
      → q.cap < 2 ^ 63
      → ((n : ℕ) (got : List A) → get n ≡ some got → length got ≤ n)
      → (n : ℕ) × (0 < n)
        × ((q' : ByteQ A) × IsValid q'
            × (read junk q get ≡ some (Option.map length (get n), q'))
            × (contents q' ≡ contents q ++ got_bytes (get n)))
  unfolding read
  read_lem q get v pos small bounded = elim (Bool-cases (q.cur == q.cap)) [
    | inl full ↦
        let (valid, kept) = enlarge_lem q v small in
        let more : (enlarge junk q).cap ≡ q.cap * 2 = unfold enlarge in omega arith in
        let same : (enlarge junk q).cur ≡ q.cur = unfold enlarge in refl in
        let n = (enlarge junk q).cap - (enlarge junk q).cur in
        let (q', filled, valid', shown) = fill_lem (enlarge junk q) (get n) valid (bounded n) in
        (
          n,
          ground arith,
          (q', valid', rw full filled, shown ∙ ap (λ l. l ++ got_bytes (get n)) kept),
        )
    | inr room ↦
        let n = q.cap - q.cur in
        let (q', filled, valid', shown) = fill_lem q (get n) v (bounded n) in
        (n, ground (arith, v.used), (q', valid', rw room filled, shown))
  ]

module _ {ℓ} {A : Type ℓ} where
  after_write_lem :
      (q : ByteQ A) (o : Option ℕ)
      → IsValid q
      → ((res : ℕ) → o ≡ some res → res ≤ q.cur)
      → (q' : ByteQ A) × (after_write q o ≡ some (o, q'))
        × IsValid q'
        × (contents q' ≡ drop (Option.get_or o 0) (contents q))
  unfolding after_write
  after_write_lem q none v h = (q, refl, v, refl)
  after_write_lem q (some zero) v h = (q, refl, v, refl)
  after_write_lem q (some (suc n)) v h =
      let (q', moved, valid, _, shown) = advance_lem q (suc n) v (h (suc n) refl) in
      (q', ground (arith, moved), valid, shown)

  -- byteq_write hands all bytes to `write` and removes those that were taken; a failure removes none.
  pub write_lem :
      (q : ByteQ A) (put : List A → Option ℕ)
      → IsValid q
      → ((res : ℕ) → put (contents q) ≡ some res → res ≤ q.cur)
      → (q' : ByteQ A) × (write q put ≡ some (put (contents q), q'))
        × IsValid q'
        × (contents q' ≡ drop (Option.get_or (put (contents q)) 0) (contents q))
  unfolding write
  write_lem q put = after_write_lem q (put (contents q))

module _ {ℓ} {A : Type ℓ} (junk : A) where
  -- A queue that is created with room is empty and in good order. One that is created with no room
  -- is not: it takes its first byte for one that fits, and writes it outside its block.
  pub create_lem :
      (n : ℕ)
      → (0 < n → n < 2 ^ 64 → IsValid (create junk n) × (contents (create junk n) ≡ []))
        × ((x : A) → append junk (create junk 0) (x ∷ []) ≡ none)
  unfolding create append assure memcpy
  create_lem n = (
    λ pos small. (
      record {
        used = omega arith;
        room = length-replicate n junk ∙ omega arith;
        small = omega arith;
      },
      refl,
    ),
    λ x. refl,
  )
