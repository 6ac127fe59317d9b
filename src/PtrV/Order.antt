-- ===== src/PtrV/Order.antt =====
-- ptrv_insort as insertion into a list: where it puts the element, what it keeps, and that it keeps
-- an ordered vector ordered.
use mathlib.Core.List.{Perm}
use mathlib.Core.List.Perm
use microdc.Prelude.{
  ℕ, suc, ◌≤◌, ◌<◌, ◌^◌, ◌≡◌, refl, ap, ◌∙◌, inl, inr, arith, Bool, true, false, Option, none, some,
  List, [], ◌∷◌, ◌++◌, Bool-cases, Option-cases, if◌then◌else◌, length, take, drop, length-take,
}
use microdc.PtrV.{PtrV, contents, IsValid, insort_place, insort_to, insort}
use microdc.PtrV.Laws.{append_lem, insert_at_lem}

module _ {ℓ} {A : Type ℓ} (before : A → A → Bool) where
  -- The list that the loop of ptrv_insort makes.
  unfoldable pub insert : A → List A → List A
  insert e [] = e ∷ []
  insert e (x ∷ xs) = if before e x then e ∷ x ∷ xs else x ∷ insert e xs

  -- Each element is put before its successor by the comparison.
  abbrev pub FirstAfter : A → List A → Type 0
  FirstAfter a [] = Unit
  FirstAfter a (x ∷ xs) = before a x ≡ true

  abbrev pub IsSorted : List A → Type 0
  IsSorted [] = Unit
  IsSorted (x ∷ xs) = FirstAfter x xs × IsSorted xs

  insert-perm : (e : A) (xs : List A) → Perm (insert e xs) (e ∷ xs)
  unfolding insert
  insert-perm e [] = Perm.refl (e ∷ [])
  insert-perm e (x ∷ xs) = elim (Bool-cases (before e x)) [
    | inl front ↦ rw front (Perm.refl (e ∷ x ∷ xs))
    | inr behind ↦ rw behind (Perm.trans (Perm.cons x (insert-perm e xs)) (Perm.swap e x xs))
  ]

  FirstAfter-insert :
      (x e : A) (xs : List A) → FirstAfter x xs → before x e ≡ true → FirstAfter x (insert e xs)
  unfolding insert
  FirstAfter-insert x e [] h g = g
  FirstAfter-insert x e (y ∷ ys) h g = elim (Bool-cases (before e y)) [
    | inl front ↦ rw front g
    | inr behind ↦ rw behind h
  ]

  insert-IsSorted :
      (e : A) (xs : List A)
      → ((a b : A) → before a b ≡ false → before b a ≡ true)
      → IsSorted xs
      → IsSorted (insert e xs)
  unfolding insert
  insert-IsSorted e [] total h = (tt, tt)
  insert-IsSorted e (x ∷ xs) total h = elim (Bool-cases (before e x)) [
    | inl front ↦ rw front (front, h)
    | inr behind ↦
        rw behind (FirstAfter-insert x e xs h.0 (total e x behind), insert-IsSorted e xs total h.1)
  ]

  -- The place that the loop finds is the place where `insert` puts the element.
  insort_place-some :
      (e : A) (xs : List A) (c : ℕ)
      → insort_place before e xs ≡ some c
      → (c ≤ length xs) × (take c xs ++ e ∷ drop c xs ≡ insert e xs)
  unfolding insort_place insert
  insort_place-some e [] c h = cc
  insort_place-some e (x ∷ xs) c h = elim (Bool-cases (before e x)) [
    | inl front ↦ let here : c ≡ 0 = ground arith in rw (here, front) (ground arith, refl)
    | inr behind ↦ elim (Option-cases (insort_place before e xs)) [
      | inl last ↦ absurd (ground arith)
      | inr (d, found) ↦
          let there : c ≡ suc d = ground arith in
          let (fits, same) = insort_place-some e xs d found in
          rw (there, behind) (ground arith, ap (λ l. x ∷ l) same)
    ]
  ]

  insort_place-none :
      (e : A) (xs : List A) → insort_place before e xs ≡ none → xs ++ e ∷ [] ≡ insert e xs
  unfolding insort_place insert
  insort_place-none e [] h = refl
  insort_place-none e (x ∷ xs) h = elim (Bool-cases (before e x)) [
    | inl front ↦ absurd (ground arith)
    | inr behind ↦ rw behind (ap (λ l. x ∷ l) (insort_place-none e xs (ground arith)))
  ]

module _ {ℓ} {A : Type ℓ} (junk : A) (v : PtrV A) (element : A) (before : A → A → Bool) where
  insort_to_lem :
      (o : Option ℕ)
      → insort_place before element (contents v) ≡ o
      → IsValid v
      → v.cap < 2 ^ 31
      → (v' : PtrV A) × (insort_to junk v element o ≡ some v')
        × IsValid v'
        × (contents v' ≡ insert before element (contents v))
  unfolding insort_to
  insort_to_lem none e ok small =
      let (v', done, valid, shown) = append_lem junk v element ok small in
      (v', done, valid, shown ∙ insort_place-none before element (contents v) e)
  insort_to_lem (some c) e ok small =
      let (fits, same) = insort_place-some before element (contents v) c e in
      let (v', done, valid, shown) =
        insert_at_lem junk v element c ok small (omega (arith, length-take v.cur v.mem)) in
      (v', done, valid, shown ∙ same)

  -- With room below 2 ^ 31, ptrv_insort inserts the element in front of the first pointer that the
  -- comparison puts behind it. The pointers are those of before and the new one, and an ordered
  -- vector stays ordered, if the comparison puts one of any two elements before the other.
  pub insort_lem :
      IsValid v
      → v.cap < 2 ^ 31
      → ((a b : A) → before a b ≡ false → before b a ≡ true)
      → (v' : PtrV A) × (insort junk v element before ≡ some v')
        × IsValid v'
        × (contents v' ≡ insert before element (contents v))
        × Perm (contents v') (element ∷ contents v)
        × (IsSorted before (contents v) → IsSorted before (contents v'))
  unfolding insort
  insort_lem ok small total =
      let xs = contents v in
      let (v', done, valid, shown) = insort_to_lem (insort_place before element xs) refl ok small in
      (
        v',
        done,
        valid,
        shown,
        rw shown (insert-perm before element xs),
        λ sorted. rw shown (insert-IsSorted before element xs total sorted),
      )
