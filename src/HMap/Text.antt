-- ===== src/HMap/Text.antt =====
-- src/common/hmap.c: the hash function and the comparison that hmap_new chooses, for texts.
use microdc.Prelude.{
  ◌==◌, ◌≡◌, refl, sym, ◌∙◌, ap, ap₂, arith, Bool, true, false, [], ◌∷◌, Bool-cases, inl, inr,
  if◌then◌else◌, ==_iff,
}
use microdc.Prelude.Text.{Bytes}
use microdc.HMap.{strhash}
use microdc.HMap.Chain.{IsHash}

-- strcmp returns 0
unfoldable pub same_text : Bytes → Bytes → Bool
same_text [] [] = true
same_text [] (d ∷ t) = false
same_text (c ∷ s) [] = false
same_text (c ∷ s) (d ∷ t) = if c == d then same_text s t else false

same_text_refl : (s : Bytes) → same_text s s ≡ true
unfolding same_text
same_text_refl [] = refl
same_text_refl (c ∷ s) = rw ((==_iff c c).1 refl) (same_text_refl s)

same_text-eq : (s t : Bytes) → same_text s t ≡ true → s ≡ t
unfolding same_text
same_text-eq [] [] e = refl
same_text-eq [] (d ∷ t) e = ground (arith, e)
same_text-eq (c ∷ s) [] e = ground (arith, e)
same_text-eq (c ∷ s) (d ∷ t) e = elim (Bool-cases (c == d)) [
  | inl here ↦ ap₂ (λ x xs. x ∷ xs) ((==_iff c d).0 here) (same_text-eq s t (rw here at e))
  | inr other ↦ absurd (ground (arith, rw other at e))
]

same_text-back : (s t : Bytes) → same_text s t ≡ true → same_text t s ≡ true
same_text-back s t e = rw (same_text-eq s t e) (same_text_refl t)

same_text_sym : (s t : Bytes) → same_text s t ≡ same_text t s
same_text_sym s t = elim (Bool-cases (same_text s t)) [
  | inl alike ↦ alike ∙ sym (same_text-back s t alike)
  | inr apart ↦ elim (Bool-cases (same_text t s)) [
    | inl alike ↦ same_text-back t s alike ∙ sym alike
    | inr apart' ↦ apart ∙ sym apart'
  ]
]

pub strhash-IsHash : IsHash strhash same_text
strhash-IsHash = record {
  hash_eq = λ s t e. ap strhash (same_text-eq s t e);
  same_sym = same_text_sym;
  same_congr = λ s t u e. ap (λ x. same_text x u) (same_text-eq s t e);
}
