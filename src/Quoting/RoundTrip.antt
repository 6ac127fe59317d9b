-- ===== src/Quoting/RoundTrip.antt =====
-- src/common/quoting.c: dequote_words_full after quote_word_full.
use mathlib.Core.Path.{subst}
use microdc.Prelude.{
  ℕ, zero, suc, ◌+◌, ◌-◌, ◌==◌, ◌<◌, ◌≤◌, ◌≡◌, refl, sym, ◌∙◌, ap, ap₂, arith, ltb, not, ◌&&◌, ◌||◌,
  Bool, true, false, [], ◌∷◌, ◌++◌, append-nil, append_assoc, length, length-append, if◌then◌else◌,
  Bool-cases, inl, inr, ==_iff,
}
use microdc.Prelude.Text.{Bytes, All}
use microdc.Quoting.{
  one_of, Flags, escape_letter, hex_text, oct_text, signed_oct_text, quote_char, quote_inside,
  quote_outside, quote_word_full, simple_escape, is_oct_digit, dequote, dequote_words_full,
}
use microdc.Quoting.Chars.{IsFine, Rounds, char_lem}

-- a byte in front of which a backslash has no meaning
abbrev pub IsSafe : ℕ → Type 0
IsSafe c = (not (simple_escape c == 0) ≡ false) × (is_oct_digit c ≡ false) × ((c == b'x') ≡ false)

-- The bytes from 128 on are printed as negative numbers, so they must not need it.
abbrev pub IsPrintable : (ℕ → Bool) → ℕ → Type 0
IsPrintable is_print c = (c < 256) × (is_print c ≡ false → c < 128)

or_right : (b c : Bool) → b ≡ false → (b || c) ≡ true → c ≡ true
or_right true c h e = ground (arith, h)
or_right false c h e = e

always : (c : ℕ) → ((c == b'"') || (c == b'\\')) ≡ true → IsSafe c
always c e = elim (Bool-cases (c == b'"')) [
  | inl here ↦ rw ((==_iff c b'"').0 here) (refl, refl, refl)
  | inr other ↦
      rw ((==_iff c b'\\').0 (or_right (c == b'"') (c == b'\\') other e)) (refl, refl, refl)
]

one_of-All : (P : ℕ → Type 0) (c : ℕ) (s : Bytes) → one_of c s ≡ true → All P s → P c
unfolding one_of
one_of-All P c [] e h = ground (arith, e)
one_of-All P c (d ∷ s) e h = elim (Bool-cases (c == d)) [
  | inl here ↦ subst P (sym ((==_iff c d).0 here)) h.0
  | inr other ↦ one_of-All P c s (or_right (c == d) (one_of c s) other e) h.1
]

small_oct : (c : ℕ) → c < 128 → signed_oct_text c ≡ oct_text c
small_oct c h = let less : ltb c 128 ≡ true = ground arith in rw less refl

shorter : (b : Bool) (s t : Bytes) → 0 < length t → 0 < length (if b then b'\\' ∷ s else t)
shorter true s t h = omega arith
shorter false s t h = h

IsFine-inside :
    (is_print : ℕ → Bool) (flags : Flags) (c : ℕ)
    → IsPrintable is_print c
    → IsFine is_print flags ((c == b'"') || (c == b'\\')) c
IsFine-inside is_print flags c (byte, printed) =
    (byte, printed, always c, λ e. (ground (arith, e), ground (arith, e)))

abbrev pub is_quoted : Bytes → Bytes → Bool → ℕ → Bool
is_quoted qc leading_qc quote_wc c =
    (c == b'"') || (c == b'\\') || (quote_wc && (c == 32)) || one_of c qc || one_of c leading_qc

space : (b : Bool) (c : ℕ) → (b && (c == 32)) ≡ true → IsSafe c
space true c e = rw ((==_iff c 32).0 e) (refl, refl, refl)
space false c e = ground (arith, e)

reason :
    (qc leading_qc : Bytes) (quote_wc : Bool) (c : ℕ)
    → All IsSafe qc
    → All IsSafe leading_qc
    → is_quoted qc leading_qc quote_wc c ≡ true
    → IsSafe c
reason qc leading_qc quote_wc c h g e = elim (Bool-cases ((c == b'"') || (c == b'\\'))) [
  | inl here ↦ always c here
  | inr other ↦ elim (Bool-cases (quote_wc && (c == 32))) [
    | inl blank ↦ space quote_wc c blank
    | inr other' ↦ elim (Bool-cases (one_of c qc)) [
      | inl there ↦ one_of-All IsSafe c qc there h
      | inr other'' ↦ one_of-All IsSafe c leading_qc (ground (arith, e, other, other', other'')) g
    ]
  ]
]

IsFine-outside :
    (is_print : ℕ → Bool) (flags : Flags) (qc leading_qc : Bytes) (quote_wc : Bool) (c : ℕ)
    → All IsSafe qc
    → All IsSafe leading_qc
    → IsPrintable is_print c
    → IsFine is_print flags (is_quoted qc leading_qc quote_wc c) c
IsFine-outside is_print flags qc leading_qc quote_wc c h g (byte, printed) = (
  byte,
  printed,
  reason qc leading_qc quote_wc c h g,
  λ e. (ground (arith, e), ground (arith, e)),
)

module _ (is_print : ℕ → Bool) (flags : Flags) where
  step :
      (digits : Bytes) (quoted : Bool) (c fuel n : ℕ) (s more tail : Bytes)
      → IsFine is_print flags quoted c
      → (c < 128 → digits ≡ oct_text c)
      → dequote flags (n + fuel) (more ++ tail) ≡ s ++ dequote flags fuel tail
      → dequote flags (suc n + fuel) ((quote_char is_print flags digits quoted c ++ more) ++ tail)
        ≡ (c ∷ s) ++ dequote flags fuel tail
  unfolding Rounds
  step digits quoted c fuel n s more tail fine same rest =
      let next : suc n + fuel ≡ suc (n + fuel) = omega arith in
      let chunk = quote_char is_print flags digits quoted c in
      ap₂ (dequote flags) next (append_assoc chunk more tail)
      ∙ (char_lem is_print flags digits quoted c (n + fuel) (more ++ tail) fine same
          ∙ ap (λ l. c ∷ l) rest)

  inside_lem :
      (s : Bytes) (fuel : ℕ) (tail : Bytes)
      → All (IsPrintable is_print) s
      → dequote flags (length s + fuel) (quote_inside is_print flags s ++ tail)
        ≡ s ++ dequote flags fuel tail
  unfolding quote_inside
  inside_lem [] fuel tail h = ap (λ n. dequote flags n tail) (omega arith)
  inside_lem (c ∷ s) fuel tail h =
      step (signed_oct_text c) ((c == b'"') || (c == b'\\')) c fuel (length s) s
        (quote_inside is_print flags s) tail (IsFine-inside is_print flags c h.0) (small_oct c)
        (inside_lem s fuel tail h.1)

  outside_lem :
      (s : Bytes) (fuel : ℕ) (tail qc leading_qc : Bytes) (quote_wc : Bool)
      → All IsSafe qc
      → All IsSafe leading_qc
      → All (IsPrintable is_print) s
      → dequote flags
          (length s + fuel)
          (quote_outside is_print flags qc leading_qc quote_wc s ++ tail)
        ≡ s ++ dequote flags fuel tail
  unfolding quote_outside
  outside_lem [] fuel tail qc leading_qc quote_wc safe safe' h =
      ap (λ n. dequote flags n tail) (omega arith)
  outside_lem (c ∷ s) fuel tail qc leading_qc quote_wc safe safe' h =
      step (oct_text c) (is_quoted qc leading_qc quote_wc c) c fuel (length s) s
        (quote_outside is_print flags qc [] quote_wc s) tail
        (IsFine-outside is_print flags qc leading_qc quote_wc c safe safe' h.0) (λ small. refl)
        (outside_lem s fuel tail qc [] quote_wc safe tt h.1)

  nonempty :
      (digits : Bytes) (quoted : Bool) (c : ℕ)
      → 0 < length (quote_char is_print flags digits quoted c)
  unfolding quote_char
  nonempty digits quoted c =
      shorter (flags.c_simple && not (escape_letter c == 0)) (escape_letter c ∷ [])
        (if flags.c_hex && not (is_print c)
          then b'\\' ∷ b'x' ∷ hex_text c
          else if flags.c_oct && not (is_print c)
          then b'\\' ∷ digits
          else if quoted
          then b'\\' ∷ c ∷ []
          else c ∷ [])
        (shorter (flags.c_hex && not (is_print c)) (b'x' ∷ hex_text c)
          (if flags.c_oct && not (is_print c)
            then b'\\' ∷ digits
            else if quoted
            then b'\\' ∷ c ∷ []
            else c ∷ [])
          (shorter (flags.c_oct && not (is_print c)) digits
            (if quoted then b'\\' ∷ c ∷ [] else c ∷ [])
            (shorter quoted (c ∷ []) (c ∷ []) (omega arith))))

  length-inside : (s : Bytes) → length s ≤ length (quote_inside is_print flags s)
  unfolding quote_inside
  length-inside [] = omega arith
  length-inside (c ∷ s) =
      let chunk = quote_char is_print flags (signed_oct_text c) ((c == b'"') || (c == b'\\')) c in
      omega (
        arith,
        length-append chunk (quote_inside is_print flags s),
        nonempty (signed_oct_text c) ((c == b'"') || (c == b'\\')) c,
        length-inside s,
      )

  length-outside :
      (s qc leading_qc : Bytes) (quote_wc : Bool)
      → length s ≤ length (quote_outside is_print flags qc leading_qc quote_wc s)
  unfolding quote_outside
  length-outside [] qc leading_qc quote_wc = omega arith
  length-outside (c ∷ s) qc leading_qc quote_wc =
      let chunk = quote_char is_print flags (oct_text c) (is_quoted qc leading_qc quote_wc c) c in
      omega (
        arith,
        length-append chunk (quote_outside is_print flags qc [] quote_wc s),
        nonempty (oct_text c) (is_quoted qc leading_qc quote_wc c) c,
        length-outside s qc [] quote_wc,
      )

  ending : Bool → Bytes
  ending b = if b then b'"' ∷ [] else []

  nothing : (k : ℕ) → dequote flags k [] ≡ []
  unfolding dequote
  nothing zero = refl
  nothing (suc k) = refl

  ending_lem : (k : ℕ) (b : Bool) → dequote flags k (ending b) ≡ []
  unfolding dequote ending
  ending_lem zero b = refl
  ending_lem (suc k) false = refl
  ending_lem (suc k) true = nothing k

  -- a round on the opening quote
  opening : (k : ℕ) (s : Bytes) → dequote flags (suc k) (b'"' ∷ s) ≡ dequote flags k s
  unfolding dequote
  opening k s = refl

  -- With the same flags for escapes, dequote_words_full gives back every text that quote_word_full
  -- has quoted, in double quotes, closed or not, or by backslashes, provided that no byte from 128 on
  -- is one that is not printed, and that a backslash has no meaning in front of the extra characters
  -- that are to be quoted.
  pub dequote_words-quote_word :
      (string : Bytes) (quoted add_end_quote : Bool) (qc leading_qc : Bytes) (quote_wc : Bool)
      → All (IsPrintable is_print) string
      → All IsSafe qc
      → All IsSafe leading_qc
      → dequote_words_full flags
          (quote_word_full is_print flags string quoted add_end_quote qc leading_qc quote_wc)
        ≡ string
  unfolding dequote_words_full quote_word_full ending
  dequote_words-quote_word string true add_end_quote qc leading_qc quote_wc h safe safe' =
      let inner = quote_inside is_print flags string in
      let rest = length (inner ++ ending add_end_quote) - length string in
      let len : length (inner ++ ending add_end_quote) ≡ length string + rest =
        omega (arith, length-append inner (ending add_end_quote), length-inside string) in
      opening (length (inner ++ ending add_end_quote)) (inner ++ ending add_end_quote)
      ∙ (ap (λ n. dequote flags n (inner ++ ending add_end_quote)) len
          ∙ (inside_lem string rest (ending add_end_quote) h
              ∙ (ap (λ l. string ++ l) (ending_lem rest add_end_quote) ∙ append-nil string)))
  dequote_words-quote_word string false add_end_quote qc leading_qc quote_wc h safe safe' =
      let outer = quote_outside is_print flags qc leading_qc quote_wc string in
      let rest = length outer - length string in
      let len : length outer ≡ length string + rest =
        omega (arith, length-outside string qc leading_qc quote_wc) in
      ap₂ (dequote flags) len (sym (append-nil outer))
      ∙ (outside_lem string rest [] qc leading_qc quote_wc safe safe' h
          ∙ (ap (λ l. string ++ l) (nothing rest) ∙ append-nil string))
