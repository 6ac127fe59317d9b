-- ===== src/Quoting/Chars.antt =====
-- src/common/quoting.c: one byte that is quoted comes back in one round of dequote_words_full.
use microdc.Prelude.{
  ℕ, suc, ◌+◌, ◌-◌, ◌*◌, ◌/◌, ◌%◌, ◌==◌, ◌<◌, ◌≡◌, refl, ◌∙◌, ap, ap₂, arith, ltb, not, ◌&&◌, Bool,
  true, false, [], ◌∷◌, ◌++◌, if◌then◌else◌, Bool-cases, inl, inr, ==_iff,
}
use microdc.Prelude.Text.{Bytes}
use microdc.Quoting.{
  Flags, escape_letter, hex_digit, hex_text, oct_text, quote_char, simple_escape, is_oct_digit,
  is_hex_digit, hex_to_int, escaped, dequote,
}

module _ (is_print : ℕ → Bool) (flags : Flags) where
  -- a byte that comes back if it is escaped by a backslash
  abbrev pub IsSafe : ℕ → Type 0
  IsSafe c = (simple_escape c ≡ 0) × (is_oct_digit c ≡ false) × (c < 256)

  -- the letter of a byte leads back to it
  goes_back : ℕ → Bool
  goes_back c = (simple_escape (escape_letter c) == c) && not (simple_escape (escape_letter c) == 0)

  known : (k c : ℕ) → (c == k) ≡ true → goes_back k ≡ true → goes_back c ≡ true
  known k c e back = rw ((==_iff c k).0 e) back

  letters : (c : ℕ) → (escape_letter c == 0) ≡ false → goes_back c ≡ true
  unfolding goes_back
  letters c h = elim (Bool-cases (c == 7)) [
    | inl e ↦ known 7 c e refl
    | inr n7 ↦ elim (Bool-cases (c == 8)) [
      | inl e ↦ known 8 c e refl
      | inr n8 ↦ elim (Bool-cases (c == 12)) [
        | inl e ↦ known 12 c e refl
        | inr n12 ↦ elim (Bool-cases (c == 10)) [
          | inl e ↦ known 10 c e refl
          | inr n10 ↦ elim (Bool-cases (c == 13)) [
            | inl e ↦ known 13 c e refl
            | inr n13 ↦ elim (Bool-cases (c == 9)) [
              | inl e ↦ known 9 c e refl
              | inr n9 ↦ elim (Bool-cases (c == 11)) [
                | inl e ↦ known 11 c e refl
                | inr n11 ↦ absurd (ground (arith, h, n7, n8, n12, n10, n13, n9, n11))
              ]
            ]
          ]
        ]
      ]
    ]
  ]

  hex_digit_lem :
      (n : ℕ) → n < 16 → (is_hex_digit (hex_digit n) ≡ true) × (hex_to_int (hex_digit n) ≡ n)
  hex_digit_lem n h = (ground arith, ground arith)

  simple_step :
      (d c : ℕ) (s r1 r2 r3 : Bytes)
      → flags.c_simple ≡ true
      → (simple_escape d == 0) ≡ false
      → simple_escape d ≡ c
      → escaped flags (d ∷ s) r1 r2 r3 ≡ c ∷ r1
  simple_step d c s r1 r2 r3 simple found back = rw (simple, found) (ap (λ x. x ∷ r1) back)

  and_false : (b c : Bool) → c ≡ false → (b && c) ≡ false
  and_false true c e = e
  and_false false c e = refl

  -- a backslash in front of a byte that has no meaning there
  plain_step :
      (c : ℕ) (s r1 r2 r3 : Bytes)
      → not (simple_escape c == 0) ≡ false
      → is_oct_digit c ≡ false
      → (c == b'x') ≡ false
      → escaped flags (c ∷ s) r1 r2 r3 ≡ c ∷ r1
  plain_step c s r1 r2 r3 none_there no_digit no_x =
      rw
        (
          and_false flags.c_simple (not (simple_escape c == 0)) none_there,
          and_false flags.c_oct (is_oct_digit c) no_digit,
          and_false flags.c_hex (c == b'x') no_x,
        )
        refl

  hex_step :
      (e f : ℕ) (s r1 r2 r3 : Bytes)
      → flags.c_hex ≡ true
      → is_hex_digit e ≡ true
      → is_hex_digit f ≡ true
      → escaped flags (b'x' ∷ e ∷ f ∷ s) r1 r2 r3 ≡ (hex_to_int e * 16 + hex_to_int f) ∷ r3
  hex_step e f s r1 r2 r3 hex first_digit second_digit =
      rw
        (
          and_false flags.c_simple false refl,
          and_false flags.c_oct false refl,
          hex,
          first_digit,
          second_digit,
        )
        refl

  oct_step :
      (d e f : ℕ) (s r1 r2 r3 : Bytes)
      → flags.c_oct ≡ true
      → not (simple_escape d == 0) ≡ false
      → is_oct_digit d ≡ true
      → is_oct_digit e ≡ true
      → is_oct_digit f ≡ true
      → escaped flags (d ∷ e ∷ f ∷ s) r1 r2 r3
        ≡ ((((d - 48) * 8 + (e - 48)) * 8 + (f - 48)) % 256) ∷ r3
  oct_step d e f s r1 r2 r3 oct none_there d1 d2 d3 =
      rw (and_false flags.c_simple (not (simple_escape d == 0)) none_there, oct, d1, d2, d3) refl

  and_left : (b c : Bool) → (b && c) ≡ true → b ≡ true
  and_left true c e = refl
  and_left false c e = e

  and_right : (b c : Bool) → (b && c) ≡ true → c ≡ true
  and_right true c e = e
  and_right false c e = ground (arith, e)

  -- what a byte needs in order to come back: the bytes from 128 on are printed as negative numbers,
  -- and a backslash must have no meaning in front of a byte that gets one
  abbrev pub IsFine : Bool → ℕ → Type 0
  IsFine is_quoted c =
      (c < 256)
      × (is_print c ≡ false → c < 128)
      × (is_quoted ≡ true
          → (not (simple_escape c == 0) ≡ false) × (is_oct_digit c ≡ false) × ((c == b'x') ≡ false))
      × (is_quoted ≡ false → ((c == b'\\') ≡ false) × ((c == b'"') ≡ false))

  not-true : (b : Bool) → not b ≡ true → b ≡ false
  not-true true e = ground (arith, e)
  not-true false e = refl

  back_byte : (c : ℕ) → goes_back c ≡ true → simple_escape (escape_letter c) ≡ c
  unfolding goes_back
  back_byte c e = (==_iff (simple_escape (escape_letter c)) c).0 (
      and_left (simple_escape (escape_letter c) == c) (not (simple_escape (escape_letter c) == 0))
        e)

  back_letter : (c : ℕ) → goes_back c ≡ true → (simple_escape (escape_letter c) == 0) ≡ false
  unfolding goes_back
  back_letter c e = not-true (simple_escape (escape_letter c) == 0) (
      and_right (simple_escape (escape_letter c) == c) (not (simple_escape (escape_letter c) == 0))
        e)

  hex_value :
      (c : ℕ)
      → hex_to_int (hex_digit (c / 16)) ≡ c / 16
      → hex_to_int (hex_digit (c % 16)) ≡ c % 16
      → hex_to_int (hex_digit (c / 16)) * 16 + hex_to_int (hex_digit (c % 16)) ≡ c
  hex_value c h k = ap₂ (λ m n. m * 16 + n) h k ∙ omega arith

  oct_value :
      (c : ℕ)
      → c < 256
      → ((((48 + c / 64 - 48) * 8 + (48 + c / 8 % 8 - 48)) * 8 + (48 + c % 8 - 48)) % 256) ≡ c
  oct_value c h = omega arith

  oct_head : (d : ℕ) → d < 4 → not (simple_escape (48 + d) == 0) ≡ false
  oct_head d h = ground arith

  small_hex : (c : ℕ) → c < 128 → hex_text c ≡ hex_digit (c / 16) ∷ hex_digit (c % 16) ∷ []
  small_hex c h = let less : ltb c 128 ≡ true = ground arith in rw less refl

  module _ (octal_digits : Bytes) (is_quoted : Bool) (c : ℕ) where
    abbrev chunk : Bytes
    chunk = quote_char is_print flags octal_digits is_quoted c

    chunk_simple :
        (flags.c_simple && not (escape_letter c == 0)) ≡ true → chunk ≡ b'\\' ∷ escape_letter c ∷ []
    unfolding quote_char
    chunk_simple e = rw e refl

    chunk_hex :
        (flags.c_simple && not (escape_letter c == 0)) ≡ false
        → (flags.c_hex && not (is_print c)) ≡ true
        → chunk ≡ b'\\' ∷ b'x' ∷ hex_text c
    unfolding quote_char
    chunk_hex e e' = rw (e, e') refl

    chunk_oct :
        (flags.c_simple && not (escape_letter c == 0)) ≡ false
        → (flags.c_hex && not (is_print c)) ≡ false
        → (flags.c_oct && not (is_print c)) ≡ true
        → chunk ≡ b'\\' ∷ octal_digits
    unfolding quote_char
    chunk_oct e e' e'' = rw (e, e', e'') refl

    chunk_plain :
        (flags.c_simple && not (escape_letter c == 0)) ≡ false
        → (flags.c_hex && not (is_print c)) ≡ false
        → (flags.c_oct && not (is_print c)) ≡ false
        → chunk ≡ (if is_quoted then b'\\' ∷ c ∷ [] else c ∷ [])
    unfolding quote_char
    chunk_plain e e' e'' = rw (e, e', e'') refl

  module _ (fuel : ℕ) (rest : Bytes) where
    -- one round of dequote on a chunk
    unfoldable pub Rounds : Bytes → ℕ → Type 0
    Rounds l c = dequote flags (suc fuel) (l ++ rest) ≡ c ∷ dequote flags fuel rest

    round_simple :
        (c : ℕ)
        → (flags.c_simple && not (escape_letter c == 0)) ≡ true
        → Rounds (b'\\' ∷ escape_letter c ∷ []) c
    unfolding Rounds dequote
    round_simple c e =
        let letter = and_right flags.c_simple (not (escape_letter c == 0)) e in
        let back = letters c (not-true (escape_letter c == 0) letter) in
        simple_step (escape_letter c) c rest _ _ _
          (and_left flags.c_simple (not (escape_letter c == 0)) e) (back_letter c back)
          (back_byte c back)

    round_hex : (c : ℕ) → flags.c_hex ≡ true → c < 128 → Rounds (b'\\' ∷ b'x' ∷ hex_text c) c
    unfolding Rounds dequote
    round_hex c hex small =
        let (digit1, value1) = hex_digit_lem (c / 16) (omega arith) in
        let (digit2, value2) = hex_digit_lem (c % 16) (omega arith) in
        ap (λ l. dequote flags (suc fuel) (b'\\' ∷ b'x' ∷ l ++ rest)) (small_hex c small)
        ∙ (hex_step (hex_digit (c / 16)) (hex_digit (c % 16)) rest _ _ _ hex digit1 digit2
            ∙ ap (λ x. x ∷ dequote flags fuel rest) (hex_value c value1 value2))

    round_oct : (c : ℕ) → flags.c_oct ≡ true → c < 256 → Rounds (b'\\' ∷ oct_text c) c
    unfolding Rounds dequote
    round_oct c oct byte =
        oct_step (48 + c / 64) (48 + c / 8 % 8) (48 + c % 8) rest _ _ _ oct
          (oct_head (c / 64) (omega arith)) (ground arith) (ground arith) (ground arith)
        ∙ ap (λ x. x ∷ dequote flags fuel rest) (oct_value c byte)

    round_plain :
        (is_quoted : Bool) (c : ℕ)
        → IsFine is_quoted c
        → Rounds (if is_quoted then b'\\' ∷ c ∷ [] else c ∷ []) c
    unfolding Rounds dequote
    round_plain true c (byte, printed, safe, plain) =
        let (no_letter, no_digit, no_x) = safe refl in
        plain_step c rest _ _ _ no_letter no_digit no_x
    round_plain false c (byte, printed, safe, plain) =
        let (no_slash, no_quote) = plain refl in rw (no_slash, no_quote) refl

  Rounds-chunk :
      (fuel : ℕ) (rest : Bytes) (c : ℕ) {l l' : Bytes}
      → l ≡ l'
      → Rounds fuel rest l' c
      → Rounds fuel rest l c
  unfolding Rounds
  Rounds-chunk fuel rest c e h = ap (λ l. dequote flags (suc fuel) (l ++ rest)) e ∙ h

  -- Each byte comes back in one round of dequote.
  pub char_lem :
      (octal_digits : Bytes) (is_quoted : Bool) (c fuel : ℕ) (rest : Bytes)
      → IsFine is_quoted c
      → (c < 128 → octal_digits ≡ oct_text c)
      → Rounds fuel rest (quote_char is_print flags octal_digits is_quoted c) c
  char_lem octal_digits is_quoted c fuel rest fine digits =
      let unprinted : not (is_print c) ≡ true → c < 128 = λ e. fine.1 (not-true (is_print c) e) in
      elim (Bool-cases (flags.c_simple && not (escape_letter c == 0))) [
        | inl simple ↦
            Rounds-chunk fuel rest c (chunk_simple octal_digits is_quoted c simple)
              (round_simple fuel rest c simple)
        | inr not_simple ↦ elim (Bool-cases (flags.c_hex && not (is_print c))) [
          | inl hex ↦ Rounds-chunk fuel rest c (chunk_hex octal_digits is_quoted c not_simple hex) (
              round_hex fuel rest c (and_left flags.c_hex (not (is_print c)) hex)
                (unprinted (and_right flags.c_hex (not (is_print c)) hex)))
          | inr not_hex ↦ elim (Bool-cases (flags.c_oct && not (is_print c))) [
            | inl oct ↦
                let small = unprinted (and_right flags.c_oct (not (is_print c)) oct) in
                Rounds-chunk fuel rest c
                  (chunk_oct octal_digits is_quoted c not_simple not_hex oct
                    ∙ ap (λ l. b'\\' ∷ l) (digits small))
                  (round_oct fuel rest c (and_left flags.c_oct (not (is_print c)) oct) fine.0)
            | inr not_oct ↦
                Rounds-chunk fuel rest c
                  (chunk_plain octal_digits is_quoted c not_simple not_hex not_oct)
                  (round_plain fuel rest is_quoted c fine)
          ]
        ]
      ]
