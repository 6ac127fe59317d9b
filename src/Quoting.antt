-- ===== src/Quoting.antt =====
-- src/common/quoting.c: quote_word_full and dequote_words_full. A text stands without its null, and
-- the one that is dequoted up to `maxend`, behind which nothing is read. `is_print` is isprint, which
-- depends on the locale. A char is signed.
pub mod Chars
pub mod RoundTrip
use microdc.Prelude.{
  ℕ, zero, suc, ◌+◌, ◌-◌, ◌*◌, ◌/◌, ◌%◌, ◌==◌, ltb, leb, not, ◌&&◌, ◌||◌, Bool, true, false, List,
  [], ◌∷◌, ◌++◌, length, drop, if◌then◌else◌,
}
use microdc.Prelude.Text.{Bytes, codes}

-- strchr: is the byte one of those?
unfoldable pub one_of : ℕ → Bytes → Bool
one_of c [] = false
one_of c (d ∷ s) = (c == d) || one_of c s

pub record Flags : Type 0 where
  pub c_hex : Bool
  pub c_oct : Bool
  pub c_simple : Bool

-- the letter of an escape like \n; 0 if there is none
abbrev pub escape_letter : ℕ → ℕ
escape_letter c =
    if c == 7
    then b'a'
    else if c == 8
    then b'b'
    else if c == 12
    then b'f'
    else if c == 10
    then b'n'
    else if c == 13
    then b'r'
    else if c == 9
    then b't'
    else if c == 11
    then b'v'
    else 0

-- %02x and %03o, of the byte or of its value as a signed char
abbrev pub hex_digit : ℕ → ℕ
hex_digit n = if ltb n 10 then 48 + n else 87 + n

abbrev pub hex_text : ℕ → Bytes
hex_text c =
    if ltb c 128
    then hex_digit (c / 16) ∷ hex_digit (c % 16) ∷ []
    else codes "ffffff" ++ hex_digit (c / 16) ∷ hex_digit (c % 16) ∷ []

abbrev pub oct_text : ℕ → Bytes
oct_text c = (48 + c / 64) ∷ (48 + c / 8 % 8) ∷ (48 + c % 8) ∷ []

abbrev pub signed_oct_text : ℕ → Bytes
signed_oct_text c =
    if ltb c 128
    then oct_text c
    else codes "37777777" ++ (52 + c / 64) ∷ (48 + c / 8 % 8) ∷ (48 + c % 8) ∷ []

module _ (is_print : ℕ → Bool) (flags : Flags) where
  -- one byte; `is_quoted` are those that get a backslash
  unfoldable pub quote_char : Bytes → Bool → ℕ → Bytes
  quote_char octal is_quoted c =
      if flags.c_simple && not (escape_letter c == 0)
      then b'\\' ∷ escape_letter c ∷ []
      else if flags.c_hex && not (is_print c)
      then b'\\' ∷ b'x' ∷ hex_text c
      else if flags.c_oct && not (is_print c)
      then b'\\' ∷ octal
      else if is_quoted
      then b'\\' ∷ c ∷ []
      else c ∷ []

  -- the loop of the branch with double quotes
  unfoldable pub quote_inside : Bytes → Bytes
  quote_inside [] = []
  quote_inside (c ∷ s) =
      quote_char (signed_oct_text c) ((c == b'"') || (c == b'\\')) c ++ quote_inside s

  -- that of the branch without; `qc` is extended by `leading_qc` for the first byte
  unfoldable pub quote_outside : Bytes → Bytes → Bool → Bytes → Bytes
  quote_outside qc leading_qc quote_wc [] = []
  quote_outside qc leading_qc quote_wc (c ∷ s) =
      quote_char (oct_text c)
        ((c == b'"')
          || (c == b'\\')
          || (quote_wc && (c == 32))
          || one_of c qc
          || one_of c leading_qc)
        c
      ++ quote_outside qc [] quote_wc s

  pub quote_word_full : Bytes → Bool → Bool → Bytes → Bytes → Bool → Bytes
  quote_word_full string quoted add_end_quote qc leading_qc quote_wc =
      if quoted
      then b'"' ∷ (quote_inside string ++ (if add_end_quote then b'"' ∷ [] else []))
      else quote_outside qc leading_qc quote_wc string

-- the byte of a letter behind a backslash; 0 if there is none
abbrev pub simple_escape : ℕ → ℕ
simple_escape d =
    if d == b'a'
    then 7
    else if d == b'b'
    then 8
    else if d == b'f'
    then 12
    else if d == b'n'
    then 10
    else if d == b'r'
    then 13
    else if d == b't'
    then 9
    else if d == b'v'
    then 11
    else 0

-- IS_OCT_DIGIT, isxdigit and HEX_TO_INT
abbrev pub is_oct_digit : ℕ → Bool
is_oct_digit d = leb 48 d && leb d 55

abbrev pub is_hex_digit : ℕ → Bool
is_hex_digit d = (leb 48 d && leb d 57) || (leb 65 d && leb d 70) || (leb 97 d && leb d 102)

abbrev pub hex_to_int : ℕ → ℕ
hex_to_int d =
    if leb 48 d && leb d 57 then d - 48 else if leb 65 d && leb d 70 then d - 55 else d - 87

-- An octal number behind its first digit: `r1`, `r2` and `r3` are what follows if the number has one,
-- two or three digits.
abbrev pub octal : ℕ → Bytes → Bytes → Bytes → Bytes → Bytes
octal d [] r1 r2 r3 = (d - 48) ∷ r1
octal d (e ∷ []) r1 r2 r3 = if is_oct_digit e then ((d - 48) * 8 + (e - 48)) ∷ r2 else (d - 48) ∷ r1
octal d (e ∷ f ∷ s) r1 r2 r3 =
    if is_oct_digit e
    then (if is_oct_digit f
        then (((d - 48) * 8 + (e - 48)) * 8 + (f - 48)) % 256 ∷ r3
        else ((d - 48) * 8 + (e - 48)) ∷ r2)
    else (d - 48) ∷ r1

-- a hexadecimal number behind the x
abbrev pub hexadecimal : Bytes → Bytes → Bytes → Bytes
hexadecimal [] r2 r3 = []
hexadecimal (e ∷ []) r2 r3 = if is_hex_digit e then hex_to_int e ∷ r2 else []
hexadecimal (e ∷ f ∷ s) r2 r3 =
    if is_hex_digit e
    then (if is_hex_digit f then (hex_to_int e * 16 + hex_to_int f) ∷ r3 else hex_to_int e ∷ r2)
    else []

module _ (flags : Flags) where
  -- what stands behind a backslash
  abbrev pub escaped : Bytes → Bytes → Bytes → Bytes → Bytes
  escaped [] r1 r2 r3 = []
  escaped (d ∷ s) r1 r2 r3 =
      if flags.c_simple && not (simple_escape d == 0)
      then simple_escape d ∷ r1
      else if flags.c_oct && is_oct_digit d
      then octal d s r1 r2 r3
      else if flags.c_hex && (d == b'x')
      then hexadecimal s r2 r3
      else d ∷ r1

  -- the loop; each round takes a byte at least
  unfoldable pub dequote : ℕ → Bytes → Bytes
  dequote zero s = []
  dequote (suc fuel) [] = []
  dequote (suc fuel) (c ∷ s) =
      let r0 = dequote fuel s in
      let r1 = dequote fuel (drop 1 s) in
      let r2 = dequote fuel (drop 2 s) in
      let r3 = dequote fuel (drop 3 s) in
      if c == b'\\' then escaped s r1 r2 r3 else if c == b'"' then r0 else c ∷ r0

  pub dequote_words_full : Bytes → Bytes
  dequote_words_full str = dequote (length str) str
