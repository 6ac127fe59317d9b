-- ===== src/IntParse.antt =====
-- src/common/intutil.c: reading integers of fixed widths from C strings. A text is the list of the
-- bytes before the terminating null; `none` is the result `false`, which leaves the output alone.
pub mod Exact
use microdc.Prelude.{
  ℕ, ◌+◌, ◌-◌, ◌*◌, ◌/◌, ◌%◌, ◌^◌, ◌≡◌, refl, ◌&&◌, ◌||◌, Bool, Option, none, some, [], ◌∷◌, ltb,
  ◌==◌, if◌then◌else◌, ◌>>=◌,
}
use microdc.Prelude.Int.{ℤ, pos, negsuc, neg}
use microdc.Prelude.Text.{Bytes, codes}

-- `int8_t c = *instr - '0'`, as a bit pattern: the negative ones are those from 128 on.
abbrev pub digit : ℕ → ℕ
digit b = (b + 256 - b'0') % 256

-- The overflow test of each round.
pub overflows : ℕ → ℕ → ℕ → Bool
overflows bound v c = ltb (bound / 10) v || (v == bound / 10 && ltb (bound % 10) c)

-- The loop that all these functions have, over the magnitude of `value`: `bound` is the largest
-- magnitude, and sums are those of a type with `modulus` values.
pub scan : ℕ → ℕ → ℕ → Bytes → Option ℕ
scan modulus bound v [] = some v
scan modulus bound v (b ∷ s) =
    let c = digit b in
    if ltb 9 c
    then none
    else if overflows bound v c
    then none
    else scan modulus bound ((v * 10 + c) % modulus) s

-- parse_uint8 to parse_uint64
unfoldable pub parse_uint : ℕ → Bytes → Option ℕ
unfolding scan overflows
parse_uint w s = scan (2 ^ w) (2 ^ w - 1) 0 s

unfoldable pub parse_uint8 : Bytes → Option ℕ
unfolding parse_uint
parse_uint8 = parse_uint 8

unfoldable pub parse_uint16 : Bytes → Option ℕ
unfolding parse_uint
parse_uint16 = parse_uint 16

unfoldable pub parse_uint32 : Bytes → Option ℕ
unfolding parse_uint
parse_uint32 = parse_uint 32

unfoldable pub parse_uint64 : Bytes → Option ℕ
unfolding parse_uint
parse_uint64 = parse_uint 64

-- What stands behind the sign is not empty.
scan_some : ℕ → ℕ → Bytes → Option ℕ
unfolding scan overflows
scan_some modulus bound [] = none
scan_some modulus bound (b ∷ s) = scan modulus bound 0 (b ∷ s)

-- parse_int8 to parse_int64
unfoldable pub parse_int : ℕ → Bytes → Option ℤ
unfolding scan_some
parse_int w [] = none
parse_int w (b ∷ s) =
    if b == b'-'
    then (scan_some (2 ^ w) (2 ^ (w - 1)) s >>= λ n. some (neg n))
    else (scan_some (2 ^ w) (2 ^ (w - 1) - 1) (b ∷ s) >>= λ n. some (pos n))

unfoldable pub parse_int8 : Bytes → Option ℤ
unfolding parse_int
parse_int8 = parse_int 8

unfoldable pub parse_int16 : Bytes → Option ℤ
unfolding parse_int
parse_int16 = parse_int 16

unfoldable pub parse_int32 : Bytes → Option ℤ
unfolding parse_int
parse_int32 = parse_int 32

unfoldable pub parse_int64 : Bytes → Option ℤ
unfolding parse_int
parse_int64 = parse_int 64

limits :
    (parse_uint8 (codes "255") ≡ some 255)
    × (parse_uint8 (codes "256") ≡ none)
    × (parse_uint64 (codes "") ≡ some 0)
    × (parse_int8 (codes "-128") ≡ some (negsuc 127))
    × (parse_int8 (codes "-129") ≡ none)
    × (parse_int8 (codes "128") ≡ none)
    × (parse_int64 (codes "-") ≡ none)
unfolding parse_uint8 parse_uint64 parse_int8 parse_int64
limits = (refl, refl, refl, refl, refl, refl, refl)
