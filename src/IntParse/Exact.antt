-- ===== src/IntParse/Exact.antt =====
-- What the integer readers accept, and what they return.
use native.Mathlib.Nat.{mod-eq_of_lt, pow-suc}
use microdc.Prelude.{
  pow_pos, ℕ, zero, suc, ◌+◌, ◌-◌, ◌*◌, ◌/◌, ◌%◌, ◌^◌, ◌≤◌, ◌<◌, ◌≡◌, ◌≢◌, refl, sym, ap, ◌∙◌,
  Option-cases, inl, inr, false, Bool-cases, Option, none, some, [], ◌∷◌, ltb, arith, ◌>>=◌,
}
use microdc.Prelude.Int.{ℤ, pos, neg}
use microdc.Prelude.Text.{Bytes, All, IsDigit, value, digits, decimal}
use microdc.IntParse.{digit, overflows, scan, parse_uint, scan_some, parse_int}

abbrev pub IsByte : ℕ → Type 0
IsByte b = b < 256

overflows-false : (bound v c : ℕ) → c ≤ 9 → overflows bound v c ≡ false → v * 10 + c ≤ bound
unfolding overflows
overflows-false bound v c h e = ground arith

overflows_fits : (bound v c : ℕ) → c ≤ 9 → v * 10 + c ≤ bound → overflows bound v c ≡ false
unfolding overflows
overflows_fits bound v c h e = ground arith

digit_iff : (b : ℕ) → b < 256 → ltb 9 (digit b) ≡ false → IsDigit b × (digit b ≡ b - b'0')
digit_iff b h e = ground arith

refused : {r : ℕ} {o : Option ℕ} → o ≡ some r → o ≡ none → ⊥
refused e h = cc

step :
    (modulus bound v b : ℕ) (s : Bytes) {n r : ℕ}
    → ltb 9 (digit b) ≡ false
    → overflows bound v (digit b) ≡ false
    → (v * 10 + digit b) % modulus ≡ n
    → scan modulus bound v (b ∷ s) ≡ some r
    → scan modulus bound n s ≡ some r
unfolding scan
step modulus bound v b s fits room next e = rw (fits, room, next) at e

scan_sound :
    (modulus bound v : ℕ) (s : Bytes) (r : ℕ)
    → bound < modulus
    → v ≤ bound
    → All IsByte s
    → scan modulus bound v s ≡ some r
    → All IsDigit s × (r ≡ value v s) × (r ≤ bound)
unfolding scan
scan_sound modulus bound v [] r m h bytes e = ground arith
scan_sound modulus bound v (b ∷ s) r m h bytes e = elim (Bool-cases (ltb 9 (digit b))) [
  | inl other ↦ absurd (refused e (rw other))
  | inr fits ↦
      let (is_digit, same) = digit_iff b bytes.0 fits in
      elim (Bool-cases (overflows bound v (digit b))) [
        | inl over ↦ absurd (refused e (rw (fits, over)))
        | inr room ↦
            let n = v * 10 + (b - b'0') in
            let small : n ≤ bound = omega (
              arith,
              same,
              overflows-false bound v (digit b) (omega (arith, same, is_digit)) room,
            ) in
            let next : (v * 10 + digit b) % modulus ≡ n = rw same (mod-eq_of_lt (omega arith)) in
            let (ds, exact, within) =
              scan_sound modulus bound n s r m small bytes.1
                (step modulus bound v b s fits room next e) in
            ((is_digit, ds), exact, within)
      ]
]

pub le-value : (s : Bytes) (n : ℕ) → n ≤ value n s
le-value [] n = omega arith
le-value (b ∷ s) n = omega (arith, le-value s (n * 10 + (b - b'0')))

scan_complete :
    (modulus bound v : ℕ) (s : Bytes)
    → bound < modulus
    → All IsDigit s
    → value v s ≤ bound
    → scan modulus bound v s ≡ some (value v s)
unfolding scan
scan_complete modulus bound v [] m d h = refl
scan_complete modulus bound v (b ∷ s) m d h =
    let n = v * 10 + (b - b'0') in
    let same : digit b ≡ b - b'0' = omega (arith, d.0) in
    let small : n ≤ bound = omega (arith, le-value s n) in
    let fits : ltb 9 (digit b) ≡ false = ground (arith, same, d.0) in
    let room : overflows bound v (digit b) ≡ false =
      overflows_fits bound v (digit b) (omega (arith, same, d.0)) (omega (arith, same)) in
    let next : (v * 10 + digit b) % modulus ≡ n = rw same (mod-eq_of_lt (omega arith)) in
    rw (fits, room, next) (scan_complete modulus bound n s m d.1 h)

-- parse_uint of width `w` accepts a text exactly if it consists of digits whose value fits, and
-- returns that value. The empty text is accepted as 0.
pub parse_uint_lem :
    (w : ℕ) (s : Bytes)
    → All IsByte s
    → ((r : ℕ) → parse_uint w s ≡ some r → All IsDigit s × (r ≡ value 0 s) × (r < 2 ^ w))
      × (All IsDigit s → value 0 s < 2 ^ w → parse_uint w s ≡ some (value 0 s))
unfolding parse_uint
parse_uint_lem w s bytes =
    let pos : 0 < 2 ^ w = pow_pos w in
    (
      λ r e.
          let (ds, exact, within) =
            scan_sound (2 ^ w) (2 ^ w - 1) 0 s r (omega arith) (omega arith) bytes e in
          (ds, exact, omega arith),
      λ ds fits. scan_complete (2 ^ w) (2 ^ w - 1) 0 s (omega arith) ds (omega arith),
    )

double : (w : ℕ) → 0 < w → 2 ^ w ≡ 2 * 2 ^ (w - 1)
double zero h = absurd (omega arith)
double (suc w) h = ground (arith, pow-suc 2 w)

-- The first byte is no minus sign.
abbrev pub NoSign : Bytes → Type 0
NoSign [] = Unit
NoSign (b ∷ s) = b ≢ b'-'

scan_some_lem :
    (modulus bound : ℕ) (s : Bytes)
    → bound < modulus
    → All IsByte s
    → ((r : ℕ)
        → scan_some modulus bound s ≡ some r
        → (s ≢ []) × All IsDigit s × (r ≡ value 0 s) × (r ≤ bound))
      × (s ≢ [] → All IsDigit s → value 0 s ≤ bound → scan_some modulus bound s ≡ some (value 0 s))
unfolding scan_some
scan_some_lem modulus bound [] m bytes = (λ r e. cc, λ ne ds h. absurd (ne refl))
scan_some_lem modulus bound (b ∷ s) m bytes = (
  λ r e.
      let (ds, exact, within) = scan_sound modulus bound 0 (b ∷ s) r m (omega arith) bytes e in
      (cc, ds, exact, within),
  λ ne ds h. scan_complete modulus bound 0 (b ∷ s) m ds h,
)

-- A text of one or more digits whose value is at most `bound`.
abbrev pub Spells : ℕ → Bytes → Type 0
Spells bound s = (s ≢ []) × All IsDigit s × (value 0 s ≤ bound)

signed_lem :
    (f : ℕ → ℤ) (modulus bound : ℕ) (s : Bytes)
    → bound < modulus
    → All IsByte s
    → ((r : ℤ)
        → (scan_some modulus bound s >>= λ n. some (f n)) ≡ some r
        → Spells bound s × (r ≡ f (value 0 s)))
      × (Spells bound s → (scan_some modulus bound s >>= λ n. some (f n)) ≡ some (f (value 0 s)))
signed_lem f modulus bound s m bytes =
    let (sound, complete) = scan_some_lem modulus bound s m bytes in
    (
      λ r e. elim (Option-cases (scan_some modulus bound s)) [
        | inl gone ↦ absurd (ground arith)
        | inr (n, found) ↦
            let (ne, ds, exact, within) = sound n found in
            ((ne, ds, omega (arith, exact)), cc (exact, found, e))
      ],
      λ d. rw (complete d.0 d.1 d.2),
    )

parse_int_plain :
    (w : ℕ) (s : Bytes)
    → NoSign s
    → parse_int w s ≡ (scan_some (2 ^ w) (2 ^ (w - 1) - 1) s >>= λ n. some (pos n))
unfolding parse_int
parse_int_plain w [] h = unfold scan_some in refl
parse_int_plain w (b ∷ s) h = ground arith

digits-NoSign : (s : Bytes) → All IsDigit s → NoSign s
digits-NoSign [] h = tt
digits-NoSign (b ∷ s) h = omega (arith, h.0)

-- parse_int of a positive width `w` accepts a text with a minus sign exactly if one or more digits
-- follow whose value is at most 2 ^ (w - 1), and a text with no such sign exactly if it is of one or
-- more digits with a value below 2 ^ (w - 1). It returns the number that the text stands for.
pub parse_int_lem :
    (w : ℕ) (s : Bytes)
    → All IsByte s
    → 0 < w
    → ((r : ℤ) → parse_int w (b'-' ∷ s) ≡ some r → Spells (2 ^ (w - 1)) s × (r ≡ neg (value 0 s)))
      × (Spells (2 ^ (w - 1)) s → parse_int w (b'-' ∷ s) ≡ some (neg (value 0 s)))
      × ((r : ℤ)
          → NoSign s
          → parse_int w s ≡ some r
          → Spells (2 ^ (w - 1) - 1) s × (r ≡ pos (value 0 s)))
      × (Spells (2 ^ (w - 1) - 1) s → parse_int w s ≡ some (pos (value 0 s)))
unfolding parse_int
parse_int_lem w s bytes h =
    let half = pow_pos (w - 1) in
    let whole = double w h in
    let (neg_sound, neg_complete) = signed_lem neg (2 ^ w) (2 ^ (w - 1)) s (omega arith) bytes in
    let (pos_sound, pos_complete) =
      signed_lem pos (2 ^ w) (2 ^ (w - 1) - 1) s (omega arith) bytes in
    (
      neg_sound,
      neg_complete,
      λ r ns e. pos_sound r (sym (parse_int_plain w s ns) ∙ e),
      λ d. parse_int_plain w s (digits-NoSign s d.1) ∙ pos_complete d,
    )

pub value-digits :
    (fuel n : ℕ) (out : Bytes)
    → n < 10 ^ fuel
    → All IsDigit out
    → All IsDigit (digits fuel n out) × (value 0 (digits fuel n out) ≡ value n out)
unfolding digits
value-digits zero n out h d = (d, ap (λ m. value m out) (omega arith))
value-digits (suc fuel) n out h d = elim (Bool-cases (ltb n 10)) [
  | inl last ↦ rw last (
    (ground arith, d),
    ap (λ m. value m out) (let e : 0 * 10 + (b'0' + n - b'0') ≡ n = omega arith in e),
  )
  | inr more ↦
      let (ds, same) =
        value-digits fuel (n / 10) ((b'0' + n % 10) ∷ out) (omega (arith, pow-suc 10 fuel))
          (omega arith, d) in
      rw more (
        ds,
        same
            ∙ ap (λ m. value m out)
                (let e : n / 10 * 10 + (b'0' + n % 10 - b'0') ≡ n = omega arith in e),
      )
]

pub value-decimal : (n : ℕ) → n < 10 ^ 20 → All IsDigit (decimal n) × (value 0 (decimal n) ≡ n)
unfolding decimal
value-decimal n h = value-digits 20 n [] h tt

digits-ne-nil : (fuel n : ℕ) (out : Bytes) → out ≢ [] → digits fuel n out ≢ []
unfolding digits
digits-ne-nil zero n out h = h
digits-ne-nil (suc fuel) n out h = elim (Bool-cases (ltb n 10)) [
  | inl last ↦ rw last (λ e. cc)
  | inr more ↦ rw more (digits-ne-nil fuel (n / 10) _ (λ e. cc))
]

pub decimal-ne-nil : (n : ℕ) → decimal n ≢ []
unfolding decimal digits
decimal-ne-nil n = elim (Bool-cases (ltb n 10)) [
  | inl last ↦ rw last (λ e. cc)
  | inr more ↦ rw more (digits-ne-nil 19 (n / 10) _ (λ e. cc))
]

-- A number that printf wrote in decimal, and that fits in `w` bits, is read back.
pub parse-decimal : (w n : ℕ) → n < 2 ^ w → n < 10 ^ 20 → parse_uint w (decimal n) ≡ some n
unfolding parse_uint decimal
parse-decimal w n h small =
    let (ds, same) = value-digits 20 n [] small tt in
    scan_complete (2 ^ w) (2 ^ w - 1) 0 (digits 20 n []) (omega (arith, pow_pos w)) ds
      (omega (arith, same))
    ∙ ap some same
