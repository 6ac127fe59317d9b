-- ===== src/Range/Safe.antt =====
-- The reader of range expressions ends, never reads behind its text, and selects nothing that lies
-- outside the limits.
use microdc.Prelude.{
  ℕ, zero, suc, ◌+◌, ◌-◌, ◌*◌, ◌%◌, ◌^◌, ◌≤◌, ◌<◌, ◌≡◌, ◌≢◌, refl, inl, inr, arith, Bool, true,
  false, Bool-cases, Option, none, some, List, [], ◌∷◌, ◌++◌, length, ◌==◌, if◌then◌else◌,
}
use microdc.Prelude.Text.{Bytes, All, All-append}
use microdc.Range.{
  RangeToken, Cursor, is_digit, pop_digits, pop_token, Outcome, Round, outside, next, comma, minus,
  until, number, round, loop, foreach_in_range,
}

-- Fewer than `n` bytes are unread, or the end was read.
abbrev pub Fits : ℕ → RangeToken → Cursor → Type 0
Fits n t none = t.type ≡ 0
Fits n t (some s) = length s < n

length-pop_digits : (n : ℕ) (s : Bytes) → length (pop_digits n s).1 ≤ length s
unfolding pop_digits
length-pop_digits n [] = omega arith
length-pop_digits n (b ∷ s) = ground (arith, length-pop_digits ((n * 10 + (b - b'0')) % 2 ^ 32) s)

pub pop-Fits :
    (old : ℕ) (s : Bytes)
    → (t : RangeToken) × (c : Cursor) × (pop_token old (some s) ≡ some (t, c)) × Fits (length s) t c
unfolding pop_token
pop-Fits old [] = (record { type = 0; num = old }, none, refl, refl)
pop-Fits old (b ∷ s) = elim (Bool-cases (is_digit b)) [
  | inl digit ↦ (
    record { type = b'#'; num = (pop_digits (b - b'0') s).0 },
    some (pop_digits (b - b'0') s).1,
    ground arith,
    omega (arith, length-pop_digits (b - b'0') s),
  )
  | inr other ↦ (record { type = b; num = old }, some s, ground arith, omega arith)
]

Fits-some :
    (n : ℕ) (t : RangeToken) (c : Cursor)
    → Fits n t c
    → t.type ≢ 0
    → (s : Bytes) × (c ≡ some s) × (length s < n)
Fits-some n t none h ne = absurd (ne h)
Fits-some n t (some s) h ne = (s, refl, h)

later : {m n : ℕ} (t : RangeToken) (c : Cursor) → Fits m t c → m ≤ n → Fits n t c
later t none f h = f
later t (some s) f h = omega arith

module _ (junk start end : ℕ) where
  -- A call of the callback with numbers in the limits.
  abbrev pub InRange : ℕ × ℕ → Type 0
  InRange p = (start ≤ p.0) × (p.0 ≤ end) × (start ≤ p.1) × (p.1 ≤ end)

  -- There is an outcome, and all its calls are in the limits.
  abbrev pub Good : Option Outcome → Type 0
  Good none = ⊥
  Good (some o) = All InRange o.calls

  abbrev Again : ℕ → Round → Type 0
  Again n again =
      (t : RangeToken) (c : Cursor) (calls : List (ℕ × ℕ))
      → Fits n t c
      → All InRange calls
      → Good (again t c calls)

  next-Good :
      (n : ℕ) (again : Round) (old : ℕ) (s : Bytes) (calls : List (ℕ × ℕ))
      → Again n again
      → length s ≤ n
      → All InRange calls
      → Good (next junk start end again old (some s) calls)
  unfolding next
  next-Good n again old s calls ag h all =
      let (t, c, popped, fits) = pop-Fits old s in rw popped (ag t c calls (later t c fits h) all)

  comma-Good :
      (n : ℕ) (again : Round) (old : ℕ) (s : Bytes) (calls : List (ℕ × ℕ))
      → Again n again
      → length s ≤ n
      → All InRange calls
      → Good (comma junk start end again old (some s) calls)
  unfolding comma
  comma-Good n again old s calls ag h all =
      let (t, c, popped, fits) = pop-Fits old s in
      rw popped (elim (Bool-cases (t.type == 0)) [
        | inl last ↦ rw last all
        | inr more ↦ rw more (elim (Bool-cases (t.type == b',')) [
          | inr other ↦ rw other all
          | inl sep ↦
              let (s', rest, shorter) = Fits-some (length s) t c fits (ground arith) in
              rw (sep, rest) (next-Good n again t.num s' calls ag (omega arith) all)
        ])
      ])

  Good-if :
      (b : Bool) (x y : Option Outcome)
      → (b ≡ true → Good x)
      → (b ≡ false → Good y)
      → Good (if b then x else y)
  Good-if true x y h g = h refl
  Good-if false x y h g = g refl

  minus-Good :
      (n : ℕ) (again : Round) (t : RangeToken) (s : Bytes) (calls : List (ℕ × ℕ))
      → Again n again
      → length s ≤ n
      → All InRange calls
      → Good (minus junk start end again t (some s) calls)
  unfolding minus
  minus-Good n again t s calls ag h all =
      let (t', c, popped, fits) = pop-Fits t.num s in
      rw popped (
        Good-if (t'.type == b'#') _ _
          (λ is_num.
            Good-if (outside junk start end t'.num) _ _ (λ out. all)
              (λ within.
                let (s', rest, shorter) = Fits-some (length s) t' c fits (ground arith) in
                let call : InRange (start, t'.num) = ground arith in
                rw rest (
                  comma-Good n again t'.num s' (calls ++ (start, t'.num) ∷ []) ag (omega arith)
                    (All-append InRange calls _ all (call, tt)))))
          (λ other. all))

  until-Good :
      (n : ℕ) (again : Round) (t t2 : RangeToken) (c : Cursor) (calls : List (ℕ × ℕ))
      → Again n again
      → Fits n t2 c
      → (start ≤ t.num) × (t.num ≤ end)
      → All InRange calls
      → Good (until junk start end again t t2 c calls)
  unfolding until
  until-Good n again t t2 c calls ag fits within all =
      let up : InRange (t.num, end) = omega arith in
      Good-if (t2.type == 0) _ _ (λ last. All-append InRange calls _ all (up, tt))
        (λ more.
          Good-if (t2.type == b',') _ _
            (λ sep.
              let (s', rest, shorter) = Fits-some n t2 c fits (ground arith) in
              rw rest (
                next-Good n again t.num s' (calls ++ (t.num, end) ∷ []) ag (omega arith)
                  (All-append InRange calls _ all (up, tt))))
            (λ other.
              Good-if (t2.type == b'#') _ _
                (λ is_num.
                  Good-if (outside junk start end t2.num) _ _ (λ out. all)
                    (λ inside.
                      let (s', rest, shorter) = Fits-some n t2 c fits (ground arith) in
                      let call : InRange (t.num, t2.num) = ground arith in
                      rw rest (
                        comma-Good n again t.num s' (calls ++ (t.num, t2.num) ∷ []) ag (omega arith)
                          (All-append InRange calls _ all (call, tt)))))
                (λ none_such. all)))

  number-Good :
      (n : ℕ) (again : Round) (t : RangeToken) (s : Bytes) (calls : List (ℕ × ℕ))
      → Again n again
      → length s ≤ n
      → All InRange calls
      → Good (number junk start end again t (some s) calls)
  unfolding number
  number-Good n again t s calls ag h all =
      Good-if (outside junk start end t.num) _ _ (λ out. all)
        (λ inside.
          let (t', c, popped, fits) = pop-Fits junk s in
          let within : (start ≤ t.num) × (t.num ≤ end) = ground arith in
          let one = All-append InRange calls ((t.num, t.num) ∷ []) all (omega arith) in
          rw popped (
            Good-if (t'.type == 0) _ _ (λ last. one)
              (λ more.
                let (s', rest, shorter) = Fits-some (length s) t' c fits (ground arith) in
                rw rest (
                  Good-if (t'.type == b',') _ _
                    (λ sep. next-Good n again t.num s' _ ag (omega arith) one)
                    (λ other.
                      Good-if (t'.type == b'-') _ _
                        (λ dash.
                          let (t2, c2, popped2, fits2) = pop-Fits t'.num s' in
                          rw popped2 (
                            until-Good n again t t2 c2 calls ag (later t2 c2 fits2 (omega arith))
                              within all))
                        (λ skipped. next-Good n again t.num s' calls ag (omega arith) all))))))

  round-Good :
      (n : ℕ) (again : Round) (t : RangeToken) (c : Cursor) (calls : List (ℕ × ℕ))
      → Again n again
      → Fits (suc n) t c
      → All InRange calls
      → Good (round junk start end again t c calls)
  unfolding round
  round-Good n again t none calls ag fits all = rw fits all
  round-Good n again t (some s) calls ag fits all =
      Good-if (t.type == b'-') _ _ (λ dash. minus-Good n again t s calls ag (omega arith) all)
        (λ other.
          Good-if (t.type == b'#') _ _
            (λ is_num. number-Good n again t s calls ag (omega arith) all) (λ none_such. all))

  loop-Good : (fuel : ℕ) → Again fuel (loop junk start end (suc fuel))
  unfolding loop
  loop-Good zero t none calls fits all = unfold round in rw fits all
  loop-Good zero t (some s) calls fits all = absurd (omega arith)
  loop-Good (suc fuel) t c calls fits all =
      round-Good fuel (loop junk start end (suc fuel)) t c calls (loop-Good fuel) fits all

  outcome : (r : Option Outcome) → Good r → (o : Outcome) × (r ≡ some o) × All InRange o.calls
  outcome none h = absurd h
  outcome (some o) h = (o, refl, h)

  -- For every text the reader returns without a read behind the terminating null, and each call of
  -- the callback that it has made, also one that it made before it refused the text, is with two
  -- numbers from `start` up to `end`.
  pub foreach-Good :
      (s : Bytes)
      → (o : Outcome) × (foreach_in_range junk start end s ≡ some o) × All InRange o.calls
  unfolding foreach_in_range
  foreach-Good s =
      let (t, c, popped, fits) = pop-Fits junk s in
      outcome _ (
        rw popped
          (Good-if (t.type == 0) _ _ (λ last. tt) (λ more. loop-Good (length s) t c [] fits tt)))
