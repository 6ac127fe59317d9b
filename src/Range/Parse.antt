-- ===== src/Range/Parse.antt =====
-- The reader of range expressions against the grammar in its comment: a printed list of expressions
-- selects what the expressions mean. And what the reader does with texts that the grammar lacks.
use native.Mathlib.Nat.{mod-eq_of_lt}
use microdc.Prelude.{
  ℕ, zero, suc, ◌+◌, ◌-◌, ◌*◌, ◌%◌, ◌^◌, ◌≤◌, ◌<◌, ◌≡◌, ◌≢◌, refl, ap, ◌∙◌, arith, true, false,
  some, List, [], ◌∷◌, ◌++◌, map, length, length-append, append-nil, append_assoc, ◌==◌,
}
use microdc.Prelude.Text.{Bytes, All, IsDigit, value, decimal}
use microdc.IntParse.Exact.{le-value, value-decimal, decimal-ne-nil}
use microdc.Range.{
  RangeToken, Cursor, is_digit, pop_digits, pop_token, Round, result, outside, next, comma, minus,
  until, number, round, loop, foreach_in_range,
}

-- `expr` of the grammar.
pub data Expr : Type 0 where
  between : ℕ → ℕ → Expr
  from : ℕ → Expr
  up_to : ℕ → Expr
  one : ℕ → Expr

pub print_expr : Expr → Bytes
print_expr (between a b) = decimal a ++ (b'-' ∷ decimal b)
print_expr (from a) = decimal a ++ (b'-' ∷ [])
print_expr (up_to b) = b'-' ∷ decimal b
print_expr (one a) = decimal a

-- `exprs`, behind the first
pub print_tail : List Expr → Bytes
print_tail [] = []
print_tail (e ∷ es) = b',' ∷ (print_expr e ++ print_tail es)

-- `input`
pub print : List Expr → Bytes
print [] = []
print (e ∷ es) = print_expr e ++ print_tail es

-- No digit stands in front.
abbrev Stops : Bytes → Type 0
Stops [] = Unit
Stops (b ∷ s) = is_digit b ≡ false

pop_digits-append :
    (s rest : Bytes) (n : ℕ)
    → All IsDigit s
    → Stops rest
    → value n s < 2 ^ 32
    → pop_digits n (s ++ rest) ≡ (value n s, rest)
unfolding pop_digits
pop_digits-append [] [] n ds st h = refl
pop_digits-append [] (b ∷ rest) n ds st h = rw st
pop_digits-append (b ∷ s) rest n ds st h =
    let m = n * 10 + (b - b'0') in
    let here : is_digit b ≡ true = unfold is_digit in ground (arith, ds.0) in
    let whole : m % 2 ^ 32 ≡ m = mod-eq_of_lt (omega (arith, le-value s m)) in
    rw (here, whole) (pop_digits-append s rest m ds.1 st h)

pop_token-digits :
    (s rest : Bytes) (old : ℕ)
    → s ≢ []
    → All IsDigit s
    → Stops rest
    → value 0 s < 2 ^ 32
    → pop_token old (some (s ++ rest)) ≡ some (record { type = b'#'; num = value 0 s }, some rest)
unfolding pop_token
pop_token-digits [] rest old ne ds st h = absurd (ne refl)
pop_token-digits (b ∷ s) rest old ne ds st h =
    let here : is_digit b ≡ true = unfold is_digit in ground (arith, ds.0) in
    let e : 0 * 10 + (b - b'0') ≡ b - b'0' = omega arith in
    let h' : value (b - b'0') s < 2 ^ 32 = rw e at h in
    rw (here, e, pop_digits-append s rest (b - b'0') ds.1 st h')

pop-decimal :
    (n old : ℕ) (rest : Bytes)
    → Stops rest
    → n < 2 ^ 32
    → pop_token old (some (decimal n ++ rest)) ≡ some (record { type = b'#'; num = n }, some rest)
pop-decimal n old rest st h =
    let (ds, same) = value-decimal n (omega arith) in
    pop_token-digits (decimal n) rest old (decimal-ne-nil n) ds st (omega (arith, same))
    ∙ ap (λ m. some (record { type = b'#'; num = m }, some rest)) same

Stops-tail : (es : List Expr) → Stops (print_tail es)
unfolding print_tail is_digit
Stops-tail [] = tt
Stops-tail (e ∷ es) = refl

module _ (junk start end : ℕ) where
  -- What an expression selects.
  pub call : Expr → ℕ × ℕ
  call (between a b) = (a, b)
  call (from a) = (a, end)
  call (up_to b) = (start, b)
  call (one a) = (a, a)

  abbrev pub Inside : ℕ → Type 0
  Inside n = (start ≤ n) × (n ≤ end)

  -- The numbers of an expression are in the limits.
  abbrev pub Within : Expr → Type 0
  Within (between a b) = Inside a × Inside b
  Within (from a) = Inside a
  Within (up_to b) = Inside b
  Within (one a) = Inside a

  Tail : Round → List Expr → Type 0
  Tail again [] = Unit
  Tail again (e ∷ es) =
      (old : ℕ) (calls : List (ℕ × ℕ))
      → next junk start end again old (some (print_expr e ++ print_tail es)) calls
        ≡ result (calls ++ map call (e ∷ es)) true

  comma-Tail :
      (again : Round) (old : ℕ) (es : List Expr) (calls : List (ℕ × ℕ))
      → Tail again es
      → comma junk start end again old (some (print_tail es)) calls
        ≡ result (calls ++ map call es) true
  unfolding Tail comma pop_token print_tail is_digit
  comma-Tail again old [] calls h = rw append-nil
  comma-Tail again old (e ∷ es) calls h = h old calls

  inside : (n : ℕ) → Inside n → outside junk start end n ≡ false
  inside n h = ground arith

  number-one :
      (again : Round) (a : ℕ) (es : List Expr) (calls : List (ℕ × ℕ))
      → Inside a
      → Tail again es
      → number junk start end again (record { type = b'#'; num = a }) (some (print_tail es)) calls
        ≡ result ((calls ++ (a, a) ∷ []) ++ map call es) true
  unfolding number pop_token print_tail is_digit Tail
  number-one again a [] calls h rest = rw (inside a h) (rw append-nil)
  number-one again a (e ∷ es) calls h rest = rw (inside a h) (rest a (calls ++ (a, a) ∷ []))

  number-from :
      (again : Round) (a : ℕ) (es : List Expr) (calls : List (ℕ × ℕ))
      → Inside a
      → Tail again es
      → number junk start end again
          (record { type = b'#'; num = a })
          (some (b'-' ∷ print_tail es))
          calls
        ≡ result ((calls ++ (a, end) ∷ []) ++ map call es) true
  unfolding number until pop_token print_tail is_digit Tail
  number-from again a [] calls h rest = rw (inside a h) (rw append-nil)
  number-from again a (e ∷ es) calls h rest = rw (inside a h) (rest a (calls ++ (a, end) ∷ []))

  number-between :
      (again : Round) (a b : ℕ) (es : List Expr) (calls : List (ℕ × ℕ))
      → end < 2 ^ 32
      → Inside a
      → Inside b
      → Tail again es
      → number junk start end again
          (record { type = b'#'; num = a })
          (some (b'-' ∷ (decimal b ++ print_tail es)))
          calls
        ≡ result ((calls ++ (a, b) ∷ []) ++ map call es) true
  unfolding number
  number-between again a b es calls small ha hb rest =
      let dash : pop_token junk (some (b'-' ∷ (decimal b ++ print_tail es)))
          ≡ some (record { type = b'-'; num = junk }, some (decimal b ++ print_tail es)) =
        unfold pop_token is_digit in refl in
      rw (inside a ha, dash, pop-decimal b junk (print_tail es) (Stops-tail es) (omega (arith, hb)))
        (unfold until in rw (inside b hb) (comma-Tail again a es (calls ++ (a, b) ∷ []) rest))

  minus-up_to :
      (again : Round) (old b : ℕ) (es : List Expr) (calls : List (ℕ × ℕ))
      → end < 2 ^ 32
      → Inside b
      → Tail again es
      → minus junk start end again
          (record { type = b'-'; num = old })
          (some (decimal b ++ print_tail es))
          calls
        ≡ result ((calls ++ (start, b) ∷ []) ++ map call es) true
  unfolding minus
  minus-up_to again old b es calls small h rest =
      rw (pop-decimal b old (print_tail es) (Stops-tail es) (omega (arith, h)))
        (rw (inside b h) (comma-Tail again b es (calls ++ (start, b) ∷ []) rest))

  -- One expression, whatever follows it.
  next-expr :
      (fuel old : ℕ) (e : Expr) (es : List Expr) (calls : List (ℕ × ℕ))
      → end < 2 ^ 32
      → Within e
      → Tail (loop junk start end fuel) es
      → next junk start end
          (loop junk start end (suc fuel))
          old
          (some (print_expr e ++ print_tail es))
          calls
        ≡ result ((calls ++ call e ∷ []) ++ map call es) true
  unfolding next loop round print_expr
  next-expr fuel old (one a) es calls small h rest =
      rw (pop-decimal a old (print_tail es) (Stops-tail es) (omega (arith, h)))
        (unfold call in number-one (loop junk start end fuel) a es calls h rest)
  next-expr fuel old (from a) es calls small h rest =
      rw
        (
          append_assoc (decimal a) (b'-' ∷ []) (print_tail es),
          pop-decimal a old (b'-' ∷ print_tail es) (unfold is_digit in refl) (omega (arith, h)),
        )
        (unfold call in number-from (loop junk start end fuel) a es calls h rest)
  next-expr fuel old (up_to b) es calls small h rest =
      let dash : pop_token old (some (b'-' ∷ (decimal b ++ print_tail es)))
          ≡ some (record { type = b'-'; num = old }, some (decimal b ++ print_tail es)) =
        unfold pop_token is_digit in refl in
      rw dash (unfold call in minus-up_to (loop junk start end fuel) old b es calls small h rest)
  next-expr fuel old (between a b) es calls small (ha, hb) rest =
      rw
        (
          append_assoc (decimal a) (b'-' ∷ decimal b) (print_tail es),
          pop-decimal a old (b'-' ∷ (decimal b ++ print_tail es)) (unfold is_digit in refl)
              (omega (arith, ha)),
        )
        (unfold call in number-between (loop junk start end fuel) a b es calls small ha hb rest)

  next-list :
      (fuel old : ℕ) (e : Expr) (es : List Expr) (calls : List (ℕ × ℕ))
      → end < 2 ^ 32
      → All Within (e ∷ es)
      → length es < fuel
      → next junk start end
          (loop junk start end fuel)
          old
          (some (print_expr e ++ print_tail es))
          calls
        ≡ result (calls ++ map call (e ∷ es)) true
  unfolding Tail
  next-list zero old e es calls small h fits = absurd (omega arith)
  next-list (suc fuel) old e [] calls small h fits =
      next-expr fuel old e [] calls small h.0 tt
      ∙ ap (λ l. result l true) (append_assoc calls (call e ∷ []) [])
  next-list (suc fuel) old e (x ∷ xs) calls small h fits =
      next-expr fuel old e (x ∷ xs) calls small h.0
        (λ old' calls'. next-list fuel old' x xs calls' small h.1 (omega arith))
      ∙ ap (λ l. result l true) (append_assoc calls (call e ∷ []) (map call (x ∷ xs)))

  length-print_tail : (es : List Expr) → length es ≤ length (print_tail es)
  unfolding print_tail
  length-print_tail [] = omega arith
  length-print_tail (e ∷ es) =
      omega (arith, length-print_tail es, length-append (print_expr e) (print_tail es))

  first :
      (old : ℕ) (e : Expr) (es : List Expr)
      → end < 2 ^ 32
      → Within e
      → (t : RangeToken) × (c : Cursor) × (pop_token old (some (print_expr e ++ print_tail es))
          ≡ some (t, c))
        × ((t.type == 0) ≡ false)
  unfolding print_expr
  first old (one a) es small h =
      (_, _, pop-decimal a old _ (Stops-tail es) (omega (arith, h)), refl)
  first old (from a) es small h = (
    _,
    _,
    ap (λ s. pop_token old (some s)) (append_assoc (decimal a) (b'-' ∷ []) (print_tail es))
        ∙ pop-decimal a old (b'-' ∷ print_tail es) (unfold is_digit in refl) (omega (arith, h)),
    refl,
  )
  first old (up_to b) es small h = (
    record { type = b'-'; num = old },
    some (decimal b ++ print_tail es),
    unfold pop_token is_digit in refl,
    refl,
  )
  first old (between a b) es small h = (
    _,
    _,
    ap (λ s. pop_token old (some s)) (append_assoc (decimal a) (b'-' ∷ decimal b) (print_tail es))
        ∙ pop-decimal a old (b'-' ∷ (decimal b ++ print_tail es)) (unfold is_digit in refl)
            (omega (arith, h.0)),
    refl,
  )

  -- A list of expressions whose numbers are in the limits is accepted, and the callback is called
  -- for each of them, in order, with the numbers that the expression selects.
  pub foreach-print :
      (es : List Expr)
      → end < 2 ^ 32
      → All Within es
      → foreach_in_range junk start end (print es) ≡ result (map call es) true
  unfolding foreach_in_range print next
  foreach-print [] small h = unfold pop_token in refl
  foreach-print (e ∷ es) small h =
      let s = print_expr e ++ print_tail es in
      let (t, c, popped, more) = first junk e es small h.0 in
      let fits : length es < suc (length s) =
        omega (arith, length-append (print_expr e) (print_tail es), length-print_tail es) in
      rw (popped, more)
        (let run = next-list (suc (length s)) junk e es [] small h fits in rw (popped, next) at run)

  number-drops :
      (again : Round) (a b : ℕ) (s : Bytes)
      → Inside a
      → is_digit b ≡ false
      → (b ≢ 0) × (b ≢ b',') × (b ≢ b'-')
      → number junk start end again (record { type = b'#'; num = a }) (some (b ∷ s)) []
        ≡ next junk start end again a (some s) []
  unfolding number
  number-drops again a b s ha digit other =
      let skipped : pop_token junk (some (b ∷ s)) ≡ some (record { type = b; num = junk }, some s) =
        unfold pop_token in rw digit in
      let not_end : (b == 0) ≡ false = ground arith in
      let not_comma : (b == b',') ≡ false = ground arith in
      let not_dash : (b == b'-') ≡ false = ground arith in
      rw (inside a ha, skipped, not_end, not_comma, not_dash) refl

  -- A number in the limits is dropped without a word if a byte follows it that the grammar has not
  -- got: what follows that byte is read as if it stood alone. Such a text is accepted, and the
  -- callback never hears of the number.
  pub foreach_drops_number :
      (a b : ℕ) (e : Expr) (es : List Expr)
      → end < 2 ^ 32
      → Inside a
      → is_digit b ≡ false
      → (b ≢ 0) × (b ≢ b',') × (b ≢ b'-')
      → All Within (e ∷ es)
      → foreach_in_range junk start end (decimal a ++ (b ∷ print (e ∷ es)))
        ≡ result (map call (e ∷ es)) true
  unfolding foreach_in_range
  foreach_drops_number a b e es small ha digit other h =
      let s = print (e ∷ es) in
      let t = decimal a ++ (b ∷ s) in
      let fits : length es < length t = omega (
        arith,
        length-append (decimal a) (b ∷ s),
        length-append (print_expr e) (print_tail es),
        length-print_tail es,
        same_length,
      ) in
      rw (pop-decimal a junk (b ∷ s) digit (omega (arith, ha))) (
        unfold loop round in
        number-drops (loop junk start end (length t)) a b s ha digit other
        ∙ unfold print in next-list (length t) a e es [] small h fits)
    where
      same_length : length (print (e ∷ es)) ≡ length (print_expr e ++ print_tail es)
      same_length = unfold print in refl
