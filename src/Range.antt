-- ===== src/Range.antt =====
-- src/common/range.c: expressions such as `1,3-5,8-,-2` that select numbers.
-- The cursor is the text before the terminating null that is still unread, or `none` when it stands
-- behind the null; reading there is a fault, `none`. `junk` stands for the number of a token that
-- was declared and not set, and fuel for the rounds of the loop: one for each byte are enough.
pub mod Safe
pub mod Parse
use microdc.Prelude.{
  ℕ, zero, suc, ◌+◌, ◌-◌, ◌*◌, ◌%◌, ◌^◌, ◌≡◌, refl, Bool, true, false, ◌&&◌, ◌||◌, Option, none,
  some, List, [], ◌∷◌, ◌++◌, length, ltb, leb, ◌==◌, if◌then◌else◌, ◌>>=◌,
}
use microdc.Prelude.Text.{Bytes, codes}

-- `type` is 0 at the end, `#` for a number, and else the byte that was read.
pub record RangeToken : Type 0 where
  pub type : ℕ
  pub num : ℕ

abbrev pub Cursor : Type 0
Cursor = Option Bytes

unfoldable pub is_digit : ℕ → Bool
is_digit b = leb b'0' b && leb b b'9'

-- the loop over the digits behind the first, in uint32_t
pub pop_digits : ℕ → Bytes → ℕ × Bytes
pop_digits n [] = (n, [])
pop_digits n (b ∷ s) =
    let rest = pop_digits ((n * 10 + (b - b'0')) % 2 ^ 32) s in
    if is_digit b then rest else (n, b ∷ s)

-- pop_token on a token whose number is `old`
pub pop_token : ℕ → Cursor → Option (RangeToken × Cursor)
unfolding is_digit pop_digits
pop_token old none = none
pop_token old (some []) = some (record { type = 0; num = old }, none)
pop_token old (some (b ∷ s)) =
    if is_digit b
    then (let (n, rest) = pop_digits (b - b'0') s in
        some (record { type = b'#'; num = n }, some rest))
    else some (record { type = b; num = old }, some s)

-- The calls of the callback so far, and the result.
pub record Outcome : Type 0 where
  pub calls : List (ℕ × ℕ)
  pub ok : Bool

abbrev pub result : List (ℕ × ℕ) → Bool → Option Outcome
result calls ok = some (record { calls = calls; ok = ok })

abbrev pub Round : Type 0
Round = RangeToken → Cursor → List (ℕ × ℕ) → Option Outcome

module _ (junk start end : ℕ) where
  abbrev pub outside : ℕ → Bool
  outside n = ltb n start || ltb end n

  -- `pop_token(&range, &t)` at the end of the loop's body
  next : Round → ℕ → Cursor → List (ℕ × ℕ) → Option Outcome
  next again old c calls = pop_token old c >>= λ p. again p.0 p.1 calls

  -- behind an expression: the end, or a comma and the next one
  comma : Round → ℕ → Cursor → List (ℕ × ℕ) → Option Outcome
  unfolding next
  comma again old c calls = pop_token old c >>= λ p.
      (if p.0.type == 0
        then result calls true
        else if p.0.type == b','
        then next again p.0.num p.1 calls
        else result calls false)

  -- the branch of a `-` at the front
  minus : Round → Round
  unfolding comma
  minus again t c calls = pop_token t.num c >>= λ p.
      (if p.0.type == b'#'
        then (if outside p.0.num
            then result calls false
            else comma again p.0.num p.1 (calls ++ (start, p.0.num) ∷ []))
        else result calls false)

  -- behind a number and a `-`; `t` is the number, `t2` the token behind the `-`
  until : Round → RangeToken → RangeToken → Cursor → List (ℕ × ℕ) → Option Outcome
  unfolding comma
  until again t t2 c calls =
      if t2.type == 0
      then result (calls ++ (t.num, end) ∷ []) true
      else if t2.type == b','
      then next again t.num c (calls ++ (t.num, end) ∷ [])
      else if t2.type == b'#'
      then (if outside t2.num
          then result calls false
          else comma again t.num c (calls ++ (t.num, t2.num) ∷ []))
      else result calls false

  -- the branch of a number; what is neither the end nor `,` nor `-` falls through to the next round
  number : Round → Round
  unfolding until
  number again t c calls =
      if outside t.num
      then result calls false
      else (pop_token junk c >>= λ p.
          (if p.0.type == 0
            then result (calls ++ (t.num, t.num) ∷ []) true
            else if p.0.type == b','
            then next again t.num p.1 (calls ++ (t.num, t.num) ∷ [])
            else if p.0.type == b'-'
            then (pop_token p.0.num p.1 >>= λ q. until again t q.0 q.1 calls)
            else next again t.num p.1 calls))

  -- one round of the loop
  round : Round → Round
  unfolding minus number
  round again t c calls =
      if t.type == b'-'
      then minus again t c calls
      else if t.type == b'#'
      then number again t c calls
      else result calls false

  loop : ℕ → Round
  loop zero t c calls = none
  loop (suc fuel) t c calls = round (loop fuel) t c calls

  pub foreach_in_range : Bytes → Option Outcome
  foreach_in_range s = pop_token junk (some s) >>= λ p.
      (if p.0.type == 0 then result [] true else loop (suc (length s)) p.0 p.1 [])

example :
    foreach_in_range 7 1 9 (codes "2,4-6,-3,8-")
    ≡ result ((2, 2) ∷ (4, 6) ∷ (1, 3) ∷ (8, 9) ∷ []) true
unfolding foreach_in_range loop round pop_token
example = refl

beyond : foreach_in_range 7 1 9 (codes "2,10") ≡ result ((2, 2) ∷ []) false
unfolding foreach_in_range loop round pop_token
beyond = refl
