-- ===== src/Message/Laws.antt =====
-- What the answer to a challenge holds, and that the chat escapes undo one another.
use microdc.Prelude.{
  ℕ, ◌+◌, ◌/◌, ◌%◌, ◌≡◌, ◌≢◌, refl, ap, ◌∙◌, inl, inr, arith, false, Bool-cases, [], ◌∷◌, ◌++◌,
  length, ltb, ◌==◌,
}
use microdc.Prelude.Text.{Bytes, All, All-append}
use microdc.Message.{
  is_special, lock_key, escape_key, write_key, decode_lock, unescape_from, unescape_message,
  escape_byte, escape_message,
}

-- A byte that may stand in a command: none of the six that the protocol escapes, which are the
-- null, ENQ, and the characters `$`, "`", `|` and `~`.
abbrev pub IsPlain : ℕ → Type 0
IsPlain b = (b ≢ 0) × (b ≢ 5) × (b ≢ b'$') × (b ≢ b'`') × (b ≢ b'|') × (b ≢ b'~')

-- what falls through the switch
is_special-IsPlain : (b : ℕ) → is_special b ≡ false → IsPlain b
unfolding is_special
is_special-IsPlain b h = (
  (λ e. ground (arith, h, e)),
  (λ e. ground (arith, h, e)),
  (λ e. ground (arith, h, e)),
  (λ e. ground (arith, h, e)),
  (λ e. ground (arith, h, e)),
  (λ e. ground (arith, h, e)),
)

escape_key-IsPlain : (k : ℕ) → All IsPlain (escape_key k)
unfolding escape_key is_special
escape_key-IsPlain k =
    let d : (n : ℕ) → IsPlain (b'0' + n % 10) = λ n. omega arith in
    let p : (b : ℕ) → is_special b ≡ false → IsPlain b = is_special-IsPlain in
    (
      p _ refl,
      (
        p _ refl,
        (
          p _ refl,
          (p _ refl, (p _ refl, (d (k / 100), (d (k / 10), (d k, (p _ refl, (p _ refl, tt))))))),
        ),
      ),
    )

write_key-IsPlain : (key : Bytes) → All IsPlain (write_key key)
unfolding write_key
write_key-IsPlain [] = tt
write_key-IsPlain (k ∷ key) = elim (Bool-cases (is_special k)) [
  | inl special ↦
      rw special
        (All-append IsPlain (escape_key k) _ (escape_key-IsPlain k) (write_key-IsPlain key))
  | inr plain ↦ rw plain (is_special-IsPlain k plain, write_key-IsPlain key)
]

-- The answer to a challenge can stand in a command: whatever the lock, none of its bytes is 0, 5,
-- `$`, "`", `|` or `~`.
pub decode_lock-IsPlain : (lock : Bytes) (basekey : ℕ) → All IsPlain (decode_lock lock basekey)
unfolding decode_lock
decode_lock-IsPlain lock basekey = elim (Bool-cases (ltb (length lock) 3)) [
  | inl short ↦ rw short tt
  | inr long ↦ rw long (write_key-IsPlain (lock_key basekey lock))
]

unescape-escape_byte :
    (b : ℕ) (s : Bytes) → unescape_from 0 (escape_byte b ++ s) ≡ b ∷ unescape_from 0 s
unfolding unescape_from escape_byte
unescape-escape_byte b s = ground arith

-- unescape_message gives every message back that escape_message has escaped.
pub unescape-escape : (str : Bytes) → unescape_message (escape_message str) ≡ str
unfolding unescape_message escape_message
unescape-escape [] = refl
unescape-escape (b ∷ str) =
    unescape-escape_byte b (escape_message str) ∙ ap (λ s. b ∷ s) (unescape-escape str)

escape_byte-lacks : (b : ℕ) → All (λ c. (c ≢ b'$') × (c ≢ b'|')) (escape_byte b)
unfolding escape_byte
escape_byte-lacks b = elim (Bool-cases (b == b'$')) [
  | inl dollar ↦ rw dollar (omega arith)
  | inr other ↦ rw other (elim (Bool-cases (b == b'&')) [
    | inl amp ↦ rw amp (omega arith)
    | inr other' ↦ rw other' (elim (Bool-cases (b == b'|')) [
      | inl bar ↦ rw bar (omega arith)
      | inr plain ↦ rw plain ((ground arith, ground arith), tt)
    ])
  ])
]

-- An escaped message holds neither of the bytes that end a command or a parameter.
pub escape_message-lacks : (str : Bytes) → All (λ b. (b ≢ b'$') × (b ≢ b'|')) (escape_message str)
unfolding escape_message
escape_message-lacks [] = tt
escape_message-lacks (b ∷ str) =
    All-append _ (escape_byte b) (escape_message str) (escape_byte-lacks b)
      (escape_message-lacks str)
