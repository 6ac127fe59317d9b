-- ===== src/MsgQ/Laws.antt =====
-- src/common/msgq.c: the layout of messages, and that they are put at the end of the queue and got from its front.
use microdc.Prelude.{
  ℕ, zero, suc, ◌+◌, ◌%◌, ◌^◌, ltb, leb, ◌<◌, ◌≤◌, ◌≡◌, refl, sym, ◌∙◌, ap, arith, some, List, [],
  ◌∷◌, ◌++◌, append-nil, append_assoc, length, length-append, length-take, take-take, take, drop,
  replicate, ap₂, true, false, none, map, Bool-cases, inl, inr,
}
use microdc.Prelude.Text.{Bytes, All}
use microdc.ByteQ
use microdc.ByteQ.{ByteQ, contents}
use microdc.ByteQ.Laws.{append_lem, remove_lem, length-contents}
use microdc.MsgQ.{
  Arg, int, int32, int64, bool, str, blob, strary, memory, number, size_max, args_size, ary_chunks,
  chunks, append_all, put_args, msgq_vput, msgq_put, msgq_calc_put_args_size, msgq_has_complete_msg,
  msgq_vget, msgq_get,
}
use microdc.MsgQ.Codec.{
  concat, arg_bytes, args_bytes, type_of, IsArg, length-memory, number-memory, get_number-memory,
  get_args-args_bytes, length-args_bytes,
}

-- How the arguments stand in memory: an integer in as many bytes as its type has, a text with its
-- null behind the number of its bytes and the null, a block behind its size, and an array of texts
-- behind the number of them. All bits of a size are set for a null pointer.
unfoldable pub wire_texts : List Bytes → Bytes
wire_texts [] = []
wire_texts (s ∷ ary) = (memory 8 (length s + 1) ++ (s ++ 0 ∷ [])) ++ wire_texts ary

abbrev pub wire : Arg → Bytes
wire (int n) = memory 4 n
wire (int32 n) = memory 4 n
wire (int64 n) = memory 8 n
wire (bool true) = 1 ∷ []
wire (bool false) = 0 ∷ []
wire (str none) = replicate 8 255
wire (str (some s)) = memory 8 (length s + 1) ++ (s ++ 0 ∷ [])
wire (blob none) = replicate 8 255
wire (blob (some s)) = memory 8 (length s) ++ s
wire (strary none) = replicate 8 255
wire (strary (some ary)) = memory 8 (length ary) ++ wire_texts ary

unfoldable pub wire_all : List Arg → Bytes
wire_all [] = []
wire_all (a ∷ args) = wire a ++ wire_all args

-- a message as it stands in the queue: the number of the bytes of its arguments, and these
unfoldable pub message : List Arg → Bytes
message args = memory 8 (length (wire_all args)) ++ wire_all args

wire_texts-chunks : (ary : List Bytes) → wire_texts ary ≡ concat (ary_chunks ary)
unfolding wire_texts concat ary_chunks
wire_texts-chunks [] = refl
wire_texts-chunks (s ∷ ary) =
    append_assoc (memory 8 (length s + 1)) (s ++ 0 ∷ []) (wire_texts ary)
    ∙ ap (λ l. memory 8 (length s + 1) ++ ((s ++ 0 ∷ []) ++ l)) (wire_texts-chunks ary)

null_size : replicate 8 255 ≡ memory 8 size_max
unfolding memory
null_size = refl

-- what msgq_vput appends for an argument
wire-arg_bytes : (a : Arg) → wire a ≡ arg_bytes a
unfolding arg_bytes concat
wire-arg_bytes (int n) = sym (append-nil (memory 4 n))
wire-arg_bytes (int32 n) = sym (append-nil (memory 4 n))
wire-arg_bytes (int64 n) = sym (append-nil (memory 8 n))
wire-arg_bytes (bool true) = refl
wire-arg_bytes (bool false) = refl
wire-arg_bytes (str none) = null_size ∙ sym (append-nil (memory 8 size_max))
wire-arg_bytes (str (some s)) =
    ap (λ l. memory 8 (length s + 1) ++ l) (sym (append-nil (s ++ 0 ∷ [])))
wire-arg_bytes (blob none) = null_size ∙ sym (append-nil (memory 8 size_max))
wire-arg_bytes (blob (some s)) = ap (λ l. memory 8 (length s) ++ l) (sym (append-nil s))
wire-arg_bytes (strary none) = null_size ∙ sym (append-nil (memory 8 size_max))
wire-arg_bytes (strary (some ary)) = ap (λ l. memory 8 (length ary) ++ l) (wire_texts-chunks ary)

wire_all-args_bytes : (args : List Arg) → wire_all args ≡ args_bytes args
unfolding wire_all args_bytes
wire_all-args_bytes [] = refl
wire_all-args_bytes (a ∷ args) = ap₂ (λ k l. k ++ l) (wire-arg_bytes a) (wire_all-args_bytes args)

-- The message is made of the size of the first pass and of the bytes of the second.
message-passes : (args : List Arg) → message args ≡ memory 8 (args_size args) ++ args_bytes args
unfolding message
message-passes args =
    let same = wire_all-args_bytes args in
    ap₂ (λ n l. memory 8 n ++ l) (ap length same ∙ length-args_bytes args) same

length-message : (args : List Arg) → length (message args) ≡ 8 + args_size args
length-message args = omega (
  arith,
  ap length (message-passes args),
  length-append (memory 8 (args_size args)) (args_bytes args),
  length-memory 8 (args_size args),
  length-args_bytes args,
)

-- A queue that is valid, and holds these bytes.
abbrev pub HasBytes : ByteQ ℕ → Bytes → Type 0
HasBytes q bytes = ByteQ.IsValid q × (contents q ≡ bytes)

append_step :
    (q : ByteQ ℕ) (bytes chunk : Bytes)
    → HasBytes q bytes
    → length bytes + length chunk < 2 ^ 64
    → (q' : ByteQ ℕ) × (ByteQ.append 0 q chunk ≡ some q') × HasBytes q' (bytes ++ chunk)
append_step q bytes chunk (valid, shown) room =
    let len : q.cur ≡ length bytes = sym (length-contents q valid) ∙ ap length shown in
    let (q', done, valid', shown') = append_lem 0 q chunk valid (omega (arith, len)) in
    (q', done, (valid', shown' ∙ ap (λ l. l ++ chunk) shown))

append_all_lem :
    (cs : List Bytes) (q : ByteQ ℕ) (bytes : Bytes)
    → HasBytes q bytes
    → length bytes + length (concat cs) < 2 ^ 64
    → (q' : ByteQ ℕ) × (append_all q cs ≡ some q') × HasBytes q' (bytes ++ concat cs)
unfolding append_all concat
append_all_lem [] q bytes h room = (q, refl, (h.0, h.1 ∙ sym (append-nil bytes)))
append_all_lem (c ∷ cs) q bytes h room =
    let len = length-append c (concat cs) in
    let (q1, done1, has1) = append_step q bytes c h (omega arith) in
    let (q2, done2, has2) =
      append_all_lem cs q1 (bytes ++ c) has1 (omega (arith, length-append bytes c)) in
    (q2, rw done1 done2, (has2.0, has2.1 ∙ append_assoc bytes c (concat cs)))

put_args_lem :
    (args : List Arg) (q : ByteQ ℕ) (bytes : Bytes)
    → HasBytes q bytes
    → length bytes + length (args_bytes args) < 2 ^ 64
    → (q' : ByteQ ℕ) × (put_args q args ≡ some q') × HasBytes q' (bytes ++ args_bytes args)
unfolding put_args args_bytes arg_bytes
put_args_lem [] q bytes h room = (q, refl, (h.0, h.1 ∙ sym (append-nil bytes)))
put_args_lem (a ∷ args) q bytes h room =
    let len = length-append (arg_bytes a) (args_bytes args) in
    let (q1, done1, has1) = append_all_lem (chunks a) q bytes h (omega arith) in
    let (q2, done2, has2) =
      put_args_lem args q1 (bytes ++ arg_bytes a) has1
        (omega (arith, length-append bytes (arg_bytes a))) in
    (q2, rw done1 done2, (has2.0, has2.1 ∙ append_assoc bytes (arg_bytes a) (args_bytes args)))

vput_lem :
    (q : ByteQ ℕ) (size : ℕ) (args : List Arg) (q1 q2 : ByteQ ℕ)
    → ByteQ.append 0 q (memory 8 size) ≡ some q1
    → put_args q1 args ≡ some q2
    → msgq_vput q size args ≡ some q2
unfolding msgq_vput
vput_lem q size args q1 q2 first_part second_part = rw first_part second_part

-- Putting a message in a valid queue with room for its bytes in 64 bits succeeds, leaves a valid
-- queue, and appends the message: in 8 bytes the number of bytes that its arguments take, and the
-- arguments themselves, each in the layout of its type.
pub msgq_put_lem :
    (q : ByteQ ℕ) (bytes : Bytes) (args : List Arg)
    → HasBytes q bytes
    → length bytes + length (message args) < 2 ^ 64
    → (q' : ByteQ ℕ) × (msgq_put q args ≡ some q') × HasBytes q' (bytes ++ message args)
unfolding msgq_put msgq_calc_put_args_size
msgq_put_lem q bytes args h room =
    let head = memory 8 (args_size args) in
    let whole = length-message args in
    let size : args_size args % 2 ^ 64 ≡ args_size args = omega (arith, room, whole) in
    let len = length-memory 8 (args_size args) in
    let (q1, done1, has1) = append_step q bytes head h (omega (arith, room, whole)) in
    let (q2, done2, has2) =
      put_args_lem args q1 (bytes ++ head) has1
        (omega (arith, room, whole, length-append bytes head, length-args_bytes args)) in
    (
      q2,
      ap (λ n. msgq_vput q n args) size ∙ vput_lem q (args_size args) args q1 q2 done1 done2,
      (
        has2.0,
        has2.1
            ∙ (append_assoc bytes head (args_bytes args)
                ∙ ap (λ l. bytes ++ l) (sym (message-passes args))),
      ),
    )

drop-left : (a b : Bytes) → drop (length a) (a ++ b) ≡ b
drop-left [] b = refl
drop-left (c ∷ a) b = drop-left a b

vget_lem :
    (q : ByteQ ℕ) (args : List Arg) (rest : Bytes)
    → HasBytes q (message args ++ rest)
    → All IsArg args
    → 8 + args_size args < 2 ^ 64
    → msgq_vget q (map type_of args) ≡ some (args, 8 + args_size args)
unfolding msgq_vget
vget_lem q args rest h fit small =
    let head = memory 8 (args_size args) in
    let shown : contents q ≡ (head ++ args_bytes args) ++ rest =
      h.1 ∙ ap (λ l. l ++ rest) (message-passes args) in
    let size : (8 + args_size args) % 2 ^ 64 ≡ 8 + args_size args = omega arith in
    rw
      (
        shown,
        append_assoc head (args_bytes args) rest,
        get_number-memory 8 (args_size args) (args_bytes args ++ rest) (omega arith),
        get_args-args_bytes args rest fit,
        size,
      )
      refl

-- From a valid queue that begins with the message of some arguments, msgq_get with their types reads
-- these arguments and leaves a valid queue that holds what stood behind the message, provided that
-- each argument fits its type and the message has fewer than 2 ^ 64 bytes.
pub msgq_get_lem :
    (q : ByteQ ℕ) (args : List Arg) (rest : Bytes)
    → HasBytes q (message args ++ rest)
    → All IsArg args
    → 8 + args_size args < 2 ^ 64
    → (q' : ByteQ ℕ) × (msgq_get q (map type_of args) ≡ some (args, q')) × HasBytes q' rest
unfolding msgq_get
msgq_get_lem q args rest h fit small =
    let size = length-message args in
    let len : q.cur ≡ length (message args ++ rest) = sym (length-contents q h.0) ∙ ap length h.1 in
    let (q', done, valid, shown) =
      (remove_lem q (8 + args_size args) h.0).0
        (omega (arith, length-append (message args) rest)) in
    (
      q',
      rw (vget_lem q args rest h fit small, done) refl,
      (valid, shown ∙ (rw (h.1, ← size) (drop-left (message args) rest))),
    )

take_left : (a b : Bytes) (n : ℕ) → length a ≡ n → take n (a ++ b) ≡ a
take_left [] b zero h = refl
take_left [] b (suc n) h = absurd (omega arith)
take_left (c ∷ a) b zero h = absurd (omega arith)
take_left (c ∷ a) b (suc n) h = ap (λ l. c ∷ l) (take_left a b n (omega arith))

-- the size that stands in front of the queue
size_lem :
    (q : ByteQ ℕ) (args : List Arg) (n : ℕ) (rest : Bytes)
    → HasBytes q (take n (message args ++ rest))
    → args_size args < 2 ^ 64
    → 8 ≤ n
    → 8 ≤ q.cur
    → number (take 8 q.mem) ≡ args_size args
size_lem q args n rest h small long enough =
    let head = memory 8 (args_size args) in
    let front : take 8 q.mem ≡ head =
      sym (take-take 8 q.cur q.mem enough)
      ∙ (ap (take 8) h.1
          ∙ (take-take 8 n (message args ++ rest) long
              ∙ (ap (take 8) (
                    ap (λ l. l ++ rest) (message-passes args)
                    ∙ append_assoc head (args_bytes args) rest)
                  ∙ take_left head (args_bytes args ++ rest) 8
                      (length-memory 8 (args_size args))))) in
    ap number front ∙ number-memory 8 (args_size args) (omega arith)

-- For a valid queue that holds the first n bytes of a message of fewer than 2 ^ 64 bytes and what
-- follows it, msgq_has_complete_msg is true exactly if these are at least the bytes of the message.
pub msgq_has_complete_msg_lem :
    (q : ByteQ ℕ) (args : List Arg) (n : ℕ) (rest : Bytes)
    → HasBytes q (take n (message args ++ rest))
    → n ≤ length (message args ++ rest)
    → 8 + args_size args < 2 ^ 64
    → msgq_has_complete_msg q ≡ leb (length (message args)) n
unfolding msgq_has_complete_msg
msgq_has_complete_msg_lem q args n rest h there small =
    let len : q.cur ≡ n =
      sym (length-contents q h.0)
      ∙ (ap length h.1 ∙ (length-take n (message args ++ rest) ∙ omega arith)) in
    let whole = length-message args in
    elim (Bool-cases (ltb q.cur 8)) [
      | inl short ↦ rw short (ground (arith, len, whole))
      | inr long ↦
          let size = size_lem q args n rest h (omega arith) (ground (arith, len)) (ground arith) in
          rw (long, size) (ground (arith, len, whole))
    ]
