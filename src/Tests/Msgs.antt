-- ===== src/Tests/Msgs.antt =====
-- The theorems about src/common/msgq.c at a message with a number, a text and a null pointer.
use microdc.Prelude.{
  ℕ, ◌≤◌, ◌≡◌, refl, arith, none, some, List, [], ◌∷◌, ◌++◌, length, replicate, take, map, leb,
}
use microdc.Prelude.Text.{Bytes, codes}
use microdc.ByteQ.{ByteQ}
use microdc.MsgQ.{
  Arg, int32, str, strary, memory, args_size, msgq_put, msgq_get, msgq_has_complete_msg,
}
use microdc.MsgQ.Codec.{type_of}
use microdc.MsgQ.Laws.{
  wire_texts, wire_all, message, HasBytes, msgq_put_lem, msgq_get_lem, msgq_has_complete_msg_lem,
}

abbrev args : List Arg
args = int32 7 ∷ str (some (codes "hi")) ∷ strary none ∷ []

size_lem : args_size args ≡ 23
unfolding args_size
size_lem = refl

message_size : length (message args) ≡ 31
unfolding message wire_all wire_texts memory
message_size = refl

abbrev empty : ByteQ ℕ
empty = record { mem = replicate 4 0; cur = 0; cap = 4 }

msgq_put_example : (q' : ByteQ ℕ) × (msgq_put empty args ≡ some q') × HasBytes q' (message args)
msgq_put_example =
    msgq_put_lem empty [] args
      (record { used = omega arith; room = refl; small = omega arith }, refl)
      (omega (arith, message_size))

-- the message, with the first byte of another one behind it
abbrev bytes : Bytes
bytes =
    23 ∷ replicate 7 0
    ++ (7 ∷ replicate 3 0 ++ (3 ∷ replicate 7 0 ++ (codes "hi" ++ 0 ∷ replicate 8 255)))
    ++ 9 ∷ []

abbrev queue : ByteQ ℕ
queue = record { mem = bytes; cur = 32; cap = 32 }

queue-HasBytes : HasBytes queue (message args ++ 9 ∷ [])
unfolding message wire_all wire_texts memory
queue-HasBytes = (record { used = omega arith; room = refl; small = omega arith }, refl)

msgq_get_example :
    (q' : ByteQ ℕ) × (msgq_get queue (map type_of args) ≡ some (args, q')) × HasBytes q' (9 ∷ [])
msgq_get_example =
    msgq_get_lem queue args (9 ∷ []) queue-HasBytes
      (
        omega arith,
        ((((λ e. ground (arith, e)), ((λ e. ground (arith, e)), tt)), omega arith), (tt, tt)),
      )
      (omega (arith, size_lem))

-- the first twenty bytes of the message
abbrev part : ByteQ ℕ
part = record { mem = take 20 bytes; cur = 20; cap = 20 }

part-HasBytes : HasBytes part (take 20 (message args ++ []))
unfolding message wire_all wire_texts memory
part-HasBytes = (record { used = omega arith; room = refl; small = omega arith }, refl)

long_enough : 20 ≤ length (message args ++ [])
unfolding message wire_all wire_texts memory
long_enough = omega arith

msgq_has_complete_msg_example : msgq_has_complete_msg part ≡ leb (length (message args)) 20
msgq_has_complete_msg_example =
    msgq_has_complete_msg_lem part args 20 [] part-HasBytes long_enough (omega (arith, size_lem))
