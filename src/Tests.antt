-- ===== src/Tests.antt =====
-- The theorems at concrete inputs: the containers, the readers of numbers and ranges, and the
-- texts of messages. Tests.Peer has those of src/user.c.
mod Peer
mod Coder
mod Maps
mod Msgs
mod Search
use mathlib.Core.Option
use mathlib.Core.List.{Perm}
use microdc.Prelude.{
  ℕ, zero, suc, ◌≤◌, ◌<◌, ◌≡◌, refl, arith, ◌-◌, ◌^◌, ◌≢◌, Bool, true, false, Option, none, some,
  List, [], ◌∷◌, ◌++◌, map, length, leb, take, drop, replicate,
}
use microdc.Prelude.Int.{ℤ, pos, neg}
use microdc.Prelude.Text.{Bytes, codes, All, IsDigit, value, decimal}
use microdc.ByteQ
use microdc.ByteQ.{ByteQ}
use microdc.PtrV
use microdc.PtrV.{PtrV}
use microdc.IntParse.{parse_uint, parse_int}
use microdc.IntParse.Exact.{IsByte, NoSign, Spells, parse_uint_lem, parse_int_lem, parse-decimal}
use microdc.Message.{decode_lock, escape_message, unescape_message}
use microdc.Message.Laws.{IsPlain, decode_lock-IsPlain, unescape-escape, escape_message-lacks}
use microdc.Range.{is_digit, Outcome, foreach_in_range, result}
use microdc.Range.Safe.{InRange, foreach-Good}
use microdc.Range.Parse.{
  Expr, between, from, up_to, one, print, call, Within, foreach-print, foreach_drops_number,
}
use microdc.Fs.{translate_remote_to_local, translate_local_to_remote, translate_lem}

-- a queue of two bytes in a block of four
abbrev two : ByteQ ℕ
two = record { mem = 1 ∷ 2 ∷ 0 ∷ 0 ∷ []; cur = 2; cap = 4 }

two-IsValid : ByteQ.IsValid two
two-IsValid = record { used = omega arith; room = refl; small = omega arith }

byteq_append_example :
    (q' : ByteQ ℕ) × (ByteQ.append 0 two (3 ∷ 4 ∷ 5 ∷ []) ≡ some q')
    × ByteQ.IsValid q'
    × (ByteQ.contents q' ≡ 1 ∷ 2 ∷ 3 ∷ 4 ∷ 5 ∷ [])
byteq_append_example = ByteQ.Laws.append_lem 0 two (3 ∷ 4 ∷ 5 ∷ []) two-IsValid (omega arith)

byteq_remove_example :
    (1 ≤ 2
      → (q' : ByteQ ℕ) × (ByteQ.remove two 1 ≡ some q')
        × ByteQ.IsValid q'
        × (ByteQ.contents q' ≡ 2 ∷ []))
    × (2 < 1 → ByteQ.remove two 1 ≡ none)
byteq_remove_example = ByteQ.Laws.remove_lem two 1 two-IsValid

-- a `read` that finds one byte, if there is room for one
abbrev read_one : ℕ → Option (List ℕ)
read_one n = some (take n (9 ∷ []))

read_one-small : (n : ℕ) (got : List ℕ) → read_one n ≡ some got → length got ≤ n
read_one-small zero got e = ground arith
read_one-small (suc zero) got e = ground arith
read_one-small (suc (suc n)) got e = ground arith

byteq_read_example :
    (n : ℕ) × (0 < n)
    × ((q' : ByteQ ℕ) × ByteQ.IsValid q'
        × (ByteQ.read 0 two read_one ≡ some (Option.map length (read_one n), q'))
        × (ByteQ.contents q' ≡ (1 ∷ 2 ∷ []) ++ ByteQ.Laws.got_bytes (read_one n)))
byteq_read_example =
    ByteQ.Laws.read_lem 0 two read_one two-IsValid (omega arith) (omega arith) read_one-small

-- a `write` that takes one byte
abbrev write_one : List ℕ → Option ℕ
write_one bytes = some 1

byteq_write_example :
    (q' : ByteQ ℕ) × (ByteQ.write two write_one ≡ some (some 1, q'))
    × ByteQ.IsValid q'
    × (ByteQ.contents q' ≡ 2 ∷ [])
byteq_write_example = ByteQ.Laws.write_lem two write_one two-IsValid λ res e. ground arith

abbrev four_bytes : ByteQ ℕ
four_bytes = ByteQ.create 7 4

abbrev no_bytes : ByteQ ℕ
no_bytes = ByteQ.create 7 0

byteq_create_example :
    (0 < 4 → 4 < 2 ^ 64 → ByteQ.IsValid four_bytes × (ByteQ.contents four_bytes ≡ []))
    × ((x : ℕ) → ByteQ.append 7 no_bytes (x ∷ []) ≡ none)
byteq_create_example = ByteQ.Laws.create_lem 7 4

-- a vector of three elements that is full
abbrev three : PtrV ℕ
three = record { mem = 2 ∷ 4 ∷ 6 ∷ []; cur = 3; cap = 3 }

three-IsValid : PtrV.IsValid three
three-IsValid = record { used = omega arith; room = refl }

ptrv_insort_example :
    (v' : PtrV ℕ) × (PtrV.insort 0 three 5 leb ≡ some v')
    × PtrV.IsValid v'
    × (PtrV.contents v' ≡ PtrV.Order.insert leb 5 (2 ∷ 4 ∷ 6 ∷ []))
    × Perm (PtrV.contents v') (5 ∷ 2 ∷ 4 ∷ 6 ∷ [])
    × (PtrV.Order.IsSorted leb (2 ∷ 4 ∷ 6 ∷ []) → PtrV.Order.IsSorted leb (PtrV.contents v'))
ptrv_insort_example =
    PtrV.Order.insort_lem 0 three 5 leb three-IsValid (omega arith) λ a b h. ground arith

ptrv_remove_range_example :
    (v' : PtrV ℕ) × (PtrV.remove_range three 1 2 ≡ some v')
    × PtrV.IsValid v'
    × (PtrV.contents v' ≡ 2 ∷ 6 ∷ [])
ptrv_remove_range_example =
    PtrV.Laws.remove_range_lem three 1 2 three-IsValid (omega arith) (omega arith) (omega arith)

ptrv_prepend_example :
    (v' : PtrV ℕ) × (PtrV.prepend_n 0 three 2 9 ≡ some v')
    × PtrV.IsValid v'
    × (PtrV.contents v' ≡ 9 ∷ 9 ∷ 2 ∷ 4 ∷ 6 ∷ [])
ptrv_prepend_example = PtrV.Laws.prepend_n_lem 0 three 2 9 three-IsValid (omega arith) (omega arith)

abbrev s123 : Bytes
s123 = codes "123"

s123-bytes : All IsByte s123
s123-bytes = (omega arith, (omega arith, (omega arith, tt)))

parse_uint_example :
    ((r : ℕ) → parse_uint 8 s123 ≡ some r → All IsDigit s123 × (r ≡ value 0 s123) × (r < 2 ^ 8))
    × (All IsDigit s123 → value 0 s123 < 2 ^ 8 → parse_uint 8 s123 ≡ some (value 0 s123))
parse_uint_example = parse_uint_lem 8 s123 s123-bytes

parse_int_example :
    ((r : ℤ) → parse_int 8 (b'-' ∷ s123) ≡ some r → Spells (2 ^ 7) s123 × (r ≡ neg (value 0 s123)))
    × (Spells (2 ^ 7) s123 → parse_int 8 (b'-' ∷ s123) ≡ some (neg (value 0 s123)))
    × ((r : ℤ)
        → NoSign s123
        → parse_int 8 s123 ≡ some r
        → Spells (2 ^ 7 - 1) s123 × (r ≡ pos (value 0 s123)))
    × (Spells (2 ^ 7 - 1) s123 → parse_int 8 s123 ≡ some (pos (value 0 s123)))
parse_int_example = parse_int_lem 8 s123 s123-bytes (omega arith)

parse-decimal_example : parse_uint 16 (decimal 4096) ≡ some 4096
parse-decimal_example = parse-decimal 16 4096 (omega arith) (omega arith)

decode_lock_example : All IsPlain (decode_lock (codes "EXTENDEDPROTOCOL") 5)
decode_lock_example = decode_lock-IsPlain (codes "EXTENDEDPROTOCOL") 5

unescape_example : unescape_message (escape_message (codes "a|b &amp; $")) ≡ codes "a|b &amp; $"
unescape_example = unescape-escape (codes "a|b &amp; $")

escape_example : All (λ b. (b ≢ b'$') × (b ≢ b'|')) (escape_message (codes "a|b$"))
escape_example = escape_message-lacks (codes "a|b$")

foreach_good_example :
    (o : Outcome) × (foreach_in_range 7 1 9 (codes "2,10") ≡ some o) × All (InRange 7 1 9) o.calls
foreach_good_example = foreach-Good 7 1 9 (codes "2,10")

abbrev exprs : List Expr
exprs = one 2 ∷ between 4 6 ∷ up_to 3 ∷ from 8 ∷ []

exprs-Within : All (Within 7 1 9) exprs
exprs-Within = (
  (omega arith, omega arith),
  (
    ((omega arith, omega arith), (omega arith, omega arith)),
    ((omega arith, omega arith), ((omega arith, omega arith), tt)),
  ),
)

foreach_print_example : foreach_in_range 7 1 9 (print exprs) ≡ result (map (call 7 1 9) exprs) true
foreach_print_example = foreach-print 7 1 9 exprs (omega arith) exprs-Within

x-not_digit : is_digit b'x' ≡ false
unfolding is_digit
x-not_digit = refl

foreach_drops_example :
    foreach_in_range 7 1 9 (decimal 5 ++ (b'x' ∷ print exprs))
    ≡ result (map (call 7 1 9) exprs) true
foreach_drops_example =
    foreach_drops_number 7 1 9 5 b'x' (one 2) (between 4 6 ∷ up_to 3 ∷ from 8 ∷ []) (omega arith)
      (omega arith, omega arith) x-not_digit (omega arith, omega arith, omega arith) exprs-Within

translate_example :
    (All (λ b. b ≢ b'/') (codes "a\\b")
      → translate_local_to_remote (translate_remote_to_local (codes "a\\b")) ≡ codes "a\\b")
    × (All (λ b. b ≢ b'\\') (codes "a\\b")
        → translate_remote_to_local (translate_local_to_remote (b'/' ∷ codes "a\\b"))
          ≡ b'/' ∷ codes "a\\b")
translate_example = translate_lem (codes "a\\b")
