-- ===== src/MsgQ.antt =====
-- src/common/msgq.c: messages between the main process and its children, in a queue of bytes. The
-- arguments of the variadic functions are a list, in which an integer is given by the bits that
-- stand in memory, and `none` is a null pointer. Reading behind the queue is `none`.
pub mod Codec
pub mod Laws
use microdc.Prelude.{
  ℕ, zero, suc, ◌+◌, ◌-◌, ◌*◌, ◌/◌, ◌%◌, ◌^◌, ◌==◌, ltb, leb, not, Bool, true, false, Option, none,
  some, List, [], ◌∷◌, ◌++◌, ◌>>=◌, length, take, drop, if◌then◌else◌,
}
use microdc.Prelude.Text.{Bytes}
use microdc.ByteQ
use microdc.ByteQ.{ByteQ, contents}

-- MsgQType without MSGQ_END, which is the end of a list
pub data MsgQType : Type 0 where
  msgq_int : MsgQType
  msgq_int32 : MsgQType
  msgq_int64 : MsgQType
  msgq_bool : MsgQType
  msgq_str : MsgQType
  msgq_blob : MsgQType
  msgq_strary : MsgQType

pub data Arg : Type 0 where
  int : ℕ → Arg
  int32 : ℕ → Arg
  int64 : ℕ → Arg
  bool : Bool → Arg
  str : Option Bytes → Arg
  blob : Option Bytes → Arg
  strary : Option (List Bytes) → Arg

-- `w` bytes of memory, the lowest first, and the number that they make
unfoldable pub memory : ℕ → ℕ → Bytes
memory zero n = []
memory (suc w) n = (n % 256) ∷ memory w (n / 256)

unfoldable pub number : Bytes → ℕ
number [] = 0
number (b ∷ s) = b + 256 * number s

abbrev pub size_max : ℕ
size_max = 2 ^ 64 - 1

abbrev pub byte_of_bool : Bool → ℕ
byte_of_bool true = 1
byte_of_bool false = 0

-- a text with its null
abbrev pub c_str : Bytes → Bytes
c_str s = s ++ 0 ∷ []

unfoldable pub ary_size : List Bytes → ℕ
ary_size [] = 0
ary_size (s ∷ ary) = 8 + (length s + 1) + ary_size ary

abbrev pub arg_size : Arg → ℕ
arg_size (int n) = 4
arg_size (int32 n) = 4
arg_size (int64 n) = 8
arg_size (bool b) = 1
arg_size (str none) = 8
arg_size (str (some s)) = 8 + (length s + 1)
arg_size (blob none) = 8
arg_size (blob (some s)) = 8 + length s
arg_size (strary none) = 8
arg_size (strary (some ary)) = 8 + ary_size ary

unfoldable pub args_size : List Arg → ℕ
args_size [] = 0
args_size (a ∷ args) = arg_size a + args_size args

pub msgq_calc_put_args_size : List Arg → ℕ
msgq_calc_put_args_size args = args_size args % 2 ^ 64

-- the data that msgq_vput hands to byteq_append for an argument, call by call
unfoldable pub ary_chunks : List Bytes → List Bytes
ary_chunks [] = []
ary_chunks (s ∷ ary) = memory 8 (length s + 1) ∷ c_str s ∷ ary_chunks ary

abbrev pub chunks : Arg → List Bytes
chunks (int n) = memory 4 n ∷ []
chunks (int32 n) = memory 4 n ∷ []
chunks (int64 n) = memory 8 n ∷ []
chunks (bool b) = (byte_of_bool b ∷ []) ∷ []
chunks (str none) = memory 8 size_max ∷ []
chunks (str (some s)) = memory 8 (length s + 1) ∷ c_str s ∷ []
chunks (blob none) = memory 8 size_max ∷ []
chunks (blob (some s)) = memory 8 (length s) ∷ s ∷ []
chunks (strary none) = memory 8 size_max ∷ []
chunks (strary (some ary)) = memory 8 (length ary) ∷ ary_chunks ary

unfoldable pub append_all : ByteQ ℕ → List Bytes → Option (ByteQ ℕ)
append_all q [] = some q
append_all q (c ∷ cs) = ByteQ.append 0 q c >>= λ q'. append_all q' cs

unfoldable pub put_args : ByteQ ℕ → List Arg → Option (ByteQ ℕ)
put_args q [] = some q
put_args q (a ∷ args) = append_all q (chunks a) >>= λ q'. put_args q' args

pub msgq_vput : ByteQ ℕ → ℕ → List Arg → Option (ByteQ ℕ)
msgq_vput q size args = ByteQ.append 0 q (memory 8 size) >>= λ q'. put_args q' args

pub msgq_put : ByteQ ℕ → List Arg → Option (ByteQ ℕ)
msgq_put q args = msgq_vput q (msgq_calc_put_args_size args) args

pub msgq_has_partial_msg : ByteQ ℕ → Bool
msgq_has_partial_msg q = not (q.cur == 0)

pub msgq_has_complete_msg : ByteQ ℕ → Bool
msgq_has_complete_msg q =
    if ltb q.cur 8 then false else not (ltb q.cur ((8 + number (take 8 q.mem)) % 2 ^ 64))

-- memcpy out of the queue, and the place behind it
unfoldable pub get_bytes : ℕ → Bytes → Option (Bytes × Bytes)
get_bytes n buf = if leb n (length buf) then some (take n buf, drop n buf) else none

abbrev pub get_number : ℕ → Bytes → Option (ℕ × Bytes)
get_number w buf = get_bytes w buf >>= λ got. some (number got.0, got.1)

-- strlen and xstrdup: the text in front of the first null, and what stands behind the null
unfoldable pub get_text : Bytes → Option (Bytes × Bytes)
get_text [] = none
get_text (c ∷ buf) =
    let rest = get_text buf in
    if c == 0 then some ([], buf) else (rest >>= λ got. some (c ∷ got.0, got.1))

-- the blocks of a MSGQ_STRARY, which are read as texts
unfoldable pub get_ary : ℕ → Bytes → Option (List Bytes × Bytes)
get_ary zero buf = some ([], buf)
get_ary (suc n) buf = get_number 8 buf >>= λ len. get_bytes len.0 len.1 >>= λ block.
    get_text block.0 >>= λ s. get_ary n block.1 >>= λ rest. some (s.0 ∷ rest.0, rest.1)

abbrev pub get_arg : MsgQType → Bytes → Option (Arg × Bytes)
get_arg msgq_int buf = get_number 4 buf >>= λ n. some (int n.0, n.1)
get_arg msgq_int32 buf = get_number 4 buf >>= λ n. some (int32 n.0, n.1)
get_arg msgq_int64 buf = get_number 8 buf >>= λ n. some (int64 n.0, n.1)
get_arg msgq_bool buf = get_number 1 buf >>= λ n. some (bool (not (n.0 == 0)), n.1)
get_arg msgq_str buf = get_number 8 buf >>= λ len.
    if len.0 == size_max
    then some (str none, len.1)
    else (get_text len.1 >>= λ s. some (str (some s.0), s.1))
get_arg msgq_blob buf = get_number 8 buf >>= λ len.
    if len.0 == size_max
    then some (blob none, len.1)
    else (get_bytes len.0 len.1 >>= λ s. some (blob (some s.0), s.1))
get_arg msgq_strary buf = get_number 8 buf >>= λ len.
    if len.0 == size_max
    then some (strary none, len.1)
    else (get_ary len.0 len.1 >>= λ ary. some (strary (some ary.0), ary.1))

unfoldable pub get_args : List MsgQType → Bytes → Option (List Arg)
get_args [] buf = some []
get_args (t ∷ types) buf = get_arg t buf >>= λ a. get_args types a.1 >>= λ args. some (a.0 ∷ args)

-- msgq_vget, which msgq_peek only calls: the arguments and the bytes in the message
pub msgq_vget : ByteQ ℕ → List MsgQType → Option (List Arg × ℕ)
msgq_vget q types = get_number 8 (contents q) >>= λ size.
    get_args types size.1 >>= λ args. some (args, (8 + size.0) % 2 ^ 64)

pub msgq_get : ByteQ ℕ → List MsgQType → Option (List Arg × ByteQ ℕ)
msgq_get q types = msgq_vget q types >>= λ got. ByteQ.remove q got.1 >>= λ q'. some (got.0, q')
