-- ===== src/MsgQ/Codec.antt =====
-- src/common/msgq.c: the bytes of an argument, and that they are read back.
use native.Mathlib.Nat.{pow-suc}
use microdc.Prelude.{
  ℕ, zero, suc, ◌+◌, ◌-◌, ◌/◌, ◌^◌, ◌==◌, leb, ◌<◌, ◌≡◌, ◌≢◌, refl, sym, ◌∙◌, ap, ap₂, arith, true,
  false, Option, none, some, List, [], ◌∷◌, ◌++◌, append-nil, append_assoc, length, length-append,
  take, drop, map,
}
use microdc.Prelude.Text.{Bytes, All}
use microdc.MsgQ.{
  MsgQType, msgq_int, msgq_int32, msgq_int64, msgq_bool, msgq_str, msgq_blob, msgq_strary, Arg, int,
  int32, int64, bool, str, blob, strary, memory, number, size_max, c_str, ary_size, arg_size,
  args_size, ary_chunks, chunks, get_bytes, get_number, get_text, get_ary, get_arg, get_args,
}

pub length-memory : (w n : ℕ) → length (memory w n) ≡ w
unfolding memory
length-memory zero n = refl
length-memory (suc w) n = ap suc (length-memory w (n / 256))

pub number-memory : (w n : ℕ) → n < 256 ^ w → number (memory w n) ≡ n
unfolding number memory
number-memory zero n h = omega (arith, h)
number-memory (suc w) n h =
    let whole = pow-suc 256 w in omega (arith, number-memory w (n / 256) (omega (arith, h, whole)))

-- one list of the data of several calls
unfoldable pub concat : List Bytes → Bytes
concat [] = []
concat (c ∷ cs) = c ++ concat cs

pub concat-append : (a b : List Bytes) → concat (a ++ b) ≡ concat a ++ concat b
unfolding concat
concat-append [] b = refl
concat-append (c ∷ a) b =
    ap (λ l. c ++ l) (concat-append a b) ∙ sym (append_assoc c (concat a) (concat b))

unfoldable pub arg_bytes : Arg → Bytes
arg_bytes a = concat (chunks a)

-- the type that reads an argument
abbrev pub type_of : Arg → MsgQType
type_of (int n) = msgq_int
type_of (int32 n) = msgq_int32
type_of (int64 n) = msgq_int64
type_of (bool b) = msgq_bool
type_of (str s) = msgq_str
type_of (blob s) = msgq_blob
type_of (strary ary) = msgq_strary

-- A text has no null, and its size fits.
abbrev pub IsText : Bytes → Type 0
IsText s = All (λ c. c ≢ 0) s × (length s + 1 < 2 ^ 64 - 1)

-- what fits in an argument
abbrev pub IsArg : Arg → Type 0
IsArg (int n) = n < 2 ^ 32
IsArg (int32 n) = n < 2 ^ 32
IsArg (int64 n) = n < 2 ^ 64
IsArg (bool b) = Unit
IsArg (str none) = Unit
IsArg (str (some s)) = IsText s
IsArg (blob none) = Unit
IsArg (blob (some s)) = length s < 2 ^ 64 - 1
IsArg (strary none) = Unit
IsArg (strary (some ary)) = All IsText ary × (length ary < 2 ^ 64 - 1)

take-left : (a b : Bytes) → take (length a) (a ++ b) ≡ a
take-left [] b = refl
take-left (c ∷ a) b = ap (λ l. c ∷ l) (take-left a b)

drop-left : (a b : Bytes) → drop (length a) (a ++ b) ≡ b
drop-left [] b = refl
drop-left (c ∷ a) b = drop-left a b

abbrev both : Bytes → Bytes → Option (Bytes × Bytes)
both a b = some (a, b)

get_bytes-left : (a b : Bytes) → get_bytes (length a) (a ++ b) ≡ both a b
unfolding get_bytes
get_bytes-left a b =
    let fits : leb (length a) (length (a ++ b)) ≡ true = ground (arith, length-append a b) in
    rw fits (ap₂ both (take-left a b) (drop-left a b))

abbrev pub number_and : ℕ → Bytes → Option (ℕ × Bytes)
number_and n b = some (n, b)

pub get_number-memory :
    (w n : ℕ) (rest : Bytes) → n < 256 ^ w → get_number w (memory w n ++ rest) ≡ number_and n rest
get_number-memory w n rest h =
    let len = length-memory w n in
    let got : get_bytes w (memory w n ++ rest) ≡ both (memory w n) rest =
      rw len at (get_bytes-left (memory w n) rest) in
    rw got (ap (λ m. number_and m rest) (number-memory w n h))

get_text-c_str : (s rest : Bytes) → All (λ c. c ≢ 0) s → get_text (c_str s ++ rest) ≡ both s rest
unfolding get_text
get_text-c_str [] rest h = refl
get_text-c_str (c ∷ s) rest h =
    let full : (c == 0) ≡ false = ground (arith, h.0) in rw (full, get_text-c_str s rest h.1) refl

abbrev ary_and : List Bytes → Bytes → Option (List Bytes × Bytes)
ary_and ary b = some (ary, b)

get_ary-chunks :
    (ary : List Bytes) (rest : Bytes)
    → All IsText ary
    → get_ary (length ary) (concat (ary_chunks ary) ++ rest) ≡ ary_and ary rest
unfolding get_ary ary_chunks concat
get_ary-chunks [] rest h = refl
get_ary-chunks (s ∷ ary) rest h =
    let more = concat (ary_chunks ary) in
    let split : (memory 8 (length s + 1) ++ (c_str s ++ more)) ++ rest
        ≡ memory 8 (length s + 1) ++ (c_str s ++ (more ++ rest)) =
      append_assoc (memory 8 (length s + 1)) (c_str s ++ more) rest
      ∙ ap (λ l. memory 8 (length s + 1) ++ l) (append_assoc (c_str s) more rest) in
    let len : length (c_str s) ≡ length s + 1 = length-append s (0 ∷ []) in
    let block : get_bytes (length s + 1) (c_str s ++ (more ++ rest))
        ≡ both (c_str s) (more ++ rest) =
      rw len at (get_bytes-left (c_str s) (more ++ rest)) in
    let text : get_text (c_str s) ≡ both s [] =
      rw (append-nil (c_str s)) at (get_text-c_str s [] h.0.0) in
    rw
      (
        split,
        get_number-memory 8 (length s + 1) (c_str s ++ (more ++ rest)) (omega (arith, h.0.1)),
        block,
        text,
        get_ary-chunks ary rest h.1,
      )
      refl

abbrev pub arg_and : Arg → Bytes → Option (Arg × Bytes)
arg_and a b = some (a, b)

-- a number in front of what follows
abbrev sized : ℕ → Bytes → Bytes → Bytes
sized n data_bytes rest = memory 8 n ++ (data_bytes ++ rest)

not_max : (n : ℕ) → n < 2 ^ 64 - 1 → (n == size_max) ≡ false
not_max n h = ground arith

get_number-byte : (b : ℕ) (rest : Bytes) → get_number 1 (b ∷ rest) ≡ number_and b rest
unfolding number
get_number-byte b rest =
    rw (get_bytes-left (b ∷ []) rest) (ap (λ m. number_and m rest) (omega arith))

-- Each argument is read back, whatever follows it.
pub get_arg-arg_bytes :
    (a : Arg) (rest : Bytes) → IsArg a → get_arg (type_of a) (arg_bytes a ++ rest) ≡ arg_and a rest
unfolding arg_bytes concat
get_arg-arg_bytes (int n) rest h =
    rw (append-nil (memory 4 n), get_number-memory 4 n rest (omega (arith, h))) refl
get_arg-arg_bytes (int32 n) rest h =
    rw (append-nil (memory 4 n), get_number-memory 4 n rest (omega (arith, h))) refl
get_arg-arg_bytes (int64 n) rest h =
    rw (append-nil (memory 8 n), get_number-memory 8 n rest (omega (arith, h))) refl
get_arg-arg_bytes (bool true) rest h = rw (get_number-byte 1 rest) refl
get_arg-arg_bytes (bool false) rest h = rw (get_number-byte 0 rest) refl
get_arg-arg_bytes (str none) rest h =
    rw (append-nil (memory 8 size_max), get_number-memory 8 size_max rest (omega arith)) refl
get_arg-arg_bytes (str (some s)) rest h =
    rw
      (
        append-nil (c_str s),
        append_assoc (memory 8 (length s + 1)) (c_str s) rest,
        get_number-memory 8 (length s + 1) (c_str s ++ rest) (omega (arith, h.1)),
        not_max (length s + 1) h.1,
        get_text-c_str s rest h.0,
      )
      refl
get_arg-arg_bytes (blob none) rest h =
    rw (append-nil (memory 8 size_max), get_number-memory 8 size_max rest (omega arith)) refl
get_arg-arg_bytes (blob (some s)) rest h =
    rw
      (
        append-nil s,
        append_assoc (memory 8 (length s)) s rest,
        get_number-memory 8 (length s) (s ++ rest) (omega (arith, h)),
        not_max (length s) h,
        get_bytes-left s rest,
      )
      refl
get_arg-arg_bytes (strary none) rest h =
    rw (append-nil (memory 8 size_max), get_number-memory 8 size_max rest (omega arith)) refl
get_arg-arg_bytes (strary (some ary)) rest h =
    rw
      (
        append_assoc (memory 8 (length ary)) (concat (ary_chunks ary)) rest,
        get_number-memory 8 (length ary) (concat (ary_chunks ary) ++ rest) (omega (arith, h.1)),
        not_max (length ary) h.1,
        get_ary-chunks ary rest h.0,
      )
      refl

unfoldable pub args_bytes : List Arg → Bytes
args_bytes [] = []
args_bytes (a ∷ args) = arg_bytes a ++ args_bytes args

pub get_args-args_bytes :
    (args : List Arg) (rest : Bytes)
    → All IsArg args
    → get_args (map type_of args) (args_bytes args ++ rest) ≡ some args
unfolding get_args args_bytes
get_args-args_bytes [] rest h = refl
get_args-args_bytes (a ∷ args) rest h =
    rw
      (
        append_assoc (arg_bytes a) (args_bytes args) rest,
        get_arg-arg_bytes a (args_bytes args ++ rest) h.0,
        get_args-args_bytes args rest h.1,
      )
      refl

length-ary : (ary : List Bytes) → length (concat (ary_chunks ary)) ≡ ary_size ary
unfolding concat ary_chunks ary_size
length-ary [] = refl
length-ary (s ∷ ary) = omega (
  arith,
  length-append (memory 8 (length s + 1)) (c_str s ++ concat (ary_chunks ary)),
  length-append (c_str s) (concat (ary_chunks ary)),
  length-append s (0 ∷ []),
  length-memory 8 (length s + 1),
  length-ary ary,
)

-- The first pass counts the bytes that the second writes.
pub length-arg_bytes : (a : Arg) → length (arg_bytes a) ≡ arg_size a
unfolding arg_bytes concat
length-arg_bytes (int n) = rw (append-nil (memory 4 n)) (length-memory 4 n)
length-arg_bytes (int32 n) = rw (append-nil (memory 4 n)) (length-memory 4 n)
length-arg_bytes (int64 n) = rw (append-nil (memory 8 n)) (length-memory 8 n)
length-arg_bytes (bool b) = refl
length-arg_bytes (str none) = rw (append-nil (memory 8 size_max)) (length-memory 8 size_max)
length-arg_bytes (str (some s)) = rw (append-nil (c_str s)) (
    omega (
      arith,
      length-append (memory 8 (length s + 1)) (c_str s),
      length-append s (0 ∷ []),
      length-memory 8 (length s + 1),
    ))
length-arg_bytes (blob none) = rw (append-nil (memory 8 size_max)) (length-memory 8 size_max)
length-arg_bytes (blob (some s)) =
    rw (append-nil s)
      (omega (arith, length-append (memory 8 (length s)) s, length-memory 8 (length s)))
length-arg_bytes (strary none) = rw (append-nil (memory 8 size_max)) (length-memory 8 size_max)
length-arg_bytes (strary (some ary)) = omega (
  arith,
  length-append (memory 8 (length ary)) (concat (ary_chunks ary)),
  length-memory 8 (length ary),
  length-ary ary,
)

pub length-args_bytes : (args : List Arg) → length (args_bytes args) ≡ args_size args
unfolding args_bytes args_size
length-args_bytes [] = refl
length-args_bytes (a ∷ args) = omega (
  arith,
  length-append (arg_bytes a) (args_bytes args),
  length-arg_bytes a,
  length-args_bytes args,
)
