-- ===== src/Message.antt =====
-- src/connection.c: the answer to a $Lock challenge, and the escapes of chat messages. Bytes are
-- numbers below 256; texts are the bytes before the terminating null.
pub mod Laws
use Prim.Native.Nat.{bit_xor}
use microdc.Prelude.{
  ℕ, zero, suc, ◌+◌, ◌*◌, ◌/◌, ◌%◌, ◌≡◌, refl, Bool, true, false, ◌||◌, [], ◌∷◌, ◌++◌, length, take,
  ltb, ◌==◌, if◌then◌else◌,
}
use microdc.Prelude.Text.{Bytes, codes, starts}

-- (uint8_t) ((k << 4) | (k >> 4)); the two halves have no bit in common
abbrev swap : ℕ → ℕ
swap k = (k * 16 + k / 16) % 256

-- `key[c]` for the bytes behind the first, which stand behind `prev`
chain : ℕ → Bytes → Bytes
chain prev [] = []
chain prev (b ∷ lock) = swap (bit_xor b prev) ∷ chain b lock

last_or : ℕ → Bytes → ℕ
last_or d [] = d
last_or d (b ∷ s) = last_or b s

-- the loop over the lock, and the change of `key[0]` behind it
unfoldable pub lock_key : ℕ → Bytes → Bytes
unfolding chain last_or
lock_key basekey [] = []
lock_key basekey (b ∷ lock) =
    let first = swap (bit_xor b (basekey % 256)) in
    let rest = chain b lock in bit_xor first (last_or first rest) ∷ rest

-- the cases of both switch statements
pub is_special : ℕ → Bool
is_special k = k == 0 || k == 5 || k == 36 || k == 96 || k == 124 || k == 126

-- the first switch: the room that the answer takes, with its terminating null
pub key_room : ℕ → Bytes → ℕ
key_room d [] = d
key_room d (k ∷ key) = key_room (if is_special k then d + 10 else d + 1) key

-- sprintf("/%%DCN%03d%%/", k)
pub escape_key : ℕ → Bytes
escape_key k =
    codes "/%DCN" ++ ((b'0' + k / 100 % 10) ∷ (b'0' + k / 10 % 10) ∷ (b'0' + k % 10) ∷ codes "%/")

-- the second switch
pub write_key : Bytes → Bytes
write_key [] = []
write_key (k ∷ key) = (if is_special k then escape_key k else k ∷ []) ++ write_key key

unfoldable pub decode_lock : Bytes → ℕ → Bytes
unfolding lock_key is_special escape_key write_key
decode_lock lock basekey = if ltb (length lock) 3 then [] else write_key (lock_key basekey lock)

-- What stands at the front of an escaped message, and how many bytes of it follow the first.
pub unescape_token : ℕ → Bytes → ℕ × ℕ
unescape_token b s =
    if starts (codes "&amp;") (b ∷ s)
    then (b'&', 4)
    else if starts (codes "&#36;") (b ∷ s)
    then (b'$', 4)
    else if starts (codes "&#124;") (b ∷ s)
    then (b'|', 5)
    else (b, 0)

-- the loop of unescape_message, with the bytes that `str += n` has still to pass
pub unescape_from : ℕ → Bytes → Bytes
unfolding unescape_token
unescape_from skip [] = []
unescape_from (suc skip) (b ∷ s) = unescape_from skip s
unescape_from zero (b ∷ s) = let (c, skip) = unescape_token b s in c ∷ unescape_from skip s

unfoldable pub unescape_message : Bytes → Bytes
unfolding unescape_from
unescape_message str = unescape_from 0 str

pub escape_byte : ℕ → Bytes
escape_byte b =
    if b == b'$'
    then codes "&#36;"
    else if b == b'&'
    then codes "&amp;"
    else if b == b'|'
    then codes "&#124;"
    else b ∷ []

unfoldable pub escape_message : Bytes → Bytes
unfolding escape_byte
escape_message [] = []
escape_message (b ∷ str) = escape_byte b ++ escape_message str

-- "EXTENDEDPROTOCOLABCABCABCABCABCABCA" is the lock that this client sends.
abbrev own_lock : Bytes
own_lock = codes "EXTENDEDPROTOCOLABCABCABCABCABCABCA"

own_key : take 12 (decode_lock own_lock 5) ≡ codes "/%DCN036%/" ++ (209 ∷ 192 ∷ [])
unfolding decode_lock
own_key = refl

chat : escape_message (codes "a|b & $") ≡ codes "a&#124;b &amp; &#36;"
unfolding escape_message
chat = refl

unescape_once : unescape_message (codes "&amp;amp; &#35; &") ≡ codes "&amp; &#35; &"
unfolding unescape_message
unescape_once = refl
