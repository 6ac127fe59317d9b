-- ===== src/Prelude/Text.antt =====
-- Byte strings: literals, C strings, and the string functions of the C library that the program
-- calls on its messages.
use Prim.Native.Char.{code}
use Prim.Native.String.{String}
use Prim.Native.Nat.{ℕ, zero, suc, ◌+◌, ◌-◌, ◌*◌, ◌/◌, ◌%◌, ◌≤◌}
use mathlib.Core.Bool.{Bool, true, false, ◌&&◌}
use mathlib.Core.List.{List, [], ◌∷◌, ◌++◌}
use microdc.Prelude.Tests.{◌==◌, ltb, if◌then◌else◌}

abbrev pub Bytes : Type 0
Bytes = List ℕ

-- the code points of a literal; these are its bytes when the text is ASCII
abbrev pub codes : String → Bytes
codes String.[] = []
codes (String.◌∷◌ c s) = code c ∷ codes s

-- The text up to the first null byte.
abbrev pub c_string : Bytes → Bytes
c_string [] = []
c_string (b ∷ s) = if b == 0 then [] else b ∷ c_string s

-- A predicate of all the bytes of a text.
abbrev pub All {ℓ κ} : {A : Type ℓ} → (A → Type κ) → List A → Type κ
All P [] = Unit
All P (x ∷ xs) = P x × All P xs

abbrev pub IsDigit : ℕ → Type 0
IsDigit b = (b'0' ≤ b) × (b ≤ b'9')

-- What the digits of a text spell behind the number `n`.
abbrev pub value : ℕ → Bytes → ℕ
value n [] = n
value n (b ∷ s) = value (n * 10 + (b - b'0')) s

-- The digits of `n` in front of a text, at most `fuel` of them; 20 are enough for a uint64_t.
unfoldable pub digits : ℕ → ℕ → Bytes → Bytes
digits zero n out = out
digits (suc fuel) n out =
    let more = digits fuel (n / 10) ((b'0' + n % 10) ∷ out) in
    if ltb n 10 then (b'0' + n) ∷ out else more

-- What printf writes for a uint64_t under PRIu64, or for a smaller unsigned number.
unfoldable pub decimal : ℕ → Bytes
unfolding digits
decimal n = digits 20 n []

-- strncmp(s, lit, strlen(lit)) == 0 on a text that is long enough
abbrev pub starts : Bytes → Bytes → Bool
starts [] s = true
starts (l ∷ lit) [] = false
starts (l ∷ lit) (b ∷ s) = b == l && starts lit s

-- strcmp(s, lit) == 0
abbrev pub same : Bytes → Bytes → Bool
same [] [] = true
same [] (b ∷ s) = false
same (l ∷ lit) [] = false
same (l ∷ lit) (b ∷ s) = b == l && same lit s

pub All-append {ℓ κ} :
    {A : Type ℓ} (P : A → Type κ) (xs ys : List A) → All P xs → All P ys → All P (xs ++ ys)
All-append P [] ys h g = g
All-append P (x ∷ xs) ys h g = (h.0, All-append P xs ys h.1 g)
