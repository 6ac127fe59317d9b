-- ===== src/User/Tokens.antt =====
-- The functions of the C library by which src/user.c takes messages apart.
use microdc.Prelude.{ℕ, ◌==◌, ◌&&◌, not, Bool, Option, none, some, List, [], ◌∷◌, if◌then◌else◌}
use microdc.Prelude.Text.{Bytes, starts}

-- strsep: the text up to the first delimiter, and what stands behind it, `none` if there is none
unfoldable pub strsep : (ℕ → Bool) → Bytes → Bytes × Option Bytes
strsep delim [] = ([], none)
strsep delim (b ∷ s) =
    let (token, rest) = strsep delim s in if delim b then ([], some s) else (b ∷ token, rest)

-- the tokens of `do { token = strsep(&p, " "); ... } while (p != NULL)`
unfoldable pub words : Bytes → List Bytes
words [] = [] ∷ []
words (b ∷ s) = if b == b' ' then [] ∷ words s else prefix b (words s)
  where
    prefix : ℕ → List Bytes → List Bytes
    prefix b [] = (b ∷ []) ∷ []
    prefix b (w ∷ ws) = (b ∷ w) ∷ ws

unfoldable pub skip_byte : ℕ → Bytes → Bytes
skip_byte d [] = []
skip_byte d (b ∷ s) = let rest = skip_byte d s in if b == d then rest else (b ∷ s)

-- strtok with one delimiter: it skips delimiters, then takes the text up to the next one; `none`
-- if nothing is left. The second result is what the next call goes on from.
unfoldable pub strtok : ℕ → Bytes → Option (Bytes × Bytes)
strtok d s = cut (skip_byte d s)
  where
    rest_of : Option Bytes → Bytes
    rest_of none = []
    rest_of (some s) = s

    cut : Bytes → Option (Bytes × Bytes)
    cut [] = none
    cut (b ∷ s) = let (token, rest) = strsep (λ c. c == d) (b ∷ s) in some (token, rest_of rest)

-- the text before the first occurrence of `key`, all of it if there is none: memmem
unfoldable pub before : Bytes → Bytes → Bytes
before key [] = []
before key (b ∷ s) = let rest = before key s in if starts key (b ∷ s) then [] else b ∷ rest

-- The first space that has no '\' in front of it, `prev` being the byte in front: what stands
-- before it and behind it.
unfoldable pub split_plain : ℕ → Bytes → Option (Bytes × Bytes)
split_plain prev [] = none
split_plain prev (b ∷ s) =
    let rest = split_plain b s in
    if b == b' ' && not (prev == b'\\') then some ([], s) else prepend b rest
  where
    prepend : ℕ → Option (Bytes × Bytes) → Option (Bytes × Bytes)
    prepend b none = none
    prepend b (some (name, rest)) = some (b ∷ name, rest)
