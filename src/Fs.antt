-- ===== src/Fs.antt =====
-- src/fs.c: the names of shared files, with '/' here and with '\' and no leading separator in the
-- messages to other users. The walk over the file system is not modelled.
use microdc.Prelude.{ℕ, ◌≡◌, ◌≢◌, refl, ap, ap₂, [], ◌∷◌, map, drop, ◌==◌, if◌then◌else◌, arith}
use microdc.Prelude.Text.{Bytes, All}

abbrev to_slash : ℕ → ℕ
to_slash b = if b == b'\\' then b'/' else b

abbrev to_backslash : ℕ → ℕ
to_backslash b = if b == b'/' then b'\\' else b

unfoldable pub translate_remote_to_local : Bytes → Bytes
translate_remote_to_local name = b'/' ∷ map to_slash name

-- The names begin with '/'. For an empty one C reads behind its null.
unfoldable pub translate_local_to_remote : Bytes → Bytes
translate_local_to_remote name = map to_backslash (drop 1 name)

slash_byte : (b : ℕ) → b ≢ b'/' → to_backslash (to_slash b) ≡ b
slash_byte b h = ground arith

backslash_byte : (b : ℕ) → b ≢ b'\\' → to_slash (to_backslash b) ≡ b
backslash_byte b h = ground arith

map_back :
    (f g : ℕ → ℕ) (P : ℕ → Type 0)
    → ((b : ℕ) → P b → f (g b) ≡ b)
    → (s : Bytes) → All P s
    → map f (map g s) ≡ s
map_back f g P back [] h = refl
map_back f g P back (b ∷ s) h = ap₂ (λ x xs. x ∷ xs) (back b h.0) (map_back f g P back s h.1)

-- A remote name without '/' comes back when it is translated to a local one and back, and a local
-- one that begins with '/' and has no '\' behind it comes back from the remote one.
pub translate_lem :
    (s : Bytes)
    → (All (λ b. b ≢ b'/') s → translate_local_to_remote (translate_remote_to_local s) ≡ s)
      × (All (λ b. b ≢ b'\\') s
          → translate_remote_to_local (translate_local_to_remote (b'/' ∷ s)) ≡ b'/' ∷ s)
unfolding translate_local_to_remote translate_remote_to_local
translate_lem s = (
  λ h. map_back to_backslash to_slash _ slash_byte s h,
  λ h. ap (λ t. b'/' ∷ t) (map_back to_slash to_backslash _ backslash_byte s h),
)
