-- ===== src/Prelude/Mem.antt =====
-- Blocks of heap memory, as the containers of src/common use them. A block is the list of its cells.
-- The contents of a fresh cell are not specified by C: `junk` stands for them, and every theorem
-- holds for each choice. An access outside the block is a fault, `none`.
use Prim.Native.Nat.{ℕ, ◌+◌, ◌-◌, ◌≤◌}
use mathlib.Core.Path.{◌≡◌, ◌∙◌, sym, ap, ap₂}
use mathlib.Core.List.{List, ◌++◌}
use mathlib.Core.Option.{Option, none, some}
use native.Mathlib.Omega.{arith}
use microdc.Prelude.Tests.{leb, if◌then◌else◌}
use microdc.Prelude.Lists.{
  length, take, drop, replicate, length-append, length-take, length-drop, length-replicate,
  take-append, take-append_add, take-take, take_all, drop-append_add, drop-take,
}

module _ {ℓ} {A : Type ℓ} where
  -- xmalloc(n), in cells
  abbrev pub xmalloc : A → ℕ → List A
  xmalloc junk n = replicate n junk

  -- xrealloc(block, n): the cells that both blocks have are kept
  pub xrealloc : A → List A → ℕ → List A
  xrealloc junk block n = take n block ++ replicate (n - length block) junk

  -- memcpy(block + at, cells, len)
  unfoldable pub memcpy : List A → ℕ → List A → Option (List A)
  memcpy block at cells =
      if leb (at + length cells) (length block)
      then some (take at block ++ (cells ++ drop (at + length cells) block))
      else none

  -- memmove(block + to, block + from, len): as if the cells were copied out first
  unfoldable pub memmove : List A → ℕ → ℕ → ℕ → Option (List A)
  unfolding memcpy
  memmove block to from len =
      if leb (from + len) (length block) then memcpy block to (take len (drop from block)) else none

  pub length-xrealloc :
      (junk : A) (block : List A) (n : ℕ) → length block ≤ n → length (xrealloc junk block n) ≡ n
  unfolding xrealloc
  length-xrealloc junk block n h = omega (
    arith,
    length-append (take n block) (replicate (n - length block) junk),
    length-take n block,
    length-replicate (n - length block) junk,
  )

  pub take-xrealloc :
      (junk : A) (block : List A) (n k : ℕ)
      → k ≤ length block
      → length block ≤ n
      → take k (xrealloc junk block n) ≡ take k block
  unfolding xrealloc
  take-xrealloc junk block n k h g =
      take-append k (take n block) _ (omega (arith, length-take n block))
      ∙ take-take k n block (omega arith)

  -- What a copy to the place behind the first `at` cells leaves in the block.
  pub memcpy_lem :
      (block cells : List A) (at : ℕ)
      → at + length cells ≤ length block
      → (out : List A) × (memcpy block at cells ≡ some out)
        × (length out ≡ length block)
        × (take (at + length cells) out ≡ take at block ++ cells)
  unfolding memcpy
  memcpy_lem block cells at h =
      let front = take at block in
      let back = drop (at + length cells) block in
      let at_len : length front ≡ at = omega (arith, length-take at block) in
      (
        front ++ (cells ++ back),
        ground arith,
        omega (
          arith,
          length-append front (cells ++ back),
          length-append cells back,
          length-drop (at + length cells) block,
        ),
        take-append_add front (cells ++ back) _ (length cells) (omega arith)
            ∙ ap (λ l. front ++ l)
                (take-append (length cells) cells back (omega arith)
                  ∙ take_all _ cells (omega arith)),
      )

  -- Moving `len` cells to the front of their block.
  pub memmove_front :
      (block : List A) (from len : ℕ)
      → from + len ≤ length block
      → (out : List A) × (memmove block 0 from len ≡ some out)
        × (length out ≡ length block)
        × (take len out ≡ take len (drop from block))
  unfolding memmove
  memmove_front block from len h =
      let cells = take len (drop from block) in
      let fits : length cells ≡ len =
        omega (arith, length-take len (drop from block), length-drop from block) in
      let (out, copied, kept, shown) = memcpy_lem block cells 0 (omega arith) in
      (out, ground arith, kept, ap (λ n. take n out) (omega arith) ∙ shown)

  -- A copy that fits is a splice.
  pub memcpy_fits :
      (block cells : List A) (at : ℕ)
      → at + length cells ≤ length block
      → memcpy block at cells ≡ some (take at block ++ (cells ++ drop (at + length cells) block))
  unfolding memcpy
  memcpy_fits block cells at h = ground arith

  length-splice :
      (block cells : List A) (at : ℕ)
      → at + length cells ≤ length block
      → length (take at block ++ (cells ++ drop (at + length cells) block)) ≡ length block
  length-splice block cells at h =
      let back = drop (at + length cells) block in
      omega (
        arith,
        length-append (take at block) (cells ++ back),
        length-append cells back,
        length-take at block,
        length-drop (at + length cells) block,
      )

  -- Moving the cells from `c` on up by the length of `cells` and copying these in between inserts
  -- them at `c` in the first `cur` cells.
  pub open_gap :
      (block cells : List A) (cur c : ℕ)
      → c ≤ cur
      → cur + length cells ≤ length block
      → (m out : List A) × (memmove block (c + length cells) c (cur - c) ≡ some m)
        × (memcpy m c cells ≡ some out)
        × (length out ≡ length block)
        × (take (cur + length cells) out ≡ take c block ++ (cells ++ drop c (take cur block)))
  unfolding memmove
  open_gap block cells cur c hc h =
      let k = length cells in
      let tail = take (cur - c) (drop c block) in
      let tail_len : length tail ≡ cur - c =
        omega (arith, length-take (cur - c) (drop c block), length-drop c block) in
      let m = take (c + k) block ++ (tail ++ drop (c + k + length tail) block) in
      let m_len : length m ≡ length block = length-splice block tail (c + k) (omega arith) in
      let out = take c m ++ (cells ++ drop (c + k) m) in
      let head_len : length (take (c + k) block) ≡ c + k =
        omega (arith, length-take (c + k) block) in
      let front : take c m ≡ take c block =
        take-append c (take (c + k) block) _ (omega arith)
        ∙ take-take c (c + k) block (omega arith) in
      let back : take (cur - c) (drop (c + k) m) ≡ drop c (take cur block) =
        ap (take (cur - c)) (drop-append_add (take (c + k) block) _ (c + k) 0 (omega arith))
        ∙ (take-append (cur - c) tail _ (omega arith)
            ∙ (take_all (cur - c) tail (omega arith)
                ∙ sym (drop-take c cur (cur - c) block (omega arith)))) in
      let shown : take (cur + k) out ≡ take c block ++ (cells ++ drop c (take cur block)) =
        take-append_add (take c m) _ (cur + k) (cur - c + k) (omega (arith, length-take c m))
        ∙ (ap (λ l. take c m ++ l) (take-append_add cells _ (cur - c + k) (cur - c) (omega arith))
            ∙ ap₂ (λ a b. a ++ (cells ++ b)) front back) in
      (
        m,
        out,
        ground (arith, memcpy_fits block tail (c + k) (omega arith)),
        memcpy_fits m cells c (omega arith),
        length-splice m cells c (omega arith) ∙ m_len,
        shown,
      )

  -- Moving what lies behind `end` down to `start` takes the cells between out of the first `cur`.
  pub close_gap :
      (block : List A) (cur start end : ℕ)
      → start ≤ end
      → end ≤ cur
      → cur ≤ length block
      → (out : List A) × (memmove block start end (cur - end) ≡ some out)
        × (length out ≡ length block)
        × (take (cur - (end - start)) out ≡ take start block ++ drop end (take cur block))
  unfolding memmove
  close_gap block cur start end h1 h2 h3 =
      let tail = take (cur - end) (drop end block) in
      let tail_len : length tail ≡ cur - end =
        omega (arith, length-take (cur - end) (drop end block), length-drop end block) in
      let (out, copied, kept, shown) = memcpy_lem block tail start (omega arith) in
      (
        out,
        ground (arith, copied),
        kept,
        ap (λ n. take n out) (let e : cur - (end - start) ≡ start + length tail = omega arith in e)
            ∙ (shown
                ∙ ap (λ l. take start block ++ l)
                    (sym (drop-take end cur (cur - end) block (omega arith)))),
      )
