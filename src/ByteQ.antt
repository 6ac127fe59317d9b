-- ===== src/ByteQ.antt =====
-- src/common/byteq.c: queues of bytes, the buffers in front of every socket.
-- `mem` is the block that `buf` points to; its length is the size that was last allocated, which the
-- C code does not keep. An operation that reads or writes outside the block, or whose assertion
-- fails, is `none`. `read` and `write` of the C library are arguments: they get the space or the
-- bytes, and `none` is their result -1.
pub mod Laws
use microdc.Prelude.{
  ℕ, ◌+◌, ◌-◌, ◌*◌, ◌%◌, ◌^◌, ◌≤◌, ◌<◌, ◌≡◌, Option, none, some, List, [], ◌++◌, ltb, leb, ◌==◌,
  if◌then◌else◌, ◌>>=◌, length, take, max,
}
use microdc.Prelude.Mem.{xmalloc, xrealloc, memcpy, memmove}

pub record ByteQ {ℓ} (A : Type ℓ) : Type ℓ where
  pub mem : List A
  pub cur : ℕ
  pub cap : ℕ

-- arithmetic on size_t
abbrev pub size_t : ℕ → ℕ
size_t n = n % 2 ^ 64

module _ {ℓ} {A : Type ℓ} where
  -- the bytes of the queue
  abbrev pub contents : ByteQ A → List A
  contents q = take q.cur q.mem

  pub record IsValid (q : ByteQ A) : Type 0 where
    pub used : q.cur ≤ q.cap
    pub room : length q.mem ≡ q.cap
    pub small : q.cap < 2 ^ 64

module _ {ℓ} {A : Type ℓ} (junk : A) where
  -- byteq_new
  pub create : ℕ → ByteQ A
  create initial_size = record {
    mem = xmalloc junk initial_size;
    cur = 0;
    cap = max 1 initial_size;
  }

  -- byteq_enlarge
  pub enlarge : ByteQ A → ByteQ A
  enlarge q =
      let n = size_t (q.cap * 2) in record { mem = xrealloc junk q.mem n; cur = q.cur; cap = n }

  -- byteq_assure
  pub assure : ByteQ A → ℕ → ByteQ A
  assure q n =
      if ltb q.cap n then record { mem = xrealloc junk q.mem n; cur = q.cur; cap = n } else q

  -- byteq_append; byteq_vappendf and byteq_appendf append the formatted text
  pub append : ByteQ A → List A → Option (ByteQ A)
  append q bytes =
      if length bytes == 0
      then some q
      else (let q' = assure q (size_t (q.cur + length bytes)) in
          memcpy q'.mem q'.cur bytes >>= λ m.
          some (record q' { mem = m; cur = size_t (q.cur + length bytes) }))

-- what `read` has put behind the used part of the buffer
module _ {ℓ} {A : Type ℓ} where
  pub fill : ByteQ A → Option (List A) → Option (Option ℕ × ByteQ A)
  fill q none = some (none, q)
  fill q (some got) =
      if ltb 0 (length got)
      then (memcpy q.mem q.cur got >>= λ m.
          some (some (length got), record q { mem = m; cur = size_t (q.cur + length got) }))
      else some (some 0, q)

  -- drop the first `len` bytes: the tail of byteq_remove and byteq_write
  pub advance : ByteQ A → ℕ → Option (ByteQ A)
  advance q len =
      let left = q.cur - len in
      if ltb 0 left
      then (memmove q.mem 0 len left >>= λ m. some (record q { mem = m; cur = left }))
      else some (record q { cur = left })

  -- byteq_remove
  pub remove : ByteQ A → ℕ → Option (ByteQ A)
  unfolding advance
  remove q len = if leb len q.cur then advance q len else none

  -- byteq_clear
  pub clear : ByteQ A → ByteQ A
  clear q = record q { cur = 0 }

  -- what remains to be done when `write` has returned
  after_write : ByteQ A → Option ℕ → Option (Option ℕ × ByteQ A)
  unfolding advance
  after_write q none = some (none, q)
  after_write q (some res) =
      if ltb 0 res then (advance q res >>= λ q'. some (some res, q')) else some (some 0, q)

  -- byteq_write, byteq_full_write and byteq_sendto
  pub write : ByteQ A → (List A → Option ℕ) → Option (Option ℕ × ByteQ A)
  unfolding after_write
  write q put = after_write q (put (contents q))

module _ {ℓ} {A : Type ℓ} (junk : A) where
  -- byteq_read and byteq_recvfrom
  pub read : ByteQ A → (ℕ → Option (List A)) → Option (Option ℕ × ByteQ A)
  unfolding fill enlarge
  read q get =
      let q' = if q.cur == q.cap then enlarge junk q else q in fill q' (get (q'.cap - q'.cur))

  -- byteq_full_read
  pub full_read : ByteQ A → (ℕ → Option (List A)) → Option (Option ℕ × ByteQ A)
  unfolding fill
  full_read q get = fill q (get (q.cap - q.cur))

  -- byteq_read_upto and byteq_full_read_upto
  pub read_upto : ByteQ A → (ℕ → Option (List A)) → ℕ → Option (Option ℕ × ByteQ A)
  unfolding fill assure
  read_upto q get len =
      if leb len q.cur
      then some (some 0, q)
      else (let q' = assure junk q (size_t (q.cur + len)) in fill q' (get (len - q.cur)))
