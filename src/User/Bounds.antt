-- ===== src/User/Bounds.antt =====
-- src/user.c: who sends after the negotiation of the direction, and which part of a file is sent.
use microdc.Prelude.{
  ℕ, ◌+◌, ◌-◌, ◌%◌, ◌^◌, ◌<◌, ◌≤◌, ◌≡◌, ◌≢◌, refl, arith, Bool, true, false, Option, none, some,
}
use microdc.User.State.{Direction, unknown, send, receive}
use microdc.User.Handshake.{choose_direction}
use microdc.User.Upload.{block_end}

abbrev pub opposite : Option Direction → Option Direction
opposite none = none
opposite (some unknown) = some unknown
opposite (some send) = some receive
opposite (some receive) = some send

-- Two users who tell each other whether they want to download and different random numbers choose
-- opposite directions, or both none.
pub choose_direction-opposite :
    (ours theirs : Bool) (our_rand their_rand : ℕ)
    → our_rand ≢ their_rand
    → choose_direction theirs ours their_rand our_rand
      ≡ opposite (choose_direction ours theirs our_rand their_rand)
unfolding choose_direction
choose_direction-opposite true true a b h = ground arith
choose_direction-opposite true false a b h = refl
choose_direction-opposite false true a b h = refl
choose_direction-opposite false false a b h = refl

-- If the numbers are equal and both want to download, both decide to send.
pub choose_direction-tie : (rand : ℕ) → choose_direction true true rand rand ≡ some send
unfolding choose_direction
choose_direction-tie rand = ground arith

-- The end of the block that $UGetBlock and $ADCGET ask for stands between its offset and the end
-- of the file, if offset and length have no overflow in 64 bits or the whole file is asked for. If
-- they have one and the sum that is left is below the size of the file, the end stands in front of
-- the offset.
pub block_end_lem :
    (offset numbytes size : ℕ)
    → offset ≤ size
    → size < 2 ^ 64
    → numbytes < 2 ^ 64
    → (offset + numbytes < 2 ^ 64
        → (offset ≤ block_end offset numbytes size) × (block_end offset numbytes size ≤ size))
      × (block_end offset (2 ^ 64 - 1) size ≡ size)
      × (2 ^ 64 ≤ offset + numbytes
          → numbytes ≢ 2 ^ 64 - 1
          → (offset + numbytes) % 2 ^ 64 < size
          → block_end offset numbytes size < offset)
unfolding block_end
block_end_lem offset numbytes size h hs hn =
    (λ fits. (ground arith, ground arith), ground arith, λ over all low. ground arith)
