-- ===== src/User/Commands.antt =====
-- src/user.c: user_handle_command as a whole, on commands and on the data of a file.
use microdc.Prelude.{ℕ, ◌≤◌, ◌==◌, ◌≡◌, ◌≢◌, refl, ap, sym, ◌∙◌, arith, ==_iff, true, false, length}
use microdc.Prelude.Text.{Bytes}
use microdc.Prelude.Exec.{◌>>=◌, when}
use microdc.Prelude.Exec.Triple.{
  Triple, Triple-stop, Triple-gets, Triple-bind, Triple-if, Triple-when, Triple-front, Triple-back,
  Triple-call,
}
use microdc.User.State.{data_recv, Conn, read_core, is_state}
use microdc.User.Stable.{
  Holds, Dying, Lasting, Keeps-Leaves, Leaves-read_core, Leaves-bind, Leaves-when, Triple-change,
  Leaves-ask, Leaves-warn, Leaves-send_user_status, terminate_process-stops,
}
use microdc.User.Files.{View, At, Leaves-end_download}
use microdc.User.Requests.{Turns, end_then_next}
use microdc.User.Download.{download_next_file, receive_data, end_download}
use microdc.User.Command.{user_handle_command}
use microdc.User.Protocol.{In, is_state-eq}
use microdc.User.Transfers.{Serves, dispatch-Turns}

different : (p z p' z' : ℕ) → p ≡ p' → z ≡ z' → (p' == z') ≡ false → p ≢ z
different p z p' z' h g e = ground arith

module _ (P J F G U : View) (serves : Serves P J F G U) where
  -- what follows the write of data
  receive_rest :
      Triple
        (Holds (At (In data_recv G)))
        (read_core (λ k. k) >>= λ k.
          when (k.file_pos == k.file_size) (end_download true >>= λ _. download_next_file))
        (λ _. Holds (At J))
        (Holds (At J))
  unfolding read_core
  receive_rest =
      Triple-bind {Q = λ k c. Holds (At (In data_recv G)) c × (c.core ≡ k)}
        (Triple-gets _ λ c p. (p, refl))
        λ k.
          Triple-when (k.file_pos == k.file_size) _
            (λ e.
              Triple-front
                (λ c p. record {
                  holds = serves.finished p.0.holds.0 (
                      ap (λ k. k.file_pos) p.1
                      ∙ (==_iff _ _).0 e
                      ∙ sym (ap (λ k. k.file_size) p.1));
                })
                (end_then_next F J serves.carries.asks true))
            (λ e c p. record {
              holds = rw p.0.holds.1 (
                  serves.unfinished (rw (← p.0.holds.1) p.0.holds.0)
                    (different _ _ _ _ (ap (λ k. k.file_pos) p.1) (ap (λ k. k.file_size) p.1) e));
            })

  -- In front of data: no more than is expected.
  abbrev Fits : ℕ → View
  Fits n r s d p z = P r s d p z × (s ≡ data_recv) × (r ≡ true → n ≤ d)

  Fits-Lasting : (n : ℕ) → Lasting (At (Fits n))
  Fits-Lasting n = record { dies = λ r k h. (serves.greets.fates.dies h.0, h.1, λ e. ground arith) }

  G-Lasting : Lasting (At (In data_recv G))
  G-Lasting = record { dies = λ r k h. (serves.carries.G_dies h.0, h.1) }

  pub receive_data-Turns : (bytes : Bytes) → Turns (Fits (length bytes)) J (receive_data bytes)
  unfolding receive_data
  receive_data-Turns bytes =
      let lasting = Fits-Lasting (length bytes) in
      let over : (c : Conn) → Dying (At (Fits (length bytes))) c → Holds (At J) c =
        λ c h. record { holds = serves.stays h.0.holds.0 } in
      Triple-bind (Triple-back (λ _ s h. h) over (Leaves-ask _)) λ write.
        Triple-bind
          (Triple-back (λ _ s h. h) over
            (Leaves-when _ (
              Leaves-bind (Leaves-warn lasting) λ _.
                Leaves-bind (Leaves-end_download (Fits (length bytes)) lasting false)
                  λ _. Triple-bind (terminate_process-stops lasting) λ _. Triple-stop (λ s h. h))))
          λ _.
            Triple-bind
              (Triple-change {I' = At (In data_recv G)} _
                λ r k h. (rw h.1 (serves.received (length bytes) h.2 (rw (← h.1) h.0)), h.1))
              λ _.
                Triple-bind
                  (Triple-back (λ _ s h. h)
                    (λ c h. record {
                      holds = rw h.1 (serves.carries.G_over (rw (← h.1) h.0.holds.0));
                    })
                    (Leaves-read_core _))
                  λ pos.
                    Triple-bind (Triple-call (Keeps-Leaves (Leaves-send_user_status G-Lasting pos)))
                      λ _. receive_rest

  -- `buf` is a command, or data that is expected.
  pub command_lem :
      (buf : Bytes)
      → Triple
          (λ c.
            Holds (At P) c
            × (c.user_running ≡ true → c.user_state ≡ data_recv → length buf ≤ c.data_size))
          (user_handle_command buf)
          (λ _. Holds (At J))
          (Holds (At J))
  unfolding user_handle_command read_core
  command_lem buf =
      Triple-bind
        {Q = λ now c.
          (Holds (At P) c
            × (c.user_running ≡ true → c.user_state ≡ data_recv → length buf ≤ c.data_size))
          × (c.user_state ≡ now)}
        (Triple-gets _ λ c p. (p, refl))
        λ now.
          Triple-if (is_state now data_recv) _ _
            (λ e.
              Triple-front
                (λ c p.
                  let here = p.1 ∙ is_state-eq now data_recv e in
                  record { holds = (p.0.0.holds, here, λ running. p.0.1 running here) })
                (receive_data-Turns buf))
            (λ _. Triple-front (λ c p. p.0.0) (dispatch-Turns P J F G U serves buf))
