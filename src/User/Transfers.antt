-- ===== src/User/Transfers.antt =====
-- src/user.c: the commands that transfer files, for any property that goes along with the
-- transitions of the protocol.
use microdc.Prelude.{
  ℕ, ◌+◌, ◌≤◌, ◌==◌, ◌||◌, not, ◌≡◌, ◌≢◌, refl, ◌∙◌, arith, Bool, true, false, Option, none, some,
  [], ◌∷◌, length, if◌then◌else◌,
}
use microdc.Prelude.Text.{Bytes, codes, same, starts}
use microdc.Prelude.Exec.{Exec, pure, ◌>>=◌, ◌>>◌, when}
use microdc.Prelude.Exec.Triple.{
  Keeps, Triple-pure, Triple-gets, Triple-bind, Triple-if, Triple-when, Triple-front, Triple-back,
  Triple-expect, Triple-or_else, Keeps-when, Keeps-pure, Keeps-if, Keeps-bind, Keeps-expect,
}
use microdc.User.State.{
  UserState, get, send_get, file_length, data_recv, Conn, read_core, read_env, is_state,
}
use microdc.User.Comm.{give_up}
use microdc.User.Stable.{
  Holds, Leaves, Keeps-Leaves, Leaves-read_core, Leaves-read_env, give_up-stops, fault-stops,
  Leaves-screen_writer, Leaves-warn, Leaves-give_up,
}
use microdc.User.Files.{View, At, Leaves-end_download}
use microdc.User.Requests.{Turns, Turns-bind, Turns-terminate, skip_download-stops}
use microdc.User.Sending.{
  Sends, Keeps-end_upload, Keeps-open_upload_file, Keeps-upload_file, Keeps-open_upload_file_block,
  Keeps-open_upload_file_adcget,
}
use microdc.User.Download.{word, word_sub}
use microdc.User.Upload.{end_upload, open_upload_file}
use microdc.User.Command.{
  get_token, get_request, on_get, on_maxed_out, on_file_length, on_error, on_send, check_get,
  on_ugetblock, adcget_numbers, warn_flags, name_start, on_adcget, dispatch,
}
use microdc.User.Protocol.{
  on_mynick-Turns, on_lock-Turns, on_supports-Turns, on_direction-Turns, on_key-Turns, In, Greets,
  is_state-eq, checked, check_state-lem, unless_dead, P-Lasting,
}
use microdc.User.Receiving.{Carries, open_download_file-lem}

-- All that user_handle_command needs. `U` holds while a file is opened and sent.
pub record Serves (P J F G U : View) : Type 0 where
  pub greets : Greets P J
  -- a message that is ignored
  pub stays : {r : Bool} {s : UserState} {d p z : ℕ} → P r s d p z → J r s d p z
  pub carries : Carries P J F G
  pub sends : Sends U
  pub uploads :
      {r : Bool} {d p z : ℕ} (s : UserState)
      → (is_state s send_get || is_state s get) ≡ true
      → P r s d p z
      → U r s d p z
  pub uploaded : {r : Bool} {s : UserState} {d p z : ℕ} → U r s d p z → J r s d p z
  -- `n` bytes of data are written
  pub received :
      {r : Bool} {d p z : ℕ} (n : ℕ)
      → (r ≡ true → n ≤ d)
      → P r data_recv d p z
      → G r data_recv (word_sub d n) (word (p + n)) z
  pub finished : {r : Bool} {s : UserState} {d p z : ℕ} → G r s d p z → p ≡ z → F r s d p z
  pub unfinished : {r : Bool} {d p z : ℕ} → G r data_recv d p z → p ≢ z → J r data_recv d p z

not-false : (a : Bool) → not a ≡ false → a ≡ true
not-false a h = ground arith

module _ (P J F G U : View) (serves : Serves P J F G U) where
  -- what sends a file, in one of the states that allow it
  upload :
      (x : UserState) (ok : (is_state x send_get || is_state x get) ≡ true) {m : Exec Conn Unit}
      → Keeps (Holds (At U)) m
      → Turns (In x P) J m
  upload x ok t =
      Triple-front
        (λ c p. record { holds = rw p.holds.1 (serves.uploads x ok (rw (← p.holds.1) p.holds.0)) })
        (Triple-back (λ _ c p. out c p) out t)
    where
      out : (c : Conn) → Holds (At U) c → Holds (At J) c
      out c p = record { holds = serves.uploaded p.holds }

  sent_by : {A : Type 0} {m : Exec Conn A} → Leaves (At U) m → Keeps (Holds (At U)) m
  sent_by t = Keeps-Leaves t

  given_up : {A : Type 0} → Keeps (Holds (At U)) (give_up {A = A})
  given_up = Keeps-Leaves (Leaves-give_up serves.sends.lasting)

  on_send-Turns : Turns P J on_send
  unfolding on_send
  on_send-Turns =
      checked P J serves.greets.fates send_get
        (upload send_get refl (Keeps-upload_file U serves.sends))

  get_token-Keeps :
      (unnamed : Bool) (cut : Option (Bytes × Bytes)) → Keeps (Holds (At U)) (get_token unnamed cut)
  get_token-Keeps unnamed none =
      Keeps-bind (sent_by (Leaves-warn serves.sends.lasting)) λ _. Keeps-pure _
  get_token-Keeps true (some cut) = Keeps-pure _
  get_token-Keeps false (some cut) =
      Keeps-bind (Keeps-when _ given_up)
        λ _. Keeps-bind (Keeps-expect _ given_up) λ offset. Keeps-pure _

  get_rest :
      (text : Bytes)
      → Keeps (Holds (At U)) (do
        (name, offset) ← get_request text
        now' ← read_core (λ k. k.user_state)
        when (is_state now' send_get) (end_upload false)
        conv ← read_env (λ e. e.utf8_to_main name)
        when (not (length name == 0)) (open_upload_file conv offset))
  unfolding get_request
  get_rest text = Keeps-bind (get_token-Keeps _ _) λ request.
      Keeps-bind (sent_by (Leaves-read_core _)) λ now'.
        Keeps-bind (Keeps-when _ (Keeps-end_upload U serves.sends false)) λ _.
          Keeps-bind (sent_by (Leaves-read_env _))
            λ conv. Keeps-when _ (Keeps-open_upload_file U serves.sends conv request.1)

  sent_out : {A : Type 0} {m : Exec Conn A} → Keeps (Holds (At U)) m → Turns U J m
  sent_out t = Triple-back (λ _ c p. out c p) out t
    where
      out : (c : Conn) → Holds (At U) c → Holds (At J) c
      out c p = record { holds = serves.uploaded p.holds }

  on_get-Turns : (buf : Bytes) → Turns P J (on_get buf)
  unfolding on_get read_core
  on_get-Turns buf =
      Triple-bind {Q = λ now c. Holds (At P) c × (c.user_state ≡ now)}
        (Triple-gets _ λ c p. (p, refl))
        λ now.
          Triple-bind {Q = λ _. Holds (At U)}
            (Triple-when _ _
              (λ _.
                Triple-front (λ c p. p.0)
                  (Triple-back (λ _ s h. h) (unless_dead P J serves.greets.fates)
                    (give_up-stops (P-Lasting P J serves.greets.fates))))
              (λ e c p. record {
                holds = rw p.1 (serves.uploads now (not-false _ e) (rw (← p.1) p.0.holds));
              }))
            λ _. sent_out (get_rest _)

  -- check_state and, if it fails, a second refusal
  got : {m : Exec Conn Unit} → Keeps (Holds (At U)) m → Turns P J (check_get >>= λ _. m)
  unfolding check_get
  got t =
      let twice =
        Triple-back (λ _ c p. unless_dead P J serves.greets.fates c p)
          (unless_dead P J serves.greets.fates)
          (give_up-stops (P-Lasting P J serves.greets.fates)) in
      Triple-bind
        (Triple-or_else (check_state-lem P J serves.greets.fates get)
          (Triple-front (λ c p. p.0) twice))
        λ _. upload get refl t

  flags-Keeps : (flags : Option Bytes) → Keeps (Holds (At U)) (warn_flags flags)
  unfolding warn_flags
  flags-Keeps none = Keeps-pure tt
  flags-Keeps (some flags) = sent_by (Leaves-warn serves.sends.lasting)

  numbers-Keeps : (text : Bytes) → Keeps (Holds (At U)) (adcget_numbers text)
  unfolding adcget_numbers
  numbers-Keeps text = Keeps-bind (Keeps-expect _ given_up) λ numbers.
      Keeps-bind (Keeps-expect _ given_up) λ start.
        Keeps-bind (Keeps-expect _ given_up) λ count. Keeps-bind (flags-Keeps _) λ _. Keeps-pure _

  on_ugetblock-Turns : (buf : Bytes) → Turns P J (on_ugetblock buf)
  unfolding on_ugetblock
  on_ugetblock-Turns buf = got (
      Keeps-bind (sent_by (Leaves-read_env _)) λ scan. Keeps-bind (Keeps-expect _ given_up) λ block.
        Keeps-bind (Keeps-when _ (Keeps-Leaves (fault-stops serves.sends.lasting))) λ _.
          Keeps-bind (sent_by (Leaves-read_env _)) λ conv.
            Keeps-bind (sent_by (Leaves-screen_writer serves.sends.lasting))
              λ _. Keeps-open_upload_file_block U serves.sends conv block.0 block.1)

  name_start-Keeps : (text : Bytes) → Keeps (Holds (At U)) (name_start text)
  unfolding name_start
  name_start-Keeps [] = Keeps-Leaves (fault-stops serves.sends.lasting)
  name_start-Keeps (b ∷ s) = Keeps-if (b == b' ') _ _ given_up (Keeps-pure _)

  on_adcget-Turns : (buf : Bytes) → Turns P J (on_adcget buf)
  unfolding on_adcget
  on_adcget-Turns buf = got (
      Keeps-bind (Keeps-when _ given_up) λ _. Keeps-bind (Keeps-expect _ given_up) λ text.
        Keeps-bind (name_start-Keeps text) λ start. Keeps-bind (Keeps-expect _ given_up) λ name.
          Keeps-bind (numbers-Keeps name.1)
            λ numbers. Keeps-open_upload_file_adcget U serves.sends _ _ numbers.0 numbers.1)

  -- in state DC_USER_FILE_LENGTH
  expecting : {m : Exec Conn Unit} → Turns F J m → Turns (In file_length P) J m
  expecting t =
      Triple-front
        (λ c p. record {
          holds = rw p.holds.1 (serves.carries.enters (rw (← p.holds.1) p.holds.0));
        })
        t

  on_file_length-Turns : (buf : Bytes) → Turns P J (on_file_length buf)
  unfolding on_file_length
  on_file_length-Turns buf = checked P J serves.greets.fates file_length (
      expecting (
        Triple-bind (Triple-expect _ (λ a e s p. p) (skip_download-stops F J serves.carries.asks))
          λ size. open_download_file-lem P J F G serves.carries size))

  on_maxed_out-Turns : Turns P J on_maxed_out
  unfolding on_maxed_out
  on_maxed_out-Turns = checked P J serves.greets.fates file_length (
      expecting (
        Turns-bind F J serves.carries.asks (Leaves-end_download F serves.carries.asks.front false)
          λ _. Turns-terminate F J serves.carries.asks))

  on_error-Turns : Turns P J on_error
  unfolding on_error read_core
  on_error-Turns =
      Triple-bind {Q = λ now c. Holds (At P) c × (c.user_state ≡ now)}
        (Triple-gets _ λ c p. (p, refl))
        λ now.
          Triple-if (is_state now file_length) _ _
            (λ e.
              Triple-front
                (λ c p. record { holds = (p.0.holds, p.1 ∙ is_state-eq now file_length e) })
                (expecting (skip_download-stops F J serves.carries.asks)))
            (λ _.
              Triple-front (λ c p. p.0)
                (Triple-back (λ _ s h. h) (unless_dead P J serves.greets.fates)
                  (give_up-stops (P-Lasting P J serves.greets.fates))))

  ignored : Turns P J (pure tt)
  ignored = Triple-pure tt λ c p. record { holds = serves.stays p.holds }

  -- one branch of dispatch
  branch :
      (b : Bool) {m n : Exec Conn Unit} → Turns P J m → Turns P J n → Turns P J (if b then m else n)
  branch b {m} {n} h g = Triple-if b m n (λ _. h) (λ _. g)

  pub dispatch-Turns : (buf : Bytes) → Turns P J (dispatch buf)
  unfolding dispatch
  dispatch-Turns buf =
      branch (starts (codes "$MyNick ") buf)
        (on_mynick-Turns P J serves.greets.fates (λ r d p z. serves.greets.nick_known) buf)
        (branch (starts (codes "$Lock ") buf)
          (on_lock-Turns P J serves.greets.fates (λ r d p z. serves.greets.lock_answered) buf)
          (branch (starts (codes "$Supports ") buf)
            (on_supports-Turns P J serves.greets.fates (λ r d p z. serves.greets.supports_known)
              buf)
            (branch (starts (codes "$Direction ") buf)
              (on_direction-Turns P J serves.greets.fates (λ r d p z. serves.greets.direction_known)
                buf)
              (branch (starts (codes "$Key ") buf)
                (on_key-Turns P J serves.greets.fates (λ r d p z. serves.greets.may_send)
                  serves.greets.may_ask buf)
                (branch (starts (codes "$Get ") buf) (on_get-Turns buf) (
                  branch (same (codes "$MaxedOut") buf) on_maxed_out-Turns (
                    branch (starts (codes "$FileLength ") buf) (on_file_length-Turns buf) (
                      branch (starts (codes "$Error ") buf) on_error-Turns (
                        branch (starts (codes "$Send") buf) on_send-Turns (
                          branch (starts (codes "$UGetBlock ") buf) (on_ugetblock-Turns buf) (
                            branch (starts (codes "$ADCGET ") buf) (on_adcget-Turns buf)
                              ignored)))))))))))
