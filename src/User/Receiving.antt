-- ===== src/User/Receiving.antt =====
-- src/user.c: how a download is opened, for any property that goes along with it.
use microdc.Prelude.{
  ℕ, ◌-◌, ◌^◌, ◌<◌, ◌==◌, ltb, ◌≡◌, ◌≢◌, refl, ◌∙◌, arith, ==_iff, Bool, true, false, if◌then◌else◌,
}
use microdc.Prelude.Exec.{Exec, ◌>>=◌, ◌>>◌, when}
use microdc.Prelude.Exec.Triple.{
  Triple, Triple-gets, Triple-bind, Triple-if, Triple-when, Triple-front, Triple-back,
}
use microdc.User.State.{UserState, file_length, data_recv, Conn, change, read_core}
use microdc.User.Comm.{warn}
use microdc.User.Stable.{
  Holds, Leaves, Leaves-read_core, Leaves-read_env, Leaves-change, Triple-change, Leaves-ask,
  Leaves-report, Leaves-warn, Leaves-user_putf,
}
use microdc.User.Files.{View, At}
use microdc.User.Requests.{Asks, or_end, end_then_next, skip_download-stops, gone}
use microdc.User.Download.{
  word, word_sub, download_next_file, check_size, open_local, open_download_file, skip_download,
  end_download,
}

-- What the transfers need. `F` holds while a download is opened, and `G` once data_size is set.
pub record Carries (P J F G : View) : Type 0 where
  pub asks : Asks F J
  pub enters : {r : Bool} {d p z : ℕ} → P r file_length d p z → F r file_length d p z
  pub sized :
      {r : Bool} {s : UserState} {d p z : ℕ} (z' : ℕ) → F r s d p z → z' < 2 ^ 64 → F r s d p z'
  pub measured : {r : Bool} {s : UserState} {d p z : ℕ} → F r s d p z → G r s (word_sub z p) p z
  pub G_over : {s : UserState} {d p z : ℕ} → G false s d p z → J false s d p z
  pub G_dies : {r : Bool} {s : UserState} {d p z : ℕ} → G r s d p z → G false s d p z
  pub done : {r : Bool} {s : UserState} {p z : ℕ} → G r s 0 p z → F r s 0 p z
  pub begun : {r : Bool} {s : UserState} {d p z : ℕ} → G r s d p z → d ≢ 0 → J r data_recv d p z

nonzero : (a b : ℕ) → a ≡ b → (b == 0) ≡ false → a ≢ 0
nonzero a b h e = ground arith

module _ (P J F G : View) (carries : Carries P J F G) where
  check_size-lem :
      (size : ℕ) → Triple (Holds (At F)) (check_size size) (λ _. Holds (At F)) (Holds (At J))
  unfolding check_size
  check_size-lem size =
      Triple-bind (Triple-back (λ _ s h. h) (gone F J carries.asks) (Leaves-read_core _))
        λ expected.
          Triple-if (expected == 2 ^ 64 - 1) _ _
            (λ _. Triple-change _ λ r k h. carries.sized (word size) h (omega arith))
            (λ _.
              Triple-when (ltb size expected) _ (λ _. skip_download-stops F J carries.asks)
                (λ _ s h. h))

  or_skip :
      (b : Bool)
      → Triple (Holds (At F)) (when b (do warn; skip_download)) (λ _. Holds (At F)) (Holds (At J))
  or_skip b =
      Triple-when b _
        (λ _.
          Triple-bind
            (Triple-back (λ _ s h. h) (gone F J carries.asks) (Leaves-warn carries.asks.front))
            λ _. skip_download-stops F J carries.asks)
        (λ _ s h. h)

  leave :
      {A : Type 0} {m : Exec Conn A}
      → Leaves (At F) m
      → Triple (Holds (At F)) m (λ _. Holds (At F)) (Holds (At J))
  leave t = Triple-back (λ _ s h. h) (gone F J carries.asks) t

  open_local-lem : Triple (Holds (At F)) open_local (λ _. Holds (At F)) (Holds (At J))
  unfolding open_local
  open_local-lem = Triple-bind (leave (Leaves-read_core _)) λ k.
      Triple-bind (leave (Leaves-read_env _)) λ e. Triple-bind (leave (Leaves-ask _)) λ opened.
        Triple-bind (leave (Leaves-change _ λ r k h. h))
          λ _. Triple-bind (or_skip _) λ _. Triple-bind (leave (Leaves-ask _)) λ seeks. or_skip _

  -- data_size is set: nothing is left, or the data is received
  begin-lem :
      Triple
        (Holds (At G))
        (read_core (λ k. k.data_size) >>= λ left.
          if left == 0
          then (end_download true >>= λ _. download_next_file)
          else change (λ k. record k { user_state = data_recv }))
        (λ _. Holds (At J))
        (Holds (At J))
  unfolding read_core
  begin-lem =
      Triple-bind {Q = λ left c. Holds (At G) c × (c.data_size ≡ left)}
        (Triple-gets _ λ c p. (p, refl))
        λ left.
          Triple-if (left == 0) _ _
            (λ e.
              Triple-front
                (λ c p. record {
                  holds =
                      let none_left = p.1 ∙ (==_iff left 0).0 e in
                      rw none_left (carries.done (rw (← none_left) p.0.holds));
                })
                (end_then_next F J carries.asks true))
            (λ e.
              Triple-front (λ c p. record { holds = (p.0.holds, nonzero _ _ p.1 e) })
                (Triple-change {I = λ r k. At G r k × (k.data_size ≢ 0)} _
                  λ r k h. carries.begun h.0 h.1))

  pub open_download_file-lem :
      (size : ℕ)
      → Triple (Holds (At F)) (open_download_file size) (λ _. Holds (At J)) (Holds (At J))
  unfolding open_download_file
  open_download_file-lem size = Triple-bind (check_size-lem size) λ _.
      Triple-bind open_local-lem λ _.
        Triple-bind (leave (or_end F J carries.asks (Leaves-user_putf carries.asks.front _))) λ _.
          Triple-bind (leave (Leaves-read_core _)) λ k. Triple-bind (leave (Leaves-read_env _)) λ e.
            Triple-bind (leave (Leaves-report carries.asks.front _))
              λ _. Triple-bind (Triple-change _ λ r k h. carries.measured h) λ _. begin-lem
