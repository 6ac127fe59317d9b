-- ===== src/User/Framing.antt =====
-- src/user.c: how the receive queue is cut into commands and data. user_input_available goes by
-- data_size, and user_handle_command by the state; that these agree is an invariant.
use microdc.Prelude.{
  ℕ, ◌+◌, ◌%◌, ◌^◌, ◌<◌, ◌≤◌, ◌≡◌, ◌≢◌, refl, arith, Bool, true, false, Option, none, some, length,
  ◌||◌,
}
use microdc.Prelude.Text.{Bytes}
use microdc.Prelude.Exec.Triple.{Post}
use microdc.User.State.{
  UserState, key, get, send_get, file_length, data_recv, data_send, Conn, is_state,
}
use microdc.User.Stable.{Holds}
use microdc.User.Files.{View, At}
use microdc.User.Sending.{Sends}
use microdc.User.Download.{word, word_sub}
use microdc.User.Command.{user_handle_command}
use microdc.User.Protocol.{Greets}
use microdc.User.Receiving.{Carries}
use microdc.User.Transfers.{Serves}
use microdc.User.Commands.{command_lem}

-- While data is received, data_size bytes are missing from position file_pos to file_size, and at
-- least one; in the other states data_size is 0.
abbrev pub Phase : UserState → ℕ → ℕ → ℕ → Type 0
Phase data_recv d p z =
    (0 < d) × (d < 2 ^ 64) × (p < 2 ^ 64) × (z < 2 ^ 64) × ((p + d) % 2 ^ 64 ≡ z)
Phase file_length d p z = (d ≡ 0) × (p < 2 ^ 64) × (z < 2 ^ 64)
Phase _ d p z = d ≡ 0

abbrev pub Framed : View
Framed r s d p z = r ≡ true → Phase s d p z

-- the same of a connection
pub record IsFramed (c : Conn) : Type 0 where
  pub phase : c.user_running ≡ true → Phase c.user_state c.data_size c.file_pos c.file_size

abbrev pub Opening : View
Opening r s d p z = r ≡ true → (d ≡ 0) × (p < 2 ^ 64) × (z < 2 ^ 64)

abbrev pub Measured : View
Measured r s d p z = r ≡ true → (d < 2 ^ 64) × (p < 2 ^ 64) × (z < 2 ^ 64) × ((p + d) % 2 ^ 64 ≡ z)

abbrev pub is_sender : UserState → Bool
is_sender s = is_state s get || is_state s send_get || is_state s data_send

abbrev pub Uploading : View
Uploading r s d p z = r ≡ true → (d ≡ 0) × (is_sender s ≡ true)

pub no-run : {A : Type 0} → false ≡ true → A
no-run e = absurd (ground arith)

in_state : {s : UserState} (x : UserState) (d p z : ℕ) → s ≡ x → Phase s d p z → Phase x d p z
in_state x d p z h phase = rw (← h) phase

framed-Greets : Greets Framed Framed
framed-Greets = record {
  fates = record { dies = λ h e. no-run e; dead = λ h. h };
  nick_known = λ h. h;
  lock_answered = λ h. h;
  supports_known = λ h. h;
  direction_known = λ h. h;
  may_send = λ h. h;
  may_ask = record {
    front = record { dies = λ r k h. (λ e. no-run e, h.1) };
    over = λ h e. no-run e;
    asked = λ p' z' h hp hz e. (in_state key _ _ _ h.1 (h.0 e), hp, hz);
  };
}

measure :
    (p z : ℕ)
    → p < 2 ^ 64
    → z < 2 ^ 64
    → (word_sub z p < 2 ^ 64) × (p < 2 ^ 64) × (z < 2 ^ 64) × ((p + word_sub z p) % 2 ^ 64 ≡ z)
measure p z hp hz = omega arith

-- what is missing of a file, as a number and by the position
abbrev Missing : ℕ → ℕ → ℕ → Type 0
Missing d p z = (d < 2 ^ 64) × (p < 2 ^ 64) × (z < 2 ^ 64) × ((p + d) % 2 ^ 64 ≡ z)

still-Missing : (d p z : ℕ) → Missing d p z → d ≢ 0 → Phase data_recv d p z
still-Missing d p z h nonzero = (ground arith, h.0, h.1, h.2, h.3)

write_data : (d p z n : ℕ) → n ≤ d → Phase data_recv d p z → Missing (word_sub d n) (word (p + n)) z
write_data d p z n fits h = omega arith

all_there : (d p z : ℕ) → Missing d p z → p ≡ z → (d ≡ 0) × (p < 2 ^ 64) × (z < 2 ^ 64)
all_there d p z h here = omega arith

some-Missing : (d p z : ℕ) → Missing d p z → p ≢ z → Phase data_recv d p z
some-Missing d p z h elsewhere = still-Missing d p z h (λ none_left. elsewhere (omega arith))

framed-Carries : Carries Framed Framed Opening Measured
framed-Carries = record {
  asks = record {
    front = record { dies = λ r k h e. no-run e };
    over = λ h e. no-run e;
    asked = λ p' z' h hp hz e. ((h e).0, hp, hz);
  };
  enters = λ h e. h e;
  sized = λ z' h hz e. ((h e).0, (h e).1, hz);
  measured = λ h e. measure _ _ (h e).1 (h e).2;
  G_over = λ h e. no-run e;
  G_dies = λ h e. no-run e;
  done = λ h e. (refl, (h e).1, (h e).2);
  begun = λ h nonzero e. still-Missing _ _ _ (h e) nonzero;
}

framed-Sends : Sends Uploading
framed-Sends = record {
  lasting = record { dies = λ r k h e. no-run e };
  opened = λ p' z' h e. ((h e).0, refl);
  ended = λ h e. ((h e).0, refl);
  started = λ h e. ((h e).0, refl);
}

uploading-Phase : (s : UserState) (d p z : ℕ) → d ≡ 0 → is_sender s ≡ true → Phase s d p z
uploading-Phase get d p z h e = h
uploading-Phase send_get d p z h e = h
uploading-Phase data_send d p z h e = h
uploading-Phase _ d p z h e = absurd (ground arith)

waiting-Phase :
    (s : UserState) (d p z : ℕ)
    → (is_state s send_get || is_state s get) ≡ true
    → Phase s d p z
    → (d ≡ 0) × (is_sender s ≡ true)
waiting-Phase get d p z e h = (h, refl)
waiting-Phase send_get d p z e h = (h, refl)
waiting-Phase _ d p z e h = absurd (ground arith)

pub framed-Serves : Serves Framed Framed Opening Measured Uploading
framed-Serves = record {
  greets = framed-Greets;
  stays = λ h. h;
  carries = framed-Carries;
  sends = framed-Sends;
  uploads = λ s ok h e. waiting-Phase s _ _ _ ok (h e);
  uploaded = λ h e. uploading-Phase _ _ _ _ (h e).0 (h e).1;
  received = λ n fits h e. write_data _ _ _ n (fits e) (h e);
  finished = λ h here e. all_there _ _ _ (h e) here;
  unfinished = λ h elsewhere e. some-Missing _ _ _ (h e) elsewhere;
}

pub outcome : {A : Type 0} (Q : Conn → Type 0) (r : Option A) (c : Conn) → Post (λ _. Q) Q r c → Q c
outcome Q none c h = h
outcome Q (some a) c h = h

-- user_handle_command keeps the agreement of data_size and the state: if it holds in front of a
-- command, or in front of at most data_size bytes of data, it holds behind, on each path.
pub command-IsFramed :
    (buf : Bytes) (c : Conn)
    → IsFramed c
    → (c.user_running ≡ true → c.user_state ≡ data_recv → length buf ≤ c.data_size)
    → IsFramed (user_handle_command buf c).1
command-IsFramed buf c framed fits =
    let t = command_lem Framed Framed Opening Measured Uploading framed-Serves buf in
    let h = outcome (Holds (At Framed)) _ _ (t.at c (record { holds = framed.phase }, fits)) in
    record { phase = h.holds }
