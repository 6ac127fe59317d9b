-- ===== src/User/Graph.antt =====
-- src/user.c: the states that one command leads to.
use microdc.Prelude.{◌≤◌, length, ◌≡◌, refl, arith, Bool, true, false, ◌||◌}
use microdc.Prelude.Text.{Bytes}
use microdc.User.State.{
  UserState, disconnected, connect, mynick, lock, direction, supports, key, get, send_get,
  file_length, data_recv, data_send, Conn, is_state,
}
use microdc.User.Stable.{Holds}
use microdc.User.Files.{View, At}
use microdc.User.Sending.{Sends}
use microdc.User.Command.{user_handle_command}
use microdc.User.Protocol.{Greets}
use microdc.User.Receiving.{Carries}
use microdc.User.Transfers.{Serves}
use microdc.User.Commands.{command_lem}
use microdc.User.Framing.{outcome}

-- The protocol: the states that come next.
abbrev pub edge : UserState → UserState → Bool
edge mynick lock = true
edge lock supports = true
edge supports direction = true
edge direction key = true
edge key get = true
edge key file_length = true
edge get send_get = true
edge get data_send = true
edge send_get get = true
edge send_get data_send = true
edge file_length data_recv = true
edge data_recv file_length = true
edge s t = is_state s t

edge_refl : (s : UserState) → edge s s ≡ true
edge_refl disconnected = refl
edge_refl connect = refl
edge_refl mynick = refl
edge_refl lock = refl
edge_refl direction = refl
edge_refl supports = refl
edge_refl key = refl
edge_refl get = refl
edge_refl send_get = refl
edge_refl file_length = refl
edge_refl data_recv = refl
edge_refl data_send = refl

-- the process is, or came, from state `s0`
abbrev From : UserState → View
From s0 r s d p z = s ≡ s0

abbrev Reached : UserState → View
Reached s0 r s d p z = edge s0 s ≡ true

abbrev Receiving : UserState → View
Receiving s0 r s d p z =
    (edge s0 file_length ≡ true) × (edge s0 data_recv ≡ true) × (edge s0 s ≡ true)

abbrev Uploading : UserState → View
Uploading s0 r s d p z =
    (edge s0 get ≡ true)
    × (edge s0 send_get ≡ true)
    × (edge s0 data_send ≡ true)
    × (edge s0 s ≡ true)

from-Reached : (s0 s : UserState) → s ≡ s0 → edge s0 s ≡ true
from-Reached s0 s h = rw h (edge_refl s0)

waiting-Uploading :
    (s : UserState) → (is_state s send_get || is_state s get) ≡ true → Uploading s false s 0 0 0
waiting-Uploading get ok = (refl, refl, refl, refl)
waiting-Uploading send_get ok = (refl, refl, refl, refl)
waiting-Uploading _ ok = absurd (ground arith)

module _ (s0 : UserState) where
  moves-Greets : Greets (From s0) (Reached s0)
  moves-Greets = record {
    fates = record { dies = λ h. h; dead = λ {s} h. from-Reached s0 s h };
    nick_known = λ h. rw (← h) refl;
    lock_answered = λ h. rw (← h) refl;
    supports_known = λ h. rw (← h) refl;
    direction_known = λ h. rw (← h) refl;
    may_send = λ h. rw (← h) refl;
    may_ask = record {
      front = record { dies = λ r k h. h };
      over = λ {s} h. from-Reached s0 s h.0;
      asked = λ p' z' h hp hz. rw (← h.0, h.1) refl;
    };
  }

  moves-Carries : Carries (From s0) (Reached s0) (Receiving s0) (Receiving s0)
  moves-Carries = record {
    asks = record {
      front = record { dies = λ r k h. h };
      over = λ h. h.2;
      asked = λ p' z' h hp hz. h.0;
    };
    enters = λ h. (rw (← h) refl, rw (← h) refl, rw (← h) refl);
    sized = λ z' h hz. h;
    measured = λ h. h;
    G_over = λ h. h.2;
    G_dies = λ h. h;
    done = λ h. h;
    begun = λ h nonzero. h.1;
  }

  moves-Sends : Sends (Uploading s0)
  moves-Sends = record {
    lasting = record { dies = λ r k h. h };
    opened = λ p' z' h. (h.0, h.1, h.2, h.1);
    ended = λ h. (h.0, h.1, h.2, h.0);
    started = λ h. (h.0, h.1, h.2, h.2);
  }

  moves-Serves : Serves (From s0) (Reached s0) (Receiving s0) (Receiving s0) (Uploading s0)
  moves-Serves = record {
    greets = moves-Greets;
    stays = λ {r} {s} h. from-Reached s0 s h;
    carries = moves-Carries;
    sends = moves-Sends;
    uploads = λ s ok h. rw (← h) (waiting-Uploading s ok);
    uploaded = λ h. h.3;
    received = λ n fits h. (rw (← h) refl, rw (← h) refl, rw (← h) refl);
    finished = λ h here. h;
    unfinished = λ h elsewhere. h.1;
  }

-- One command, or one piece of data of an expected length, moves the state along an edge of the
-- protocol or leaves it as it is, on each path.
pub command-edge :
    (buf : Bytes) (c : Conn)
    → (c.user_running ≡ true → c.user_state ≡ data_recv → length buf ≤ c.data_size)
    → edge c.user_state (user_handle_command buf c).1.user_state ≡ true
command-edge buf c fits =
    let s0 = c.user_state in
    let t =
      command_lem (From s0) (Reached s0) (Receiving s0) (Receiving s0) (Uploading s0)
        (moves-Serves s0) buf in
    (outcome (Holds (At (Reached s0))) _ _ (t.at c (record { holds = refl }, fits))).holds
