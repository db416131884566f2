-- ===== src/Messaging.antt =====
-- Messages between servers, src/messaging.c: what is published through a relay, and who is told.
-- ZeroMQ is a parameter: a socket is a number, what is sent on it is kept in order, and whether the
-- next sends succeed is part of the state, as is what a poll gives.
pub mod Life
pub mod Poll
pub mod Route
pub mod Republish
use gusher.Base.{
  ℕ, zero, suc, ◌+◌, ◌-◌, Bool, true, false, Bytes, List, [], ◌∷◌, ◌++◌, length, get_elem?, take,
  drop, leb, ◌==◌, Option, none, some, Run, ok, fault, thrown, out_of_fuel, if◌then◌else◌,
}
use gusher.Buffer.{scan}
use gusher.Butter.{to_s}
use gusher.CString.{codes}
use gusher.Effect.{M, pure, lift, ◌>>=◌, ◌>>◌}
use gusher.Gtime.{Calendar}
use gusher.Json.{Json, json_encode, json_decode}
use gusher.Scheme.{Scm, null, boolean, exact, inexact, string, symbol, pair, timestamp, other}

abbrev pub max_key_len : ℕ
max_key_len = 128

-- `SOCK_NODE`, with the subscription of its socket; no code writes its `key`.
pub record SockNode (H : Type 0) : Type 0 where
  pub msg_sock : ℕ
  pub poll : Bool
  pub responder : H
  pub subscription : Bytes

-- The statics, and what ZeroMQ and the responders have been given.
pub record Messaging (D H : Type 0) : Type 0 where
  pub ctx : Bool
  pub msg_queue : List (Bytes × Scm D)
  pub publisher : Option ℕ
  pub relay : Option ℕ
  pub rclient : Option ℕ
  pub sock_nodes : List (SockNode H)
  pub responders : List (Option (SockNode H))
  pub poll_dirty : Bool
  pub poll_items : ℕ
  pub relay_mutex : Bool
  pub sends : List Bool
  pub sent : List (ℕ × Bytes)
  pub calls : List (H × Scm D)

-- What the code takes from other files and their libraries.
pub record Library (D : Type 0) : Type 0 where
  pub cal : Calendar
  pub json_dumps : Json D → Option Bytes
  pub json_loads : Bytes → Option (Json D)
  pub number_to_string : Scm D → Bytes

module _ {D : Type 0} where
  -- `touch_msg`
  abbrev pub touch_msg : Scm D
  touch_msg = pair (pair (symbol (codes "touch")) (string (codes "touch"))) null

  abbrev pub msg_or_touch : Option (Scm D) → Scm D
  msg_or_touch none = touch_msg
  msg_or_touch (some msg) = msg

  abbrev pub text_of : Scm D → Run Bytes
  text_of (string s) = ok s
  text_of _ = thrown

  module _ (lib : Library D) where
    abbrev pub encoded : Option Bytes → Scm D → Run Bytes
    encoded none msg = text_of (to_s lib.number_to_string msg)
    encoded (some enc) msg = ok enc

    abbrev payload_from : Run (Option Bytes) → Scm D → Run Bytes
    payload_from (ok enc) msg = encoded enc msg
    payload_from fault msg = fault
    payload_from thrown msg = thrown
    payload_from out_of_fuel msg = out_of_fuel

    -- `payload`
    unfoldable pub message_text : Scm D → Run Bytes
    message_text msg = payload_from (json_encode lib.cal lib.json_dumps msg) msg

-- `sprintf` into a buffer of the payload's length and MAX_KEY_LEN and 2.
unfoldable pub keyed_msg : Bytes → Bytes → Run Bytes
keyed_msg sname payload =
    if leb (length sname + 1 + length payload + 1) (length payload + max_key_len + 2)
    then ok (sname ++ b':' ∷ payload)
    else fault

abbrev pub payload_in : Bytes → Option ℕ → Bytes
payload_in msg none = msg
payload_in msg (some p) = drop (suc p) msg

abbrev pub is_sock : Option ℕ → ℕ → Bool
is_sock none sock = false
is_sock (some own) sock = sock == own

module _ {D H : Type 0} where
  abbrev take_send : Bool → ℕ → Bytes → List Bool → Messaging D H → Bool × Messaging D H
  take_send true sock msg sends st =
      (true, record st { sends = sends; sent = st.sent ++ (sock, msg) ∷ [] })
  take_send false sock msg sends st = (false, record st { sends = sends })

  -- `zmq_send(sock, msg, length, 0) >= 0`. A send on no socket fails.
  abbrev pub zmq_send : Option ℕ → Bytes → Messaging D H → Bool × Messaging D H
  zmq_send none msg st = (false, st)
  zmq_send (some sock) msg st = elim st.sends [
    | [] ↦ (false, st)
    | sends_now ∷ sends ↦ take_send sends_now sock msg sends st
  ]

  -- A mutex that this thread holds already raises an exception.
  abbrev pub lock_mutex : M (Messaging D H) (Unit {0})
  lock_mutex st = if st.relay_mutex then (thrown, st) else (ok tt, record st { relay_mutex = true })

  abbrev pub unlock_mutex : M (Messaging D H) (Unit {0})
  unlock_mutex st = (ok tt, record st { relay_mutex = false })

  abbrev pub keep_msg : Bytes → Scm D → M (Messaging D H) (Unit {0})
  keep_msg sigkey msg st = (ok tt, record st { msg_queue = (sigkey, msg) ∷ st.msg_queue })

  module _ (lib : Library D) where
    abbrev try_send : Bytes → Scm D → Bytes → M (Messaging D H) Bool
    try_send sigkey msg keyed st =
        let (done, next) = zmq_send st.rclient keyed st in
        elim done [
          | true ↦ (ok true, next)
          | false ↦ (lock_mutex >> keep_msg sigkey msg >> unlock_mutex >> pure false) next
        ]

    -- `msg_publish`
    unfoldable pub msg_publish : Bytes → Option (Scm D) → M (Messaging D H) Bool
    msg_publish sigkey msg = do
      payload ← lift (message_text lib (msg_or_touch msg))
      keyed ← lift (keyed_msg sigkey payload)
      try_send sigkey (msg_or_touch msg) keyed

  -- `msg_subscribe`, with the socket that `zmq_socket` gives.
  unfoldable pub msg_subscribe : ℕ → Bytes → H → Messaging D H → Messaging D H
  msg_subscribe sock sname responder st = record st {
    sock_nodes =
        (record {
          msg_sock = sock;
          poll = true;
          responder = responder;
          subscription = take (max_key_len - 1) (sname ++ b':' ∷ []);
        })
        ∷ st.sock_nodes;
    poll_dirty = true;
  }

  -- `relay_to_publisher`; what the sends give is not looked at.
  unfoldable pub relay_to_publisher : Bytes → Messaging D H → Messaging D H
  relay_to_publisher msg st = (zmq_send st.relay msg (zmq_send st.publisher msg st).1).1

  module _ (lib : Library D) where
    abbrev pop_msg : List (Bytes × Scm D) → M (Messaging D H) (Unit {0})
    pop_msg [] st = (ok tt, st)
    pop_msg ((sigkey, msg) ∷ queue) st =
        (lock_mutex
            >> (λ st. (ok tt, record st { msg_queue = queue }))
            >> (msg_publish lib sigkey (some msg) >>= λ done. unlock_mutex))
          st

    -- `recv_relay_reply`, but for what it logs.
    unfoldable pub recv_relay_reply : M (Messaging D H) (Unit {0})
    recv_relay_reply st = pop_msg st.msg_queue st

    abbrev pub call_responder : H → Scm D → M (Messaging D H) (Unit {0})
    call_responder responder obj st =
        (ok tt, record st { calls = st.calls ++ (responder, obj) ∷ [] })

    -- `recv_subscribed_msg`. `index` looks for the colon in bytes that no NUL ends.
    unfoldable pub recv_subscribed_msg : Bytes → SockNode H → M (Messaging D H) (Unit {0})
    recv_subscribed_msg msg node = do
      colon ← lift (scan msg 0 b':')
      call_responder node.responder (json_decode lib.json_loads (payload_in msg colon))

    abbrev to_node : Bytes → Option (Option (SockNode H)) → M (Messaging D H) (Unit {0})
    to_node msg (some (some node)) = recv_subscribed_msg msg node
    to_node msg _ = lift fault

    -- What `msg_process` does with a message from the socket of the item at `i` behind `start`.
    unfoldable pub route_msg : ℕ → ℕ → Bytes → M (Messaging D H) (Unit {0})
    route_msg i sock msg st =
        if is_sock st.relay sock
        then (ok tt, relay_to_publisher msg st)
        else if is_sock st.rclient sock
        then recv_relay_reply st
        else to_node msg (get_elem? st.responders i) st

    -- `msg_process` on the items from `start` on, with what each one's socket gives: nothing, an
    -- error, or a message.
    unfoldable pub msg_process : ℕ → List (ℕ × Option (Option Bytes)) → M (Messaging D H) (Unit {0})
    msg_process i [] = pure tt
    msg_process i ((sock, none) ∷ polls) = msg_process (suc i) polls
    msg_process i ((sock, some none) ∷ polls) = msg_process (suc i) polls
    msg_process i ((sock, some (some msg)) ∷ polls) = do
      route_msg i sock msg
      msg_process (suc i) polls
