-- ===== src/Tests/Messages.antt =====
-- Messages of src/messaging.c between servers.
use gusher.Base.{
  ℕ, ◌+◌, length, ◌≡◌, refl, true, false, Bytes, List, [], ◌∷◌, none, some, ok, thrown, arith,
}
use gusher.CString.{codes, strcmp_zero}
use gusher.Json.{
  Json, jobject, member, nil_object, jarray, nil_array, jnull, jboolean, json_build, json_encode,
  parse,
}
use gusher.Json.Mirror.{IsPlain, mirror}
use gusher.Effect.{◌>>◌}
use gusher.Messaging.{
  SockNode, Messaging, Library, message_text, msg_publish, msg_subscribe, msg_process,
  recv_relay_reply,
}
use gusher.Messaging.Life.{init_messaging, shutdown_messaging}
use gusher.Messaging.Poll.{poll_list, msg_poll_collect}
use gusher.Messaging.Poll.Collected.{IsCollected, msg_poll_collect-IsCollected}
use gusher.Messaging.Republish.{
  Posted, publish_all, replies, recv_relay_reply-throws, replies-reverse,
}
use gusher.Messaging.Route.{subscribed, msg_process-delivers}
use gusher.Scheme.{string}
use gusher.Tests.Clock.{calendar}

-- A library that knows one value.
abbrev lib : Library ℕ
lib = record {
  cal = calendar;
  json_dumps = λ j. some (codes "true");
  json_loads = λ text. some (jboolean true);
  number_to_string = λ n. codes "7";
}

abbrev fresh : Messaging ℕ ℕ
fresh = record {
  ctx = false;
  msg_queue = [];
  publisher = none;
  relay = none;
  rclient = none;
  sock_nodes = [];
  responders = none ∷ none ∷ none ∷ none ∷ [];
  poll_dirty = false;
  poll_items = 0;
  relay_mutex = false;
  sends = true ∷ true ∷ [];
  sent = [];
  calls = [];
}

abbrev server : Messaging ℕ ℕ
server = record fresh {
  ctx = true;
  publisher = some 1;
  relay = some 2;
  rclient = some 3;
  poll_dirty = true;
}

server_starts :
    init_messaging
      (record { publisher = 1; relay = 2; rclient = 3; publisher_binds = true; relay_binds = true })
      fresh
    ≡ ([], server)
unfolding init_messaging
server_starts = refl

-- A responder at 9 that is told of `k`.
abbrev node : SockNode ℕ
node = record { msg_sock = 4; poll = true; responder = 9; subscription = codes "k:" }

abbrev subscriber : Messaging ℕ ℕ
subscriber = record server { sock_nodes = node ∷ [] }

subscriber_subscribes : msg_subscribe 4 (codes "k") 9 server ≡ subscriber
unfolding msg_subscribe
subscriber_subscribes = refl

subscriber_stops : (shutdown_messaging subscriber).0 ≡ 1 ∷ 2 ∷ 3 ∷ 4 ∷ []
unfolding shutdown_messaging
subscriber_stops = refl

msg_poll_collect-IsCollected_example :
    (start : ℕ) × (polls : List ℕ) × (next : Messaging ℕ ℕ) × (msg_poll_collect 1
        (7 ∷ 0 ∷ 0 ∷ 0 ∷ 0 ∷ [])
        subscriber
      ≡ ok (start, polls, next))
    × (start ≡ 1 + length (poll_list next))
    × (poll_list next ≡ poll_list subscriber)
    × (next.poll_dirty ≡ false)
    × IsCollected (7 ∷ []) polls next
msg_poll_collect-IsCollected_example =
    msg_poll_collect-IsCollected (7 ∷ []) (0 ∷ 0 ∷ 0 ∷ []) (0 ∷ []) subscriber
      (none ∷ none ∷ none ∷ []) (none ∷ []) refl refl refl (λ clean. cc)

-- The subscriber once its sockets are polled.
abbrev polled : Messaging ℕ ℕ
polled = record subscriber {
  responders = none ∷ none ∷ some node ∷ none ∷ [];
  poll_items = 3;
  poll_dirty = false;
}

-- `{"a": true, "b": []}`, and the same with the members in the other order and no empty array.
abbrev sent_value : Json ℕ
sent_value =
    jobject (member (codes "a") (jboolean true) (member (codes "b") (jarray nil_array) nil_object))

abbrev read_value : Json ℕ
read_value = jobject (member (codes "b") jnull (member (codes "a") (jboolean true) nil_object))

abbrev dumped : Bytes
dumped = codes "{\"b\": null, \"a\": true}"

-- A library that knows this value.
abbrev object_lib : Library ℕ
object_lib = record lib { json_dumps = λ j. some dumped; json_loads = λ text. some read_value }

msg_process-delivers_example :
    (text : Bytes) × (msg_publish object_lib (codes "k") (some (parse sent_value)) server
      ≡ (ok true, record server { sends = true ∷ []; sent = (3, text) ∷ [] }))
    × (msg_process object_lib 0 ((2, some (some text)) ∷ []) server
        ≡ (ok tt, record server { sends = []; sent = (1, text) ∷ (2, text) ∷ [] }))
    × (msg_process object_lib 2 ((4, some (some text)) ∷ []) polled
        ≡ (ok tt, record polled { calls = (9, parse read_value) ∷ [] }))
    × ((own : ℕ) (responder : ℕ) (st : Messaging ℕ ℕ)
        → subscribed text (msg_subscribe own (codes "k") responder st).sock_nodes ≡ true)
unfolding IsPlain mirror strcmp_zero
msg_process-delivers_example =
    msg_process-delivers object_lib (codes "k") dumped sent_value 3 1 2 4 2 (true ∷ []) [] server
      server polled node (7 ∷ []) (7 ∷ 2 ∷ 3 ∷ 4 ∷ 0 ∷ []) (omega arith)
      ((omega arith, omega arith), tt) (tt, refl, (tt, refl, tt)) (refl, refl) refl refl refl refl
      refl (0 ∷ [], none ∷ [], refl, refl, refl) refl (λ e. ground arith) (λ e. ground arith)

abbrev first_post : Posted ℕ
first_post = record { sigkey = codes "a"; msg = string (codes "x"); payload = codes "true" }

abbrev second_post : Posted ℕ
second_post = record { sigkey = codes "b"; msg = string (codes "y"); payload = codes "true" }

-- Neither message is sent at first.
abbrev refused : Messaging ℕ ℕ
refused = record server { sends = false ∷ false ∷ true ∷ true ∷ [] }

-- The message that came last is sent first.
replies-reverse_example :
    (publish_all lib (first_post ∷ second_post ∷ []) >> replies lib 2) refused
    ≡ (ok tt, record refused { sends = []; sent = (3, codes "b:true") ∷ (3, codes "a:true") ∷ [] })
unfolding message_text json_encode json_build
replies-reverse_example =
    replies-reverse lib (first_post ∷ second_post ∷ []) refused 3 []
      ((omega arith, refl), ((omega arith, refl), tt)) refl refl refl

-- One message waits, and the send fails again.
abbrev waiting : Messaging ℕ ℕ
waiting = record server { sends = false ∷ []; msg_queue = (codes "a", string (codes "x")) ∷ [] }

recv_relay_reply-throws_example :
    recv_relay_reply lib waiting
    ≡ (thrown, record waiting { msg_queue = []; relay_mutex = true; sends = [] })
unfolding message_text json_encode json_build
recv_relay_reply-throws_example =
    recv_relay_reply-throws lib first_post [] waiting 3 [] (omega arith, refl) refl refl refl refl
