-- ===== src/Messaging/Route.antt =====
-- A message through src/messaging.c, from the server that publishes it to the responder that is
-- called with it: `msg_publish`, `relay_to_publisher` and `recv_subscribed_msg`.
use gusher.Base.{
  ℕ, zero, suc, ◌+◌, ◌≤◌, ◌≡◌, refl, sym, ap, ◌∙◌, Bool, true, false, Bytes, List, [], ◌∷◌, ◌++◌,
  append_assoc, length, take, drop, get_elem?, length-append, drop_behind, take-short,
  some_injective, ◌≢◌, Option, none, some, ok, arith,
}
use gusher.Buffer.Border.{Avoids, scan-hit}
use gusher.CString.{strncmp_zero, strncmp_zero-append}
use gusher.Json.{Json, parse, json_encode, json_decode}
use gusher.Json.Mirror.{IsPlain, mirror}
use gusher.Json.RoundTrip.{json_build-parse}
use gusher.Messaging.{
  SockNode, Messaging, Library, keyed_msg, is_sock, message_text, msg_process, msg_publish,
  msg_subscribe, relay_to_publisher, recv_subscribed_msg, route_msg,
}
use gusher.Messaging.Poll.{poll_list}
use gusher.Messaging.Poll.Collected.{IsCollected, owners}

-- The text of a message under a key.
abbrev pub keyed : Bytes → Bytes → Bytes
keyed sname payload = sname ++ b':' ∷ payload

module _ {D : Type 0} (lib : Library D) where
  -- `json_dumps` gives a text of the value that `json_build` makes of `j`, and `json_loads` reads
  -- that same value from the text.
  abbrev pub Carries : Json D → Bytes → Type 0
  Carries j payload =
      (lib.json_dumps (mirror j) ≡ some payload) × (lib.json_loads payload ≡ some (mirror j))

  message_text-Carries :
      (j : Json D) (payload : Bytes)
      → IsPlain j
      → Carries j payload
      → message_text lib (parse j) ≡ ok payload
  unfolding json_encode message_text
  message_text-Carries j payload plain c =
      let encoded : json_encode lib.cal lib.json_dumps (parse j) ≡ ok (some payload) =
        rw (json_encode, json_build-parse lib.cal j plain, c.0) refl in
      rw (message_text, encoded) refl

  json_decode-Carries :
      (j : Json D) (payload : Bytes)
      → Carries j payload
      → json_decode lib.json_loads payload ≡ parse (mirror j)
  unfolding json_decode
  json_decode-Carries j payload c = rw (json_decode, c.1) refl

pub keyed_msg-fits :
    (sname payload : Bytes)
    → length sname ≤ 128
    → keyed_msg sname payload ≡ ok (keyed sname payload)
unfolding keyed_msg
keyed_msg-fits sname payload fits = ground arith

is_sock-own : (sock : ℕ) → is_sock (some sock) sock ≡ true
is_sock-own sock = ground arith

is_sock-other : (own : Option ℕ) (sock : ℕ) → own ≢ some sock → is_sock own sock ≡ false
is_sock-other none sock h = refl
is_sock-other (some own) sock h = ground arith

owner_at :
    {H : Type 0} (items : List (ℕ × Option (SockNode H))) (more : List (Option (SockNode H)))
    (i : ℕ)
    → (item : ℕ × Option (SockNode H)) → get_elem? items i ≡ some item
    → get_elem? (owners items ++ more) i ≡ some item.1
owner_at [] more i item h = ground arith
owner_at (x ∷ items) more zero item h = ap (λ x. some x.1) (some_injective h)
owner_at (x ∷ items) more (suc i) item h = owner_at items more i item h

-- Whether the first of the sockets is sent the text: what it subscribed to starts it.
abbrev pub subscribed : {H : Type 0} → Bytes → List (SockNode H) → Bool
subscribed text [] = false
subscribed text (node ∷ link) = strncmp_zero (length node.subscription) node.subscription text

module _ {D H : Type 0} (lib : Library D) where
  msg_publish-Carries :
      (sname payload : Bytes) (j : Json D) (st : Messaging D H) (r : ℕ) (rest : List Bool)
      → length sname ≤ 128
      → IsPlain j
      → Carries lib j payload
      → st.rclient ≡ some r
      → st.sends ≡ true ∷ rest
      → msg_publish lib sname (some (parse j)) st
        ≡ (ok true, record st { sends = rest; sent = st.sent ++ (r, keyed sname payload) ∷ [] })
  unfolding msg_publish
  msg_publish-Carries sname payload j st r rest fits plain c e s =
      rw
        (
          msg_publish,
          message_text-Carries lib j payload plain c,
          keyed_msg-fits sname payload fits,
          e,
          s,
        )
        refl

  relay_to_publisher-sends :
      (msg : Bytes) (st : Messaging D H) (p q : ℕ) (rest : List Bool)
      → st.publisher ≡ some p
      → st.relay ≡ some q
      → st.sends ≡ true ∷ true ∷ rest
      → relay_to_publisher msg st
        ≡ record st { sends = rest; sent = (st.sent ++ (p, msg) ∷ []) ++ (q, msg) ∷ [] }
  unfolding relay_to_publisher
  relay_to_publisher-sends msg st p q rest e1 e2 s = rw (relay_to_publisher, e1, s, e2) refl

  recv_subscribed_msg-Carries :
      (sname payload : Bytes) (j : Json D) (node : SockNode H) (st : Messaging D H)
      → Avoids b':' sname
      → Carries lib j payload
      → recv_subscribed_msg lib (keyed sname payload) node st
        ≡ (ok tt, record st { calls = st.calls ++ (node.responder, parse (mirror j)) ∷ [] })
  unfolding recv_subscribed_msg
  recv_subscribed_msg-Carries sname payload j node st a c =
      let behind : drop (suc (0 + length sname)) (keyed sname payload) ≡ payload =
        ap (drop (suc (0 + length sname))) (sym (append_assoc sname (b':' ∷ []) payload))
        ∙ drop_behind (sname ++ b':' ∷ []) payload (suc (0 + length sname))
            (omega (arith, length-append sname (b':' ∷ []))) in
      rw
        (
          recv_subscribed_msg,
          scan-hit b':' sname payload 0 a,
          behind,
          json_decode-Carries lib j payload c,
        )
        refl

  responder_at :
      (client : Messaging D H) (pre polls : List ℕ) (node : SockNode H) (i sock : ℕ)
      → IsCollected pre polls client
      → get_elem? (poll_list client) i ≡ some (sock, some node)
      → get_elem? client.responders i ≡ some (some node)
  responder_at client pre polls node i sock (rest, more, _, owned, _) at_i =
      ap (λ rs. get_elem? rs i) owned ∙ owner_at (poll_list client) more i (sock, some node) at_i

  route_msg-relay :
      (i sock : ℕ) (msg : Bytes) (st : Messaging D H)
      → is_sock st.relay sock ≡ true
      → route_msg lib i sock msg st ≡ (ok tt, relay_to_publisher msg st)
  unfolding route_msg
  route_msg-relay i sock msg st h = rw h refl

  route_msg-node :
      (i sock : ℕ) (msg : Bytes) (node : SockNode H) (st : Messaging D H)
      → is_sock st.relay sock ≡ false
      → is_sock st.rclient sock ≡ false
      → get_elem? st.responders i ≡ some (some node)
      → route_msg lib i sock msg st ≡ recv_subscribed_msg lib msg node st
  unfolding route_msg
  route_msg-node i sock msg node st h k at_i = rw (h, k, at_i) refl

  msg_process-one :
      (i sock : ℕ) (msg : Bytes) (st next : Messaging D H)
      → route_msg lib i sock msg st ≡ (ok tt, next)
      → msg_process lib i ((sock, some (some msg)) ∷ []) st ≡ (ok tt, next)
  unfolding msg_process
  msg_process-one i sock msg st next h = rw (msg_process, h) refl

  msg_subscribe-subscribed :
      (sname payload : Bytes) (own : ℕ) (responder : H) (st : Messaging D H)
      → length sname ≤ 126
      → subscribed (keyed sname payload) (msg_subscribe own sname responder st).sock_nodes ≡ true
  unfolding msg_subscribe
  msg_subscribe-subscribed sname payload own responder st fits =
      let key = sname ++ b':' ∷ [] in
      let whole : take 127 key ≡ key =
        take-short 127 key (omega (arith, length-append sname (b':' ∷ []))) in
      rw (msg_subscribe, whole)
        (ap (strncmp_zero (length key) key) (sym (append_assoc sname (b':' ∷ []) payload))
          ∙ strncmp_zero-append key payload)

  -- A JSON value whose integers fit and whose objects have no key twice, published by msg_publish
  -- under a key of at most 126 bytes without a colon, where json_loads reads from the text that
  -- json_dumps gives the value that it was given, and the sends succeed: there is one text that is
  -- sent to the relay; msg_process at the relay sends that text on to the publisher and back as
  -- the reply; msg_process at a server whose sockets msg_poll_collect has collected, with that
  -- text from a subscribed socket of its own, calls that socket's responder with that value as
  -- json_build and json_parse leave it: the members of each object in the other order, and null
  -- for an empty array or object; and the socket that msg_subscribe makes for the key is
  -- subscribed to that text.
  pub msg_process-delivers :
      (sname payload : Bytes) (j : Json D) (r p q sock i : ℕ) (rest more : List Bool)
      → (here there client : Messaging D H) (node : SockNode H) (pre polls : List ℕ)
      → length sname ≤ 126
      → Avoids b':' sname
      → IsPlain j
      → Carries lib j payload
      → here.rclient ≡ some r
      → here.sends ≡ true ∷ rest
      → there.publisher ≡ some p
      → there.relay ≡ some q
      → there.sends ≡ true ∷ true ∷ more
      → IsCollected pre polls client
      → get_elem? (poll_list client) i ≡ some (sock, some node)
      → client.relay ≢ some sock
      → client.rclient ≢ some sock
      → (text : Bytes) × (msg_publish lib sname (some (parse j)) here
          ≡ (ok true, record here { sends = rest; sent = here.sent ++ (r, text) ∷ [] }))
        × (msg_process lib 0 ((q, some (some text)) ∷ []) there ≡ (
          ok tt,
          record there { sends = more; sent = (there.sent ++ (p, text) ∷ []) ++ (q, text) ∷ [] },
        ))
        × (msg_process lib i ((sock, some (some text)) ∷ []) client ≡ (
          ok tt,
          record client { calls = client.calls ++ (node.responder, parse (mirror j)) ∷ [] },
        ))
        × ((own : ℕ) (responder : H) (st : Messaging D H)
            → subscribed text (msg_subscribe own sname responder st).sock_nodes ≡ true)
  msg_process-delivers sname payload j r p q sock i rest more here there client node pre polls fits
        a plain c e1 s1 e2 e3 s2 collected at_i nr nc =
      let text = keyed sname payload in
      let own : is_sock there.relay q ≡ true = rw e3 (is_sock-own q) in
      let relayed =
        route_msg-relay 0 q text there own
        ∙ ap (λ st. (ok tt, st)) (relay_to_publisher-sends text there p q more e2 e3 s2) in
      let received =
        route_msg-node i sock text node client (is_sock-other client.relay sock nr)
          (is_sock-other client.rclient sock nc)
          (responder_at client pre polls node i sock collected at_i)
        ∙ recv_subscribed_msg-Carries sname payload j node client a c in
      (
        text,
        msg_publish-Carries sname payload j here r rest (omega arith) plain c e1 s1,
        msg_process-one 0 q text there _ relayed,
        msg_process-one i sock text client _ received,
        λ own responder st. msg_subscribe-subscribed sname payload own responder st fits,
      )
