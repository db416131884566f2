-- ===== src/Messaging/Republish.antt =====
-- Messages that could not be sent, in src/messaging.c: the queue that `msg_publish` keeps and
-- `recv_relay_reply` takes from.
use gusher.Base.{
  ℕ, zero, suc, All, map, ◌≤◌, ◌≡◌, refl, sym, ap, ◌∙◌, Bool, true, false, Bytes, List, [], ◌∷◌,
  ◌++◌, reverse, reverse-append, All-reverse, length-reverse, map-append, append-nil, append_assoc,
  length, some, ok, thrown,
}
use gusher.Effect.{M, pure, ◌>>=◌, ◌>>◌}
use gusher.Messaging.{Messaging, Library, message_text, msg_publish, recv_relay_reply}
use gusher.Messaging.Route.{keyed, keyed_msg-fits}
use gusher.Scheme.{Scm}

-- A message with its key, its payload, and that both can be written.
pub record Posted (D : Type 0) : Type 0 where
  pub sigkey : Bytes
  pub msg : Scm D
  pub payload : Bytes

module _ {D : Type 0} (lib : Library D) where
  abbrev pub IsPosted : Posted D → Type 0
  IsPosted x = (length x.sigkey ≤ 128) × (message_text lib x.msg ≡ ok x.payload)

module _ {D : Type 0} where
  abbrev pub entry : Posted D → Bytes × Scm D
  entry x = (x.sigkey, x.msg)

  abbrev pub sent_on : ℕ → Posted D → ℕ × Bytes
  sent_on r x = (r, keyed x.sigkey x.payload)

kept_order :
    {D : Type 0} (x : Posted D) (xs : List (Posted D)) (queue : List (Bytes × Scm D))
    → map entry (reverse xs) ++ entry x ∷ queue ≡ map entry (reverse (x ∷ xs)) ++ queue
kept_order x xs queue = sym (
    ap (λ l. map entry l ++ queue) (reverse-append (x ∷ []) xs)
    ∙ ap (λ l. l ++ queue) (map-append entry (reverse xs) (x ∷ []))
    ∙ append_assoc (map entry (reverse xs)) (entry x ∷ []) queue)

abbrev pub each : Bool → ℕ → List Bool → List Bool
each done zero rest = rest
each done (suc n) rest = done ∷ each done n rest

module _ {D H : Type 0} (lib : Library D) where
  abbrev pub publish_all : List (Posted D) → M (Messaging D H) (Unit {0})
  publish_all [] = pure tt
  publish_all (x ∷ xs) = do done ← msg_publish lib x.sigkey (some x.msg); publish_all xs

  -- As many replies from the relay.
  abbrev pub replies : ℕ → M (Messaging D H) (Unit {0})
  replies zero = pure tt
  replies (suc n) = do recv_relay_reply lib; replies n

module _ {D H : Type 0} (lib : Library D) where
  -- A message that is not sent is kept in front of the queue.
  msg_publish-keeps :
      (x : Posted D) (st : Messaging D H) (r : ℕ) (rest : List Bool)
      → IsPosted lib x
      → st.rclient ≡ some r
      → st.sends ≡ false ∷ rest
      → st.relay_mutex ≡ false
      → msg_publish lib x.sigkey (some x.msg) st ≡ (
        ok false,
        record st {
          sends = rest;
          msg_queue = (x.sigkey, x.msg) ∷ st.msg_queue;
          relay_mutex = false;
        },
      )
  unfolding msg_publish
  msg_publish-keeps x st r rest w e s free =
      rw (msg_publish, w.1, keyed_msg-fits x.sigkey x.payload w.0, e, s, free) refl

  msg_publish-sends :
      (x : Posted D) (st : Messaging D H) (r : ℕ) (rest : List Bool)
      → IsPosted lib x
      → st.rclient ≡ some r
      → st.sends ≡ true ∷ rest
      → msg_publish lib x.sigkey (some x.msg) st ≡ (
        ok true,
        record st { sends = rest; sent = st.sent ++ (r, keyed x.sigkey x.payload) ∷ [] },
      )
  unfolding msg_publish
  msg_publish-sends x st r rest w e s =
      rw (msg_publish, w.1, keyed_msg-fits x.sigkey x.payload w.0, e, s) refl

  msg_publish-throws :
      (x : Posted D) (st : Messaging D H) (r : ℕ) (rest : List Bool)
      → IsPosted lib x
      → st.rclient ≡ some r
      → st.sends ≡ false ∷ rest
      → st.relay_mutex ≡ true
      → msg_publish lib x.sigkey (some x.msg) st ≡ (thrown, record st { sends = rest })
  unfolding msg_publish
  msg_publish-throws x st r rest w e s held =
      rw (msg_publish, w.1, keyed_msg-fits x.sigkey x.payload w.0, e, s, held) refl

  recv_relay_reply-sends :
      (x : Posted D) (queue : List (Bytes × Scm D)) (st : Messaging D H) (r : ℕ) (rest : List Bool)
      → IsPosted lib x
      → st.rclient ≡ some r
      → st.sends ≡ true ∷ rest
      → st.relay_mutex ≡ false
      → st.msg_queue ≡ entry x ∷ queue
      → recv_relay_reply lib st ≡ (
        ok tt,
        record st {
          msg_queue = queue;
          relay_mutex = false;
          sends = rest;
          sent = st.sent ++ sent_on r x ∷ [];
        },
      )
  unfolding recv_relay_reply
  recv_relay_reply-sends x queue st r rest w e s free q =
      let again =
        msg_publish-sends x (record st { msg_queue = queue; relay_mutex = true }) r rest w e s in
      rw (recv_relay_reply, q, free, again) refl

  -- Where a message waits, the mutex is free and the send fails again, recv_relay_reply raises an
  -- exception from inside, has taken the message from the queue, and leaves the mutex held.
  pub recv_relay_reply-throws :
      (x : Posted D) (queue : List (Bytes × Scm D)) (st : Messaging D H) (r : ℕ) (rest : List Bool)
      → IsPosted lib x
      → st.rclient ≡ some r
      → st.sends ≡ false ∷ rest
      → st.relay_mutex ≡ false
      → st.msg_queue ≡ (x.sigkey, x.msg) ∷ queue
      → recv_relay_reply lib st
        ≡ (thrown, record st { msg_queue = queue; relay_mutex = true; sends = rest })
  unfolding recv_relay_reply
  recv_relay_reply-throws x queue st r rest w e s free q =
      let again =
        msg_publish-throws x (record st { msg_queue = queue; relay_mutex = true }) r rest w e s
          refl in
      rw (recv_relay_reply, q, free, again) refl

  publish_all-keeps :
      (xs : List (Posted D)) (st : Messaging D H) (r : ℕ) (rest : List Bool)
      → All (IsPosted lib) xs
      → st.rclient ≡ some r
      → st.sends ≡ each false (length xs) rest
      → st.relay_mutex ≡ false
      → publish_all lib xs st ≡ (
        ok tt,
        record st {
          sends = rest;
          msg_queue = map entry (reverse xs) ++ st.msg_queue;
          relay_mutex = false;
        },
      )
  publish_all-keeps [] st r rest w e s free = rw (s, free) refl
  publish_all-keeps (x ∷ xs) st r rest w e s free =
      let kept = msg_publish-keeps x st r (each false (length xs) rest) w.0 e s free in
      let later =
        publish_all-keeps xs
          (record st {
            sends = each false (length xs) rest;
            msg_queue = entry x ∷ st.msg_queue;
            relay_mutex = false;
          })
          r rest w.1 e refl refl in
      rw (kept, later)
        (ap (λ l. (ok tt, record st { msg_queue = l; relay_mutex = false; sends = rest }))
          (kept_order x xs st.msg_queue))

  replies-sends :
      (xs : List (Posted D)) (queue : List (Bytes × Scm D)) (st : Messaging D H) (r : ℕ)
      (rest : List Bool)
      → All (IsPosted lib) xs
      → st.rclient ≡ some r
      → st.sends ≡ each true (length xs) rest
      → st.relay_mutex ≡ false
      → st.msg_queue ≡ map entry xs ++ queue
      → replies lib (length xs) st ≡ (
        ok tt,
        record st {
          sends = rest;
          msg_queue = queue;
          sent = st.sent ++ map (sent_on r) xs;
          relay_mutex = false;
        },
      )
  replies-sends [] queue st r rest w e s free q = rw (s, free, q, append-nil st.sent) refl
  replies-sends (x ∷ xs) queue st r rest w e s free q =
      let first =
        recv_relay_reply-sends x (map entry xs ++ queue) st r (each true (length xs) rest) w.0 e s
          free q in
      let later =
        replies-sends xs queue
          (record st {
            sends = each true (length xs) rest;
            msg_queue = map entry xs ++ queue;
            relay_mutex = false;
            sent = st.sent ++ sent_on r x ∷ [];
          })
          r rest w.1 e refl refl refl in
      rw (first, later)
        (ap
          (λ l.
            (ok tt, record st { msg_queue = queue; relay_mutex = false; sends = rest; sent = l }))
          (append_assoc st.sent (sent_on r x ∷ []) (map (sent_on r) xs)))

  -- Messages whose sends all fail, published one after the other with the mutex free, are queued,
  -- and as many replies from the relay, whose sends all succeed, send all of them, the last first,
  -- and leave the queue as it was and the mutex free.
  pub replies-reverse :
      (xs : List (Posted D)) (st : Messaging D H) (r : ℕ) (rest : List Bool)
      → All (IsPosted lib) xs
      → st.rclient ≡ some r
      → st.sends ≡ each false (length xs) (each true (length xs) rest)
      → st.relay_mutex ≡ false
      → (publish_all lib xs >> replies lib (length xs)) st ≡ (
        ok tt,
        record st {
          sends = rest;
          sent = st.sent ++ map (sent_on r) (reverse xs);
          relay_mutex = false;
        },
      )
  replies-reverse xs st r rest w e s free =
      let kept = publish_all-keeps xs st r (each true (length xs) rest) w e s free in
      let same : length (reverse xs) ≡ length xs = length-reverse xs in
      let waiting : Messaging D H = record st {
        sends = each true (length xs) rest;
        msg_queue = map entry (reverse xs) ++ st.msg_queue;
        relay_mutex = false;
      } in
      let sent =
        replies-sends (reverse xs) st.msg_queue waiting r rest (All-reverse (IsPosted lib) xs w) e
          (ap (λ n. each true n rest) (sym same)) refl refl in
      rw (kept, ap (λ n. replies lib n waiting) (sym same) ∙ sent) refl
