-- ===== src/Frames/Line.antt =====
-- The order in which clients wait, src/main.c, and where a held frame stands.
use gusher.Base.{
  ℕ, ◌≡◌, refl, sym, ap, ◌∙◌, subst, List, [], ◌∷◌, ◌++◌, Option, none, some, ok, ok_injective, map,
  map-append, append_assoc, set, arith,
}
use gusher.Frames.{Server, Client, put, dequeue, take_frame, release_frame}
use gusher.Frames.Chain.{occurs-append, client_of-set}
use gusher.Frames.Ownership.{IsServer, held_frame}
use gusher.Frames.Queue.{waiting, map-same}

-- A held frame may stand anywhere in the list of those held.
pub held_first :
    (s : Server) (pool queue before : List ℕ) (a : ℕ) (behind : List ℕ)
    → IsServer s pool queue (before ++ a ∷ behind)
    → IsServer s pool queue (a ∷ (before ++ behind))
held_first s pool queue before a behind w = record {
  pool_chain = w.pool_chain;
  queue_chain = w.queue_chain;
  tail = w.tail;
  owned = λ b.
      omega (arith, w.owned b, occurs-append b before (a ∷ behind), occurs-append b before behind);
}

-- A release changes no client.
pub release_frame-waiting :
    (s : Server) (pool queue held : List ℕ) (a : ℕ) (t : Server)
    → IsServer s pool queue (a ∷ held)
    → release_frame a s ≡ ok t
    → waiting t queue ≡ waiting s queue
unfolding release_frame
release_frame-waiting s pool queue held a t w e =
    let (f, at_a) = held_frame s pool queue held a w in
    let written : record (put s a (record f { next = s.req_pool })) { req_pool = some a } ≡ t =
      ok_injective (sym (rw at_a refl) ∙ e) in
    subst (λ t. waiting t queue ≡ waiting s queue) written
      (map-same s.frames (set s.frames a (record f { next = s.req_pool })) queue
        (λ b l. client_of-set s.frames a b f s.req_pool at_a))

pub take_frame-none : (s : Server) → s.req_queue ≡ none → take_frame s ≡ ok (none, s)
unfolding take_frame dequeue
take_frame-none s e = rw e refl

-- A client that is accepted waits behind the others.
pub accept_order :
    (accepted : List Client) (taken line before : List (Option Client)) (client : Client)
    → map some accepted ≡ taken ++ before
    → line ≡ before ++ some client ∷ []
    → map some (accepted ++ client ∷ []) ≡ taken ++ line
accept_order accepted taken line before client e l =
    map-append some accepted (client ∷ [])
    ∙ ap (λ cs. cs ++ some client ∷ []) e
    ∙ append_assoc taken before (some client ∷ [])
    ∙ ap (λ cs. taken ++ cs) (sym l)
