-- ===== src/Messaging/Poll.antt =====
-- Which sockets src/messaging.c polls: `msg_poll_collect`, and the responder that each belongs to.
pub mod Collected
use gusher.Base.{
  ℕ, suc, ◌+◌, ◌<◌, ◌≡◌, refl, sym, ap, ◌∙◌, Bool, true, false, List, [], ◌∷◌, ◌++◌, append_assoc,
  length, set, length-append, set-append, ltb, lt→ltb, append-nil, bind_assoc, bind_same, bind_ok,
  Bool-cases, inl, inr, Option, none, some, Run, ok, fault, ◌>>=◌, if◌then◌else◌, arith,
}
use gusher.Messaging.{SockNode, Messaging}

-- The arrays that `msg_poll_collect` fills: the sockets to poll, from `start` on, and the node of
-- each, none for the server's own.
pub record Collect (H : Type 0) : Type 0 where
  pub start : ℕ
  pub polls : List ℕ
  pub responders : List (Option (SockNode H))
  pub poll_items : ℕ

module _ {H : Type 0} where
  -- One more item, where both arrays have room.
  unfoldable pub add_item : ℕ → Option (SockNode H) → Collect H → Run (Collect H)
  add_item sock node c =
      if ltb c.start (length c.polls)
      then (if ltb c.poll_items (length c.responders)
          then ok (record {
            start = c.start + 1;
            polls = set c.polls c.start sock;
            responders = set c.responders c.poll_items node;
            poll_items = c.poll_items + 1;
          })
          else fault)
      else fault

  -- `if (relay != NULL) …`, and the same for `rclient`.
  abbrev pub add_own : Option ℕ → Collect H → Run (Collect H)
  add_own none c = ok c
  add_own (some sock) c = add_item sock none c

  -- The loop over the subscriptions.
  abbrev pub add_nodes : List (SockNode H) → Collect H → Run (Collect H)
  add_nodes [] c = ok c
  add_nodes (node ∷ link) c =
      let skipped = add_nodes link c in
      if node.poll then (do c ← add_item node.msg_sock (some node) c; add_nodes link c) else skipped

module _ {H : Type 0} where
  -- The sockets to poll, each with its node.
  abbrev pub own_item : Option ℕ → List (ℕ × Option (SockNode H))
  own_item none = []
  own_item (some sock) = (sock, none) ∷ []

  abbrev pub node_items : List (SockNode H) → List (ℕ × Option (SockNode H))
  node_items [] = []
  node_items (node ∷ link) =
      let more = node_items link in if node.poll then (node.msg_sock, some node) ∷ more else more

module _ {D H : Type 0} where
  abbrev pub collected : Messaging D H → Collect H → ℕ × List ℕ × Messaging D H
  collected st c = (
    c.start,
    c.polls,
    record st { responders = c.responders; poll_items = c.poll_items; poll_dirty = false },
  )

  abbrev pub collect : Messaging D H → Collect H → Run (Collect H)
  collect st c = do c ← add_own st.relay c; c ← add_own st.rclient c; add_nodes st.sock_nodes c

  -- `msg_poll_collect(start, polls)`
  unfoldable pub msg_poll_collect : ℕ → List ℕ → Messaging D H → Run (ℕ × List ℕ × Messaging D H)
  msg_poll_collect start polls st =
      if st.poll_dirty
      then (do
        c ←
            collect st
              (record { start = start; polls = polls; responders = st.responders; poll_items = 0 })
        ok (collected st c))
      else ok (start + st.poll_items, polls, st)

  abbrev pub poll_list : Messaging D H → List (ℕ × Option (SockNode H))
  poll_list st = own_item st.relay ++ (own_item st.rclient ++ node_items st.sock_nodes)
