-- ===== src/Messaging/Poll/Collected.antt =====
-- What `msg_poll_collect` of src/messaging.c leaves in its arrays.
use gusher.Base.{
  ℕ, suc, ◌+◌, ◌<◌, ◌≡◌, refl, sym, ap, ◌∙◌, Bool, true, false, List, [], ◌∷◌, ◌++◌, append_assoc,
  length, length-append, set-append, lt→ltb, append-nil, bind_assoc, bind_same, bind_ok, Bool-cases,
  inl, inr, Option, none, some, Run, ok, ◌>>=◌, if◌then◌else◌, arith,
}
use gusher.Messaging.{SockNode, Messaging}
use gusher.Messaging.Poll.{
  Collect, add_item, add_own, add_nodes, own_item, node_items, collect, msg_poll_collect, poll_list,
}

module _ {H : Type 0} where
  abbrev pub add_items : List (ℕ × Option (SockNode H)) → Collect H → Run (Collect H)
  add_items [] c = ok c
  add_items ((sock, node) ∷ items) c = do c ← add_item sock node c; add_items items c

  abbrev pub socks : List (ℕ × Option (SockNode H)) → List ℕ
  socks [] = []
  socks (item ∷ items) = item.0 ∷ socks items

  abbrev pub owners : List (ℕ × Option (SockNode H)) → List (Option (SockNode H))
  owners [] = []
  owners (item ∷ items) = item.1 ∷ owners items

  length-socks : (items : List (ℕ × Option (SockNode H))) → length (socks items) ≡ length items
  length-socks [] = refl
  length-socks (item ∷ items) = ap suc (length-socks items)

  length-owners : (items : List (ℕ × Option (SockNode H))) → length (owners items) ≡ length items
  length-owners [] = refl
  length-owners (item ∷ items) = ap suc (length-owners items)

  -- The arrays, filled up to a place.
  abbrev arrays :
      List ℕ → List ℕ → List (Option (SockNode H)) → List (Option (SockNode H)) → Collect H
  arrays pre rest done more = record {
    start = length pre;
    polls = pre ++ rest;
    responders = done ++ more;
    poll_items = length done;
  }

  add_item-border :
      (sock : ℕ) (owner : Option (SockNode H)) (pre : List ℕ) (x : ℕ) (rest : List ℕ)
      → (done : List (Option (SockNode H))) (y : Option (SockNode H))
      → (more : List (Option (SockNode H)))
      → add_item sock owner (arrays pre (x ∷ rest) done (y ∷ more))
        ≡ ok (arrays (pre ++ sock ∷ []) rest (done ++ owner ∷ []) more)
  unfolding add_item
  add_item-border sock owner pre x rest done y more =
      let polls_room : length pre < length (pre ++ x ∷ rest) =
        omega (arith, length-append pre (x ∷ rest)) in
      let room : length done < length (done ++ y ∷ more) =
        omega (arith, length-append done (y ∷ more)) in
      rw
        (
          lt→ltb _ _ polls_room,
          lt→ltb _ _ room,
          set-append,
          set-append,
          append_assoc,
          append_assoc,
          length-append,
          length-append,
        )
        refl

  -- The arrays with the items behind those before them.
  pub add_items-filled :
      (items : List (ℕ × Option (SockNode H))) (pre old rest : List ℕ)
      → (done was more : List (Option (SockNode H))) → length old ≡ length items
      → length was ≡ length items
      → add_items items (arrays pre (old ++ rest) done (was ++ more))
        ≡ ok (arrays (pre ++ socks items) rest (done ++ owners items) more)
  add_items-filled [] pre [] rest done [] more lo lw = rw (append-nil pre, append-nil done) refl
  add_items-filled [] pre (x ∷ old) rest done was more lo lw = absurd (omega arith)
  add_items-filled [] pre [] rest done (y ∷ was) more lo lw = absurd (omega arith)
  add_items-filled (item ∷ items) pre [] rest done was more lo lw = absurd (omega arith)
  add_items-filled (item ∷ items) pre (x ∷ old) rest done [] more lo lw = absurd (omega arith)
  add_items-filled ((sock, node) ∷ items) pre (x ∷ old) rest done (y ∷ was) more lo lw =
      let rest_of =
        add_items-filled items (pre ++ sock ∷ []) old rest (done ++ node ∷ []) was more
          (omega arith) (omega arith) in
      let polled =
        ap (λ p. ok (arrays p rest (done ++ node ∷ [] ++ owners items) more))
          (append_assoc pre (sock ∷ []) (socks items)) in
      let owned =
        ap (λ d. ok (arrays (pre ++ sock ∷ socks items) rest d more))
          (append_assoc done (node ∷ []) (owners items)) in
      rw (add_item-border sock node pre x (old ++ rest) done y (was ++ more))
        (rest_of ∙ polled ∙ owned)

  add_items-append :
      (xs ys : List (ℕ × Option (SockNode H))) (c : Collect H)
      → add_items (xs ++ ys) c ≡ (add_items xs c >>= λ c. add_items ys c)
  add_items-append [] ys c = refl
  add_items-append ((sock, node) ∷ xs) ys c =
      bind_same refl (λ c. add_items-append xs ys c)
      ∙ sym (bind_assoc (add_item sock node c) (λ c. add_items xs c) (λ c. add_items ys c))

  add_items-if :
      (polled : Bool) (sock : ℕ) (owner : Option (SockNode H)) (c : Collect H)
      → (more : List (ℕ × Option (SockNode H))) (then_more : Collect H → Run (Collect H))
      → ((c : Collect H) → then_more c ≡ add_items more c)
      → (if polled then (add_item sock owner c >>= then_more) else then_more c)
        ≡ add_items (if polled then (sock, owner) ∷ more else more) c
  add_items-if true sock owner c more then_more h = bind_same refl h
  add_items-if false sock owner c more then_more h = h c

  add_nodes-items :
      (link : List (SockNode H)) (c : Collect H) → add_nodes link c ≡ add_items (node_items link) c
  add_nodes-items [] c = refl
  add_nodes-items (node ∷ link) c =
      add_items-if node.poll node.msg_sock (some node) c (node_items link) (λ c. add_nodes link c)
        (λ c. add_nodes-items link c)

  add_own-items : (own : Option ℕ) (c : Collect H) → add_own own c ≡ add_items (own_item own) c
  add_own-items none c = refl
  add_own-items (some sock) c = bind_ok (add_item sock none c)

module _ {D H : Type 0} where
  collect-items : (st : Messaging D H) (c : Collect H) → collect st c ≡ add_items (poll_list st) c
  collect-items st c =
      bind_same (add_own-items st.relay c) (λ c.
        bind_same (add_own-items st.rclient c) (λ c. add_nodes-items st.sock_nodes c)
        ∙ sym (add_items-append (own_item st.rclient) (node_items st.sock_nodes) c))
      ∙ sym
          (add_items-append (own_item st.relay) (own_item st.rclient ++ node_items st.sock_nodes) c)

  -- What the poll array and the responders hold for the items to poll.
  abbrev pub IsCollected : List ℕ → List ℕ → Messaging D H → Type 0
  IsCollected pre polls st =
      (rest : List ℕ) × (more : List (Option (SockNode H))) × (polls
        ≡ (pre ++ socks (poll_list st)) ++ rest)
      × (st.responders ≡ owners (poll_list st) ++ more)
      × (st.poll_items ≡ length (poll_list st))

  collect_dirty :
      (pre old rest : List ℕ) (st : Messaging D H) (was more : List (Option (SockNode H)))
      → st.responders ≡ was ++ more
      → length was ≡ length (poll_list st)
      → length old ≡ length (poll_list st)
      → st.poll_dirty ≡ true
      → (start : ℕ) × (polls : List ℕ) × (next : Messaging D H) × (msg_poll_collect
            (length pre)
            (pre ++ (old ++ rest))
            st
          ≡ ok (start, polls, next))
        × (start ≡ length pre + length (poll_list next))
        × (poll_list next ≡ poll_list st)
        × (next.poll_dirty ≡ false)
        × IsCollected pre polls next
  unfolding msg_poll_collect
  collect_dirty pre old rest st was more r lw lo q =
      let items = poll_list st in
      let filled = add_items-filled items pre old rest [] was more lo lw in
      (
        length (pre ++ socks items),
        (pre ++ socks items) ++ rest,
        record st {
          responders = owners items ++ more;
          poll_items = length (owners items);
          poll_dirty = false;
        },
        rw (q, r, collect-items st, filled) refl,
        length-append pre (socks items) ∙ ap (λ k. length pre + k) (length-socks items),
        refl,
        refl,
        (rest, more, refl, refl, length-owners items),
      )

  -- Where both arrays have room for the sockets to poll, and hold them already if poll_dirty is
  -- clear, msg_poll_collect ends with poll_dirty clear, the sockets of the relay, of its client
  -- and of the polled subscriptions in the poll array from start on, and the node of each at the
  -- same place of the responders; it returns the index behind the last of them.
  pub msg_poll_collect-IsCollected :
      (pre old rest : List ℕ) (st : Messaging D H) (was more : List (Option (SockNode H)))
      → st.responders ≡ was ++ more
      → length was ≡ length (poll_list st)
      → length old ≡ length (poll_list st)
      → (st.poll_dirty ≡ false → IsCollected pre (pre ++ (old ++ rest)) st)
      → (start : ℕ) × (polls : List ℕ) × (next : Messaging D H) × (msg_poll_collect
            (length pre)
            (pre ++ (old ++ rest))
            st
          ≡ ok (start, polls, next))
        × (start ≡ length pre + length (poll_list next))
        × (poll_list next ≡ poll_list st)
        × (next.poll_dirty ≡ false)
        × IsCollected pre polls next
  unfolding msg_poll_collect
  msg_poll_collect-IsCollected pre old rest st was more r lw lo h =
      elim (Bool-cases st.poll_dirty) [
        | inl q ↦ collect_dirty pre old rest st was more r lw lo q
        | inr q ↦
            let (left, behind, polled, owned, n) = h q in
            (
              length pre + st.poll_items,
              pre ++ (old ++ rest),
              st,
              rw q refl,
              ap (λ k. length pre + k) n,
              refl,
              q,
              (left, behind, polled, owned, n),
            )
      ]
