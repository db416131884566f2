-- ===== src/Messaging/Life.antt =====
-- The sockets of src/messaging.c from its start to its end: `init_messaging` and
-- `shutdown_messaging`. What ZeroMQ gives for a socket and for a bind are parameters.
use gusher.Base.{ℕ, Bool, true, false, List, [], ◌∷◌, ◌++◌, Option, none, some, if◌then◌else◌}
use gusher.Messaging.{SockNode, Messaging}

-- The sockets that `init_messaging` makes, and whether the two binds succeed.
pub record Endpoints : Type 0 where
  pub publisher : ℕ
  pub relay : ℕ
  pub rclient : ℕ
  pub publisher_binds : Bool
  pub relay_binds : Bool

abbrev own_sock : Option ℕ → List ℕ
own_sock none = []
own_sock (some sock) = sock ∷ []

abbrev node_socks : {H : Type 0} → List (SockNode H) → List ℕ
node_socks [] = []
node_socks (node ∷ next) = node.msg_sock ∷ node_socks next

module _ {D H : Type 0} where
  -- `init_messaging`, with the sockets that it closes again.
  unfoldable pub init_messaging : Endpoints → Messaging D H → List ℕ × Messaging D H
  init_messaging ends st =
      let st = record st { ctx = true; rclient = some ends.rclient; poll_dirty = true } in
      if ends.publisher_binds
      then (if ends.relay_binds
          then ([], record st { publisher = some ends.publisher; relay = some ends.relay })
          else (ends.relay ∷ [], record st { publisher = some ends.publisher; relay = none }))
      else (ends.publisher ∷ [], record st { publisher = none })

  -- `shutdown_messaging`, with the sockets that it closes. What is told to destroy the context is
  -- the address of the variable, not of the context; no socket depends on that here.
  unfoldable pub shutdown_messaging : Messaging D H → List ℕ × Messaging D H
  shutdown_messaging st =
      if st.ctx
      then (
        own_sock st.publisher
            ++ (own_sock st.relay ++ (own_sock st.rclient ++ node_socks st.sock_nodes)),
        record st { ctx = false; publisher = none; relay = none; rclient = none; sock_nodes = [] },
      )
      else ([], st)
