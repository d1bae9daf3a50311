-- ===== src/Rsl/Env/Safety.antt =====
-- The nodes of the environment under any calls of its methods, and what that says of their logs.
use mathlib.Core.Path.{subst}
use raft_rl_test.Base.{
  ℕ, ◌≡◌, refl, ap, List, [], ◌∷◌, Option, some, none, Option-cases, ◌⊎◌, inl, inr, if-both, length,
  ◌≤◌,
}
use raft_rl_test.Base.Assoc.{GoMap, get, put}
use raft_rl_test.Base.Every.{Every, Every-weaken}
use raft_rl_test.Rsl.Durable.{last_accepted, highest}
use raft_rl_test.Rsl.Run.Safety.{boot-durable}
use raft_rl_test.Rsl.Data.{is_stable_primary, no_ballot, no_proposal, Command, Message}
use raft_rl_test.Rsl.Node.{Node}
use raft_rl_test.Rsl.Step.{step, tick}
use raft_rl_test.Base.Pool.{one_to}
use raft_rl_test.Rsl.Env.{RslEnvConfig, RslEnv, each_node, config_of}
use raft_rl_test.Rsl.Env.Calls.{
  reset, start_node, stop_node, propose_if_primary, receive_request, gather, tick_all, hand_over,
  deliver_message, drop_message, deliver_messages, drop_messages, EnvCall, resets, ticks_all,
  delivers, drops, requests, stops, starts, new_env, empty_env, fresh_node, perform_env, run_env,
  is_command,
}
use raft_rl_test.Rsl.Env.Lives.{
  Life, Every-put, Every-get, Life-tick, Life-propose, Life-step, Life-fresh, Every-each_node,
  Every-collect, Every-remove_node, Every-put_nodes, Every-propose_first,
}

-- Ranging over a map meets only its entries.
abbrev pub Ranges : (GoMap Node → GoMap Node) → Type 1
Ranges order = (P : ℕ × Node → Type 0) (m : GoMap Node) → Every P m → Every P (order m)

-- What the log of a node tells of its state.
abbrev pub Durable : Node → Type 0
Durable n =
    (last_accepted no_proposal n.log.entries ≡ n.max_accepted_proposal)
    × (highest no_ballot n.log.entries ≡ n.max_prepared_ballot)
    × (n.decided ≡ length n.log.decided)
    × (n.max_accepted_proposal.ballot.num ≤ n.max_prepared_ballot.num)

module _ (decode_config : Command → Option (List ℕ)) (hash : Message → List ℕ)
    (order : GoMap Node → GoMap Node) (draw : ℕ → ℕ) (c : RslEnvConfig) where
  -- The configuration with the peers that Reset fills in.
  abbrev pub with_peers : RslEnvConfig
  with_peers = record c { node_config = record c.node_config { peers = one_to (λ i. i) c.nodes } }

  -- The configuration is that one, and every node is a booted one after some calls.
  pub record IsLived (r : RslEnv) : Type 0 where
    pub config : r.config ≡ with_peers
    pub lives : Every (Life decode_config with_peers.node_config) r.nodes

  reset-IsLived :
      (r : RslEnv)
      → (r.config ≡ c) ⊎ (r.config ≡ with_peers)
      → Every (Life decode_config with_peers.node_config) r.nodes
      → IsLived (reset r)
  unfolding reset
  reset-IsLived r e h =
      let fill = λ (x : RslEnvConfig). record x {
        node_config = record x.node_config { peers = one_to (λ i. i) x.nodes };
      } in
      let same : fill r.config ≡ with_peers = elim e [ inl e ↦ ap fill e | inr e ↦ ap fill e ] in
      record {
        config = same;
        lives =
            Every-put_nodes decode_config with_peers.node_config
              (λ i. fresh_node (record (fill r.config).node_config { id = i }))
              (λ i.
                Life-fresh decode_config with_peers.node_config
                  (record (fill r.config).node_config { id = i }) i
                  (ap (λ x. record x.node_config { id = i }) same))
              r.config.nodes r.nodes h;
      }

  gather-IsLived : (r : RslEnv) → IsLived r → IsLived (gather decode_config hash order draw r)
  unfolding gather
  gather-IsLived r h = record {
    config = h.config;
    lives = Every-collect decode_config with_peers.node_config hash r.nodes r.messages h.lives;
  }

  start_node-IsLived : (r : RslEnv) (id : ℕ) → IsLived r → IsLived (start_node r id)
  unfolding start_node
  start_node-IsLived r id h = go (get r.nodes id)
    where
      go :
          (o : Option Node)
          → IsLived (elim o as (λ o. RslEnv) [
            | some node ↦ r
            | none ↦ record r { nodes = put r.nodes id (fresh_node (config_of r id)) }
          ])
      go (some node) = h
      go none = record {
        config = h.config;
        lives =
            Every-put (Life decode_config with_peers.node_config) r.nodes id
              (fresh_node (config_of r id)) h.lives
              (Life-fresh decode_config with_peers.node_config (config_of r id) id
                (ap (λ x. record x.node_config { id = id }) h.config));
      }

  hand_over-IsLived :
      (r : RslEnv) (m : Message) → IsLived r → IsLived (hand_over decode_config hash order draw r m)
  unfolding hand_over
  hand_over-IsLived r m h =
      let N = with_peers.node_config in
      if-both IsLived (is_command m.type)
        (record {
          config = h.config;
          lives =
              Every-each_node decode_config N (propose_if_primary m.command)
                (λ id n l.
                  if-both (λ x. Life decode_config N (id, x)) (is_stable_primary n.state)
                    (Life-propose decode_config N id n m.command l) l)
                r.nodes h.lives;
        })
        (elim (Option-cases (get r.nodes m.to)) [
          | inl e ↦ rw e h
          | inr (n, e) ↦ rw e (record {
            config = h.config;
            lives =
                Every-put (Life decode_config N) r.nodes m.to
                  (step decode_config n m (draw r.delivered)) h.lives
                  (Life-step decode_config N m.to n m (draw r.delivered)
                    (Every-get (Life decode_config N) r.nodes m.to n h.lives e));
          })
        ])

  deliver_messages-IsLived :
      (r : RslEnv) (ms : List Message)
      → IsLived r
      → IsLived (deliver_messages decode_config hash order draw r ms)
  unfolding deliver_message
  deliver_messages-IsLived r [] h = h
  deliver_messages-IsLived r (m ∷ ms) h =
      deliver_messages-IsLived (deliver_message decode_config hash order draw r m) ms
        (gather-IsLived (hand_over decode_config hash order draw r m) (hand_over-IsLived r m h))

  drop_messages-IsLived :
      (r : RslEnv) (ms : List Message)
      → IsLived r
      → IsLived (drop_messages decode_config hash order draw r ms)
  unfolding drop_message
  drop_messages-IsLived r [] h = h
  drop_messages-IsLived r (m ∷ ms) h =
      drop_messages-IsLived (drop_message decode_config hash order draw r m) ms
        (record { config = h.config; lives = h.lives })

  tick_all-IsLived : (r : RslEnv) → IsLived r → IsLived (tick_all decode_config hash order draw r)
  unfolding tick_all
  tick_all-IsLived r h =
      let N = with_peers.node_config in
      gather-IsLived (record r { nodes = each_node tick r.nodes })
        (record {
          config = h.config;
          lives = Every-each_node decode_config N tick (Life-tick decode_config N) r.nodes h.lives;
        })

  pub perform_env-IsLived :
      (ranges : Ranges order) (r : RslEnv) (call : EnvCall)
      → IsLived r
      → IsLived (perform_env decode_config hash order draw r call)
  unfolding perform_env stop_node receive_request
  perform_env-IsLived ranges r resets h = reset-IsLived r (inr h.config) h.lives
  perform_env-IsLived ranges r ticks_all h = tick_all-IsLived r h
  perform_env-IsLived ranges r (delivers ms) h = deliver_messages-IsLived r ms h
  perform_env-IsLived ranges r (drops ms) h = drop_messages-IsLived r ms h
  perform_env-IsLived ranges r (requests m) h =
      let N = with_peers.node_config in
      record {
        config = h.config;
        lives =
            Every-propose_first decode_config N m.command (order r.nodes) r.nodes
              (ranges (Life decode_config N) r.nodes h.lives) h.lives;
      }
  perform_env-IsLived ranges r (stops id) h = record {
    config = h.config;
    lives = Every-remove_node decode_config with_peers.node_config id r.nodes h.lives;
  }
  perform_env-IsLived ranges r (starts id) h = start_node-IsLived r id h

  run_env-IsLived :
      (ranges : Ranges order) (r : RslEnv) (calls : List EnvCall)
      → IsLived r
      → IsLived (run_env decode_config hash order draw r calls)
  unfolding run_env
  run_env-IsLived ranges r [] h = h
  run_env-IsLived ranges r (call ∷ calls) h =
      run_env-IsLived ranges (perform_env decode_config hash order draw r call) calls
        (perform_env-IsLived ranges r call h)

  pub new_env-IsLived : IsLived (new_env c)
  unfolding new_env
  new_env-IsLived = reset-IsLived (empty_env c) (inl refl) tt

  -- Whatever calls a new RSL environment gets, each of its nodes is one that NewNode made with the
  -- environment's configuration, all its nodes as peers and the node's own number, that was started
  -- and has since had ticks, messages, commands and calls of Ready only. (If ranging over the map of
  -- nodes meets only its entries.)
  pub run_env-Life :
      Ranges order
      → (calls : List EnvCall)
      → Every
          (Life decode_config with_peers.node_config)
          (run_env decode_config hash order draw (new_env c) calls).nodes
  run_env-Life ranges calls = (run_env-IsLived ranges (new_env c) calls new_env-IsLived).lives

  pub Life-Durable : (e : ℕ × Node) → Life decode_config with_peers.node_config e → Durable e.1
  Life-Durable e (cs, same) =
      subst Durable same
        (boot-durable decode_config (record with_peers.node_config { id = e.0 }) cs)

  -- Whatever calls a new RSL environment gets, stops and starts of nodes included, the log of each of
  -- its nodes replays to the node's state: the last accepted entry is the proposal that it holds and the
  -- first ballot in the log with the highest number the one it has promised, its node included;
  -- `Decided` counts the commands executed, and the number of the proposal's ballot is not above
  -- that of the promise. (If ranging over the map of nodes meets only its entries.)
  pub run_env-Durable :
      Ranges order
      → (calls : List EnvCall)
      → Every (λ e. Durable e.1) (run_env decode_config hash order draw (new_env c) calls).nodes
  run_env-Durable ranges calls =
      let r = run_env decode_config hash order draw (new_env c) calls in
      Every-weaken (Life decode_config with_peers.node_config) (λ e. Durable e.1) Life-Durable
        r.nodes (run_env-Life ranges calls)
