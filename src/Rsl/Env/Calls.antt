-- ===== src/Rsl/Env/Calls.antt =====
-- The methods of RSLPartitionEnv, and the environment as a system under a partition environment.
use raft_rl_test.Base.{
  ℕ, zero, suc, Bool, true, false, List, [], ◌∷◌, ◌++◌, Option, some, none, map, if◌then◌else◌,
  drop,
}
use raft_rl_test.Base.Assoc.{GoMap, get, put}
use raft_rl_test.Rsl.Data.{
  is_stable_primary, Command, Message, message, MessageType, command_message, NodeConfig,
  accept_req, accept_resp, status_req, status_resp, prepare_req, prepare_resp, fetch_req,
  fetch_resp,
}
use raft_rl_test.Rsl.Node.{Node, new_node, start}
use raft_rl_test.Rsl.Step.{step, propose, tick}
use raft_rl_test.Types.Partition.State.{SystemState, System}
use raft_rl_test.Base.Pool.{itoa, one_to, delete_message}
use raft_rl_test.Rsl.Env.{
  LocalState, RslEnvConfig, RslEnv, system_state, remove_node, config_of, collect, each_node,
  states_of, local_state,
}

abbrev pub is_command : MessageType → Bool
is_command command_message = true
is_command accept_req = false
is_command accept_resp = false
is_command status_req = false
is_command status_resp = false
is_command prepare_req = false
is_command prepare_resp = false
is_command fetch_req = false
is_command fetch_resp = false

abbrev pub request : Command → Message
request c = record (message command_message) { command = c }

-- A new node that is started.
abbrev pub fresh_node : NodeConfig → Node
fresh_node c = start (new_node c)

-- The loops of Reset: nodes, and their states before they are started.
unfoldable pub put_nodes : (ℕ → Node) → ℕ → GoMap Node → GoMap Node
put_nodes f zero m = m
put_nodes f (suc n) m = put (put_nodes f n m) (suc n) (f (suc n))

unfoldable pub first_requests : RslEnvConfig → List Message
unfolding one_to itoa
first_requests c =
    one_to (λ i. request (record { bytes = itoa (suc i) i })) c.num_commands
    ++ map request c.additional_commands

-- The messages of the episode before stay in the pool.
unfoldable pub reset : RslEnv → RslEnv
unfolding one_to put_nodes first_requests
reset r =
    let peers = one_to (λ i. i) r.config.nodes in
    let config = record r.config { node_config = record r.config.node_config { peers = peers } } in
    let node = λ (i : ℕ). new_node (record config.node_config { id = i }) in
    record r {
      config = config;
      nodes =
          put_nodes (λ i. fresh_node (record config.node_config { id = i })) config.nodes r.nodes;
      cur_state = record {
        replica_states = one_to (λ i. (i, local_state (node i))) config.nodes;
        messages = r.messages;
        requests = first_requests config;
      };
    }

unfoldable pub start_node : RslEnv → ℕ → RslEnv
start_node r id = elim (get r.nodes id) [
  | some node ↦ r
  | none ↦ record r { nodes = put r.nodes id (fresh_node (config_of r id)) }
]

unfoldable pub stop_node : RslEnv → ℕ → RslEnv
unfolding remove_node
stop_node r id = record r { nodes = remove_node id r.nodes }

-- The command goes to the first primary, in the order of the map; whether there was one.
unfoldable pub propose_first : Command → GoMap Node → GoMap Node → GoMap Node × Bool
propose_first c [] nodes = (nodes, false)
propose_first c (e ∷ m) nodes =
    let rest = propose_first c m nodes in
    if is_stable_primary e.1.state then (put nodes e.0 (propose e.1 c), true) else rest

abbrev pub propose_if_primary : Command → Node → Node
propose_if_primary c n = if is_stable_primary n.state then propose n c else n

abbrev pub has_primary : GoMap Node → Bool
has_primary [] = false
has_primary (e ∷ m) = let rest = has_primary m in if is_stable_primary e.1.state then true else rest

module _ (decode_config : Command → Option (List ℕ)) (hash : Message → List ℕ)
    (order : GoMap Node → GoMap Node) (draw : ℕ → ℕ) where
  unfoldable pub receive_request : RslEnv → Message → RslEnv
  unfolding propose_first
  receive_request r m =
      let (nodes, proposed) = propose_first m.command (order r.nodes) r.nodes in
      record r {
        nodes = nodes;
        cur_state = record {
          replica_states = r.cur_state.replica_states;
          messages = r.messages;
          requests = if proposed then drop 1 r.cur_state.requests else r.cur_state.requests;
        };
      }

  -- The end of Tick and of deliverMessage: what the nodes have sent goes to the pool.
  unfoldable pub gather : RslEnv → RslEnv
  unfolding collect
  gather r =
      let (nodes, pool) = collect hash r.nodes r.messages in
      record r {
        nodes = nodes;
        messages = pool;
        cur_state = record {
          replica_states = states_of nodes;
          messages = pool;
          requests = r.cur_state.requests;
        };
      }

  unfoldable pub tick_all : RslEnv → RslEnv
  unfolding gather each_node
  tick_all r = gather (record r { nodes = each_node tick r.nodes })

  -- The first part of deliverMessage.
  unfoldable pub hand_over : RslEnv → Message → RslEnv
  unfolding each_node delete_message
  hand_over r m =
      if is_command m.type
      then record r {
        nodes = each_node (propose_if_primary m.command) r.nodes;
        messages = if has_primary r.nodes then delete_message hash m r.messages else r.messages;
      }
      else elim (get r.nodes m.to) [
        | none ↦ r
        | some node ↦ record r {
          nodes = put r.nodes m.to (step decode_config node m (draw r.delivered));
          messages = delete_message hash m r.messages;
          delivered = suc r.delivered;
        }
      ]

  unfoldable pub deliver_message : RslEnv → Message → RslEnv
  unfolding hand_over gather
  deliver_message r m = gather (hand_over r m)

  unfoldable pub drop_message : RslEnv → Message → RslEnv
  unfolding delete_message
  drop_message r m =
      let pool = delete_message hash m r.messages in
      record r {
        messages = pool;
        cur_state = record {
          replica_states = r.cur_state.replica_states;
          messages = pool;
          requests = r.cur_state.requests;
        };
      }

  abbrev pub deliver_messages : RslEnv → List Message → RslEnv
  deliver_messages r [] = r
  deliver_messages r (m ∷ ms) = deliver_messages (deliver_message r m) ms

  abbrev pub drop_messages : RslEnv → List Message → RslEnv
  drop_messages r [] = r
  drop_messages r (m ∷ ms) = drop_messages (drop_message r m) ms

  abbrev seen : RslEnv → RslEnv × SystemState LocalState Message Message
  seen r = (r, system_state r.cur_state)

  -- The environment under a partition environment. It has no Byzantine nodes. For an empty list of
  -- messages, which a partition environment never passes on, Go has no state to return.
  abbrev pub rsl_system : System RslEnv LocalState Message Message
  rsl_system = record {
    reset = λ r. seen (reset r);
    tick = λ r. seen (tick_all r);
    deliver_messages = λ r ms. seen (deliver_messages r ms);
    drop_messages = λ r ms. seen (drop_messages r ms);
    receive_request = λ r m. seen (receive_request r m);
    stop_node = stop_node;
    start_node = start_node;
    become_byzantine = none;
    from_node = λ m. m.from;
    to_node = λ m. m.to;
  }

-- The calls of the methods.
pub data EnvCall : Type 0 where
  resets : EnvCall
  ticks_all : EnvCall
  delivers : List Message → EnvCall
  drops : List Message → EnvCall
  requests : Message → EnvCall
  stops : ℕ → EnvCall
  starts : ℕ → EnvCall

-- NewRLSPartitionEnv
abbrev pub empty_env : RslEnvConfig → RslEnv
empty_env c = record {
  config = c;
  nodes = [];
  messages = [];
  cur_state = record { replica_states = []; messages = []; requests = [] };
  delivered = 0;
}

unfoldable pub new_env : RslEnvConfig → RslEnv
unfolding reset
new_env c = reset (empty_env c)

module _ (decode_config : Command → Option (List ℕ)) (hash : Message → List ℕ)
    (order : GoMap Node → GoMap Node) (draw : ℕ → ℕ) where
  unfoldable pub perform_env : RslEnv → EnvCall → RslEnv
  unfolding reset tick_all deliver_message drop_message receive_request stop_node start_node
  perform_env r resets = reset r
  perform_env r ticks_all = tick_all decode_config hash order draw r
  perform_env r (delivers ms) = deliver_messages decode_config hash order draw r ms
  perform_env r (drops ms) = drop_messages decode_config hash order draw r ms
  perform_env r (requests m) = receive_request decode_config hash order draw r m
  perform_env r (stops id) = stop_node r id
  perform_env r (starts id) = start_node r id

  unfoldable pub run_env : RslEnv → List EnvCall → RslEnv
  unfolding perform_env
  run_env r [] = r
  run_env r (c ∷ cs) = run_env (perform_env r c) cs
