-- ===== src/Rsl/Env/Lives.antt =====
-- Every node of the environment is a node that has been booted and has had some calls.
use mathlib.Core.Path.{subst}
use raft_rl_test.Base.{
  ℕ, zero, suc, ◌≡◌, refl, ap, ◌∙◌, sym, Bool, List, [], ◌∷◌, ◌++◌, Option, some, none, Bool-cases,
  inl, inr, if-both, ◌==◌, ==_iff, arith,
}
use raft_rl_test.Base.Assoc.{GoMap, get, put}
use raft_rl_test.Base.Every.{Every}
use raft_rl_test.Rsl.Data.{is_stable_primary, Command, Message, NodeConfig}
use raft_rl_test.Rsl.Node.{Node}
use raft_rl_test.Rsl.Step.{step, propose, tick, ready}
use raft_rl_test.Rsl.Run.{Call, ticks, receives, proposes, collects, Driven, boot, perform, run}
use raft_rl_test.Base.Pool.{put_messages}
use raft_rl_test.Rsl.Env.{remove_node, collect, each_node}
use raft_rl_test.Rsl.Env.Calls.{put_nodes, propose_first, fresh_node}

module _ {V : Type 0} (P : ℕ × V → Type 0) where
  pub Every-put :
      (m : GoMap V) (key : ℕ) (value : V) → Every P m → P (key, value) → Every P (put m key value)
  unfolding put
  Every-put [] key value h p = (p, tt)
  Every-put (e ∷ m) key value h p =
      if-both (Every P) (e.0 == key) (p, h.1) (h.0, Every-put m key value h.1 p)

  pub Every-get :
      (m : GoMap V) (key : ℕ) (value : V) → Every P m → get m key ≡ some value → P (key, value)
  unfolding get
  Every-get [] key value h g = absurd (cc)
  Every-get (e ∷ m) key value h g = elim (Bool-cases (e.0 == key)) [
    | inl t ↦
        let at : some e.1 ≡ some value = ground (arith, g, t) in
        let same : e.0 ≡ key = (==_iff e.0 key).0 t in
        subst P (ap (λ k. (k, value)) same)
          (subst (λ v. P (e.0, v)) (ap (λ o. elim o [ none ↦ value | some v ↦ v ]) at) h.0)
    | inr f ↦ Every-get m key value h.1 (ground (arith, g, f))
  ]

module _ (decode_config : Command → Option (List ℕ)) (c : NodeConfig) where
  -- The node under a key is that of a booted node after some calls.
  abbrev pub Life : ℕ × Node → Type 0
  Life e = (cs : List Call) × ((run decode_config (boot (record c { id = e.0 })) cs).node ≡ e.1)

  run-snoc :
      (d : Driven) (cs : List Call) (call : Call)
      → run decode_config d (cs ++ call ∷ []) ≡ perform decode_config (run decode_config d cs) call
  unfolding run
  run-snoc d [] call = refl
  run-snoc d (k ∷ cs) call = run-snoc (perform decode_config d k) cs call

  Life-call :
      (id : ℕ) (n : Node) (call : Call) (f : Node → Node)
      → ((d : Driven) → (perform decode_config d call).node ≡ f d.node)
      → Life (id, n)
      → Life (id, f n)
  Life-call id n call f h (cs, e) =
      let start = boot (record c { id = id }) in
      (
        cs ++ call ∷ [],
        ap (λ d. d.node) (run-snoc start cs call) ∙ h (run decode_config start cs) ∙ ap f e,
      )

  pub Life-tick : (id : ℕ) (n : Node) → Life (id, n) → Life (id, tick n)
  unfolding perform tick
  Life-tick id n = Life-call id n ticks tick (λ d. refl)

  pub Life-propose :
      (id : ℕ) (n : Node) (command : Command) → Life (id, n) → Life (id, propose n command)
  unfolding perform propose
  Life-propose id n command = Life-call id n (proposes command) (λ n. propose n command) (λ d. refl)

  pub Life-step :
      (id : ℕ) (n : Node) (m : Message) (r : ℕ) → Life (id, n) → Life (id, step decode_config n m r)
  unfolding perform step
  Life-step id n m r = Life-call id n (receives m r) (λ n. step decode_config n m r) (λ d. refl)

  Life-ready : (id : ℕ) (n : Node) → Life (id, n) → Life (id, (ready n).0)
  unfolding perform ready
  Life-ready id n = Life-call id n collects (λ n. (ready n).0) (λ d. refl)

  pub Every-each_node :
      (f : Node → Node)
      → ((id : ℕ) (n : Node) → Life (id, n) → Life (id, f n))
      → (m : GoMap Node) → Every Life m
      → Every Life (each_node f m)
  unfolding each_node
  Every-each_node f k [] h = tt
  Every-each_node f k (e ∷ m) h = (k e.0 e.1 h.0, Every-each_node f k m h.1)

  pub Every-collect :
      (hash : Message → List ℕ) (m : GoMap Node) (pool : List Message)
      → Every Life m
      → Every Life (collect hash m pool).0
  unfolding collect
  Every-collect hash [] pool h = tt
  Every-collect hash (e ∷ m) pool h =
      (Life-ready e.0 e.1 h.0, Every-collect hash m (put_messages hash (ready e.1).1 pool) h.1)

  pub Every-remove_node : (id : ℕ) (m : GoMap Node) → Every Life m → Every Life (remove_node id m)
  unfolding remove_node
  Every-remove_node id [] h = tt
  Every-remove_node id (e ∷ m) h =
      if-both (Every Life) (e.0 == id) (Every-remove_node id m h.1)
        (h.0, Every-remove_node id m h.1)

  pub Every-put_nodes :
      (f : ℕ → Node)
      → ((id : ℕ) → Life (id, f id))
      → (n : ℕ) (m : GoMap Node) → Every Life m
      → Every Life (put_nodes f n m)
  unfolding put_nodes
  Every-put_nodes f k zero m h = h
  Every-put_nodes f k (suc n) m h =
      Every-put Life (put_nodes f n m) (suc n) (f (suc n)) (Every-put_nodes f k n m h) (k (suc n))

  pub Every-propose_first :
      (command : Command) (m nodes : GoMap Node)
      → Every Life m
      → Every Life nodes
      → Every Life (propose_first command m nodes).0
  unfolding propose_first
  Every-propose_first command [] nodes h k = k
  Every-propose_first command (e ∷ m) nodes h k =
      if-both {A = GoMap Node × Bool} (λ r. Every Life r.0) (is_stable_primary e.1.state)
        (Every-put Life nodes e.0 (propose e.1 command) k (Life-propose e.0 e.1 command h.0))
        (Every-propose_first command m nodes h.1 k)

  pub Life-fresh : (c' : NodeConfig) (id : ℕ) → c' ≡ record c { id = id } → Life (id, fresh_node c')
  unfolding run boot
  Life-fresh c' id e = ([], ap fresh_node (sym e))
