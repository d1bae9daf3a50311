-- ===== src/Types/Partition/Offered.antt =====
-- The guards under which `Actions` of a Partition offers an action.
use raft_rl_test.Base.{
  ℕ, ◌≡◌, Bool, true, not, ◌&&◌, ◌||◌, ◌<◌, List, [], ◌∷◌, ◌++◌, length, map, if◌then◌else◌,
  if-cases, ltb, ◌==◌, bytes_eq_refl, arith,
}
use raft_rl_test.Base.Int.{pos, ltb_ℤ, eqb_ℤ}
use raft_rl_test.Base.Assoc.{has}
use raft_rl_test.Base.Every.{Every, Every-append, Every-weaken}
use raft_rl_test.Types.Partition.State.{
  Partition, Action, create_partition, keep_same_partition, stop_start, stop, start, send_request,
  byzantine,
}
use raft_rl_test.Types.Partition.Painted.{
  SomeNode, Wears, colors_where-SomeNode, has_hash-Wears, Positive, ltb-Positive, IsBelow,
  difference-IsBelow, difference-Positive,
}
use raft_rl_test.Types.Partition.Actions.{
  has_hash, distinct, colors_where, hashes, is_active, inactive_replicas, may_crash, partition_of,
  partition_actions, crash_actions, request_actions, byzantine_actions, actions,
}

module _ {A B : Type 0} (P : B → Type 0) (f : A → B) where
  Every-map :
      (Q : A → Type 0) → ((x : A) → Q x → P (f x)) → (xs : List A) → Every Q xs → Every P (map f xs)
  Every-map Q k [] h = tt
  Every-map Q k (x ∷ xs) h = (k x h.0, Every-map Q k xs h.1)

  Every-map-all : ((x : A) → P (f x)) → (xs : List A) → Every P (map f xs)
  Every-map-all k [] = tt
  Every-map-all k (x ∷ xs) = (k x, Every-map-all k xs)

-- The keys of a map of hashes are among the hashes.
pub Every-distinct : (hs : List (List ℕ)) → Every (λ h. has_hash h hs ≡ true) (distinct hs)
unfolding distinct
Every-distinct [] = tt
Every-distinct (k ∷ ks) =
    let Among = λ (h : List ℕ). has_hash h (k ∷ ks) ≡ true in
    let rest : Every Among (distinct ks) =
      Every-weaken (λ h. has_hash h ks ≡ true) Among (λ h e. ground (arith, e)) (distinct ks)
        (Every-distinct ks) in
    if-cases (Every Among) (has_hash k (distinct ks)) (λ e. rest)
      (λ e. (ground (arith, bytes_eq_refl k), rest))

if-Every :
    (P : Action → Type 0) (b : Bool) (xs : List Action)
    → (b ≡ true → Every P xs)
    → Every P (if b then xs else [])
if-Every P b xs k = if-cases (Every P) b k (λ e. tt)

&&-both : (b c : Bool) → (b && c) ≡ true → (b ≡ true) × (c ≡ true)
&&-both b c h = ground arith

module _ {Replica Request : Type 0} where
  abbrev pub is_running : Partition Replica Request → ℕ → Bool
  is_running p n = has n p.active_nodes

  -- What holds of a partition that offers an action.
  abbrev pub Allowed : Partition Replica Request → Action → Type 0
  Allowed p (create_partition new) = SomeNode (is_running p) p.replica_colors
  Allowed p keep_same_partition = SomeNode (is_running p) p.replica_colors
  Allowed p (stop_start color stop) =
      (p.with_crashes ≡ true)
      × Positive p.remaining_crashes
      × IsBelow p.max_inactive (length p.replica_colors) (length p.active_nodes)
      × Wears (is_running p) color p.replica_colors
  Allowed p (stop_start color start) =
      (p.with_crashes ≡ true) × (length p.active_nodes < length p.replica_colors)
  Allowed p send_request = (p.can_deliver_request ≡ true) × (0 < length p.pending_requests)
  Allowed p (byzantine color) =
      (p.with_byzantine ≡ true)
      × Positive p.remaining_byzantine
      × Wears (λ n. not (has n p.byzantine_nodes) && has n p.active_nodes) color p.replica_colors

  partition_actions-Allowed :
      (enumerate : List (List ℕ) → List (List (List (List ℕ)))) (p : Partition Replica Request)
      → Every (Allowed p) (partition_actions enumerate p)
  unfolding partition_actions
  partition_actions-Allowed enumerate p =
      let active = hashes (colors_where (is_active p) p.replica_colors) in
      if-cases (Every (Allowed p)) (length active == 0) (λ e. tt)
        (λ e.
          let some_node = colors_where-SomeNode (is_active p) p.replica_colors e in
          (
            some_node,
            Every-map-all (Allowed p) (λ parts. create_partition (partition_of p parts))
                (λ parts. some_node) (enumerate active),
          ))

  may_crash-guards :
      (p : Partition Replica Request)
      → may_crash p ≡ true
      → Positive p.remaining_crashes
        × IsBelow p.max_inactive (length p.replica_colors) (length p.active_nodes)
  may_crash-guards p h =
      let both =
        &&-both (ltb_ℤ (pos 0) p.remaining_crashes)
          (ltb_ℤ (inactive_replicas p) p.max_inactive || eqb_ℤ p.max_inactive (pos 0)) h in
      (
        ltb-Positive p.remaining_crashes both.0,
        difference-IsBelow p.max_inactive (length p.replica_colors) (length p.active_nodes) both.1,
      )

  crash_actions-Allowed : (p : Partition Replica Request) → Every (Allowed p) (crash_actions p)
  unfolding crash_actions
  crash_actions-Allowed p =
      let active = hashes (colors_where (is_active p) p.replica_colors) in
      let stops = map (λ h. stop_start h stop) (distinct active) in
      let starts = stop_start [] start ∷ [] in
      let may_start = ltb_ℤ (pos 0) (inactive_replicas p) in
      if-Every (Allowed p) p.with_crashes
        ((if may_crash p then stops else []) ++ (if may_start then starts else []))
        (λ e.
          Every-append (Allowed p) (if may_crash p then stops else [])
            (if may_start then starts else [])
            (if-Every (Allowed p) (may_crash p) stops (λ d.
              Every-map (Allowed p) (λ h. stop_start h stop) (λ h. has_hash h active ≡ true)
                (λ h m. (
                  e,
                  (may_crash-guards p d).0,
                  (may_crash-guards p d).1,
                  has_hash-Wears (is_active p) h p.replica_colors m,
                ))
                (distinct active) (Every-distinct active)))
            (if-Every (Allowed p) may_start starts (λ d.
              ((e, difference-Positive (length p.replica_colors) (length p.active_nodes) d), tt))))

  request_actions-Allowed : (p : Partition Replica Request) → Every (Allowed p) (request_actions p)
  unfolding request_actions
  request_actions-Allowed p =
      if-Every (Allowed p) (p.can_deliver_request && ltb 0 (length p.pending_requests))
        (send_request ∷ [])
        (λ e.
          let both = &&-both p.can_deliver_request (ltb 0 (length p.pending_requests)) e in
          ((both.0, ground (arith, both.1)), tt))

  byzantine_actions-Allowed :
      (p : Partition Replica Request) → Every (Allowed p) (byzantine_actions p)
  unfolding byzantine_actions
  byzantine_actions-Allowed p =
      let honest =
        hashes
          (colors_where (λ n. not (has n p.byzantine_nodes) && is_active p n) p.replica_colors) in
      if-Every (Allowed p) (p.with_byzantine && ltb_ℤ (pos 0) p.remaining_byzantine)
        (map byzantine (distinct honest))
        (λ e.
          let both = &&-both p.with_byzantine (ltb_ℤ (pos 0) p.remaining_byzantine) e in
          Every-map (Allowed p) byzantine (λ h. has_hash h honest ≡ true)
            (λ h m. (
              both.0,
              ltb-Positive p.remaining_byzantine both.1,
              has_hash-Wears (λ n. not (has n p.byzantine_nodes) && is_active p n) h
                  p.replica_colors m,
            ))
            (distinct honest) (Every-distinct honest))

  -- Each action on offer is allowed: a partition only while a node is running, a stop only with
  -- crashes left and below the bound on stopped nodes (0 is no bound) and for the colour of a running
  -- node, a start only if a node is stopped, a request only if one is pending and can be delivered,
  -- and a Byzantine node only with some left and for the colour of a running node that is honest.
  pub actions-Allowed :
      (enumerate : List (List ℕ) → List (List (List (List ℕ)))) (p : Partition Replica Request)
      → Every (Allowed p) (actions enumerate p)
  unfolding actions
  actions-Allowed enumerate p =
      let P = Allowed p in
      Every-append P (partition_actions enumerate p) _ (partition_actions-Allowed enumerate p) (
        Every-append P (crash_actions p) _ (crash_actions-Allowed p) (
          Every-append P (request_actions p) _ (request_actions-Allowed p)
            (byzantine_actions-Allowed p)))
