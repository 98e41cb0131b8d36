-- ===== src/Cluster/Proposals.antt =====
-- What a proposal puts into the logs: propose of RaftCluster (src/lib.rs).
use rust_raft.Node.{RaftNode, advance_commit, append_entry}
use rust_raft.Base.BTreeMap.{
  BTreeMap, contains-keys, get, get-insert, get-map_values, insert, values,
}
use rust_raft.Base.{
  Bool, Bool-cases, List, Option-cases, [], arith, contains, false, if◌then◌else◌, inl, inr,
  is_empty, is_some, max, refl, some, true, ℕ, ◌&&◌, ◌==◌, ◌||◌, ◌∷◌, ◌≡◌,
}
use rust_raft.Types.{LogEntry, LogId, Outcome, Result-cases, can_serve_data, err, ok}
use rust_raft.Pipeline.Append.{queue_append}
use rust_raft.Cluster.State.{
  Cluster, advance_healthy, candidate_indexes, node_ids, quorum_commit, refresh_cluster_indexes,
  refresh_commit_index,
}
use rust_raft.Cluster.Replicate.{
  finish_propose, next_log_id, propose, propose_checks, propose_loop, propose_to, replicate_to,
}
use rust_raft.Pipeline.State.{ReplicationPipeline}

-- The nodes that the loop of `propose` gives the entry to: the leader, and each healthy node that
-- serves data and has a pipeline.
abbrev pub receives : BTreeMap ReplicationPipeline → ℕ → ℕ → RaftNode → Bool
receives pipelines leader k n =
    k == leader || (can_serve_data n.replica_role && (is_some (get k pipelines) && n.healthy))

abbrev given : LogEntry → Bool → RaftNode → RaftNode
given e b n = if b then append_entry n e else n

-- One round touches the node with its id only, and takes no pipeline away.
record Round (c c' : Cluster) (leader id : ℕ) (e : LogEntry) : Type 0 where
  nodes :
      (k : ℕ) (n : RaftNode)
      → get k c.nodes ≡ some n
      → get k c'.nodes ≡ some (given e (id == k && receives c.peer_pipelines leader k n) n)
  pipelines : (k : ℕ) → is_some (get k c'.peer_pipelines) ≡ is_some (get k c.peer_pipelines)

-- A peer that serves data and is up takes the entry, and its pipeline becomes some other one.
healthy-Round :
    (c : Cluster) (leader id : ℕ) (e : LogEntry) (node : RaftNode) (p q : ReplicationPipeline)
    → get id c.nodes ≡ some node
    → get id c.peer_pipelines ≡ some p
    → can_serve_data node.replica_role ≡ true
    → node.healthy ≡ true
    → Round c
        (record c {
          nodes = insert id (append_entry node e) c.nodes;
          peer_pipelines = insert id q c.peer_pipelines;
        })
        leader
        id
        e
healthy-Round c leader id e node p q g t s h = record {
  nodes = λ k n j. ground (arith, get-insert id k (append_entry node e) c.nodes);
  pipelines = λ k. ground (arith, get-insert id k q c.peer_pipelines);
}

unhealthy-Round :
    (c : Cluster) (leader id : ℕ) (e : LogEntry) (node : RaftNode) (p q : ReplicationPipeline)
    → get id c.nodes ≡ some node
    → get id c.peer_pipelines ≡ some p
    → (id == leader) ≡ false
    → node.healthy ≡ false
    → Round c (record c { peer_pipelines = insert id q c.peer_pipelines }) leader id e
unhealthy-Round c leader id e node p q g t o h = record {
  nodes = λ k n j. ground arith;
  pipelines = λ k. ground (arith, get-insert id k q c.peer_pipelines);
}

-- Either way, whatever the two pipelines are.
peer-Round :
    (c : Cluster) (leader id : ℕ) (e : LogEntry) (node : RaftNode) (p q q' : ReplicationPipeline)
    (b : Bool)
    → get id c.nodes ≡ some node
    → get id c.peer_pipelines ≡ some p
    → (id == leader) ≡ false
    → can_serve_data node.replica_role ≡ true
    → node.healthy ≡ b
    → let after : Outcome Cluster (Unit {0}) =
        if b
        then (
          record c {
            nodes = insert id (append_entry node e) c.nodes;
            peer_pipelines = insert id q c.peer_pipelines;
          },
          ok tt,
        )
        else (record c { peer_pipelines = insert id q' c.peer_pipelines }, ok tt) in
      Round c after.0 leader id e
peer-Round c leader id e node p q q' true g t f s h = healthy-Round c leader id e node p q g t s h
peer-Round c leader id e node p q q' false g t f s h =
    unhealthy-Round c leader id e node p q' g t f h

replicate_to-Round :
    (c : Cluster) (leader id : ℕ) (e : LogEntry) (node : RaftNode) (p : ReplicationPipeline)
    (o : Outcome ReplicationPipeline (Unit {0}))
    → get id c.nodes ≡ some node
    → get id c.peer_pipelines ≡ some p
    → (id == leader) ≡ false
    → can_serve_data node.replica_role ≡ true
    → (replicate_to c e node id o).1 ≡ ok tt
    → Round c (replicate_to c e node id o).0 leader id e
unfolding replicate_to
replicate_to-Round c leader id e node p (q, err x) g t f s h = absurd (ground arith)
replicate_to-Round c leader id e node p (q, ok x) g t f s h =
    peer-Round c leader id e node p _ _ node.healthy g t f s refl

propose_to-Round :
    (c : Cluster) (leader id : ℕ) (e : LogEntry)
    → (propose_to c leader e id).1 ≡ ok tt
    → Round c (propose_to c leader e id).0 leader id e
unfolding propose_to
propose_to-Round c leader id e h = elim (Option-cases (get id c.nodes)) [
  | inl q ↦
      rw (q, propose_to) (record { nodes = λ k n j. ground (arith, q); pipelines = λ k. refl })
  | inr (node, q) ↦ elim (Bool-cases (id == leader)) [
    | inl own ↦
        rw (q, propose_to, own)
          (record {
            nodes = λ k n j. ground (arith, q, get-insert id k (append_entry node e) c.nodes);
            pipelines = λ k. refl;
          })
    | inr other ↦ elim (Bool-cases (can_serve_data node.replica_role)) [
      | inr witness ↦
          rw (q, propose_to, other, witness)
            (record { nodes = λ k n j. ground (arith, q); pipelines = λ k. refl })
      | inl serves ↦ elim (Option-cases (get id c.peer_pipelines)) [
        | inl none_there ↦
            rw (q, propose_to, other, serves, none_there)
              (record { nodes = λ k n j. ground (arith, q, none_there); pipelines = λ k. refl })
        | inr (p, there) ↦
            let sent : (replicate_to c e node id (queue_append p e)).1 ≡ ok tt =
              rw (q, propose_to, other, serves, there) at h in
            rw (q, propose_to, other, serves, there)
              (replicate_to-Round c leader id e node p (queue_append p e) q there other serves sent)
      ]
    ]
  ]
]

-- No id stands in the list twice, as in the keys of a map.
abbrev pub AllDistinct : List ℕ → Type 0
AllDistinct [] = Unit {0}
AllDistinct (x ∷ xs) = (contains x xs ≡ false) × AllDistinct xs

propose_loop-nodes :
    (c : Cluster) (leader : ℕ) (e : LogEntry) (ids : List ℕ) (k : ℕ) (n : RaftNode)
    → AllDistinct ids
    → (propose_loop c leader e ids).1 ≡ ok tt
    → get k c.nodes ≡ some n
    → get k (propose_loop c leader e ids).0.nodes
      ≡ some (given e (contains k ids && receives c.peer_pipelines leader k n) n)
unfolding propose_loop
propose_loop-nodes c leader e [] k n d h g = g
propose_loop-nodes c leader e (id ∷ ids) k n d h g =
    elim (Result-cases (propose_to c leader e id).1) [
      | inr (x, q) ↦ absurd (ground (arith, q))
      | inl (x, q) ↦
          let step = propose_to-Round c leader id e q in
          let ih =
            propose_loop-nodes (propose_to c leader e id).0 leader e ids k
              (given e (id == k && receives c.peer_pipelines leader k n) n) d.1
              (rw (q, propose_loop) at h) (step.nodes k n g) in
          rw (q, propose_loop, ih)
            (elim (Bool-cases (id == k)) [
              | inl same ↦
                  let here : id ≡ k = ground arith in
                  let later : contains k ids ≡ false = rw here at d.0 in rw (same, later)
              | inr other ↦ rw (other, step.pipelines k)
            ])
    ]

refresh_commit_index-log :
    (c : Cluster) (k : ℕ) (n : RaftNode)
    → get k c.nodes ≡ some n
    → (n' : RaftNode) × ((get k (refresh_commit_index c).nodes ≡ some n') × (n'.log ≡ n.log))
unfolding refresh_commit_index refresh_cluster_indexes advance_healthy advance_commit
refresh_commit_index-log c k n g =
    elim (Bool-cases (is_empty (candidate_indexes (values c.nodes)))) [
      | inl nobody ↦ rw nobody (n, (g, refl))
      | inr somebody ↦
          let commit = max c.commit_index (quorum_commit (values c.nodes)) in
          rw somebody (
            advance_healthy commit n,
            (get-map_values k (advance_healthy commit) c.nodes n g, ground arith),
          )
    ]

propose_checks-leader :
    (c : Cluster) (payload : List ℕ) (leader : ℕ)
    → propose_checks c payload ≡ ok leader
    → c.leader_id ≡ some leader
unfolding propose_checks
propose_checks-leader c payload leader h = elim (Option-cases c.leader_id) [
  | inl e ↦ absurd (ground (arith, e))
  | inr (l, e) ↦ ground (arith, e)
]

-- The cluster in which the loop of a proposal starts.
abbrev proposing : Cluster → Cluster
proposing c = record c { last_log_index = (next_log_id c).index }

propose_node :
    (c : Cluster) (leader : ℕ) (e : LogEntry) (k : ℕ) (n : RaftNode)
    → AllDistinct (node_ids c)
    → (propose_loop (proposing c) leader e (node_ids c)).1 ≡ ok tt
    → get k c.nodes ≡ some n
    → (n' : RaftNode) × ((get k
            (refresh_commit_index (propose_loop (proposing c) leader e (node_ids c)).0).nodes
          ≡ some n')
        × (n'.log
            ≡ (if receives c.peer_pipelines leader k n then (append_entry n e).log else n.log)))
unfolding node_ids
propose_node c leader e k n d h g =
    let listed = contains-keys k c.nodes n g in
    let looped = propose_loop-nodes (proposing c) leader e (node_ids c) k n d h g in
    let (n', kept) =
      refresh_commit_index-log (propose_loop (proposing c) leader e (node_ids c)).0 k _ looped in
    (n', (kept.0, ground (arith, kept.1)))

finish_propose-ok :
    (next log_id : LogId) (o : Outcome Cluster (Unit {0}))
    → (finish_propose next o).1 ≡ ok log_id
    → (log_id ≡ next) × (o.1 ≡ ok tt) × ((finish_propose next o).0 ≡ refresh_commit_index o.0)
unfolding finish_propose
finish_propose-ok next log_id (c, err x) h = absurd (ground arith)
finish_propose-ok next log_id (c, ok x) h = (ground arith, refl, refl)

-- A proposal that succeeds takes the index after the cluster's last, in the cluster's term; the
-- leader, and each healthy node that serves data and has a pipeline, has appended exactly that
-- entry, and every other node has the log that it had. The ids of the nodes are distinct.
pub propose_lem :
    (c : Cluster) (payload : List ℕ) (log_id : LogId)
    → AllDistinct (node_ids c)
    → (propose c payload).1 ≡ ok log_id
    → (leader : ℕ) × ((c.leader_id ≡ some leader)
        × (log_id ≡ next_log_id c)
        × ((k : ℕ) (n : RaftNode)
            → get k c.nodes ≡ some n
            → (n' : RaftNode) × ((get k (propose c payload).0.nodes ≡ some n')
                × (n'.log ≡ (
                    if receives c.peer_pipelines leader k n
                    then (append_entry n (record { log_id = log_id; payload = payload })).log
                    else n.log)))))
unfolding propose
propose_lem c payload log_id d h = elim (Result-cases (propose_checks c payload)) [
  | inr (x, q) ↦ absurd (ground (arith, q))
  | inl (leader, q) ↦
      let e : LogEntry = record { log_id = next_log_id c; payload = payload } in
      let o = propose_loop (proposing c) leader e (node_ids c) in
      let finished : (finish_propose (next_log_id c) o).1 ≡ ok log_id = rw q at h in
      let end = finish_propose-ok (next_log_id c) log_id o finished in
      (
        leader,
        (
          propose_checks-leader c payload leader q,
          end.0,
          λ k n g. rw (end.0, q, propose, end.2) (propose_node c leader e k n d end.1 g),
        ),
      )
]
