-- ===== src/Executor.antt =====
-- RaftMembershipExecutor (src/lib.rs): checked changes of a cluster's members, with rollback.
pub mod Rollback
pub mod Checks
mod Tests
use rust_raft.Types.{
  FormatText, Outcome, RaftError, ReplicaRole, Result, and_then, can_be_leader, err,
  invalid_request, is_ok, joined, ok, ◌>>=◌,
}
use rust_raft.Base.{
  Bool, List, Option, String, [], contains, false, if◌then◌else◌, is_empty, leb, length, ltb, none,
  not, opt_eq, some, true, ℕ, ◌&&◌, ◌++◌, ◌==◌, ◌||◌, ◌∷◌,
}
use rust_raft.Base.BTreeMap.{get}
use rust_raft.Node.{match_index}
use rust_raft.Cluster.State.{Cluster, membership}
use rust_raft.Cluster.Election.{Peer, start, transfer_leader}
use rust_raft.Cluster.Members.{
  add_learner, add_peer, add_witness, catchup_report, promote_peer, remove_peer,
}
use rust_raft.Membership.{JointMembership, Membership}

-- RaftMembershipOperation
pub data Operation : Type 0 where
  adding_node adding_voter adding_learner adding_witness : Peer → Operation
  promoting removing transferring : ℕ → Operation

-- The text of `reason`: of an error as it is, or with "; rolled_back" behind it.
pub data Reason : Type 0 where
  applied : Reason
  failed : RaftError → Reason
  failed_and_rolled_back : RaftError → Reason

-- RaftMembershipExecutionReport
pub record ExecutionReport : Type 0 where
  pub operation : Operation
  pub before : Membership
  pub after : Membership
  pub leader_before : Option ℕ
  pub leader_after : Option ℕ
  pub success : Bool
  pub reason : Reason
  pub validation_passed : Bool
  pub blockers : List FormatText
  pub rolled_back : Bool
  pub joint_consensus : Option JointMembership

-- blockers.push(format!(..)) under a condition
abbrev pub block : Bool → String → List ℕ → List String → List FormatText
block true template numbers texts =
    record { template = template; numbers = numbers; texts = texts } ∷ []
block false template numbers texts = []

unfoldable pub is_member : ℕ → Membership → Bool
is_member id m = contains id m.voters || (contains id m.learners || contains id m.witnesses)

-- validate_peer_absent
unfoldable pub validate_peer_absent : Membership → ℕ → List FormatText
unfolding is_member
validate_peer_absent m id = block (is_member id m) "node_{}_already_member" (id ∷ []) []

unfoldable pub validate_promotion : Cluster → ℕ → List FormatText
unfolding membership catchup_report
validate_promotion c id =
    if not (contains id (membership c).learners)
    then block true "node_{}_is_not_learner" (id ∷ []) []
    else elim (catchup_report c id) [
      | err e ↦ []
      | ok report ↦
          block (not report.promotable) "learner_{}_not_promotable:{}" (id ∷ [])
            (report.reason ∷ [])
    ]

unfoldable pub validate_removal : Cluster → ℕ → List FormatText
unfolding membership is_member
validate_removal c id =
    block (not (is_member id (membership c))) "node_{}_not_member" (id ∷ []) []
    ++ (block (contains id (membership c).voters && leb (length (membership c).voters) 1)
          "cannot_remove_last_voter" [] []
        ++ block (opt_eq c.leader_id (some id)) "cannot_remove_current_leader_without_transfer" []
            [])

unfoldable pub validate_transfer : Cluster → ℕ → List FormatText
unfolding get can_be_leader match_index
validate_transfer c id = elim (get id c.nodes) [
  | none ↦ block true "node_{}_not_found" (id ∷ []) []
  | some node ↦
      if not (can_be_leader node.replica_role)
      then block true "node_{}_cannot_be_leader" (id ∷ []) []
      else block (ltb (match_index node) c.commit_index) "node_{}_is_lagging" (id ∷ []) []
]

-- RaftMembershipExecutor::validate
unfoldable pub validate : Cluster → Operation → List FormatText
unfolding validate_peer_absent validate_promotion validate_removal validate_transfer membership
validate c (adding_node peer) = validate_peer_absent (membership c) peer.node_id
validate c (adding_voter peer) = validate_peer_absent (membership c) peer.node_id
validate c (adding_learner peer) = validate_peer_absent (membership c) peer.node_id
validate c (adding_witness peer) = validate_peer_absent (membership c) peer.node_id
validate c (promoting id) = validate_promotion c id
validate c (removing id) = validate_removal c id
validate c (transferring id) = validate_transfer c id

-- The call for a promotion.
unfoldable pub promote_checked : Cluster → ℕ → Outcome Cluster (Unit {0})
unfolding catchup_report promote_peer
promote_checked c id = elim (catchup_report c id) [
  | err e ↦ (c, err e)
  | ok report ↦ if report.promotable then promote_peer c id else (
    c,
    err (
        invalid_request (
          joined (
            record {
              template = "node {} cannot be promoted: {}";
              numbers = id ∷ [];
              texts = report.reason ∷ [];
            }
            ∷ []))),
  )
]

-- The call for an operation that passed the checks.
unfoldable pub apply_operation : Cluster → Operation → Outcome Cluster (Unit {0})
unfolding add_peer add_learner add_witness promote_checked remove_peer transfer_leader
apply_operation c (adding_node peer) = add_peer c peer
apply_operation c (adding_voter peer) = add_peer c (record peer { role = ReplicaRole.voter })
apply_operation c (adding_learner peer) = add_learner c peer
apply_operation c (adding_witness peer) = add_witness c peer
apply_operation c (promoting id) = promote_checked c id
apply_operation c (removing id) = remove_peer c id
apply_operation c (transferring id) = transfer_leader c id

-- `==` on lists of ids
unfoldable pub same_nodes : List ℕ → List ℕ → Bool
same_nodes [] [] = true
same_nodes (x ∷ xs) (y ∷ ys) = x == y && same_nodes xs ys
same_nodes _ _ = false

unfoldable pub joint_if_voters_changed : Membership → Membership → Option JointMembership
unfolding same_nodes
joint_if_voters_changed before after =
    if same_nodes before.voters after.voters
    then none
    else some (record { old_voters = before.voters; new_voters = after.voters })

unfoldable pub reason_of : Bool → Result (Unit {0}) → Reason
reason_of rolled_back (ok done) = applied
reason_of true (err e) = failed_and_rolled_back e
reason_of false (err e) = failed e

-- The executor's reports, and the cluster that it works on.
abbrev pub Workflow : Type 0
Workflow = List ExecutionReport × Cluster

-- The result of the operation, or the error of the checks.
unfoldable pub checked_apply : Cluster → Operation → Outcome Cluster (Unit {0})
unfolding validate apply_operation
checked_apply c op =
    if is_empty (validate c op)
    then apply_operation c op
    else (c, err (invalid_request (joined (validate c op))))

unfoldable pub execution_report :
    Cluster → Operation → Bool → Result (Unit {0}) → Cluster → ExecutionReport
unfolding membership validate reason_of joint_if_voters_changed
execution_report c op rolled_back result c' = record {
  operation = op;
  before = membership c;
  after = membership c';
  leader_before = c.leader_id;
  leader_after = c'.leader_id;
  success = is_ok result;
  reason = reason_of rolled_back result;
  validation_passed = is_empty (validate c op);
  blockers = validate c op;
  rolled_back = rolled_back;
  joint_consensus = joint_if_voters_changed (membership c) (membership c');
}

-- `result.map(|_| report)` and the report kept, with the cluster restored if it is rolled back.
unfoldable pub finish_execution :
    Bool → Operation → Workflow → Outcome Cluster (Unit {0}) → Outcome Workflow ExecutionReport
unfolding execution_report validate
finish_execution rollback op (reports, c) (changed, result) =
    let rolled_back = not (is_ok result) && (is_empty (validate c op) && rollback) in
    let c' = if rolled_back then c else changed in
    let report = execution_report c op rolled_back result c' in
    ((reports ++ report ∷ [], c'), result >>= (λ _. ok report))

-- execute_inner
unfoldable pub execute_inner : Bool → Operation → Workflow → Outcome Workflow ExecutionReport
unfolding checked_apply finish_execution
execute_inner rollback op (reports, c) =
    finish_execution rollback op (reports, c) (checked_apply c op)

-- execute
unfoldable pub execute : Operation → Workflow → Outcome Workflow ExecutionReport
unfolding execute_inner
execute op w = execute_inner false op w

-- execute_all; `done` are the reports of this call so far.
unfoldable pub execute_all :
    List ExecutionReport → List Operation → Workflow → Outcome Workflow (List ExecutionReport)
unfolding execute
execute_all done [] w = (w, ok done)
execute_all done (op ∷ ops) w =
    and_then (execute op w) (λ w' report. execute_all (done ++ report ∷ []) ops w')

-- reason.contains("rolled_back"), for errors whose own texts do not have it
unfoldable pub says_rolled_back : Reason → Bool
says_rolled_back applied = false
says_rolled_back (failed e) = false
says_rolled_back (failed_and_rolled_back e) = true

unfoldable pub add_rolled_back : Reason → Reason
add_rolled_back applied = applied
add_rolled_back (failed e) = failed_and_rolled_back e
add_rolled_back (failed_and_rolled_back e) = failed_and_rolled_back e

unfoldable pub mark_rolled_back : ExecutionReport → ExecutionReport
unfolding says_rolled_back add_rolled_back
mark_rolled_back r = if r.success then r else record r {
  rolled_back = true;
  reason = if says_rolled_back r.reason then r.reason else add_rolled_back r.reason;
}

-- A write through `reports.last_mut()`.
unfoldable pub modify_last_report :
    (ExecutionReport → ExecutionReport) → List ExecutionReport → List ExecutionReport
modify_last_report f [] = []
modify_last_report f (r ∷ []) = f r ∷ []
modify_last_report f (r ∷ q ∷ rs) = r ∷ modify_last_report f (q ∷ rs)

-- What an error does to the cluster and to the last report.
unfoldable pub restore_on_error :
    Cluster → Outcome Workflow ExecutionReport → Outcome Workflow ExecutionReport
unfolding mark_rolled_back modify_last_report
restore_on_error start (w, ok report) = (w, ok report)
restore_on_error start (w, err e) = ((modify_last_report mark_rolled_back w.0, start), err e)

-- The loop of execute_all_with_rollback; `start` is the cluster before all operations, and `done`
-- are the reports of this call so far.
unfoldable pub rollback_loop :
    Cluster
    → List ExecutionReport
    → List Operation
    → Workflow
    → Outcome Workflow (List ExecutionReport)
unfolding execute_inner restore_on_error
rollback_loop start done [] w = (w, ok done)
rollback_loop start done (op ∷ ops) w =
    and_then (restore_on_error start (execute_inner true op w))
      (λ w' report. rollback_loop start (done ++ report ∷ []) ops w')

-- execute_all_with_rollback
unfoldable pub execute_all_with_rollback :
    List Operation → Workflow → Outcome Workflow (List ExecutionReport)
unfolding rollback_loop
execute_all_with_rollback ops (reports, c) = rollback_loop c [] ops (reports, c)
