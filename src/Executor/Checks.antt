-- ===== src/Executor/Checks.antt =====
-- The checks of RaftMembershipExecutor (src/lib.rs) on what it lets through.
use rust_raft.Types.{FormatText, can_be_leader, is_ok}
use rust_raft.Base.{
  Bool, Bool-cases, List, Option-cases, String, [], arith, contains, false, if◌then◌else◌, inl, inr,
  is_empty, leb, length, ltb, not, opt_eq, refl, some, true, ℕ, ◌&&◌, ◌++◌, ◌<◌, ◌∷◌, ◌≡◌, ◌≤◌,
}
use rust_raft.Cluster.State.{Cluster, membership}
use rust_raft.Node.{RaftNode, match_index}
use rust_raft.Base.BTreeMap.{get}
use rust_raft.Executor.{
  Operation, Workflow, block, checked_apply, execute_inner, finish_execution, is_member, removing,
  transferring, validate, validate_removal, validate_transfer,
}

-- An operation that succeeds has passed its checks.
execute_inner-validated :
    (rollback : Bool) (op : Operation) (w : Workflow)
    → is_ok (execute_inner rollback op w).1 ≡ true
    → is_empty (validate w.1 op) ≡ true
unfolding execute_inner finish_execution checked_apply
execute_inner-validated rollback op (reports, c) h = elim (Bool-cases (is_empty (validate c op))) [
  | inl t ↦ t
  | inr f ↦ absurd (
      let g : is_ok (execute_inner rollback op (reports, c)).1 ≡ false =
        rw (f, execute_inner) refl in
      cc)
]

-- A node that may be removed: a member that does not lead, and not the only voter.
pub record IsRemovable (c : Cluster) (id : ℕ) : Type 0 where
  pub member : is_member id (membership c) ≡ true
  pub not_leader : opt_eq c.leader_id (some id) ≡ false
  pub not_last : contains id (membership c).voters ≡ true → 1 < length (membership c).voters

no_block :
    (b : Bool) (template : String) (numbers : List ℕ) (texts : List String) (rest : List FormatText)
    → is_empty (block b template numbers texts ++ rest) ≡ true
    → (b ≡ false) × (is_empty rest ≡ true)
no_block true template numbers texts rest h = absurd (cc)
no_block false template numbers texts rest h = (refl, h)

last_block :
    (b : Bool) (template : String) (numbers : List ℕ) (texts : List String)
    → is_empty (block b template numbers texts) ≡ true
    → b ≡ false
last_block true template numbers texts h = absurd (cc)
last_block false template numbers texts h = refl

validate_removal-IsRemovable :
    (c : Cluster) (id : ℕ) → is_empty (validate_removal c id) ≡ true → IsRemovable c id
unfolding validate_removal
validate_removal-IsRemovable c id h =
    let only = contains id (membership c).voters && leb (length (membership c).voters) 1 in
    let leads = opt_eq c.leader_id (some id) in
    let third = block leads "cannot_remove_current_leader_without_transfer" [] [] in
    let second = block only "cannot_remove_last_voter" [] [] ++ third in
    let (m, h2) =
      no_block (not (is_member id (membership c))) "node_{}_not_member" (id ∷ []) [] second h in
    let (v, h3) = no_block only "cannot_remove_last_voter" [] [] third h2 in
    record {
      member = ground (arith, m);
      not_leader = last_block leads "cannot_remove_current_leader_without_transfer" [] [] h3;
      not_last = λ voter. ground (arith, v);
    }

-- A node that may lead: it can be a leader, and has every committed entry.
pub record IsPromotable (c : Cluster) (id : ℕ) : Type 0 where
  pub node : RaftNode
  pub found : get id c.nodes ≡ some node
  pub leads : can_be_leader node.replica_role ≡ true
  pub caught_up : c.commit_index ≤ match_index node

validate_transfer-IsPromotable :
    (c : Cluster) (id : ℕ) → is_empty (validate_transfer c id) ≡ true → IsPromotable c id
unfolding validate_transfer
validate_transfer-IsPromotable c id h = elim (Option-cases (get id c.nodes)) [
  | inl n ↦
      absurd
        (let g : is_empty (validate_transfer c id) ≡ false = rw (n, validate_transfer) refl in cc)
  | inr (node, e) ↦ checked node e (rw (e, validate_transfer) at h)
]
  where
    checked :
        (node : RaftNode)
        → get id c.nodes ≡ some node
        → is_empty (
            if not (can_be_leader node.replica_role)
            then block true "node_{}_cannot_be_leader" (id ∷ []) []
            else block (ltb (match_index node) c.commit_index) "node_{}_is_lagging" (id ∷ []) [])
          ≡ true
        → IsPromotable c id
    checked node e g = record {
      node = node;
      found = e;
      leads = ground (arith, g);
      caught_up = ground (arith, g);
    }

-- A removal that the executor lets through, with or without rollback, is of a member that does not
-- lead and is not the only voter.
pub execute-IsRemovable :
    (rollback : Bool) (id : ℕ) (w : Workflow)
    → is_ok (execute_inner rollback (removing id) w).1 ≡ true
    → IsRemovable w.1 id
execute-IsRemovable rollback id w h =
    validate_removal-IsRemovable w.1 id
      (unfold validate in execute_inner-validated rollback (removing id) w h)

-- A transfer of leadership that the executor lets through goes to a node of the cluster that can
-- lead and has every committed entry.
pub execute-IsPromotable :
    (rollback : Bool) (id : ℕ) (w : Workflow)
    → is_ok (execute_inner rollback (transferring id) w).1 ≡ true
    → IsPromotable w.1 id
execute-IsPromotable rollback id w h =
    validate_transfer-IsPromotable w.1 id
      (unfold validate in execute_inner-validated rollback (transferring id) w h)
