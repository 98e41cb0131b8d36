-- ===== src/Executor/Rollback.antt =====
-- RaftMembershipExecutor (src/lib.rs): one operation and a sequence of them, with rollback.
use mathlib.Core.Path.{subst}
use rust_raft.Types.{Outcome, RaftError, Result, and_then, err, is_ok, ok}
use rust_raft.Base.{
  Bool, Bool-cases, List, [], ap, append-nil, append_assoc, arith, false, if◌then◌else◌, inl, inr,
  is_empty, map, refl, sym, true, ◌&&◌, ◌++◌, ◌∙◌, ◌∷◌, ◌≡◌,
}
use rust_raft.Cluster.State.{Cluster, membership}
use rust_raft.Wal.Recovery.{All}
use rust_raft.Executor.{
  ExecutionReport, Operation, Workflow, checked_apply, execute_all_with_rollback, execute_inner,
  execution_report, finish_execution, mark_rolled_back, modify_last_report, restore_on_error,
  rollback_loop, validate,
}

-- What one operation promises: exactly one report, which says what happened to the cluster.
pub record IsExecuted (rollback : Bool) (op : Operation) (w w' : Workflow)
    (result : Result ExecutionReport) : Type 0 where
  pub report : ExecutionReport
  pub kept : w'.0 ≡ w.0 ++ report ∷ []
  pub operation_lem : report.operation ≡ op
  pub before_lem : report.before ≡ membership w.1
  pub after_lem : report.after ≡ membership w'.1
  pub success_lem : report.success ≡ is_ok result
  pub result_lem : (r : ExecutionReport) → result ≡ ok r → r ≡ report
  pub unchanged : rollback ≡ true → report.success ≡ false → w'.1 ≡ w.1

finish-IsExecuted :
    (rollback : Bool) (op : Operation) (reports : List ExecutionReport) (c c' : Cluster)
    (result : Result (Unit {0}))
    → (is_empty (validate c op) ≡ false → c' ≡ c)
    → IsExecuted rollback op
        (reports, c)
        (finish_execution rollback op (reports, c) (c', result)).0
        (finish_execution rollback op (reports, c) (c', result)).1
unfolding finish_execution execution_report
finish-IsExecuted rollback op reports c c' (ok done) u = record {
  report = execution_report c op false (ok done) c';
  kept = refl;
  operation_lem = refl;
  before_lem = refl;
  after_lem = refl;
  success_lem = refl;
  result_lem = λ r e. cc;
  unchanged = λ b f. absurd (cc);
}
finish-IsExecuted rollback op reports c c' (err e) u = record {
  report =
      execution_report c op (is_empty (validate c op) && rollback) (err e)
        (if is_empty (validate c op) && rollback then c else c');
  kept = refl;
  operation_lem = refl;
  before_lem = refl;
  after_lem = refl;
  success_lem = refl;
  result_lem = λ r h. absurd (cc);
  unchanged = λ b f. restored rollback b;
}
  where
    restored : (b : Bool) → b ≡ true → (if is_empty (validate c op) && b then c else c') ≡ c
    restored false h = absurd (cc)
    restored true h = elim (Bool-cases (is_empty (validate c op))) [
      | inl t ↦ rw t refl
      | inr f ↦ rw f (u f)
    ]

-- Each run of an operation keeps one more report, which has the operation, the membership before
-- and after it and whether it succeeded. With rollback, an operation that fails leaves the cluster
-- as it was.
pub execute_inner-IsExecuted :
    (rollback : Bool) (op : Operation) (w : Workflow)
    → IsExecuted rollback op w (execute_inner rollback op w).0 (execute_inner rollback op w).1
unfolding execute_inner checked_apply
execute_inner-IsExecuted rollback op (reports, c) =
    finish-IsExecuted rollback op reports c (checked_apply c op).0 (checked_apply c op).1
      (λ f. rw f refl)

abbrev pub AllSucceeded : List ExecutionReport → Type 0
AllSucceeded rs = All (λ (r : ExecutionReport). r.success ≡ true) rs

-- How a sequence of operations ends, from a workflow with these reports and this cluster: all done,
-- with a report for each; or at the first failure, with the cluster as it was at the start.
pub data LoopEnds (reports : List ExecutionReport) (start : Cluster) (ops : List Operation)
    (o : Outcome Workflow (List ExecutionReport)) : Type 0 where
  finished :
      (rs : List ExecutionReport) (c : Cluster)
      → o ≡ ((reports ++ rs, c), ok rs)
      → map (λ (r : ExecutionReport). r.operation) rs ≡ ops
      → AllSucceeded rs
      → LoopEnds reports start ops o
  stopped :
      (rs : List ExecutionReport) (r : ExecutionReport) (e : RaftError)
      → o ≡ ((reports ++ (rs ++ r ∷ []), start), err e)
      → AllSucceeded rs
      → r.success ≡ false
      → r.rolled_back ≡ true
      → LoopEnds reports start ops o

modify_last_report-snoc :
    (f : ExecutionReport → ExecutionReport) (rs : List ExecutionReport) (r : ExecutionReport)
    → modify_last_report f (rs ++ r ∷ []) ≡ rs ++ f r ∷ []
unfolding modify_last_report
modify_last_report-snoc f [] r = refl
modify_last_report-snoc f (x ∷ []) r = refl
modify_last_report-snoc f (x ∷ y ∷ xs) r = ap (◌∷◌ x) (modify_last_report-snoc f (y ∷ xs) r)

mark_rolled_back-lem :
    (r : ExecutionReport)
    → r.success ≡ false
    → ((mark_rolled_back r).success ≡ false) × ((mark_rolled_back r).rolled_back ≡ true)
unfolding mark_rolled_back
mark_rolled_back-lem r h = ground arith

AllSucceeded-snoc :
    (rs : List ExecutionReport) (r : ExecutionReport)
    → AllSucceeded rs
    → r.success ≡ true
    → AllSucceeded (rs ++ r ∷ [])
AllSucceeded-snoc [] r a h = (h, tt)
AllSucceeded-snoc (x ∷ xs) r (p, a) h = (p, AllSucceeded-snoc xs r a h)

operations-snoc :
    (rs : List ExecutionReport) (r : ExecutionReport)
    → map (λ (r : ExecutionReport). r.operation) (rs ++ r ∷ [])
      ≡ map (λ (r : ExecutionReport). r.operation) rs ++ r.operation ∷ []
operations-snoc [] r = refl
operations-snoc (x ∷ xs) r = ap (◌∷◌ x.operation) (operations-snoc xs r)

-- The rest of the loop behind one operation.
loop_step-LoopEnds :
    (reports : List ExecutionReport) (start : Cluster) (done : List ExecutionReport)
    (op : Operation) (ops : List Operation) (w : Workflow) (o : Outcome Workflow ExecutionReport)
    → ((r : ExecutionReport) (w' : Workflow)
        → w'.0 ≡ reports ++ (done ++ r ∷ [])
        → AllSucceeded (done ++ r ∷ [])
        → LoopEnds reports start
            (map (λ (r : ExecutionReport). r.operation) (done ++ r ∷ []) ++ ops)
            (rollback_loop start (done ++ r ∷ []) ops w'))
    → w.0 ≡ reports ++ done
    → AllSucceeded done
    → IsExecuted true op w o.0 o.1
    → LoopEnds reports start (map (λ (r : ExecutionReport). r.operation) done ++ (op ∷ ops)) (
        and_then
          (restore_on_error start o)
          (λ w' report. rollback_loop start (done ++ report ∷ []) ops w'))
unfolding restore_on_error
loop_step-LoopEnds reports start done op ops w (w', ok r) next e a x =
    let same : r ≡ x.report = x.result_lem r refl in
    let s : r.success ≡ true = ap (λ (y : ExecutionReport). y.success) same ∙ x.success_lem in
    let k : w'.0 ≡ reports ++ (done ++ r ∷ []) =
      x.kept
      ∙ ap (λ rs. rs ++ x.report ∷ []) e
      ∙ append_assoc reports done (x.report ∷ [])
      ∙ ap (λ y. reports ++ (done ++ y ∷ [])) (sym same) in
    let ops_lem : map (λ (r : ExecutionReport). r.operation) (done ++ r ∷ []) ++ ops
        ≡ map (λ (r : ExecutionReport). r.operation) done ++ (op ∷ ops) =
      ap (λ os. os ++ ops) (operations-snoc done r)
      ∙ append_assoc _ (r.operation ∷ []) ops
      ∙ ap (λ y. map (λ (r : ExecutionReport). r.operation) done ++ (y ∷ ops))
          (ap (λ (y : ExecutionReport). y.operation) same ∙ x.operation_lem) in
    subst (λ os. LoopEnds reports start os (rollback_loop start (done ++ r ∷ []) ops w')) ops_lem
      (next r w' k (AllSucceeded-snoc done r a s))
loop_step-LoopEnds reports start done op ops w (w', err p) next e a x =
    let (f, g) = mark_rolled_back-lem x.report x.success_lem in
    stopped done (mark_rolled_back x.report) p
      (ap (λ rs. ((rs, start), err p))
        (ap (modify_last_report mark_rolled_back) (x.kept ∙ ap (λ rs. rs ++ x.report ∷ []) e)
          ∙ modify_last_report-snoc mark_rolled_back (reports ++ done) x.report
          ∙ append_assoc reports done (mark_rolled_back x.report ∷ [])))
      a f g

rollback_loop-LoopEnds :
    (reports : List ExecutionReport) (start : Cluster) (done : List ExecutionReport)
    (ops : List Operation) (w : Workflow)
    → w.0 ≡ reports ++ done
    → AllSucceeded done
    → LoopEnds reports start
        (map (λ (r : ExecutionReport). r.operation) done ++ ops)
        (rollback_loop start done ops w)
unfolding rollback_loop
rollback_loop-LoopEnds reports start done [] w e a =
    finished done w.1 (ap (λ rs. ((rs, w.1), ok done)) e) (sym (append-nil _)) a
rollback_loop-LoopEnds reports start done (op ∷ ops) w e a =
    loop_step-LoopEnds reports start done op ops w (execute_inner true op w)
      (λ r w' k s. rollback_loop-LoopEnds reports start (done ++ r ∷ []) ops w' k s) e a
      (execute_inner-IsExecuted true op w)

-- A sequence of operations with rollback either does all of them, with one report for each, all of
-- success and in their order; or it stops with the error of the first that fails, the cluster is as
-- it was before the first operation, and the last report says that it failed and was rolled back.
-- The earlier reports are kept.
pub execute_all_with_rollback-LoopEnds :
    (ops : List Operation) (w : Workflow) → LoopEnds w.0 w.1 ops (execute_all_with_rollback ops w)
unfolding execute_all_with_rollback
execute_all_with_rollback-LoopEnds ops (reports, c) =
    rollback_loop-LoopEnds reports c [] ops (reports, c) (sym (append-nil reports)) tt
