-- ===== src/Fsm.antt =====
-- RaftFsmAdapter (src/lib.rs): a state machine behind an adapter that applies each entry once. The
-- group id and the payload are those of the crate, u64 and bytes.
pub mod Replay
mod Tests
use rust_raft.Base.{
  Bool, List, Option, String, [], add_u64, false, if◌then◌else◌, max, none, not, some, true, ℕ,
  ◌==◌, ◌∷◌,
}
use rust_raft.Base.BTreeMap.{BTreeMap, get, insert}
use rust_raft.Types.{
  LogEntry, LogId, Outcome, Result, err, format, invalid_request, ok, ok_or, reject_if, storage,
  ◌>>=◌, ◌>>◌,
}

-- RaftApplyResponse
pub record ApplyResponse (R : Type 0) : Type 0 where
  pub applied_index : ℕ
  pub response : R

-- The traits RaftApply and RaftStateMachine: what an implementation provides. `apply` and `restore`
-- leave the state machine in some state on an error too.
pub record StateMachine (S Snap R : Type 0) : Type 0 where
  pub apply : S → ℕ → LogEntry → Outcome S (ApplyResponse R)
  pub take_snapshot : S → ℕ → Result Snap
  pub restore : S → Snap → Outcome S (Unit {0})

pub record FsmAdapter (S R : Type 0) : Type 0 where
  pub group_id : ℕ
  pub state_machine : S
  pub applied : BTreeMap ℕ
  pub responses : BTreeMap (ApplyResponse R)
  pub last_applied : ℕ

pub record ApplyOutcome (R : Type 0) : Type 0 where
  pub response : ApplyResponse R
  pub applied : Bool
  pub replayed : Bool
  pub reason : String

pub record ReplayReport : Type 0 where
  pub attempted : ℕ
  pub applied : ℕ
  pub skipped_replay : ℕ
  pub last_applied : ℕ
  pub idempotent : Bool

pub record FsmCheckpoint (Snap : Type 0) : Type 0 where
  pub group_id : ℕ
  pub last_applied : ℕ
  pub applied_log_ids : List LogId
  pub snapshot : Snap

unfoldable pub new_adapter : {S R : Type 0} → ℕ → S → FsmAdapter S R
new_adapter group_id state_machine = record {
  group_id = group_id;
  state_machine = state_machine;
  applied = [];
  responses = [];
  last_applied = 0;
}

-- The answer for an entry that was applied before.
unfoldable pub replayed_outcome : {R : Type 0} → ApplyResponse R → ApplyOutcome R
replayed_outcome response = record {
  response = response;
  applied = false;
  replayed = true;
  reason = "duplicate_log_id_replayed_idempotently";
}

unfoldable pub replay_entry :
    {R : Type 0} → LogEntry → ℕ → Option (ApplyResponse R) → Result (ApplyOutcome R)
unfolding replayed_outcome
replay_entry entry term response = do
  reject_if (not (term == entry.log_id.term)) (
      invalid_request (
        format "FSM replay conflict at index {}: existing term {}, replay term {}"
          (entry.log_id.index ∷ term ∷ entry.log_id.term ∷ [])))
  found ←
      ok_or
        (storage
          (format "FSM replay response missing for applied index {}" (entry.log_id.index ∷ [])))
        response
  ok (replayed_outcome found)

-- The adapter after the state machine's answer.
unfoldable pub record_applied :
    {S R : Type 0}
    → FsmAdapter S R
    → LogEntry
    → Outcome S (ApplyResponse R)
    → Outcome (FsmAdapter S R) (ApplyOutcome R)
unfolding insert
record_applied f entry (s, err e) = (record f { state_machine = s }, err e)
record_applied f entry (s, ok response) = (
  record f {
    state_machine = s;
    last_applied = max f.last_applied response.applied_index;
    applied = insert entry.log_id.index entry.log_id.term f.applied;
    responses = insert entry.log_id.index response f.responses;
  },
  ok (record {
    response = response;
    applied = true;
    replayed = false;
    reason = "applied_new_log_id";
  }),
)

module _ {S Snap R : Type 0} (machine : StateMachine S Snap R) where
  unfoldable pub apply_entry : FsmAdapter S R → LogEntry → Outcome (FsmAdapter S R) (ApplyOutcome R)
  unfolding get replay_entry record_applied
  apply_entry f entry = elim (get entry.log_id.index f.applied) [
    | some term ↦ (f, replay_entry entry term (get entry.log_id.index f.responses))
    | none ↦ record_applied f entry (machine.apply f.state_machine f.group_id entry)
  ]

  -- The report after one more entry.
  abbrev pub counted : ReplayReport → ApplyOutcome R → ReplayReport
  counted report outcome = record report {
    attempted = add_u64 report.attempted 1;
    applied = if outcome.applied then add_u64 report.applied 1 else report.applied;
    skipped_replay =
        if outcome.replayed then add_u64 report.skipped_replay 1 else report.skipped_replay;
  }

  unfoldable pub replay_loop :
      FsmAdapter S R → ReplayReport → List LogEntry → Outcome (FsmAdapter S R) ReplayReport
  replay_loop f report [] = (f, ok (record report { last_applied = f.last_applied }))
  replay_loop f report (e ∷ es) = elim (apply_entry f e).1 [
    | ok outcome ↦ replay_loop (apply_entry f e).0 (counted report outcome) es
    | err x ↦ ((apply_entry f e).0, err x)
  ]

  unfoldable pub replay_entries :
      FsmAdapter S R → List LogEntry → Outcome (FsmAdapter S R) ReplayReport
  unfolding replay_loop
  replay_entries f entries =
      replay_loop f
        (record {
          attempted = 0;
          applied = 0;
          skipped_replay = 0;
          last_applied = f.last_applied;
          idempotent = true;
        })
        entries

  unfoldable pub log_ids : BTreeMap ℕ → List LogId
  log_ids [] = []
  log_ids ((index, term) ∷ applied) = record { term = term; index = index } ∷ log_ids applied

  unfoldable pub checkpoint_fsm : FsmAdapter S R → Result (FsmCheckpoint Snap)
  unfolding log_ids
  checkpoint_fsm f = do
    snapshot ← machine.take_snapshot f.state_machine f.group_id
    ok (record {
      group_id = f.group_id;
      last_applied = f.last_applied;
      applied_log_ids = log_ids f.applied;
      snapshot = snapshot;
    })

  -- into_iter().map(..).collect(), a later pair in place of an earlier one
  unfoldable pub collect_applied : BTreeMap ℕ → List LogId → BTreeMap ℕ
  unfolding insert
  collect_applied applied [] = applied
  collect_applied applied (i ∷ ids) = collect_applied (insert i.index i.term applied) ids

  unfoldable pub install_checkpoint :
      FsmAdapter S R → FsmCheckpoint Snap → Outcome (FsmAdapter S R) (Unit {0})
  unfolding collect_applied
  install_checkpoint f checkpoint =
      let (s, result) = machine.restore f.state_machine checkpoint.snapshot in
      elim result [
        | err e ↦ (record f { state_machine = s }, err e)
        | ok _ ↦ (
          record f {
            state_machine = s;
            last_applied = checkpoint.last_applied;
            applied = collect_applied [] checkpoint.applied_log_ids;
            responses = [];
          },
          ok tt,
        )
      ]
