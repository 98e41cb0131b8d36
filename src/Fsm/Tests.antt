-- ===== src/Fsm/Tests.antt =====
-- A state machine that keeps the entries it is given: runs, and one instance of each theorem.
use rust_raft.Base.{List, [], arith, length, refl, true, ℕ, ◌∷◌, ◌≡◌}
use rust_raft.Types.{LogEntry, ok}
use rust_raft.Fsm.{FsmAdapter, ReplayReport, StateMachine, apply_entry, replay_entries}
use rust_raft.Fsm.Replay.{replay_entries-again}

-- The answer to an entry is the number of entries so far.
abbrev keeping : StateMachine (List LogEntry) (List LogEntry) ℕ
keeping = record {
  apply = λ s group e. (e ∷ s, ok (record { applied_index = e.log_id.index; response = length s }));
  take_snapshot = λ s group. ok s;
  restore = λ s snapshot. (snapshot, ok tt);
}

abbrev empty : FsmAdapter (List LogEntry) ℕ
empty = record { group_id = 7; state_machine = []; applied = []; responses = []; last_applied = 0 }

abbrev entry : ℕ → LogEntry
entry index = record { log_id = record { term = 1; index = index }; payload = index ∷ [] }

abbrev first_report : ReplayReport
first_report = record {
  attempted = 3;
  applied = 2;
  skipped_replay = 1;
  last_applied = 2;
  idempotent = true;
}

-- An entry that comes twice is applied once.
replay_run : (replay_entries keeping empty (entry 1 ∷ entry 2 ∷ entry 1 ∷ [])).1 ≡ ok first_report
unfolding replay_entries apply_entry
replay_run = refl

replay_entries-again_example :
    let f' = (replay_entries keeping empty (entry 1 ∷ entry 2 ∷ entry 1 ∷ [])).0 in
    replay_entries keeping f' (entry 1 ∷ entry 2 ∷ entry 1 ∷ []) ≡ (
      f',
      ok (record {
        attempted = 3;
        applied = 0;
        skipped_replay = 3;
        last_applied = f'.last_applied;
        idempotent = true;
      }),
    )
unfolding replay_entries apply_entry
replay_entries-again_example =
    replay_entries-again keeping empty (entry 1 ∷ entry 2 ∷ entry 1 ∷ []) first_report refl
      (omega arith)
