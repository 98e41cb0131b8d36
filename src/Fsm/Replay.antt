-- ===== src/Fsm/Replay.antt =====
-- Replays: apply_entry and replay_entries of RaftFsmAdapter (src/lib.rs).
use rust_raft.Fsm.{
  ApplyOutcome, ApplyResponse, FsmAdapter, ReplayReport, StateMachine, apply_entry, counted,
  record_applied, replay_entries, replay_entry, replay_loop, replayed_outcome,
}
use rust_raft.Types.{LogEntry, Outcome, Result-cases, err, ok}
use rust_raft.Base.BTreeMap.{get, get-insert}
use mathlib.Core.Path.{subst}
use rust_raft.Base.{
  Bool-cases, List, Option, Option-cases, [], add_u64, ap, arith, inl, inr, is_some, length, none,
  some, suc, sym, true, u64_max, ℕ, ◌+◌, ◌==◌, ◌∙◌, ◌∷◌, ◌≡◌, ◌≤◌,
}

-- The entry's id and an answer to it are recorded.
pub record IsKnown {S R : Type 0} (f : FsmAdapter S R) (e : LogEntry) : Type 0 where
  pub same_term : get e.log_id.index f.applied ≡ some e.log_id.term
  pub answered : is_some (get e.log_id.index f.responses) ≡ true

record_applied-IsKnown :
    {S R : Type 0} (f : FsmAdapter S R) (e : LogEntry) (a : Outcome S (ApplyResponse R))
    (o : ApplyOutcome R)
    → (record_applied f e a).1 ≡ ok o
    → IsKnown (record_applied f e a).0 e
unfolding record_applied
record_applied-IsKnown f e (s, err x) o h = absurd (ground arith)
record_applied-IsKnown f e (s, ok r) o h = record {
  same_term = ground (arith, get-insert e.log_id.index e.log_id.index e.log_id.term f.applied);
  answered = ground (arith, get-insert e.log_id.index e.log_id.index r f.responses);
}

record_applied-keeps :
    {S R : Type 0} (f : FsmAdapter S R) (e x : LogEntry) (a : Outcome S (ApplyResponse R))
    → get e.log_id.index f.applied ≡ none
    → IsKnown f x
    → IsKnown (record_applied f e a).0 x
unfolding record_applied
record_applied-keeps f e x (s, err y) n k = record {
  same_term = k.same_term;
  answered = k.answered;
}
record_applied-keeps f e x (s, ok r) n k = elim (Bool-cases (e.log_id.index == x.log_id.index)) [
  | inl same ↦
      let here : e.log_id.index ≡ x.log_id.index = ground arith in
      let gone : get x.log_id.index f.applied ≡ none = rw here at n in
      absurd (ground (arith, gone, k.same_term))
  | inr other ↦ record {
    same_term =
        ground
          (arith, k.same_term, get-insert e.log_id.index x.log_id.index e.log_id.term f.applied);
    answered = ground (arith, k.answered, get-insert e.log_id.index x.log_id.index r f.responses);
  }
]

module _ {S Snap R : Type 0} (machine : StateMachine S Snap R) where
  abbrev applied_once : FsmAdapter S R → LogEntry → Outcome (FsmAdapter S R) (ApplyOutcome R)
  applied_once = apply_entry machine

  replay_entry-ok :
      (e : LogEntry) (term : ℕ) (r : Option (ApplyResponse R)) (o : ApplyOutcome R)
      → replay_entry e term r ≡ ok o
      → (term ≡ e.log_id.term) × (is_some r ≡ true)
  unfolding replay_entry
  replay_entry-ok e term none o h = ground arith
  replay_entry-ok e term (some x) o h = ground arith

  -- An entry that is applied is known from then on.
  apply_entry-IsKnown :
      (f : FsmAdapter S R) (e : LogEntry) (o : ApplyOutcome R)
      → (applied_once f e).1 ≡ ok o
      → IsKnown (applied_once f e).0 e
  unfolding apply_entry
  apply_entry-IsKnown f e o h = elim (Option-cases (get e.log_id.index f.applied)) [
    | inr (term, q) ↦
        let same =
          replay_entry-ok e term (get e.log_id.index f.responses) o (rw (q, apply_entry) at h) in
        rw (q, apply_entry) (record { same_term = ground (arith, q, same.0); answered = same.1 })
    | inl q ↦
        rw (q, apply_entry)
          (record_applied-IsKnown f e (machine.apply f.state_machine f.group_id e) o
            (rw (q, apply_entry) at h))
  ]

  -- A known entry stays known.
  apply_entry-keeps :
      (f : FsmAdapter S R) (e x : LogEntry) → IsKnown f x → IsKnown (applied_once f e).0 x
  unfolding apply_entry
  apply_entry-keeps f e x k = elim (Option-cases (get e.log_id.index f.applied)) [
    | inr (term, q) ↦ rw (q, apply_entry) k
    | inl q ↦
        rw (q, apply_entry)
          (record_applied-keeps f e x (machine.apply f.state_machine f.group_id e) q k)
  ]

  -- A known entry is answered from the record, and nothing changes.
  apply_entry-again :
      (f : FsmAdapter S R) (e : LogEntry)
      → IsKnown f e
      → (r : ApplyResponse R) × (applied_once f e ≡ (f, ok (replayed_outcome r)))
  unfolding apply_entry
  apply_entry-again f e k = elim (Option-cases (get e.log_id.index f.responses)) [
    | inl q ↦ absurd (ground (arith, q, k.answered))
    | inr (r, q) ↦ (r, rw (k.same_term, q, apply_entry) ground arith)
  ]

  -- All of the entries are known.
  abbrev AllKnown : FsmAdapter S R → List LogEntry → Type 0
  AllKnown f [] = Unit {0}
  AllKnown f (e ∷ es) = IsKnown f e × AllKnown f es

  replay_loop-keeps :
      (f : FsmAdapter S R) (report : ReplayReport) (es : List LogEntry) (x : LogEntry)
      → IsKnown f x
      → IsKnown (replay_loop machine f report es).0 x
  unfolding replay_loop
  replay_loop-keeps f report [] x k = k
  replay_loop-keeps f report (e ∷ es) x k = elim (Result-cases (applied_once f e).1) [
    | inr (y, q) ↦ rw (q, replay_loop) (apply_entry-keeps f e x k)
    | inl (o, q) ↦
        rw (q, replay_loop)
          (replay_loop-keeps (applied_once f e).0 (counted machine report o) es x
            (apply_entry-keeps f e x k))
  ]

  replay_loop-cons :
      (f : FsmAdapter S R) (report : ReplayReport) (e : LogEntry) (es : List LogEntry)
      (o : ApplyOutcome R)
      → (applied_once f e).1 ≡ ok o
      → replay_loop machine f report (e ∷ es)
        ≡ replay_loop machine (applied_once f e).0 (counted machine report o) es
  unfolding replay_loop
  replay_loop-cons f report e es o q = rw (q, replay_loop)

  replay_loop-AllKnown :
      (f : FsmAdapter S R) (report r : ReplayReport) (es : List LogEntry)
      → (replay_loop machine f report es).1 ≡ ok r
      → AllKnown (replay_loop machine f report es).0 es
  replay_loop-AllKnown f report r [] h = tt
  replay_loop-AllKnown f report r (e ∷ es) h = elim (Result-cases (applied_once f e).1) [
    | inr (y, q) ↦ absurd (unfold replay_loop in ground (arith, q))
    | inl (o, q) ↦
        let step = replay_loop-cons f report e es o q in
        let later =
          replay_loop-AllKnown (applied_once f e).0 (counted machine report o) r es
            (sym (ap (λ a. a.1) step) ∙ h) in
        let first_known =
          replay_loop-keeps (applied_once f e).0 (counted machine report o) es e
            (apply_entry-IsKnown f e o q) in
        subst (λ (a : Outcome (FsmAdapter S R) ReplayReport). AllKnown a.0 (e ∷ es)) (sym step)
          (first_known, later)
  ]

  replay_loop-known :
      (f : FsmAdapter S R) (report : ReplayReport) (es : List LogEntry)
      → AllKnown f es
      → report.attempted + length es ≤ u64_max
      → report.skipped_replay + length es ≤ u64_max
      → replay_loop machine f report es ≡ (
        f,
        ok (record report {
          attempted = report.attempted + length es;
          skipped_replay = report.skipped_replay + length es;
          last_applied = f.last_applied;
        }),
      )
  unfolding replayed_outcome
  replay_loop-known f report [] k a b = unfold replay_loop in ground arith
  replay_loop-known f report (e ∷ es) k a b =
      let (r, again) = apply_entry-again f e k.0 in
      let report' : ReplayReport = record report {
        attempted = add_u64 report.attempted 1;
        skipped_replay = add_u64 report.skipped_replay 1;
      } in
      let attempted : add_u64 report.attempted 1 + length es ≡ report.attempted + suc (length es) =
        omega arith in
      let skipped : add_u64 report.skipped_replay 1 + length es
          ≡ report.skipped_replay + suc (length es) =
        omega arith in
      let step : replay_loop machine f report (e ∷ es) ≡ replay_loop machine f report' es =
        replay_loop-cons f report e es (replayed_outcome r) (ap (λ x. x.1) again)
        ∙ ap (λ x. replay_loop machine x.0 report' es) again in
      let rest = replay_loop-known f report' es k.1 (omega arith) (omega arith) in
      step ∙ rw (attempted, skipped) at rest

  -- After a replay that succeeds, replaying the same entries, of which there are fewer than 2^64,
  -- changes nothing in the adapter or the state machine behind it, whatever that is: each entry is
  -- counted as attempted and as skipped, and none as applied.
  pub replay_entries-again :
      (f : FsmAdapter S R) (entries : List LogEntry) (report : ReplayReport)
      → (replay_entries machine f entries).1 ≡ ok report
      → length entries ≤ u64_max
      → let f' = (replay_entries machine f entries).0 in
        replay_entries machine f' entries ≡ (
          f',
          ok (record {
            attempted = length entries;
            applied = 0;
            skipped_replay = length entries;
            last_applied = f'.last_applied;
            idempotent = true;
          }),
        )
  unfolding replay_entries
  replay_entries-again f entries report h b =
      let start : ReplayReport = record {
        attempted = 0;
        applied = 0;
        skipped_replay = 0;
        last_applied = f.last_applied;
        idempotent = true;
      } in
      let f' = (replay_loop machine f start entries).0 in
      let start' : ReplayReport = record start { last_applied = f'.last_applied } in
      let known = replay_loop-AllKnown f start report entries h in
      let none_before : 0 + length entries ≡ length entries = omega arith in
      rw none_before at (replay_loop-known f' start' entries known (omega arith) (omega arith))
