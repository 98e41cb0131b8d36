-- ===== src/Wal/Local/Refinement.antt =====
-- LocalRaftWal (src/lib.rs) against an append-only log: any sequence of append and recover.
use mathlib.Core.Path.{subst}
use rust_raft.Base.{
  ==_refl, List, [], ap, append-nil, append_assoc, arith, length, refl, suc, sym, true, u64_max, ℕ,
  ◌++◌, ◌+◌, ◌<◌, ◌∙◌, ◌∷◌, ◌≡◌, ◌≤◌,
}
use rust_raft.Wal.Record.{WalRecord, stamp, stamp-valid, wal_checksum_valid}
use rust_raft.Wal.Recovery.{All}
use rust_raft.Wal.Local.Append.{append-Appended}
use rust_raft.Wal.Local.Chain.{IsWal, fresh_wal-IsWal}
use rust_raft.Wal.Local.{LocalRaftWal, append, drop_corrupt_tail, fresh_wal, records, recover}

-- The calls of a client.
pub data Call : Type 0 where
  append_call : WalRecord → Call
  recover_call : Call

-- One call, with its result dropped.
unfoldable pub step : Call → LocalRaftWal → LocalRaftWal
unfolding append recover
step (append_call r) w = (append r w).0
step recover_call w = (recover w).0

unfoldable pub run : List Call → LocalRaftWal → LocalRaftWal
unfolding step
run [] w = w
run (c ∷ cs) w = run cs (step c w)

-- The append-only log: what a sequence of calls has written.
unfoldable pub written : List Call → List WalRecord
written [] = []
written (append_call r ∷ cs) = stamp r ∷ written cs
written (recover_call ∷ cs) = written cs

abbrev AllValid : List WalRecord → Type 0
AllValid rs = All (λ r. wal_checksum_valid r ≡ true) rs

AllValid-snoc : (rs : List WalRecord) (r : WalRecord) → AllValid rs → AllValid (rs ++ stamp r ∷ [])
AllValid-snoc [] r a = (stamp-valid r, tt)
AllValid-snoc (x ∷ xs) r (v, a) = (v, AllValid-snoc xs r a)

drop_corrupt_tail-valid : (rs : List WalRecord) → AllValid rs → drop_corrupt_tail rs ≡ rs
unfolding drop_corrupt_tail
drop_corrupt_tail-valid [] a = refl
drop_corrupt_tail-valid (r ∷ rs) (v, a) = rw (drop_corrupt_tail-valid rs a) (ground arith)

recover-valid : (w : LocalRaftWal) → AllValid (records w) → (recover w).0 ≡ w
unfolding recover
recover-valid w a = rw (drop_corrupt_tail-valid (records w) a) (rw (==_refl (length (records w))))

-- What holds between calls.
record Holds (log : List WalRecord) (w : LocalRaftWal) (left : ℕ) : Type 0 where
  wal_lem : IsWal w
  log_lem : records w ≡ log
  valid_lem : AllValid log
  id_bound : w.next_segment_id + left ≤ u64_max

step-Holds :
    (c : Call) (log : List WalRecord) (w : LocalRaftWal) (left : ℕ)
    → Holds log w (suc left)
    → Holds (log ++ written (c ∷ [])) (step c w) left
unfolding step written
step-Holds (append_call r) log w left h =
    let (v, e, a) = append-Appended r w h.wal_lem (omega (arith, h.id_bound)) in
    subst (λ (x : LocalRaftWal). Holds (log ++ stamp r ∷ []) x left) (sym (ap (λ o. o.0) e))
      (record {
        wal_lem = a.wal_lem;
        log_lem = a.records_lem ∙ ap (λ k. k ++ stamp r ∷ []) h.log_lem;
        valid_lem = AllValid-snoc log r h.valid_lem;
        id_bound = omega (arith, h.id_bound, a.id_bound);
      })
step-Holds recover_call log w left h =
    let e : (recover w).0 ≡ w = recover-valid w (subst AllValid (sym h.log_lem) h.valid_lem) in
    subst (λ (x : LocalRaftWal). Holds (log ++ []) x left) (sym e)
      (record {
        wal_lem = h.wal_lem;
        log_lem = h.log_lem ∙ sym (append-nil log);
        valid_lem = subst AllValid (sym (append-nil log)) h.valid_lem;
        id_bound = omega (arith, h.id_bound);
      })

written-cons : (c : Call) (cs : List Call) → written (c ∷ cs) ≡ written (c ∷ []) ++ written cs
unfolding written
written-cons (append_call r) cs = refl
written-cons recover_call cs = refl

run-Holds :
    (cs : List Call) (log : List WalRecord) (w : LocalRaftWal)
    → Holds log w (length cs)
    → Holds (log ++ written cs) (run cs w) 0
unfolding run written
run-Holds [] log w h = subst (λ (k : List WalRecord). Holds k w 0) (sym (append-nil log)) h
run-Holds (c ∷ cs) log w h =
    subst (λ (k : List WalRecord). Holds k (run cs (step c w)) 0)
      (append_assoc log (written (c ∷ [])) (written cs) ∙ ap (◌++◌ log) (sym (written-cons c cs)))
      (run-Holds cs (log ++ written (c ∷ [])) (step c w) (step-Holds c log w (length cs) h))

-- From an empty log, any sequence of appends and recoveries leaves a well-formed log whose records
-- are those appended, each stamped, in their order, and recovery loses none of them. The sequence is short enough for the segment ids.
pub run-written :
    (n : ℕ) (cs : List Call)
    → 0 < n
    → length cs < u64_max
    → IsWal (run cs (fresh_wal n)) × (records (run cs (fresh_wal n)) ≡ written cs)
run-written n cs p q =
    let h = run-Holds cs [] (fresh_wal n) (record {
      wal_lem = fresh_wal-IsWal n p;
      log_lem = unfold fresh_wal records in refl;
      valid_lem = tt;
      id_bound = unfold fresh_wal in omega arith;
    }) in
    (h.wal_lem, h.log_lem)
