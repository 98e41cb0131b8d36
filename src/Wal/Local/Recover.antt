-- ===== src/Wal/Local/Recover.antt =====
-- LocalRaftWal::recover (src/lib.rs): the corrupt tail dropped and the log rebuilt.
use rust_raft.Types.{ok}
use mathlib.Core.Path.{subst}
use rust_raft.Base.{
  Bool-cases, List, [], ap, append-nil, arith, false, if◌then◌else◌, inl, inr, is_empty, last,
  length, length-append, map, none, not, refl, some, sym, true, u64_max, ◌&&◌, ◌++◌, ◌<◌, ◌==◌, ◌∙◌,
  ◌∷◌, ◌≡◌,
}
use rust_raft.Wal.Record.{WalRecord, stamp, stamp-valid, wal_checksum_valid}
use rust_raft.Wal.Recovery.{All, recover_latest}
use rust_raft.Wal.Local.Append.{Extended, append_all-Extended}
use rust_raft.Wal.Local.Chain.{IsWal, fresh_wal-IsWal}
use rust_raft.Wal.Segments.{retained_range}
use rust_raft.Wal.Local.{
  LocalRaftWal, RecoveryReport, drop_corrupt_tail, fresh_wal, new_wal, ok_option,
  rebuild_from_records, records, recover, report,
}

-- What is dropped at the end: only records whose checksum is wrong, and all of those at the end.
pub record IsTrimmed (rs kept : List WalRecord) : Type 0 where
  pub dropped : List WalRecord
  pub split : rs ≡ kept ++ dropped
  pub invalid : All (λ r. wal_checksum_valid r ≡ false) dropped
  pub valid : (r : WalRecord) → last kept ≡ some r → wal_checksum_valid r ≡ true

trim-IsTrimmed :
    (r : WalRecord) (rs kept : List WalRecord)
    → IsTrimmed rs kept
    → IsTrimmed (r ∷ rs) (if is_empty kept && not (wal_checksum_valid r) then [] else r ∷ kept)
trim-IsTrimmed r rs [] h = elim (Bool-cases (wal_checksum_valid r)) [
  | inl t ↦ rw t (record {
    dropped = h.dropped;
    split = ap (◌∷◌ r) h.split;
    invalid = h.invalid;
    valid = λ x e. let f : r ≡ x = cc in subst (λ (y : WalRecord). wal_checksum_valid y ≡ true) f t;
  })
  | inr f ↦ rw f (record {
    dropped = r ∷ h.dropped;
    split = ap (◌∷◌ r) h.split;
    invalid = (f, h.invalid);
    valid = λ x e. absurd (let g : none ≡ some x = e in cc);
  })
]
trim-IsTrimmed r rs (x ∷ xs) h = record {
  dropped = h.dropped;
  split = ap (◌∷◌ r) h.split;
  invalid = h.invalid;
  valid = h.valid;
}

drop_corrupt_tail-IsTrimmed : (rs : List WalRecord) → IsTrimmed rs (drop_corrupt_tail rs)
unfolding drop_corrupt_tail
drop_corrupt_tail-IsTrimmed [] = record {
  dropped = [];
  split = refl;
  invalid = tt;
  valid = λ r h. absurd (cc h);
}
drop_corrupt_tail-IsTrimmed (r ∷ rs) =
    trim-IsTrimmed r rs (drop_corrupt_tail rs) (drop_corrupt_tail-IsTrimmed rs)

pub map-stamp-valid : (rs : List WalRecord) → All (λ r. wal_checksum_valid r ≡ true) (map stamp rs)
map-stamp-valid [] = tt
map-stamp-valid (r ∷ rs) = (stamp-valid r, map-stamp-valid rs)

-- Nothing dropped means nothing changed.
kept-all :
    (rs kept : List WalRecord) → IsTrimmed rs kept → (length kept == length rs) ≡ true → kept ≡ rs
kept-all rs kept h e = go h.dropped h.split
  where
    go : (ds : List WalRecord) → rs ≡ kept ++ ds → kept ≡ rs
    go [] f = sym (append-nil kept) ∙ sym f
    go (d ∷ ds) f = absurd (ground (arith, ap length f, length-append {0} kept (d ∷ ds)))

-- What `recover` leaves: a well-formed log with the records that are not in the corrupt tail. When
-- a tail was dropped, the ones that stay have been stamped again.
pub record IsRecovered (w v : LocalRaftWal) (rep : RecoveryReport) : Type 0 where
  pub wal_lem : IsWal v
  pub kept : List WalRecord
  pub trimmed : IsTrimmed (records w) kept
  pub records_lem : records v ≡ (if rep.truncated_corrupt_tail then map stamp kept else kept)
  pub flag_lem : rep.truncated_corrupt_tail ≡ not (length kept == length (records w))
  pub surviving_lem : rep.surviving_records ≡ length kept
  pub removed_lem : rep.removed_records ≡ length trimmed.dropped
  pub scanned_lem : rep.segments_scanned ≡ length v.segments
  pub retained_lem : rep.retained ≡ retained_range v.segments
  pub recovered_lem : rep.recovered ≡ ok_option (recover_latest kept)

-- The counts and the choice in the report, in both branches.
module _ (w v : LocalRaftWal) (kept : List WalRecord) (wal_lem : IsWal v)
    (trimmed : IsTrimmed (records w) kept) where
  report-IsRecovered :
      records v ≡ (if not (length kept == length (records w)) then map stamp kept else kept)
      → IsRecovered w v (report (records w) kept v)
  unfolding report
  report-IsRecovered e = record {
    wal_lem = wal_lem;
    kept = kept;
    trimmed = trimmed;
    records_lem = e;
    flag_lem = refl;
    surviving_lem = refl;
    removed_lem = omega (arith, ap length trimmed.split, length-append {0} kept trimmed.dropped);
    scanned_lem = refl;
    retained_lem = refl;
    recovered_lem = refl;
  }

rebuild-Extended :
    (rs : List WalRecord) (w : LocalRaftWal)
    → 0 < w.max_records_per_segment
    → length rs < u64_max
    → (v : LocalRaftWal) × (rebuild_from_records rs w ≡ (v, ok tt))
      × Extended rs (fresh_wal w.max_records_per_segment) v
unfolding rebuild_from_records new_wal
rebuild-Extended rs w p q =
    let m = w.max_records_per_segment in
    let z : (m == 0) ≡ false = ground arith in
    let (v, e, x) =
      append_all-Extended rs (fresh_wal m) (fresh_wal-IsWal m p)
        (unfold fresh_wal in omega arith) in
    (v, rw (z, rebuild_from_records) e, x)

-- On a well-formed log, short enough for the segment ids, `recover` never fails. It leaves a
-- well-formed log of the records before the corrupt tail, each stamped again where there was a
-- tail. It reports the choice among the records that it kept, how many it kept, how many of the
-- tail it removed, whether it removed any, and the number and the range of the segments it leaves.
pub recover-IsRecovered :
    (w : LocalRaftWal)
    → IsWal w
    → length (records w) < u64_max
    → (v : LocalRaftWal) × (rep : RecoveryReport) × (recover w ≡ (v, ok rep)) × IsRecovered w v rep
unfolding recover
recover-IsRecovered w h q =
    let kept = drop_corrupt_tail (records w) in
    let t = drop_corrupt_tail-IsTrimmed (records w) in
    elim (Bool-cases (length kept == length (records w))) [
      | inl e ↦ (
        w,
        report (records w) kept w,
        rw e,
        report-IsRecovered w w kept h t (rw e (sym (kept-all _ kept t e))),
      )
      | inr e ↦
          let b : length kept < u64_max =
            omega (arith, ap length t.split, length-append {0} kept t.dropped) in
          let (v, f, x) = rebuild-Extended kept w h.0 b in
          (
            v,
            report (records w) kept v,
            rw (e, f),
            report-IsRecovered w v kept x.wal_lem t
                (rw e (unfold fresh_wal records in x.records_lem)),
          )
    ]
