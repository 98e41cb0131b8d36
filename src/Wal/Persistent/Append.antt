-- ===== src/Wal/Persistent/Append.antt =====
-- append_with_report of PersistentRaftWal (src/lib.rs) on a disk where every call succeeds.
use mathlib.Core.Path.{subst}
use rust_raft.Wal.Persistent.Disk.{
  Disk, append_file, append_file-append_file, ask, bind-ok, file_len, metadata_len, sync_data,
  when_do, ◌>>◌,
}
use rust_raft.Base.{
  Bool, List, String, [], add_u64, ap, append-nil, false, last, last_or, length, refl, some, true,
  u64_max, ℕ, ◌++◌, ◌<◌, ◌∙◌, ◌∷◌, ◌≡◌,
}
use rust_raft.Base.BTreeMap.{BTreeMap}
use rust_raft.Types.{Outcome, ok}
use rust_raft.Wal.Record.{WalRecord, stamp, stamp-valid, wal_checksum}
use rust_raft.Wal.Segments.{
  Segment, all_records, empty_segment, modify_last, push_record, records-append,
  records-push_record, records-seal, seal,
}
use rust_raft.Wal.Persistent.Lines.{Codec}
use rust_raft.Wal.Persistent.Log.{
  PersistentRaftWal, WriteReport, append_rest, append_with_report, must_roll, push_written,
  roll_segment, write_active, write_report,
}
use rust_raft.Wal.Persistent.Layout.{IsLayout, append_file-push_record, push-IsLayout}
use rust_raft.Wal.Persistent.Scan.{IsEncoded, IsWritten}
use rust_raft.Wal.Persistent.Roll.{IsSynced, calm, roll_segment-calm, rolled-IsSynced}

-- The records of two lists of segments differ by one at the end.
pub record Extends (codec : Codec) (r : WalRecord) (w v : PersistentRaftWal) (n : BTreeMap (List ℕ))
    : Type 0 where
  pub synced : IsSynced codec v n
  pub records_lem : all_records v.segments ≡ all_records w.segments ++ r ∷ []
  pub options_lem : v.options ≡ w.options

module _ (codec : Codec) where
  sync_if-calm :
      (b : Bool) (what : String) (m : BTreeMap (List ℕ))
      → when_do b (sync_data what) (calm m) ≡ (calm m, ok tt)
  unfolding sync_data ask
  sync_if-calm true what m = refl
  sync_if-calm false what m = refl

  pub write_active-calm :
      (r : WalRecord) (w : PersistentRaftWal) (m : BTreeMap (List ℕ))
      → write_active codec r (w, calm m)
        ≡ ((w, calm (append_file w.active (codec.encode r ++ 10 ∷ []) m)), ok tt)
  unfolding write_active
  write_active-calm r w m =
      let written = append_file w.active (10 ∷ []) (append_file w.active (codec.encode r) m) in
      let what : String = "failed to fsync WAL record: {err}" in
      ap (λ (o : Outcome Disk (Unit {0})). ((w, o.0), o.1))
        (sync_if-calm w.options.fsync_on_append what written)
      ∙ ap (λ x. ((w, calm x), ok tt))
          (append_file-append_file w.active (codec.encode r) (10 ∷ []) m)

  -- The push to the last segment and the report.
  pub push_written-lem :
      (r : WalRecord) (bytes : ℕ) (rolled : Bool) (w : PersistentRaftWal) (d : Disk)
      → IsLayout codec w.active w.segments
      → (rep : WriteReport) × (push_written codec r bytes rolled (w, d)
          ≡ ((record w { segments = modify_last (push_record r) w.segments }, d), ok rep))
        × (rep.checksum ≡ r.checksum)
  unfolding push_written
  push_written-lem r bytes rolled w d l =
      let (x, e) = layout-last w.active w.segments l in
      (
        write_report codec r bytes rolled x.segment_id
            (record w { segments = modify_last (push_record r) w.segments }),
        rw (e, push_written) refl,
        unfold write_report in refl,
      )
    where
      layout-last :
          (active : ℕ) (ss : List Segment)
          → IsLayout codec active ss
          → (x : Segment) × (last ss ≡ some x)
      layout-last active [] l = absurd l
      layout-last active (s ∷ ss) l = (last_or s ss, refl)

  -- The writes and the push, once there is room.
  write-Extends :
      (r : WalRecord) (bytes : ℕ) (rolled : Bool) (w : PersistentRaftWal) (m : BTreeMap (List ℕ))
      → IsWritten codec r
      → IsSynced codec w m
      → (v : PersistentRaftWal) × (n : BTreeMap (List ℕ)) × (rep : WriteReport) × ((write_active
                codec r
              >> push_written codec r bytes rolled)
            (w, calm m)
          ≡ ((v, calm n), ok rep))
        × Extends codec r w v n
        × (rep.checksum ≡ r.checksum)
  write-Extends r bytes rolled w m wr h =
      let n = append_file w.active (codec.encode r ++ 10 ∷ []) m in
      let (rep, e, c) = push_written-lem r bytes rolled w (calm n) h.layout in
      (
        record w { segments = modify_last (push_record r) w.segments },
        n,
        rep,
        rw (write_active-calm r w m) e,
        record {
          synced = record {
            layout = push-IsLayout codec w.active r w.segments wr h.layout;
            files_lem =
                ap (append_file w.active (codec.encode r ++ 10 ∷ [])) h.files_lem
                ∙ append_file-push_record codec w.active r w.segments h.layout;
            next_lem = h.next_lem;
          };
          records_lem = records-push_record_any w.segments h.layout;
          options_lem = refl;
        },
        c,
      )
    where
      records-push_record_any :
          (ss : List Segment)
          → IsLayout codec w.active ss
          → all_records (modify_last (push_record r) ss) ≡ all_records ss ++ r ∷ []
      records-push_record_any [] l = absurd l
      records-push_record_any (s ∷ ss) l = records-push_record r s ss

  roll-records :
      (n : ℕ) (ss : List Segment)
      → all_records (modify_last seal ss ++ empty_segment n ∷ []) ≡ all_records ss
  unfolding empty_segment all_records
  roll-records n ss =
      records-append (modify_last seal ss) (empty_segment n ∷ [])
      ∙ append-nil (all_records (modify_last seal ss))
      ∙ records-seal ss

  append_rest-Extends :
      (r : WalRecord) (bytes : ℕ) (rolled : Bool) (w : PersistentRaftWal) (m : BTreeMap (List ℕ))
      → IsWritten codec r
      → IsSynced codec w m
      → w.next_segment_id < u64_max
      → (v : PersistentRaftWal) × (n : BTreeMap (List ℕ)) × (rep : WriteReport) × (append_rest codec
            r bytes rolled
            (w, calm m)
          ≡ ((v, calm n), ok rep))
        × Extends codec r w v n
        × (rep.checksum ≡ r.checksum)
  unfolding append_rest
  append_rest-Extends r bytes false w m wr h q = write-Extends r bytes false w m wr h
  append_rest-Extends r bytes true w m wr h q =
      let rolled =
        ap (λ x. roll_segment codec (w, calm x)) h.files_lem ∙ roll_segment-calm codec w h.layout in
      let start = rolled-IsSynced codec w (subst (λ x. IsSynced codec w x) h.files_lem h) q in
      let (v, n, rep, e, x, c) = write-Extends r bytes true _ _ wr start in
      (
        v,
        n,
        rep,
        bind-ok (roll_segment codec) (λ _. write_active codec r >> push_written codec r bytes true)
              (w, calm m) rolled
            ∙ e,
        record {
          synced = x.synced;
          records_lem =
              x.records_lem ∙ ap (λ rs. rs ++ r ∷ []) (roll-records w.next_segment_id w.segments);
          options_lem = x.options_lem;
        },
        c,
      )

  -- On a disk where no call fails, `append_with_report` succeeds and answers with the checksum of the
  -- record. The records in memory are the old ones and the stamped record, the files hold exactly
  -- the records in memory, and the log keeps its shape. The record's text is as JSON gives it, and
  -- a segment id is left.
  pub append_with_report-Extends :
      (r : WalRecord) (w : PersistentRaftWal) (m : BTreeMap (List ℕ))
      → IsEncoded codec (stamp r)
      → IsSynced codec w m
      → w.next_segment_id < u64_max
      → (v : PersistentRaftWal) × (n : BTreeMap (List ℕ)) × (rep : WriteReport)
        × (append_with_report codec r (w, calm m) ≡ ((v, calm n), ok rep))
        × Extends codec (stamp r) w v n
        × (rep.checksum ≡ wal_checksum r)
  unfolding append_with_report metadata_len ask
  append_with_report-Extends r w m enc h q =
      append_rest-Extends (stamp r) (add_u64 (length (codec.encode (stamp r))) 1)
        (must_roll codec w (file_len w.active (calm m))
          (add_u64 (length (codec.encode (stamp r))) 1))
        w m (enc, stamp-valid r) h q
