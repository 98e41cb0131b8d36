-- ===== src/Wal/Persistent/Roll.antt =====
-- roll_segment of PersistentRaftWal (src/lib.rs) on a disk where every call succeeds.
use rust_raft.Wal.Persistent.Disk.{
  Disk, append_file, append_file-append_file, append_file-insert, ask, create, sync_data, write_all,
}
use rust_raft.Base.{
  ==_refl, List, String, [], add_u64, ap, append-nil, append_assoc, arith, if◌then◌else◌, last_or,
  refl, some, suc, sym, u64_max, ℕ, ◌++◌, ◌<◌, ◌∙◌, ◌∷◌, ◌≡◌,
}
use rust_raft.Base.BTreeMap.{BTreeMap, get, get-insert, insert}
use rust_raft.Types.{ok}
use rust_raft.Wal.Record.{WalRecord}
use rust_raft.Wal.Segments.{Segment, empty_segment, modify_last, seal}
use rust_raft.Wal.Persistent.Lines.{Codec, file_bytes}
use rust_raft.Wal.Persistent.Files.{write_record, write_records, write_segment_file}
use rust_raft.Wal.Persistent.Log.{PersistentRaftWal, open_next, roll_segment, seal_last}
use rust_raft.Wal.Persistent.Layout.{
  IsLayout, files_of, files_of-seal-append, insert-last, insert-new, roll-IsLayout,
}

-- A disk on which no call fails.
abbrev pub calm : BTreeMap (List ℕ) → Disk
calm files = record { files = files; outcomes = [] }

-- The log in memory and the files agree.
pub record IsSynced (codec : Codec) (w : PersistentRaftWal) (files : BTreeMap (List ℕ))
    : Type 0 where
  pub layout : IsLayout codec w.active w.segments
  pub files_lem : files ≡ files_of codec w.segments
  pub next_lem : w.next_segment_id ≡ suc w.active

module _ (codec : Codec) where
  pub write_record-calm :
      (what : String) (id : ℕ) (r : WalRecord) (m : BTreeMap (List ℕ))
      → write_record codec what id r (calm m)
        ≡ (calm (append_file id (codec.encode r ++ 10 ∷ []) m), ok tt)
  unfolding write_record write_all
  write_record-calm what id r m =
      ap (λ x. (calm x, ok tt)) (append_file-append_file id (codec.encode r) (10 ∷ []) m)

  write_records-calm :
      (id : ℕ) (rs : List WalRecord) (b : List ℕ) (m : BTreeMap (List ℕ))
      → write_records codec id rs (calm (insert id b m))
        ≡ (calm (insert id (b ++ file_bytes codec rs) m), ok tt)
  unfolding write_records file_bytes
  write_records-calm id [] b m = rw (append-nil b) refl
  write_records-calm id (r ∷ rs) b m =
      let line = codec.encode r ++ 10 ∷ [] in
      ap (λ x. write_records codec id rs (calm x))
        (append_file-append_file id (codec.encode r) (10 ∷ []) (insert id b m)
          ∙ append_file-insert id b line m)
      ∙ write_records-calm id rs (b ++ line) m
      ∙ ap (λ x. (calm (insert id x m), ok tt))
          (append_assoc b line (file_bytes codec rs)
            ∙ ap (◌++◌ b) (append_assoc (codec.encode r) (10 ∷ []) (file_bytes codec rs)))

  pub write_segment_file-calm :
      (s : Segment) (m : BTreeMap (List ℕ))
      → write_segment_file codec s (calm m)
        ≡ (calm (insert s.segment_id (file_bytes codec s.records) m), ok tt)
  unfolding write_segment_file create sync_data ask
  write_segment_file-calm s m = rw (write_records-calm s.segment_id s.records [] m) refl

  last-active :
      (active : ℕ) (s : Segment) (ss : List Segment)
      → IsLayout codec active (s ∷ ss)
      → (last_or s ss).segment_id ≡ active
  last-active active s [] (e, h) = e
  last-active active s (t ∷ ss) (l, h, c) = last-active active t ss c

  -- The last segment sealed: its file is written again as it is.
  seal_last-calm :
      (w : PersistentRaftWal) (s : Segment) (ss : List Segment)
      → w.segments ≡ s ∷ ss
      → IsLayout codec w.active (s ∷ ss)
      → seal_last codec (w, calm (files_of codec (s ∷ ss))) ≡ (
        (record w { segments = modify_last seal (s ∷ ss) }, calm (files_of codec (s ∷ ss))),
        ok tt,
      )
  unfolding seal_last
  seal_last-calm w s ss e l =
      let x = last_or s ss in
      let written : write_segment_file codec (seal x) (calm (files_of codec (s ∷ ss)))
          ≡ (calm (files_of codec (s ∷ ss)), ok tt) =
        (write_segment_file-calm (seal x) (files_of codec (s ∷ ss))
          ∙ ap (λ m. (calm m, ok tt))
              (unfold seal in
                (ap (λ k. insert k (file_bytes codec x.records) (files_of codec (s ∷ ss)))
                    (last-active w.active s ss l)
                  ∙ insert-last codec w.active s ss l))) in
      rw (e, seal_last)
        (rw written (
          ap
            (λ k.
              ((record w { segments = modify_last seal k }, calm (files_of codec (s ∷ ss))), ok tt))
            e))

  seal_last-segments :
      (w : PersistentRaftWal) (ss : List Segment)
      → w.segments ≡ ss
      → IsLayout codec w.active ss
      → seal_last codec (w, calm (files_of codec ss))
        ≡ ((record w { segments = modify_last seal ss }, calm (files_of codec ss)), ok tt)
  seal_last-segments w [] e l = absurd l
  seal_last-segments w (s ∷ ss) e l = seal_last-calm w s ss e l

  -- A new segment opened behind the last one.
  open_next-calm :
      (w : PersistentRaftWal) (m : BTreeMap (List ℕ))
      → open_next codec (w, calm m) ≡ (
        (
          record w {
            segments = w.segments ++ empty_segment w.next_segment_id ∷ [];
            active = w.next_segment_id;
            next_segment_id = add_u64 w.next_segment_id 1;
          },
          calm (insert w.next_segment_id [] m),
        ),
        ok tt,
      )
  unfolding open_next
  open_next-calm w m =
      let n = w.next_segment_id in
      let present : get n (insert n [] m) ≡ some [] =
        (get-insert n n [] m ∙ ap (λ b. if b then some [] else get n m) (==_refl n)) in
      rw (present, open_next) refl

  pub roll_segment-calm :
      (w : PersistentRaftWal)
      → IsLayout codec w.active w.segments
      → roll_segment codec (w, calm (files_of codec w.segments)) ≡ (
        (
          record w {
            segments = modify_last seal w.segments ++ empty_segment w.next_segment_id ∷ [];
            active = w.next_segment_id;
            next_segment_id = add_u64 w.next_segment_id 1;
          },
          calm (insert w.next_segment_id [] (files_of codec w.segments)),
        ),
        ok tt,
      )
  unfolding roll_segment
  roll_segment-calm w l =
      rw (seal_last-segments w w.segments refl l, roll_segment)
        (open_next-calm (record w { segments = modify_last seal w.segments })
          (files_of codec w.segments))

  -- What a successful roll leaves: the same records, and an empty active segment.
  pub rolled-IsSynced :
      (w : PersistentRaftWal)
      → IsSynced codec w (files_of codec w.segments)
      → w.next_segment_id < u64_max
      → IsSynced codec
          (record w {
            segments = modify_last seal w.segments ++ empty_segment w.next_segment_id ∷ [];
            active = w.next_segment_id;
            next_segment_id = add_u64 w.next_segment_id 1;
          })
          (insert w.next_segment_id [] (files_of codec w.segments))
  rolled-IsSynced w h q =
      let below : w.active < w.next_segment_id = omega (arith, h.next_lem) in
      record {
        layout = roll-IsLayout codec w.active w.next_segment_id w.segments h.layout below;
        files_lem =
            insert-new codec w.active w.next_segment_id w.segments h.layout below
            ∙ sym (files_of-seal-append codec w.segments (empty_segment w.next_segment_id ∷ []));
        next_lem = omega arith;
      }
