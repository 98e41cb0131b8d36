-- ===== src/Wal/Persistent/Files.antt =====
-- The segment files of PersistentRaftWal (src/lib.rs): write_wal_segment_file, read_wal_segment_file,
-- read_wal_segments_from_dir and open_segment_for_append.
use rust_raft.Wal.Persistent.Disk.{
  Disk, Op, ask, create, done, list_ids, read_file, set_len, sync_data, when_do, write_all, ◌>>=◌,
  ◌>>◌,
}
use rust_raft.Base.{Bool, List, String, [], false, first, is_empty, last, map_or, not, ℕ, ◌||◌, ◌∷◌}
use rust_raft.Wal.Record.{WalRecord}
use rust_raft.Wal.Segments.{Segment, record_index}
use rust_raft.Wal.Persistent.Lines.{Codec, Scan, scan}

module _ (codec : Codec) where
  -- The two writes of a record.
  unfoldable pub write_record : String → ℕ → WalRecord → Op Disk (Unit {0})
  unfolding write_all
  write_record what id r = do write_all what id (codec.encode r); write_all what id (10 ∷ [])

  unfoldable pub write_records : ℕ → List WalRecord → Op Disk (Unit {0})
  unfolding write_record
  write_records id [] = done tt
  write_records id (r ∷ rs) = do
    write_record "failed to write WAL segment: {err}" id r
    write_records id rs

  unfoldable pub write_segment_file : Segment → Op Disk (Unit {0})
  unfolding create write_records sync_data
  write_segment_file s = do
    create "failed to create WAL segment: {err}" s.segment_id
    write_records s.segment_id s.records
    sync_data "failed to fsync WAL segment: {err}"

  -- The cut behind the last line that reads.
  unfoldable pub truncate_file : ℕ → ℕ → Op Disk (Unit {0})
  unfolding set_len sync_data ask
  truncate_file id end = do
    ask "failed to reopen WAL segment: {err}" tt
    set_len "failed to truncate WAL segment: {err}" id end
    sync_data "failed to fsync truncated WAL: {err}"

  -- What follows the loop over the lines.
  unfoldable pub finish_scan : ℕ → Scan → Op Disk (List WalRecord × Bool)
  unfolding truncate_file
  finish_scan id found = do
    when_do found.truncated (truncate_file id found.valid_end)
    done (found.records, found.truncated)

  unfoldable pub load_scan : ℕ → List ℕ → Op Disk (List WalRecord × Bool)
  unfolding scan finish_scan
  load_scan id bytes = finish_scan id (scan codec bytes)

  -- read_wal_segment_file
  unfoldable pub read_segment_file : ℕ → Op Disk (List WalRecord × Bool)
  unfolding read_file load_scan
  read_segment_file id = do
    bytes ← read_file "failed to open WAL segment: {err}" id
    load_scan id bytes

  unfoldable pub loaded_segment : ℕ → List WalRecord → Bool → Segment
  unfolding record_index
  loaded_segment id rs sealed = record {
    segment_id = id;
    first_index = map_or 0 record_index (first rs);
    last_index = map_or 0 record_index (last rs);
    records = rs;
    sealed = sealed;
  }

  -- The segments behind one that was read, of the files that are left.
  unfoldable pub add_loaded :
      ℕ → List WalRecord → Bool → List ℕ → List Segment × Bool → Op Disk (List Segment × Bool)
  unfolding loaded_segment
  add_loaded id rs truncated ids (segments, others) =
      done (loaded_segment id rs (not (is_empty ids)) ∷ segments, truncated || others)

  -- The loop over the files, in the order of their ids; all but the last are sealed.
  unfoldable pub read_files : List ℕ → Op Disk (List Segment × Bool)
  unfolding read_segment_file add_loaded
  read_files [] = done ([], false)
  read_files (id ∷ ids) = do
    (rs, truncated) ← read_segment_file id
    others ← read_files ids
    add_loaded id rs truncated ids others

  -- read_wal_segments_from_dir: the ids of the files, sorted, and then the loop
  unfoldable pub read_segments : Op Disk (List Segment × Bool)
  unfolding read_files list_ids
  read_segments = do ids ← list_ids "failed to read WAL directory: {err}"; read_files ids
