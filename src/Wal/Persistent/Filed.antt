-- ===== src/Wal/Persistent/Filed.antt =====
-- The loop over the segment files of PersistentRaftWal (src/lib.rs), on files that the log has
-- written.
use rust_raft.Base.BTreeMap.{BTreeMap, get, keys}
use rust_raft.Wal.Persistent.Disk.{ask, bind-ok, read_file, ◌>>=◌}
use rust_raft.Base.{
  ==_refl, Bool, List, String, [], ap, arith, false, first, ltb, map, map_or, refl, some, true, ℕ,
  ◌==◌, ◌∙◌, ◌∷◌, ◌≡◌,
}
use rust_raft.Types.{ok}
use rust_raft.Wal.Recovery.{All}
use rust_raft.Wal.Segments.{Segment}
use rust_raft.Wal.Persistent.Lines.{Codec, file_bytes}
use rust_raft.Wal.Persistent.Scan.{IsWritten, scan-file_bytes}
use rust_raft.Wal.Persistent.Files.{
  add_loaded, finish_scan, load_scan, loaded_segment, read_files, read_segment_file,
}
use rust_raft.Wal.Persistent.Layout.{IsHeld, IsLayout, files_of}
use rust_raft.Wal.Record.{WalRecord}
use rust_raft.Wal.Persistent.Roll.{calm}

module _ (codec : Codec) where
  -- The file of a segment is in the directory.
  abbrev pub IsFiled : BTreeMap (List ℕ) → Segment → Type 0
  IsFiled m s = get s.segment_id m ≡ some (file_bytes codec s.records)

  pub read_segment_file-calm :
      (m : BTreeMap (List ℕ)) (s : Segment)
      → IsFiled m s
      → All (IsWritten codec) s.records
      → read_segment_file codec s.segment_id (calm m) ≡ (calm m, ok (s.records, false))
  unfolding read_segment_file read_file ask
  read_segment_file-calm m s f a =
      let id = s.segment_id in
      let what : String = "failed to open WAL segment: {err}" in
      let opened : read_file what id (calm m) ≡ (calm m, ok (file_bytes codec s.records)) =
        rw (f, read_file) refl in
      bind-ok (read_file what id) (load_scan codec id) (calm m) opened
      ∙ ap (λ found. finish_scan codec id found (calm m)) (scan-file_bytes codec s.records a)

  pub loaded_segment-lem :
      (b : Bool) (s : Segment)
      → IsHeld codec b s
      → loaded_segment codec s.segment_id s.records b ≡ s
  unfolding loaded_segment
  loaded_segment-lem b s h = ground (arith, h.indexed.first_lem, h.indexed.last_lem, h.sealed_lem)

  -- The loop over files that are all there.
  pub read_files-calm :
      (m : BTreeMap (List ℕ)) (active : ℕ) (ss : List Segment)
      → IsLayout codec active ss
      → All (IsFiled m) ss
      → read_files codec (map (λ (s : Segment). s.segment_id) ss) (calm m)
        ≡ (calm m, ok (ss, false))
  unfolding read_files
  read_files-calm m active [] l a = absurd l
  read_files-calm m active (s ∷ []) (e, h) (f, a) =
      bind-ok (read_segment_file codec s.segment_id)
        (λ (p : List WalRecord × Bool).
          read_files codec [] >>= add_loaded codec s.segment_id p.0 p.1 [])
        (calm m) (read_segment_file-calm m s f h.written)
      ∙ ap (λ (x : Segment). (calm m, ok (x ∷ [], false))) (loaded_segment-lem false s h)
  read_files-calm m active (s ∷ t ∷ ss) (l, h, c) (f, a) =
      let rest = map (λ (s : Segment). s.segment_id) (t ∷ ss) in
      bind-ok (read_segment_file codec s.segment_id)
        (λ (p : List WalRecord × Bool).
          read_files codec rest >>= add_loaded codec s.segment_id p.0 p.1 rest)
        (calm m) (read_segment_file-calm m s f h.written)
      ∙ bind-ok (read_files codec rest) (add_loaded codec s.segment_id s.records false rest)
          (calm m) (read_files-calm m active (t ∷ ss) c a)
      ∙ ap (λ (x : Segment). (calm m, ok (x ∷ t ∷ ss, false))) (loaded_segment-lem true s h)

  -- A file with a smaller id in front hides none of them.
  pub IsFiled-cons :
      (k active : ℕ) (b : List ℕ) (m : BTreeMap (List ℕ)) (ss : List Segment)
      → IsLayout codec active ss
      → map_or true (λ (s : Segment). ltb k s.segment_id) (first ss) ≡ true
      → All (IsFiled m) ss
      → All (IsFiled ((k, b) ∷ m)) ss
  unfolding get
  IsFiled-cons k active b m [] l h a = tt
  IsFiled-cons k active b m (s ∷ []) (e, i) h (f, a) =
      let n : (k == s.segment_id) ≡ false = ground arith in (rw n f, tt)
  IsFiled-cons k active b m (s ∷ t ∷ ss) (l, i, c) h (f, a) =
      let n : (k == s.segment_id) ≡ false = ground arith in
      (rw n f, IsFiled-cons k active b m (t ∷ ss) c (ground arith) a)

  pub files_of-IsFiled :
      (active : ℕ) (ss : List Segment)
      → IsLayout codec active ss
      → All (IsFiled (files_of codec ss)) ss
  unfolding files_of get
  files_of-IsFiled active [] l = absurd l
  files_of-IsFiled active (s ∷ []) l = (rw (==_refl s.segment_id) refl, tt)
  files_of-IsFiled active (s ∷ t ∷ ss) (l, h, c) = (
    rw (==_refl s.segment_id) refl,
    IsFiled-cons s.segment_id active (file_bytes codec s.records) (files_of codec (t ∷ ss)) (t ∷ ss)
        c (ground arith) (files_of-IsFiled active (t ∷ ss) c),
  )

  pub keys-files_of :
      (ss : List Segment) → keys (files_of codec ss) ≡ map (λ (s : Segment). s.segment_id) ss
  unfolding keys files_of
  keys-files_of [] = refl
  keys-files_of (s ∷ ss) = ap (◌∷◌ s.segment_id) (keys-files_of ss)
