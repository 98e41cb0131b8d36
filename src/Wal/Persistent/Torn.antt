-- ===== src/Wal/Persistent/Torn.antt =====
-- PersistentRaftWal::open (src/lib.rs) on a directory whose active file ends in a line that does not
-- read.
use rust_raft.Wal.Persistent.Filed.{
  IsFiled, keys-files_of, loaded_segment-lem, read_segment_file-calm,
}
use mathlib.Core.Path.{subst}
use rust_raft.Wal.Persistent.Disk.{
  append_file, ask, bind-ok, done, list_ids, read_file, set_len, sync_data, zeros, ◌>>=◌,
}
use rust_raft.Base.{
  ==_refl, Bool, List, String, [], ap, append-nil, arith, false, first, last_or, length,
  length-append, ltb, map, map_or, refl, some, sym, take, true, ℕ, ◌++◌, ◌-◌, ◌==◌, ◌∙◌, ◌∷◌, ◌≡◌,
}
use rust_raft.Base.BTreeMap.{BTreeMap, get, insert, keys}
use rust_raft.Types.{ok}
use rust_raft.Wal.Record.{WalRecord}
use rust_raft.Wal.Recovery.{All}
use rust_raft.Wal.Segments.{Segment}
use rust_raft.Wal.Persistent.Lines.{Codec, file_bytes, scan}
use rust_raft.Wal.Persistent.Scan.{IsWritten}
use rust_raft.Wal.Persistent.Files.{
  add_loaded, finish_scan, load_scan, read_files, read_segment_file, read_segments, truncate_file,
}
use rust_raft.Wal.Persistent.Roll.{calm}
use rust_raft.Wal.Persistent.Layout.{IsLayout, files_of, head-le-active}

take-length-append : (xs ys : List ℕ) → take (length xs) (xs ++ ys) ≡ xs
take-length-append [] ys = refl
take-length-append (x ∷ xs) ys = ap (◌∷◌ x) (take-length-append xs ys)

module _ (codec : Codec) where
  -- A line that does not read ends what the scan of these bytes finds, at the end of the records.
  abbrev pub IsTorn : List ℕ → Type 0
  IsTorn tail =
      (rs : List WalRecord)
      → All (IsWritten codec) rs
      → scan codec (file_bytes codec rs ++ tail)
        ≡ record { records = rs; valid_end = length (file_bytes codec rs); truncated = true }

  -- The cut leaves the records.
  truncate_file-calm :
      (id : ℕ) (b tail : List ℕ) (m : BTreeMap (List ℕ))
      → get id m ≡ some (b ++ tail)
      → truncate_file codec id (length b) (calm m) ≡ (calm (insert id b m), ok tt)
  unfolding truncate_file ask set_len sync_data
  truncate_file-calm id b tail m f =
      let n : length b - length (b ++ tail) ≡ 0 = omega (arith, length-append {0} b tail) in
      rw (f, truncate_file)
        (ap (λ x. (calm (insert id x m), ok tt))
          (ap (λ k. take (length b) (b ++ tail) ++ zeros k) n
            ∙ append-nil (take (length b) (b ++ tail))
            ∙ take-length-append b tail))

  read_segment_file-torn :
      (m : BTreeMap (List ℕ)) (s : Segment) (tail : List ℕ)
      → IsTorn tail
      → get s.segment_id m ≡ some (file_bytes codec s.records ++ tail)
      → All (IsWritten codec) s.records
      → read_segment_file codec s.segment_id (calm m)
        ≡ (calm (insert s.segment_id (file_bytes codec s.records) m), ok (s.records, true))
  unfolding read_segment_file read_file ask finish_scan
  read_segment_file-torn m s tail t f a =
      let id = s.segment_id in
      let what : String = "failed to open WAL segment: {err}" in
      let bytes = file_bytes codec s.records in
      let content : read_file what id (calm m) ≡ (calm m, ok (bytes ++ tail)) =
        rw (f, read_file) refl in
      bind-ok (read_file what id) (load_scan codec id) (calm m) content
      ∙ ap (λ found. finish_scan codec id found (calm m)) (t s.records a)
      ∙ bind-ok (truncate_file codec id (length bytes)) (λ _. done (s.records, true)) (calm m)
          (truncate_file-calm id bytes tail m f)

  -- All files but the last hold their segments; the last has `tail` behind its records.
  abbrev IsTornAt : BTreeMap (List ℕ) → List ℕ → List Segment → Type 0
  IsTornAt m tail [] = ⊥
  IsTornAt m tail (s ∷ []) = get s.segment_id m ≡ some (file_bytes codec s.records ++ tail)
  IsTornAt m tail (s ∷ t ∷ ss) = IsFiled codec m s × IsTornAt m tail (t ∷ ss)

  read_files-torn :
      (m : BTreeMap (List ℕ)) (active : ℕ) (tail : List ℕ) (s : Segment) (ss : List Segment)
      → IsTorn tail
      → IsLayout codec active (s ∷ ss)
      → IsTornAt m tail (s ∷ ss)
      → read_files codec (map (λ (s : Segment). s.segment_id) (s ∷ ss)) (calm m)
        ≡ (calm (insert active (file_bytes codec (last_or s ss).records) m), ok (s ∷ ss, true))
  unfolding read_files
  read_files-torn m active tail s [] t (e, h) f =
      let n = insert s.segment_id (file_bytes codec s.records) m in
      bind-ok (read_segment_file codec s.segment_id)
        (λ (p : List WalRecord × Bool).
          read_files codec [] >>= add_loaded codec s.segment_id p.0 p.1 [])
        (calm m) (read_segment_file-torn m s tail t f h.written)
      ∙ ap (λ (x : Segment). (calm n, ok (x ∷ [], true))) (loaded_segment-lem codec false s h)
      ∙ ap (λ id. (calm (insert id (file_bytes codec s.records) m), ok (s ∷ [], true))) e
  read_files-torn m active tail s (t ∷ ss) torn (l, h, c) (f, a) =
      let rest = map (λ (s : Segment). s.segment_id) (t ∷ ss) in
      let n = insert active (file_bytes codec (last_or t ss).records) m in
      bind-ok (read_segment_file codec s.segment_id)
        (λ (p : List WalRecord × Bool).
          read_files codec rest >>= add_loaded codec s.segment_id p.0 p.1 rest)
        (calm m) (read_segment_file-calm codec m s f h.written)
      ∙ bind-ok (read_files codec rest) (add_loaded codec s.segment_id s.records false rest)
          (calm m) (read_files-torn m active tail t ss torn c a)
      ∙ ap (λ (x : Segment). (calm n, ok (x ∷ t ∷ ss, true))) (loaded_segment-lem codec true s h)

  -- Bytes written behind the active file.
  IsTornAt-cons :
      (k active : ℕ) (b tail : List ℕ) (m : BTreeMap (List ℕ)) (ss : List Segment)
      → IsLayout codec active ss
      → map_or true (λ (s : Segment). ltb k s.segment_id) (first ss) ≡ true
      → IsTornAt m tail ss
      → IsTornAt ((k, b) ∷ m) tail ss
  unfolding get
  IsTornAt-cons k active b tail m [] l h a = a
  IsTornAt-cons k active b tail m (s ∷ []) (e, i) h f =
      let n : (k == s.segment_id) ≡ false = ground arith in rw n f
  IsTornAt-cons k active b tail m (s ∷ t ∷ ss) (l, i, c) h (f, a) =
      let n : (k == s.segment_id) ≡ false = ground arith in
      (rw n f, IsTornAt-cons k active b tail m (t ∷ ss) c (ground arith) a)

  append_file-IsTornAt :
      (active : ℕ) (tail : List ℕ) (ss : List Segment)
      → IsLayout codec active ss
      → IsTornAt (append_file active tail (files_of codec ss)) tail ss
  unfolding append_file files_of get
  append_file-IsTornAt active tail [] l = l
  append_file-IsTornAt active tail (s ∷ []) (e, h) =
      let t : (s.segment_id == active) ≡ true = ground arith in
      rw t (rw (==_refl s.segment_id) refl)
  append_file-IsTornAt active tail (s ∷ t ∷ ss) (l, h, c) =
      let f : (s.segment_id == active) ≡ false =
        ground (arith, head-le-active codec active t ss c) in
      let b = file_bytes codec s.records in
      let rest = append_file active tail (files_of codec (t ∷ ss)) in
      let e : append_file active tail (files_of codec (s ∷ t ∷ ss)) ≡ (s.segment_id, b) ∷ rest =
        rw f refl in
      subst (λ m. IsTornAt m tail (s ∷ t ∷ ss)) (sym e)
        (
          rw (==_refl s.segment_id) refl,
          IsTornAt-cons s.segment_id active b tail rest (t ∷ ss) c (ground arith)
              (append_file-IsTornAt active tail (t ∷ ss) c),
        )

  -- Written again as it was, the active file loses them.
  insert-append_file :
      (active : ℕ) (tail : List ℕ) (s : Segment) (ss : List Segment)
      → IsLayout codec active (s ∷ ss)
      → insert active
          (file_bytes codec (last_or s ss).records)
          (append_file active tail (files_of codec (s ∷ ss)))
        ≡ files_of codec (s ∷ ss)
  unfolding files_of insert append_file
  insert-append_file active tail s [] (e, h) = ground arith
  insert-append_file active tail s (t ∷ ss) (l, h, c) =
      let z : (s.segment_id == active) ≡ false =
        ground (arith, head-le-active codec active t ss c) in
      let f : (active == s.segment_id) ≡ false =
        ground (arith, head-le-active codec active t ss c) in
      let g : ltb active s.segment_id ≡ false =
        ground (arith, head-le-active codec active t ss c) in
      rw z (
        rw f (
          rw g (
            ap (◌∷◌ (s.segment_id, file_bytes codec s.records))
              (insert-append_file active tail t ss c))))

  keys-append_file :
      (active : ℕ) (tail : List ℕ) (m : BTreeMap (List ℕ))
      → keys (append_file active tail m) ≡ keys m
  unfolding keys append_file
  keys-append_file active tail [] = refl
  keys-append_file active tail ((j, b) ∷ m) = ground (arith, keys-append_file active tail m)

  -- Reading cuts the tail off and finds what the log had written before it.
  pub read_segments-torn :
      (active : ℕ) (tail : List ℕ) (ss : List Segment)
      → IsTorn tail
      → IsLayout codec active ss
      → read_segments codec (calm (append_file active tail (files_of codec ss)))
        ≡ (calm (files_of codec ss), ok (ss, true))
  unfolding read_segments list_ids ask
  read_segments-torn active tail [] t l = absurd l
  read_segments-torn active tail (s ∷ ss) t l =
      let m = append_file active tail (files_of codec (s ∷ ss)) in
      ap (λ k. read_files codec k (calm m))
        (keys-append_file active tail (files_of codec (s ∷ ss)) ∙ keys-files_of codec (s ∷ ss))
      ∙ read_files-torn m active tail s ss t l (append_file-IsTornAt active tail (s ∷ ss) l)
      ∙ ap (λ x. (calm x, ok (s ∷ ss, true))) (insert-append_file active tail s ss l)
