-- ===== src/Wal/Persistent/Reopen.antt =====
-- PersistentRaftWal::open and the reading of its files (src/lib.rs), on what the log has written.
use rust_raft.Base.BTreeMap.{BTreeMap, get}
use mathlib.Core.Path.{subst}
use rust_raft.Wal.Persistent.Filed.{IsFiled, files_of-IsFiled, keys-files_of, read_files-calm}
use rust_raft.Wal.Persistent.Disk.{ask, bind-ok, done, list_ids, open_for_append, ◌>>=◌}
use rust_raft.Base.{
  Bool, List, String, [], add_u64, ap, arith, false, not, refl, some, sym, true, u64_max, ℕ, ◌<◌,
  ◌==◌, ◌∙◌, ◌∷◌, ◌≡◌,
}
use rust_raft.Types.{ok}
use rust_raft.Wal.Recovery.{All}
use rust_raft.Wal.Segments.{Segment}
use rust_raft.Wal.Persistent.Lines.{Codec, file_bytes}
use rust_raft.Wal.Persistent.Files.{read_files, read_segments}
use rust_raft.Wal.Persistent.Layout.{IsLayout, files_of, head-le-active}
use rust_raft.Wal.Persistent.Log.{
  PersistentRaftWal, WalOptions, ensure_segments, last_segment_id, mark_sealed, open_loaded,
  open_wal, opened, validate_options,
}
use rust_raft.Wal.Persistent.Roll.{IsSynced, calm}

module _ (codec : Codec) where
  -- Reading a directory that the log has written gives the segments that it has in memory.
  read_segments-synced :
      (w : PersistentRaftWal) (m : BTreeMap (List ℕ))
      → IsSynced codec w m
      → read_segments codec (calm m) ≡ (calm m, ok (w.segments, false))
  unfolding read_segments list_ids ask
  read_segments-synced w m h =
      let f = files_of codec w.segments in
      ap (λ x. read_segments codec (calm x)) h.files_lem
      ∙ ap (λ k. read_files codec k (calm f)) (keys-files_of codec w.segments)
      ∙ read_files-calm codec f w.active w.segments h.layout
          (files_of-IsFiled codec w.active w.segments h.layout)
      ∙ ap (λ x. (calm x, ok (w.segments, false))) (sym h.files_lem)

  seal_as :
      (s : Segment) (b : Bool) (xs ys : List Segment)
      → b ≡ s.sealed
      → xs ≡ ys
      → ◌≡◌ {A = List Segment} (record s { sealed = b } ∷ xs) (s ∷ ys)
  seal_as s b xs ys e f = ap (λ x. record s { sealed = x } ∷ xs) e ∙ ap (◌∷◌ s) f

  pub mark_sealed-layout :
      (active : ℕ) (ss : List Segment) → IsLayout codec active ss → mark_sealed active ss ≡ ss
  unfolding mark_sealed
  mark_sealed-layout active [] l = absurd l
  mark_sealed-layout active (s ∷ []) (e, h) =
      let t : (s.segment_id == active) ≡ true = ground arith in
      seal_as s (not (s.segment_id == active)) [] [] (ap not t ∙ sym h.sealed_lem) refl
  mark_sealed-layout active (s ∷ t ∷ ss) (l, h, c) =
      let f : (s.segment_id == active) ≡ false =
        ground (arith, head-le-active codec active t ss c) in
      seal_as s (not (s.segment_id == active)) (mark_sealed active (t ∷ ss)) (t ∷ ss)
        (ap not f ∙ sym h.sealed_lem) (mark_sealed-layout active (t ∷ ss) c)

  pub last_segment_id-layout :
      (active : ℕ) (ss : List Segment) → IsLayout codec active ss → last_segment_id ss ≡ active
  unfolding last_segment_id
  last_segment_id-layout active [] l = absurd l
  last_segment_id-layout active (s ∷ []) (e, h) = e
  last_segment_id-layout active (s ∷ t ∷ ss) (l, h, c) =
      unfold last_segment_id in last_segment_id-layout active (t ∷ ss) c

  -- The handle for appending, to a file that is there.
  pub open_for_append-present :
      (what : String) (id : ℕ) (b : List ℕ) (m : BTreeMap (List ℕ))
      → get id m ≡ some b
      → open_for_append what id (calm m) ≡ (calm m, ok id)
  unfolding open_for_append
  open_for_append-present what id b m e = rw (e, open_for_append) refl

  pub last-filed :
      (m : BTreeMap (List ℕ)) (active : ℕ) (ss : List Segment)
      → IsLayout codec active ss
      → All (IsFiled codec m) ss
      → (b : List ℕ) × (get active m ≡ some b)
  last-filed m active [] l a = absurd l
  last-filed m active (s ∷ []) (e, h) (f, a) =
      (file_bytes codec s.records, subst (λ k. get k m ≡ some (file_bytes codec s.records)) e f)
  last-filed m active (s ∷ t ∷ ss) (l, h, c) (f, a) = last-filed m active (t ∷ ss) c a

  pub open_loaded-synced :
      (options : WalOptions) (truncated : Bool) (active : ℕ) (ss : List Segment)
      (m : BTreeMap (List ℕ)) (b : List ℕ)
      → IsLayout codec active ss
      → get active m ≡ some b
      → open_loaded codec options (ss, truncated) (calm m) ≡ (
        calm m,
        ok (record {
          options = options;
          segments = ss;
          active = active;
          next_segment_id = add_u64 active 1;
          released_segment_count = 0;
          truncated_corrupt_tail = truncated;
        }),
      )
  unfolding open_loaded opened ensure_segments
  open_loaded-synced options truncated active [] m b l f = absurd l
  open_loaded-synced options truncated active (s ∷ ss) m b l f =
      let what : String = "failed to open WAL segment: {err}" in
      let k = last_segment_id-layout active (s ∷ ss) l in
      ap
        (λ id.
          (open_for_append what id >>= (λ a. done (record {
            options = options;
            segments = mark_sealed id (s ∷ ss);
            active = a;
            next_segment_id = add_u64 id 1;
            released_segment_count = 0;
            truncated_corrupt_tail = truncated;
          })))
            (calm m))
        k
      ∙ bind-ok (open_for_append what active)
          (λ a. done (record {
            options = options;
            segments = mark_sealed active (s ∷ ss);
            active = a;
            next_segment_id = add_u64 active 1;
            released_segment_count = 0;
            truncated_corrupt_tail = truncated;
          }))
          (calm m) (open_for_append-present what active b m f)
      ∙ ap
          (λ segments. (
            calm m,
            ok (record {
              options = options;
              segments = segments;
              active = active;
              next_segment_id = add_u64 active 1;
              released_segment_count = 0;
              truncated_corrupt_tail = truncated;
            }),
          ))
          (mark_sealed-layout active (s ∷ ss) l)

  -- Opening a directory that a log has written, with valid options and on a disk where no call
  -- fails, changes no file and gives that log again: the same segments with the same records, the
  -- same active segment and the same next id, and no corrupt tail.
  pub open_wal-synced :
      (options : WalOptions) (w : PersistentRaftWal) (m : BTreeMap (List ℕ))
      → validate_options options ≡ ok tt
      → IsSynced codec w m
      → w.next_segment_id < u64_max
      → open_wal codec options (calm m) ≡ (
        calm m,
        ok (record w {
          options = options;
          released_segment_count = 0;
          truncated_corrupt_tail = false;
        }),
      )
  unfolding open_wal
  open_wal-synced options w m v h q =
      let filed =
        subst (λ x. All (IsFiled codec x) w.segments) (sym h.files_lem)
          (files_of-IsFiled codec w.active w.segments h.layout) in
      let (b, f) = last-filed m w.active w.segments h.layout filed in
      let n : add_u64 w.active 1 ≡ w.next_segment_id = omega (arith, h.next_lem) in
      rw (v, open_wal)
        (bind-ok (read_segments codec) (open_loaded codec options) (calm m)
            (read_segments-synced w m h)
          ∙ open_loaded-synced options false w.active w.segments m b h.layout f
          ∙ ap
              (λ k. (
                calm m,
                ok (record w {
                  options = options;
                  next_segment_id = k;
                  released_segment_count = 0;
                  truncated_corrupt_tail = false;
                }),
              ))
              n)
