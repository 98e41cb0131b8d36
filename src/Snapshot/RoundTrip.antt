-- ===== src/Snapshot/RoundTrip.antt =====
-- Cutting a snapshot into chunks and installing them: checkpoint against RaftSnapshotInstallState
-- (src/lib.rs).
use rust_raft.Base.{
  ==_refl, Bool, Bool-cases, List, [], add_u64, add_u64-eq_of_le, ap, arith, drop, false, inl, inr,
  length, length-append, length-drop, length-take, ltb, ltb→lt, lt→ltb, min, refl, suc, take,
  take-all, true, u64_max, zero, ℕ, ◌++◌, ◌+◌, ◌-◌, ◌<◌, ◌==◌, ◌∷◌, ◌≡◌, ◌≤◌,
}
use rust_raft.Types.{Result, Snapshot, SnapshotMeta, ok, ◌>>=◌}
use text.Mathlib.TextPositions.{eq_refl}
use native.Mathlib.Nat.{sub-zero}
use rust_raft.Snapshot.{
  InstallState, SnapshotChunk, checkpoint, chunk_at, chunks_from, finish_install, install_chunk,
  list_eq, meta_eq, new_install, or_empty_chunk,
}

-- install_chunk for each chunk in turn.
unfoldable pub install_all : InstallState → List SnapshotChunk → Result InstallState
install_all s [] = ok s
install_all s (c ∷ cs) = do s' ← install_chunk s c; install_all s' cs

list_eq_refl : (xs : List ℕ) → list_eq xs xs ≡ true
unfolding list_eq
list_eq_refl [] = refl
list_eq_refl (x ∷ xs) = ground (arith, list_eq_refl xs)

pub meta_eq_refl : (m : SnapshotMeta) → meta_eq m m ≡ true
unfolding meta_eq
meta_eq_refl m = ground (arith, eq_refl m.snapshot_id, list_eq_refl m.membership)

take-nil {ℓ} : {A : Type ℓ} (n : ℕ) → take {A = A} n [] ≡ []
take-nil zero = refl
take-nil (suc n) = refl

take-drop-split {ℓ} :
    {A : Type ℓ} (a b : ℕ) (xs : List A) → a ≤ b → take a xs ++ take (b - a) (drop a xs) ≡ take b xs
take-drop-split zero b xs h = rw sub-zero
take-drop-split (suc a) zero xs h = absurd (omega arith)
take-drop-split (suc a) (suc b) [] h = take-nil (suc b - suc a)
take-drop-split (suc a) (suc b) (x ∷ xs) h =
    ap (◌∷◌ x)
      (let e : suc b - suc a ≡ b - a = omega arith in rw e (take-drop-split a b xs (omega arith)))

-- The install state that has taken the payload up to `offset`.
abbrev pub progress : Snapshot → ℕ → Bool → InstallState
progress snapshot offset is_complete = record {
  meta = snapshot.meta;
  bytes = take offset snapshot.payload;
  next_offset = offset;
  is_complete = is_complete;
}

-- A Vec holds isize::MAX bytes at most.
abbrev pub isize_max : ℕ
isize_max = 9_223_372_036_854_775_807

pub install_one :
    (snapshot : Snapshot) (offset end : ℕ) (b : Bool)
    → offset ≤ end
    → end ≤ length snapshot.payload
    → length snapshot.payload ≤ isize_max
    → install_chunk (progress snapshot offset b) (chunk_at snapshot offset end)
      ≡ ok (progress snapshot end (end == length snapshot.payload))
unfolding install_chunk chunk_at
install_one snapshot offset end b h k m = rw (
  install_chunk,
  meta_eq_refl snapshot.meta,
  ==_refl offset,
  take-drop-split offset end snapshot.payload h,
  moved,
)
  where
    moved : add_u64 offset (length (take (end - offset) (drop offset snapshot.payload))) ≡ end
    moved = omega (
      arith,
      length-take (end - offset) (drop offset snapshot.payload),
      length-drop offset snapshot.payload,
    )

pub chunks_from-end :
    (fuel : ℕ) (snapshot : Snapshot) (chunk_size : ℕ)
    → chunks_from fuel snapshot chunk_size (length snapshot.payload) ≡ []
unfolding chunks_from
chunks_from-end zero snapshot chunk_size = refl
chunks_from-end (suc fuel) snapshot chunk_size = ground arith

pub chunks_from-step :
    (fuel : ℕ) (snapshot : Snapshot) (chunk_size offset : ℕ)
    → offset < length snapshot.payload
    → offset + chunk_size ≤ u64_max
    → let end = min (offset + chunk_size) (length snapshot.payload) in
      chunks_from (suc fuel) snapshot chunk_size offset
      ≡ chunk_at snapshot offset end ∷ chunks_from fuel snapshot chunk_size end
unfolding chunks_from
chunks_from-step fuel snapshot chunk_size offset h k =
    rw (chunks_from, lt→ltb _ _ h, add_u64-eq_of_le offset chunk_size k)

-- From any point short of the end, with fuel for each byte left, the loop installs the rest.
install_rest :
    (snapshot : Snapshot) (fuel chunk_size offset : ℕ) (b : Bool)
    → 0 < chunk_size
    → offset + chunk_size ≤ u64_max
    → length snapshot.payload ≤ isize_max
    → offset < length snapshot.payload
    → length snapshot.payload ≤ offset + fuel
    → install_all (progress snapshot offset b) (chunks_from (suc fuel) snapshot chunk_size offset)
      ≡ ok (progress snapshot (length snapshot.payload) true)
unfolding install_all
install_rest snapshot zero chunk_size offset b p q m h f = absurd (omega arith)
install_rest snapshot (suc fuel) chunk_size offset b p q m h f =
    let end = min (offset + chunk_size) (length snapshot.payload) in
    let step = install_one snapshot offset end b (omega arith) (omega arith) m in
    elim (Bool-cases (ltb end (length snapshot.payload))) [
      | inl more ↦
          let short : end < length snapshot.payload = ltb→lt _ _ more in
          let open_end : (end == length snapshot.payload) ≡ false = ground arith in
          rw (chunks_from-step (suc fuel) snapshot chunk_size offset h q, step)
            (install_rest snapshot fuel chunk_size end _ p (omega arith) m short (omega arith))
      | inr over ↦
          let last_end : end ≡ length snapshot.payload = ground arith in
          rw (
            chunks_from-step (suc fuel) snapshot chunk_size offset h q,
            step,
            last_end,
            chunks_from-end (suc fuel) snapshot chunk_size,
            ==_refl (length snapshot.payload),
          )
    ]

nil-length {ℓ} : {A : Type ℓ} (xs : List A) → length xs ≡ 0 → xs ≡ []
nil-length [] h = refl
nil-length (x ∷ xs) h = absurd (omega arith)

install_empty :
    (snapshot : Snapshot)
    → install_all (new_install snapshot.meta) (or_empty_chunk snapshot [])
      ≡ ok (record { meta = snapshot.meta; bytes = []; next_offset = 0; is_complete = true })
unfolding install_all or_empty_chunk install_chunk new_install
install_empty snapshot = rw (install_chunk, meta_eq_refl snapshot.meta)

pub or_empty_chunk-cons :
    (snapshot : Snapshot) (c : SnapshotChunk) (cs ds : List SnapshotChunk)
    → ds ≡ c ∷ cs
    → or_empty_chunk snapshot ds ≡ ds
unfolding or_empty_chunk
or_empty_chunk-cons snapshot c cs ds h = rw h

-- The chunks of a snapshot, installed in order.
unfoldable pub chunks_of : Snapshot → ℕ → List SnapshotChunk
chunks_of snapshot chunk_size =
    or_empty_chunk snapshot (chunks_from (suc (length snapshot.payload)) snapshot chunk_size 0)

install_chunks :
    (snapshot : Snapshot) (chunk_size : ℕ)
    → 0 < chunk_size
    → chunk_size ≤ u64_max
    → length snapshot.payload ≤ isize_max
    → install_all (new_install snapshot.meta) (chunks_of snapshot chunk_size)
      ≡ ok (progress snapshot (length snapshot.payload) true)
unfolding chunks_of new_install
install_chunks snapshot chunk_size p q m =
    let start : 0 + chunk_size ≤ u64_max = omega arith in
    elim (Bool-cases (ltb 0 (length snapshot.payload))) [
      | inl h ↦
          let some_left : 0 < length snapshot.payload = ltb→lt _ _ h in
          let cut =
            chunks_from-step (length snapshot.payload) snapshot chunk_size 0 some_left start in
          rw (or_empty_chunk-cons snapshot _ _ _ cut) (
            install_rest snapshot (length snapshot.payload) chunk_size 0 false p start m some_left
              (omega arith))
      | inr h ↦
          let no_bytes : length snapshot.payload ≡ 0 = ground arith in
          let none_cut = chunks_from-end (suc (length snapshot.payload)) snapshot chunk_size in
          let none_cut' = rw no_bytes at none_cut in
          rw (no_bytes, none_cut') (install_empty snapshot)
    ]

-- A chunk size of 1 or more cuts a snapshot of at most isize::MAX bytes into chunks whose
-- installation, in order, gives exactly that snapshot back.
pub install-checkpoint :
    (snapshot : Snapshot) (chunk_size : ℕ)
    → 0 < chunk_size
    → chunk_size ≤ u64_max
    → length snapshot.payload ≤ isize_max
    → (chunks : List SnapshotChunk) × (checkpoint snapshot chunk_size ≡ ok chunks)
      × ((install_all (new_install snapshot.meta) chunks >>= λ s.
            finish_install s snapshot.group_id)
          ≡ ok snapshot)
unfolding checkpoint chunks_of finish_install
install-checkpoint snapshot chunk_size p q m = (
  chunks_of snapshot chunk_size,
  ground arith,
  rw (install_chunks snapshot chunk_size p q m)
      (rw (take-all (length snapshot.payload) snapshot.payload (omega arith))),
)

-- Chunks that do not follow one another are refused: a chunk is taken only at the offset that the
-- bytes so far have reached, and then the bytes grow by exactly its own.
pub install_chunk-in_order :
    (s s' : InstallState) (c : SnapshotChunk)
    → s.next_offset ≡ length s.bytes
    → length s.bytes + length c.bytes ≤ u64_max
    → install_chunk s c ≡ ok s'
    → (c.offset ≡ length s.bytes)
      × (s'.bytes ≡ s.bytes ++ c.bytes)
      × (s'.next_offset ≡ length s'.bytes)
      × (s'.meta ≡ s.meta)
unfolding install_chunk
install_chunk-in_order s s' c e b h = ground (arith, length-append s.bytes c.bytes)
