-- ===== src/Wal/Persistent/Compact.antt =====
-- compact_through of PersistentRaftWal (src/lib.rs): what it keeps.
use rust_raft.Wal.Persistent.Log.{PersistentRaftWal}
use rust_raft.Wal.Persistent.Roll.{IsSynced, calm}
use rust_raft.Wal.Persistent.Layout.{IsLayout}
use rust_raft.Wal.Persistent.Maintain.{
  compact_through, forget, is_removable, removable_ids, remove_files,
}
use rust_raft.Wal.Persistent.Lines.{Codec}
use rust_raft.Wal.Persistent.Disk.{Disk, remove_file}
use rust_raft.Wal.Segments.{Segment}
use rust_raft.Wal.Recovery.{In}
use rust_raft.Base.BTreeMap.{BTreeMap, get, get-remove, remove}
use rust_raft.Types.{Outcome, and_then, ok}
use mathlib.Core.Path.{subst}
use rust_raft.Base.{
  Bool, Bool-cases, List, [], ap, arith, contains, false, filter, inl, inr, leb, length, not, refl,
  suc, take, true, zero, ℕ, ◌-◌, ◌<◌, ◌∙◌, ◌∷◌, ◌≡◌,
}

-- In the filtered list stands each member that passes.
In-filter :
    {A : Type 0} (p : A → Bool) (x : A) (xs : List A) → In x xs → p x ≡ true → In x (filter p xs)
In-filter p x [] i h = i
In-filter p x (y ∷ ys) (inl e) h = rw (ap p e ∙ h) (inl e)
In-filter p x (y ∷ ys) (inr i) h = elim (Bool-cases (p y)) [
  | inl t ↦ rw t (inr (In-filter p x ys i h))
  | inr f ↦ rw f (In-filter p x ys i h)
]

-- Files that are not named stay.
get-remove_files :
    (ids : List ℕ) (m : BTreeMap (List ℕ))
    → (n : BTreeMap (List ℕ)) × (remove_files ids (calm m) ≡ (calm n, ok tt))
      × ((k : ℕ) → contains k ids ≡ false → get k n ≡ get k m)
unfolding remove_files remove_file
get-remove_files [] m = (m, refl, λ k h. refl)
get-remove_files (id ∷ ids) m =
    let (n, e, f) = get-remove_files ids (remove id m) in
    (n, e, λ k h. ground (arith, f k, get-remove id k m))

module _ (codec : Codec) (log_index : ℕ) where
  -- An id below all of them is not among those to remove.
  below-not-removed :
      (k active n : ℕ) (s : Segment) (ss : List Segment)
      → IsLayout codec active (s ∷ ss)
      → k < s.segment_id
      → contains k (removable_ids log_index (take n (s ∷ ss))) ≡ false
  unfolding removable_ids
  below-not-removed k active zero s ss l h = refl
  below-not-removed k active (suc zero) s [] (e, i) h = ground arith
  below-not-removed k active (suc (suc n)) s [] (e, i) h = ground arith
  below-not-removed k active (suc n) s (t ∷ ss) (l, i, c) h =
      let rest = below-not-removed k active n t ss c (omega arith) in ground (arith, rest)

  head-removable :
      (s : Segment) (rest : List Segment)
      → contains s.segment_id (removable_ids log_index (s ∷ rest)) ≡ true
      → contains s.segment_id (removable_ids log_index rest) ≡ false
      → is_removable log_index s ≡ true
  unfolding removable_ids
  head-removable s rest h f = elim (Bool-cases (is_removable log_index s)) [
    | inl t ↦ t
    | inr n ↦ absurd (
        let g : contains s.segment_id (removable_ids log_index (s ∷ rest)) ≡ false =
          rw (n, removable_ids) f in
        cc)
  ]

  tail-removable :
      (k : ℕ) (s : Segment) (rest : List Segment)
      → contains k (removable_ids log_index (s ∷ rest)) ≡ true
      → s.segment_id < k
      → contains k (removable_ids log_index rest) ≡ true
  unfolding removable_ids
  tail-removable k s rest h q = ground arith

  layout-lt :
      (active : ℕ) (x s : Segment) (ss : List Segment)
      → IsLayout codec active (s ∷ ss)
      → In x ss
      → s.segment_id < x.segment_id
  layout-lt active x s [] l i = absurd i
  layout-lt active x s (t ∷ ss) (l, h, c) (inl e) =
      subst (λ (y : Segment). s.segment_id < y.segment_id) e l
  layout-lt active x s (t ∷ ss) (l, h, c) (inr i) = omega (arith, layout-lt active x t ss c i)

  nothing-removed : (k n : ℕ) → contains k (removable_ids log_index (take n [])) ≡ false
  unfolding removable_ids
  nothing-removed k zero = refl
  nothing-removed k (suc n) = refl

  -- A segment that is removed is one that may be.
  removed-removable :
      (active n : ℕ) (x : Segment) (ss : List Segment)
      → IsLayout codec active ss
      → In x ss
      → contains x.segment_id (removable_ids log_index (take n ss)) ≡ true
      → is_removable log_index x ≡ true
  removed-removable active zero x ss l i h = unfold removable_ids in cc
  removed-removable active (suc n) x [] l i h = absurd i
  removed-removable active (suc n) x (s ∷ []) l (inl e) h =
      subst
        (λ (y : Segment).
          contains y.segment_id (removable_ids log_index (s ∷ take n [])) ≡ true
          → is_removable log_index y ≡ true)
        e (λ g. head-removable s (take n []) g (nothing-removed s.segment_id n)) h
  removed-removable active (suc n) x (s ∷ []) l (inr e) h = absurd e
  removed-removable active (suc n) x (s ∷ t ∷ ss) (l, i, c) (inl e) h =
      subst
        (λ (y : Segment).
          contains y.segment_id (removable_ids log_index (s ∷ take n (t ∷ ss))) ≡ true
          → is_removable log_index y ≡ true)
        e
        (λ g.
          head-removable s (take n (t ∷ ss)) g (below-not-removed s.segment_id active n t ss c l))
        h
  removed-removable active (suc n) x (s ∷ t ∷ ss) (l, i, c) (inr e) h =
      removed-removable active n x (t ∷ ss) c e (
        tail-removable x.segment_id s (take n (t ∷ ss)) h
          (layout-lt active x s (t ∷ ss) (l, i, c) e))

  -- What `forget` keeps in memory.
  forget-kept :
      (ids : List ℕ) (w : PersistentRaftWal) (x : Segment)
      → In x w.segments
      → contains x.segment_id ids ≡ false
      → In x (forget ids w).segments
  unfolding forget
  forget-kept [] w x i h = i
  forget-kept (id ∷ ids) w x i h =
      In-filter (λ (s : Segment). not (contains s.segment_id (id ∷ ids))) x w.segments i (rw h refl)

  -- On a disk where no call fails, compaction through an index succeeds and keeps each segment that
  -- holds a later index as its last one, in memory and in its file.
  pub compact_through-keeps :
      (w : PersistentRaftWal) (m : BTreeMap (List ℕ))
      → IsSynced codec w m
      → (v : PersistentRaftWal) × (n : BTreeMap (List ℕ)) × (released : ℕ) × (compact_through
            log_index
            (w, calm m)
          ≡ ((v, calm n), ok released))
        × ((x : Segment)
            → In x w.segments
            → log_index < x.last_index
            → In x v.segments × (get x.segment_id n ≡ get x.segment_id m))
  unfolding compact_through
  compact_through-keeps w m h =
      let k = length w.segments - w.options.min_keep_segments in
      let ids = removable_ids log_index (take k w.segments) in
      elim (Bool-cases (leb (length w.segments) w.options.min_keep_segments)) [
        | inl t ↦ (w, m, 0, rw t refl, λ x i l. (i, refl))
        | inr f ↦
            let (n, e, keeps) = get-remove_files ids m in
            (
              forget ids w,
              n,
              length ids,
              rw f (
                  ap
                    (λ (o : Outcome Disk (Unit {0})).
                      and_then ((w, o.0), o.1) (λ s a. ((forget ids s.0, s.1), ok (length ids))))
                    e),
              λ x i l.
                  let kept : contains x.segment_id ids ≡ false = not_removed k x i l in
                  (forget-kept ids w x i kept, keeps x.segment_id kept),
            )
      ]
    where
      not_removed :
          (k : ℕ) (x : Segment)
          → In x w.segments
          → log_index < x.last_index
          → contains x.segment_id (removable_ids log_index (take k w.segments)) ≡ false
      not_removed k x i l =
          elim (Bool-cases (contains x.segment_id (removable_ids log_index (take k w.segments)))) [
            | inl t ↦ absurd (
                let r : is_removable log_index x ≡ true =
                  removed-removable w.active k x w.segments h.layout i t in
                unfold is_removable in ground (arith, r))
            | inr f ↦ f
          ]
