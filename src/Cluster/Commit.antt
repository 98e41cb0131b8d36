-- ===== src/Cluster/Commit.antt =====
-- What a commit rests on: refresh_commit_index of RaftCluster (src/lib.rs).
use rust_raft.Node.{RaftNode}
use rust_raft.Base.BTreeMap.{BTreeMap, map_values, values}
use rust_raft.Base.{
  Bool-cases, List, [], arith, false, filter, if◌then◌else◌, inl, inr, is_empty, leb, length, map,
  max, maximum, min, minimum, refl, saturating_sub, suc, tests, true, zero, ℕ, ◌+◌, ◌-◌, ◌<◌, ◌∷◌,
  ◌≡◌, ◌≤◌, ◌⊎◌,
}
use rust_raft.Cluster.State.{
  Cluster, advance_healthy, candidate_indexes, get_or, has_live_quorum, insert_sorted,
  live_participant, quorum_commit, quorum_size, refresh_commit_index, sort,
}

-- How many of the numbers are `v` or more.
abbrev pub count_ge : ℕ → List ℕ → ℕ
count_ge v [] = 0
count_ge v (x ∷ xs) = if leb v x then suc (count_ge v xs) else count_ge v xs

count_ge-insert_sorted :
    (v x : ℕ) (xs : List ℕ) → count_ge v (insert_sorted x xs) ≡ count_ge v (x ∷ xs)
unfolding insert_sorted
count_ge-insert_sorted v x [] = refl
count_ge-insert_sorted v x (y ∷ ys) = ground (arith, count_ge-insert_sorted v x ys)

count_ge-sort : (v : ℕ) (xs : List ℕ) → count_ge v (sort xs) ≡ count_ge v xs
unfolding sort
count_ge-sort v [] = refl
count_ge-sort v (x ∷ xs) = ground (arith, count_ge-insert_sorted v x (sort xs), count_ge-sort v xs)

-- Each number is at most the next.
abbrev IsSorted : ℕ → List ℕ → Type 0
IsSorted lo [] = Unit {0}
IsSorted lo (x ∷ xs) = (lo ≤ x) × IsSorted x xs

insert_sorted-IsSorted :
    (lo x : ℕ) (xs : List ℕ) → lo ≤ x → IsSorted lo xs → IsSorted lo (insert_sorted x xs)
unfolding insert_sorted
insert_sorted-IsSorted lo x [] h s = (h, tt)
insert_sorted-IsSorted lo x (y ∷ ys) h s = ground (arith, insert_sorted-IsSorted y x ys)

sort-IsSorted : (xs : List ℕ) → IsSorted 0 (sort xs)
unfolding sort
sort-IsSorted [] = tt
sort-IsSorted (x ∷ xs) = insert_sorted-IsSorted 0 x (sort xs) (omega arith) (sort-IsSorted xs)

length-insert_sorted : (x : ℕ) (xs : List ℕ) → length (insert_sorted x xs) ≡ suc (length xs)
unfolding insert_sorted
length-insert_sorted x [] = refl
length-insert_sorted x (y ∷ ys) = ground (arith, length-insert_sorted x ys)

length-sort : (xs : List ℕ) → length (sort xs) ≡ length xs
unfolding sort
length-sort [] = refl
length-sort (x ∷ xs) = omega (arith, length-insert_sorted x (sort xs), length-sort xs)

count_ge-all : (v lo : ℕ) (xs : List ℕ) → v ≤ lo → IsSorted lo xs → count_ge v xs ≡ length xs
count_ge-all v lo [] h s = refl
count_ge-all v lo (x ∷ xs) h s = ground (arith, count_ge-all v x xs)

-- In a sorted list the numbers from place `i` on are as large as the one at place `i`.
count_ge-get_or :
    (lo i : ℕ) (xs : List ℕ) → IsSorted lo xs → length xs ≤ i + count_ge (get_or xs i 0) xs
count_ge-get_or lo i [] s = omega arith
count_ge-get_or lo zero (x ∷ xs) s = ground (arith, count_ge-all x x xs)
count_ge-get_or lo (suc i) (x ∷ xs) s = ground (arith, count_ge-get_or x i xs)

length-candidates :
    (nodes : List RaftNode)
    → length (candidate_indexes nodes) ≡ length (filter live_participant nodes)
unfolding candidate_indexes
length-candidates [] = refl
length-candidates (n ∷ nodes) = ground (arith, length-candidates nodes)

-- Where a quorum is live, the index that the sorted candidates give is held by a quorum of the
-- healthy voters and witnesses.
pub quorum_commit-held :
    (nodes : List RaftNode)
    → quorum_size nodes ≤ length (candidate_indexes nodes)
    → quorum_size nodes ≤ count_ge (quorum_commit nodes) (candidate_indexes nodes)
unfolding quorum_commit
quorum_commit-held nodes h =
    let xs = candidate_indexes nodes in
    let i = length xs - quorum_size nodes in
    omega (
      arith,
      count_ge-get_or 0 i (sort xs) (sort-IsSorted xs),
      length-sort xs,
      count_ge-sort (get_or (sort xs) i 0) xs,
    )

quorum_size-pos : (nodes : List RaftNode) → 0 < quorum_size nodes
unfolding quorum_size
quorum_size-pos nodes = omega arith

live-candidates :
    (c : Cluster)
    → has_live_quorum c ≡ true
    → quorum_size (values c.nodes) ≤ length (candidate_indexes (values c.nodes))
unfolding has_live_quorum
live-candidates c h = ground (arith, length-candidates (values c.nodes))

count_ge-antitone : (v w : ℕ) (xs : List ℕ) → v ≤ w → count_ge w xs ≤ count_ge v xs
count_ge-antitone v w [] h = omega arith
count_ge-antitone v w (x ∷ xs) h = ground (arith, count_ge-antitone v w xs)

abbrev pub commits : BTreeMap RaftNode → List ℕ
commits nodes = map (λ (n : RaftNode). n.commit_index) (values nodes)

-- Advancing the healthy nodes raises the greatest commit index to the new one at most, and lowers
-- none.
commits-advance :
    (commit : ℕ) (nodes : BTreeMap RaftNode)
    → (maximum (commits (map_values (advance_healthy commit) nodes))
        ≤ max commit (maximum (commits nodes)))
      × (maximum (commits nodes) ≤ maximum (commits (map_values (advance_healthy commit) nodes)))
unfolding values map_values advance_healthy
commits-advance commit [] = omega arith
commits-advance commit ((k, n) ∷ nodes) = ground (arith, commits-advance commit nodes)

-- Where a quorum is live and no node has committed more than the cluster, `refresh_commit_index`
-- leaves a commit index that is at least every node's, and raises the cluster's only to one that a
-- quorum of the healthy voters and witnesses holds.
pub refresh_commit_index-held :
    (c : Cluster)
    → has_live_quorum c ≡ true
    → maximum (commits c.nodes) ≤ c.commit_index
    → let nodes = values c.nodes in
      let commit = (refresh_commit_index c).commit_index in
      (maximum (commits c.nodes) ≤ commit)
      × ((commit ≤ c.commit_index)
          ⊎ (quorum_size nodes ≤ count_ge commit (candidate_indexes nodes)))
unfolding refresh_commit_index
refresh_commit_index-held c q b =
    let nodes = values c.nodes in
    let target = max c.commit_index (quorum_commit nodes) in
    let enough : quorum_size nodes ≤ length (candidate_indexes nodes) = live-candidates c q in
    let some_live : is_empty (candidate_indexes nodes) ≡ false =
      ground (arith, quorum_size-pos nodes) in
    let moved = commits-advance target c.nodes in
    rw some_live (
      moved.1,
      elim (Bool-cases (leb (quorum_commit nodes) c.commit_index)) [
        | inl low ↦ inl (omega (tests, moved.0))
        | inr high ↦ inr (
            omega (
              arith,
              quorum_commit-held nodes enough,
              count_ge-antitone (maximum (commits (map_values (advance_healthy target) c.nodes)))
                  (quorum_commit nodes) (candidate_indexes nodes) (ground (arith, moved.0)),
            ))
      ],
    )

least-insert_sorted :
    (x : ℕ) (xs : List ℕ)
    → get_or (insert_sorted x xs) 0 0 ≡ (if is_empty xs then x else min x (get_or xs 0 0))
unfolding insert_sorted
least-insert_sorted x [] = refl
least-insert_sorted x (y ∷ ys) = ground arith

least-sort : (xs : List ℕ) → get_or (sort xs) 0 0 ≡ minimum xs
unfolding sort
least-sort [] = refl
least-sort (x ∷ []) = refl
least-sort (x ∷ y ∷ ys) =
    ground (arith, least-insert_sorted x (sort (y ∷ ys)), least-sort (y ∷ ys), length-sort (y ∷ ys))

-- Where the healthy voters and witnesses are no more than a quorum, and so also where they are
-- fewer, the index that their sorted match indexes give is the least of them.
pub quorum_commit-least :
    (nodes : List RaftNode)
    → length (candidate_indexes nodes) ≤ quorum_size nodes
    → quorum_commit nodes ≡ minimum (candidate_indexes nodes)
unfolding quorum_commit
quorum_commit-least nodes h =
    let first_place : saturating_sub (length (candidate_indexes nodes)) (quorum_size nodes) ≡ 0 =
      omega arith in
    rw first_place (least-sort (candidate_indexes nodes))
