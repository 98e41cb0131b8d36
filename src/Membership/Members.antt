-- ===== src/Membership/Members.antt =====
-- Sequences of changes to the members of a RustRaftMembership (src/lib.rs).
use rust_raft.Types.{Result, ok}
use rust_raft.Base.{
  Bool, List, Option-cases, [], arith, contains, false, if◌then◌else◌, inl, inr, length, none,
  position, refl, remove_at, some, suc, zero, ℕ, ◌++◌, ◌+◌, ◌==◌, ◌∷◌, ◌≡◌, ◌≤◌,
}
use rust_raft.Membership.{
  Membership, add_learner, add_witness, promote_learner, remove_node, remove_peer,
}

-- How often a node is listed.
abbrev pub places : ℕ → List ℕ → ℕ
places a [] = 0
places a (x ∷ xs) = let later = places a xs in if x == a then suc later else later

abbrev pub listed : ℕ → Membership → ℕ
listed a m = places a m.voters + places a m.learners + places a m.witnesses

-- No node has two places.
pub record IsDistinct (m : Membership) : Type 0 where
  pub once : (a : ℕ) → listed a m ≤ 1

places-append : (a : ℕ) (xs ys : List ℕ) → places a (xs ++ ys) ≡ places a xs + places a ys
places-append a [] ys = omega arith
places-append a (x ∷ xs) ys = ground (arith, places-append a xs ys)

places-contains : (a : ℕ) (xs : List ℕ) → contains a xs ≡ false → places a xs ≡ 0
places-contains a [] h = refl
places-contains a (x ∷ xs) h = ground (arith, places-contains a xs)

-- The node's first place is its position, and the list without it.
places-remove_at :
    (a b i : ℕ) (xs : List ℕ)
    → position (λ x. x == b) xs ≡ some i
    → places a xs ≡ (if b == a then 1 else 0) + places a (remove_at i xs)
places-remove_at a b i [] h = cc
places-remove_at a b zero (x ∷ xs) h = ground arith
places-remove_at a b (suc i) (x ∷ xs) h = elim (Option-cases (position (λ x. x == b) xs)) [
  | inl e ↦ ground (arith, e)
  | inr (j, e) ↦ ground (arith, e, places-remove_at a b j xs e)
]

length-remove_at :
    (i : ℕ) (xs : List ℕ) (p : ℕ → Bool)
    → position p xs ≡ some i
    → length xs ≡ suc (length (remove_at i xs))
length-remove_at i [] p h = cc
length-remove_at zero (x ∷ xs) p h = ground arith
length-remove_at (suc i) (x ∷ xs) p h = elim (Option-cases (position p xs)) [
  | inl e ↦ ground (arith, e)
  | inr (j, e) ↦ ground (arith, e, length-remove_at j xs p e)
]

position-none : (a : ℕ) (xs : List ℕ) → position (λ x. x == a) xs ≡ none → places a xs ≡ 0
position-none a [] h = refl
position-none a (x ∷ xs) h = elim (Option-cases (position (λ x. x == a) xs)) [
  | inl e ↦ ground (arith, e, position-none a xs e)
  | inr (j, e) ↦ ground (arith, e)
]

pub add_learner-IsDistinct :
    (m m' : Membership) (b : ℕ) → IsDistinct m → add_learner m b ≡ ok m' → IsDistinct m'
unfolding add_learner
add_learner-IsDistinct m m' b d h = record {
  once = λ a. ground (
    arith,
    d.once a,
    places-append a m.learners (b ∷ []),
    places-contains b m.voters,
    places-contains b m.learners,
    places-contains b m.witnesses,
  );
}

pub add_witness-IsDistinct :
    (m m' : Membership) (b : ℕ) → IsDistinct m → add_witness m b ≡ ok m' → IsDistinct m'
unfolding add_witness
add_witness-IsDistinct m m' b d h = record {
  once = λ a. ground (
    arith,
    d.once a,
    places-append a m.witnesses (b ∷ []),
    places-contains b m.voters,
    places-contains b m.learners,
    places-contains b m.witnesses,
  );
}

promote_listed :
    (m m' : Membership) (a b : ℕ) → promote_learner m b ≡ ok m' → listed a m' ≡ listed a m
unfolding promote_learner
promote_listed m m' a b h = elim (Option-cases (position (λ l. l == b) m.learners)) [
  | inl e ↦ ground (arith, e)
  | inr (i, e) ↦
      ground (arith, e, places-remove_at a b i m.learners e, places-append a m.voters (b ∷ []))
]

remove_node_lem :
    (a b : ℕ) (xs ys : List ℕ)
    → remove_node xs b ≡ some ys
    → places a xs ≡ (if b == a then 1 else 0) + places a ys
unfolding remove_node
remove_node_lem a b xs ys h = elim (Option-cases (position (λ n. n == b) xs)) [
  | inl e ↦ ground (arith, e)
  | inr (i, e) ↦ ground (arith, e, places-remove_at a b i xs e)
]

-- A removal takes exactly one place, and it is the removed node's.
remove_listed :
    (m m' : Membership) (a b : ℕ)
    → remove_peer m b ≡ ok m'
    → listed a m ≡ (if b == a then 1 else 0) + listed a m'
unfolding remove_peer
remove_listed m m' a b h = elim (Option-cases (remove_node m.voters b)) [
  | inr (vs, e) ↦ ground (arith, e, remove_node_lem a b m.voters vs e)
  | inl v ↦ elim (Option-cases (remove_node m.learners b)) [
    | inr (ls, e) ↦ ground (arith, v, e, remove_node_lem a b m.learners ls e)
    | inl l ↦ elim (Option-cases (remove_node m.witnesses b)) [
      | inr (ws, e) ↦ ground (arith, v, l, e, remove_node_lem a b m.witnesses ws e)
      | inl w ↦ ground (arith, v, l, w)
    ]
  ]
]

-- The four methods that change a membership.
pub data Change : Type 0 where
  learner_added witness_added learner_promoted peer_removed : ℕ → Change

abbrev pub apply_change : Change → Membership → Result Membership
apply_change (learner_added b) m = add_learner m b
apply_change (witness_added b) m = add_witness m b
apply_change (learner_promoted b) m = promote_learner m b
apply_change (peer_removed b) m = remove_peer m b

-- Every change that succeeds, of whatever kind, keeps each node in one place at most.
pub change-IsDistinct :
    (c : Change) (m m' : Membership) → IsDistinct m → apply_change c m ≡ ok m' → IsDistinct m'
change-IsDistinct (learner_added b) m m' d h = add_learner-IsDistinct m m' b d h
change-IsDistinct (witness_added b) m m' d h = add_witness-IsDistinct m m' b d h
change-IsDistinct (learner_promoted b) m m' d h = record {
  once = λ a. omega (arith, d.once a, promote_listed m m' a b h);
}
change-IsDistinct (peer_removed b) m m' d h = record {
  once = λ a. omega (arith, d.once a, remove_listed m m' a b h);
}

-- Where no node has two places, a removal that succeeds leaves the removed node nowhere and every
-- other node as often as it was.
pub remove_peer-exact :
    (m m' : Membership) (a b : ℕ)
    → IsDistinct m
    → remove_peer m b ≡ ok m'
    → listed a m' ≡ (if b == a then 0 else listed a m)
remove_peer-exact m m' a b d h = ground (arith, d.once a, remove_listed m m' a b h)
