-- ===== src/Runtime/Timer.antt =====
-- The timer of raft_node_runtime_loop (src/lib.rs): heartbeat intervals without a command.
use mathlib.Core.Path.{subst}
use rust_raft.Base.{
  Bool, Bool-cases, String, add_u64, ap, arith, false, inl, inr, is_some, leb, none, refl, some,
  suc, sym, true, u64_max, zero, ℕ, ◌*◌, ◌+◌, ◌≡◌, ◌≤◌,
}
use rust_raft.Types.{Result, err, ok}
use rust_raft.Cluster.Election.{VoteResponse, campaign, pre_vote}
use rust_raft.Cluster.Terms.{campaign-granted}
use rust_raft.Runtime.{
  RuntimeState, Worker, after_pre_vote, election_tick, heartbeat, is_running, note_error, tick,
}

-- Intervals that pass without a command.
unfoldable pub ticks : ℕ → Worker → Worker
unfolding tick
ticks zero w = w
ticks (suc n) w = ticks n (tick w)

-- A running worker and cluster without a leader, whose pre-vote is granted, and whose timeout
-- is a u64.
pub record IsWaiting (w : Worker) : Type 0 where
  pub runs : w.state ≡ RuntimeState.running
  pub elects : w.cluster.is_running ≡ true
  pub leaderless : w.cluster.leader_id ≡ none
  pub vote : VoteResponse
  pub answered : pre_vote w.cluster w.node_id ≡ ok vote
  pub granted : vote.vote_granted ≡ true
  pub fits : w.election_timeout_ms ≤ u64_max

-- The worker's cluster has gone through a campaign of the node, which now leads.
pub record HasCampaigned (w w' : Worker) : Type 0 where
  pub cluster : w'.cluster ≡ (campaign w.cluster w.node_id false).0
  pub leader : w'.cluster.leader_id ≡ some w.node_id
  pub counted : w'.campaign_executions ≡ add_u64 w.campaign_executions 1
  pub reset : w'.election_elapsed_ms ≡ 0

note_error-HasCampaigned :
    (operation : String) (fatal : Bool) {A : Type 0} (result : Result A) (w w' : Worker)
    → HasCampaigned w w'
    → HasCampaigned w (note_error operation fatal result w')
unfolding note_error
note_error-HasCampaigned operation fatal (ok a) w w' h = h
note_error-HasCampaigned operation fatal (err e) w w' h = record {
  cluster = h.cluster;
  leader = h.leader;
  counted = h.counted;
  reset = h.reset;
}

election_tick-HasCampaigned :
    (w : Worker) → IsWaiting w → HasCampaigned w (election_tick (heartbeat w))
unfolding election_tick heartbeat
election_tick-HasCampaigned w h =
    let led : is_some w.cluster.leader_id ≡ false = ap is_some h.leaderless in
    rw led (
      rw h.answered (
        rw (h.granted, after_pre_vote)
          (note_error-HasCampaigned "election_tick_campaign" false
            (campaign w.cluster w.node_id false).1 w _
            (record {
              cluster = refl;
              leader = campaign-granted w.cluster w.node_id h.vote h.elects h.answered h.granted;
              counted = refl;
              reset = refl;
            }))))

tick_due :
    (w : Worker)
    → IsWaiting w
    → leb w.election_timeout_ms (heartbeat w).election_elapsed_ms ≡ true
    → HasCampaigned w (tick w)
unfolding tick
tick_due w h due =
    let on : is_running w.state ≡ true = ap is_running h.runs in
    rw on (rw due (election_tick-HasCampaigned w h))

tick_early :
    (w : Worker)
    → IsWaiting w
    → leb w.election_timeout_ms (heartbeat w).election_elapsed_ms ≡ false
    → tick w ≡ heartbeat w
unfolding tick
tick_early w h early =
    let on : is_running w.state ≡ true = ap is_running h.runs in rw on (rw early refl)

heartbeat-IsWaiting : (w : Worker) → IsWaiting w → IsWaiting (heartbeat w)
unfolding heartbeat
heartbeat-IsWaiting w h = record {
  runs = h.runs;
  elects = h.elects;
  leaderless = h.leaderless;
  vote = h.vote;
  answered = h.answered;
  granted = h.granted;
  fits = h.fits;
}

heartbeat-HasCampaigned : (w w' : Worker) → HasCampaigned (heartbeat w) w' → HasCampaigned w w'
unfolding heartbeat
heartbeat-HasCampaigned w w' h = record {
  cluster = h.cluster;
  leader = h.leader;
  counted = h.counted;
  reset = h.reset;
}

-- What is left of the timeout after an early heartbeat.
heartbeat_left :
    (w : Worker) (n : ℕ)
    → IsWaiting w
    → leb w.election_timeout_ms (heartbeat w).election_elapsed_ms ≡ false
    → w.election_timeout_ms ≤ w.election_elapsed_ms + suc n * w.heartbeat_interval_ms
    → w.election_timeout_ms ≤ (heartbeat w).election_elapsed_ms + n * w.heartbeat_interval_ms
unfolding heartbeat
heartbeat_left w n h early enough = ground (arith, h.fits)

-- One interval of those that are left.
first_or_later :
    (n : ℕ) (w : Worker)
    → IsWaiting w
    → leb w.election_timeout_ms (heartbeat w).election_elapsed_ms ≡ false
    → (k : ℕ) × (k ≤ n) × HasCampaigned (heartbeat w) (ticks (suc k) (heartbeat w))
    → (k : ℕ) × (k ≤ suc n) × HasCampaigned w (ticks (suc k) w)
unfolding ticks
first_or_later n w h early (k, bound, c) = (
  suc k,
  omega arith,
  subst (λ w'. HasCampaigned w (ticks (suc k) w')) (sym (tick_early w h early))
      (heartbeat-HasCampaigned w _ c),
)

-- A running worker, whose running cluster has no leader and grants its pre-vote, leads within the
-- intervals that add up to its election timeout, if no command comes: its cluster is the one that a
-- campaign of the node makes, the campaign is counted, and the election timer is back at 0.
pub ticks-HasCampaigned :
    (n : ℕ) (w : Worker)
    → IsWaiting w
    → w.election_timeout_ms ≤ w.election_elapsed_ms + suc n * w.heartbeat_interval_ms
    → (k : ℕ) × (k ≤ n) × HasCampaigned w (ticks (suc k) w)
unfolding ticks
ticks-HasCampaigned zero w h enough =
    elim (Bool-cases (leb w.election_timeout_ms (heartbeat w).election_elapsed_ms)) [
      | inl due ↦ (0, omega arith, tick_due w h due)
      | inr early ↦ (let left = heartbeat_left w 0 h early enough in ground arith)
    ]
ticks-HasCampaigned (suc n) w h enough =
    elim (Bool-cases (leb w.election_timeout_ms (heartbeat w).election_elapsed_ms)) [
      | inl due ↦ (0, omega arith, tick_due w h due)
      | inr early ↦ first_or_later n w h early (
          ticks-HasCampaigned n (heartbeat w) (heartbeat-IsWaiting w h)
            (heartbeat_left w (suc n) h early enough))
    ]
