-- ===== src/Scenarios/Raft.antt =====
-- The Raft library (src/raft) on three peers.
use mit6824_distribute_syste.Prelude.{
  ℕ, zero, suc, ◌≡◌, refl, true, false, none, some, [], ◌∷◌, inr, arith, get_elem?, map,
}
use mit6824_distribute_syste.Prelude.Int.{pos, negsuc}
use mit6824_distribute_syste.Raft.Persister.{make_persister}
use mit6824_distribute_syste.Raft.Peer.{
  Log, Raft, AppendEntriesArgs, RequestVoteArgs, leader, follower,
}
use mit6824_distribute_syste.Raft.Roles.{make, be_candidate, persist, update_last_applied}
use mit6824_distribute_syste.Raft.Vote.{is_behind, request_vote}
use mit6824_distribute_syste.Raft.Append.{append_entries, accept_entries, start}
use mit6824_distribute_syste.Raft.Leader.{append_args, record_match, majority_index, advance_commit}
use mit6824_distribute_syste.Raft.Steps.{Run, here, next, append, awake, Wake, wake}
use mit6824_distribute_syste.Raft.Delivery.{delivered, upto, number}
use mit6824_distribute_syste.Raft.Terms.{one_vote_per_term, applied_in_order}
use mit6824_distribute_syste.Raft.Replication.{append_entries_lem, AppendOutcome}
use mit6824_distribute_syste.Raft.Voting.{request_vote_lem, VoteOutcome}
use mit6824_distribute_syste.Raft.Commit.{
  majority_index-IsMajority, IsMajority, advance_commit_lem, CommitOutcome, committed,
}
use mit6824_distribute_syste.Raft.Durable.{
  granted-survives, appended-survives, votes_twice, VotesTwice, SameStable, restart,
}
use mit6824_distribute_syste.Raft.Faults.{
  committed_entry_deleted, LosesCommitted, match_overclaimed,
}
use mit6824_distribute_syste.Raft.CatchUp.{catch_up, CanCopy, Copies, LogMatching}
use mit6824_distribute_syste.Scenarios.Codec.{numbers_gob, numbers_gob-IsCodec}

abbrev entry : ℕ → ℕ → Log ℕ
entry t c = record { term = pos t; command = some c }

abbrev sentinel_entry : Log ℕ
sentinel_entry = record { term = negsuc 0; command = none }

abbrev peer : ℕ → Raft ℕ
peer me = record {
  peers = 3;
  persister = record { raftstate = []; snapshot = [] };
  me = me;
  state = follower;
  current_term = 1;
  vote_for = none;
  log = sentinel_entry ∷ [];
  commit_index = 0;
  last_applied = 0;
  next_index = [];
  match_index = [];
  append_log_ch = none;
  vote_ch = none;
  apply_ch = [];
}

made_peer : make numbers_gob 3 1 make_persister ≡ peer 1
unfolding make make_persister
made_peer = refl

abbrev ask : ℕ → RequestVoteArgs
ask c = record { term = 2; candidate_id = c; last_log_index = 0; last_log_term = negsuc 0 }

abbrev voted_peer : Raft ℕ
voted_peer =
    persist numbers_gob
      (record (peer 1) { current_term = 2; vote_for = some 0; vote_ch = some true })

-- A first request of term 2 gets the vote, a second candidate's does not.
votes_once :
    (request_vote numbers_gob (ask 0) (peer 1)
      ≡ some (voted_peer, record { term = 2; vote_granted = true }))
    × (request_vote numbers_gob (ask 2) voted_peer
        ≡ some (voted_peer, record { term = 2; vote_granted = false }))
unfolding request_vote persist is_behind
votes_once = (refl, refl)

timer_reset : Run numbers_gob voted_peer (wake Wake.voted voted_peer)
timer_reset = next here (awake Wake.voted)

election : Run numbers_gob (peer 1) (wake Wake.timed_out (peer 1))
election = next here (awake Wake.timed_out)

one_vote_per_term_example : (wake Wake.voted voted_peer).vote_for ≡ some 0
unfolding wake persist
one_vote_per_term_example = one_vote_per_term numbers_gob 0 timer_reset refl refl

abbrev feed : AppendEntriesArgs ℕ
feed = record {
  term = 1;
  leader_id = 0;
  prev_log_index = 0;
  prev_log_term = negsuc 0;
  entries = entry 1 7 ∷ (entry 1 8 ∷ []);
  leader_commit = 2;
}

abbrev fed_peer : Raft ℕ
fed_peer = persist numbers_gob (
    delivered 2 (record (peer 1) {
      log = sentinel_entry ∷ (entry 1 7 ∷ (entry 1 8 ∷ []));
      commit_index = 2;
      append_log_ch = some true;
    }))

fed :
    append_entries numbers_gob feed (peer 1) ≡ some (fed_peer, record { term = 1; success = true })
unfolding append_entries persist accept_entries number update_last_applied
fed = refl

applied_in_order_example : map (λ m. m.index) fed_peer.apply_ch ≡ upto 1 fed_peer.last_applied
unfolding persist make make_persister
applied_in_order_example =
    applied_in_order numbers_gob 3 1 make_persister (next here (append feed fed))

append_entries_lem_example : AppendOutcome numbers_gob feed (peer 1)
append_entries_lem_example = append_entries_lem numbers_gob feed (peer 1)

request_vote_lem_example : VoteOutcome numbers_gob (ask 0) sentinel_entry (peer 1)
request_vote_lem_example = request_vote_lem numbers_gob (ask 0) sentinel_entry (peer 1) refl

majority_index-IsMajority_example :
    (n : ℕ) × (majority_index (4 ∷ (1 ∷ (3 ∷ []))) ≡ some n) × IsMajority n (4 ∷ (1 ∷ (3 ∷ [])))
majority_index-IsMajority_example = majority_index-IsMajority (4 ∷ (1 ∷ (3 ∷ []))) (omega arith)

median : majority_index (4 ∷ (1 ∷ (3 ∷ []))) ≡ some 3
unfolding majority_index
median = refl

-- Peer 0 leads in term 2 and has heard of two entries at peer 1.
abbrev leader_peer : Raft ℕ
leader_peer = record (peer 0) {
  state = leader;
  current_term = 2;
  vote_for = some 0;
  log = sentinel_entry ∷ (entry 1 7 ∷ (entry 2 8 ∷ []));
  next_index = pos 3 ∷ (pos 3 ∷ (pos 3 ∷ []));
  match_index = 2 ∷ (2 ∷ (0 ∷ []));
}

advance_commit_lem_example : CommitOutcome leader_peer
advance_commit_lem_example = advance_commit_lem leader_peer (omega arith)

leader_commits : advance_commit leader_peer ≡ some (committed 2 leader_peer)
unfolding advance_commit majority_index update_last_applied number
leader_commits = refl

granted-survives_example : SameStable voted_peer (restart numbers_gob voted_peer)
granted-survives_example =
    granted-survives numbers_gob-IsCodec (ask 0) sentinel_entry (peer 1) refl votes_once.0 refl

appended-survives_example : SameStable fed_peer (restart numbers_gob fed_peer)
appended-survives_example = appended-survives numbers_gob-IsCodec feed (peer 1) fed refl

votes_twice_example : VotesTwice numbers_gob (ask 2) (peer 1)
unfolding be_candidate persist
votes_twice_example =
    votes_twice numbers_gob-IsCodec (ask 2) sentinel_entry (peer 1) refl refl
      (inr (refl, omega arith))

-- A heartbeat that was sent before the two entries arrives after them.
abbrev heartbeat : AppendEntriesArgs ℕ
heartbeat = record feed { entries = []; leader_commit = 0 }

committed_entry_deleted_example : LosesCommitted numbers_gob heartbeat fed_peer
unfolding persist number
committed_entry_deleted_example =
    committed_entry_deleted numbers_gob heartbeat fed_peer (entry 1 8)
      (sentinel_entry, omega arith, refl, refl) refl (omega arith) refl

-- The request went out before the command 9 came; its success commits that command too.
abbrev overclaimed : Raft ℕ
overclaimed = committed 3 (
    persist numbers_gob (record leader_peer {
      log = sentinel_entry ∷ (entry 1 7 ∷ (entry 2 8 ∷ (entry 2 9 ∷ [])));
      match_index = 3 ∷ (3 ∷ (0 ∷ []));
      next_index = pos 3 ∷ (pos 4 ∷ (pos 3 ∷ []));
    }))

abbrev beat : AppendEntriesArgs ℕ
beat = record {
  term = 2;
  leader_id = 0;
  prev_log_index = 2;
  prev_log_term = pos 2;
  entries = [];
  leader_commit = 0;
}

sent : append_args 1 leader_peer ≡ some beat
unfolding append_args
sent = refl

recorded : record_match 1 (start numbers_gob (some 9) leader_peer).0 ≡ some overclaimed
unfolding record_match start persist advance_commit majority_index update_last_applied number
recorded = refl

match_overclaimed_example : get_elem? overclaimed.match_index 1 ≡ some 3
unfolding persist
match_overclaimed_example = match_overclaimed numbers_gob 1 (some 9) leader_peer refl sent recorded

-- Peer 1 has an entry of an old term where the leader has its own.
abbrev lagging : Raft ℕ
lagging = record (peer 1) { log = sentinel_entry ∷ (entry 0 5 ∷ []) }

can_copy : CanCopy 1 3 leader_peer lagging
can_copy = record {
  lead = refl;
  term_le = omega arith;
  matching = matches;
  sentinel = sentinel_entry;
  first = refl;
  first_peer = sentinel_entry;
  first' = refl;
  same_first = refl;
  id_lt = omega arith;
  me_lt = omega arith;
  below = omega arith;
  at = refl;
  next_le = omega arith;
}
  where
    matches : LogMatching lagging.log leader_peer.log
    matches zero a b p q t = refl
    matches (suc zero) a b p q t = absurd (ground arith)
    matches (suc (suc i)) a b p q t = absurd (cc)

catch_up_example : Copies numbers_gob 1 3 leader_peer lagging
catch_up_example = catch_up numbers_gob 1 2 leader_peer lagging can_copy
