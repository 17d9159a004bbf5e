-- ===== src/Scenarios/Elections.antt =====
-- An election among three peers (src/raft/raft.go): one of them times out, and another votes for it.
use mit6824_distribute_syste.Prelude.{ℕ, ◌≡◌, refl, Bool, true, [], ◌∷◌, some, arith}
use mit6824_distribute_syste.Prelude.Int.{negsuc}
use mit6824_distribute_syste.Prelude.Families.{update}
use mit6824_distribute_syste.Raft.Persister.{make_persister}
use mit6824_distribute_syste.Raft.Peer.{Raft, RequestVoteArgs, RequestVoteReply}
use mit6824_distribute_syste.Raft.Roles.{make, persist, be_candidate, be_leader}
use mit6824_distribute_syste.Raft.Vote.{election_args, request_vote, vote_reply, is_behind}
use mit6824_distribute_syste.Raft.Steps.{awake, Wake, wake}
use mit6824_distribute_syste.Raft.Cluster.{
  Election, answered, over, Cluster, start_election, to, Moves, here, and_then, local, elect, ask,
  hear, boot,
}
use mit6824_distribute_syste.Raft.Elections.{one_leader_per_term}
use mit6824_distribute_syste.Tester.Leaders.{check_one_leader}
use mit6824_distribute_syste.Tester.OneLeader.{Decided}
use mit6824_distribute_syste.Tester.Polls.{
  read_state, Polls, stopped, slept, polled, read, one_leader_checked,
}
use mit6824_distribute_syste.Scenarios.Codec.{numbers_gob, numbers_gob-IsCodec}

abbrev arg : RequestVoteArgs
arg = record { term = 2; candidate_id = 0; last_log_index = 0; last_log_term = negsuc 0 }

abbrev nothing : Election
nothing = record { cand = 0; arg = arg; count = 0; calls = λ v. over }

abbrev granted : RequestVoteReply
granted = record { term = 2; vote_granted = true }

abbrev fresh : ℕ → Raft ℕ
fresh p = make numbers_gob 3 p make_persister

abbrev runs : Raft ℕ
runs = be_candidate (fresh 0)

abbrev voter : Raft ℕ
voter =
    persist numbers_gob
      (record (fresh 1) { current_term = 2; vote_for = some 0; vote_ch = some true })

abbrev winner : Raft ℕ
winner = record (be_leader runs) { vote_ch = some true }

abbrev begun : Election
begun = start_election 0 arg

abbrev asked : Election
asked = to begun 1 (answered granted)

abbrev won : Election
won = record (to asked 1 over) { count = 2 }

abbrev final : Cluster ℕ
final = record {
  peers = update (update (update fresh 0 runs) 1 voter) 0 winner;
  elections = update (update (update (λ _. nothing) 0 begun) 0 asked) 0 won;
  started = 1;
}

elected : Moves numbers_gob 3 (boot numbers_gob 3 nothing) final
unfolding boot make make_persister start_election be_candidate be_leader persist election_args
    request_vote is_behind vote_reply wake
elected =
    and_then
      (and_then
        (and_then (and_then here (local 0 (awake Wake.timed_out) (omega arith) tt))
          (elect 0 (omega arith) refl))
        (ask 0 1 (omega arith) (omega arith) refl (omega arith) refl))
      (hear 0 1 (omega arith) (omega arith) refl (omega arith) refl)

abbrev zero_peer : ℕ
zero_peer = 0

one_leader_per_term_example : zero_peer ≡ zero_peer
unfolding be_leader
one_leader_per_term_example =
    one_leader_per_term numbers_gob-IsCodec 3 nothing 0 0 elected here (omega arith) (omega arith)
      refl refl refl

abbrev everyone : ℕ → Bool
everyone i = true

-- The tester asks all peers after the election.
one_round :
    Polls numbers_gob 3 everyone final
      ((read_state 0 winner ∷ (read_state 1 voter ∷ (read_state 2 (fresh 2) ∷ []))) ∷ [])
one_round =
    slept here
      (read (omega arith) refl here
        (read (omega arith) refl here (read (omega arith) refl here polled)))
      stopped

one_leader_checked_example :
    Decided ((read_state 0 winner ∷ (read_state 1 voter ∷ (read_state 2 (fresh 2) ∷ []))) ∷ []) (
      check_one_leader
        ((read_state 0 winner ∷ (read_state 1 voter ∷ (read_state 2 (fresh 2) ∷ []))) ∷ []))
one_leader_checked_example =
    one_leader_checked {connected = everyone} numbers_gob-IsCodec nothing elected one_round
