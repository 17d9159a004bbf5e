-- ===== src/Raft/Vote.antt =====
-- src/raft/raft.go: elections. `RequestVote` at the voter; `startElection` at the candidate, whose
-- goroutines share the counter `count`.
use mit6824_distribute_syste.Prelude.{
  ℕ, ◌+◌, ◌-◌, ◌/◌, Bool, true, false, not, ◌&&◌, ◌||◌, Option, none, some, length, get_last?, ltb,
  ◌==◌, if◌then◌else◌, ◌>>=◌,
}
use mit6824_distribute_syste.Prelude.Int.{ltb_ℤ, eqb_ℤ}
use mit6824_distribute_syste.Raft.Peer.{Log, Raft, RequestVoteArgs, RequestVoteReply, Gob, send}
use mit6824_distribute_syste.Raft.Roles.{be_follower, be_leader, persist, is_candidate}

-- `VoteFor != -1 && VoteFor != args.CandidateId`
abbrev pub voted_other : Option ℕ → ℕ → Bool
voted_other none c = false
voted_other (some v) c = not (v == c)

-- The candidate's log is older than one of `n` entries that ends in `last`.
unfoldable pub is_behind : {C : Type 0} → RequestVoteArgs → ℕ → Log C → Bool
is_behind args n last =
    ltb_ℤ args.last_log_term last.term
    || (eqb_ℤ args.last_log_term last.term && ltb args.last_log_index (n - 1))

module _ {C : Type 0} where
  -- The request that `startElection` sends to every other peer.
  unfoldable pub election_args : Raft C → Option RequestVoteArgs
  election_args raft = do
    last ← get_last? raft.log
    some (record {
      term = raft.current_term;
      candidate_id = raft.me;
      last_log_index = length raft.log - 1;
      last_log_term = last.term;
    })

  -- What a goroutine of `startElection` does with a reply. `none`: `send` would block.
  unfoldable pub vote_reply : RequestVoteArgs → RequestVoteReply → ℕ → Raft C → Option (Raft C × ℕ)
  unfolding be_follower be_leader send
  vote_reply arg reply count raft =
      let counted = if reply.vote_granted then count + 1 else count in
      let elected = be_leader raft in
      if ltb raft.current_term reply.term
      then some (be_follower reply.term raft, count)
      else if not (is_candidate raft.state) || not (raft.current_term == arg.term)
      then some (raft, count)
      else if ltb (raft.peers / 2) counted
      then (do ch ← send elected.vote_ch; some (record elected { vote_ch = ch }, counted))
      else some (raft, counted)

module _ {C : Type 0} (gob : Gob C) where
  unfoldable pub grant_vote : RequestVoteArgs → Raft C → Option (Raft C × RequestVoteReply)
  unfolding persist send
  grant_vote args raft = do
    ch ← send raft.vote_ch
    let raft1 = record raft { vote_for = some args.candidate_id; vote_ch = ch }
    some (persist gob raft1, record { term = raft.current_term; vote_granted = true })

  -- `RequestVote`
  unfoldable pub request_vote : RequestVoteArgs → Raft C → Option (Raft C × RequestVoteReply)
  unfolding be_follower grant_vote
  request_vote args raft0 =
      let raft = if ltb raft0.current_term args.term then be_follower args.term raft0 else raft0 in
      let refused : Option (Raft C × RequestVoteReply) =
        some (raft, record { term = raft.current_term; vote_granted = false }) in
      if ltb args.term raft.current_term
      then refused
      else if voted_other raft.vote_for args.candidate_id
      then refused
      else (do
        last ← get_last? raft.log
        if is_behind args (length raft.log) last then refused else grant_vote args raft)
