-- ===== src/Raft/Durable.antt =====
-- src/raft/raft.go, `persist`, `readPersist` and `Make`: what a peer still knows after a crash.
use mit6824_distribute_syste.Prelude.{
  ◌-◌, ◌≡◌, refl, true, some, length, get_last?, inl, inr, arith,
}
use mit6824_distribute_syste.Raft.Peer.{
  Log, Raft, RequestVoteArgs, RequestVoteReply, AppendEntriesArgs, AppendEntriesReply, Gob, IsCodec,
}
use mit6824_distribute_syste.Raft.Roles.{make, persist, be_candidate}
use mit6824_distribute_syste.Raft.Vote.{request_vote}
use mit6824_distribute_syste.Raft.Append.{append_entries}
use mit6824_distribute_syste.Raft.Voting.{request_vote_lem, MayVote, asked, UpToDate}
use mit6824_distribute_syste.Raft.Replication.{append_entries_lem, accepted, heard}

-- A crash and a restart: `Make` with the Persister that the peer has left.
abbrev pub restart : {C : Type 0} → Gob C → Raft C → Raft C
restart gob rf = make gob rf.peers rf.me rf.persister

-- The persistent fields of two peers are the same.
pub record SameStable {C : Type 0} (rf rf' : Raft C) : Type 0 where
  pub term_eq : rf'.current_term ≡ rf.current_term
  pub vote_eq : rf'.vote_for ≡ rf.vote_for
  pub log_eq : rf'.log ≡ rf.log

-- As a candidate the peer has its own vote, and after a restart it gives another in the same term.
abbrev pub VotesTwice : {C : Type 0} → Gob C → RequestVoteArgs → Raft C → Type 0
VotesTwice {C} gob args rf =
    ((be_candidate (persist gob rf)).vote_for ≡ some rf.me)
    × (args.term ≡ (be_candidate (persist gob rf)).current_term)
    × ((rf' : Raft C) × (request_vote gob args (restart gob (be_candidate (persist gob rf)))
          ≡ some (rf', record { term = args.term; vote_granted = true }))
        × (rf'.vote_for ≡ some args.candidate_id))

module _ {C : Type 0} {gob : Gob C} (codec : IsCodec gob) where
  pub restart-persist : (rf : Raft C) → SameStable rf (restart gob (persist gob rf))
  unfolding make persist
  restart-persist rf =
      rw (codec.decode-encode rf.current_term rf.vote_for rf.log)
        (record { term_eq = refl; vote_eq = refl; log_eq = refl })

  persisted-SameStable :
      (rf : Raft C) {rf' : Raft C} → rf' ≡ persist gob rf → SameStable rf' (restart gob rf')
  unfolding persist
  persisted-SameStable rf e =
      let s = restart-persist rf in
      rw e (record { term_eq = s.term_eq; vote_eq = s.vote_eq; log_eq = s.log_eq })

  -- A peer that answers a request for its vote with yes has stored its term, its vote and its log:
  -- they are the same after a restart.
  pub granted-survives :
      (args : RequestVoteArgs) (last : Log C) (rf : Raft C) {rf' : Raft C}
      {reply : RequestVoteReply}
      → get_last? rf.log ≡ some last
      → request_vote gob args rf ≡ some (rf', reply)
      → reply.vote_granted ≡ true
      → SameStable rf' (restart gob rf')
  granted-survives args last rf h e g = elim (request_vote_lem gob args last rf h) [
    | inr (_, no_vote) ↦ absurd (cc)
    | inl (may, granted) ↦
        persisted-SameStable
          (record (asked args rf) { vote_for = some args.candidate_id; vote_ch = some true }) (cc)
  ]

  -- So has a peer that answers a request to append with success.
  pub appended-survives :
      (args : AppendEntriesArgs C) (rf : Raft C) {rf' : Raft C} {reply : AppendEntriesReply}
      → append_entries gob args rf ≡ some (rf', reply)
      → reply.success ≡ true
      → SameStable rf' (restart gob rf')
  appended-survives args rf e g = elim (append_entries_lem gob args rf) [
    | inr (_, refused) ↦ absurd (cc)
    | inl (m, done) ↦ persisted-SameStable (accepted args (heard args rf)) (cc)
  ]

  -- An election is not stored. A peer that became a candidate, and so voted for itself in the next
  -- term, and that restarts before it stores anything, votes for another candidate of that term whose
  -- log is up to date.
  pub votes_twice :
      (args : RequestVoteArgs) (last : Log C) (rf : Raft C)
      → get_last? rf.log ≡ some last
      → args.term ≡ (be_candidate (persist gob rf)).current_term
      → UpToDate args.last_log_term args.last_log_index last.term (length rf.log - 1)
      → VotesTwice gob args rf
  unfolding be_candidate persist
  votes_twice args last rf h t u =
      let again = restart gob (persist gob rf) in
      let s = restart-persist rf in
      let may : MayVote args last again = record {
        fresh = omega (arith, s.term_eq);
        free = inl (omega (arith, s.term_eq));
        up_to_date = rw s.log_eq u;
      } in
      elim (request_vote_lem gob args last again (rw s.log_eq h)) [
        | inl (_, granted) ↦ (refl, t, (_, granted, refl))
        | inr (never, _) ↦ absurd (never may)
      ]
