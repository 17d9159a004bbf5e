-- ===== src/Raft/Terms.antt =====
-- src/raft/raft.go: the term, the vote and the service's view over the life of a peer.
use mit6824_distribute_syste.Prelude.{
  ℕ, ◌+◌, ◌-◌, ◌≤◌, ◌<◌, ◌≡◌, inl, inr, refl, Option, none, some, length, get_elem?, get_elem?_lt,
  arith, >>=-eq-some, Option-cases, write, map,
}
use mit6824_distribute_syste.Prelude.Int.{pos}
use mit6824_distribute_syste.Raft.Peer.{
  Raft, RequestVoteArgs, RequestVoteReply, AppendEntriesArgs, AppendEntriesReply,
  InstallSnapshotArgs, Gob,
}
use mit6824_distribute_syste.Raft.Persister.{Persister}
use mit6824_distribute_syste.Raft.Roles.{make, persist, be_follower}
use mit6824_distribute_syste.Raft.Vote.{request_vote, vote_reply}
use mit6824_distribute_syste.Raft.Append.{append_entries, install_snapshot, start, min_int}
use mit6824_distribute_syste.Raft.Leader.{
  append_reply, record_match, advance_commit, majority_index, Round,
}
use mit6824_distribute_syste.Raft.Steps.{
  Step, vote, append, snapshot, command, awake, counted, replied, Run, here, next, wake, Wake,
}
use mit6824_distribute_syste.Raft.Delivery.{
  InOrder, upto, update_last_applied_lem, delivered_to-InOrder,
}
use mit6824_distribute_syste.Raft.Replication.{
  append_entries_lem, length-merged, min_int-le, heard, accepted, merged,
}

module _ {C : Type 0} where
  -- What a step may do to the term, the vote and the service: the term never falls, within a term a
  -- vote that was cast stays, and the service sees the next indices.
  pub record Keeps (rf rf' : Raft C) : Type 0 where
    pub term_le : rf.current_term ≤ rf'.current_term
    pub vote_stays :
        (v : ℕ) → rf'.current_term ≡ rf.current_term → rf.vote_for ≡ some v → rf'.vote_for ≡ some v
    pub order : InOrder rf → InOrder rf'

  Keeps-trans : {a b c : Raft C} → Keeps a b → Keeps b c → Keeps a c
  Keeps-trans p q = record {
    term_le = omega arith;
    vote_stays = λ v e h. q.vote_stays v (omega arith) (p.vote_stays v (omega arith) h);
    order = λ h. q.order (p.order h);
  }

  advance_commit-Keeps : (rf : Raft C) {rf' : Raft C} → advance_commit rf ≡ some rf' → Keeps rf rf'
  unfolding advance_commit
  advance_commit-Keeps rf h =
      let (n, picked, more) = >>=-eq-some (majority_index rf.match_index) _ h in
      elim (Option-cases (get_elem? rf.log n)) [
        | inl out ↦ record {
          term_le = ground arith;
          vote_stays = λ v e q. ground arith;
          order = λ o. ground arith;
        }
        | inr (e, found) ↦
            let rf1 : Raft C = record rf { commit_index = n } in
            let below = get_elem?_lt rf.log n found in
            let moved = update_last_applied_lem rf1 below in
            record {
              term_le = ground (arith, moved);
              vote_stays = λ v e q. ground (arith, moved);
              order = λ o. ground (arith, moved, delivered_to-InOrder n rf1 below o);
            }
      ]

  record_match-Keeps :
      (id : ℕ) (rf : Raft C) {rf' : Raft C} → record_match id rf ≡ some rf' → Keeps rf rf'
  unfolding record_match
  record_match-Keeps id rf h =
      let last = length rf.log - 1 in
      let (matches, _, h1) = >>=-eq-some (write rf.match_index id last) _ h in
      let (nexts, _, h2) = >>=-eq-some (write rf.next_index id (pos (last + 1))) _ h1 in
      let (matches', _, h3) = >>=-eq-some (write matches rf.me last) _ h2 in
      let rf1 : Raft C = record rf { match_index = matches'; next_index = nexts } in
      let k = advance_commit-Keeps rf1 h3 in
      record { term_le = k.term_le; vote_stays = k.vote_stays; order = k.order }

  append_reply-Keeps :
      (id : ℕ) (reply : Option AppendEntriesReply) (rf : Raft C) {rf' : Raft C} {round : Round}
      → append_reply id reply rf ≡ some (rf', round)
      → Keeps rf rf'
  unfolding append_reply
  append_reply-Keeps id none rf h = record {
    term_le = ground arith;
    vote_stays = λ v e q. ground arith;
    order = λ o. ground arith;
  }
  append_reply-Keeps id (some reply) rf {rf'} h = elim (Option-cases (record_match id rf)) [
    | inl out ↦ record {
      term_le = ground arith;
      vote_stays = λ v e q. ground arith;
      order = λ o. ground arith;
    }
    | inr (rf1, done) ↦
        let k = record_match-Keeps id rf done in
        record {
          term_le = ground (arith, k.term_le);
          vote_stays = λ v e q. ground (arith, k.vote_stays v);
          order = λ o. ground (arith, k.order o);
        }
  ]

  vote_reply-Keeps :
      (arg : RequestVoteArgs) (reply : RequestVoteReply) (count : ℕ) (rf : Raft C) {rf' : Raft C}
      {count' : ℕ}
      → vote_reply arg reply count rf ≡ some (rf', count')
      → Keeps rf rf'
  unfolding vote_reply
  vote_reply-Keeps arg reply count rf h = record {
    term_le = ground arith;
    vote_stays = λ v e q. ground arith;
    order = λ o. ground arith;
  }

  wake-Keeps : (w : Wake) (rf : Raft C) → Keeps rf (wake w rf)
  unfolding wake
  wake-Keeps w rf = record {
    term_le = ground arith;
    vote_stays = λ v e q. ground arith;
    order = λ o. ground arith;
  }

  install_snapshot-Keeps :
      (args : InstallSnapshotArgs) (rf : Raft C) → Keeps rf (install_snapshot args rf).0
  unfolding install_snapshot
  install_snapshot-Keeps args rf = record {
    term_le = ground arith;
    vote_stays = λ v e q. ground arith;
    order = λ o. ground arith;
  }

  heard-Keeps : (args : AppendEntriesArgs C) (rf : Raft C) → Keeps rf (heard args rf)
  unfolding be_follower
  heard-Keeps args rf = record {
    term_le = ground arith;
    vote_stays = λ v e q. ground arith;
    order = λ o. ground arith;
  }

  accepted-Keeps :
      (args : AppendEntriesArgs C) (rf : Raft C)
      → args.prev_log_index < length rf.log
      → Keeps rf (accepted args rf)
  accepted-Keeps args rf within =
      let commit = min_int args.leader_commit (length (merged args rf) - 1) in
      let below : commit < length (merged args rf) = omega (
        arith,
        length-merged args rf within,
        min_int-le args.leader_commit (length (merged args rf) - 1),
      ) in
      record {
        term_le = ground arith;
        vote_stays = λ v e q. ground arith;
        order = λ o. ground (
          arith,
          delivered_to-InOrder commit (record rf { log = merged args rf; commit_index = commit })
              below o,
        );
      }

module _ {C : Type 0} (gob : Gob C) where
  persist-Keeps : (rf : Raft C) → Keeps rf (persist gob rf)
  unfolding persist
  persist-Keeps rf = record { term_le = ground arith; vote_stays = λ v e q. q; order = λ o. o }

  start-Keeps : (c : Option C) (rf : Raft C) → Keeps rf (start gob c rf).0
  unfolding start
  start-Keeps c rf = record {
    term_le = ground arith;
    vote_stays = λ v e q. ground arith;
    order = λ o. ground arith;
  }

  request_vote-Keeps :
      (args : RequestVoteArgs) (rf : Raft C) {rf' : Raft C} {reply : RequestVoteReply}
      → request_vote gob args rf ≡ some (rf', reply)
      → Keeps rf rf'
  unfolding request_vote
  request_vote-Keeps args rf h = record {
    term_le = ground arith;
    vote_stays = λ v e q. ground arith;
    order = λ o. ground arith;
  }

  append_entries-Keeps :
      (args : AppendEntriesArgs C) (rf : Raft C) {rf' : Raft C} {reply : AppendEntriesReply}
      → append_entries gob args rf ≡ some (rf', reply)
      → Keeps rf rf'
  unfolding be_follower
  append_entries-Keeps args rf {rf'} {reply} h = elim (append_entries_lem gob args rf) [
    | inl (m, e) ↦
        let same : rf' ≡ persist gob (accepted args (heard args rf)) = cc in
        rw same (
          Keeps-trans (heard-Keeps args rf) (
            Keeps-trans
              (accepted-Keeps args (heard args rf)
                (ground (arith, get_elem?_lt rf.log args.prev_log_index m.2)))
              (persist-Keeps (accepted args (heard args rf)))))
    | inr (_, e) ↦ let same : rf' ≡ heard args rf = cc in rw same (heard-Keeps args rf)
  ]

  pub Step-Keeps : {rf rf' : Raft C} → Step gob rf rf' → Keeps rf rf'
  Step-Keeps {rf} (vote args h) = request_vote-Keeps args rf h
  Step-Keeps {rf} (append args h) = append_entries-Keeps args rf h
  Step-Keeps {rf} (snapshot args) = install_snapshot-Keeps args rf
  Step-Keeps {rf} (command c) = start-Keeps c rf
  Step-Keeps {rf} (awake w) = wake-Keeps w rf
  Step-Keeps {rf} (counted arg reply count h) = vote_reply-Keeps arg reply count rf h
  Step-Keeps {rf} (replied id reply h) = append_reply-Keeps id reply rf h

  Run-Keeps : {rf rf' : Raft C} → Run gob rf rf' → Keeps rf rf'
  Run-Keeps here = record { term_le = omega arith; vote_stays = λ v e h. h; order = λ h. h }
  Run-Keeps (next run step) = Keeps-trans (Run-Keeps run) (Step-Keeps step)

  -- Over any run of a peer without a crash the term never falls.
  pub term_monotone : {rf rf' : Raft C} → Run gob rf rf' → rf.current_term ≤ rf'.current_term
  term_monotone run = (Run-Keeps run).term_le

  -- Over any run without a crash that ends in the term in which it began, a vote that was cast at the
  -- beginning stands at the end: a peer votes for one candidate in a term.
  pub one_vote_per_term :
      {rf rf' : Raft C} (v : ℕ)
      → Run gob rf rf'
      → rf'.current_term ≡ rf.current_term
      → rf.vote_for ≡ some v
      → rf'.vote_for ≡ some v
  one_vote_per_term v run e h = (Run-Keeps run).vote_stays v e h

  -- Over any run from `Make` the service is sent the indices 1, 2, ..., `lastApplied`, each once and
  -- in this order, whatever requests and replies the peer gets.
  pub applied_in_order :
      (peers me : ℕ) (persister : Persister) {rf : Raft C}
      → Run gob (make gob peers me persister) rf
      → map (λ m. m.index) rf.apply_ch ≡ upto 1 rf.last_applied
  unfolding make
  applied_in_order peers me persister run = (Run-Keeps run).order refl
