-- ===== src/Raft/Tame.antt =====
-- src/raft/raft.go: what a step of a peer may do to its role, by the way the step is taken.
use mathlib.Core.Path.{subst}
use mit6824_distribute_syste.Prelude.{
  sym, ◌∙◌, ℕ, ◌+◌, ◌-◌, ◌/◌, ◌<◌, ◌≡◌, ◌⊎◌, inl, inr, true, Option, none, some, length, get_elem?,
  get_elem?_lt, arith, >>=-eq-some, Option-cases, write,
}
use mit6824_distribute_syste.Prelude.Int.{pos}
use mit6824_distribute_syste.Raft.Peer.{
  Raft, candidate, leader, RequestVoteArgs, RequestVoteReply, AppendEntriesArgs, AppendEntriesReply,
  InstallSnapshotArgs, Gob,
}
use mit6824_distribute_syste.Raft.Roles.{persist, be_follower}
use mit6824_distribute_syste.Raft.Vote.{request_vote, vote_reply}
use mit6824_distribute_syste.Raft.Append.{append_entries, install_snapshot, start}
use mit6824_distribute_syste.Raft.Leader.{
  append_reply, record_match, advance_commit, majority_index, Round,
}
use mit6824_distribute_syste.Raft.Steps.{
  Step, vote, append, snapshot, command, awake, counted, replied, wake, Wake,
}
use mit6824_distribute_syste.Raft.Cluster.{Apart}
use mit6824_distribute_syste.Raft.Delivery.{update_last_applied_lem}
use mit6824_distribute_syste.Raft.Replication.{append_entries_lem, heard, accepted}

-- A candidate has voted for itself.
abbrev pub SelfVote : {C : Type 0} → Raft C → Type 0
SelfVote rf = rf.state ≡ candidate → rf.vote_for ≡ some rf.me

-- What every step keeps: who the peer is, how many there are, and that a candidate has voted for itself.
-- A leader was one before, in the same term, or what `Won` says of the term holds.
pub record Tame {C : Type 0} (Won : ℕ → Type 0) (rf rf' : Raft C) : Type 0 where
  pub same_me : rf'.me ≡ rf.me
  pub same_peers : rf'.peers ≡ rf.peers
  pub self_vote : SelfVote rf → SelfVote rf'
  pub leads :
      rf'.state ≡ leader
      → ((rf.state ≡ leader) × (rf'.current_term ≡ rf.current_term)) ⊎ Won rf'.current_term

module _ {C : Type 0} (Won : ℕ → Type 0) where
  Tame-trans : {a b c : Raft C} → Tame Won a b → Tame Won b c → Tame Won a c
  Tame-trans p q = record {
    same_me = q.same_me ∙ p.same_me;
    same_peers = q.same_peers ∙ p.same_peers;
    self_vote = λ h. q.self_vote (p.self_vote h);
    leads = λ l. elim (q.leads l) [
      | inr won ↦ inr won
      | inl (led, e) ↦ elim (p.leads led) [
        | inl (led', e') ↦ inl (led', e ∙ e')
        | inr won ↦ inr (subst Won (sym e) won)
      ]
    ];
  }

  advance_commit-Tame :
      (rf : Raft C) {rf' : Raft C} → advance_commit rf ≡ some rf' → Tame Won rf rf'
  unfolding advance_commit
  advance_commit-Tame rf h =
      let (n, picked, more) = >>=-eq-some (majority_index rf.match_index) _ h in
      elim (Option-cases (get_elem? rf.log n)) [
        | inl out ↦ record {
          same_me = ground (arith);
          same_peers = ground (arith);
          self_vote = λ s c. ground (arith, s);
          leads = λ l. ground (arith);
        }
        | inr (e, found) ↦
            let moved =
              update_last_applied_lem (record rf { commit_index = n })
                (get_elem?_lt rf.log n found) in
            record {
              same_me = ground (arith, moved);
              same_peers = ground (arith, moved);
              self_vote = λ s c. ground (arith, s, moved);
              leads = λ l. ground (arith, moved);
            }
      ]

  record_match-Tame :
      (id : ℕ) (rf : Raft C) {rf' : Raft C} → record_match id rf ≡ some rf' → Tame Won rf rf'
  unfolding record_match
  record_match-Tame id rf h =
      let last = length rf.log - 1 in
      let (matches, _, h1) = >>=-eq-some (write rf.match_index id last) _ h in
      let (nexts, _, h2) = >>=-eq-some (write rf.next_index id (pos (last + 1))) _ h1 in
      let (matches', _, h3) = >>=-eq-some (write matches rf.me last) _ h2 in
      let rf1 : Raft C = record rf { match_index = matches'; next_index = nexts } in
      let t = advance_commit-Tame rf1 h3 in
      record {
        same_me = t.same_me;
        same_peers = t.same_peers;
        self_vote = t.self_vote;
        leads = t.leads;
      }

  append_reply-Tame :
      (id : ℕ) (reply : Option AppendEntriesReply) (rf : Raft C) {rf' : Raft C} {round : Round}
      → append_reply id reply rf ≡ some (rf', round)
      → Tame Won rf rf'
  unfolding append_reply be_follower
  append_reply-Tame id none rf h = record {
    same_me = ground (arith);
    same_peers = ground (arith);
    self_vote = λ s c. ground (arith, s);
    leads = λ l. ground (arith);
  }
  append_reply-Tame id (some reply) rf {rf'} h = elim (Option-cases (record_match id rf)) [
    | inl out ↦ record {
      same_me = ground (arith);
      same_peers = ground (arith);
      self_vote = λ s c. ground (arith, s);
      leads = λ l. ground (arith);
    }
    | inr (rf1, done) ↦
        let t = record_match-Tame id rf done in
        record {
          same_me = ground (arith, t.same_me);
          same_peers = ground (arith, t.same_peers);
          self_vote = λ s c. ground (arith, s, t.self_vote s);
          leads = λ l. ground (arith, t.leads);
        }
  ]

  wake-Tame : (w : Wake) (rf : Raft C) → Tame Won rf (wake w rf)
  unfolding wake
  wake-Tame w rf = record {
    same_me = ground (arith);
    same_peers = ground (arith);
    self_vote = λ s c. ground (arith, s);
    leads = λ l. ground (arith);
  }

  install_snapshot-Tame :
      (args : InstallSnapshotArgs) (rf : Raft C) → Tame Won rf (install_snapshot args rf).0
  unfolding install_snapshot be_follower
  install_snapshot-Tame args rf = record {
    same_me = ground (arith);
    same_peers = ground (arith);
    self_vote = λ s c. ground (arith, s);
    leads = λ l. ground (arith);
  }

  heard-Tame : (args : AppendEntriesArgs C) (rf : Raft C) → Tame Won rf (heard args rf)
  unfolding be_follower
  heard-Tame args rf = record {
    same_me = ground (arith);
    same_peers = ground (arith);
    self_vote = λ s c. ground (arith, s);
    leads = λ l. ground (arith);
  }

  accepted-Tame : (args : AppendEntriesArgs C) (rf : Raft C) → Tame Won rf (accepted args rf)
  accepted-Tame args rf = record {
    same_me = ground (arith);
    same_peers = ground (arith);
    self_vote = λ s c. ground (arith, s);
    leads = λ l. ground (arith);
  }

module _ {C : Type 0} (gob : Gob C) (Won : ℕ → Type 0) where
  persist-Tame : (rf : Raft C) → Tame Won rf (persist gob rf)
  unfolding persist
  persist-Tame rf = record {
    same_me = ground (arith);
    same_peers = ground (arith);
    self_vote = λ s c. ground (arith, s);
    leads = λ l. ground (arith);
  }

  start-Tame : (c : Option C) (rf : Raft C) → Tame Won rf (start gob c rf).0
  unfolding start persist
  start-Tame c rf = record {
    same_me = ground (arith);
    same_peers = ground (arith);
    self_vote = λ s c. ground (arith, s);
    leads = λ l. ground (arith);
  }

  pub request_vote-Tame :
      (args : RequestVoteArgs) (rf : Raft C) {rf' : Raft C} {reply : RequestVoteReply}
      → request_vote gob args rf ≡ some (rf', reply)
      → Tame Won rf rf'
  unfolding request_vote
  request_vote-Tame args rf h = record {
    same_me = ground arith;
    same_peers = ground arith;
    self_vote = λ s c. ground (arith, s);
    leads = λ l. ground arith;
  }

  append_entries-Tame :
      (args : AppendEntriesArgs C) (rf : Raft C) {rf' : Raft C} {reply : AppendEntriesReply}
      → append_entries gob args rf ≡ some (rf', reply)
      → Tame Won rf rf'
  append_entries-Tame args rf {rf'} {reply} h = elim (append_entries_lem gob args rf) [
    | inl (m, e) ↦
        let same : rf' ≡ persist gob (accepted args (heard args rf)) = cc in
        rw same (
          Tame-trans Won (heard-Tame Won args rf) (
            Tame-trans Won (accepted-Tame Won args (heard args rf))
              (persist-Tame (accepted args (heard args rf)))))
    | inr (_, e) ↦ let same : rf' ≡ heard args rf = cc in rw same (heard-Tame Won args rf)
  ]

  pub Step-Tame : {rf rf' : Raft C} (step : Step gob rf rf') → Apart step → Tame Won rf rf'
  Step-Tame (vote args h) a = absurd a
  Step-Tame {rf} (append args h) a = append_entries-Tame args rf h
  Step-Tame {rf} (snapshot args) a = install_snapshot-Tame Won args rf
  Step-Tame {rf} (command c) a = start-Tame c rf
  Step-Tame {rf} (awake w) a = wake-Tame Won w rf
  Step-Tame (counted arg reply count h) a = absurd a
  Step-Tame {rf} (replied id reply h) a = append_reply-Tame Won id reply rf h

-- The vote that a reply grants is in the voter's state.
pub request_vote-granted :
    {C : Type 0} (gob : Gob C) (args : RequestVoteArgs) (rf : Raft C) {rf' : Raft C}
    {reply : RequestVoteReply}
    → request_vote gob args rf ≡ some (rf', reply)
    → reply.vote_granted ≡ true
    → (rf'.current_term ≡ args.term) × (rf'.vote_for ≡ some args.candidate_id)
unfolding request_vote
request_vote-granted gob args rf h g = ground (arith, h, g)

-- What the reply to a candidate does to `count`, and when it makes the candidate the leader.
pub record Heard {C : Type 0} (arg : RequestVoteArgs) (reply : RequestVoteReply) (count : ℕ)
    (rf rf' : Raft C) (count' : ℕ) : Type 0 where
  pub counts : (count' ≡ count) ⊎ ((count' ≡ count + 1) × (reply.vote_granted ≡ true))
  pub tame :
      Tame
        (λ t.
          (rf.state ≡ candidate)
          × (rf.current_term ≡ arg.term)
          × (t ≡ arg.term)
          × (rf.peers / 2 < count'))
        rf
        rf'

pub vote_reply-Heard :
    {C : Type 0} (arg : RequestVoteArgs) (reply : RequestVoteReply) (count : ℕ) (rf : Raft C)
    {rf' : Raft C} {count' : ℕ}
    → vote_reply arg reply count rf ≡ some (rf', count')
    → Heard arg reply count rf rf' count'
unfolding vote_reply
vote_reply-Heard arg reply count rf h = record {
  counts = ground arith;
  tame = record {
    same_me = ground arith;
    same_peers = ground arith;
    self_vote = λ s c. ground (arith, s);
    leads = λ l. ground arith;
  };
}
