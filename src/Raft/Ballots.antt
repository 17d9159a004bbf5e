-- ===== src/Raft/Ballots.antt =====
-- src/raft/raft.go: the votes of a cluster without crashes, and what a peer and an election know of
-- them.
use mathlib.Core.Path.{subst}
use mit6824_distribute_syste.Prelude.{
  ℕ, suc, ◌+◌, ◌/◌, ◌<◌, ◌≡◌, ◌≢◌, refl, sym, ◌∙◌, ◌⊎◌, inl, inr, Bool, true, false, Option, none,
  some, ◌==◌, if◌then◌else◌, arith, Bool-cases,
}
use mit6824_distribute_syste.Prelude.Families.{update, tally, tally-update, tally-none}
use mit6824_distribute_syste.Raft.Peer.{Raft, candidate, leader, RequestVoteArgs, RequestVoteReply}
use mit6824_distribute_syste.Raft.Terms.{Keeps}
use mit6824_distribute_syste.Raft.Vote.{election_args}
use mit6824_distribute_syste.Raft.Tame.{SelfVote, Tame}
use mit6824_distribute_syste.Raft.Cluster.{asking, answered, over, Election, start_election, to}

-- Whom each peer has voted for in each term.
abbrev pub Votes : Type 0
Votes = ℕ → ℕ → Option ℕ

-- The votes with those of a peer's present state.
abbrev pub noted : {C : Type 0} → Votes → ℕ → Raft C → Votes
noted votes p rf v t =
    if v == p then (if t == rf.current_term then rf.vote_for else votes v t) else votes v t

-- More than half of the peers have voted for `p` in the term.
pub record Quorum (n : ℕ) (votes : Votes) (p t : ℕ) : Type 0 where
  pub voters : ℕ → Bool
  pub many : n / 2 < tally n voters
  pub voted : (v : ℕ) → v < n → voters v ≡ true → votes v t ≡ some p

-- A peer's state and its votes so far.
pub record PeerOk {C : Type 0} (n : ℕ) (votes : Votes) (p : ℕ) (rf : Raft C) : Type 0 where
  pub is_me : rf.me ≡ p
  pub are_peers : rf.peers ≡ n
  pub now : votes p rf.current_term ≡ rf.vote_for
  pub later : (t : ℕ) → rf.current_term < t → votes p t ≡ none
  pub self : SelfVote rf
  pub elected : rf.state ≡ leader → Quorum n votes p rf.current_term

-- An election and the votes that it has: what it has counted, and what is on its way.
pub record ElectionOk (n : ℕ) (votes : Votes) (e : Election) : Type 0 where
  pub cand_lt : e.cand < n
  pub named : e.arg.candidate_id ≡ e.cand
  pub voters : ℕ → Bool
  pub counted_ : e.count ≡ suc (tally n voters)
  pub not_self : voters e.cand ≡ false
  pub heard :
      (v : ℕ) → v < n → voters v ≡ true → (e.calls v ≡ over) × (votes v e.arg.term ≡ some e.cand)
  pub coming :
      (v : ℕ) (r : RequestVoteReply)
      → v < n
      → e.calls v ≡ answered r
      → r.vote_granted ≡ true
      → votes v e.arg.term ≡ some e.cand

-- Votes are only added.
abbrev pub Grows : ℕ → Votes → Votes → Type 0
Grows n votes votes' = (v t c : ℕ) → v < n → votes v t ≡ some c → votes' v t ≡ some c

pub Quorum-Grows :
    {n : ℕ} {votes votes' : Votes} (p t : ℕ)
    → Grows n votes votes'
    → Quorum n votes p t
    → Quorum n votes' p t
Quorum-Grows p t g q = record {
  voters = q.voters;
  many = q.many;
  voted = λ v lt h. g v t p lt (q.voted v lt h);
}

pub ElectionOk-Grows :
    {n : ℕ} {votes votes' : Votes} (e : Election)
    → Grows n votes votes'
    → ElectionOk n votes e
    → ElectionOk n votes' e
ElectionOk-Grows e g ok = record {
  cand_lt = ok.cand_lt;
  named = ok.named;
  voters = ok.voters;
  counted_ = ok.counted_;
  not_self = ok.not_self;
  heard = λ v lt h. ((ok.heard v lt h).0, g v e.arg.term e.cand lt (ok.heard v lt h).1);
  coming = λ v r lt c h. g v e.arg.term e.cand lt (ok.coming v r lt c h);
}

module _ {C : Type 0} (n : ℕ) (votes : Votes) where
  pub noted-Grows :
      (p : ℕ) {rf rf' : Raft C}
      → PeerOk n votes p rf
      → Keeps rf rf'
      → Grows n votes (noted votes p rf')
  noted-Grows p {rf} {rf'} ok k v t c lt h = elim (Bool-cases (v == p)) [
    | inr other ↦ rw other h
    | inl same ↦ elim (Bool-cases (t == rf'.current_term)) [
      | inr past ↦ ground (arith, h)
      | inl present ↦ ground (arith, h, k.term_le, k.vote_stays c, ok.now, ok.later t)
    ]
  ]

  -- The peer that takes a step.
  pub moved-PeerOk :
      (p : ℕ) {rf rf' : Raft C}
      → p < n
      → PeerOk n votes p rf
      → Keeps rf rf'
      → Tame (λ t. Quorum n (noted votes p rf') p t) rf rf'
      → PeerOk n (noted votes p rf') p rf'
  moved-PeerOk p {rf} {rf'} lt ok k t = record {
    is_me = t.same_me ∙ ok.is_me;
    are_peers = t.same_peers ∙ ok.are_peers;
    now = ground arith;
    later = λ u h. ground (arith, ok.later u, k.term_le);
    self = t.self_vote ok.self;
    elected = λ l. elim (t.leads l) [
      | inr won ↦ won
      | inl (led, e) ↦
          Quorum-Grows p rf'.current_term (noted-Grows p ok k)
            (subst (λ u. Quorum n votes p u) (sym e) (ok.elected led))
    ];
  }

  -- Another peer.
  pub other-PeerOk :
      (p q : ℕ) {rf rf' : Raft C} (rq : Raft C)
      → q ≢ p
      → PeerOk n votes p rf
      → Keeps rf rf'
      → PeerOk n votes q rq
      → PeerOk n (noted votes p rf') q rq
  other-PeerOk p q {rf} {rf'} rq ne ok k okq = record {
    is_me = okq.is_me;
    are_peers = okq.are_peers;
    now = ground (arith, okq.now);
    later = λ u h. ground (arith, okq.later u);
    self = okq.self;
    elected = λ l. Quorum-Grows q rq.current_term (noted-Grows p ok k) (okq.elected l);
  }

-- An election that begins.
pub start-ElectionOk :
    {C : Type 0} {n : ℕ} {votes : Votes} (p : ℕ) (rf : Raft C) (arg : RequestVoteArgs)
    → p < n
    → PeerOk n votes p rf
    → election_args rf ≡ some arg
    → ElectionOk n votes (start_election p arg)
unfolding start_election election_args
start-ElectionOk {n = n} p rf arg lt ok e = record {
  cand_lt = lt;
  named = ground (arith, ok.is_me);
  voters = λ v. false;
  counted_ = ground (arith, tally-none n);
  not_self = refl;
  heard = λ v v_lt h. absurd (cc);
  coming = λ v r v_lt c h. absurd (cc);
}

-- A voter has answered.
pub ask-ElectionOk :
    {n : ℕ} {votes : Votes} (e : Election) (v : ℕ) (reply : RequestVoteReply)
    → ElectionOk n votes e
    → e.calls v ≡ asking
    → (reply.vote_granted ≡ true → votes v e.arg.term ≡ some e.cand)
    → ElectionOk n votes (to e v (answered reply))
ask-ElectionOk e v reply ok waits granted = record {
  cand_lt = ok.cand_lt;
  named = ok.named;
  voters = ok.voters;
  counted_ = ok.counted_;
  not_self = ok.not_self;
  heard = λ u u_lt h. ground (arith, ok.heard u u_lt h, waits);
  coming = λ u r u_lt c h. ground (arith, ok.coming u r u_lt, granted, c, h);
}

-- A reply has been handled.
pub hear-ElectionOk :
    {n : ℕ} {votes : Votes} (e : Election) (v : ℕ) (reply : RequestVoteReply) (count' : ℕ)
    → v < n
    → ElectionOk n votes e
    → e.calls v ≡ answered reply
    → v ≢ e.cand
    → (count' ≡ e.count) ⊎ ((count' ≡ e.count + 1) × (reply.vote_granted ≡ true))
    → ElectionOk n votes (record (to e v over) { count = count' })
hear-ElectionOk e v reply count' lt ok there ne (inl same) = record {
  cand_lt = ok.cand_lt;
  named = ok.named;
  voters = ok.voters;
  counted_ = same ∙ ok.counted_;
  not_self = ok.not_self;
  heard = λ u u_lt h. ground (arith, ok.heard u u_lt h);
  coming = λ u r u_lt c h. ground (arith, ok.coming u r u_lt, c, h);
}
hear-ElectionOk {n} e v reply count' lt ok there ne (inr (more, granted)) =
    let fresh : ok.voters v ≡ false = ground (arith, ok.heard v lt, there) in
    record {
      cand_lt = ok.cand_lt;
      named = ok.named;
      voters = update ok.voters v true;
      counted_ = ground (arith, more, ok.counted_, tally-update n ok.voters v lt fresh);
      not_self = ground (arith, ok.not_self, ne);
      heard = λ u u_lt h. ground (arith, ok.heard u u_lt, ok.coming v reply lt there granted, h);
      coming = λ u r u_lt c h. ground (arith, ok.coming u r u_lt, c, h);
    }

-- A candidate with a majority of the votes of its term.
pub won-Quorum :
    {C : Type 0} {n : ℕ} {votes : Votes} (e : Election) (rf : Raft C)
    → ElectionOk n votes e
    → PeerOk n votes e.cand rf
    → rf.state ≡ candidate
    → rf.current_term ≡ e.arg.term
    → rf.peers / 2 < e.count
    → Quorum n votes e.cand e.arg.term
won-Quorum {n = n} {votes = votes} e rf ok peer runs same many = record {
  voters = update ok.voters e.cand true;
  many =
      let size : n / 2 < e.count = subst (λ m. m / 2 < e.count) peer.are_peers many in
      omega (arith, size, ok.counted_, tally-update n ok.voters e.cand ok.cand_lt ok.not_self);
  voted = λ v lt h.
      let mine : votes e.cand e.arg.term ≡ some e.cand =
        ground (arith, peer.now, peer.self runs, peer.is_me, same) in
      ground (arith, mine, ok.heard v lt, h);
}

pub Tame-map :
    {C : Type 0} {W W' : ℕ → Type 0} {rf rf' : Raft C}
    → ((t : ℕ) → W t → W' t)
    → Tame W rf rf'
    → Tame W' rf rf'
Tame-map f t = record {
  same_me = t.same_me;
  same_peers = t.same_peers;
  self_vote = t.self_vote;
  leads = λ l. elim (t.leads l) [ inl same ↦ inl same | inr won ↦ inr (f _ won) ];
}
