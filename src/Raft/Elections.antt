-- ===== src/Raft/Elections.antt =====
-- src/raft/raft.go: the elections of a cluster without crashes.
use mathlib.Core.Path.{subst}
use mit6824_distribute_syste.Prelude.{
  ℕ, ◌<◌, ◌≡◌, refl, sym, inl, inr, true, none, some, ◌==◌, arith, Bool-cases, ==_iff,
}
use mit6824_distribute_syste.Prelude.Families.{update, tally-meet}
use mit6824_distribute_syste.Raft.Peer.{Raft, leader, Gob, IsCodec}
use mit6824_distribute_syste.Raft.Persister.{make_persister}
use mit6824_distribute_syste.Raft.Roles.{make}
use mit6824_distribute_syste.Raft.Steps.{vote, counted}
use mit6824_distribute_syste.Raft.Terms.{Keeps, Step-Keeps}
use mit6824_distribute_syste.Raft.Tame.{
  Tame, Step-Tame, request_vote-Tame, request_vote-granted, vote_reply-Heard,
}
use mit6824_distribute_syste.Raft.Cluster.{
  answered, over, Election, Cluster, to, Move, local, elect, ask, hear, Moves, here, and_then, boot,
}
use mit6824_distribute_syste.Raft.Ballots.{
  Votes, noted, Quorum, PeerOk, ElectionOk, Grows, Quorum-Grows, ElectionOk-Grows, noted-Grows,
  moved-PeerOk, other-PeerOk, start-ElectionOk, ask-ElectionOk, hear-ElectionOk, won-Quorum,
  Tame-map,
}

-- What holds of the peers and of the elections that were started.
pub record ClusterOk {C : Type 0} (n : ℕ) (votes : Votes) (s : Cluster C) : Type 0 where
  pub peer : (p : ℕ) → p < n → PeerOk n votes p (s.peers p)
  pub election : (e : ℕ) → e < s.started → ElectionOk n votes (s.elections e)

module _ {C : Type 0} (n : ℕ) (votes : Votes) (s : Cluster C) (ok : ClusterOk n votes s) (p : ℕ)
    (lt : p < n) where
  -- All peers, when one takes a step.
  peers-PeerOk :
      {rf' : Raft C}
      → Keeps (s.peers p) rf'
      → Tame (λ t. Quorum n (noted votes p rf') p t) (s.peers p) rf'
      → (q : ℕ) → q < n
      → PeerOk n (noted votes p rf') q (update s.peers p rf' q)
  peers-PeerOk {rf'} k t q q_lt = elim (Bool-cases (p == q)) [
    | inl same ↦
        let e : p ≡ q = ground arith in
        subst (λ r. PeerOk n (noted votes p rf') r (update s.peers p rf' r)) e
          (rw ((==_iff p p).1 refl) (moved-PeerOk n votes p lt (ok.peer p lt) k t))
    | inr other ↦
        rw other
          (other-PeerOk n votes p q (s.peers q) (ground arith) (ok.peer p lt) k (ok.peer q q_lt))
  ]

  elections-ElectionOk :
      {rf' : Raft C}
      → Keeps (s.peers p) rf'
      → (e : ℕ) → e < s.started
      → ElectionOk n (noted votes p rf') (s.elections e)
  elections-ElectionOk k e e_lt =
      ElectionOk-Grows (s.elections e) (noted-Grows n votes p (ok.peer p lt) k) (ok.election e e_lt)

at-ElectionOk :
    {n : ℕ} {votes : Votes} (elections : ℕ → Election) (started e : ℕ) (e' : Election)
    → ((i : ℕ) → i < started → ElectionOk n votes (elections i))
    → ElectionOk n votes e'
    → (i : ℕ) → i < started
    → ElectionOk n votes (update elections e e' i)
at-ElectionOk elections started e e' all new i lt = elim (Bool-cases (e == i)) [
  | inl same ↦ rw same new
  | inr other ↦ rw other (all i lt)
]

module _ {C : Type 0} (gob : Gob C) (n : ℕ) where
  Move-ClusterOk :
      (votes : Votes) {s s' : Cluster C}
      → Move gob n s s'
      → ClusterOk n votes s
      → (votes' : Votes) × Grows n votes votes' × ClusterOk n votes' s'
  Move-ClusterOk votes {s} (local p {rf'} step lt apart) ok =
      let k = Step-Keeps gob step in
      (
        noted votes p rf',
        noted-Grows n votes p (ok.peer p lt) k,
        record {
          peer = peers-PeerOk n votes s ok p lt k (Step-Tame gob _ step apart);
          election = elections-ElectionOk n votes s ok p lt k;
        },
      )
  Move-ClusterOk votes {s} (elect p {arg} lt e) ok = (
    votes,
    (λ v t c v_lt h. h),
    record {
      peer = ok.peer;
      election = λ i i_lt. elim (Bool-cases (s.started == i)) [
        | inl same ↦ rw same (start-ElectionOk p (s.peers p) arg lt (ok.peer p lt) e)
        | inr other ↦ rw other (ok.election i (ground arith))
      ];
    },
  )
  Move-ClusterOk votes {s} (ask e v {rf'} {reply} e_lt lt waits ne h) ok =
      let el = s.elections e in
      let k = Step-Keeps gob (vote el.arg h) in
      let votes' = noted votes v rf' in
      let all = elections-ElectionOk n votes s ok v lt k in
      let granted : reply.vote_granted ≡ true → votes' v el.arg.term ≡ some el.cand = λ g.
        let (now, cast) = request_vote-granted gob el.arg (s.peers v) h g in
        ground (arith, now, cast, (ok.election e e_lt).named) in
      (
        votes',
        noted-Grows n votes v (ok.peer v lt) k,
        record {
          peer = peers-PeerOk n votes s ok v lt k (request_vote-Tame gob _ el.arg (s.peers v) h);
          election =
              at-ElectionOk s.elections s.started e (to el v (answered reply)) all
                (ask-ElectionOk el v reply (all e e_lt) waits granted);
        },
      )
  Move-ClusterOk votes {s} (hear e v {rf'} {reply} {count'} e_lt lt there ne h) ok =
      let el = s.elections e in
      let el' = record (to el v over) { count = count' } in
      let c_lt = (ok.election e e_lt).cand_lt in
      let rf = s.peers el.cand in
      let k = Step-Keeps gob (counted el.arg reply el.count h) in
      let votes' = noted votes el.cand rf' in
      let grows = noted-Grows n votes el.cand (ok.peer el.cand c_lt) k in
      let result = vote_reply-Heard el.arg reply el.count rf h in
      let now = hear-ElectionOk el v reply count' lt (ok.election e e_lt) there ne result.counts in
      (
        votes',
        grows,
        record {
          peer = peers-PeerOk n votes s ok el.cand c_lt k (
              Tame-map
                (λ t (runs, same, at, many).
                  subst (λ u. Quorum n votes' el.cand u) (sym at)
                    (Quorum-Grows el.cand el.arg.term grows
                      (won-Quorum el' rf now (ok.peer el.cand c_lt) runs same many)))
                result.tame);
          election =
              at-ElectionOk s.elections s.started e el'
                (elections-ElectionOk n votes s ok el.cand c_lt k) (ElectionOk-Grows el' grows now);
        },
      )

  pub Moves-ClusterOk :
      (votes : Votes) {s s' : Cluster C}
      → ClusterOk n votes s
      → Moves gob n s s'
      → (votes' : Votes) × Grows n votes votes' × ClusterOk n votes' s'
  Moves-ClusterOk votes ok here = (votes, (λ v t c lt h. h), ok)
  Moves-ClusterOk votes ok (and_then ms m) =
      let (votes1, grows1, ok1) = Moves-ClusterOk votes ok ms in
      let (votes2, grows2, ok2) = Move-ClusterOk votes1 m ok1 in
      (votes2, (λ v t c lt h. grows2 v t c lt (grows1 v t c lt h)), ok2)

  pub boot-ClusterOk : IsCodec gob → (e : Election) → ClusterOk n (λ v t. none) (boot gob n e)
  unfolding boot make make_persister
  boot-ClusterOk codec e = record {
    peer = λ p lt. record {
      is_me = ground (arith, codec.decode-nil);
      are_peers = ground (arith, codec.decode-nil);
      now = ground (arith, codec.decode-nil);
      later = λ t h. refl;
      self = λ c. ground (arith, codec.decode-nil);
      elected = λ l. absurd (ground (arith, codec.decode-nil));
    };
    election = λ i lt. absurd (omega arith);
  }

-- In a cluster of peers that have come up for the first time and do not crash, a peer that leads in some
-- term, and a peer that leads in the same term then or later, are the same peer, whatever timeouts
-- there are, whatever entries are sent, and whichever requests and replies of elections are late, lost
-- or overtaken by others.
pub one_leader_per_term :
    {C : Type 0} {gob : Gob C} (codec : IsCodec gob) (n : ℕ) (e : Election) {s s' : Cluster C}
    (p q : ℕ)
    → Moves gob n (boot gob n e) s
    → Moves gob n s s'
    → p < n
    → q < n
    → (s.peers p).state ≡ leader
    → (s'.peers q).state ≡ leader
    → (s.peers p).current_term ≡ (s'.peers q).current_term
    → p ≡ q
one_leader_per_term {gob = gob} codec n e {s} {s'} p q moves more p_lt q_lt p_leads q_leads same =
    let (votes, _, ok) = Moves-ClusterOk gob n _ (boot-ClusterOk gob n codec e) moves in
    let (votes', grows, ok') = Moves-ClusterOk gob n votes ok more in
    let t = (s.peers p).current_term in
    let first = Quorum-Grows p t grows ((ok.peer p p_lt).elected p_leads) in
    let second = (ok'.peer q q_lt).elected q_leads in
    let (v, lt, a, b) =
      tally-meet n first.voters second.voters (omega (arith, first.many, second.many)) in
    ground (arith, first.voted v lt a, second.voted v lt b, same)
