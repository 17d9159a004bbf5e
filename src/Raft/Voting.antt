-- ===== src/Raft/Voting.antt =====
-- src/raft/raft.go, `RequestVote`: when a vote is granted, and what is stored.
use mit6824_distribute_syste.Prelude.{
  ℕ, ◌-◌, ◌≤◌, ◌<◌, ◌≡◌, ◌⊎◌, inl, inr, Bool-cases, true, false, Option-cases, none, some, length,
  get_last?, ltb, if◌then◌else◌, arith, ℕ_discrete,
}
use native.Mathlib.Decide.{dec_lt}
use mit6824_distribute_syste.Prelude.Int.{ℤ, ◌<ℤ◌, ltb_ℤ, eqb_ℤ, ltb_ℤ_iff, eqb_ℤ_iff}
use mit6824_distribute_syste.Raft.Peer.{Log, Raft, RequestVoteArgs, Gob}
use mit6824_distribute_syste.Raft.Roles.{persist, be_follower}
use mit6824_distribute_syste.Raft.Vote.{is_behind, request_vote}

-- A log that ends at index `i` in an entry of term `t` is at least as up to date as one that ends at
-- `i'` and `t'`: it has the later last term, or the same one and is not shorter.
abbrev pub UpToDate : ℤ → ℕ → ℤ → ℕ → Type 0
UpToDate t i t' i' = (t' <ℤ t) ⊎ ((t ≡ t') × (i' ≤ i))

module _ {C : Type 0} where
  -- The peer has no vote in the term of the request that goes to another candidate.
  abbrev pub IsFree : RequestVoteArgs → Raft C → Type 0
  IsFree args rf =
      (rf.current_term < args.term)
      ⊎ ((rf.vote_for ≡ none) ⊎ (rf.vote_for ≡ some args.candidate_id))

  -- The request is not stale, the peer is free to vote, and the candidate's log is up to date.
  pub record MayVote (args : RequestVoteArgs) (last : Log C) (rf : Raft C) : Type 0 where
    pub fresh : rf.current_term ≤ args.term
    pub free : IsFree args rf
    pub up_to_date : UpToDate args.last_log_term args.last_log_index last.term (length rf.log - 1)

  -- The peer after the first test: a larger term is taken over, without a vote.
  abbrev pub asked : RequestVoteArgs → Raft C → Raft C
  asked args rf = if ltb rf.current_term args.term then be_follower args.term rf else rf

IsFree-or_not :
    {C : Type 0} (args : RequestVoteArgs) (rf : Raft C) → IsFree args rf ⊎ (¬ IsFree args rf)
IsFree-or_not args rf = elim (dec_lt rf.current_term args.term) [
  | yes newer ↦ inl (inl newer)
  | no old ↦ elim (Option-cases rf.vote_for) [
    | inl unvoted ↦ inl (inr (inl unvoted))
    | inr (v, voted) ↦ elim (ℕ_discrete v args.candidate_id) [
      | yes same ↦ inl (inr (inr (ground arith)))
      | no other ↦ inr (λ f. ground arith)
    ]
  ]
]

is_behind_iff :
    {C : Type 0} (args : RequestVoteArgs) (n : ℕ) (last : Log C)
    → ((is_behind args n last ≡ false)
        × UpToDate args.last_log_term args.last_log_index last.term (n - 1))
      ⊎ ((is_behind args n last ≡ true)
          × (¬ UpToDate args.last_log_term args.last_log_index last.term (n - 1)))
unfolding is_behind
is_behind_iff args n last =
    let same = eqb_ℤ_iff args.last_log_term last.term in
    let older = ltb_ℤ_iff args.last_log_term last.term in
    let newer = ltb_ℤ_iff last.term args.last_log_term in
    elim (Bool-cases (ltb_ℤ args.last_log_term last.term)) [
      | inl lt ↦ inr (ground arith, (λ u. ground (arith, older, newer, same)))
      | inr ge ↦ elim (Bool-cases (eqb_ℤ args.last_log_term last.term)) [
        | inr ne ↦ inl (ground arith, inl (ground arith))
        | inl eq ↦ elim (dec_lt args.last_log_index (n - 1)) [
          | yes short ↦ inr (ground arith, (λ u. ground (arith, older, newer, same)))
          | no long ↦ inl (ground arith, inr (same.0 eq, omega arith))
        ]
      ]
    ]

module _ {C : Type 0} (gob : Gob C) where
  -- The two ends of the handler: the vote is granted and stored; or it is not, and at most the term
  -- changes, which clears the vote.
  abbrev pub VoteOutcome : RequestVoteArgs → Log C → Raft C → Type 0
  VoteOutcome args last rf =
      (MayVote args last rf
        × (request_vote gob args rf
            ≡ some (
              persist gob (record (asked args rf) {
                vote_for = some args.candidate_id;
                vote_ch = some true;
              }),
              record { term = args.term; vote_granted = true },
            )))
      ⊎ ((¬ MayVote args last rf)
          × (request_vote gob args rf
              ≡ some (
                asked args rf,
                record { term = (asked args rf).current_term; vote_granted = false },
              )))

  -- The handler always returns; it grants the vote exactly where it may, and then has stored it.
  pub request_vote_lem :
      (args : RequestVoteArgs) (last : Log C) (rf : Raft C)
      → get_last? rf.log ≡ some last
      → VoteOutcome args last rf
  unfolding request_vote be_follower
  request_vote_lem args last rf h = elim (is_behind_iff args (length rf.log) last) [
    | inr (e, u) ↦ inr ((λ m. u m.up_to_date), ground arith)
    | inl (e, u) ↦ elim (dec_lt args.term rf.current_term) [
      | yes stale ↦ inr ((λ m. absurd (omega (arith, m.fresh))), ground arith)
      | no fresh ↦ elim (IsFree-or_not args rf) [
        | inl free ↦ inl (record { fresh = omega arith; free = free; up_to_date = u }, ground arith)
        | inr taken ↦ inr ((λ m. taken m.free), ground arith)
      ]
    ]
  ]
