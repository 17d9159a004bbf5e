-- ===== src/Raft/Cluster.antt =====
-- A cluster of peers that hold elections (src/raft/raft.go, `startElection` and `RequestVote` at both
-- ends). The goroutines of an election and the peers interleave; requests and replies may be late or
-- lost, and no peer crashes.
use mit6824_distribute_syste.Prelude.{ℕ, suc, ◌<◌, ◌≡◌, ◌≢◌, some}
use mit6824_distribute_syste.Prelude.Families.{update}
use mit6824_distribute_syste.Raft.Persister.{make_persister}
use mit6824_distribute_syste.Raft.Peer.{Raft, RequestVoteArgs, RequestVoteReply, Gob}
use mit6824_distribute_syste.Raft.Roles.{make}
use mit6824_distribute_syste.Raft.Vote.{election_args, request_vote, vote_reply}
use mit6824_distribute_syste.Raft.Steps.{
  Step, vote, append, snapshot, command, awake, counted, replied,
}

-- Where a goroutine of `startElection` stands: its request is on its way, the voter has answered, and
-- the reply has been handled.
pub data Call : Type 0 where
  asking : Call
  answered : RequestVoteReply → Call
  over : Call

-- A call of `startElection`: its candidate, `arg`, `count`, and its goroutines by the peer they ask.
pub record Election : Type 0 where
  pub cand : ℕ
  pub arg : RequestVoteArgs
  pub count : ℕ
  pub calls : ℕ → Call

-- The peers, and the elections that were started, by their order.
pub record Cluster (C : Type 0) : Type 0 where
  pub peers : ℕ → Raft C
  pub elections : ℕ → Election
  pub started : ℕ

-- The steps of a peer that are no part of an election; their messages may be any.
abbrev pub Apart : {C : Type 0} {gob : Gob C} {rf rf' : Raft C} → Step gob rf rf' → Type 0
Apart (vote args h) = ⊥
Apart (append args h) = Unit
Apart (snapshot args) = Unit
Apart (command c) = Unit
Apart (awake w) = Unit
Apart (counted arg reply count h) = ⊥
Apart (replied id reply h) = Unit

-- The first lines of `startElection`; `count` starts with the candidate's own vote.
unfoldable pub start_election : ℕ → RequestVoteArgs → Election
start_election cand arg = record { cand = cand; arg = arg; count = 1; calls = λ v. asking }

-- A call that moves on.
abbrev pub to : Election → ℕ → Call → Election
to e v c = record e { calls = update e.calls v c }

module _ {C : Type 0} (gob : Gob C) (n : ℕ) where
  pub data Move (s : Cluster C) : Cluster C → Type 0 where
    -- A peer does something else. A timeout makes it a candidate, which starts the goroutine below.
    local :
        (p : ℕ) {rf' : Raft C} (step : Step gob (s.peers p) rf')
        → p < n
        → Apart step
        → Move s (record s { peers = update s.peers p rf' })
    -- The goroutine of `BeCandidate` runs, at once or late: it reads what the peer's state is by then.
    elect :
        (p : ℕ) {arg : RequestVoteArgs}
        → p < n
        → election_args (s.peers p) ≡ some arg
        → Move s (record s {
          elections = update s.elections s.started (start_election p arg);
          started = suc s.started;
        })
    -- The request reaches another peer, which handles it.
    ask :
        (e v : ℕ) {rf' : Raft C} {reply : RequestVoteReply}
        → e < s.started
        → v < n
        → (s.elections e).calls v ≡ asking
        → v ≢ (s.elections e).cand
        → request_vote gob (s.elections e).arg (s.peers v) ≡ some (rf', reply)
        → Move s (record s {
          peers = update s.peers v rf';
          elections = update s.elections e (to (s.elections e) v (answered reply));
        })
    -- The reply reaches the candidate, which counts.
    hear :
        (e v : ℕ) {rf' : Raft C} {reply : RequestVoteReply} {count' : ℕ}
        → e < s.started
        → v < n
        → (s.elections e).calls v ≡ answered reply
        → v ≢ (s.elections e).cand
        → vote_reply (s.elections e).arg reply (s.elections e).count (s.peers (s.elections e).cand)
          ≡ some (rf', count')
        → Move s (record s {
          peers = update s.peers (s.elections e).cand rf';
          elections = update s.elections e (record (to (s.elections e) v over) { count = count' });
        })

  pub data Moves (s : Cluster C) : Cluster C → Type 0 where
    here : Moves s s
    and_then : {t u : Cluster C} → Moves s t → Move t u → Moves s u

  -- Every peer has come up for the first time, and no election has been held. The value of a family
  -- beyond its members is never read.
  unfoldable pub boot : Election → Cluster C
  boot e = record { peers = λ p. make gob n p make_persister; elections = λ _. e; started = 0 }
