-- ===== src/Raft/Steps.antt =====
-- One peer among others (src/raft/raft.go): every section of code that runs under the peer's mutex
-- is a step, and the network and the clock choose which comes next and with what arguments. A step
-- that the runtime would stop is none.
use mit6824_distribute_syste.Prelude.{ℕ, ◌≡◌, Option, none, some}
use mit6824_distribute_syste.Raft.Peer.{
  Raft, RequestVoteArgs, RequestVoteReply, AppendEntriesArgs, AppendEntriesReply,
  InstallSnapshotArgs, Gob,
}
use mit6824_distribute_syste.Raft.Roles.{be_candidate}
use mit6824_distribute_syste.Raft.Vote.{request_vote, vote_reply}
use mit6824_distribute_syste.Raft.Append.{append_entries, install_snapshot, start}
use mit6824_distribute_syste.Raft.Leader.{append_reply, Round}

-- The three ways in which the `select` of the main loop wakes up. After `time.After` the loop makes
-- the peer a candidate, whatever its role has become since the loop read it.
pub data Wake : Type 0 where
  voted appended timed_out : Wake

module _ {C : Type 0} where
  unfoldable pub wake : Wake → Raft C → Raft C
  unfolding be_candidate
  wake voted rf = record rf { vote_ch = none }
  wake appended rf = record rf { append_log_ch = none }
  wake timed_out rf = be_candidate rf

pub data Step {C : Type 0} (gob : Gob C) (rf : Raft C) : Raft C → Type 0 where
  vote :
      (args : RequestVoteArgs) {rf' : Raft C} {reply : RequestVoteReply}
      → request_vote gob args rf ≡ some (rf', reply)
      → Step gob rf rf'
  append :
      (args : AppendEntriesArgs C) {rf' : Raft C} {reply : AppendEntriesReply}
      → append_entries gob args rf ≡ some (rf', reply)
      → Step gob rf rf'
  snapshot : (args : InstallSnapshotArgs) → Step gob rf (install_snapshot args rf).0
  command : (c : Option C) → Step gob rf (start gob c rf).0
  awake : (w : Wake) → Step gob rf (wake w rf)
  counted :
      (arg : RequestVoteArgs) (reply : RequestVoteReply) (count : ℕ) {rf' : Raft C} {count' : ℕ}
      → vote_reply arg reply count rf ≡ some (rf', count')
      → Step gob rf rf'
  replied :
      (id : ℕ) (reply : Option AppendEntriesReply) {rf' : Raft C} {round : Round}
      → append_reply id reply rf ≡ some (rf', round)
      → Step gob rf rf'

-- A life of the peer, without a crash.
pub data Run {C : Type 0} (gob : Gob C) (rf : Raft C) : Raft C → Type 0 where
  here : Run gob rf rf
  next : {rf' rf'' : Raft C} → Run gob rf rf' → Step gob rf' rf'' → Run gob rf rf''
