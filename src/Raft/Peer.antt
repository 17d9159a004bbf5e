-- ===== src/Raft/Peer.antt =====
-- The state of one Raft peer and its messages (src/raft/raft.go). `C` stands for the values of
-- `interface{}` that are commands; `none` is the nil command, and the null vote -1.
use mit6824_distribute_syste.Prelude.{ℕ, ◌≡◌, Bool, true, Option, none, some, List, [], length}
use mit6824_distribute_syste.Prelude.Int.{ℤ, sub_ℕ}
use mit6824_distribute_syste.Raft.Persister.{Bytes, Persister}

pub data Role : Type 0 where
  follower candidate leader : Role

-- `Log`: an entry; the sentinel at index 0 has term -1.
pub record Log (C : Type 0) : Type 0 where
  pub term : ℤ
  pub command : Option C

pub record ApplyMsg (C : Type 0) : Type 0 where
  pub index : ℕ
  pub command : Option C
  pub use_snapshot : Bool
  pub snapshot : Bytes

-- A channel of capacity 1: what it buffers.
abbrev pub Chan : Type 0
Chan = Option Bool

-- `Raft`. `peers` is the number of end points; `apply_ch` holds what was sent on the channel so far,
-- the oldest first.
pub record Raft (C : Type 0) : Type 0 where
  pub peers : ℕ
  pub persister : Persister
  pub me : ℕ
  pub state : Role
  pub current_term : ℕ
  pub vote_for : Option ℕ
  pub log : List (Log C)
  pub commit_index : ℕ
  pub last_applied : ℕ
  pub next_index : List ℤ
  pub match_index : List ℕ
  pub append_log_ch : Chan
  pub vote_ch : Chan
  pub apply_ch : List (ApplyMsg C)

pub record RequestVoteArgs : Type 0 where
  pub term : ℕ
  pub candidate_id : ℕ
  pub last_log_index : ℕ
  pub last_log_term : ℤ

pub record RequestVoteReply : Type 0 where
  pub term : ℕ
  pub vote_granted : Bool

pub record AppendEntriesArgs (C : Type 0) : Type 0 where
  pub term : ℕ
  pub leader_id : ℕ
  pub prev_log_index : ℕ
  pub prev_log_term : ℤ
  pub entries : List (Log C)
  pub leader_commit : ℕ

pub record AppendEntriesReply : Type 0 where
  pub term : ℕ
  pub success : Bool

pub record InstallSnapshotArgs : Type 0 where
  pub term : ℕ
  pub leader_id : ℕ
  pub last_included_index : ℕ
  pub last_included_term : ℕ
  pub offset : ℕ
  pub bytes : Bytes
  pub done : Bool

pub record InstallSnapshotReply : Type 0 where
  pub term : ℕ

-- `ch <- true` on a channel of capacity 1; `none` where it would block.
abbrev pub push : Bool → Chan → Option Chan
push b none = some (some b)
push b (some _) = none

-- The `select` with a default: a buffered value is consumed.
abbrev pub drain : Chan → Chan
drain none = none
drain (some _) = none

-- `send`; `none` where the peer would block for ever.
unfoldable pub send : Chan → Option Chan
send ch = push true (drain ch)

-- `encoding/gob`, which the peer calls to write and to read its state. `decode` gives what each of
-- the three `Decode` calls of `readPersist` finds; nothing, where it fails.
pub record Gob (C : Type 0) : Type 0 where
  pub encode : ℕ → Option ℕ → List (Log C) → Bytes
  pub decode : Bytes → Option ℕ × Option (Option ℕ) × Option (List (Log C))

-- What the documentation of `encoding/gob` promises: values are read back as they were written, and
-- there is nothing to read in an empty buffer.
pub record IsCodec {C : Type 0} (gob : Gob C) : Type 0 where
  pub decode-encode :
      (t : ℕ) (v : Option ℕ) (l : List (Log C))
      → gob.decode (gob.encode t v l) ≡ (some t, some v, some l)
  pub decode-nil : gob.decode [] ≡ (none, none, none)

-- `GetLastLogIndex`
unfoldable pub get_last_log_index : {C : Type 0} → Raft C → ℤ
get_last_log_index raft = sub_ℕ (length raft.log) 1
