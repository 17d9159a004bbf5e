-- ===== src/Raft/Roles.antt =====
-- src/raft/raft.go: the changes of role, stable storage, and the delivery of committed entries. A
-- method that the runtime would stop by an index out of range returns `none`.
use mit6824_distribute_syste.Prelude.{
  ℕ, zero, suc, ◌+◌, ◌-◌, Bool, true, false, Option, none, some, [], ◌∷◌, ◌++◌, length, replicate,
  get_elem?, ltb, if◌then◌else◌,
}
use mit6824_distribute_syste.Prelude.Int.{pos, negsuc}
use mit6824_distribute_syste.Raft.Persister.{Bytes, Persister, save_raft_state, read_raft_state}
use mit6824_distribute_syste.Raft.Peer.{Role, follower, candidate, leader, Log, Raft, Gob}

abbrev pub is_leader : Role → Bool
is_leader follower = false
is_leader candidate = false
is_leader leader = true

abbrev pub is_candidate : Role → Bool
is_candidate follower = false
is_candidate candidate = true
is_candidate leader = false

-- Each `Decode` that fails leaves its field as it is.
abbrev pub or_else {ℓ} : {A : Type ℓ} → Option A → A → A
or_else none old = old
or_else (some new) old = new

module _ {C : Type 0} where
  unfoldable pub get_state : Raft C → ℕ × Bool
  get_state raft = (raft.current_term, is_leader raft.state)

  unfoldable pub be_follower : ℕ → Raft C → Raft C
  be_follower term raft = record raft { current_term = term; state = follower; vote_for = none }

  -- The new goroutine is `start_election` of Raft/Vote.antt.
  unfoldable pub be_candidate : Raft C → Raft C
  be_candidate raft = record raft {
    current_term = raft.current_term + 1;
    state = candidate;
    vote_for = some raft.me;
  }

  unfoldable pub be_leader : Raft C → Raft C
  be_leader raft = record raft {
    state = leader;
    next_index = replicate raft.peers (pos (length raft.log));
    match_index = replicate raft.peers 0;
  }

  -- The loop of `updateLastApplied`, with the rounds that it makes.
  unfoldable pub apply_loop : ℕ → Raft C → Option (Raft C)
  apply_loop zero raft = some raft
  apply_loop (suc rounds) raft =
      let last_applied = raft.last_applied + 1 in
      let rest = λ (cur_log : Log C). apply_loop rounds (record raft {
        last_applied = last_applied;
        apply_ch =
            raft.apply_ch
            ++ record {
              index = last_applied;
              command = cur_log.command;
              use_snapshot = false;
              snapshot = [];
            }
              ∷ [];
      }) in
      if ltb raft.last_applied raft.commit_index
      then elim (get_elem? raft.log last_applied) [ none ↦ none | some cur_log ↦ rest cur_log ]
      else some raft

  unfoldable pub update_last_applied : Raft C → Option (Raft C)
  unfolding apply_loop
  update_last_applied raft = apply_loop (raft.commit_index - raft.last_applied) raft

module _ {C : Type 0} (gob : Gob C) where
  unfoldable pub persist : Raft C → Raft C
  unfolding save_raft_state
  persist rf = record rf {
    persister = save_raft_state (gob.encode rf.current_term rf.vote_for rf.log) rf.persister;
  }

  unfoldable pub read_persist : Bytes → Raft C → Raft C
  read_persist bytes rf =
      let (t, v, l) = gob.decode bytes in
      record rf {
        current_term = or_else t rf.current_term;
        vote_for = or_else v rf.vote_for;
        log = or_else l rf.log;
      }

  -- `&Raft{}` with its three arguments.
  unfoldable pub zero_raft : ℕ → ℕ → Persister → Raft C
  zero_raft peers me persister = record {
    peers = peers;
    persister = persister;
    me = me;
    state = follower;
    current_term = 0;
    vote_for = some 0;
    log = [];
    commit_index = 0;
    last_applied = 0;
    next_index = [];
    match_index = [];
    append_log_ch = none;
    vote_ch = none;
    apply_ch = [];
  }

  -- `Make`, up to its main loop. The zero value of the role, 0, is none of the three constants; it
  -- is overwritten before it is read.
  unfoldable pub make : ℕ → ℕ → Persister → Raft C
  unfolding zero_raft read_persist read_raft_state
  make peers me persister =
      let rf = read_persist (read_raft_state persister) (zero_raft peers me persister) in
      let rf1 = record rf {
        state = follower;
        current_term = 1;
        vote_for = none;
        append_log_ch = none;
        vote_ch = none;
        commit_index = 0;
        last_applied = 0;
        log = record { term = negsuc 0; command = none } ∷ [];
      } in
      read_persist (read_raft_state persister) rf1
