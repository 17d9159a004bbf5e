-- ===== src/Raft/Append.antt =====
-- src/raft/raft.go: what a peer does with entries. `AppendEntries` and `InstallSnapshot` at the
-- receiver, `Start` at the peer that a client asks.
use mit6824_distribute_syste.Prelude.{
  ℕ, ◌+◌, ◌-◌, Bool, true, false, not, Option, some, [], ◌∷◌, ◌++◌, length, take, get_elem?, ltb,
  leb, if◌then◌else◌, ◌>>=◌,
}
use mit6824_distribute_syste.Prelude.Int.{ℤ, pos, negsuc, pos_part, neg_part, sub_ℕ, eqb_ℤ}
use mit6824_distribute_syste.Raft.Peer.{
  Log, Raft, AppendEntriesArgs, AppendEntriesReply, InstallSnapshotArgs, InstallSnapshotReply, Gob,
  send, get_last_log_index,
}
use mit6824_distribute_syste.Raft.Roles.{be_follower, persist, update_last_applied, is_leader}

-- `min`
unfoldable pub min_int : ℕ → ℕ → ℕ
min_int x y = if ltb x y then x else y

module _ {C : Type 0} where
  unfoldable pub install_snapshot : InstallSnapshotArgs → Raft C → Raft C × InstallSnapshotReply
  unfolding be_follower
  install_snapshot args rf =
      let reply : InstallSnapshotReply = record { term = rf.current_term } in
      if ltb args.term rf.current_term
      then (rf, reply)
      else if ltb rf.current_term args.term
      then (be_follower args.term rf, reply)
      else (rf, reply)

module _ {C : Type 0} (gob : Gob C) where
  -- Steps 4 and 5 of `AppendEntries`, after its checks.
  unfoldable pub accept_entries : AppendEntriesArgs C → Raft C → Option (Raft C)
  unfolding min_int persist
  accept_entries args rf =
      let rf1 = record rf { log = take (args.prev_log_index + 1) rf.log ++ args.entries } in
      let rf2 = record rf1 { commit_index = min_int args.leader_commit (length rf1.log - 1) } in
      let committed =
        if ltb rf1.commit_index args.leader_commit then update_last_applied rf2 else some rf1 in
      (do rf3 ← committed; some (persist gob rf3))

  -- `AppendEntries`
  unfoldable pub append_entries :
      AppendEntriesArgs C → Raft C → Option (Raft C × AppendEntriesReply)
  unfolding be_follower send
  append_entries args rf0 = do
    let rf1 = if ltb rf0.current_term args.term then be_follower args.term rf0 else rf0
    ch ← send rf1.append_log_ch
    let rf = record rf1 { append_log_ch = ch }
    let refused : Option (Raft C × AppendEntriesReply) =
        some (rf, record { term = rf.current_term; success = false })
    if ltb args.term rf.current_term
        then refused
        else if leb (length rf.log) args.prev_log_index
        then refused
        else (do
          prev ← get_elem? rf.log args.prev_log_index
          if not (eqb_ℤ prev.term args.prev_log_term) then refused else (do
            rf3 ← accept_entries args rf
            some (rf3, record { term = rf.current_term; success = true })))

  -- `Start`: the index of the new entry, the term, and whether the peer is the leader.
  unfoldable pub start : Option C → Raft C → Raft C × (ℤ × ℕ × Bool)
  unfolding persist get_last_log_index
  start command raft =
      let index = get_last_log_index raft in
      let new_log : Log C = record { term = pos raft.current_term; command = command } in
      if is_leader raft.state
      then (
        persist gob (record raft { log = raft.log ++ new_log ∷ [] }),
        (sub_ℕ (pos_part index + 1) (neg_part index), raft.current_term, true),
      )
      else (raft, (negsuc 0, raft.current_term, false))
