-- ===== src/Raft/Leader.antt =====
-- src/raft/raft.go: the goroutines of `StartAppendLog`, by which a leader copies its log to one peer
-- and finds out what is committed.
use mit6824_distribute_syste.Prelude.{
  ℕ, ◌+◌, ◌-◌, ◌/◌, Option, none, some, List, [], ◌∷◌, length, get_elem?, write, drop, ltb, leb,
  if◌then◌else◌, ◌>>=◌,
}
use mit6824_distribute_syste.Prelude.Int.{ℤ, pos, negsuc, eqb_ℤ, pred_ℤ}
use mit6824_distribute_syste.Raft.Peer.{Raft, AppendEntriesArgs, AppendEntriesReply}
use mit6824_distribute_syste.Raft.Roles.{be_follower, update_last_applied, is_leader}

-- An index into a slice; a negative one is out of range.
abbrev pub index {ℓ} : {A : Type ℓ} → List A → ℤ → Option A
index xs (pos i) = get_elem? xs i
index xs (negsuc i) = none

-- `sort.Sort(sort.Reverse(sort.IntSlice(xs)))`
unfoldable pub insert_desc : ℕ → List ℕ → List ℕ
insert_desc x [] = x ∷ []
insert_desc x (y ∷ ys) = if leb y x then x ∷ (y ∷ ys) else y ∷ insert_desc x ys

unfoldable pub sort_desc : List ℕ → List ℕ
unfolding insert_desc
sort_desc [] = []
sort_desc (x ∷ xs) = insert_desc x (sort_desc xs)

-- `copyMatchIndex[len(copyMatchIndex)/2]` of the sorted copy.
unfoldable pub majority_index : List ℕ → Option ℕ
unfolding sort_desc
majority_index xs = get_elem? (sort_desc xs) (length xs / 2)

-- `raft.Log[next:]`, where `len(raft.Log)-1 >= next`.
abbrev pub entries_from {ℓ} : {A : Type ℓ} → List A → ℤ → Option (List A)
entries_from xs (pos next) = some (if ltb next (length xs) then drop next xs else [])
entries_from xs (negsuc next) = none

abbrev pub prev_of : ℤ → ℕ
prev_of (pos next) = next - 1
prev_of (negsuc next) = 0

module _ {C : Type 0} where
  -- The request of one round; `none` where an index is out of range. `prev_of` is read only after
  -- `Log[NextIndex[id]-1]`, so behind an index of at least 1.
  unfoldable pub append_args : ℕ → Raft C → Option (AppendEntriesArgs C)
  append_args id raft = do
    next ← get_elem? raft.next_index id
    prev ← index raft.log (pred_ℤ next)
    entries ← entries_from raft.log next
    some (record {
      term = raft.current_term;
      leader_id = raft.me;
      prev_log_index = prev_of next;
      prev_log_term = prev.term;
      entries = entries;
      leader_commit = raft.commit_index;
    })

  -- The rule by which the leader moves its commit index.
  unfoldable pub advance_commit : Raft C → Option (Raft C)
  advance_commit raft = do
    n ← majority_index raft.match_index
    if ltb raft.commit_index n
        then (do
          entry ← get_elem? raft.log n
          if eqb_ℤ entry.term (pos raft.current_term)
              then update_last_applied (record raft { commit_index = n })
              else some raft)
        else some raft

  -- The branch `reply.Success`.
  unfoldable pub record_match : ℕ → Raft C → Option (Raft C)
  record_match id raft = do
    let last = length raft.log - 1
    matches ← write raft.match_index id last
    nexts ← write raft.next_index id (pos (last + 1))
    matches' ← write matches raft.me last
    advance_commit (record raft { match_index = matches'; next_index = nexts })

-- Whether a goroutine goes round its loop again.
pub data Round : Type 0 where
  stop again : Round

module _ {C : Type 0} where
  -- A round begins with the test of the role and ends here, with the result of `sendAppendEntries`.
  unfoldable pub append_reply : ℕ → Option AppendEntriesReply → Raft C → Option (Raft C × Round)
  unfolding be_follower record_match
  append_reply id none raft = some (raft, stop)
  append_reply id (some reply) raft =
      if ltb raft.current_term reply.term
      then some (be_follower reply.term raft, stop)
      else if reply.success
      then (do raft' ← record_match id raft; some (raft', stop))
      else (do
        next ← get_elem? raft.next_index id
        nexts ← write raft.next_index id (pred_ℤ next)
        some (record raft { next_index = nexts }, again))

  -- The head of a round: no request where the peer is no longer the leader.
  unfoldable pub round_request : ℕ → Raft C → Option (Option (AppendEntriesArgs C))
  unfolding append_args
  round_request id raft =
      if is_leader raft.state then (do arg ← append_args id raft; some (some arg)) else some none
