-- ===== src/Raft/Faults.antt =====
-- src/raft/raft.go: where `AppendEntries` and `StartAppendLog` part from the algorithm that their
-- comments quote.
use mit6824_distribute_syste.Prelude.{
  ℕ, zero, suc, ◌+◌, ◌-◌, ◌≤◌, ◌<◌, ◌≡◌, true, Option, Option-cases, none, some, List, [], ◌∷◌,
  length, length-append, length-drop, get_elem?, get_elem?_lt, get_elem?-none, get_elem?-write_self,
  get_elem?-write_ne, write, inl, inr, arith, >>=-eq-some, ℕ_discrete,
}
use mit6824_distribute_syste.Prelude.Int.{ℤ, pos, negsuc, pred_ℤ}
use mit6824_distribute_syste.Raft.Peer.{Log, Raft, AppendEntriesArgs, Gob, leader}
use mit6824_distribute_syste.Raft.Roles.{persist, be_follower}
use mit6824_distribute_syste.Raft.Append.{append_entries, start}
use mit6824_distribute_syste.Raft.Leader.{
  append_args, record_match, advance_commit, majority_index, index, entries_from, prev_of,
}
use mit6824_distribute_syste.Raft.Delivery.{update_last_applied_lem}
use mit6824_distribute_syste.Raft.Replication.{
  append_entries_lem, heard, Matches, merged, length-merged,
}

module _ {C : Type 0} (gob : Gob C) where
  -- The request succeeds, and there is no entry at the old commit index.
  abbrev pub LosesCommitted : AppendEntriesArgs C → Raft C → Type 0
  LosesCommitted args rf =
      (rf' : Raft C) × (append_entries gob args rf
        ≡ some (rf', record { term = (heard args rf).current_term; success = true }))
      × (get_elem? rf'.log rf.commit_index ≡ none)

  -- A request with no entries, such as a delayed heartbeat of the present term, whose `prevLogIndex`
  -- lies before the commit index deletes the entry at the commit index, though it conflicts with
  -- nothing, and reports success.
  pub committed_entry_deleted :
      (args : AppendEntriesArgs C) (rf : Raft C) (e : Log C)
      → Matches args rf
      → args.entries ≡ []
      → args.prev_log_index < rf.commit_index
      → get_elem? rf.log rf.commit_index ≡ some e
      → LosesCommitted args rf
  unfolding persist be_follower
  committed_entry_deleted args rf e m empty before at = elim (append_entries_lem gob args rf) [
    | inr (never, _) ↦ absurd (never m)
    | inl (_, done) ↦
        let within = get_elem?_lt rf.log args.prev_log_index m.2 in
        let short : length (merged args rf) ≤ rf.commit_index =
          rw (length-merged args rf within, empty) (omega arith) in
        let gone = get_elem?-none (merged args rf) rf.commit_index short in
        (_, done, ground (arith, gone))
  ]

module _ {C : Type 0} where
  advance_commit-match_index :
      (rf : Raft C) {rf' : Raft C} → advance_commit rf ≡ some rf' → rf'.match_index ≡ rf.match_index
  unfolding advance_commit
  advance_commit-match_index rf h =
      let (n, picked, more) = >>=-eq-some (majority_index rf.match_index) _ h in
      elim (Option-cases (get_elem? rf.log n)) [
        | inl out ↦ ground arith
        | inr (e, found) ↦ ground (
          arith,
          update_last_applied_lem (record rf { commit_index = n }) (get_elem?_lt rf.log n found),
        )
      ]

  record_match-match_index :
      (id : ℕ) (raft : Raft C) {raft' : Raft C}
      → record_match id raft ≡ some raft'
      → get_elem? raft'.match_index id ≡ some (length raft.log - 1)
  unfolding record_match
  record_match-match_index id raft h =
      let last = length raft.log - 1 in
      let (matches, w1, h1) = >>=-eq-some (write raft.match_index id last) _ h in
      let (nexts, _, h2) = >>=-eq-some (write raft.next_index id (pos (last + 1))) _ h1 in
      let (matches', w2, h3) = >>=-eq-some (write matches raft.me last) _ h2 in
      let kept =
        advance_commit-match_index (record raft { match_index = matches'; next_index = nexts })
          h3 in
      let own = get_elem?-write_self raft.match_index id last w1 in
      elim (ℕ_discrete raft.me id) [
        | yes same ↦ ground (arith, kept, get_elem?-write_self matches raft.me last w2)
        | no other ↦ ground (arith, kept, own, get_elem?-write_ne matches raft.me id last w2 other)
      ]

  slice_length :
      (xs : List (Log C)) (next : ℤ) {prev : Log C} {es : List (Log C)}
      → index xs (pred_ℤ next) ≡ some prev
      → entries_from xs next ≡ some es
      → prev_of next + length es + 1 ≡ length xs
  slice_length xs (negsuc n) p q = absurd (cc)
  slice_length xs (pos zero) p q = absurd (cc)
  slice_length xs (pos (suc n)) {prev} p q =
      let at : get_elem? xs n ≡ some prev = ground arith in
      ground (arith, get_elem?_lt xs n at, length-drop {0} (suc n) xs)

  -- A request carries the log from `prevLogIndex` on to its end.
  append_args-length :
      (id : ℕ) (raft : Raft C) {arg : AppendEntriesArgs C}
      → append_args id raft ≡ some arg
      → arg.prev_log_index + length arg.entries + 1 ≡ length raft.log
  unfolding append_args
  append_args-length id raft h =
      let (next, w1, h1) = >>=-eq-some (get_elem? raft.next_index id) _ h in
      let (prev, w2, h2) = >>=-eq-some (index raft.log (pred_ℤ next)) _ h1 in
      let (entries, w3, h3) = >>=-eq-some (entries_from raft.log next) _ h2 in
      ground (arith, slice_length raft.log next w2 w3)

module _ {C : Type 0} (gob : Gob C) where
  -- If a client's command arrives between a request to peer `id` and its success, the leader records
  -- a match beyond every entry that the request took there.
  pub match_overclaimed :
      (id : ℕ) (c : Option C) (raft : Raft C) {raft' : Raft C} {arg : AppendEntriesArgs C}
      → raft.state ≡ leader
      → append_args id raft ≡ some arg
      → record_match id (start gob c raft).0 ≡ some raft'
      → get_elem? raft'.match_index id ≡ some (arg.prev_log_index + length arg.entries + 1)
  unfolding start persist
  match_overclaimed id c raft {raft'} {arg} lead sent done =
      let m = record_match-match_index id (start gob c raft).0 done in
      let n = append_args-length id raft sent in
      ground (
        arith,
        m,
        n,
        length-append {0} raft.log (record { term = pos raft.current_term; command = c } ∷ []),
      )
