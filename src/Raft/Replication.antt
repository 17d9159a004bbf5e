-- ===== src/Raft/Replication.antt =====
-- src/raft/raft.go, `AppendEntries` and `StartAppendLog`: how a log is copied.
use mit6824_distribute_syste.Prelude.{
  ℕ, ◌+◌, ◌-◌, ◌≤◌, ◌<◌, ◌≡◌, ◌⊎◌, inl, inr, Bool-cases, true, false, some, List, ◌++◌, length,
  length-append, length-take_of_le, get_elem?, get_elem?-some, get_elem?_lt, take, ltb,
  if◌then◌else◌, arith,
}
use native.Mathlib.Decide.{dec_lt}
use mit6824_distribute_syste.Prelude.Int.{eqb_ℤ, eqb_ℤ_iff}
use mit6824_distribute_syste.Raft.Peer.{Log, Raft, AppendEntriesArgs, Gob}
use mit6824_distribute_syste.Raft.Roles.{persist, be_follower}
use mit6824_distribute_syste.Raft.Append.{min_int, accept_entries, append_entries}
use mit6824_distribute_syste.Raft.Delivery.{delivered, update_last_applied_lem}

pub min_int-le : (x y : ℕ) → min_int x y ≤ y
unfolding min_int
min_int-le x y = ground arith

module _ {C : Type 0} where
  -- The log of a follower that accepts a request.
  abbrev pub merged : AppendEntriesArgs C → Raft C → List (Log C)
  merged args rf = take (args.prev_log_index + 1) rf.log ++ args.entries

  -- The same peer, once it has delivered what the request commits.
  abbrev pub accepted : AppendEntriesArgs C → Raft C → Raft C
  accepted args rf =
      let log = merged args rf in
      let commit = min_int args.leader_commit (length log - 1) in
      if ltb rf.commit_index args.leader_commit
      then delivered (commit - rf.last_applied) (record rf { log = log; commit_index = commit })
      else record rf { log = log }

  -- The peer after the first lines of the handler: a larger term is taken over, and the channel
  -- that restarts the election timer is filled.
  abbrev pub heard : AppendEntriesArgs C → Raft C → Raft C
  heard args rf =
      let rf1 = if ltb rf.current_term args.term then be_follower args.term rf else rf in
      record rf1 { append_log_ch = some true }

  -- The request is not stale, and the log has an entry of its `prevLogTerm` at `prevLogIndex`.
  abbrev pub Matches : AppendEntriesArgs C → Raft C → Type 0
  Matches args rf =
      (e : Log C) × (rf.current_term ≤ args.term)
      × (get_elem? rf.log args.prev_log_index ≡ some e)
      × (e.term ≡ args.prev_log_term)

  pub length-merged :
      (args : AppendEntriesArgs C) (rf : Raft C)
      → args.prev_log_index < length rf.log
      → length (merged args rf) ≡ args.prev_log_index + 1 + length args.entries
  length-merged args rf h = omega (
    arith,
    length-append {0} (take (args.prev_log_index + 1) rf.log) args.entries,
    length-take_of_le (args.prev_log_index + 1) rf.log (omega arith),
  )

module _ {C : Type 0} (gob : Gob C) where
  -- A request that passes the checks is carried out to the end: no index is out of range.
  pub accept_entries_lem :
      (args : AppendEntriesArgs C) (rf : Raft C)
      → args.prev_log_index < length rf.log
      → accept_entries gob args rf ≡ some (persist gob (accepted args rf))
  unfolding accept_entries persist
  accept_entries_lem args rf h =
      let log = merged args rf in
      let commit = min_int args.leader_commit (length log - 1) in
      let rf2 : Raft C = record rf { log = log; commit_index = commit } in
      let bound : commit < length log =
        omega (arith, length-merged args rf h, min_int-le args.leader_commit (length log - 1)) in
      elim (Bool-cases (ltb rf.commit_index args.leader_commit)) [
        | inl lt ↦ rw (lt, update_last_applied_lem rf2 bound)
        | inr ge ↦ rw ge
      ]

  -- The two ends of the handler: the request `Matches`, and is carried out and stored; or it does
  -- not, and only the term and the timer change.
  abbrev pub AppendOutcome : AppendEntriesArgs C → Raft C → Type 0
  AppendOutcome args rf =
      (Matches args rf
        × (append_entries gob args rf
            ≡ some (
              persist gob (accepted args (heard args rf)),
              record { term = (heard args rf).current_term; success = true },
            )))
      ⊎ ((¬ Matches args rf)
          × (append_entries gob args rf
              ≡ some
                  (heard args rf, record { term = (heard args rf).current_term; success = false })))

  -- The handler always returns, and accepts a request exactly when it `Matches`.
  pub append_entries_lem : (args : AppendEntriesArgs C) (rf : Raft C) → AppendOutcome args rf
  unfolding append_entries be_follower
  append_entries_lem args rf = elim (dec_lt args.term rf.current_term) [
    | yes stale ↦ inr ((λ m. absurd (omega (arith, m.1))), ground arith)
    | no fresh ↦ elim (dec_lt args.prev_log_index (length rf.log)) [
      | no out ↦
          inr (
            (λ m. absurd (omega (arith, get_elem?_lt rf.log args.prev_log_index m.2))),
            ground arith,
          )
      | yes within ↦
          let (e, found) = get_elem?-some rf.log args.prev_log_index within in
          elim (Bool-cases (eqb_ℤ e.term args.prev_log_term)) [
            | inl same ↦ inl (
              (e, omega arith, found, (eqb_ℤ_iff e.term args.prev_log_term).0 same),
              ground (arith, accept_entries_lem args (heard args rf)),
            )
            | inr other ↦
                inr ((λ m. ground (arith, eqb_ℤ_iff e.term args.prev_log_term)), ground arith)
          ]
    ]
  ]
