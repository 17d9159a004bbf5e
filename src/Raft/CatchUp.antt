-- ===== src/Raft/CatchUp.antt =====
-- src/raft/raft.go, `StartAppendLog`: the goroutine for one peer, with that peer at the other end and
-- every message delivered.
use mit6824_distribute_syste.Prelude.{
  ℕ, zero, suc, ◌+◌, ◌-◌, ◌≤◌, ◌<◌, ◌≡◌, refl, sym, ap, ◌∙◌, true, false, Option, none, some, List,
  [], ◌∷◌, ◌++◌, length, get_elem?, get_elem?_lt, get_elem?-some, get_elem?-write_self,
  length-write, write-some, write, take, drop, take-append-drop, inl, inr, arith, ◌>>=◌,
}
use mathlib.Core.Path.{subst}
use native.Mathlib.Numerals.{add-one}
use mit6824_distribute_syste.Prelude.Int.{ℤ, pos}
use mit6824_distribute_syste.Raft.Peer.{Log, Raft, AppendEntriesArgs, Gob, leader}
use mit6824_distribute_syste.Raft.Roles.{persist, be_follower}
use mit6824_distribute_syste.Raft.Append.{append_entries}
use mit6824_distribute_syste.Raft.Leader.{
  append_args, append_reply, round_request, record_match, stop, again,
}
use mit6824_distribute_syste.Raft.Commit.{
  AllBelow, AllBelow-write, committed, advance_commit_lem, below-in_log,
}
use mit6824_distribute_syste.Raft.Replication.{append_entries_lem, accepted, heard, Matches, merged}

module _ {C : Type 0} (gob : Gob C) (id : ℕ) where
  -- The loop of the goroutine, on fuel: the peers when it ends.
  unfoldable pub copy_loop : ℕ → Raft C → Raft C → Option (Raft C × Raft C)
  copy_loop zero raft peer = none
  copy_loop (suc fuel) raft peer =
      let go_on = λ (raft' peer' : Raft C). copy_loop fuel raft' peer' in
      round_request id raft >>= elim [
        | none ↦ some (raft, peer)
        | some arg ↦ append_entries gob arg peer >>= λ (peer', reply).
            append_reply id (some reply) raft >>= λ (raft', round). elim round [
              | stop ↦ some (raft', peer')
              | again ↦ go_on raft' peer'
            ]
      ]

module _ {C : Type 0} where
  -- The Log Matching property of the Raft paper, for two logs: where they have an entry of one term
  -- at one index, they are the same up to it.
  abbrev pub LogMatching : List (Log C) → List (Log C) → Type 0
  LogMatching xs ys =
      (i : ℕ) (a b : Log C)
      → get_elem? xs i ≡ some a
      → get_elem? ys i ≡ some b
      → a.term ≡ b.term
      → take (suc i) xs ≡ take (suc i) ys

  -- A leader and a peer of a term that is not larger; `next` is where the leader's next request to
  -- peer `id` begins.
  pub record CanCopy (id next : ℕ) (raft peer : Raft C) : Type 0 where
    pub lead : raft.state ≡ leader
    pub term_le : peer.current_term ≤ raft.current_term
    pub matching : LogMatching peer.log raft.log
    pub sentinel : Log C
    pub first : get_elem? raft.log 0 ≡ some sentinel
    pub first_peer : Log C
    pub first' : get_elem? peer.log 0 ≡ some first_peer
    pub same_first : first_peer.term ≡ sentinel.term
    pub id_lt : id < length raft.match_index
    pub me_lt : raft.me < length raft.match_index
    pub below : AllBelow (length raft.log) raft.match_index
    pub at : get_elem? raft.next_index id ≡ some (pos next)
    pub next_le : next ≤ length raft.log

  -- The request for the log from `suc p` on.
  abbrev request : ℕ → Log C → Raft C → AppendEntriesArgs C
  request p e raft = record {
    term = raft.current_term;
    leader_id = raft.me;
    prev_log_index = p;
    prev_log_term = e.term;
    entries = drop (suc p) raft.log;
    leader_commit = raft.commit_index;
  }

  drop_all : (n : ℕ) (xs : List (Log C)) → length xs ≤ n → drop n xs ≡ []
  drop_all zero [] h = refl
  drop_all zero (x ∷ xs) h = absurd (omega arith)
  drop_all (suc n) [] h = refl
  drop_all (suc n) (x ∷ xs) h = drop_all n xs (omega arith)

  round_request_lem :
      (id p : ℕ) (raft : Raft C) {e : Log C}
      → raft.state ≡ leader
      → get_elem? raft.next_index id ≡ some (pos (suc p))
      → get_elem? raft.log p ≡ some e
      → round_request id raft ≡ some (some (request p e raft))
  unfolding round_request append_args
  round_request_lem id p raft lead at found = ground (arith, drop_all (suc p) raft.log)

  record_match-some :
      (id : ℕ) (raft : Raft C)
      → id < length raft.match_index
      → id < length raft.next_index
      → raft.me < length raft.match_index
      → 0 < length raft.log
      → AllBelow (length raft.log) raft.match_index
      → (raft' : Raft C) × (record_match id raft ≡ some raft') × (raft'.log ≡ raft.log)
  unfolding record_match
  record_match-some id raft i j m l below =
      let last = length raft.log - 1 in
      let (matches, w1) = write-some raft.match_index id last i in
      let (nexts, w2) = write-some raft.next_index id (pos (last + 1)) j in
      let (matches', w3) =
        write-some matches raft.me last (omega (arith, length-write raft.match_index id last w1)) in
      let rf1 : Raft C = record raft { match_index = matches'; next_index = nexts } in
      let len3 : length matches' ≡ length raft.match_index =
        length-write matches raft.me last w3 ∙ length-write raft.match_index id last w1 in
      let below1 =
        AllBelow-write (length raft.log) raft.match_index id last w1 (omega arith) below in
      let below3 = AllBelow-write (length raft.log) matches raft.me last w3 (omega arith) below1 in
      elim (advance_commit_lem rf1 (omega arith)) [
        | inl (n, may, done) ↦ (committed n rf1, rw (w1, w2, w3, done), refl)
        | inr (inr (n, past, _)) ↦ absurd (below-in_log rf1 below3 past)
        | inr (inl (_, _, done)) ↦ (rf1, rw (w1, w2, w3, done), refl)
      ]

  append_reply_success :
      (id term : ℕ) (raft : Raft C) {raft' : Raft C}
      → term ≤ raft.current_term
      → record_match id raft ≡ some raft'
      → append_reply id (some (record { term = term; success = true })) raft ≡ some (raft', stop)
  unfolding append_reply
  append_reply_success id term raft h done = ground arith

  append_reply_failure :
      (id term next : ℕ) (raft : Raft C) {nexts : List ℤ}
      → term ≤ raft.current_term
      → get_elem? raft.next_index id ≡ some (pos (suc next))
      → write raft.next_index id (pos next) ≡ some nexts
      → append_reply id (some (record { term = term; success = false })) raft
        ≡ some (record raft { next_index = nexts }, again)
  unfolding append_reply
  append_reply_failure id term next raft h at done = ground arith

  heard_le :
      (arg : AppendEntriesArgs C) (peer : Raft C) (t : ℕ)
      → arg.term ≤ t
      → peer.current_term ≤ t
      → (heard arg peer).current_term ≤ t
  unfolding be_follower
  heard_le arg peer t h k = ground arith

  heard_log : (arg : AppendEntriesArgs C) (peer : Raft C) → (heard arg peer).log ≡ peer.log
  unfolding be_follower
  heard_log arg peer = ground arith

  accepted_log :
      (arg : AppendEntriesArgs C) (peer : Raft C) → (accepted arg peer).log ≡ merged arg peer
  accepted_log arg peer = ground arith

module _ {C : Type 0} (gob : Gob C) (id : ℕ) where
  -- What the loop arrives at: it ends, and the peer has the leader's log.
  abbrev pub Copies : ℕ → Raft C → Raft C → Type 0
  Copies fuel raft peer =
      (raft' : Raft C) × (peer' : Raft C) × (copy_loop gob id fuel raft peer ≡ some (raft', peer'))
      × (raft'.log ≡ raft.log)
      × (peer'.log ≡ raft.log)

  copied :
      (fuel p : ℕ) (raft peer : Raft C) (e : Log C)
      → CanCopy id (suc p) raft peer
      → get_elem? raft.log p ≡ some e
      → (m : Matches (request p e raft) peer)
      → append_entries gob (request p e raft) peer
        ≡ some (
          persist gob (accepted (request p e raft) (heard (request p e raft) peer)),
          record { term = (heard (request p e raft) peer).current_term; success = true },
        )
      → Copies (suc fuel) raft peer
  unfolding copy_loop persist be_follower
  copied fuel p raft peer e c found m done =
      let arg = request p e raft in
      let asked = round_request_lem id p raft c.lead c.at found in
      let in_next = get_elem?_lt raft.next_index id c.at in
      let (raft', recorded, keeps) =
        record_match-some id raft c.id_lt in_next c.me_lt (omega (arith, c.next_le)) c.below in
      let replied =
        append_reply_success id (heard arg peer).current_term raft
          (heard_le arg peer raft.current_term (omega arith) c.term_le) recorded in
      (
        raft',
        persist gob (accepted arg (heard arg peer)),
        rw (asked, done, replied),
        keeps,
        accepted_log arg (heard arg peer)
            ∙ ap (λ l. take (p + 1) l ++ drop (suc p) raft.log) (heard_log arg peer)
            ∙ rw (add-one, c.matching p m.0 e m.2 found m.3) (take-append-drop (suc p) raft.log),
      )

  -- The goroutine of a leader for one peer, both with a place in `MatchIndex`, when the peer's term
  -- is not larger than the leader's, their two logs satisfy Log Matching and start with entries of
  -- one term, every number of `MatchIndex` is below the length of the leader's log, the first
  -- request begins at `suc p` in or right after that log, every message is delivered and neither
  -- peer does anything else meanwhile: it ends within `suc p` rounds, without a panic, and the peer
  -- then has the leader's log.
  pub catch_up :
      (p : ℕ) (raft peer : Raft C) → CanCopy id (suc p) raft peer → Copies (suc p) raft peer
  unfolding copy_loop
  catch_up zero raft peer c = elim (append_entries_lem gob (request 0 c.sentinel raft) peer) [
    | inl (m, done) ↦ copied 0 0 raft peer c.sentinel c c.first m done
    | inr (never, _) ↦ absurd (never (c.first_peer, c.term_le, c.first', c.same_first))
  ]
  catch_up (suc p) raft peer c =
      let (e, found) = get_elem?-some raft.log (suc p) (omega (arith, c.next_le)) in
      let arg = request (suc p) e raft in
      elim (append_entries_lem gob arg peer) [
        | inl (m, done) ↦ copied (suc p) (suc p) raft peer e c found m done
        | inr (_, refused) ↦
            let in_next = get_elem?_lt raft.next_index id c.at in
            let (nexts, written) = write-some raft.next_index id (pos (suc p)) in_next in
            let asked = round_request_lem id (suc p) raft c.lead c.at found in
            let replied =
              append_reply_failure id (heard arg peer).current_term (suc p) raft
                (heard_le arg peer raft.current_term (omega arith) c.term_le) c.at written in
            let raft1 : Raft C = record raft { next_index = nexts } in
            let kept = heard_log arg peer in
            let go : CanCopy id (suc p) raft1 (heard arg peer) = record {
              lead = c.lead;
              term_le = heard_le arg peer raft.current_term (omega arith) c.term_le;
              matching = subst (λ l. LogMatching l raft.log) (sym kept) c.matching;
              sentinel = c.sentinel;
              first = c.first;
              first_peer = c.first_peer;
              first' = subst (λ l. get_elem? l 0 ≡ some c.first_peer) (sym kept) c.first';
              same_first = c.same_first;
              id_lt = c.id_lt;
              me_lt = c.me_lt;
              below = c.below;
              at = get_elem?-write_self raft.next_index id (pos (suc p)) written;
              next_le = omega (arith, c.next_le);
            } in
            let (raft', peer', rest, keeps, same) = catch_up p raft1 (heard arg peer) go in
            (raft', peer', rw (asked, refused, replied) rest, keeps, same)
      ]
