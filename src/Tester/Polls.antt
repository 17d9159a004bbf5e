-- ===== src/Tester/Polls.antt =====
-- src/raft/config.go, `checkOneLeader` while the peers of src/raft/raft.go hold elections: each call of
-- `GetState` reads a peer at its time.
use mit6824_distribute_syste.Prelude.{
  ℕ, suc, ◌<◌, ◌≡◌, refl, sym, Bool, true, false, List, [], ◌∷◌, arith,
}
use mit6824_distribute_syste.Raft.Peer.{Raft, Gob, IsCodec, follower, candidate, leader, Role}
use mit6824_distribute_syste.Raft.Roles.{get_state, is_leader}
use mit6824_distribute_syste.Raft.Cluster.{Cluster, Election, Moves, here, and_then, boot}
use mit6824_distribute_syste.Raft.Elections.{one_leader_per_term}
use mit6824_distribute_syste.Tester.Leaders.{Reading, check_one_leader}
use mit6824_distribute_syste.Tester.OneLeader.{
  NoneOf, OncePerTerm, AllOnce, Decided, check_one_leader-Decided,
}

-- `t, leader := cfg.rafts[i].GetState()`
unfoldable pub read_state : {C : Type 0} → ℕ → Raft C → Reading
unfolding get_state
read_state i raft = record { server = i; term = (get_state raft).0; is_leader = (get_state raft).1 }

module _ {C : Type 0} (gob : Gob C) (n : ℕ) (connected : ℕ → Bool) where
  -- The loop over the peers from `i` on: what it reads, while the cluster moves on.
  pub data Poll : ℕ → Cluster C → List Reading → Cluster C → Type 0 where
    polled : {s : Cluster C} → Poll n s [] s
    apart :
        {i : ℕ} {s u : Cluster C} {rs : List Reading}
        → i < n
        → connected i ≡ false
        → Poll (suc i) s rs u
        → Poll i s rs u
    read :
        {i : ℕ} {s t u : Cluster C} {rs : List Reading}
        → i < n
        → connected i ≡ true
        → Moves gob n s t
        → Poll (suc i) t rs u
        → Poll i s (read_state i (t.peers i) ∷ rs) u

  -- The rounds; the tester sleeps before each.
  pub data Polls : Cluster C → List (List Reading) → Type 0 where
    stopped : {s : Cluster C} → Polls s []
    slept :
        {s t u : Cluster C} {rs : List Reading} {rounds : List (List Reading)}
        → Moves gob n s t
        → Poll 0 t rs u
        → Polls u rounds
        → Polls s (rs ∷ rounds)

Moves-trans :
    {C : Type 0} {gob : Gob C} {n : ℕ} {s t u : Cluster C}
    → Moves gob n s t
    → Moves gob n t u
    → Moves gob n s u
Moves-trans a here = a
Moves-trans a (and_then b m) = and_then (Moves-trans a b) m

is_leader-leads : (r : Role) → is_leader r ≡ true → r ≡ leader
is_leader-leads follower h = absurd (cc)
is_leader-leads candidate h = absurd (cc)
is_leader-leads leader h = refl

module _ {C : Type 0} {gob : Gob C} {n : ℕ} {connected : ℕ → Bool} (codec : IsCodec gob)
    (e : Election) where
  Poll-Moves :
      {i : ℕ} {s u : Cluster C} {rs : List Reading}
      → Poll gob n connected i s rs u
      → Moves gob n s u
  Poll-Moves polled = here
  Poll-Moves (apart lt off p) = Poll-Moves p
  Poll-Moves (read lt on ms p) = Moves-trans ms (Poll-Moves p)

  -- After a leader has been read, no later peer is read as a leader of its term.
  Poll-NoneOf :
      (p : ℕ) {i : ℕ} {s0 s u : Cluster C} {rs : List Reading}
      → p < n
      → p < i
      → Moves gob n (boot gob n e) s0
      → (s0.peers p).state ≡ leader
      → Moves gob n s0 s
      → Poll gob n connected i s rs u
      → NoneOf ((s0.peers p).current_term) rs
  unfolding read_state get_state
  Poll-NoneOf p lt before start leads more polled = tt
  Poll-NoneOf p lt before start leads more (apart i_lt off poll) =
      Poll-NoneOf p lt (omega arith) start leads more poll
  Poll-NoneOf p {i} {s0} lt before start leads more (read {t = t} i_lt on ms poll) =
      let now = Moves-trans more ms in
      (
        (λ l same.
            let e : p ≡ i =
              one_leader_per_term codec n e p i start now lt i_lt leads
                (is_leader-leads (t.peers i).state l) (sym same) in
            absurd (omega arith)),
        Poll-NoneOf p lt (omega arith) start leads now poll,
      )

  Poll-OncePerTerm :
      {i : ℕ} {s u : Cluster C} {rs : List Reading}
      → Moves gob n (boot gob n e) s
      → Poll gob n connected i s rs u
      → OncePerTerm rs
  unfolding read_state get_state
  Poll-OncePerTerm start polled = tt
  Poll-OncePerTerm start (apart lt off poll) = Poll-OncePerTerm start poll
  Poll-OncePerTerm {i} start (read {t = t} lt on ms poll) =
      let now = Moves-trans start ms in
      (
        (λ l. Poll-NoneOf i lt (omega arith) now (is_leader-leads (t.peers i).state l) here poll),
        Poll-OncePerTerm now poll,
      )

  Polls-AllOnce :
      {s : Cluster C} {rounds : List (List Reading)}
      → Moves gob n (boot gob n e) s
      → Polls gob n connected s rounds
      → AllOnce rounds
  Polls-AllOnce start stopped = tt
  Polls-AllOnce start (slept ms poll polls) =
      let now = Moves-trans start ms in
      (Poll-OncePerTerm now poll, Polls-AllOnce (Moves-trans now (Poll-Moves poll)) polls)

  -- On a cluster that has come up for the first time and does not crash, `checkOneLeader` never fails
  -- because of two leaders in a term. The first round in which a connected peer leads decides: the check
  -- returns the leader that was read with the greatest term of that round. Without such a round it fails
  -- because there is no leader.
  pub one_leader_checked :
      {s : Cluster C} {rounds : List (List Reading)}
      → Moves gob n (boot gob n e) s
      → Polls gob n connected s rounds
      → Decided rounds (check_one_leader rounds)
  one_leader_checked {rounds = rounds} start polls =
      check_one_leader-Decided rounds (Polls-AllOnce start polls)
