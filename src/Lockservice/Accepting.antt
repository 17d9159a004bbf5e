-- ===== src/Lockservice/Accepting.antt =====
-- src/lockservice/server.go: the accept loop of a server that is to die.
use mit6824_distribute_syste.Prelude.{ℕ, ◌+◌, ◌≡◌, ◌≤◌, refl, true, List, [], ◌∷◌, arith}
use mit6824_distribute_syste.Lockservice.Server.{
  LockServer, Arrival, Fate, served, served_deaf, closed, arrive, accept_round, accept_loop, kill,
}

-- The connections whose requests are handled, and those of them whose client gets no reply.
abbrev pub handled : List Fate → ℕ
handled [] = 0
handled (served ∷ fs) = 1 + handled fs
handled (served_deaf ∷ fs) = 1 + handled fs
handled (closed ∷ fs) = handled fs

abbrev pub unanswered : List Fate → ℕ
unanswered [] = 0
unanswered (served ∷ fs) = unanswered fs
unanswered (served_deaf ∷ fs) = 1 + unanswered fs
unanswered (closed ∷ fs) = unanswered fs

dead_lem :
    (later : List Arrival) (ls : LockServer) → ls.dead ≡ true → accept_loop later ls ≡ (ls, [])
unfolding accept_loop
dead_lem [] ls h = refl
dead_lem (a ∷ later) ls h = ground arith

dying_kept :
    (a : Arrival) (ls : LockServer)
    → ls.dying ≡ true
    → (accept_round a.accepted (arrive a ls)).0.dying ≡ true
unfolding accept_round arrive kill
dying_kept a ls h = ground arith

-- Once it is dying, a server handles at most one further connection, whatever comes, and does not
-- answer on it; if it has handled one, it is dead.
pub dying_lem :
    (later : List Arrival) (ls : LockServer)
    → ls.dying ≡ true
    → (handled (accept_loop later ls).1 ≤ 1)
      × (unanswered (accept_loop later ls).1 ≡ handled (accept_loop later ls).1)
      × (handled (accept_loop later ls).1 ≡ 1 → (accept_loop later ls).0.dead ≡ true)
unfolding accept_loop accept_round arrive kill
dying_lem [] ls h = ground arith
dying_lem (a ∷ later) ls h = ground (
  arith,
  dying_lem later (accept_round a.accepted (arrive a ls)).0,
  dead_lem later (accept_round a.accepted (arrive a ls)).0,
  dying_kept a ls h,
)
