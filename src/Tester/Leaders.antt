-- ===== src/Tester/Leaders.antt =====
-- src/raft/config.go, `checkOneLeader`: the tester asks the connected peers for their state until one
-- leads, in ten rounds at most.
use mit6824_distribute_syste.Prelude.{
  ℕ, Bool, Option, none, some, List, [], ◌∷◌, ◌++◌, length, ltb, ◌==◌, if◌then◌else◌,
}
use mit6824_distribute_syste.Prelude.Int.{ℤ, negsuc, ltb_ℤ}

-- What `GetState` of a connected peer returns.
pub record Reading : Type 0 where
  pub server : ℕ
  pub term : ℕ
  pub is_leader : Bool

-- `make(map[int][]int)`: the leaders of each term.
abbrev pub Leaders : Type 0
Leaders = List (ℕ × List ℕ)

-- `leaders[t]`, which is nil where there are none.
unfoldable pub at_term : ℕ → Leaders → List ℕ
at_term t [] = []
at_term t ((u, is) ∷ m) = let rest = at_term t m in if u == t then is else rest

-- `leaders[t] = append(leaders[t], i)`
unfoldable pub add_leader : ℕ → ℕ → Leaders → Leaders
add_leader t i [] = (t, i ∷ []) ∷ []
add_leader t i ((u, is) ∷ m) =
    let rest = add_leader t i m in if u == t then (u, is ++ i ∷ []) ∷ m else (u, is) ∷ rest

-- The loop over the peers.
unfoldable pub collect_leaders : List Reading → Leaders → Leaders
collect_leaders [] m = m
collect_leaders (r ∷ rs) m =
    let with_it = collect_leaders rs (add_leader r.term r.server m) in
    let without = collect_leaders rs m in if r.is_leader then with_it else without

-- How the test goes on: `Fatalf` because of two leaders in a term, `Fatalf` because there was none, an
-- index out of range, or the leader that is returned.
pub data Outcome : Type 0 where
  two_leaders : ℕ → Outcome
  no_leader : Outcome
  panics : Outcome
  found : ℕ → Outcome

-- The loop over the map, with `lastTermWithLeader`: it fails with a term, or ends with that variable.
unfoldable pub last_term : ℤ → Leaders → ℤ × Option ℕ
last_term last [] = (last, none)
last_term last ((t, is) ∷ m) =
    let rest = last_term (if ltb_ℤ last (ℤ.pos t) then ℤ.pos t else last) m in
    if ltb 1 (length is) then (last, some t) else rest

-- `leaders[lastTermWithLeader][0]`
unfoldable pub first_leader : ℤ → Leaders → Outcome
unfolding at_term
first_leader (ℤ.pos t) m = elim (at_term t m) [ [] ↦ panics | i ∷ is ↦ found i ]
first_leader (negsuc t) m = panics

-- The end of a round: the loop over the map and `len(leaders) != 0`, with what the rounds after it give.
unfoldable pub judge : Leaders → Outcome → Outcome
unfolding last_term first_leader
judge m rest =
    let scan = last_term (negsuc 0) m in
    let first = first_leader scan.0 m in
    elim scan.1 [ some t ↦ two_leaders t | none ↦ elim m [ [] ↦ rest | _ ∷ _ ↦ first ] ]

-- `checkOneLeader`, by what it reads in each round.
unfoldable pub check_one_leader : List (List Reading) → Outcome
unfolding collect_leaders judge
check_one_leader [] = no_leader
check_one_leader (rs ∷ rounds) = judge (collect_leaders rs []) (check_one_leader rounds)
