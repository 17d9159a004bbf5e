-- ===== src/Scenarios/Lockservice.antt =====
-- The lock server (src/lockservice) with two clients.
use mit6824_distribute_syste.Prelude.{
  ◌≤◌, ◌≡◌, refl, true, false, ◌&&◌, ◌||◌, not, List, [], ◌∷◌, if◌then◌else◌,
}
use mit6824_distribute_syste.Prelude.Text.{Text}
use mit6824_distribute_syste.Prelude.Maps.{lookup, put}
use mit6824_distribute_syste.Lockservice.Server.{
  LockServer, start_server, is_locked, Request, locking, unlocking, handle_all, handle, lock,
  unlock, Arrival, accept_loop,
}
use mit6824_distribute_syste.Lockservice.Locking.{granted_once, grants, asks}
use mit6824_distribute_syste.Lockservice.Accepting.{dying_lem, handled, unanswered}

abbrev a : Text
a = b'a' ∷ []

abbrev ls : LockServer
ls = start_server (b'p' ∷ []) (b'b' ∷ []) true

abbrev requests : List Request
requests =
    locking (record { lockname = a })
    ∷ (unlocking (record { lockname = a }) ∷ (locking (record { lockname = a }) ∷ []))

granted_once_example :
    (grants a requests (handle_all requests ls).1
      ≡ (if asks a requests && not (is_locked a ls.locks) then 1 else 0))
    × (is_locked a (handle_all requests ls).0.locks ≡ (is_locked a ls.locks || asks a requests))
granted_once_example = granted_once a requests ls

-- The second client does not get the lock that the first gave back.
not_released : (handle_all requests ls).1 ≡ true ∷ (false ∷ (false ∷ []))
unfolding handle_all handle lock unlock start_server lookup put
not_released = refl

abbrev dying : LockServer
dying = record ls { dying = true }

abbrev arrivals : List Arrival
arrivals =
    record { set_dead = false; set_dying = false; accepted = true }
    ∷ (record { set_dead = false; set_dying = false; accepted = true } ∷ [])

dying_lem_example :
    (handled (accept_loop arrivals dying).1 ≤ 1)
    × (unanswered (accept_loop arrivals dying).1 ≡ handled (accept_loop arrivals dying).1)
    × (handled (accept_loop arrivals dying).1 ≡ 1 → (accept_loop arrivals dying).0.dead ≡ true)
dying_lem_example = dying_lem arrivals dying refl
