-- ===== src/Lockservice/Server.antt =====
-- src/lockservice/server.go, common.go and client.go: the handlers, the accept loop and the clerk.
use mit6824_distribute_syste.Prelude.{
  Bool, true, false, Option, none, some, List, [], ◌∷◌, if◌then◌else◌, not, ◌&&◌,
}
use mit6824_distribute_syste.Prelude.Text.{Text}
use mit6824_distribute_syste.Prelude.Maps.{Map, lookup, put}

-- `LockArgs` and `UnlockArgs`.
pub record LockArgs : Type 0 where
  pub lockname : Text

pub record UnlockArgs : Type 0 where
  pub lockname : Text

pub record LockReply : Type 0 where
  pub ok : Bool

pub record UnlockReply : Type 0 where
  pub ok : Bool

-- `LockServer`, without its mutex; of the listener, whether it is open.
pub record LockServer : Type 0 where
  pub listening : Bool
  pub dead : Bool
  pub dying : Bool
  pub am_primary : Bool
  pub backup : Text
  pub locks : Map Bool

-- The fields that `StartServer` sets, once it listens.
unfoldable pub start_server : Text → Text → Bool → LockServer
start_server primary backup am_primary = record {
  listening = true;
  dead = false;
  dying = false;
  am_primary = am_primary;
  backup = backup;
  locks = [];
}

-- The port that `StartServer` listens on.
unfoldable pub port : Text → Text → Bool → Text
port primary backup am_primary = if am_primary then primary else backup

-- `locked, _ := ls.locks[args.Lockname]`
abbrev pub is_locked : Text → Map Bool → Bool
is_locked name locks = elim (lookup name locks) [ none ↦ false | some locked ↦ locked ]

-- `Lock`
unfoldable pub lock : LockArgs → LockServer → LockServer × LockReply
lock args ls =
    if is_locked args.lockname ls.locks
    then (ls, record { ok = false })
    else (record ls { locks = put args.lockname true ls.locks }, record { ok = true })

-- `Unlock`; the reply stays as it was made.
unfoldable pub unlock : UnlockArgs → LockServer → LockServer × UnlockReply
unlock args ls = (ls, record { ok = false })

unfoldable pub kill : LockServer → LockServer
kill ls = record ls { dead = true; listening = false }

-- `Clerk`
pub record Clerk : Type 0 where
  pub primary : Text
  pub backup : Text

unfoldable pub make_clerk : Text → Text → Clerk
make_clerk primary backup = record { primary = primary; backup = backup }

-- `Clerk.Lock`, where `call` gives what the RPC to a server comes back with.
unfoldable pub clerk_lock : (Text → LockArgs → Option LockReply) → Clerk → Text → Bool
clerk_lock call ck lockname = elim (call ck.primary (record { lockname = lockname })) [
  | none ↦ false
  | some reply ↦ reply.ok
]

-- `Clerk.Unlock`
unfoldable pub clerk_unlock : Clerk → Text → Bool
clerk_unlock ck lockname = false

-- A request that reaches the server, and the reply's OK.
pub data Request : Type 0 where
  locking : LockArgs → Request
  unlocking : UnlockArgs → Request

unfoldable pub handle : Request → LockServer → LockServer × Bool
handle (locking args) ls = let (ls', reply) = lock args ls in (ls', reply.ok)
handle (unlocking args) ls = let (ls', reply) = unlock args ls in (ls', reply.ok)

-- The replies of a sequence of requests; the mutex puts them in some order.
unfoldable pub handle_all : List Request → LockServer → LockServer × List Bool
unfolding handle
handle_all [] ls = (ls, [])
handle_all (r ∷ rs) ls =
    let (ls1, ok) = handle r ls in let (ls2, oks) = handle_all rs ls1 in (ls2, ok ∷ oks)

-- What a round of the accept loop meets: `dead` and `dying` may have been set meanwhile, and then a
-- connection comes or `Accept` fails.
pub record Arrival : Type 0 where
  pub set_dead : Bool
  pub set_dying : Bool
  pub accepted : Bool

-- What becomes of a connection.
pub data Fate : Type 0 where
  served served_deaf closed : Fate

unfoldable pub arrive : Arrival → LockServer → LockServer
arrive a ls =
    let ls1 = if a.set_dying then record ls { dying = true } else ls in
    if a.set_dead then kill ls1 else ls1

-- A round of the accept loop, once `Accept` has returned.
unfoldable pub accept_round : Bool → LockServer → LockServer × Option Fate
unfolding kill
accept_round accepted ls =
    if accepted && not ls.dead
    then (if ls.dying
        then (record ls { listening = false; dead = true }, some served_deaf)
        else (ls, some served))
    else (if accepted then (ls, some closed) else (if ls.dead then (ls, none) else (kill ls, none)))

-- `for ls.dead == false`: the server, and the fates of the connections.
unfoldable pub accept_loop : List Arrival → LockServer → LockServer × List Fate
accept_loop [] ls = (ls, [])
accept_loop (a ∷ later) ls =
    let (ls1, fate) = accept_round a.accepted (arrive a ls) in
    let (ls2, fates) = accept_loop later ls1 in
    if ls.dead then (ls, []) else (ls2, elim fate [ none ↦ fates | some f ↦ f ∷ fates ])
