-- ===== src/Lockservice/Locking.antt =====
-- src/lockservice: who gets a lock.
use mit6824_distribute_syste.Prelude.{
  ℕ, ◌+◌, ◌≡◌, refl, Bool, true, false, ◌&&◌, ◌||◌, not, List, [], ◌∷◌, if◌then◌else◌, arith,
}
use mit6824_distribute_syste.Prelude.Text.{Text, text_eq, text_eq_iff}
use mit6824_distribute_syste.Prelude.Maps.{lookup-put}
use mit6824_distribute_syste.Lockservice.Server.{
  LockServer, is_locked, lock, unlock, Request, locking, unlocking, handle, handle_all,
}

-- Whether a request is one to lock the name, and whether there is one.
abbrev pub locks_name : Text → Request → Bool
locks_name name (locking args) = text_eq args.lockname name
locks_name name (unlocking args) = false

abbrev pub asks : Text → List Request → Bool
asks name [] = false
asks name (r ∷ rs) = locks_name name r || asks name rs

-- How many requests to lock the name were granted.
unfoldable pub grants : Text → List Request → List Bool → ℕ
grants name (r ∷ rs) (ok ∷ oks) = (if locks_name name r && ok then 1 else 0) + grants name rs oks
grants name _ _ = 0

locked-handle :
    (name : Text) (r : Request) (ls : LockServer)
    → is_locked name (handle r ls).0.locks ≡ (is_locked name ls.locks || locks_name name r)
unfolding handle lock unlock
locked-handle name (locking args) ls =
    ground (arith, lookup-put args.lockname name true ls.locks, text_eq_iff args.lockname name)
locked-handle name (unlocking args) ls = ground arith

granted-handle :
    (name : Text) (r : Request) (ls : LockServer)
    → (locks_name name r && (handle r ls).1) ≡ (locks_name name r && not (is_locked name ls.locks))
unfolding handle lock unlock
granted-handle name (locking args) ls = ground (arith, text_eq_iff args.lockname name)
granted-handle name (unlocking args) ls = refl

-- Of the requests to lock a name, whatever their number and their order among other requests, exactly
-- one is granted if there are any and the name was free, and none if it was locked; afterwards it is
-- locked if it was or if there were any. No request to unlock changes this.
pub granted_once :
    (name : Text) (rs : List Request) (ls : LockServer)
    → (grants name rs (handle_all rs ls).1
        ≡ (if asks name rs && not (is_locked name ls.locks) then 1 else 0))
      × (is_locked name (handle_all rs ls).0.locks ≡ (is_locked name ls.locks || asks name rs))
unfolding handle_all grants
granted_once name [] ls = ground arith
granted_once name (r ∷ rs) ls =
    ground (
      arith,
      granted_once name rs (handle r ls).0,
      locked-handle name r ls,
      granted-handle name r ls,
    )
