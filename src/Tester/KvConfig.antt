-- ===== src/Tester/KvConfig.antt =====
-- src/kvraft/config.go: the tester's servers, its clerks' ends, and how a test begins. The loop that
-- makes the ends of a server or a clerk is that of src/raft/config.go. A clerk goes by the order in
-- which it was made.
use mit6824_distribute_syste.Prelude.{
  ℕ, zero, suc, ◌+◌, Bool, true, not, Option, none, some, List, [], ◌∷◌, ltb, if◌then◌else◌, ◌>>=◌,
}
use mit6824_distribute_syste.Prelude.Text.{Text, itoa}
use mit6824_distribute_syste.Prelude.Families.{update}
use mit6824_distribute_syste.Labrpc.Network.{
  Network, make_network, enable, add_server, delete_server, set_reliable,
}
use mit6824_distribute_syste.Raft.Persister.{Persister, make_persister, copy, raft_state_size}
use mit6824_distribute_syste.Raft.Peer.{Raft, Gob}
use mit6824_distribute_syste.Raft.Roles.{make}
use mit6824_distribute_syste.Tester.Config.{make_ends}
use mit6824_distribute_syste.Tester.Partition.{connect_unlocked, disconnect_unlocked}

-- `config`. A server is its Raft peer; what `Get` and `PutAppend` of a server do is left to the student.
pub record KvConfig (C : Type 0) : Type 0 where
  pub net : Network
  pub n : ℕ
  pub kvservers : ℕ → Option (Raft C)
  pub saved : ℕ → Option Persister
  pub endnames : ℕ → Option (ℕ → Text)
  pub clerks : ℕ → Option (ℕ → Text)
  pub next_client_id : ℕ

-- `All`, from server `i` on.
unfoldable pub all_from : ℕ → ℕ → List ℕ
all_from i zero = []
all_from i (suc left) = i ∷ all_from (i + 1) left

-- The loop of `LogSize`, from server `i` on; `none` where nothing was saved for a server.
unfoldable pub log_size : (ℕ → Option Persister) → ℕ → ℕ → ℕ → Option ℕ
unfolding raft_state_size
log_size saved i zero logsize = some logsize
log_size saved i (suc left) logsize = do
  ps ← saved i
  let n = raft_state_size ps
  log_size saved (i + 1) left (if ltb logsize n then n else logsize)

-- `ConnectClientUnlocked` and `DisconnectClientUnlocked`.
unfoldable pub set_client : Bool → (ℕ → Text) → List ℕ → Network → Network
set_client b names [] net = net
set_client b names (t ∷ to) net = set_client b names to (enable (names t) b net)

module _ {C : Type 0} where
  -- The loop of `ConnectAll`, from server `i` on.
  unfoldable pub connect_all : ℕ → ℕ → KvConfig C → Option (KvConfig C)
  unfolding connect_unlocked all_from
  connect_all i zero cfg = some cfg
  connect_all i (suc left) cfg = do
    net ← connect_unlocked cfg.endnames i (all_from 0 cfg.n) cfg.net
    connect_all (i + 1) left (record cfg { net = net })

  -- `makeClient`, for the clerk `ck`, with the names that `randstring` gives; the order in which the
  -- clerk asks the servers does not matter here.
  unfoldable pub make_client : ℕ → (ℕ → Text) → List ℕ → KvConfig C → Option (KvConfig C)
  unfolding make_ends set_client
  make_client ck names to cfg = do
    net ← make_ends names 0 cfg.n cfg.net
    some (record cfg {
      net = set_client true names to net;
      clerks = update cfg.clerks ck (some names);
      next_client_id = cfg.next_client_id + 1;
    })

  -- `deleteClient`; the files that it removes are not there, since ends are no sockets.
  unfoldable pub delete_client : ℕ → KvConfig C → KvConfig C
  delete_client ck cfg = record cfg { clerks = update cfg.clerks ck none }

  -- `ShutdownServer`
  unfoldable pub shutdown_server : ℕ → KvConfig C → Option (KvConfig C)
  unfolding disconnect_unlocked all_from delete_server copy
  shutdown_server i cfg = do
    net ← disconnect_unlocked cfg.endnames i (all_from 0 cfg.n) cfg.net
    some (record cfg {
      net = delete_server (itoa i) net;
      saved = update cfg.saved i (elim (cfg.saved i) [ none ↦ none | some ps ↦ some (copy ps) ]);
      kvservers = update cfg.kvservers i none;
    })

  -- `StartServer`, with the names that `randstring` gives, and the new server's address.
  unfoldable pub start_server : Gob C → ℕ → (ℕ → Text) → ℕ → KvConfig C → Option (KvConfig C)
  unfolding make_ends copy make_persister make add_server
  start_server gob i names srv cfg0 = do
    let cfg = record cfg0 { endnames = update cfg0.endnames i (some names) }
    net ← make_ends names 0 cfg.n cfg.net
    let ps : Persister = elim (cfg.saved i) [ none ↦ make_persister | some old ↦ copy old ]
    let rf = make gob cfg.n i ps
    some (record cfg {
      net = add_server (itoa i) srv net;
      saved = update cfg.saved i (some ps);
      kvservers = update cfg.kvservers i (some rf);
    })

  -- The loop of `make_config`, from server `i` on.
  unfoldable pub start_all :
      Gob C → (ℕ → ℕ → Text) → (ℕ → ℕ) → ℕ → ℕ → KvConfig C → Option (KvConfig C)
  unfolding start_server
  start_all gob names addresses i zero cfg = some cfg
  start_all gob names addresses i (suc left) cfg = do
    cfg' ← start_server gob i (names i) (addresses i) cfg
    start_all gob names addresses (i + 1) left cfg'

  -- `make_config` up to its loop.
  unfoldable pub empty_config : ℕ → KvConfig C
  unfolding make_network
  empty_config n = record {
    net = make_network;
    n = n;
    kvservers = λ i. none;
    saved = λ i. none;
    endnames = λ i. none;
    clerks = λ ck. none;
    next_client_id = n + 1000;
  }

  -- `make_config`
  unfoldable pub make_config : Gob C → (ℕ → ℕ → Text) → (ℕ → ℕ) → ℕ → Bool → Option (KvConfig C)
  unfolding start_all connect_all set_reliable empty_config
  make_config gob names addresses n unreliable = do
    cfg1 ← start_all gob names addresses 0 n (empty_config n)
    cfg2 ← connect_all 0 n cfg1
    some (record cfg2 { net = set_reliable (not unreliable) cfg2.net })
