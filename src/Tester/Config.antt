-- ===== src/Tester/Config.antt =====
-- src/raft/config.go: servers come up, crash, and are attached to the network and detached from it. A
-- server goes by its number, below `n`; a slice with one entry for each server is a family. `none` is
-- the end of the process: a nil slice is indexed, or an end's name has been used before.
use mit6824_distribute_syste.Prelude.{
  ℕ, zero, suc, ◌+◌, Bool, true, false, Option, none, some, if◌then◌else◌, ◌>>=◌, [],
}
use mit6824_distribute_syste.Prelude.Text.{Text, itoa}
use mit6824_distribute_syste.Prelude.Families.{update}
use mit6824_distribute_syste.Labrpc.Network.{
  Network, make_end, connect, enable, add_server, delete_server,
}
use mit6824_distribute_syste.Raft.Persister.{
  Persister, make_persister, copy, read_raft_state, save_raft_state,
}
use mit6824_distribute_syste.Raft.Peer.{Raft, Gob}
use mit6824_distribute_syste.Raft.Roles.{make}

-- `config`, without its mutex, its logs (Tester/Commits.antt) and `done`. A nil is `none`.
pub record Config (C : Type 0) : Type 0 where
  pub net : Network
  pub n : ℕ
  pub rafts : ℕ → Option (Raft C)
  pub connected : ℕ → Bool
  pub saved : ℕ → Option Persister
  pub endnames : ℕ → Option (ℕ → Text)

-- The loop of `start1` that makes the ends of a server.
unfoldable pub make_ends : (ℕ → Text) → ℕ → ℕ → Network → Option Network
unfolding make_end
make_ends names j zero net = some net
make_ends names j (suc left) net = do
  made ← make_end (names j) net
  make_ends names (j + 1) left (connect (names j) (itoa j) made.0)

module _ {C : Type 0} where
  -- The first loop of `connect`, from `j` on.
  unfoldable pub connect_out : Config C → ℕ → ℕ → ℕ → Network → Option Network
  connect_out cfg i j zero net = some net
  connect_out cfg i j (suc left) net = do
    net' ←
        if cfg.connected j
        then (do row ← cfg.endnames i; some (enable (row j) true net))
        else some net
    connect_out cfg i (j + 1) left net'

  -- The second loop.
  unfoldable pub connect_in : Config C → ℕ → ℕ → ℕ → Network → Option Network
  connect_in cfg i j zero net = some net
  connect_in cfg i j (suc left) net = do
    net' ←
        if cfg.connected j
        then (do row ← cfg.endnames j; some (enable (row i) true net))
        else some net
    connect_in cfg i (j + 1) left net'

  -- `connect`
  unfoldable pub connect_server : ℕ → Config C → Option (Config C)
  unfolding connect_out connect_in
  connect_server i cfg0 = do
    let cfg = record cfg0 { connected = update cfg0.connected i true }
    net1 ← connect_out cfg i 0 cfg.n cfg.net
    net2 ← connect_in cfg i 0 cfg.n net1
    some (record cfg { net = net2 })

  -- The loops of `disconnect`, which pass over what is nil.
  unfoldable pub disconnect_out : Config C → ℕ → ℕ → ℕ → Network → Network
  disconnect_out cfg i j zero net = net
  disconnect_out cfg i j (suc left) net =
      disconnect_out cfg i (j + 1) left
        (elim (cfg.endnames i) [ none ↦ net | some row ↦ enable (row j) false net ])

  unfoldable pub disconnect_in : Config C → ℕ → ℕ → ℕ → Network → Network
  disconnect_in cfg i j zero net = net
  disconnect_in cfg i j (suc left) net =
      disconnect_in cfg i (j + 1) left
        (elim (cfg.endnames j) [ none ↦ net | some row ↦ enable (row i) false net ])

  -- `disconnect`
  unfoldable pub disconnect_server : ℕ → Config C → Config C
  unfolding disconnect_out disconnect_in
  disconnect_server i cfg0 =
      let cfg = record cfg0 { connected = update cfg0.connected i false } in
      let net1 = disconnect_out cfg i 0 cfg.n cfg.net in
      record cfg { net = disconnect_in cfg i 0 cfg.n net1 }

  -- `crash1`; `Kill` does nothing. Of what was saved, the peer's state is kept in a new Persister.
  unfoldable pub crash1 : ℕ → Config C → Config C
  unfolding disconnect_server delete_server copy read_raft_state save_raft_state
  crash1 i cfg0 =
      let cfg1 = disconnect_server i cfg0 in
      let cfg2 = record cfg1 { net = delete_server (itoa i) cfg1.net } in
      let cfg3 = record cfg2 { rafts = update cfg2.rafts i none } in
      elim (cfg3.saved i) [
        | none ↦ cfg3
        | some ps ↦ record cfg3 {
          saved = update cfg3.saved i (
              some (
                save_raft_state (read_raft_state (copy ps))
                  (record { raftstate = []; snapshot = [] })));
        }
      ]

  -- `start1`, with the names that `randstring` gives, and the new server's address.
  unfoldable pub start1 : Gob C → ℕ → (ℕ → Text) → ℕ → Config C → Option (Config C)
  unfolding crash1 make_ends copy make_persister make add_server
  start1 gob i names srv cfg0 = do
    let cfg1 = crash1 i cfg0
    let cfg2 = record cfg1 { endnames = update cfg1.endnames i (some names) }
    net ← make_ends names 0 cfg2.n cfg2.net
    let ps : Persister = elim (cfg2.saved i) [ none ↦ make_persister | some old ↦ copy old ]
    let rf = make gob cfg2.n i ps
    some (record cfg2 {
      net = add_server (itoa i) srv net;
      saved = update cfg2.saved i (some ps);
      rafts = update cfg2.rafts i (some rf);
    })
