-- ===== src/Tester/Reachable.antt =====
-- src/raft/config.go: the network of the tester over any sequence of starts, crashes, attachments and
-- detachments.
use mathlib.Core.Path.{subst}
use mit6824_distribute_syste.Prelude.{ℕ, ◌<◌, ◌≡◌, refl, true, false, ◌&&◌, none, some, arith}
use mit6824_distribute_syste.Prelude.Text.{Text, itoa}
use mit6824_distribute_syste.Prelude.Families.{update}
use mit6824_distribute_syste.Prelude.Maps.{lookup}
use mit6824_distribute_syste.Labrpc.Network.{read_endname_info, make_network}
use mit6824_distribute_syste.Raft.Peer.{Gob}
use mit6824_distribute_syste.Tester.Commits.{is_none}
use mit6824_distribute_syste.Tester.Config.{
  Config, connect_server, disconnect_server, crash1, start1,
}
use mit6824_distribute_syste.Tester.Links.{ConfigOk, connect_server-Wired, disconnect_server-Wired}
use mit6824_distribute_syste.Tester.Restarts.{same_some, start1-ConfigOk, crash1-ConfigOk}

-- `make_config` before its loops.
unfoldable pub fresh_config : {C : Type 0} → ℕ → Config C
unfolding make_network
fresh_config n = record {
  net = make_network;
  n = n;
  rafts = λ i. none;
  connected = λ i. false;
  saved = λ i. none;
  endnames = λ i. none;
}

-- What a test makes of it. It attaches servers that it has started, under any names of ends that the
-- network accepts.
pub data Reached {C : Type 0} (gob : Gob C) (n : ℕ) : Config C → Type 0 where
  configured : Reached gob n (fresh_config n)
  starting :
      {cfg cfg' : Config C} (i : ℕ) (names : ℕ → Text) (srv : ℕ)
      → Reached gob n cfg
      → i < cfg.n
      → start1 gob i names srv cfg ≡ some cfg'
      → Reached gob n cfg'
  crashing : {cfg : Config C} (i : ℕ) → Reached gob n cfg → i < cfg.n → Reached gob n (crash1 i cfg)
  attaching :
      {cfg cfg' : Config C} (i : ℕ) {row : ℕ → Text}
      → Reached gob n cfg
      → i < cfg.n
      → cfg.endnames i ≡ some row
      → connect_server i cfg ≡ some cfg'
      → Reached gob n cfg'
  detaching :
      {cfg : Config C} (i : ℕ)
      → Reached gob n cfg
      → i < cfg.n
      → Reached gob n (disconnect_server i cfg)

module _ {C : Type 0} (gob : Gob C) (n : ℕ) where
  Reached-ConfigOk : {cfg : Config C} → Reached gob n cfg → ConfigOk cfg
  unfolding fresh_config make_network lookup disconnect_server
  Reached-ConfigOk configured = record {
    known = λ p q r q_lt at. absurd (cc);
    distinct = λ p q p' q' r r' q_lt q_lt' at at' same. absurd (cc);
    leads = λ p q r q_lt at. absurd (cc);
    up = λ p on. absurd (cc);
    linked = λ p q r p_lt q_lt at. absurd (cc);
    hosts = λ q. refl;
  }
  Reached-ConfigOk (starting {cfg} {cfg'} i names srv r lt h) =
      (start1-ConfigOk gob i names srv cfg cfg' (Reached-ConfigOk r) lt h).0
  Reached-ConfigOk (crashing {cfg} i r lt) = crash1-ConfigOk cfg i (Reached-ConfigOk r) lt
  Reached-ConfigOk (attaching {cfg} {cfg'} i r lt there h) =
      let (net, done, w) = connect_server-Wired cfg (Reached-ConfigOk r) i lt there in
      let same : record cfg { connected = update cfg.connected i true; net = net } ≡ cfg' =
        same_some done h in
      subst ConfigOk same w
  Reached-ConfigOk (detaching {cfg} i r lt) = disconnect_server-Wired cfg (Reached-ConfigOk r) i lt

  -- However servers are started, crashed, attached and detached: the end of server p for server q leads
  -- to the name of q, it is enabled exactly if both are attached, and there is a server behind it exactly
  -- if q is up. To attach a server that has been started does not end the process.
  pub links_lem :
      {cfg : Config C} (p q : ℕ) {row : ℕ → Text}
      → Reached gob n cfg
      → p < cfg.n
      → q < cfg.n
      → cfg.endnames p ≡ some row
      → (let info = read_endname_info (row q) cfg.net in
          (info.is_enabled ≡ (cfg.connected p && cfg.connected q))
          × (info.servername ≡ some (itoa q))
          × (is_none info.server ≡ is_none (cfg.rafts q)))
        × ((cfg' : Config C) × (connect_server p cfg ≡ some cfg'))
  unfolding read_endname_info
  links_lem {cfg} p q {row} r p_lt q_lt at =
      let ok = Reached-ConfigOk r in
      let leads = ok.leads p q row q_lt at in
      let (net, done, w) = connect_server-Wired cfg ok p p_lt at in
      (
        (ok.linked p q row p_lt q_lt at, leads, ground (arith, leads, ok.hosts q)),
        (record cfg { connected = update cfg.connected p true; net = net }, done),
      )
