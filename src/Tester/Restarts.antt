-- ===== src/Tester/Restarts.antt =====
-- src/raft/config.go: the network of the tester when a server crashes, and when it is started.
use mathlib.Core.Path.{subst}
use mit6824_distribute_syste.Prelude.{
  ℕ, ◌<◌, ◌≡◌, refl, ◌∙◌, Bool, false, ◌==◌, ◌&&◌, if◌then◌else◌, Option, none, some, arith,
  Option-cases, ap, ℕ_discrete, inl, inr,
}
use mit6824_distribute_syste.Prelude.Text.{Text, text_eq_iff, itoa, itoa-injective}
use mit6824_distribute_syste.Prelude.Families.{update}
use mit6824_distribute_syste.Prelude.Maps.{lookup-put, put}
use mit6824_distribute_syste.Labrpc.Network.{Network, at_key, add_server, delete_server}
use mit6824_distribute_syste.Raft.Persister.{Persister, copy, make_persister}
use mit6824_distribute_syste.Raft.Peer.{Raft, Gob}
use mit6824_distribute_syste.Raft.Roles.{make}
use mit6824_distribute_syste.Tester.Config.{Config, disconnect_server, crash1, make_ends, start1}
use mit6824_distribute_syste.Tester.Enabling.{live}
use mit6824_distribute_syste.Tester.Ends.{Made, make_ends-Made}
use mit6824_distribute_syste.Tester.Rows.{which_row, Made-Rows}
use mit6824_distribute_syste.Tester.Links.{Wired, ConfigOk, disconnect_server-Wired}

is_none-at_key :
    (s : Option ℕ) (k j : ℕ) (net : Network)
    → at_key none (itoa j) (put (itoa k) s net.servers)
      ≡ (if k == j then s else at_key none (itoa j) net.servers)
is_none-at_key s k j net = ground (
  arith,
  lookup-put (itoa k) (itoa j) s net.servers,
  text_eq_iff (itoa k) (itoa j),
  itoa-injective k j,
  text_eq_iff (itoa j) (itoa j),
)

module _ {C : Type 0} (cfg : Config C) (i : ℕ) where
  -- What `crash1` does, whether or not something was saved.
  crash1_lem :
      ((crash1 i cfg).n ≡ cfg.n)
      × ((crash1 i cfg).endnames ≡ cfg.endnames)
      × ((crash1 i cfg).connected ≡ update cfg.connected i false)
      × ((crash1 i cfg).rafts ≡ update cfg.rafts i none)
      × ((crash1 i cfg).net ≡ delete_server (itoa i) (disconnect_server i cfg).net)
  unfolding crash1 disconnect_server
  crash1_lem = elim (Option-cases (cfg.saved i)) [
    | inl e ↦ rw (e, crash1) (refl, refl, refl, refl, refl)
    | inr (ps, e) ↦ rw (e, crash1) (refl, refl, refl, refl, refl)
  ]

  Wired-delete_server :
      (connected : ℕ → Bool) (net : Network)
      → Wired cfg.n cfg.endnames connected cfg.rafts net
      → Wired cfg.n cfg.endnames connected (update cfg.rafts i none) (delete_server (itoa i) net)
  unfolding delete_server
  Wired-delete_server connected net w = record {
    known = w.known;
    distinct = w.distinct;
    leads = w.leads;
    up = w.up;
    linked = w.linked;
    hosts = λ q. ground (arith, is_none-at_key none i q net, w.hosts q);
  }

  pub crash1-ConfigOk : ConfigOk cfg → i < cfg.n → ConfigOk (crash1 i cfg)
  crash1-ConfigOk ok lt =
      let (n, ends, on, rafts, net) = crash1_lem in
      rw (n, ends, on, rafts, net)
        (Wired-delete_server (update cfg.connected i false) (disconnect_server i cfg).net
          (disconnect_server-Wired cfg ok i lt))

pub same_some {ℓ} : {A : Type ℓ} {o : Option A} {a b : A} → o ≡ some a → o ≡ some b → a ≡ b
same_some h k = cc

-- The ends that a server gets when it is started.
Wired-Made :
    {C : Type 0} {n : ℕ} {endnames : ℕ → Option (ℕ → Text)} {connected : ℕ → Bool}
    {rafts : ℕ → Option (Raft C)} {net net' : Network} (i : ℕ) (names : ℕ → Text) (srv : ℕ)
    (rf : Raft C)
    → Wired n endnames connected rafts net
    → connected i ≡ false
    → Made names 0 n net net'
    → Wired n
        (update endnames i (some names))
        connected
        (update rafts i (some rf))
        (add_server (itoa i) srv net')
unfolding add_server
Wired-Made {C} {n} {endnames} {connected} {rafts} {net} {net'} i names srv rf w off m =
    let row = λ (p : ℕ) (r : ℕ → Text). which_row endnames i p names r in
    let rows = Made-Rows i names (record { known = w.known; distinct = w.distinct }) m in
    record {
      known = rows.known;
      distinct = rows.distinct;
      leads = λ p q r q_lt at. elim (row p r at) [
        | inl (e, same) ↦
            subst (λ f. at_key none (f q) net'.connections ≡ some (itoa q)) same
              (m.leads q (omega arith) (omega arith))
        | inr (ne, old) ↦ (m.others (r q) (w.known p q r q_lt old)).1 ∙ w.leads p q r q_lt old
      ];
      up = λ p on. elim (ℕ_discrete i p) [
        | yes e ↦ (names, ground (arith, e))
        | no ne ↦ let (r, at) = w.up p on in (r, ground (arith, ne, at))
      ];
      linked = λ p q r p_lt q_lt at. elim (row p r at) [
        | inl (e, same) ↦
            subst (λ f. live (f q) net' ≡ (connected p && connected q)) same
              (m.off q (omega arith) (omega arith) ∙ ground (arith, off, e))
        | inr (ne, old) ↦ (m.others (r q) (w.known p q r q_lt old)).0 ∙ w.linked p q r p_lt q_lt old
      ];
      hosts = λ q. ground (arith, is_none-at_key (some srv) i q net', w.hosts q, m.servers);
    }

pub start1-ConfigOk :
    {C : Type 0} (gob : Gob C) (i : ℕ) (names : ℕ → Text) (srv : ℕ) (cfg cfg' : Config C)
    → ConfigOk cfg
    → i < cfg.n
    → start1 gob i names srv cfg ≡ some cfg'
    → ConfigOk cfg' × (cfg'.n ≡ cfg.n)
unfolding start1
start1-ConfigOk {C} gob i names srv cfg cfg' ok lt h =
    let cfg1 = crash1 i cfg in
    let (same_n, ends, on, rafts, net) = crash1_lem cfg i in
    let off : cfg1.connected i ≡ false = ap (λ f. f i) on ∙ ground arith in
    elim (Option-cases (make_ends names 0 cfg1.n cfg1.net)) [
      | inl out ↦ absurd (ground (arith, out, h))
      | inr (net2, made) ↦
          let m = make_ends-Made names 0 cfg1.n cfg1.net net2 made in
          let ps : Persister = elim (cfg1.saved i) [
            | none ↦ make_persister
            | some old ↦ copy old
          ] in
          let rf = make gob cfg1.n i ps in
          let done : Config C = record cfg1 {
            endnames = update cfg1.endnames i (some names);
            net = add_server (itoa i) srv net2;
            saved = update cfg1.saved i (some ps);
            rafts = update cfg1.rafts i (some rf);
          } in
          let same : done ≡ cfg' = same_some (rw made refl) h in
          subst (λ c. ConfigOk c × (c.n ≡ cfg.n)) same
            (Wired-Made i names srv rf (crash1-ConfigOk cfg i ok lt) off m, same_n)
    ]
