-- ===== src/Tester/Links.antt =====
-- src/raft/config.go: what the network of the tester is while servers come up, crash, and are attached
-- and detached.
use mathlib.Core.Path.{subst}
use mit6824_distribute_syste.Prelude.{
  ℕ, ◌<◌, ◌≡◌, ◌≢◌, refl, sym, ◌∙◌, ◌⊎◌, inl, inr, Bool, true, false, ◌&&◌, if◌then◌else◌, Option,
  none, some, arith, Option-cases, ap, ℕ_discrete,
}
use mit6824_distribute_syste.Prelude.Text.{Text, itoa}
use mit6824_distribute_syste.Prelude.Families.{update}
use mit6824_distribute_syste.Prelude.Maps.{lookup}
use mit6824_distribute_syste.Labrpc.Network.{Network, at_key}
use mit6824_distribute_syste.Raft.Peer.{Raft}
use mit6824_distribute_syste.Tester.Commits.{is_none}
use mit6824_distribute_syste.Tester.Config.{
  Config, connect_server, disconnect_out, disconnect_server,
}
use mit6824_distribute_syste.Tester.Enabling.{
  live, end_at, outgoing, incoming, connect_out-Sets, connect_in-Sets, disconnect_out-Sets,
  disconnect_in-Sets,
}

-- The ends of the servers are known to the network and differ, each leads to its server, and it is
-- enabled when the servers at both of its ends are attached; a server has an address while it is up.
pub record Wired {C : Type 0} (n : ℕ) (endnames : ℕ → Option (ℕ → Text)) (connected : ℕ → Bool)
    (rafts : ℕ → Option (Raft C)) (net : Network) : Type 0 where
  pub known :
      (p q : ℕ) (row : ℕ → Text) → q < n → endnames p ≡ some row → lookup (row q) net.ends ≢ none
  pub distinct :
      (p q p' q' : ℕ) (row row' : ℕ → Text)
      → q < n
      → q' < n
      → endnames p ≡ some row
      → endnames p' ≡ some row'
      → row q ≡ row' q'
      → (p ≡ p') × (q ≡ q')
  pub leads :
      (p q : ℕ) (row : ℕ → Text)
      → q < n
      → endnames p ≡ some row
      → at_key none (row q) net.connections ≡ some (itoa q)
  pub up : (p : ℕ) → connected p ≡ true → (row : ℕ → Text) × (endnames p ≡ some row)
  pub linked :
      (p q : ℕ) (row : ℕ → Text)
      → p < n
      → q < n
      → endnames p ≡ some row
      → live (row q) net ≡ (connected p && connected q)
  pub hosts : (q : ℕ) → is_none (at_key none (itoa q) net.servers) ≡ is_none (rafts q)

abbrev pub ConfigOk : {C : Type 0} → Config C → Type 0
ConfigOk cfg = Wired cfg.n cfg.endnames cfg.connected cfg.rafts cfg.net

end_at-some :
    {C : Type 0} (cfg : Config C) (p q : ℕ) (row : ℕ → Text)
    → cfg.endnames p ≡ some row
    → end_at cfg p q ≡ some (row q)
end_at-some cfg p q row at = rw (at, end_at) refl

end_at-inv :
    {C : Type 0} (cfg : Config C) (p q : ℕ) (e : Text)
    → end_at cfg p q ≡ some e
    → (row : ℕ → Text) × (cfg.endnames p ≡ some row) × (row q ≡ e)
end_at-inv cfg p q e h = elim (Option-cases (cfg.endnames p)) [
  | inl nil ↦ absurd (ground (arith, nil, h))
  | inr (row, at) ↦ (row, at, ground (arith, at, h))
]

guarded-inv :
    (b : Bool) (o : Option Text) (e : Text)
    → (if b then o else none) ≡ some e
    → (b ≡ true) × (o ≡ some e)
guarded-inv true o e h = (refl, h)
guarded-inv false o e h = absurd (cc)

on_self : (connected : ℕ → Bool) (i : ℕ) → update connected i true i ≡ true
on_self connected i = ground arith

both_on :
    (on : ℕ → Bool) (i : ℕ)
    → on i ≡ true
    → (x : ℕ) → on x ≡ true
    → (p q : ℕ) → ((i ≡ p) × (x ≡ q)) ⊎ ((x ≡ p) × (i ≡ q))
    → (on p && on q) ≡ true
both_on on i is_on x x_on p q (inl (e, f)) = ground (arith, is_on, x_on, e, f)
both_on on i is_on x x_on p q (inr (e, f)) = ground (arith, is_on, x_on, e, f)

-- A pair of servers for which attaching `i` changes nothing.
unchanged :
    (connected : ℕ → Bool) (i p q : ℕ)
    → (i ≡ p → update connected i true q ≡ true → ⊥)
    → (i ≡ q → update connected i true p ≡ true → ⊥)
    → (update connected i true p && update connected i true q) ≡ (connected p && connected q)
unchanged connected i p q from to = ground arith

-- Where only `enabled` has changed, what does not depend on it stays.
module _ {C : Type 0} (cfg : Config C) (ok : ConfigOk cfg) (i : ℕ) (lt : i < cfg.n) where
  abbrev attached : Config C
  attached = record cfg { connected = update cfg.connected i true }

  outgoing_there :
      (p q : ℕ) (r : ℕ → Text)
      → i ≡ p
      → attached.connected q ≡ true
      → cfg.endnames p ≡ some r
      → outgoing attached attached.connected i q ≡ some (r q)
  outgoing_there p q r e is_on at =
      let at' : cfg.endnames i ≡ some r = subst (λ x. cfg.endnames x ≡ some r) (sym e) at in
      rw is_on (end_at-some attached i q r at')

  incoming_there :
      (p q : ℕ) (r : ℕ → Text)
      → i ≡ q
      → attached.connected p ≡ true
      → cfg.endnames p ≡ some r
      → incoming attached attached.connected i p ≡ some (r q)
  incoming_there p q r e is_on at =
      rw is_on (end_at-some attached p i r at ∙ ap (λ x. some (r x)) e)

  -- Attaching a server that has been started does not end the process.
  pub connect_server-Wired :
      {row : ℕ → Text}
      → cfg.endnames i ≡ some row
      → (net : Network) × (connect_server i cfg
          ≡ some (record cfg { connected = update cfg.connected i true; net = net }))
        × Wired cfg.n cfg.endnames (update cfg.connected i true) cfg.rafts net
  unfolding connect_server
  connect_server-Wired {row} there =
      let on = update cfg.connected i true in
      let cfg1 = record cfg { connected = on } in
      let up : (p : ℕ) → on p ≡ true → (r : ℕ → Text) × (cfg.endnames p ≡ some r) = λ p is_on.
        elim (ℕ_discrete i p) [
          | yes e ↦ (row, subst (λ x. cfg.endnames x ≡ some row) e there)
          | no ne ↦ ok.up p (ground (arith, is_on, ne))
        ] in
      let (net1, done1, s1) = connect_out-Sets cfg1 i 0 cfg.n cfg.net (λ q is_on. (row, there)) in
      let (net2, done2, s2) = connect_in-Sets cfg1 i 0 cfg.n net1 up in
      (
        net2,
        ground (arith, done1, done2),
        record {
          known = λ p q r q_lt at. rw (s2.ends, s1.ends) (ok.known p q r q_lt at);
          distinct = ok.distinct;
          leads = λ p q r q_lt at. rw (s2.connections, s1.connections) (ok.leads p q r q_lt at);
          up = up;
          linked = λ p q r p_lt q_lt at. elim (s2.each (r q)) [
            | inl ((x, le, x_lt, named), now) ↦
                let (is_on, there') = guarded-inv (on x) (end_at cfg x i) (r q) named in
                let (row', at', same) = end_at-inv cfg x i (r q) there' in
                let (e, f) = ok.distinct x i p q row' r lt q_lt at' at same in
                now ∙ sym (both_on on i (on_self cfg.connected i) x is_on p q (inr (e, f)))
            | inr (not2, same2) ↦ elim (s1.each (r q)) [
              | inl ((x, le, x_lt, named), now) ↦
                  let (is_on, there') = guarded-inv (on x) (end_at cfg i x) (r q) named in
                  let (row', at', same) = end_at-inv cfg i x (r q) there' in
                  let (e, f) = ok.distinct i x p q row' r (omega arith) q_lt at' at same in
                  same2
                  ∙ now
                  ∙ sym (both_on on i (on_self cfg.connected i) x is_on p q (inl (e, f)))
              | inr (not1, same1) ↦
                  same2
                  ∙ same1
                  ∙ ok.linked p q r p_lt q_lt at
                  ∙ sym (
                      unchanged cfg.connected i p q
                        (λ is_p is_on.
                          not1 (q, omega arith, omega arith, outgoing_there p q r is_p is_on at))
                        (λ is_q is_on.
                          not2 (p, omega arith, omega arith, incoming_there p q r is_q is_on at)))
            ]
          ];
          hosts = λ q. rw (s2.servers, s1.servers) (ok.hosts q);
        },
      )

  pub disconnect_server-Wired :
      Wired cfg.n cfg.endnames
        (update cfg.connected i false)
        cfg.rafts
        (disconnect_server i cfg).net
  unfolding disconnect_server
  disconnect_server-Wired =
      let off = update cfg.connected i false in
      let cfg1 = record cfg { connected = off } in
      let s1 = disconnect_out-Sets cfg1 i 0 cfg.n cfg.net in
      let net1 = disconnect_out cfg1 i 0 cfg.n cfg.net in
      let s2 = disconnect_in-Sets cfg1 i 0 cfg.n net1 in
      record {
        known = λ p q r q_lt at. rw (s2.ends, s1.ends) (ok.known p q r q_lt at);
        distinct = ok.distinct;
        leads = λ p q r q_lt at. rw (s2.connections, s1.connections) (ok.leads p q r q_lt at);
        up = λ p is_on. ok.up p (ground (arith, is_on));
        linked = λ p q r p_lt q_lt at. elim (s2.each (r q)) [
          | inl ((x, le, x_lt, named), now) ↦
              let (row', at', same) = end_at-inv cfg1 x i (r q) named in
              let (e, f) = ok.distinct x i p q row' r lt q_lt at' at same in now ∙ ground (arith, f)
          | inr (not2, same2) ↦ elim (s1.each (r q)) [
            | inl ((x, le, x_lt, named), now) ↦
                let (row', at', same) = end_at-inv cfg1 i x (r q) named in
                let (e, f) = ok.distinct i x p q row' r (omega arith) q_lt at' at same in
                same2 ∙ now ∙ ground (arith, e)
            | inr (not1, same1) ↦
                let not_p : i ≢ p = λ e. not1 (
                  q,
                  omega arith,
                  omega arith,
                  end_at-some cfg1 i q r (subst (λ x. cfg.endnames x ≡ some r) (sym e) at),
                ) in
                let not_q : i ≢ q = λ e. not2 (
                  p,
                  omega arith,
                  omega arith,
                  end_at-some cfg1 p i r at ∙ ap (λ x. some (r x)) e,
                ) in
                same2 ∙ same1 ∙ ok.linked p q r p_lt q_lt at ∙ ground (arith, not_p, not_q)
          ]
        ];
        hosts = λ q. rw (s2.servers, s1.servers) (ok.hosts q);
      }
