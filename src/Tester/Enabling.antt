-- ===== src/Tester/Enabling.antt =====
-- src/raft/config.go: which ends the loops of `connect` and `disconnect` enable and disable, and which
-- ends `start1` makes.
use mathlib.Core.Path.{subst}
use mit6824_distribute_syste.Prelude.{
  ℕ, zero, suc, ◌+◌, ◌≤◌, ◌<◌, ◌≡◌, refl, sym, ◌∙◌, ◌⊎◌, inl, inr, Bool, true, false, if◌then◌else◌,
  Option, none, some, arith, Bool-cases, ap, ℕ_discrete,
}
use mit6824_distribute_syste.Prelude.Text.{Text, text_eq, text_eq_iff}
use mit6824_distribute_syste.Prelude.Maps.{lookup-put}
use mit6824_distribute_syste.Labrpc.Network.{Network, at_key, enable}
use mit6824_distribute_syste.Tester.Config.{
  Config, connect_out, connect_in, disconnect_out, disconnect_in,
}

-- Whether an end is enabled.
abbrev pub live : Text → Network → Bool
live e net = at_key false e net.enabled

-- Only `enabled` has changed: the ends that meet `P` are as `b` says, and the others as before.
pub record Sets (b : Bool) (P : Text → Type 0) (net net' : Network) : Type 0 where
  pub each : (e : Text) → (P e × (live e net' ≡ b)) ⊎ ((¬ P e) × (live e net' ≡ live e net))
  pub ends : net'.ends ≡ net.ends
  pub connections : net'.connections ≡ net.connections
  pub servers : net'.servers ≡ net.servers

Sets-enable : (b : Bool) (e : Text) (net : Network) → Sets b (λ a. e ≡ a) net (enable e b net)
unfolding enable
Sets-enable b e net = record {
  each = λ a. elim (Bool-cases (text_eq e a)) [
    | inl same ↦ inl ((text_eq_iff e a).0 same, ground (arith, lookup-put e a b net.enabled, same))
    | inr other ↦ inr (
      (λ h. ground (arith, (text_eq_iff e a).1 h, other)),
      ground (arith, lookup-put e a b net.enabled, other),
    )
  ];
  ends = refl;
  connections = refl;
  servers = refl;
}

Sets-none : (b : Bool) (P : Text → Type 0) (net : Network) → ((e : Text) → ¬ P e) → Sets b P net net
Sets-none b P net h = record {
  each = λ e. inr (h e, refl);
  ends = refl;
  connections = refl;
  servers = refl;
}

-- What a loop names, from index `j` on.
abbrev pub Named : (ℕ → Option Text) → ℕ → ℕ → Text → Type 0
Named name j left e = (q : ℕ) × (j ≤ q) × (q < j + left) × (name q ≡ some e)

Named-first :
    (name : ℕ → Option Text) (j left : ℕ) (e : Text)
    → Named name j (suc left) e
    → (name j ≡ some e) ⊎ Named name (j + 1) left e
Named-first name j left e (q, le, lt, at) = elim (ℕ_discrete j q) [
  | yes same ↦ inl (subst (λ x. name x ≡ some e) (sym same) at)
  | no ne ↦ inr (q, omega arith, omega arith, at)
]

-- One round of such a loop, and the rest.
Sets-round :
    (b : Bool) (name : ℕ → Option Text) (j left : ℕ) {net net1 net2 : Network}
    → Sets b (λ e. name j ≡ some e) net net1
    → Sets b (Named name (j + 1) left) net1 net2
    → Sets b (Named name j (suc left)) net net2
Sets-round b name j left s t = record {
  each = λ e. elim (t.each e) [
    | inl ((q, le, lt, at), now) ↦ inl ((q, omega arith, omega arith, at), now)
    | inr (not_q, same) ↦ elim (s.each e) [
      | inl (at, now) ↦ inl ((j, omega arith, omega arith, at), same ∙ now)
      | inr (not_p, old) ↦ inr (
        (λ in_r. elim (Named-first name j left e in_r) [ inl h ↦ not_p h | inr h ↦ not_q h ]),
        same ∙ old,
      )
    ]
  ];
  ends = t.ends ∙ s.ends;
  connections = t.connections ∙ s.connections;
  servers = t.servers ∙ s.servers;
}

Sets-over :
    (b : Bool) (name : ℕ → Option Text) (j : ℕ) (net : Network) → Sets b (Named name j 0) net net
Sets-over b name j net = Sets-none b (Named name j 0) net (λ e (q, le, lt, at). omega arith)

abbrev set_named : Bool → Option Text → Network → Network
set_named b none net = net
set_named b (some e) net = enable e b net

Sets-option :
    (b : Bool) (o : Option Text) (net : Network) → Sets b (λ e. o ≡ some e) net (set_named b o net)
Sets-option b none net = Sets-none b _ net (λ e h. cc)
Sets-option b (some e) net =
    let s = Sets-enable b e net in
    record {
      each = λ a. elim (s.each a) [
        | inl (same, now) ↦ inl (ap some same, now)
        | inr (ne, old) ↦ inr ((λ h. ne (ground (arith, h))), old)
      ];
      ends = s.ends;
      connections = s.connections;
      servers = s.servers;
    }

disabled :
    (row : Option (ℕ → Text)) (q : ℕ) (net : Network)
    → set_named false (elim row [ none ↦ none | some names ↦ some (names q) ]) net
      ≡ (elim row [ none ↦ net | some names ↦ enable (names q) false net ])
disabled none q net = refl
disabled (some names) q net = refl

module _ {C : Type 0} (cfg : Config C) where
  -- `cfg.endnames[p][q]`
  abbrev pub end_at : ℕ → ℕ → Option Text
  end_at p q = elim (cfg.endnames p) [ none ↦ none | some row ↦ some (row q) ]

  -- The ends from server `i` and those to it, to and from the servers that are `on`.
  abbrev pub outgoing : (ℕ → Bool) → ℕ → ℕ → Option Text
  outgoing on i q = if on q then end_at i q else none

  abbrev pub incoming : (ℕ → Bool) → ℕ → ℕ → Option Text
  incoming on i q = if on q then end_at q i else none

  pub connect_out-Sets :
      (i j left : ℕ) (net : Network)
      → ((q : ℕ) → cfg.connected q ≡ true → (row : ℕ → Text) × (cfg.endnames i ≡ some row))
      → (net' : Network) × (connect_out cfg i j left net ≡ some net')
        × Sets true (Named (outgoing cfg.connected i) j left) net net'
  unfolding connect_out
  connect_out-Sets i j zero net there = (net, refl, Sets-over true (outgoing cfg.connected i) j net)
  connect_out-Sets i j (suc left) net there =
      let name = outgoing cfg.connected i in
      let next = set_named true (name j) net in
      let (net', done, s) = connect_out-Sets i (j + 1) left next there in
      (
        net',
        elim (Bool-cases (cfg.connected j)) [
          | inl on ↦ let (row, at) = there j on in ground (arith, on, at, done)
          | inr off ↦ ground (arith, off, done)
        ],
        Sets-round true name j left (Sets-option true (name j) net) s,
      )

  pub connect_in-Sets :
      (i j left : ℕ) (net : Network)
      → ((q : ℕ) → cfg.connected q ≡ true → (row : ℕ → Text) × (cfg.endnames q ≡ some row))
      → (net' : Network) × (connect_in cfg i j left net ≡ some net')
        × Sets true (Named (incoming cfg.connected i) j left) net net'
  unfolding connect_in
  connect_in-Sets i j zero net there = (net, refl, Sets-over true (incoming cfg.connected i) j net)
  connect_in-Sets i j (suc left) net there =
      let name = incoming cfg.connected i in
      let next = set_named true (name j) net in
      let (net', done, s) = connect_in-Sets i (j + 1) left next there in
      (
        net',
        elim (Bool-cases (cfg.connected j)) [
          | inl on ↦ let (row, at) = there j on in ground (arith, on, at, done)
          | inr off ↦ ground (arith, off, done)
        ],
        Sets-round true name j left (Sets-option true (name j) net) s,
      )

  pub disconnect_out-Sets :
      (i j left : ℕ) (net : Network)
      → Sets false (Named (λ q. end_at i q) j left) net (disconnect_out cfg i j left net)
  unfolding disconnect_out
  disconnect_out-Sets i j zero net = Sets-over false (λ q. end_at i q) j net
  disconnect_out-Sets i j (suc left) net =
      let name = λ (q : ℕ). end_at i q in
      Sets-round false name j left (Sets-option false (name j) net) (
        subst
          (λ x.
            Sets false (Named name (j + 1) left) (set_named false (name j) net)
              (disconnect_out cfg i (j + 1) left x))
          (disabled (cfg.endnames i) j net)
          (disconnect_out-Sets i (j + 1) left (set_named false (name j) net)))

  pub disconnect_in-Sets :
      (i j left : ℕ) (net : Network)
      → Sets false (Named (λ q. end_at q i) j left) net (disconnect_in cfg i j left net)
  unfolding disconnect_in
  disconnect_in-Sets i j zero net = Sets-over false (λ q. end_at q i) j net
  disconnect_in-Sets i j (suc left) net =
      let name = λ (q : ℕ). end_at q i in
      Sets-round false name j left (Sets-option false (name j) net) (
        subst
          (λ x.
            Sets false (Named name (j + 1) left) (set_named false (name j) net)
              (disconnect_in cfg i (j + 1) left x))
          (disabled (cfg.endnames j) i net)
          (disconnect_in-Sets i (j + 1) left (set_named false (name j) net)))
