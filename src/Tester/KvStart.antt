-- ===== src/Tester/KvStart.antt =====
-- src/kvraft/config.go: the network when `make_config` returns.
use mathlib.Core.Path.{subst}
use mit6824_distribute_syste.Prelude.{
  ℕ, zero, suc, ◌+◌, ◌≤◌, ◌<◌, ◌≡◌, refl, sym, ap, ◌∙◌, Bool, true, not, ◌&&◌, ◌||◌, none, some,
  ltb, leb, if◌then◌else◌, arith, Option-cases, inl, inr, ℕ_discrete,
}
use mit6824_distribute_syste.Prelude.Text.{Text, itoa}
use mit6824_distribute_syste.Prelude.Families.{update}
use mit6824_distribute_syste.Labrpc.Network.{Network, add_server, set_reliable}
use mit6824_distribute_syste.Raft.Persister.{Persister, make_persister, copy}
use mit6824_distribute_syste.Raft.Peer.{Gob}
use mit6824_distribute_syste.Raft.Roles.{make}
use mit6824_distribute_syste.Tester.Config.{make_ends}
use mit6824_distribute_syste.Tester.Enabling.{live}
use mit6824_distribute_syste.Tester.Ends.{make_ends-Made}
use mit6824_distribute_syste.Tester.Restarts.{same_some}
use mit6824_distribute_syste.Tester.Rows.{Rows, Made-Rows}
use mit6824_distribute_syste.Tester.Partition.{connect_unlocked}
use mit6824_distribute_syste.Tester.Sides.{member, AllBelow, Started, connect_unlocked_lem}
use mit6824_distribute_syste.Tester.KvConfig.{
  KvConfig, all_from, connect_all, start_server, start_all, empty_config, make_config,
}

-- The servers before `i` have been started.
record KvRows {C : Type 0} (i : ℕ) (cfg : KvConfig C) : Type 0 where
  pub rows : (p : ℕ) → p < i → (row : ℕ → Text) × (cfg.endnames p ≡ some row)
  pub ends : Rows cfg.n cfg.endnames cfg.net

module _ {C : Type 0} (gob : Gob C) where
  start_server-KvRows :
      (i : ℕ) (names : ℕ → Text) (srv : ℕ) (cfg cfg' : KvConfig C)
      → KvRows i cfg
      → start_server gob i names srv cfg ≡ some cfg'
      → KvRows (suc i) cfg' × (cfg'.n ≡ cfg.n)
  unfolding start_server add_server
  start_server-KvRows i names srv cfg cfg' w h =
      elim (Option-cases (make_ends names 0 cfg.n cfg.net)) [
        | inl out ↦ absurd (ground (arith, out, h))
        | inr (net, made) ↦
            let m = make_ends-Made names 0 cfg.n cfg.net net made in
            let r = Made-Rows i names w.ends m in
            let ps : Persister = elim (cfg.saved i) [
              | none ↦ make_persister
              | some old ↦ copy old
            ] in
            let done : KvConfig C = record cfg {
              endnames = update cfg.endnames i (some names);
              net = add_server (itoa i) srv net;
              saved = update cfg.saved i (some ps);
              kvservers = update cfg.kvservers i (some (make gob cfg.n i ps));
            } in
            let same : done ≡ cfg' = same_some (rw made refl) h in
            subst (λ c. KvRows (suc i) c × (c.n ≡ cfg.n)) same
              (
                record {
                  rows = λ p lt. elim (ℕ_discrete i p) [
                    | yes e ↦ (names, ground (arith, e))
                    | no ne ↦ let (r, at) = w.rows p (omega arith) in (r, ground (arith, ne, at))
                  ];
                  ends = record { known = r.known; distinct = r.distinct };
                },
                refl,
              )
      ]

  start_all-KvRows :
      (names : ℕ → ℕ → Text) (addresses : ℕ → ℕ) (i left : ℕ) (cfg cfg' : KvConfig C)
      → KvRows i cfg
      → start_all gob names addresses i left cfg ≡ some cfg'
      → KvRows (i + left) cfg' × (cfg'.n ≡ cfg.n)
  unfolding start_all
  start_all-KvRows names addresses i zero cfg cfg' w h =
      let same : cfg ≡ cfg' = ground (arith, h) in
      subst (λ c. KvRows (i + 0) c × (c.n ≡ cfg.n)) same
        (subst (λ x. KvRows x cfg) (omega arith) w, refl)
  start_all-KvRows names addresses i (suc left) cfg cfg' w h =
      elim (Option-cases (start_server gob i (names i) (addresses i) cfg)) [
        | inl out ↦ absurd (ground (arith, out, h))
        | inr (next, started) ↦
            let (w', same) = start_server-KvRows i (names i) (addresses i) cfg next w started in
            let rest : start_all gob names addresses (i + 1) left next ≡ some cfg' =
              ground (arith, started, h) in
            let (w'', same') =
              start_all-KvRows names addresses (i + 1) left next cfg'
                (subst (λ x. KvRows x next) (omega arith) w') rest in
            (subst (λ x. KvRows x cfg') (omega arith) w'', same' ∙ same)
      ]

  empty_config-KvRows : (n : ℕ) → KvRows 0 (empty_config {C = C} n)
  unfolding empty_config
  empty_config-KvRows n = record {
    rows = λ p lt. absurd (omega arith);
    ends = record {
      known = λ p q r q_lt at. absurd (cc);
      distinct = λ p q p' q' r r' q_lt q_lt' at at' same. absurd (cc);
    };
  }

empty_n : (C : Type 0) (n : ℕ) → (empty_config {C = C} n).n ≡ n
unfolding empty_config
empty_n C n = refl

member-all_from : (q i left : ℕ) → member q (all_from i left) ≡ (leb i q && ltb q (i + left))
unfolding all_from
member-all_from q i zero = ground arith
member-all_from q i (suc left) = ground (arith, member-all_from q (i + 1) left)

all_from-AllBelow : (i left n : ℕ) → i + left ≤ n → AllBelow n (all_from i left)
unfolding all_from
all_from-AllBelow i zero n h = tt
all_from-AllBelow i (suc left) n h = (omega arith, all_from-AllBelow (i + 1) left n (omega arith))

-- `ConnectAll` enables the end of p for q, once it has come to either.
connect_all_lem :
    {C : Type 0} (cfg : KvConfig C) (started : Started cfg.n cfg.endnames) (p q : ℕ)
    (row : ℕ → Text) (i left : ℕ)
    → p < cfg.n
    → q < cfg.n
    → cfg.endnames p ≡ some row
    → i + left ≤ cfg.n
    → (net : Network) × (connect_all i left cfg ≡ some (record cfg { net = net }))
      × (live (row q) net ≡ (
          if leb i p && ltb p (i + left) || leb i q && ltb q (i + left)
          then true
          else live (row q) cfg.net))
unfolding connect_all
connect_all_lem cfg started p q row i zero p_lt q_lt at fits = (cfg.net, refl, ground arith)
connect_all_lem {C} cfg started p q row i (suc left) p_lt q_lt at fits =
    let all = all_from 0 cfg.n in
    let (net1, done, now) =
      connect_unlocked_lem started p q row p_lt q_lt at i all cfg.net (omega arith)
        (all_from-AllBelow 0 cfg.n cfg.n (omega arith)) in
    let next : KvConfig C = record cfg { net = net1 } in
    let (net, done', after) =
      connect_all_lem next started p q row (i + 1) left p_lt q_lt at (omega arith) in
    (
      net,
      rw (done, connect_all) done',
      after ∙ ground (arith, now, member-all_from q 0 cfg.n, member-all_from p 0 cfg.n),
    )

in_range :
    (p q n : ℕ)
    → p < n
    → (old : Bool)
    → (if leb 0 p && ltb p (0 + n) || leb 0 q && ltb q (0 + n) then true else old) ≡ true
in_range p q n lt old = ground arith

connect_all_keeps :
    {C : Type 0} (i left : ℕ) (cfg cfg' : KvConfig C)
    → connect_all i left cfg ≡ some cfg'
    → (cfg'.n ≡ cfg.n) × (cfg'.endnames ≡ cfg.endnames)
unfolding connect_all
connect_all_keeps i zero cfg cfg' h =
    let same : cfg ≡ cfg' = ground (arith, h) in
    subst (λ c. (c.n ≡ cfg.n) × (c.endnames ≡ cfg.endnames)) same (refl, refl)
connect_all_keeps i (suc left) cfg cfg' h =
    elim (Option-cases (connect_unlocked cfg.endnames i (all_from 0 cfg.n) cfg.net)) [
      | inl out ↦ absurd (ground (arith, out, h))
      | inr (net, done) ↦
          connect_all_keeps (i + 1) left (record cfg { net = net }) cfg' (ground (arith, done, h))
    ]

-- All servers have been started, their ends differ, and all are enabled.
abbrev pub Complete : {C : Type 0} → ℕ → KvConfig C → Type 0
Complete n cfg =
    (cfg.n ≡ n)
    × Started cfg.n cfg.endnames
    × ((p q : ℕ) (row : ℕ → Text)
        → p < cfg.n
        → q < cfg.n
        → cfg.endnames p ≡ some row
        → live (row q) cfg.net ≡ true)

-- `ConnectAll` after the loop of `make_config`.
connected-Complete :
    {C : Type 0} (n : ℕ) (cfg1 cfg2 : KvConfig C)
    → KvRows n cfg1
    → cfg1.n ≡ n
    → connect_all 0 n cfg1 ≡ some cfg2
    → Complete n cfg2
connected-Complete n cfg1 cfg2 w same_n connected =
    let (k_n, k_ends) = connect_all_keeps 0 n cfg1 cfg2 connected in
    let started : Started cfg1.n cfg1.endnames = record {
      rows = λ p lt. w.rows p (omega (arith, same_n));
      distinct = λ p q p' q' r r' p_lt q_lt p_lt' q_lt'. w.ends.distinct p q p' q' r r' q_lt q_lt';
    } in
    (
      k_n ∙ same_n,
      subst (λ x. Started x cfg2.endnames) (sym k_n)
          (subst (λ f. Started cfg1.n f) (sym k_ends) started),
      (λ p q row p_lt q_lt at.
          let (net, done, after) =
            connect_all_lem cfg1 started p q row 0 n (omega (arith, k_n)) (omega (arith, k_n))
              (sym (ap (λ f. f p) k_ends) ∙ at) (omega (arith, same_n)) in
          let same : record cfg1 { net = net } ≡ cfg2 = same_some done connected in
          subst (λ c. live (row q) c.net ≡ true) same
            (after ∙ in_range p q n (omega (arith, k_n, same_n)) (live (row q) cfg1.net))),
    )

-- When `make_config` returns, all servers have been started, their ends differ, and all are enabled.
pub make_config_lem :
    {C : Type 0} (gob : Gob C) (names : ℕ → ℕ → Text) (addresses : ℕ → ℕ) (n : ℕ)
    (unreliable : Bool) (cfg : KvConfig C)
    → make_config gob names addresses n unreliable ≡ some cfg
    → Complete n cfg
unfolding make_config set_reliable
make_config_lem {C} gob names addresses n unreliable cfg h =
    elim (Option-cases (start_all gob names addresses 0 n (empty_config {C = C} n))) [
      | inl out ↦ absurd (ground (arith, out, h))
      | inr (cfg1, up) ↦ elim (Option-cases (connect_all 0 n cfg1)) [
        | inl out ↦ absurd (ground (arith, up, out, h))
        | inr (cfg2, connected) ↦
            let (w, same_n) =
              start_all-KvRows gob names addresses 0 n (empty_config n) cfg1
                (empty_config-KvRows gob n) up in
            let same : record cfg2 { net = set_reliable (not unreliable) cfg2.net } ≡ cfg =
              same_some (rw (up, connected) refl) h in
            subst (Complete n) same (
              connected-Complete n cfg1 cfg2 (subst (λ x. KvRows x cfg1) (omega arith) w)
                (same_n ∙ empty_n C n) connected)
      ]
    ]
