-- ===== src/Shards/Asking.antt =====
-- src/shardkv/client.go: whom a clerk asks, and whose answer it takes.
use mit6824_distribute_syste.Prelude.{
  ℕ, zero, suc, ◌+◌, ◌<◌, ◌≤◌, ◌≡◌, refl, ◌⊎◌, inl, inr, Option, none, some, List, length, arith,
  Option-cases, Bool-cases, ltb,
}
use mathlib.Core.Path.{subst}
use mit6824_distribute_syste.Prelude.Text.{Text}
use mit6824_distribute_syste.Shards.Master.{Config}
use mit6824_distribute_syste.Shards.Client.{
  servers_for, Verdict, return, wrong_group, go_on, try_group, ask,
}

-- The configuration that a clerk has in a round.
unfoldable pub config_at : (ℕ → Config) → Config → ℕ → Config
config_at latest config zero = config
config_at latest config (suc k) = latest k

Verdict-cases :
    {A : Type 0} (v : Verdict A) → ((a : A) × (v ≡ return a)) ⊎ (v ≡ wrong_group) ⊎ (v ≡ go_on)
Verdict-cases (return a) = inl (a, refl)
Verdict-cases wrong_group = inr (inl refl)
Verdict-cases go_on = inr (inr refl)

module _ {A : Type 0} (key : Text) (verdicts : ℕ → ℕ → Verdict A) (latest : ℕ → Config) where
  -- A server of the key's group, by the configuration of the round, returned the answer.
  pub record Answered (config : Config) (q : ℕ) (a : A) : Type 0 where
    pub servers : List Text
    pub group : servers_for config key ≡ some servers
    pub si : ℕ
    pub in_group : si < length servers
    pub verdict : verdicts q si ≡ return a
    pub skipped : (j : ℕ) → j < si → verdicts q j ≡ go_on

  try_group-some :
      (k si left : ℕ) {a : A}
      → try_group (verdicts k) si left ≡ some a
      → (p : ℕ) × (p < si + left)
        × (verdicts k p ≡ return a)
        × ((j : ℕ) → si ≤ j → j < p → verdicts k j ≡ go_on)
  unfolding try_group
  try_group-some k si zero e = absurd (cc)
  try_group-some k si (suc left) {a} e = elim (Verdict-cases (verdicts k si)) [
    | inl (b, now) ↦ (si, omega arith, ground arith, λ j l h. absurd (omega arith))
    | inr (inl broken) ↦ absurd (ground arith)
    | inr (inr on) ↦
        let e1 : try_group (verdicts k) (si + 1) left ≡ some a = ground arith in
        let (p, h, at, before) = try_group-some k (si + 1) left e1 in
        (p, omega arith, at, λ j l lt. ground (arith, before j))
  ]

  try_group_returns :
      (k si left p : ℕ) (a : A)
      → si ≤ p
      → p < si + left
      → verdicts k p ≡ return a
      → ((j : ℕ) → si ≤ j → j < p → verdicts k j ≡ go_on)
      → try_group (verdicts k) si left ≡ some a
  unfolding try_group
  try_group_returns k si zero p a l h at before = absurd (omega arith)
  try_group_returns k si (suc left) p a l h at before = elim (Verdict-cases (verdicts k si)) [
    | inl (b, now) ↦ ground (arith, before si)
    | inr (inl broken) ↦ absurd (ground (arith, before si))
    | inr (inr on) ↦ ground (arith, try_group_returns k (si + 1) left p a, before)
  ]

  group-Answered :
      (config : Config) (k : ℕ) (servers : List Text) (b : A)
      → servers_for config key ≡ some servers
      → try_group (verdicts k) 0 (length servers) ≡ some b
      → Answered config k b
  group-Answered config k servers b group now =
      let (p, h, at, before) = try_group-some k 0 (length servers) now in
      record {
        servers = servers;
        group = group;
        si = p;
        in_group = omega arith;
        verdict = at;
        skipped = λ j lt. before j (omega arith) lt;
      }

  ask_round :
      (config : Config) (k fuel : ℕ) (b : A)
      → ask key verdicts latest config k (suc fuel) ≡ some b
      → Answered config k b ⊎ (ask key verdicts latest (latest k) (k + 1) fuel ≡ some b)
  unfolding ask
  ask_round config k fuel b e = elim (Option-cases (servers_for config key)) [
    | inl nobody ↦ inr (ground arith)
    | inr (servers, group) ↦ elim (Option-cases (try_group (verdicts k) 0 (length servers))) [
      | inl unanswered ↦ inr (ground arith)
      | inr (c, now) ↦ inl (group-Answered config k servers b group (ground arith))
    ]
  ]

  answers_round :
      (config : Config) (k : ℕ) (a : A)
      → Answered config k a
      → (servers : List Text) × (servers_for config key ≡ some servers)
        × (try_group (verdicts k) 0 (length servers) ≡ some a)
  answers_round config k a by = (
    by.servers,
    by.group,
    try_group_returns k 0 (length by.servers) by.si a (omega arith) (omega (arith, by.in_group))
        by.verdict (λ j lj lt. by.skipped j lt),
  )

  unanswered-lt :
      (config : Config) (k r : ℕ) (a : A)
      → k ≤ r
      → Answered (config_at latest config r) r a
      → ((servers : List Text)
          → servers_for (config_at latest config k) key ≡ some servers
          → try_group (verdicts k) 0 (length servers) ≡ none)
      → k < r
  unanswered-lt config k r a l good failed = elim (Bool-cases (ltb k r)) [
    | inl less ↦ ground arith
    | inr over ↦
        let same : r ≡ k = ground arith in
        let here = subst (λ m. Answered (config_at latest config m) m a) same good in
        let (servers, group, won) = answers_round (config_at latest config k) k a here in
        absurd (ground (arith, won, failed servers group))
  ]

  -- The loop ends by round `r`, with the answer of a server that it should ask.
  abbrev pub Ends : Config → ℕ → Option A → Type 0
  Ends config r result =
      (q : ℕ) × (b : A) × (q ≤ r) × (result ≡ some b) × Answered (config_at latest config q) q b

  pub ask_lem :
      (config : Config) (k r fuel : ℕ) (a : A)
      → k ≤ r
      → r < k + fuel
      → Answered (config_at latest config r) r a
      → Ends config r (ask key verdicts latest (config_at latest config k) k fuel)
  unfolding ask config_at
  ask_lem config k r zero a l h good = absurd (omega arith)
  ask_lem config k r (suc fuel) a l h good =
      let c = config_at latest config k in
      let later : k < r → Ends config r (ask key verdicts latest (latest k) (k + 1) fuel) = λ lt.
        let plus : k + 1 ≡ suc k = omega arith in
        rw plus (ask_lem config (suc k) r fuel a (omega arith) (omega arith) good) in
      elim (Option-cases (servers_for c key)) [
        | inl nobody ↦
            rw (nobody, ask)
              (later (unanswered-lt config k r a l good (λ ss e. absurd (ground arith))))
        | inr (servers, group) ↦ elim (Option-cases (try_group (verdicts k) 0 (length servers))) [
          | inr (b, now) ↦ (k, b, l, ground arith, group-Answered c k servers b group now)
          | inl unanswered ↦
              rw (group, unanswered, ask)
                (later (unanswered-lt config k r a l good (λ ss e. ground arith)))
        ]
      ]
