-- ===== src/Shards/Served.antt =====
-- src/shardkv/client.go: what `Get` returns, by the replies themselves.
use mit6824_distribute_syste.Prelude.{
  ℕ, ◌<◌, ◌≤◌, ◌≡◌, ◌≢◌, refl, ◌⊎◌, inl, inr, Option, none, some, List, length, true, false, arith,
}
use mit6824_distribute_syste.Prelude.Text.{Text}
use mit6824_distribute_syste.Shards.Master.{Config}
use mit6824_distribute_syste.Shards.Client.{
  Err, unset, ok, err_no_key, err_wrong_group, GetReply, return, go_on, get_verdict, get,
}
use mit6824_distribute_syste.Shards.Asking.{Answered, config_at, ask_lem}
use mit6824_distribute_syste.Shards.Groups.{ServedBy, servers_for-ServedBy, ServedBy-servers_for}

-- The call succeeds, and the server says that it leads and gives the value, or that there is no such
-- key; the value then is the reply's.
pub record GivesValue (call : Option GetReply) (value : Text) : Type 0 where
  pub reply : GetReply
  pub came : call ≡ some reply
  pub leads : reply.wrong_leader ≡ false
  pub known : (reply.err ≡ ok) ⊎ (reply.err ≡ err_no_key)
  pub same : value ≡ reply.value

-- The call fails, or the server does not say that it is of another group and does not lead or fills in
-- no result.
abbrev pub Passes : Option GetReply → Type 0
Passes none = Unit {0}
Passes (some reply) =
    (reply.err ≢ err_wrong_group) × ((reply.wrong_leader ≡ true) ⊎ (reply.err ≡ unset))

pub Err-cases : (e : Err) → (e ≡ unset) ⊎ (e ≡ ok) ⊎ (e ≡ err_no_key) ⊎ (e ≡ err_wrong_group)
Err-cases unset = inl refl
Err-cases ok = inr (inl refl)
Err-cases err_no_key = inr (inr (inl refl))
Err-cases err_wrong_group = inr (inr (inr refl))

get_verdict-GivesValue :
    (call : Option GetReply) (value : Text)
    → get_verdict call ≡ return value
    → GivesValue call value
unfolding get_verdict
get_verdict-GivesValue none value h = absurd (cc)
get_verdict-GivesValue (some r) value h = elim (Err-cases r.err) [
  | inl e ↦ absurd (ground (arith, e, h))
  | inr (inl e) ↦ record {
    reply = r;
    came = refl;
    leads = ground (arith, e, h);
    known = inl e;
    same = ground (arith, e, h);
  }
  | inr (inr (inl e)) ↦ record {
    reply = r;
    came = refl;
    leads = ground (arith, e, h);
    known = inr e;
    same = ground (arith, e, h);
  }
  | inr (inr (inr e)) ↦ absurd (ground (arith, e, h))
]

GivesValue-get_verdict :
    (call : Option GetReply) (value : Text)
    → GivesValue call value
    → get_verdict call ≡ return value
unfolding get_verdict
GivesValue-get_verdict call value g = elim g.known [
  | inl e ↦ rw (g.came, e, g.leads, g.same) refl
  | inr e ↦ rw (g.came, e, g.leads, g.same) refl
]

get_verdict-Passes : (call : Option GetReply) → get_verdict call ≡ go_on → Passes call
unfolding get_verdict
get_verdict-Passes none h = tt
get_verdict-Passes (some r) h = elim (Err-cases r.err) [
  | inl e ↦ (ground (arith, e, h), inr e)
  | inr (inl e) ↦ (ground (arith, e, h), inl (ground (arith, e, h)))
  | inr (inr (inl e)) ↦ (ground (arith, e, h), inl (ground (arith, e, h)))
  | inr (inr (inr e)) ↦ absurd (ground (arith, e, h))
]

Passes-get_verdict : (call : Option GetReply) → Passes call → get_verdict call ≡ go_on
unfolding get_verdict
Passes-get_verdict none p = refl
Passes-get_verdict (some r) p = elim p.1 [
  | inr e ↦ rw e refl
  | inl follows ↦ elim (Err-cases r.err) [
    | inl e ↦ rw e refl
    | inr (inl e) ↦ rw (e, follows) refl
    | inr (inr (inl e)) ↦ rw (e, follows) refl
    | inr (inr (inr e)) ↦ absurd (p.0 e)
  ]
]

module _ (call : ℕ → ℕ → Option GetReply) (key : Text) where
  -- In a round a server of the key's group, by the configuration, gives the value, and those before it
  -- in the group pass.
  pub record GetAnswered (config : Config) (q : ℕ) (value : Text) : Type 0 where
    pub servers : List Text
    pub group : ServedBy config key servers
    pub si : ℕ
    pub in_group : si < length servers
    pub gives : GivesValue (call q si) value
    pub skipped : (j : ℕ) → j < si → Passes (call q j)

  from_verdicts :
      (config : Config) (q : ℕ) (value : Text) (latest : ℕ → Config)
      → Answered key (λ k si. get_verdict (call k si)) latest config q value
      → GetAnswered config q value
  from_verdicts config q value latest a = record {
    servers = a.servers;
    group = servers_for-ServedBy config key a.servers a.group;
    si = a.si;
    in_group = a.in_group;
    gives = get_verdict-GivesValue (call q a.si) value a.verdict;
    skipped = λ j lt. get_verdict-Passes (call q j) (a.skipped j lt);
  }

  to_verdicts :
      (config : Config) (q : ℕ) (value : Text) (latest : ℕ → Config)
      → GetAnswered config q value
      → Answered key (λ k si. get_verdict (call k si)) latest config q value
  to_verdicts config q value latest a = record {
    servers = a.servers;
    group = ServedBy-servers_for config key a.servers a.group;
    si = a.si;
    in_group = a.in_group;
    verdict = GivesValue-get_verdict (call q a.si) value a.gives;
    skipped = λ j lt. Passes-get_verdict (call q j) (a.skipped j lt);
  }

  -- `Get` returns a value that a server gave in a round up to `r`.
  abbrev pub GetEnds : (ℕ → Config) → Config → ℕ → Option Text → Type 0
  GetEnds latest config r result =
      (q : ℕ) × (value : Text) × (q ≤ r)
      × (result ≡ some value)
      × GetAnswered (config_at latest config q) q value

  -- Let in round `r`, by the configuration that the clerk has then, a server of the group of the
  -- key's shard (its first byte modulo 10) lead and answer with OK or that there is no such key,
  -- and let each server before it in the group fail, or not lead or fill in no result, without
  -- naming another group. Then `Get`, given more than `r` rounds, returns by round `r`, and its
  -- value comes from such a server of the key's group by the configuration of the round in which
  -- that server answers.
  pub get_lem :
      (fuel : ℕ) (latest : ℕ → Config) (config : Config) (r : ℕ) (value : Text)
      → r < fuel
      → GetAnswered (config_at latest config r) r value
      → GetEnds latest config r (get fuel call latest config key)
  unfolding get config_at
  get_lem fuel latest config r value lt good =
      let good' = to_verdicts (config_at latest config r) r value latest good in
      let (q, b, le, returned, by) =
        ask_lem key (λ k si. get_verdict (call k si)) latest config 0 r fuel value (omega arith)
          (omega arith) good' in
      (q, b, le, returned, from_verdicts (config_at latest config q) q b latest by)
