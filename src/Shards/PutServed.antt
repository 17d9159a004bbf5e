-- ===== src/Shards/PutServed.antt =====
-- src/shardkv/client.go: what `PutAppend` waits for, by the replies themselves.
use mit6824_distribute_syste.Prelude.{
  ℕ, ◌<◌, ◌≤◌, ◌≡◌, ◌≢◌, refl, ap, sym, ◌∙◌, ◌⊎◌, inl, inr, Option, none, some, List, length, true,
  false, arith,
}
use mit6824_distribute_syste.Prelude.Text.{Text}
use mit6824_distribute_syste.Shards.Master.{Config}
use mit6824_distribute_syste.Shards.Client.{
  ok, err_wrong_group, PutAppendReply, return, go_on, put_verdict, put_append,
}
use mit6824_distribute_syste.Shards.Asking.{Answered, config_at, ask_lem}
use mit6824_distribute_syste.Shards.Groups.{ServedBy, servers_for-ServedBy, ServedBy-servers_for}
use mit6824_distribute_syste.Shards.Served.{Err-cases}

-- The call succeeds, and the server says that it leads and has done the operation.
pub record Accepts (call : Option PutAppendReply) (reply : PutAppendReply) : Type 0 where
  pub came : call ≡ some reply
  pub leads : reply.wrong_leader ≡ false
  pub done : reply.err ≡ ok

-- The call fails, or the server does not say that it is of another group and does not lead or has not
-- done the operation.
abbrev pub PassesPut : Option PutAppendReply → Type 0
PassesPut none = Unit {0}
PassesPut (some reply) =
    (reply.err ≢ err_wrong_group) × ((reply.wrong_leader ≡ true) ⊎ (reply.err ≢ ok))

put_verdict-Accepts :
    (call : Option PutAppendReply) (reply : PutAppendReply)
    → put_verdict call ≡ return reply
    → Accepts call reply
unfolding put_verdict
put_verdict-Accepts none reply h = absurd (cc)
put_verdict-Accepts (some r) reply h = elim (Err-cases r.err) [
  | inl e ↦ absurd (ground (arith, e, h))
  | inr (inl e) ↦
      let same : r ≡ reply = ground (arith, e, h) in
      let leads : r.wrong_leader ≡ false = ground (arith, e, h) in
      record {
        came = ap some same;
        leads = ap (λ x. x.wrong_leader) (sym same) ∙ leads;
        done = ap (λ x. x.err) (sym same) ∙ e;
      }
  | inr (inr (inl e)) ↦ absurd (ground (arith, e, h))
  | inr (inr (inr e)) ↦ absurd (ground (arith, e, h))
]

Accepts-put_verdict :
    (call : Option PutAppendReply) (reply : PutAppendReply)
    → Accepts call reply
    → put_verdict call ≡ return reply
unfolding put_verdict
Accepts-put_verdict call reply a = simp (a.came, a.done, a.leads)

put_verdict-PassesPut : (call : Option PutAppendReply) → put_verdict call ≡ go_on → PassesPut call
unfolding put_verdict
put_verdict-PassesPut none h = tt
put_verdict-PassesPut (some r) h = elim (Err-cases r.err) [
  | inl e ↦ (ground (arith, e, h), inr (ground (arith, e, h)))
  | inr (inl e) ↦ (ground (arith, e, h), inl (ground (arith, e, h)))
  | inr (inr (inl e)) ↦ (ground (arith, e, h), inr (ground (arith, e, h)))
  | inr (inr (inr e)) ↦ absurd (ground (arith, e, h))
]

PassesPut-put_verdict : (call : Option PutAppendReply) → PassesPut call → put_verdict call ≡ go_on
unfolding put_verdict
PassesPut-put_verdict none p = refl
PassesPut-put_verdict (some r) p = elim (Err-cases r.err) [
  | inl e ↦ rw e refl
  | inr (inl e) ↦ elim p.1 [ inl follows ↦ rw (e, follows) refl | inr ne ↦ absurd (ne e) ]
  | inr (inr (inl e)) ↦ rw e refl
  | inr (inr (inr e)) ↦ absurd (p.0 e)
]

module _ (call : ℕ → ℕ → Option PutAppendReply) (key : Text) where
  -- In a round a server of the key's group, by the configuration, accepts the operation, and those
  -- before it in the group pass.
  pub record PutAnswered (config : Config) (q : ℕ) (reply : PutAppendReply) : Type 0 where
    pub servers : List Text
    pub group : ServedBy config key servers
    pub si : ℕ
    pub in_group : si < length servers
    pub accepts : Accepts (call q si) reply
    pub skipped : (j : ℕ) → j < si → PassesPut (call q j)

  from_verdicts :
      (config : Config) (q : ℕ) (reply : PutAppendReply) (latest : ℕ → Config)
      → Answered key (λ k si. put_verdict (call k si)) latest config q reply
      → PutAnswered config q reply
  from_verdicts config q reply latest a = record {
    servers = a.servers;
    group = servers_for-ServedBy config key a.servers a.group;
    si = a.si;
    in_group = a.in_group;
    accepts = put_verdict-Accepts (call q a.si) reply a.verdict;
    skipped = λ j lt. put_verdict-PassesPut (call q j) (a.skipped j lt);
  }

  to_verdicts :
      (config : Config) (q : ℕ) (reply : PutAppendReply) (latest : ℕ → Config)
      → PutAnswered config q reply
      → Answered key (λ k si. put_verdict (call k si)) latest config q reply
  to_verdicts config q reply latest a = record {
    servers = a.servers;
    group = ServedBy-servers_for config key a.servers a.group;
    si = a.si;
    in_group = a.in_group;
    verdict = Accepts-put_verdict (call q a.si) reply a.accepts;
    skipped = λ j lt. PassesPut-put_verdict (call q j) (a.skipped j lt);
  }

  -- `PutAppend` returns by a round in which a server of the key's group accepts the operation and those
  -- before it pass, and only after such a server has accepted it.
  pub put_append_lem :
      (fuel : ℕ) (latest : ℕ → Config) (config : Config) (r : ℕ) (reply : PutAppendReply)
      → r < fuel
      → PutAnswered (config_at latest config r) r reply
      → (q : ℕ) × (b : PutAppendReply) × (q ≤ r)
        × (put_append fuel call latest config key ≡ some b)
        × PutAnswered (config_at latest config q) q b
  unfolding put_append config_at
  put_append_lem fuel latest config r reply lt good =
      let good' = to_verdicts (config_at latest config r) r reply latest good in
      let (q, b, le, returned, by) =
        ask_lem key (λ k si. put_verdict (call k si)) latest config 0 r fuel reply (omega arith)
          (omega arith) good' in
      (q, b, le, returned, from_verdicts (config_at latest config q) q b latest by)
