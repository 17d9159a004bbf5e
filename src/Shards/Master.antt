-- ===== src/Shards/Master.antt =====
-- src/shardmaster: the messages of common.go and the clerk of client.go. A call in some round to a
-- server, by its index, comes back with a reply or fails; the answers are parameters.
use mit6824_distribute_syste.Prelude.{
  ℕ, ◌<◌, ◌≤◌, ◌≡◌, refl, Bool, false, Option, none, some, List, if◌then◌else◌, arith,
}
use mit6824_distribute_syste.Prelude.Int.{ℤ}
use mit6824_distribute_syste.Prelude.Text.{Text}
use mit6824_distribute_syste.Shards.Retry.{Answers, retry, retry_lem, IsFirst}

-- `NShards`
abbrev pub n_shards : ℕ
n_shards = 10

-- `Config`; `groups` is a map from a group's number to its servers.
pub record Config : Type 0 where
  pub num : ℤ
  pub shards : List ℕ
  pub groups : List (ℕ × List Text)

pub record JoinArgs : Type 0 where
  pub servers : List (ℕ × List Text)

pub record LeaveArgs : Type 0 where
  pub gids : List ℕ

pub record MoveArgs : Type 0 where
  pub shard : ℕ
  pub gid : ℕ

pub record QueryArgs : Type 0 where
  pub num : ℤ

-- `JoinReply`, `LeaveReply` and `MoveReply`.
pub record Reply : Type 0 where
  pub wrong_leader : Bool
  pub err : Text

pub record QueryReply : Type 0 where
  pub wrong_leader : Bool
  pub err : Text
  pub config : Config

-- `ok && reply.WrongLeader == false`
unfoldable pub query_answer : Option QueryReply → Option Config
query_answer none = none
query_answer (some reply) = if reply.wrong_leader then none else some reply.config

unfoldable pub accepted : Option Reply → Option Reply
accepted none = none
accepted (some reply) = if reply.wrong_leader then none else some reply

-- The loops of a clerk of `n` servers, for a number of rounds at most.
module _ (n fuel : ℕ) where
  unfoldable pub query : (QueryArgs → ℕ → ℕ → Option QueryReply) → ℤ → Option Config
  unfolding query_answer
  query call num =
      let args : QueryArgs = record { num = num } in
      retry n (λ r i. query_answer (call args r i)) 0 fuel

  unfoldable pub join : (JoinArgs → ℕ → ℕ → Option Reply) → List (ℕ × List Text) → Option Reply
  unfolding accepted
  join call servers =
      let args : JoinArgs = record { servers = servers } in
      retry n (λ r i. accepted (call args r i)) 0 fuel

  unfoldable pub leave : (LeaveArgs → ℕ → ℕ → Option Reply) → List ℕ → Option Reply
  unfolding accepted
  leave call gids =
      let args : LeaveArgs = record { gids = gids } in
      retry n (λ r i. accepted (call args r i)) 0 fuel

  unfoldable pub move : (MoveArgs → ℕ → ℕ → Option Reply) → ℕ → ℕ → Option Reply
  unfolding accepted
  move call shard gid =
      let args : MoveArgs = record { shard = shard; gid = gid } in
      retry n (λ r i. accepted (call args r i)) 0 fuel

-- A reply that counts.
answered_by :
    (reply : Option QueryReply) (c : Config)
    → query_answer reply ≡ some c
    → (q : QueryReply) × (reply ≡ some q) × (q.wrong_leader ≡ false) × (q.config ≡ c)
unfolding query_answer
answered_by none c e = absurd (cc)
answered_by (some q) c e = (q, refl, ground arith, ground arith)

-- When in some round one of the servers is to answer as the leader, `Query` returns by that round,
-- and it returns the configuration in the reply of the first server, by rounds and then in the order
-- of the servers, that answers as the leader.
pub query_lem :
    (n fuel : ℕ) (call : QueryArgs → ℕ → ℕ → Option QueryReply) (num : ℤ) (r i : ℕ)
    {reply : QueryReply}
    → i < n
    → r < fuel
    → call (record { num = num }) r i ≡ some reply
    → reply.wrong_leader ≡ false
    → (q : ℕ) × (p : ℕ) × (answer : QueryReply) × (q ≤ r)
      × (query n fuel call num ≡ some answer.config)
      × (call (record { num = num }) q p ≡ some answer)
      × (answer.wrong_leader ≡ false)
      × IsFirst n (λ k j. query_answer (call (record { num = num }) k j)) 0 q p answer.config
unfolding query query_answer
query_lem n fuel call num r i {reply} lt lf at leader =
    let args : QueryArgs = record { num = num } in
    let answers : Answers Config = λ k j. query_answer (call args k j) in
    let good : answers r i ≡ some reply.config = rw (at, query_answer, leader) in
    let (q, p, c, le, done, first) =
      retry_lem n answers 0 r i fuel (omega arith) lt good (omega arith) in
    let (answer, there, leads, same) = answered_by (call args q p) c first.answered in
    (q, p, answer, le, rw same done, there, leads, rw same first)

-- `Join` returns by the round in which one of the servers is to answer as the leader, and only when
-- one has.
pub join_lem :
    (n fuel : ℕ) (call : JoinArgs → ℕ → ℕ → Option Reply) (servers : List (ℕ × List Text)) (r i : ℕ)
    {reply : Reply}
    → i < n
    → r < fuel
    → call (record { servers = servers }) r i ≡ some reply
    → reply.wrong_leader ≡ false
    → (q : ℕ) × (p : ℕ) × (answer : Reply) × (q ≤ r)
      × (join n fuel call servers ≡ some answer)
      × IsFirst n (λ k j. accepted (call (record { servers = servers }) k j)) 0 q p answer
unfolding join accepted
join_lem n fuel call servers r i {reply} lt lf at leader =
    let answers : Answers Reply = λ k j. accepted (call (record { servers = servers }) k j) in
    let good : answers r i ≡ some reply = rw (at, accepted, leader) in
    retry_lem n answers 0 r i fuel (omega arith) lt good (omega arith)
