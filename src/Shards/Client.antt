-- ===== src/Shards/Client.antt =====
-- src/shardkv: the messages of common.go and the clerk of client.go. In round `k` the call to a server
-- of the key's group, by its index, comes back with a reply or fails; the answers, and what
-- `sm.Query(-1)` returns after each round, are parameters.
use mit6824_distribute_syste.Prelude.{
  ℕ, zero, suc, ◌+◌, ◌%◌, ◌<◌, Bool, Option, none, some, List, [], ◌∷◌, length, get_elem?,
  if◌then◌else◌, ◌==◌, arith, ◌>>=◌,
}
use mit6824_distribute_syste.Prelude.Text.{Text}
use mit6824_distribute_syste.Shards.Master.{Config, n_shards}

-- `Err`; the empty string is what a reply is made with.
pub data Err : Type 0 where
  unset ok err_no_key err_wrong_group : Err

pub record GetReply : Type 0 where
  pub wrong_leader : Bool
  pub err : Err
  pub value : Text

pub record PutAppendReply : Type 0 where
  pub wrong_leader : Bool
  pub err : Err

-- `key2shard`
unfoldable pub key2shard : Text → ℕ
key2shard [] = 0 % n_shards
key2shard (b ∷ key) = b % n_shards

-- `ck.config.Groups[gid]`
unfoldable pub group_of : ℕ → List (ℕ × List Text) → Option (List Text)
group_of gid [] = none
group_of gid ((g, servers) ∷ groups) = if g == gid then some servers else group_of gid groups

-- The servers of the key's shard; `none` where the configuration has no such group.
unfoldable pub servers_for : Config → Text → Option (List Text)
unfolding key2shard group_of
servers_for config key = do
  gid ← get_elem? config.shards (key2shard key)
  group_of gid config.groups

-- What the loop over the servers does with a reply: it returns, it leaves the loop, or it goes on.
pub data Verdict (A : Type 0) : Type 0 where
  return : A → Verdict A
  wrong_group go_on : Verdict A

unfoldable pub get_verdict : Option GetReply → Verdict Text
get_verdict none = go_on
get_verdict (some reply) = elim reply.err [
  | ok ↦ if reply.wrong_leader then go_on else return reply.value
  | err_no_key ↦ if reply.wrong_leader then go_on else return reply.value
  | err_wrong_group ↦ wrong_group
  | unset ↦ go_on
]

unfoldable pub put_verdict : Option PutAppendReply → Verdict PutAppendReply
put_verdict none = go_on
put_verdict (some reply) = elim reply.err [
  | ok ↦ if reply.wrong_leader then go_on else return reply
  | err_no_key ↦ go_on
  | err_wrong_group ↦ wrong_group
  | unset ↦ go_on
]

module _ {A : Type 0} where
  -- The loop over the servers si, si + 1, ...
  unfoldable pub try_group : (ℕ → Verdict A) → ℕ → ℕ → Option A
  try_group verdict si zero = none
  try_group verdict si (suc left) = elim (verdict si) [
    | return a ↦ some a
    | wrong_group ↦ none
    | go_on ↦ try_group verdict (si + 1) left
  ]

  -- The outer loop, for a number of rounds at most.
  unfoldable pub ask : Text → (ℕ → ℕ → Verdict A) → (ℕ → Config) → Config → ℕ → ℕ → Option A
  unfolding try_group servers_for
  ask key verdicts latest config k zero = none
  ask key verdicts latest config k (suc fuel) =
      let next = ask key verdicts latest (latest k) (k + 1) fuel in
      elim (servers_for config key) [
        | none ↦ next
        | some servers ↦ elim (try_group (verdicts k) 0 (length servers)) [
          | some a ↦ some a
          | none ↦ next
        ]
      ]

-- `Get`
unfoldable pub get : ℕ → (ℕ → ℕ → Option GetReply) → (ℕ → Config) → Config → Text → Option Text
unfolding ask get_verdict
get fuel call latest config key = ask key (λ k si. get_verdict (call k si)) latest config 0 fuel

-- `PutAppend`
unfoldable pub put_append :
    ℕ → (ℕ → ℕ → Option PutAppendReply) → (ℕ → Config) → Config → Text → Option PutAppendReply
unfolding ask put_verdict
put_append fuel call latest config key =
    ask key (λ k si. put_verdict (call k si)) latest config 0 fuel

-- A key has one of the shards.
pub key2shard-lt : (key : Text) → key2shard key < n_shards
unfolding key2shard
key2shard-lt [] = omega arith
key2shard-lt (b ∷ key) = omega arith
