-- ===== src/Scenarios/Shards.antt =====
-- The clerks of the sharded key/value service (src/shardmaster, src/shardkv): servers that fail or are
-- no leaders at first.
use mit6824_distribute_syste.Prelude.{
  ℕ, zero, suc, ◌<◌, refl, true, false, Option, none, some, List, [], ◌∷◌, replicate, arith, inl,
  ◌≤◌, ◌≡◌,
}
use mit6824_distribute_syste.Prelude.Int.{pos, negsuc}
use mit6824_distribute_syste.Prelude.Text.{Text}
use mit6824_distribute_syste.Shards.Master.{Config, QueryArgs, QueryReply, JoinArgs, Reply}
use mit6824_distribute_syste.Shards.Client.{GetReply, PutAppendReply, ok, get, put_append}
use mit6824_distribute_syste.Shards.Asking.{config_at}
use mit6824_distribute_syste.Shards.Groups.{ServedBy}
use mit6824_distribute_syste.Shards.PutServed.{PutAnswered, put_append_lem}
use mit6824_distribute_syste.Shards.Served.{Passes, GetAnswered, GetEnds, get_lem}

abbrev key : Text
key = b'e' ∷ []

abbrev group : List Text
group = (b'x' ∷ []) ∷ ((b'y' ∷ []) ∷ [])

abbrev config : Config
config = record { num = pos 1; shards = replicate 10 7; groups = (7, group) ∷ [] }

abbrev empty : Config
empty = record { num = pos 0; shards = replicate 10 0; groups = [] }

abbrev current : QueryReply
current = record { wrong_leader = false; err = []; config = config }

-- The servers fail until round 2.
abbrev calls : {A B : Type 0} → B → A → ℕ → ℕ → Option B
calls reply args zero i = none
calls reply args (suc zero) i = none
calls reply args (suc (suc r)) i = some reply

abbrev latest_args : QueryArgs
latest_args = record { num = negsuc 0 }

abbrev done : Reply
done = record { wrong_leader = false; err = [] }

abbrev join_args : JoinArgs
join_args = record { servers = (7, group) ∷ [] }

abbrev value : Text
value = b'v' ∷ []

-- The second server of the group is the leader.
abbrev leader_answers : ℕ → ℕ → Option GetReply
leader_answers r zero = some (record { wrong_leader = true; err = ok; value = [] })
leader_answers r (suc i) = some (record { wrong_leader = false; err = ok; value = value })

abbrev latest : ℕ → Config
latest k = config

skips : (j : ℕ) → j < 1 → Passes (leader_answers 1 j)
skips zero lt = (λ e. cc, inl refl)
skips (suc j) lt = absurd (omega arith)

group_of_key : ServedBy config key group
group_of_key = record {
  shard = 1;
  of_key = refl;
  gid = 7;
  given = refl;
  before = [];
  after = [];
  listed = refl;
  first = tt;
}

get-GetAnswered : GetAnswered leader_answers key (config_at latest empty 1) 1 value
unfolding config_at
get-GetAnswered = record {
  servers = group;
  group = group_of_key;
  si = 1;
  in_group = omega arith;
  gives = record {
    reply = record { wrong_leader = false; err = ok; value = value };
    came = refl;
    leads = refl;
    known = inl refl;
    same = refl;
  };
  skipped = skips;
}

get_lem_example : GetEnds leader_answers key latest empty 1 (get 3 leader_answers latest empty key)
get_lem_example = get_lem leader_answers key 3 latest empty 1 value (omega arith) get-GetAnswered

abbrev put_reply : PutAppendReply
put_reply = record { wrong_leader = false; err = ok }

abbrev all_accept : ℕ → ℕ → Option PutAppendReply
all_accept r i = some put_reply

-- Every server of the group accepts.
accepted_at_once :
    (q : ℕ) × (b : PutAppendReply) × (q ≤ 1)
    × (put_append 3 all_accept latest empty key ≡ some b)
    × PutAnswered all_accept key (config_at latest empty q) q b
unfolding config_at
accepted_at_once = put_append_lem all_accept key 3 latest empty 1 put_reply (omega arith) (record {
  servers = group;
  group = group_of_key;
  si = 0;
  in_group = omega arith;
  accepts = record { came = refl; leads = refl; done = refl };
  skipped = λ j lt. absurd (omega arith);
})
