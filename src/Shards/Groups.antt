-- ===== src/Shards/Groups.antt =====
-- src/shardkv/client.go: `key2shard` and the look-up of the group in a configuration.
use mit6824_distribute_syste.Prelude.{
  ℕ, ◌%◌, ◌≡◌, ◌≢◌, refl, inl, inr, some, List, [], ◌∷◌, ◌++◌, get_elem?, arith, Option-cases,
  ℕ_discrete,
}
use mit6824_distribute_syste.Prelude.Text.{Text}
use mit6824_distribute_syste.Shards.Master.{Config}
use mit6824_distribute_syste.Shards.Client.{key2shard, group_of, servers_for}

-- The shard of a key: its first byte modulo 10, and 0 for the empty key.
abbrev pub InShard : Text → ℕ → Type 0
InShard [] shard = shard ≡ 0
InShard (b ∷ key) shard = shard ≡ b % 10

-- The group is not in the list.
abbrev pub NotListed : ℕ → List (ℕ × List Text) → Type 0
NotListed gid [] = Unit {0}
NotListed gid ((g, servers) ∷ groups) = (g ≢ gid) × NotListed gid groups

-- By the configuration, the servers are those of the group to which the key's shard is given.
pub record ServedBy (config : Config) (key : Text) (servers : List Text) : Type 0 where
  pub shard : ℕ
  pub of_key : InShard key shard
  pub gid : ℕ
  pub given : get_elem? config.shards shard ≡ some gid
  pub before : List (ℕ × List Text)
  pub after : List (ℕ × List Text)
  pub listed : config.groups ≡ before ++ (gid, servers) ∷ after
  pub first : NotListed gid before

group_of-some :
    (gid : ℕ) (groups : List (ℕ × List Text)) (servers : List Text)
    → group_of gid groups ≡ some servers
    → (before : List (ℕ × List Text)) × (after : List (ℕ × List Text)) × (groups
        ≡ before ++ (gid, servers) ∷ after)
      × NotListed gid before
unfolding group_of
group_of-some gid [] servers h = absurd (cc)
group_of-some gid ((g, s) ∷ groups) servers h = elim (ℕ_discrete g gid) [
  | yes e ↦ ([], groups, ground (arith, e, h), tt)
  | no ne ↦
      let rest : group_of gid groups ≡ some servers = ground (arith, ne, h) in
      let (before, after, e, new) = group_of-some gid groups servers rest in
      ((g, s) ∷ before, after, rw e refl, (ne, new))
]

group_of-listed :
    (gid : ℕ) (before after : List (ℕ × List Text)) (servers : List Text)
    → NotListed gid before
    → group_of gid (before ++ (gid, servers) ∷ after) ≡ some servers
unfolding group_of
group_of-listed gid [] after servers new = ground arith
group_of-listed gid ((g, s) ∷ before) after servers new =
    ground (arith, group_of-listed gid before after servers new.1, new.0)

key2shard-InShard : (key : Text) → InShard key (key2shard key)
unfolding key2shard
key2shard-InShard [] = refl
key2shard-InShard (b ∷ key) = refl

InShard-unique : (key : Text) (i : ℕ) → InShard key i → key2shard key ≡ i
unfolding key2shard
InShard-unique [] i h = omega (arith, h)
InShard-unique (b ∷ key) i h = ground (arith, h)

pub servers_for-ServedBy :
    (config : Config) (key : Text) (servers : List Text)
    → servers_for config key ≡ some servers
    → ServedBy config key servers
unfolding servers_for
servers_for-ServedBy config key servers h =
    elim (Option-cases (get_elem? config.shards (key2shard key))) [
      | inl out ↦ absurd (ground (arith, out, h))
      | inr (gid, at) ↦
          let found : group_of gid config.groups ≡ some servers = ground (arith, at, h) in
          let (before, after, e, new) = group_of-some gid config.groups servers found in
          record {
            shard = key2shard key;
            of_key = key2shard-InShard key;
            gid = gid;
            given = at;
            before = before;
            after = after;
            listed = e;
            first = new;
          }
    ]

pub ServedBy-servers_for :
    (config : Config) (key : Text) (servers : List Text)
    → ServedBy config key servers
    → servers_for config key ≡ some servers
unfolding servers_for
ServedBy-servers_for config key servers s =
    rw (InShard-unique key s.shard s.of_key, s.given, s.listed)
      (group_of-listed s.gid s.before s.after servers s.first)
