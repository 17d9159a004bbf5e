-- ===== src/Scenarios/Tester.antt =====
-- The tester of src/raft/config.go with two servers.
use mit6824_distribute_syste.Prelude.{
  ℕ, ◌+◌, ◌≤◌, ◌≡◌, refl, false, ◌&&◌, ◌==◌, if◌then◌else◌, Option, none, some, List, [], ◌∷◌,
  arith,
}
use mit6824_distribute_syste.Prelude.Int.{ℤ, negsuc}
use mit6824_distribute_syste.Prelude.Text.{Text, itoa}
use mit6824_distribute_syste.Prelude.Maps.{lookup, put}
use mit6824_distribute_syste.Labrpc.Network.{
  make_end, connect, enable, EndnameInfo, read_endname_info,
}
use mit6824_distribute_syste.Raft.Peer.{ApplyMsg}
use mit6824_distribute_syste.Tester.Commits.{
  CommitLog, is_none, n_committed, apply_msg, apply_msgs, put_command, conflicts, command_at,
}
use mit6824_distribute_syste.Tester.Agreement.{AllHave, holders, CommitCount, n_committed_lem}
use mit6824_distribute_syste.Tester.Applied.{readers_agree, NoGap}
use mit6824_distribute_syste.Tester.Waiting.{Round, one, poll_commits}
use mit6824_distribute_syste.Tester.Agreeing.{Reported, one_lem}
use mit6824_distribute_syste.Tester.Config.{
  Config, start1, connect_server, connect_out, connect_in, make_ends,
}
use mit6824_distribute_syste.Tester.Reachable.{
  fresh_config, Reached, configured, starting, attaching, links_lem,
}
use mit6824_distribute_syste.Scenarios.Codec.{numbers_gob}

abbrev msg : ℕ → ℤ → ApplyMsg ℤ
msg i v = record { index = i; command = some v; use_snapshot = false; snapshot = [] }

abbrev two_logs : List CommitLog
two_logs = ((1, ℤ.pos 5) ∷ ((2, ℤ.pos 7) ∷ [])) ∷ (((1, ℤ.pos 5) ∷ []) ∷ [])

-- Two servers have different commands at index 1.
n_committed_lem_example : CommitCount 1 (((1, ℤ.pos 5) ∷ []) ∷ (((1, ℤ.pos 6) ∷ []) ∷ []))
n_committed_lem_example = n_committed_lem 1 (((1, ℤ.pos 5) ∷ []) ∷ (((1, ℤ.pos 6) ∷ []) ∷ []))

abbrev delivered : List (ℕ × ApplyMsg ℤ)
delivered = (0, msg 1 (ℤ.pos 5)) ∷ ((1, msg 1 (ℤ.pos 5)) ∷ ((0, msg 2 (ℤ.pos 7)) ∷ []))

readers_agree_example :
    ((v : ℤ) × AllHave 1 v two_logs
      × (n_committed 1 two_logs
          ≡ some (holders 1 two_logs, if holders 1 two_logs == 0 then negsuc 0 else v)))
    × NoGap 1 two_logs
    × (holders (1 + 2) two_logs ≤ holders (1 + 1) two_logs)
unfolding apply_msg apply_msgs put_command conflicts command_at
readers_agree_example = readers_agree 2 delivered two_logs 1 refl

-- Server 1 refuses the command 5, server 0 leads.
abbrev submitted : List Round
submitted = record { submit = λ si s. if s == 0 then some 1 else none; polls = two_logs ∷ [] } ∷ []

one_lem_example : Reported 1 (ℤ.pos 5) 2 submitted
unfolding one n_committed command_at poll_commits
one_lem_example = one_lem (ℤ.pos 5) 2 2 0 submitted refl

abbrev names : ℕ → ℕ → Text
names i q = i ∷ (q ∷ [])

abbrev or_fresh : Option (Config ℕ) → Config ℕ
or_fresh none = fresh_config 2
or_fresh (some cfg) = cfg

-- Both servers are started, and the first is attached.
abbrev cfg1 : Config ℕ
cfg1 = or_fresh (start1 numbers_gob 0 (names 0) 7 (fresh_config 2))

abbrev cfg2 : Config ℕ
cfg2 = or_fresh (start1 numbers_gob 1 (names 1) 8 cfg1)

abbrev cfg3 : Config ℕ
cfg3 = or_fresh (connect_server 0 cfg2)

first_up : start1 numbers_gob 0 (names 0) 7 (fresh_config 2) ≡ some cfg1
unfolding start1 make_ends make_end fresh_config lookup connect put enable
first_up = refl

second_up : start1 numbers_gob 1 (names 1) 8 cfg1 ≡ some cfg2
unfolding start1 make_ends make_end fresh_config lookup connect put enable
second_up = refl

attached : connect_server 0 cfg2 ≡ some cfg3
unfolding start1 make_ends make_end connect_server connect_out connect_in fresh_config lookup
    connect put enable
attached = refl

brought_up : Reached numbers_gob 2 cfg3
unfolding start1 make_ends make_end connect_server connect_out connect_in fresh_config lookup
    connect put enable
brought_up =
    attaching 0
      (starting 1 (names 1) 8 (starting 0 (names 0) 7 configured (omega arith) first_up)
        (omega arith) second_up)
      (omega arith) refl attached

abbrev info : EndnameInfo
info = read_endname_info (names 0 1) cfg3.net

links_lem_example :
    ((info.is_enabled ≡ (cfg3.connected 0 && cfg3.connected 1))
      × (info.servername ≡ some (itoa 1))
      × (is_none info.server ≡ is_none (cfg3.rafts 1)))
    × ((cfg' : Config ℕ) × (connect_server 0 cfg3 ≡ some cfg'))
unfolding start1 make_ends make_end connect_server connect_out connect_in fresh_config lookup
    connect put enable
links_lem_example = links_lem numbers_gob 2 0 1 brought_up (omega arith) (omega arith) refl
