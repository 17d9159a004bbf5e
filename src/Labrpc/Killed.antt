-- ===== src/Labrpc/Killed.antt =====
-- src/labrpc/labrpc.go, `ProcessReq` and `DeleteServer`: requests to a server that is killed.
use mit6824_distribute_syste.Prelude.{ℕ, ◌≡◌, false, none}
use mit6824_distribute_syste.Prelude.Text.{Text}
use mit6824_distribute_syste.Labrpc.Network.{Network, Command, adding, at_key, same_server}
use mit6824_distribute_syste.Labrpc.Process.{
  World, Phase, calling, handled, abandoned, replied, Other, tester,
}

module _ (n : Text) (s : ℕ) where
  -- A request that is on its way to the server, or has failed.
  abbrev OnItsWay : Phase → Type 0
  OnItsWay (calling m t i) = (m ≡ n) × (t ≡ s)
  OnItsWay (handled m t i r) = (m ≡ n) × (t ≡ s)
  OnItsWay (abandoned t) = Unit
  OnItsWay (replied r) = r.ok ≡ false
  OnItsWay _ = ⊥

  -- A request that has been sent to the server; its handler is still to return, or has returned.
  abbrev pub AtServer : Phase → Type 0
  AtServer (calling m t i) = (m ≡ n) × (t ≡ s)
  AtServer (handled m t i r) = (m ≡ n) × (t ≡ s)
  AtServer _ = ⊥

module _ (n : Text) (s : ℕ) where
  -- The command does not add the server under the name.
  abbrev pub Elsewhere : Command → Type 0
  Elsewhere (adding m t) = ¬ ((m ≡ n) × (t ≡ s))
  Elsewhere _ = Unit

module _ {σ : Type 0} (n : Text) (s : ℕ) where
  -- The tester does not add the server under the name again.
  abbrev pub NotAgain : Other σ → Type 0
  NotAgain (tester c) = Elsewhere n s c
  NotAgain _ = Unit

  -- The name does not lead to the server.
  abbrev pub Gone : World σ → Type 0
  Gone w = same_server (at_key none n w.net.servers) s ≡ false
