-- ===== src/Labrpc/Progress.antt =====
-- src/labrpc/labrpc.go, `ProcessReq`: it comes to an end.
use mit6824_distribute_syste.Prelude.{
  ℕ, ◌≡◌, refl, some, List, [], ◌∷◌, ◌⊎◌, inl, inr, ◌<◌, get_elem?, set, Option-cases, Bool-cases,
  arith,
}
use mit6824_distribute_syste.Labrpc.Network.{read_endname_info, is_server_dead}
use mit6824_distribute_syste.Labrpc.Server.{Server, ReqMsg, ReplyMsg, dispatch}
use mit6824_distribute_syste.Labrpc.Process.{
  World, Phase, arrived, calling, handled, abandoned, answering, replied, no_reply, Own,
  not_connected, drop_request, send, handle, give_up, handle_late, killed, drop_reply, answer,
  deliver,
}

-- The steps that a request can still take.
abbrev pub left : Phase → ℕ
left arrived = 4
left (calling n s i) = 3
left (handled n s i r) = 2
left (abandoned s) = 1
left (answering r) = 1
left (replied r) = 0

module _ {σ : Type 0} (req : ReqMsg) where
  -- The handler of the request returns at a server.
  abbrev pub Handles : World σ → ℕ → Type 0
  Handles w s =
      (rs : Server σ) × (rs' : Server σ) × (r : ReplyMsg) × (get_elem? w.heap s ≡ some rs)
      × (dispatch req rs ≡ some (rs', r))

  abbrev pub Served : World σ → Phase → Type 0
  Served w arrived = Unit
  Served w (calling n s i) = Handles w s
  Served w (handled n s i r) = Unit
  Served w (abandoned s) = Handles w s
  Served w (answering r) = Unit
  Served w (replied r) = Unit

  Own-left :
      {w w' : World σ} {p p' : Phase} {more : List ReplyMsg}
      → Own req w p w' p' more
      → left p' < left p
  Own-left (not_connected h) = omega arith
  Own-left (drop_request a b c d) = omega arith
  Own-left (send a b c) = omega arith
  Own-left (handle a b) = omega arith
  Own-left (give_up h) = omega arith
  Own-left (handle_late a b) = omega arith
  Own-left (killed h) = omega arith
  Own-left (drop_reply a b) = omega arith
  Own-left (answer h) = omega arith
  Own-left deliver = omega arith

  progress :
      (w : World σ) (p : Phase)
      → Served w p
      → ((r : ReplyMsg) × (p ≡ replied r))
        ⊎ ((w' : World σ) × (p' : Phase) × (more : List ReplyMsg) × Own req w p w' p' more)
  progress w arrived h =
      let i = read_endname_info req.endname w.net in
      elim (Bool-cases i.is_enabled) [
        | inr off ↦ inr (w, replied no_reply, [], not_connected (inl off))
        | inl on ↦ elim (Option-cases i.servername) [
          | inl nowhere ↦ inr (w, replied no_reply, [], not_connected (inr (inl nowhere)))
          | inr (n, name) ↦ elim (Option-cases i.server) [
            | inl deleted ↦ inr (w, replied no_reply, [], not_connected (inr (inr deleted)))
            | inr (s, server) ↦ inr (w, calling n s i, [], send on name server)
          ]
        ]
      ]
  progress w (calling n s i) (rs, rs', r, there, done) =
      inr (record w { heap = set w.heap s rs' }, handled n s i r, r ∷ [], handle there done)
  progress w (handled n s i r) h = elim (Bool-cases (is_server_dead req.endname n s w.net)) [
    | inl dead ↦ inr (w, replied no_reply, [], killed dead)
    | inr alive ↦ inr (w, answering r, [], answer alive)
  ]
  progress w (abandoned s) (rs, rs', r, there, done) =
      inr (record w { heap = set w.heap s rs' }, replied no_reply, r ∷ [], handle_late there done)
  progress w (answering r) h = inr (w, replied r, [], deliver)
  progress w (replied r) h = inl (r, refl)

  -- `ProcessReq` is never stuck, in whatever phase and whatever world, as long as the handler returns
  -- at the server that the request goes to; and each of its steps, whichever it is, leaves it fewer.
  pub call_returns :
      (w : World σ) (p : Phase)
      → Served w p
      → (((r : ReplyMsg) × (p ≡ replied r))
          ⊎ ((w' : World σ) × (p' : Phase) × (more : List ReplyMsg) × Own req w p w' p' more))
        × ((w' : World σ) (p' : Phase) (more : List ReplyMsg)
            → Own req w p w' p' more
            → left p' < left p)
  call_returns w p served = (progress w p served, λ w' p' more step. Own-left step)
