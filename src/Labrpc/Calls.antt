-- ===== src/Labrpc/Calls.antt =====
-- src/labrpc/labrpc.go, `ProcessReq`: what a caller may conclude from the reply.
use mit6824_distribute_syste.Prelude.{
  ◌≡◌, refl, true, some, List, [], ◌∷◌, ◌++◌, ◌⊎◌, inl, inr, ◌≤◌, length, arith,
}
use mit6824_distribute_syste.Labrpc.Server.{ReqMsg, ReplyMsg}
use mit6824_distribute_syste.Labrpc.Process.{
  World, Phase, arrived, calling, handled, abandoned, answering, replied, no_reply, reply_of, Other,
  Own, not_connected, drop_request, send, handle, give_up, handle_late, killed, drop_reply, answer,
  deliver, Run, here, meanwhile, own,
}

-- How often the handler has run, and with what, in each phase.
abbrev Ran : Phase → List ReplyMsg → Type 0
Ran arrived rs = rs ≡ []
Ran (calling n s i) rs = rs ≡ []
Ran (handled n s i r) rs = rs ≡ r ∷ []
Ran (abandoned s) rs = rs ≡ []
Ran (answering r) rs = rs ≡ r ∷ []
Ran (replied r) rs = (rs ≡ r ∷ []) ⊎ ((r ≡ no_reply) × (length rs ≤ 1))

length-le : (p : Phase) (rs : List ReplyMsg) → Ran p rs → length rs ≤ 1
length-le arrived rs e = rw e (omega arith)
length-le (calling n s i) rs e = rw e (omega arith)
length-le (handled n s i r) rs e = rw e (omega arith)
length-le (abandoned s) rs e = rw e (omega arith)
length-le (answering r) rs e = rw e (omega arith)
length-le (replied r) rs (inl e) = rw e (omega arith)
length-le (replied r) rs (inr e) = e.1

answered_by :
    (p : Phase) (rs : List ReplyMsg)
    → Ran p rs
    → (r : ReplyMsg) → reply_of p ≡ some r
    → r.ok ≡ true
    → rs ≡ r ∷ []
answered_by arrived rs ran r e ok = absurd (cc)
answered_by (calling n s i) rs ran r e ok = absurd (cc)
answered_by (handled n s i q) rs ran r e ok = absurd (cc)
answered_by (abandoned s) rs ran r e ok = ground arith
answered_by (answering q) rs ran r e ok = absurd (cc)
answered_by (replied q) rs (inl ran) r e ok = ground arith
answered_by (replied q) rs (inr ran) r e ok = ground arith

module _ {σ : Type 0} (req : ReqMsg) where
  Own-Ran :
      {w w' : World σ} {p p' : Phase} {more : List ReplyMsg} (rs : List ReplyMsg)
      → Own req w p w' p' more
      → Ran p rs
      → Ran p' (more ++ rs)
  Own-Ran rs (not_connected h) e = inr (refl, rw e (omega arith))
  Own-Ran rs (drop_request a b c d) e = inr (refl, rw e (omega arith))
  Own-Ran rs (send a b c) e = e
  Own-Ran rs (handle a b) e = rw e
  Own-Ran rs (give_up h) e = e
  Own-Ran rs (handle_late a b) e = inr (refl, rw e (omega arith))
  Own-Ran rs (killed h) e = inr (refl, rw e (omega arith))
  Own-Ran rs (drop_reply a b) e = inr (refl, rw e (omega arith))
  Own-Ran rs (answer h) e = e
  Own-Ran rs deliver e = inl e

  Run-Ran :
      {May : Other σ → Type 0} {w w' : World σ} {p : Phase} {rs : List ReplyMsg}
      → Run req May w arrived w' p rs
      → Ran p rs
  Run-Ran here = refl
  Run-Ran (meanwhile o run may e) = Run-Ran run
  Run-Ran (own {rs = rs} run step) = Own-Ran rs step (Run-Ran run)

  -- The handler of a request runs once at most, whatever the network and the other requests do; when
  -- the client's call returns true, it has run exactly once, and its reply is what the client has.
  pub ran_once :
      (May : Other σ → Type 0) {w w' : World σ} {p : Phase} {rs : List ReplyMsg}
      → Run req May w arrived w' p rs
      → (length rs ≤ 1) × ((r : ReplyMsg) → reply_of p ≡ some r → r.ok ≡ true → rs ≡ r ∷ [])
  ran_once May {p = p} {rs = rs} run =
      let ran = Run-Ran run in (length-le p rs ran, λ r. answered_by p rs ran r)
