-- ===== src/Labrpc/Process.antt =====
-- src/labrpc/labrpc.go, `ProcessReq`: what becomes of one request while the tester changes the
-- network and other requests are handled. The goroutine of the request and that of its handler are
-- steps; what the random numbers and the clock decide is left open where the code asks them.
use mit6824_distribute_syste.Prelude.{
  ◌>>=◌, ◌⊎◌, ℕ, ◌≡◌, true, false, Option, none, some, List, [], ◌∷◌, ◌++◌, get_elem?, set,
}
use mit6824_distribute_syste.Prelude.Text.{Text}
use mit6824_distribute_syste.Labrpc.Network.{
  Network, Command, command, at_key, EndnameInfo, read_endname_info, is_server_dead,
}
use mit6824_distribute_syste.Labrpc.Server.{Server, ReqMsg, ReplyMsg, dispatch, get_count}

-- The network, and the servers by their addresses.
pub record World (σ : Type 0) : Type 0 where
  pub net : Network
  pub heap : List (Server σ)

-- `GetCount` of the network; `none` where the name leads to no server, a use of nil.
unfoldable pub server_count : {σ : Type 0} → Text → World σ → Option ℕ
server_count name w = do
  s ← at_key none name w.net.servers
  rs ← get_elem? w.heap s
  some (get_count rs)

-- Where `ProcessReq` stands: it starts; it waits for the handler; it waits and the handler has
-- returned; it has given up and the handler has still to run; it sends the reply, at once or after a delay; it has
-- replied.
pub data Phase : Type 0 where
  arrived : Phase
  calling : Text → ℕ → EndnameInfo → Phase
  handled : Text → ℕ → EndnameInfo → ReplyMsg → Phase
  abandoned : ℕ → Phase
  answering : ReplyMsg → Phase
  replied : ReplyMsg → Phase

-- `replyMsg{false, nil}`
abbrev pub no_reply : ReplyMsg
no_reply = record { ok = false; reply = [] }

-- The reply that the client has, if any: `Call` returns with it.
abbrev pub reply_of : Phase → Option ReplyMsg
reply_of arrived = none
reply_of (calling n s i) = none
reply_of (handled n s i r) = none
reply_of (abandoned s) = some no_reply
reply_of (answering r) = none
reply_of (replied r) = some r

-- What the others do: the tester commands the network or makes a server, and another request is
-- handled.
pub data Other (σ : Type 0) : Type 0 where
  tester : Command → Other σ
  new_server : Server σ → Other σ
  other_request : ReqMsg → ℕ → Other σ

module _ {σ : Type 0} where
  unfoldable pub others : Other σ → World σ → Option (World σ)
  others (tester c) w = elim (command c w.net) [
    | none ↦ none
    | some rn ↦ some (record w { net = rn })
  ]
  others (new_server rs) w = some (record w { heap = w.heap ++ rs ∷ [] })
  others (other_request req s) w = elim (get_elem? w.heap s) [
    | none ↦ none
    | some rs ↦ elim (dispatch req rs) [
      | none ↦ none
      | some (rs', r) ↦ some (record w { heap = set w.heap s rs' })
    ]
  ]

module _ {σ : Type 0} (req : ReqMsg) where
  -- A step of the request, with the replies that the handler gave in it.
  pub data Own : World σ → Phase → World σ → Phase → List ReplyMsg → Type 0 where
    -- The end is not enabled or leads to no server.
    not_connected :
        {w : World σ}
        → (let i = read_endname_info req.endname w.net in
            (i.is_enabled ≡ false) ⊎ (i.servername ≡ none) ⊎ (i.server ≡ none))
        → Own w arrived w (replied no_reply) []
    -- The request is dropped.
    drop_request :
        {w : World σ} {n : Text} {s : ℕ}
        → (read_endname_info req.endname w.net).is_enabled ≡ true
        → (read_endname_info req.endname w.net).servername ≡ some n
        → (read_endname_info req.endname w.net).server ≡ some s
        → (read_endname_info req.endname w.net).is_reliable ≡ false
        → Own w arrived w (replied no_reply) []
    -- The handler is started.
    send :
        {w : World σ} {n : Text} {s : ℕ}
        → (read_endname_info req.endname w.net).is_enabled ≡ true
        → (read_endname_info req.endname w.net).servername ≡ some n
        → (read_endname_info req.endname w.net).server ≡ some s
        → Own w arrived w (calling n s (read_endname_info req.endname w.net)) []
    -- The handler runs.
    handle :
        {w : World σ} {n : Text} {s : ℕ} {i : EndnameInfo} {rs rs' : Server σ} {r : ReplyMsg}
        → get_elem? w.heap s ≡ some rs
        → dispatch req rs ≡ some (rs', r)
        → Own w (calling n s i) (record w { heap = set w.heap s rs' }) (handled n s i r) (r ∷ [])
    -- 100 ms pass, and the server is dead; the handler has not returned.
    give_up :
        {w : World σ} {n : Text} {s : ℕ} {i : EndnameInfo}
        → is_server_dead req.endname n s w.net ≡ true
        → Own w (calling n s i) w (abandoned s) []
    -- The handler that was given up runs all the same.
    handle_late :
        {w : World σ} {s : ℕ} {rs rs' : Server σ} {r : ReplyMsg}
        → get_elem? w.heap s ≡ some rs
        → dispatch req rs ≡ some (rs', r)
        → Own w (abandoned s) (record w { heap = set w.heap s rs' }) (replied no_reply) (r ∷ [])
    -- The server is dead, as the loop or the check after it finds.
    killed :
        {w : World σ} {n : Text} {s : ℕ} {i : EndnameInfo} {r : ReplyMsg}
        → is_server_dead req.endname n s w.net ≡ true
        → Own w (handled n s i r) w (replied no_reply) []
    -- The reply is dropped.
    drop_reply :
        {w : World σ} {n : Text} {s : ℕ} {i : EndnameInfo} {r : ReplyMsg}
        → is_server_dead req.endname n s w.net ≡ false
        → i.is_reliable ≡ false
        → Own w (handled n s i r) w (replied no_reply) []
    -- The server is alive, and the reply is not dropped.
    answer :
        {w : World σ} {n : Text} {s : ℕ} {i : EndnameInfo} {r : ReplyMsg}
        → is_server_dead req.endname n s w.net ≡ false
        → Own w (handled n s i r) w (answering r) []
    -- The reply goes to the client.
    deliver : {w : World σ} {r : ReplyMsg} → Own w (answering r) w (replied r) []

  -- A run from a world and a phase, where the others do only what `May` allows, with the replies of
  -- the request's handler, the latest first.
  pub data Run (May : Other σ → Type 0) (w : World σ) (p : Phase)
      : World σ → Phase → List ReplyMsg → Type 0 where
    here : Run May w p w p []
    meanwhile :
        {w1 w2 : World σ} {p1 : Phase} {rs : List ReplyMsg} (o : Other σ)
        → Run May w p w1 p1 rs
        → May o
        → others o w1 ≡ some w2
        → Run May w p w2 p1 rs
    own :
        {w1 w2 : World σ} {p1 p2 : Phase} {rs more : List ReplyMsg}
        → Run May w p w1 p1 rs
        → Own w1 p1 w2 p2 more
        → Run May w p w2 p2 (more ++ rs)
