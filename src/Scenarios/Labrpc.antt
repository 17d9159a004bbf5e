-- ===== src/Scenarios/Labrpc.antt =====
-- The RPC network (src/labrpc) with one server, which counts the bytes it is sent.
use mit6824_distribute_syste.Prelude.{
  ℕ, ◌+◌, ◌≤◌, ◌<◌, ◌≡◌, ◌⊎◌, refl, true, false, some, none, List, [], ◌∷◌, ◌++◌, length,
  if◌then◌else◌,
}
use mit6824_distribute_syste.Prelude.Text.{Text, text_eq}
use mit6824_distribute_syste.Prelude.Maps.{lookup, put}
use mit6824_distribute_syste.Labrpc.Network.{
  Network, read_endname_info, is_server_dead, EndnameInfo,
}
use mit6824_distribute_syste.Labrpc.Server.{
  Handler, Method, Server, ReqMsg, ReplyMsg, make_service, make_server, add_service, dispatch,
  dispatch_lem, last_handler, service_dispatch, split_last_dot, suitable, add_methods,
}
use mit6824_distribute_syste.Labrpc.Process.{
  World, Phase, arrived, calling, replied, Own, send, handle, answer, deliver, Run, here, own,
  reply_of,
}
use mit6824_distribute_syste.Labrpc.Calls.{ran_once}
use mit6824_distribute_syste.Labrpc.Progress.{call_returns, left}

abbrev counting : Handler ℕ
counting args n = (n + length args, n ∷ [])

abbrev meth : Text
meth = b'M' ∷ []

abbrev svc : Text
svc = b'K' ∷ (b'.' ∷ (b'V' ∷ []))

abbrev methods : List (Method ℕ)
methods =
    record {
      name = meth;
      pkg_path = [];
      num_in = 3;
      reply_is_ptr = true;
      num_out = 0;
      func = counting;
    }
    ∷ (record {
      name = meth;
      pkg_path = [];
      num_in = 2;
      reply_is_ptr = true;
      num_out = 0;
      func = λ a n. (n, []);
    }
        ∷ [])

abbrev request : ReqMsg
request = record { endname = b'e' ∷ []; svc_meth = svc ++ (b'.' ∷ meth); args = 7 ∷ (8 ∷ []) }

abbrev node : Server ℕ
node = add_service (make_service svc 5 methods) make_server

abbrev name : Text
name = b's' ∷ []

last_is_counting : last_handler meth methods ≡ some counting
unfolding last_handler suitable
last_is_counting = refl

dispatch_lem_example :
    (rs' : Server ℕ) × (dispatch request node ≡ some (rs', record { ok = true; reply = 5 ∷ [] }))
    × (rs'.count ≡ 1)
    × ((other : Text)
        → lookup other rs'.services ≡ (
            if text_eq svc other
            then some (record (make_service svc 5 methods) { rcvr = 7 })
            else lookup other []))
unfolding make_server
dispatch_lem_example =
    dispatch_lem svc meth 5 methods make_server request (refl, tt) refl last_is_counting

abbrev net : Network
net = record {
  reliable = true;
  long_delays = false;
  long_reordering = false;
  ends = (request.endname, record { endname = request.endname }) ∷ [];
  enabled = (request.endname, true) ∷ [];
  servers = (name, some 0) ∷ [];
  connections = (request.endname, some name) ∷ [];
}

abbrev before : World ℕ
before = record { net = net; heap = node ∷ [] }

abbrev served_node : Server ℕ
served_node = record {
  services = (svc, record (make_service svc 5 methods) { rcvr = 7 }) ∷ [];
  count = 1;
}

abbrev after : World ℕ
after = record { net = net; heap = served_node ∷ [] }

abbrev five : ReplyMsg
five = record { ok = true; reply = 5 ∷ [] }

node_serves : dispatch request node ≡ some (served_node, five)
unfolding dispatch service_dispatch split_last_dot add_service make_service make_server add_methods
    suitable lookup put
node_serves = refl

abbrev info : EndnameInfo
info = record {
  is_enabled = true;
  servername = some name;
  server = some 0;
  is_reliable = true;
  is_reordering = false;
}

answered : Run request (λ o. Unit) before arrived after (replied five) (five ∷ [])
unfolding read_endname_info is_server_dead lookup
answered =
    own (own (own (own here (send refl refl refl)) (handle refl node_serves)) (answer refl)) deliver

ran_once_example :
    (length (five ∷ []) ≤ 1)
    × ((r : ReplyMsg) → reply_of (replied five) ≡ some r → r.ok ≡ true → five ∷ [] ≡ r ∷ [])
ran_once_example = ran_once request (λ o. Unit) answered

abbrev deleted : Network
deleted = record net { servers = (name, none) ∷ [] }

call_returns_example :
    (((r : ReplyMsg) × (calling name 0 info ≡ replied r))
      ⊎ ((w' : World ℕ) × (p' : Phase) × (more : List ReplyMsg) × Own request before
            (calling name 0 info)
            w'
            p'
            more))
    × ((w' : World ℕ) (p' : Phase) (more : List ReplyMsg)
        → Own request before (calling name 0 info) w' p' more
        → left p' < left (calling name 0 info))
call_returns_example =
    call_returns request before (calling name 0 info) (node, served_node, five, refl, node_serves)
