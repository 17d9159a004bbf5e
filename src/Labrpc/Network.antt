-- ===== src/Labrpc/Network.antt =====
-- src/labrpc/labrpc.go, `Network`: its state and the operations of the tester. Names are texts, a
-- server is its address among the servers made; `none` is the end of the process.
use mit6824_distribute_syste.Prelude.{
  ℕ, ◌≡◌, Bool, true, false, not, ◌||◌, Option, none, some, List, [], ◌∷◌, ◌==◌, arith,
}
use mit6824_distribute_syste.Prelude.Text.{Text, text_eq_iff}
use mit6824_distribute_syste.Prelude.Maps.{Map, lookup, put, lookup-put}

-- `ClientEnd`, without its channel, which is the network's.
pub record ClientEnd : Type 0 where
  pub endname : Text

-- `Network`, without its channel. A value nil is `none`.
pub record Network : Type 0 where
  pub reliable : Bool
  pub long_delays : Bool
  pub long_reordering : Bool
  pub ends : Map ClientEnd
  pub enabled : Map Bool
  pub servers : Map (Option ℕ)
  pub connections : Map (Option Text)

unfoldable pub make_network : Network
make_network = record {
  reliable = true;
  long_delays = false;
  long_reordering = false;
  ends = [];
  enabled = [];
  servers = [];
  connections = [];
}

-- The value of a map at a key, and the zero value where there is none.
abbrev pub at_key {ℓ} : {V : Type ℓ} → V → Text → Map V → V
at_key zero_value key m = elim (lookup key m) [ none ↦ zero_value | some v ↦ v ]

pub record EndnameInfo : Type 0 where
  pub is_enabled : Bool
  pub servername : Option Text
  pub server : Option ℕ
  pub is_reliable : Bool
  pub is_reordering : Bool

unfoldable pub read_endname_info : Text → Network → EndnameInfo
read_endname_info endname rn =
    let name = at_key none endname rn.connections in
    record {
      is_enabled = at_key false endname rn.enabled;
      servername = name;
      server = elim name [ none ↦ none | some n ↦ at_key none n rn.servers ];
      is_reliable = rn.reliable;
      is_reordering = rn.long_reordering;
    }

-- Whether two pointers are the same; the second is not nil.
abbrev pub same_server : Option ℕ → ℕ → Bool
same_server none t = false
same_server (some s) t = s == t

unfoldable pub is_server_dead : Text → Text → ℕ → Network → Bool
is_server_dead endname name server rn =
    not (at_key false endname rn.enabled) || not (same_server (at_key none name rn.servers) server)

unfoldable pub make_end : Text → Network → Option (Network × ClientEnd)
make_end endname rn = elim (lookup endname rn.ends) [
  | some _ ↦ none
  | none ↦
      let e : ClientEnd = record { endname = endname } in
      some (
        record rn {
          ends = put endname e rn.ends;
          enabled = put endname false rn.enabled;
          connections = put endname none rn.connections;
        },
        e,
      )
]

unfoldable pub set_reliable : Bool → Network → Network
set_reliable b rn = record rn { reliable = b }

unfoldable pub set_long_reordering : Bool → Network → Network
set_long_reordering b rn = record rn { long_reordering = b }

unfoldable pub set_long_delays : Bool → Network → Network
set_long_delays b rn = record rn { long_delays = b }

unfoldable pub add_server : Text → ℕ → Network → Network
add_server name server rn = record rn { servers = put name (some server) rn.servers }

unfoldable pub delete_server : Text → Network → Network
delete_server name rn = record rn { servers = put name none rn.servers }

unfoldable pub connect : Text → Text → Network → Network
connect endname name rn = record rn { connections = put endname (some name) rn.connections }

unfoldable pub enable : Text → Bool → Network → Network
enable endname b rn = record rn { enabled = put endname b rn.enabled }

-- What the tester does to the network, by the methods above.
pub data Command : Type 0 where
  reliably long_delaying reorder : Bool → Command
  new_end : Text → Command
  adding : Text → ℕ → Command
  deleting : Text → Command
  connecting : Text → Text → Command
  enabling : Text → Bool → Command

unfoldable pub command : Command → Network → Option Network
unfolding set_reliable set_long_reordering set_long_delays add_server delete_server connect enable
command (reliably b) rn = some (set_reliable b rn)
command (long_delaying b) rn = some (set_long_delays b rn)
command (reorder b) rn = some (set_long_reordering b rn)
command (new_end e) rn = elim (make_end e rn) [ none ↦ none | some (rn', end) ↦ some rn' ]
command (adding n s) rn = some (add_server n s rn)
command (deleting n) rn = some (delete_server n rn)
command (connecting e n) rn = some (connect e n rn)
command (enabling e b) rn = some (enable e b rn)

-- A new end, connected and enabled, leads to the server that was added under the name.
abbrev pub wire : Text → Text → ℕ → List Command
wire e n s = new_end e ∷ (connecting e n ∷ (adding n s ∷ (enabling e true ∷ [])))

unfoldable pub commands : List Command → Network → Option Network
commands [] rn = some rn
commands (c ∷ cs) rn = elim (command c rn) [ none ↦ none | some rn' ↦ commands cs rn' ]

-- An end of a new name that is made, connected to a server and enabled, once the server is added,
-- leads to that server, which is not dead to it.
pub wire_lem :
    (e n : Text) (s : ℕ) (rn : Network)
    → lookup e rn.ends ≡ none
    → (rn' : Network) × (commands (wire e n s) rn ≡ some rn')
      × (read_endname_info e rn' ≡ record {
        is_enabled = true;
        servername = some n;
        server = some s;
        is_reliable = rn.reliable;
        is_reordering = rn.long_reordering;
      })
      × (is_server_dead e n s rn' ≡ false)
unfolding command commands read_endname_info is_server_dead make_end
wire_lem e n s rn h =
    let rn' : Network = record rn {
      ends = put e (record { endname = e }) rn.ends;
      enabled = put e true (put e false rn.enabled);
      servers = put n (some s) rn.servers;
      connections = put e (some n) (put e none rn.connections);
    } in
    let conn = lookup-put e e (some n) (put e none rn.connections) in
    let serv = lookup-put n n (some s) rn.servers in
    let en = lookup-put e e true (put e false rn.enabled) in
    (
      rn',
      ground (arith, h),
      ground (arith, conn, serv, en, text_eq_iff e e, text_eq_iff n n),
      ground (arith, serv, en, text_eq_iff e e, text_eq_iff n n),
    )
