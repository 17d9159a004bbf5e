-- ===== src/Labrpc/Server.antt =====
-- src/labrpc/labrpc.go, `Server` and `Service`: how a request finds its handler. Reflection and gob
-- are parameters: a method takes the bytes of its arguments and the state of its object. `none` is
-- the end of the process, by `log.Fatalf` or by a panic.
use mit6824_distribute_syste.Prelude.{
  ℕ, suc, ◌+◌, ◌≡◌, refl, Bool, true, false, ◌&&◌, Option, none, some, List, [], ◌∷◌, ◌++◌, ◌==◌,
  if◌then◌else◌, arith,
}
use mit6824_distribute_syste.Prelude.Text.{Text, text_eq, text_eq_iff}
use mit6824_distribute_syste.Prelude.Maps.{Map, lookup, put, lookup-put}

-- `reqMsg` and `replyMsg`, without the type of the arguments and the channel of the reply.
pub record ReqMsg : Type 0 where
  pub endname : Text
  pub svc_meth : Text
  pub args : List ℕ

pub record ReplyMsg : Type 0 where
  pub ok : Bool
  pub reply : List ℕ

-- What a method does with the bytes of its arguments: the state of its object after the call, and
-- the bytes of the reply.
abbrev pub Handler : Type 0 → Type 0
Handler σ = List ℕ → σ → σ × List ℕ

-- What `reflect` tells of a method. `reply_is_ptr` is looked at only where there are three inputs.
pub record Method (σ : Type 0) : Type 0 where
  pub name : Text
  pub pkg_path : Text
  pub num_in : ℕ
  pub reply_is_ptr : Bool
  pub num_out : ℕ
  pub func : Handler σ

pub record Service (σ : Type 0) : Type 0 where
  pub name : Text
  pub rcvr : σ
  pub methods : Map (Handler σ)

pub record Server (σ : Type 0) : Type 0 where
  pub services : Map (Service σ)
  pub count : ℕ

module _ {σ : Type 0} where
  -- The test in `MakeService`, negated: whether the method looks like a handler.
  unfoldable pub suitable : Method σ → Bool
  suitable m = text_eq m.pkg_path [] && m.num_in == 3 && m.reply_is_ptr && m.num_out == 0

  -- The loop of `MakeService`.
  unfoldable pub add_methods : List (Method σ) → Map (Handler σ) → Map (Handler σ)
  unfolding suitable
  add_methods [] ms = ms
  add_methods (m ∷ rest) ms = add_methods rest (if suitable m then put m.name m.func ms else ms)

  unfoldable pub make_service : Text → σ → List (Method σ) → Service σ
  make_service name rcvr ms = record { name = name; rcvr = rcvr; methods = add_methods ms [] }

  unfoldable pub make_server : Server σ
  make_server = record { services = []; count = 0 }

  unfoldable pub add_service : Service σ → Server σ → Server σ
  add_service svc rs = record rs { services = put svc.name svc rs.services }

  -- `Service.dispatch`
  unfoldable pub service_dispatch : Text → ReqMsg → Service σ → Option (Service σ × ReplyMsg)
  service_dispatch methname req svc = elim (lookup methname svc.methods) [
    | none ↦ none
    | some method ↦
        let (rcvr, bytes) = method req.args svc.rcvr in
        some (record svc { rcvr = rcvr }, record { ok = true; reply = bytes })
  ]

-- `strings.LastIndex(s, ".")` and the parts before and after it; `none` where there is no dot, and
-- the slice that ends at -1 is a panic.
unfoldable pub split_last_dot : Text → Option (Text × Text)
split_last_dot [] = none
split_last_dot (b ∷ s) = elim (split_last_dot s) [
  | some (svc, meth) ↦ some (b ∷ svc, meth)
  | none ↦ if b == b'.' then some ([], s) else none
]

module _ {σ : Type 0} where
  -- `Server.dispatch`
  unfoldable pub dispatch : ReqMsg → Server σ → Option (Server σ × ReplyMsg)
  unfolding service_dispatch
  dispatch req rs =
      let rs1 = record rs { count = rs.count + 1 } in
      elim (split_last_dot req.svc_meth) [
        | none ↦ none
        | some (service_name, method_name) ↦ elim (lookup service_name rs1.services) [
          | none ↦ none
          | some service ↦ elim (service_dispatch method_name req service) [
            | none ↦ none
            | some (service', r) ↦
                some (record rs1 { services = put service_name service' rs1.services }, r)
          ]
        ]
      ]

  -- `GetCount`
  unfoldable pub get_count : Server σ → ℕ
  get_count rs = rs.count

-- No dot among the bytes.
abbrev pub NoDot : Text → Type 0
NoDot [] = Unit
NoDot (b ∷ s) = (b == b'.' ≡ false) × NoDot s

no_dot : (meth : Text) → NoDot meth → split_last_dot meth ≡ none
unfolding split_last_dot
no_dot [] h = refl
no_dot (b ∷ s) h = ground (arith, no_dot s h.1, h.0)

split_last_dot_lem :
    (svc meth : Text) → NoDot meth → split_last_dot (svc ++ (b'.' ∷ meth)) ≡ some (svc, meth)
unfolding split_last_dot
split_last_dot_lem [] meth h = ground (arith, no_dot meth h)
split_last_dot_lem (b ∷ svc) meth h = ground (arith, split_last_dot_lem svc meth h)

module _ {σ : Type 0} where
  -- The last handler of a name among the methods.
  unfoldable pub last_handler : Text → List (Method σ) → Option (Handler σ)
  last_handler name [] = none
  last_handler name (m ∷ ms) = elim (last_handler name ms) [
    | some h ↦ some h
    | none ↦ if suitable m && text_eq m.name name then some m.func else none
  ]

  lookup-add_methods :
      (ms : List (Method σ)) (name : Text) (hs : Map (Handler σ))
      → lookup name (add_methods ms hs)
        ≡ elim (last_handler name ms) [ some h ↦ some h | none ↦ lookup name hs ]
  unfolding add_methods last_handler
  lookup-add_methods [] name hs = refl
  lookup-add_methods (m ∷ ms) name hs = ground (
    arith,
    lookup-add_methods ms name (if suitable m then put m.name m.func hs else hs),
    lookup-put m.name name m.func hs,
  )

  -- The request of a service and a method that are there, as `MakeService` and `AddService` put
  -- them, runs that method on the service's object and answers with its reply; the request is counted, and
  -- the other services stay as they are.
  pub dispatch_lem :
      (svc meth : Text) (obj : σ) (ms : List (Method σ)) (rs : Server σ) (req : ReqMsg)
      {h : Handler σ}
      → NoDot meth
      → req.svc_meth ≡ svc ++ (b'.' ∷ meth)
      → last_handler meth ms ≡ some h
      → (rs' : Server σ) × (dispatch req (add_service (make_service svc obj ms) rs)
          ≡ some (rs', record { ok = true; reply = (h req.args obj).1 }))
        × (rs'.count ≡ suc rs.count)
        × ((other : Text)
            → lookup other rs'.services ≡ (
                if text_eq svc other
                then some (record (make_service svc obj ms) { rcvr = (h req.args obj).0 })
                else lookup other rs.services))
  unfolding dispatch add_service make_service service_dispatch
  dispatch_lem svc meth obj ms rs req {h} nd e found =
      let service : Service σ = make_service svc obj ms in
      let there : lookup svc (put svc service rs.services) ≡ some service =
        ground (arith, lookup-put svc svc service rs.services, text_eq_iff svc svc) in
      let method : lookup meth (add_methods ms []) ≡ some h =
        ground (arith, lookup-add_methods ms meth [], found) in
      let after = record service { rcvr = (h req.args obj).0 } in
      (
        record rs { count = rs.count + 1; services = put svc after (put svc service rs.services) },
        ground (arith, e, split_last_dot_lem svc meth nd, there, method),
        omega arith,
        (λ other. ground (
          arith,
          lookup-put svc other after (put svc service rs.services),
          lookup-put svc other service rs.services,
        )),
      )
