-- ===== src/Tester/OneLeader.antt =====
-- src/raft/config.go, `checkOneLeader` on a cluster of src/raft/raft.go.
use mathlib.Core.Path.{subst}
use mit6824_distribute_syste.Prelude.{
  ℕ, ◌≤◌, ◌≡◌, ◌≢◌, refl, sym, ◌∙◌, ap, ◌⊎◌, inl, inr, true, false, Option, none, List, [], ◌∷◌,
  ◌++◌, length, ◌==◌, if◌then◌else◌, arith, Bool-cases, append-nil, append_assoc,
}
use mit6824_distribute_syste.Prelude.Int.{ℤ, negsuc, ltb_ℤ, ◌≤ℤ◌}
use mit6824_distribute_syste.Tester.Leaders.{
  Reading, Leaders, at_term, add_leader, collect_leaders, Outcome, no_leader, found, last_term,
  first_leader, judge, check_one_leader,
}

-- No leader of a term is among the readings; the readings have at most one leader of each term.
abbrev pub NoneOf : ℕ → List Reading → Type 0
NoneOf t [] = Unit {0}
NoneOf t (r ∷ rs) = (r.is_leader ≡ true → r.term ≢ t) × NoneOf t rs

abbrev pub OncePerTerm : List Reading → Type 0
OncePerTerm [] = Unit {0}
OncePerTerm (r ∷ rs) = (r.is_leader ≡ true → NoneOf r.term rs) × OncePerTerm rs

abbrev pub AllOnce : List (List Reading) → Type 0
AllOnce [] = Unit {0}
AllOnce (rs ∷ rounds) = OncePerTerm rs × AllOnce rounds

-- The servers that were read as leaders of a term.
abbrev servers_of : ℕ → List Reading → List ℕ
servers_of t [] = []
servers_of t (r ∷ rs) =
    let rest = servers_of t rs in
    if r.is_leader then (if r.term == t then r.server ∷ rest else rest) else rest

abbrev Singles : Leaders → Type 0
Singles [] = Unit {0}
Singles ((t, is) ∷ m) = (length is ≡ 1) × Singles m

nil-cases {ℓ} : {A : Type ℓ} (xs : List A) → (xs ≡ []) ⊎ (xs ≢ [])
nil-cases [] = inl refl
nil-cases (x ∷ xs) = inr (λ e. cc)

list-cases {ℓ} : {A : Type ℓ} (xs : List A) → (xs ≡ []) ⊎ ((x : A) × (ys : List A) × (xs ≡ x ∷ ys))
list-cases [] = inl refl
list-cases (x ∷ xs) = inr (x, xs, refl)

at_term-add_leader :
    (t i u : ℕ) (m : Leaders)
    → at_term u (add_leader t i m) ≡ (if t == u then at_term u m ++ i ∷ [] else at_term u m)
unfolding at_term add_leader
at_term-add_leader t i u [] = ground arith
at_term-add_leader t i u ((v, is) ∷ m) = ground (arith, at_term-add_leader t i u m)

add_leader-Singles :
    (t i : ℕ) (m : Leaders) → Singles m → at_term t m ≡ [] → Singles (add_leader t i m)
unfolding at_term add_leader
add_leader-Singles t i [] s h = (refl, tt)
add_leader-Singles t i ((v, is) ∷ m) s h = ground (arith, add_leader-Singles t i m)

at_term-collect_leaders :
    (t : ℕ) (rs : List Reading) (m : Leaders)
    → at_term t (collect_leaders rs m) ≡ at_term t m ++ servers_of t rs
unfolding collect_leaders
at_term-collect_leaders t [] m = sym (append-nil (at_term t m))
at_term-collect_leaders t (r ∷ rs) m = ground (
  arith,
  at_term-collect_leaders t rs m,
  at_term-collect_leaders t rs (add_leader r.term r.server m),
  at_term-add_leader r.term r.server t m,
  append_assoc (at_term t m) (r.server ∷ []) (servers_of t rs),
)

servers_of-NoneOf : (t : ℕ) (rs : List Reading) → NoneOf t rs → servers_of t rs ≡ []
servers_of-NoneOf t [] n = refl
servers_of-NoneOf t (r ∷ rs) n = ground (arith, servers_of-NoneOf t rs)

-- The map has no term of which a leader is still to come.
abbrev Fresh : Leaders → List Reading → Type 0
Fresh m rs = (t : ℕ) → at_term t m ≢ [] → NoneOf t rs

NoneOf-self : (r : Reading) (rs : List Reading) → r.is_leader ≡ true → ¬ NoneOf r.term (r ∷ rs)
NoneOf-self r rs l n = n.0 l refl

collect_leaders-Singles :
    (rs : List Reading) (m : Leaders)
    → Singles m
    → Fresh m rs
    → OncePerTerm rs
    → Singles (collect_leaders rs m)
unfolding collect_leaders
collect_leaders-Singles [] m s f o = s
collect_leaders-Singles (r ∷ rs) m s f o = elim (Bool-cases r.is_leader) [
  | inl l ↦ elim (nil-cases (at_term r.term m)) [
    | inl empty ↦ rw l (
        collect_leaders-Singles rs (add_leader r.term r.server m)
          (add_leader-Singles r.term r.server m s empty)
          (λ t ne. elim (Bool-cases (r.term == t)) [
            | inl same ↦ let e : r.term ≡ t = ground arith in subst (λ u. NoneOf u rs) e (o.0 l)
            | inr other ↦ (f t (λ e. ne (at_term-add_leader r.term r.server t m ∙ rw other e))).1
          ])
          o.1)
    | inr ne ↦ absurd (NoneOf-self r rs l (f r.term ne))
  ]
  | inr l ↦ rw l (collect_leaders-Singles rs m s (λ t ne. (f t ne).1) o.1)
]

-- No term of the map is above `z`.
abbrev Below : ℤ → Leaders → Type 0
Below z [] = Unit {0}
Below z ((t, is) ∷ m) = (ℤ.pos t ≤ℤ z) × Below z m

last_term_lem :
    (last : ℤ) (m : Leaders)
    → Singles m
    → (z : ℤ) × (last_term last m ≡ (z, none))
      × (last ≤ℤ z)
      × Below z m
      × ((z ≡ last) ⊎ ((t : ℕ) × (z ≡ ℤ.pos t) × (at_term t m ≢ [])))
unfolding last_term at_term
last_term_lem last [] s = (last, refl, omega arith, tt, inl refl)
last_term_lem last ((t, is) ∷ m) s =
    let next = if ltb_ℤ last (ℤ.pos t) then ℤ.pos t else last in
    let (z, eq, le, below, which) = last_term_lem next m s.1 in
    let ne : is ≢ [] = λ e. ground (arith, s.0) in
    (
      z,
      ground (arith, eq, s.0),
      ground (arith, le),
      (ground (arith, le), below),
      elim which [
        | inl e ↦ elim (Bool-cases (ltb_ℤ last (ℤ.pos t))) [
          | inl above ↦ inr (t, e ∙ rw above refl, λ h. ne (ground (arith, h)))
          | inr other ↦ inl (e ∙ rw other refl)
        ]
        | inr (u, e, there) ↦ inr (u, e, λ h. ground (arith, h, there, ne))
      ],
    )

-- What is read of the leaders: a server with its term, no leader, or none above a term.
abbrev pub LeaderIn : ℕ → ℕ → List Reading → Type 0
LeaderIn i t [] = ⊥
LeaderIn i t (r ∷ rs) = ((r.server ≡ i) × (r.term ≡ t) × (r.is_leader ≡ true)) ⊎ LeaderIn i t rs

abbrev pub NoLeader : List Reading → Type 0
NoLeader [] = Unit {0}
NoLeader (r ∷ rs) = (r.is_leader ≡ false) × NoLeader rs

abbrev pub NoLater : ℕ → List Reading → Type 0
NoLater t [] = Unit {0}
NoLater t (r ∷ rs) = (r.is_leader ≡ true → r.term ≤ t) × NoLater t rs

-- What `checkOneLeader` is to report: the first round with a leader decides, and the leader of the
-- greatest term is the result.
abbrev pub Decided : List (List Reading) → Outcome → Type 0
Decided [] o = o ≡ no_leader
Decided (rs ∷ rounds) o =
    (NoLeader rs × Decided rounds o) ⊎ ((i t : ℕ) × (o ≡ found i) × LeaderIn i t rs × NoLater t rs)

servers_of-LeaderIn :
    (t : ℕ) (rs : List Reading) {i : ℕ} {is : List ℕ} → servers_of t rs ≡ i ∷ is → LeaderIn i t rs
servers_of-LeaderIn t [] e = absurd (cc)
servers_of-LeaderIn t (r ∷ rs) {i} {is} e = elim (Bool-cases r.is_leader) [
  | inl l ↦ elim (Bool-cases (r.term == t)) [
    | inl same ↦ inl (ground arith)
    | inr other ↦ inr (servers_of-LeaderIn t rs {is = is} (ground arith))
  ]
  | inr l ↦ inr (servers_of-LeaderIn t rs {is = is} (ground arith))
]

servers_of-NoLeader : (rs : List Reading) → ((t : ℕ) → servers_of t rs ≡ []) → NoLeader rs
servers_of-NoLeader [] h = tt
servers_of-NoLeader (r ∷ rs) h =
    let l : r.is_leader ≡ false = ground (arith, h r.term) in
    (l, servers_of-NoLeader rs (λ t. ground (arith, h t)))

servers_of-NoLater :
    (z : ℕ) (rs : List Reading) → ((t : ℕ) → servers_of t rs ≢ [] → t ≤ z) → NoLater z rs
servers_of-NoLater z [] h = tt
servers_of-NoLater z (r ∷ rs) h =
    ((λ l. h r.term (λ e. ground arith)), servers_of-NoLater z rs (λ t ne. h t (λ e. ground arith)))

at_term-Below : (z : ℤ) (t : ℕ) (m : Leaders) → Below z m → at_term t m ≢ [] → ℤ.pos t ≤ℤ z
unfolding at_term
at_term-Below z t [] b ne = absurd (ne refl)
at_term-Below z t ((u, is) ∷ m) b ne = elim (Bool-cases (u == t)) [
  | inl same ↦ ground (arith, b.0)
  | inr other ↦ at_term-Below z t m b.1 (λ e. ground arith)
]

judge_cons :
    (e : ℕ × List ℕ) (m : Leaders) (rest : Outcome) (z : ℤ)
    → last_term (negsuc 0) (e ∷ m) ≡ (z, none)
    → judge (e ∷ m) rest ≡ first_leader z (e ∷ m)
unfolding judge
judge_cons e m rest z eq = rw (eq, judge) (ap (λ (q : ℤ × Option ℕ). first_leader q.0 (e ∷ m)) eq)

first_leader_lem :
    (t : ℕ) (m : Leaders)
    → at_term t m ≢ []
    → (i : ℕ) × (is : List ℕ) × (first_leader (ℤ.pos t) m ≡ found i) × (at_term t m ≡ i ∷ is)
unfolding first_leader
first_leader_lem t m ne = elim (list-cases (at_term t m)) [
  | inl e ↦ absurd (ne e)
  | inr (i, is, e) ↦ (i, is, rw (e, first_leader) refl, e)
]

judge_round :
    (entry : ℕ × List ℕ) (m : Leaders) (rs : List Reading) (rest : Outcome)
    → Singles (entry ∷ m)
    → ((t : ℕ) → at_term t (entry ∷ m) ≡ servers_of t rs)
    → (NoLeader rs × (judge (entry ∷ m) rest ≡ rest))
      ⊎ ((i t : ℕ) × (judge (entry ∷ m) rest ≡ found i) × LeaderIn i t rs × NoLater t rs)
judge_round entry m rs rest s e =
    let (z, eq, le, below, which) = last_term_lem (negsuc 0) (entry ∷ m) s in
    elim which [
      | inl none_above ↦ absurd (ground (arith, none_above, below.0))
      | inr (t, at, ne) ↦
          let (i, is, first, there) = first_leader_lem t (entry ∷ m) ne in
          inr (
            i,
            t,
            judge_cons entry m rest z eq ∙ rw at first,
            servers_of-LeaderIn t rs (sym (e t) ∙ there),
            servers_of-NoLater t rs (λ u there'.
                ground
                  (arith, at, at_term-Below z u (entry ∷ m) below (λ h. there' (sym (e u) ∙ h)))),
          )
    ]

-- One round, from the map that its loop makes.
judge_lem :
    (m : Leaders) (rs : List Reading) (rest : Outcome)
    → Singles m
    → ((t : ℕ) → at_term t m ≡ servers_of t rs)
    → (NoLeader rs × (judge m rest ≡ rest))
      ⊎ ((i t : ℕ) × (judge m rest ≡ found i) × LeaderIn i t rs × NoLater t rs)
unfolding judge at_term
judge_lem [] rs rest s e = inl (servers_of-NoLeader rs (λ t. sym (e t)), refl)
judge_lem (entry ∷ m) rs rest s e = judge_round entry m rs rest s e

-- Where no round shows two leaders of one term, the check reports what it is to report.
pub check_one_leader-Decided :
    (rounds : List (List Reading)) → AllOnce rounds → Decided rounds (check_one_leader rounds)
unfolding check_one_leader at_term
check_one_leader-Decided [] o = refl
check_one_leader-Decided (rs ∷ rounds) o =
    let m = collect_leaders rs [] in
    let rest = check_one_leader rounds in
    elim (judge_lem m rs rest (collect_leaders-Singles rs [] tt (λ t ne. absurd (ne refl)) o.0)
      (λ t. at_term-collect_leaders t rs [])) [
        | inl (none_led, e) ↦
            inl (none_led, subst (Decided rounds) (sym e) (check_one_leader-Decided rounds o.1))
        | inr decided ↦ inr decided
      ]
