-- ===== src/Tester/Applied.antt =====
-- src/raft/config.go: the logs that the readers of the apply channels keep.
use mathlib.Core.Path.{subst}
use mit6824_distribute_syste.Prelude.{
  ℕ, zero, suc, ◌+◌, ◌-◌, ◌≤◌, ◌<◌, ◌≡◌, refl, sym, ◌∙◌, ◌⊎◌, inl, inr, false, none, some, List, [],
  ◌∷◌, ◌==◌, if◌then◌else◌, get_elem?, get_elem?-write_self, get_elem?-write_ne, write, replicate,
  arith, Bool-cases, Option-cases, ℕ_discrete,
}
use mit6824_distribute_syste.Prelude.Int.{ℤ, negsuc, eqb_ℤ_iff}
use mit6824_distribute_syste.Raft.Peer.{ApplyMsg}
use mit6824_distribute_syste.Tester.Commits.{
  CommitLog, command_at, put_command, conflicts, apply_msg, apply_msgs, n_committed,
}
use mit6824_distribute_syste.Tester.Agreement.{holders, AllHave, Has, n_committed_lem}

command_at-put_command :
    (k j : ℕ) (v : ℤ) (l : CommitLog)
    → command_at j (put_command k v l) ≡ (if k == j then some v else command_at j l)
unfolding command_at put_command
command_at-put_command k j v [] = ground arith
command_at-put_command k j v ((i, u) ∷ l) = ground (arith, command_at-put_command k j v l)

no_conflicts :
    (k : ℕ) (v : ℤ) (logs : List CommitLog) (i : ℕ) (l : CommitLog) (a : ℤ)
    → conflicts k v logs ≡ false
    → get_elem? logs i ≡ some l
    → command_at k l ≡ some a
    → a ≡ v
unfolding conflicts
no_conflicts k v [] i l a h at has = absurd (cc)
no_conflicts k v (m ∷ logs) zero l a h at has =
    let e : m ≡ l = ground arith in ground (arith, e, has, h, eqb_ℤ_iff a v)
no_conflicts k v (m ∷ logs) (suc i) l a h at has =
    no_conflicts k v logs i l a (ground (arith, h)) at has

-- What a reader that goes on has done.
pub record Took (i : ℕ) (m : ApplyMsg ℤ) (logs logs' : List CommitLog) : Type 0 where
  pub value : ℤ
  pub own : CommitLog
  pub at : get_elem? logs i ≡ some own
  pub put_there : write logs i (put_command m.index value own) ≡ some logs'
  pub fits : conflicts m.index value logs ≡ false
  pub follows : 1 < m.index → (b : ℤ) × (command_at (m.index - 1) own ≡ some b)

apply_msg_lem :
    (i : ℕ) (m : ApplyMsg ℤ) (logs logs' : List CommitLog)
    → apply_msg i m logs ≡ some logs'
    → (logs' ≡ logs) ⊎ Took i m logs logs'
unfolding apply_msg
apply_msg_lem i m logs logs' h = elim (Bool-cases m.use_snapshot) [
  | inl s ↦ inl (ground (arith, s, h))
  | inr s ↦ elim (Option-cases m.command) [
    | inl c ↦ absurd (ground (arith, s, c, h))
    | inr (v, c) ↦ elim (Option-cases (get_elem? logs i)) [
      | inl a ↦ absurd (ground (arith, s, c, a, h))
      | inr (own, a) ↦ elim (Option-cases (write logs i (put_command m.index v own))) [
        | inl w ↦ absurd (ground (arith, s, c, a, w, h))
        | inr (ls, w) ↦ inr (record {
          value = v;
          own = own;
          at = a;
          put_there = ground (arith, s, c, a, w, h);
          fits = ground (arith, s, c, a, w, h);
          follows = λ lt. elim (Option-cases (command_at (m.index - 1) own)) [
            | inl p ↦ absurd (ground (arith, s, c, a, w, p, h))
            | inr b ↦ b
          ];
        })
      ]
    ]
  ]
]

-- Where a command of the logs comes from: the message, or the logs before it.
Took-origin :
    {i : ℕ} {m : ApplyMsg ℤ} {logs logs' : List CommitLog} (t : Took i m logs logs') (j k : ℕ)
    (l' : CommitLog) (a : ℤ)
    → get_elem? logs' j ≡ some l'
    → command_at k l' ≡ some a
    → ((i ≡ j) × (m.index ≡ k) × (t.value ≡ a))
      ⊎ ((l : CommitLog) × (get_elem? logs j ≡ some l) × (command_at k l ≡ some a))
Took-origin {i} {m} {logs} t j k l' a at has = elim (ℕ_discrete i j) [
  | yes e ↦
      let here = get_elem?-write_self logs i (put_command m.index t.value t.own) t.put_there in
      let same : l' ≡ put_command m.index t.value t.own = ground (arith, here, at, e) in
      elim (ℕ_discrete m.index k) [
        | yes f ↦
            inl (e, f, ground (arith, command_at-put_command m.index k t.value t.own, same, has, f))
        | no ne ↦ inr (
          t.own,
          ground (arith, t.at, e),
          ground (arith, command_at-put_command m.index k t.value t.own, same, has, ne),
        )
      ]
  | no ne ↦ inr (
    l',
    sym (get_elem?-write_ne logs i j (put_command m.index t.value t.own) t.put_there ne) ∙ at,
    has,
  )
]

-- A command that was there is there, at least with the value of the message.
Took-kept :
    {i : ℕ} {m : ApplyMsg ℤ} {logs logs' : List CommitLog} (t : Took i m logs logs') (j k : ℕ)
    (l l' : CommitLog) (a : ℤ)
    → get_elem? logs j ≡ some l
    → command_at k l ≡ some a
    → get_elem? logs' j ≡ some l'
    → (b : ℤ) × (command_at k l' ≡ some b)
Took-kept {i} {m} {logs} t j k l l' a at has at' = elim (ℕ_discrete i j) [
  | yes e ↦
      let here = get_elem?-write_self logs i (put_command m.index t.value t.own) t.put_there in
      let same : l' ≡ put_command m.index t.value t.own = ground (arith, here, at', e) in
      let mine : l ≡ t.own = ground (arith, t.at, at, e) in
      elim (ℕ_discrete m.index k) [
        | yes f ↦ (t.value, ground (arith, command_at-put_command m.index k t.value t.own, same, f))
        | no ne ↦
            (a, ground (arith, command_at-put_command m.index k t.value t.own, same, mine, has, ne))
      ]
  | no ne ↦
      let other = get_elem?-write_ne logs i j (put_command m.index t.value t.own) t.put_there ne in
      (a, ground (arith, other, at, at', has))
]

-- The servers agree, and no log has a gap above index 1.
pub record Sound (logs : List CommitLog) : Type 0 where
  pub agree :
      (i j k : ℕ) (l m : CommitLog) (a b : ℤ)
      → get_elem? logs i ≡ some l
      → get_elem? logs j ≡ some m
      → command_at k l ≡ some a
      → command_at k m ≡ some b
      → a ≡ b
  pub gapless :
      (i k : ℕ) (l : CommitLog) (a : ℤ)
      → get_elem? logs i ≡ some l
      → command_at (k + 2) l ≡ some a
      → (b : ℤ) × (command_at (k + 1) l ≡ some b)

Took-Sound :
    {i : ℕ} {m : ApplyMsg ℤ} {logs logs' : List CommitLog}
    → Took i m logs logs'
    → Sound logs
    → Sound logs'
Took-Sound {i} {m} {logs} {logs'} t s = record {
  agree = λ p q k l n a b at_p at_q has_a has_b. elim (Took-origin t p k l a at_p has_a) [
    | inl (e, f, va) ↦ elim (Took-origin t q k n b at_q has_b) [
      | inl (e', f', vb) ↦ sym va ∙ vb
      | inr (n0, at0, has0) ↦
          sym va
          ∙ sym (
              no_conflicts m.index t.value logs q n0 b t.fits at0
                (subst (λ x. command_at x n0 ≡ some b) (sym f) has0))
    ]
    | inr (l0, at1, has1) ↦ elim (Took-origin t q k n b at_q has_b) [
      | inl (e', f', vb) ↦
          no_conflicts m.index t.value logs p l0 a t.fits at1
            (subst (λ x. command_at x l0 ≡ some a) (sym f') has1)
          ∙ vb
      | inr (n0, at0, has0) ↦ s.agree p q k l0 n0 a b at1 at0 has1 has0
    ]
  ];
  gapless = λ p k l a at_p has_a. elim (Took-origin t p (k + 2) l a at_p has_a) [
    | inl (e, f, va) ↦
        let (b, before) = t.follows (omega arith) in
        let before' : command_at (k + 1) t.own ≡ some b =
          subst (λ x. command_at x t.own ≡ some b) (omega arith) before in
        Took-kept t p (k + 1) t.own l b (subst (λ x. get_elem? logs x ≡ some t.own) e t.at) before'
          at_p
    | inr (l0, at0, has0) ↦
        let (b, before) = s.gapless p k l0 a at0 has0 in
        Took-kept t p (k + 1) l0 l b at0 before at_p
  ];
}

apply_msgs-Sound :
    (ms : List (ℕ × ApplyMsg ℤ)) (logs logs' : List CommitLog)
    → apply_msgs ms logs ≡ some logs'
    → Sound logs
    → Sound logs'
unfolding apply_msgs
apply_msgs-Sound [] logs logs' h s = let e : logs ≡ logs' = ground (arith, h) in subst Sound e s
apply_msgs-Sound ((i, m) ∷ ms) logs logs' h s = elim (Option-cases (apply_msg i m logs)) [
  | inl out ↦ absurd (ground (arith, out, h))
  | inr (next, did) ↦
      let rest : apply_msgs ms next ≡ some logs' = ground (arith, did, h) in
      elim (apply_msg_lem i m logs next did) [
        | inl same ↦ apply_msgs-Sound ms next logs' rest (subst Sound (sym same) s)
        | inr t ↦ apply_msgs-Sound ms next logs' rest (Took-Sound t s)
      ]
]

get_elem?-replicate_nil : (n i : ℕ) (l : CommitLog) → get_elem? (replicate n []) i ≡ some l → l ≡ []
get_elem?-replicate_nil zero i l h = absurd (cc)
get_elem?-replicate_nil (suc n) zero l h = ground arith
get_elem?-replicate_nil (suc n) (suc i) l h = get_elem?-replicate_nil n i l h

start-Sound : (n : ℕ) → Sound (replicate n [])
unfolding command_at
start-Sound n = record {
  agree = λ i j k l m a b at_i at_j has_a has_b.
      let e = get_elem?-replicate_nil n i l at_i in absurd (ground (arith, e, has_a));
  gapless =
      λ i k l a at has. let e = get_elem?-replicate_nil n i l at in absurd (ground (arith, e, has));
}

Has-at :
    (k : ℕ) (v : ℤ) (logs : List CommitLog)
    → Has k v logs
    → (i : ℕ) × (l : CommitLog) × (get_elem? logs i ≡ some l) × (command_at k l ≡ some v)
Has-at k v [] h = absurd h
Has-at k v (l ∷ logs) (inl h) = (0, l, refl, h)
Has-at k v (l ∷ logs) (inr h) = let (i, m, at, has) = Has-at k v logs h in (suc i, m, at, has)

holders_le :
    (k : ℕ) (logs : List CommitLog)
    → ((i : ℕ) (l : CommitLog) (a : ℤ)
        → get_elem? logs i ≡ some l
        → command_at (k + 2) l ≡ some a
        → (b : ℤ) × (command_at (k + 1) l ≡ some b))
    → holders (k + 2) logs ≤ holders (k + 1) logs
holders_le k [] h = omega arith
holders_le k (l ∷ logs) h =
    let rest = holders_le k logs (λ i. h (suc i)) in
    elim (Option-cases (command_at (k + 2) l)) [
      | inl e ↦ ground (arith, e, rest)
      | inr (a, e) ↦ let (b, f) = h 0 l a refl e in ground (arith, e, f, rest)
    ]

-- In every log a command at index k + 2 has one before it, at index k + 1.
abbrev pub NoGap : ℕ → List CommitLog → Type 0
NoGap k [] = Unit {0}
NoGap k (l ∷ logs) =
    ((command_at (k + 2) l ≡ none) ⊎ ((b : ℤ) × (command_at (k + 1) l ≡ some b))) × NoGap k logs

gapless-NoGap :
    (k : ℕ) (logs : List CommitLog)
    → ((i : ℕ) (l : CommitLog) (a : ℤ)
        → get_elem? logs i ≡ some l
        → command_at (k + 2) l ≡ some a
        → (b : ℤ) × (command_at (k + 1) l ≡ some b))
    → NoGap k logs
gapless-NoGap k [] h = tt
gapless-NoGap k (l ∷ logs) h =
    let rest = gapless-NoGap k logs (λ i. h (suc i)) in
    elim (Option-cases (command_at (k + 2) l)) [
      | inl e ↦ (inl e, rest)
      | inr (a, e) ↦ (inr (h 0 l a refl e), rest)
    ]

-- As long as the readers of n servers go on, whatever is delivered to them in whatever order,
-- `nCommitted` does not fail: it counts the servers that have a command at the index, which is the same
-- for all of them. Every server that has a command at index + 2 has one at index + 1, so that no log has
-- a gap from index 1 on, and no more servers have one there than at index + 1.
pub readers_agree :
    (n : ℕ) (ms : List (ℕ × ApplyMsg ℤ)) (logs : List CommitLog) (index : ℕ)
    → apply_msgs ms (replicate n []) ≡ some logs
    → ((v : ℤ) × AllHave index v logs
        × (n_committed index logs
            ≡ some (holders index logs, if holders index logs == 0 then negsuc 0 else v)))
      × NoGap index logs
      × (holders (index + 2) logs ≤ holders (index + 1) logs)
readers_agree n ms logs index h =
    let s = apply_msgs-Sound ms (replicate n []) logs h (start-Sound n) in
    (
      elim (n_committed_lem index logs) [
        | inl counted ↦ counted
        | inr (a, b, has_a, has_b, ne, e) ↦
            let (i, l, at_i, is_a) = Has-at index a logs has_a in
            let (j, m, at_j, is_b) = Has-at index b logs has_b in
            absurd (ne (s.agree i j index l m a b at_i at_j is_a is_b))
      ],
      gapless-NoGap index logs (λ i l a at has. s.gapless i index l a at has),
      holders_le index logs (λ i l a at has. s.gapless i index l a at has),
    )
