-- ===== src/Raft/Delivery.antt =====
-- src/raft/raft.go, `updateLastApplied`: what reaches the service on `applyCh`.
use mit6824_distribute_syste.Prelude.{
  ℕ, zero, suc, ◌+◌, ◌-◌, ◌≤◌, ◌<◌, ◌≡◌, refl, ap, ◌∙◌, false, some, List, [], ◌∷◌, ◌++◌, length,
  length-slice, get_elem?, get_elem?-some, map, take, drop, drop-get_elem?, lt→ltb, arith,
  append-nil, append_assoc,
}
use mit6824_distribute_syste.Raft.Peer.{Log, ApplyMsg, Raft}
use native.Mathlib.Nat.{add-zero, zero-add, suc-add, add_comm}
use native.Mathlib.Decide.{dec_le}
use mathlib.Core.List.{map-append}
use mit6824_distribute_syste.Raft.Roles.{apply_loop, update_last_applied}

-- The numbers i, i + 1, ..., i + n - 1.
abbrev pub upto : ℕ → ℕ → List ℕ
upto i zero = []
upto i (suc n) = i ∷ upto (i + 1) n

suc_shift : (i n : ℕ) → i + suc n ≡ i + 1 + n
suc_shift i n = omega arith

upto-append : (i n m : ℕ) → upto i n ++ upto (i + n) m ≡ upto i (n + m)
upto-append i zero m = simp (add-zero, zero-add)
upto-append i (suc n) m =
    rw suc-add (ap (λ r. i ∷ r) (rw (suc_shift i n) (upto-append (i + 1) n m)))

module _ {C : Type 0} where
  -- The messages for consecutive entries, the first of which has index `i`.
  unfoldable pub number : ℕ → List (Log C) → List (ApplyMsg C)
  number i [] = []
  number i (e ∷ es) =
      record { index = i; command = e.command; use_snapshot = false; snapshot = [] }
      ∷ number (i + 1) es

  number_nil : (i : ℕ) → number i [] ≡ []
  unfolding number
  number_nil i = refl

  -- A peer after the delivery of its next `n` entries.
  abbrev pub delivered : ℕ → Raft C → Raft C
  delivered n rf = record rf {
    last_applied = rf.last_applied + n;
    apply_ch =
        rf.apply_ch ++ number (rf.last_applied + 1) (take n (drop (rf.last_applied + 1) rf.log));
  }

  -- A peer after the delivery of one entry.
  abbrev delivered_one : Log C → Raft C → Raft C
  delivered_one e rf = record rf {
    last_applied = rf.last_applied + 1;
    apply_ch =
        rf.apply_ch
        ++ record {
          index = rf.last_applied + 1;
          command = e.command;
          use_snapshot = false;
          snapshot = [];
        }
          ∷ [];
  }

  number_step :
      (i n : ℕ) (log : List (Log C)) {e : Log C}
      → get_elem? log i ≡ some e
      → number i (take (suc n) (drop i log))
        ≡ record { index = i; command = e.command; use_snapshot = false; snapshot = [] }
          ∷ number (i + 1) (take n (drop (i + 1) log))
  unfolding number
  number_step i n log h = rw (drop-get_elem? log i h)

  apply_loop_lem :
      (n : ℕ) (rf : Raft C)
      → rf.last_applied + n ≤ rf.commit_index
      → rf.commit_index < length rf.log
      → apply_loop n rf ≡ some (delivered n rf)
  unfolding apply_loop number
  apply_loop_lem zero rf h k = simp (add-zero, append-nil)
  apply_loop_lem (suc n) rf h k =
      let (e, found) = get_elem?-some rf.log (rf.last_applied + 1) (omega arith) in
      rw (lt→ltb rf.last_applied rf.commit_index (omega arith), found)
        (apply_loop_lem n (delivered_one e rf) (omega arith) k
          ∙ ground (
            arith,
            number_step (rf.last_applied + 1) n rf.log found,
            append_assoc rf.apply_ch
                (record {
                  index = rf.last_applied + 1;
                  command = e.command;
                  use_snapshot = false;
                  snapshot = [];
                }
                  ∷ [])
                (number (rf.last_applied + 1 + 1) (take n (drop (rf.last_applied + 1 + 1) rf.log))),
          ))

  -- Where the commit index lies in the log, exactly the entries after `lastApplied` up to it are sent,
  -- in the order of the log, and nothing else changes. The loop ends.
  pub update_last_applied_lem :
      (rf : Raft C)
      → rf.commit_index < length rf.log
      → update_last_applied rf ≡ some (delivered (rf.commit_index - rf.last_applied) rf)
  unfolding update_last_applied number
  update_last_applied_lem rf k = elim (dec_le rf.last_applied rf.commit_index) [
    | yes le ↦ apply_loop_lem (rf.commit_index - rf.last_applied) rf (omega arith) k
    | no gt ↦
        let e : rf.commit_index - rf.last_applied ≡ 0 = omega arith in
        rw e (simp (add-zero, append-nil))
  ]

  -- The service has seen the indices 1, 2, ..., `lastApplied`, each once and in this order.
  abbrev pub InOrder : Raft C → Type 0
  InOrder rf = map (λ m. m.index) rf.apply_ch ≡ upto 1 rf.last_applied

  map-number : (i : ℕ) (es : List (Log C)) → map (λ m. m.index) (number i es) ≡ upto i (length es)
  unfolding number
  map-number i [] = refl
  map-number i (e ∷ es) = ap (λ r. i ∷ r) (map-number (i + 1) es)

  -- Delivery keeps the order.
  pub delivered-InOrder :
      (n : ℕ) (rf : Raft C)
      → rf.last_applied + n < length rf.log
      → InOrder rf
      → InOrder (delivered n rf)
  delivered-InOrder n rf k h =
      let len = length-slice (rf.last_applied + 1) n rf.log (omega arith) in
      rw (map-append, h, map-number, len, add_comm rf.last_applied 1)
        (upto-append 1 rf.last_applied n)

  -- So does delivery up to an index of the log.
  pub delivered_to-InOrder :
      (k : ℕ) (rf : Raft C)
      → k < length rf.log
      → InOrder rf
      → InOrder (delivered (k - rf.last_applied) rf)
  delivered_to-InOrder k rf below h = elim (dec_le rf.last_applied k) [
    | yes le ↦ delivered-InOrder (k - rf.last_applied) rf (omega arith) h
    | no gt ↦
        let e : k - rf.last_applied ≡ 0 = omega arith in
        rw e (simp (number_nil, append-nil, add-zero) h)
  ]
