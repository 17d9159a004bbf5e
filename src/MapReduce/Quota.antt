-- ===== src/MapReduce/Quota.antt =====
-- src/mapreduce/worker.go: what the accept loop counts, and how `Shutdown` ends it.
use mit6824_distribute_syste.Prelude.{
  ℕ, ◌+◌, ◌≡◌, ◌≢◌, refl, ◌⊎◌, inl, inr, [], ◌∷◌, ◌++◌, length, length-append, arith,
}
use mit6824_distribute_syste.Prelude.Int.{ℤ, pos, pos_part, neg_part}
use mit6824_distribute_syste.Prelude.Text.{Text}
use mit6824_distribute_syste.MapReduce.Common.{ShutdownReply}
use mit6824_distribute_syste.MapReduce.Worker.{new_worker, shutdown}
use mit6824_distribute_syste.MapReduce.Serving.{
  Place, testing, accepting, counting, over, Serving, start_serving, Serve, stop_loop, go_on,
  accept, broken, count, run_task, run_shutdown, Serves, here, and_then,
}

-- How many connections a step accepts, how many requests to shut down it answers, and how often the
-- listener fails.
abbrev pub accepts : {s s' : Serving} → Serve s s' → ℕ
accepts (accept c p) = 1
accepts (stop_loop p q) = 0
accepts (go_on p q) = 0
accepts (broken p) = 0
accepts (count p) = 0
accepts (run_task xs ys e) = 0
accepts (run_shutdown xs ys e) = 0

abbrev pub shuts : {s s' : Serving} → Serve s s' → ℕ
shuts (accept c p) = 0
shuts (stop_loop p q) = 0
shuts (go_on p q) = 0
shuts (broken p) = 0
shuts (count p) = 0
shuts (run_task xs ys e) = 0
shuts (run_shutdown xs ys e) = 1

abbrev pub breaks : {s s' : Serving} → Serve s s' → ℕ
breaks (accept c p) = 0
breaks (stop_loop p q) = 0
breaks (go_on p q) = 0
breaks (broken p) = 1
breaks (count p) = 0
breaks (run_task xs ys e) = 0
breaks (run_shutdown xs ys e) = 0

abbrev pub accepted : {s s' : Serving} → Serves s s' → ℕ
accepted here = 0
accepted (and_then ms m) = accepted ms + accepts m

abbrev pub answered : {s s' : Serving} → Serves s s' → ℕ
answered here = 0
answered (and_then ms m) = answered ms + shuts m

abbrev pub failures : {s s' : Serving} → Serves s s' → ℕ
failures here = 0
failures (and_then ms m) = failures ms + breaks m

-- The connection that the loop has still to count.
abbrev pub uncounted : Place → ℕ
uncounted testing = 0
uncounted accepting = 0
uncounted counting = 1
uncounted over = 0

-- `nTasks` is the number of connections accepted and counted, less the requests to shut down answered.
abbrev Counts : Serving → ℕ → Type 0
Counts s n =
    pos_part s.worker.n_tasks + uncounted s.place + length s.replies ≡ n + neg_part s.worker.n_tasks

Serve-Counts : {s s' : Serving} (n : ℕ) (m : Serve s s') → Counts s n → Counts s' (n + accepts m)
unfolding shutdown
Serve-Counts n (stop_loop p q) h = ground (arith, p, h)
Serve-Counts n (go_on p q) h = ground (arith, p, h)
Serve-Counts n (accept c p) h = ground (arith, p, h)
Serve-Counts n (broken p) h = ground (arith, p, h)
Serve-Counts n (count p) h = ground (arith, p, h)
Serve-Counts n (run_task xs ys e) h = omega (arith, h)
Serve-Counts {s} n (run_shutdown xs ys e) h =
    ground (arith, h, length-append s.replies ((shutdown s.worker).1 ∷ []))

start-Counts : (me : Text) (n_rpc : ℤ) → Counts (start_serving me n_rpc) 0
unfolding start_serving new_worker
start-Counts me n_rpc = refl

Serves-Counts :
    (me : Text) (n_rpc : ℤ) {s : Serving} (ms : Serves (start_serving me n_rpc) s)
    → Counts s (accepted ms)
Serves-Counts me n_rpc here = start-Counts me n_rpc
Serves-Counts me n_rpc (and_then ms m) = Serve-Counts (accepted ms) m (Serves-Counts me n_rpc ms)

-- After a request to shut down: no connection has been accepted since and the quota is one, or one has
-- been and the quota is used up.
abbrev After : Serving → ℕ → Type 0
After s n =
    ((n ≡ 0) × (s.worker.n_rpc ≡ pos 1) × (s.place ≢ over))
    ⊎ ((n ≡ 1) × (s.worker.n_rpc ≡ pos 0) × (s.place ≢ accepting))

Serve-After :
    {s s' : Serving} (n : ℕ) (m : Serve s s')
    → shuts m ≡ 0
    → breaks m ≡ 0
    → After s n
    → After s' (n + accepts m)
Serve-After n (stop_loop p q) a b h = elim h [
  | inl w ↦ absurd (ground (arith, q, w.1))
  | inr one ↦ inr (omega (arith, one.0), one.1, λ e. cc)
]
Serve-After n (go_on p q) a b h = elim h [
  | inl w ↦ inl (omega (arith, w.0), w.1, λ e. cc)
  | inr one ↦ absurd (q one.1)
]
Serve-After n (accept c p) a b h = elim h [
  | inl w ↦ inr (omega (arith, w.0), ground (arith, w.1), λ e. cc)
  | inr one ↦ absurd (one.2 p)
]
Serve-After n (broken p) a b h = absurd (omega (arith, b))
Serve-After n (count p) a b h = elim h [
  | inl w ↦ inl (omega (arith, w.0), w.1, λ e. cc)
  | inr one ↦ inr (omega (arith, one.0), one.1, λ e. cc)
]
Serve-After n (run_task xs ys e) a b h = elim h [
  | inl w ↦ inl (omega (arith, w.0), w.1, w.2)
  | inr one ↦ inr (omega (arith, one.0), one.1, one.2)
]
Serve-After n (run_shutdown xs ys e) a b h = absurd (omega (arith, a))

Serves-After :
    {s t : Serving} (ms : Serves s t)
    → answered ms ≡ 0
    → failures ms ≡ 0
    → After s 0
    → After t (accepted ms)
Serves-After here a b h = h
Serves-After (and_then ms m) a b h =
    Serve-After (accepted ms) m (omega (arith, a)) (omega (arith, b))
      (Serves-After ms (omega (arith, a)) (omega (arith, b)) h)

shut-After : {s s' : Serving} (m : Serve s s') → shuts m ≡ 1 → s.place ≢ over → After s' 0
unfolding shutdown
shut-After (stop_loop p q) h o = absurd (omega (arith, h))
shut-After (go_on p q) h o = absurd (omega (arith, h))
shut-After (accept c p) h o = absurd (omega (arith, h))
shut-After (broken p) h o = absurd (omega (arith, h))
shut-After (count p) h o = absurd (omega (arith, h))
shut-After (run_task xs ys e) h o = absurd (omega (arith, h))
shut-After (run_shutdown xs ys e) h o = inl (refl, refl, o)

-- The reply of the step, and what it reports.
abbrev pub Reports : Serving → Serving → ℕ → Type 0
Reports s s' n =
    (reply : ShutdownReply) × (s'.replies ≡ s.replies ++ reply ∷ [])
    × (pos_part reply.ntasks + uncounted s.place + length s.replies ≡ n + neg_part reply.ntasks)

shut-Reports : {s s' : Serving} (n : ℕ) (m : Serve s s') → shuts m ≡ 1 → Counts s n → Reports s s' n
unfolding shutdown
shut-Reports n (stop_loop p q) h c = absurd (omega (arith, h))
shut-Reports n (go_on p q) h c = absurd (omega (arith, h))
shut-Reports n (accept d p) h c = absurd (omega (arith, h))
shut-Reports n (broken p) h c = absurd (omega (arith, h))
shut-Reports n (count p) h c = absurd (omega (arith, h))
shut-Reports n (run_task xs ys e) h c = absurd (omega (arith, h))
shut-Reports {s} n (run_shutdown xs ys e) h c = (record { ntasks = s.worker.n_tasks }, refl, c)

Place-over : (p : Place) → (p ≡ over) ⊎ (p ≢ over)
Place-over testing = inr (λ e. cc)
Place-over accepting = inr (λ e. cc)
Place-over counting = inr (λ e. cc)
Place-over over = inl refl

-- A worker started with any quota, in any interleaving of its accept loop and its handlers. A request to
-- shut down is answered with the number of connections accepted so far, its own included, less the
-- requests to shut down answered before it, and less one if the loop has still to count the connection
-- that it accepted last. If the loop is not over then, it accepts at most one further connection, and it
-- does not end before it has accepted that one, as long as no other such request is answered and the
-- listener does not fail.
pub shutdown_lem :
    (me : Text) (n_rpc : ℤ) {s s' t : Serving} (past : Serves (start_serving me n_rpc) s)
    (shut : Serve s s') (later : Serves s' t)
    → shuts shut ≡ 1
    → answered later ≡ 0
    → failures later ≡ 0
    → Reports s s' (accepted past)
      × ((s.place ≡ over) ⊎ ((accepted later ≡ 0) × (t.place ≢ over)) ⊎ (accepted later ≡ 1))
shutdown_lem me n_rpc {s} past shut later is_shut no_more no_failure = (
  shut-Reports (accepted past) shut is_shut (Serves-Counts me n_rpc past),
  elim (Place-over s.place) [
    | inl ended ↦ inl ended
    | inr going ↦ elim (Serves-After later no_more no_failure (shut-After shut is_shut going)) [
      | inl waits ↦ inr (inl (waits.0, waits.2))
      | inr one ↦ inr (inr one.0)
    ]
  ],
)
