-- ===== src/Scenarios/Worker.antt =====
-- A worker of src/mapreduce between its accept loop and its handlers.
use mit6824_distribute_syste.Prelude.{ℕ, ◌≡◌, ◌≢◌, refl, ◌⊎◌, [], ◌∷◌}
use mit6824_distribute_syste.Prelude.Int.{pos, negsuc}
use mit6824_distribute_syste.Prelude.Text.{Text}
use mit6824_distribute_syste.MapReduce.Worker.{new_worker, shutdown}
use mit6824_distribute_syste.MapReduce.Serving.{
  task, stop, testing, counting, over, Serving, start_serving, Serve, go_on, accept, count,
  run_task, run_shutdown, stop_loop, Serves, here, and_then,
}
use mit6824_distribute_syste.MapReduce.Quota.{shutdown_lem, Reports}

abbrev w1 : Text
w1 = b'w' ∷ []

abbrev one : ℕ
one = 1

-- A worker without a quota: a task, and a request to shut down whose handler runs before the loop
-- counts the connection, or after it.
abbrev asked_early : Serving
asked_early = record {
  worker = record { name = w1; n_rpc = negsuc 2; n_tasks = pos 1 };
  place = counting;
  waiting = stop ∷ [];
  replies = [];
}

to_asked : Serves (start_serving w1 (negsuc 0)) asked_early
unfolding start_serving new_worker
to_asked =
    and_then
      (and_then
        (and_then
          (and_then (and_then (and_then here (go_on refl (λ e. cc))) (accept task refl))
            (run_task [] [] refl))
          (count refl))
        (go_on refl (λ e. cc)))
      (accept stop refl)

abbrev asked_late : Serving
asked_late = record asked_early {
  worker = record { name = w1; n_rpc = negsuc 2; n_tasks = pos 2 };
  place = testing;
}

to_late : Serves (start_serving w1 (negsuc 0)) asked_late
to_late = and_then to_asked (count refl)

abbrev told_early : Serving
told_early = record asked_early {
  worker = record { name = w1; n_rpc = pos 1; n_tasks = pos 0 };
  waiting = [];
  replies = record { ntasks = pos 1 } ∷ [];
}

abbrev told_late : Serving
told_late = record asked_late {
  worker = record { name = w1; n_rpc = pos 1; n_tasks = pos 1 };
  waiting = [];
  replies = record { ntasks = pos 2 } ∷ [];
}

-- The reply counts the request itself only if the loop has counted its connection.
early : Serve asked_early told_early
unfolding shutdown
early = run_shutdown [] [] refl

late : Serve asked_late told_late
unfolding shutdown
late = run_shutdown [] [] refl

-- One more connection comes, and the loop ends.
abbrev left : Serving
left = record told_late {
  worker = record { name = w1; n_rpc = pos 0; n_tasks = pos 2 };
  place = over;
  waiting = task ∷ [];
}

leaves : Serves told_late left
leaves =
    and_then
      (and_then (and_then (and_then here (go_on refl (λ e. cc))) (accept task refl)) (count refl))
      (stop_loop refl refl)

shutdown_lem_example :
    Reports asked_late told_late 2 × ((testing ≡ over) ⊎ ((one ≡ 0) × (over ≢ over)) ⊎ (one ≡ 1))
unfolding to_asked to_late late leaves
shutdown_lem_example = shutdown_lem w1 (negsuc 0) to_late late leaves refl refl refl
