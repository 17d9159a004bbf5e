-- ===== src/Scenarios/Distributed.antt =====
-- The job of Scenarios/MapReduce.antt on two workers, one of which fails (src/mapreduce).
use mit6824_distribute_syste.Prelude.{◌≡◌, refl, Option, none, some, List, [], ◌∷◌, arith}
use mit6824_distribute_syste.Prelude.Text.{Text, itoa}
use mit6824_distribute_syste.MapReduce.Common.{
  reduce_name, merge_name, reduce_phase, map_phase, ShutdownReply, output_name,
}
use mit6824_distribute_syste.MapReduce.Files.{Files, open_file, create, append_file, decode_all}
use mit6824_distribute_syste.MapReduce.Map.{do_map, ihash, partition_of, create_files, write_pairs}
use mit6824_distribute_syste.MapReduce.Reduce.{
  do_reduce, collect, write_results, sort_texts, keys_of, add_pairs, add_value,
}
use mit6824_distribute_syste.MapReduce.Sequential.{Master, sequential}
use mit6824_distribute_syste.MapReduce.WholeJob.{JobDone}
use mit6824_distribute_syste.MapReduce.Schedule.{
  begin, launch, succeed, fail, reassign, register, Scheduler, phase_size, task_args,
}
use mit6824_distribute_syste.MapReduce.Worker.{do_task}
use mit6824_distribute_syste.MapReduce.Distributed.{
  Works, started, moved, job_master, finish_job, Phases,
}
use mit6824_distribute_syste.MapReduce.DistributedJob.{distributed_lem, distributed-sequential}
use mit6824_distribute_syste.Scenarios.Json.{bytes_json, bytes_json-IsJson}
use mit6824_distribute_syste.Scenarios.MapReduce.{
  job, file_a, file_b, map_f, reduce_f, contents, files, disk, w1, w2, disk_there, disk_apart,
}

abbrev workers : List Text
workers = w1 ∷ (w2 ∷ [])

abbrev mr : Master
mr = job_master [] job files 2 workers

abbrev after : Option Files → Files
after none = []
after (some fs) = fs

-- The files after one and both map tasks, and after one and both reduce tasks.
abbrev fs1 : Files
fs1 = after (do_map bytes_json job 0 file_a 2 map_f disk)

abbrev fs2 : Files
fs2 = after (do_map bytes_json job 1 file_b 2 map_f fs1)

abbrev fs3 : Files
fs3 = after (do_reduce bytes_json job 0 2 reduce_f fs2)

abbrev fs4 : Files
fs4 = after (do_reduce bytes_json job 1 2 reduce_f fs3)

map_a : do_map bytes_json job 0 file_a 2 map_f disk ≡ some fs1
unfolding do_map write_pairs open_file
map_a = refl

map_b : do_map bytes_json job 1 file_b 2 map_f fs1 ≡ some fs2
unfolding do_map write_pairs open_file create create_files append_file reduce_name itoa
map_b = refl

reduce_0 : do_reduce bytes_json job 0 2 reduce_f fs2 ≡ some fs3
unfolding do_map write_pairs open_file create create_files append_file reduce_name itoa do_reduce
    collect partition_of ihash
reduce_0 = refl

reduce_1 : do_reduce bytes_json job 1 2 reduce_f fs3 ≡ some fs4
unfolding do_map write_pairs open_file create create_files append_file reduce_name itoa do_reduce
    collect partition_of ihash write_results sort_texts keys_of add_pairs decode_all add_value
    merge_name
reduce_1 = refl

abbrev ended : List Text → Scheduler
ended idle = record {
  next = 2;
  wait_count = 0;
  idle = idle;
  running = [];
  retrying = [];
  finished = 1 ∷ (0 ∷ []);
}

-- The worker w1 fails in the first task, and w2 takes over.
mapping : Works bytes_json map_f reduce_f mr map_phase [] disk (ended (w2 ∷ (w1 ∷ []))) fs2
unfolding begin phase_size task_args job_master do_task
mapping =
    let begun =
      moved (moved (moved started (register w1) refl) (register w2) refl)
        (launch [] (w2 ∷ []) w1 (omega arith) refl) refl in
    let failed = moved begun (fail [] [] w1 0 refl refl) (λ j ne. refl) in
    let again = moved failed (reassign [] [] [] [] w1 w2 0 refl refl) refl in
    let first = moved again (succeed [] [] w2 0 refl refl) map_a in
    moved (moved first (launch [] (w2 ∷ []) w1 (omega arith) refl) refl)
      (succeed [] [] w1 1 refl refl) map_b

reducing :
    Works bytes_json map_f reduce_f mr reduce_phase
      (w2 ∷ (w1 ∷ []))
      fs2
      (ended (w2 ∷ (w1 ∷ [])))
      fs4
unfolding begin phase_size task_args job_master do_task
reducing =
    let first =
      moved (moved started (launch [] (w1 ∷ []) w2 (omega arith) refl) refl)
        (succeed [] [] w2 0 refl refl) reduce_0 in
    moved (moved first (launch [] (w2 ∷ []) w1 (omega arith) refl) refl)
      (succeed [] [] w1 1 refl refl) reduce_1

phases : Phases bytes_json map_f reduce_f mr disk fs4
unfolding phase_size job_master
phases = record {
  mapped = ended (w2 ∷ (w1 ∷ []));
  between = fs2;
  reduced = ended (w2 ∷ (w1 ∷ []));
  map_run = mapping;
  map_returns = record { launched = refl; waited = refl };
  reduce_run = reducing;
  reduce_returns = record { launched = refl; waited = refl };
}

-- Neither worker answers the request to shut down.
abbrev silent : Text → Option ShutdownReply
silent w = none

distributed_lem_example :
    (mr' : Master) × (final : Files) × (finish_job bytes_json silent mr fs4 ≡ some (mr', final))
    × JobDone map_f reduce_f contents job files final
distributed_lem_example =
    distributed_lem bytes_json-IsJson map_f reduce_f contents job [] workers silent 2 files disk fs4
      (omega arith) (omega arith) (record { there = disk_there; apart = disk_apart }) phases

distributed-sequential_example :
    (mr1 mr2 : Master) × (final alone : Files) × (finish_job bytes_json silent mr fs4
      ≡ some (mr1, final))
    × (sequential bytes_json map_f reduce_f job files 1 disk ≡ some (mr2, alone))
    × (open_file (output_name job) final ≡ open_file (output_name job) alone)
distributed-sequential_example =
    distributed-sequential bytes_json-IsJson map_f reduce_f contents job [] workers silent 2 1 files
      disk fs4 (omega arith) (omega arith) (omega arith) (omega arith)
      (record { there = disk_there; apart = disk_apart }) phases
