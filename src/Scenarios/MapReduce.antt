-- ===== src/Scenarios/MapReduce.antt =====
-- The MapReduce library (src/mapreduce) on a job with two input files and two reduce tasks.
use mit6824_distribute_syste.Prelude.{
  ℕ, zero, suc, ◌≡◌, ◌≢◌, refl, some, List, [], ◌∷◌, ◌++◌, arith, get_elem?, ◌<◌,
}
use mit6824_distribute_syste.Prelude.Text.{Text, itoa}
use mit6824_distribute_syste.MapReduce.Common.{
  KeyValue, reduce_name, merge_name, reduce_phase, map_phase,
}
use mit6824_distribute_syste.MapReduce.Files.{Files, open_file, encode_all}
use mit6824_distribute_syste.MapReduce.Map.{do_map, ihash}
use mit6824_distribute_syste.MapReduce.Partition.{do_map_lem, Mapped}
use mit6824_distribute_syste.MapReduce.Reduce.{do_reduce}
use mit6824_distribute_syste.MapReduce.Reducing.{do_reduce_lem, Reduced, gather}
use mit6824_distribute_syste.MapReduce.Sequential.{Master, sequential}
use mit6824_distribute_syste.MapReduce.WholeJob.{sequential_lem, JobDone}
use mit6824_distribute_syste.MapReduce.Schedule.{
  begin, ntasks, Moves, here, and_then, launch, succeed, fail, reassign, Returns, Scheduler,
  phase_size, task_args,
}
use mit6824_distribute_syste.MapReduce.Scheduling.{phase_complete, reduce_phase_stuck}
use mit6824_distribute_syste.MapReduce.Held.{failed_workers_held}
use mit6824_distribute_syste.Scenarios.Json.{bytes_json, bytes_json-IsJson}

abbrev pub job : Text
job = b'j' ∷ []

abbrev pub file_a : Text
file_a = b'a' ∷ []

abbrev pub file_b : Text
file_b = b'b' ∷ []

-- The map function gives a pair for each byte, with the name of the file as its value.
abbrev pub map_f : Text → Text → List KeyValue
map_f f [] = []
map_f f (b ∷ bs) = record { key = b ∷ []; value = f } ∷ map_f f bs

abbrev pub reduce_f : Text → List Text → Text
reduce_f k [] = []
reduce_f k (v ∷ vs) = v ++ reduce_f k vs

abbrev pub contents : Text → Text
contents f = b'x' ∷ f

abbrev pub files : List Text
files = file_a ∷ (file_b ∷ [])

abbrev pub disk : Files
disk = (file_a, contents file_a) ∷ ((file_b, contents file_b) ∷ [])

-- `ihash("a")`, the published value of FNV-1a for that byte.
ihash_a : ihash file_a ≡ 3826002220
unfolding ihash
ihash_a = refl

reduce_name_12 :
    reduce_name job 1 20
    ≡ b'm'
      ∷ (b'r'
          ∷ (b't'
              ∷ (b'm'
                  ∷ (b'p' ∷ (b'.' ∷ (b'j' ∷ (b'-' ∷ (b'1' ∷ (b'-' ∷ (b'2' ∷ (b'0' ∷ [])))))))))))
unfolding reduce_name itoa
reduce_name_12 = refl

abbrev five : ℕ
five = 5

abbrev pairs : List KeyValue
pairs = map_f file_a (contents file_a)

do_map_lem_example :
    (fs' : Files) × (do_map bytes_json job 0 file_a 2 map_f disk ≡ some fs')
    × Mapped job 0 bytes_json 2 (map_f file_a (contents file_a)) disk fs'
unfolding open_file
do_map_lem_example =
    do_map_lem job 0 bytes_json file_a (contents file_a) 2 map_f disk (omega arith) (omega arith)
      refl

abbrev mapped : Files
mapped =
    (reduce_name job 0 1, encode_all bytes_json pairs)
    ∷ ((reduce_name job 1 1, encode_all bytes_json pairs) ∷ [])

mapped_there :
    (q : ℕ) → q < 2 → open_file (reduce_name job q 1) mapped ≡ some (encode_all bytes_json pairs)
unfolding open_file reduce_name itoa
mapped_there zero lt = refl
mapped_there (suc zero) lt = refl
mapped_there (suc (suc q)) lt = absurd (omega arith)

do_reduce_lem_example :
    (fs' : Files) × (do_reduce bytes_json job 1 2 reduce_f mapped ≡ some fs')
    × Reduced bytes_json (merge_name job 1) reduce_f (gather (λ q. pairs) 0 2) mapped fs'
do_reduce_lem_example =
    do_reduce_lem bytes_json-IsJson job 1 2 reduce_f (λ q. pairs) mapped mapped_there

pub disk_there :
    (q : ℕ) (f : Text) → get_elem? files q ≡ some f → open_file f disk ≡ some (contents f)
unfolding open_file
disk_there zero f e = ground arith
disk_there (suc zero) f e = ground arith
disk_there (suc (suc q)) f e = ground arith

pub disk_apart :
    (q : ℕ) (f : Text) → get_elem? files q ≡ some f → (m r : ℕ) → reduce_name job m r ≢ f
unfolding reduce_name
disk_apart zero f e m r k = ground arith
disk_apart (suc zero) f e m r k = ground arith
disk_apart (suc (suc q)) f e m r k = ground arith

sequential_lem_example :
    (mr : Master) × (fs' : Files) × (sequential bytes_json map_f reduce_f job files 2 disk
      ≡ some (mr, fs'))
    × JobDone map_f reduce_f contents job files fs'
sequential_lem_example =
    sequential_lem bytes_json-IsJson map_f reduce_f contents job 2 files disk (omega arith)
      (omega arith) (record { there = disk_there; apart = disk_apart })

abbrev master : ℕ → Master
master n = record {
  address = [];
  workers = [];
  job_name = job;
  files = files;
  n_reduce = n;
  stats = [];
}

abbrev pub w1 : Text
w1 = b'w' ∷ (b'1' ∷ [])

abbrev pub w2 : Text
w2 = b'w' ∷ (b'2' ∷ [])

-- The first worker fails, the second takes over.
busy_run :
    Moves (master 2) map_phase (begin (ntasks (master 2) map_phase) (w1 ∷ (w2 ∷ []))) (record {
      next = 1;
      wait_count = 2;
      idle = w1 ∷ [];
      running = (w2, 0) ∷ [];
      retrying = [];
      finished = [];
    })
unfolding begin phase_size task_args
busy_run =
    and_then
      (and_then (and_then here (launch [] (w2 ∷ []) w1 (omega arith) refl))
        (fail [] [] w1 0 refl refl))
      (reassign [] [] [] [] w1 w2 0 refl refl)

all_run :
    Moves (master 2) map_phase (begin (ntasks (master 2) map_phase) (w1 ∷ (w2 ∷ []))) (record {
      next = 2;
      wait_count = 0;
      idle = w2 ∷ (w1 ∷ []);
      running = [];
      retrying = [];
      finished = 1 ∷ (0 ∷ []);
    })
unfolding begin phase_size task_args
all_run =
    and_then
      (and_then (and_then busy_run (succeed [] [] w2 0 refl refl))
        (launch [] (w2 ∷ []) w1 (omega arith) refl))
      (succeed [] [] w1 1 refl refl)

all_returned : Returns (master 2) map_phase (record {
  next = 2;
  wait_count = 0;
  idle = w2 ∷ (w1 ∷ []);
  running = [];
  retrying = [];
  finished = 1 ∷ (0 ∷ []);
})
unfolding phase_size
all_returned = record { launched = refl; waited = refl }

abbrev no_calls : List (Text × ℕ)
no_calls = []

abbrev one : ℕ
one = 1

phase_complete_example : (one ≡ one) × (no_calls ≡ []) × (no_calls ≡ [])
unfolding phase_size
phase_complete_example = phase_complete (master 2) map_phase (w1 ∷ (w2 ∷ [])) 1 all_run all_returned

reduce_phase_stuck_example :
    ¬ Returns (master 3) reduce_phase (begin (ntasks (master 3) reduce_phase) (w1 ∷ []))
reduce_phase_stuck_example = reduce_phase_stuck (master 3) (w1 ∷ []) (omega arith) here

abbrev held : Scheduler
held = record {
  next = 1;
  wait_count = 2;
  idle = [];
  running = [];
  retrying = (w1, 0) ∷ [];
  finished = [];
}

-- The one worker of the job fails at task 0.
fails_once : Moves (master 2) map_phase (begin (ntasks (master 2) map_phase) (w1 ∷ [])) held
unfolding begin phase_size task_args
fails_once =
    and_then (and_then here (launch [] [] w1 (omega arith) refl)) (fail [] [] w1 0 refl refl)

failed_workers_held_example : (held ≡ held) × (¬ Returns (master 2) map_phase held)
unfolding fails_once
failed_workers_held_example =
    failed_workers_held (master 2) map_phase (w1 ∷ []) fails_once here (omega arith) (omega arith)
      refl
