-- ===== src/MapReduce/Worker.antt =====
-- src/mapreduce/worker.go, and the workers' side of master.go: the RPC handlers.
use mit6824_distribute_syste.Prelude.{Option, none, some, List, [], ◌∷◌, ◌++◌}
use mit6824_distribute_syste.Prelude.Int.{ℤ, pos, pred_ℤ}
use mit6824_distribute_syste.Prelude.Text.{Text}
use mit6824_distribute_syste.MapReduce.Common.{
  KeyValue, map_phase, reduce_phase, DoTaskArgs, ShutdownReply, RegisterArgs,
}
use mit6824_distribute_syste.MapReduce.Files.{Files, Json}
use mit6824_distribute_syste.MapReduce.Map.{do_map}
use mit6824_distribute_syste.MapReduce.Reduce.{do_reduce}
use mit6824_distribute_syste.MapReduce.Sequential.{Master}

-- `Worker`, without its listener; `Map` and `Reduce` are arguments of the handlers.
pub record Worker : Type 0 where
  pub name : Text
  pub n_rpc : ℤ
  pub n_tasks : ℤ

unfoldable pub new_worker : Text → ℤ → Worker
new_worker me n_rpc = record { name = me; n_rpc = n_rpc; n_tasks = pos 0 }

-- `DoTask`; `none` where the task ends the process.
unfoldable pub do_task :
    Json
    → (Text → Text → List KeyValue)
    → (Text → List Text → Text)
    → DoTaskArgs
    → Files
    → Option Files
do_task json map_f reduce_f arg fs = elim arg.phase [
  | map_phase ↦ do_map json arg.job_name arg.task_number arg.file arg.num_other_phase map_f fs
  | reduce_phase ↦ do_reduce json arg.job_name arg.task_number arg.num_other_phase reduce_f fs
]

-- `Worker.Shutdown`
unfoldable pub shutdown : Worker → Worker × ShutdownReply
shutdown wk =
    let reply : ShutdownReply = record { ntasks = wk.n_tasks } in
    let wk1 = record wk { n_rpc = pos 1 } in (record wk1 { n_tasks = pred_ℤ wk.n_tasks }, reply)

-- `Register`. The goroutine that it starts is `register` of MapReduce/Schedule.antt.
unfoldable pub register_worker : RegisterArgs → Master → Master
register_worker args mr = record mr { workers = mr.workers ++ args.worker ∷ [] }

-- `killWorkers`, where `call` gives the reply of each worker that answers.
unfoldable pub kill_workers : (Text → Option ShutdownReply) → List Text → List ℤ
kill_workers call [] = []
kill_workers call (w ∷ ws) =
    let rest = kill_workers call ws in
    elim (call w) [ none ↦ rest | some reply ↦ reply.ntasks ∷ rest ]
