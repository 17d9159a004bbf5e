-- ===== src/MapReduce/Serving.antt =====
-- src/mapreduce/worker.go, `RunWorker`: the accept loop and the handlers of its connections, which run
-- at the same time. `RPC` clients of this package use one connection for one request.
use mit6824_distribute_syste.Prelude.{◌≡◌, ◌≢◌, List, [], ◌∷◌, ◌++◌}
use mit6824_distribute_syste.Prelude.Int.{ℤ, pos, pred_ℤ, suc_ℤ}
use mit6824_distribute_syste.Prelude.Text.{Text}
use mit6824_distribute_syste.MapReduce.Common.{ShutdownReply}
use mit6824_distribute_syste.MapReduce.Worker.{Worker, new_worker, shutdown}

-- What comes over a connection: a task, or the request to shut down.
pub data Conn : Type 0 where
  task stop : Conn

-- Where the loop stands: before the test of the quota, in `Accept`, between the start of a connection's
-- handler and `nTasks++`, or behind the loop.
pub data Place : Type 0 where
  testing accepting counting over : Place

-- The loop, the connections whose handlers have not run, and the replies to requests to shut down.
pub record Serving : Type 0 where
  pub worker : Worker
  pub place : Place
  pub waiting : List Conn
  pub replies : List ShutdownReply

unfoldable pub start_serving : Text → ℤ → Serving
unfolding new_worker
start_serving me n_rpc = record {
  worker = new_worker me n_rpc;
  place = testing;
  waiting = [];
  replies = [];
}

-- One section under the worker's mutex, or one step between two of them. A connection is accepted with
-- `nRPC--`: what `Accept` returns before that only the loop sees.
pub data Serve (s : Serving) : Serving → Type 0 where
  -- The quota is used up.
  stop_loop : s.place ≡ testing → s.worker.n_rpc ≡ pos 0 → Serve s (record s { place = over })
  go_on : s.place ≡ testing → s.worker.n_rpc ≢ pos 0 → Serve s (record s { place = accepting })
  -- `Accept` returns a connection: `nRPC--`, and its handler starts.
  accept :
      (c : Conn)
      → s.place ≡ accepting
      → Serve s (record s {
        worker = record (s.worker) { n_rpc = pred_ℤ s.worker.n_rpc };
        place = counting;
        waiting = c ∷ s.waiting;
      })
  -- `Accept` returns an error.
  broken : s.place ≡ accepting → Serve s (record s { place = over })
  -- `nTasks++`
  count :
      s.place ≡ counting
      → Serve s (record s {
        worker = record (s.worker) { n_tasks = suc_ℤ s.worker.n_tasks };
        place = testing;
      })
  -- `DoTask` runs.
  run_task :
      (xs ys : List Conn) → s.waiting ≡ xs ++ task ∷ ys → Serve s (record s { waiting = xs ++ ys })
  -- `Shutdown` runs.
  run_shutdown :
      (xs ys : List Conn)
      → s.waiting ≡ xs ++ stop ∷ ys
      → Serve s (record s {
        worker = (shutdown s.worker).0;
        waiting = xs ++ ys;
        replies = s.replies ++ (shutdown s.worker).1 ∷ [];
      })

pub data Serves (s : Serving) : Serving → Type 0 where
  here : Serves s s
  and_then : {t u : Serving} → Serves s t → Serve t u → Serves s u
