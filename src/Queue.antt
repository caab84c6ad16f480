-- ===== src/Queue.antt =====
-- The request queue of the command processor and its worker thread
-- (driver/source/refsidrv/refsi_command_processor.cpp). Each function runs under the device's mutex,
-- which the worker gives up only while it waits.
pub mod Order
use nupu_refsi.Prelude.{
  ℕ, Bool, true, false, List, [], ◌∷◌, ◌++◌, Option, none, some, ltb, if◌then◌else◌, length,
}
use nupu_refsi.Machine.{Machine}
use nupu_refsi.Soc.{Soc, HartSetup}
use nupu_refsi.Processor.Execute.{execute}

-- RefSiCommandRequest: the address and the size of a command buffer.
pub record Request : Type 0 where
  pub command_buffer_addr : ℕ
  pub command_buffer_size : ℕ

-- `has_worker` tells whether the worker thread runs.
pub record Queue : Type 0 where
  pub requests : List Request
  pub started : Bool
  pub stopping : Bool
  pub has_worker : Bool
  pub soc : Soc

abbrev pub max_requests : ℕ
max_requests = 4

-- RefSiCommandProcessor::start
unfoldable pub start : Queue → Queue
start q = if q.started then q else record q { stopping = false; started = true; has_worker = true }

-- RefSiCommandProcessor::stop up to the join of the worker, and behind it.
unfoldable pub request_stop : Queue → Queue
request_stop q = if q.started then record q { stopping = true } else q

unfoldable pub finish_stop : Queue → Queue
finish_stop q = record q { stopping = false }

-- RefSiCommandProcessor::enqueueRequest; `none` while it waits for space.
unfoldable pub enqueue_request : Queue → Request → Option Queue
enqueue_request q request =
    if ltb max_requests (length q.requests)
    then none
    else some (record (start q) { requests = (start q).requests ++ request ∷ [] })

module _ (run : List HartSetup → Machine → Bool × Machine) where
  -- The requests in turn; the result of each is dropped.
  unfoldable pub execute_requests : List Request → Soc → Option Soc
  execute_requests [] soc = some soc
  execute_requests (r ∷ rest) soc =
      elim (execute run soc r.command_buffer_addr r.command_buffer_size) [
        | none ↦ none
        | some (result, soc') ↦ execute_requests rest soc'
      ]

  -- A round of the loop of RefSiCommandProcessor::workerMain, from one wait to the next.
  unfoldable pub worker_round : Queue → Option Queue
  worker_round q =
      if q.stopping
      then some (record q { has_worker = false })
      else elim (execute_requests q.requests q.soc) [
        | none ↦ none
        | some soc ↦ some (record q { requests = []; soc = soc })
      ]
