-- ===== src/Queue/Order.antt =====
-- Requests are executed once each, in the order in which they came.
use nupu_refsi.Prelude.{
  ◌≤◌, ◌≡◌, Bool, true, false, List, [], ◌∷◌, ◌++◌, Option, none, some, length,
}
use nupu_refsi.Machine.{Machine}
use nupu_refsi.Soc.{Soc, HartSetup}
use nupu_refsi.Queue.{
  Request, Queue, request_stop, finish_stop, enqueue_request, execute_requests, worker_round,
}

-- The queue of a new command processor.
abbrev pub new_queue : Soc → Queue
new_queue soc = record {
  requests = [];
  started = false;
  stopping = false;
  has_worker = false;
  soc = soc;
}

-- The states that clients and the worker reach, by any interleaving, with the requests that were
-- accepted so far.
pub data Reached (run : List HartSetup → Machine → Bool × Machine) (soc : Soc)
    : List Request → Queue → Type 0 where
  new : Reached run soc [] (new_queue soc)
  enqueued :
      (log : List Request) (q q' : Queue) (r : Request)
      → Reached run soc log q
      → enqueue_request q r ≡ some q'
      → Reached run soc (log ++ r ∷ []) q'
  worked :
      (log : List Request) (q q' : Queue)
      → Reached run soc log q
      → q.has_worker ≡ true
      → worker_round run q ≡ some q'
      → Reached run soc log q'
  stop_requested :
      (log : List Request) (q : Queue)
      → Reached run soc log q
      → Reached run soc log (request_stop q)
  stop_finished :
      (log : List Request) (q : Queue)
      → Reached run soc log q
      → q.has_worker ≡ false
      → Reached run soc log (finish_stop q)

-- What was executed, and what waits, make up what came.
pub record InOrder (run : List HartSetup → Machine → Bool × Machine) (soc : Soc)
    (log : List Request) (q : Queue) : Type 0 where
  pub done : List Request
  pub all : log ≡ done ++ q.requests
  pub ran : execute_requests run done soc ≡ some q.soc
  pub bounded : length q.requests ≤ 5

abbrev state_of : Option Soc → Soc → Soc
state_of none d = d
state_of (some s) d = s
