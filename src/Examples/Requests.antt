-- ===== src/Examples/Requests.antt =====
-- The theorem on the request queue at a concrete run: a request is accepted, the worker executes it,
-- and another request is accepted.
use nupu_refsi.Prelude.{true, false, List}
use nupu_refsi.Machine.{Machine}
use nupu_refsi.Queue.{Request, Queue}
use nupu_refsi.Examples.World.{soc}

-- Command buffers without commands.
abbrev first : Request
first = record { command_buffer_addr = 24; command_buffer_size = 0 }

abbrev second : Request
second = record { command_buffer_addr = 32; command_buffer_size = 0 }

abbrev waiting : List Request → Queue
waiting requests = record {
  requests = requests;
  started = true;
  stopping = false;
  has_worker = true;
  soc = soc;
}
