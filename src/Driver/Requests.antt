-- ===== src/Driver/Requests.antt =====
-- Calls through a device's handle: without a device, and what the host writes and runs.
use nupu_refsi.Prelude.{
  ℕ, ◌≡◌, refl, ◌∷◌, [], ◌++◌, List, some, length, false, ◌≤◌, arith, if_ind, ltb, ap, ◌∙◌,
}
use nupu_refsi.Config.{RefsiResult}
use nupu_refsi.HostMemory.{Ptr}
use nupu_refsi.Access.Ram.{RamAt}
use nupu_refsi.DeviceApi.Transfers.{write-read_device_memory}
use nupu_refsi.Queue.{Queue, Request, enqueue_request, start, max_requests}
use nupu_refsi.Soc.{Soc}
use nupu_refsi.DeviceApi.{read_device_memory}
use nupu_refsi.Driver.{
  with_machine, SocFamily, RefsiDevice, refsi_read_device_memory, refsi_write_device_memory,
  refsi_execute_command_buffer, execute_on_family, execute_command_buffer,
}

start_lem : (q : Queue) → ((start q).requests ≡ q.requests) × ((start q).soc ≡ q.soc)
unfolding start
start_lem q =
    if_ind (λ (z : Queue). (z.requests ≡ q.requests) × (z.soc ≡ q.soc)) q.started _ _
      (λ e. (refl, refl)) (λ e. (refl, refl))

-- A queue with room takes a request, at the end.
enqueue_room :
    (q : Queue) (r : Request)
    → length q.requests ≤ max_requests
    → (q' : Queue) × (enqueue_request q r ≡ some q')
      × (q'.requests ≡ q.requests ++ r ∷ [])
      × (q'.soc ≡ q.soc)
unfolding enqueue_request
enqueue_room q r h =
    let open_queue : ltb max_requests (length q.requests) ≡ false = ground (arith, h) in
    let (requests, soc) = start_lem q in
    (
      record (start q) { requests = (start q).requests ++ r ∷ [] },
      rw (open_queue, enqueue_request) refl,
      ap (λ (l : List Request). l ++ r ∷ []) requests,
      soc,
    )

-- A device of family M with room in its queue takes a command buffer.
execute_room :
    (d : RefsiDevice) (cb_addr cb_size : ℕ)
    → d.family ≡ SocFamily.m
    → length d.queue.requests ≤ max_requests
    → (d' : RefsiDevice) × (refsi_execute_command_buffer (some d) cb_addr cb_size
        ≡ some (RefsiResult.success, some d'))
      × (d'.queue.requests
          ≡ d.queue.requests
            ++ record { command_buffer_addr = cb_addr; command_buffer_size = cb_size } ∷ [])
      × (d'.queue.soc ≡ d.queue.soc)
unfolding refsi_execute_command_buffer execute_on_family execute_command_buffer
execute_room d cb_addr cb_size family room =
    let (queue, accepted, requests, soc) = enqueue_room d.queue _ room in
    (
      record d { queue = queue },
      rw (family, refsi_execute_command_buffer, execute_on_family)
          (rw (accepted, execute_command_buffer) refl),
      requests,
      soc,
    )

-- The host writes bytes to RAM of an open device and hands over a command buffer: all three calls
-- succeed, the bytes are read back as they were written, and the queue has the request at its end,
-- if it had room for one and the device is of family M. No round of the worker comes in between.
pub write-execute-read :
    (d : RefsiDevice) (addr unit unit' cb_addr cb_size : ℕ) (bytes : List ℕ) (p : Ptr)
    → d.family ≡ SocFamily.m
    → length d.queue.requests ≤ max_requests
    → RamAt d.queue.soc.machine addr (length bytes) p
    → (d1 : RefsiDevice) × (d2 : RefsiDevice) × (refsi_write_device_memory
          (some d)
          addr
          bytes
          (length bytes)
          unit
        ≡ some (RefsiResult.success, some d1))
      × (refsi_execute_command_buffer (some d1) cb_addr cb_size
          ≡ some (RefsiResult.success, some d2))
      × (refsi_read_device_memory (some d2) addr (length bytes) unit'
          ≡ some (RefsiResult.success, bytes))
      × (d2.queue.requests
          ≡ d.queue.requests
            ++ record { command_buffer_addr = cb_addr; command_buffer_size = cb_size } ∷ [])
unfolding refsi_write_device_memory refsi_read_device_memory
write-execute-read d addr unit unit' cb_addr cb_size bytes p family room r =
    let (m, written, back) =
      write-read_device_memory d.queue.soc.machine addr unit unit' bytes p r in
    let (d2, executed, requests, soc) =
      execute_room (with_machine d m) cb_addr cb_size family room in
    (
      with_machine d m,
      d2,
      rw (written, refsi_write_device_memory) refl,
      executed,
      ap (λ (s : Soc). read_device_memory s.machine addr (length bytes) unit') soc ∙ back,
      requests,
    )
