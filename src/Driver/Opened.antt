-- ===== src/Driver/Opened.antt =====
-- An M1 device that was just opened, in the hands of the host.
use nupu_refsi.Prelude.{
  ℕ, ◌+◌, ◌≤◌, ◌≡◌, refl, sym, subst, ap, ◌∙◌, ◌++◌, List, [], ◌∷◌, Option, some, length, arith,
}
use nupu_refsi.Config.{RefsiResult, dram_base, dram_size}
use nupu_refsi.HostMemory.{HostMemory}
use nupu_refsi.Access.Ram.{RamAt}
use nupu_refsi.Accelerator.{create_sim}
use nupu_refsi.Queue.{Request, max_requests}
use nupu_refsi.Board.Plain.{m1_plain}
use nupu_refsi.Driver.{
  SocFamily, RefsiDevice, refsi_open_device, refsi_write_device_memory, refsi_read_device_memory,
  refsi_execute_command_buffer, new_device, initialize,
}
use nupu_refsi.Driver.Requests.{write-execute-read}

-- The device that the driver opens is new: of family M, without requests, with its DRAM as plain
-- memory.
opened_dram :
    (memory : HostMemory) (csr : ℕ → ℕ → Option ℕ) (csr_write : ℕ → ℕ → ℕ → ℕ) (off n : ℕ)
    → off + n ≤ dram_size
    → (d : RefsiDevice) × (refsi_open_device memory csr csr_write 1 ≡ some (some d))
      × (d.family ≡ SocFamily.m)
      × (d.queue.requests ≡ [])
      × RamAt d.queue.soc.machine (dram_base + off) n (record { block = 2; offset = off })
unfolding refsi_open_device new_device initialize create_sim
opened_dram memory csr csr_write off n inside =
    let (b, created, dram, tcdm) = m1_plain memory csr csr_write off n 0 0 inside (omega arith) in
    ((initialize (new_device b)).1, rw (created, refsi_open_device) refl, refl, refl, dram)

-- A session of the host: it opens an M1 device, writes bytes to DRAM and hands over a command
-- buffer. Every call succeeds, the bytes are read back as they were written, and the command buffer
-- is the one request that waits. No round of the worker comes in between, and the bytes lie within
-- DRAM.
pub open-write-execute-read :
    (memory : HostMemory) (csr : ℕ → ℕ → Option ℕ) (csr_write : ℕ → ℕ → ℕ → ℕ)
    (off unit unit' cb_addr cb_size : ℕ) (bytes : List ℕ)
    → off + length bytes ≤ dram_size
    → (d : RefsiDevice) × (d1 : RefsiDevice) × (d2 : RefsiDevice) × (refsi_open_device memory csr
          csr_write 1
        ≡ some (some d))
      × (refsi_write_device_memory (some d) (dram_base + off) bytes (length bytes) unit
          ≡ some (RefsiResult.success, some d1))
      × (refsi_execute_command_buffer (some d1) cb_addr cb_size
          ≡ some (RefsiResult.success, some d2))
      × (refsi_read_device_memory (some d2) (dram_base + off) (length bytes) unit'
          ≡ some (RefsiResult.success, bytes))
      × (d2.queue.requests
          ≡ record { command_buffer_addr = cb_addr; command_buffer_size = cb_size } ∷ [])
open-write-execute-read memory csr csr_write off unit unit' cb_addr cb_size bytes inside =
    let (d, opened, family, empty, dram) =
      opened_dram memory csr csr_write off (length bytes) inside in
    let room : length d.queue.requests ≤ max_requests =
      subst (λ (l : List Request). length l ≤ max_requests) (sym empty) (omega arith) in
    let (d1, d2, written, executed, back, requests) =
      write-execute-read d (dram_base + off) unit unit' cb_addr cb_size bytes _ family room dram in
    let request : Request = record {
      command_buffer_addr = cb_addr;
      command_buffer_size = cb_size;
    } in
    (
      d,
      d1,
      d2,
      opened,
      written,
      executed,
      back,
      requests ∙ ap (λ (l : List Request). l ++ request ∷ []) empty,
    )
