-- ===== src/Lib.antt =====
-- The RefSi M1 device simulator: its memory system, its DMA device, its memory windows, its
-- performance counters, its command processor and the simulator of its harts; the loader of ELF
-- programs; and the host's abstraction layer (HAL), which drives the device.
--
-- The program is a driver library (driver/) that simulates the RefSi accelerator for a host program.
-- The host puts a buffer of commands in device memory; the command processor (CMP) reads the buffer
-- and executes the commands: it writes its registers, loads and stores words, copies memory and runs
-- kernels on the harts of the accelerator. Every access to device memory goes through the memory
-- controller, which finds the device that is mapped at an address. A memory window redirects accesses
-- to another device, and is configured by writes to CMP registers. The DMA device copies memory
-- between two addresses when its control register is written. A hart runs in the simulator, which
-- gives the harts turns and handles their traps, barriers and exits. The HAL loads programs, fills
-- memory, packs arguments and builds the command buffers that run kernels.
--
-- Files and sources:
--   Config, UnitId   constants and enumerations of driver/include/refsidrv/refsidrv.h,
--                    refsi_device.h, driver/include/device/dma_regs.h and
--                    driver/include/common/common_devices.h; unit IDs
--   Header           refsiEncodeCMPCommand and refsiDecodeCMPCommand of
--                    driver/source/refsidrv/refsidrv.cpp
--   HostMemory       the memory of the simulating process, with memcpy
--   Machine          the state of the device: memory, device objects, address map
--   Controller       MemoryController::add_device, remove_device, find_device of
--                    driver/source/common/common_devices.cpp
--   Pointers         addr_to_mem of every device class; getScale and getEffectiveAddress of
--                    driver/source/refsidrv/refsi_memory_window.cpp
--   Dma              driver/source/refsidrv/kernel_dma.cpp
--   PerfCounters     driver/source/refsidrv/refsi_perf_counters.cpp, and readPerfCounter and
--                    writePerfCounter of driver/source/refsidrv/refsi_accelerator.cpp
--   Access           load, store and copy of the memory controller and of every device class
--   Window           handleRegWrite, enableWindow, disableWindow of
--                    driver/source/refsidrv/refsi_memory_window.cpp, and handleWindowRegWrite of
--                    driver/source/refsidrv/refsi_memory.cpp
--   Soc, Accelerator createSim, runKernelSlice and syncCache of
--                    driver/source/refsidrv/refsi_accelerator.cpp
--   Chunk, Processor execute and the command handlers of
--                    driver/source/refsidrv/refsi_command_processor.cpp
--   DeviceApi        allocation, reads and writes of driver/source/refsidrv/refsi_device.cpp
--   Board            createMemRange and addMemDevice of driver/source/refsidrv/refsi_memory.cpp, and
--                    the construction of an M1 device, driver/source/refsidrv/refsi_device_m.cpp
--   Driver           the entry points of driver/source/refsidrv/refsidrv.cpp on a device's handle
--   CommandBuffer    the builder of commands, hal_refsi/source/refsi_command_buffer.cpp, and the
--                    bytes that its run writes
--   Queue            start, stop, enqueueRequest and workerMain of
--                    driver/source/refsidrv/refsi_command_processor.cpp, as steps under the mutex
--   Simulator        driver/source/refsidrv/slim_sim.cpp: the turns of the harts, exits, barriers and
--                    memory accesses; Traps is driver/source/refsidrv/trap_handlers.cpp and the
--                    RefSiTrapHandler of driver/source/refsidrv/refsi_accelerator.cpp
--   Elf              driver/source/common/elf_loader.cpp: Strings, Reader and Symbols read a program,
--                    Elf itself loads it
--   Hal              hal_refsi/source/refsi_hal.cpp: memory, counters and arguments; Windows, Rom and
--                    Kernels are hal_refsi/source/refsi_hal_m1.cpp
--   RiscvEncoder     hal_refsi/source/riscv_encoder.cpp and hal_refsi/include/riscv_encoder.h
--   Region           what a client of a memory relies on, and that RAM behind the memory controller
--                    provides it; Elf and Hal use it
--   Bits, Bytes, Prelude   lemmas on bit operations, words as bytes, Boolean tests and lists
--   Examples         the theorems at concrete inputs
--
-- How the model stands to the code. A `MemoryDevice *` is a number that `devices` of the machine
-- maps to an object. The contents of a device are a block of the host memory, and a pointer is a
-- block with an offset. A 64-bit operation wraps at 2^64 where the source's does. An outer `none` is
-- undefined behaviour of the source or a loop that does not end: a memcpy outside its block or
-- between ranges that overlap, a null pointer, a `uint` loop counter that cannot reach its bound. An
-- inner `none`, `false` and `failure` are what the source returns. Debug output is left out.
--
-- Bounds. `addr_to_mem`, `device_load` and `device_store` pass through at most `max_depth` = 2 devices,
-- a window and its target, since the source refuses a window on a window. The loop over a command
-- buffer of n chunks has fuel n, and the loop over hart groups a round for each instance. A call of
-- slim_sim_t::step has fuel for each instruction, since a round executes one or more. The loops of
-- mem_fill and of the zeros of a segment have fuel for each byte; a string takes a round for each
-- chunk of eight bytes.
--
-- Not modelled: the execution of instructions and the registers of a hart, which are the Spike
-- library's and the parameter `spike` of the simulator; a whole simulation is the parameter `run` of
-- the accelerator. The structures of fesvr/elf.h, the counter values of the HAL's library and the
-- allocator of DRAM are parameters too. The logs, the debugger and
-- the debug mode of slim_sim_t::run, the host file device and the hart-local device, the driver's
-- queries of constants and the end of a device, the run of a command buffer by the HAL and the kernel uniform block, the
-- compiler target and the examples are left out.
pub mod Prelude
pub mod Bits
pub mod Header
pub mod Config
pub mod UnitId
pub mod HostMemory
pub mod Bytes
pub mod Machine
pub mod Controller
pub mod Pointers
pub mod Dma
pub mod PerfCounters
pub mod Window
pub mod Soc
pub mod Accelerator
pub mod Chunk
pub mod Processor
pub mod Access
pub mod Examples
pub mod CommandBuffer
pub mod DeviceApi
pub mod Queue
pub mod Simulator
pub mod Region
pub mod Hal
pub mod Elf
pub mod RiscvEncoder
pub mod Board
pub mod Driver
