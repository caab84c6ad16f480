-- ===== src/Processor.antt =====
-- The command processor (driver/source/refsidrv/refsi_command_processor.cpp): the handler of each
-- command, and the loop over a command buffer. An outer `none` stands for undefined behaviour.
pub mod Registers
pub mod Kernels
pub mod Execute
pub mod Words
pub mod CopyMem
pub mod SliceHarts
pub mod Slices
