-- ===== src/Start.antt =====
-- The start of the kernel, Kernel/Init/main.c: the options that are handed to the first program, the
-- calls that set up the parts of the kernel, and the choice of the first program.
pub mod Options
pub mod Initcalls
pub mod Init
