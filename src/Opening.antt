-- ===== src/Opening.antt =====
-- Opening files, Kernel/fs/open.c: the flags of an open, the call itself, and the calls that change the
-- size or the blocks of a file.
pub mod Flags
pub mod Openat2
pub mod Resize
pub mod Fallocate
pub mod Access
pub mod Dentry
