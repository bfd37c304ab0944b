-- ===== src/Base/Errno.antt =====
-- Error numbers, capabilities and page constants of x86-64 Linux that the source names. Their
-- headers are not in the repository; the values are those of its kernel ABI.
use Prim.Native.Nat.{ℕ, ◌^◌}

abbrev pub eperm : ℕ
eperm = 1

abbrev pub esrch : ℕ
esrch = 3

abbrev pub eagain : ℕ
eagain = 11

abbrev pub eintr : ℕ
eintr = 4

abbrev pub erestartnointr : ℕ
erestartnointr = 513

abbrev pub enosys : ℕ
enosys = 38

abbrev pub enomem : ℕ
enomem = 12

abbrev pub eacces : ℕ
eacces = 13

abbrev pub efault : ℕ
efault = 14

abbrev pub einval : ℕ
einval = 22

abbrev pub ebadf : ℕ
ebadf = 9

abbrev pub exdev : ℕ
exdev = 18

abbrev pub eisdir : ℕ
eisdir = 21

abbrev pub etxtbsy : ℕ
etxtbsy = 26

abbrev pub efbig : ℕ
efbig = 27

abbrev pub espipe : ℕ
espipe = 29

abbrev pub enxio : ℕ
enxio = 6

abbrev pub eoverflow : ℕ
eoverflow = 75

abbrev pub e2big : ℕ
e2big = 7

abbrev pub eopnotsupp : ℕ
eopnotsupp = 95

abbrev pub enotdir : ℕ
enotdir = 20

abbrev pub erofs : ℕ
erofs = 30

abbrev pub enodev : ℕ
enodev = 19

abbrev pub cap_setgid : ℕ
cap_setgid = 6

abbrev pub cap_setuid : ℕ
cap_setuid = 7

abbrev pub cap_sys_admin : ℕ
cap_sys_admin = 21

abbrev pub cap_sys_resource : ℕ
cap_sys_resource = 24

-- unsigned long, size_t, unsigned long long, __u64: arithmetic modulo 2 ^ 64
abbrev pub word : ℕ
word = 2 ^ 64

-- `1 << PAGE_SHIFT`
abbrev pub page_size : ℕ
page_size = 4096

abbrev pub ebusy : ℕ
ebusy = 16
