-- ===== src/SysInfo.antt =====
-- The `sysinfo` system call, Kernel/kernel/sys.c.
pub mod Scale
use so2_202003745_vd.Base.{
  ℕ, zero, suc, ◌+◌, ◌*◌, ◌/◌, ◌%◌, ◌^◌, Option, none, some, Bool, true, false, ◌&&◌, ◌||◌, not, ℤ,
  pos, neg, ltb, leb, ◌==◌, if◌then◌else◌, efault, word, page_size,
}

-- `struct sysinfo`
pub record SysInfo : Type 0 where
  pub uptime : ℕ
  pub loads : ℕ × ℕ × ℕ
  pub totalram : ℕ
  pub freeram : ℕ
  pub sharedram : ℕ
  pub bufferram : ℕ
  pub totalswap : ℕ
  pub freeswap : ℕ
  pub procs : ℕ
  pub totalhigh : ℕ
  pub freehigh : ℕ
  pub mem_unit : ℕ

-- What the clock says, and the struct that `get_avenrun`, `si_meminfo` and `si_swapinfo` fill.
pub record Readings : Type 0 where
  pub tv_sec : ℕ
  pub tv_nsec : ℕ
  pub nr_threads : ℕ
  pub filled : SysInfo

-- How the loop over `mem_unit` ends: `overflow` is the `goto out`, `bits` the `bitcount` of a run to
-- the end, `out_of_fuel` neither.
pub data Scaling : Type 0 where
  out_of_fuel overflow : Scaling
  bits : ℕ → Scaling

-- `while (mem_unit > 1)`
unfoldable pub count_bits : ℕ → ℕ → ℕ → ℕ → Scaling
count_bits zero mem_unit mem_total bitcount = out_of_fuel
count_bits (suc fuel) mem_unit mem_total bitcount =
    let doubled = mem_total * 2 % word in
    let rest = count_bits fuel (mem_unit / 2) doubled (bitcount + 1) in
    if ltb 1 mem_unit then (if ltb doubled mem_total then overflow else rest) else bits bitcount

-- `x << bitcount` in an unsigned long
abbrev pub shl : ℕ → ℕ → ℕ
shl x bitcount = x * 2 ^ bitcount % word

unfoldable pub in_bytes : ℕ → SysInfo → SysInfo
in_bytes bitcount info = record info {
  mem_unit = 1;
  totalram = shl info.totalram bitcount;
  freeram = shl info.freeram bitcount;
  sharedram = shl info.sharedram bitcount;
  bufferram = shl info.bufferram bitcount;
  totalswap = shl info.totalswap bitcount;
  freeswap = shl info.freeswap bitcount;
  totalhigh = shl info.totalhigh bitcount;
  freehigh = shl info.freehigh bitcount;
}

-- what the loop's end means for the struct
unfoldable pub rescale : Scaling → SysInfo → SysInfo
rescale out_of_fuel info = info
rescale overflow info = info
rescale (bits bitcount) info = in_bytes bitcount info

-- `mem_unit` is an unsigned int: 32 halvings and the last test.
abbrev pub scale_fuel : ℕ
scale_fuel = 33

unfoldable pub normalise : SysInfo → SysInfo
unfolding rescale
normalise info =
    let mem_total = (info.totalram + info.totalswap) % word in
    if ltb mem_total info.totalram || ltb mem_total info.totalswap
    then info
    else rescale (count_bits scale_fuel info.mem_unit mem_total 0) info

-- `do_sysinfo`
unfoldable pub do_sysinfo : Readings → SysInfo
do_sysinfo r = normalise (record r.filled {
  uptime = r.tv_sec + (if r.tv_nsec == 0 then 0 else 1);
  procs = r.nr_threads;
})

-- `sysinfo`; `copied` tells whether the copy to user space succeeds
unfoldable pub sysinfo : Readings → Bool → ℤ × Option SysInfo
sysinfo r copied = if copied then (pos 0, some (do_sysinfo r)) else (neg efault, none)

-- The loop of the 32-bit call, `while (s.mem_unit < PAGE_SIZE)`: the shifts made, if it ends.
unfoldable pub count_shifts : ℕ → ℕ → ℕ → Option (ℕ × ℕ)
count_shifts zero mem_unit bitcount = none
count_shifts (suc fuel) mem_unit bitcount =
    let rest = count_shifts fuel (mem_unit * 2 % 2 ^ 32) (bitcount + 1) in
    if ltb mem_unit page_size then rest else some (mem_unit, bitcount)

unfoldable pub shifted : ℕ × ℕ → SysInfo → SysInfo
shifted (mem_unit, bitcount) s = record s {
  mem_unit = mem_unit;
  totalram = s.totalram / 2 ^ bitcount;
  freeram = s.freeram / 2 ^ bitcount;
  sharedram = s.sharedram / 2 ^ bitcount;
  bufferram = s.bufferram / 2 ^ bitcount;
  totalswap = s.totalswap / 2 ^ bitcount;
  freeswap = s.freeswap / 2 ^ bitcount;
  totalhigh = s.totalhigh / 2 ^ bitcount;
  freehigh = s.freehigh / 2 ^ bitcount;
}

-- assignment to a u32
abbrev pub low32 : ℕ → ℕ
low32 x = x % 2 ^ 32

-- The 32-bit struct: every field cut to 32 bits, `procs` to 16.
unfoldable pub to_s32 : SysInfo → SysInfo
to_s32 s = record {
  uptime = low32 s.uptime;
  loads = (low32 s.loads.0, low32 s.loads.1, low32 s.loads.2);
  totalram = low32 s.totalram;
  freeram = low32 s.freeram;
  sharedram = low32 s.sharedram;
  bufferram = low32 s.bufferram;
  totalswap = low32 s.totalswap;
  freeswap = low32 s.freeswap;
  procs = s.procs % 2 ^ 16;
  totalhigh = low32 s.totalhigh;
  freehigh = low32 s.freehigh;
  mem_unit = low32 s.mem_unit;
}

-- The struct that the 32-bit `sysinfo` copies out; `none` if its loop does not end in 13 rounds.
unfoldable pub compat_sysinfo : Readings → Option SysInfo
compat_sysinfo r =
    let s = do_sysinfo r in
    if (s.totalram / 2 ^ 32 == 0) && (s.totalswap / 2 ^ 32 == 0)
    then some (to_s32 s)
    else elim (count_shifts 13 s.mem_unit 0) [
      | none ↦ none
      | some shifts ↦ some (to_s32 (shifted shifts s))
    ]
