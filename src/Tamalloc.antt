-- ===== src/Tamalloc.antt =====
-- `luis_tamalloc` and its fault handler, Kernel/kernel/sys.c.
pub mod Laws
use so2_202003745_vd.Base.{
  ℕ, ◌+◌, ◌*◌, ◌/◌, ◌-◌, ◌%◌, ◌^◌, List, [], ◌∷◌, Option, none, some, Bool, true, false, ◌&&◌, not,
  ℤ, ltb, pos, neg, ◌==◌, leb, if◌then◌else◌, Result, Call, ok, err, ◌>>=◌, ◌>>◌, pure, gets,
  modify, return_if, efault, word, page_size,
}

-- The mappings that the process has, address and length, and the bytes that `addr` points to, from
-- the lowest one on.
pub record Process : Type 0 where
  pub mappings : List (ℕ × ℕ)
  pub user_addr : ℕ → ℕ

-- What the call takes from the rest of the kernel: the address that `vm_mmap` chooses for a length,
-- or an error number, and the mappings that `vm_munmap` of an address and a length leaves.
pub record Host : Type 0 where
  pub vm_mmap : List (ℕ × ℕ) → ℕ → Result ℕ
  pub vm_munmap : ℕ → ℕ → List (ℕ × ℕ) → List (ℕ × ℕ)

-- `PAGE_ALIGN(size)` in a size_t
unfoldable pub page_align : ℕ → ℕ
page_align size = (size + (page_size - 1)) % word / page_size * page_size

-- `copy_to_user(addr, &user_addr, sizeof(user_addr))` that leaves `uncopied` of the 8 bytes
unfoldable pub copy_address : ℕ → ℕ → (ℕ → ℕ) → ℕ → ℕ
copy_address uncopied user_addr old i =
    if ltb i (8 - uncopied) then user_addr / 256 ^ i % 256 else old i

-- `luis_tamalloc`: `vm_mmap` returns an address or an error; `uncopied` is the number of bytes of the
-- address that `copy_to_user` could not write.
unfoldable pub luis_tamalloc : Host → ℕ → ℕ → Call Process ℤ
luis_tamalloc h size uncopied p =
    let len = page_align size in
    elim (h.vm_mmap p.mappings len) [
      | err e ↦ (err e, p)
      | ok user_addr ↦
          let mapped = (user_addr, len) ∷ p.mappings in
          let told = copy_address uncopied user_addr p.user_addr in
          if uncopied == 0
          then (ok (pos 0), record p { mappings = mapped; user_addr = told })
          else (
            err (neg efault),
            record p { mappings = h.vm_munmap user_addr len mapped; user_addr = told },
          )
    ]

-- `VM_FAULT_OOM`
abbrev pub vm_fault_oom : ℕ
vm_fault_oom = 1

-- `tamalloc_page_fault_handler`: the value returned and `vmf->page`, from what `alloc_page` gives
unfoldable pub tamalloc_page_fault_handler : Option ℕ → Option ℕ → ℕ × Option ℕ
tamalloc_page_fault_handler none page = (vm_fault_oom, page)
tamalloc_page_fault_handler (some new) page = (0, some new)
