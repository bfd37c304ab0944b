-- ===== src/MemoryLimits/Listing.antt =====
-- What `luis_get_memory_limits` gives to user space.
use so2_202003745_vd.Base.{
  ℕ, zero, suc, ◌+◌, ◌-◌, ◌*◌, ◌≡◌, ◌≤◌, refl, ap, ◌∙◌, List, [], ◌∷◌, length, take, length-take-le,
  some, true, false, pos, inl, inr, enter, arith, leb, Bool-cases, word,
}
use so2_202003745_vd.MemoryLimits.{
  Limitation, UserAccess, UserMemory, luis_get_memory_limits, fill_buffer, limitation_size,
}

take-nil : (n : ℕ) → take {A = Limitation} n [] ≡ []
take-nil zero = refl
take-nil (suc n) = refl

pub fill_buffer-take :
    (max_entries count : ℕ) (l : List Limitation)
    → fill_buffer max_entries count l ≡ take (max_entries - count) l
unfolding fill_buffer
fill_buffer-take max_entries count [] = rw take-nil
fill_buffer-take max_entries count (entry ∷ rest) =
    let ih = fill_buffer-take max_entries (count + 1) rest in
    elim (Bool-cases (leb max_entries count)) [
      | inl full ↦ let none_left : max_entries - count ≡ 0 = ground arith in rw (full, none_left)
      | inr free ↦
          let one_more : max_entries - count ≡ suc (max_entries - (count + 1)) = ground arith in
          rw (free, one_more, ih)
    ]

-- A return of 0 of `luis_get_memory_limits` has written to user space the first `max_entries` entries of the list, in its
-- order, or all of them if there are fewer, and their number, which is at most `max_entries`.
pub get_writes_prefix :
    (u : UserAccess) (max_entries : ℕ) (l : List Limitation) (m : UserMemory)
    → (enter (luis_get_memory_limits u max_entries l) m).0 ≡ pos 0
    → let m' = (enter (luis_get_memory_limits u max_entries l) m).1 in
      (m'.processes_buffer ≡ some (take max_entries l))
      × (m'.processes_buffer_size ≡ some (length (take max_entries l)))
      × (length (take max_entries l) ≤ max_entries)
unfolding luis_get_memory_limits
get_writes_prefix u max_entries l m h =
    let e : fill_buffer max_entries 0 l ≡ take max_entries l =
      fill_buffer-take max_entries 0 l ∙ ap (λ n. take n l) (omega arith) in
    ground (arith, e, length-take-le max_entries l)

-- If the allocator refuses an array whose size does not fit in 64 bits, as the kernel's does, a
-- return of 0 means that the size that was checked against the user's buffer had not wrapped.
pub get_size_exact :
    (u : UserAccess) (max_entries : ℕ) (l : List Limitation) (m : UserMemory)
    → (word ≤ max_entries * limitation_size → u.kmalloc_array max_entries limitation_size ≡ false)
    → (enter (luis_get_memory_limits u max_entries l) m).0 ≡ pos 0
    → (u.buffer_ok (max_entries * limitation_size) ≡ true)
      × (length (fill_buffer max_entries 0 l) * limitation_size ≤ max_entries * limitation_size)
unfolding luis_get_memory_limits
get_size_exact u max_entries l m overflow h =
    let e : fill_buffer max_entries 0 l ≡ take max_entries l =
      fill_buffer-take max_entries 0 l ∙ ap (λ n. take n l) (omega arith) in
    ground (arith, e, length-take-le max_entries l, overflow)
