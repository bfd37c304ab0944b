-- ===== src/Files/Transfer/Advance.antt =====
-- How far a read moves the file's position.
use so2_202003745_vd.Base.{
  ℕ, ◌+◌, ◌≤◌, ◌≡◌, ◌⊎◌, true, false, List, [], ◌∷◌, Option, some, ℤ, pos, is_neg, is_nonpos, inl,
  inr, arith, Option-cases,
}
use so2_202003745_vd.Files.Area.{Direction, reading, rw_verify_area}
use so2_202003745_vd.Files.Transfer.{
  World, Driver, Access, Method, bytes, capped, max_rw_count, vfs_read, dispatch_read, ksys_read,
}

-- What a method promises: an error, or a count of at most what was asked and a position moved by it.
abbrev pub KeepsCount : Method → Type 0
KeepsCount f =
    (l : List Access) (p count : ℕ)
    → let (ret, p') = f l (some (pos p)) count in
      (is_neg ret ≡ true)
      ⊎ ((is_neg ret ≡ false) × (bytes ret ≤ count) × (p' ≡ pos (p + bytes ret)))

-- The reading methods of a driver keep that promise, and the hooks answer 0 or an error.
pub record IsReadable (k : Driver) : Type 0 where
  pub methods : (f : Method) → (k.read ≡ some f) ⊎ (k.read_iter ≡ some f) → KeepsCount f
  pub security : (d : Direction) → is_nonpos (k.permission.security_file_permission d) ≡ true
  pub fsnotify :
      (d : Direction) (ppos : Option ℤ) (count : ℕ)
      → is_nonpos (k.permission.fsnotify_file_area_perm d ppos count) ≡ true

-- A call failed and moved nothing, or it moved a file from `p` by as many bytes as it returns and
-- charges, at most `count` and at most MAX_RW_COUNT.
abbrev pub Advances : ℕ → ℕ → World → ℤ × World → Type 0
Advances p count w (ret, w') =
    ((is_neg ret ≡ true) × (w'.file ≡ w.file) × (w'.rchar ≡ w.rchar))
    ⊎ ((is_neg ret ≡ false)
        × (bytes ret ≤ count)
        × (bytes ret ≤ max_rw_count)
        × (w'.file ≡ record w.file { f_pos = pos (p + bytes ret) })
        × (w'.rchar ≡ w.rchar + bytes ret))

-- Where the area is fine, what the dispatch gives.
abbrev pub Dispatched : ℕ → ℕ → World → ℤ × Option ℤ × World → Type 0
Dispatched p count w (ret, ppos, w') =
    (w'.file ≡ w.file)
    × (w'.rchar ≡ w.rchar)
    × ((is_neg ret ≡ true)
        ⊎ ((is_neg ret ≡ false) × (bytes ret ≤ count) × (ppos ≡ some (pos (p + bytes ret)))))

dispatch_read-Dispatched :
    (k : Driver) (p count : ℕ) (w : World)
    → IsReadable k
    → Dispatched p count w (dispatch_read k count (some (pos p)) w)
unfolding dispatch_read
dispatch_read-Dispatched k p count w r = elim (Option-cases k.read) [
  | inr (f, has) ↦ ground (arith, r.methods f (inl has) w.accesses p count)
  | inl absent ↦ elim (Option-cases k.read_iter) [
    | inr (f, has) ↦ ground (arith, r.methods f (inr has) w.accesses p count)
    | inl neither ↦ ground arith
  ]
]

-- `read` on a file with positions, at offset `p`, either returns an error and leaves the file and the
-- charge alone, or it moves the position by exactly the bytes that it returns and charges, at most
-- what was asked and at most MAX_RW_COUNT, if the file's methods keep count and the hooks answer 0
-- or an error.
pub ksys_read-Advances :
    (k : Driver) (p count : ℕ) (w : World)
    → IsReadable k
    → w.file.f_mode.fmode_stream ≡ false
    → w.file.f_pos ≡ pos p
    → Advances p count w (ksys_read k count w)
unfolding ksys_read vfs_read rw_verify_area
ksys_read-Advances k p count w r positions there = ground (
  arith,
  dispatch_read-Dispatched k p (capped count) w r,
  r.security reading,
  r.fsnotify reading (some (pos p)) count,
)

-- the world after a number of reads
pub after_reads : Driver → List ℕ → World → World
after_reads k [] w = w
after_reads k (count ∷ rest) w = after_reads k rest (ksys_read k count w).1

-- Over any sequence of reads the position of such a file has moved by exactly the bytes that the task
-- was charged with, whichever of the reads failed or were short.
pub after_reads-rchar :
    (k : Driver) (l : List ℕ) (p : ℕ) (w : World)
    → IsReadable k
    → w.file.f_mode.fmode_stream ≡ false
    → w.file.f_pos ≡ pos p
    → (n : ℕ) × ((after_reads k l w).file ≡ record w.file { f_pos = pos (p + n) })
      × ((after_reads k l w).rchar ≡ w.rchar + n)
unfolding after_reads
after_reads-rchar k [] p w r positions there = (0, ground arith, omega arith)
after_reads-rchar k (count ∷ rest) p w r positions there =
    let w' = (ksys_read k count w).1 in
    elim (ksys_read-Advances k p count w r positions there) [
      | inl (failed, same, charge) ↦
          let (n, file, total) = after_reads-rchar k rest p w' r (ground arith) (ground arith) in
          (n, ground arith, omega arith)
      | inr (done, asked, most, moved, charge) ↦
          let b = bytes (ksys_read k count w).0 in
          let (n, file, total) =
            after_reads-rchar k rest (p + b) w' r (ground arith) (ground arith) in
          (b + n, ground arith, omega arith)
    ]
