-- ===== src/Files/Vectors/Advance.antt =====
-- How far a read into several buffers moves the file's position.
use so2_202003745_vd.Base.{
  ℕ, ◌+◌, ◌≤◌, ◌≡◌, true, false, List, [], ◌∷◌, Option, some, ℤ, pos, is_nonpos, inl, inr, arith,
  ok, has, Option-cases, refl,
}
use so2_202003745_vd.Files.Area.{Direction, reading, rw_verify_area}
use so2_202003745_vd.Files.Transfer.{
  World, Method, Outcome, assign, record_access, bytes, max_rw_count,
}
use so2_202003745_vd.Files.Transfer.Advance.{KeepsCount, Dispatched, Advances}
use so2_202003745_vd.Files.Transfer.Vector.{
  iov_iter_count, FailsInPlace, loop, loop-Moved, met_buffers, met_buffers_count,
  do_loop_readv_writev,
}
use so2_202003745_vd.Files.Vectors.{
  Vectored, do_readv, vfs_readv, move_buffers, do_iter_readv_writev,
}

-- What the reading methods of a file promise under the flags of a call.
pub record IsVectorable (v : Vectored) (flags : ℕ) : Type 0 where
  pub iter : (f : Method) → v.driver.read_iter ≡ some f → KeepsCount (v.under_flags flags f)
  pub plain : (f : Method) → v.driver.read ≡ some f → KeepsCount f
  pub in_place : (f : Method) → v.driver.read ≡ some f → FailsInPlace f
  pub refused : is_nonpos (v.kiocb_set_rw_flags flags) ≡ true

-- The loop leaves the file and the charge.
abbrev IsCharged : World → Outcome → Type 0
IsCharged w (ret, ppos, w') = (w'.file ≡ w.file) × (w'.rchar ≡ w.rchar)

loop_step-IsCharged :
    (d : Direction) (f : Method) (len : ℕ) (rest : List ℕ) (ret : ℕ) (ppos : Option ℤ) (w : World)
    → ((ret' : ℕ) (ppos' : Option ℤ) (w' : World) → IsCharged w' (loop d f rest ret' ppos' w'))
    → IsCharged w (loop d f (len ∷ rest) ret ppos w)
unfolding loop
loop_step-IsCharged d f len rest ret ppos w later =
    let (nr, p) = f w.accesses ppos len in
    ground (arith, later (ret + bytes nr) (assign ppos p) (record_access d ppos len w))

loop-IsCharged :
    (d : Direction) (f : Method) (lens : List ℕ) (ret : ℕ) (ppos : Option ℤ) (w : World)
    → IsCharged w (loop d f lens ret ppos w)
unfolding loop
loop-IsCharged d f [] ret ppos w = (refl, refl)
loop-IsCharged d f (len ∷ rest) ret ppos w =
    loop_step-IsCharged d f len rest ret ppos w (loop-IsCharged d f rest)

do_loop_readv_writev-Dispatched :
    (d : Direction) (f : Method) (lens : List ℕ) (flags p : ℕ) (w : World)
    → KeepsCount f
    → FailsInPlace f
    → Dispatched p (iov_iter_count lens) w (do_loop_readv_writev d f lens flags (some (pos p)) w)
unfolding do_loop_readv_writev
do_loop_readv_writev-Dispatched d f lens flags p w keeps fails = ground (
  arith,
  met_buffers_count lens,
  loop-Moved d f (met_buffers lens) 0 p w keeps fails,
  loop-IsCharged d f (met_buffers lens) 0 (some (pos p)) w,
)

do_iter_readv_writev-Dispatched :
    (v : Vectored) (d : Direction) (f : Method) (total flags p : ℕ) (w : World)
    → KeepsCount (v.under_flags flags f)
    → is_nonpos (v.kiocb_set_rw_flags flags) ≡ true
    → Dispatched p total w (do_iter_readv_writev v d f total flags (some (pos p)) w)
unfolding do_iter_readv_writev
do_iter_readv_writev-Dispatched v d f total flags p w keeps refused =
    ground (arith, keeps w.accesses p total)

move_buffers-Dispatched :
    (v : Vectored) (lens : List ℕ) (flags p : ℕ) (w : World)
    → IsVectorable v flags
    → Dispatched p
        (iov_iter_count lens)
        w
        (move_buffers v reading v.driver.read_iter v.driver.read lens flags (some (pos p)) w)
unfolding move_buffers
move_buffers-Dispatched v lens flags p w r = elim (Option-cases v.driver.read_iter) [
  | inr (f, has) ↦ ground (
    arith,
    do_iter_readv_writev-Dispatched v reading f (iov_iter_count lens) flags p w (r.iter f has)
        r.refused,
  )
  | inl absent ↦ elim (Option-cases v.driver.read) [
    | inr (f, has) ↦ ground (
      arith,
      do_loop_readv_writev-Dispatched reading f lens flags p w (r.plain f has) (r.in_place f has),
    )
    | inl neither ↦ ground arith
  ]
]

-- `readv` on a file with positions, at offset `p`, either returns an error and leaves the file and the
-- charge alone, or it moves the position by exactly the bytes that it returns and charges, at most
-- what its buffers hold. The buffers are imported
-- and hold at most MAX_RW_COUNT, and the methods of the file keep count under the flags.
pub do_readv-Advances :
    (v : Vectored) (lens : List ℕ) (flags p : ℕ) (w : World)
    → IsVectorable v flags
    → v.import_iovec ≡ ok lens
    → iov_iter_count lens ≤ max_rw_count
    → w.file.f_mode.fmode_stream ≡ false
    → w.file.f_pos ≡ pos p
    → Advances p (iov_iter_count lens) w (do_readv v flags w)
unfolding do_readv vfs_readv rw_verify_area
do_readv-Advances v lens flags p w r imported most positions there =
    ground (arith, move_buffers-Dispatched v lens flags p w r)
