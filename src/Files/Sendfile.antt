-- ===== src/Files/Sendfile.antt =====
-- Sending a file into another: `do_sendfile` and the system calls on it.
pub mod Advance
use so2_202003745_vd.Base.{
  ℕ, ◌+◌, ◌-◌, ◌^◌, ◌%◌, Bool, not, ◌∷◌, Option, none, some, ℤ, pos, neg, ltb, is_neg, is_zero,
  is_nonpos, is_some, ltz, lez, minz, sub64, to_word, ◌&&◌, if◌then◌else◌, ebadf, espipe, eoverflow,
  efault,
}
use so2_202003745_vd.Files.Area.{reading, writing, Permission, rw_verify_area}
use so2_202003745_vd.Files.{File}
use so2_202003745_vd.Files.Transfer.{bytes, capped}
use so2_202003745_vd.Files.WriteLimits.{max_non_lfs}
use so2_202003745_vd.Files.CopyRange.{CopyWorld, set_pos}

-- The two files by their numbers, and what the call takes from the rest of the kernel: the hooks, the
-- largest sizes of the two file systems, whether the output is a pipe (`get_pipe_info`) that does
-- not block, `do_splice_direct` and `splice_file_to_pipe`, which leave positions too.
pub record SendHost : Type 0 where
  pub in_file : ℕ
  pub out_file : ℕ
  pub permission : Permission
  pub in_maxbytes : ℤ
  pub out_maxbytes : ℤ
  pub is_pipe : Bool
  pub is_nonblock : Bool
  pub splice_direct : ℤ → ℤ → ℕ → ℤ × ℤ × ℤ
  pub splice_file_to_pipe : ℤ → ℕ → Bool → ℤ × ℤ

-- `max`, or the smaller of the largest sizes
abbrev pub send_max : SendHost → ℤ → ℤ
send_max h max = if is_zero max then minz h.in_maxbytes h.out_maxbytes else max

-- `pos + count > max`, of unsigned numbers
abbrev pub is_beyond : ℤ → ℕ → ℤ → Bool
is_beyond p count max = ltb (to_word max) ((to_word p + count) % 2 ^ 64)

-- `count = max - pos` where the sum is beyond
abbrev pub send_count : ℤ → ℕ → ℤ → ℕ
send_count p count max = if is_beyond p count max then to_word (sub64 max p) else count

-- The transfer: the result and both positions then.
unfoldable pub send_data : SendHost → ℤ → ℤ → ℕ → ℤ × ℤ × ℤ
send_data h p out_pos count =
    let (ret, p') = h.splice_file_to_pipe p count h.is_nonblock in
    if h.is_pipe then (ret, p', out_pos) else h.splice_direct p out_pos count

-- Whether the output may take the data: an error or 0; a pipe is not asked.
unfoldable pub send_area : SendHost → File → ℤ → ℕ → ℤ
send_area h out_file out_pos count =
    let area = rw_verify_area h.permission writing out_file (some out_pos) count in
    if h.is_pipe then pos 0 else if is_neg area then area else pos 0

-- `*ppos = pos`, or the position of the input
abbrev pub leave_pos : SendHost → Option ℤ → ℤ → CopyWorld → Option ℤ × CopyWorld
leave_pos h none p w = (none, record w { f_pos = set_pos h.in_file p w.f_pos })
leave_pos h (some _) p w = (some p, w)

-- What is written where `retval > 0`: the charge, the notices and the positions.
unfoldable pub account_send : SendHost → Option ℤ → ℤ → ℤ → ℤ → CopyWorld → Option ℤ × CopyWorld
account_send h ppos ret p out_pos w =
    let charged : CopyWorld = record w {
      rchar = w.rchar + bytes ret;
      wchar = w.wchar + bytes ret;
      notified = (writing, h.out_file) ∷ (reading, h.in_file) ∷ w.notified;
      f_pos = set_pos h.out_file out_pos w.f_pos;
    } in
    if is_nonpos ret then (ppos, w) else leave_pos h ppos p charged

abbrev pub count_calls : CopyWorld → CopyWorld
count_calls w = record w { syscr = w.syscr + 1; syscw = w.syscw + 1 }

-- A result of the call: the value, `*ppos`, and the world.
abbrev pub Sent : Type 0
Sent = ℤ × Option ℤ × CopyWorld

-- From the choice of the method on.
unfoldable pub send_from : SendHost → File → Option ℤ → ℤ → ℕ → ℤ → CopyWorld → Sent
send_from h out_file ppos p count max w =
    let out_pos = w.f_pos h.out_file in
    let (ret, p', out_pos') = send_data h p out_pos count in
    let (ppos', w') = account_send h ppos ret p' out_pos' w in
    let area = send_area h out_file out_pos count in
    if is_neg area
    then (area, ppos, w)
    else ((if ltz max p' then neg eoverflow else ret), ppos', count_calls w')

-- With the output file there.
unfoldable pub send_into : SendHost → File → Option ℤ → ℤ → ℕ → ℤ → CopyWorld → Sent
send_into h out_file ppos p count max w =
    let max' = send_max h max in
    if not out_file.f_mode.fmode_write
    then (neg ebadf, ppos, w)
    else if is_beyond p count max' && lez max' p
    then (neg eoverflow, ppos, w)
    else send_from h out_file ppos p (send_count p count max') max' w

-- `pos = in.file->f_pos`, or `*ppos`
abbrev pub send_start : SendHost → Option ℤ → CopyWorld → ℤ
send_start h none w = w.f_pos h.in_file
send_start h (some p) w = p

unfoldable pub do_sendfile :
    SendHost → Option File → Option File → Option ℤ → ℕ → ℤ → CopyWorld → Sent
do_sendfile h out none ppos count max w = (neg ebadf, ppos, w)
do_sendfile h out (some in_file) ppos count max w =
    let p = send_start h ppos w in
    let area = rw_verify_area h.permission reading in_file (some p) count in
    if not in_file.f_mode.fmode_read
    then (neg ebadf, ppos, w)
    else if is_some ppos && not in_file.f_mode.fmode_pread
    then (neg espipe, ppos, w)
    else if is_neg area
    then (area, ppos, w)
    else elim out [
      | none ↦ (neg ebadf, ppos, w)
      | some out_file ↦ send_into h out_file ppos p (capped count) max w
    ]

-- `offset` of user space: none for NULL; its value, if it can be read; whether it can be written.
unfoldable pub send_with_offset :
    SendHost → Option File → Option File → Option (Option ℤ) → Bool → ℕ → ℤ → CopyWorld → Sent
send_with_offset h out in_file none is_writable count max w =
    do_sendfile h out in_file none count (pos 0) w
send_with_offset h out in_file (some none) is_writable count max w = (neg efault, none, w)
send_with_offset h out in_file (some (some p)) is_writable count max w =
    let (ret, ppos, w') = do_sendfile h out in_file (some p) count max w in
    if is_writable then (ret, ppos, w') else (neg efault, none, w')

abbrev pub sendfile :
    SendHost → Option File → Option File → Option (Option ℤ) → Bool → ℕ → CopyWorld → Sent
sendfile h out in_file offset is_writable count w =
    send_with_offset h out in_file offset is_writable count (pos max_non_lfs) w

abbrev pub sendfile64 :
    SendHost → Option File → Option File → Option (Option ℤ) → Bool → ℕ → CopyWorld → Sent
sendfile64 h out in_file offset is_writable count w =
    send_with_offset h out in_file offset is_writable count (pos 0) w
