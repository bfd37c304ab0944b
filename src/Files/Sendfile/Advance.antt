-- ===== src/Files/Sendfile/Advance.antt =====
-- How far `sendfile` moves the position of its input.
use so2_202003745_vd.Base.{
  ℕ, ◌+◌, ◌^◌, ◌≤◌, ◌<◌, ◌≡◌, ◌⊎◌, true, false, Option, none, some, ℤ, pos, is_nonpos, arith, inl,
  inr, Option-cases, Bool,
}
use so2_202003745_vd.Files.{File}
use so2_202003745_vd.Files.Transfer.{bytes, capped, max_rw_count}
use so2_202003745_vd.Files.CopyRange.{CopyWorld}
use so2_202003745_vd.Files.Sendfile.{
  SendHost, Sent, send_data, send_area, account_send, send_from, send_into, send_start, send_max,
  send_count, is_beyond, do_sendfile,
}

-- What a splice promises of its source: an error, or nothing moved, and the position as it was; or a
-- number of bytes, at most what was asked, and the position moved by it.
abbrev pub IsSplice : ℕ → ℕ → ℤ → ℤ → Type 0
IsSplice a count ret p' =
    ((is_nonpos ret ≡ true) × (p' ≡ pos a))
    ⊎ ((is_nonpos ret ≡ false) × (bytes ret ≤ count) × (p' ≡ pos (a + bytes ret)))

pub record IsSplicing (h : SendHost) : Type 0 where
  pub direct :
      (a : ℕ) (q : ℤ) (count : ℕ)
      → IsSplice a count (h.splice_direct (pos a) q count).0 (h.splice_direct (pos a) q count).1
  pub to_pipe :
      (a : ℕ) (count : ℕ) (nonblock : Bool)
      → IsSplice a count
          (h.splice_file_to_pipe (pos a) count nonblock).0
          (h.splice_file_to_pipe (pos a) count nonblock).1

-- The call returned an error or 0 and neither moved the input nor charged the task; or it
-- returned a number of bytes, moved the input by it and charged it as read and as written.
abbrev pub Sends : SendHost → ℕ → ℕ → ℕ → CopyWorld → Sent → Type 0
Sends h a count m w (ret, ppos, w') =
    ((is_nonpos ret ≡ true)
      × (send_start h ppos w' ≡ pos a)
      × (w'.rchar ≡ w.rchar)
      × (w'.wchar ≡ w.wchar))
    ⊎ ((is_nonpos ret ≡ false)
        × (bytes ret ≤ count)
        × (a + bytes ret ≤ m)
        × (send_start h ppos w' ≡ pos (a + bytes ret))
        × (w'.rchar ≡ w.rchar + bytes ret)
        × (w'.wchar ≡ w.wchar + bytes ret))

send_data-IsSplice :
    (h : SendHost) (a : ℕ) (q : ℤ) (count : ℕ)
    → IsSplicing h
    → IsSplice a count (send_data h (pos a) q count).0 (send_data h (pos a) q count).1
unfolding send_data
send_data-IsSplice h a q count r =
    ground (arith, r.direct a q count, r.to_pipe a count h.is_nonblock)

send_from-Sends :
    (h : SendHost) (out_file : File) (ppos : Option ℤ) (a count m : ℕ) (w : CopyWorld)
    → IsSplicing h
    → a + count ≤ m
    → send_start h ppos w ≡ pos a
    → Sends h a count m w (send_from h out_file ppos (pos a) count (pos m) w)
unfolding send_from account_send send_area
send_from-Sends h out_file none a count m w r fits start =
    ground (arith, send_data-IsSplice h a (w.f_pos h.out_file) count r)
send_from-Sends h out_file (some p) a count m w r fits start =
    ground (arith, send_data-IsSplice h a (w.f_pos h.out_file) count r)

≤-or-< : (m a : ℕ) → (m ≤ a) ⊎ (a < m)
≤-or-< m a = omega arith

-- Where the limit lies past the offset, the count ends within it.
send_count_fits :
    (a count m : ℕ)
    → a < 2 ^ 63
    → count ≤ max_rw_count
    → m < 2 ^ 63
    → a < m
    → (send_count (pos a) count (pos m) ≤ count) × (a + send_count (pos a) count (pos m) ≤ m)
send_count_fits a count m ha hc hm before = ground arith

-- Where it does not, a count that is not 0 goes beyond it.
refused_at_limit :
    (a count m : ℕ)
    → a < 2 ^ 63
    → count ≤ max_rw_count
    → m < 2 ^ 63
    → m ≤ a
    → (is_beyond (pos a) count (pos m) ≡ true) ⊎ (a + count ≤ m)
refused_at_limit a count m ha hc hm past = ground arith

send_into-Sends :
    (h : SendHost) (out_file : File) (ppos : Option ℤ) (a count m : ℕ) (max : ℤ) (w : CopyWorld)
    → IsSplicing h
    → a < 2 ^ 63
    → count ≤ max_rw_count
    → m < 2 ^ 63
    → send_max h max ≡ pos m
    → send_start h ppos w ≡ pos a
    → Sends h a count m w (send_into h out_file ppos (pos a) count max w)
unfolding send_into
send_into-Sends h out_file ppos a count m max w r ha hc hm limit start =
    let n = send_count (pos a) count (pos m) in
    elim (≤-or-< m a) [
      | inr before ↦
          let (less, fits) = send_count_fits a count m ha hc hm before in
          ground (arith, send_from-Sends h out_file ppos a n m w r fits start)
      | inl past ↦ elim (refused_at_limit a count m ha hc hm past) [
        | inl beyond ↦ ground arith
        | inr fits ↦ ground (arith, send_from-Sends h out_file ppos a count m w r fits start)
      ]
    ]

-- `sendfile` from an offset, its own or the file's, below 2^63: either it returns an error or 0 and
-- has neither moved that offset nor charged the task, or it returns a number of bytes, at most
-- what was asked and at most MAX_RW_COUNT, has moved the offset by exactly it, within the limit
-- on sizes, and has charged it as read and as written. So it never answers -EOVERFLOW
-- after data was sent. The splices are to keep count.
pub do_sendfile-Sends :
    (h : SendHost) (out : Option File) (in_file : Option File) (ppos : Option ℤ) (a count m : ℕ)
    (max : ℤ) (w : CopyWorld)
    → IsSplicing h
    → a < 2 ^ 63
    → m < 2 ^ 63
    → send_max h max ≡ pos m
    → send_start h ppos w ≡ pos a
    → Sends h a (capped count) m w (do_sendfile h out in_file ppos count max w)
unfolding do_sendfile
do_sendfile-Sends h out in_file ppos a count m max w r ha hm limit start =
    elim (Option-cases in_file) [
      | inl absent ↦ ground arith
      | inr (i, has_in) ↦ elim (Option-cases out) [
        | inl absent ↦ ground arith
        | inr (o, has_out) ↦ ground (
          arith,
          send_into-Sends h o ppos a (capped count) m max w r ha (ground arith) hm limit start,
        )
      ]
    ]
