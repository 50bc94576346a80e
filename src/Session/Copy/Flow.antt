-- ===== src/Session/Copy/Flow.antt =====
-- What the handlers of src/stm/copy.c do to the bytes that pass through a session.
pub mod Run
pub mod Handlers
pub mod Trace
use pdc_20221c.Prelude.{
  ℕ, zero, suc, ◌+◌, ◌-◌, ◌<◌, ◌≤◌, ◌≡◌, ◌≢◌, ◌⊎◌, inl, inr, Option-cases, refl, ap, ◌∙◌, sym,
  arith, Option, none, some, Bool, true, false, ◌&&◌, ◌||◌, not, ◌==◌, if◌then◌else◌, ◌>>=◌, ℤ, pos,
  negsuc, List, [], ◌∷◌, ◌++◌, length, take, drop, slice,
}
use pdc_20221c.Buffer.{
  Buffer, buffer_write_ptr, buffer_read_ptr, buffer_write_adv, buffer_read_adv, fill,
}
use pdc_20221c.Buffer.Contents.{
  Holds, contents, buffer_write_ptr_lem, buffer_read_ptr_lem, buffer_write_adv_lem,
  buffer_read_adv_lem, length-Holds,
}
use pdc_20221c.Stadistics.{stadistics_increase_bytes_sent}
use pdc_20221c.Session.Copy.{
  Side, client, server, other, World, CopySt, copy_at, with_copy, read_buff, with_read_buff,
  write_buff, with_write_buff, copy_ptr, origin_fd, same_fd, sniffed, stop_reading, stop_writing,
  settle, copy_read, copy_write, take_in, give_out,
}
use pdc_20221c.Session.Copy.Interest.{IsReady, IsSettled, state_after, settle_lem}

same_fd_refl : (k : ℕ) → same_fd (pos k) (pos k) ≡ true
unfolding same_fd
same_fd_refl k = ground arith

module _ {H D W : Type 0} where
  -- The descriptor of an end.
  abbrev pub fd_at : (w : World H D W) → IsReady w → Side → ℕ
  fd_at w v client = v.client_fd
  fd_at w v server = v.server_fd

  pub fd_at_lem :
      (w : World H D W) (v : IsReady w) (side : Side) → (copy_at w side).fd ≡ pos (fd_at w v side)
  unfolding copy_at
  fd_at_lem w v client = v.client_eq
  fd_at_lem w v server = v.server_eq

  -- An event for a descriptor is given to the end that has it.
  copy_ptr_lem :
      (w : World H D W) (v : IsReady w) (side : Side) → copy_ptr w (pos (fd_at w v side)) ≡ side
  unfolding copy_ptr same_fd
  copy_ptr_lem w v client = rw v.client_eq (ground arith)
  copy_ptr_lem w v server = rw v.client_eq (ground (arith, v.apart))

  assert_lem :
      (w : World H D W) (v : IsReady w) (side : Side)
      → same_fd (copy_at w side).fd (pos (fd_at w v side)) ≡ true
  assert_lem w v side = rw (fd_at_lem w v side) (same_fd_refl (fd_at w v side))

  pub client_apart :
      (w : World H D W) (v : IsReady w) → same_fd (pos v.client_fd) w.server_copy.fd ≡ false
  unfolding same_fd
  client_apart w v = rw v.server_eq (ground (arith, v.apart))

  module _ (pop3sniff : W → List ℕ → Option W) where
    -- The sniffer is not shown what is for or from the client's end.
    pub sniffed_client :
        (w : World H D W) (k : ℕ) (bytes : List ℕ)
        → same_fd (pos k) w.server_copy.fd ≡ false
        → sniffed pop3sniff w (pos k) bytes ≡ some w
    unfolding sniffed origin_fd
    sniffed_client w k bytes e = rw e refl

    -- It is shown what is for or from the server's end.
    pub sniffed_server :
        (w : World H D W) (k : ℕ) (bytes : List ℕ)
        → w.server_copy.fd ≡ pos k
        → ((pop3sniff w.sniff bytes ≡ none) × (sniffed pop3sniff w (pos k) bytes ≡ none))
          ⊎ ((s : W) × (sniffed pop3sniff w (pos k) bytes ≡ some (record w { sniff = s })))
    unfolding sniffed origin_fd
    sniffed_server w k bytes e = elim (Option-cases (pop3sniff w.sniff bytes)) [
      | inl balks ↦ inl (balks, rw (e, same_fd_refl k, balks) refl)
      | inr (s, run) ↦ inr (s, rw (e, same_fd_refl k, run) refl)
    ]

    pub read_run :
        (w : World H D W) (v : IsReady w) (side : Side) (bytes : List ℕ)
        (received : Option (List ℕ))
        → Holds (read_buff w side) bytes
        → copy_read pop3sniff w (pos (fd_at w v side)) received
          ≡ (take_in pop3sniff w side (pos (fd_at w v side)) received >>= λ w1. settle w1 side)
    unfolding copy_read
    read_run w v side bytes received h =
        rw
          (
            copy_read,
            copy_ptr_lem w v side,
            assert_lem w v side,
            buffer_write_ptr_lem (read_buff w side) h.valid,
          )
          refl

    pub write_run :
        (w : World H D W) (v : IsReady w) (side : Side) (bytes : List ℕ) (sent : Option ℕ)
        → Holds (write_buff w side) bytes
        → copy_write pop3sniff w (pos (fd_at w v side)) sent ≡ (
            give_out pop3sniff w side (pos (fd_at w v side)) (write_buff w side).read sent >>= λ w1.
            settle w1 side)
    unfolding copy_write
    write_run w v side bytes sent h =
        rw
          (
            copy_write,
            copy_ptr_lem w v side,
            assert_lem w v side,
            buffer_read_ptr_lem (write_buff w side) bytes h,
          )
          refl
