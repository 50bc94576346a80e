-- ===== src/Session/Copy.antt =====
-- src/stm/copy.c: the state in which the proxy copies bytes between its two connections.
-- The results of `recv` and `send` are arguments. `none` is a failed assertion, a call of `abort`, or
-- an access out of bounds. The handlers take any function for
-- `pop3sniff`, which is shown the bytes from and to the origin server, and `none` where it does not
-- return. Session/Copy/Sniffer is the one of the source.
pub mod Interest
pub mod Flow
pub mod Sniffer
use pdc_20221c.Prelude.{
  ℕ, ◌+◌, Option, none, some, Bool, true, false, ◌&&◌, ◌||◌, not, List, [], ◌∷◌, ◌==◌,
  if◌then◌else◌, ◌>>=◌, ℤ, pos, negsuc, length, take, slice,
}
use pdc_20221c.Buffer.{
  Buffer, buffer_can_write, buffer_can_read, buffer_write_ptr, buffer_read_ptr, buffer_write_adv,
  buffer_read_adv, fill,
}
use pdc_20221c.Selector.{
  FdSelector, SelectorStatus, selector_success, selector_set_interest, op_read, op_write,
}
use pdc_20221c.Stadistics.{Stadistics, stadistics_increase_bytes_sent}

-- The two ends of a session.
pub data Side : Type 0 where
  client server : Side

unfoldable pub other : Side → Side
other client = server
other server = client

-- `copy_st`: `reading` and `writing` are the bits of `duplex`; the buffers and the other end are
-- those of the session.
pub record CopySt : Type 0 where
  pub fd : ℤ
  pub reading : Bool
  pub writing : Bool

-- SHUT_RD or SHUT_WR
pub data Shut : Type 0 where
  shut_rd shut_wr : Shut

-- The session in this state, and what its handlers touch: the selector, the counters, the sniffer,
-- and the calls of `shutdown`, the last one first.
pub record World (H D W : Type 0) : Type 0 where
  pub client_copy : CopySt
  pub server_copy : CopySt
  pub input : Buffer
  pub output : Buffer
  pub selector : FdSelector H D
  pub stadistics : Stadistics
  pub sniff : W
  pub shutdowns : List (ℤ × Shut)

-- `COPY` and `DONE` of `enum session_state`
abbrev pub state_copy : ℕ
state_copy = 5

abbrev pub state_done : ℕ
state_done = 7

-- Equality of descriptors.
unfoldable pub same_fd : ℤ → ℤ → Bool
same_fd (pos m) (pos n) = m == n
same_fd (pos m) (negsuc n) = false
same_fd (negsuc m) (pos n) = false
same_fd (negsuc m) (negsuc n) = m == n

module _ {H D W : Type 0} where
  unfoldable pub copy_at : World H D W → Side → CopySt
  copy_at w client = w.client_copy
  copy_at w server = w.server_copy

  unfoldable pub with_copy : World H D W → Side → CopySt → World H D W
  with_copy w client c = record w { client_copy = c }
  with_copy w server c = record w { server_copy = c }

  -- What comes from the client goes through `input`, what comes from the server through `output`.
  unfoldable pub read_buff : World H D W → Side → Buffer
  read_buff w client = w.input
  read_buff w server = w.output

  unfoldable pub with_read_buff : World H D W → Side → Buffer → World H D W
  with_read_buff w client b = record w { input = b }
  with_read_buff w server b = record w { output = b }

  unfoldable pub write_buff : World H D W → Side → Buffer
  unfolding read_buff other
  write_buff w side = read_buff w (other side)

  unfoldable pub with_write_buff : World H D W → Side → Buffer → World H D W
  unfolding with_read_buff other
  with_write_buff w side b = with_read_buff w (other side) b

  -- Two open ends with all four directions open.
  unfoldable pub copy_arrival : World H D W → ℤ → ℤ → World H D W
  copy_arrival w client_fd server_fd = record w {
    client_copy = record { fd = client_fd; reading = true; writing = true };
    server_copy = record { fd = server_fd; reading = true; writing = true };
  }

  -- The interest that an end should have.
  unfoldable pub interest_of : World H D W → Side → ℕ
  unfolding copy_at read_buff write_buff
  interest_of w side =
      (if (copy_at w side).reading && buffer_can_write (read_buff w side) then op_read else 0)
      + (if (copy_at w side).writing && buffer_can_read (write_buff w side) then op_write else 0)

  unfoldable pub check_interest : World H D W → Side → Option (World H D W)
  unfolding interest_of copy_at same_fd
  check_interest w side =
      if same_fd (copy_at w side).fd (negsuc 0)
      then some w
      else (selector_set_interest w.selector (copy_at w side).fd (interest_of w side) >>= λ (st, s).
          elim st [ selector_success ↦ some (record w { selector = s }) | _ ↦ none ])

  -- The end that an event is for: the client's, if the descriptor is its own.
  unfoldable pub copy_ptr : World H D W → ℤ → Side
  unfolding same_fd copy_at
  copy_ptr w fd = if same_fd w.client_copy.fd fd then client else server

  unfoldable pub origin_fd : World H D W → ℤ → Bool
  unfolding same_fd
  origin_fd w fd = same_fd fd w.server_copy.fd

  -- One direction is given up at both ends: this end no longer reads and the other no longer writes.
  unfoldable pub stop_reading : World H D W → Side → World H D W
  unfolding copy_at with_copy other same_fd
  stop_reading w side =
      let near = copy_at w side in
      let far = copy_at w (other side) in
      let w1 = record (with_copy w side (record near { reading = false })) {
        shutdowns = (near.fd, shut_rd) ∷ w.shutdowns;
      } in
      if same_fd far.fd (negsuc 0)
      then w1
      else record (with_copy w1 (other side) (record far { writing = false })) {
        shutdowns = (far.fd, shut_wr) ∷ w1.shutdowns;
      }

  unfoldable pub stop_writing : World H D W → Side → World H D W
  unfolding copy_at with_copy other same_fd
  stop_writing w side =
      let near = copy_at w side in
      let far = copy_at w (other side) in
      let w1 = record (with_copy w side (record near { writing = false })) {
        shutdowns = (near.fd, shut_wr) ∷ w.shutdowns;
      } in
      if same_fd far.fd (negsuc 0)
      then w1
      else record (with_copy w1 (other side) (record far { reading = false })) {
        shutdowns = (far.fd, shut_rd) ∷ w1.shutdowns;
      }

  -- The end of both handlers: the interest of both ends is brought up to date.
  unfoldable pub settle : World H D W → Side → Option (ℕ × World H D W)
  unfolding check_interest copy_at other
  settle w side = check_interest w side >>= λ w1. check_interest w1 (other side) >>= λ w2. some (
    if (copy_at w2 side).reading || (copy_at w2 side).writing then state_copy else state_done,
    w2,
  )

  module _ (pop3sniff : W → List ℕ → Option W) where
    unfoldable pub sniffed : World H D W → ℤ → List ℕ → Option (World H D W)
    unfolding origin_fd
    sniffed w fd bytes =
        if origin_fd w fd
        then (pop3sniff w.sniff bytes >>= λ s. some (record w { sniff = s }))
        else some w

    -- What `copy_read` does with the result of `recv`, which is none for 0 and for -1.
    unfoldable pub take_in : World H D W → Side → ℤ → Option (List ℕ) → Option (World H D W)
    unfolding read_buff with_read_buff stop_reading sniffed
    take_in w side fd none = some (stop_reading w side)
    take_in w side fd (some bytes) = sniffed w fd bytes >>= λ w1.
        buffer_write_adv (fill (read_buff w1 side) bytes) (pos (length bytes)) >>= λ b.
        some (with_read_buff w1 side b)

    unfoldable pub copy_read : World H D W → ℤ → Option (List ℕ) → Option (ℕ × World H D W)
    copy_read w fd received =
        let side = copy_ptr w fd in
        if not (same_fd (copy_at w side).fd fd)
        then none
        else (buffer_write_ptr (read_buff w side) >>= λ (ptr, count).
            take_in w side fd received >>= λ w1. settle w1 side)

    -- What `copy_write` does with the result of `send`, which is none for -1; `ptr` is where the
    -- bytes that were offered start.
    unfoldable pub give_out : World H D W → Side → ℤ → ℕ → Option ℕ → Option (World H D W)
    unfolding write_buff with_write_buff stop_writing sniffed
    give_out w side fd ptr none = some (stop_writing w side)
    give_out w side fd ptr (some n) =
        sniffed (record w { stadistics = stadistics_increase_bytes_sent n w.stadistics }) fd
          (slice ptr n (write_buff w side).storage)
        >>= λ w1.
            buffer_read_adv (write_buff w1 side) (pos n) >>= λ b. some (with_write_buff w1 side b)

    unfoldable pub copy_write : World H D W → ℤ → Option ℕ → Option (ℕ × World H D W)
    copy_write w fd sent =
        let side = copy_ptr w fd in
        if not (same_fd (copy_at w side).fd fd)
        then none
        else (buffer_read_ptr (write_buff w side) >>= λ (ptr, count).
            give_out w side fd ptr sent >>= λ w1. settle w1 side)
