-- ===== src/Selector/Dispatch.antt =====
-- The round of src/selector.c: what `pselect` reports is handed to the callbacks.
-- A callback may change the table and the rest of the program, `W`. `none` is a failed assertion, a
-- fault in a callback, a missing callback that is called, or the use of memory that was freed or moved.
use pdc_20221c.Prelude.{
  ℕ, zero, suc, Option, none, some, Bool, false, ◌&&◌, ◌||◌, List, [], ◌∷◌, ◌==◌, if◌then◌else◌,
  ◌>>=◌, ℤ, pos, negsuc, get_elem?,
}
use pdc_20221c.Selector.{
  FdSelector, Item, item_used, wants_read, wants_write, SelectorStatus, selector_success,
  selector_io,
}

-- A callback gets the selector, the descriptor and the data of the key.
abbrev pub Callback : Type 0 → Type 0 → Type 0 → Type 0
Callback H D W = FdSelector H D → ℤ → Option D → W → Option (FdSelector H D × W)

-- `fd_handler`, without `handle_close`
pub record Callbacks (H D W : Type 0) : Type 0 where
  pub handle_read : Option (Callback H D W)
  pub handle_write : Option (Callback H D W)
  pub handle_block : Option (Callback H D W)

-- `FD_ISSET`
abbrev pub fd_isset : ℤ → (ℕ → Bool) → Bool
fd_isset (pos fd) fds = fds fd
fd_isset (negsuc _) fds = false

-- What `pselect` returns: the two sets, or `errno`.
pub data Selected : Type 0 where
  ready : (ℕ → Bool) → (ℕ → Bool) → Selected
  failed : ℕ → Selected

-- `EINTR`, `EBADF` and `EAGAIN`
abbrev pub eintr : ℕ
eintr = 4

abbrev pub ebadf : ℕ
ebadf = 9

abbrev pub eagain : ℕ
eagain = 11

module _ {H D W : Type 0} (callbacks : H → Callbacks H D W) where
  -- A callback of the item's handler is called with the key.
  abbrev pub call :
      (Callbacks H D W → Option (Callback H D W))
      → FdSelector H D
      → Option H
      → ℤ
      → Option D
      → W
      → Option (FdSelector H D × W)
  call select s handler fd attached w =
      handler >>= λ h. select (callbacks h) >>= λ f. f s fd attached w

  unfoldable pub on_read : (ℕ → Bool) → FdSelector H D → Item H D → W → Option (FdSelector H D × W)
  on_read slave_r s item w =
      if fd_isset item.fd slave_r && wants_read item.interest
      then call (λ c. c.handle_read) s item.handler item.fd item.attached w
      else some (s, w)

  -- The item is read again after the callback for reading, through a pointer into the table of
  -- `size` items: if the table has grown since then, it was moved. `fd` and `attached` are those of
  -- the key, from before.
  unfoldable pub on_write :
      (ℕ → Bool) → FdSelector H D → ℕ → ℕ → ℤ → Option D → W → Option (FdSelector H D × W)
  on_write slave_w s size i fd attached w =
      if slave_w i
      then if s.fd_size == size
        then (get_elem? s.fds i >>= λ item.
            if wants_write item.interest
            then call (λ c. c.handle_write) s item.handler fd attached w
            else some (s, w))
        else none
      else some (s, w)

  unfoldable pub handle_item :
      (ℕ → Bool) → (ℕ → Bool) → FdSelector H D → ℕ → W → Option (FdSelector H D × W)
  handle_item slave_r slave_w s i w = get_elem? s.fds i >>= λ item.
      if item_used item
      then (on_read slave_r s item w >>= λ (s1, w1).
          on_write slave_w s1 s.fd_size i item.fd item.attached w1)
      else some (s, w)

  -- The loop with `rounds` left, from index `i` on.
  unfoldable pub handle_loop :
      (ℕ → Bool) → (ℕ → Bool) → ℕ → ℕ → FdSelector H D → W → Option (FdSelector H D × W)
  handle_loop slave_r slave_w zero i s w = some (s, w)
  handle_loop slave_r slave_w (suc rounds) i s w = handle_item slave_r slave_w s i w >>= λ (s1, w1).
      handle_loop slave_r slave_w rounds (suc i) s1 w1

  unfoldable pub handle_iteration :
      (ℕ → Bool) → (ℕ → Bool) → FdSelector H D → W → Option (FdSelector H D × W)
  unfolding handle_loop
  handle_iteration slave_r slave_w s w = handle_loop slave_r slave_w (suc s.max_fd) 0 s w

  -- The jobs are freed on the way, each before its `next` is read: `readable` is whether the freed
  -- memory still has it.
  unfoldable pub notify_loop : Bool → List ℕ → FdSelector H D → W → Option (FdSelector H D × W)
  notify_loop readable [] s w = some (s, w)
  notify_loop readable (fd ∷ jobs) s w = get_elem? s.fds fd >>= λ item.
      (if item_used item
        then call (λ c. c.handle_block) s item.handler item.fd item.attached w
        else some (s, w))
      >>= λ (s1, w1). if readable then notify_loop readable jobs s1 w1 else none

  unfoldable pub handle_block_notifications :
      Bool → FdSelector H D → W → Option (FdSelector H D × W)
  unfolding notify_loop
  handle_block_notifications readable s w =
      notify_loop readable s.resolution_jobs s w >>= λ (s1, w1).
      some (record s1 { resolution_jobs = [] }, w1)

  -- A signal is no failure; after another error no callback is called.
  unfoldable pub selector_select :
      Bool → Selected → FdSelector H D → W → Option (SelectorStatus × FdSelector H D × W)
  selector_select readable (ready slave_r slave_w) s w =
      handle_iteration slave_r slave_w s w >>= λ (s1, w1).
      handle_block_notifications readable s1 w1 >>= λ (s2, w2). some (selector_success, s2, w2)
  selector_select readable (failed errno) s w =
      if errno == eagain || errno == eintr
      then (handle_block_notifications readable s w >>= λ (s2, w2). some (selector_success, s2, w2))
      else some (selector_io, s, w)
