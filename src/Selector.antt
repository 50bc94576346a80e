-- ===== src/Selector.antt =====
-- src/selector.c and include/selector.h: the table of file descriptors behind `pselect`.
-- `H` names the handlers and `D` is the data attached to a descriptor. A step is `none` where it
-- would read or write outside the table, or where an assertion fails. An `fd_set` is a function.
pub mod Capacity
pub mod Invariant
pub mod Growth
pub mod Operations
pub mod Unregister
pub mod Dispatch
pub mod Life
use pdc_20221c.Prelude.{
  ℕ, zero, suc, ◌+◌, ◌-◌, ◌*◌, ◌/◌, ◌%◌, ◌^◌, Option, none, some, Bool, true, false, ◌&&◌, ◌||◌,
  not, List, [], ◌∷◌, ◌++◌, ltb, leb, ◌==◌, if◌then◌else◌, ◌>>=◌, ℤ, pos, negsuc, get_elem?, set,
  replicate, length,
}

-- `selector_status`
pub data SelectorStatus : Type 0 where
  selector_success selector_enomem selector_maxfd selector_iargs : SelectorStatus
  selector_fdinuse selector_io : SelectorStatus

-- `fd_interest`
abbrev pub op_noop : ℕ
op_noop = 0

abbrev pub op_read : ℕ
op_read = 1

abbrev pub op_write : ℕ
op_write = 4

-- `interest & OP_READ` and `interest & OP_WRITE`
abbrev pub wants_read : ℕ → Bool
wants_read interest = interest % 2 == 1

abbrev pub wants_write : ℕ → Bool
wants_write interest = interest / 4 % 2 == 1

-- `struct item`; `FD_UNUSED` is -1.
pub record Item (H D : Type 0) : Type 0 where
  pub fd : ℤ
  pub interest : ℕ
  pub handler : Option H
  pub attached : Option D

abbrev pub fd_unused : ℤ
fd_unused = negsuc 0

-- `struct fdselector`: the table, the two master sets, and the finished blocking jobs.
pub record FdSelector (H D : Type 0) : Type 0 where
  pub fds : List (Item H D)
  pub fd_size : ℕ
  pub max_fd : ℕ
  pub master_r : ℕ → Bool
  pub master_w : ℕ → Bool
  pub resolution_jobs : List ℕ

-- `FD_SETSIZE`
abbrev pub items_max_size : ℕ
items_max_size = 1024

-- `sizeof(struct item)`
abbrev pub element_size : ℕ
element_size = 32

-- The loop of `next_capacity`; `none` for fuel that ran out.
unfoldable pub count_bits : ℕ → ℕ → ℕ → Option ℕ
count_bits zero tmp bits = none
count_bits (suc fuel) tmp bits = elim (tmp == 0) [
  | true ↦ some bits
  | false ↦ count_bits fuel (tmp / 2) (bits + 1)
]

-- `none` if the assertion `tmp >= n` fails.
unfoldable pub next_capacity : ℕ → Option ℕ
unfolding count_bits
next_capacity n = do
  bits ← count_bits (suc n) n 0
  let tmp = 2 ^ bits % 2 ^ 64
  if leb n tmp then some ((if ltb items_max_size tmp then items_max_size else tmp) + 1) else none

-- `FD_SET` and `FD_CLR`
abbrev pub fd_put : (ℕ → Bool) → ℕ → Bool → ℕ → Bool
fd_put fds fd b i = if fd == i then b else fds i

-- `O_NONBLOCK`
abbrev pub o_nonblock : ℕ
o_nonblock = 2 ^ 11

-- `flags | O_NONBLOCK`
abbrev pub with_nonblock : ℕ → ℕ
with_nonblock flags = if flags / o_nonblock % 2 == 1 then flags else flags + o_nonblock

-- Whether the result is 0 and not -1. `getfd` is what `fcntl` with F_GETFD returns, and `setfl`
-- whether it accepts these flags with F_SETFL.
unfoldable pub selector_fd_set_nio : Option ℕ → (ℕ → Bool) → Bool
selector_fd_set_nio none setfl = false
selector_fd_set_nio (some flags) setfl = setfl (with_nonblock flags)

-- `INVALID_FD`
unfoldable pub valid_fd : ℤ → Option ℕ
valid_fd (negsuc _) = none
valid_fd (pos fd) = if leb items_max_size fd then none else some fd

-- One round of the loop of `items_max_fd`; an item that is not in use has -1.
unfoldable pub max_fd_with : ℤ → ℕ → ℕ
max_fd_with (negsuc _) max = max
max_fd_with (pos fd) max = if ltb max fd then fd else max

module _ {H D : Type 0} where
  abbrev pub item_used : Item H D → Bool
  item_used item = elim item.fd [ pos _ ↦ true | negsuc k ↦ not (k == 0) ]

  abbrev pub blank_item : Item H D
  blank_item = record { fd = fd_unused; interest = op_noop; handler = none; attached = none }

  -- The loop runs from 0 to `max_fd`; `none` past the end of the table.
  unfoldable pub items_max_fd_loop : List (Item H D) → ℕ → ℕ → Option ℕ
  items_max_fd_loop items zero max = some max
  items_max_fd_loop [] (suc rounds) max = none
  items_max_fd_loop (item ∷ items) (suc rounds) max =
      items_max_fd_loop items rounds (max_fd_with item.fd max)

  unfoldable pub items_max_fd : FdSelector H D → Option ℕ
  unfolding items_max_fd_loop
  items_max_fd s = items_max_fd_loop s.fds (suc s.max_fd) 0

  -- The callers pass an item whose descriptor is not negative.
  unfoldable pub items_update_fdset_for_fd : FdSelector H D → ℕ → ℕ → FdSelector H D
  items_update_fdset_for_fd s fd interest = record s {
    master_r = fd_put s.master_r fd (wants_read interest);
    master_w = fd_put s.master_w fd (wants_write interest);
  }

  -- `realloc` of the table to `new_size` items, the new ones marked as unused. The code sets only their
  -- descriptors, after `realloc`; the other fields of an unused item are never read before
  -- `selector_register` sets them, and are blank here.
  abbrev pub grow : FdSelector H D → ℕ → FdSelector H D
  grow s new_size = record s {
    fds = s.fds ++ replicate (new_size - s.fd_size) blank_item;
    fd_size = new_size;
  }

  unfoldable pub ensure_capacity :
      FdSelector H D → ℕ → Bool → Option (SelectorStatus × FdSelector H D)
  unfolding next_capacity
  ensure_capacity s n got_memory =
      if ltb n s.fd_size
      then some (selector_success, s)
      else if ltb items_max_size n
      then some (selector_maxfd, s)
      else (next_capacity n >>= λ new_size.
          if ltb ((2 ^ 64 - 1) / element_size) new_size
          then some (selector_enomem, s)
          else if got_memory
          then some (selector_success, grow s new_size)
          else some (selector_enomem, s))

  -- The second part of `selector_register`: the item is filled in, and with it the two sets.
  abbrev pub fill_item : FdSelector H D → ℕ → H → ℕ → Option D → FdSelector H D
  fill_item s ufd handler interest attached =
      items_update_fdset_for_fd
        (record s {
          fds = set s.fds ufd (record {
            fd = pos ufd;
            interest = interest;
            handler = some handler;
            attached = attached;
          });
          max_fd = if ltb s.max_fd ufd then ufd else s.max_fd;
        })
        ufd interest

  unfoldable pub put_item :
      FdSelector H D → ℕ → H → ℕ → Option D → Option (SelectorStatus × FdSelector H D)
  unfolding items_update_fdset_for_fd
  put_item s ufd handler interest attached = get_elem? s.fds ufd >>= λ item.
      if item_used item
      then some (selector_fdinuse, s)
      else some (selector_success, fill_item s ufd handler interest attached)

  unfoldable pub selector_register :
      FdSelector H D → ℤ → Option H → ℕ → Option D → Bool → Option (SelectorStatus × FdSelector H D)
  unfolding ensure_capacity put_item valid_fd
  selector_register s fd none interest attached got_memory = some (selector_iargs, s)
  selector_register s fd (some h) interest attached got_memory = elim (valid_fd fd) [
    | none ↦ some (selector_iargs, s)
    | some ufd ↦
        (if ltb s.fd_size ufd then ensure_capacity s ufd got_memory else some (selector_success, s))
        >>= λ (ret, s1). elim ret [
          | selector_success ↦ put_item s1 ufd h interest attached
          | failed ↦ some (failed, s1)
        ]
  ]

  unfoldable pub selector_set_interest :
      FdSelector H D → ℤ → ℕ → Option (SelectorStatus × FdSelector H D)
  unfolding items_update_fdset_for_fd valid_fd
  selector_set_interest s fd i = elim (valid_fd fd) [
    | none ↦ some (selector_iargs, s)
    | some ufd ↦ do
      item ← get_elem? s.fds ufd
      if item_used item
          then some (
            selector_success,
            items_update_fdset_for_fd
                (record s { fds = set s.fds ufd (record item { interest = i }) }) ufd i,
          )
          else some (selector_iargs, s)
  ]

  -- `event_fd` is the descriptor of the key.
  unfoldable pub selector_set_interest_key :
      FdSelector H D → ℤ → ℕ → Option (SelectorStatus × FdSelector H D)
  unfolding valid_fd
  selector_set_interest_key s event_fd i = elim (valid_fd event_fd) [
    | none ↦ some (selector_iargs, s)
    | some _ ↦ selector_set_interest s event_fd i
  ]

  -- The second part of `selector_unregister_fd`: the item is cleared, and with it the two sets.
  unfoldable pub clear_item : FdSelector H D → ℕ → Option (FdSelector H D)
  unfolding items_update_fdset_for_fd items_max_fd
  clear_item s ufd = do
    let s1 = record (items_update_fdset_for_fd s ufd op_noop) { fds = set s.fds ufd blank_item }
    max ← items_max_fd s1
    some (record s1 { max_fd = max })

  -- `handle_close` is what the handler's callback of that name does to the rest of the program, if
  -- the handler has one; the callbacks of this program do not touch the selector.
  unfoldable pub selector_unregister_fd {ℓ} :
      {W : Type ℓ} (handle_close : H → Option (ℕ → Option D → W → Option W))
      → FdSelector H D
      → ℤ
      → W
      → Option (SelectorStatus × FdSelector H D × W)
  unfolding clear_item valid_fd
  selector_unregister_fd handle_close s fd w = elim (valid_fd fd) [
    | none ↦ some (selector_iargs, s, w)
    | some ufd ↦ do
      item ← get_elem? s.fds ufd
      if item_used item
          then (do
            h ← item.handler
            w' ← elim (handle_close h) [ none ↦ some w | some close ↦ close ufd item.attached w ]
            s' ← clear_item s ufd
            some (selector_success, s', w'))
          else some (selector_iargs, s, w)
  ]

  -- The job is put in front of the list under the mutex; the signal is the caller's affair.
  unfoldable pub selector_notify_block : FdSelector H D → ℕ → Bool → SelectorStatus × FdSelector H D
  selector_notify_block s fd got_memory =
      if got_memory
      then (selector_success, record s { resolution_jobs = fd ∷ s.resolution_jobs })
      else (selector_enomem, s)
