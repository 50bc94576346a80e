-- ===== src/Socks5/Close.antt =====
-- The end of a session in src/socks5.c.
use pdc_20221c.Prelude.{
  ◌∷◌, ℕ, ◌<◌, ◌≡◌, refl, ◌∙◌, Option, none, some, true, ◌||◌, ◌==◌, pos, get_elem?,
  get_elem?-length, arith, if_true,
}
use pdc_20221c.Selector.{
  FdSelector, Item, SelectorStatus, selector_success, item_used, blank_item, items_max_fd,
  selector_unregister_fd,
}
use pdc_20221c.Selector.Invariant.{IsValid, replaced, clear_item-replaced, valid_fd-below}
use pdc_20221c.Selector.Unregister.{cleared_max}
use pdc_20221c.Session.Machine.{Session, Event, Key, Ready, handle}
use pdc_20221c.Socks5.{
  FdHandler, Live, Heap, Proxy, put_cell, client_close, handle_close, close_session, client_event,
  entered, left_with,
}
use pdc_20221c.Stm.{StateMachine}

-- `put_cell` at its own address.
pub put_cell-here :
    {W : Type 0} (cells : ℕ → Option (Live W)) (address : ℕ) (cell : Option (Live W))
    → put_cell cells address cell address ≡ cell
unfolding put_cell
put_cell-here cells address cell = ground arith

module _ {W : Type 0} where
  -- The client's descriptor is registered for the session at this address, under one of the two
  -- tables of handlers that are used.
  pub record IsServed (selector : FdSelector FdHandler ℕ) (cell : Live W) (address k : ℕ)
      : Type 0 where
    pub valid : IsValid selector
    pub fd_eq : cell.session.client_fd ≡ pos k
    pub small : k < 1024
    pub item : Item FdHandler ℕ
    pub at : get_elem? selector.fds k ≡ some item
    pub used : item_used item ≡ true
    pub handler : FdHandler
    pub handled : item.handler ≡ some handler
    pub closes : handle_close {W = W} handler ≡ some client_close
    pub attached : item.attached ≡ some address

  unregister-freed :
      (s : FdSelector FdHandler ℕ) (heap : Heap W) (address k m : ℕ) (cell : Live W)
      (item : Item FdHandler ℕ) (h : FdHandler)
      → heap.cells address ≡ some cell
      → k < 1024
      → get_elem? s.fds k ≡ some item
      → item_used item ≡ true
      → item.handler ≡ some h
      → handle_close {W = W} h ≡ some client_close
      → item.attached ≡ some address
      → items_max_fd (replaced s k blank_item s.max_fd) ≡ some m
      → selector_unregister_fd handle_close s (pos k) heap
        ≡ some (
          selector_success,
          replaced s k blank_item m,
          record {
            cells = put_cell heap.cells address none;
            closes = cell.session.client_fd ∷ heap.closes;
          },
        )
  unfolding selector_unregister_fd client_close
  unregister-freed s heap address k m cell item h alive small at used handled closes attached max =
      rw
        (
          selector_unregister_fd,
          valid_fd-below k small,
          at,
          used,
          handled,
          closes,
          attached,
          client_close,
          alive,
          clear_item-replaced s k m max,
        )
        refl

  close_run :
      (p : Proxy W) (address : ℕ) (cell : Live W) (k : ℕ) (st : SelectorStatus)
      (s : FdSelector FdHandler ℕ) (heap : Heap W)
      → p.heap.cells address ≡ some cell
      → cell.session.client_fd ≡ pos k
      → selector_unregister_fd handle_close p.selector (pos k) p.heap ≡ some (st, s, heap)
      → heap.cells address ≡ none
      → close_session p address ≡ none
  unfolding close_session
  close_run p address cell k st s heap alive fd gone dead =
      rw (close_session, alive, fd, gone, dead) refl

  -- The end of a session whose client's descriptor is registered, on a well-formed table: the
  -- unregistration calls `client_close`, which frees the session, and then `close_session`
  -- reads the descriptor from the freed memory.
  pub close_session-freed :
      (p : Proxy W) (address k : ℕ) (cell : Live W)
      → p.heap.cells address ≡ some cell
      → IsServed p.selector cell address k
      → close_session p address ≡ none
  close_session-freed p address k cell alive v =
      let (m, (max, _, _)) = cleared_max p.selector k v.valid inside in
      close_run p address cell k selector_success (replaced p.selector k blank_item m) _ alive
        v.fd_eq
        (unregister-freed p.selector p.heap address k m cell v.item v.handler alive v.small v.at
          v.used v.handled v.closes v.attached max)
        (put_cell-here p.heap.cells address none)
    where
      inside : k < p.selector.fd_size
      inside = omega (arith, v.valid.size, get_elem?-length p.selector.fds k v.item v.at)

  event_run :
      (kind : Ready) (p : Proxy W) (address ret : ℕ) (e : Event ℕ) (cell : Live W)
      (stm : StateMachine (Key FdHandler ℕ W)) (s : Session FdHandler ℕ W)
      → p.heap.cells address ≡ some cell
      → handle cell.machine (entered p cell.session) kind e ≡ some (ret, stm, s)
      → (ret == 6 || ret == 7) ≡ true
      → client_event kind p address e ≡ close_session (left_with p address stm s) address
  unfolding client_event
  event_run kind p address ret e cell stm s alive run over =
      rw (client_event, alive, run) (if_true (ret == 6 || ret == 7) _ _ over)

  -- An event for which the handlers return ERROR or DONE, in a session whose client's descriptor is
  -- then registered on a well-formed table, makes the server read freed memory: so every end of a
  -- session does.
  pub client_event-freed :
      (kind : Ready) (p : Proxy W) (address k ret : ℕ) (e : Event ℕ) (cell : Live W)
      (stm : StateMachine (Key FdHandler ℕ W)) (s : Session FdHandler ℕ W)
      → p.heap.cells address ≡ some cell
      → handle cell.machine (entered p cell.session) kind e ≡ some (ret, stm, s)
      → (ret == 6 || ret == 7) ≡ true
      → IsServed s.selector (record { machine = stm; session = s }) address k
      → client_event kind p address e ≡ none
  client_event-freed kind p address k ret e cell stm s alive run over v =
      event_run kind p address ret e cell stm s alive run over
      ∙ close_session-freed (left_with p address stm s) address k
          (record { machine = stm; session = s })
          (put_cell-here p.heap.cells address (some (record { machine = stm; session = s }))) v
