-- ===== src/Prawtos/Server/Close.antt =====
-- The end of a session in src/prawtos/prawtos.c.
use pdc_20221c.Prelude.{
  ℕ, ◌-◌, ◌<◌, ◌≡◌, ◌≢◌, refl, ◌∙◌, ap, Option, none, some, true, false, ◌||◌, ◌∷◌, ◌==◌, ltb, ℤ,
  pos, get_elem?, get_elem?-length, arith, if_true, if◌then◌else◌,
}
use pdc_20221c.Prawtos.{PrawtosWorld}
use pdc_20221c.Prawtos.Server.{
  PrawtosHandler, prawtos_handler, Administrator, PrawtosHeap, PrawtosServer, PrawtosEvent,
  PrawtosKey, put_session, prawtos_close, prawtos_handle_close, prawtos_handle, prawtos_done,
  prawtos_event, entered, left_with,
}
use pdc_20221c.Selector.{
  FdSelector, Item, selector_success, item_used, blank_item, items_max_fd, selector_unregister_fd,
}
use pdc_20221c.Selector.Invariant.{
  IsValid, replaced, replaced-IsValid, clear_item-replaced, valid_fd-below,
}
use pdc_20221c.Selector.Unregister.{cleared_max}
use pdc_20221c.Session.Machine.{Ready}
use pdc_20221c.Stadistics.{Stadistics, stadistics_decrease_concurrent, get_concurrent_connections}
use pdc_20221c.Stm.{StateMachine}

-- The session's descriptor is registered with the session.
pub record IsServed (selector : FdSelector PrawtosHandler ℕ) (fd : ℤ) (address k : ℕ) : Type 0 where
  pub valid : IsValid selector
  pub fd_eq : fd ≡ pos k
  pub small : k < 1024
  pub item : Item PrawtosHandler ℕ
  pub at : get_elem? selector.fds k ≡ some item
  pub used : item_used item ≡ true
  pub handled : item.handler ≡ some prawtos_handler
  pub attached : item.attached ≡ some address

-- One connection less, if there was one.
abbrev pub without_one : Stadistics → Stadistics
without_one s = record s { concurrent_connections = s.concurrent_connections - 1 }

pub put_session-here :
    (cells : ℕ → Option Administrator) (address : ℕ) (cell : Option Administrator)
    → put_session cells address cell address ≡ cell
unfolding put_session
put_session-here cells address cell = ground arith

put_session-there :
    (cells : ℕ → Option Administrator) (address other : ℕ) (cell : Option Administrator)
    → address ≢ other
    → put_session cells address cell other ≡ cells other
unfolding put_session
put_session-there cells address other cell apart = ground arith

pub counters_lem :
    (s : Stadistics)
    → (if ltb 0 (get_concurrent_connections s) then stadistics_decrease_concurrent s else s)
      ≡ without_one s
unfolding get_concurrent_connections stadistics_decrease_concurrent
counters_lem s = ground arith

unregister-freed :
    (s : FdSelector PrawtosHandler ℕ) (heap : PrawtosHeap) (address k m : ℕ) (cell : Administrator)
    (item : Item PrawtosHandler ℕ)
    → heap.cells address ≡ some cell
    → k < 1024
    → get_elem? s.fds k ≡ some item
    → item_used item ≡ true
    → item.handler ≡ some prawtos_handler
    → item.attached ≡ some address
    → items_max_fd (replaced s k blank_item s.max_fd) ≡ some m
    → selector_unregister_fd prawtos_handle_close s (pos k) heap
      ≡ some (
        selector_success,
        replaced s k blank_item m,
        record heap {
          cells = put_session heap.cells address none;
          stadistics =
              if ltb 0 (get_concurrent_connections heap.stadistics)
              then stadistics_decrease_concurrent heap.stadistics
              else heap.stadistics;
        },
      )
unfolding selector_unregister_fd prawtos_handle_close prawtos_close
unregister-freed s heap address k m cell item alive small at used handled attached max =
    rw
      (
        selector_unregister_fd,
        valid_fd-below k small,
        at,
        used,
        handled,
        prawtos_handle_close,
        attached,
        prawtos_close,
        alive,
        clear_item-replaced s k m max,
      )
      refl

-- The session is gone: its memory is free, its descriptor is closed, and no longer in the table of
-- descriptors, which is well formed; no other session is touched.
pub record IsGone (p p' : PrawtosServer) (address k : ℕ) : Type 0 where
  pub freed : p'.heap.cells address ≡ none
  pub others : (a : ℕ) → address ≢ a → p'.heap.cells a ≡ p.heap.cells a
  pub closed : p'.heap.closes ≡ pos k ∷ p.heap.closes
  pub counted : p'.heap.stadistics ≡ without_one p.heap.stadistics
  pub valid : IsValid p'.selector
  pub unread : p'.selector.master_r k ≡ false
  pub unwritten : p'.selector.master_w k ≡ false
  pub users_eq : p'.users ≡ p.users

done_run :
    (p : PrawtosServer) (address k : ℕ) (cell : Administrator) (s : FdSelector PrawtosHandler ℕ)
    (heap : PrawtosHeap)
    → p.heap.cells address ≡ some cell
    → cell.world.client_fd ≡ pos k
    → selector_unregister_fd prawtos_handle_close p.selector (pos k) p.heap
      ≡ some (selector_success, s, heap)
    → prawtos_done p address
      ≡ some (record p { heap = record heap { closes = pos k ∷ heap.closes }; selector = s })
unfolding prawtos_done
done_run p address k cell s heap alive fd gone =
    rw (prawtos_done, alive, fd, gone)
      (ap (λ d. some (record p { heap = record heap { closes = d ∷ heap.closes }; selector = s }))
        fd)

-- The end of a session whose descriptor is registered with it, on a well-formed table: nothing
-- aborts, and the session is gone.
pub prawtos_done_lem :
    (p : PrawtosServer) (address k : ℕ) (cell : Administrator)
    → p.heap.cells address ≡ some cell
    → IsServed p.selector cell.world.client_fd address k
    → (p' : PrawtosServer) × (prawtos_done p address ≡ some p') × IsGone p p' address k
prawtos_done_lem p address k cell alive v =
    let (m, (max, lt, others)) = cleared_max p.selector k v.valid inside in
    (
      _,
      done_run p address k cell (replaced p.selector k blank_item m) _ alive v.fd_eq (
          unregister-freed p.selector p.heap address k m cell v.item alive v.small v.at v.used
            v.handled v.attached max),
      record {
        freed = put_session-here p.heap.cells address none;
        others = λ a apart. put_session-there p.heap.cells address a none apart;
        closed = refl;
        counted = counters_lem p.heap.stadistics;
        valid =
            replaced-IsValid p.selector k blank_item m v.valid inside lt
              (λ u. absurd (ground arith)) others;
        unread = ground arith;
        unwritten = ground arith;
        users_eq = refl;
      },
    )
  where
    inside : k < p.selector.fd_size
    inside = omega (arith, v.valid.size, get_elem?-length p.selector.fds k v.item v.at)

event_run :
    (kind : Ready) (p : PrawtosServer) (address ret : ℕ) (e : PrawtosEvent) (cell : Administrator)
    (stm : StateMachine (PrawtosKey PrawtosHandler ℕ)) (w : PrawtosWorld PrawtosHandler ℕ)
    → p.heap.cells address ≡ some cell
    → prawtos_handle cell.stm (entered p cell.world) kind e ≡ some (ret, stm, w)
    → (ret == 5 || ret == 4) ≡ true
    → prawtos_event kind p address e ≡ prawtos_done (left_with p address stm w) address
unfolding prawtos_event
event_run kind p address ret e cell stm w alive run over =
    rw (prawtos_event, alive, run) (if_true (ret == 5 || ret == 4) _ _ over)

-- An event whose handler takes a session to DONE or to ERROR, with its descriptor still registered
-- with it on a well-formed table: the session's memory is freed once, its descriptor is closed once
-- and out of the sets for `pselect`, one connection less is counted, and the other sessions stay.
pub prawtos_event-over :
    (kind : Ready) (p : PrawtosServer) (address k ret : ℕ) (e : PrawtosEvent) (cell : Administrator)
    (stm : StateMachine (PrawtosKey PrawtosHandler ℕ)) (w : PrawtosWorld PrawtosHandler ℕ)
    → p.heap.cells address ≡ some cell
    → prawtos_handle cell.stm (entered p cell.world) kind e ≡ some (ret, stm, w)
    → (ret == 5 || ret == 4) ≡ true
    → IsServed w.selector w.client_fd address k
    → (p' : PrawtosServer) × (prawtos_event kind p address e ≡ some p')
      × IsGone (left_with p address stm w) p' address k
      × ((a : ℕ) → address ≢ a → p'.heap.cells a ≡ p.heap.cells a)
prawtos_event-over kind p address k ret e cell stm w alive run over v =
    let left = left_with p address stm w in
    let session : Administrator = record { stm = stm; world = w } in
    let (p', ended, gone) =
      prawtos_done_lem left address k session (put_session-here p.heap.cells address (some session))
        v in
    (
      p',
      event_run kind p address ret e cell stm w alive run over ∙ ended,
      gone,
      λ a apart.
          gone.others a apart ∙ put_session-there p.heap.cells address a (some session) apart,
    )
