-- ===== src/Session/Machine/Aborts.antt =====
-- Events of a session for which the engine of src/stm/stm.c calls `abort`, which ends the server.
use pdc_20221c.Prelude.{
  ℕ, ◌<◌, ◌≡◌, ◌==◌, if◌then◌else◌, refl, ap, ◌∙◌, Option, none, some, List, [], ℤ, pos, length,
}
use mathlib.Core.List.{append-nil}
use pdc_20221c.Buffer.Contents.{Holds}
use pdc_20221c.Selector.Invariant.{IsValid}
use pdc_20221c.Stm.{StateMachine, handler, stm_handler_write}
use pdc_20221c.Session.Copy.Interest.{IsUsed}
use pdc_20221c.Session.Hello.{HelloWorld, hello_write}
use pdc_20221c.Session.Hello.Answer.{hello_write_lem}
use pdc_20221c.Session.Machine.{Session, Event, Key, for_write, hello_world, stm_map, handle}

module _ {H D W : Type 0} (handler_of_request : H) (sniffer : W → List ℕ → Option W) where
  -- The machine of a session in the state `c`.
  abbrev pub machine_in : StateMachine (Key H D W) → ℕ → StateMachine (Key H D W)
  machine_in memory c = record memory {
    initial = 0;
    max_state = 7;
    states = stm_map handler_of_request sniffer;
    current = some c;
  }

  auth_run :
      (memory : StateMachine (Key H D W)) (s : Session H D W) (e : Event D) (fd : ℤ) (n : ℕ)
      (w : HelloWorld H D)
      → hello_write (hello_world s) fd (some n) ≡ some (8, w)
      → handle (machine_in memory 1) s for_write (record e { fd = fd; sent = some n }) ≡ none
  unfolding handle stm_handler_write stm_map
  auth_run memory s e fd n w h = rw (handle, stm_handler_write, handler, h) refl

  -- A session whose client chose user name and password, with its descriptor registered: the event
  -- in which the last byte of the answer is sent aborts the server.
  pub password-abort :
      (memory : StateMachine (Key H D W)) (s : Session H D W) (e : Event D) (k : ℕ) (sent : List ℕ)
      → s.hello.data_byte ≡ 2
      → Holds s.output sent
      → IsValid s.selector
      → k < 1024
      → IsUsed s.selector k
      → handle
          (machine_in memory 1)
          s
          for_write
          (record e { fd = pos k; sent = some (length sent) })
        ≡ none
  unfolding hello_world
  password-abort memory s e k sent chosen held valid small used =
      let (w, run, _, _, _) =
        hello_write_lem (hello_world s) k sent [] (rw append-nil held) valid small used in
      let code : (if s.hello.data_byte == 2 then 8 else 2) ≡ 8 = rw chosen refl in
      auth_run memory s e (pos k) (length sent) w (run ∙ ap (λ c. some (c, w)) code)
