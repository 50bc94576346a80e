-- ===== src/Session/Machine/Order.antt =====
-- The order of the states of a session: what the callbacks of src/stm/ return.
pub mod Handlers
pub mod Requests
pub mod Runs
pub mod Trace
use pdc_20221c.Prelude.{
  ℕ, ◌≡◌, ◌≤◌, refl, Option, none, some, Bool, true, false, not, ◌&&◌, ◌||◌, List, ◌==◌,
  if◌then◌else◌, ◌>>=◌, >>=-eq-some, ℤ, pos, negsuc, arith, length, ltb, Bool-cases, inl, inr,
}
use mathlib.Core.Option.{some-injective}
use pdc_20221c.Buffer.{
  buffer_write_ptr, buffer_write_adv, buffer_read_ptr, buffer_read_adv, buffer_can_read, fill,
}
use pdc_20221c.Parser.Hello.{hello_consume, hello_is_done, hello_marshall}
use pdc_20221c.Parser.Request.{request_consume, request_is_done}
use pdc_20221c.Parser.Reply.{errno_to_socks, status_succeeded}
use pdc_20221c.Selector.{
  FdSelector, SelectorStatus, selector_success, selector_enomem, selector_maxfd, selector_iargs,
  selector_fdinuse, selector_io, selector_set_interest, selector_set_interest_key,
  selector_register, selector_fd_set_nio, op_noop, op_read, op_write,
}
use pdc_20221c.Session.Copy.{
  World, Side, CopySt, copy_read, copy_write, settle, check_interest, take_in, give_out, copy_ptr,
  copy_at, same_fd, other, read_buff, write_buff,
}
use pdc_20221c.Session.Hello.{HelloWorld, hello_read, hello_write, hello_finished, hello_process}
use pdc_20221c.Session.Request.{
  RequestWorld, Attempt, answer, request_read, request_write, request_process, request_connect,
  connect_with, connect_socket, connect_pending, connect_failed, watch_origin, open_socket,
  with_address, request_connecting, connect_ended, einprogress,
}

-- What may follow a state, by its number in `enum session_state`. The two states of the
-- authentication are not there.
pub data Follows : ℕ → ℕ → Type 0 where
  reading_hello : Follows 0 0
  answering_hello : Follows 0 1
  writing_hello : Follows 1 1
  accepted : Follows 1 2
  to_auth : Follows 1 8
  reading_request : Follows 2 2
  to_connecting : Follows 2 3
  answering_request : Follows 2 4
  connecting : Follows 3 3
  connected : Follows 3 4
  writing_request : Follows 4 4
  to_copy : Follows 4 5
  copying : Follows 5 5
  to_done : Follows 5 7
  lost_hello : Follows 0 6
  lost_answer : Follows 1 6
  lost_request : Follows 2 6
  lost_connection : Follows 3 6
  lost_reply : Follows 4 6

-- What a handler returns, if it returns.
abbrev pub Returns : {V : Type 0} → Option (ℕ × V) → (ℕ → Type 0) → Type 0
Returns {V = V} run P = (ret : ℕ) (v : V) → run ≡ some (ret, v) → P ret

-- Case splits on what decides a result.
module _ {A : Type 0} (Q : A → Type 0) where
  pub by_test : (b : Bool) (x y : A) → Q x → Q y → Q (if b then x else y)
  by_test true x y h h' = h
  by_test false x y h h' = h'

  pub by_status :
      (st : SelectorStatus) (x y : A) → Q x → Q y → Q (elim st [ selector_success ↦ x | _ ↦ y ])
  by_status selector_success x y h h' = h
  by_status selector_enomem x y h h' = h'
  by_status selector_maxfd x y h h' = h'
  by_status selector_iargs x y h h' = h'
  by_status selector_fdinuse x y h h' = h'
  by_status selector_io x y h h' = h'

  pub by_sign : (n : ℤ) (x y : A) → Q x → Q y → Q (elim n [ negsuc _ ↦ x | pos _ ↦ y ])
  by_sign (negsuc n) x y h h' = h
  by_sign (pos n) x y h h' = h'

  pub by_flag :
      (error : Option Bool) (x y : A)
      → Q x
      → Q y
      → Q (elim error [ none ↦ y | some e ↦ if e then x else y ])
  by_flag none x y h h' = h'
  by_flag (some true) x y h h' = h
  by_flag (some false) x y h h' = h'

module _ {V : Type 0} (P : ℕ → Type 0) where
  pub Returns-some : (n : ℕ) (v : V) → P n → Returns (some (n, v)) P
  Returns-some n v p ret v' e =
      let same : n ≡ ret = ground (arith, some-injective (n, v) (ret, v') e) in rw (← same) p

  pub Returns-none : Returns {V = V} none P
  Returns-none ret v e = absurd (ground arith)

  pub Returns-bind :
      {A : Type 0} (m : Option A) (f : A → Option (ℕ × V))
      → ((a : A) → Returns (f a) P)
      → Returns (m >>= f) P
  Returns-bind m f h ret v e = let (a, _, e2) = >>=-eq-some m f e in h a ret v e2

  pub Returns-then :
      {U : Type 0} (m : Option (ℕ × U)) (f : ℕ × U → Option (ℕ × V))
      → Returns m P
      → ((r : ℕ) (u : U) → P r → Returns (f (r, u)) P)
      → Returns (m >>= f) P
  Returns-then m f hm h ret v e =
      let ((r, u), e1, e2) = >>=-eq-some m f e in h r u (hm r u e1) ret v e2

abbrev pub ReturnsIn : {V : Type 0} (P : ℕ → Type 0) → Option (ℕ × V) → Type 0
ReturnsIn P run = Returns run P
