-- ===== src/Session/Machine/Order/Handlers.antt =====
-- What the callbacks of src/stm/hello.c and src/stm/copy.c return.
use pdc_20221c.Prelude.{ℕ, Option, none, some, false, List, ◌==◌, if◌then◌else◌, ℤ, pos, length}
use pdc_20221c.Buffer.{
  buffer_write_ptr, buffer_write_adv, buffer_read_ptr, buffer_read_adv, buffer_can_read, fill,
}
use pdc_20221c.Parser.Hello.{hello_consume, hello_is_done}
use pdc_20221c.Selector.{selector_set_interest, op_read}
use pdc_20221c.Session.Copy.{
  World, Side, copy_read, copy_write, settle, check_interest, take_in, give_out, copy_ptr, other,
  read_buff, write_buff,
}
use pdc_20221c.Session.Hello.{HelloWorld, hello_read, hello_write, hello_finished, hello_process}
use pdc_20221c.Session.Machine.Order.{
  Follows, reading_hello, answering_hello, writing_hello, accepted, to_auth, copying, to_done,
  lost_hello, lost_answer, Returns, ReturnsIn, by_test, by_status, by_sign, by_flag, Returns-some,
  Returns-none, Returns-bind, Returns-then,
}

module _ {H D : Type 0} where
  pub hello_process-Follows : (w : HelloWorld H D) → Returns (hello_process w) (Follows 0)
  unfolding hello_process
  hello_process-Follows w = Returns-bind (Follows 0) _ _ (λ (n, b).
      Returns-some (Follows 0) _ _ (
        by_sign (Follows 0) n _ _ lost_hello
          (by_test (Follows 0) _ _ _ lost_hello answering_hello)))

  pub hello_finished-Follows :
      (w : HelloWorld H D) (fd : ℤ) → Returns (hello_finished w fd) (Follows 0)
  unfolding hello_finished
  hello_finished-Follows w fd = Returns-bind (Follows 0) _ _ (λ (st, s).
      by_status (ReturnsIn (Follows 0)) st _ _ (hello_process-Follows _)
        (Returns-some (Follows 0) _ _ lost_hello))

  pub hello_read-Follows :
      (w : HelloWorld H D) (fd : ℤ) (received : Option (List ℕ))
      → Returns (hello_read w fd received) (Follows 0)
  unfolding hello_read
  hello_read-Follows w fd none =
      Returns-bind (Follows 0) _ _ (λ _. Returns-some (Follows 0) _ _ lost_hello)
  hello_read-Follows w fd (some bytes) = Returns-bind (Follows 0) (buffer_write_ptr w.input) _ (λ _.
      Returns-bind (Follows 0) (buffer_write_adv (fill w.input bytes) (pos (length bytes))) _ (λ b.
        Returns-bind (Follows 0) (hello_consume b w.parser (some false)) _ (λ (st, p, b', error).
          let w1 : HelloWorld H D = record w { parser = p; input = b' } in
          Returns-then (Follows 0)
            (if (hello_is_done st none).0 then hello_finished w1 fd else some (0, w1))
            (λ (ret, w'). some (elim error [ none ↦ ret | some e ↦ if e then 6 else ret ], w'))
            (by_test (ReturnsIn (Follows 0)) (hello_is_done st none).0 (hello_finished w1 fd)
              (some (0, w1)) (hello_finished-Follows w1 fd)
              (Returns-some (Follows 0) 0 w1 reading_hello))
            (λ ret w' h.
              Returns-some (Follows 0) _ w' (by_flag (Follows 0) error 6 ret lost_hello h)))))

  pub hello_write-Follows :
      (w : HelloWorld H D) (fd : ℤ) (sent : Option ℕ) → Returns (hello_write w fd sent) (Follows 1)
  unfolding hello_write
  hello_write-Follows w fd none =
      Returns-bind (Follows 1) _ _ (λ _. Returns-some (Follows 1) _ _ lost_answer)
  hello_write-Follows w fd (some n) = Returns-bind (Follows 1) (buffer_read_ptr w.output) _ (λ _.
      Returns-bind (Follows 1) (buffer_read_adv w.output (pos n)) _ (λ b.
        by_test (ReturnsIn (Follows 1)) (buffer_can_read b) _ _
          (Returns-some (Follows 1) 1 (record w { output = b }) writing_hello)
          (Returns-bind (Follows 1) (selector_set_interest w.selector fd op_read) _ (λ (st, s).
            Returns-some (Follows 1) _ (record w { output = b; selector = s })
              (by_status (Follows 1) st (if w.parser.data_byte == 2 then 8 else 2) 6
                (by_test (Follows 1) (w.parser.data_byte == 2) 8 2 to_auth accepted)
                lost_answer)))))

module _ {H D W : Type 0} where
  pub settle-Follows : (w : World H D W) (side : Side) → Returns (settle w side) (Follows 5)
  unfolding settle
  settle-Follows w side = Returns-bind (Follows 5) (check_interest w side) _ (λ w1.
      Returns-bind (Follows 5) (check_interest w1 (other side)) _
        (λ w2. Returns-some (Follows 5) _ _ (by_test (Follows 5) _ _ _ copying to_done)))

  pub copy_read-Follows :
      (sniffer : W → List ℕ → Option W) (w : World H D W) (fd : ℤ) (received : Option (List ℕ))
      → Returns (copy_read sniffer w fd received) (Follows 5)
  unfolding copy_read
  copy_read-Follows sniffer w fd received =
      by_test (ReturnsIn (Follows 5)) _ _ _ (Returns-none (Follows 5)) (
        Returns-bind (Follows 5) (buffer_write_ptr (read_buff w (copy_ptr w fd))) _ (λ _.
          Returns-bind (Follows 5) (take_in sniffer w (copy_ptr w fd) fd received) _
            (λ w1. settle-Follows w1 (copy_ptr w fd))))

  pub copy_write-Follows :
      (sniffer : W → List ℕ → Option W) (w : World H D W) (fd : ℤ) (sent : Option ℕ)
      → Returns (copy_write sniffer w fd sent) (Follows 5)
  unfolding copy_write
  copy_write-Follows sniffer w fd sent =
      by_test (ReturnsIn (Follows 5)) _ _ _ (Returns-none (Follows 5)) (
        Returns-bind (Follows 5) (buffer_read_ptr (write_buff w (copy_ptr w fd))) _ (λ (ptr, count).
          Returns-bind (Follows 5) (give_out sniffer w (copy_ptr w fd) fd ptr sent) _
            (λ w1. settle-Follows w1 (copy_ptr w fd))))
