-- ===== src/Session/Hello/Answer.antt =====
-- How src/stm/hello.c sends the answer to a greeting.
use pdc_20221c.Prelude.{
  ℕ, ◌<◌, ◌≡◌, refl, some, true, false, List, [], ◌∷◌, ◌++◌, ◌==◌, if◌then◌else◌, ℤ, pos, length,
  arith,
}
use pdc_20221c.Buffer.{Buffer, buffer_can_read, buffer_read_ptr, buffer_read_adv}
use pdc_20221c.Buffer.Contents.{
  Holds, buffer_read_ptr_lem, buffer_read_adv_lem, buffer_can_read-cons, buffer_can_read-nil,
}
use pdc_20221c.Selector.{FdSelector, selector_success, selector_set_interest, op_read}
use pdc_20221c.Selector.Invariant.{IsValid}
use pdc_20221c.Session.Copy.Interest.{IsUsed, set_interest_run}
use pdc_20221c.Session.Hello.{
  HelloWorld, hello_write, hello_write_state, request_read_state, auth_read_state,
}

module _ {H D : Type 0} where
  last_run :
      (w : HelloWorld H D) (fd : ℤ) (n : ℕ) (ptr : ℕ × ℕ) (b : Buffer) (s : FdSelector H D)
      → buffer_read_ptr w.output ≡ some ptr
      → buffer_read_adv w.output (pos n) ≡ some b
      → buffer_can_read b ≡ false
      → selector_set_interest w.selector fd op_read ≡ some (selector_success, s)
      → hello_write w fd (some n)
        ≡ some (
          if w.parser.data_byte == 2 then auth_read_state else request_read_state,
          record w { output = b; selector = s },
        )
  unfolding hello_write
  last_run w fd n ptr b s at adv nothing interest =
      rw (hello_write, at, adv, nothing, interest) refl

  part_run :
      (w : HelloWorld H D) (fd : ℤ) (n : ℕ) (ptr : ℕ × ℕ) (b : Buffer)
      → buffer_read_ptr w.output ≡ some ptr
      → buffer_read_adv w.output (pos n) ≡ some b
      → buffer_can_read b ≡ true
      → hello_write w fd (some n) ≡ some (hello_write_state, record w { output = b })
  unfolding hello_write
  part_run w fd n ptr b at adv more = rw (hello_write, at, adv, more) refl

  -- A session with its descriptor registered, whose answer is sent as far as `sent`: with bytes left
  -- it stays in its state and keeps them, in order; with none left it waits to read, and goes on to
  -- the authentication if user name and password were chosen, and else to the request.
  pub hello_write_lem :
      (w : HelloWorld H D) (k : ℕ) (sent left : List ℕ)
      → Holds w.output (sent ++ left)
      → IsValid w.selector
      → k < 1024
      → IsUsed w.selector k
      → (w' : HelloWorld H D) × (hello_write w (pos k) (some (length sent))
          ≡ some (
            elim left [
              | _ ∷ _ ↦ hello_write_state
              | [] ↦ if w.parser.data_byte == 2 then auth_read_state else request_read_state
            ],
            w',
          ))
        × Holds w'.output left
        × (w'.parser ≡ w.parser)
        × (left ≡ [] → w'.selector.master_r k ≡ true)
  hello_write_lem w k sent [] h valid small used =
      let (b, adv, held, _, _) = buffer_read_adv_lem w.output sent [] h in
      let (s, interest, changed) = set_interest_run w.selector k op_read valid small used in
      (
        record w { output = b; selector = s },
        last_run w (pos k) (length sent) _ b s (buffer_read_ptr_lem w.output (sent ++ []) h) adv
            (buffer_can_read-nil b held) interest,
        held,
        refl,
        λ _. changed.reads_it,
      )
  hello_write_lem w k sent (c ∷ cs) h valid small used =
      let (b, adv, held, _, _) = buffer_read_adv_lem w.output sent (c ∷ cs) h in
      (
        record w { output = b },
        part_run w (pos k) (length sent) _ b (buffer_read_ptr_lem w.output (sent ++ (c ∷ cs)) h) adv
            (buffer_can_read-cons b c cs held),
        held,
        refl,
        λ e. absurd (ground arith),
      )
