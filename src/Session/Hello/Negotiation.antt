-- ===== src/Session/Hello/Negotiation.antt =====
-- What src/stm/hello.c answers to a greeting.
use pdc_20221c.Prelude.{
  Option, ℕ, ◌-◌, ◌≤◌, ◌<◌, ◌≡◌, refl, ◌∙◌, some, Bool, true, false, ◌||◌, List, [], ◌∷◌, ◌++◌,
  ◌==◌, if◌then◌else◌, ℤ, pos, length, arith, ltb,
}
use mathlib.Core.List.{foldl}
use pdc_20221c.Buffer.{Buffer, buffer_write_ptr, buffer_write_adv, fill}
use pdc_20221c.Buffer.Contents.{Holds, buffer_write_ptr_lem, buffer_write_adv_lem}
use pdc_20221c.Parser.Hello.{
  HelloParser, hello_version, hello_done, hello_consume, hello_is_done, hello_marshall, notify,
}
use pdc_20221c.Parser.Hello.Message.{hello_consume-message, noticed}
use pdc_20221c.Session.Hello.{
  HelloWorld, on_hello_method, hello_process, hello_finished, hello_read, hello_write_state,
  error_state,
}
use pdc_20221c.Selector.{FdSelector, selector_success, selector_set_interest, op_write}
use pdc_20221c.Selector.Invariant.{IsValid}
use pdc_20221c.Session.Copy.Interest.{IsUsed, set_interest_run}

-- Is the method offered?
unfoldable pub offers : List ℕ → ℕ → Bool
offers [] k = false
offers (m ∷ ms) k = m == k || offers ms k

-- User name and password if they are offered or chosen before, then no authentication if it is
-- offered, and else what the memory had.
pub on_hello_method_lem :
    (ms : List ℕ) (before : ℕ)
    → foldl (notify (some on_hello_method)) before ms
      ≡ (if before == 2 || offers ms 2 then 2 else if offers ms 0 then 0 else before)
unfolding offers on_hello_method
on_hello_method_lem [] before = ground arith
on_hello_method_lem (m ∷ ms) before =
    ground (arith, on_hello_method_lem ms (on_hello_method before m))

abbrev pub chosen : List ℕ → ℕ → ℕ
chosen ms before = if before == 2 || offers ms 2 then 2 else if offers ms 0 then 0 else before

hello_marshall_lem :
    (b : Buffer) (bytes : List ℕ) (method : ℕ)
    → Holds b bytes
    → 2 ≤ b.limit - b.write
    → (b' : Buffer) × (hello_marshall b method ≡ some (pos 2, b'))
      × Holds b' (bytes ++ (0x05 ∷ method ∷ []))
unfolding hello_marshall
hello_marshall_lem b bytes method h room =
    let (b', adv, h', l) = buffer_write_adv_lem b bytes (0x05 ∷ method ∷ []) h room in
    let fits : ltb (b.limit - b.write) 2 ≡ false = ground arith in
    (b', rw (buffer_write_ptr_lem b h.valid, fits, adv) refl, h')

Holds-answer :
    (out : Buffer) (m n : ℕ) → m ≡ n → Holds out (0x05 ∷ m ∷ []) → Holds out (0x05 ∷ n ∷ [])
Holds-answer out m n e h = rw (← e) h

module _ {H D : Type 0} where
  ret_cong :
      (m n : ℕ) (w : HelloWorld H D)
      → m ≡ n
      → ◌≡◌ {A = Option (ℕ × HelloWorld H D)}
          (some (if m == 0xFF then error_state else hello_write_state, w))
          (some (if n == 0xFF then error_state else hello_write_state, w))
  ret_cong m n w e = rw e refl

  -- The run of `hello_read`, from the results of what it calls.
  read_run :
      (w : HelloWorld H D) (fd : ℤ) (bytes : List ℕ) (b b' out : Buffer) (p : HelloParser)
      (s : FdSelector H D)
      → buffer_write_ptr w.input ≡ some (w.input.write, w.input.limit - w.input.write)
      → buffer_write_adv (fill w.input bytes) (pos (length bytes)) ≡ some b
      → hello_consume b w.parser (some false) ≡ some (hello_done, p, b', some false)
      → selector_set_interest w.selector fd op_write ≡ some (selector_success, s)
      → hello_marshall w.output p.data_byte ≡ some (pos 2, out)
      → hello_read w fd (some bytes)
        ≡ some (
          if p.data_byte == 0xFF then error_state else hello_write_state,
          record w { parser = p; input = b'; output = out; selector = s },
        )
  unfolding hello_read hello_is_done hello_finished hello_process
  read_run w fd bytes b b' out p s ptr adv parsed interest answer =
      rw (hello_read, ptr, adv, parsed, interest, answer) refl

  -- A session that waits for the greeting, with its descriptor registered and room in its buffers,
  -- and that receives a whole greeting at once: it answers with user name and password if they are
  -- offered or if the byte of `method` was 2 before, whatever is offered; else with no authentication
  -- if that is offered; and else with the byte that `method` had before. It then waits to write, or
  -- fails if the answer is 0xFF. Bytes behind the greeting are kept.
  pub hello_read_lem :
      (w : HelloWorld H D) (k : ℕ) (ms rest : List ℕ)
      → w.parser.state ≡ hello_version
      → w.parser.on_authentication_method ≡ some on_hello_method
      → Holds w.input []
      → Holds w.output []
      → length ms < 256
      → length (0x05 ∷ length ms ∷ ms ++ rest) ≤ w.input.limit - w.input.write
      → 2 ≤ w.output.limit - w.output.write
      → IsValid w.selector
      → k < 1024
      → IsUsed w.selector k
      → (w' : HelloWorld H D) × (hello_read w (pos k) (some (0x05 ∷ length ms ∷ ms ++ rest))
          ≡ some
              (if chosen ms w.parser.data_byte == 0xFF then error_state else hello_write_state, w'))
        × Holds w'.output (0x05 ∷ chosen ms w.parser.data_byte ∷ [])
        × Holds w'.input rest
        × (w'.selector.master_w k ≡ true)
        × (w'.selector.master_r k ≡ false)
  hello_read_lem w k ms rest start callback hin hout short room answer_room valid small used =
      let bytes = 0x05 ∷ length ms ∷ ms ++ rest in
      let (b, adv, hb, lb) = buffer_write_adv_lem w.input [] bytes hin room in
      let (b', parsed, hrest, lb') =
        hello_consume-message b w.parser ms rest (some false) start short hb in
      let (s, interest, changed) = set_interest_run w.selector k op_write valid small used in
      let method : noticed w.parser ms ≡ chosen ms w.parser.data_byte =
        rw callback (on_hello_method_lem ms w.parser.data_byte) in
      let (out, answer, ho) =
        hello_marshall_lem w.output [] (noticed w.parser ms) hout answer_room in
      (
        record w {
          parser = record w.parser {
            state = hello_done;
            remaining = 0;
            data_byte = noticed w.parser ms;
          };
          input = b';
          output = out;
          selector = s;
        },
        read_run w (pos k) bytes b b' out _ s (buffer_write_ptr_lem w.input hin.valid) adv parsed
              interest answer
            ∙ ret_cong (noticed w.parser ms) (chosen ms w.parser.data_byte) _ method,
        Holds-answer out (noticed w.parser ms) (chosen ms w.parser.data_byte) method ho,
        hrest,
        changed.writes_it,
        changed.reads_it,
      )
