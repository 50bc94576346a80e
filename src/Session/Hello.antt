-- ===== src/Session/Hello.antt =====
-- src/stm/hello.c: the two states in which a session negotiates the method of authentication.
-- The results of `recv` and `send` are arguments; `none` is a failed assertion or an access out of
-- bounds.
pub mod Negotiation
pub mod Answer
use pdc_20221c.Prelude.{
  ℕ, ◌+◌, Option, none, some, Bool, true, false, ◌||◌, not, List, ◌==◌, if◌then◌else◌, ◌>>=◌, ℤ,
  pos, negsuc, length,
}
use pdc_20221c.Buffer.{
  Buffer, buffer_can_read, buffer_write_ptr, buffer_read_ptr, buffer_write_adv, buffer_read_adv,
  fill,
}
use pdc_20221c.Parser.Hello.{
  HelloParser, HelloState, hello_parser_init, hello_consume, hello_is_done, hello_marshall,
  method_no_authentication_required, method_no_acceptable_methods, method_username_password,
}
use pdc_20221c.Selector.{
  FdSelector, SelectorStatus, selector_success, selector_set_interest, op_read, op_write,
}

-- `enum session_state`
abbrev pub hello_read_state : ℕ
hello_read_state = 0

abbrev pub hello_write_state : ℕ
hello_write_state = 1

abbrev pub request_read_state : ℕ
request_read_state = 2

abbrev pub error_state : ℕ
error_state = 6

abbrev pub auth_read_state : ℕ
auth_read_state = 8

-- What the handlers see of the session. `method` of `hello_st` is the byte that the parser's `data`
-- points to.
pub record HelloWorld (H D : Type 0) : Type 0 where
  pub parser : HelloParser
  pub input : Buffer
  pub output : Buffer
  pub selector : FdSelector H D

-- The callback of the parser.
unfoldable pub on_hello_method : ℕ → ℕ → ℕ
on_hello_method selected method =
    if selected == method_username_password
    then selected
    else if method == method_no_authentication_required || method == method_username_password
    then method
    else selected

module _ {H D : Type 0} where
  -- `method` keeps what the memory of the session had.
  unfoldable pub hello_arrival : HelloWorld H D → HelloWorld H D
  unfolding hello_parser_init on_hello_method
  hello_arrival w = record w {
    parser =
        hello_parser_init (record w.parser { on_authentication_method = some on_hello_method });
  }

  unfoldable pub hello_process : HelloWorld H D → Option (ℕ × HelloWorld H D)
  hello_process w = hello_marshall w.output w.parser.data_byte >>= λ (n, b). some (
    elim n [
      | negsuc _ ↦ error_state
      | pos _ ↦
          if w.parser.data_byte == method_no_acceptable_methods
          then error_state
          else hello_write_state
    ],
    record w { output = b },
  )

  -- `selector_set_interest_key` on the descriptor of the event.
  unfoldable pub hello_finished : HelloWorld H D → ℤ → Option (ℕ × HelloWorld H D)
  hello_finished w fd = selector_set_interest w.selector fd op_write >>= λ (st, s). elim st [
    | selector_success ↦ hello_process (record w { selector = s })
    | _ ↦ some (error_state, record w { selector = s })
  ]

  -- `received` is none where `recv` returned 0 or -1.
  unfoldable pub hello_read : HelloWorld H D → ℤ → Option (List ℕ) → Option (ℕ × HelloWorld H D)
  hello_read w fd none = buffer_write_ptr w.input >>= λ _. some (error_state, w)
  hello_read w fd (some bytes) = buffer_write_ptr w.input >>= λ _.
      buffer_write_adv (fill w.input bytes) (pos (length bytes)) >>= λ b.
      hello_consume b w.parser (some false) >>= λ (st, p, b', error).
      (if (hello_is_done st none).0
        then hello_finished (record w { parser = p; input = b' }) fd
        else some (hello_read_state, record w { parser = p; input = b' }))
      >>= λ (ret, w').
          some (elim error [ none ↦ ret | some e ↦ if e then error_state else ret ], w')

  -- `sent` is none where `send` returned -1.
  unfoldable pub hello_write : HelloWorld H D → ℤ → Option ℕ → Option (ℕ × HelloWorld H D)
  hello_write w fd none = buffer_read_ptr w.output >>= λ _. some (error_state, w)
  hello_write w fd (some n) = buffer_read_ptr w.output >>= λ _.
      buffer_read_adv w.output (pos n) >>= λ b.
      if buffer_can_read b
      then some (hello_write_state, record w { output = b })
      else (selector_set_interest w.selector fd op_read >>= λ (st, s). some (
        elim st [
          | selector_success ↦
              if w.parser.data_byte == method_username_password
              then auth_read_state
              else request_read_state
          | _ ↦ error_state
        ],
        record w { output = b; selector = s },
      ))
