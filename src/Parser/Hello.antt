-- ===== src/Parser/Hello.antt =====
-- src/parser/hello_parser.c and include/parser/hello_parser.h: the client's greeting.
pub mod Message
use Prim.Native.String.{String}
use pdc_20221c.Prelude.{
  ℕ, ◌+◌, ◌%◌, Option, none, some, Bool, true, false, [], ◌∷◌, ltb, ◌==◌, if◌then◌else◌, ◌>>=◌, ℤ,
  pos, negsuc,
}
use pdc_20221c.Buffer.{Buffer, buffer_write_ptr, buffer_write_adv, fill}
use pdc_20221c.Consume.{consume}

abbrev pub method_no_authentication_required : ℕ
method_no_authentication_required = 0x00

abbrev pub method_no_acceptable_methods : ℕ
method_no_acceptable_methods = 0xFF

abbrev pub method_username_password : ℕ
method_username_password = 0x02

-- `enum hello_state`
pub data HelloState : Type 0 where
  hello_version hello_nmethods hello_methods hello_done hello_error_unsupported_version : HelloState

-- `struct hello_parser`. `data` is the byte behind the pointer of that name, and the callback gives
-- it its new value. `remaining` is a `uint8_t`.
pub record HelloParser : Type 0 where
  pub on_authentication_method : Option (ℕ → ℕ → ℕ)
  pub data_byte : ℕ
  pub state : HelloState
  pub remaining : ℕ

unfoldable pub hello_parser_init : HelloParser → HelloParser
hello_parser_init p = record p { state = hello_version; remaining = 0 }

-- The callback, unless the pointer is null.
abbrev pub notify : Option (ℕ → ℕ → ℕ) → ℕ → ℕ → ℕ
notify none d b = d
notify (some f) d b = f d b

dispatch : HelloState → HelloParser → ℕ → HelloParser
dispatch hello_version p b =
    if b == 0x05
    then record p { state = hello_nmethods }
    else record p { state = hello_error_unsupported_version }
dispatch hello_nmethods p b =
    if b == 0
    then record p { remaining = b; state = hello_done }
    else record p { remaining = b; state = hello_methods }
dispatch hello_methods p b =
    let left = (p.remaining + 255) % 256 in
    let told = record p {
      data_byte = notify p.on_authentication_method p.data_byte b;
      remaining = left;
    } in
    if left == 0 then record told { state = hello_done } else told
dispatch hello_done p b = p
dispatch hello_error_unsupported_version p b = p

-- The `default` branch aborts on a value outside the enumeration, which the model does not have.
unfoldable pub hello_parser_feed : HelloParser → ℕ → HelloState × HelloParser
unfolding dispatch
hello_parser_feed p b = let p' = dispatch p.state p b in (p'.state, p')

-- `*error = true`, unless `error` is null.
abbrev pub raise_flag : Option Bool → Option Bool
raise_flag none = none
raise_flag (some _) = some true

unfoldable pub hello_is_done : HelloState → Option Bool → Bool × Option Bool
hello_is_done hello_error_unsupported_version error = (true, raise_flag error)
hello_is_done hello_done error = (true, error)
hello_is_done _ error = (false, error)

-- The parser's step as the loop takes it: no access of it can leave an array.
abbrev pub feed_hello : HelloParser → ℕ → Option (HelloState × HelloParser)
feed_hello p b = some (hello_parser_feed p b)

unfoldable pub hello_consume :
    Buffer → HelloParser → Option Bool → Option (HelloState × HelloParser × Buffer × Option Bool)
unfolding consume
hello_consume b p error = consume feed_hello hello_is_done b p p.state error

-- The number of bytes of the answer, or -1.
unfoldable pub hello_marshall : Buffer → ℕ → Option (ℤ × Buffer)
unfolding buffer_write_ptr buffer_write_adv fill
hello_marshall b method = do
  (buf, n) ← buffer_write_ptr b
  if ltb n 2
      then some (negsuc 0, b)
      else do b' ← buffer_write_adv (fill b (0x05 ∷ method ∷ [])) (pos 2); some (pos 2, b')

unfoldable pub hello_error : HelloParser → String
hello_error p = elim p.state [ hello_error_unsupported_version ↦ "unsupported version" | _ ↦ "" ]
