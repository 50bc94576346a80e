-- ===== src/Tests/Parsers.antt =====
-- The parsers of src/parser/ on short messages.
use pdc_20221c.Prelude.{
  ℕ, ◌≡◌, refl, ap, ◌∙◌, Option, none, some, List, [], ◌∷◌, ◌++◌, pos, arith, Bool, length, slice,
  replicate, write_at,
}
use pdc_20221c.Buffer.{Buffer}
use pdc_20221c.Buffer.Contents.{Holds}
use pdc_20221c.Consume.{consume_bytes, consume}
use pdc_20221c.Consume.Refine.{Agrees, consume-Agrees}
use pdc_20221c.Consume.Pieces.{consume-append}
use pdc_20221c.Parser.Hello.{
  HelloParser, HelloState, hello_version, hello_nmethods, hello_done, hello_parser_init,
  hello_consume, hello_error_unsupported_version, feed_hello, hello_is_done, raise_flag,
}
use pdc_20221c.Parser.Auth.{AuthParser, auth_version, auth_consume}
use pdc_20221c.Parser.Auth.Message.{IsSized, auth_consume-overflow}
use pdc_20221c.Parser.Request.{
  RequestParser, request_version, request_done, prepared, request_consume,
}
use pdc_20221c.Parser.Request.Message.{after_request}
use pdc_20221c.Parser.Reply.{request_marshal}
use pdc_20221c.Parser.Reply.RoundTrip.{request_consume-request_marshal}
use pdc_20221c.Parser.Prawtos.{PrawtosParser, prawtos_type}

-- A buffer that is full of these bytes, and an empty one of 64 bytes.
abbrev pub holding : List ℕ → Buffer
holding bytes = record { storage = bytes; limit = length bytes; read = 0; write = length bytes }

slice-length : (bytes : List ℕ) → slice 0 (length bytes) bytes ≡ bytes
slice-length [] = refl
slice-length (c ∷ cs) = ap (λ t. c ∷ t) (slice-length cs)

pub holding-Holds : (bytes : List ℕ) → Holds (holding bytes) bytes
holding-Holds bytes = record {
  valid = record { read_le = omega arith; write_le = omega arith; stored = omega arith };
  bytes_eq = ap (λ k. slice 0 k bytes) (omega arith) ∙ slice-length bytes;
}

abbrev pub hello_start : HelloParser
hello_start = record {
  on_authentication_method = some (λ data_byte method. method);
  data_byte = 0xFF;
  state = hello_version;
  remaining = 0;
}

hello_is_done-flag :
    (s : HelloState) (e : Option Bool) → (hello_is_done s e).0 ≡ (hello_is_done s none).0
unfolding hello_is_done
hello_is_done-flag s e = ground arith

-- The first byte of a greeting, and then the other two.
consume-append_example :
    (result : Option (HelloState × HelloParser × Option Bool × List ℕ)) × Agrees 2 result (
      consume feed_hello hello_is_done
        (holding (1 ∷ 0 ∷ []))
        (record hello_start { state = hello_nmethods })
        hello_nmethods
        none)
    × Agrees 3 result (
        consume feed_hello hello_is_done
          (holding (0x05 ∷ 1 ∷ 0 ∷ []))
          hello_start
          hello_version
          none)
unfolding consume hello_is_done pdc_20221c.Parser.Hello.hello_parser_feed
    pdc_20221c.Buffer.buffer_read
consume-append_example =
    consume-append feed_hello hello_is_done hello_is_done-flag (0x05 ∷ []) (1 ∷ 0 ∷ [])
      (holding (0x05 ∷ [])) (record (holding (0x05 ∷ [])) { write = 0 }) (holding (1 ∷ 0 ∷ []))
      (holding (0x05 ∷ 1 ∷ 0 ∷ [])) hello_start (record hello_start { state = hello_nmethods })
      hello_version hello_nmethods none none (holding-Holds (0x05 ∷ []))
      (holding-Holds (1 ∷ 0 ∷ [])) (holding-Holds (0x05 ∷ 1 ∷ 0 ∷ [])) refl refl

consume_example :
    Agrees 3
      (consume_bytes feed_hello hello_is_done (0x05 ∷ 1 ∷ 0 ∷ []) hello_start hello_version none)
      (consume feed_hello hello_is_done
        (holding (0x05 ∷ 1 ∷ 0 ∷ []))
        hello_start
        hello_version
        none)
consume_example =
    consume-Agrees feed_hello hello_is_done (0x05 ∷ 1 ∷ 0 ∷ []) (holding (0x05 ∷ 1 ∷ 0 ∷ []))
      hello_start hello_version none (holding-Holds (0x05 ∷ 1 ∷ 0 ∷ []))

abbrev pub auth_start : AuthParser
auth_start = record {
  auth = record { ulen = 0; uname = replicate 255 0; plen = 0; passwd = replicate 255 0 };
  state = auth_version;
  n = 0;
  i = 0;
}

pub auth_start-IsSized : IsSized auth_start
auth_start-IsSized = record { uname_size = refl; passwd_size = refl }

auth_overflow_example :
    auth_consume (holding ((0x01 ∷ 255 ∷ replicate 255 97) ++ [])) auth_start none ≡ none
auth_overflow_example =
    auth_consume-overflow (holding ((0x01 ∷ 255 ∷ replicate 255 97) ++ [])) auth_start
      (replicate 255 97) [] none refl auth_start-IsSized refl
      (holding-Holds ((0x01 ∷ 255 ∷ replicate 255 97) ++ []))

abbrev pub request_start : RequestParser
request_start = record {
  request = record {
    cmd = 0;
    dest_addr_type = 0;
    dest_addr = replicate 256 0;
    dest_port = 0 ∷ 0 ∷ [];
  };
  state = request_version;
  n = 0;
  i = 0;
}

abbrev pub room_for : ℕ → Buffer
room_for n = record { storage = replicate n 0; limit = n; read = 0; write = 0 }

pub room_for-Holds : Holds (room_for 16) []
room_for-Holds = record {
  valid = record { read_le = omega arith; write_le = omega arith; stored = omega arith };
  bytes_eq = refl;
}

round_trip_example :
    (b1 : Buffer) × (request_marshal (room_for 16) 5 1 (replicate 256 0) (0 ∷ 80 ∷ [])
      ≡ some (pos 10, b1))
    × (b2 : Buffer) × (request_consume b1 request_start none
        ≡ some (
          request_done,
          after_request request_start 5 1
              (write_at
                (prepared 1 request_start.request.dest_addr)
                4
                (slice 4 4 (replicate 256 0)))
              0
              80,
          b2,
          none,
        ))
    × Holds b2 []
round_trip_example =
    request_consume-request_marshal (room_for 16) request_start 5 1 4 4 0 80 (replicate 256 0) none
      room_for-Holds refl refl (λ e. ground arith) refl (omega arith)

abbrev pub prawtos_start : PrawtosParser
prawtos_start = record {
  get_cmd = 0;
  user = record {
    cmd = 0;
    admin = 0;
    ulen = 0;
    uname = replicate 255 0;
    plen = 0;
    passwd = replicate 255 0;
  };
  type_byte = 0;
  state = prawtos_type;
  n = 0;
  i = 0;
}
