-- ===== src/Parser/Hello/Message.antt =====
-- What src/parser/hello_parser.c makes of a greeting.
use pdc_20221c.Prelude.{
  ℕ, suc, ◌<◌, ◌≡◌, ◌≢◌, refl, Option, some, Bool, List, [], ◌∷◌, ◌++◌, length, arith, ◌∙◌,
}
use mathlib.Core.List.{foldl}
use pdc_20221c.Buffer.{Buffer}
use pdc_20221c.Buffer.Contents.{Holds}
use pdc_20221c.Consume.{consume_bytes}
use pdc_20221c.Consume.Refine.{consume-Agrees}
use pdc_20221c.Consume.Bytes.{consume_bytes-more, consume_bytes-done}
use pdc_20221c.Parser.Hello.{
  HelloState, hello_version, hello_nmethods, hello_methods, hello_done,
  hello_error_unsupported_version, HelloParser, notify, hello_parser_feed, hello_is_done,
  feed_hello, hello_consume, raise_flag,
}

-- The parser's data after a list of methods.
abbrev pub noticed : HelloParser → List ℕ → ℕ
noticed p ms = foldl (notify p.on_authentication_method) p.data_byte ms

abbrev parse :
    List ℕ
    → HelloParser
    → HelloState
    → Option Bool
    → Option (HelloState × HelloParser × Option Bool × List ℕ)
parse = consume_bytes feed_hello hello_is_done

-- A method byte that others follow, and the last one.
method_more :
    (m k : ℕ) (p : HelloParser)
    → p.state ≡ hello_methods
    → p.remaining ≡ suc (suc k)
    → suc (suc k) < 256
    → feed_hello p m
      ≡ some (
        hello_methods,
        record p {
          state = hello_methods;
          remaining = suc k;
          data_byte = notify p.on_authentication_method p.data_byte m;
        },
      )
unfolding hello_parser_feed
method_more m k p e r lt = ground arith

method_last :
    (m : ℕ) (p : HelloParser)
    → p.state ≡ hello_methods
    → p.remaining ≡ 1
    → feed_hello p m
      ≡ some (
        hello_done,
        record p {
          state = hello_done;
          remaining = 0;
          data_byte = notify p.on_authentication_method p.data_byte m;
        },
      )
unfolding hello_parser_feed
method_last m p e r = ground arith

version_lem :
    (p : HelloParser)
    → p.state ≡ hello_version
    → feed_hello p 0x05 ≡ some (hello_nmethods, record p { state = hello_nmethods })
unfolding hello_parser_feed
version_lem p e = ground arith

nmethods_zero :
    (p : HelloParser)
    → p.state ≡ hello_nmethods
    → feed_hello p 0 ≡ some (hello_done, record p { state = hello_done; remaining = 0 })
unfolding hello_parser_feed
nmethods_zero p e = ground arith

nmethods_suc :
    (p : HelloParser) (n : ℕ)
    → p.state ≡ hello_nmethods
    → feed_hello p (suc n)
      ≡ some (hello_methods, record p { state = hello_methods; remaining = suc n })
unfolding hello_parser_feed
nmethods_suc p n e = ground arith

module _ (rest : List ℕ) (error : Option Bool) where
  methods_lem :
      (m : ℕ) (ms : List ℕ) (p : HelloParser) (st : HelloState)
      → p.state ≡ hello_methods
      → p.remaining ≡ length (m ∷ ms)
      → length (m ∷ ms) < 256
      → parse (m ∷ ms ++ rest) p st error
        ≡ some (
          hello_done,
          record p { state = hello_done; remaining = 0; data_byte = noticed p (m ∷ ms) },
          error,
          rest,
        )
  unfolding hello_is_done
  methods_lem m [] p st e r lt =
      consume_bytes-done feed_hello hello_is_done m rest p _ st hello_done error error
        (method_last m p e r) refl
  methods_lem m (m' ∷ ms) p st e r lt =
      consume_bytes-more feed_hello hello_is_done m (m' ∷ ms ++ rest) p _ st hello_methods error
        error (method_more m (length ms) p e r lt) refl
      ∙ methods_lem m' ms _ hello_methods refl refl (omega arith)

  -- A greeting VER NMETHODS METHODS, whatever follows it, ends the parser in `hello_done`: every
  -- method was presented to the callback, in order, and the bytes behind the message are left.
  pub message_lem :
      (ms : List ℕ) (p : HelloParser) (st : HelloState)
      → p.state ≡ hello_version
      → length ms < 256
      → parse (0x05 ∷ length ms ∷ ms ++ rest) p st error
        ≡ some (
          hello_done,
          record p { state = hello_done; remaining = 0; data_byte = noticed p ms },
          error,
          rest,
        )
  unfolding hello_is_done
  message_lem [] p st e lt =
      consume_bytes-more feed_hello hello_is_done 0x05 (0 ∷ rest) p _ st hello_nmethods error error
        (version_lem p e) refl
      ∙ consume_bytes-done feed_hello hello_is_done 0 rest _ _ hello_nmethods hello_done error error
          (nmethods_zero _ refl) refl
  message_lem (m ∷ ms) p st e lt =
      consume_bytes-more feed_hello hello_is_done 0x05 (length (m ∷ ms) ∷ (m ∷ ms) ++ rest) p _ st
        hello_nmethods error error (version_lem p e) refl
      ∙ consume_bytes-more feed_hello hello_is_done (length (m ∷ ms)) ((m ∷ ms) ++ rest) _ _
          hello_nmethods hello_methods error error (nmethods_suc _ (length ms) refl) refl
      ∙ methods_lem m ms _ hello_methods refl refl lt

-- A first byte other than 5 ends the parser in the error state after that byte, raises the flag, and
-- leaves the other bytes.
version_error :
    (c : ℕ) (cs : List ℕ) (p : HelloParser) (st : HelloState) (error : Option Bool)
    → p.state ≡ hello_version
    → c ≢ 0x05
    → parse (c ∷ cs) p st error
      ≡ some (
        hello_error_unsupported_version,
        record p { state = hello_error_unsupported_version },
        raise_flag error,
        cs,
      )
unfolding hello_is_done hello_parser_feed consume_bytes
version_error c cs p st error e ne = ground arith

-- `hello_consume` over a buffer that holds a greeting and perhaps more bytes: no assertion fails,
-- the parser ends in `hello_done` with all methods presented in order, the caller's flag stays as
-- it was, and the buffer holds what follows the greeting.
pub hello_consume-message :
    (b : Buffer) (p : HelloParser) (ms rest : List ℕ) (error : Option Bool)
    → p.state ≡ hello_version
    → length ms < 256
    → Holds b (0x05 ∷ length ms ∷ ms ++ rest)
    → (b' : Buffer) × (hello_consume b p error
        ≡ some (
          hello_done,
          record p { state = hello_done; remaining = 0; data_byte = noticed p ms },
          b',
          error,
        ))
      × Holds b' rest
      × (b'.limit ≡ b.limit)
unfolding hello_consume
hello_consume-message b p ms rest error e lt h =
    rw (message_lem rest error ms p p.state e lt) at
      (consume-Agrees feed_hello hello_is_done _ b p p.state error h)
