-- ===== src/Tests/Greetings.antt =====
-- A greeting that the handlers of src/stm/hello.c answer.
use pdc_20221c.Prelude.{
  List, ℕ, ◌≡◌, refl, some, true, false, [], ◌∷◌, pos, arith, ◌==◌, if◌then◌else◌,
}
use pdc_20221c.Buffer.Contents.{Holds}
use pdc_20221c.Parser.Hello.{hello_version}
use pdc_20221c.Session.Hello.{
  HelloWorld, on_hello_method, hello_read, hello_write, hello_write_state, error_state,
}
use pdc_20221c.Session.Hello.Answer.{hello_write_lem}
use pdc_20221c.Session.Hello.Negotiation.{chosen, hello_read_lem}
use pdc_20221c.Tests.Parsers.{room_for, room_for-Holds}
use pdc_20221c.Tests.Selectors.{one_table, one_item, one_IsValid}

-- The memory of a new session is filled with the byte 5.
abbrev pub waiting : HelloWorld ℕ ℕ
waiting = record {
  parser = record {
    on_authentication_method = some on_hello_method;
    data_byte = 5;
    state = hello_version;
    remaining = 0;
  };
  input = room_for 16;
  output = room_for 16;
  selector = one_table;
}

hello_read_example :
    (w' : HelloWorld ℕ ℕ) × (hello_read waiting (pos 1) (some (0x05 ∷ 1 ∷ 0 ∷ []))
      ≡ some (if chosen (0 ∷ []) 5 == 0xFF then error_state else hello_write_state, w'))
    × Holds w'.output (0x05 ∷ chosen (0 ∷ []) 5 ∷ [])
    × Holds w'.input []
    × (w'.selector.master_w 1 ≡ true)
    × (w'.selector.master_r 1 ≡ false)
hello_read_example =
    hello_read_lem waiting 1 (0 ∷ []) [] refl refl room_for-Holds room_for-Holds (omega arith)
      (omega arith) (omega arith) one_IsValid (omega arith) (one_item, refl, refl)

abbrev pub answering : HelloWorld ℕ ℕ
answering = record waiting {
  output = record { storage = 0x05 ∷ 0 ∷ []; limit = 2; read = 0; write = 2 };
}

answering-Holds : Holds answering.output (0x05 ∷ 0 ∷ [])
answering-Holds = record {
  valid = record { read_le = omega arith; write_le = omega arith; stored = omega arith };
  bytes_eq = refl;
}

hello_write_example :
    (w' : HelloWorld ℕ ℕ) × (hello_write answering (pos 1) (some 1) ≡ some (hello_write_state, w'))
    × Holds w'.output (0 ∷ [])
    × (w'.parser ≡ answering.parser)
    × (◌≡◌ {A = List ℕ} (0 ∷ []) [] → w'.selector.master_r 1 ≡ true)
hello_write_example =
    hello_write_lem answering 1 (0x05 ∷ []) (0 ∷ []) answering-Holds one_IsValid (omega arith)
      (one_item, refl, refl)
