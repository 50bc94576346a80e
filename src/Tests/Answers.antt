-- ===== src/Tests/Answers.antt =====
-- The answers of src/parser/prawtos_parser.c.
use pdc_20221c.Prelude.{◌≡◌, none, [], arith, replicate}
use pdc_20221c.Parser.Prawtos.Answer.{get_marshal, get_marshal-overflow}
use pdc_20221c.Tests.Parsers.{room_for, room_for-Holds}

marshal_overflow_example : get_marshal (room_for 16) 0 3 1 (replicate 14 3) ≡ none
marshal_overflow_example =
    get_marshal-overflow (room_for 16) [] (replicate 13 3) 0 3 1 3 room_for-Holds (omega arith)
      (omega arith)
