-- ===== src/Tests/Sniffers.antt =====
-- A sniffer of src/stm/copy.c that has not begun.
use pdc_20221c.Prelude.{ℕ, Option, some, false, [], ◌+◌}
use pdc_20221c.Buffer.{Buffer, buffer_init}
use pdc_20221c.Session.Copy.Sniffer.{Pop3Sniff}

abbrev pub unbegun : Pop3Sniff
unbegun = record {
  state = 0;
  buffer = buffer_init 0 [];
  username = [];
  password = [];
  read = 0;
  remaining = 0;
  check_read = 0;
  check_remaining = 0;
  parsing = false;
}

-- It leaves its bytes and counts its calls.
abbrev pub count_calls : Pop3Sniff → ℕ → Option (Pop3Sniff × ℕ)
count_calls sniff calls = some (sniff, calls + 1)
