-- ===== src/Tests/Requests.antt =====
-- Requests that the handlers of src/stm/request.c read, carry out and answer.
use pdc_20221c.Prelude.{
  ℕ, ◌≡◌, refl, none, some, true, false, List, [], ◌∷◌, pos, negsuc, replicate, arith,
}
use pdc_20221c.Buffer.Contents.{Holds}
use pdc_20221c.Parser.Reply.{address_bytes, status_succeeded}
use pdc_20221c.Selector.{selector_fd_set_nio}
use pdc_20221c.Selector.Invariant.{IsValid}
use pdc_20221c.Session.Request.{
  RequestWorld, Attempt, request_connect, request_connecting, request_write, request_write_state,
  einprogress,
}
use pdc_20221c.Session.Request.Answer.{request_write_lem}
use pdc_20221c.Session.Request.Connect.{
  IsOpening, Pending, Refused, IsAnswered, reply_code, reply_codes, request_connect-Pending,
  request_connect-failed, request_connecting_lem,
}
use pdc_20221c.Tests.Parsers.{room_for, room_for-Holds, request_start, holding, holding-Holds}
use pdc_20221c.Tests.Selectors.{one_table, one_item, one_IsValid}
use pdc_20221c.Tests.Sessions.{both_table, both_IsValid, zero_item}

-- A session that waits for a request, with the client at descriptor 1.
abbrev pub asking : RequestWorld ℕ ℕ
asking = record {
  parser = request_start;
  status = 1;
  state_fd = negsuc 0;
  client_fd = pos 1;
  server = record { fd = negsuc 0; address = replicate 128 5; domain = 5; address_len = 5 };
  arrived = false;
  input = room_for 16;
  output = room_for 16;
  selector = one_table;
}

-- `socket` returns 7, and `connect` fails with this number.
abbrev pub attempt : ℕ → Attempt
attempt errno = record {
  closed = true;
  socket_fd = pos 7;
  getfd = some 0;
  setfl = λ _. true;
  connected = some errno;
  got_memory = true;
}

asking-IsOpening : (errno : ℕ) → IsOpening asking 1 7 (attempt errno)
unfolding selector_fd_set_nio
asking-IsOpening errno = record {
  valid = one_IsValid;
  small = omega arith;
  used = (one_item, refl, refl);
  fresh = refl;
  socket_eq = refl;
  socket_small = omega arith;
  not_size = λ e. ground arith;
  other = λ e. ground arith;
  nio = refl;
}

request_connect_example :
    (ret : ℕ) × ((w' : RequestWorld ℕ ℕ) × (request_connect 9 none asking
          (pos 1)
          (attempt einprogress)
        ≡ some (ret, w'))
      × IsValid w'.selector
      × (w'.server.fd ≡ pos 7)
      × (w'.output ≡ asking.output)
      × Pending 9 none asking w' (attempt einprogress) 1 7 ret)
request_connect_example =
    request_connect-Pending 9 none asking 1 7 (attempt einprogress) (asking-IsOpening einprogress)
      refl

-- The request was for an IPv4 address.
abbrev pub asked : RequestWorld ℕ ℕ
asked = record asking {
  parser = record request_start {
    request = record request_start.request { cmd = 1; dest_addr_type = 1 };
  };
}

asked-IsOpening : (errno : ℕ) → IsOpening asked 1 7 (attempt errno)
unfolding selector_fd_set_nio
asked-IsOpening errno = record {
  valid = one_IsValid;
  small = omega arith;
  used = (one_item, refl, refl);
  fresh = refl;
  socket_eq = refl;
  socket_small = omega arith;
  not_size = λ e. ground arith;
  other = λ e. ground arith;
  nio = refl;
}

-- The connection is refused at once.
failed_connect_example :
    (ret : ℕ) × ((w' : RequestWorld ℕ ℕ) × (request_connect 9 none asked (pos 1) (attempt 111)
        ≡ some (ret, w'))
      × IsValid w'.selector
      × (w'.status ≡ reply_code reply_codes 111)
      × IsAnswered asked w' (0 ∷ 0 ∷ 0 ∷ 0 ∷ [])
      × Refused 9 none asked w' (attempt 111) 1 7 ret)
unfolding address_bytes
failed_connect_example =
    request_connect-failed 9 none asked 1 7 111 (attempt 111) (0 ∷ 0 ∷ 0 ∷ 0 ∷ [])
      (asked-IsOpening 111) refl refl (λ e. ground arith) room_for-Holds refl refl (omega arith)

-- Both descriptors are registered, and `connect` has an end.
abbrev pub connecting : RequestWorld ℕ ℕ
connecting = record asked {
  client_fd = pos 0;
  server = record asking.server { fd = pos 1 };
  arrived = true;
  selector = both_table;
}

request_connecting_example :
    (w' : RequestWorld ℕ ℕ) × (request_connecting connecting (some 0)
      ≡ some (request_write_state, w'))
    × IsValid w'.selector
    × (w'.status ≡ status_succeeded)
    × IsAnswered connecting w' (0 ∷ 0 ∷ 0 ∷ 0 ∷ [])
    × (w'.selector.master_w 0 ≡ true)
    × (w'.selector.master_r 0 ≡ false)
    × (w'.selector.master_r 1 ≡ true)
    × (w'.selector.master_w 1 ≡ false)
unfolding address_bytes
request_connecting_example =
    request_connecting_lem connecting 0 1 0 (0 ∷ 0 ∷ 0 ∷ 0 ∷ []) refl refl refl (λ e. ground arith)
      (omega arith) (omega arith) both_IsValid (zero_item, refl, refl) (one_item, refl, refl)
      room_for-Holds refl refl (omega arith)

-- Two bytes of an answer of three are sent.
abbrev pub replying : RequestWorld ℕ ℕ
replying = record asked { output = holding (5 ∷ 0 ∷ 0 ∷ []) }

request_write_example :
    (w' : RequestWorld ℕ ℕ) × (request_write replying (pos 1) (some 2)
      ≡ some (request_write_state, w'))
    × Holds w'.output (0 ∷ [])
    × (w'.status ≡ 1)
    × (◌≡◌ {A = List ℕ} (0 ∷ []) [] → w'.selector.master_r 1 ≡ true)
request_write_example =
    request_write_lem replying 1 (5 ∷ 0 ∷ []) (0 ∷ []) (holding-Holds (5 ∷ 0 ∷ 0 ∷ [])) one_IsValid
      (omega arith) (one_item, refl, refl)
