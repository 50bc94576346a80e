-- ===== src/Tests/Sessions.antt =====
-- A session of src/stm/copy.c with the client at descriptor 0 and the server at descriptor 1.
use pdc_20221c.Prelude.{
  ℕ, ◌+◌, ◌≡◌, refl, Option, none, some, true, inl, inr, sym, List, [], ◌∷◌, ◌++◌, pos, arith,
}
use pdc_20221c.Selector.{FdSelector, Item, op_read}
use pdc_20221c.Selector.Invariant.{IsValid, replaced, replaced-IsValid}
use pdc_20221c.Session.Copy.{client, World}
use pdc_20221c.Session.Copy.Interest.{IsReady}
use pdc_20221c.Session.Copy.Flow.Run.{Event, readable, History, fits, track, handle, IsFlow}
use pdc_20221c.Session.Copy.Flow.Trace.{some-not_none, handle_lem, begins, goes_on, Reaches-flow}
use pdc_20221c.Tests.Parsers.{room_for, room_for-Holds}
use pdc_20221c.Tests.Selectors.{one_table, one_item, one_IsValid}

abbrev pub zero_item : Item ℕ ℕ
zero_item = record { fd = pos 0; interest = op_read; handler = some 7; attached = none }

abbrev pub both_table : FdSelector ℕ ℕ
both_table = replaced one_table 0 zero_item 1

pub both_IsValid : IsValid both_table
both_IsValid =
    replaced-IsValid one_table 0 zero_item 1 one_IsValid (omega arith) (omega arith)
      (λ _. (refl, omega arith, (7, refl))) (λ i item _ e used. (one_IsValid.filed i item e used).1)

-- The sniffer counts the bytes it is shown.
abbrev pub counting : ℕ → List ℕ → Option ℕ
counting s bytes = some (s + 1)

abbrev pub fresh : World ℕ ℕ ℕ
fresh = record {
  client_copy = record { fd = pos 0; reading = true; writing = true };
  server_copy = record { fd = pos 1; reading = true; writing = true };
  input = room_for 16;
  output = room_for 16;
  selector = both_table;
  stadistics = record { total_connections = 1; concurrent_connections = 1; bytes_sent = 0 };
  sniff = 0;
  shutdowns = [];
}

fresh-IsReady : IsReady fresh
fresh-IsReady = record {
  valid = both_IsValid;
  client_fd = 0;
  server_fd = 1;
  client_eq = refl;
  server_eq = refl;
  client_small = omega arith;
  server_small = omega arith;
  apart = λ e. ground arith;
  client_used = (zero_item, refl, refl);
  server_used = (one_item, refl, refl);
}

abbrev pub nothing : History
nothing = record { from_client = []; to_server = []; from_server = []; to_client = [] }

fresh-IsFlow : IsFlow fresh nothing
fresh-IsFlow = record {
  up = [];
  up_held = room_for-Holds;
  up_eq = refl;
  down = [];
  down_held = room_for-Holds;
  down_eq = refl;
}

-- Three bytes from the client.
abbrev pub three : Event
three = readable client (some (1 ∷ 2 ∷ 3 ∷ []))

-- The sniffer is shown nothing, and the handler returns.
three_run : (ret : ℕ) × ((w' : World ℕ ℕ ℕ) × (handle counting fresh three ≡ some (ret, w')))
unfolding fits
three_run = elim (handle_lem counting fresh three nothing fresh-IsReady fresh-IsFlow refl) [
  | inl (ret, (w', (run, served))) ↦ (ret, (w', run))
  | inr ((bytes, (seen, balks)), stuck) ↦ absurd (some-not_none bytes (sym seen))
]

Reaches-flow_example :
    ((up : List ℕ) × (1 ∷ 2 ∷ 3 ∷ [] ≡ [] ++ up)) × ((down : List ℕ) × ([] ≡ [] ++ down))
unfolding fits track
Reaches-flow_example =
    Reaches-flow counting fresh three_run.1.0 (track nothing fresh three) fresh-IsReady
      room_for-Holds room_for-Holds (goes_on begins three refl three_run.1.1)
