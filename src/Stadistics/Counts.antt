-- ===== src/Stadistics/Counts.antt =====
-- What the counters of src/stadistics.c count over a run of the server.
use pdc_20221c.Prelude.{ℕ, ◌+◌, ◌≤◌, ◌<◌, ◌≡◌, ap, List, [], ◌∷◌, arith, min, ◌∙◌}
use pdc_20221c.Stadistics.{
  Stadistics, stadistics_increase_concurrent, stadistics_decrease_concurrent,
  stadistics_increase_bytes_sent, get_total_connections, get_bytes_sent, uint16_max, uint32_max,
}

-- What the rest of the program does to the counters.
pub data Event : Type 0 where
  opened closed : Event
  sent : ℕ → Event

unfoldable pub count : Stadistics → Event → Stadistics
unfolding stadistics_increase_concurrent stadistics_decrease_concurrent
    stadistics_increase_bytes_sent
count s opened = stadistics_increase_concurrent s
count s closed = stadistics_decrease_concurrent s
count s (sent n) = stadistics_increase_bytes_sent n s

unfoldable pub count_all : Stadistics → List Event → Stadistics
unfolding count
count_all s [] = s
count_all s (e ∷ es) = count_all (count s e) es

-- Each counter fits its C type, and no more connections are open than were ever opened.
pub record InRange (s : Stadistics) : Type 0 where
  pub concurrent_le : s.concurrent_connections ≤ s.total_connections
  pub total_le : s.total_connections ≤ uint16_max
  pub sent_le : s.bytes_sent ≤ uint32_max

count-InRange : (s : Stadistics) (e : Event) → InRange s → InRange (count s e)
unfolding count stadistics_increase_concurrent stadistics_decrease_concurrent
    stadistics_increase_bytes_sent
count-InRange s opened v = ground (arith, v.concurrent_le, v.total_le, v.sent_le)
count-InRange s closed v = ground (arith, v.concurrent_le, v.total_le, v.sent_le)
count-InRange s (sent n) v = ground (arith, v.concurrent_le, v.total_le, v.sent_le)

-- Over any run the counters fit their C types, and the open connections are at most those opened.
pub count_all-InRange : (es : List Event) (s : Stadistics) → InRange s → InRange (count_all s es)
unfolding count_all
count_all-InRange [] s v = v
count_all-InRange (e ∷ es) s v = count_all-InRange es (count s e) (count-InRange s e v)

-- The connections opened in a run, and the bytes sent.
abbrev pub opened_in : List Event → ℕ
opened_in [] = 0
opened_in (opened ∷ es) = 1 + opened_in es
opened_in (closed ∷ es) = opened_in es
opened_in (sent n ∷ es) = opened_in es

abbrev pub sent_in : List Event → ℕ
sent_in [] = 0
sent_in (opened ∷ es) = sent_in es
sent_in (closed ∷ es) = sent_in es
sent_in (sent n ∷ es) = n + sent_in es

-- The counter of all connections stops at its largest value.
total_connections_lem :
    (es : List Event) (s : Stadistics)
    → InRange s
    → get_total_connections (count_all s es) ≡ min (s.total_connections + opened_in es) uint16_max
unfolding get_total_connections count_all count stadistics_increase_concurrent
    stadistics_decrease_concurrent stadistics_increase_bytes_sent
total_connections_lem [] s v = omega (arith, v.total_le)
total_connections_lem (e ∷ es) s v =
    total_connections_lem es (count s e) (count-InRange s e v) ∙ step e
  where
    step :
        (e : Event)
        → min ((count s e).total_connections + opened_in es) uint16_max
          ≡ min (s.total_connections + opened_in (e ∷ es)) uint16_max
    step opened = ground arith
    step closed = ground arith
    step (sent n) = ground arith

closed_bytes : (s : Stadistics) → (stadistics_decrease_concurrent s).bytes_sent ≡ s.bytes_sent
unfolding stadistics_decrease_concurrent
closed_bytes s = ground arith

sent_bytes :
    (n : ℕ) (s : Stadistics)
    → s.bytes_sent + n < uint32_max
    → (stadistics_increase_bytes_sent n s).bytes_sent ≡ s.bytes_sent + n
unfolding stadistics_increase_bytes_sent
sent_bytes n s h = ground arith

-- As long as the sum of the bytes stays below the limit of the counter, it is their sum.
bytes_sent_lem :
    (es : List Event) (s : Stadistics)
    → s.bytes_sent + sent_in es < uint32_max
    → get_bytes_sent (count_all s es) ≡ s.bytes_sent + sent_in es
unfolding get_bytes_sent count_all count stadistics_increase_concurrent
bytes_sent_lem [] s h = omega arith
bytes_sent_lem (opened ∷ es) s h = bytes_sent_lem es (stadistics_increase_concurrent s) h
bytes_sent_lem (closed ∷ es) s h =
    bytes_sent_lem es (stadistics_decrease_concurrent s) (rw (closed_bytes s) h)
    ∙ ap (λ k. k + sent_in es) (closed_bytes s)
bytes_sent_lem (sent n ∷ es) s h =
    bytes_sent_lem es (stadistics_increase_bytes_sent n s)
      (omega (arith, sent_bytes n s (omega arith)))
    ∙ omega (arith, sent_bytes n s (omega arith))
