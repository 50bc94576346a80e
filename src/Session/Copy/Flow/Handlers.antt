-- ===== src/Session/Copy/Flow/Handlers.antt =====
-- What the handlers of src/stm/copy.c take in and give out.
use pdc_20221c.Prelude.{
  ℕ, ◌≡◌, ◌⊎◌, inl, inr, ◌>>=◌, refl, ap, ◌∙◌, sym, Option, none, some, true, pos, List, ◌++◌, drop,
  slice,
}
use mathlib.Core.List.{append_assoc}
use pdc_20221c.Session.Copy.{
  Side, client, server, other, World, read_buff, write_buff, stop_reading, stop_writing, settle,
  copy_read, copy_write, take_in, give_out,
}
use pdc_20221c.Session.Copy.Interest.{IsReady}
use pdc_20221c.Session.Copy.Flow.{
  fd_at, client_apart, sniffed_client, sniffed_server, read_run, write_run,
}
use pdc_20221c.Stadistics.{stadistics_increase_bytes_sent}
use pdc_20221c.Session.Copy.Flow.Run.{
  Event, readable, writable, History, fits, track, shown, IsFlow, kin-IsReady, kin-IsFlow,
  stop_reading-IsKin, stop_writing-IsKin, held_more, held_less, IsReady-like,
}

-- What was received is still what was sent and what waits, with more received or more sent.
received_more :
    (got sent waits new : List ℕ) → got ≡ sent ++ waits → got ++ new ≡ sent ++ (waits ++ new)
received_more got sent waits new e = ap (λ t. t ++ new) e ∙ append_assoc sent waits new

sent_more :
    (got sent waits first rest : List ℕ)
    → got ≡ sent ++ waits
    → first ++ rest ≡ waits
    → got ≡ (sent ++ first) ++ rest
sent_more got sent waits first rest e split =
    e ∙ ap (λ t. sent ++ t) (sym split) ∙ sym (append_assoc sent first rest)

module _ {H D W : Type 0} (pop3sniff : W → List ℕ → Option W) where
  -- What is taken in or given out leaves the ends registered and the bytes accounted for.
  abbrev Kept : World H D W → Event → History → Option (World H D W) → Type 0
  Kept w e h run = (w1 : World H D W) × ((run ≡ some w1) × IsReady w1 × IsFlow w1 (track h w e))

  -- The sniffer does not return on what it is shown.
  abbrev pub Balks : World H D W → Event → Type 0
  Balks w e = (bytes : List ℕ) × ((shown w e ≡ some bytes) × (pop3sniff w.sniff bytes ≡ none))

  abbrev pub Result : World H D W → Event → History → Option (World H D W) → Type 0
  Result w e h run = Kept w e h run ⊎ (Balks w e × (run ≡ none))

  pub take_in_lem :
      (w : World H D W) (side : Side) (received : Option (List ℕ)) (h : History) (v : IsReady w)
      → IsFlow w h
      → fits w (readable side received) ≡ true
      → Result w
          (readable side received)
          h
          (take_in pop3sniff w side (pos (fd_at w v side)) received)
  unfolding take_in track fits
  take_in_lem w side none h v f fit =
      let kin = stop_reading-IsKin w side in
      inl (
        stop_reading w side,
        (
          refl,
          kin-IsReady w (stop_reading w side) kin v,
          kin-IsFlow w (stop_reading w side) h kin f,
        ),
      )
  take_in_lem w client (some new) h v f fit =
      let sniff = sniffed_client pop3sniff w v.client_fd new (client_apart w v) in
      let (b, adv, held) = held_more w.input f.up new f.up_held fit in
      inl (
        record w { input = b },
        (
          rw (sniff, adv) refl,
          IsReady-like w b w.output w.stadistics w.sniff v,
          record {
            up = f.up ++ new;
            up_held = held;
            up_eq = received_more h.from_client h.to_server f.up new f.up_eq;
            down = f.down;
            down_held = f.down_held;
            down_eq = f.down_eq;
          },
        ),
      )
  take_in_lem w server (some new) h v f fit =
      elim (sniffed_server pop3sniff w v.server_fd new v.server_eq) [
        | inl (balks, sniff) ↦ inr ((new, (refl, balks)), rw sniff refl)
        | inr (s, sniff) ↦
            let (b, adv, held) = held_more w.output f.down new f.down_held fit in
            inl (
              record w { sniff = s; output = b },
              (
                rw (sniff, adv) refl,
                IsReady-like w w.input b w.stadistics s v,
                record {
                  up = f.up;
                  up_held = f.up_held;
                  up_eq = f.up_eq;
                  down = f.down ++ new;
                  down_held = held;
                  down_eq = received_more h.from_server h.to_client f.down new f.down_eq;
                },
              ),
            )
      ]

  pub read_step :
      (w : World H D W) (v : IsReady w) (side : Side) (received : Option (List ℕ)) {h : History}
      → IsFlow w h
      → copy_read pop3sniff w (pos (fd_at w v side)) received
        ≡ (take_in pop3sniff w side (pos (fd_at w v side)) received >>= λ w1. settle w1 side)
  unfolding read_buff
  read_step w v client received f = read_run pop3sniff w v client f.up received f.up_held
  read_step w v server received f = read_run pop3sniff w v server f.down received f.down_held

  pub write_step :
      (w : World H D W) (v : IsReady w) (side : Side) (sent : Option ℕ) {h : History}
      → IsFlow w h
      → copy_write pop3sniff w (pos (fd_at w v side)) sent ≡ (
          give_out pop3sniff w side (pos (fd_at w v side)) (write_buff w side).read sent >>= λ w1.
          settle w1 side)
  unfolding write_buff read_buff other
  write_step w v client sent f = write_run pop3sniff w v client f.down sent f.down_held
  write_step w v server sent f = write_run pop3sniff w v server f.up sent f.up_held

  pub give_out_lem :
      (w : World H D W) (side : Side) (sent : Option ℕ) (h : History) (v : IsReady w)
      → IsFlow w h
      → fits w (writable side sent) ≡ true
      → Result w
          (writable side sent)
          h
          (give_out pop3sniff w side (pos (fd_at w v side)) (write_buff w side).read sent)
  unfolding give_out track fits
  give_out_lem w side none h v f fit =
      let kin = stop_writing-IsKin w side in
      inl (
        stop_writing w side,
        (
          refl,
          kin-IsReady w (stop_writing w side) kin v,
          kin-IsFlow w (stop_writing w side) h kin f,
        ),
      )
  give_out_lem w client (some n) h v f fit =
      let counted : World H D W = record w {
        stadistics = stadistics_increase_bytes_sent n w.stadistics;
      } in
      let bytes = slice w.output.read n w.output.storage in
      let sniff = sniffed_client pop3sniff counted v.client_fd bytes (client_apart w v) in
      let (b, adv, held, split) = held_less w.output f.down n f.down_held fit in
      inl (
        record counted { output = b },
        (
          rw (sniff, adv) refl,
          IsReady-like w w.input b (stadistics_increase_bytes_sent n w.stadistics) w.sniff v,
          record {
            up = f.up;
            up_held = f.up_held;
            up_eq = f.up_eq;
            down = drop n f.down;
            down_held = held;
            down_eq = sent_more h.from_server h.to_client f.down _ (drop n f.down) f.down_eq split;
          },
        ),
      )
  give_out_lem w server (some n) h v f fit =
      let counted : World H D W = record w {
        stadistics = stadistics_increase_bytes_sent n w.stadistics;
      } in
      let bytes = slice w.input.read n w.input.storage in
      elim (sniffed_server pop3sniff counted v.server_fd bytes v.server_eq) [
        | inl (balks, sniff) ↦ inr ((bytes, (refl, balks)), rw sniff refl)
        | inr (s, sniff) ↦
            let (b, adv, held, split) = held_less w.input f.up n f.up_held fit in
            inl (
              record counted { sniff = s; input = b },
              (
                rw (sniff, adv) refl,
                IsReady-like w b w.output (stadistics_increase_bytes_sent n w.stadistics) s v,
                record {
                  up = drop n f.up;
                  up_held = held;
                  up_eq = sent_more h.from_client h.to_server f.up _ (drop n f.up) f.up_eq split;
                  down = f.down;
                  down_held = f.down_held;
                  down_eq = f.down_eq;
                },
              ),
            )
      ]
