-- ===== src/Session/Copy/Flow/Trace.antt =====
-- Events, and runs of events, in the copy state of src/stm/copy.c.
use pdc_20221c.Prelude.{
  ℕ, ◌≡◌, refl, ap, ◌∙◌, sym, Option, none, some, true, ◌⊎◌, inl, inr, ◌>>=◌, arith, List, [], ◌++◌,
}
use mathlib.Core.Option.{some-injective}
use pdc_20221c.Buffer.Contents.{Holds}
use pdc_20221c.Session.Copy.{World, Side, settle}
use pdc_20221c.Session.Copy.Interest.{IsReady}
use pdc_20221c.Session.Copy.Flow.{fd_at_lem}
use pdc_20221c.Session.Copy.Flow.Run.{
  Event, readable, writable, History, fits, track, shown, handle, IsFlow, IsServed, finish,
}
use pdc_20221c.Session.Copy.Flow.Handlers.{
  Balks, Result, take_in_lem, give_out_lem, read_step, write_step,
}

pub some-not_none : {A : Type 0} (x : A) → ◌≡◌ {A = Option A} (some x) none → ⊥
some-not_none x e = ground arith

same_result :
    {A : Type 0} {B : Type 0} {x x' : A} {y y' : B} (run : Option (A × B))
    → run ≡ some (x, y)
    → run ≡ some (x', y')
    → y ≡ y'
same_result run e e' = ap (λ p. p.1) (some-injective _ _ (sym e ∙ e'))

module _ {H D W : Type 0} (pop3sniff : W → List ℕ → Option W) where
  -- The handler returns with the bytes accounted for, or the sniffer does not return.
  abbrev Handled : World H D W → Event → History → Option (ℕ × World H D W) → Type 0
  Handled w e h run =
      ((ret : ℕ) × ((w' : World H D W) × ((run ≡ some (ret, w')) × IsServed w' (track h w e))))
      ⊎ (Balks pop3sniff w e × (run ≡ none))

  settled_lem :
      (w : World H D W) (e : Event) (h : History) (side : Side) (run : Option (World H D W))
      (whole : Option (ℕ × World H D W))
      → whole ≡ (run >>= λ w1. settle w1 side)
      → Result pop3sniff w e h run
      → Handled w e h whole
  settled_lem w e h side run whole eq (inl (w1, (ran, v1, f1))) =
      let (ret, (w', (settled, served))) = finish w1 side (track h w e) v1 f1 in
      inl (ret, (w', (rw (eq, ran) settled, served)))
  settled_lem w e h side run whole eq (inr (balks, stuck)) = inr (balks, rw (eq, stuck) refl)

  pub handle_lem :
      (w : World H D W) (e : Event) (h : History)
      → IsReady w
      → IsFlow w h
      → fits w e ≡ true
      → ((ret : ℕ) × ((w' : World H D W) × ((handle pop3sniff w e ≡ some (ret, w'))
              × IsServed w' (track h w e))))
        ⊎ (((bytes : List ℕ) × ((shown w e ≡ some bytes) × (pop3sniff w.sniff bytes ≡ none)))
            × (handle pop3sniff w e ≡ none))
  unfolding handle
  handle_lem w (readable side received) h v f fit =
      settled_lem w (readable side received) h side _ _
        (rw (fd_at_lem w v side) (read_step pop3sniff w v side received f))
        (take_in_lem pop3sniff w side received h v f fit)
  handle_lem w (writable side sent) h v f fit =
      settled_lem w (writable side sent) h side _ _
        (rw (fd_at_lem w v side) (write_step pop3sniff w v side sent f))
        (give_out_lem pop3sniff w side sent h v f fit)

  -- What a session can come to from `start` by events that fit, with all that went through it.
  pub data Reaches (start : World H D W) : World H D W → History → Type 0 where
    begins :
        Reaches start start
          (record { from_client = []; to_server = []; from_server = []; to_client = [] })
    goes_on :
        {w w' : World H D W} {h : History} {ret : ℕ}
        → Reaches start w h
        → (e : Event) → fits w e ≡ true
        → handle pop3sniff w e ≡ some (ret, w')
        → Reaches start w' (track h w e)

  reached :
      (start w : World H D W) (h : History)
      → IsReady start
      → Holds start.input []
      → Holds start.output []
      → Reaches start w h
      → IsReady w × IsFlow w h
  reached start w h v empty_in empty_out begins = (
    v,
    record {
      up = [];
      up_held = empty_in;
      up_eq = refl;
      down = [];
      down_held = empty_out;
      down_eq = refl;
    },
  )
  reached start w h v empty_in empty_out (goes_on {w = before} {h = passed} so_far e fit run) =
      let (v1, f1) = reached start before passed v empty_in empty_out so_far in
      elim (handle_lem before e passed v1 f1 fit) [
        | inl (ret, (w1, (run1, served))) ↦
            rw (← same_result (handle pop3sniff before e) run1 run) (served.ready, served.flow)
        | inr (balks, stuck) ↦ absurd (some-not_none _ (sym run ∙ stuck))
      ]

  -- In every session that a fresh one can come to, with two registered ends and empty buffers at the
  -- start, by events whose results `recv` and `send` can have and whose handlers return: what was sent
  -- to the server is the start of what came from the client, and what was sent to the client is the
  -- start of what came from the server. So no byte is skipped, repeated or moved on its way; bytes
  -- that still wait when a direction is given up are never sent.
  pub Reaches-flow :
      (start w : World H D W) (h : History)
      → IsReady start
      → Holds start.input []
      → Holds start.output []
      → Reaches start w h
      → ((up : List ℕ) × (h.from_client ≡ h.to_server ++ up))
        × ((down : List ℕ) × (h.from_server ≡ h.to_client ++ down))
  Reaches-flow start w h v empty_in empty_out r =
      let (v1, f1) = reached start w h v empty_in empty_out r in
      ((f1.up, f1.up_eq), (f1.down, f1.down_eq))
