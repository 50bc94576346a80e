-- ===== src/Session/Copy/Flow/Run.antt =====
-- Runs of the copy state of src/stm/copy.c: the bytes that an end sends are the bytes that the other
-- end has received, in order.
use pdc_20221c.Prelude.{
  ℕ, ◌-◌, ◌≤◌, ◌≡◌, refl, ap, ◌∙◌, sym, arith, Option, none, some, Bool, true, false, leb, leb→le,
  if◌then◌else◌, ℤ, pos, List, ◌++◌, length, take, drop, slice, take-take, append-take-drop,
  length-take,
}
use pdc_20221c.Buffer.{Buffer, buffer_write_adv, buffer_read_adv, fill}
use pdc_20221c.Buffer.Contents.{Holds, buffer_write_adv_lem, buffer_read_adv_lem, length-Holds}
use pdc_20221c.Stadistics.{Stadistics}
use pdc_20221c.Session.Copy.{
  Side, client, server, Shut, World, CopySt, copy_at, read_buff, write_buff, stop_reading,
  stop_writing, settle, copy_read, copy_write,
}
use pdc_20221c.Session.Copy.Interest.{IsReady, IsWatched, state_after, settle_lem}

-- What `recv` and `send` deliver for an end.
pub data Event : Type 0 where
  readable : Side → Option (List ℕ) → Event
  writable : Side → Option ℕ → Event

-- All bytes that went through the sockets.
pub record History : Type 0 where
  pub from_client : List ℕ
  pub to_server : List ℕ
  pub from_server : List ℕ
  pub to_client : List ℕ

-- More bytes at the end of a buffer, and fewer at its front.
pub held_more :
    (b : Buffer) (bytes new : List ℕ)
    → Holds b bytes
    → leb (length new) (b.limit - b.write) ≡ true
    → (b' : Buffer) × (buffer_write_adv (fill b new) (pos (length new)) ≡ some b')
      × Holds b' (bytes ++ new)
held_more b bytes new h fit =
    let (b', run, held, _) = buffer_write_adv_lem b bytes new h (leb→le _ _ fit) in (b', run, held)

pub held_less :
    (b : Buffer) (bytes : List ℕ) (n : ℕ)
    → Holds b bytes
    → leb n (b.write - b.read) ≡ true
    → (b' : Buffer) × (buffer_read_adv b (pos n) ≡ some b')
      × Holds b' (drop n bytes)
      × (slice b.read n b.storage ++ drop n bytes ≡ bytes)
held_less b bytes n h fit =
    let le : n ≤ b.write - b.read = leb→le _ _ fit in
    let size : n ≤ length bytes = omega (arith, length-Holds b bytes h) in
    let (b', run, held, _, _) =
      buffer_read_adv_lem b (take n bytes) (drop n bytes) (rw (append-take-drop n bytes) h) in
    let first : slice b.read n b.storage ≡ take n bytes =
      sym (take-take n (b.write - b.read) (drop b.read b.storage) le) ∙ ap (take n) h.bytes_eq in
    (b', (rw (length-take n bytes size) at run), held, rw first (append-take-drop n bytes))

module _ {H D W : Type 0} where
  -- `recv` returns at most the bytes it was asked for, and `send` takes at most those it was given.
  unfoldable pub fits : World H D W → Event → Bool
  unfolding read_buff write_buff
  fits w (readable side none) = true
  fits w (readable side (some bytes)) =
      leb (length bytes) ((read_buff w side).limit - (read_buff w side).write)
  fits w (writable side none) = true
  fits w (writable side (some n)) = leb n ((write_buff w side).write - (write_buff w side).read)

  -- The bytes that `send` takes are the first of those it was given.
  unfoldable pub track : History → World H D W → Event → History
  track h w (readable side none) = h
  track h w (readable client (some bytes)) = record h { from_client = h.from_client ++ bytes }
  track h w (readable server (some bytes)) = record h { from_server = h.from_server ++ bytes }
  track h w (writable side none) = h
  track h w (writable client (some n)) = record h {
    to_client = h.to_client ++ slice w.output.read n w.output.storage;
  }
  track h w (writable server (some n)) = record h {
    to_server = h.to_server ++ slice w.input.read n w.input.storage;
  }

  -- What the sniffer is shown of an event: the bytes from the server, and those that go to it.
  abbrev pub shown : World H D W → Event → Option (List ℕ)
  shown w (readable client received) = none
  shown w (readable server received) = received
  shown w (writable client sent) = none
  shown w (writable server none) = none
  shown w (writable server (some n)) = some (slice w.input.read n w.input.storage)

  unfoldable pub handle : (W → List ℕ → Option W) → World H D W → Event → Option (ℕ × World H D W)
  handle pop3sniff w (readable side received) = copy_read pop3sniff w (copy_at w side).fd received
  handle pop3sniff w (writable side sent) = copy_write pop3sniff w (copy_at w side).fd sent

  -- In each direction: what was received is what was sent, followed by what the buffer holds.
  pub record IsFlow (w : World H D W) (h : History) : Type 0 where
    pub up : List ℕ
    pub up_held : Holds w.input up
    pub up_eq : h.from_client ≡ h.to_server ++ up
    pub down : List ℕ
    pub down_held : Holds w.output down
    pub down_eq : h.from_server ≡ h.to_client ++ down

  -- Two worlds that differ in neither the buffers nor what the selector depends on.
  pub record IsKin (w w' : World H D W) : Type 0 where
    pub same_input : w'.input ≡ w.input
    pub same_output : w'.output ≡ w.output
    pub same_selector : w'.selector ≡ w.selector
    pub same_client : w'.client_copy.fd ≡ w.client_copy.fd
    pub same_server : w'.server_copy.fd ≡ w.server_copy.fd

  IsKin-if : (b : Bool) (w x y : World H D W) → IsKin w x → IsKin w y → IsKin w (if b then x else y)
  IsKin-if true w x y kx ky = kx
  IsKin-if false w x y kx ky = ky

  pub kin-IsReady : (w w' : World H D W) → IsKin w w' → IsReady w → IsReady w'
  kin-IsReady w w' k v = record {
    valid = rw k.same_selector v.valid;
    client_fd = v.client_fd;
    server_fd = v.server_fd;
    client_eq = k.same_client ∙ v.client_eq;
    server_eq = k.same_server ∙ v.server_eq;
    client_small = v.client_small;
    server_small = v.server_small;
    apart = v.apart;
    client_used = rw k.same_selector v.client_used;
    server_used = rw k.same_selector v.server_used;
  }

  pub kin-IsFlow : (w w' : World H D W) (h : History) → IsKin w w' → IsFlow w h → IsFlow w' h
  kin-IsFlow w w' h k f = record {
    up = f.up;
    up_held = rw k.same_input f.up_held;
    up_eq = f.up_eq;
    down = f.down;
    down_held = rw k.same_output f.down_held;
    down_eq = f.down_eq;
  }

  IsKin-flags :
      (w : World H D W) (c d : CopySt) (calls : List (ℤ × Shut))
      → c.fd ≡ w.client_copy.fd
      → d.fd ≡ w.server_copy.fd
      → IsKin w (record w { client_copy = c; server_copy = d; shutdowns = calls })
  IsKin-flags w c d calls ec ed = record {
    same_input = refl;
    same_output = refl;
    same_selector = refl;
    same_client = ec;
    same_server = ed;
  }

  -- Giving up a direction leaves the bytes that wait, and the descriptors.
  pub stop_reading-IsKin : (w : World H D W) (side : Side) → IsKin w (stop_reading w side)
  unfolding stop_reading
  stop_reading-IsKin w client =
      IsKin-if _ w _ _ (IsKin-flags w _ _ _ refl refl) (IsKin-flags w _ _ _ refl refl)
  stop_reading-IsKin w server =
      IsKin-if _ w _ _ (IsKin-flags w _ _ _ refl refl) (IsKin-flags w _ _ _ refl refl)

  pub stop_writing-IsKin : (w : World H D W) (side : Side) → IsKin w (stop_writing w side)
  unfolding stop_writing
  stop_writing-IsKin w client =
      IsKin-if _ w _ _ (IsKin-flags w _ _ _ refl refl) (IsKin-flags w _ _ _ refl refl)
  stop_writing-IsKin w server =
      IsKin-if _ w _ _ (IsKin-flags w _ _ _ refl refl) (IsKin-flags w _ _ _ refl refl)

  -- What a handled event leaves: well formed again, with the bytes accounted for, and each end
  -- watched for exactly what it can do.
  pub record IsServed (w : World H D W) (h : History) : Type 0 where
    pub ready : IsReady w
    pub flow : IsFlow w h
    pub client_watched : IsWatched w client ready.client_fd
    pub server_watched : IsWatched w server ready.server_fd

  IsFlow-selector :
      (w w' : World H D W) (h : History)
      → w' ≡ record w { selector = w'.selector }
      → IsFlow w h
      → IsFlow w' h
  IsFlow-selector w w' h e f = record {
    up = f.up;
    up_held = rw (ap (λ (x : World H D W). x.input) e) f.up_held;
    up_eq = f.up_eq;
    down = f.down;
    down_held = rw (ap (λ (x : World H D W). x.output) e) f.down_held;
    down_eq = f.down_eq;
  }

  pub finish :
      (w : World H D W) (side : Side) (h : History)
      → IsReady w
      → IsFlow w h
      → (ret : ℕ) × ((w' : World H D W) × ((settle w side ≡ some (ret, w')) × IsServed w' h))
  finish w side h v f =
      let (w', run, settled) = settle_lem w side v in
      (
        state_after w side,
        (
          w',
          (
            run,
            record {
              ready = settled.ready;
              flow = IsFlow-selector w w' h settled.only_selector f;
              client_watched = settled.client_watched;
              server_watched = settled.server_watched;
            },
          ),
        ),
      )

  -- The buffers, the counters and the sniffer are of no concern to the selector.
  pub IsReady-like :
      (w : World H D W) (i o : Buffer) (st : Stadistics) (s : W)
      → IsReady w
      → IsReady (record w { input = i; output = o; stadistics = st; sniff = s })
  IsReady-like w i o st s v = record {
    valid = v.valid;
    client_fd = v.client_fd;
    server_fd = v.server_fd;
    client_eq = v.client_eq;
    server_eq = v.server_eq;
    client_small = v.client_small;
    server_small = v.server_small;
    apart = v.apart;
    client_used = v.client_used;
    server_used = v.server_used;
  }
