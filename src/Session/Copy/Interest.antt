-- ===== src/Session/Copy/Interest.antt =====
-- What `check_interest` of src/stm/copy.c asks of the selector.
use pdc_20221c.Prelude.{
  ℕ, ◌+◌, ◌<◌, ◌≡◌, ◌≢◌, refl, ◌∙◌, sym, arith, some, Bool, true, false, ◌&&◌, ◌||◌, ◌==◌,
  if◌then◌else◌, pos, length, get_elem?, get_elem?-length, inl, inr, Bool-cases,
}
use pdc_20221c.Buffer.{buffer_can_write, buffer_can_read}
use pdc_20221c.Selector.{
  FdSelector, Item, item_used, wants_read, wants_write, selector_success, selector_set_interest,
  selector_set_interest_key, op_read, op_write,
}
use pdc_20221c.Selector.Invariant.{
  IsValid, taken, valid_fd-below, replaced, replaced-IsValid, selector_set_interest-replaced,
  get_elem?-set-here, get_elem?-set-there,
}
use pdc_20221c.Session.Copy.{
  Side, client, server, other, World, copy_at, read_buff, write_buff, interest_of, check_interest,
  settle, same_fd, state_copy, state_done,
}

interest_bits :
    (r w : Bool)
    → (wants_read ((if r then op_read else 0) + (if w then op_write else 0)) ≡ r)
      × (wants_write ((if r then op_read else 0) + (if w then op_write else 0)) ≡ w)
interest_bits true true = (refl, refl)
interest_bits true false = (refl, refl)
interest_bits false true = (refl, refl)
interest_bits false false = (refl, refl)

module _ {H D : Type 0} where
  -- The descriptor is registered.
  abbrev pub IsUsed : FdSelector H D → ℕ → Type 0
  IsUsed s k = (item : Item H D) × (get_elem? s.fds k ≡ some item) × (item_used item ≡ true)

  -- What a change of interest does to a table with the descriptor in use.
  pub record Changed (s s' : FdSelector H D) (k i : ℕ) : Type 0 where
    pub valid : IsValid s'
    pub reads_it : s'.master_r k ≡ wants_read i
    pub writes_it : s'.master_w k ≡ wants_write i
    pub keeps_r : (j : ℕ) → k ≢ j → s'.master_r j ≡ s.master_r j
    pub keeps_w : (j : ℕ) → k ≢ j → s'.master_w j ≡ s.master_w j
    pub keeps_size : s'.fd_size ≡ s.fd_size
    pub keeps_taken : (j : ℕ) → taken s' j ≡ taken s j
    pub keeps_used : (j : ℕ) → IsUsed s j → IsUsed s' j

  pub set_interest_run :
      (s : FdSelector H D) (k i : ℕ)
      → IsValid s
      → k < 1024
      → IsUsed s k
      → (s' : FdSelector H D) × (selector_set_interest s (pos k) i ≡ some (selector_success, s'))
        × Changed s s' k i
  set_interest_run s k i v small (item, at_k, used) =
      let (at, le, handled) = v.filed k item at_k used in
      let inside : k < length s.fds = get_elem?-length s.fds k item at_k in
      let new : Item H D = record item { interest = i } in
      (
        replaced s k new s.max_fd,
        selector_set_interest-replaced s k i item small at_k used,
        record {
          valid =
              replaced-IsValid s k new s.max_fd v (omega (arith, v.size)) v.max_lt
                (λ _. (at, le, handled)) (λ j found apart e u. (v.filed j found e u).1);
          reads_it = ground arith;
          writes_it = ground arith;
          keeps_r = λ j apart. ground arith;
          keeps_w = λ j apart. ground arith;
          keeps_size = refl;
          keeps_taken = λ j. elim (Bool-cases (k == j)) [
            | inl same ↦
                let here : k ≡ j = ground arith in
                rw (get_elem?-set-here s.fds k j new inside same, ← here, at_k) refl
            | inr apart ↦ rw (get_elem?-set-there s.fds k j new inside apart) refl
          ];
          keeps_used = λ j (found, e, u). elim (Bool-cases (k == j)) [
            | inl same ↦ (new, get_elem?-set-here s.fds k j new inside same, used)
            | inr apart ↦ (found, get_elem?-set-there s.fds k j new inside apart ∙ e, u)
          ];
        },
      )

  -- The same through the key of an event.
  pub set_interest_key_run :
      (s : FdSelector H D) (k i : ℕ)
      → IsValid s
      → k < 1024
      → IsUsed s k
      → (s' : FdSelector H D) × (selector_set_interest_key s (pos k) i
          ≡ some (selector_success, s'))
        × Changed s s' k i
  unfolding selector_set_interest_key
  set_interest_key_run s k i v small used =
      let (s', run, changed) = set_interest_run s k i v small used in
      (s', rw (selector_set_interest_key, valid_fd-below k small, run) refl, changed)

module _ {H D W : Type 0} where
  -- Both ends are registered under descriptors of their own that `pselect` can watch.
  pub record IsReady (w : World H D W) : Type 0 where
    pub valid : IsValid w.selector
    pub client_fd : ℕ
    pub server_fd : ℕ
    pub client_eq : w.client_copy.fd ≡ pos client_fd
    pub server_eq : w.server_copy.fd ≡ pos server_fd
    pub client_small : client_fd < 1024
    pub server_small : server_fd < 1024
    pub apart : client_fd ≢ server_fd
    pub client_used : IsUsed w.selector client_fd
    pub server_used : IsUsed w.selector server_fd

  -- An end is watched for reading exactly if that direction is open and its buffer has room, and for
  -- writing exactly if that direction is open and there are bytes to send.
  pub record IsWatched (w : World H D W) (side : Side) (k : ℕ) : Type 0 where
    pub for_read :
        w.selector.master_r k ≡ ((copy_at w side).reading && buffer_can_write (read_buff w side))
    pub for_write :
        w.selector.master_w k ≡ ((copy_at w side).writing && buffer_can_read (write_buff w side))

  check_interest_lem :
      (w : World H D W) (side : Side) (k : ℕ)
      → (copy_at w side).fd ≡ pos k
      → IsValid w.selector
      → k < 1024
      → IsUsed w.selector k
      → (s : FdSelector H D) × (check_interest w side ≡ some (record w { selector = s }))
        × Changed w.selector s k (interest_of w side)
  unfolding check_interest same_fd
  check_interest_lem w side k at valid small used =
      let (s, run, changed) = set_interest_run w.selector k (interest_of w side) valid small used in
      (s, rw (check_interest, at, run) refl, changed)

  settle_run :
      (w : World H D W) (side : Side) (s1 s2 : FdSelector H D)
      → check_interest w side ≡ some (record w { selector = s1 })
      → check_interest (record w { selector = s1 }) (other side) ≡ some (record w { selector = s2 })
      → settle w side
        ≡ some (
          if (copy_at (record w { selector = s2 }) side).reading
                || (copy_at (record w { selector = s2 }) side).writing
              then state_copy
              else state_done,
          record w { selector = s2 },
        )
  unfolding settle
  settle_run w side s1 s2 e1 e2 = rw (settle, e1, e2) refl

  -- What the end of both handlers leaves: only the selector has changed, and both ends are watched
  -- for what they can do.
  pub record IsSettled (w w' : World H D W) : Type 0 where
    pub ready : IsReady w'
    pub only_selector : w' ≡ record w { selector = w'.selector }
    pub client_watched : IsWatched w' client ready.client_fd
    pub server_watched : IsWatched w' server ready.server_fd

  settled :
      (w : World H D W) (v : IsReady w) (s : FdSelector H D)
      → IsValid s
      → IsUsed s v.client_fd
      → IsUsed s v.server_fd
      → s.master_r v.client_fd ≡ wants_read (interest_of w client)
      → s.master_w v.client_fd ≡ wants_write (interest_of w client)
      → s.master_r v.server_fd ≡ wants_read (interest_of w server)
      → s.master_w v.server_fd ≡ wants_write (interest_of w server)
      → IsSettled w (record w { selector = s })
  unfolding interest_of copy_at read_buff write_buff other
  settled w v s valid cu su cr cw sr sw =
      let bits =
        interest_bits (w.client_copy.reading && buffer_can_write w.input)
          (w.client_copy.writing && buffer_can_read w.output) in
      let bits' =
        interest_bits (w.server_copy.reading && buffer_can_write w.output)
          (w.server_copy.writing && buffer_can_read w.input) in
      record {
        ready = record {
          valid = valid;
          client_fd = v.client_fd;
          server_fd = v.server_fd;
          client_eq = v.client_eq;
          server_eq = v.server_eq;
          client_small = v.client_small;
          server_small = v.server_small;
          apart = v.apart;
          client_used = cu;
          server_used = su;
        };
        only_selector = refl;
        client_watched = record { for_read = cr ∙ bits.0; for_write = cw ∙ bits.1 };
        server_watched = record { for_read = sr ∙ bits'.0; for_write = sw ∙ bits'.1 };
      }

  -- The state that the handlers return for an end.
  abbrev pub state_after : World H D W → Side → ℕ
  state_after w side =
      if (copy_at w side).reading || (copy_at w side).writing then state_copy else state_done

  -- With both ends registered no call of `abort` is reached.
  pub settle_lem :
      (w : World H D W) (side : Side) (v : IsReady w)
      → (w' : World H D W) × (settle w side ≡ some (state_after w side, w')) × IsSettled w w'
  unfolding settle interest_of copy_at read_buff write_buff other
  settle_lem w client v =
      let (s1, e1, c1) =
        check_interest_lem w client v.client_fd v.client_eq v.valid v.client_small v.client_used in
      let w1 : World H D W = record w { selector = s1 } in
      let (s2, e2, c2) =
        check_interest_lem w1 server v.server_fd v.server_eq c1.valid v.server_small
          (c1.keeps_used v.server_fd v.server_used) in
      (
        record w { selector = s2 },
        settle_run w client s1 s2 e1 e2,
        settled w v s2 c2.valid
            (c2.keeps_used v.client_fd (c1.keeps_used v.client_fd v.client_used))
            (c2.keeps_used v.server_fd (c1.keeps_used v.server_fd v.server_used))
            (c2.keeps_r v.client_fd (λ e. v.apart (sym e)) ∙ c1.reads_it)
            (c2.keeps_w v.client_fd (λ e. v.apart (sym e)) ∙ c1.writes_it) c2.reads_it c2.writes_it,
      )
  settle_lem w server v =
      let (s1, e1, c1) =
        check_interest_lem w server v.server_fd v.server_eq v.valid v.server_small v.server_used in
      let w1 : World H D W = record w { selector = s1 } in
      let (s2, e2, c2) =
        check_interest_lem w1 client v.client_fd v.client_eq c1.valid v.client_small
          (c1.keeps_used v.client_fd v.client_used) in
      (
        record w { selector = s2 },
        settle_run w server s1 s2 e1 e2,
        settled w v s2 c2.valid
            (c2.keeps_used v.client_fd (c1.keeps_used v.client_fd v.client_used))
            (c2.keeps_used v.server_fd (c1.keeps_used v.server_fd v.server_used)) c2.reads_it
            c2.writes_it (c2.keeps_r v.server_fd v.apart ∙ c1.reads_it)
            (c2.keeps_w v.server_fd v.apart ∙ c1.writes_it),
      )
