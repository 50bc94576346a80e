-- ===== src/Selector/Unregister.antt =====
-- `selector_unregister_fd` of src/selector.c on a well-formed table.
use pdc_20221c.Prelude.{
  ℕ, suc, ◌<◌, ◌≤◌, Option, none, some, true, false, ◌==◌, ◌≡◌, ◌≢◌, refl, ap, ◌∙◌, sym, arith,
  length, get_elem?, get_elem?-length, ◌>>=◌, Bool, if◌then◌else◌, set, length-set, pos, ◌⊎◌, inl,
  inr, Bool-cases, Option-cases, negsuc,
}
use mathlib.Core.Option.{some-injective}
use pdc_20221c.Selector.{
  selector_success, selector_iargs, FdSelector, Item, item_used, blank_item, items_max_fd,
  selector_unregister_fd,
}
use pdc_20221c.Selector.Invariant.{
  IsValid, replaced, replaced-IsValid, clear_item-replaced, items_max_fd_loop_lem,
  items_max_fd_loop-attained, taken, get_elem?-set-here, get_elem?-set-there, valid_fd-below,
}

same_fd : (fd i : ℕ) {n : ℕ} → pos fd ≡ pos i → i < n → fd < n
same_fd fd i e h = ground arith

differ : (i j : ℕ) → i ≢ j → (i == j) ≡ false
differ i j h = ground arith

apart_fd : (fd : ℕ) → negsuc 0 ≡ pos fd → ⊥
apart_fd fd e = ground arith

never : {A : Type 0} → false ≡ true → A
never h = absurd (ground arith)

module _ {H D : Type 0} where
  used_of : (item : Item H D) (fd : ℕ) → item.fd ≡ pos fd → item_used item ≡ true
  used_of item fd e = rw e refl

  blank_fd : (item : Item H D) (fd : ℕ) → some blank_item ≡ some item → item.fd ≡ pos fd → ⊥
  blank_fd item fd e is =
      apart_fd fd (ap (λ (x : Item H D). x.fd) (some-injective blank_item item e) ∙ is)

  -- `max_fd` is recomputed over the cleared table, inside its bounds.
  pub cleared_max :
      (s : FdSelector H D) (ufd : ℕ)
      → IsValid s
      → ufd < s.fd_size
      → (m : ℕ) × ((items_max_fd (replaced s ufd blank_item s.max_fd) ≡ some m)
          × (m < s.fd_size)
          × ((i : ℕ) (item : Item H D)
              → ufd ≢ i
              → get_elem? s.fds i ≡ some item
              → item_used item ≡ true
              → i ≤ m))
  unfolding items_max_fd
  cleared_max s ufd v room =
      let (m, (eq, _, lt, all)) =
        items_max_fd_loop_lem (set s.fds ufd blank_item) (suc s.max_fd) 0 s.fd_size
          (omega (arith, length-set s.fds ufd blank_item, v.size, v.max_lt))
          (omega (arith, v.max_lt)) below in
      (
        m,
        (
          eq,
          lt,
          λ i item other e used.
              let (at, le, _) = v.filed i item e used in
              all i item
                (get_elem?-set-there s.fds ufd i blank_item inside (differ ufd i other) ∙ e)
                (omega (arith, le)) i at,
        ),
      )
    where
      inside : ufd < length s.fds
      inside = omega (arith, v.size)

      below :
          (i : ℕ) (item : Item H D)
          → get_elem? (set s.fds ufd blank_item) i ≡ some item
          → i < suc s.max_fd
          → (fd : ℕ) → item.fd ≡ pos fd
          → fd < s.fd_size
      below i item e lt fd is = elim (Bool-cases (ufd == i)) [
        | inl same ↦
            absurd (
              blank_fd item fd (sym (get_elem?-set-here s.fds ufd i blank_item inside same) ∙ e) is)
        | inr other ↦
            let (at, le, _) =
              v.filed i item (sym (get_elem?-set-there s.fds ufd i blank_item inside other) ∙ e)
                (used_of item fd is) in
            same_fd fd i (sym is ∙ at) (omega (arith, le, v.max_lt))
      ]

  -- What the callback of an item makes of the rest of the program.
  unfoldable pub closing :
      {W : Type 0} (handle_close : H → Option (ℕ → Option D → W → Option W))
      → Item H D
      → ℕ
      → W
      → Option W
  closing handle_close item ufd w = item.handler >>= λ h. elim (handle_close h) [
    | none ↦ some w
    | some close ↦ close ufd item.attached w
  ]

  -- A table without this descriptor: its item is blank, the sets for `pselect` no longer have it,
  -- every other item is as before, and `max_fd` is the largest descriptor in use, or 0.
  pub record IsCleared (s s' : FdSelector H D) (ufd : ℕ) : Type 0 where
    pub blank : get_elem? s'.fds ufd ≡ some blank_item
    pub unread : s'.master_r ufd ≡ false
    pub unwritten : s'.master_w ufd ≡ false
    pub others : (j : ℕ) → ufd ≢ j → get_elem? s'.fds j ≡ get_elem? s.fds j
    pub max_bound : (j : ℕ) → taken s' j ≡ true → j ≤ s'.max_fd
    pub max_attained : (s'.max_fd ≡ 0) ⊎ (taken s' s'.max_fd ≡ true)

  unregister-refused :
      {W : Type 0} (handle_close : H → Option (ℕ → Option D → W → Option W)) (s : FdSelector H D)
      (ufd : ℕ) (w : W) (item : Item H D)
      → ufd < 1024
      → get_elem? s.fds ufd ≡ some item
      → item_used item ≡ false
      → selector_unregister_fd handle_close s (pos ufd) w ≡ some (selector_iargs, s, w)
  unfolding selector_unregister_fd
  unregister-refused handle_close s ufd w item small at_ufd unused =
      rw (selector_unregister_fd, valid_fd-below ufd small, at_ufd, unused) refl

  unregister-run :
      {W : Type 0} (handle_close : H → Option (ℕ → Option D → W → Option W)) (s : FdSelector H D)
      (ufd m : ℕ) (w w' : W) (item : Item H D) (h : H)
      → ufd < 1024
      → get_elem? s.fds ufd ≡ some item
      → item_used item ≡ true
      → item.handler ≡ some h
      → elim (handle_close h) [ none ↦ some w | some close ↦ close ufd item.attached w ] ≡ some w'
      → items_max_fd (replaced s ufd blank_item s.max_fd) ≡ some m
      → selector_unregister_fd handle_close s (pos ufd) w
        ≡ some (selector_success, replaced s ufd blank_item m, w')
  unfolding selector_unregister_fd
  unregister-run handle_close s ufd m w w' item h small at_ufd used handled closed max =
      rw
        (
          selector_unregister_fd,
          valid_fd-below ufd small,
          at_ufd,
          used,
          handled,
          closed,
          clear_item-replaced s ufd m max,
        )
        refl

  taken-item :
      (s : FdSelector H D) (j : ℕ)
      → taken s j ≡ true
      → (item : Item H D) × (get_elem? s.fds j ≡ some item) × (item_used item ≡ true)
  taken-item s j e = elim (Option-cases (get_elem? s.fds j)) [
    | inl out ↦ absurd (clash out e)
    | inr (item, at) ↦ (item, at, rw at at e)
  ]
    where
      clash : get_elem? s.fds j ≡ none → taken s j ≡ true → ⊥
      clash out e = never (rw out at e)

  taken-at :
      (s : FdSelector H D) (j : ℕ) (item : Item H D)
      → get_elem? s.fds j ≡ some item
      → item_used item ≡ true
      → taken s j ≡ true
  taken-at s j item at used = rw at used

  cleared_lem :
      (s : FdSelector H D) (ufd m : ℕ) (v : IsValid s)
      → ufd < s.fd_size
      → items_max_fd (replaced s ufd blank_item s.max_fd) ≡ some m
      → IsValid (replaced s ufd blank_item m)
      → IsCleared s (replaced s ufd blank_item m) ufd
  unfolding items_max_fd
  cleared_lem s ufd m v room max valid =
      let s' = replaced s ufd blank_item m in
      record {
        blank = get_elem?-set-here s.fds ufd ufd blank_item (omega (arith, v.size)) (ground arith);
        unread = ground arith;
        unwritten = ground arith;
        others = λ j apart.
            get_elem?-set-there s.fds ufd j blank_item (omega (arith, v.size)) (differ ufd j apart);
        max_bound = λ j e.
            let (item, at, used) = taken-item s' j e in
            let (_, le, _) = valid.filed j item at used in le;
        max_attained = elim (items_max_fd_loop-attained s'.fds (suc s.max_fd) 0 m max) [
          | inl zero_max ↦ inl zero_max
          | inr (i, (item, at, is)) ↦
              let used = used_of item m is in
              let (filed_at, _, _) = valid.filed i item at used in
              let same : i ≡ m = ground (arith, sym filed_at ∙ is) in
              inr (taken-at s' m item (ap (λ k. get_elem? s'.fds k) (sym same) ∙ at) used)
        ];
      }

  -- What an unregistration leaves of the table: cleared if the descriptor was in use, and else as it
  -- was.
  abbrev pub Unregistered : FdSelector H D → FdSelector H D → ℕ → Bool → Type 0
  Unregistered s s' ufd true = IsCleared s s' ufd
  Unregistered s s' ufd false = s' ≡ s

  -- On a well-formed table an unregistration of a descriptor whose item is there and, if it is in
  -- use, whose callback for the end returns: it does not step outside the table, which stays well
  -- formed. If the item is in use the call succeeds, the rest of the program is what the item's own
  -- callback made of it with its descriptor and its data, the item is blank, the descriptor is in
  -- neither of the sets for `pselect`, the other items are as before, and `max_fd` is the largest
  -- descriptor in use, or 0 if there is none; else the call says so and nothing changes.
  pub selector_unregister_fd_lem :
      {W : Type 0} (handle_close : H → Option (ℕ → Option D → W → Option W)) (s : FdSelector H D)
      (ufd : ℕ) (w w' : W) (item : Item H D)
      → IsValid s
      → ufd < 1024
      → get_elem? s.fds ufd ≡ some item
      → (if item_used item then closing handle_close item ufd w else some w) ≡ some w'
      → (s' : FdSelector H D) × (selector_unregister_fd handle_close s (pos ufd) w
          ≡ some (if item_used item then selector_success else selector_iargs, s', w'))
        × IsValid s'
        × Unregistered s s' ufd (item_used item)
  unfolding closing
  selector_unregister_fd_lem handle_close s ufd w w' item v small at_ufd closed =
      elim (Bool-cases (item_used item)) [
        | inr unused ↦
            let same : w ≡ w' = some-injective w w' (rw unused at closed) in
            (
              s,
              rw unused (
                  unregister-refused handle_close s ufd w item small at_ufd unused
                  ∙ ap (λ x. some (selector_iargs, s, x)) same),
              v,
              rw unused refl,
            )
        | inl used ↦
            let (_, _, (h, handled)) = v.filed ufd item at_ufd used in
            let room : ufd < s.fd_size =
              omega (arith, v.size, get_elem?-length s.fds ufd item at_ufd) in
            let (m, (max, lt, others)) = cleared_max s ufd v room in
            let valid = replaced-IsValid s ufd blank_item m v room lt (λ u. never u) others in
            (
              replaced s ufd blank_item m,
              rw used (
                  unregister-run handle_close s ufd m w w' item h small at_ufd used handled
                    (rw (used, handled) at closed) max),
              valid,
              rw used (cleared_lem s ufd m v room max valid),
            )
      ]
