-- ===== src/Selector/Operations.antt =====
-- The operations of src/selector.c on a well-formed table.
use pdc_20221c.Prelude.{
  ℕ, zero, suc, ◌<◌, ◌≤◌, Option, none, some, Bool, true, false, List, [], ◌∷◌, ltb, if◌then◌else◌,
  ◌≡◌, ◌≢◌, refl, sym, ◌∙◌, arith, ◌&&◌, ◌||◌, not, length, get_elem?, get_elem?-some,
  get_elem?-set, pos, ◌⊎◌, inl, inr, Bool-cases,
}
use pdc_20221c.Selector.{
  SelectorStatus, selector_success, selector_fdinuse, selector_enomem, selector_iargs, FdSelector,
  Item, item_used, wants_read, wants_write, grow, ensure_capacity, put_item, selector_register,
  selector_set_interest,
}
use pdc_20221c.Selector.Capacity.{ensure_capacity-grow}
use pdc_20221c.Selector.Growth.{grow-IsValid, taken-grow}
use pdc_20221c.Selector.Invariant.{
  IsValid, taken, taken-inside, replaced, replaced-IsValid, selector_set_interest-replaced,
  put_item-replaced, valid_fd-below,
}

module _ {H D : Type 0} where
  -- What a call leaves: it does not step outside the table, and the table is well formed again.
  abbrev pub Leaves :
      Option (SelectorStatus × FdSelector H D) → (SelectorStatus → FdSelector H D → Type 0) → Type 0
  Leaves run post =
      (ret : SelectorStatus) × ((s : FdSelector H D) × ((run ≡ some (ret, s))
          × IsValid s
          × post ret s))

  -- The item that a successful registration stores.
  abbrev pub IsRegistered : FdSelector H D → ℕ → H → ℕ → Option D → Type 0
  IsRegistered s ufd h interest attached =
      get_elem? s.fds ufd
      ≡ some (record { fd = pos ufd; interest = interest; handler = some h; attached = attached })

  -- A registration has a free descriptor, and memory if the table is to grow.
  abbrev pub accepts : FdSelector H D → ℕ → Bool → Bool
  accepts s ufd got_memory = not (taken s ufd) && (got_memory || not (ltb s.fd_size ufd))

  -- The sets for `pselect` are as before for every other descriptor.
  abbrev pub KeepsOthers : FdSelector H D → FdSelector H D → ℕ → Type 0
  KeepsOthers s s' ufd =
      (j : ℕ) → ufd ≢ j → (s'.master_r j ≡ s.master_r j) × (s'.master_w j ≡ s.master_w j)

  put_item_lem :
      (s : FdSelector H D) (ufd : ℕ) (h : H) (interest : ℕ) (attached : Option D)
      → IsValid s
      → ufd < s.fd_size
      → Leaves (put_item s ufd h interest attached) (λ ret s'.
        ((ret ≡ selector_success)
          × (taken s ufd ≡ false)
          × IsRegistered s' ufd h interest attached
          × KeepsOthers s s' ufd)
        ⊎ ((ret ≡ selector_fdinuse) × (taken s ufd ≡ true) × (s' ≡ s)))
  unfolding put_item
  put_item_lem s ufd h interest attached v room =
      let (item, at_ufd) = get_elem?-some s.fds ufd (omega (arith, v.size)) in
      elim (Bool-cases (item_used item)) [
        | inl used ↦ (
          selector_fdinuse,
          (s, (rw (at_ufd, used) refl, v, inr (refl, rw (at_ufd, used) refl, refl))),
        )
        | inr unused ↦
            let max : ℕ = if ltb s.max_fd ufd then ufd else s.max_fd in
            let new : Item H D = record {
              fd = pos ufd;
              interest = interest;
              handler = some h;
              attached = attached;
            } in
            (
              selector_success,
              (
                replaced s ufd new max,
                (
                  put_item-replaced s ufd h interest attached item at_ufd unused,
                  replaced-IsValid s ufd new max v room (ground (arith, v.max_lt))
                      (λ _. (refl, ground arith, (h, refl)))
                      (λ i other apart e used. ground (arith, (v.filed i other e used).1)),
                  inl (
                    refl,
                    rw (at_ufd, unused) refl,
                    get_elem?-set s.fds ufd ufd new (omega (arith, v.size)) ∙ ground arith,
                    λ j apart. (ground arith, ground arith),
                  ),
                ),
              ),
            )
      ]

  -- The ways through `selector_register` for a descriptor that can be watched.
  register-direct :
      (s : FdSelector H D) (ufd : ℕ) (h : H) (interest : ℕ) (attached : Option D)
      (got_memory : Bool)
      → ufd < 1024
      → ltb s.fd_size ufd ≡ false
      → selector_register s (pos ufd) (some h) interest attached got_memory
        ≡ put_item s ufd h interest attached
  unfolding selector_register
  register-direct s ufd h interest attached got_memory small room =
      rw (selector_register, valid_fd-below ufd small, room) refl

  register-grown :
      (s s1 : FdSelector H D) (ufd : ℕ) (h : H) (interest : ℕ) (attached : Option D)
      (got_memory : Bool)
      → ufd < 1024
      → ltb s.fd_size ufd ≡ true
      → ensure_capacity s ufd got_memory ≡ some (selector_success, s1)
      → selector_register s (pos ufd) (some h) interest attached got_memory
        ≡ put_item s1 ufd h interest attached
  unfolding selector_register
  register-grown s s1 ufd h interest attached got_memory small full e =
      rw (selector_register, valid_fd-below ufd small, full, e) refl

  register-refused :
      (s : FdSelector H D) (ufd : ℕ) (h : H) (interest : ℕ) (attached : Option D)
      (got_memory : Bool)
      → ufd < 1024
      → ltb s.fd_size ufd ≡ true
      → ensure_capacity s ufd got_memory ≡ some (selector_enomem, s)
      → selector_register s (pos ufd) (some h) interest attached got_memory
        ≡ some (selector_enomem, s)
  unfolding selector_register
  register-refused s ufd h interest attached got_memory small full e =
      rw (selector_register, valid_fd-below ufd small, full, e) refl

  -- What is left of a registration: it succeeded, or the descriptor was taken, or memory is out,
  -- and each of them only then.
  abbrev pub RegisterPost :
      FdSelector H D → ℕ → H → ℕ → Option D → Bool → SelectorStatus → FdSelector H D → Type 0
  RegisterPost s ufd h interest attached got_memory ret s' =
      ((ret ≡ selector_success)
        × (accepts s ufd got_memory ≡ true)
        × IsRegistered s' ufd h interest attached
        × KeepsOthers s s' ufd)
      ⊎ ((ret ≡ selector_fdinuse) × (taken s ufd ≡ true) × (s' ≡ s))
      ⊎ ((ret ≡ selector_enomem) × (got_memory ≡ false) × (s.fd_size < ufd) × (s' ≡ s))

  -- The call fails only for one of these reasons.
  pub RegisterPost-refused :
      (s s' : FdSelector H D) (ufd : ℕ) (h : H) (interest : ℕ) (attached : Option D)
      (got_memory : Bool) (ret : SelectorStatus)
      → RegisterPost s ufd h interest attached got_memory ret s'
      → ret ≢ selector_success
      → accepts s ufd got_memory ≡ false
  RegisterPost-refused s s' ufd h interest attached got_memory ret (inl (ok, _, _, _)) other =
      absurd (other ok)
  RegisterPost-refused s s' ufd h interest attached got_memory ret (inr (inl (_, used, _))) other =
      rw used refl
  RegisterPost-refused s s' ufd h interest attached got_memory ret (inr (inr (_, out, past, _)))
        other =
      ground arith

  put_item-RegisterPost :
      (s s1 : FdSelector H D) (ufd : ℕ) (h : H) (interest : ℕ) (attached : Option D)
      (got_memory : Bool)
      → IsValid s1
      → ufd < s1.fd_size
      → s1.master_r ≡ s.master_r
      → s1.master_w ≡ s.master_w
      → taken s1 ufd ≡ taken s ufd
      → (taken s ufd ≡ true → s1 ≡ s)
      → (got_memory || not (ltb s.fd_size ufd)) ≡ true
      → Leaves
          (put_item s1 ufd h interest attached)
          (RegisterPost s ufd h interest attached got_memory)
  put_item-RegisterPost s s1 ufd h interest attached got_memory v room er ew same back memory =
      let (ret, (s', (run, valid, post))) = put_item_lem s1 ufd h interest attached v room in
      (
        ret,
        (
          s',
          (
            run,
            valid,
            elim post [
              | inl (ok, free, stored, keeps) ↦ inl (
                ok,
                rw (← same, free) memory,
                stored,
                λ j apart. (rw (← er) (keeps j apart).0, rw (← ew) (keeps j apart).1),
              )
              | inr (used, is, kept) ↦ inr (inl (used, sym same ∙ is, kept ∙ back (sym same ∙ is)))
            ],
          ),
        ),
      )

  moved :
      (run run' : Option (SelectorStatus × FdSelector H D))
      (post : SelectorStatus → FdSelector H D → Type 0)
      → run ≡ run'
      → Leaves run' post
      → Leaves run post
  moved run run' post e (ret, (s', (eq, valid, rest))) = (ret, (s', (e ∙ eq, valid, rest)))

  -- A registration on a well-formed table, of a descriptor below 1024 other than the size of the
  -- table, does not step outside the table and leaves it well formed. The descriptor is in use, and
  -- the call says so and changes nothing; or it lies past the table and there is no memory to grow it,
  -- and nothing changes; in every other case the call succeeds, the item is stored under the
  -- descriptor, and the other descriptors stay watched for what they were.
  pub selector_register_lem :
      (s : FdSelector H D) (ufd : ℕ) (h : H) (interest : ℕ) (attached : Option D)
      (got_memory : Bool)
      → IsValid s
      → ufd < 1024
      → ufd ≢ s.fd_size
      → Leaves
          (selector_register s (pos ufd) (some h) interest attached got_memory)
          (RegisterPost s ufd h interest attached got_memory)
  selector_register_lem s ufd h interest attached got_memory v small apart =
      elim (Bool-cases (ltb s.fd_size ufd)) [
        | inr room ↦
            moved _ _ (RegisterPost s ufd h interest attached got_memory)
              (register-direct s ufd h interest attached got_memory small room)
              (put_item-RegisterPost s s ufd h interest attached got_memory v (ground arith) refl
                refl refl (λ _. refl) (ground arith))
        | inl full ↦
            grown got_memory full
              (ensure_capacity-grow s ufd got_memory (ground arith) (ground arith))
      ]
    where
      outside : taken s ufd ≡ true → ltb s.fd_size ufd ≡ true → ⊥
      outside used full =
          let inside = taken-inside s ufd used in absurd (ground (arith, inside, v.size))

      grown :
          (got_memory : Bool)
          → ltb s.fd_size ufd ≡ true
          → (m : ℕ) × ((ufd < m)
              × (m ≤ 1025)
              × (ensure_capacity s ufd got_memory
                  ≡ some
                      (if got_memory then (selector_success, grow s m) else (selector_enomem, s))))
          → Leaves
              (selector_register s (pos ufd) (some h) interest attached got_memory)
              (RegisterPost s ufd h interest attached got_memory)
      grown true full (m, (above, limit, e)) =
          moved _ _ (RegisterPost s ufd h interest attached true)
            (register-grown s (grow s m) ufd h interest attached true small full e)
            (put_item-RegisterPost s (grow s m) ufd h interest attached true
              (grow-IsValid s m v (ground arith)) above refl refl (taken-grow s m ufd)
              (λ used. absurd (outside used full)) refl)
      grown false full (m, (above, limit, e)) = (
        selector_enomem,
        (
          s,
          (
            register-refused s ufd h interest attached false small full e,
            v,
            inr (inr (refl, refl, ground arith, refl)),
          ),
        ),
      )

  -- On a well-formed table of less than 1024 items, a registration of the descriptor that is the size
  -- of the table is not stopped by the test for room, and accesses an item past the end.
  pub selector_register-past_end :
      (s : FdSelector H D) (h : H) (interest : ℕ) (attached : Option D) (got_memory : Bool)
      → IsValid s
      → s.fd_size < 1024
      → selector_register s (pos s.fd_size) (some h) interest attached got_memory ≡ none
  unfolding put_item
  selector_register-past_end s h interest attached got_memory v small =
      register-direct s s.fd_size h interest attached got_memory small (ground arith)
      ∙ rw (put_item, past s.fds s.fd_size v.size) refl
    where
      past : (items : List (Item H D)) (n : ℕ) → length items ≡ n → get_elem? items n ≡ none
      past [] zero e = refl
      past [] (suc n) e = refl
      past (x ∷ items) zero e = absurd (omega arith)
      past (x ∷ items) (suc n) e = past items n (omega arith)

  -- On a well-formed table a change of the interest of a descriptor below its size succeeds if the
  -- descriptor is in use, and then it is watched for exactly the new interest; otherwise it is
  -- refused and nothing changes. The table stays well formed.
  pub selector_set_interest_lem :
      (s : FdSelector H D) (ufd i : ℕ)
      → IsValid s
      → ufd < 1024
      → ufd < s.fd_size
      → Leaves (selector_set_interest s (pos ufd) i) (λ ret s'.
        ((ret ≡ selector_success)
          × (s'.master_r ufd ≡ wants_read i)
          × (s'.master_w ufd ≡ wants_write i))
        ⊎ ((ret ≡ selector_iargs) × (s' ≡ s)))
  unfolding selector_set_interest
  selector_set_interest_lem s ufd i v small room =
      let (item, at_ufd) = get_elem?-some s.fds ufd (omega (arith, v.size)) in
      elim (Bool-cases (item_used item)) [
        | inr unused ↦ (selector_iargs, (s, (refused item at_ufd unused, v, inr (refl, refl))))
        | inl used ↦
            let (at, le, handled) = v.filed ufd item at_ufd used in
            let new : Item H D = record item { interest = i } in
            (
              selector_success,
              (
                replaced s ufd new s.max_fd,
                (
                  selector_set_interest-replaced s ufd i item small at_ufd used,
                  replaced-IsValid s ufd new s.max_fd v room v.max_lt (λ _. (at, le, handled))
                      (λ j other apart e used. (v.filed j other e used).1),
                  inl (refl, ground arith, ground arith),
                ),
              ),
            )
      ]
    where
      refused :
          (item : Item H D)
          → get_elem? s.fds ufd ≡ some item
          → item_used item ≡ false
          → selector_set_interest s (pos ufd) i ≡ some (selector_iargs, s)
      refused item at_ufd unused =
          rw (selector_set_interest, valid_fd-below ufd small, at_ufd, unused) refl
