-- ===== src/Selector/Invariant.antt =====
-- The table of src/selector.c and the sets it hands to `pselect`.
use pdc_20221c.Prelude.{
  ℕ, zero, suc, ◌<◌, ◌≤◌, Option, none, some, Bool, true, false, ◌&&◌, List, [], ◌∷◌, ltb, ◌==◌,
  ==_iff, if◌then◌else◌, ◌≡◌, refl, sym, ap, ◌∙◌, arith, length, length-set, get_elem?, set,
  get_elem?-set, ℤ, pos, negsuc, inl, inr, ◌⊎◌, ◌≢◌, Bool-cases,
}
use mathlib.Core.Option.{some-injective}
use pdc_20221c.Selector.{
  selector_success, FdSelector, Item, item_used, blank_item, wants_read, wants_write, fd_put,
  items_max_fd_loop, max_fd_with, items_max_fd, items_update_fdset_for_fd, put_item,
  selector_set_interest, clear_item, valid_fd,
}

pub valid_fd-below : (ufd : ℕ) → ufd < 1024 → valid_fd (pos ufd) ≡ some ufd
unfolding valid_fd
valid_fd-below ufd h = ground arith

pub apart : (i j : ℕ) → (i == j) ≡ false → i ≢ j
apart i j h = ground arith

max_fd_with_lem :
    (fd : ℤ) (max size : ℕ)
    → max < size
    → ((k : ℕ) → fd ≡ pos k → k < size)
    → (max ≤ max_fd_with fd max)
      × (max_fd_with fd max < size)
      × ((k : ℕ) → fd ≡ pos k → k ≤ max_fd_with fd max)
unfolding max_fd_with
max_fd_with_lem (negsuc n) max size h below = (omega arith, h, λ k e. ground arith)
max_fd_with_lem (pos fd) max size h below =
    (ground arith, ground (arith, below fd refl), λ k e. ground arith)

max_fd_with-attained :
    (fd : ℤ) (max : ℕ) → (max_fd_with fd max ≡ max) ⊎ (fd ≡ pos (max_fd_with fd max))
unfolding max_fd_with
max_fd_with-attained (negsuc n) max = inl refl
max_fd_with-attained (pos fd) max = elim (Bool-cases (ltb max fd)) [
  | inl e ↦ inr (rw e refl)
  | inr e ↦ inl (rw e refl)
]

module _ {H D : Type 0} where
  -- A descriptor is in a set exactly when its item is in use and interested.
  abbrev pub shown : (ℕ → Bool) → Option (Item H D) → Bool
  shown wants none = false
  shown wants (some item) = item_used item && wants item.interest

  abbrev pub watched : (ℕ → Bool) → List (Item H D) → ℕ → Bool
  watched wants items i = shown wants (get_elem? items i)

  -- The descriptor is in use.
  abbrev pub in_use : Option (Item H D) → Bool
  in_use none = false
  in_use (some item) = item_used item

  abbrev pub taken_in : List (Item H D) → ℕ → Bool
  taken_in items i = in_use (get_elem? items i)

  abbrev pub taken : FdSelector H D → ℕ → Bool
  taken s i = taken_in s.fds i

  taken_in-length : (items : List (Item H D)) (i : ℕ) → taken_in items i ≡ true → i < length items
  taken_in-length [] i e = absurd (ground arith)
  taken_in-length (x ∷ items) zero e = omega arith
  taken_in-length (x ∷ items) (suc i) e = omega (arith, taken_in-length items i e)

  pub taken-inside : (s : FdSelector H D) (i : ℕ) → taken s i ≡ true → i < length s.fds
  taken-inside s i e = taken_in-length s.fds i e

  -- An item in use is filed under its own descriptor, which is at most `max_fd`, and has a handler.
  abbrev pub IsFiled : ℕ → ℕ → Item H D → Type 0
  IsFiled max i item =
      item_used item ≡ true → (item.fd ≡ pos i) × (i ≤ max) × ((h : H) × (item.handler ≡ some h))

  pub record IsValid (s : FdSelector H D) : Type 0 where
    pub size : length s.fds ≡ s.fd_size
    pub max_lt : s.max_fd < s.fd_size
    pub filed : (i : ℕ) (item : Item H D) → get_elem? s.fds i ≡ some item → IsFiled s.max_fd i item
    pub reads : (i : ℕ) → s.master_r i ≡ watched wants_read s.fds i
    pub writes : (i : ℕ) → s.master_w i ≡ watched wants_write s.fds i

  pub get_elem?-set-here :
      (items : List (Item H D)) (ufd i : ℕ) (new : Item H D)
      → ufd < length items
      → (ufd == i) ≡ true
      → get_elem? (set items ufd new) i ≡ some new
  get_elem?-set-here items ufd i new h e = get_elem?-set items ufd i new h ∙ rw e refl

  pub get_elem?-set-there :
      (items : List (Item H D)) (ufd i : ℕ) (new : Item H D)
      → ufd < length items
      → (ufd == i) ≡ false
      → get_elem? (set items ufd new) i ≡ get_elem? items i
  get_elem?-set-there items ufd i new h e = get_elem?-set items ufd i new h ∙ rw e refl

  -- A path between two items carries what is known of one to the other.
  IsFiled-cong :
      (m ufd i : ℕ) (new item : Item H D)
      → some new ≡ some item
      → (ufd == i) ≡ true
      → IsFiled m ufd new
      → IsFiled m i item
  IsFiled-cong m ufd i new item e same own =
      rw (← some-injective new item e, ← (==_iff ufd i).0 same) own

  watched-set :
      (wants : ℕ → Bool) (items : List (Item H D)) (fds : ℕ → Bool) (ufd : ℕ) (new : Item H D)
      (b : Bool)
      → ufd < length items
      → b ≡ (item_used new && wants new.interest)
      → ((i : ℕ) → fds i ≡ watched wants items i)
      → (i : ℕ) → fd_put fds ufd b i ≡ watched wants (set items ufd new) i
  watched-set wants items fds ufd new b h e old i = elim (Bool-cases (ufd == i)) [
    | inl same ↦ rw (same, get_elem?-set-here items ufd i new h same) e
    | inr other ↦ rw (other, get_elem?-set-there items ufd i new h other) (old i)
  ]

  -- One item replaced, with the two sets and the largest descriptor brought up to date.
  abbrev pub replaced : FdSelector H D → ℕ → Item H D → ℕ → FdSelector H D
  replaced s ufd new m = record s {
    fds = set s.fds ufd new;
    max_fd = m;
    master_r = fd_put s.master_r ufd (item_used new && wants_read new.interest);
    master_w = fd_put s.master_w ufd (item_used new && wants_write new.interest);
  }

  pub replaced-IsValid :
      (s : FdSelector H D) (ufd : ℕ) (new : Item H D) (m : ℕ)
      → IsValid s
      → ufd < s.fd_size
      → m < s.fd_size
      → IsFiled m ufd new
      → ((i : ℕ) (item : Item H D)
          → ufd ≢ i
          → get_elem? s.fds i ≡ some item
          → item_used item ≡ true
          → i ≤ m)
      → IsValid (replaced s ufd new m)
  replaced-IsValid s ufd new m v h hm own others =
      let room : ufd < length s.fds = omega (arith, v.size) in
      record {
        size = length-set s.fds ufd new ∙ v.size;
        max_lt = hm;
        filed = λ i item e. elim (Bool-cases (ufd == i)) [
          | inl same ↦
              IsFiled-cong m ufd i new item (sym (get_elem?-set-here s.fds ufd i new room same) ∙ e)
                same own
          | inr other ↦ λ used.
              let before : get_elem? s.fds i ≡ some item =
                sym (get_elem?-set-there s.fds ufd i new room other) ∙ e in
              let (at, _, handled) = v.filed i item before used in
              (at, others i item (apart ufd i other) before used, handled)
        ];
        reads = watched-set wants_read s.fds s.master_r ufd new _ room refl v.reads;
        writes = watched-set wants_write s.fds s.master_w ufd new _ room refl v.writes;
      }

  -- What a change of interest stores: the item with its new interest.
  pub selector_set_interest-replaced :
      (s : FdSelector H D) (ufd i : ℕ) (item : Item H D)
      → ufd < 1024
      → get_elem? s.fds ufd ≡ some item
      → item_used item ≡ true
      → selector_set_interest s (pos ufd) i
        ≡ some (selector_success, replaced s ufd (record item { interest = i }) s.max_fd)
  unfolding selector_set_interest items_update_fdset_for_fd
  selector_set_interest-replaced s ufd i item h at_ufd used =
      rw (selector_set_interest, valid_fd-below ufd h, at_ufd, used) refl

  pub clear_item-replaced :
      (s : FdSelector H D) (ufd m : ℕ)
      → items_max_fd (replaced s ufd blank_item s.max_fd) ≡ some m
      → clear_item s ufd ≡ some (replaced s ufd blank_item m)
  unfolding clear_item items_update_fdset_for_fd items_max_fd
  clear_item-replaced s ufd m h = rw h refl

  pub put_item-replaced :
      (s : FdSelector H D) (ufd : ℕ) (h : H) (interest : ℕ) (attached : Option D) (item : Item H D)
      → get_elem? s.fds ufd ≡ some item
      → item_used item ≡ false
      → put_item s ufd h interest attached
        ≡ some (
          selector_success,
          replaced s ufd
              (record { fd = pos ufd; interest = interest; handler = some h; attached = attached })
              (if ltb s.max_fd ufd then ufd else s.max_fd),
        )
  unfolding put_item items_update_fdset_for_fd
  put_item-replaced s ufd h interest attached item at_ufd unused = rw (at_ufd, unused) refl

  -- The loop finds a bound on the descriptors it meets, below the size of the table.
  pub items_max_fd_loop_lem :
      (items : List (Item H D)) (rounds max size : ℕ)
      → rounds ≤ length items
      → max < size
      → ((i : ℕ) (item : Item H D)
          → get_elem? items i ≡ some item
          → i < rounds
          → (fd : ℕ) → item.fd ≡ pos fd
          → fd < size)
      → (m : ℕ) × ((items_max_fd_loop items rounds max ≡ some m)
          × (max ≤ m)
          × (m < size)
          × ((i : ℕ) (item : Item H D)
              → get_elem? items i ≡ some item
              → i < rounds
              → (fd : ℕ) → item.fd ≡ pos fd
              → fd ≤ m))
  unfolding items_max_fd_loop
  items_max_fd_loop_lem items zero max size h hm below =
      (max, (refl, omega arith, hm, λ i item e lt. absurd (omega arith)))
  items_max_fd_loop_lem [] (suc rounds) max size h hm below = absurd (omega arith)
  items_max_fd_loop_lem (item ∷ items) (suc rounds) max size h hm below =
      let (more, fits, own) =
        max_fd_with_lem item.fd max size hm (below 0 item refl (omega arith)) in
      let (m, (eq, le, lt, all)) =
        items_max_fd_loop_lem items rounds (max_fd_with item.fd max) size (omega arith) fits
          (λ i item e lt. below (suc i) item e (omega arith)) in
      (m, (eq, omega (arith, more, le), lt, each m le own all))
    where
      each :
          (m : ℕ)
          → max_fd_with item.fd max ≤ m
          → ((fd : ℕ) → item.fd ≡ pos fd → fd ≤ max_fd_with item.fd max)
          → ((i : ℕ) (item : Item H D)
              → get_elem? items i ≡ some item
              → i < rounds
              → (fd : ℕ) → item.fd ≡ pos fd
              → fd ≤ m)
          → (i : ℕ) (found : Item H D) → get_elem? (item ∷ items) i ≡ some found
          → i < suc rounds
          → (fd : ℕ) → found.fd ≡ pos fd
          → fd ≤ m
      each m le own all zero found e lt fd is =
          omega (arith, le, own fd (ap (λ x. x.fd) (some-injective item found e) ∙ is))
      each m le own all (suc i) found e lt fd is = all i found e (omega arith) fd is

  -- The bound is where the loop started, or the descriptor of an item.
  pub items_max_fd_loop-attained :
      (items : List (Item H D)) (rounds max m : ℕ)
      → items_max_fd_loop items rounds max ≡ some m
      → (m ≡ max)
        ⊎ ((i : ℕ) × ((item : Item H D) × (get_elem? items i ≡ some item) × (item.fd ≡ pos m)))
  unfolding items_max_fd_loop
  items_max_fd_loop-attained items zero max m e = inl (sym (some-injective max m e))
  items_max_fd_loop-attained [] (suc rounds) max m e = absurd (ground arith)
  items_max_fd_loop-attained (x ∷ items) (suc rounds) max m e =
      elim (items_max_fd_loop-attained items rounds (max_fd_with x.fd max) m e) [
        | inr (i, (item, at, is)) ↦ inr (suc i, (item, at, is))
        | inl same ↦ elim (max_fd_with-attained x.fd max) [
          | inl kept ↦ inl (same ∙ kept)
          | inr own ↦ inr (0, (x, refl, own ∙ ap pos (sym same)))
        ]
      ]
