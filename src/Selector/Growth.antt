-- ===== src/Selector/Growth.antt =====
-- A table of src/selector.c that grows shows what it showed before.
use pdc_20221c.Prelude.{
  ℕ, zero, suc, ◌-◌, ◌≤◌, some, Bool, true, false, List, [], ◌∷◌, ◌++◌, ◌≡◌, refl, ◌∙◌, sym, arith,
  length-append, length-replicate, replicate, get_elem?,
}
use mathlib.Core.Option.{some-injective}
use pdc_20221c.Selector.{FdSelector, Item, item_used, blank_item, wants_read, wants_write, grow}
use pdc_20221c.Selector.Invariant.{IsValid, watched, taken, taken_in}

pub clash : (b : Bool) → b ≡ true → b ≡ false → ⊥
clash b h k = ground arith

module _ {H D : Type 0} where
  pub blank_unused :
      (n i : ℕ) (item : Item H D)
      → get_elem? (replicate n blank_item) i ≡ some item
      → item_used item ≡ false
  blank_unused zero i item e = absurd (ground arith)
  blank_unused (suc n) zero item e = rw (← some-injective blank_item item e) refl
  blank_unused (suc n) (suc i) item e = blank_unused n i item e

  used_before :
      (items : List (Item H D)) (n i : ℕ) (item : Item H D)
      → get_elem? (items ++ replicate n blank_item) i ≡ some item
      → item_used item ≡ true
      → get_elem? items i ≡ some item
  used_before [] n i item e used = absurd (clash (item_used item) used (blank_unused n i item e))
  used_before (x ∷ items) n zero item e used = e
  used_before (x ∷ items) n (suc i) item e used = used_before items n i item e used

  pub watched_before :
      (wants : ℕ → Bool) (items : List (Item H D)) (n i : ℕ)
      → watched wants (items ++ replicate n blank_item) i ≡ watched wants items i
  watched_before wants [] zero i = refl
  watched_before wants [] (suc n) zero = refl
  watched_before wants [] (suc n) (suc i) = watched_before wants [] n i
  watched_before wants (x ∷ items) n zero = refl
  watched_before wants (x ∷ items) n (suc i) = watched_before wants items n i

  pub grow-IsValid : (s : FdSelector H D) (m : ℕ) → IsValid s → s.fd_size ≤ m → IsValid (grow s m)
  grow-IsValid s m v h = record {
    size =
        length-append s.fds (replicate (m - s.fd_size) blank_item)
        ∙ omega (arith, v.size, length-replicate (m - s.fd_size) (blank_item {H = H} {D = D}));
    max_lt = omega (arith, v.max_lt);
    filed = λ i item e used. v.filed i item (used_before s.fds (m - s.fd_size) i item e used) used;
    reads = λ i. v.reads i ∙ sym (watched_before wants_read s.fds (m - s.fd_size) i);
    writes = λ i. v.writes i ∙ sym (watched_before wants_write s.fds (m - s.fd_size) i);
  }

  taken_before :
      (items : List (Item H D)) (n i : ℕ)
      → taken_in (items ++ replicate n blank_item) i ≡ taken_in items i
  taken_before [] zero i = refl
  taken_before [] (suc n) zero = refl
  taken_before [] (suc n) (suc i) = taken_before [] n i
  taken_before (x ∷ items) n zero = refl
  taken_before (x ∷ items) n (suc i) = taken_before items n i

  pub taken-grow : (s : FdSelector H D) (m i : ℕ) → taken (grow s m) i ≡ taken s i
  taken-grow s m i = taken_before s.fds (m - s.fd_size) i
