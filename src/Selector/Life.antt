-- ===== src/Selector/Life.antt =====
-- The selector of src/selector.c as a whole: how it begins and ends, and what its errors are called.
pub mod Fresh
use Prim.Native.String.{String}
use pdc_20221c.Prelude.{
  ℕ, zero, suc, Option, none, some, Bool, true, false, List, [], ◌∷◌, if◌then◌else◌, ◌>>=◌, pos,
  get_elem?,
}
use pdc_20221c.Selector.{
  FdSelector, item_used, ensure_capacity, selector_unregister_fd, SelectorStatus, selector_success,
  selector_enomem, selector_maxfd, selector_iargs, selector_io,
}

-- SELECTOR_FDINUSE has no text of its own.
unfoldable pub selector_error : SelectorStatus → String
selector_error selector_success = "Success"
selector_error selector_enomem = "Not enough memory"
selector_error selector_maxfd = "Can't handle any more file descriptors"
selector_error selector_iargs = "Illegal argument"
selector_error selector_io = "I/O error"
selector_error _ = "something failed"

module _ {H D : Type 0} where
  -- The memory of a new selector, filled with 0.
  abbrev pub blank_selector : FdSelector H D
  blank_selector = record {
    fds = [];
    fd_size = 0;
    max_fd = 0;
    master_r = λ _. false;
    master_w = λ _. false;
    resolution_jobs = [];
  }

  -- The inner `none` is the null pointer. `selector_destroy` of a selector without a table only
  -- frees it.
  unfoldable pub selector_new : ℕ → Bool → Bool → Option (Option (FdSelector H D))
  unfolding ensure_capacity
  selector_new initial_elements got_selector got_table =
      if got_selector
      then (ensure_capacity blank_selector initial_elements got_table >>= λ (st, s).
          some (elim st [ selector_success ↦ some s | _ ↦ none ]))
      else some none

  module _ {W : Type 0} (handle_close : H → Option (ℕ → Option D → W → Option W)) where
    -- The loop over the table, with `rounds` left, from index `i` on.
    unfoldable pub destroy_loop : ℕ → ℕ → FdSelector H D → W → Option (FdSelector H D × W)
    destroy_loop zero i s w = some (s, w)
    destroy_loop (suc rounds) i s w = get_elem? s.fds i >>= λ item.
        (if item_used item
          then (selector_unregister_fd handle_close s (pos i) w >>= λ (_, s1, w1). some (s1, w1))
          else some (s, w))
        >>= λ (s1, w1). destroy_loop rounds (suc i) s1 w1

    -- Each job is freed before its `next` is read, as in `notify_loop`.
    unfoldable pub free_jobs : Bool → List ℕ → Option Bool
    free_jobs readable [] = some true
    free_jobs readable (fd ∷ jobs) = if readable then free_jobs readable jobs else none

    -- What is left is the rest of the program.
    unfoldable pub selector_destroy : Bool → FdSelector H D → W → Option W
    unfolding destroy_loop free_jobs
    selector_destroy readable s w = destroy_loop s.fd_size 0 s w >>= λ (s1, w1).
        free_jobs readable s1.resolution_jobs >>= λ _. some w1
