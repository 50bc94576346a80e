-- ===== src/Prawtos/Commands/Listed.antt =====
-- The request of src/prawtos/cmd_prawtos.c for the users of src/user_utils.c.
use pdc_20221c.Prelude.{
  ℕ, suc, ◌+◌, ◌-◌, ◌≤◌, ◌≡◌, refl, ◌∙◌, some, true, false, List, [], ◌∷◌, ◌++◌, ◌%◌, pos, length,
  length-append, arith, ◌==◌,
}
use pdc_20221c.Buffer.{Buffer}
use pdc_20221c.Buffer.Contents.{Holds}
use pdc_20221c.Parser.Prawtos.{PrawtosParser, prawtos_parser_done, prawtos_is_done}
use pdc_20221c.Parser.Prawtos.Answer.{get_marshal, get_marshal_lem}
use pdc_20221c.Parser.Prawtos.Message.{get_lem}
use pdc_20221c.Prawtos.{
  PrawtosWorld, get_handlers, get_users_func, cmd_process, cmd_read, cmd_write_prawtos, success,
}
use pdc_20221c.Prawtos.Commands.{IsIdle, at_request, cmd_read-processed}
use pdc_20221c.Prawtos.Commands.Counters.{asked_get}
use pdc_20221c.Selector.{FdSelector}
use pdc_20221c.Users.{get_nusers}
use pdc_20221c.Users.Listing.{Counted, listing, get_all_users_lem}
use pdc_20221c.Users.Lookup.{Entry, Refines}

-- The listing of a table with a user, from its first byte on.
abbrev after_size : Entry → List Entry → List ℕ
after_size e es = (e.name ++ (0 ∷ [])) ++ listing es

listing_size :
    (e : Entry) (es : List Entry)
    → (listing (e ∷ es) ≡ suc (length e.name) ∷ after_size e es)
      × (suc (length e.name) ≤ length (after_size e es))
unfolding listing
listing_size e es =
    let whole = length-append (e.name ++ (0 ∷ [])) (listing es) in
    (refl, omega (arith, whole, length-append e.name (0 ∷ [])))

module _ {H D : Type 0} where
  -- The session with the listing as the arguments of its answer.
  abbrev with_listing : PrawtosWorld H D → List ℕ → ℕ → PrawtosWorld H D
  with_listing w listed n = record w { nargs = n; args = listed; status = success }

  users_lem :
      (w : PrawtosWorld H D) (es : List Entry)
      → Refines w.users es
      → Counted w.users.first es
      → get_handlers 3 w true
        ≡ some (length (listing es), with_listing w (listing es) (length es % 256))
  unfolding get_handlers get_users_func get_nusers
  users_lem w es r counted =
      let listed = (get_all_users_lem w.users es (λ n. true) r counted).0 (λ j lt. refl) in
      rw (listed, r.counted) refl

  users_process :
      (w : PrawtosWorld H D) (p : PrawtosParser) (first n len : ℕ) (args : List ℕ) (b out : Buffer)
      (made : ℕ) (s : FdSelector H D)
      → get_handlers 3 (at_request w (asked_get p 3) b s) true
        ≡ some (suc len, with_listing (at_request w (asked_get p 3) b s) (first ∷ args) n)
      → get_marshal w.write_buffer success 3 n (first ∷ args) ≡ some (pos made, out)
      → cmd_process (at_request w (asked_get p 3) b s) true
        ≡ some (
          cmd_write_prawtos,
          record (with_listing (at_request w (asked_get p 3) b s) (first ∷ args) n) {
            write_buffer = out;
          },
        )
  unfolding cmd_process
  users_process w p first n len args b out made s handled answer =
      let some_args : (suc len == 0) ≡ false = ground arith in rw (handled, some_args, answer) refl

  -- A session that waits for a request and has room in its buffers gets a GET request for the users,
  -- there is a user, the table's sizes count the terminators and are at most 254, and there is memory:
  -- the answer is the status, the command, the number of users in a byte, and each user's name, in
  -- order, with its size in front of it and a terminator behind it. The table of users is left, bytes
  -- behind the request are kept, and the session waits to write.
  pub cmd_read-users :
      (w : PrawtosWorld H D) (k : ℕ) (rest : List ℕ) (e : Entry) (es : List Entry)
      → IsIdle w k
      → Refines w.users (e ∷ es)
      → Counted w.users.first (e ∷ es)
      → 2 + length rest ≤ w.read_buffer.limit - w.read_buffer.write
      → 3 + length (listing (e ∷ es)) ≤ w.write_buffer.limit - w.write_buffer.write
      → (w' : PrawtosWorld H D) × (cmd_read w (pos k) (some (0x00 ∷ 3 ∷ rest)) true
          ≡ some (cmd_write_prawtos, w'))
        × Holds w'.write_buffer (success ∷ 3 ∷ length (e ∷ es) % 256 ∷ listing (e ∷ es))
        × (w'.users ≡ w.users)
        × Holds w'.read_buffer rest
        × (w'.selector.master_w k ≡ true)
  unfolding prawtos_is_done listing
  cmd_read-users w k rest e es idle r counted room answer_room =
      let p = asked_get w.parser 3 in
      let (b', (s, run, hrest, changed)) =
        cmd_read-processed w k (0x00 ∷ 3 ∷ rest) rest true false prawtos_parser_done p idle
          (omega (arith, room)) (get_lem rest (some false) w.parser w.parser.state idle.start 3)
          refl in
      let w1 = at_request w p b' s in
      let (_, small) = listing_size e es in
      let (out, answer, ho) =
        get_marshal_lem w.write_buffer [] (after_size e es) success 3 (length (e ∷ es) % 256)
          (suc (length e.name)) idle.output answer_room (omega (arith, small, answer_room)) in
      (
        record (with_listing w1 (listing (e ∷ es)) (length (e ∷ es) % 256)) { write_buffer = out },
        run
            ∙ rw
                (users_process w w.parser (suc (length e.name)) (length (e ∷ es) % 256)
                  (length (after_size e es)) (after_size e es) b' out _ s
                  (users_lem w1 (e ∷ es) r counted) answer)
                refl,
        ho,
        refl,
        hrest,
        changed.writes_it,
      )
