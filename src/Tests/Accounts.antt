-- ===== src/Tests/Accounts.antt =====
-- The table of src/user_utils.c with one user, and the counters of src/stadistics.c.
use pdc_20221c.Prelude.{
  ℕ, suc, ◌<◌, ltb, length, ◌≡◌, refl, some, none, List, [], ◌∷◌, ◌++◌, true, false, not, arith,
  if◌then◌else◌,
}
use pdc_20221c.Users.{UserList, add_user, delete_user, edit_user, get_all_users}
use pdc_20221c.Users.Text.{HasText, ends, goes}
use pdc_20221c.Users.Lookup.{Entry, empty, more, Refines, has, distinct, change}
use pdc_20221c.Users.Table.{add_user_lem}
use pdc_20221c.Users.Credentials.{edit_user_lem}
use pdc_20221c.Users.Listing.{IsGranted, doubled, no_more, one_more, listing, get_all_users_lem}
use pdc_20221c.Users.Unterminated.{add_user-unterminated}
use pdc_20221c.Stadistics.{stadistics_init}
use pdc_20221c.Stadistics.Counts.{InRange}

abbrev pub block_a : List ℕ
block_a = 97 ∷ 0 ∷ []

block_a-HasText : HasText block_a (97 ∷ [])
block_a-HasText = goes (ends [])

abbrev pub block_b : List ℕ
block_b = 98 ∷ 0 ∷ []

block_b-HasText : HasText block_b (98 ∷ [])
block_b-HasText = goes (ends [])

abbrev pub one_entry : Entry
one_entry = record { name = 97 ∷ []; pass = 98 ∷ []; admin = true }

abbrev pub one_list : UserList
one_list = record {
  first =
      record { is_admin = true; username = block_a; ulen = 2; password = block_b; upass = 2 } ∷ [];
  size = 1;
}

pub one_list-Refines : Refines one_list (one_entry ∷ [])
unfolding distinct has
one_list-Refines = record {
  shows = more (record { named = block_a-HasText; secret = block_b-HasText; role = refl }) empty;
  counted = refl;
  apart = refl;
}

abbrev pub other_entry : Entry
other_entry = record { name = 98 ∷ []; pass = 97 ∷ []; admin = false }

add_user_example :
    (list' : UserList) × (add_user one_list block_b 2 block_a 2 false true
      ≡ some (not (has (one_entry ∷ []) (98 ∷ [])), list'))
    × Refines list' (
        if has (one_entry ∷ []) (98 ∷ [])
        then one_entry ∷ []
        else (one_entry ∷ []) ++ (other_entry ∷ []))
add_user_example =
    add_user_lem one_list (one_entry ∷ []) block_b block_a other_entry 2 2 one_list-Refines
      (record { text_at = block_b-HasText; counts_end = omega arith; inside = omega arith })
      (record { text_at = block_a-HasText; counts_end = omega arith; inside = omega arith })

edit_user_example :
    (list' : UserList) × (edit_user one_list block_a block_a 2 true
      ≡ some (has (one_entry ∷ []) (97 ∷ []), list'))
    × Refines list' (change (one_entry ∷ []) (97 ∷ []) (97 ∷ []))
edit_user_example =
    edit_user_lem one_list (one_entry ∷ []) block_a (97 ∷ []) block_a (97 ∷ []) 2 one_list-Refines
      block_a-HasText block_a-HasText (omega arith)

-- There is no memory for a block of more than 1000 bytes.
get_all_users_example :
    (IsGranted (λ n. ltb n 1000) 255 (length (listing (one_entry ∷ [])))
      → get_all_users one_list true (λ n. ltb n 1000) ≡ some (some (listing (one_entry ∷ []))))
    × ((j : ℕ)
        → doubled 255 j < length (listing (one_entry ∷ []))
        → ltb (doubled 255 (suc j)) 1000 ≡ false
        → get_all_users one_list true (λ n. ltb n 1000) ≡ some none)
    × (get_all_users one_list false (λ n. ltb n 1000) ≡ some none)
get_all_users_example =
    get_all_users_lem one_list (one_entry ∷ []) (λ n. ltb n 1000) one_list-Refines
      (one_more refl (omega arith) no_more)

unterminated_example :
    (list' : UserList) × (add_user (record { first = []; size = 0 }) block_a 1 block_b 2 true true
      ≡ some (true, list'))
    × (delete_user list' block_a ≡ none)
unterminated_example =
    add_user-unterminated block_a (97 ∷ []) block_b 2 0 true block_a-HasText (omega arith)

pub init-InRange : InRange stadistics_init
unfolding stadistics_init
init-InRange = record { concurrent_le = omega arith; total_le = omega arith; sent_le = omega arith }
