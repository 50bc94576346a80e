-- ===== src/Users/Table.antt =====
-- The operations of src/user_utils.c on a table of terminated texts, against the list of entries.
use pdc_20221c.Prelude.{
  ℕ, ◌+◌, ◌-◌, ◌≤◌, ◌<◌, ◌≡◌, refl, some, List, [], ◌∷◌, ◌++◌, Bool, true, false, ◌&&◌, not, arith,
  if◌then◌else◌, length, length-append, Bool-cases, inl, inr,
}
use pdc_20221c.Users.{User, UserList, new_user, add_user_rec, add_user, remove_first, delete_user}
use pdc_20221c.Users.Text.{HasText, same_text, same_text-eq, strcmp_lem, copied_lem}
use pdc_20221c.Users.Lookup.{
  Entry, IsUser, Shows, empty, more, Refines, has, distinct, erase, distinct_append, distinct-erase,
  erase_absent,
}

-- What a caller of `add_user` passes: terminated texts, and sizes that count the terminators.
pub record IsArgument (block text : List ℕ) (n : ℕ) : Type 0 where
  pub text_at : HasText block text
  pub counts_end : length text < n
  pub inside : n ≤ length block

new_user_lem :
    (username password : List ℕ) (e : Entry) (ulen plen : ℕ)
    → IsArgument username e.name ulen
    → IsArgument password e.pass plen
    → (user : User) × (new_user username ulen password plen e.admin true ≡ some user)
      × IsUser user e
unfolding new_user
new_user_lem username password e ulen plen u p =
    let (name, en, hn) = copied_lem ulen u.text_at u.counts_end u.inside in
    let (pass, ep, hp) = copied_lem plen p.text_at p.counts_end p.inside in
    (
      record { is_admin = e.admin; username = name; ulen = ulen; password = pass; upass = plen },
      rw (en, ep) refl,
      record { named = hn; secret = hp; role = refl },
    )

Shows-if :
    (b : Bool) {x : User} {y : Entry} {us : List User} (es fs : List Entry)
    → IsUser x y
    → Shows us (if b then es else fs)
    → Shows (x ∷ us) (if b then y ∷ es else y ∷ fs)
Shows-if true es fs is shows = more is shows
Shows-if false es fs is shows = more is shows

add_user_rec_lem :
    (us : List User) (es : List Entry) (username password : List ℕ) (e : Entry) (ulen plen : ℕ)
    → Shows us es
    → IsArgument username e.name ulen
    → IsArgument password e.pass plen
    → (us' : List User) × (add_user_rec us username ulen password plen e.admin true
        ≡ some (us', not (has es e.name)))
      × Shows us' (if has es e.name then es else es ++ (e ∷ []))
unfolding add_user_rec has
add_user_rec_lem [] [] username password e ulen plen empty u p =
    let (user, made, is) = new_user_lem username password e ulen plen u p in
    (user ∷ [], rw made refl, more is empty)
add_user_rec_lem [] (y ∷ es) username password e ulen plen none_such u p = elim none_such [ ]
add_user_rec_lem (x ∷ us) [] username password e ulen plen none_such u p = elim none_such [ ]
add_user_rec_lem (x ∷ us) (y ∷ es) username password e ulen plen (more is shows) u p =
    elim (Bool-cases (same_text y.name e.name)) [
      | inl same ↦ (x ∷ us, rw (strcmp_lem is.named u.text_at, same) refl, rw same (more is shows))
      | inr other ↦
          let (us', run, shows') = add_user_rec_lem us es username password e ulen plen shows u p in
          (
            x ∷ us',
            rw (strcmp_lem is.named u.text_at, other, run) refl,
            rw other (Shows-if (has es e.name) es (es ++ (e ∷ [])) is shows'),
          )
    ]

length-Refines :
    (b : Bool) (n : ℕ) (es : List Entry) (e : Entry)
    → n ≡ length es
    → (if not b then n + 1 else n) ≡ length (if b then es else es ++ (e ∷ []))
length-Refines true n es e h = h
length-Refines false n es e h = omega (arith, h, length-append es (e ∷ []))

distinct_if :
    (es : List Entry) (e : Entry)
    → distinct es ≡ true
    → distinct (if has es e.name then es else es ++ (e ∷ [])) ≡ true
distinct_if es e d = elim (Bool-cases (has es e.name)) [
  | inl h ↦ rw h d
  | inr h ↦ rw h (distinct_append es e d h)
]

-- Adding a user whose sizes count the terminators, with memory, to a table of distinct names: the
-- result tells whether the name was new, and then the user is at the end; otherwise nothing changes.
-- The names stay distinct and `size` stays their number.
pub add_user_lem :
    (list : UserList) (es : List Entry) (username password : List ℕ) (e : Entry) (ulen plen : ℕ)
    → Refines list es
    → IsArgument username e.name ulen
    → IsArgument password e.pass plen
    → (list' : UserList) × (add_user list username ulen password plen e.admin true
        ≡ some (not (has es e.name), list'))
      × Refines list' (if has es e.name then es else es ++ (e ∷ []))
unfolding add_user
add_user_lem list es username password e ulen plen r u p =
    let (us', run, shows) =
      add_user_rec_lem list.first es username password e ulen plen r.shows u p in
    (
      record { first = us'; size = if not (has es e.name) then list.size + 1 else list.size },
      rw run refl,
      record {
        shows = shows;
        counted = length-Refines (has es e.name) list.size es e r.counted;
        apart = distinct_if es e r.apart;
      },
    )

-- A name that an entry has is in no later entry.
pub gone :
    (es : List Entry) (y name : List ℕ)
    → same_text y name ≡ true
    → (not (has es y) && distinct es) ≡ true
    → has es name ≡ false
gone es y name same d = rw (← same_text-eq y name same) (ground arith)

remove_first_lem :
    (us : List User) (es : List Entry) (username name : List ℕ)
    → Shows us es
    → distinct es ≡ true
    → HasText username name
    → (us' : List User) × (remove_first us username ≡ some (has es name, us'))
      × Shows us' (erase es name)
unfolding remove_first has erase distinct
remove_first_lem [] [] username name empty d h = ([], refl, empty)
remove_first_lem [] (y ∷ es) username name none_such d h = elim none_such [ ]
remove_first_lem (x ∷ us) [] username name none_such d h = elim none_such [ ]
remove_first_lem (x ∷ us) (y ∷ es) username name (more is shows) d h =
    elim (Bool-cases (same_text y.name name)) [
      | inl same ↦ (
        us,
        rw (strcmp_lem is.named h, same) refl,
        rw (same, erase_absent es name (gone es y.name name same d)) shows,
      )
      | inr other ↦
          let (us', run, shows') = remove_first_lem us es username name shows (ground arith) h in
          (x ∷ us', rw (strcmp_lem is.named h, other, run) refl, rw other (more is shows'))
    ]

has_pos : (es : List Entry) (name : List ℕ) → has es name ≡ true → 0 < length es
unfolding has
has_pos [] name h = absurd (ground arith)
has_pos (e ∷ es) name h = omega arith

length-erase :
    (es : List Entry) (name : List ℕ) (n : ℕ)
    → distinct es ≡ true
    → n ≡ length es
    → (if has es name then n - 1 else n) ≡ length (erase es name)
unfolding has erase distinct
length-erase [] name n d h = h
length-erase (e ∷ es) name n d h = elim (Bool-cases (same_text e.name name)) [
  | inl same ↦ rw (same, erase_absent es name (gone es e.name name same d)) (omega arith)
  | inr other ↦
      ground (arith, other, length-erase es name (length es) (ground arith) refl, has_pos es name)
]

-- Deleting a user from a table of distinct names: the result tells whether the name was there; the
-- table holds the other entries in their order, and `size` is their number.
pub delete_user_lem :
    (list : UserList) (es : List Entry) (username name : List ℕ)
    → Refines list es
    → HasText username name
    → (list' : UserList) × (delete_user list username ≡ some (has es name, list'))
      × Refines list' (erase es name)
unfolding delete_user
delete_user_lem list es username name r h =
    let (us', run, shows) = remove_first_lem list.first es username name r.shows r.apart h in
    (
      record { first = us'; size = if has es name then list.size - 1 else list.size },
      rw run refl,
      record {
        shows = shows;
        counted = length-erase es name list.size r.apart r.counted;
        apart = distinct-erase es name r.apart;
      },
    )
