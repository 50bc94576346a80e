-- ===== src/Users.antt =====
-- src/user_utils.c and include/user_utils.h: the table of users, a linked list.
-- A `char *` is the block it points to; `none` is an access outside of a block or through a null
-- pointer. `got_memory` is whether the calls of `malloc` and `realloc` of an operation succeed.
pub mod Text
pub mod Lookup
pub mod Table
pub mod Credentials
pub mod Listing
pub mod Unterminated
use pdc_20221c.Prelude.{
  ℕ, zero, suc, ◌+◌, ◌-◌, ◌*◌, Option, none, some, Bool, true, false, ◌&&◌, ◌||◌, not, List, [],
  ◌∷◌, ◌++◌, ltb, leb, ◌==◌, if◌then◌else◌, ◌>>=◌, length, take, replicate, write_at, set,
}

-- `struct User`, less the link
pub record User : Type 0 where
  pub is_admin : Bool
  pub username : List ℕ
  pub ulen : ℕ
  pub password : List ℕ
  pub upass : ℕ

-- `struct user_list`
pub record UserList : Type 0 where
  pub first : List User
  pub size : ℕ

-- `strcmp(a, b) == 0`; it reads up to the first difference or the terminator.
unfoldable pub strcmp : List ℕ → List ℕ → Option Bool
strcmp [] ys = none
strcmp (a ∷ rest) [] = none
strcmp (a ∷ xs) (b ∷ ys) =
    let rest = strcmp xs ys in if a == b then (if a == 0 then some true else rest) else some false

-- `memcpy` of `n` bytes into a new block of that size
unfoldable pub copied : List ℕ → ℕ → Option (List ℕ)
copied block n = if leb n (length block) then some (take n block) else none

-- The bytes that `strcpy` writes: up to the terminator, and it.
unfoldable pub strcpy_bytes : List ℕ → Option (List ℕ)
strcpy_bytes [] = none
strcpy_bytes (zero ∷ cs) = some (0 ∷ [])
strcpy_bytes (suc c ∷ cs) = do rest ← strcpy_bytes cs; some (suc c ∷ rest)

-- The new user at the end of the list. `aux` is used before it is compared with null.
unfoldable pub new_user : List ℕ → ℕ → List ℕ → ℕ → Bool → Bool → Option User
unfolding copied
new_user username ulen password plen admin got_memory = do
  name ← copied username ulen
  pass ← copied password plen
  let user : User = record {
    is_admin = admin;
    username = name;
    ulen = ulen;
    password = pass;
    upass = plen;
  }
  if got_memory then some user else none

unfoldable pub add_user_rec :
    List User → List ℕ → ℕ → List ℕ → ℕ → Bool → Bool → Option (List User × Bool)
unfolding new_user strcmp
add_user_rec [] username ulen password plen admin got_memory = do
  aux ← new_user username ulen password plen admin got_memory
  some (aux ∷ [], true)
add_user_rec (first ∷ next) username ulen password plen admin got_memory = do
  same ← strcmp first.username username
  elim same [
    | true ↦ some (first ∷ next, false)
    | false ↦ do
      (next', added) ← add_user_rec next username ulen password plen admin got_memory
      some (first ∷ next', added)
  ]

unfoldable pub add_user :
    UserList → List ℕ → ℕ → List ℕ → ℕ → Bool → Bool → Option (Bool × UserList)
unfolding add_user_rec
add_user list username ulen password plen admin got_memory = do
  (first, added) ← add_user_rec list.first username ulen password plen admin got_memory
  some (added, record { first = first; size = if added then list.size + 1 else list.size })

-- The loop of `delete_user` and what it does to the list where it stops.
unfoldable pub remove_first : List User → List ℕ → Option (Bool × List User)
unfolding strcmp
remove_first [] username = some (false, [])
remove_first (curr ∷ next) username = do
  same ← strcmp curr.username username
  elim same [
    | true ↦ some (true, next)
    | false ↦ do (found, next') ← remove_first next username; some (found, curr ∷ next')
  ]

unfoldable pub delete_user : UserList → List ℕ → Option (Bool × UserList)
unfolding remove_first
delete_user list username = do
  (found, first) ← remove_first list.first username
  some (found, record { first = first; size = if found then list.size - 1 else list.size })

-- `realloc` to `upass` bytes and `strcpy` into them; the bytes behind the terminator are 0 here.
unfoldable pub new_password : List ℕ → ℕ → Bool → Option (List ℕ)
unfolding strcpy_bytes
new_password password upass got_memory = do
  bytes ← strcpy_bytes password
  if got_memory && leb (length bytes) upass
      then some (bytes ++ replicate (upass - length bytes) 0)
      else none

unfoldable pub edit_first : List User → List ℕ → List ℕ → ℕ → Bool → Option (Bool × List User)
unfolding strcmp new_password
edit_first [] username password upass got_memory = some (false, [])
edit_first (curr ∷ next) username password upass got_memory = do
  same ← strcmp curr.username username
  elim same [
    | true ↦ do
      pass ← new_password password upass got_memory
      some (true, record curr { password = pass; upass = upass } ∷ next)
    | false ↦ do
      (found, next') ← edit_first next username password upass got_memory
      some (found, curr ∷ next')
  ]

unfoldable pub edit_user : UserList → List ℕ → List ℕ → ℕ → Bool → Option (Bool × UserList)
unfolding edit_first
edit_user list username password upass got_memory = do
  (found, first) ← edit_first list.first username password upass got_memory
  some (found, record list { first = first })

-- 0 for an administrator with these credentials. The password is compared only if the name agrees.
unfoldable pub check_first : List User → List ℕ → List ℕ → Option ℕ
unfolding strcmp
check_first [] uname passwd = some 1
check_first (current ∷ next) uname passwd = do
  same_name ← strcmp uname current.username
  same_pass ← elim same_name [ false ↦ some false | true ↦ strcmp passwd current.password ]
  elim (same_pass && current.is_admin) [ true ↦ some 0 | false ↦ check_first next uname passwd ]

unfoldable pub user_check_credentials : UserList → List ℕ → List ℕ → Option ℕ
unfolding check_first
user_check_credentials list uname passwd = check_first list.first uname passwd

unfoldable pub get_nusers : UserList → ℕ
get_nusers list = list.size

-- The loop of `get_all_users`: `init` is the size of the block and `all_users` its used part, whose
-- length is `cont`. A round grows the block at most once; `realloc` tells for a new size whether
-- there is memory for it, and without it the block is freed and the result is the null pointer, `some
-- none`. `none` is a write past the block, or a user that is not there.
unfoldable pub all_users_loop : ℕ → List User → ℕ → List ℕ → (ℕ → Bool) → Option (Option (List ℕ))
unfolding strcpy_bytes
all_users_loop zero users init all_users realloc = some (some all_users)
all_users_loop (suc k) [] init all_users realloc = none
all_users_loop (suc k) (user ∷ next) init all_users realloc =
    let cont = length all_users in
    let full = leb init cont || leb init (cont + user.ulen) in
    let init' = if full then init * 2 else init in
    if full && not (realloc init')
    then some none
    else (strcpy_bytes user.username >>= λ name.
        if ltb init' (cont + 1 + length name)
        then none
        else all_users_loop k next init'
            (all_users
              ++ user.ulen ∷ take user.ulen (name ++ replicate (user.ulen - length name) 0))
            realloc)

-- `got_memory` is whether there is memory for the first block.
unfoldable pub get_all_users : UserList → Bool → (ℕ → Bool) → Option (Option (List ℕ))
unfolding all_users_loop
get_all_users list got_memory realloc =
    if not got_memory then some none else all_users_loop list.size list.first 255 [] realloc
