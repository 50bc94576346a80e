-- ===== src/Users/Listing.antt =====
-- `get_all_users` of src/user_utils.c: the table as the configuration protocol sends it.
use pdc_20221c.Prelude.{
  ℕ, suc, ◌+◌, ◌-◌, ◌*◌, ◌≤◌, ◌<◌, ◌≡◌, refl, ap, sym, some, List, [], ◌∷◌, ◌++◌, false, ◌||◌, ◌&&◌,
  not, Bool-cases, Option, inl, inr, Bool, none, true, zero, arith, if◌then◌else◌, ltb, leb, length,
  length-append, take, take-length-append, replicate,
}
use mathlib.Core.List.{append_assoc, append-nil}
use pdc_20221c.Users.{User, UserList, all_users_loop, get_all_users}
use pdc_20221c.Users.Text.{HasText, strcpy_bytes_lem}
use pdc_20221c.Users.Lookup.{Entry, Shows, empty, more, Refines}

-- Each user's name with its size in front of it and the terminator behind it.
unfoldable pub listing : List Entry → List ℕ
listing [] = []
listing (e ∷ es) = (suc (length e.name) ∷ (e.name ++ (0 ∷ []))) ++ listing es

-- The sizes count the terminators, and are at most 254.
pub data Counted : List User → List Entry → Type 0 where
  no_more : Counted [] []
  one_more :
      {u : User} {e : Entry} {us : List User} {es : List Entry}
      → u.ulen ≡ suc (length e.name)
      → length e.name < 254
      → Counted us es
      → Counted (u ∷ us) (e ∷ es)

enough :
    (init used n size : ℕ)
    → 255 ≤ init
    → used ≤ init
    → n < 254
    → size ≡ suc n
    → ltb (if leb init used || leb init (used + suc n) then init * 2 else init) (used + 1 + size)
      ≡ false
enough init used n size wide fits short e = ground arith

take_all : (n : ℕ) (bytes rest : List ℕ) → length bytes ≡ n → take n (bytes ++ rest) ≡ bytes
take_all n bytes rest e = rw (← e) (take-length-append bytes rest)

take_all_sized :
    (n : ℕ) (name : List ℕ)
    → n ≡ suc (length name)
    → take n ((name ++ (0 ∷ [])) ++ replicate (n - length (name ++ (0 ∷ []))) 0) ≡ name ++ (0 ∷ [])
take_all_sized n name e =
    let bytes = name ++ (0 ∷ []) in
    take_all n bytes (replicate (n - length bytes) 0)
      (omega (arith, length-append name (0 ∷ []), e))

-- The size of the block after `j` doublings.
abbrev pub doubled : ℕ → ℕ → ℕ
doubled init zero = init
doubled init (suc j) = doubled (init * 2) j

doubled_le : (init j : ℕ) → init ≤ doubled init j
doubled_le init zero = omega arith
doubled_le init (suc j) = omega (arith, doubled_le (init * 2) j)

-- The bytes of a user.
abbrev piece : Entry → List ℕ
piece e = suc (length e.name) ∷ (e.name ++ (0 ∷ []))

abbrev is_full : ℕ → List ℕ → Entry → Bool
is_full init acc e = leb init (length acc) || leb init (length acc + suc (length e.name))

abbrev next_size : ℕ → List ℕ → Entry → ℕ
next_size init acc e = if is_full init acc e then init * 2 else init

length-piece :
    (acc : List ℕ) (e : Entry) → length (acc ++ piece e) ≡ length acc + suc (suc (length e.name))
length-piece acc e = omega (arith, length-append acc (piece e), length-append e.name (0 ∷ []))

-- A round of a full block without memory ends; any other appends a user, and the block holds it.
full_round :
    (k : ℕ) (u : User) (us : List User) (init : ℕ) (acc : List ℕ) (realloc : ℕ → Bool) (e : Entry)
    → u.ulen ≡ suc (length e.name)
    → is_full init acc e ≡ true
    → realloc (init * 2) ≡ false
    → all_users_loop (suc k) (u ∷ us) init acc realloc ≡ some none
unfolding all_users_loop
full_round k u us init acc realloc e counts full refused = rw (counts, full, refused) refl

all_users_step :
    (k : ℕ) (u : User) (us : List User) (init : ℕ) (acc : List ℕ) (realloc : ℕ → Bool) (e : Entry)
    → HasText u.username e.name
    → u.ulen ≡ suc (length e.name)
    → length e.name < 254
    → 255 ≤ init
    → length acc ≤ init
    → (is_full init acc e && not (realloc (next_size init acc e))) ≡ false
    → all_users_loop (suc k) (u ∷ us) init acc realloc
      ≡ all_users_loop k us (next_size init acc e) (acc ++ piece e) realloc
unfolding all_users_loop
all_users_step k u us init acc realloc e h counts short wide fits granted =
    let size : length (e.name ++ (0 ∷ [])) ≡ suc (length e.name) =
      omega (arith, length-append e.name (0 ∷ [])) in
    rw
      (
        counts,
        granted,
        strcpy_bytes_lem h,
        enough init (length acc) (length e.name) (length (e.name ++ (0 ∷ []))) wide fits short size,
        take_all_sized (suc (length e.name)) e.name refl,
      )
      refl

-- What the used part and the users to come need of the block.
abbrev need : List ℕ → List Entry → ℕ
need acc es = length acc + length (listing es)

need_step :
    (acc : List ℕ) (e : Entry) (es : List Entry) → need (acc ++ piece e) es ≡ need acc (e ∷ es)
unfolding listing
need_step acc e es =
    omega (arith, length-append acc (piece e), length-append (piece e) (listing es))

need_full :
    (init : ℕ) (acc : List ℕ) (e : Entry) (es : List Entry)
    → length acc ≤ init
    → is_full init acc e ≡ true
    → init < need acc (e ∷ es)
unfolding listing
need_full init acc e es fits full =
    let l = length-append (piece e) (listing es) in
    let n = length-append e.name (0 ∷ []) in
    let le : init ≤ length acc + suc (length e.name) = ground arith in omega (arith, l, n, le)

-- There is memory for each doubling of a block that is too small.
abbrev pub IsGranted : (ℕ → Bool) → ℕ → ℕ → Type 0
IsGranted realloc init size =
    (j : ℕ) → doubled init j < size → realloc (doubled init (suc j)) ≡ true

fits_next :
    (init : ℕ) (acc : List ℕ) (e : Entry)
    → 255 ≤ init
    → length acc ≤ init
    → length e.name < 254
    → (255 ≤ next_size init acc e) × (length (acc ++ piece e) ≤ next_size init acc e)
fits_next init acc e wide fits short =
    let l = length-piece acc e in (ground (arith, l), ground (arith, l))

-- The listing if there is memory for every growth that is needed, and the null pointer if not.
abbrev pub Outcome : (ℕ → Bool) → ℕ → ℕ → List ℕ → Option (Option (List ℕ)) → Type 0
Outcome realloc init size text run =
    (IsGranted realloc init size → run ≡ some (some text))
    × ((j : ℕ) → doubled init j < size → realloc (doubled init (suc j)) ≡ false → run ≡ some none)

grown_null :
    (realloc : ℕ → Bool) (init size : ℕ) (text : List ℕ) (run : Option (Option (List ℕ)))
    → realloc (init * 2) ≡ true
    → Outcome realloc (init * 2) size text run
    → (j : ℕ) → doubled init j < size
    → realloc (doubled init (suc j)) ≡ false
    → run ≡ some none
grown_null realloc init size text run got o zero lt refused = absurd (ground arith)
grown_null realloc init size text run got o (suc j) lt refused = o.1 j lt refused

grown :
    (realloc : ℕ → Bool) (init size : ℕ) (text : List ℕ) (run : Option (Option (List ℕ)))
    → realloc (init * 2) ≡ true
    → Outcome realloc (init * 2) size text run
    → Outcome realloc init size text run
grown realloc init size text run got o =
    (λ g. o.0 (λ j lt. g (suc j) lt), grown_null realloc init size text run got o)

refused :
    (realloc : ℕ → Bool) (init size : ℕ) (text : List ℕ) (run : Option (Option (List ℕ)))
    → init < size
    → realloc (init * 2) ≡ false
    → run ≡ some none
    → Outcome realloc init size text run
refused realloc init size text run lt none_left e =
    (λ g. absurd (clash (g 0 lt) none_left), λ j _ _. e)
  where
    clash : {b : Bool} → b ≡ true → b ≡ false → ⊥
    clash yes_it_is no_it_is = ground arith

-- A round that appends a user, for what comes after it.
appended :
    (realloc : ℕ → Bool) (init : ℕ) (acc : List ℕ) (e : Entry) (es : List Entry)
    (run run' : Option (Option (List ℕ)))
    → run ≡ run'
    → Outcome realloc init (need (acc ++ piece e) es) ((acc ++ piece e) ++ listing es) run'
    → Outcome realloc init (need acc (e ∷ es)) (acc ++ listing (e ∷ es)) run
unfolding listing
appended realloc init acc e es run run' same o =
    rw (← need_step acc e es, ← append_assoc acc (piece e) (listing es), same) o

ended :
    (realloc : ℕ → Bool) (init : ℕ) (acc : List ℕ)
    → length acc ≤ init
    → Outcome realloc init (need acc []) (acc ++ listing []) (all_users_loop 0 [] init acc realloc)
unfolding all_users_loop listing
ended realloc init acc fits = (
  λ granted. ap (λ xs. some (some xs)) (sym (append-nil acc)),
  λ j lt none_left. absurd (omega (arith, doubled_le init j)),
)

loop_lem :
    (us : List User) (es : List Entry) (init : ℕ) (acc : List ℕ) (realloc : ℕ → Bool)
    → Shows us es
    → Counted us es
    → 255 ≤ init
    → length acc ≤ init
    → Outcome realloc init
        (need acc es)
        (acc ++ listing es)
        (all_users_loop (length es) us init acc realloc)
loop_lem [] [] init acc realloc empty no_more wide fits = ended realloc init acc fits
loop_lem [] (e ∷ es) init acc realloc none_such counted wide fits = elim none_such [ ]
loop_lem (u ∷ us) [] init acc realloc none_such counted wide fits = elim none_such [ ]
loop_lem (u ∷ us) (e ∷ es) init acc realloc (more is shows) (one_more n short counted) wide fits =
    let (wide', fits') = fits_next init acc e wide fits short in
    let k = length es in
    let next =
      loop_lem us es (next_size init acc e) (acc ++ piece e) realloc shows counted wide' fits' in
    let step = all_users_step k u us init acc realloc e is.named n short wide fits in
    elim (Bool-cases (is_full init acc e)) [
      | inl full ↦ elim (Bool-cases (realloc (init * 2))) [
        | inl got ↦ grown realloc init _ _ _ got (
            appended realloc (init * 2) acc e es _ _ (rw full at (step (rw (full, got) refl)))
              (rw full at next))
        | inr none_left ↦
            refused realloc init _ _ _ (need_full init acc e es fits full) none_left
              (full_round k u us init acc realloc e n full none_left)
      ]
      | inr roomy ↦
          appended realloc init acc e es _ _ (rw roomy at (step (rw roomy refl))) (rw roomy at next)
    ]

-- The listing of a table whose sizes count the terminators and are at most 254 does not overrun its
-- block, and is each user's name, in order, with its size in front of it and a terminator behind it,
-- if there is memory for the first block of 255 bytes, and for each doubling of a block that is
-- smaller than the whole listing. If there is no memory for the first block, or for one of those
-- doublings, the result is the null pointer.
pub get_all_users_lem :
    (list : UserList) (es : List Entry) (realloc : ℕ → Bool)
    → Refines list es
    → Counted list.first es
    → (IsGranted realloc 255 (length (listing es))
        → get_all_users list true realloc ≡ some (some (listing es)))
      × ((j : ℕ)
          → doubled 255 j < length (listing es)
          → realloc (doubled 255 (suc j)) ≡ false
          → get_all_users list true realloc ≡ some none)
      × (get_all_users list false realloc ≡ some none)
unfolding get_all_users
get_all_users_lem list es realloc r counted =
    let size : need [] es ≡ length (listing es) = omega arith in
    let o = loop_lem list.first es 255 [] realloc r.shows counted (omega arith) (omega arith) in
    (
      λ granted. rw r.counted (o.0 (λ j lt. granted j (rw size at lt))),
      λ j lt none_left. rw r.counted (o.1 j (rw size lt) none_left),
      refl,
    )
