-- ===== src/Automaton.antt =====
-- src/parser/parser.c and src/parser/parser_utils.c: a parser that runs a table of transitions, and the
-- table that compares with a text, ignoring the case of letters.
-- A state is the list of its transitions, for the pointer in `states` and the number in `states_n`.
-- `none` is an access out of bounds, or a call through the null pointer.
pub mod Steps
pub mod Compare
use pdc_20221c.Prelude.{
  ℕ, zero, suc, ◌+◌, ◌-◌, ◌/◌, ◌%◌, Option, none, some, Bool, true, false, ◌&&◌, ◌||◌, List, [],
  ◌∷◌, ◌++◌, ◌==◌, ltb, leb, if◌then◌else◌, ◌>>=◌, ℤ, pos, negsuc, length, replicate, get_elem?,
}

-- `next` is whether the second event follows.
pub record ParserEvent : Type 0 where
  pub type : ℕ
  pub data_bytes : List ℕ
  pub n : ℕ
  pub next : Bool

abbrev pub Action : Type 0
Action = ParserEvent → ℕ → ParserEvent

pub record Transition : Type 0 where
  pub when : ℤ
  pub dest : ℕ
  pub act1 : Option Action
  pub act2 : Option Action

pub record ParserDefinition : Type 0 where
  pub states_count : ℕ
  pub states : List (List Transition)
  pub start_state : ℕ

-- `struct parser`
pub record TableParser : Type 0 where
  pub classes : List ℕ
  pub def : ParserDefinition
  pub state : ℕ
  pub e1 : ParserEvent
  pub e2 : ParserEvent

abbrev pub no_event : ParserEvent
no_event = record { type = 0; data_bytes = 0 ∷ 0 ∷ 0 ∷ []; n = 0; next = false }

-- The inner `none` is the null pointer.
unfoldable pub parser_init : List ℕ → ParserDefinition → Bool → Option TableParser
parser_init classes def got_memory =
    if got_memory
    then some (record {
      classes = classes;
      def = def;
      state = def.start_state;
      e1 = no_event;
      e2 = no_event;
    })
    else none

unfoldable pub parser_reset : TableParser → TableParser
parser_reset p = record p { state = p.def.start_state }

-- `ANY`
abbrev pub any : ℕ
any = 512

-- `(a & b) != 0` on the lowest bits
unfoldable pub shares_bit : ℕ → ℕ → ℕ → Bool
shares_bit zero a b = false
shares_bit (suc k) a b = (a % 2 == 1 && b % 2 == 1) || shares_bit k (a / 2) (b / 2)

-- Whether a transition is taken. A byte is never negative.
unfoldable pub matched : ℤ → ℕ → ℕ → Bool
unfolding shares_bit
matched (negsuc _) class c = false
matched (pos when) class c =
    if leb when 0xFF then c == when else if when == any then true else shares_bit 32 class when

-- A transition that is taken.
unfoldable pub take_transition : TableParser → Transition → ℕ → Option TableParser
take_transition p t c = t.act1 >>= λ act1. elim t.act2 [
  | none ↦ some (record p { e1 = act1 p.e1 c; state = t.dest })
  | some act2 ↦
      some
        (record p { e1 = record (act1 p.e1 c) { next = true }; e2 = act2 p.e2 c; state = t.dest })
]

-- The loop over the transitions of a state.
unfoldable pub feed_loop : List Transition → TableParser → ℕ → ℕ → Option TableParser
unfolding matched take_transition
feed_loop [] p class c = some p
feed_loop (t ∷ ts) p class c =
    let later = feed_loop ts p class c in
    if matched t.when class c then take_transition p t c else later

-- The event that is returned is the first one of the parser.
unfoldable pub parser_feed : TableParser → ℕ → Option TableParser
unfolding feed_loop
parser_feed p c = get_elem? p.classes c >>= λ class. get_elem? p.def.states p.state >>= λ ts.
    feed_loop ts (record p { e1 = record p.e1 { next = false }; e2 = record p.e2 { next = false } })
      class c

-- An array of 255 zeros.
unfoldable pub parser_no_classes : List ℕ
parser_no_classes = replicate 0xFF 0

-- `enum string_cmp_event_types`
abbrev pub string_cmp_mayeq : ℕ
string_cmp_mayeq = 0

abbrev pub string_cmp_eq : ℕ
string_cmp_eq = 1

abbrev pub string_cmp_neq : ℕ
string_cmp_neq = 2

-- The three actions set the same fields.
abbrev pub set_event : ℕ → Action
set_event type e c = record e {
  type = type;
  n = 1;
  data_bytes = elim e.data_bytes [ [] ↦ [] | _ ∷ ds ↦ c ∷ ds ];
}

abbrev pub may_eq : Action
may_eq = set_event string_cmp_mayeq

abbrev pub eq : Action
eq = set_event string_cmp_eq

abbrev pub neq : Action
neq = set_event string_cmp_neq

-- The C library's functions in the C locale.
unfoldable pub tolower : ℕ → ℕ
tolower c = if leb 65 c && leb c 90 then c + 32 else c

unfoldable pub toupper : ℕ → ℕ
toupper c = if leb 97 c && leb c 122 then c - 32 else c

-- A `char` is signed, and the two functions leave those alone that are negative.
unfoldable pub char_when : (ℕ → ℕ) → ℕ → ℤ
char_when change c = if ltb c 128 then pos (change c) else negsuc (255 - c)

abbrev pub to_neq : ℕ → Transition
to_neq n = record { when = pos any; dest = n + 1; act1 = some neq; act2 = none }

-- The transitions of the state `i` of a text of `n` characters.
unfoldable pub compare_row : ℕ → ℕ → ℕ → List Transition
unfolding char_when tolower toupper
compare_row n i c =
    let dest = if i + 1 == n then n else i + 1 in
    let act = if i + 1 == n then eq else may_eq in
    record { when = char_when tolower c; dest = dest; act1 = some act; act2 = none }
    ∷ record { when = char_when toupper c; dest = dest; act1 = some act; act2 = none }
    ∷ to_neq n
    ∷ []

-- The loop over the text from its character `i` on.
unfoldable pub compare_rows : ℕ → ℕ → List ℕ → List (List Transition)
unfolding compare_row
compare_rows n i [] = []
compare_rows n i (c ∷ cs) = compare_row n i c ∷ compare_rows n (i + 1) cs

unfoldable pub parser_utils_strcmpi : List ℕ → Bool → ParserDefinition
unfolding compare_rows
parser_utils_strcmpi s got_memory =
    let n = length s in
    if got_memory
    then record {
      states_count = n + 2;
      states = compare_rows n 0 s ++ ((to_neq n ∷ []) ∷ (to_neq n ∷ []) ∷ []);
      start_state = 0;
    }
    else record { states_count = 0; states = []; start_state = 0 }
