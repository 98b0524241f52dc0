-- ===== src/Demangle/Machine.antt =====
-- demangle.cc: the parser's state. A `State` is what backtracking copies and restores; the output
-- buffer and the step budget are shared by all copies, so they stand beside it.
-- `mangled_cur` is the text from the cursor to the null character that ends it; `out_cur` counts
-- from `out_begin`, and the buffer's length is `out_end - out_begin`.
use ng_log.Prelude.{
  ℕ, Bool, true, false, ◌&&◌, ◌||◌, List, [], ◌∷◌, Option, none, leb, ◌==◌, length,
}

-- `short` values: `negsuc n` is -(n + 1).
pub data ℤ : Type 0 where
  pos : ℕ → ℤ
  negsuc : ℕ → ℤ

-- The identifier at `start` of the output, for constructors and destructors.
pub record Name : Type 0 where
  pub start : ℕ
  pub size : ℕ

pub record State : Type 0 where
  pub mangled_cur : List ℕ
  pub out_cur : ℕ
  pub prev_name : Option Name
  pub nest_level : ℤ
  pub append : Bool
  pub overflowed : Bool
  pub skip_separator : Bool
  pub local_level : ℕ
  pub expr_level : ℕ
  pub arg_level : ℕ
  pub pending_ref_qualifier : ℕ
  pub encoding_level : ℕ
  pub type_level : ℕ
  pub parse_depth : ℕ

pub record Machine : Type 0 where
  pub state : State
  pub open state use *
  pub buffer : List ℕ
  pub steps_remaining : ℕ

abbrev pub max_parse_depth : ℕ
max_parse_depth = 64

abbrev pub max_parse_steps : ℕ
max_parse_steps = 131072

abbrev pub max_level : ℕ
max_level = 64

-- `state->mangled_cur[0]` and `state->mangled_cur[1]`; the text ends in a null character.
abbrev pub first : List ℕ → ℕ
first [] = 0
first (c ∷ cs) = c

abbrev pub second : List ℕ → ℕ
second [] = 0
second (c ∷ cs) = first cs

unfoldable pub is_lower : ℕ → Bool
is_lower c = leb b'a' c && leb c b'z'

unfoldable pub is_alpha : ℕ → Bool
is_alpha c = (leb b'a' c && leb c b'z') || (leb b'A' c && leb c b'Z')

unfoldable pub is_digit : ℕ → Bool
is_digit c = leb b'0' c && leb c b'9'

unfoldable pub at_least_num_chars_remaining : List ℕ → ℕ → Bool
at_least_num_chars_remaining str n = leb n (length str)

unfoldable pub str_prefix : List ℕ → List ℕ → Bool
str_prefix str [] = true
str_prefix [] (p ∷ ps) = false
str_prefix (c ∷ cs) (p ∷ ps) = c == p && str_prefix cs ps

unfoldable pub init_state : List ℕ → State
init_state mangled = record {
  mangled_cur = mangled;
  out_cur = 0;
  prev_name = none;
  nest_level = negsuc 0;
  append = true;
  overflowed = false;
  skip_separator = false;
  local_level = 0;
  expr_level = 0;
  arg_level = 0;
  pending_ref_qualifier = 0;
  encoding_level = 0;
  type_level = 0;
  parse_depth = 0;
}

abbrev pub with_state : Machine → State → Machine
with_state m s = record m { state = s }

-- `state->mangled_cur += n`
abbrev pub at_text : Machine → List ℕ → Machine
at_text m text = record m { state = record m.state { mangled_cur = text } }
