-- ===== src/Flags/Registry.antt =====
-- internal/flag_registry.cc: `RegisterFlag`, `UnregisterFlag` and `FindFlagLocked`. A flag stands at
-- an address; its type gives what `SetFromString` makes of a text. Modules, groups and the texts of
-- the help are left out.
use ng_log.Prelude.{
  same_text, ℕ, ◌≡◌, Bool, true, false, not, ◌&&◌, ◌||◌, List, [], ◌∷◌, ◌++◌, map, Option, none,
  some, leb, ltb, ◌==◌, if◌then◌else◌, codes, contains,
}

pub record Flag : Type 0 where
  pub address : ℕ
  pub name : List ℕ
  pub type_name : List ℕ
  pub parses : List ℕ → Option (List ℕ)

-- `entries` are the addresses of the registered flags, `declarations` the types that the
-- declarations of a name gave, and `values` the current value of the flag at an address.
pub record Registry : Type 0 where
  pub flags : List (List ℕ × Flag)
  pub entries : List ℕ
  pub declarations : List (List ℕ × List ℕ)
  pub values : ℕ → List ℕ

unfoldable pub is_bool : Flag → Bool
unfolding same_text
is_bool flag = same_text flag.type_name (codes "bool")

unfoldable pub lookup : List ℕ → List (List ℕ × Flag) → Option Flag
lookup name [] = none
lookup name ((key, flag) ∷ flags) = if same_text key name then some flag else lookup name flags

-- The order of `std::map`
unfoldable pub text_before : List ℕ → List ℕ → Bool
text_before text [] = false
text_before [] (d ∷ other) = true
text_before (c ∷ text) (d ∷ other) = ltb c d || (c == d && text_before text other)

-- `emplace` of a name that is not there
unfoldable pub emplace : List ℕ → Flag → List (List ℕ × Flag) → List (List ℕ × Flag)
unfolding text_before
emplace name flag [] = (name, flag) ∷ []
emplace name flag ((key, other) ∷ flags) =
    if text_before name key
    then (name, flag) ∷ (key, other) ∷ flags
    else (key, other) ∷ emplace name flag flags

unfoldable pub erase_name : List ℕ → List (List ℕ × Flag) → List (List ℕ × Flag)
erase_name name [] = []
erase_name name ((key, flag) ∷ flags) =
    if same_text key name then erase_name name flags else (key, flag) ∷ erase_name name flags

unfoldable pub underscored : ℕ → ℕ
underscored c = if c == b'-' then b'_' else c

abbrev pub or_else : Option Flag → Option Flag → Option Flag
or_else none other = other
or_else (some flag) other = some flag

unfoldable pub find_flag : List ℕ → Registry → Option Flag
unfolding lookup underscored contains
find_flag name r =
    or_else (lookup name r.flags)
      (if contains name b'-' then lookup (map underscored name) r.flags else none)

abbrev pub is_name_start : ℕ → Bool
is_name_start c = leb b'a' c && leb c b'z' || leb b'A' c && leb c b'Z' || c == b'_'

abbrev pub is_name_part : ℕ → Bool
is_name_part c = is_name_start c || leb b'0' c && leb c b'9'

abbrev pub all_name_parts : List ℕ → Bool
all_name_parts [] = true
all_name_parts (c ∷ name) = is_name_part c && all_name_parts name

unfoldable pub is_valid_flag_name : List ℕ → Bool
is_valid_flag_name [] = false
is_valid_flag_name (c ∷ name) = is_name_start c && is_name_part c && all_name_parts name

-- What stands behind "no" at the front of a name.
unfoldable pub behind_no : List ℕ → Option (List ℕ)
behind_no [] = none
behind_no (c ∷ []) = none
behind_no (c ∷ d ∷ name) = if c == b'n' && d == b'o' then some name else none

abbrev pub is_bool_flag : Option Flag → Bool
is_bool_flag none = false
is_bool_flag (some flag) = is_bool flag

abbrev pub is_there : Option Flag → Bool
is_there none = false
is_there (some flag) = true

abbrev pub negates : Option (List ℕ) → Registry → Bool
negates none r = false
negates (some name) r = is_bool_flag (lookup name r.flags)

-- A flag and another one that is or would be read as its negation
unfoldable pub has_negation_conflict : Flag → Registry → Bool
unfolding is_bool lookup behind_no
has_negation_conflict flag r =
    is_bool flag && is_there (lookup (b'n' ∷ b'o' ∷ flag.name) r.flags)
    || negates (behind_no flag.name) r

unfoldable pub is_mismatched : List ℕ → List ℕ → List (List ℕ × List ℕ) → Bool
is_mismatched name type_name [] = false
is_mismatched name type_name ((key, declared) ∷ declarations) =
    same_text key name && not (same_text declared type_name)
    || is_mismatched name type_name declarations

-- What the registry of the process answers.
pub data ProcessAnswer : Type 0 where
  registered duplicate unavailable : ProcessAnswer

-- Why the program aborts.
pub data Failure : Type 0 where
  repeated invalid_name reserved negation_conflict duplicate_flag : Failure
  unavailable_registry mismatched_declaration : Failure

pub data Registration : Type 0 where
  added : Registry → Registration
  aborts : Failure → Registration

abbrev pub insert_flag : ProcessAnswer → Flag → Registry → Registration
insert_flag duplicate flag r = aborts duplicate_flag
insert_flag unavailable flag r = aborts unavailable_registry
insert_flag registered flag r =
    if is_mismatched flag.name flag.type_name r.declarations
    then aborts mismatched_declaration
    else added
        (record r { flags = emplace flag.name flag r.flags; entries = flag.address ∷ r.entries })

unfoldable pub register_flag : ProcessAnswer → Flag → Registry → Registration
unfolding is_valid_flag_name has_negation_conflict lookup emplace is_mismatched contains
register_flag answer flag r =
    if contains r.entries flag.address
    then aborts repeated
    else if not (is_valid_flag_name flag.name)
    then aborts invalid_name
    else if same_text flag.name (codes "help")
    then aborts reserved
    else if has_negation_conflict flag r
    then aborts negation_conflict
    else if is_there (lookup flag.name r.flags)
    then aborts duplicate_flag
    else insert_flag answer flag r

unfoldable pub erase_entry : ℕ → List ℕ → List ℕ
erase_entry address [] = []
erase_entry address (x ∷ entries) =
    if x == address then erase_entry address entries else x ∷ erase_entry address entries

abbrev pub is_at : ℕ → Option Flag → Bool
is_at address none = false
is_at address (some flag) = flag.address == address

unfoldable pub unregister_flag : Flag → Registry → Registry
unfolding lookup erase_name erase_entry contains
unregister_flag flag r =
    let without_entry = record r { entries = erase_entry flag.address r.entries } in
    if contains r.entries flag.address
    then (if is_at flag.address (lookup flag.name r.flags)
        then record without_entry { flags = erase_name flag.name r.flags }
        else without_entry)
    else r

abbrev pub empty : Registry
empty = record { flags = []; entries = []; declarations = []; values = λ address. [] }

pub data Reachable : Registry → Type 0 where
  start : Reachable empty
  declares :
      (name type_name : List ℕ) {r : Registry}
      → Reachable r
      → Reachable (record r { declarations = r.declarations ++ ((name, type_name) ∷ []) })
  registers :
      (answer : ProcessAnswer) (flag : Flag) {r r' : Registry}
      → Reachable r
      → register_flag answer flag r ≡ added r'
      → Reachable r'
  unregisters : (flag : Flag) {r : Registry} → Reachable r → Reachable (unregister_flag flag r)
