-- ===== src/Cli.antt =====
-- obe/obecli.c: the strings of options that the commands of the encoder take.
-- A C string is the list of its characters, without the zero at its end; a null pointer is `none`; an
-- array of strings that a null pointer ends is a list. Memory for strings is at hand. The separators are
-- one character, as at all calls.
pub mod Split
pub mod Options
mod Tests
use obe_rt.Base.{
  ℕ, zero, suc, ◌+◌, ◌-◌, Bool, true, false, ◌&&◌, ◌||◌, not, List, [], ◌∷◌, ◌++◌, Option, none,
  some, ltb, leb, ◌==◌, if◌then◌else◌, length, get_elem?, set, get_or, take,
}
use obe_rt.Base.Int.{ℤ, pos, negsuc, ltb_ℤ}

abbrev pub Str : Type 0
Str = List ℕ

abbrev pub backslash : ℕ
backslash = 0x5c

-- `!strcmp( s, t )`
pub same_string : Str → Str → Bool
same_string [] [] = true
same_string (a ∷ s) (b ∷ t) = (a == b) && same_string s t
same_string _ _ = false

-- `sanitizeParamTrim`
pub sanitize_param_trim : ℤ → ℤ
sanitize_param_trim val =
    if ltb_ℤ val (pos 0) then pos 0 else if ltb_ℤ (pos 2000) val then pos 2000 else val

-- The tokens that `strstr` finds, the zeros written over the separators.
abbrev pub cons_first : ℕ → List Str → List Str
cons_first c [] = (c ∷ []) ∷ []
cons_first c (t ∷ ts) = (c ∷ t) ∷ ts

pub tokens : ℕ → Str → List Str
tokens sep [] = [] ∷ []
tokens sep (c ∷ s) = let rest = tokens sep s in if c == sep then [] ∷ rest else cons_first c rest

-- `strrchr`, as an index
abbrev pub later_or : ℕ → Bool → Option ℕ → Option ℕ
later_or i here (some j) = some j
later_or i true none = some i
later_or i false none = none

pub last_index : ℕ → ℕ → Str → Option ℕ
last_index c i [] = none
last_index c i (x ∷ s) = later_or i (x == c) (last_index c (suc i) s)

-- The local variables `split` and `esc` of `obe_split_string`: `esc` is a place in one of the strings.
pub record Splitting : Type 0 where
  pub split : List Str
  pub esc : Option (ℕ × ℕ)

abbrev pub last_of : List Str → Str
last_of split = get_or split (length split - 1) []

-- `esc[0] = '\0'`
pub cut_at : Option (ℕ × ℕ) → List Str → List Str
cut_at none split = split
cut_at (some (i, at)) split = set split i (take at (get_or split i []))

-- The branch that hangs the token on the last string.
pub hang_on : ℕ → Str → Splitting → Splitting
hang_on sep tok st =
    let cut = cut_at st.esc st.split in
    record { split = set cut (length cut - 1) (last_of cut ++ sep ∷ tok); esc = none }

-- `( esc = strrchr( split[i-1], '\\' ) ) ? esc[1] == '\0' : 0`: the string's index, and what was found.
pub find_escape : List Str → Option ℕ → Option (ℕ × ℕ)
find_escape split none = none
find_escape split (some at) = some (length split - 1, at)

pub is_escaped : Str → Option ℕ → Bool
is_escaped s none = false
is_escaped s (some at) = suc at == length s

pub add_unlimited : ℕ → Str → Splitting → Splitting
add_unlimited sep tok st =
    let found = last_index backslash 0 (last_of st.split) in
    let esc = find_escape st.split found in
    if is_escaped (last_of st.split) found
    then hang_on sep tok (record { split = st.split; esc = esc })
    else record { split = st.split ++ tok ∷ []; esc = esc }

-- One round of the loop of `obe_split_string`.
pub add_token : ℕ → ℕ → Str → Splitting → Splitting
add_token sep limit tok st =
    if ltb 0 limit && leb limit (length st.split)
    then hang_on sep tok st
    else if length st.split == 0
    then record st { split = tok ∷ [] }
    else add_unlimited sep tok st

pub add_tokens : ℕ → ℕ → List Str → Splitting → Splitting
add_tokens sep limit [] st = st
add_tokens sep limit (tok ∷ toks) st = add_tokens sep limit toks (add_token sep limit tok st)

pub split_tokens : ℕ → ℕ → List Str → List Str
split_tokens sep limit ([] ∷ []) = []
split_tokens sep limit (tok ∷ []) = tok ∷ []
split_tokens sep limit toks = (add_tokens sep limit toks (record { split = []; esc = none })).split

pub obe_split_string : Str → ℕ → ℕ → List Str
obe_split_string string sep limit = split_tokens sep limit (tokens sep string)

abbrev pub comma : ℕ
comma = 0x2c

abbrev pub equals : ℕ
equals = 0x3d

-- The search of `arg[0]` in the names of the options.
pub is_option : Str → List Str → Bool
is_option name [] = false
is_option name (o ∷ options) = same_string name o || is_option name options

-- The loop over i of `obe_split_options`; `opts` holds the pairs of a name and a value, `none` is the
-- return of a null pointer.
abbrev pub with_pair : Str × Str → Option (List (Str × Str)) → Option (List (Str × Str))
with_pair p none = none
with_pair p (some ps) = some (p ∷ ps)

abbrev pub ordered : Bool → Option Str → Str → Option (List (Str × Str)) → Option (List (Str × Str))
ordered true _ value rest = none
ordered false none value rest = none
ordered false (some name) value rest = with_pair (name, value) rest

-- Whether `found_named` is set.
abbrev pub is_named : List Str → Bool
is_named (name ∷ value ∷ _) = true
is_named _ = false

-- One round, given what the later rounds make.
abbrev pub one_option :
    List Str → ℕ → Bool → List Str → Option (List (Str × Str)) → Option (List (Str × Str))
one_option options i found_named [] rest = ordered found_named (get_elem? options i) [] rest
one_option options i found_named (value ∷ []) rest =
    ordered found_named (get_elem? options i) value rest
one_option options i found_named (name ∷ value ∷ _) rest =
    if is_option name options then with_pair (name, value) rest else none

pub split_args : List Str → ℕ → Bool → List Str → Option (List (Str × Str))
split_args options i found_named [] = some []
split_args options i found_named (s ∷ split) =
    let arg = obe_split_string s equals 2 in
    one_option options i found_named arg
      (split_args options (suc i) (found_named || is_named arg) split)

pub obe_split_options : Option Str → List Str → Option (List (Str × Str))
obe_split_options none options = none
obe_split_options (some opt_str) options =
    split_args options 0 false (obe_split_string opt_str comma 0)

-- The value beside the last name that is the given one.
abbrev pub later_value : Bool → Str → Option Str → Option Str
later_value here value (some v) = some v
later_value true value none = some value
later_value false value none = none

pub last_value : Str → List (Str × Str) → Option Str
last_value name [] = none
last_value name ((n, v) ∷ ps) = later_value (same_string n name) v (last_value name ps)

-- An empty value counts as none.
abbrev pub value_or_null : Option Str → Option Str
value_or_null none = none
value_or_null (some []) = none
value_or_null (some (c ∷ s)) = some (c ∷ s)

pub obe_get_option : Str → Option (List (Str × Str)) → Option Str
obe_get_option name none = none
obe_get_option name (some opts) = value_or_null (last_value name opts)

-- `tolower` in the C locale, for `strcasecmp`
abbrev pub to_lower : ℕ → ℕ
to_lower c = if leb 0x41 c && leb c 0x5a then c + 32 else c

pub same_letters : Str → Str → Bool
same_letters [] [] = true
same_letters (a ∷ s) (b ∷ t) = (to_lower a == to_lower b) && same_letters s t
same_letters _ _ = false

-- "true", "1" and "yes"
pub obe_otob : Option Str → ℤ → ℤ
obe_otob none def = def
obe_otob (some s) def =
    if same_letters s (0x74 ∷ 0x72 ∷ 0x75 ∷ 0x65 ∷ [])
      || same_string s (0x31 ∷ [])
      || same_letters s (0x79 ∷ 0x65 ∷ 0x73 ∷ [])
    then pos 1
    else pos 0

-- The index of the first name that is the argument but for the case; -1 is returned where there is none.
pub enum_from : Str → ℕ → List Str → Option ℕ
enum_from arg i [] = none
enum_from arg i (name ∷ names) =
    let rest = enum_from arg (suc i) names in if same_letters arg name then some i else rest

-- The return value, and `*dst`.
abbrev pub enum_result : ℤ → Option ℕ → ℤ × ℤ
enum_result dst none = (negsuc 0, dst)
enum_result dst (some i) = (pos 0, pos i)

pub parse_enum_value : Str → List Str → ℤ → ℤ × ℤ
parse_enum_value arg names dst = enum_result dst (enum_from arg 0 names)

pub check_enum_value : Str → List Str → ℤ
check_enum_value arg [] = negsuc 0
check_enum_value arg (name ∷ names) =
    let rest = check_enum_value arg names in if same_letters arg name then pos 0 else rest
