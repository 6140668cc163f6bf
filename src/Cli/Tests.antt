-- ===== src/Cli/Tests.antt =====
-- Option strings with the options `a` and `b`.
use obe_rt.Base.{ℕ, ◌≡◌, refl, List, [], ◌∷◌, map, some}
use obe_rt.Cli.{
  Str, backslash, comma, equals, obe_split_string, split_tokens, tokens, add_tokens, add_token,
  add_unlimited, hang_on, cut_at, find_escape, is_escaped, last_index, obe_split_options,
  obe_get_option, is_option, same_string,
}
use obe_rt.Cli.Split.{join}
use obe_rt.Cli.Options.{Plain, assignment, obe_get_option-join}

abbrev a : ℕ
a = 0x61

abbrev b : ℕ
b = 0x62

-- With a limit of two strings a backslash inside the name makes the third token cut the name short:
-- `a\b=a=b` is split into `a` and `a=b`.
name_cut_short :
    obe_split_string (a ∷ backslash ∷ b ∷ equals ∷ a ∷ equals ∷ b ∷ []) equals 2
    ≡ (a ∷ []) ∷ (a ∷ equals ∷ b ∷ []) ∷ []
unfolding obe_split_string split_tokens tokens add_tokens add_token add_unlimited hang_on cut_at
    find_escape is_escaped last_index
name_cut_short = refl

-- An escaped comma stays in its string.
escaped_comma :
    obe_split_string (a ∷ backslash ∷ comma ∷ b ∷ comma ∷ b ∷ []) comma 0
    ≡ (a ∷ comma ∷ b ∷ []) ∷ (b ∷ []) ∷ []
unfolding obe_split_string split_tokens tokens add_tokens add_token add_unlimited hang_on cut_at
    find_escape is_escaped last_index
escaped_comma = refl

abbrev options : List Str
options = (a ∷ []) ∷ (b ∷ []) ∷ []

abbrev pairs : List (Str × Str)
pairs = (b ∷ [], b ∷ []) ∷ (a ∷ [], []) ∷ []

pairs-Plain : Plain options ((b ∷ [], a ∷ []) ∷ pairs)
unfolding is_option same_string
pairs-Plain = (
  refl,
  ((refl, tt), (refl, tt), (refl, tt)),
  ((refl, tt), (refl, tt)),
  (
    refl,
    ((refl, tt), (refl, tt), (refl, tt)),
    ((refl, tt), (refl, tt)),
    (refl, ((refl, tt), (refl, tt), (refl, tt)), (tt, tt), tt),
  ),
)

obe_get_option-join_example :
    obe_get_option
      (b ∷ [])
      (obe_split_options (some (join comma (map assignment ((b ∷ [], a ∷ []) ∷ pairs)))) options)
    ≡ some (b ∷ [])
unfolding same_string
obe_get_option-join_example =
    obe_get_option-join options (b ∷ []) b [] ((b ∷ [], a ∷ []) ∷ []) ((a ∷ [], []) ∷ [])
      pairs-Plain (refl, tt)
