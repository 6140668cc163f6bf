-- ===== src/Cli/Options.antt =====
-- The options that are written as `name=value,name=value` are read back.
use obe_rt.Base.{
  ℕ, suc, ◌≡◌, ◌≢◌, refl, ap, ◌∙◌, Bool, true, false, ◌||◌, List, [], ◌∷◌, ◌++◌, map, none, some,
  arith, ==_iff,
}
use obe_rt.Cli.{
  Str, backslash, comma, equals, same_string, is_option, split_args, obe_split_options, last_value,
  value_or_null, obe_get_option,
}
use obe_rt.Cli.Split.{Free, AllFree, join, obe_split_string-join, obe_split_string-equals}

abbrev pub assignment : Str × Str → Str
assignment (name, value) = name ++ equals ∷ value

-- Pairs that can be written without an escape, of names that are options.
abbrev pub Plain : List Str → List (Str × Str) → Type 0
Plain options [] = Unit
Plain options ((name, value) ∷ ps) =
    (is_option name options ≡ true)
    × (Free equals name × Free comma name × Free backslash name)
    × (Free comma value × Free backslash value)
    × Plain options ps

Free-append : (c : ℕ) (s t : Str) → Free c s → Free c t → Free c (s ++ t)
Free-append c [] t f g = g
Free-append c (x ∷ s) t (differs, f) g = (differs, Free-append c s t f g)

assignments-free :
    (options : List Str) (ps : List (Str × Str))
    → Plain options ps
    → AllFree comma (map assignment ps) × AllFree backslash (map assignment ps)
assignments-free options [] f = (tt, tt)
assignments-free options ((name, value) ∷ ps)
      (known, (no_equals, no_comma, no_slash), (v_comma, v_slash), rest) =
    let (c, b) = assignments-free options ps rest in
    (
      (Free-append comma name (equals ∷ value) no_comma (refl, v_comma), c),
      (Free-append backslash name (equals ∷ value) no_slash (refl, v_slash), b),
    )

split_args-assignments :
    (options : List Str) (ps : List (Str × Str)) (i : ℕ) (found : Bool)
    → Plain options ps
    → split_args options i found (map assignment ps) ≡ some ps
unfolding split_args
split_args-assignments options [] i found f = refl
split_args-assignments options ((name, value) ∷ ps) i found
      (known, (no_equals, no_comma, no_slash), vals, rest) =
    rw
      (
        obe_split_string-equals name value no_equals no_slash,
        known,
        split_args-assignments options ps (suc i) (found || true) rest,
      )
      refl

-- Some pairs of names and values, the names among the options and without a comma, an equals sign and a
-- backslash, the values without a comma and a backslash, are read back as they were from the string
-- that writes them with an equals sign between name and value and commas between the pairs.
pub obe_split_options-join :
    (options : List Str) (p : Str × Str) (ps : List (Str × Str))
    → Plain options (p ∷ ps)
    → obe_split_options (some (join comma (map assignment (p ∷ ps)))) options ≡ some (p ∷ ps)
unfolding obe_split_options
obe_split_options-join options p ps f =
    let (c, b) = assignments-free options (p ∷ ps) f in
    ap (split_args options 0 false)
      (obe_split_string-join comma (assignment p) (map assignment ps) c b (not_blank p.0))
    ∙ split_args-assignments options (p ∷ ps) 0 false f
  where
    not_blank : (s : Str) → ((s ++ equals ∷ p.1) ∷ map assignment ps) ≢ ([] ∷ [])
    not_blank [] e = ground arith
    not_blank (c ∷ s) e = ground arith

-- No pair has the name.
abbrev pub Absent : Str → List (Str × Str) → Type 0
Absent name [] = Unit
Absent name ((n, value) ∷ ps) = (same_string n name ≡ false) × Absent name ps

same_string_self : (s : Str) → same_string s s ≡ true
unfolding same_string
same_string_self [] = refl
same_string_self (c ∷ s) = rw ((==_iff c c).1 refl, same_string_self s) refl

last_value-Absent :
    (name : Str) (ps : List (Str × Str)) → Absent name ps → last_value name ps ≡ none
unfolding last_value
last_value-Absent name [] a = refl
last_value-Absent name ((n, value) ∷ ps) (other, a) = rw (last_value-Absent name ps a, other) refl

last_value-append :
    (name value : Str) (front back : List (Str × Str))
    → Absent name back
    → last_value name (front ++ (name, value) ∷ back) ≡ some value
unfolding last_value
last_value-append name value [] back a =
    rw (last_value-Absent name back a, same_string_self name) refl
last_value-append name value ((n, v) ∷ front) back a =
    rw (last_value-append name value front back a) refl

-- A value that is not empty is what is read for its name from a string of plain assignments, whatever
-- assignments come before it, if none of the same name comes after it.
pub obe_get_option-join :
    (options : List Str) (name : Str) (c : ℕ) (value : Str) (front back : List (Str × Str))
    → Plain options (front ++ (name, c ∷ value) ∷ back)
    → Absent name back
    → obe_get_option name (
        obe_split_options
          (some (join comma (map assignment (front ++ (name, c ∷ value) ∷ back))))
          options)
      ≡ some (c ∷ value)
unfolding obe_get_option
obe_get_option-join options name c value [] back f a =
    rw (obe_split_options-join options (name, c ∷ value) back f)
      (ap value_or_null (last_value-append name (c ∷ value) [] back a))
obe_get_option-join options name c value (p ∷ front) back f a =
    rw (obe_split_options-join options p (front ++ (name, c ∷ value) ∷ back) f)
      (ap value_or_null (last_value-append name (c ∷ value) (p ∷ front) back a))
