-- ===== src/Cli/Split.antt =====
-- obe_split_string of obe/obecli.c undoes the writing of strings with separators between them.
use obe_rt.Base.{
  ℕ, zero, suc, ◌-◌, ◌≡◌, ◌≢◌, refl, sym, ap, ap₂, ◌∙◌, true, false, ◌&&◌, List, [], ◌∷◌, ◌++◌,
  Option, none, arith, Bool-cases, inl, inr, ltb, leb, ◌==◌, ==_iff, length, get_or, length-append,
  append_assoc, append-nil,
}
use obe_rt.Cli.{
  Str, backslash, tokens, last_index, last_of, cut_at, hang_on, find_escape, is_escaped,
  add_unlimited, add_token, add_tokens, split_tokens, obe_split_string, equals,
}

-- The character does not occur.
abbrev pub Free : ℕ → Str → Type 0
Free c [] = Unit
Free c (x ∷ s) = ((x == c) ≡ false) × Free c s

abbrev pub AllFree : ℕ → List Str → Type 0
AllFree c [] = Unit
AllFree c (s ∷ ss) = Free c s × AllFree c ss

-- The strings with the separator between them.
abbrev pub join : ℕ → List Str → Str
join sep [] = []
join sep (s ∷ []) = s
join sep (s ∷ t ∷ ts) = s ++ sep ∷ join sep (t ∷ ts)

==_self : (c : ℕ) → (c == c) ≡ true
==_self c = ground arith

tokens-Free : (sep : ℕ) (s : Str) → Free sep s → tokens sep s ≡ s ∷ []
unfolding tokens
tokens-Free sep [] f = refl
tokens-Free sep (c ∷ s) (differs, f) = rw (differs, tokens-Free sep s f) refl

tokens-separator : (sep : ℕ) (s t : Str) → Free sep s → tokens sep (s ++ sep ∷ t) ≡ s ∷ tokens sep t
unfolding tokens
tokens-separator sep [] t f = rw (==_self sep) refl
tokens-separator sep (c ∷ s) t (differs, f) = rw (differs, tokens-separator sep s t f) refl

tokens-join :
    (sep : ℕ) (s : Str) (ss : List Str)
    → AllFree sep (s ∷ ss)
    → tokens sep (join sep (s ∷ ss)) ≡ s ∷ ss
tokens-join sep s [] (f, _) = tokens-Free sep s f
tokens-join sep s (t ∷ ts) (f, fs) =
    tokens-separator sep s (join sep (t ∷ ts)) f ∙ ap (λ xs. s ∷ xs) (tokens-join sep t ts fs)

last_index-Free : (c i : ℕ) (s : Str) → Free c s → last_index c i s ≡ none
unfolding last_index
last_index-Free c i [] f = refl
last_index-Free c i (x ∷ s) (differs, f) = rw (differs, last_index-Free c (suc i) s f) refl

last_of-snoc : (acc : List Str) (x : Str) → last_of (acc ++ x ∷ []) ≡ x
last_of-snoc acc x =
    at_end acc (length (acc ++ x ∷ []) - 1) (omega (arith, length-append acc (x ∷ [])))
  where
    at_end : (acc : List Str) (i : ℕ) → i ≡ length acc → get_or (acc ++ x ∷ []) i [] ≡ x
    at_end [] zero e = refl
    at_end [] (suc i) e = absurd (omega arith)
    at_end (y ∷ acc) zero e = absurd (omega arith)
    at_end (y ∷ acc) (suc i) e = at_end acc i (omega arith)

add_unlimited-Free :
    (sep : ℕ) (tok x : Str) (acc : List Str) (e : Option (ℕ × ℕ))
    → Free backslash x
    → add_unlimited sep tok (record { split = acc ++ x ∷ []; esc = e })
      ≡ record { split = (acc ++ x ∷ []) ++ tok ∷ []; esc = none }
unfolding add_unlimited find_escape is_escaped
add_unlimited-Free sep tok x acc e f = rw (last_of-snoc acc x, last_index-Free backslash 0 x f) refl

snoc_some : (acc : List Str) (x : Str) → (length (acc ++ x ∷ []) == 0) ≡ false
snoc_some acc x = ground (arith, length-append acc (x ∷ []))

add_token-Free :
    (sep limit : ℕ) (tok x : Str) (acc : List Str) (e : Option (ℕ × ℕ))
    → Free backslash x
    → (ltb 0 limit && leb limit (length (acc ++ x ∷ []))) ≡ false
    → add_token sep limit tok (record { split = acc ++ x ∷ []; esc = e })
      ≡ record { split = (acc ++ x ∷ []) ++ tok ∷ []; esc = none }
unfolding add_token
add_token-Free sep limit tok x acc e f below =
    rw (below, snoc_some acc x) (add_unlimited-Free sep tok x acc e f)

add_tokens-Free :
    (sep : ℕ) (toks : List Str) (x : Str) (acc : List Str) (e : Option (ℕ × ℕ))
    → Free backslash x
    → AllFree backslash toks
    → (add_tokens sep 0 toks (record { split = acc ++ x ∷ []; esc = e })).split ≡ acc ++ x ∷ toks
unfolding add_tokens
add_tokens-Free sep [] x acc e f fs = refl
add_tokens-Free sep (tok ∷ toks) x acc e f (f', fs) =
    ap (λ st. (add_tokens sep 0 toks st).split) (add_token-Free sep 0 tok x acc e f refl)
    ∙ add_tokens-Free sep toks tok (acc ++ x ∷ []) none f' fs
    ∙ append_assoc acc (x ∷ []) (tok ∷ toks)

-- Strings in which neither the separator nor a backslash occurs, other than the one empty string, are
-- split apart again after they have been written with the separator between them.
pub obe_split_string-join :
    (sep : ℕ) (s : Str) (ss : List Str)
    → AllFree sep (s ∷ ss)
    → AllFree backslash (s ∷ ss)
    → (s ∷ ss) ≢ ([] ∷ [])
    → obe_split_string (join sep (s ∷ ss)) sep 0 ≡ s ∷ ss
unfolding obe_split_string split_tokens add_tokens add_token
obe_split_string-join sep s ss free plain ne =
    rw (tokens-join sep s ss free) (by_cases s ss plain ne)
  where
    by_cases :
        (s : Str) (ss : List Str)
        → AllFree backslash (s ∷ ss)
        → (s ∷ ss) ≢ ([] ∷ [])
        → split_tokens sep 0 (s ∷ ss) ≡ s ∷ ss
    by_cases [] [] plain ne = absurd (ne refl)
    by_cases (c ∷ s) [] plain ne = refl
    by_cases [] (t ∷ ts) plain ne = add_tokens-Free sep (t ∷ ts) [] [] none tt plain.1
    by_cases (c ∷ s) (t ∷ ts) plain ne =
        add_tokens-Free sep (t ∷ ts) (c ∷ s) [] none plain.0 plain.1

-- The tokens after the first, each behind a separator.
hung : ℕ → List Str → Str
hung sep [] = []
hung sep (t ∷ ts) = (sep ∷ t) ++ hung sep ts

-- Behind two strings every token is hung on the second.
add_tokens-hung :
    (toks : List Str) (k w : Str)
    → (add_tokens equals 2 toks (record { split = k ∷ w ∷ []; esc = none })).split
      ≡ k ∷ (w ++ hung equals toks) ∷ []
unfolding add_tokens add_token hang_on cut_at hung
add_tokens-hung [] k w = ap (λ v. k ∷ v ∷ []) (sym (append-nil w))
add_tokens-hung (t ∷ toks) k w =
    add_tokens-hung toks k (w ++ equals ∷ t)
    ∙ ap (λ v. k ∷ v ∷ []) (append_assoc w (equals ∷ t) (hung equals toks))

-- The tokens of a string make it up.
tokens-hung :
    (sep : ℕ) (s : Str)
    → (t : Str) × (ts : List Str) × (tokens sep s ≡ t ∷ ts) × (t ++ hung sep ts ≡ s)
unfolding tokens hung
tokens-hung sep [] = ([], [], refl, refl)
tokens-hung sep (c ∷ s) =
    let (t, ts, e, whole) = tokens-hung sep s in
    elim (Bool-cases (c == sep)) [
      | inl same ↦
          ([], t ∷ ts, rw (same, e) refl, ap₂ (λ x xs. x ∷ xs) (sym ((==_iff c sep).0 same)) whole)
      | inr differs ↦ (c ∷ t, ts, rw (differs, e) refl, ap (λ xs. c ∷ xs) whole)
    ]

split_tokens-two :
    (sep limit : ℕ) (s t : Str) (ts : List Str)
    → split_tokens sep limit (s ∷ t ∷ ts)
      ≡ (add_tokens sep limit (s ∷ t ∷ ts) (record { split = []; esc = none })).split
unfolding split_tokens
split_tokens-two sep limit [] t ts = refl
split_tokens-two sep limit (c ∷ s) t ts = refl

-- A name without an equals sign and a backslash and its value are split at the first equals sign,
-- whatever the value holds.
pub obe_split_string-equals :
    (name value : Str)
    → Free equals name
    → Free backslash name
    → obe_split_string (name ++ equals ∷ value) equals 2 ≡ name ∷ value ∷ []
unfolding obe_split_string split_tokens add_tokens add_token
obe_split_string-equals name value free plain =
    let (v, vs, e, whole) = tokens-hung equals value in
    ap (split_tokens equals 2) (tokens-separator equals name value free ∙ ap (λ ts. name ∷ ts) e)
    ∙ split_tokens-two equals 2 name v vs
    ∙ ap (λ st. (add_tokens equals 2 vs st).split)
        (add_token-Free equals 2 v name [] none plain refl)
    ∙ add_tokens-hung vs name v
    ∙ ap (λ w. name ∷ w ∷ []) whole
