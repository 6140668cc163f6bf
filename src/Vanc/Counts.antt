-- ===== src/Vanc/Counts.antt =====
-- How often a service stands in the table of the input, and a type among the user data of a frame, and
-- what one addition does to that.
use obe_rt.Base.{
  ℕ, suc, ◌+◌, ◌*◌, ◌≤◌, ◌≡◌, ◌≢◌, refl, ap, ◌∙◌, inl, inr, Bool, true, false, Option, List, [],
  ◌∷◌, ◌++◌, map, length, ◌==◌, ==_iff, if◌then◌else◌, if_elim, Bool-cases, arith,
}
use obe_rt.Base.Int.{ℤ}
use obe_rt.Obe.Streams.{OutputStream}
use obe_rt.Sdi.Services.{IntFrameData, check_probed_non_display_data, check_active_non_display_data}
use obe_rt.Sdi.Selected.{Options, check_user_selected_non_display_data}
use obe_rt.UserData.{UserItem, user_data_cea_708_cdp, user_data_afd}
use obe_rt.Vanc.{
  Vanc, size_of_service, misc_afd, captions_cea_708, add_items, add_services, item_of, is_wanted,
  service_of, probe_services, probed,
}

unfoldable pub count : ℕ → List ℕ → ℕ
count t [] = 0
count t (x ∷ xs) = if x == t then suc (count t xs) else count t xs

abbrev pub item_types : Vanc → List ℕ
item_types v = map (λ u. u.type) v.user_data

abbrev pub service_types : Vanc → List ℕ
service_types v = map (λ d. d.type) v.frame_data

-- The captions and the active format are there once at most.
unfoldable pub Once : Vanc → Type 0
Once v =
    (count user_data_cea_708_cdp (item_types v) ≤ 1)
    × (count user_data_afd (item_types v) ≤ 1)
    × (count captions_cea_708 (service_types v) ≤ 1)
    × (count misc_afd (service_types v) ≤ 1)

count-items :
    {A : Type 0} (f : A → ℕ) (t : ℕ) (xs ys : List A)
    → count t (map f (xs ++ ys)) ≡ count t (map f xs) + count t (map f ys)
unfolding count
count-items f t [] ys = omega arith
count-items f t (x ∷ xs) ys = elim (Bool-cases (f x == t)) [
  | inl hit ↦ rw hit (ap suc (count-items f t xs ys) ∙ omega arith)
  | inr miss ↦ rw miss (count-items f t xs ys)
]

active_none :
    (ts : List ℕ) (t : ℕ) → (check_active_non_display_data ts t == 0) ≡ true → count t ts ≡ 0
unfolding check_active_non_display_data count
active_none [] t h = refl
active_none (x ∷ ts) t h = elim (Bool-cases (x == t)) [
  | inl hit ↦ absurd (omega (arith, (==_iff 1 0).0 (rw hit at h)))
  | inr miss ↦ rw miss (active_none ts t (rw miss at h))
]

pub probed_none :
    (ds : List IntFrameData) (t : ℕ)
    → (check_probed_non_display_data ds t == 0) ≡ true
    → count t (map (λ d. d.type) ds) ≡ 0
unfolding check_probed_non_display_data count
probed_none [] t h = refl
probed_none (d ∷ ds) t h = elim (Bool-cases (d.type == t)) [
  | inl hit ↦ absurd (omega (arith, (==_iff 1 0).0 (rw hit at h)))
  | inr miss ↦ rw miss (probed_none ds t (rw miss at h))
]

pub wanted_none :
    (options : OutputStream → Options) (streams : List OutputStream) (v : Vanc) (service t : ℕ)
    → is_wanted options streams v service t ≡ true
    → count t (item_types v) ≡ 0
unfolding is_wanted
wanted_none options streams v service t h =
    elim (Bool-cases (check_user_selected_non_display_data options streams service 0 == 0)) [
      | inl off ↦ cc
      | inr on ↦ active_none (item_types v) t (rw on at h)
    ]

more_items :
    (v : Vanc) (us : List UserItem) (t : ℕ)
    → count t (item_types (add_items v us))
      ≡ count t (item_types v) + count t (map (λ u. u.type) us)
unfolding add_items
more_items v us t = count-items (λ u. u.type) t v.user_data us

more_services :
    (v : Vanc) (ds : List IntFrameData) (t : ℕ)
    → count t (service_types (add_services v ds))
      ≡ count t (service_types v) + count t (map (λ d. d.type) ds)
unfolding add_services
more_services v ds t = count-items (λ d. d.type) t v.frame_data ds

last_other : (t x y : ℕ) → y ≢ t → count t (x ∷ y ∷ []) ≡ count t (x ∷ [])
unfolding count
last_other t x y other = let miss : (y == t) ≡ false = ground arith in rw miss refl

pub cdp-Once :
    (v : Vanc) (bytes : Option (List ℕ)) (len : ℕ)
    → count user_data_cea_708_cdp (item_types v) ≡ 0
    → Once v
    → Once (add_items v (item_of user_data_cea_708_cdp len bytes ∷ []))
unfolding Once item_of count add_items
cdp-Once v bytes len free (a, b, c, d) =
    let us = item_of user_data_cea_708_cdp len bytes ∷ [] in
    (omega (arith, more_items v us 65), omega (arith, more_items v us 66), c, d)

-- The second item is bars or what fresh memory holds.
pub afd-Once :
    (v : Vanc) (bytes : Option (List ℕ)) (second : UserItem)
    → second.type ≢ user_data_cea_708_cdp
    → second.type ≢ user_data_afd
    → count user_data_afd (item_types v) ≡ 0
    → Once v
    → Once (add_items v (item_of user_data_afd 1 bytes ∷ second ∷ []))
unfolding Once item_of count add_items
afd-Once v bytes second no_cdp no_afd free (a, b, c, d) =
    let us = item_of user_data_afd 1 bytes ∷ second ∷ [] in
    let p = last_other 65 66 second.type no_cdp in
    let q = last_other 66 66 second.type no_afd in
    (omega (arith, more_items v us 65, p), omega (arith, more_items v us 66, q), c, d)

types_of_services :
    (line_number : ℕ) (ts : List ℕ) → map (λ d. d.type) (map (service_of line_number) ts) ≡ ts
unfolding service_of
types_of_services line_number [] = refl
types_of_services line_number (t ∷ ts) = ap (λ l. t ∷ l) (types_of_services line_number ts)

pub services-Once :
    (v : Vanc) (line_number : ℕ) (ts : List ℕ)
    → count captions_cea_708 (service_types v) + count captions_cea_708 ts ≤ 1
    → count misc_afd (service_types v) + count misc_afd ts ≤ 1
    → Once v
    → Once (add_services v (map (service_of line_number) ts))
unfolding Once add_services
services-Once v line_number ts p q (a, b, c, d) =
    let ds = map (service_of line_number) ts in
    let to = types_of_services line_number ts in
    let e = more_services v ds 15 ∙ ap (λ l. count 15 (service_types v) + count 15 l) to in
    let f = more_services v ds 16 ∙ ap (λ l. count 16 (service_types v) + count 16 l) to in
    (a, b, omega (arith, e), omega (arith, f))

pub probed-Once :
    (grants : ℕ → Bool) (line_number : ℕ) (v : Vanc) (type : ℕ) (types : List ℕ)
    → (count type (service_types v) ≡ 0
        → Once (add_services v (map (service_of line_number) types)))
    → Once v
    → Once (probed grants line_number v type types).1
unfolding probed probe_services
probed-Once grants line_number v type types more h =
    if_elim (λ (r : ℤ × Vanc). Once r.1) (check_probed_non_display_data v.frame_data type == 0)
      (λ free.
        if_elim (λ (r : ℤ × Vanc). Once r.1)
          (grants ((length v.frame_data + length types) * size_of_service))
          (λ granted. more (probed_none v.frame_data type free)) (λ failed. h))
      (λ met. h)
