-- ===== src/Sei/Find.antt =====
-- Searching a buffer for the SEI payload.
use obe_rt.Base.{
  ℕ, zero, suc, ◌+◌, ◌-◌, ◌≤◌, ◌<◌, ◌≡◌, refl, ap, ◌∙◌, inl, inr, true, false, some, List, [], ◌∷◌,
  ltb, Bool-cases, arith, drop,
}
use obe_rt.Sei.{
  ltn_uuid_sei_timestamp, sei_timestamp_payload_length, starts_with, find_from, uuid_find,
}

drop-one {ℓ} : {A : Type ℓ} (k : ℕ) (xs : List A) → drop (suc k) xs ≡ drop k (drop 1 xs)
drop-one zero [] = refl
drop-one (suc k) [] = refl
drop-one k (x ∷ xs) = refl

find_from_first :
    (rounds i k : ℕ) (buf : List ℕ)
    → k < rounds
    → starts_with (drop k buf) ltn_uuid_sei_timestamp ≡ true
    → (m : ℕ) × (find_from rounds i buf ≡ some (i + m))
      × (m ≤ k)
      × (starts_with (drop m buf) ltn_uuid_sei_timestamp ≡ true)
unfolding find_from
find_from_first zero i k buf h e = absurd (omega arith)
find_from_first (suc rounds) i zero buf h e = (0, rw e (ap some (omega arith)), omega arith, e)
find_from_first (suc rounds) i (suc k) buf h e =
    elim (Bool-cases (starts_with buf ltn_uuid_sei_timestamp)) [
      | inl hit ↦ (0, rw hit (ap some (omega arith)), omega arith, hit)
      | inr miss ↦
          let (m, found, le, t) =
            find_from_first rounds (i + 1) k (drop 1 buf) (omega arith)
              (rw (drop-one k buf) at e) in
          (suc m, rw miss (found ∙ ap some (omega arith)), omega arith, rw (drop-one m buf) t)
    ]

-- Where the UUID stands with room for a whole payload behind it, the search succeeds: it returns an
-- index at which the UUID stands, and no later one than any such place.
pub uuid_find_first :
    (buf : List ℕ) (length_bytes j : ℕ)
    → j + sei_timestamp_payload_length ≤ length_bytes
    → starts_with (drop j buf) ltn_uuid_sei_timestamp ≡ true
    → (i : ℕ) × (uuid_find buf length_bytes ≡ some i)
      × (i ≤ j)
      × (starts_with (drop i buf) ltn_uuid_sei_timestamp ≡ true)
unfolding uuid_find
uuid_find_first buf length_bytes j room e =
    let long : ltb length_bytes sei_timestamp_payload_length ≡ false = ground arith in
    let (m, found, le, t) =
      find_from_first (length_bytes - sei_timestamp_payload_length + 1) 0 j buf (omega arith) e in
    (m, rw long (found ∙ ap some (omega arith)), le, t)
