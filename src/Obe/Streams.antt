-- ===== src/Obe/Streams.antt =====
-- Looking up streams and encoders in obe/obe.c. The pointers are `none` where they are null.
use obe_rt.Base.{
  arith, ◌≡◌, ◌≢◌, ◌≤◌, refl, ap, ◌⊎◌, inl, inr, Bool-cases, ◌++◌, ℕ, false, Option, none, some,
  List, [], ◌∷◌, ◌==◌, if◌then◌else◌,
}
use obe_rt.Base.Int.{ℤ, pos, negsuc, eqb_ℤ, eqb_ℤ_iff}

-- What the lookups read of `obe_int_input_stream_t`, `obe_encoder_t` and `obe_output_stream_t`.
pub record InputStream : Type 0 where
  pub input_stream_id : ℤ

pub record OutputStream : Type 0 where
  pub input_stream_id : ℤ
  pub output_stream_id : ℤ
  pub stream_format : ℕ
  pub pid : ℕ

pub get_input_stream : List InputStream → ℤ → Option InputStream
get_input_stream [] input_stream_id = none
get_input_stream (s ∷ ss) input_stream_id =
    if eqb_ℤ s.input_stream_id input_stream_id then some s else get_input_stream ss input_stream_id

unfoldable pub get_output_stream_by_id : List OutputStream → ℤ → Option OutputStream
get_output_stream_by_id [] output_stream_id = none
get_output_stream_by_id (e ∷ es) output_stream_id =
    if eqb_ℤ e.output_stream_id output_stream_id
    then some e
    else get_output_stream_by_id es output_stream_id

pub get_output_stream_by_format : List OutputStream → ℕ → Option OutputStream
get_output_stream_by_format [] format = none
get_output_stream_by_format (e ∷ es) format =
    if e.stream_format == format then some e else get_output_stream_by_format es format

pub find_output_stream_id_by_pid : List OutputStream → ℕ → ℤ
find_output_stream_id_by_pid [] pidnr = negsuc 0
find_output_stream_id_by_pid (e ∷ es) pidnr =
    if e.pid == pidnr then e.input_stream_id else find_output_stream_id_by_pid es pidnr

-- `non_display_data_locations`, as pairs of a service and a location, before the pair of -1.
pub non_display_data_locations : List (ℕ × ℕ)
non_display_data_locations =
    (10, 1)
    ∷ (11, 1)
    ∷ (12, 1)
    ∷ (13, 1)
    ∷ (14, 0)
    ∷ (15, 0)
    ∷ (16, 0)
    ∷ (17, 0)
    ∷ (18, 0)
    ∷ (20, 1)
    ∷ (21, 1)
    ∷ (22, 1)
    ∷ (23, 1)
    ∷ (24, 1)
    ∷ []

pub location_in : List (ℕ × ℕ) → ℕ → ℤ
location_in [] type = negsuc 0
location_in ((service, location) ∷ rows) type =
    if service == type then pos location else location_in rows type

pub get_non_display_location : ℕ → ℤ
get_non_display_location type = location_in non_display_data_locations type

-- No stream of the list has the identifier.
unfoldable pub NoneHas : List OutputStream → ℤ → Type 0
NoneHas [] id = 0 ≤ 0
NoneHas (e ∷ es) id = (e.output_stream_id ≢ id) × NoneHas es id

eqb_ℤ_ne : (a b : ℤ) → eqb_ℤ a b ≡ false → a ≢ b
eqb_ℤ_ne a b miss same = ground (arith, miss, (eqb_ℤ_iff a b).1 same)

pub NoneHas-none :
    (es : List OutputStream) (id : ℤ) → NoneHas es id → get_output_stream_by_id es id ≡ none
unfolding get_output_stream_by_id NoneHas
NoneHas-none [] id h = refl
NoneHas-none (e ∷ es) id (other, h) = elim (Bool-cases (eqb_ℤ e.output_stream_id id)) [
  | inl hit ↦ absurd (other ((eqb_ℤ_iff e.output_stream_id id).0 hit))
  | inr miss ↦ rw miss (NoneHas-none es id h)
]

-- A lookup by identifier returns the first stream that has it: either no stream has the identifier and
-- there is no result, or the list is split by the result, which has the identifier, and no stream
-- before it has.
pub get_output_stream_by_id_first :
    (es : List OutputStream) (id : ℤ)
    → ((get_output_stream_by_id es id ≡ none) × NoneHas es id)
      ⊎ ((before after : List OutputStream) × (e : OutputStream) × (es ≡ before ++ e ∷ after)
          × (get_output_stream_by_id es id ≡ some e)
          × (e.output_stream_id ≡ id)
          × NoneHas before id)
unfolding get_output_stream_by_id NoneHas
get_output_stream_by_id_first [] id = inl (refl, omega arith)
get_output_stream_by_id_first (e ∷ es) id = elim (Bool-cases (eqb_ℤ e.output_stream_id id)) [
  | inl hit ↦
      rw hit (inr ([], es, e, refl, refl, (eqb_ℤ_iff e.output_stream_id id).0 hit, omega arith))
  | inr miss ↦ rw miss (elim (get_output_stream_by_id_first es id) [
    | inl (nothing, others) ↦ inl (nothing, (eqb_ℤ_ne e.output_stream_id id miss, others))
    | inr (before, after, e', split, result, own, others) ↦ inr (
      e ∷ before,
      after,
      e',
      ap (◌∷◌ e) split,
      result,
      own,
      (eqb_ℤ_ne e.output_stream_id id miss, others),
    )
  ])
]
