-- ===== src/Sdi/Services.antt =====
-- The VBI and VANC services of an SDI input: the `frame_data` tables of input/sdi/sdi.c. A format of
-- `stream_formats_e` and a location are the values of their enumerators.
use obe_rt.Base.{
  not, ◌&&◌, sym, ℕ, zero, suc, ◌≡◌, refl, ap, ◌∙◌, inl, inr, Bool, true, false, Option, none, some,
  List, [], ◌∷◌, ◌==◌, ==_iff, if◌then◌else◌, Bool-cases, take, length, arith,
}
use obe_rt.Base.Int.{ℤ, pos, negsuc}

abbrev pub misc_teletext : ℕ
misc_teletext = 10

-- `obe_int_frame_data_t`; `lines` is its whole array.
pub record IntFrameData : Type 0 where
  pub type : ℕ
  pub source : ℕ
  pub num_lines : ℕ
  pub lines : List ℕ
  pub location : ℕ

-- `obe_frame_data_t`, with the lines that are set.
pub record FrameData : Type 0 where
  pub type : ℕ
  pub source : ℕ
  pub num_lines : ℕ
  pub lines : List ℕ

-- The test that both loops make.
pub belongs : ℕ → IntFrameData → Bool
belongs location d = if d.type == misc_teletext then false else d.location == location

pub service_count : ℕ → List IntFrameData → ℕ
service_count location [] = 0
service_count location (d ∷ ds) =
    if belongs location d then suc (service_count location ds) else service_count location ds

pub frame_data_of : IntFrameData → FrameData
frame_data_of d = record {
  type = d.type;
  source = d.source;
  num_lines = d.num_lines;
  lines = take d.num_lines d.lines;
}

-- The second loop, on the `room` entries of the new table that are left; `none` is a store behind it.
pub fill : ℕ → ℕ → List IntFrameData → Option (List FrameData)
fill location room [] = some []
fill location zero (d ∷ ds) = if belongs location d then none else fill location zero ds
fill location (suc room) (d ∷ ds) =
    if belongs location d
    then add_entry (frame_data_of d) (fill location room ds)
    else fill location (suc room) ds
  where
    add_entry : FrameData → Option (List FrameData) → Option (List FrameData)
    add_entry e none = none
    add_entry e (some es) = some (e ∷ es)

pub filled : ℕ → Option (List FrameData) → Option (ℤ × ℕ × Option (List FrameData))
filled count none = none
filled count (some es) = some (pos 0, count, some es)

-- The return value, and the stream's `num_frame_data` and `frame_data`; `granted` is `calloc`'s answer.
pub add_non_display_services :
    Bool → List IntFrameData → ℕ → Option (ℤ × ℕ × Option (List FrameData))
add_non_display_services granted entries location =
    let count = service_count location entries in
    if count == 0
    then some (pos 0, 0, none)
    else if granted
    then filled count (fill location count entries)
    else some (negsuc 0, count, none)

unfoldable pub check_probed_non_display_data : List IntFrameData → ℕ → ℕ
check_probed_non_display_data [] type = 0
check_probed_non_display_data (d ∷ ds) type =
    if d.type == type then 1 else check_probed_non_display_data ds type

-- On the types of the frame's `user_data`.
unfoldable pub check_active_non_display_data : List ℕ → ℕ → ℕ
check_active_non_display_data [] type = 0
check_active_non_display_data (t ∷ ts) type =
    if t == type then 1 else check_active_non_display_data ts type

-- The loop of `add_teletext_service`; `first` is `frame_data[0]`.
pub teletext_loop : IntFrameData → FrameData → List IntFrameData → FrameData
teletext_loop first e [] = e
teletext_loop first e (d ∷ ds) =
    let copied : FrameData = record {
      type = d.type;
      source = d.source;
      num_lines = d.num_lines;
      lines = take first.num_lines first.lines;
    } in
    if d.type == misc_teletext then teletext_loop first copied ds else teletext_loop first e ds

-- The one entry that the stream gets, or `none` for -1.
pub add_teletext_service : Bool → List IntFrameData → Option FrameData
add_teletext_service false entries = none
add_teletext_service true [] = some (record { type = 0; source = 0; num_lines = 0; lines = [] })
add_teletext_service true (d ∷ ds) =
    some (teletext_loop d (record { type = 0; source = 0; num_lines = 0; lines = [] }) (d ∷ ds))

-- A service that is for the location and is not teletext.
wanted : ℕ → IntFrameData → Bool
wanted location d = d.location == location && not (d.type == misc_teletext)

belongs-wanted : (location : ℕ) (d : IntFrameData) → belongs location d ≡ wanted location d
unfolding belongs wanted
belongs-wanted location d = ground arith

-- The services of a location other than teletext, in order.
pub services_at : ℕ → List IntFrameData → List FrameData
services_at location [] = []
services_at location (d ∷ ds) =
    if wanted location d then frame_data_of d ∷ services_at location ds else services_at location ds

service_count-length :
    (location : ℕ) (ds : List IntFrameData)
    → service_count location ds ≡ length (services_at location ds)
unfolding service_count services_at
service_count-length location [] = refl
service_count-length location (d ∷ ds) = elim (Bool-cases (belongs location d)) [
  | inl in_it ↦
      rw (in_it, sym (belongs-wanted location d) ∙ in_it)
        (ap suc (service_count-length location ds))
  | inr out ↦ rw (out, sym (belongs-wanted location d) ∙ out) (service_count-length location ds)
]

fill_nil : (location : ℕ) → fill location 0 [] ≡ some []
unfolding fill
fill_nil location = refl

fill_skip :
    (location room : ℕ) (d : IntFrameData) (ds : List IntFrameData)
    → belongs location d ≡ false
    → fill location room (d ∷ ds) ≡ fill location room ds
unfolding fill
fill_skip location zero d ds out = rw out refl
fill_skip location (suc room) d ds out = rw out refl

fill_take :
    (location room : ℕ) (d : IntFrameData) (ds : List IntFrameData) (es : List FrameData)
    → belongs location d ≡ true
    → fill location room ds ≡ some es
    → fill location (suc room) (d ∷ ds) ≡ some (frame_data_of d ∷ es)
unfolding fill
fill_take location room d ds es in_it h = rw (in_it, h) refl

fill-services_at :
    (location : ℕ) (ds : List IntFrameData)
    → fill location (length (services_at location ds)) ds ≡ some (services_at location ds)
unfolding services_at
fill-services_at location [] = fill_nil location
fill-services_at location (d ∷ ds) = elim (Bool-cases (belongs location d)) [
  | inl in_it ↦
      rw (sym (belongs-wanted location d) ∙ in_it)
        (fill_take location _ d ds _ in_it (fill-services_at location ds))
  | inr out ↦ rw (sym (belongs-wanted location d) ∙ out) (
      fill_skip location (length (services_at location ds)) d ds out ∙ fill-services_at location ds)
]

-- What the stream gets for its services: none is no table.
pub table_of : List FrameData → Option (List FrameData)
table_of [] = none
table_of (e ∷ es) = some (e ∷ es)

not_empty : (n : ℕ) → (suc n == 0) ≡ false
not_empty n = ground arith

by_table :
    (es : List FrameData)
    → if◌then◌else◌ {A = Option (ℤ × ℕ × Option (List FrameData))}
        (length es == 0)
        (some (pos 0, 0, none))
        (filled (length es) (some es))
      ≡ some (pos 0, length es, table_of es)
unfolding table_of filled
by_table [] = refl
by_table (e ∷ es) = rw (not_empty (length es)) refl

-- With memory at hand the table of a stream holds exactly the services of its location other than
-- teletext, in their order, and has no more and no fewer entries than that; without any such service
-- there is no table.
pub add_non_display_services-services_at :
    (entries : List IntFrameData) (location : ℕ)
    → add_non_display_services true entries location
      ≡ some (pos 0, length (services_at location entries), table_of (services_at location entries))
unfolding add_non_display_services
add_non_display_services-services_at entries location =
    rw (service_count-length location entries, fill-services_at location entries)
      (by_table (services_at location entries))

-- Some entry is teletext.
unfoldable pub has_teletext : List IntFrameData → Bool
has_teletext [] = false
has_teletext (d ∷ ds) = if d.type == misc_teletext then true else has_teletext ds

teletext_loop_kept :
    (first : IntFrameData) (e : FrameData) (ds : List IntFrameData)
    → e.type ≡ misc_teletext
    → e.lines ≡ take first.num_lines first.lines
    → ((teletext_loop first e ds).type ≡ misc_teletext)
      × ((teletext_loop first e ds).lines ≡ take first.num_lines first.lines)
unfolding teletext_loop
teletext_loop_kept first e [] t l = (t, l)
teletext_loop_kept first e (d ∷ ds) t l = elim (Bool-cases (d.type == misc_teletext)) [
  | inl hit ↦ rw hit (teletext_loop_kept first _ ds ((==_iff d.type misc_teletext).0 hit) refl)
  | inr miss ↦ rw miss (teletext_loop_kept first e ds t l)
]

teletext_loop_lines :
    (first : IntFrameData) (e : FrameData) (ds : List IntFrameData)
    → has_teletext ds ≡ true
    → ((teletext_loop first e ds).type ≡ misc_teletext)
      × ((teletext_loop first e ds).lines ≡ take first.num_lines first.lines)
unfolding teletext_loop has_teletext
teletext_loop_lines first e [] h = cc
teletext_loop_lines first e (d ∷ ds) h = elim (Bool-cases (d.type == misc_teletext)) [
  | inl hit ↦ rw hit (teletext_loop_kept first _ ds ((==_iff d.type misc_teletext).0 hit) refl)
  | inr miss ↦ rw miss (teletext_loop_lines first e ds (rw miss at h))
]

-- A defect: where some entry is teletext, the teletext service gets the lines of the first entry, be it
-- teletext or not.
pub add_teletext_service_lines :
    (d : IntFrameData) (ds : List IntFrameData)
    → has_teletext (d ∷ ds) ≡ true
    → (e : FrameData) × (add_teletext_service true (d ∷ ds) ≡ some e)
      × (e.type ≡ misc_teletext)
      × (e.lines ≡ take d.num_lines d.lines)
unfolding add_teletext_service
add_teletext_service_lines d ds h =
    let (kind, lines) = teletext_loop_lines d _ (d ∷ ds) h in (_, refl, kind, lines)
