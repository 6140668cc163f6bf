-- ===== src/Scte104.antt =====
-- common/scte104filtering.c: which SCTE-35 streams an SCTE-104 message is routed to.
-- The array of the context is modelled by its first `count` entries.
pub mod Route
mod Tests
use obe_rt.Base.{
  ℕ, suc, ◌+◌, ◌%◌, Bool, true, false, Option, none, some, List, [], ◌∷◌, ◌++◌, ltb, leb,
  if◌then◌else◌, length, take,
}
use obe_rt.Base.Int.{ℤ, pos, negsuc, eqb_ℤ}

abbrev pub max_scte104_filters : ℕ
max_scte104_filters = 64

-- `struct scte104_filter_s`
pub record Filter : Type 0 where
  pub pid : ℕ
  pub as_index : ℤ
  pub dpi_pid_index : ℤ
  pub message_count : ℕ

-- `struct scte104_filtering_syntax_s`
pub record Filters : Type 0 where
  pub count : ℕ
  pub array : List Filter

-- What the lookup reads of libklvanc's `struct klvanc_multiple_operation_message`.
pub record Message : Type 0 where
  pub as_index : ℤ
  pub dpi_pid_index : ℤ

pub init : Filters
init = record { count = 0; array = [] }

pub filter_count : Filters → ℕ
filter_count ctx = ctx.count

-- The null context is `none`; the result is the C return value and the context.
pub add_filter : Option Filters → ℕ → ℤ → ℤ → ℤ × Option Filters
add_filter none pid as_index dpi_pid_index = (negsuc 0, none)
add_filter (some ctx) pid as_index dpi_pid_index =
    if leb max_scte104_filters ctx.count then (negsuc 0, some ctx) else (
      pos 0,
      some (record {
        count = ctx.count + 1;
        array =
            take ctx.count ctx.array
            ++ record {
              pid = pid;
              as_index = as_index;
              dpi_pid_index = dpi_pid_index;
              message_count = 0;
            }
              ∷ [];
      }),
    )

-- The body of the loop: whether `append` is set.
pub appends : Filter → Message → Bool
appends f msg =
    if eqb_ℤ f.as_index (negsuc 0)
    then (if eqb_ℤ f.dpi_pid_index (negsuc 0)
        then true
        else if eqb_ℤ f.dpi_pid_index msg.dpi_pid_index
        then true
        else false)
    else if eqb_ℤ f.as_index msg.as_index
    then (if eqb_ℤ f.dpi_pid_index (negsuc 0)
        then true
        else if eqb_ℤ f.dpi_pid_index msg.dpi_pid_index
        then true
        else false)
    else false

-- The loop, with `arr` and `cnt`. `grants` is `realloc`'s answer for a number of entries.
pub collect : (ℕ → Bool) → Message → List Filter → List ℕ → ℕ → Option (List ℕ × ℕ)
collect grants msg [] arr cnt = some (arr, cnt)
collect grants msg (f ∷ fs) arr cnt =
    let skip = collect grants msg fs arr cnt in
    let add = collect grants msg fs (arr ++ f.pid ∷ []) (cnt + 1) in
    if appends f msg then (if grants (cnt + 1) then add else none) else skip

-- `*count = cnt`, into a `uint8_t`
pub narrow : Option (List ℕ × ℕ) → Option (List ℕ × ℕ)
narrow none = none
narrow (some (arr, cnt)) = some (arr, cnt % 256)

-- `*array` and `*count`, or -1.
pub lookup_scte35_pids : (ℕ → Bool) → Filters → Message → Option (List ℕ × ℕ)
lookup_scte35_pids grants ctx msg = narrow (collect grants msg (take ctx.count ctx.array) [] 0)
