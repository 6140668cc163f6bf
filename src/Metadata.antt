-- ===== src/Metadata.antt =====
-- common/metadata.c: the side data that travels with a frame. A list is the items of the array below
-- `count`. `malloc` answers by size; `fresh` and `stale` are what it leaves in a buffer and in a field.
-- `none` is an access outside an allocation or through a null pointer.
pub mod Items
mod Tests
use obe_rt.Base.{
  ℕ, zero, suc, ◌+◌, ◌-◌, Bool, true, false, Option, none, some, List, [], ◌∷◌, ◌++◌, ltb, ◌==◌,
  if◌then◌else◌, length, take, drop,
}
use obe_rt.Base.Int.{ℤ, pos, negsuc}
use obe_rt.Base.Copy.{splice}

-- `struct avmetadata_item_s`; a null `data` is the empty list.
pub record Item : Type 0 where
  pub item_type : ℕ
  pub data_length_alloc : ℕ
  pub data_length_bytes : ℕ
  pub bytes : List ℕ
  pub output_stream_id : ℤ
  pub line_nr : ℤ

-- `sizeof(struct avmetadata_item_s)` on a 64-bit host
abbrev pub item_size : ℕ
item_size = 32

-- A null pointer, a store outside the allocation, or the item.
pub data Allocated : Type 0 where
  null : Allocated
  corrupts : Allocated
  allocated : Item → Allocated

pub reset : List Item → List Item
reset items = []

pub init : List Item
init = []

pub count_by_type : List Item → ℕ → ℕ
count_by_type [] item_type = 0
count_by_type (i ∷ is) item_type =
    let rest = count_by_type is item_type in if i.item_type == item_type then suc rest else rest

pub item_data_write : Item → List ℕ → ℕ → Option (ℤ × Item)
item_data_write dst buf length_bytes =
    if ltb dst.data_length_alloc length_bytes
    then some (negsuc 0, dst)
    else if ltb (length dst.bytes) length_bytes
    then none
    else if ltb (length buf) length_bytes
    then none
    else some (
      pos 0,
      record dst {
        bytes = splice 0 (take length_bytes buf) dst.bytes;
        data_length_bytes = length_bytes;
      },
    )

pub item_data_set_linenr : Item → ℤ → ℤ × Item
item_data_set_linenr src line_nr = (pos 0, record src { line_nr = line_nr })

pub item_data_set_outputstreamid : Item → ℤ → ℤ × Item
item_data_set_outputstreamid src id = (pos 0, record src { output_stream_id = id })

module _ (grants : ℕ → Bool) (fresh : ℕ → List ℕ) (stale : ℤ) where
  -- The item itself is allocated with the length of its data.
  pub item_alloc : ℕ → ℕ → Allocated
  item_alloc length_bytes item_type =
      if grants length_bytes
      then (if ltb length_bytes item_size
          then corrupts
          else allocated (record {
            item_type = item_type;
            data_length_alloc = length_bytes;
            data_length_bytes = 0;
            bytes = fresh length_bytes;
            output_stream_id = stale;
            line_nr = stale;
          }))
      else null

  -- `memcpy` of `src->dataLengthAlloc` bytes into the new item.
  pub copy_into : Item → Allocated → Option Item
  copy_into src null = none
  copy_into src corrupts = none
  copy_into src (allocated dst) =
      if ltb (length src.bytes) src.data_length_alloc
      then none
      else some (record dst {
        output_stream_id = src.output_stream_id;
        line_nr = src.line_nr;
        data_length_bytes = src.data_length_bytes;
        bytes = splice 0 (take src.data_length_alloc src.bytes) dst.bytes;
      })

  pub item_clone : Item → Option Item
  item_clone src = copy_into src (item_alloc src.data_length_alloc src.item_type)

  pub add_item : Option Item → Option (List Item) → Option (List Item)
  add_item none rest = none
  add_item (some i) none = none
  add_item (some i) (some is) = some (i ∷ is)

  -- The loop of `avmetadata_clone`.
  pub clone_items : List Item → Option (List Item)
  clone_items [] = some []
  clone_items (i ∷ is) = add_item (item_clone i) (clone_items is)

  -- The list that `dst` holds afterwards: an empty source leaves it as it is.
  pub clone : List Item → List Item → Option (List Item)
  clone dst [] = some dst
  clone dst (i ∷ is) = clone_items (i ∷ is)

  pub item_data_realloc : Item → ℕ → ℤ × Item
  item_data_realloc src length_bytes =
      if grants length_bytes
      then (
        pos 0,
        record src {
          bytes = take length_bytes (src.bytes ++ drop (length src.bytes) (fresh length_bytes));
          data_length_alloc = length_bytes;
        },
      )
      else (negsuc 0, record src { bytes = [] })
