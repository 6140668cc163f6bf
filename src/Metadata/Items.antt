-- ===== src/Metadata/Items.antt =====
-- Copies of the side data, and writes to an item.
use obe_rt.Base.{
  ℕ, ◌≤◌, ◌<◌, ◌≡◌, refl, ap, ◌∙◌, Bool, true, false, some, List, [], ◌∷◌, ◌++◌, ltb, ltb-cases,
  ◌⊎◌, inl, inr, length, take, drop, take_all, drop_all, append-nil, arith,
}
use obe_rt.Base.Int.{ℤ, pos, negsuc}
use obe_rt.Base.Copy.{splice, length-splice}
use obe_rt.Metadata.{
  Item, item_size, item_alloc, copy_into, item_clone, add_item, clone_items, clone, item_data_write,
}

-- The buffer has the length that is noted, and the used part is in it.
pub record IsValid (i : Item) : Type 0 where
  pub sized : length i.bytes ≡ i.data_length_alloc
  pub used : i.data_length_bytes ≤ i.data_length_alloc

-- Every item is valid and at least as long as the structure.
unfoldable pub AllWhole : List Item → Type 0
AllWhole [] = 0 ≤ 0
AllWhole (i ∷ is) = IsValid i × (item_size ≤ i.data_length_alloc) × AllWhole is

splice_front :
    (new old : List ℕ) → length new ≤ length old → splice 0 new old ≡ new ++ drop (length new) old
unfolding splice
splice_front [] [] h = refl
splice_front [] (b ∷ old) h = refl
splice_front (a ∷ new) [] h = absurd (omega arith)
splice_front (a ∷ new) (b ∷ old) h = ap (◌∷◌ a) (splice_front new old (omega arith))

splice_over : (new old : List ℕ) → length old ≡ length new → splice 0 new old ≡ new
splice_over new old h =
    splice_front new old (omega arith)
    ∙ ap (λ l. new ++ l) (drop_all (length new) old (omega arith))
    ∙ append-nil new

module _ (grants : ℕ → Bool) (fresh : ℕ → List ℕ) (stale : ℤ) where
  item_clone_same :
      (i : Item)
      → ((n : ℕ) → grants n ≡ true)
      → ((n : ℕ) → length (fresh n) ≡ n)
      → IsValid i
      → item_size ≤ i.data_length_alloc
      → item_clone grants fresh stale i ≡ some i
  unfolding item_clone item_alloc copy_into
  item_clone_same i all size v large =
      let small : ltb i.data_length_alloc item_size ≡ false = ground arith in
      let short : ltb (length i.bytes) i.data_length_alloc ≡ false = ground (arith, v.sized) in
      let whole : take i.data_length_alloc i.bytes ≡ i.bytes =
        take_all i.data_length_alloc i.bytes (omega (arith, v.sized)) in
      let copied : splice 0 i.bytes (fresh i.data_length_alloc) ≡ i.bytes =
        splice_over i.bytes (fresh i.data_length_alloc)
          (omega (arith, v.sized, size i.data_length_alloc)) in
      rw (all i.data_length_alloc, small, short, whole, copied) refl

  clone_items_same :
      (is : List Item)
      → ((n : ℕ) → grants n ≡ true)
      → ((n : ℕ) → length (fresh n) ≡ n)
      → AllWhole is
      → clone_items grants fresh stale is ≡ some is
  unfolding clone_items add_item AllWhole
  clone_items_same [] all size w = refl
  clone_items_same (i ∷ is) all size (v, large, w) =
      rw (item_clone_same i all size v large, clone_items_same is all size w) refl

  -- With memory at hand a clone of a list that is not empty is equal to the list, whatever the target
  -- held: every field of every item and every byte, in order. This needs valid items that are at least
  -- as long as the structure that describes them.
  pub clone_same :
      (dst : List Item) (i : Item) (is : List Item)
      → ((n : ℕ) → grants n ≡ true)
      → ((n : ℕ) → length (fresh n) ≡ n)
      → AllWhole (i ∷ is)
      → clone grants fresh stale dst (i ∷ is) ≡ some (i ∷ is)
  unfolding clone
  clone_same dst i is all size w = clone_items_same (i ∷ is) all size w

-- A write to a valid item is refused, and changes nothing, exactly when it is longer than the buffer;
-- else the item stays valid, holds the written bytes followed by its old ones, notes their number and
-- keeps its other fields.
pub item_data_write-splits :
    (i : Item) (buf : List ℕ)
    → IsValid i
    → ((i.data_length_alloc < length buf)
        × (item_data_write i buf (length buf) ≡ some (negsuc 0, i)))
      ⊎ ((length buf ≤ i.data_length_alloc)
          × (i' : Item) × (item_data_write i buf (length buf) ≡ some (pos 0, i'))
          × (i'.bytes ≡ buf ++ drop (length buf) i.bytes)
          × (i'.data_length_bytes ≡ length buf)
          × (i'.item_type ≡ i.item_type)
          × (i'.line_nr ≡ i.line_nr)
          × (i'.output_stream_id ≡ i.output_stream_id)
          × IsValid i')
unfolding item_data_write
item_data_write-splits i buf v = elim (ltb-cases i.data_length_alloc (length buf)) [
  | inl (over, lt) ↦ inl (lt, rw over refl)
  | inr (fits, le) ↦
      let enough : ltb (length i.bytes) (length buf) ≡ false = ground (arith, v.sized) in
      let given : ltb (length buf) (length buf) ≡ false = ground arith in
      let whole : take (length buf) buf ≡ buf = take_all (length buf) buf (omega arith) in
      inr (
        le,
        record i { bytes = splice 0 buf i.bytes; data_length_bytes = length buf },
        rw (fits, enough, given, whole) refl,
        splice_front buf i.bytes (omega (arith, v.sized)),
        refl,
        refl,
        refl,
        refl,
        record { sized = length-splice 0 buf i.bytes ∙ v.sized; used = le },
      )
]
