-- ===== src/Sei/Fields.antt =====
-- Writing and reading the fields of the SEI payload.
use obe_rt.Base.{
  ℕ, ◌+◌, ◌≤◌, ◌<◌, ◌^◌, ◌≡◌, ◌≢◌, refl, sym, ap, ◌∙◌, ◌⊎◌, inl, inr, false, ◌||◌, List, ltb,
  if◌then◌else◌, Bool-cases, ◌==◌, ==_iff, ◌↔◌, arith, length, get_elem?,
}
use obe_rt.Base.Int.{pos, negsuc}
use obe_rt.Base.Copy.{
  splice, length-splice, get_elem?-splice_in, get_elem?-splice_before, get_elem?-splice_after,
}
use obe_rt.Sei.{
  sei_timestamp_field_count, sei_timestamp_payload_length, field_offset, field_bytes, field_set,
  reads, from_bytes, field_get,
}

-- A buffer that holds a whole payload, and whose length the caller states.
abbrev pub Holds : List ℕ → ℕ → Type 0
Holds buffer length_bytes =
    (sei_timestamp_payload_length ≤ length_bytes) × (length_bytes ≤ length buffer)

abbrev pub IsField : ℕ → Type 0
IsField nr = (1 ≤ nr) × (nr ≤ sei_timestamp_field_count)

pub field_set-splice :
    (buffer : List ℕ) (length_bytes nr value : ℕ)
    → Holds buffer length_bytes
    → IsField nr
    → field_set buffer length_bytes nr value
      ≡ (pos 0, splice (field_offset nr) (field_bytes value) buffer)
unfolding field_set
field_set-splice buffer length_bytes nr value h f = ground arith

-- The bytes of the buffer outside field `nr` stay.
pub field_set_outside :
    (buffer : List ℕ) (nr value i : ℕ)
    → (i < field_offset nr) ⊎ (field_offset nr + 6 ≤ i)
    → get_elem? (splice (field_offset nr) (field_bytes value) buffer) i ≡ get_elem? buffer i
field_set_outside buffer nr value i (inl h) = get_elem?-splice_before _ _ buffer i h
field_set_outside buffer nr value i (inr h) = get_elem?-splice_after _ _ buffer i h

pub field_set_inside :
    (buffer : List ℕ) (nr value k i : ℕ)
    → i ≡ field_offset nr + k
    → k < 6
    → field_offset nr + 6 ≤ length buffer
    → get_elem? (splice (field_offset nr) (field_bytes value) buffer) i
      ≡ get_elem? (field_bytes value) k
field_set_inside buffer nr value k i e h r =
    get_elem?-splice_in (field_offset nr) (field_bytes value) buffer k i e h r

field_guard : (nr : ℕ) → IsField nr → (ltb nr 1 || ltb sei_timestamp_field_count nr) ≡ false
field_guard nr f = ground arith

-- A read of a valid field number looks at four bytes.
pub field_get_bytes :
    (buffer : List ℕ) (nr : ℕ)
    → IsField nr
    → field_get buffer nr
      ≡ from_bytes
          (get_elem? buffer (field_offset nr))
          (get_elem? buffer (field_offset nr + 1))
          (get_elem? buffer (field_offset nr + 3))
          (get_elem? buffer (field_offset nr + 4))
unfolding field_get
field_get_bytes buffer nr f = rw (field_guard nr f)

get-set_self :
    (buffer : List ℕ) (nr value : ℕ)
    → IsField nr
    → field_offset nr + 6 ≤ length buffer
    → value < 2 ^ 32
    → field_get (splice (field_offset nr) (field_bytes value) buffer) nr ≡ reads value
unfolding from_bytes
get-set_self buffer nr value f r small =
    field_get_bytes _ nr f
    ∙ rw
        (
          field_set_inside buffer nr value 0 (field_offset nr) (omega arith) (omega arith) r,
          field_set_inside buffer nr value 1 (field_offset nr + 1) refl (omega arith) r,
          field_set_inside buffer nr value 3 (field_offset nr + 3) refl (omega arith) r,
          field_set_inside buffer nr value 4 (field_offset nr + 4) refl (omega arith) r,
        )
        (ap reads (omega arith))

apart :
    (nr other k i : ℕ)
    → i ≡ field_offset other + k
    → IsField nr
    → IsField other
    → nr ≢ other
    → k < 6
    → (i < field_offset nr) ⊎ (field_offset nr + 6 ≤ i)
apart nr other k i e f g ne h = grind arith

get-set_ne :
    (buffer : List ℕ) (nr other value : ℕ)
    → IsField nr
    → IsField other
    → nr ≢ other
    → field_get (splice (field_offset nr) (field_bytes value) buffer) other ≡ field_get buffer other
get-set_ne buffer nr other value f g ne =
    field_get_bytes _ other g
    ∙ rw
        (
          field_set_outside buffer nr value (field_offset other)
              (apart nr other 0 (field_offset other) (omega arith) f g ne (omega arith)),
          field_set_outside buffer nr value _ (apart nr other 1 _ refl f g ne (omega arith)),
          field_set_outside buffer nr value _ (apart nr other 3 _ refl f g ne (omega arith)),
          field_set_outside buffer nr value _ (apart nr other 4 _ refl f g ne (omega arith)),
        )
        (sym (field_get_bytes buffer other g))

-- A value that is written to a field is read back, and a write to one field changes no other: in a
-- buffer that holds a payload, after field `nr` is set to a 32-bit value, a read of field `other`
-- gives that value if the two are the same, and what it gave before if they are not.
pub field_get-field_set :
    (buffer : List ℕ) (length_bytes nr other value : ℕ)
    → Holds buffer length_bytes
    → IsField nr
    → IsField other
    → value < 2 ^ 32
    → field_get (field_set buffer length_bytes nr value).1 other
      ≡ (if nr == other then reads value else field_get buffer other)
field_get-field_set buffer length_bytes nr other value h f g small =
    rw (field_set-splice buffer length_bytes nr value h f) (elim (Bool-cases (nr == other)) [
      | inl e ↦ rw (e, ← (==_iff nr other).0 e) (get-set_self buffer nr value f (omega arith) small)
      | inr e ↦ rw e (get-set_ne buffer nr other value f g (ground arith))
    ])

-- A write to a field fails exactly when the number is not that of a field, or the length that the
-- caller states ends before the field does; and then it leaves the buffer alone. A write never
-- changes the buffer's length.
pub field_set_refuses :
    (buffer : List ℕ) (length_bytes nr value : ℕ)
    → (((field_set buffer length_bytes nr value).0 ≡ negsuc 0)
        ↔ ((nr ≡ 0) ⊎ (sei_timestamp_field_count < nr) ⊎ (length_bytes < field_offset nr + 6)))
      × (((field_set buffer length_bytes nr value).1 ≡ buffer)
          ⊎ ((field_set buffer length_bytes nr value).0 ≡ pos 0))
      × (length (field_set buffer length_bytes nr value).1 ≡ length buffer)
unfolding field_set
field_set_refuses buffer length_bytes nr value =
    ground (arith, length-splice (field_offset nr) (field_bytes value) buffer)
