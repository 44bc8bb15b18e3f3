-- ===== src/Bytes/Reads.antt =====
-- When a sequence of reads by `BeReader` of backend/src/util/bytes.h throws `ShortFrame`.
use avb_introspection.Base.{
  ℕ, ◌+◌, ◌-◌, ◌≤◌, ◌≡◌, ap, ◌∙◌, inl, inr, Option, none, some, List, [], ◌∷◌, String, arith, leb,
  if◌then◌else◌, Bool-cases, length,
}
use avb_introspection.Bytes.{
  BeReader, Read, done, short_frame, remaining, needing, u8, u16, u32, u48, u64, bytes, skip,
}

-- One read of a decoder.
pub data Field : Type 0 where
  field8 field16 field32 field48 field64 : String → Field
  field_bytes field_skip : ℕ → String → Field

abbrev pub width : Field → ℕ
width (field8 what) = 1
width (field16 what) = 2
width (field32 what) = 4
width (field48 what) = 6
width (field64 what) = 8
width (field_bytes n what) = n
width (field_skip n what) = n

-- The reader after the read, or `none` where it throws.
abbrev pub after : {A : Type 0} → Read A → Option BeReader
after (done x r) = some r
after (short_frame what need have) = none

abbrev pub read_field : Field → BeReader → Option BeReader
read_field (field8 what) r = after (u8 what r)
read_field (field16 what) r = after (u16 what r)
read_field (field32 what) r = after (u32 what r)
read_field (field48 what) r = after (u48 what r)
read_field (field64 what) r = after (u64 what r)
read_field (field_bytes n what) r = after (bytes n what r)
read_field (field_skip n what) r = after (skip n what r)

abbrev pub read_fields : List Field → Option BeReader → Option BeReader
read_fields fs none = none
read_fields [] (some r) = some r
read_fields (f ∷ fs) (some r) = read_fields fs (read_field f r)

unfoldable pub total : List Field → ℕ
total [] = 0
total (f ∷ fs) = width f + total fs

abbrev moved : ℕ → BeReader → Option BeReader
moved n r = if leb n (remaining r) then some (record r { pos = r.pos + n }) else none

needing-after :
    {A : Type 0} (n : ℕ) (what : String) (f : List ℕ → A) (r : BeReader)
    → after (needing n what f r) ≡ moved n r
unfolding needing
needing-after n what f r = ground arith

read_field-moved : (f : Field) (r : BeReader) → read_field f r ≡ moved (width f) r
read_field-moved (field8 what) r = needing-after 1 what _ r
read_field-moved (field16 what) r = needing-after 2 what _ r
read_field-moved (field32 what) r = needing-after 4 what _ r
read_field-moved (field48 what) r = needing-after 6 what _ r
read_field-moved (field64 what) r = needing-after 8 what _ r
read_field-moved (field_bytes n what) r = needing-after n what _ r
read_field-moved (field_skip n what) r = needing-after n what _ r

-- From a position within the frame, a sequence of reads throws exactly if the frame has fewer bytes left
-- than the fields are wide together; otherwise it moves the position by that, and not past the end.
pub read_fields-total :
    (fs : List Field) (r : BeReader)
    → r.pos ≤ length r.data_bytes
    → read_fields fs (some r) ≡ (
        if leb (total fs) (length r.data_bytes - r.pos)
        then some (record r { pos = r.pos + total fs })
        else none)
unfolding total
read_fields-total [] r h = ground arith
read_fields-total (f ∷ fs) r h =
    ap (read_fields fs) (read_field-moved f r) ∙ elim (Bool-cases (leb (width f) (remaining r))) [
      | inl fits ↦ rw fits (
          read_fields-total fs (record r { pos = r.pos + width f }) (ground (arith, fits))
          ∙ ground (arith, fits))
      | inr short ↦ rw short (ground (arith, short))
    ]
