-- ===== src/Bytes/Tests.antt =====
-- The theorems on the byte reader at concrete inputs.
use avb_introspection.Base.{
  ◌+◌, ◌-◌, ◌≤◌, ◌≡◌, some, none, [], ◌∷◌, arith, length, leb, if◌then◌else◌,
}
use avb_introspection.Bytes.{BeReader, done, u16, u32, u48, u64}
use avb_introspection.Bytes.Reads.{
  field16, field48, field_skip, read_fields, total, read_fields-total,
}
use avb_introspection.Bytes.Words.{frame, past, words-big_endian}

-- A reader with five bytes left.
abbrev header : BeReader
header = record { data_bytes = 34 ∷ 240 ∷ 1 ∷ 2 ∷ 3 ∷ 4 ∷ []; pos = 1 }

header_inside : header.pos ≤ length header.data_bytes
header_inside = omega arith

read_fields-total_example :
    read_fields
      (field16 "ethertype" ∷ field_skip 2 "padding" ∷ field48 "address" ∷ [])
      (some header)
    ≡ (if leb
          (total (field16 "ethertype" ∷ field_skip 2 "padding" ∷ field48 "address" ∷ []))
          (length header.data_bytes - header.pos)
        then some (record header {
          pos =
              header.pos
              + total (field16 "ethertype" ∷ field_skip 2 "padding" ∷ field48 "address" ∷ []);
        })
        else none)
read_fields-total_example =
    read_fields-total (field16 "ethertype" ∷ field_skip 2 "padding" ∷ field48 "address" ∷ []) header
      header_inside

words-big_endian_example :
    ((u16 "x" (frame (9 ∷ []) 2 258 []) ≡ done 258 (past 2 (frame (9 ∷ []) 2 258 [])))
      × (u32 "x" (frame (9 ∷ []) 4 70000 []) ≡ done 70000 (past 4 (frame (9 ∷ []) 4 70000 []))))
    × ((u48 "x" (frame (9 ∷ []) 6 5 []) ≡ done 5 (past 6 (frame (9 ∷ []) 6 5 [])))
        × (u64 "x" (frame (9 ∷ []) 8 7 []) ≡ done 7 (past 8 (frame (9 ∷ []) 8 7 []))))
words-big_endian_example =
    words-big_endian "x" (9 ∷ []) [] 258 70000 5 7 (omega arith) (omega arith) (omega arith)
      (omega arith)
