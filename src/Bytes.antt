-- ===== src/Bytes.antt =====
-- The bounds-checked big-endian reader `BeReader` of backend/src/util/bytes.h, with `hexDump` and
-- `paddedStr`. A span is the list of its bytes, a text here the list of its character codes; `ShortFrame`
-- is `short_frame`, with the values its text is put together from.
pub mod Reads
pub mod Words
mod Tests
use avb_introspection.Base.{
  ℕ, zero, suc, ◌+◌, ◌-◌, ◌*◌, ◌/◌, ◌%◌, ◌^◌, ◌&&◌, List, [], ◌∷◌, String, ltb, leb, ◌==◌,
  if◌then◌else◌, length, drop, take,
}

pub record BeReader : Type 0 where
  pub data_bytes : List ℕ
  pub pos : ℕ

pub data Read (A : Type 0) : Type 0 where
  done : A → BeReader → Read A
  short_frame : String → ℕ → ℕ → Read A

abbrev pub remaining : BeReader → ℕ
remaining r = length r.data_bytes - r.pos

-- `need`, and then what is read of the bytes from the position on, over which the position moves.
unfoldable pub needing : {A : Type 0} → ℕ → String → (List ℕ → A) → BeReader → Read A
needing n what f r =
    if ltb (remaining r) n
    then short_frame what n (remaining r)
    else done (f (drop r.pos r.data_bytes)) (record r { pos = r.pos + n })

-- The loop `v = (v << 8) | b` over a number of bytes.
unfoldable pub shift_in : ℕ → ℕ → List ℕ → ℕ
shift_in zero v bs = v
shift_in (suc n) v [] = v
shift_in (suc n) v (b ∷ bs) = shift_in n ((v * 2 ^ 8) % 2 ^ 64 + b) bs

abbrev pub u8 : String → BeReader → Read ℕ
u8 what = needing 1 what (shift_in 1 0)

abbrev pub u16 : String → BeReader → Read ℕ
u16 what = needing 2 what (shift_in 2 0)

abbrev pub u32 : String → BeReader → Read ℕ
u32 what = needing 4 what (shift_in 4 0)

abbrev pub u48 : String → BeReader → Read ℕ
u48 what = needing 6 what (shift_in 6 0)

abbrev pub u64 : String → BeReader → Read ℕ
u64 what = needing 8 what (shift_in 8 0)

abbrev pub bytes : ℕ → String → BeReader → Read (List ℕ)
bytes n what = needing n what (take n)

abbrev pub skip : ℕ → String → BeReader → Read Unit
skip n what = needing n what (λ _. tt)

-- `hexDump`: the digits by their character codes.
abbrev pub digit : ℕ → ℕ
digit d = if ltb d 10 then 48 + d else 87 + d

unfoldable pub hex_dump : List ℕ → List ℕ
hex_dump [] = []
hex_dump (b ∷ bs) = digit (b / 16) ∷ digit (b % 16) ∷ hex_dump bs

-- `paddedStr`: without the zeros at the end, and with dots for what cannot be printed.
abbrev pub strip_step : ℕ → List ℕ → List ℕ
strip_step b [] = if b == 0 then [] else b ∷ []
strip_step b (c ∷ cs) = b ∷ c ∷ cs

unfoldable pub strip_zeros : List ℕ → List ℕ
strip_zeros [] = []
strip_zeros (b ∷ bs) = strip_step b (strip_zeros bs)

abbrev pub printable : ℕ → ℕ
printable c = if leb 32 c && ltb c 127 then c else 46

unfoldable pub show_all : List ℕ → List ℕ
show_all [] = []
show_all (c ∷ cs) = printable c ∷ show_all cs

unfoldable pub padded_str : List ℕ → List ℕ
padded_str bs = show_all (strip_zeros bs)
