-- ===== src/Bytes/Words.antt =====
-- `BeReader` of backend/src/util/bytes.h reads the big-endian form of a number, and `hexDump` can be read
-- back.
use avb_introspection.Base.{
  ℕ, zero, suc, ◌+◌, ◌-◌, ◌*◌, ◌/◌, ◌%◌, ◌^◌, ◌<◌, ◌≡◌, refl, ap, ◌∙◌, sym, false, List, [], ◌∷◌,
  ◌++◌, String, arith, ltb, if◌then◌else◌, length, length-append, drop, drop-append, All,
}
use avb_introspection.Bytes.{BeReader, done, needing, shift_in, u16, u32, u48, u64, digit, hex_dump}

-- The last `n` base-256 digits of a number, the most significant first.
unfoldable pub big_endian : ℕ → ℕ → List ℕ
big_endian zero v = []
big_endian (suc n) v = big_endian n (v / 256) ++ v % 256 ∷ []

abbrev pub bound : ℕ → ℕ
bound zero = 1
bound (suc n) = bound n * 256

pub length-big_endian : (n v : ℕ) → length (big_endian n v) ≡ n
unfolding big_endian
length-big_endian zero v = refl
length-big_endian (suc n) v =
    length-append (big_endian n (v / 256)) (v % 256 ∷ [])
    ∙ omega (arith, length-big_endian n (v / 256))

-- The loop without its counter.
fold_in : ℕ → List ℕ → ℕ
fold_in v [] = v
fold_in v (b ∷ bs) = fold_in ((v * 2 ^ 8) % 2 ^ 64 + b) bs

fold_in-append :
    (v b : ℕ) (bs : List ℕ) → fold_in v (bs ++ b ∷ []) ≡ (fold_in v bs * 2 ^ 8) % 2 ^ 64 + b
unfolding fold_in
fold_in-append v b [] = refl
fold_in-append v b (c ∷ bs) = fold_in-append ((v * 2 ^ 8) % 2 ^ 64 + c) b bs

shift_in-fold_in : (v : ℕ) (bs rest : List ℕ) → shift_in (length bs) v (bs ++ rest) ≡ fold_in v bs
unfolding shift_in fold_in
shift_in-fold_in v [] rest = refl
shift_in-fold_in v (b ∷ bs) rest = shift_in-fold_in ((v * 2 ^ 8) % 2 ^ 64 + b) bs rest

fold_in-big_endian : (n v : ℕ) → v < bound n → v < 2 ^ 64 → fold_in 0 (big_endian n v) ≡ v
unfolding big_endian fold_in
fold_in-big_endian zero v small word = omega (arith, small)
fold_in-big_endian (suc n) v small word =
    fold_in-append 0 (v % 256) (big_endian n (v / 256))
    ∙ omega
        (arith, word, fold_in-big_endian n (v / 256) (omega (arith, small)) (omega (arith, word)))

-- Bytes that follow the number are not read.
pub shift_in-big_endian :
    (n v : ℕ) (rest : List ℕ) → v < bound n → v < 2 ^ 64 → shift_in n 0 (big_endian n v ++ rest) ≡ v
shift_in-big_endian n v rest small word =
    ap (λ k. shift_in k 0 (big_endian n v ++ rest)) (sym (length-big_endian n v))
    ∙ (shift_in-fold_in 0 (big_endian n v) rest ∙ fold_in-big_endian n v small word)

-- A frame with something before and after.
abbrev pub frame : List ℕ → ℕ → ℕ → List ℕ → BeReader
frame before n v rest = record {
  data_bytes = before ++ (big_endian n v ++ rest);
  pos = length before;
}

abbrev pub past : ℕ → BeReader → BeReader
past n r = record r { pos = r.pos + n }

read-big_endian :
    (n v : ℕ) (what : String) (before rest : List ℕ)
    → v < bound n
    → v < 2 ^ 64
    → needing n what (shift_in n 0) (frame before n v rest)
      ≡ done v (past n (frame before n v rest))
unfolding needing
read-big_endian n v what before rest small word =
    let room : ltb (length all - length before) n ≡ false = ground (
      arith,
      length-append before (big_endian n v ++ rest),
      length-append (big_endian n v) rest,
      length-big_endian n v,
    ) in
    let value : shift_in n 0 (drop (length before) all) ≡ v =
      ap (shift_in n 0) (drop-append before (big_endian n v ++ rest))
      ∙ shift_in-big_endian n v rest small word in
    rw (room, value) refl
  where
    all : List ℕ
    all = before ++ (big_endian n v ++ rest)

-- A number that fits into 16, 32, 48 or 64 bits and stands in a frame in two, four, six or eight
-- big-endian bytes is read back by `u16`, `u32`, `u48` or `u64` as it is, and the position moves over it.
pub words-big_endian :
    (what : String) (before rest : List ℕ) (a b c d : ℕ)
    → a < 2 ^ 16
    → b < 2 ^ 32
    → c < 2 ^ 48
    → d < 2 ^ 64
    → ((u16 what (frame before 2 a rest) ≡ done a (past 2 (frame before 2 a rest)))
        × (u32 what (frame before 4 b rest) ≡ done b (past 4 (frame before 4 b rest))))
      × ((u48 what (frame before 6 c rest) ≡ done c (past 6 (frame before 6 c rest)))
          × (u64 what (frame before 8 d rest) ≡ done d (past 8 (frame before 8 d rest))))
words-big_endian what before rest a b c d ha hb hc hd = (
  (
    read-big_endian 2 a what before rest (omega (arith, ha)) (omega (arith, ha)),
    read-big_endian 4 b what before rest (omega (arith, hb)) (omega (arith, hb)),
  ),
  (
    read-big_endian 6 c what before rest (omega (arith, hc)) (omega (arith, hc)),
    read-big_endian 8 d what before rest (omega (arith, hd)) (omega (arith, hd)),
  ),
)

abbrev value_of : ℕ → ℕ
value_of c = if ltb c 58 then c - 48 else c - 87

unfoldable pub read_dump : List ℕ → List ℕ
read_dump [] = []
read_dump (a ∷ []) = []
read_dump (a ∷ b ∷ cs) = (value_of a * 16 + value_of b) ∷ read_dump cs

value_of-digit : (d : ℕ) → d < 16 → value_of (digit d) ≡ d
value_of-digit d h = ground (arith, h)

-- A dump of bytes, two lower-case hexadecimal digits for each, read as hexadecimal, gives the bytes.
pub read_dump-hex_dump : (bs : List ℕ) → All (λ b. b < 256) bs → read_dump (hex_dump bs) ≡ bs
unfolding read_dump hex_dump
read_dump-hex_dump [] h = refl
read_dump-hex_dump (b ∷ bs) h =
    rw
      (
        value_of-digit (b / 16) (omega (arith, h.0)),
        value_of-digit (b % 16) (omega arith),
        read_dump-hex_dump bs h.1,
      )
      (ap (λ x. x ∷ bs) (omega arith))
