-- ===== src/Decode/Packed.antt =====
-- The packed events of an MRP vector: `threePackedEvent` and `fourPackedEvent` of
-- backend/src/decode/decode.cpp.
use avb_introspection.Base.{
  ℕ, zero, suc, ◌+◌, ◌*◌, ◌/◌, ◌%◌, ◌<◌, ◌≡◌, ap, ◌∙◌, some, List, [], ◌∷◌, arith, ◌==◌,
  if◌then◌else◌, get_elem?, All,
}
use avb_introspection.Decode.Types.{Result, ok, bind, index}
use avb_introspection.Decode.Mrp.{three_packed_event, four_packed_event}

-- Three values to a byte, in base 6, and four to a byte, in base 4; the last byte is filled with zeros.
unfoldable pub pack_three : List ℕ → List ℕ
pack_three [] = []
pack_three (a ∷ []) = (a * 36) ∷ []
pack_three (a ∷ b ∷ []) = (a * 36 + b * 6) ∷ []
pack_three (a ∷ b ∷ c ∷ rest) = (a * 36 + b * 6 + c) ∷ pack_three rest

unfoldable pub pack_four : List ℕ → List ℕ
pack_four [] = []
pack_four (a ∷ []) = (a * 64) ∷ []
pack_four (a ∷ b ∷ []) = (a * 64 + b * 16) ∷ []
pack_four (a ∷ b ∷ c ∷ []) = (a * 64 + b * 16 + c * 4) ∷ []
pack_four (a ∷ b ∷ c ∷ d ∷ rest) = (a * 64 + b * 16 + c * 4 + d) ∷ pack_four rest

abbrev three_at : List ℕ → ℕ → ℕ → Result ℕ
three_at bs q r =
    bind (index bs q) λ b. ok (if r == 0 then b / 36 else if r == 1 then b / 6 % 6 else b % 6)

abbrev four_at : List ℕ → ℕ → ℕ → Result ℕ
four_at bs q r = bind (index bs q) λ b. ok (
    if r == 0
    then b / 64 % 4
    else if r == 1
    then b / 16 % 4
    else if r == 2
    then b / 4 % 4
    else b % 4)

three_step :
    (b : ℕ) (bs : List ℕ) (i : ℕ)
    → three_packed_event (b ∷ bs) (suc (suc (suc i))) ≡ three_packed_event bs i
unfolding three_packed_event index
three_step b bs i =
    ap (λ q. three_at (b ∷ bs) q (suc (suc (suc i)) % 3)) {x = suc (suc (suc i)) / 3}
      {y = suc (i / 3)} (omega arith)
    ∙ ap (three_at (b ∷ bs) (suc (i / 3))) {x = suc (suc (suc i)) % 3} {y = i % 3} (omega arith)

four_step :
    (b : ℕ) (bs : List ℕ) (i : ℕ)
    → four_packed_event (b ∷ bs) (suc (suc (suc (suc i)))) ≡ four_packed_event bs i
unfolding four_packed_event index
four_step b bs i =
    ap (λ q. four_at (b ∷ bs) q (suc (suc (suc (suc i))) % 4)) {x = suc (suc (suc (suc i))) / 4}
      {y = suc (i / 4)} (omega arith)
    ∙ ap (four_at (b ∷ bs) (suc (i / 4))) {x = suc (suc (suc (suc i))) % 4} {y = i % 4}
        (omega arith)

three_packed_event-pack_three :
    (evs : List ℕ) (i e : ℕ)
    → All (λ e. e < 6) evs
    → get_elem? evs i ≡ some e
    → three_packed_event (pack_three evs) i ≡ ok e
unfolding pack_three three_packed_event index
three_packed_event-pack_three [] i e small at = absurd (ground (arith, at))
three_packed_event-pack_three (a ∷ []) zero e small at = ground (arith, at, small)
three_packed_event-pack_three (a ∷ []) (suc i) e small at = absurd (ground (arith, at))
three_packed_event-pack_three (a ∷ b ∷ []) zero e small at = ground (arith, at, small)
three_packed_event-pack_three (a ∷ b ∷ []) (suc zero) e small at = ground (arith, at, small)
three_packed_event-pack_three (a ∷ b ∷ []) (suc (suc i)) e small at = absurd (ground (arith, at))
three_packed_event-pack_three (a ∷ b ∷ c ∷ rest) zero e small at = ground (arith, at, small)
three_packed_event-pack_three (a ∷ b ∷ c ∷ rest) (suc zero) e small at = ground (arith, at, small)
three_packed_event-pack_three (a ∷ b ∷ c ∷ rest) (suc (suc zero)) e small at =
    ground (arith, at, small)
three_packed_event-pack_three (a ∷ b ∷ c ∷ rest) (suc (suc (suc i))) e small at =
    three_step (a * 36 + b * 6 + c) (pack_three rest) i
    ∙ three_packed_event-pack_three rest i e small.1.1.1 at

four_packed_event-pack_four :
    (fps : List ℕ) (i e : ℕ)
    → All (λ e. e < 4) fps
    → get_elem? fps i ≡ some e
    → four_packed_event (pack_four fps) i ≡ ok e
unfolding pack_four four_packed_event index
four_packed_event-pack_four [] i e small at = absurd (ground (arith, at))
four_packed_event-pack_four (a ∷ []) zero e small at = ground (arith, at, small)
four_packed_event-pack_four (a ∷ []) (suc i) e small at = absurd (ground (arith, at))
four_packed_event-pack_four (a ∷ b ∷ []) zero e small at = ground (arith, at, small)
four_packed_event-pack_four (a ∷ b ∷ []) (suc zero) e small at = ground (arith, at, small)
four_packed_event-pack_four (a ∷ b ∷ []) (suc (suc i)) e small at = absurd (ground (arith, at))
four_packed_event-pack_four (a ∷ b ∷ c ∷ []) zero e small at = ground (arith, at, small)
four_packed_event-pack_four (a ∷ b ∷ c ∷ []) (suc zero) e small at = ground (arith, at, small)
four_packed_event-pack_four (a ∷ b ∷ c ∷ []) (suc (suc zero)) e small at = ground (arith, at, small)
four_packed_event-pack_four (a ∷ b ∷ c ∷ []) (suc (suc (suc i))) e small at =
    absurd (ground (arith, at))
four_packed_event-pack_four (a ∷ b ∷ c ∷ d ∷ rest) zero e small at = ground (arith, at, small)
four_packed_event-pack_four (a ∷ b ∷ c ∷ d ∷ rest) (suc zero) e small at = ground (arith, at, small)
four_packed_event-pack_four (a ∷ b ∷ c ∷ d ∷ rest) (suc (suc zero)) e small at =
    ground (arith, at, small)
four_packed_event-pack_four (a ∷ b ∷ c ∷ d ∷ rest) (suc (suc (suc zero))) e small at =
    ground (arith, at, small)
four_packed_event-pack_four (a ∷ b ∷ c ∷ d ∷ rest) (suc (suc (suc (suc i)))) e small at =
    four_step (a * 64 + b * 16 + c * 4 + d) (pack_four rest) i
    ∙ four_packed_event-pack_four rest i e small.1.1.1.1 at

-- Attribute events below 6, packed three to a byte, and listener parameters below 4, packed four to a byte,
-- are each read back at their position.
pub packed_event-pack :
    (evs fps : List ℕ) (i e f : ℕ)
    → All (λ e. e < 6) evs
    → All (λ f. f < 4) fps
    → get_elem? evs i ≡ some e
    → get_elem? fps i ≡ some f
    → (three_packed_event (pack_three evs) i ≡ ok e) × (four_packed_event (pack_four fps) i ≡ ok f)
packed_event-pack evs fps i e f small_evs small_fps at_evs at_fps = (
  three_packed_event-pack_three evs i e small_evs at_evs,
  four_packed_event-pack_four fps i f small_fps at_fps,
)
