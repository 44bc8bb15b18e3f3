-- ===== src/Decode/Types.antt =====
-- What backend/src/decode/decode.cpp and backend/src/decode/decode.h work with: the decoded packet, what a
-- decoder throws, and a reader with the context that it fills, as a monad. The fields for the packet
-- inspector and the texts for people are left out.
use avb_introspection.Base.{ℕ, Bool, Option, none, some, List, [], ◌∷◌, String, get_elem?}
use avb_introspection.Context.{VarLayerContext, set_value, set_bytes}
use avb_introspection.Bytes.{
  BeReader, Read, done, short_frame, remaining, needing, shift_in, bytes, skip,
}

-- What is thrown, by what its text says.
pub data Fault : Type 0 where
  truncated : String → ℕ → ℕ → Fault
  implausible_length implausible_vector : ℕ → Fault
  list_exceeds list_overruns runaway too_many tlv_overruns path_too_long : Fault
  bad_version short_message : ℕ → Fault
  bad_mvrp bad_msrp : ℕ → ℕ → Fault

-- `out_of_bounds` is a read outside a span, which C++ leaves undefined; `stuck` is no value of the source:
-- a loop's fuel ran out.
pub data Result {ℓ} (A : Type ℓ) : Type ℓ where
  ok : A → Result A
  throws : Fault → Result A
  out_of_bounds stuck : Result A

-- `span[i]`.
unfoldable pub index : List ℕ → ℕ → Result ℕ
index xs i = elim (get_elem? xs i) [ none ↦ out_of_bounds | some b ↦ ok b ]

-- A reader, and the variables that a `Sink` writes.
pub record Cursor : Type 0 where
  pub reader : BeReader
  pub ctx : VarLayerContext

module _ {A B : Type 0} where
  -- The rest of a block, after a call that may throw.
  abbrev pub bind : Result A → (A → Result B) → Result B
  bind out_of_bounds rest = out_of_bounds
  bind stuck rest = stuck
  bind (throws e) rest = throws e
  bind (ok a) rest = rest a

abbrev pub Parser : Type 0 → Type 0
Parser A = Cursor → Result (A × Cursor)

abbrev pub pure : {A : Type 0} → A → Parser A
pure a d = ok (a, d)

abbrev pub fail : {A : Type 0} → Fault → Parser A
fail e d = throws e

abbrev pub spent : {A : Type 0} → Parser A
spent d = stuck

module _ {A B : Type 0} where
  infixl 1 ◌>>=◌ ◌>>◌
  abbrev pub ◌>>=◌ : Parser A → (A → Parser B) → Parser B
  p >>= f = λ d. bind (p d) λ (a, e). f a e

  abbrev pub ◌>>◌ : Parser A → Parser B → Parser B
  p >> q = p >>= λ _. q

-- A read of `BeReader`, which may throw.
abbrev pub lift : {A : Type 0} → VarLayerContext → Read A → Result (A × Cursor)
lift c (done a r) = ok (a, record { reader = r; ctx = c })
lift c (short_frame what need have) = throws (truncated what need have)

unfoldable pub read : ℕ → String → Parser ℕ
read n what d = lift d.ctx (needing n what (shift_in n 0) d.reader)

unfoldable pub span : ℕ → String → Parser (List ℕ)
span n what d = lift d.ctx (bytes n what d.reader)

unfoldable pub gap : ℕ → String → Parser Unit
gap n what d = lift d.ctx (skip n what d.reader)

unfoldable pub left : Parser ℕ
left d = ok (remaining d.reader, d)

unfoldable pub position : Parser ℕ
position d = ok (d.reader.pos, d)

-- `Sink::num` and the others, and `Sink::str`.
unfoldable pub num : String → ℕ → Parser Unit
num name v d = ok (tt, record d { ctx = set_value d.ctx name v })

unfoldable pub str : String → String → Parser Unit
str name s d = ok (tt, record d { ctx = set_bytes d.ctx name s })

-- `BeReader x(r.bytes(n))`, and then reads of `x` alone.
abbrev pub reader_of : List ℕ → BeReader
reader_of bs = record { data_bytes = bs; pos = 0 }

unfoldable pub within : {A : Type 0} → List ℕ → Parser A → Parser A
within bs p d =
    bind (p (record d { reader = reader_of bs })) λ (a, e). ok (a, record e { reader = d.reader })

-- A field that is read and written under a name, or bytes that are passed over.
pub data Item : Type 0 where
  item : String → String → ℕ → Item
  unused : ℕ → String → Item

unfoldable pub read_item : Item → Parser Unit
read_item (item name what n) = read n what >>= num name
read_item (unused n what) = gap n what

unfoldable pub read_items : List Item → Parser Unit
read_items [] = pure tt
read_items (i ∷ is) = read_item i >> read_items is

pub data Proto : Type 0 where
  eth msrp mvrp maap adp aecp acmp gptp : Proto

pub record LogicCtx : Type 0 where
  pub service : String
  pub vars : VarLayerContext

-- `DecodedPacket`, without the number and the time, which the engine sets.
pub record DecodedPacket : Type 0 where
  pub src_mac : ℕ
  pub dst_mac : ℕ
  pub proto : Proto
  pub interesting : Bool
  pub is_ok : Bool
  pub error : Option Fault
  pub logic_ctxs : List LogicCtx
