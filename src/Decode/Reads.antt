-- ===== src/Decode/Reads.antt =====
-- What a decoder of backend/src/decode/decode.cpp may do with its frame: it comes to an end, reads no byte
-- outside a span, and leaves a bounded number of bytes unread.
use avb_introspection.Base.{
  ℕ, ◌-◌, ◌≤◌, ◌≡◌, refl, inl, inr, Bool, true, false, List, [], ◌∷◌, String, arith, ltb,
  if◌then◌else◌, Bool-cases, length, length-drop, length-take, take, drop,
}
use avb_introspection.Context.{VarLayerContext}
use avb_introspection.Bytes.{BeReader, remaining, needing, shift_in}
use avb_introspection.Decode.Types.{
  Fault, Result, ok, throws, Cursor, bind, Parser, pure, fail, ◌>>=◌, lift, read, span, gap, left,
  position, num, str, reader_of, within, Item, item, unused, read_item, read_items,
}

-- The outcome is a value of which `P` holds, or is thrown.
pub data Yields {A : Type 0} (P : A → Type 0) : Result A → Type 0 where
  yielded : {a : A} → P a → Yields P (ok a)
  thrown : {e : Fault} → Yields P (throws e)

-- From at most `b` bytes unread to at most `c`, with a value of which `Q` holds.
pub record Reads {A : Type 0} (b c : ℕ) (Q : A → Type 0) (p : Parser A) : Type 0 where
  pub runs :
      (d : Cursor) → remaining d.reader ≤ b → Yields (λ r. (remaining r.1.reader ≤ c) × Q r.0) (p d)

abbrev pub Any : {A : Type 0} → A → Type 0
Any a = Unit

-- The rest of a block starts from what is known of the value.
pub Yields-bind :
    {A B : Type 0} {P : A → Type 0} {Q : B → Type 0} {first : Result A} {rest : A → Result B}
    → Yields P first
    → ((a : A) → P a → Yields Q (rest a))
    → Yields Q (bind first rest)
Yields-bind thrown next = thrown
Yields-bind (yielded {a} known) next = next a known

pub Reads-then :
    {A B : Type 0} {b c e : ℕ} {Q : A → Type 0} {R : B → Type 0} {p : Parser A} {f : A → Parser B}
    → Reads b c Q p
    → ((a : A) → Q a → Reads c e R (f a))
    → Reads b e R (p >>= f)
Reads-then h k = record {
  runs = λ d le. Yields-bind (h.runs d le) (λ r g. (k r.0 g.1).runs r.1 g.0);
}

pub Reads-if :
    {A : Type 0} {b c : ℕ} {Q : A → Type 0} {p q : Parser A} (t : Bool)
    → (t ≡ true → Reads b c Q p)
    → (t ≡ false → Reads b c Q q)
    → Reads b c Q (if t then p else q)
Reads-if true h k = h refl
Reads-if false h k = k refl

pub Reads-pure : {A : Type 0} {b : ℕ} {Q : A → Type 0} (a : A) → Q a → Reads b b Q (pure a)
Reads-pure a q = record { runs = λ d le. yielded (le, q) }

pub Reads-fail : {A : Type 0} {b c : ℕ} {Q : A → Type 0} (e : Fault) → Reads b c Q (fail e)
Reads-fail e = record { runs = λ d le. thrown }

pub Yields-weaken :
    {A : Type 0} {P Q : A → Type 0} {r : Result A} → Yields P r → ((a : A) → P a → Q a) → Yields Q r
Yields-weaken (yielded {a} h) k = yielded (k a h)
Yields-weaken thrown k = thrown

pub Reads-weaken :
    {A : Type 0} {b c c' : ℕ} {Q R : A → Type 0} {p : Parser A}
    → c ≤ c'
    → ((a : A) → Q a → R a)
    → Reads b c Q p
    → Reads b c' R p
Reads-weaken le k h = record {
  runs = λ d start. Yields-weaken (h.runs d start) (λ r g. (omega (arith, g.0, le), k r.0 g.1));
}

pub Reads-less :
    {A : Type 0} {b c c' : ℕ} {Q : A → Type 0} {p : Parser A}
    → c ≤ c'
    → Reads b c Q p
    → Reads b c' Q p
Reads-less le h = Reads-weaken le (λ _ q. q) h

pub Reads-elim :
    {A : Type 0} {b c : ℕ} {Q : A → Type 0} {p q : Parser A} (t : Bool)
    → (t ≡ true → Reads b c Q p)
    → (t ≡ false → Reads b c Q q)
    → Reads b c Q (elim t [ false ↦ q | true ↦ p ])
Reads-elim true h k = h refl
Reads-elim false h k = k refl

-- Any read of `n` bytes.
needing-Yields :
    {A : Type 0} (n : ℕ) (what : String) (f : List ℕ → A) (c : VarLayerContext) (r : BeReader)
    (b : ℕ) (Q : A → Type 0)
    → remaining r ≤ b
    → (n ≤ remaining r → Q (f (drop r.pos r.data_bytes)))
    → Yields (λ r. (remaining r.1.reader ≤ b - n) × Q r.0) (lift c (needing n what f r))
unfolding needing
needing-Yields n what f c r b Q le q = elim (Bool-cases (ltb (remaining r) n)) [
  | inl short ↦ rw short thrown
  | inr fits ↦ rw fits (yielded (ground (arith, le, fits), q (ground (arith, fits))))
]

pub read-Reads : (b n : ℕ) (what : String) → Reads b (b - n) Any (read n what)
unfolding read
read-Reads b n what = record {
  runs = λ d le. needing-Yields n what _ d.ctx d.reader b Any le (λ _. tt);
}

-- Where a read does not throw, so many bytes were there.
pub read-then :
    {B : Type 0} {b c : ℕ} {R : B → Type 0} {f : ℕ → Parser B} (n : ℕ) (what : String)
    → (n ≤ b → (v : ℕ) → Reads (b - n) c R (f v))
    → Reads b c R (read n what >>= f)
unfolding read
read-then {b = b} n what k = record {
  runs = λ d le.
      Yields-bind
        (needing-Yields n what (shift_in n 0) d.ctx d.reader b (λ _. n ≤ b) le
          (λ inside. omega (arith, inside, le)))
        (λ r g. (k g.1 r.0).runs r.1 g.0);
}

pub gap-Reads : (b n : ℕ) (what : String) → Reads b (b - n) Any (gap n what)
unfolding gap
gap-Reads b n what = record {
  runs = λ d le. needing-Yields n what _ d.ctx d.reader b Any le (λ _. tt);
}

pub span-Reads : (b n : ℕ) (what : String) → Reads b (b - n) (λ bs. length bs ≡ n) (span n what)
unfolding span
span-Reads b n what = record {
  runs = λ d le.
      needing-Yields n what (take n) d.ctx d.reader b (λ bs. length bs ≡ n) le
        (λ inside. omega (
          arith,
          inside,
          length-take n (drop d.reader.pos d.reader.data_bytes),
          length-drop d.reader.pos d.reader.data_bytes,
        ));
}

pub span-then :
    {B : Type 0} {b c : ℕ} {R : B → Type 0} {f : List ℕ → Parser B} (n : ℕ) (what : String)
    → ((bs : List ℕ) → length bs ≡ n → n ≤ b → Reads (b - n) c R (f bs))
    → Reads b c R (span n what >>= f)
unfolding span
span-then {b = b} n what k = record {
  runs = λ d le.
      Yields-bind
        (needing-Yields n what (take n) d.ctx d.reader b (λ bs. (length bs ≡ n) × (n ≤ b)) le
          (λ inside. (
            omega (
              arith,
              inside,
              length-take n (drop d.reader.pos d.reader.data_bytes),
              length-drop d.reader.pos d.reader.data_bytes,
            ),
            omega (arith, inside, le),
          )))
        (λ r g. (k r.0 g.1.0 g.1.1).runs r.1 g.0);
}

-- The same, where it does not matter how much is read.
pub read-Any : (b n : ℕ) (what : String) → Reads b b Any (read n what)
read-Any b n what = Reads-less (omega arith) (read-Reads b n what)

pub gap-Any : (b n : ℕ) (what : String) → Reads b b Any (gap n what)
gap-Any b n what = Reads-less (omega arith) (gap-Reads b n what)

pub span-Any : (b n : ℕ) (what : String) → Reads b b (λ bs. length bs ≡ n) (span n what)
span-Any b n what = Reads-less (omega arith) (span-Reads b n what)

pub left-Reads : (b : ℕ) → Reads b b (λ n. n ≤ b) left
unfolding left
left-Reads b = record { runs = λ d le. yielded (le, le) }

pub position-Reads : (b : ℕ) → Reads b b Any position
unfolding position
position-Reads b = record { runs = λ d le. yielded (le, tt) }

pub num-Reads : (b : ℕ) (name : String) (v : ℕ) → Reads b b Any (num name v)
unfolding num
num-Reads b name v = record { runs = λ d le. yielded (le, tt) }

pub str-Reads : (b : ℕ) (name s : String) → Reads b b Any (str name s)
unfolding str
str-Reads b name s = record { runs = λ d le. yielded (le, tt) }

pub within-Reads :
    {A : Type 0} {Q : A → Type 0} {p : Parser A} {c : ℕ} (b : ℕ) (bs : List ℕ)
    → Reads (length bs) c Q p
    → Reads b b Q (within bs p)
unfolding within
within-Reads b bs h = record {
  runs = λ d le.
      Yields-bind (h.runs (record d { reader = reader_of bs }) (omega arith))
        (λ r g. yielded (le, g.1));
}

pub read_item-Reads : (b : ℕ) (i : Item) → Reads b b Any (read_item i)
unfolding read_item
read_item-Reads b (item name what n) =
    Reads-less (omega arith) (Reads-then (read-Reads b n what) (λ v _. num-Reads (b - n) name v))
read_item-Reads b (unused n what) = Reads-less (omega arith) (gap-Reads b n what)

pub read_items-Reads : (b : ℕ) (is : List Item) → Reads b b Any (read_items is)
unfolding read_items
read_items-Reads b [] = Reads-pure tt tt
read_items-Reads b (i ∷ is) = Reads-then (read_item-Reads b i) (λ _ _. read_items-Reads b is)

pub pure-Any : {A : Type 0} (b : ℕ) (a : A) → Reads b b Any (pure a)
pure-Any b a = Reads-pure a tt

pub if-Any :
    {A : Type 0} {b : ℕ} {p q : Parser A} (t : Bool)
    → Reads b b Any p
    → Reads b b Any q
    → Reads b b Any (if t then p else q)
if-Any true h k = h
if-Any false h k = k

pub then-Any :
    {A B : Type 0} {b : ℕ} {p : Parser A} {f : A → Parser B}
    → Reads b b Any p
    → ((a : A) → Reads b b Any (f a))
    → Reads b b Any (p >>= f)
then-Any h k = Reads-then h (λ a _. k a)

pub fail-Any : {A : Type 0} (b : ℕ) (e : Fault) → Reads {A = A} b b Any (fail e)
fail-Any b e = Reads-fail e

pub span_bytes-Any : (b n : ℕ) (what : String) → Reads b b Any (span n what)
span_bytes-Any b n what = record {
  runs = λ d le. Yields-weaken ((span-Any b n what).runs d le) (λ r g. (g.0, tt));
}

pub left-Any : (b : ℕ) → Reads b b Any left
unfolding left
left-Any b = record { runs = λ d le. yielded (le, tt) }

pub within-Any :
    {A : Type 0} {p : Parser A} (b : ℕ) (bs : List ℕ)
    → Reads (length bs) (length bs) Any p
    → Reads b b Any (within bs p)
within-Any b bs h = within-Reads b bs h

pub ruleset reads = (
  then-Any, if-Any, pure-Any, fail-Any, read-Any, gap-Any, span_bytes-Any, left-Any, within-Any,
  num-Reads, str-Reads, read_items-Reads,
)
