-- ===== src/Decode/Layout.antt =====
-- The layouts of backend/src/decode/decode.cpp read back what is written by them: a row of fields in a frame
-- becomes the variables of the context.
use avb_introspection.Base.{
  ℕ, ◌+◌, ◌<◌, ◌^◌, ◌≡◌, subst, refl, ap, ◌∙◌, sym, false, List, [], ◌∷◌, ◌++◌, String, arith, ltb,
  length, length-append, length-drop, drop, drop-append, drop-add,
}
use avb_introspection.Context.{VarLayerContext, set_value}
use avb_introspection.Bytes.{remaining, needing}
use avb_introspection.Bytes.Words.{big_endian, bound, length-big_endian, shift_in-big_endian}
use avb_introspection.Decode.Types.{
  Result, ok, bind, Cursor, Parser, read, gap, num, Item, item, unused, read_item, read_items,
}

-- The bytes from the position on.
pub record Ahead (d : Cursor) (xs : List ℕ) : Type 0 where
  pub ahead : drop d.reader.pos d.reader.data_bytes ≡ xs

-- The decoder returns this value, with these variables and these bytes ahead.
pub record Goes {A : Type 0} (r : Result (A × Cursor)) (a : A) (c : VarLayerContext) (xs : List ℕ)
    : Type 0 where
  pub after : Cursor
  pub goes : r ≡ ok (a, after)
  pub vars : after.ctx ≡ c
  pub rest : Ahead after xs

abbrev moved : ℕ → Cursor → Cursor
moved n d = record d { reader = record d.reader { pos = d.reader.pos + n } }

Ahead-remaining : {d : Cursor} {xs : List ℕ} → Ahead d xs → remaining d.reader ≡ length xs
Ahead-remaining {d} h = sym (length-drop d.reader.pos d.reader.data_bytes) ∙ ap length h.ahead

Ahead-moved :
    {d : Cursor} (xs : List ℕ) {ys : List ℕ} → Ahead d (xs ++ ys) → Ahead (moved (length xs) d) ys
Ahead-moved {d} xs {ys} h = record {
  ahead =
      drop-add d.reader.pos (length xs) d.reader.data_bytes
      ∙ (ap (drop (length xs)) h.ahead ∙ drop-append xs ys);
}

room :
    {d : Cursor} (xs ys : List ℕ)
    → Ahead d (xs ++ ys)
    → ltb (remaining d.reader) (length xs) ≡ false
room xs ys h = ground (arith, Ahead-remaining h, length-append xs ys)

pub read-big_endian-Goes :
    (n v : ℕ) (what : String) (d : Cursor) (c : VarLayerContext) (ys : List ℕ)
    → v < bound n
    → v < 2 ^ 64
    → d.ctx ≡ c
    → Ahead d (big_endian n v ++ ys)
    → Goes (read n what d) v c ys
unfolding read needing
read-big_endian-Goes n v what d c ys small word e h =
    let fits : ltb (remaining d.reader) n ≡ false =
      ap (ltb (remaining d.reader)) (sym (length-big_endian n v)) ∙ room _ _ h in
    record {
      after = moved n d;
      goes = rw (fits, h.ahead, shift_in-big_endian n v ys small word) refl;
      vars = e;
      rest =
          subst (λ k. Ahead (moved k d) ys) (length-big_endian n v)
            (Ahead-moved (big_endian n v) h);
    }

pub gap-Goes :
    (n : ℕ) (what : String) (d : Cursor) (c : VarLayerContext) (xs ys : List ℕ)
    → length xs ≡ n
    → d.ctx ≡ c
    → Ahead d (xs ++ ys)
    → Goes (gap n what d) tt c ys
unfolding gap needing
gap-Goes n what d c xs ys f e h =
    let fits : ltb (remaining d.reader) n ≡ false =
      ap (ltb (remaining d.reader)) (sym f) ∙ room _ _ h in
    record {
      after = moved n d;
      goes = rw fits refl;
      vars = e;
      rest = subst (λ k. Ahead (moved k d) ys) f (Ahead-moved xs h);
    }

-- A row of fields with one value for each, and then other bytes.
unfoldable pub encode_items : List Item → List ℕ → List ℕ → List ℕ
encode_items (item name what n ∷ is) (v ∷ vs) ys = big_endian n v ++ encode_items is vs ys
encode_items (unused n what ∷ is) (v ∷ vs) ys = big_endian n v ++ encode_items is vs ys
encode_items _ _ ys = ys

-- Each value fits into its field.
abbrev pub ItemsFit : List Item → List ℕ → Type 0
ItemsFit [] [] = Unit
ItemsFit (item name what n ∷ is) (v ∷ vs) = ((v < bound n) × (v < 2 ^ 64)) × ItemsFit is vs
ItemsFit (unused n what ∷ is) (v ∷ vs) = ItemsFit is vs
ItemsFit _ _ = ⊥

-- The variables that the values are to be found in.
unfoldable pub write_items : List Item → List ℕ → VarLayerContext → VarLayerContext
write_items (item name what n ∷ is) (v ∷ vs) c = write_items is vs (set_value c name v)
write_items (unused n what ∷ is) (v ∷ vs) c = write_items is vs c
write_items _ _ c = c

pub Goes-bind :
    {A B : Type 0} {r : Result (A × Cursor)} (f : A → Parser B) {a : A} {b : B}
    {c c' : VarLayerContext} {xs xs' : List ℕ}
    → Goes r a c xs
    → ((d : Cursor) → d.ctx ≡ c → Ahead d xs → Goes (f a d) b c' xs')
    → Goes (bind r λ (v, d). f v d) b c' xs'
Goes-bind f {b = b} {c' = c'} {xs' = xs'} h k =
    subst (λ r. Goes (bind r λ (v, d). f v d) b c' xs') (sym h.goes) (k h.after h.vars h.rest)

pub num-Goes :
    (name : String) (v : ℕ) (d : Cursor) (c : VarLayerContext) (xs : List ℕ)
    → d.ctx ≡ c
    → Ahead d xs
    → Goes (num name v d) tt (set_value c name v) xs
unfolding num
num-Goes name v d c xs e h = record {
  after = _;
  goes = refl;
  vars = ap (λ c. set_value c name v) e;
  rest = record { ahead = h.ahead };
}

pub read_items-encode_items :
    (is : List Item) (vs : List ℕ) (ys : List ℕ) (d : Cursor) (c : VarLayerContext)
    → ItemsFit is vs
    → d.ctx ≡ c
    → Ahead d (encode_items is vs ys)
    → Goes (read_items is d) tt (write_items is vs c) ys
unfolding read_items read_item encode_items write_items
read_items-encode_items [] [] ys d c fit e h = record { after = d; goes = refl; vars = e; rest = h }
read_items-encode_items (item name what n ∷ is) (v ∷ vs) ys d c fit e h =
    Goes-bind _
      (Goes-bind (num name)
        (read-big_endian-Goes n v what d c (encode_items is vs ys) fit.0.0 fit.0.1 e h)
        (λ d' e' h'. num-Goes name v d' c _ e' h'))
      (λ d' e' h'. read_items-encode_items is vs ys d' (set_value c name v) fit.1 e' h')
read_items-encode_items (unused n what ∷ is) (v ∷ vs) ys d c fit e h =
    Goes-bind _
      (gap-Goes n what d c (big_endian n v) (encode_items is vs ys) (length-big_endian n v) e h)
      (λ d' e' h'. read_items-encode_items is vs ys d' c fit e' h')
read_items-encode_items [] (v ∷ vs) ys d c fit e h = absurd fit
read_items-encode_items (item name what n ∷ is) [] ys d c fit e h = absurd fit
read_items-encode_items (unused n what ∷ is) [] ys d c fit e h = absurd fit
