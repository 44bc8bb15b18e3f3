-- ===== src/Decode/MrpTotal.antt =====
-- The MRP decoder of backend/src/decode/decode.cpp comes to an end on any frame, and each vector that it
-- returns has as many bytes as its number of values calls for.
use avb_introspection.Base.{
  ℕ, zero, suc, ◌+◌, ◌-◌, ◌/◌, ◌%◌, ◌^◌, ◌<◌, ◌≡◌, refl, Bool, true, false, ◌||◌, ◌&&◌, not, [],
  ◌∷◌, arith, ltb, leb, ◌==◌, if◌then◌else◌, length, All,
}
use avb_introspection.Decode.Types.{pure, span}
use avb_introspection.Decode.Mrp.{
  max_vector_values, MrpVector, MrpMessage, read_vector, read_vectors, read_list, read_message,
  read_messages, parse_mrp_pdu,
}
use avb_introspection.Decode.Reads.{
  Reads, Reads-then, Reads-if, Reads-elim, Reads-pure, Reads-fail, Reads-less, read-then, read-Any,
  span-Any, gap-Any, left-Reads, position-Reads,
}

-- What its number of values and its attribute call for.
pub record VectorWf (is_msrp : Bool) (attr_type attr_len : ℕ) (v : MrpVector) : Type 0 where
  pub first : length v.first_value ≡ attr_len
  pub three : length v.three_packed ≡ (v.num_values + 2) / 3
  pub four :
      length v.four_packed ≡ (if is_msrp && (attr_type == 3) then (v.num_values + 3) / 4 else 0)

read_vector-VectorWf :
    (b : ℕ) (is_msrp : Bool) (attr_type attr_len header : ℕ)
    → Reads b b
        (VectorWf is_msrp attr_type attr_len)
        (read_vector is_msrp attr_type attr_len header)
unfolding read_vector
read_vector-VectorWf b is_msrp attr_type attr_len header =
    let n = header % 2 ^ 13 in
    Reads-if (ltb max_vector_values n) (λ _. Reads-fail _)
      (λ _. Reads-then (span-Any b attr_len _) (λ fv first.
        Reads-then (span-Any b ((n + 2) / 3) _) (λ tp three.
          Reads-then (four b n)
            (λ fp len. Reads-pure _ (record { first = first; three = three; four = len })))))
  where
    four :
        (b n : ℕ)
        → Reads b b
            (λ bs. length bs ≡ (if is_msrp && (attr_type == 3) then (n + 3) / 4 else 0))
            (if is_msrp && (attr_type == 3)
              then span ((n + 3) / 4) "four-packed events"
              else pure [])
    four b n =
        Reads-if (is_msrp && (attr_type == 3)) (λ e. rw e (span-Any b ((n + 3) / 4) _))
          (λ e. rw e (Reads-pure [] refl))

read_vectors-Wf :
    (fuel b : ℕ) (is_msrp : Bool) (attr_type attr_len vec_end : ℕ)
    → b < fuel
    → Reads b b
        (All (VectorWf is_msrp attr_type attr_len))
        (read_vectors fuel is_msrp attr_type attr_len vec_end)
unfolding read_vectors
read_vectors-Wf zero b is_msrp attr_type attr_len vec_end enough = absurd (omega (arith, enough))
read_vectors-Wf (suc fuel) b is_msrp attr_type attr_len vec_end enough =
    Reads-then (left-Reads b) (λ n _. Reads-then (position-Reads b) (λ pos _.
      Reads-elim (leb 2 n && (not is_msrp || ltb pos vec_end))
        (λ _. read-then 2 "vector header" (λ room header.
          Reads-elim (header == 0) (λ _. Reads-less (omega arith) (Reads-pure [] tt))
            (λ _. Reads-then (read_vector-VectorWf _ is_msrp attr_type attr_len header) (λ v wf.
              Reads-then
                (read_vectors-Wf fuel (b - 2) is_msrp attr_type attr_len vec_end
                  (omega (arith, enough, room)))
                (λ vs wfs. Reads-less (omega arith) (Reads-pure (v ∷ vs) (wf, wfs)))))))
        (λ _. Reads-pure [] tt)))

read_list-Wf :
    (fuel b attr_type attr_len : ℕ)
    → b < fuel
    → Reads b b (All (VectorWf true attr_type attr_len)) (read_list fuel attr_type attr_len)
unfolding read_list
read_list-Wf fuel b attr_type attr_len enough = Reads-then (read-Any b 2 _) (λ list_len _.
    Reads-then (left-Reads b) (λ n _. Reads-then (position-Reads b) (λ start _.
      Reads-if (ltb n list_len) (λ _. Reads-fail _)
        (λ _. Reads-then (read_vectors-Wf fuel b true attr_type attr_len _ enough) (λ vs wfs.
          Reads-then (position-Reads b) (λ pos _.
            Reads-if (ltb (start + list_len) pos) (λ _. Reads-fail _)
              (λ _. Reads-then (gap-Any b _ _) (λ _ _. Reads-pure vs wfs))))))))

pub record MessageWf (is_msrp : Bool) (m : MrpMessage) : Type 0 where
  pub vectors : All (VectorWf is_msrp m.attr_type m.attr_len) m.vectors

read_message-Wf :
    (fuel b : ℕ) (is_msrp : Bool) (attr_type : ℕ)
    → b < fuel
    → Reads b b (MessageWf is_msrp) (read_message fuel is_msrp attr_type)
unfolding read_message
read_message-Wf fuel b is_msrp attr_type enough = Reads-then (read-Any b 1 _) (λ attr_len _.
    Reads-if ((attr_len == 0) || ltb 64 attr_len) (λ _. Reads-fail _)
      (λ _. Reads-then (lists attr_len) (λ vs wfs. Reads-pure _ (record { vectors = wfs }))))
  where
    lists :
        (attr_len : ℕ)
        → Reads b b (All (VectorWf is_msrp attr_type attr_len)) (
            if is_msrp
            then read_list fuel attr_type attr_len
            else read_vectors fuel false attr_type attr_len 0)
    lists attr_len =
        Reads-if is_msrp (λ e. rw e (read_list-Wf fuel b attr_type attr_len enough))
          (λ e. rw e (read_vectors-Wf fuel b false attr_type attr_len 0 enough))

read_messages-Wf :
    (fuel b : ℕ) (is_msrp : Bool) (count : ℕ)
    → b < fuel
    → Reads b b (All (MessageWf is_msrp)) (read_messages fuel is_msrp count)
unfolding read_messages
read_messages-Wf zero b is_msrp count enough = absurd (omega (arith, enough))
read_messages-Wf (suc fuel) b is_msrp count enough = Reads-then (left-Reads b) (λ n le.
    Reads-elim (leb 2 n)
      (λ _. read-then 1 "attribute type" (λ room attr_type.
        Reads-elim (attr_type == 0) (λ _. Reads-less (omega arith) (Reads-pure [] tt))
          (λ _.
            Reads-then
              (read_message-Wf fuel (b - 1) is_msrp attr_type (omega (arith, enough, room)))
              (λ m wf.
                Reads-elim (ltb 256 (count + 1)) (λ _. Reads-fail _)
                  (λ _.
                    Reads-then
                      (read_messages-Wf fuel (b - 1) is_msrp (count + 1)
                        (omega (arith, enough, room)))
                      (λ ms wfs. Reads-less (omega arith) (Reads-pure (m ∷ ms) (wf, wfs))))))))
      (λ _. Reads-pure [] tt))

pub parse_mrp_pdu-Wf :
    (fuel b : ℕ) (is_msrp : Bool)
    → b < fuel
    → Reads b b (λ pdu. All (MessageWf is_msrp) pdu.messages) (parse_mrp_pdu fuel is_msrp)
unfolding parse_mrp_pdu
parse_mrp_pdu-Wf fuel b is_msrp enough = Reads-then (read-Any b 1 _) (λ version _.
    Reads-then (read_messages-Wf fuel b is_msrp 0 enough) (λ ms wfs. Reads-pure _ wfs))
