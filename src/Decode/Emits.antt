-- ===== src/Decode/Emits.antt =====
-- `emitMrpDecls` of backend/src/decode/decode.cpp reads inside its spans, and emits no more contexts than its
-- limit and the LeaveAlls allow.
use avb_introspection.Base.{
  ℕ, zero, suc, ◌+◌, ◌/◌, ◌≤◌, ◌<◌, ◌≡◌, refl, inl, inr, Bool, false, ◌&&◌, some, List, [], ◌∷◌,
  arith, leb, ◌==◌, if◌then◌else◌, Bool-cases, length, length-append, get_elem?, All,
}
use avb_introspection.Decode.Types.{index, reader_of}
use avb_introspection.Decode.Mrp.{
  max_decls_per_packet, MrpVector, MrpMessage, three_packed_event, four_packed_event, parse_talker,
  parse_listener, parse_domain, parse_msrp_first_value,
}
use avb_introspection.Decode.Declarations.{
  empty_ctx, FirstValue, four_packed_at, Emitted, emit_values, vid_of, value_of, first_value_of,
  emit_vector, emit_vectors, emit_messages,
}
use avb_introspection.Decode.Reads.{Yields, yielded, thrown, Yields-bind, Reads, Any, reads}
use avb_introspection.Decode.MrpTotal.{VectorWf, MessageWf}

get_elem?-inside : (xs : List ℕ) (i : ℕ) → i < length xs → (b : ℕ) × (get_elem? xs i ≡ some b)
get_elem?-inside [] i inside = absurd (omega (arith, inside))
get_elem?-inside (x ∷ xs) zero inside = (x, refl)
get_elem?-inside (x ∷ xs) (suc i) inside = get_elem?-inside xs i (omega (arith, inside))

index-Yields : (xs : List ℕ) (i : ℕ) → i < length xs → Yields Any (index xs i)
unfolding index
index-Yields xs i inside = let (b, e) = get_elem?-inside xs i inside in rw (e, index) (yielded tt)

three_packed_event-Yields :
    (xs : List ℕ) (k : ℕ) → k / 3 < length xs → Yields Any (three_packed_event xs k)
unfolding three_packed_event
three_packed_event-Yields xs k inside =
    Yields-bind (index-Yields xs (k / 3) inside) (λ b _. yielded tt)

four_packed_event-Yields :
    (xs : List ℕ) (k : ℕ) → k / 4 < length xs → Yields Any (four_packed_event xs k)
unfolding four_packed_event
four_packed_event-Yields xs k inside =
    Yields-bind (index-Yields xs (k / 4) inside) (λ b _. yielded tt)

four_packed_at-Yields :
    (is_msrp : Bool) (attr_type : ℕ) (xs : List ℕ) (n k : ℕ)
    → k < n
    → length xs ≡ (if is_msrp && (attr_type == 3) then (n + 3) / 4 else 0)
    → Yields Any (four_packed_at is_msrp attr_type xs k)
unfolding four_packed_at
four_packed_at-Yields is_msrp attr_type xs n k inside len =
    elim (Bool-cases (is_msrp && (attr_type == 3))) [
      | inl e ↦ rw e (
          Yields-bind (four_packed_event-Yields xs k (ground (arith, e, len, inside)))
            (λ fp _. yielded tt))
      | inr e ↦ rw e (yielded tt)
    ]

abbrev pub one_more : Bool → ℕ → ℕ
one_more t n = if t then n + 1 else n

abbrev pub leave_alls_of : List MrpVector → ℕ
leave_alls_of [] = 0
leave_alls_of (vec ∷ vecs) = one_more vec.leave_all (leave_alls_of vecs)

-- So many contexts are emitted as are counted, and not more than the limit and `leaves` allow.
abbrev pub Counted : ℕ → ℕ → Emitted → Type 0
Counted count leaves r = (length r.0 + count ≡ r.1) × (r.1 ≤ max_decls_per_packet + leaves)

module _ (is_msrp : Bool) (attr_type attr_len : ℕ) where
  emit_values-Counted :
      (vec : MrpVector) (v : FirstValue) (n k count leaves : ℕ)
      → VectorWf is_msrp attr_type attr_len vec
      → k + n ≤ vec.num_values
      → count ≤ max_decls_per_packet + leaves
      → Yields (Counted count leaves) (emit_values is_msrp attr_type vec v n k count)
  unfolding emit_values
  emit_values-Counted vec v zero k count leaves wf inside le = yielded (omega arith, le)
  emit_values-Counted vec v (suc n) k count leaves wf inside le =
      elim (Bool-cases (leb max_decls_per_packet count)) [
        | inl full ↦ rw (full, emit_values) thrown
        | inr room ↦
            rw (room, emit_values)
              (Yields-bind
                (three_packed_event-Yields vec.three_packed k (omega (arith, inside, wf.three)))
                (λ ev _.
                  Yields-bind
                    (four_packed_at-Yields is_msrp attr_type vec.four_packed vec.num_values k
                      (omega (arith, inside)) wf.four)
                    (λ fp _.
                      Yields-bind
                        (emit_values-Counted vec v n (k + 1) (count + 1) leaves wf
                          (omega (arith, inside)) (ground (arith, room)))
                        (λ r g. yielded (omega (arith, g.0), g.1)))))
      ]

  parse_msrp_first_value-Any : (b : ℕ) → Reads b b Any (parse_msrp_first_value attr_type)
  unfolding parse_msrp_first_value parse_talker parse_listener parse_domain
  parse_msrp_first_value-Any b = search reads depth 40

  first_value_of-Yields :
      (vec : MrpVector)
      → VectorWf is_msrp attr_type attr_len vec
      → (is_msrp ≡ false → attr_len ≡ 2)
      → Yields Any (first_value_of is_msrp attr_type vec)
  unfolding first_value_of value_of vid_of
  first_value_of-Yields vec wf two = elim (Bool-cases is_msrp) [
    | inl e ↦ rw e (
        Yields-bind
          ((parse_msrp_first_value-Any (length vec.first_value)).runs
            (record { reader = reader_of vec.first_value; ctx = empty_ctx }) (omega arith))
          (λ r g. yielded tt))
    | inr e ↦ rw e (
        Yields-bind (index-Yields vec.first_value 0 (omega (arith, wf.first, two e))) (λ a _.
          Yields-bind (index-Yields vec.first_value 1 (omega (arith, wf.first, two e)))
            (λ b _. yielded tt)))
  ]

  emit_vector-Counted :
      (vec : MrpVector) (count leaves : ℕ)
      → VectorWf is_msrp attr_type attr_len vec
      → (is_msrp ≡ false → attr_len ≡ 2)
      → count ≤ max_decls_per_packet + leaves
      → Yields
          (Counted count (one_more vec.leave_all leaves))
          (emit_vector is_msrp attr_type vec count)
  unfolding emit_vector
  emit_vector-Counted vec count leaves wf two le =
      Yields-bind (first_value_of-Yields vec wf two) (λ v _. elim (Bool-cases vec.leave_all) [
        | inl e ↦ simp e (
            Yields-bind
              (emit_values-Counted vec v vec.num_values 0 (count + 1) (leaves + 1) wf (omega arith)
                (omega (arith, le)))
              (λ r g. yielded (omega (arith, g.0), g.1)))
        | inr e ↦ simp e (
            Yields-bind
              (emit_values-Counted vec v vec.num_values 0 count leaves wf (omega arith) le)
              (λ r g. yielded g))
      ])

  emit_vectors-Counted :
      (vecs : List MrpVector) (count leaves : ℕ)
      → All (VectorWf is_msrp attr_type attr_len) vecs
      → (is_msrp ≡ false → attr_len ≡ 2)
      → count ≤ max_decls_per_packet + leaves
      → Yields
          (Counted count (leave_alls_of vecs + leaves))
          (emit_vectors is_msrp attr_type vecs count)
  unfolding emit_vectors
  emit_vectors-Counted [] count leaves wf two le = yielded (omega arith, omega (arith, le))
  emit_vectors-Counted (vec ∷ vecs) count leaves wf two le =
      Yields-bind (emit_vector-Counted vec count leaves wf.0 two le) (λ r g.
        Yields-bind (emit_vectors-Counted vecs r.1 (one_more vec.leave_all leaves) wf.1 two g.1)
          (λ r' g'.
            yielded (omega (arith, length-append r.0 r'.0, g.0, g'.0), ground (arith, g'.1))))

-- The vectors of a PDU that carry a LeaveAll.
unfoldable pub leave_alls : List MrpMessage → ℕ
leave_alls [] = 0
leave_alls (m ∷ ms) = leave_alls_of m.vectors + leave_alls ms

-- From the vectors of well-formed messages, whose VLANs take two bytes each, as many contexts are emitted as
-- are counted, and at most 8192 and one for each LeaveAll, or the packet is refused; no byte outside a vector
-- is read.
pub emit_messages-Counted :
    (is_msrp : Bool) (ms : List MrpMessage) (count leaves : ℕ)
    → All (MessageWf is_msrp) ms
    → (is_msrp ≡ false → All (λ m. m.attr_len ≡ 2) ms)
    → count ≤ max_decls_per_packet + leaves
    → Yields (Counted count (leave_alls ms + leaves)) (emit_messages is_msrp ms count)
unfolding emit_messages leave_alls
emit_messages-Counted is_msrp [] count leaves wf two le = yielded (omega arith, omega (arith, le))
emit_messages-Counted is_msrp (m ∷ ms) count leaves wf two le =
    Yields-bind
      (emit_vectors-Counted is_msrp m.attr_type m.attr_len m.vectors count leaves wf.0.vectors
        (λ e. (two e).0) le)
      (λ r g.
        Yields-bind
          (emit_messages-Counted is_msrp ms r.1 (leave_alls_of m.vectors + leaves) wf.1
            (λ e. (two e).1) g.1)
          (λ r' g'.
            yielded (omega (arith, length-append r.0 r'.0, g.0, g'.0), omega (arith, g'.1))))
