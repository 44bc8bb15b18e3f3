-- ===== src/Decode/Declarations.antt =====
-- `emitMrpDecls` of backend/src/decode/decode.cpp: one context for each declaration of an MRP PDU. The texts
-- of the packet event that it also puts together are left out.
use avb_introspection.Base.{
  ℕ, zero, suc, ◌+◌, ◌*◌, ◌%◌, ◌^◌, Bool, true, false, ◌&&◌, Option, none, some, List, [], ◌∷◌,
  ◌++◌, String, leb, ◌==◌, if◌then◌else◌,
}
use avb_introspection.Context.{VarLayerContext, set_value}
use avb_introspection.Decode.Types.{too_many, Result, ok, throws, bind, index, reader_of, LogicCtx}
use avb_introspection.Decode.Mrp.{
  max_decls_per_packet, MrpVector, MrpMessage, three_packed_event, four_packed_event,
  MsrpFirstValue, parse_msrp_first_value,
}

abbrev pub empty_ctx : VarLayerContext
empty_ctx = record { vars = []; bytes = [] }

-- A row of `setValue`.
unfoldable pub set_values : List (String × ℕ) → VarLayerContext → VarLayerContext
set_values [] c = c
set_values ((name, v) ∷ rest) c = set_values rest (set_value c name v)

abbrev pub svc_msrp : String
svc_msrp = "mrp_msrp"

abbrev pub svc_mvrp : String
svc_mvrp = "mrp_mvrp"

-- The first value of a vector: of MSRP, or the number of a VLAN.
pub data FirstValue : Type 0 where
  of_msrp : MsrpFirstValue → FirstValue
  of_vid : ℕ → FirstValue

abbrev pub talker_values : MsrpFirstValue → ℕ → List (String × ℕ)
talker_values v k =
    ("stream_id", (v.stream_id + k) % 2 ^ 64)
    ∷ ("dest_mac", (v.dest_mac + k) % 2 ^ 64)
    ∷ ("vlan_id", v.vlan)
    ∷ ("max_frame_size", v.max_frame_size)
    ∷ ("max_interval_frames", v.max_interval_frames)
    ∷ ("priority", v.priority)
    ∷ ("rank", v.rank)
    ∷ ("accumulated_latency", v.acc_latency)
    ∷ []

unfoldable pub declared_values : ℕ → FirstValue → ℕ → List (String × ℕ)
declared_values attr_type (of_vid vid) k = ("vid", (vid + k) % 4096) ∷ []
declared_values attr_type (of_msrp v) k =
    if attr_type == 1
    then talker_values v k
    else if attr_type == 2
    then talker_values v k
      ++ (("failure_bridge_id", v.fail_bridge) ∷ ("failure_code", v.fail_code) ∷ [])
    else if attr_type == 3
    then ("stream_id", (v.stream_id + k) % 2 ^ 64) ∷ []
    else if attr_type == 4
    then ("sr_class_id", v.class_id + k)
      ∷ ("sr_class_priority", v.class_prio)
      ∷ ("sr_class_vid", v.class_vid)
      ∷ []
    else []

abbrev pub four_packed_value : Option ℕ → List (String × ℕ)
four_packed_value none = []
four_packed_value (some fp) = ("four_packed_event", fp) ∷ []

-- `addCtx`.
unfoldable pub add_ctx : Bool → ℕ → ℕ → Option ℕ → FirstValue → ℕ → LogicCtx
add_ctx is_msrp attr_type event four_packed v k = record {
  service = if is_msrp then svc_msrp else svc_mvrp;
  vars =
      set_values
        ((("attribute_type", attr_type) ∷ ("mrp_event", event) ∷ four_packed_value four_packed)
          ++ declared_values attr_type v k)
        empty_ctx;
}

unfoldable pub four_packed_at : Bool → ℕ → List ℕ → ℕ → Result (Option ℕ)
four_packed_at is_msrp attr_type packed k =
    if is_msrp && (attr_type == 3)
    then (bind (four_packed_event packed k) λ fp. ok (some fp))
    else ok none

-- The contexts, and the number of declarations so far.
abbrev pub Emitted : Type 0
Emitted = List LogicCtx × ℕ

module _ (is_msrp : Bool) (attr_type : ℕ) where
  -- The loop over the `n` values from the value `k` on.
  unfoldable pub emit_values : MrpVector → FirstValue → ℕ → ℕ → ℕ → Result Emitted
  emit_values vec v zero k count = ok ([], count)
  emit_values vec v (suc n) k count = elim (leb max_decls_per_packet count) [
    | true ↦ throws too_many
    | false ↦ bind (three_packed_event vec.three_packed k) λ ev.
        bind (four_packed_at is_msrp attr_type vec.four_packed k) λ fp.
          bind (emit_values vec v n (k + 1) (count + 1))
            λ (rest, total). ok (add_ctx is_msrp attr_type ev fp v k ∷ rest, total)
  ]

  unfoldable pub vid_of : List ℕ → Result FirstValue
  vid_of bs = bind (index bs 0) λ a. bind (index bs 1) λ b. ok (of_vid ((a * 256 + b) % 2 ^ 16))

  unfoldable pub value_of : List ℕ → Result FirstValue
  value_of bs =
      bind (parse_msrp_first_value attr_type (record { reader = reader_of bs; ctx = empty_ctx }))
        λ (v, d). ok (of_msrp v)

  unfoldable pub first_value_of : MrpVector → Result FirstValue
  first_value_of vec = if is_msrp then value_of vec.first_value else vid_of vec.first_value

  unfoldable pub emit_vector : MrpVector → ℕ → Result Emitted
  emit_vector vec count = bind (first_value_of vec) λ v.
      let leaves = if vec.leave_all then add_ctx is_msrp attr_type 6 none v 0 ∷ [] else [] in
      bind (emit_values vec v vec.num_values 0 (if vec.leave_all then count + 1 else count))
        λ (rest, total). ok (leaves ++ rest, total)

  unfoldable pub emit_vectors : List MrpVector → ℕ → Result Emitted
  emit_vectors [] count = ok ([], count)
  emit_vectors (vec ∷ vecs) count =
      bind (emit_vector vec count)
        λ (here, count'). bind (emit_vectors vecs count') λ (rest, total). ok (here ++ rest, total)

unfoldable pub emit_messages : Bool → List MrpMessage → ℕ → Result Emitted
emit_messages is_msrp [] count = ok ([], count)
emit_messages is_msrp (m ∷ ms) count =
    bind (emit_vectors is_msrp m.attr_type m.vectors count) λ (here, count').
      bind (emit_messages is_msrp ms count') λ (rest, total). ok (here ++ rest, total)
