-- ===== src/Decode/Mrp.antt =====
-- The MRP PDU of backend/src/decode/decode.cpp: `parseMrpPdu`, the packed events and
-- `parseMsrpFirstValue`. A span is the list of its bytes, which the source points into.
use avb_introspection.Base.{
  ℕ, zero, suc, ◌+◌, ◌-◌, ◌/◌, ◌%◌, ◌^◌, Bool, true, false, ◌||◌, ◌&&◌, not, List, [], ◌∷◌, ltb,
  leb, ◌==◌, if◌then◌else◌,
}
use avb_introspection.Decode.Types.{
  implausible_length, implausible_vector, list_exceeds, list_overruns, runaway, Result, ok, bind,
  index, Parser, spent, pure, fail, ◌>>=◌, ◌>>◌, read, span, gap, left, position,
}

abbrev pub max_vector_values : ℕ
max_vector_values = 4096

abbrev pub max_decls_per_packet : ℕ
max_decls_per_packet = 8192

pub record MrpVector : Type 0 where
  pub leave_all : Bool
  pub num_values : ℕ
  pub first_value : List ℕ
  pub three_packed : List ℕ
  pub four_packed : List ℕ

pub record MrpMessage : Type 0 where
  pub attr_type : ℕ
  pub attr_len : ℕ
  pub vectors : List MrpVector

-- One round of the loop over the vectors after its header.
unfoldable pub read_vector : Bool → ℕ → ℕ → ℕ → Parser MrpVector
read_vector is_msrp attr_type attr_len header =
    let num_values = header % 2 ^ 13 in
    if ltb max_vector_values num_values then fail (implausible_vector num_values) else do
      first_value ← span attr_len "first value"
      three_packed ← span ((num_values + 2) / 3) "three-packed events"
      four_packed ←
          (if is_msrp && (attr_type == 3)
            then span ((num_values + 3) / 4) "four-packed events"
            else pure [])
      pure (record {
        leave_all = header / 2 ^ 13 == 1;
        num_values = num_values;
        first_value = first_value;
        three_packed = three_packed;
        four_packed = four_packed;
      })

-- The loops take fuel; each round reads at least two bytes.
unfoldable pub read_vectors : ℕ → Bool → ℕ → ℕ → ℕ → Parser (List MrpVector)
read_vectors zero is_msrp attr_type attr_len vec_end = spent
read_vectors (suc fuel) is_msrp attr_type attr_len vec_end = do
  n ← left
  pos ← position
  elim (leb 2 n && (not is_msrp || ltb pos vec_end)) [
    | false ↦ pure []
    | true ↦ do
      header ← read 2 "vector header"
      elim (header == 0) [
        | true ↦ pure []
        | false ↦ do
          v ← read_vector is_msrp attr_type attr_len header
          vs ← read_vectors fuel is_msrp attr_type attr_len vec_end
          pure (v ∷ vs)
      ]
  ]

-- The vectors of an MSRP message, within the length that it gives for their list.
unfoldable pub read_list : ℕ → ℕ → ℕ → Parser (List MrpVector)
read_list fuel attr_type attr_len = do
  list_len ← read 2 "attribute list length"
  n ← left
  start ← position
  if ltb n list_len then fail list_exceeds else do
    vs ← read_vectors fuel true attr_type attr_len (start + list_len)
    pos ← position
    if ltb (start + list_len) pos
        then fail list_overruns
        else do gap (start + list_len - pos) "attribute list padding"; pure vs

unfoldable pub read_message : ℕ → Bool → ℕ → Parser MrpMessage
read_message fuel is_msrp attr_type = do
  attr_len ← read 1 "attribute length"
  if (attr_len == 0) || ltb 64 attr_len then fail (implausible_length attr_len) else do
    vs ←
        (if is_msrp
          then read_list fuel attr_type attr_len
          else read_vectors fuel false attr_type attr_len 0)
    pure (record { attr_type = attr_type; attr_len = attr_len; vectors = vs })

-- `count` is the number of messages so far.
unfoldable pub read_messages : ℕ → Bool → ℕ → Parser (List MrpMessage)
read_messages zero is_msrp count = spent
read_messages (suc fuel) is_msrp count = do
  n ← left
  elim (leb 2 n) [
    | false ↦ pure []
    | true ↦ do
      attr_type ← read 1 "attribute type"
      elim (attr_type == 0) [
        | true ↦ pure []
        | false ↦ do
          m ← read_message fuel is_msrp attr_type
          elim (ltb 256 (count + 1)) [
            | true ↦ fail runaway
            | false ↦ do ms ← read_messages fuel is_msrp (count + 1); pure (m ∷ ms)
          ]
      ]
  ]

pub record MrpPdu : Type 0 where
  pub version : ℕ
  pub messages : List MrpMessage

unfoldable pub parse_mrp_pdu : ℕ → Bool → Parser MrpPdu
parse_mrp_pdu fuel is_msrp = do
  version ← read 1 "MRP protocol version"
  ms ← read_messages fuel is_msrp 0
  pure (record { version = version; messages = ms })

unfoldable pub three_packed_event : List ℕ → ℕ → Result ℕ
three_packed_event packed idx =
    bind (index packed (idx / 3))
      λ b. ok (if idx % 3 == 0 then b / 36 else if idx % 3 == 1 then b / 6 % 6 else b % 6)

unfoldable pub four_packed_event : List ℕ → ℕ → Result ℕ
four_packed_event packed idx = bind (index packed (idx / 4)) λ b. ok (
    if idx % 4 == 0
    then b / 64 % 4
    else if idx % 4 == 1
    then b / 16 % 4
    else if idx % 4 == 2
    then b / 4 % 4
    else b % 4)

pub record MsrpFirstValue : Type 0 where
  pub stream_id : ℕ
  pub dest_mac : ℕ
  pub fail_bridge : ℕ
  pub vlan : ℕ
  pub max_frame_size : ℕ
  pub max_interval_frames : ℕ
  pub class_vid : ℕ
  pub acc_latency : ℕ
  pub priority : ℕ
  pub rank : ℕ
  pub fail_code : ℕ
  pub class_id : ℕ
  pub class_prio : ℕ

abbrev pub no_value : MsrpFirstValue
no_value = record {
  stream_id = 0;
  dest_mac = 0;
  fail_bridge = 0;
  vlan = 0;
  max_frame_size = 0;
  max_interval_frames = 0;
  class_vid = 0;
  acc_latency = 0;
  priority = 0;
  rank = 0;
  fail_code = 0;
  class_id = 0;
  class_prio = 0;
}

unfoldable pub parse_talker : Bool → Parser MsrpFirstValue
parse_talker is_failed = do
  stream_id ← read 8 "stream id"
  dest_mac ← read 6 "dataframe dest mac"
  vlan ← read 2 "dataframe vlan"
  max_frame_size ← read 2 "tspec max frame size"
  max_interval_frames ← read 2 "tspec max interval frames"
  pr ← read 1 "priority and rank"
  acc_latency ← read 4 "accumulated latency"
  fail_bridge ← (if is_failed then read 8 "failure bridge id" else pure 0)
  fail_code ← (if is_failed then read 1 "failure code" else pure 0)
  pure (record no_value {
    stream_id = stream_id;
    dest_mac = dest_mac;
    vlan = vlan % 4096;
    max_frame_size = max_frame_size;
    max_interval_frames = max_interval_frames;
    priority = pr / 32;
    rank = pr / 16 % 2;
    acc_latency = acc_latency;
    fail_bridge = fail_bridge;
    fail_code = fail_code;
  })

unfoldable pub parse_listener : Parser MsrpFirstValue
parse_listener = do stream_id ← read 8 "stream id"; pure (record no_value { stream_id = stream_id })

unfoldable pub parse_domain : Parser MsrpFirstValue
parse_domain = do
  class_id ← read 1 "sr class id"
  class_prio ← read 1 "sr class priority"
  class_vid ← read 2 "sr class vid"
  pure (record no_value {
    class_id = class_id;
    class_prio = class_prio;
    class_vid = class_vid % 4096;
  })

-- The reader is one of the first value alone.
unfoldable pub parse_msrp_first_value : ℕ → Parser MsrpFirstValue
parse_msrp_first_value attr_type =
    if (attr_type == 1) || (attr_type == 2)
    then parse_talker (attr_type == 2)
    else if attr_type == 3
    then parse_listener
    else if attr_type == 4
    then parse_domain
    else pure no_value
