-- ===== src/Decode/Gptp.antt =====
-- `parseGptp` of backend/src/decode/decode.cpp, with the variables it sets. The loops over TLVs take fuel;
-- each round reads at least four bytes of the body.
use avb_introspection.Base.{
  ℕ, zero, suc, ◌+◌, ◌-◌, ◌/◌, ◌%◌, ◌^◌, true, false, ◌||◌, ◌&&◌, not, List, [], ◌∷◌, ◌++◌, String,
  ltb, leb, ◌==◌, if◌then◌else◌,
}
use Prim.Native.String
use avb_introspection.Bytes.{digit}
use avb_introspection.Decode.Types.{
  bad_version, short_message, tlv_overruns, path_too_long, Parser, spent, pure, fail, ◌>>=◌, ◌>>◌,
  read, span, gap, left, num, str, Item, item, unused, read_items, within,
}
use avb_introspection.Decode.Avtp.{text_of}

pub record GptpHeader : Type 0 where
  pub major_sdo_id : ℕ
  pub msg_type : ℕ
  pub version : ℕ
  pub msg_len : ℕ
  pub domain : ℕ
  pub flags : ℕ
  pub correction : ℕ
  pub src_clock : ℕ
  pub src_port : ℕ
  pub seq : ℕ
  pub control : ℕ
  pub log_interval : ℕ

unfoldable pub read_header : ℕ → ℕ → Parser GptpHeader
read_header b0 version = do
  msg_len ← read 2 "gPTP messageLength"
  domain ← read 1 "gPTP domainNumber"
  gap 1 "gPTP minorSdoId"
  flags ← read 2 "gPTP flags"
  correction ← read 8 "gPTP correctionField"
  gap 4 "gPTP messageTypeSpecific"
  src_clock ← read 8 "gPTP sourcePortIdentity.clockIdentity"
  src_port ← read 2 "gPTP sourcePortIdentity.portNumber"
  seq ← read 2 "gPTP sequenceId"
  control ← read 1 "gPTP control"
  log_interval ← read 1 "gPTP logMessageInterval"
  pure (record {
    major_sdo_id = b0 / 16;
    msg_type = b0 % 16;
    version = version;
    msg_len = msg_len;
    domain = domain;
    flags = flags;
    correction = correction;
    src_clock = src_clock;
    src_port = src_port;
    seq = seq;
    control = control;
    log_interval = log_interval;
  })

unfoldable pub parse_header : Parser GptpHeader
parse_header = do
  b0 ← read 1 "gPTP byte 0"
  b1 ← read 1 "gPTP version"
  if not (b1 % 16 == 2) then fail (bad_version (b1 % 16)) else read_header b0 (b1 % 16)

unfoldable pub set_header : GptpHeader → Parser Unit
set_header h = do
  num "message_type" h.msg_type
  num "transport_specific" h.major_sdo_id
  num "version" h.version
  num "message_length" h.msg_len
  num "domain_number" h.domain
  num "flags" h.flags
  num "two_step" (h.flags / 2 ^ 9 % 2)
  num "correction_field" h.correction
  num "source_clock_id" h.src_clock
  num "source_port_number" h.src_port
  num "sequence_id" h.seq
  num "control" h.control
  num "log_message_interval" h.log_interval

-- `gptpTimestamp`; the names of the two variables are given whole.
unfoldable pub gptp_timestamp : String → String → Parser Unit
gptp_timestamp seconds_name ns_name = do
  sec ← read 6 "ptp timestamp seconds"
  ns ← read 4 "ptp timestamp ns"
  num seconds_name sec
  num ns_name ns

unfoldable pub follow_up_info : Parser Unit
follow_up_info = do
  org_sub ← read 6 "org id + subtype"
  if not (org_sub == 0x0080c2000001) then pure tt else do
    num "has_as_tlv" 1
    read_items (
        item "cumulative_scaled_rate_offset" "cumulativeScaledRateOffset" 4
        ∷ item "gm_time_base_indicator" "gmTimeBaseIndicator" 2
        ∷ [])

unfoldable pub follow_up_tlvs : ℕ → Parser Unit
follow_up_tlvs zero = spent
follow_up_tlvs (suc fuel) = do
  n ← left
  elim (leb 4 n) [
    | false ↦ pure tt
    | true ↦ do
      tlv_type ← read 2 "tlv type"
      tlv_len ← read 2 "tlv length"
      m ← left
      elim (ltb m tlv_len) [
        | true ↦ fail tlv_overruns
        | false ↦ do
          tlv ← span tlv_len "tlv value"
          (if (tlv_type == 3) && leb 28 tlv_len then within tlv follow_up_info else pure tt)
          follow_up_tlvs fuel
      ]
  ]

-- `idStr`, and the identities of a path trace with commas between them.
unfoldable pub hex_codes : ℕ → ℕ → List ℕ
hex_codes zero v = []
hex_codes (suc n) v = hex_codes n (v / 16) ++ digit (v % 16) ∷ []

abbrev pub id_str : ℕ → String
id_str v = String.◌++◌ "0x" (text_of (hex_codes 16 v))

unfoldable pub trace_ids : ℕ → String → Parser String
trace_ids zero trace = pure trace
trace_ids (suc n) trace = do
  id ← read 8 "path trace clockIdentity"
  trace_ids n
      (String.◌++◌ (if String.len trace == 0 then "" else String.◌++◌ trace ", ") (id_str id))

unfoldable pub path_trace : ℕ → List ℕ → Parser Unit
path_trace tlv_len tlv =
    let n = tlv_len / 8 in
    if ltb 32 n
    then fail path_too_long
    else do num "path_trace_count" n; trace ← within tlv (trace_ids n ""); str "path_trace" trace

unfoldable pub announce_tlvs : ℕ → Parser Unit
announce_tlvs zero = spent
announce_tlvs (suc fuel) = do
  n ← left
  elim (leb 4 n) [
    | false ↦ pure tt
    | true ↦ do
      tlv_type ← read 2 "tlv type"
      tlv_len ← read 2 "tlv length"
      m ← left
      elim (ltb m tlv_len) [
        | true ↦ fail tlv_overruns
        | false ↦ do
          tlv ← span tlv_len "tlv value"
          (if tlv_type == 8 then path_trace tlv_len tlv else pure tt)
          announce_tlvs fuel
      ]
  ]

abbrev pub announce_items : List Item
announce_items =
    unused 10 "announce originTimestamp"
    ∷ item "current_utc_offset" "currentUtcOffset" 2
    ∷ unused 1 "reserved"
    ∷ item "gm_priority1" "grandmasterPriority1" 1
    ∷ item "gm_clock_class" "clockClass" 1
    ∷ item "gm_clock_accuracy" "clockAccuracy" 1
    ∷ item "gm_clock_variance" "offsetScaledLogVariance" 2
    ∷ item "gm_priority2" "grandmasterPriority2" 1
    ∷ item "gm_identity" "grandmasterIdentity" 8
    ∷ item "steps_removed" "stepsRemoved" 2
    ∷ item "time_source" "timeSource" 1
    ∷ []

unfoldable pub interval_request : Parser Unit
interval_request = do
  n ← left
  if ltb n 4 then pure tt else do
    num "signaling_interval_request" 1
    ld ← read 1 "logLinkDelayInterval"
    tsi ← read 1 "logTimeSyncInterval"
    ai ← read 1 "logAnnounceInterval"
    num "req_link_delay_interval" ld
    num "req_time_sync_interval" tsi
    num "req_announce_interval" ai
    read_items (item "interval_request_flags" "flags" 1 ∷ [])

unfoldable pub capable_tlv : Parser Unit
capable_tlv = do
  n ← left
  if ltb n 2 then pure tt else do
    num "signaling_gptp_capable" 1
    read_items (
        item "gptp_capable_interval" "logGptpCapableMessageInterval" 1
        ∷ item "gptp_capable_flags" "flags" 1
        ∷ [])

unfoldable pub capable_request : Parser Unit
capable_request = do
  n ← left
  if ltb n 1 then pure tt else do
    num "signaling_gptp_capable_request" 1
    read_items (item "req_gptp_capable_interval" "logGptpCapableMessageInterval" 1 ∷ [])

unfoldable pub signaling_org : ℕ → Parser Unit
signaling_org org_sub =
    if not (org_sub / 2 ^ 24 == 0x0080c2)
    then pure tt
    else if org_sub % 2 ^ 24 == 2
    then interval_request
    else if org_sub % 2 ^ 24 == 4
    then capable_tlv
    else if org_sub % 2 ^ 24 == 5
    then capable_request
    else pure tt

unfoldable pub signaling_tlv : ℕ → ℕ → Parser Unit
signaling_tlv tlv_type tlv_len =
    if not (tlv_type == 3) || ltb tlv_len 6
    then pure tt
    else do org_sub ← read 6 "org id + subtype"; signaling_org org_sub

-- The number of TLVs.
unfoldable pub signaling_tlvs : ℕ → ℕ → Parser ℕ
signaling_tlvs zero count = spent
signaling_tlvs (suc fuel) count = do
  n ← left
  elim (leb 4 n) [
    | false ↦ pure count
    | true ↦ do
      tlv_type ← read 2 "tlv type"
      tlv_len ← read 2 "tlv length"
      m ← left
      elim (ltb m tlv_len) [
        | true ↦ pure count
        | false ↦ do
          tlv ← span tlv_len "tlv value"
          within tlv (signaling_tlv tlv_type tlv_len)
          signaling_tlvs fuel ((count + 1) % 2 ^ 32)
      ]
  ]

abbrev pub requesting_items : List Item
requesting_items =
    item "requesting_clock_id" "requestingPortIdentity" 8
    ∷ item "requesting_port_number" "requesting port" 2
    ∷ []

unfoldable pub parse_sync : Parser Unit
parse_sync = do n ← left; if leb 10 n then gptp_timestamp "origin_seconds" "origin_ns" else pure tt

unfoldable pub parse_follow_up : ℕ → Parser Unit
parse_follow_up fuel = do gptp_timestamp "origin_seconds" "origin_ns"; follow_up_tlvs fuel

unfoldable pub parse_pdelay_resp : String → String → Parser Unit
parse_pdelay_resp seconds_name ns_name = do
  gptp_timestamp seconds_name ns_name
  read_items requesting_items

unfoldable pub parse_announce : ℕ → Parser Unit
parse_announce fuel = do read_items announce_items; announce_tlvs fuel

unfoldable pub parse_target : Parser Unit
parse_target = do
  n ← left
  if ltb n 10 then pure tt else do
    num "have_target" 1
    read_items (
        item "target_clock_id" "targetPortIdentity" 8
        ∷ item "target_port_number" "target port" 2
        ∷ [])

unfoldable pub parse_signaling : ℕ → Parser Unit
parse_signaling fuel = do
  parse_target
  count ← signaling_tlvs fuel 0
  num "signaling_tlv_count" count

-- The `switch` over the message types, on the body.
unfoldable pub parse_body : ℕ → ℕ → Parser Unit
parse_body fuel msg_type =
    if msg_type == 0
    then parse_sync
    else if msg_type == 8
    then parse_follow_up fuel
    else if msg_type == 3
    then parse_pdelay_resp "req_receipt_seconds" "req_receipt_ns"
    else if msg_type == 10
    then parse_pdelay_resp "resp_origin_seconds" "resp_origin_ns"
    else if msg_type == 11
    then parse_announce fuel
    else if msg_type == 12
    then parse_signaling fuel
    else pure tt

unfoldable pub parse_message : ℕ → GptpHeader → Parser Unit
parse_message fuel h = if ltb h.msg_len 34 then fail (short_message h.msg_len) else do
  body ← span (h.msg_len - 34) "gPTP body"
  set_header h
  within body (parse_body fuel h.msg_type)

unfoldable pub parse_gptp : ℕ → Parser Unit
parse_gptp fuel = do h ← parse_header; parse_message fuel h
