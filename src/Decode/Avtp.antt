-- ===== src/Decode/Avtp.antt =====
-- Ethernet and the AVTP control protocols of backend/src/decode/decode.cpp: `parseEth`, `parseAvtpCtrl`,
-- `parseAdp`, `parseAecp`, `parseAcmp` and `parseMaap`. Consecutive statements that read a field and write it
-- under a name are a list of items, in their order.
use avb_introspection.Base.{
  ℕ, zero, suc, ◌+◌, ◌-◌, ◌*◌, ◌/◌, ◌%◌, ◌^◌, Bool, true, false, ◌||◌, ◌&&◌, Option, none, some,
  List, [], ◌∷◌, String, leb, ◌==◌, if◌then◌else◌,
}
use avb_introspection.Bytes.{padded_str}
use avb_introspection.Decode.Types.{
  Parser, spent, pure, ◌>>=◌, ◌>>◌, read, span, left, num, str, Item, item, unused, read_items,
}
use Prim.Native.String

pub record EthHeader : Type 0 where
  pub dst : ℕ
  pub src : ℕ
  pub etype : ℕ
  pub vlan : Option ℕ

abbrev pub etype_msrp : ℕ
etype_msrp = 0x22ea

abbrev pub etype_mvrp : ℕ
etype_mvrp = 0x88f5

abbrev pub etype_avtp : ℕ
etype_avtp = 0x22f0

abbrev pub etype_gptp : ℕ
etype_gptp = 0x88f7

abbrev pub etype_vlan : ℕ
etype_vlan = 0x8100

abbrev pub etype_qinq : ℕ
etype_qinq = 0x88a8

-- The loop over the VLAN tags; each takes four bytes of the frame.
unfoldable pub vlan_tags : ℕ → EthHeader → Parser EthHeader
vlan_tags zero h = spent
vlan_tags (suc fuel) h = elim ((h.etype == etype_vlan) || (h.etype == etype_qinq)) [
  | false ↦ pure h
  | true ↦ do
    tci ← read 2 "802.1Q TCI"
    etype ← read 2 "ethertype"
    vlan_tags fuel (record h { vlan = some (tci % 4096); etype = etype })
]

unfoldable pub parse_eth : ℕ → Parser EthHeader
parse_eth fuel = do
  dst ← read 6 "ethernet dst"
  src ← read 6 "ethernet src"
  etype ← read 2 "ethertype"
  vlan_tags fuel (record { dst = dst; src = src; etype = etype; vlan = none })

pub record AvtpCtrlHeader : Type 0 where
  pub subtype : ℕ
  pub sv : ℕ
  pub version : ℕ
  pub msg_type : ℕ
  pub status5 : ℕ
  pub cdl : ℕ

unfoldable pub parse_avtp_ctrl : Parser AvtpCtrlHeader
parse_avtp_ctrl = do
  subtype ← read 1 "AVTP subtype"
  b1 ← read 1 "AVTP control byte"
  w ← read 2 "status/control_data_length"
  pure (record {
    subtype = subtype;
    sv = b1 / 128;
    version = b1 / 16 % 8;
    msg_type = b1 % 16;
    status5 = w / 2048;
    cdl = w % 2048;
  })

-- A field whose texts are the same.
abbrev pub same : String → ℕ → Item
same name = item name name

abbrev pub adp_items : List Item
adp_items =
    same "entity_id" 8
    ∷ same "entity_model_id" 8
    ∷ same "entity_capabilities" 4
    ∷ same "talker_stream_sources" 2
    ∷ same "talker_capabilities" 2
    ∷ same "listener_stream_sinks" 2
    ∷ same "listener_capabilities" 2
    ∷ same "controller_capabilities" 4
    ∷ same "available_index" 4
    ∷ same "gptp_grandmaster_id" 8
    ∷ same "gptp_domain_number" 1
    ∷ unused 3 "adp reserved"
    ∷ same "identify_control_index" 2
    ∷ same "interface_index" 2
    ∷ same "association_id" 8
    ∷ []

unfoldable pub parse_adp : AvtpCtrlHeader → Parser Unit
parse_adp h = do
  num "message_type" h.msg_type
  num "valid_time" (h.status5 * 2)
  read_items adp_items

-- The text of printable characters.
abbrev printables : String
printables =
    " !\"#$%&'()*+,-./0123456789:;<=>?@ABCDEFGHIJKLMNOPQRSTUVWXYZ[\\]^_`abcdefghijklmnopqrstuvwxyz{|}~"

unfoldable pub text_of : List ℕ → String
text_of [] = ""
text_of (c ∷ cs) = String.◌++◌ (String.slice printables (c - 32) (c - 31)) (text_of cs)

abbrev pub padded : String → ℕ → String → Parser Unit
padded name n what = do bs ← span n what; str name (text_of (padded_str bs))

abbrev pub descriptor_items : List Item
descriptor_items = same "descriptor_type" 2 ∷ same "descriptor_index" 2 ∷ []

abbrev pub entity_items : List Item
entity_items =
    same "entity_id" 8
    ∷ same "entity_model_id" 8
    ∷ same "entity_capabilities" 4
    ∷ same "talker_stream_sources" 2
    ∷ same "talker_capabilities" 2
    ∷ same "listener_stream_sinks" 2
    ∷ same "listener_capabilities" 2
    ∷ same "controller_capabilities" 4
    ∷ same "available_index" 4
    ∷ same "association_id" 8
    ∷ []

-- The optional tail of an ENTITY descriptor; `u16()` and `bytes(64)` give their default texts.
unfoldable pub entity_tail : Parser Unit
entity_tail = do
  read_items (item "vendor_name_string" "u16" 2 ∷ item "model_name_string" "u16" 2 ∷ [])
  padded "firmware_version" 64 "bytes"
  padded "group_name" 64 "bytes"
  padded "serial_number" 64 "bytes"
  read_items (item "configurations_count" "u16" 2 ∷ item "current_configuration" "u16" 2 ∷ [])

unfoldable pub parse_entity : Parser Unit
parse_entity = do
  read_items entity_items
  padded "entity_name" 64 "entity_name"
  n ← left
  if leb (2 + 2 + 64 * 3 + 4) n then entity_tail else pure tt

unfoldable pub parse_descriptor : Bool → Parser Unit
parse_descriptor is_response = do
  read_items (same "configuration_index" 2 ∷ unused 2 "reserved" ∷ [])
  dt ← read 2 "descriptor_type"
  num "descriptor_type" dt
  read_items (same "descriptor_index" 2 ∷ [])
  if is_response && (dt == 0) then parse_entity else pure tt

unfoldable pub parse_lock : ℕ → Parser Unit
parse_lock cmd = do
  read_items (
      same "flags" 4 ∷ item (if cmd == 0 then "owner_id" else "locked_id") "owner/locked id" 8 ∷ [])
  read_items descriptor_items

unfoldable pub parse_name : Bool → Parser Unit
parse_name has_name = do
  read_items descriptor_items
  read_items (same "name_index" 2 ∷ same "configuration_index" 2 ∷ [])
  if has_name then padded "name" 64 "name" else pure tt

unfoldable pub parse_aem_payload : ℕ → ℕ → Parser Unit
parse_aem_payload msg_type cmd =
    let is_response = msg_type == 1 in
    if (cmd == 0) || (cmd == 1)
    then parse_lock cmd
    else if cmd == 4
    then parse_descriptor is_response
    else if (cmd == 16) || (cmd == 17)
    then parse_name ((cmd == 16) || is_response)
    else pure tt

unfoldable pub parse_aem : ℕ → Parser Unit
parse_aem msg_type = do
  uc ← read 2 "u/command_type"
  num "unsolicited" (uc / 2 ^ 15)
  num "command_type" (uc % 2 ^ 15)
  parse_aem_payload msg_type (uc % 2 ^ 15)

unfoldable pub parse_aecp : AvtpCtrlHeader → Parser Unit
parse_aecp h = do
  num "message_type" h.msg_type
  num "status" h.status5
  read_items (same "target_entity_id" 8 ∷ same "controller_entity_id" 8 ∷ same "sequence_id" 2 ∷ [])
  if (h.msg_type == 0) || (h.msg_type == 1) then parse_aem h.msg_type else pure tt

abbrev pub acmp_items : List Item
acmp_items =
    same "stream_id" 8
    ∷ same "controller_entity_id" 8
    ∷ same "talker_entity_id" 8
    ∷ same "listener_entity_id" 8
    ∷ same "talker_unique_id" 2
    ∷ same "listener_unique_id" 2
    ∷ same "stream_dest_mac" 6
    ∷ same "connection_count" 2
    ∷ same "sequence_id" 2
    ∷ same "flags" 2
    ∷ same "stream_vlan_id" 2
    ∷ []

unfoldable pub parse_acmp : AvtpCtrlHeader → Parser Unit
parse_acmp h = do num "message_type" h.msg_type; num "status" h.status5; read_items acmp_items

abbrev pub maap_items : List Item
maap_items =
    same "stream_id" 8
    ∷ same "requested_start_address" 6
    ∷ same "requested_count" 2
    ∷ same "conflict_start_address" 6
    ∷ same "conflict_count" 2
    ∷ []

unfoldable pub parse_maap : AvtpCtrlHeader → Parser Unit
parse_maap h = do num "message_type" h.msg_type; num "maap_version" h.status5; read_items maap_items
