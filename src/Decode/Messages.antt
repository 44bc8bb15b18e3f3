-- ===== src/Decode/Messages.antt =====
-- ADP, ACMP and MAAP messages as the standards lay them out, byte by byte, and the variables that
-- backend/src/decode/decode.cpp is to find in them. The layout and the names are written down here a second
-- time, field by field, and not taken from the decoder.
use avb_introspection.Base.{ℕ, ◌*◌, ◌<◌, ◌^◌, List, [], ◌∷◌, ◌++◌, String}
use avb_introspection.Context.{VarLayerContext, set_value}
use avb_introspection.Bytes.Words.{big_endian, bound}
use avb_introspection.Decode.Types.{Proto, adp, acmp, maap}
use avb_introspection.Decode.Avtp.{AvtpCtrlHeader}

pub record AdpMessage : Type 0 where
  pub entity_id : ℕ
  pub entity_model_id : ℕ
  pub entity_capabilities : ℕ
  pub talker_stream_sources : ℕ
  pub talker_capabilities : ℕ
  pub listener_stream_sinks : ℕ
  pub listener_capabilities : ℕ
  pub controller_capabilities : ℕ
  pub available_index : ℕ
  pub gptp_grandmaster_id : ℕ
  pub gptp_domain_number : ℕ
  pub reserved : ℕ
  pub identify_control_index : ℕ
  pub interface_index : ℕ
  pub association_id : ℕ

pub record AcmpMessage : Type 0 where
  pub stream_id : ℕ
  pub controller_entity_id : ℕ
  pub talker_entity_id : ℕ
  pub listener_entity_id : ℕ
  pub talker_unique_id : ℕ
  pub listener_unique_id : ℕ
  pub stream_dest_mac : ℕ
  pub connection_count : ℕ
  pub sequence_id : ℕ
  pub flags : ℕ
  pub stream_vlan_id : ℕ

pub record MaapMessage : Type 0 where
  pub stream_id : ℕ
  pub requested_start_address : ℕ
  pub requested_count : ℕ
  pub conflict_start_address : ℕ
  pub conflict_count : ℕ

pub data Message : Type 0 where
  of_adp : AdpMessage → Message
  of_acmp : AcmpMessage → Message
  of_maap : MaapMessage → Message

-- The bytes of a message after the control header, and then other bytes.
abbrev pub encode_message : Message → List ℕ → List ℕ
encode_message (of_adp m) ys =
    big_endian 8 m.entity_id
    ++ (big_endian 8 m.entity_model_id
        ++ (big_endian 4 m.entity_capabilities
            ++ (big_endian 2 m.talker_stream_sources
                ++ (big_endian 2 m.talker_capabilities
                    ++ (big_endian 2 m.listener_stream_sinks
                        ++ (big_endian 2 m.listener_capabilities
                            ++ (big_endian 4 m.controller_capabilities
                                ++ (big_endian 4 m.available_index
                                    ++ (big_endian 8 m.gptp_grandmaster_id
                                        ++ (big_endian 1 m.gptp_domain_number
                                            ++ (big_endian 3 m.reserved
                                                ++ (big_endian 2 m.identify_control_index
                                                    ++ (big_endian 2 m.interface_index
                                                        ++ (big_endian 8 m.association_id
                                                            ++ ys))))))))))))))
encode_message (of_acmp m) ys =
    big_endian 8 m.stream_id
    ++ (big_endian 8 m.controller_entity_id
        ++ (big_endian 8 m.talker_entity_id
            ++ (big_endian 8 m.listener_entity_id
                ++ (big_endian 2 m.talker_unique_id
                    ++ (big_endian 2 m.listener_unique_id
                        ++ (big_endian 6 m.stream_dest_mac
                            ++ (big_endian 2 m.connection_count
                                ++ (big_endian 2 m.sequence_id
                                    ++ (big_endian 2 m.flags
                                        ++ (big_endian 2 m.stream_vlan_id ++ ys))))))))))
encode_message (of_maap m) ys =
    big_endian 8 m.stream_id
    ++ (big_endian 6 m.requested_start_address
        ++ (big_endian 2 m.requested_count
            ++ (big_endian 6 m.conflict_start_address ++ (big_endian 2 m.conflict_count ++ ys))))

-- A number that fits into `n` bytes, of which there are at most eight.
abbrev pub Fits : ℕ → ℕ → Type 0
Fits n v = (v < bound n) × (v < 2 ^ 64)

abbrev pub MessageFits : Message → Type 0
MessageFits (of_adp m) =
    Fits 8 m.entity_id
    × (Fits 8 m.entity_model_id
        × (Fits 4 m.entity_capabilities
            × (Fits 2 m.talker_stream_sources
                × (Fits 2 m.talker_capabilities
                    × (Fits 2 m.listener_stream_sinks
                        × (Fits 2 m.listener_capabilities
                            × (Fits 4 m.controller_capabilities
                                × (Fits 4 m.available_index
                                    × (Fits 8 m.gptp_grandmaster_id
                                        × (Fits 1 m.gptp_domain_number
                                            × (Fits 2 m.identify_control_index
                                                × (Fits 2 m.interface_index
                                                    × (Fits 8 m.association_id × Unit)))))))))))))
MessageFits (of_acmp m) =
    Fits 8 m.stream_id
    × (Fits 8 m.controller_entity_id
        × (Fits 8 m.talker_entity_id
            × (Fits 8 m.listener_entity_id
                × (Fits 2 m.talker_unique_id
                    × (Fits 2 m.listener_unique_id
                        × (Fits 6 m.stream_dest_mac
                            × (Fits 2 m.connection_count
                                × (Fits 2 m.sequence_id
                                    × (Fits 2 m.flags × (Fits 2 m.stream_vlan_id × Unit))))))))))
MessageFits (of_maap m) =
    Fits 8 m.stream_id
    × (Fits 6 m.requested_start_address
        × (Fits 2 m.requested_count
            × (Fits 6 m.conflict_start_address × (Fits 2 m.conflict_count × Unit))))

-- The variables, the ones of the control header included.
abbrev pub put : VarLayerContext → List (String × ℕ) → VarLayerContext
put c [] = c
put c ((name, v) ∷ rest) = put (set_value c name v) rest

abbrev pub vars_of : AvtpCtrlHeader → Message → List (String × ℕ)
vars_of h (of_adp m) =
    ("message_type", h.msg_type)
    ∷ ("valid_time", h.status5 * 2)
    ∷ ("entity_id", m.entity_id)
    ∷ ("entity_model_id", m.entity_model_id)
    ∷ ("entity_capabilities", m.entity_capabilities)
    ∷ ("talker_stream_sources", m.talker_stream_sources)
    ∷ ("talker_capabilities", m.talker_capabilities)
    ∷ ("listener_stream_sinks", m.listener_stream_sinks)
    ∷ ("listener_capabilities", m.listener_capabilities)
    ∷ ("controller_capabilities", m.controller_capabilities)
    ∷ ("available_index", m.available_index)
    ∷ ("gptp_grandmaster_id", m.gptp_grandmaster_id)
    ∷ ("gptp_domain_number", m.gptp_domain_number)
    ∷ ("identify_control_index", m.identify_control_index)
    ∷ ("interface_index", m.interface_index)
    ∷ ("association_id", m.association_id)
    ∷ []
vars_of h (of_acmp m) =
    ("message_type", h.msg_type)
    ∷ ("status", h.status5)
    ∷ ("stream_id", m.stream_id)
    ∷ ("controller_entity_id", m.controller_entity_id)
    ∷ ("talker_entity_id", m.talker_entity_id)
    ∷ ("listener_entity_id", m.listener_entity_id)
    ∷ ("talker_unique_id", m.talker_unique_id)
    ∷ ("listener_unique_id", m.listener_unique_id)
    ∷ ("stream_dest_mac", m.stream_dest_mac)
    ∷ ("connection_count", m.connection_count)
    ∷ ("sequence_id", m.sequence_id)
    ∷ ("flags", m.flags)
    ∷ ("stream_vlan_id", m.stream_vlan_id)
    ∷ []
vars_of h (of_maap m) =
    ("message_type", h.msg_type)
    ∷ ("maap_version", h.status5)
    ∷ ("stream_id", m.stream_id)
    ∷ ("requested_start_address", m.requested_start_address)
    ∷ ("requested_count", m.requested_count)
    ∷ ("conflict_start_address", m.conflict_start_address)
    ∷ ("conflict_count", m.conflict_count)
    ∷ []

abbrev pub subtype_of : Message → ℕ
subtype_of (of_adp m) = 0xfa
subtype_of (of_acmp m) = 0xfc
subtype_of (of_maap m) = 0xfe

abbrev pub proto_of : Message → Proto
proto_of (of_adp m) = adp
proto_of (of_acmp m) = acmp
proto_of (of_maap m) = maap

abbrev pub service_of : Message → String
service_of (of_adp m) = "atdecc_adp"
service_of (of_acmp m) = "atdecc_acmp"
service_of (of_maap m) = "1722_maap"
