-- ===== src/Decode/Wire.antt =====
-- Frames with the ADP, ACMP and MAAP messages of the standards, and what backend/src/decode/decode.cpp makes of
-- them.
use avb_introspection.Base.{ℕ, ◌<◌, ◌^◌, ◌≡◌, true, none, List, [], ◌∷◌, ◌++◌, All}
use avb_introspection.Context.{set_value}
use avb_introspection.Bytes.Words.{big_endian}
use avb_introspection.Decode.{decode_packet}
use avb_introspection.Decode.Types.{ok, DecodedPacket}
use avb_introspection.Decode.Avtp.{AvtpCtrlHeader}
use avb_introspection.Decode.Declarations.{empty_ctx}
use avb_introspection.Decode.Layout.{encode_items, write_items}
use avb_introspection.Decode.Headers.{encode_tags, encode_ctrl, CtrlFits}
use avb_introspection.Decode.Frames.{
  plain_adp, plain_acmp, plain_maap, Sent, decode_packet-encode_frame,
}
use avb_introspection.Decode.Messages.{
  Message, of_adp, of_acmp, of_maap, encode_message, MessageFits, put, vars_of, subtype_of,
  proto_of, service_of,
}

-- A frame: addresses, any number of VLAN tags, the control header, the message and padding.
pub record Wire : Type 0 where
  pub dst : ℕ
  pub src : ℕ
  pub tags : List ℕ
  pub ctrl : AvtpCtrlHeader
  pub message : Message
  pub padding : List ℕ

pub record WireFits (w : Wire) : Type 0 where
  pub macs : (w.dst < 2 ^ 48) × (w.src < 2 ^ 48)
  pub tags : All (λ tci. tci < 2 ^ 16) w.tags
  pub ctrl : CtrlFits w.ctrl
  pub subtype : w.ctrl.subtype ≡ subtype_of w.message
  pub message : MessageFits w.message

abbrev pub encode_wire : Wire → List ℕ
encode_wire w =
    big_endian 6 w.dst
    ++ (big_endian 6 w.src
        ++ encode_tags w.tags 0x22f0 (encode_ctrl w.ctrl (encode_message w.message w.padding)))

abbrev pub packet_of : Wire → DecodedPacket
packet_of w = record {
  src_mac = w.src;
  dst_mac = w.dst;
  proto = proto_of w.message;
  interesting = true;
  is_ok = true;
  error = none;
  logic_ctxs =
      record {
        service = service_of w.message;
        vars =
            set_value (set_value (put empty_ctx (vars_of w.ctrl w.message)) "src_mac" w.src)
              "dst_mac" w.dst;
      }
      ∷ [];
}

-- The same frame for the decoder's rows of fields.
abbrev values_of : Message → List ℕ
values_of (of_adp m) =
    m.entity_id ∷ m.entity_model_id ∷ m.entity_capabilities ∷ m.talker_stream_sources
    ∷ m.talker_capabilities ∷ m.listener_stream_sinks ∷ m.listener_capabilities
    ∷ m.controller_capabilities ∷ m.available_index ∷ m.gptp_grandmaster_id ∷ m.gptp_domain_number
    ∷ m.reserved ∷ m.identify_control_index ∷ m.interface_index ∷ m.association_id ∷ []
values_of (of_acmp m) =
    m.stream_id ∷ m.controller_entity_id ∷ m.talker_entity_id ∷ m.listener_entity_id
    ∷ m.talker_unique_id ∷ m.listener_unique_id ∷ m.stream_dest_mac ∷ m.connection_count
    ∷ m.sequence_id ∷ m.flags ∷ m.stream_vlan_id ∷ []
values_of (of_maap m) =
    m.stream_id ∷ m.requested_start_address ∷ m.requested_count ∷ m.conflict_start_address
    ∷ m.conflict_count ∷ []

abbrev sent : Wire → Sent
sent w = record {
  dst = w.dst;
  src = w.src;
  tags = w.tags;
  ctrl = w.ctrl;
  fields = values_of w.message;
  padding = w.padding;
}

decode_message :
    (w : Wire) (m : Message)
    → WireFits (record w { message = m })
    → decode_packet (encode_wire (record w { message = m }))
      ≡ ok (packet_of (record w { message = m }))
unfolding encode_items write_items
decode_message w (of_adp m) fit =
    decode_packet-encode_frame plain_adp (sent (record w { message = of_adp m })) (record {
      macs = fit.macs;
      tags = fit.tags;
      ctrl = fit.ctrl;
      subtype = fit.subtype;
      fields = fit.message;
    })
decode_message w (of_acmp m) fit =
    decode_packet-encode_frame plain_acmp (sent (record w { message = of_acmp m })) (record {
      macs = fit.macs;
      tags = fit.tags;
      ctrl = fit.ctrl;
      subtype = fit.subtype;
      fields = fit.message;
    })
decode_message w (of_maap m) fit =
    decode_packet-encode_frame plain_maap (sent (record w { message = of_maap m })) (record {
      macs = fit.macs;
      tags = fit.tags;
      ctrl = fit.ctrl;
      subtype = fit.subtype;
      fields = fit.message;
    })

-- A frame of ADP, ACMP or MAAP whose fields hold numbers that fit into them, with any number of VLAN tags and any
-- padding after it, is decoded to a packet without error, with the sender's addresses and one context: of the
-- protocol's service, with the value of each field of the standard's layout under the field's name.
pub decode_packet-encode_wire :
    (w : Wire) → WireFits w → decode_packet (encode_wire w) ≡ ok (packet_of w)
decode_packet-encode_wire w fit = decode_message w w.message fit
