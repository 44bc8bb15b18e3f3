-- ===== src/Decode/Tests.antt =====
-- The theorems on the decoder at concrete inputs, and runs of the decoder.
use avb_introspection.Base.{ℕ, ◌+◌, ◌≡◌, refl, true, false, List, [], ◌∷◌, arith, All}
use avb_introspection.Decode.{decode_packet}
use avb_introspection.Decode.Types.{index, ok}
use avb_introspection.Decode.Mrp.{MrpMessage, three_packed_event, four_packed_event}
use avb_introspection.Decode.Declarations.{emit_messages}
use avb_introspection.Decode.MrpTotal.{MessageWf}
use avb_introspection.Decode.Reads.{Yields}
use avb_introspection.Decode.Emits.{Counted, leave_alls, emit_messages-Counted}
use avb_introspection.Decode.Always.{Gives, decode_packet-Gives}
use avb_introspection.Decode.Messages.{AdpMessage, of_adp, MessageFits}
use avb_introspection.Decode.Wire.{
  Wire, WireFits, encode_wire, packet_of, decode_packet-encode_wire,
}
use avb_introspection.Decode.Packed.{pack_three, pack_four, packed_event-pack}

-- An MVRP frame that ends within a vector.
abbrev mvrp_frame : List ℕ
mvrp_frame =
    1 ∷ 128 ∷ 194 ∷ 0 ∷ 0 ∷ 33 ∷ 2 ∷ 0 ∷ 0 ∷ 0 ∷ 0 ∷ 1 ∷ 0x88 ∷ 0xf5 ∷ 0 ∷ 1 ∷ 2 ∷ 0 ∷ 2 ∷ 0 ∷ []

decode_packet-Gives_example : Gives (decode_packet mvrp_frame)
decode_packet-Gives_example = decode_packet-Gives mvrp_frame

-- An available entity, in a frame with a VLAN tag.
abbrev entity : AdpMessage
entity = record {
  entity_id = 0x001b21fffe000001;
  entity_model_id = 0x001b210000000002;
  entity_capabilities = 0x8508;
  talker_stream_sources = 4;
  talker_capabilities = 0x4801;
  listener_stream_sinks = 2;
  listener_capabilities = 0x4001;
  controller_capabilities = 0;
  available_index = 70000;
  gptp_grandmaster_id = 0x001b21fffe000009;
  gptp_domain_number = 0;
  reserved = 0;
  identify_control_index = 5;
  interface_index = 1;
  association_id = 0;
}

abbrev announcement : Wire
announcement = record {
  dst = 0x91e0f0010000;
  src = 0x001b21000001;
  tags = 0x2002 ∷ [];
  ctrl = record { subtype = 0xfa; sv = 0; version = 0; msg_type = 0; status5 = 31; cdl = 56 };
  message = of_adp entity;
  padding = 0 ∷ 0 ∷ [];
}

entity-MessageFits : MessageFits (of_adp entity)
entity-MessageFits = (
  (omega arith, omega arith),
  (
    (omega arith, omega arith),
    (
      (omega arith, omega arith),
      (
        (omega arith, omega arith),
        (
          (omega arith, omega arith),
          (
            (omega arith, omega arith),
            (
              (omega arith, omega arith),
              (
                (omega arith, omega arith),
                (
                  (omega arith, omega arith),
                  (
                    (omega arith, omega arith),
                    (
                      (omega arith, omega arith),
                      (
                        (omega arith, omega arith),
                        ((omega arith, omega arith), ((omega arith, omega arith), tt)),
                      ),
                    ),
                  ),
                ),
              ),
            ),
          ),
        ),
      ),
    ),
  ),
)

announcement-WireFits : WireFits announcement
announcement-WireFits = record {
  macs = (omega arith, omega arith);
  tags = (omega arith, tt);
  ctrl = record {
    subtype = omega arith;
    sv = omega arith;
    version = omega arith;
    msg_type = omega arith;
    status5 = omega arith;
    cdl = omega arith;
  };
  subtype = refl;
  message = entity-MessageFits;
}

decode_packet-encode_wire_example :
    decode_packet (encode_wire announcement) ≡ ok (packet_of announcement)
decode_packet-encode_wire_example = decode_packet-encode_wire announcement announcement-WireFits

packed_event-pack_example :
    (three_packed_event (pack_three (1 ∷ 5 ∷ 0 ∷ 4 ∷ [])) 3 ≡ ok 4)
    × (four_packed_event (pack_four (2 ∷ 1 ∷ 3 ∷ 2 ∷ [])) 3 ≡ ok 2)
packed_event-pack_example =
    packed_event-pack (1 ∷ 5 ∷ 0 ∷ 4 ∷ []) (2 ∷ 1 ∷ 3 ∷ 2 ∷ []) 3 4 2
      (omega arith, (omega arith, (omega arith, (omega arith, tt))))
      (omega arith, (omega arith, (omega arith, (omega arith, tt)))) refl refl

-- One VLAN vector with a LeaveAll and two values.
abbrev vlans : MrpMessage
vlans = record {
  attr_type = 1;
  attr_len = 2;
  vectors =
      record {
        leave_all = true;
        num_values = 2;
        first_value = 0 ∷ 2 ∷ [];
        three_packed = 42 ∷ [];
        four_packed = [];
      }
      ∷ [];
}

vlans-MessageWf : All (MessageWf false) (vlans ∷ [])
vlans-MessageWf =
    (record { vectors = (record { first = refl; three = refl; four = refl }, tt) }, tt)

emit_messages-Counted_example :
    Yields (Counted 0 (leave_alls (vlans ∷ []) + 0)) (emit_messages false (vlans ∷ []) 0)
emit_messages-Counted_example =
    emit_messages-Counted false (vlans ∷ []) 0 0 vlans-MessageWf (λ _. (refl, tt)) (omega arith)

-- A byte above 215 holds no three events: the first one is read as 6, the number of a LeaveAll.
beyond : three_packed_event (216 ∷ []) 0 ≡ ok 6
unfolding three_packed_event index
beyond = refl
