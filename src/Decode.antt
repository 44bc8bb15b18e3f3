-- ===== src/Decode.antt =====
-- The frame decoder of the analysis: `decodePacket` of backend/src/decode/decode.cpp. A frame is the list of
-- its bytes. `inspectPacket`, which runs the same code for the packet inspector, and the texts of the packet
-- event are left out. Every loop gets the frame's length as fuel.
pub mod Types
pub mod Avtp
pub mod Mrp
pub mod Declarations
pub mod Gptp
pub mod Reads
pub mod Total
pub mod GptpTotal
pub mod MrpTotal
pub mod Emits
pub mod Always
pub mod Layout
pub mod Headers
pub mod Frames
pub mod Messages
pub mod Wire
pub mod Packed
mod Tests
use avb_introspection.Base.{
  ℕ, Bool, true, false, ◌&&◌, not, none, some, List, [], ◌∷◌, String, leb, ◌==◌, if◌then◌else◌,
  length,
}
use avb_introspection.Context.{VarLayerContext, set_value}
use avb_introspection.Decode.Types.{
  bad_mvrp, bad_msrp, Result, ok, throws, out_of_bounds, stuck, bind, Cursor, Parser, reader_of,
  Proto, eth, msrp, mvrp, maap, adp, aecp, acmp, gptp, LogicCtx, DecodedPacket,
}
use avb_introspection.Decode.Avtp.{
  EthHeader, etype_msrp, etype_mvrp, etype_avtp, etype_gptp, parse_eth, AvtpCtrlHeader,
  parse_avtp_ctrl, parse_adp, parse_aecp, parse_acmp, parse_maap,
}
use avb_introspection.Decode.Mrp.{MrpMessage, parse_mrp_pdu}
use avb_introspection.Decode.Declarations.{empty_ctx, emit_messages}
use avb_introspection.Decode.Gptp.{parse_gptp}

abbrev pub proto_of : ℕ → Proto
proto_of subtype =
    if subtype == 0xfa
    then adp
    else if subtype == 0xfb
    then aecp
    else if subtype == 0xfc
    then acmp
    else if subtype == 0xfe
    then maap
    else eth

abbrev pub service_of : Proto → String
service_of adp = "atdecc_adp"
service_of aecp = "atdecc_aecp"
service_of acmp = "atdecc_acmp"
service_of maap = "1722_maap"
service_of gptp = "8021as_gptp"
service_of msrp = "mrp_msrp"
service_of mvrp = "mrp_mvrp"
service_of eth = ""

unfoldable pub parse_avtp : Proto → AvtpCtrlHeader → Parser Unit
parse_avtp adp h = parse_adp h
parse_avtp aecp h = parse_aecp h
parse_avtp acmp h = parse_acmp h
parse_avtp maap h = parse_maap h
parse_avtp _ h = λ d. ok (tt, d)

-- The two loops over the messages that check attribute types and lengths.
unfoldable pub msrp_len : ℕ → ℕ
msrp_len t = if t == 1 then 25 else if t == 2 then 34 else if t == 3 then 8 else 4

unfoldable pub fits_attribute : Bool → MrpMessage → Bool
fits_attribute is_msrp m =
    if is_msrp
    then not ((leb 1 m.attr_type && leb m.attr_type 4) && not (m.attr_len == msrp_len m.attr_type))
    else (m.attr_type == 1) && (m.attr_len == 2)

unfoldable pub check_messages : Bool → List MrpMessage → Result (Unit {0})
check_messages is_msrp [] = ok tt
check_messages is_msrp (m ∷ ms) =
    let rest = check_messages is_msrp ms in
    if fits_attribute is_msrp m
    then rest
    else throws
        (if is_msrp then bad_msrp m.attr_len m.attr_type else bad_mvrp m.attr_type m.attr_len)

-- `src_mac` and `dst_mac`, set in every context.
abbrev pub set_macs : EthHeader → VarLayerContext → VarLayerContext
set_macs h c = set_value (set_value c "src_mac" h.src) "dst_mac" h.dst

unfoldable pub set_macs_all : EthHeader → List LogicCtx → List LogicCtx
set_macs_all h [] = []
set_macs_all h (c ∷ cs) = record c { vars = set_macs h c.vars } ∷ set_macs_all h cs

abbrev pub Contexts : Type 0
Contexts = List LogicCtx

-- The contexts of the three kinds of frame that are of interest.
unfoldable pub decode_mrp : ℕ → Bool → EthHeader → Cursor → Result Contexts
decode_mrp fuel is_msrp h d = bind (parse_mrp_pdu fuel is_msrp d) λ (pdu, e).
    bind (check_messages is_msrp pdu.messages)
      λ _. bind (emit_messages is_msrp pdu.messages 0) λ (ctxs, count). ok (set_macs_all h ctxs)

unfoldable pub decode_gptp : ℕ → EthHeader → Cursor → Result Contexts
decode_gptp fuel h d =
    bind (parse_gptp fuel d)
      λ (_, e). ok (record { service = service_of gptp; vars = set_macs h e.ctx } ∷ [])

unfoldable pub decode_avtp : Proto → AvtpCtrlHeader → EthHeader → Cursor → Result Contexts
decode_avtp p ctrl h d =
    bind (parse_avtp p ctrl d)
      λ (_, e). ok (record { service = service_of p; vars = set_macs h e.ctx } ∷ [])

abbrev pub new_packet : DecodedPacket
new_packet = record {
  src_mac = 0;
  dst_mac = 0;
  proto = eth;
  interesting = false;
  is_ok = false;
  error = none;
  logic_ctxs = [];
}

-- What `decodePacket` makes of the outcome of `decodeInner`, for the packet as set so far. The two outcomes
-- that are no exceptions of the source pass through.
unfoldable pub finish : DecodedPacket → Result Contexts → Result DecodedPacket
finish p (ok ctxs) = ok (record p { is_ok = true; logic_ctxs = ctxs })
finish p (throws e) =
    ok (record p { is_ok = false; interesting = true; error = some e; logic_ctxs = [] })
finish p out_of_bounds = out_of_bounds
finish p stuck = stuck

abbrev pub of_interest : Proto → DecodedPacket → DecodedPacket
of_interest q p = record p { interesting = true; proto = q }

unfoldable pub after_ctrl :
    EthHeader → DecodedPacket → Result (AvtpCtrlHeader × Cursor) → Result DecodedPacket
after_ctrl h p (ok (ctrl, d)) =
    let q = proto_of ctrl.subtype in
    elim q [
      | eth ↦ finish p (ok [])
      | other ↦ finish (of_interest other p) (decode_avtp other ctrl h d)
    ]
after_ctrl h p (throws e) = finish p (throws e)
after_ctrl h p out_of_bounds = out_of_bounds
after_ctrl h p stuck = stuck

-- `decodeInner` after the Ethernet header.
unfoldable pub after_eth : ℕ → Result (EthHeader × Cursor) → Result DecodedPacket
after_eth fuel (ok (h, d)) =
    let p = record new_packet { src_mac = h.src; dst_mac = h.dst } in
    if h.etype == etype_msrp
    then finish (of_interest msrp p) (decode_mrp fuel true h d)
    else if h.etype == etype_mvrp
    then finish (of_interest mvrp p) (decode_mrp fuel false h d)
    else if h.etype == etype_gptp
    then finish (of_interest gptp p) (decode_gptp fuel h d)
    else if h.etype == etype_avtp
    then after_ctrl h p (parse_avtp_ctrl d)
    else finish p (ok [])
after_eth fuel (throws e) = finish new_packet (throws e)
after_eth fuel out_of_bounds = out_of_bounds
after_eth fuel stuck = stuck

unfoldable pub decode_packet : List ℕ → Result DecodedPacket
decode_packet frame =
    let fuel = length frame in
    after_eth fuel (parse_eth fuel (record { reader = reader_of frame; ctx = empty_ctx }))
