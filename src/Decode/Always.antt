-- ===== src/Decode/Always.antt =====
-- `decodePacket` of backend/src/decode/decode.cpp comes to an end on every frame, reads no byte outside its
-- spans, and hands nothing on of a frame that it could not decode.
use avb_introspection.Base.{
  ℕ, ◌<◌, ◌≡◌, refl, inl, inr, Bool, true, false, none, List, [], ◌∷◌, arith, ◌==◌, Bool-cases,
  if_either, ◌⊎◌, length, All,
}
use avb_introspection.Bytes.{remaining}
use avb_introspection.Decode.Types.{
  Result, ok, throws, Cursor, reader_of, Proto, eth, msrp, mvrp, maap, adp, aecp, acmp, gptp,
  DecodedPacket,
}
use avb_introspection.Decode.Avtp.{
  EthHeader, etype_msrp, etype_mvrp, etype_avtp, etype_gptp, AvtpCtrlHeader,
}
use avb_introspection.Decode.Mrp.{MrpMessage}
use avb_introspection.Decode.Declarations.{empty_ctx}
use avb_introspection.Decode.Reads.{
  Yields, yielded, thrown, Yields-bind, Yields-weaken, Reads, Any, pure-Any,
}
use avb_introspection.Decode.Total.{
  parse_eth-Reads, parse_avtp_ctrl-Any, parse_adp-Any, parse_aecp-Any, parse_acmp-Any,
  parse_maap-Any,
}
use avb_introspection.Decode.GptpTotal.{parse_gptp-Any}
use avb_introspection.Decode.MrpTotal.{parse_mrp_pdu-Wf}
use avb_introspection.Decode.Emits.{emit_messages-Counted}
use avb_introspection.Decode.{
  proto_of, parse_avtp, fits_attribute, check_messages, Contexts, decode_mrp, decode_gptp,
  decode_avtp, new_packet, finish, of_interest, after_ctrl, after_eth, decode_packet,
}

fits_length :
    (m : MrpMessage) (is_msrp : Bool)
    → fits_attribute is_msrp m ≡ true
    → is_msrp ≡ false
    → m.attr_len ≡ 2
unfolding fits_attribute
fits_length m true fits e = cc
fits_length m false fits e = ground (arith, fits)

check_messages-Yields :
    (is_msrp : Bool) (ms : List MrpMessage)
    → Yields (λ _. is_msrp ≡ false → All (λ m. m.attr_len ≡ 2) ms) (check_messages is_msrp ms)
unfolding check_messages
check_messages-Yields is_msrp [] = yielded (λ _. tt)
check_messages-Yields is_msrp (m ∷ ms) = elim (Bool-cases (fits_attribute is_msrp m)) [
  | inl fits ↦
      rw (fits, check_messages)
        (Yields-weaken (check_messages-Yields is_msrp ms)
          (λ _ rest e. (fits_length m is_msrp fits e, rest e)))
  | inr not_fits ↦ rw (not_fits, check_messages) thrown
]

decode_mrp-Yields :
    (fuel : ℕ) (is_msrp : Bool) (h : EthHeader) (d : Cursor)
    → remaining d.reader < fuel
    → Yields Any (decode_mrp fuel is_msrp h d)
unfolding decode_mrp
decode_mrp-Yields fuel is_msrp h d enough =
    Yields-bind ((parse_mrp_pdu-Wf fuel (remaining d.reader) is_msrp enough).runs d (omega arith))
      (λ r g. Yields-bind (check_messages-Yields is_msrp r.0.messages) (λ _ two.
        Yields-bind (emit_messages-Counted is_msrp r.0.messages 0 0 g.1 two (omega arith))
          (λ _ _. yielded tt)))

decode_gptp-Yields :
    (fuel : ℕ) (h : EthHeader) (d : Cursor)
    → remaining d.reader < fuel
    → Yields Any (decode_gptp fuel h d)
unfolding decode_gptp
decode_gptp-Yields fuel h d enough =
    Yields-bind ((parse_gptp-Any fuel (remaining d.reader) enough).runs d (omega arith))
      (λ _ _. yielded tt)

parse_avtp-Any : (b : ℕ) (p : Proto) (ctrl : AvtpCtrlHeader) → Reads b b Any (parse_avtp p ctrl)
unfolding parse_avtp
parse_avtp-Any b adp ctrl = parse_adp-Any b ctrl
parse_avtp-Any b aecp ctrl = parse_aecp-Any b ctrl
parse_avtp-Any b acmp ctrl = parse_acmp-Any b ctrl
parse_avtp-Any b maap ctrl = parse_maap-Any b ctrl
parse_avtp-Any b eth ctrl = pure-Any b tt
parse_avtp-Any b msrp ctrl = pure-Any b tt
parse_avtp-Any b mvrp ctrl = pure-Any b tt
parse_avtp-Any b gptp ctrl = pure-Any b tt

decode_avtp-Yields :
    (p : Proto) (ctrl : AvtpCtrlHeader) (h : EthHeader) (d : Cursor)
    → Yields Any (decode_avtp p ctrl h d)
unfolding decode_avtp
decode_avtp-Yields p ctrl h d =
    Yields-bind ((parse_avtp-Any (remaining d.reader) p ctrl).runs d (omega arith))
      (λ _ _. yielded tt)

-- A packet is decoded, or marked as not decoded and without contexts.
abbrev pub Clean : DecodedPacket → Type 0
Clean p =
    ((p.is_ok ≡ true) × (p.error ≡ none))
    ⊎ ((p.is_ok ≡ false) × ((p.interesting ≡ true) × (p.logic_ctxs ≡ [])))

pub record Gives (r : Result DecodedPacket) : Type 0 where
  pub packet : DecodedPacket
  pub given : r ≡ ok packet
  pub clean : Clean packet

finish-Gives :
    (p : DecodedPacket) (r : Result Contexts) → p.error ≡ none → Yields Any r → Gives (finish p r)
unfolding finish
finish-Gives p _ e (yielded {a} h) = record { packet = _; given = refl; clean = inl (refl, e) }
finish-Gives p _ e thrown = record { packet = _; given = refl; clean = inr (refl, (refl, refl)) }

after_ctrl-Gives :
    (h : EthHeader) (p : DecodedPacket) (r : Result (AvtpCtrlHeader × Cursor))
    → p.error ≡ none
    → Yields Any r
    → Gives (after_ctrl h p r)
unfolding after_ctrl
after_ctrl-Gives h p _ e (yielded {a} g) = known (proto_of a.0.subtype)
  where
    known :
        (q : Proto)
        → Gives (elim q [
          | eth ↦ finish p (ok [])
          | other ↦ finish (of_interest other p) (decode_avtp other a.0 h a.1)
        ])
    known eth = finish-Gives p _ e (yielded tt)
    known msrp = finish-Gives (of_interest msrp p) _ e (decode_avtp-Yields msrp a.0 h a.1)
    known mvrp = finish-Gives (of_interest mvrp p) _ e (decode_avtp-Yields mvrp a.0 h a.1)
    known maap = finish-Gives (of_interest maap p) _ e (decode_avtp-Yields maap a.0 h a.1)
    known adp = finish-Gives (of_interest adp p) _ e (decode_avtp-Yields adp a.0 h a.1)
    known aecp = finish-Gives (of_interest aecp p) _ e (decode_avtp-Yields aecp a.0 h a.1)
    known acmp = finish-Gives (of_interest acmp p) _ e (decode_avtp-Yields acmp a.0 h a.1)
    known gptp = finish-Gives (of_interest gptp p) _ e (decode_avtp-Yields gptp a.0 h a.1)
after_ctrl-Gives h p _ e thrown = finish-Gives p (throws _) e thrown

after_eth-Gives :
    (fuel : ℕ) (r : Result (EthHeader × Cursor))
    → Yields (λ a. remaining a.1.reader < fuel) r
    → Gives (after_eth fuel r)
unfolding after_eth
after_eth-Gives fuel _ (yielded {a} enough) =
    if_either Gives (a.0.etype == etype_msrp)
      (finish-Gives _ _ refl (decode_mrp-Yields fuel true a.0 a.1 enough))
      (if_either Gives (a.0.etype == etype_mvrp)
        (finish-Gives _ _ refl (decode_mrp-Yields fuel false a.0 a.1 enough))
        (if_either Gives (a.0.etype == etype_gptp)
          (finish-Gives _ _ refl (decode_gptp-Yields fuel a.0 a.1 enough))
          (if_either Gives (a.0.etype == etype_avtp)
            (after_ctrl-Gives a.0 _ _ refl (
              Yields-weaken ((parse_avtp_ctrl-Any (remaining a.1.reader)).runs a.1 (omega arith))
                (λ _ _. tt)))
            (finish-Gives _ _ refl (yielded tt)))))
after_eth-Gives fuel _ thrown = finish-Gives new_packet (throws _) refl thrown

-- Every frame is decoded to a packet: no loop runs out of its fuel, the frame's length, no byte outside a
-- span is read, and a packet that is not decoded is marked as an error and has no contexts.
pub decode_packet-Gives : (frame : List ℕ) → Gives (decode_packet frame)
unfolding decode_packet
decode_packet-Gives frame = after_eth-Gives (length frame) _ (
    Yields-weaken
      ((parse_eth-Reads (length frame) (length frame) (omega arith)).runs
        (record { reader = reader_of frame; ctx = empty_ctx }) (omega arith))
      (λ r g. omega (arith, g.0, g.1)))
