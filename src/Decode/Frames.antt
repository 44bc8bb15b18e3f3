-- ===== src/Decode/Frames.antt =====
-- A frame that is put together from the rows of fields of backend/src/decode/decode.cpp for ADP, ACMP and MAAP is
-- decoded to the values that were put in; Messages has the layout of the standards.
use avb_introspection.Base.{
  ℕ, ◌*◌, ◌<◌, ◌^◌, ◌≡◌, refl, true, none, List, [], ◌∷◌, ◌++◌, String, arith, length,
  length-append, All,
}
use avb_introspection.Context.{VarLayerContext, set_value}
use avb_introspection.Bytes.Words.{big_endian}
use avb_introspection.Decode.{
  service_of, parse_avtp, set_macs, decode_avtp, new_packet, finish, of_interest, after_ctrl,
  after_eth, decode_packet,
}
use avb_introspection.Decode.Types.{
  ok, bind, Cursor, reader_of, num, Item, read_items, Proto, adp, acmp, maap, LogicCtx,
  DecodedPacket,
}
use avb_introspection.Decode.Avtp.{
  EthHeader, etype_avtp, AvtpCtrlHeader, adp_items, parse_adp, acmp_items, parse_acmp, maap_items,
  parse_maap,
}
use avb_introspection.Decode.Declarations.{empty_ctx}
use avb_introspection.Decode.Layout.{
  Ahead, Goes, Goes-bind, num-Goes, encode_items, ItemsFit, write_items, read_items-encode_items,
}
use avb_introspection.Decode.Headers.{
  encode_tags, length-encode_tags, last_vlan, parse_eth-encode_tags, encode_ctrl, CtrlFits,
  parse_avtp_ctrl-encode_ctrl,
}

-- The protocols whose message is one row of fields, what its fields are, and how the control header's two
-- fields are called.
pub data Plain : Proto → Type 0 where
  plain_adp : Plain adp
  plain_acmp : Plain acmp
  plain_maap : Plain maap

abbrev pub items_of : {p : Proto} → Plain p → List Item
items_of plain_adp = adp_items
items_of plain_acmp = acmp_items
items_of plain_maap = maap_items

abbrev pub subtype_of : {p : Proto} → Plain p → ℕ
subtype_of plain_adp = 0xfa
subtype_of plain_acmp = 0xfc
subtype_of plain_maap = 0xfe

abbrev pub header_values :
    {p : Proto} → Plain p → AvtpCtrlHeader → VarLayerContext → VarLayerContext
header_values plain_adp h c =
    set_value (set_value c "message_type" h.msg_type) "valid_time" (h.status5 * 2)
header_values plain_acmp h c = set_value (set_value c "message_type" h.msg_type) "status" h.status5
header_values plain_maap h c =
    set_value (set_value c "message_type" h.msg_type) "maap_version" h.status5

-- What a sender puts into a frame: any number of VLAN tags, a value for each field, and padding.
pub record Sent : Type 0 where
  pub dst : ℕ
  pub src : ℕ
  pub tags : List ℕ
  pub ctrl : AvtpCtrlHeader
  pub fields : List ℕ
  pub padding : List ℕ

pub record SentFits {p : Proto} (kind : Plain p) (s : Sent) : Type 0 where
  pub macs : (s.dst < 2 ^ 48) × (s.src < 2 ^ 48)
  pub tags : All (λ tci. tci < 2 ^ 16) s.tags
  pub ctrl : CtrlFits s.ctrl
  pub subtype : s.ctrl.subtype ≡ subtype_of kind
  pub fields : ItemsFit (items_of kind) s.fields

abbrev pub message : {p : Proto} → Plain p → Sent → List ℕ
message kind s = encode_ctrl s.ctrl (encode_items (items_of kind) s.fields s.padding)

abbrev pub encode_frame : {p : Proto} → Plain p → Sent → List ℕ
encode_frame kind s =
    big_endian 6 s.dst ++ (big_endian 6 s.src ++ encode_tags s.tags etype_avtp (message kind s))

abbrev pub packet_of : {p : Proto} → Plain p → Sent → DecodedPacket
packet_of {p} kind s = record {
  src_mac = s.src;
  dst_mac = s.dst;
  proto = p;
  interesting = true;
  is_ok = true;
  error = none;
  logic_ctxs =
      record {
        service = service_of p;
        vars =
            set_value
              (set_value
                (write_items (items_of kind) s.fields (header_values kind s.ctrl empty_ctx))
                "src_mac" s.src)
              "dst_mac" s.dst;
      }
      ∷ [];
}

-- Two header values, and then the row of fields.
two_nums :
    (is : List Item) (name : String) (v : ℕ) (name' : String) (v' : ℕ) (vs ys : List ℕ) (d : Cursor)
    (c : VarLayerContext)
    → ItemsFit is vs
    → d.ctx ≡ c
    → Ahead d (encode_items is vs ys)
    → Goes
        (bind (num name v d) λ (_, d). bind (num name' v' d) λ (_, d). read_items is d)
        tt
        (write_items is vs (set_value (set_value c name v) name' v'))
        ys
two_nums is name v name' v' vs ys d c fit e a = Goes-bind _ (num-Goes name v d c _ e a) (λ d' e' a'.
    Goes-bind _ (num-Goes name' v' d' _ _ e' a')
      (λ d'' e'' a''. read_items-encode_items is vs ys d'' _ fit e'' a''))

parse_avtp-encode_items :
    {p : Proto} (kind : Plain p) (h : AvtpCtrlHeader) (vs ys : List ℕ) (d : Cursor)
    (c : VarLayerContext)
    → ItemsFit (items_of kind) vs
    → d.ctx ≡ c
    → Ahead d (encode_items (items_of kind) vs ys)
    → Goes (parse_avtp p h d) tt (write_items (items_of kind) vs (header_values kind h c)) ys
unfolding parse_avtp parse_adp parse_acmp parse_maap
parse_avtp-encode_items plain_adp h vs ys d c fit e a = two_nums _ _ _ _ _ vs ys d c fit e a
parse_avtp-encode_items plain_acmp h vs ys d c fit e a = two_nums _ _ _ _ _ vs ys d c fit e a
parse_avtp-encode_items plain_maap h vs ys d c fit e a = two_nums _ _ _ _ _ vs ys d c fit e a

abbrev header_of : Sent → EthHeader
header_of s = record { dst = s.dst; src = s.src; etype = etype_avtp; vlan = last_vlan s.tags none }

abbrev addressed : Sent → DecodedPacket
addressed s = record new_packet { src_mac = s.src; dst_mac = s.dst }

-- The context of a message, after the addresses.
abbrev context_of : {p : Proto} → Plain p → EthHeader → AvtpCtrlHeader → List ℕ → LogicCtx
context_of {p} kind h ctrl vs = record {
  service = service_of p;
  vars = set_macs h (write_items (items_of kind) vs (header_values kind ctrl empty_ctx));
}

decode_avtp-encode_items :
    {p : Proto} (kind : Plain p) (h : EthHeader) (ctrl : AvtpCtrlHeader) (vs ys : List ℕ)
    (d : Cursor)
    → ItemsFit (items_of kind) vs
    → d.ctx ≡ empty_ctx
    → Ahead d (encode_items (items_of kind) vs ys)
    → decode_avtp p ctrl h d ≡ ok (context_of kind h ctrl vs ∷ [])
unfolding decode_avtp
decode_avtp-encode_items {p} kind h ctrl vs ys d fit e a =
    let parsed = parse_avtp-encode_items kind ctrl vs ys d empty_ctx fit e a in
    rw (parsed.goes, parsed.vars) refl

after_ctrl-proto :
    {p : Proto} (kind : Plain p) (h : EthHeader) (q : DecodedPacket) (ctrl : AvtpCtrlHeader)
    (d : Cursor)
    → ctrl.subtype ≡ subtype_of kind
    → after_ctrl h q (ok (ctrl, d)) ≡ finish (of_interest p q) (decode_avtp p ctrl h d)
unfolding after_ctrl
after_ctrl-proto plain_adp h q ctrl d e = rw e refl
after_ctrl-proto plain_acmp h q ctrl d e = rw e refl
after_ctrl-proto plain_maap h q ctrl d e = rw e refl

enough : {p : Proto} (kind : Plain p) (s : Sent) → length s.tags < length (encode_frame kind s)
enough kind s = omega (
  arith,
  length-encode_tags s.tags etype_avtp (message kind s),
  length-append (big_endian 6 s.dst)
      (big_endian 6 s.src ++ encode_tags s.tags etype_avtp (message kind s)),
  length-append (big_endian 6 s.src) (encode_tags s.tags etype_avtp (message kind s)),
)

-- The frame for the decoder's own rows of fields.
pub decode_packet-encode_frame :
    {p : Proto} (kind : Plain p) (s : Sent)
    → SentFits kind s
    → decode_packet (encode_frame kind s) ≡ ok (packet_of kind s)
unfolding decode_packet after_eth finish
decode_packet-encode_frame kind s fit =
    let header =
      parse_eth-encode_tags s.tags (length (encode_frame kind s)) s.dst s.src etype_avtp _
        (record { reader = reader_of (encode_frame kind s); ctx = empty_ctx }) empty_ctx
        (enough kind s) fit.macs fit.tags (omega arith) refl refl (record { ahead = refl }) in
    let control =
      parse_avtp_ctrl-encode_ctrl s.ctrl _ header.after empty_ctx fit.ctrl header.vars
        header.rest in
    let contexts =
      decode_avtp-encode_items kind (header_of s) s.ctrl s.fields s.padding control.after fit.fields
        control.vars control.rest in
    rw
      (
        header.goes,
        control.goes,
        after_ctrl-proto kind (header_of s) (addressed s) s.ctrl control.after fit.subtype,
        contexts,
      )
      refl
