-- ===== src/Decode/Headers.antt =====
-- The Ethernet header with its VLAN tags and the AVTP control header of backend/src/decode/decode.cpp, read
-- back from their bytes.
use avb_introspection.Base.{
  ℕ, zero, suc, ◌+◌, ◌*◌, ◌/◌, ◌%◌, ◌<◌, ◌^◌, ◌≡◌, refl, false, ◌||◌, Option, none, some, List, [],
  ◌∷◌, ◌++◌, arith, ◌==◌, length, length-append, All,
}
use avb_introspection.Context.{VarLayerContext}
use avb_introspection.Bytes.Words.{big_endian, length-big_endian}
use avb_introspection.Decode.Types.{Cursor, Parser, ◌>>=◌, read}
use avb_introspection.Decode.Avtp.{
  EthHeader, etype_vlan, etype_qinq, vlan_tags, parse_eth, AvtpCtrlHeader, parse_avtp_ctrl,
}
use avb_introspection.Decode.Layout.{Ahead, Goes, Goes-bind, read-big_endian-Goes}

-- VLAN tags, and then the type of the frame.
unfoldable pub encode_tags : List ℕ → ℕ → List ℕ → List ℕ
encode_tags [] etype ys = big_endian 2 etype ++ ys
encode_tags (tci ∷ tcis) etype ys =
    big_endian 2 0x8100 ++ (big_endian 2 tci ++ encode_tags tcis etype ys)

unfoldable pub last_vlan : List ℕ → Option ℕ → Option ℕ
last_vlan [] vlan = vlan
last_vlan (tci ∷ tcis) vlan = last_vlan tcis (some (tci % 4096))

after_vlan : ℕ → EthHeader → Parser EthHeader
after_vlan fuel h = do etype ← read 2 "ethertype"; vlan_tags fuel (record h { etype = etype })

-- The loop over the tags, from before the type that it looks at.
vlan_tags-encode_tags :
    (tcis : List ℕ) (fuel etype : ℕ) (h : EthHeader) (ys : List ℕ) (d : Cursor)
    (c : VarLayerContext)
    → length tcis < fuel
    → All (λ tci. tci < 2 ^ 16) tcis
    → etype < 2 ^ 16
    → ((etype == etype_vlan) || (etype == etype_qinq)) ≡ false
    → d.ctx ≡ c
    → Ahead d (encode_tags tcis etype ys)
    → Goes (after_vlan fuel h d) (record h { etype = etype; vlan = last_vlan tcis h.vlan }) c ys
unfolding after_vlan vlan_tags encode_tags last_vlan
vlan_tags-encode_tags [] (suc fuel) etype h ys d c enough small fits plain e a =
    Goes-bind _ (read-big_endian-Goes 2 etype "ethertype" d c ys fits (omega (arith, fits)) e a)
      (λ d' e' a'. rw (plain, vlan_tags) (record { after = d'; goes = refl; vars = e'; rest = a' }))
vlan_tags-encode_tags (tci ∷ tcis) (suc fuel) etype h ys d c enough small fits plain e a =
    Goes-bind _ (read-big_endian-Goes 2 0x8100 "ethertype" d c _ (omega arith) (omega arith) e a)
      (λ d' e' a'.
        Goes-bind _
          (read-big_endian-Goes 2 tci "802.1Q TCI" d' c _ small.0 (omega (arith, small.0)) e' a')
          (λ d'' e'' a''.
            vlan_tags-encode_tags tcis fuel etype (record h { vlan = some (tci % 4096) }) ys d'' c
              (omega (arith, enough)) small.1 fits plain e'' a''))
vlan_tags-encode_tags [] zero etype h ys d c enough small fits plain e a =
    absurd (omega (arith, enough))
vlan_tags-encode_tags (tci ∷ tcis) zero etype h ys d c enough small fits plain e a =
    absurd (omega (arith, enough))

pub parse_eth-encode_tags :
    (tcis : List ℕ) (fuel dst src etype : ℕ) (ys : List ℕ) (d : Cursor) (c : VarLayerContext)
    → length tcis < fuel
    → (dst < 2 ^ 48) × (src < 2 ^ 48)
    → All (λ tci. tci < 2 ^ 16) tcis
    → etype < 2 ^ 16
    → ((etype == etype_vlan) || (etype == etype_qinq)) ≡ false
    → d.ctx ≡ c
    → Ahead d (big_endian 6 dst ++ (big_endian 6 src ++ encode_tags tcis etype ys))
    → Goes
        (parse_eth fuel d)
        (record { dst = dst; src = src; etype = etype; vlan = last_vlan tcis none })
        c
        ys
unfolding parse_eth after_vlan
parse_eth-encode_tags tcis fuel dst src etype ys d c enough (small_dst, small_src) small fits plain
      e a =
    Goes-bind _
      (read-big_endian-Goes 6 dst "ethernet dst" d c _ (omega (arith, small_dst))
        (omega (arith, small_dst)) e a)
      (λ d' e' a'.
        Goes-bind _
          (read-big_endian-Goes 6 src "ethernet src" d' c _ (omega (arith, small_src))
            (omega (arith, small_src)) e' a')
          (λ d'' e'' a''.
            vlan_tags-encode_tags tcis fuel etype
              (record { dst = dst; src = src; etype = 0; vlan = none }) ys d'' c enough small fits
              plain e'' a''))

abbrev pub control_byte : AvtpCtrlHeader → ℕ
control_byte h = h.sv * 128 + h.version * 16 + h.msg_type

-- The control header of AVTP, and then other bytes.
unfoldable pub encode_ctrl : AvtpCtrlHeader → List ℕ → List ℕ
encode_ctrl h ys =
    big_endian 1 h.subtype
    ++ (big_endian 1 (control_byte h) ++ (big_endian 2 (h.status5 * 2048 + h.cdl) ++ ys))

pub record CtrlFits (h : AvtpCtrlHeader) : Type 0 where
  pub subtype : h.subtype < 256
  pub sv : h.sv < 2
  pub version : h.version < 8
  pub msg_type : h.msg_type < 16
  pub status5 : h.status5 < 32
  pub cdl : h.cdl < 2048

module _ (h : AvtpCtrlHeader) (fit : CtrlFits h) where
  sv_of : control_byte h / 128 ≡ h.sv
  sv_of = omega (arith, fit.version, fit.msg_type)

  version_of : control_byte h / 16 % 8 ≡ h.version
  version_of = omega (arith, fit.version, fit.msg_type)

  msg_type_of : control_byte h % 16 ≡ h.msg_type
  msg_type_of = omega (arith, fit.msg_type)

  status5_of : (h.status5 * 2048 + h.cdl) / 2048 ≡ h.status5
  status5_of = omega (arith, fit.cdl)

  cdl_of : (h.status5 * 2048 + h.cdl) % 2048 ≡ h.cdl
  cdl_of = omega (arith, fit.cdl)

pub parse_avtp_ctrl-encode_ctrl :
    (h : AvtpCtrlHeader) (ys : List ℕ) (d : Cursor) (c : VarLayerContext)
    → CtrlFits h
    → d.ctx ≡ c
    → Ahead d (encode_ctrl h ys)
    → Goes (parse_avtp_ctrl d) h c ys
unfolding parse_avtp_ctrl encode_ctrl
parse_avtp_ctrl-encode_ctrl h ys d c fit e a =
    Goes-bind _
      (read-big_endian-Goes 1 h.subtype "AVTP subtype" d c _ (omega (arith, fit.subtype))
        (omega (arith, fit.subtype)) e a)
      (λ d' e' a'.
        Goes-bind _
          (read-big_endian-Goes 1 (control_byte h) "AVTP control byte" d' c _
            (omega (arith, fit.sv, fit.version, fit.msg_type))
            (omega (arith, fit.sv, fit.version, fit.msg_type)) e' a')
          (λ d'' e'' a''.
            Goes-bind _
              (read-big_endian-Goes 2 (h.status5 * 2048 + h.cdl) "status/control_data_length" d'' c
                _ (omega (arith, fit.status5, fit.cdl)) (omega (arith, fit.status5, fit.cdl)) e''
                a'')
              (λ d₃ e₃ a₃. record {
                after = d₃;
                goes =
                    rw
                      (
                        sv_of h fit,
                        version_of h fit,
                        msg_type_of h fit,
                        status5_of h fit,
                        cdl_of h fit,
                      )
                      refl;
                vars = e₃;
                rest = a₃;
              })))

-- Each tag takes bytes of the frame.
pub length-encode_tags :
    (tcis : List ℕ) (etype : ℕ) (ys : List ℕ) → length tcis < length (encode_tags tcis etype ys)
unfolding encode_tags
length-encode_tags [] etype ys =
    omega (arith, length-append (big_endian 2 etype) ys, length-big_endian 2 etype)
length-encode_tags (tci ∷ tcis) etype ys = omega (
  arith,
  length-encode_tags tcis etype ys,
  length-append (big_endian 2 0x8100) (big_endian 2 tci ++ encode_tags tcis etype ys),
  length-append (big_endian 2 tci) (encode_tags tcis etype ys),
  length-big_endian 2 0x8100,
)
