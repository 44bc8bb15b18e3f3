-- ===== src/Decode/Total.antt =====
-- The Ethernet and AVTP decoders of backend/src/decode/decode.cpp come to an end on any frame.
use avb_introspection.Base.{ℕ, zero, suc, ◌-◌, ◌≤◌, ◌<◌, Bool, ◌||◌, arith, ◌==◌}
use avb_introspection.Decode.Avtp.{
  etype_vlan, etype_qinq, EthHeader, vlan_tags, parse_eth, AvtpCtrlHeader, parse_avtp_ctrl,
  parse_adp, entity_tail, parse_entity, parse_descriptor, parse_lock, parse_name, parse_aem_payload,
  parse_aem, parse_aecp, parse_acmp, parse_maap,
}
use avb_introspection.Decode.Reads.{
  Reads, Any, Reads-elim, read-then, pure-Any, Reads-then, Reads-less, Reads-weaken, read-Reads,
  read-Any, reads,
}

pub parse_avtp_ctrl-Any : (b : ℕ) → Reads b b Any parse_avtp_ctrl
unfolding parse_avtp_ctrl
parse_avtp_ctrl-Any b = search (reads) depth 40

pub parse_adp-Any : (b : ℕ) (h : AvtpCtrlHeader) → Reads b b Any (parse_adp h)
unfolding parse_adp
parse_adp-Any b h = search (reads) depth 40

entity_tail-Any : (b : ℕ) → Reads b b Any entity_tail
unfolding entity_tail
entity_tail-Any b = search (reads) depth 40

parse_entity-Any : (b : ℕ) → Reads b b Any parse_entity
unfolding parse_entity
parse_entity-Any b = search (reads, entity_tail-Any) depth 40

parse_descriptor-Any : (b : ℕ) (t : Bool) → Reads b b Any (parse_descriptor t)
unfolding parse_descriptor
parse_descriptor-Any b t = search (reads, parse_entity-Any) depth 40

parse_lock-Any : (b : ℕ) (cmd : ℕ) → Reads b b Any (parse_lock cmd)
unfolding parse_lock
parse_lock-Any b cmd = search (reads) depth 40

parse_name-Any : (b : ℕ) (t : Bool) → Reads b b Any (parse_name t)
unfolding parse_name
parse_name-Any b t = search (reads) depth 40

parse_aem_payload-Any : (b : ℕ) (m cmd : ℕ) → Reads b b Any (parse_aem_payload m cmd)
unfolding parse_aem_payload
parse_aem_payload-Any b m cmd =
    search (reads, parse_descriptor-Any, parse_lock-Any, parse_name-Any) depth 40

parse_aem-Any : (b : ℕ) (m : ℕ) → Reads b b Any (parse_aem m)
unfolding parse_aem
parse_aem-Any b m = search (reads, parse_aem_payload-Any) depth 40

pub parse_aecp-Any : (b : ℕ) (h : AvtpCtrlHeader) → Reads b b Any (parse_aecp h)
unfolding parse_aecp
parse_aecp-Any b h = search (reads, parse_aem-Any) depth 40

pub parse_acmp-Any : (b : ℕ) (h : AvtpCtrlHeader) → Reads b b Any (parse_acmp h)
unfolding parse_acmp
parse_acmp-Any b h = search (reads) depth 40

pub parse_maap-Any : (b : ℕ) (h : AvtpCtrlHeader) → Reads b b Any (parse_maap h)
unfolding parse_maap
parse_maap-Any b h = search (reads) depth 40

pub vlan_tags-Any : (fuel b : ℕ) (h : EthHeader) → b < fuel → Reads b b Any (vlan_tags fuel h)
unfolding vlan_tags
vlan_tags-Any zero b h enough = absurd (omega (arith, enough))
vlan_tags-Any (suc fuel) b h enough =
    Reads-elim ((h.etype == etype_vlan) || (h.etype == etype_qinq))
      (λ _. read-then 2 _ (λ room tci. Reads-then (read-Reads _ 2 _) (λ etype _.
        Reads-less (omega (arith, room))
          (vlan_tags-Any fuel (b - 2 - 2) _ (omega (arith, enough, room))))))
      (λ _. pure-Any b h)

-- The header takes some of the frame, so that the frame's length is enough fuel for what follows.
pub parse_eth-Reads : (fuel b : ℕ) → b ≤ fuel → Reads b (b - 1) (λ _. 1 ≤ b) (parse_eth fuel)
unfolding parse_eth
parse_eth-Reads fuel b enough = read-then 6 "ethernet dst" (λ room dst.
    Reads-then (read-Any _ 6 _) (λ src _. Reads-then (read-Any _ 2 _) (λ etype _.
      Reads-weaken (omega arith) (λ _ _. omega (arith, room))
        (vlan_tags-Any fuel (b - 6) _ (omega (arith, enough, room))))))
