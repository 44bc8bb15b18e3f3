-- ===== src/Gptp.antt =====
-- gPTP domains, ports and peer delay exchanges: `GptpLogic` of backend/src/logic/gptp_logic.cpp.
-- `on_decode` is `onDecode`, `on_time_tick` is `onTimeTick`; `World` holds the class's maps, the shared
-- model and the transitions not yet drained. Times are nanoseconds, -1 s is `none`. A shared model is
-- always attached, as the engine does. Reports of one loop come in the order of the association list.
pub mod Types
pub mod State
pub mod Domains
pub mod Ports
pub mod Access
pub mod Sync
pub mod Announce
pub mod Pdelay
pub mod Bmca
pub mod Overdue
pub mod Untouched
pub mod Tells
pub mod Handlers
pub mod Published
pub mod Capable
pub mod Sound
mod Tests
use avb_introspection.Base.{
  ℕ, ◌+◌, ◌*◌, ◌/◌, ◌%◌, ◌^◌, ◌&&◌, List, [], ◌∷◌, ◌==◌, if◌then◌else◌, Dict, length, for_values,
}
use avb_introspection.Context.{VarLayerContext, at}
use avb_introspection.Gptp.Types.{
  second, sync_timeout_n, announce_timeout_n, gptp_capable_timeout_n, overdue, gm_tag, gm_timed_out,
  sync_tag, lost, received, aged, gptp_capable, capable_timed_out, tag, no_sync, no_announce,
  no_capable_tlv, port_aged,
}
use avb_introspection.Gptp.State.{Domain, Port, Out, World, port_key}
use avb_introspection.Gptp.Domains.{dom_transition, sync_transition, eval_bmca}
use avb_introspection.Gptp.Ports.{is_set, announce_field, gptp_field, port_transition}
use avb_introspection.Gptp.Access.{in_domain, in_port, fields}
use avb_introspection.Gptp.Sync.{on_sync, on_follow_up}
use avb_introspection.Gptp.Announce.{on_announce, on_signaling}
use avb_introspection.Gptp.Pdelay.{on_pdelay_req, on_pdelay_resp, on_pdelay_resp_fu, expire}

module _ (v : VarLayerContext) where
  abbrev pub dom_of : ℕ
  dom_of = at v "domain_number" % 2 ^ 8

  abbrev pub port_num_of : ℕ
  port_num_of = at v "source_port_number" % 2 ^ 16

  abbrev pub key_of : ℕ
  key_of = port_key (at v "source_clock_id") port_num_of

  -- `getPort` and the two fields set after it; CMLDS messages leave the domain.
  unfoldable pub arrive : Port → Port
  arrive p = record p {
    clock_id = at v "source_clock_id";
    port_num = port_num_of;
    src_mac = at v "src_mac";
    domain = if at v "transport_specific" == 2 then p.domain else dom_of;
  }

  -- The `switch` of `onDecode`.
  unfoldable pub dispatch : ℕ → World → World
  dispatch msg w =
      if msg == 0
      then on_sync v dom_of key_of w
      else if msg == 8
      then on_follow_up v dom_of key_of w
      else if msg == 2
      then on_pdelay_req v key_of w
      else if msg == 3
      then on_pdelay_resp v key_of w
      else if msg == 10
      then on_pdelay_resp_fu v key_of w
      else if msg == 11
      then on_announce v dom_of key_of w
      else if msg == 12
      then on_signaling v dom_of key_of w
      else w

  unfoldable pub on_decode : World → World
  on_decode w = dispatch (at v "message_type" % 2 ^ 8) (in_port key_of (fields arrive) w)

module _ (ts : ℕ) where
  unfoldable pub tick_sync : Domain × Out → Domain × Out
  tick_sync (d, o) =
      if (sync_tag d.sync_state == 1) && overdue ts d.last_sync (sync_timeout_n * d.sync_interval)
      then sync_transition ts 0 lost
          (no_sync d.last_sync ts d.sync_interval (length o.shared.established_streams)) (d, o)
      else (d, o)

  unfoldable pub tick_gm : Domain × Out → Domain × Out
  tick_gm (d, o) =
      if (gm_tag d.gm_state == 1)
        && overdue ts d.last_announce (announce_timeout_n * d.announce_interval)
      then dom_transition ts 0 gm_timed_out no_announce (d, o)
      else (d, o)

  unfoldable pub tick_domain : Domain × Out → Domain × Out
  tick_domain s = let (d, o) = tick_sync s in tick_gm (eval_bmca ts d, o)

  -- The loop over the domains, by their numbers, which `getDomain` has written in them.
  unfoldable pub tick_domains : Dict ℕ Domain → World → World
  tick_domains [] w = w
  tick_domains ((num, d) ∷ m) w = tick_domains m (in_domain num tick_domain w)

  unfoldable pub tick_announce : Port × Out → Port × Out
  tick_announce (p, o) =
      if (tag p.announce_state == tag received)
        && (is_set p.last_announce
            && overdue ts p.last_announce (announce_timeout_n * p.announce_interval + second / 2))
      then port_transition announce_field ts 0 received aged port_aged (p, o)
      else (p, o)

  unfoldable pub tick_capable : Port × Out → Port × Out
  tick_capable (p, o) =
      if (tag p.gptp_capable_state == tag gptp_capable)
        && overdue ts p.last_capable (gptp_capable_timeout_n * p.capable_interval)
      then port_transition gptp_field ts 0 gptp_capable capable_timed_out no_capable_tlv (p, o)
      else (p, o)

  unfoldable pub tick_port : Port → Out → Port × Out
  tick_port p o = tick_capable (tick_announce (p, o))

  unfoldable pub tick_ports : World → World
  tick_ports w =
      let (ps, o) = for_values tick_port w.ports w.out in record w { ports = ps; out = o }

  unfoldable pub tick_exchanges : World → World
  tick_exchanges w =
      let (es, (ps, o)) = expire ts w.exchanges (w.ports, w.out) in
      record w { exchanges = es; ports = ps; out = o }

  unfoldable pub on_time_tick : World → World
  on_time_tick w = tick_exchanges (tick_ports (tick_domains w.domains w))

-- A message to gPTP, or a time tick.
pub data Call : Type 0 where
  decodes : VarLayerContext → Call
  ticks : ℕ → Call

unfoldable pub step : World → Call → World
step w (decodes v) = on_decode v w
step w (ticks ts) = on_time_tick ts w

unfoldable pub run : World → List Call → World
run w [] = w
run w (c ∷ cs) = run (step w c) cs
