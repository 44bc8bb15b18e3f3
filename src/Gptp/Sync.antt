-- ===== src/Gptp/Sync.antt =====
-- The handlers of Sync and Follow_Up of `GptpLogic` in
-- backend/src/logic/gptp_logic.cpp.
use avb_introspection.Base.{
  ℕ, ◌%◌, ◌^◌, true, ◌&&◌, not, none, some, [], ◌∷◌, ltb, ◌==◌, if◌then◌else◌, Dict, find, insert,
  erase, length, nat_key,
}
use avb_introspection.Context.{VarLayerContext, at, ts_of, num_of}
use avb_introspection.Gptp.Types.{
  default_sync_interval, interval_from_log, healthy, sync_tag, is_follow_up_pending,
  follow_up_pending, idle, of_time_base, sent_sync, first_sync, sync_resumed, time_base_step,
}
use avb_introspection.Gptp.State.{Domain, Port, Out, World}
use avb_introspection.Gptp.Domains.{emit_dom, sync_transition}
use avb_introspection.Gptp.Ports.{count_up, demote}
use avb_introspection.Gptp.Access.{
  domain_at, in_domain, port_at, in_port, in_others, fields, become_master, settle,
}

abbrev pub low16 : VarLayerContext → ℕ
low16 v = at v "sequence_id" % 2 ^ 16

-- The least key, at which a `std::map` begins.
unfoldable pub least_key : ℕ → Dict ℕ ℕ → ℕ
least_key k [] = k
least_key k ((j, v) ∷ m) = least_key (if ltb j k then j else k) m

abbrev pub erase_first : Dict ℕ ℕ → Dict ℕ ℕ
erase_first [] = []
erase_first ((k, v) ∷ m) = erase (least_key k m) ((k, v) ∷ m)

-- `dom` is the domain's number and `key` the sender's port key.
module _ (v : VarLayerContext) (dom key : ℕ) where
  unfoldable pub sync_domain : Domain → Domain
  sync_domain d = record d {
    last_sync = some (ts_of v);
    last_gap = elim d.last_sync [ none ↦ d.last_gap | some prev ↦ some (prev, ts_of v) ];
    sync_interval = interval_from_log (at v "log_message_interval") default_sync_interval;
    sync_count = count_up d.sync_count;
    sync_sender = key;
    pending_syncs = if d.sync_sender == key then d.pending_syncs else [];
  }

  unfoldable pub sync_port : Port → Port
  sync_port p = record p { sync_sent = count_up p.sync_sent; last_sync_sent = some (ts_of v) }

  unfoldable pub sync_state_on_sync : Domain × Out → Domain × Out
  sync_state_on_sync (d, o) =
      if sync_tag d.sync_state == 0
      then sync_transition (ts_of v) (num_of v) healthy
          (first_sync (at v "sequence_id") d.sync_interval) (d, o)
      else if sync_tag d.sync_state == 2
      then sync_transition (ts_of v) (num_of v) healthy (sync_resumed d.last_gap) (d, o)
      else (d, o)

  unfoldable pub two_step_domain : Domain → Domain
  two_step_domain d =
      let pending = insert (low16 v) (ts_of v) d.pending_syncs in
      if at v "two_step" == 0 then d else record d {
        pending_syncs = if ltb 64 (length pending) then erase_first pending else pending;
      }

  unfoldable pub two_step_port : Port → Port
  two_step_port p =
      if not (at v "two_step" == 0)
      then record p { md_sync_send_state = follow_up_pending; pending_fu_seq = low16 v }
      else if is_follow_up_pending p.md_sync_send_state
      then p
      else record p { md_sync_send_state = idle }

  unfoldable pub driving_gm : Domain → Domain
  driving_gm d = record d {
    sync_sender_gm = elim (find key d.announcers) [ none ↦ 0 | some vec ↦ vec.gm_id ];
  }

  unfoldable pub demote_silent : World → World
  demote_silent w =
      in_others key
        (demote (port_at key w) dom (domain_at dom w).sync_interval (ts_of v) (num_of v)) w

  unfoldable pub on_sync : World → World
  on_sync w =
      let w1 = in_port key (fields sync_port) (in_domain dom (fields sync_domain) w) in
      let w2 = become_master key dom (ts_of v) (num_of v) (sent_sync (at v "sequence_id") dom) w1 in
      let w3 = in_domain dom sync_state_on_sync (demote_silent w2) in
      let w4 = in_port key (fields two_step_port) (in_domain dom (fields two_step_domain) w3) in
      in_domain dom (λ (d, o). settle (ts_of v) (driving_gm d, o)) w4

  unfoldable pub follow_up_port : Port → Port
  follow_up_port p =
      if is_follow_up_pending p.md_sync_send_state && (p.pending_fu_seq == low16 v)
      then record p { md_sync_send_state = idle }
      else p

  unfoldable pub match_follow_up : Domain → Domain
  match_follow_up d = elim (find (low16 v) d.pending_syncs) [
    | none ↦ record d { unmatched_follow_ups = count_up d.unmatched_follow_ups }
    | some ts ↦ record d {
      follow_up_count = count_up d.follow_up_count;
      pending_syncs = erase (low16 v) d.pending_syncs;
    }
  ]

  unfoldable pub follow_up_tlv : Domain × Out → Domain × Out
  follow_up_tlv (d, o) =
      let tbi = at v "gm_time_base_indicator" % 2 ^ 16 in
      let d' = record d { rate_offset = at v "cumulative_scaled_rate_offset" % 2 ^ 32 } in
      let (e, o') =
        (if d.have_time_base && not (tbi == d.gm_time_base_indicator)
          then emit_dom (ts_of v) (num_of v) (of_time_base d.gm_time_base_indicator)
              (of_time_base tbi) time_base_step (d', o)
          else (d', o)) in
      (record e { gm_time_base_indicator = tbi; have_time_base = true }, o')

  unfoldable pub follow_up_domain : Domain × Out → Domain × Out
  follow_up_domain (d, o) =
      if at v "has_as_tlv" == 0
      then (match_follow_up d, o)
      else follow_up_tlv (match_follow_up d, o)

  unfoldable pub on_follow_up : World → World
  on_follow_up w = in_domain dom follow_up_domain (in_port key (fields follow_up_port) w)
