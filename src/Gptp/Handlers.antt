-- ===== src/Gptp/Handlers.antt =====
-- What the handlers of `GptpLogic` in backend/src/logic/gptp_logic.cpp do to a domain, by what the shared
-- model says of it.
use avb_introspection.Base.{
  ℕ, ◌*◌, ◌%◌, ◌^◌, refl, Bool, true, false, not, ◌&&◌, Option, none, arith, ◌==◌, find, nat_key,
}
use avb_introspection.Context.{VarLayerContext, at, ts_of, num_of, get_bytes}
use avb_introspection.Shared.{name_of}
use avb_introspection.Gptp.Types.{
  Why, no_announce, of_gm_id, reselected, announce_resumed, overdue, sync_timeout_n,
  announce_timeout_n, gm_present, gm_timed_out, gm_tag, healthy, lost, sync_tag,
}
use avb_introspection.Gptp.State.{AnnVec, Domain, Out}
use avb_introspection.Gptp.Domains.{age_out, best_of, eval_bmca, emit_dom, dom_transition}
use avb_introspection.Gptp.Access.{fields, settle}
use avb_introspection.Gptp.Sync.{
  low16, sync_domain, sync_state_on_sync, two_step_domain, driving_gm, follow_up_domain,
  match_follow_up, follow_up_tlv,
}
use avb_introspection.Gptp.Announce.{
  announce_domain, set_gm_attrs, gm_on_announce, trace_path, note_announcer,
}
use avb_introspection.Gptp.Tells.{
  Tells, publish-Tells, still-Tells, regm-Tells, Tells-then, Tells-if, idle-Tells, spare,
  dom_transition-Tells, sync_transition-Tells,
}
use avb_introspection.Gptp.{tick_sync, tick_gm, tick_domain}

eval_bmca-Tells : (a : Bool) (ts : ℕ) → Tells a a (fields (eval_bmca ts))
unfolding eval_bmca
eval_bmca-Tells a ts = still-Tells a (fields (eval_bmca ts)) (λ (d, o).
    let best = best_of none (age_out ts d.announcers) in
    let sender = find d.sync_sender (age_out ts d.announcers) in
    (
      ground (arith, best, sender),
      (ground (arith, best, sender), (ground (arith, best, sender), refl)),
    ))

settle-Tells : (a : Bool) (ts : ℕ) → Tells true a (settle ts)
unfolding settle
settle-Tells a ts = Tells-then (eval_bmca-Tells true ts) (publish-Tells a)

-- `v` is the message, `dom` its domain and `key` its sender's port key.
module _ (v : VarLayerContext) (dom key : ℕ) where
  pub sync_domain-Tells : Tells false false (fields (sync_domain v dom key))
  unfolding sync_domain
  sync_domain-Tells =
      still-Tells false (fields (sync_domain v dom key)) (λ s. (refl, (refl, (refl, refl))))

  pub sync_state_on_sync-Tells : Tells false false (sync_state_on_sync v dom key)
  unfolding sync_state_on_sync
  sync_state_on_sync-Tells =
      Tells-if (λ s. sync_tag s.0.sync_state == 0)
        (sync_transition-Tells false (ts_of v) (num_of v) healthy _ refl)
        (Tells-if (λ s. sync_tag s.0.sync_state == 2)
          (sync_transition-Tells false (ts_of v) (num_of v) healthy _ refl) (idle-Tells false))

  pub two_step_domain-Tells : Tells false false (fields (two_step_domain v dom key))
  unfolding two_step_domain
  two_step_domain-Tells =
      still-Tells false (fields (two_step_domain v dom key))
        (λ (d, o). (ground arith, (ground arith, (ground arith, refl))))

  pub end_of_sync-Tells : Tells false false (λ (d, o). settle (ts_of v) (driving_gm v dom key d, o))
  unfolding driving_gm
  end_of_sync-Tells =
      Tells-then
        (still-Tells false (fields (driving_gm v dom key)) (λ s. (refl, (refl, (refl, refl)))))
        (spare (settle-Tells false (ts_of v)))

  pub follow_up_domain-Tells : Tells false false (follow_up_domain v dom key)
  unfolding follow_up_domain match_follow_up follow_up_tlv emit_dom
  follow_up_domain-Tells = still-Tells false (follow_up_domain v dom key) (λ (d, o).
      let waits = find (low16 v) d.pending_syncs in
      (
        ground (arith, waits),
        (ground (arith, waits), (ground (arith, waits), ground (arith, waits))),
      ))

  pub announce_domain-Tells : Tells false false (fields (announce_domain v dom key))
  unfolding announce_domain
  announce_domain-Tells =
      still-Tells false (fields (announce_domain v dom key)) (λ s. (refl, (refl, (refl, refl))))

  -- What an Announce that changes nothing else does to the grandmaster.
  set_gm_attrs-Tells : Tells false true (fields (set_gm_attrs v dom key))
  unfolding set_gm_attrs
  set_gm_attrs-Tells =
      regm-Tells false (fields (set_gm_attrs v dom key)) (λ s. (refl, (refl, refl)))

  appears-Tells :
      (why : Why)
      → Tells false true (λ (d, o).
        dom_transition (ts_of v) (num_of v) gm_present why (set_gm_attrs v dom key d, o))
  appears-Tells why =
      Tells-then set_gm_attrs-Tells
        (dom_transition-Tells true (ts_of v) (num_of v) gm_present (λ _. why))

  reselect : Domain × Out → Domain × Out
  reselect (d, o) =
      emit_dom (ts_of v) (num_of v) (of_gm_id d.gm_id) (of_gm_id (at v "gm_identity"))
        (reselected (at v "gm_priority1" % 2 ^ 8) d.p1 (name_of (at v "gm_identity") o.shared))
        (set_gm_attrs v dom key d, o)

  reselect-Tells : Tells false true reselect
  unfolding reselect emit_dom set_gm_attrs
  reselect-Tells = regm-Tells false reselect (λ s. (refl, (refl, refl)))

  pub gm_on_announce-Tells :
      (before : Option ℕ) → Tells false true (gm_on_announce v dom key before)
  unfolding gm_on_announce reselect
  gm_on_announce-Tells before =
      Tells-if (λ s. gm_tag s.0.gm_state == 0) (appears-Tells _)
        (Tells-if (λ s. gm_tag s.0.gm_state == 2)
          (appears-Tells (announce_resumed (ts_of v) before))
          (Tells-if (λ s. not (s.0.gm_id == at v "gm_identity")) reselect-Tells set_gm_attrs-Tells))

  pub trace_path-Tells : Tells true true (fields (trace_path v dom key))
  unfolding trace_path
  trace_path-Tells = still-Tells true (fields (trace_path v dom key)) (λ (d, o).
      let trace = get_bytes v "path_trace" in
      (ground (arith, trace), (ground (arith, trace), (ground (arith, trace), refl))))

  pub end_of_announce-Tells :
      (vec : AnnVec)
      → Tells true false (λ (d, o). settle (ts_of v) (note_announcer v dom key vec d, o))
  unfolding note_announcer
  end_of_announce-Tells vec =
      Tells-then
        (still-Tells true (fields (note_announcer v dom key vec))
          (λ (d, o). (ground arith, (ground arith, (ground arith, refl)))))
        (settle-Tells false (ts_of v))

pub tick_domain-Tells : (ts : ℕ) → Tells false false (tick_domain ts)
unfolding tick_domain tick_sync tick_gm
tick_domain-Tells ts =
    Tells-then
      (Tells-then
        (Tells-if
          (λ s.
            (sync_tag s.0.sync_state == 1)
            && overdue ts s.0.last_sync (sync_timeout_n * s.0.sync_interval))
          (sync_transition-Tells false ts 0 lost _ refl) (idle-Tells false))
        (eval_bmca-Tells false ts))
      (Tells-if
        (λ s.
          (gm_tag s.0.gm_state == 1)
          && overdue ts s.0.last_announce (announce_timeout_n * s.0.announce_interval))
        (dom_transition-Tells false ts 0 gm_timed_out (λ _. no_announce)) (idle-Tells false))
