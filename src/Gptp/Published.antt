-- ===== src/Gptp/Published.antt =====
-- What `GptpLogic` of backend/src/logic/gptp_logic.cpp publishes in the shared model is what its domains
-- observed.
use avb_introspection.Base.{
  ℕ, ◌≡◌, refl, inl, inr, Bool, true, false, ◌&&◌, List, [], ◌∷◌, arith, ◌==◌, ==_iff,
  if◌then◌else◌, Bool-cases, if_either, Dict, find_or, insert, find_or-insert, nat_key,
}
use avb_introspection.Context.{VarLayerContext}
use avb_introspection.Gptp.State.{Domain, new_domain, Out, World}
use avb_introspection.Gptp.Access.{domain_at, in_domain}
use avb_introspection.Gptp.Sync.{on_sync, on_follow_up}
use avb_introspection.Gptp.Announce.{on_announce}
use avb_introspection.Gptp.Tells.{truth_at, is_told, Tells}
use avb_introspection.Gptp.Untouched.{
  Same, Same-trans, in_port-Same, become_master-Same, demote_silent-Same, reception-Quiet,
  on_signaling-Same, on_pdelay_req-Same, on_pdelay_resp-Same, on_pdelay_resp_fu-Same,
  tick_ports-Same, tick_exchanges-Same,
}
use avb_introspection.Gptp.{
  tick_domains, on_time_tick, key_of, dispatch, on_decode, Call, decodes, ticks, step, run,
}
use avb_introspection.Gptp.Handlers.{
  sync_domain-Tells, sync_state_on_sync-Tells, two_step_domain-Tells, end_of_sync-Tells,
  follow_up_domain-Tells, announce_domain-Tells, gm_on_announce-Tells, trace_path-Tells,
  end_of_announce-Tells, tick_domain-Tells,
}

-- Every domain is told, but of domain `k` perhaps not the grandmaster.
record ToldBut (a : Bool) (k : ℕ) (w : World) : Type 0 where
  told : (b : ℕ) → is_told ((b == k) && a) (domain_at b w) (truth_at b w.out) ≡ true

pub record IsTold (w : World) : Type 0 where
  pub told : (b : ℕ) → is_told false (domain_at b w) (truth_at b w.out) ≡ true

in_domain-ToldBut :
    (a c : Bool) (k : ℕ) (op : Domain × Out → Domain × Out) (w : World)
    → Tells a c op
    → ToldBut a k w
    → ToldBut c k (in_domain k op w)
unfolding in_domain
in_domain-ToldBut a c k op w t h = record {
  told = λ b. elim (Bool-cases (b == k)) [
    | inl e ↦
        rw e (ground (arith, e, ==_iff b k, at_b b, t.own (domain_at k w, w.out) k refl own_before))
    | inr e ↦ ground (arith, e, at_b b, t.others (domain_at k w, w.out) b e, h.told b)
  ];
}
  where
    after : Domain × Out
    after = op (domain_at k w, w.out)

    own_before : is_told a (domain_at k w) (truth_at k w.out) ≡ true
    own_before = ground (arith, h.told k, ==_iff k k)

    at_b :
        (b : ℕ)
        → find_or new_domain b (insert k after.0 w.domains)
          ≡ (if b == k then after.0 else find_or new_domain b w.domains)
    at_b b = find_or-insert new_domain b k after.0 w.domains

Same-ToldBut : (a : Bool) (k : ℕ) {u w : World} → Same u w → ToldBut a k w → ToldBut a k u
Same-ToldBut a k same h = record { told = λ b. rw (same.domains, same.shared) (h.told b) }

IsTold-ToldBut : (k : ℕ) (w : World) → IsTold w → ToldBut false k w
IsTold-ToldBut k w h = record { told = λ b. ground (arith, h.told b) }

ToldBut-IsTold : (k : ℕ) (w : World) → ToldBut false k w → IsTold w
ToldBut-IsTold k w h = record { told = λ b. ground (arith, h.told b) }

on_sync-IsTold :
    (v : VarLayerContext) (dom key : ℕ) (w : World) → IsTold w → IsTold (on_sync v dom key w)
unfolding on_sync
on_sync-IsTold v dom key w h = ToldBut-IsTold dom _ (
    in_domain-ToldBut false false dom _ _ (end_of_sync-Tells v dom key) (
      Same-ToldBut false dom (in_port-Same key _ _ (λ s. refl)) (
        in_domain-ToldBut false false dom _ _ (two_step_domain-Tells v dom key) (
          in_domain-ToldBut false false dom _ _ (sync_state_on_sync-Tells v dom key) (
            Same-ToldBut false dom
              (Same-trans (demote_silent-Same v dom key _) (become_master-Same key dom _ _ _ _))
              (Same-ToldBut false dom (in_port-Same key _ _ (λ s. refl)) (
                in_domain-ToldBut false false dom _ w (sync_domain-Tells v dom key)
                  (IsTold-ToldBut dom w h))))))))

on_follow_up-IsTold :
    (v : VarLayerContext) (dom key : ℕ) (w : World) → IsTold w → IsTold (on_follow_up v dom key w)
unfolding on_follow_up
on_follow_up-IsTold v dom key w h = ToldBut-IsTold dom _ (
    in_domain-ToldBut false false dom _ _ (follow_up_domain-Tells v dom key)
      (Same-ToldBut false dom (in_port-Same key _ _ (λ s. refl)) (IsTold-ToldBut dom w h)))

on_announce-IsTold :
    (v : VarLayerContext) (dom key : ℕ) (w : World) → IsTold w → IsTold (on_announce v dom key w)
unfolding on_announce
on_announce-IsTold v dom key w h = ToldBut-IsTold dom _ (
    in_domain-ToldBut true false dom _ _ (end_of_announce-Tells v dom key _) (
      Same-ToldBut true dom (in_port-Same key _ _ (reception-Quiet v dom key)) (
        in_domain-ToldBut true true dom _ _ (trace_path-Tells v dom key) (
          in_domain-ToldBut false true dom _ _ (gm_on_announce-Tells v dom key _) (
            Same-ToldBut false dom
              (Same-trans (become_master-Same key dom _ _ _ _) (in_port-Same key _ _ (λ s. refl)))
              (in_domain-ToldBut false false dom _ w (announce_domain-Tells v dom key)
                (IsTold-ToldBut dom w h)))))))

Same-IsTold : {u w : World} → Same u w → IsTold w → IsTold u
Same-IsTold same h = record { told = λ b. rw (same.domains, same.shared) (h.told b) }

dispatch-IsTold : (v : VarLayerContext) (msg : ℕ) (w : World) → IsTold w → IsTold (dispatch v msg w)
unfolding dispatch
dispatch-IsTold v msg w h = if_either IsTold (msg == 0) (on_sync-IsTold v _ _ w h) (
    if_either IsTold (msg == 8) (on_follow_up-IsTold v _ _ w h) (
      if_either IsTold (msg == 2) (Same-IsTold (on_pdelay_req-Same v _ w) h) (
        if_either IsTold (msg == 3) (Same-IsTold (on_pdelay_resp-Same v _ w) h) (
          if_either IsTold (msg == 10) (Same-IsTold (on_pdelay_resp_fu-Same v _ w) h) (
            if_either IsTold (msg == 11) (on_announce-IsTold v _ _ w h)
              (if_either IsTold (msg == 12) (Same-IsTold (on_signaling-Same v _ _ w) h) h))))))

on_decode-IsTold : (v : VarLayerContext) (w : World) → IsTold w → IsTold (on_decode v w)
unfolding on_decode
on_decode-IsTold v w h =
    dispatch-IsTold v _ _ (Same-IsTold (in_port-Same (key_of v) _ w (λ s. refl)) h)

tick_domains-IsTold :
    (ts : ℕ) (m : Dict ℕ Domain) (w : World) → IsTold w → IsTold (tick_domains ts m w)
unfolding tick_domains
tick_domains-IsTold ts [] w h = h
tick_domains-IsTold ts ((num, d) ∷ m) w h = tick_domains-IsTold ts m _ (
    ToldBut-IsTold num _
      (in_domain-ToldBut false false num _ w (tick_domain-Tells ts) (IsTold-ToldBut num w h)))

on_time_tick-IsTold : (ts : ℕ) (w : World) → IsTold w → IsTold (on_time_tick ts w)
unfolding on_time_tick
on_time_tick-IsTold ts w h =
    Same-IsTold (Same-trans (tick_exchanges-Same ts _) (tick_ports-Same ts _))
      (tick_domains-IsTold ts w.domains w h)

step-IsTold : (w : World) (c : Call) → IsTold w → IsTold (step w c)
unfolding step
step-IsTold w (decodes v) h = on_decode-IsTold v w h
step-IsTold w (ticks ts) h = on_time_tick-IsTold ts w h

-- Any decoded messages and time ticks keep gPTP's part of the shared model true: of each domain it has the
-- sync state that the domain has, and, when the domain knows a grandmaster, that grandmaster as known.
pub run_keeps-IsTold : (w : World) (cs : List Call) → IsTold w → IsTold (run w cs)
unfolding run
run_keeps-IsTold w [] h = h
run_keeps-IsTold w (c ∷ cs) h = run_keeps-IsTold (step w c) cs (step-IsTold w c h)
