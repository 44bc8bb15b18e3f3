-- ===== src/Gptp/Untouched.antt =====
-- What the operations on ports and on exchanges of `GptpLogic` in backend/src/logic/gptp_logic.cpp leave
-- alone: the domains and the shared model.
use avb_introspection.Base.{
  ℕ, ◌≡◌, refl, ◌∙◌, inl, inr, [], ◌∷◌, arith, ◌==◌, Bool-cases, Option-cases, Dict, find,
  for_values, nat_key, ◌&&◌,
}
use avb_introspection.Context.{VarLayerContext, ts_of}
use avb_introspection.Gptp.Types.{PortState, Why}
use avb_introspection.Gptp.State.{Port, Exchange, Out, World}
use avb_introspection.Gptp.Ports.{
  Field, port_transition, port_warning, pdelay_lost, for_others, infer_slave, demote,
}
use avb_introspection.Gptp.Access.{in_port, in_port_if_found, in_others, become_master}
use avb_introspection.Gptp.Sync.{demote_silent}
use avb_introspection.Gptp.Announce.{reception, on_capable_tlv, on_signaling}
use avb_introspection.Gptp.Pdelay.{
  give_up_previous, on_pdelay_req, match_resp, on_pdelay_resp, complete, warn_if_slow,
  match_resp_fu, on_pdelay_resp_fu, is_slow, turnaround, lose, expire, has_expired, req_key, seq_of,
}
use avb_introspection.Gptp.{tick_port, tick_announce, tick_capable, tick_ports, tick_exchanges}

pub record Same (after before : World) : Type 0 where
  pub domains : after.domains ≡ before.domains
  pub shared : after.out.shared ≡ before.out.shared

pub Same-refl : (w : World) → Same w w
Same-refl w = record { domains = refl; shared = refl }

pub Same-trans : {a b c : World} → Same a b → Same b c → Same a c
Same-trans p q = record { domains = p.domains ∙ q.domains; shared = p.shared ∙ q.shared }

abbrev pub Quiet : (Port × Out → Port × Out) → Type 0
Quiet op = (s : Port × Out) → (op s).1.shared ≡ s.1.shared

pub in_port-Same :
    (key : ℕ) (op : Port × Out → Port × Out) (w : World) → Quiet op → Same (in_port key op w) w
unfolding in_port
in_port-Same key op w h = record { domains = refl; shared = h _ }

in_port_if_found-Same :
    (key : ℕ) (op : Port × Out → Port × Out) (w : World)
    → Quiet op
    → Same (in_port_if_found key op w) w
unfolding in_port_if_found
in_port_if_found-Same key op w h = elim (Option-cases (find key w.ports)) [
  | inl e ↦ rw (e, in_port_if_found) (Same-refl w)
  | inr (p, e) ↦ rw (e, in_port_if_found) (in_port-Same key op w h)
]

pub port_transition-Quiet :
    (field : Field) (ts n : ℕ) (empty to : PortState) (why : Why)
    → Quiet (port_transition field ts n empty to why)
unfolding port_transition
port_transition-Quiet field ts n empty to why (p, o) = ground arith

port_warning-Quiet : (ts n : ℕ) (why : Why) → Quiet (port_warning ts n why)
unfolding port_warning
port_warning-Quiet ts n why (p, o) = refl

pdelay_lost-Quiet : (ts : ℕ) → Quiet (pdelay_lost ts)
unfolding pdelay_lost port_warning port_transition
pdelay_lost-Quiet ts (p, o) = ground arith

for_others-shared :
    (self : ℕ) (f : Port → Out → Port × Out) (m : Dict ℕ Port) (o : Out)
    → ((p : Port) (o : Out) → (f p o).1.shared ≡ o.shared)
    → (for_others self f m o).1.shared ≡ o.shared
unfolding for_others
for_others-shared self f [] o h = refl
for_others-shared self f ((key, p) ∷ m) o h = elim (Bool-cases (key == self)) [
  | inl e ↦ rw e (for_others-shared self f m o h)
  | inr e ↦ rw e (for_others-shared self f m (f p o).1 h ∙ h p o)
]

in_others-Same :
    (self : ℕ) (f : Port → Out → Port × Out) (w : World)
    → ((p : Port) (o : Out) → (f p o).1.shared ≡ o.shared)
    → Same (in_others self f w) w
unfolding in_others
in_others-Same self f w h = record {
  domains = refl;
  shared = for_others-shared self f w.ports w.out h;
}

infer_slave-shared :
    (sender : Port) (dom ts n : ℕ) (p : Port) (o : Out)
    → (infer_slave sender dom ts n p o).1.shared ≡ o.shared
unfolding infer_slave port_transition
infer_slave-shared sender dom ts n p o = ground arith

demote-shared :
    (sender : Port) (dom interval ts n : ℕ) (p : Port) (o : Out)
    → (demote sender dom interval ts n p o).1.shared ≡ o.shared
unfolding demote port_transition
demote-shared sender dom interval ts n p o = ground arith

pub become_master-Same :
    (key dom ts n : ℕ) (why : Why) (w : World) → Same (become_master key dom ts n why w) w
unfolding become_master
become_master-Same key dom ts n why w =
    Same-trans (in_others-Same key _ _ (λ p o. infer_slave-shared _ dom ts n p o))
      (in_port-Same key _ w (port_transition-Quiet _ ts n _ _ why))

pub reception-Quiet : (v : VarLayerContext) (dom key : ℕ) → Quiet (reception v dom key)
unfolding reception port_transition
reception-Quiet v dom key (p, o) = ground arith

on_capable_tlv-Quiet : (v : VarLayerContext) (dom key : ℕ) → Quiet (on_capable_tlv v dom key)
unfolding on_capable_tlv port_transition
on_capable_tlv-Quiet v dom key (p, o) = ground arith

pub on_signaling-Same :
    (v : VarLayerContext) (dom key : ℕ) (w : World) → Same (on_signaling v dom key w) w
unfolding on_signaling
on_signaling-Same v dom key w = Same-trans (in_port-Same key _ _ (λ s. refl)) (
    Same-trans (in_port-Same key _ _ (on_capable_tlv-Quiet v dom key))
      (in_port-Same key _ w (λ s. refl)))

give_up_previous-Same :
    (v : VarLayerContext) (key : ℕ) (w : World) → Same (give_up_previous v key w) w
unfolding give_up_previous
give_up_previous-Same v key w = elim (Option-cases (find key w.exchanges)) [
  | inl e ↦ rw (e, give_up_previous) (Same-refl w)
  | inr (x, e) ↦
      rw (e, give_up_previous)
        (record {
          domains =
              (in_port-Same key (pdelay_lost (ts_of v)) w (pdelay_lost-Quiet (ts_of v))).domains;
          shared =
              (in_port-Same key (pdelay_lost (ts_of v)) w (pdelay_lost-Quiet (ts_of v))).shared;
        })
]

-- An operation that changes the exchanges last.
Same-exchanges :
    {a b : World} (es : Dict ℕ Exchange) → Same a b → Same (record a { exchanges = es }) b
Same-exchanges es p = record { domains = p.domains; shared = p.shared }

pub on_pdelay_req-Same :
    (v : VarLayerContext) (key : ℕ) (w : World) → Same (on_pdelay_req v key w) w
unfolding on_pdelay_req
on_pdelay_req-Same v key w = Same-exchanges _ (
    Same-trans (in_port-Same key _ _ (λ s. refl))
      (Same-trans (give_up_previous-Same v key _) (in_port-Same key _ w (λ s. refl))))

match_resp-Same : (v : VarLayerContext) (key : ℕ) (w : World) → Same (match_resp v key w) w
unfolding match_resp
match_resp-Same v key w = elim (Option-cases (find (req_key v key) w.exchanges)) [
  | inl e ↦ rw (e, match_resp) (Same-refl w)
  | inr (x, e) ↦
      rw (e, match_resp)
        (elim (Bool-cases (x.seq == seq_of v key)) [
          | inl m ↦ rw m (Same-exchanges _ (in_port_if_found-Same _ _ w (λ s. refl)))
          | inr m ↦ rw m (Same-refl w)
        ])
]

pub on_pdelay_resp-Same :
    (v : VarLayerContext) (key : ℕ) (w : World) → Same (on_pdelay_resp v key w) w
unfolding on_pdelay_resp
on_pdelay_resp-Same v key w =
    Same-trans (match_resp-Same v key _) (in_port-Same key _ w (λ s. refl))

complete-Quiet : (v : VarLayerContext) (key : ℕ) (e : Exchange) → Quiet (complete v key e)
unfolding complete port_transition
complete-Quiet v key e (p, o) = ground arith

warn_if_slow-Same :
    (v : VarLayerContext) (key : ℕ) (e : Exchange) (w : World) → Same (warn_if_slow v key e w) w
unfolding warn_if_slow
warn_if_slow-Same v key e w = elim (Bool-cases (is_slow v key (turnaround v key e))) [
  | inl slow ↦ rw slow (in_port_if_found-Same _ _ w (port_warning-Quiet _ _ _))
  | inr fine ↦ rw fine (Same-refl w)
]

match_resp_fu-Same : (v : VarLayerContext) (key : ℕ) (w : World) → Same (match_resp_fu v key w) w
unfolding match_resp_fu
match_resp_fu-Same v key w = elim (Option-cases (find (req_key v key) w.exchanges)) [
  | inl e ↦ rw (e, match_resp_fu) (Same-refl w)
  | inr (x, e) ↦
      rw (e, match_resp_fu)
        (elim (Bool-cases (x.have_resp && (x.seq == seq_of v key))) [
          | inl m ↦ rw m (elim (Option-cases (find (req_key v key) w.ports)) [
            | inl f ↦ rw f (Same-exchanges _ (Same-refl w))
            | inr (p, f) ↦ rw f (
                Same-exchanges _ (
                  Same-trans (warn_if_slow-Same v key x _)
                    (in_port-Same _ _ w (complete-Quiet v key x))))
          ])
          | inr m ↦ rw m (Same-refl w)
        ])
]

pub on_pdelay_resp_fu-Same :
    (v : VarLayerContext) (key : ℕ) (w : World) → Same (on_pdelay_resp_fu v key w) w
unfolding on_pdelay_resp_fu
on_pdelay_resp_fu-Same v key w =
    Same-trans (match_resp_fu-Same v key _) (in_port-Same key _ w (λ s. refl))

tick_port-shared : (ts : ℕ) (p : Port) (o : Out) → (tick_port ts p o).1.shared ≡ o.shared
unfolding tick_port tick_announce tick_capable port_transition
tick_port-shared ts p o = ground arith

tick_loop-shared :
    (ts : ℕ) (m : Dict ℕ Port) (o : Out) → (for_values (tick_port ts) m o).1.shared ≡ o.shared
unfolding for_values
tick_loop-shared ts [] o = refl
tick_loop-shared ts ((key, p) ∷ m) o =
    tick_loop-shared ts m (tick_port ts p o).1 ∙ tick_port-shared ts p o

pub tick_ports-Same : (ts : ℕ) (w : World) → Same (tick_ports ts w) w
unfolding tick_ports
tick_ports-Same ts w = record { domains = refl; shared = tick_loop-shared ts w.ports w.out }

lose-shared : (ts key : ℕ) (s : Dict ℕ Port × Out) → (lose ts key s).1.shared ≡ s.1.shared
unfolding lose
lose-shared ts key (ports, o) = elim (Option-cases (find key ports)) [
  | inl e ↦ rw (e, lose) refl
  | inr (p, e) ↦ rw (e, lose) (pdelay_lost-Quiet ts (p, o))
]

expire-shared :
    (ts : ℕ) (m : Dict ℕ Exchange) (s : Dict ℕ Port × Out) → (expire ts m s).1.1.shared ≡ s.1.shared
unfolding expire
expire-shared ts [] s = refl
expire-shared ts ((key, e) ∷ m) s = elim (Bool-cases (has_expired ts s.0 key e)) [
  | inl old ↦ rw old (expire-shared ts m (lose ts key s) ∙ lose-shared ts key s)
  | inr young ↦ rw young (expire-shared ts m s)
]

pub tick_exchanges-Same : (ts : ℕ) (w : World) → Same (tick_exchanges ts w) w
unfolding tick_exchanges
tick_exchanges-Same ts w = record {
  domains = refl;
  shared = expire-shared ts w.exchanges (w.ports, w.out);
}

pub demote_silent-Same :
    (v : VarLayerContext) (dom key : ℕ) (w : World) → Same (demote_silent v dom key w) w
unfolding demote_silent
demote_silent-Same v dom key w = in_others-Same key _ w (demote-shared _ dom _ _ _)
