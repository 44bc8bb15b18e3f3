-- ===== src/Gptp/Capable.antt =====
-- When `GptpLogic` of backend/src/logic/gptp_logic.cpp shows a port as asCapable.
use avb_introspection.Base.{
  ℕ, ◌≤◌, ◌≡◌, refl, inl, inr, Bool, true, ◌||◌, List, [], ◌∷◌, arith, ltb, ◌==◌, if◌then◌else◌,
  Bool-cases, Option-cases, if_either, Dict, find, length, push_capped, length-push_capped,
  AllEntries, AllEntries-insert, AllEntries-find_or, nat_key,
}
use avb_introspection.Gptp.Types.{
  hist_cap, allowed_lost_responses, PortState, unknown, not_as_capable, tag, Why, lost_responses,
  too_many_lost, Entry,
}
use avb_introspection.Gptp.State.{Domain, Port, new_port, Out, World}
use avb_introspection.Gptp.Ports.{
  Field, role_field, port_entry, is_unset, port_transition, port_warning, count_lost, pdelay_lost,
  for_others, infer_slave, demote,
}
use avb_introspection.Gptp.Access.{
  in_domain, in_port, in_port_if_found, in_others, become_master, fields,
}

-- A port is NOT_AS_CAPABLE, or fewer responses in a row than allowed are lost.
abbrev pub is_sound : Port → Bool
is_sound p = (tag p.capable == 5) || ltb p.consecutive_lost allowed_lost_responses

abbrev pub PortWf : Port → Type 0
PortWf p = (is_sound p ≡ true) × (length p.hist ≤ hist_cap)

abbrev pub Keeps : (Port × Out → Port × Out) → Type 0
Keeps op = (s : Port × Out) → PortWf s.0 → PortWf (op s).0

abbrev PortsWf : Dict ℕ Port → Type 0
PortsWf = AllEntries (λ _ p. PortWf p)

pub record PortsSound (w : World) : Type 0 where
  pub ports : AllEntries (λ _ p. PortWf p) w.ports

pub new_port-Wf : PortWf new_port
new_port-Wf = (refl, omega arith)

pub in_domain-PortsSound :
    (k : ℕ) (op : Domain × Out → Domain × Out) (w : World)
    → PortsSound w
    → PortsSound (in_domain k op w)
unfolding in_domain
in_domain-PortsSound k op w h = record { ports = h.ports }

pub in_port-PortsSound :
    (key : ℕ) (op : Port × Out → Port × Out) (w : World)
    → Keeps op
    → PortsSound w
    → PortsSound (in_port key op w)
unfolding in_port
in_port-PortsSound key op w keeps h = record {
  ports =
      AllEntries-insert (λ _ p. PortWf p) key _ w.ports
        (keeps _ (AllEntries-find_or (λ _ p. PortWf p) new_port key w.ports new_port-Wf h.ports))
        h.ports;
}

pub in_port_if_found-PortsSound :
    (key : ℕ) (op : Port × Out → Port × Out) (w : World)
    → Keeps op
    → PortsSound w
    → PortsSound (in_port_if_found key op w)
unfolding in_port_if_found
in_port_if_found-PortsSound key op w keeps h = elim (Option-cases (find key w.ports)) [
  | inl e ↦ rw (e, in_port_if_found) h
  | inr (p, e) ↦ rw (e, in_port_if_found) (in_port-PortsSound key op w keeps h)
]

for_others-Wf :
    (self : ℕ) (f : Port → Out → Port × Out) (m : Dict ℕ Port) (o : Out)
    → ((p : Port) (o : Out) → PortWf p → PortWf (f p o).0)
    → AllEntries (λ _ p. PortWf p) m
    → AllEntries (λ _ p. PortWf p) (for_others self f m o).0
unfolding for_others
for_others-Wf self f [] o keeps h = tt
for_others-Wf self f ((key, p) ∷ m) o keeps h = elim (Bool-cases (key == self)) [
  | inl e ↦ rw e (h.0, for_others-Wf self f m o keeps h.1)
  | inr e ↦ rw e (keeps p o h.0, for_others-Wf self f m (f p o).1 keeps h.1)
]

pub in_others-PortsSound :
    (self : ℕ) (f : Port → Out → Port × Out) (w : World)
    → ((p : Port) (o : Out) → PortWf p → PortWf (f p o).0)
    → PortsSound w
    → PortsSound (in_others self f w)
unfolding in_others
in_others-PortsSound self f w keeps h = record {
  ports = for_others-Wf self f w.ports w.out keeps h.ports;
}

-- A transition of a member by which capability is not judged.
pub port_transition-Keeps :
    (field : Field) (ts n : ℕ) (empty to : PortState) (why : Why)
    → ((p : Port)
        → ((field.put to p).capable ≡ p.capable)
          × (((field.put to p).consecutive_lost ≡ p.consecutive_lost)
              × ((field.put to p).hist ≡ p.hist)))
    → Keeps (port_transition field ts n empty to why)
unfolding port_transition
port_transition-Keeps field ts n empty to why same (p, o) h =
    let from = if is_unset (field.get p) then empty else field.get p in
    (
      ground (arith, h.0, same p),
      ground (
        arith,
        h.1,
        same p,
        length-push_capped hist_cap p.hist (port_entry ts n from to why) h.1,
      ),
    )

pub port_warning-Keeps : (ts n : ℕ) (why : Why) → Keeps (port_warning ts n why)
unfolding port_warning
port_warning-Keeps ts n why (p, o) h = (h.0, length-push_capped hist_cap p.hist _ h.1)

pub pdelay_lost-Keeps : (ts : ℕ) → Keeps (pdelay_lost ts)
unfolding pdelay_lost port_transition port_warning
pdelay_lost-Keeps ts (p, o) h =
    let from = if is_unset p.capable then unknown else p.capable in
    let warned : List Entry = push_capped hist_cap p.hist (
      port_entry ts 0 (if is_unset p.role then unknown else p.role)
        (if is_unset p.role then unknown else p.role)
        (lost_responses (count_lost p).consecutive_lost)) in
    let short : length warned ≤ hist_cap = length-push_capped hist_cap p.hist _ h.1 in
    (
      ground arith,
      ground (
        arith,
        short,
        length-push_capped hist_cap warned (port_entry ts 0 from not_as_capable too_many_lost)
            short,
      ),
    )

-- A change of fields by which capability is not judged.
pub fields-Keeps :
    (f : Port → Port)
    → ((p : Port)
        → ((f p).capable ≡ p.capable)
          × (((f p).consecutive_lost ≡ p.consecutive_lost) × ((f p).hist ≡ p.hist)))
    → Keeps (fields f)
fields-Keeps f same (p, o) h = (ground (arith, h.0, same p), ground (arith, h.1, same p))

infer_slave-Wf :
    (sender : Port) (dom ts n : ℕ) (p : Port) (o : Out)
    → PortWf p
    → PortWf (infer_slave sender dom ts n p o).0
unfolding infer_slave
infer_slave-Wf sender dom ts n p o h =
    if_either (λ (s : Port × Out). PortWf s.0) _
      (port_transition-Keeps role_field ts n _ _ _ (λ p. (refl, (refl, refl))) (p, o) h) h

pub demote-Wf :
    (sender : Port) (dom interval ts n : ℕ) (p : Port) (o : Out)
    → PortWf p
    → PortWf (demote sender dom interval ts n p o).0
unfolding demote
demote-Wf sender dom interval ts n p o h =
    if_either (λ (s : Port × Out). PortWf s.0) _
      (port_transition-Keeps role_field ts n _ _ _ (λ p. (refl, (refl, refl))) (p, o) h) h

pub become_master-PortsSound :
    (key dom ts n : ℕ) (why : Why) (w : World)
    → PortsSound w
    → PortsSound (become_master key dom ts n why w)
unfolding become_master
become_master-PortsSound key dom ts n why w h =
    in_others-PortsSound key _ _ (λ p o. infer_slave-Wf _ dom ts n p o)
      (in_port-PortsSound key _ w
        (port_transition-Keeps role_field ts n _ _ why (λ p. (refl, (refl, refl)))) h)
