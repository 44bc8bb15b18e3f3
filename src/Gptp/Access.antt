-- ===== src/Gptp/Access.antt =====
-- The state of `GptpLogic` in
-- backend/src/logic/gptp_logic.cpp, the references to a domain and to a port that its handlers
-- hold, which are keys here, and `becomeMaster`.
use avb_introspection.Base.{ℕ, none, some, find, find_or, insert, nat_key}
use avb_introspection.Gptp.Types.{unknown, master, Why}
use avb_introspection.Gptp.State.{Domain, new_domain, Port, new_port, Out, World}
use avb_introspection.Gptp.Domains.{publish, eval_bmca}
use avb_introspection.Gptp.Ports.{role_field, port_transition, for_others, infer_slave}

-- `getDomain`, and what an operation makes of the domain.
abbrev pub domain_at : ℕ → World → Domain
domain_at num w = record (find_or new_domain num w.domains) { num = num }

unfoldable pub in_domain : ℕ → (Domain × Out → Domain × Out) → World → World
in_domain num op w =
    let (d, o) = op (domain_at num w, w.out) in
    record w { domains = insert num d w.domains; out = o }

abbrev pub port_at : ℕ → World → Port
port_at key w = find_or new_port key w.ports

unfoldable pub in_port : ℕ → (Port × Out → Port × Out) → World → World
in_port key op w =
    let (p, o) = op (port_at key w, w.out) in record w { ports = insert key p w.ports; out = o }

-- `mPorts.find(key)`, and an operation on the port that was found.
unfoldable pub in_port_if_found : ℕ → (Port × Out → Port × Out) → World → World
in_port_if_found key op w = elim (find key w.ports) [ none ↦ w | some p ↦ in_port key op w ]

unfoldable pub in_others : ℕ → (Port → Out → Port × Out) → World → World
in_others self f w =
    let (ps, o) = for_others self f w.ports w.out in record w { ports = ps; out = o }

-- An operation that changes fields only.
abbrev pub fields {ℓ} : {A : Type ℓ} → (A → A) → A × Out → A × Out
fields f (a, o) = (f a, o)

unfoldable pub become_master : ℕ → ℕ → ℕ → ℕ → Why → World → World
become_master key dom ts n why w =
    let w' = in_port key (port_transition role_field ts n unknown master why) w in
    in_others key (infer_slave (port_at key w') dom ts n) w'

-- `evalBmca` and `publish`, at the end of two handlers.
unfoldable pub settle : ℕ → Domain × Out → Domain × Out
settle ts (d, o) = publish (eval_bmca ts d, o)
