-- ===== src/Shared.antt =====
-- `SharedModel` of backend/src/logic/avb_logic.h: what the logic modules of one analysis tell one
-- another. It is passed from call to call, as the one thread of the state pass does. The registrars
-- (`mrpAttrs`, `mrpLvCount`) are the record of `Mrp`.
use avb_introspection.Base.{ℕ, Bool, none, some, [], ◌∷◌, String, Dict, Set, find, nat_key}
use avb_introspection.Mrp.{Mrp, empty}

-- The grandmaster and the sync state observed in a gPTP domain.
pub record GptpDomainTruth : Type 0 where
  pub gm_known : Bool
  pub gm_identity : ℕ
  pub sync_state : ℕ

pub record SharedModel : Type 0 where
  pub entity_names : Dict ℕ String
  pub gptp_domains : Dict ℕ GptpDomainTruth
  pub established_streams : Set
  pub adp_available : Set
  pub msrp_talker_decl : Dict ℕ ℕ
  pub mrp : Mrp

abbrev pub new_model : SharedModel
new_model = record {
  entity_names = [];
  gptp_domains = [];
  established_streams = [];
  adp_available = [];
  msrp_talker_decl = [];
  mrp = empty;
}

unfoldable pub name_of : ℕ → SharedModel → String
name_of id s = elim (find id s.entity_names) [ none ↦ "" | some name ↦ name ]

-- The only domain, if there is one domain.
abbrev only_domain : Dict ℕ GptpDomainTruth → ℕ
only_domain ((d, t) ∷ []) = t.sync_state
only_domain _ = 0

-- Domain 0 first, else the single observed domain, else unknown.
unfoldable pub sync_state_for_annotation : SharedModel → ℕ
sync_state_for_annotation s = elim (find 0 s.gptp_domains) [
  | some t ↦ t.sync_state
  | none ↦ only_domain s.gptp_domains
]
