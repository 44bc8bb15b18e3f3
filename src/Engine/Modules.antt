-- ===== src/Engine/Modules.antt =====
-- `AnalysisState` of backend/src/engine/session.h: the seven modules and the model that they share. Each call
-- of a module gets the shared model as it is and an empty list of transitions, since the list is drained
-- after every call.
use avb_introspection.Base.{ℕ, List, [], map, Transition}
use avb_introspection.Context.{VarLayerContext}
use avb_introspection.Shared.{SharedModel}
use avb_introspection.Adp
use avb_introspection.Maap
use avb_introspection.Mvrp
use avb_introspection.Acmp
use avb_introspection.Acmp.Types as AcmpTypes
use avb_introspection.Aecp
use avb_introspection.Msrp
use avb_introspection.Gptp
use avb_introspection.Gptp.State
use avb_introspection.Gptp.Types as GptpTypes
use avb_introspection.Decode.Types.{Proto, eth, msrp, mvrp, maap, adp, aecp, acmp, gptp}

-- A module's own maps stand in its world; of the worlds' copies of the shared model none is read.
pub record AnalysisState : Type 0 where
  pub shared : SharedModel
  pub adp_world : Adp.World
  pub maap_world : Maap.World
  pub mvrp_world : Mvrp.World
  pub acmp_world : Acmp.World
  pub aecp_world : Aecp.World
  pub msrp_world : Msrp.World
  pub gptp_world : State.World

-- A transition, by the module that reports it.
pub data Told : Type 0 where
  by_adp : Transition ℕ Adp.State Adp.Why → Told
  by_maap : Maap.Report → Told
  by_mvrp : Mvrp.Report → Told
  by_acmp : AcmpTypes.Report → Told
  by_aecp : Aecp.Report → Told
  by_msrp : Msrp.Report → Told
  by_gptp : GptpTypes.Report → Told

module _ (s : AnalysisState) where
  -- What a module works on when it is called.
  abbrev pub adp_of : Adp.World
  adp_of = record s.adp_world { out = record { shared = s.shared; pending = [] } }

  abbrev pub maap_of : Maap.World
  maap_of = record s.maap_world { pending = [] }

  abbrev pub mvrp_of : Mvrp.World
  mvrp_of = record s.mvrp_world { shared = s.shared; pending = [] }

  abbrev pub acmp_of : Acmp.World
  acmp_of = record s.acmp_world { milan = record s.acmp_world.milan { out = [] } }

  abbrev pub aecp_of : Aecp.World
  aecp_of = record s.aecp_world { shared = s.shared; pending = [] }

  abbrev pub msrp_of : Msrp.World
  msrp_of = record s.msrp_world { out = record { shared = s.shared; pending = [] } }

  abbrev pub gptp_of : State.World
  gptp_of = record s.gptp_world { out = record { shared = s.shared; pending = [] } }

  -- What a call leaves.
  abbrev from_adp : Adp.World → AnalysisState × List Told
  from_adp w = (record s { shared = w.out.shared; adp_world = w }, map by_adp w.out.pending)

  abbrev from_maap : Maap.World → AnalysisState × List Told
  from_maap w = (record s { maap_world = w }, map by_maap w.pending)

  abbrev from_mvrp : Mvrp.World → AnalysisState × List Told
  from_mvrp w = (record s { shared = w.shared; mvrp_world = w }, map by_mvrp w.pending)

  abbrev from_acmp : Acmp.World → AnalysisState × List Told
  from_acmp w = (record s { acmp_world = w }, map by_acmp w.milan.out)

  abbrev from_aecp : Aecp.World → AnalysisState × List Told
  from_aecp w = (record s { shared = w.shared; aecp_world = w }, map by_aecp w.pending)

  abbrev from_msrp : Msrp.World → AnalysisState × List Told
  from_msrp w = (record s { shared = w.out.shared; msrp_world = w }, map by_msrp w.out.pending)

  abbrev from_gptp : State.World → AnalysisState × List Told
  from_gptp w = (record s { shared = w.out.shared; gptp_world = w }, map by_gptp w.out.pending)

-- `onDecode` and `drain` of the module.
unfoldable pub on_decode : Proto → VarLayerContext → AnalysisState → AnalysisState × List Told
on_decode adp v s = from_adp s (Adp.on_decode v (adp_of s))
on_decode maap v s = from_maap s (Maap.on_decode v (maap_of s))
on_decode mvrp v s = from_mvrp s (Mvrp.on_decode v (mvrp_of s))
on_decode acmp v s = from_acmp s (Acmp.on_decode s.shared v (acmp_of s))
on_decode aecp v s = from_aecp s (Aecp.on_decode v (aecp_of s))
on_decode msrp v s = from_msrp s (Msrp.on_decode v (msrp_of s))
on_decode gptp v s = from_gptp s (Gptp.on_decode v (gptp_of s))
on_decode eth v s = (s, [])

-- `onTimeTick` and `drain`; MAAP and MSRP have the base class's, which does nothing.
unfoldable pub on_time_tick : Proto → ℕ → AnalysisState → AnalysisState × List Told
on_time_tick adp ts s = from_adp s (Adp.on_time_tick ts (adp_of s))
on_time_tick mvrp ts s = from_mvrp s (Mvrp.on_time_tick ts (mvrp_of s))
on_time_tick acmp ts s = from_acmp s (Acmp.on_time_tick s.shared ts (acmp_of s))
on_time_tick aecp ts s = from_aecp s (Aecp.on_time_tick ts (aecp_of s))
on_time_tick gptp ts s = from_gptp s (Gptp.on_time_tick ts (gptp_of s))
on_time_tick _ ts s = (s, [])
