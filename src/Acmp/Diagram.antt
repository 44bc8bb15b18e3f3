-- ===== src/Acmp/Diagram.antt =====
-- The diagram of a Milan listener sink, as `milanOnMessage` and `milanTick` of `AcmpLogic` in
-- backend/src/logic/acmp_logic.cpp draw it in the sink's history.
use avb_introspection.Base.{
  ℕ, ◌≤◌, ◌≡◌, refl, Bool, true, ◌&&◌, ◌||◌, List, [], ◌∷◌, ◌++◌, if◌then◌else◌, inl, inr,
  Bool-cases, arith, length, drop, length-push_capped, HistEntry, LeadsTo, LeadsTo-push_capped,
  push_capped,
}
use avb_introspection.Shared.{SharedModel}
use avb_introspection.Acmp.Types.{
  PortKey, SinkState, w_resp, w_resp2, w_retry, settled_no_rsv, settled_rsv_ok, SinkWhy, MilanSink,
  Report,
}
use avb_introspection.Acmp.Sinks.{shown, same, sink_hist_cap, sink_transition, sink_warning}

-- A second probe follows a first, a retry follows a probe, and a reservation follows the stream's
-- parameters; the other states are entered from everywhere.
abbrev pub is_edge : SinkState → SinkState → Bool
is_edge from to =
    if same to w_resp2
    then same from w_resp
    else if same to w_retry
    then same from w_resp || same from w_resp2
    else if same to settled_rsv_ok
    then same from settled_no_rsv
    else true

-- Each entry is an edge, or a warning, which stays in its state.
unfoldable pub all_drawn : List (HistEntry SinkState SinkWhy) → Bool
all_drawn [] = true
all_drawn (h ∷ hs) = (same h.from h.to || is_edge h.from h.to) && all_drawn hs

all_drawn-append :
    (hs : List (HistEntry SinkState SinkWhy)) (h : HistEntry SinkState SinkWhy)
    → all_drawn (hs ++ h ∷ []) ≡ (all_drawn hs && all_drawn (h ∷ []))
unfolding all_drawn
all_drawn-append [] h = refl
all_drawn-append (x ∷ hs) h = ground (arith, all_drawn-append hs h)

all_drawn-drop :
    (hs : List (HistEntry SinkState SinkWhy)) → all_drawn hs ≡ true → all_drawn (drop 1 hs) ≡ true
unfolding all_drawn
all_drawn-drop [] e = refl
all_drawn-drop (x ∷ hs) e = ground arith

all_drawn-push_capped :
    (cap : ℕ) (hs : List (HistEntry SinkState SinkWhy)) (h : HistEntry SinkState SinkWhy)
    → all_drawn hs ≡ true
    → same h.from h.to || is_edge h.from h.to ≡ true
    → all_drawn (push_capped cap hs h) ≡ true
unfolding push_capped all_drawn
all_drawn-push_capped cap hs h all one =
    ground (arith, all_drawn-append hs h, all_drawn-drop (hs ++ h ∷ []))

-- A sink under its port: it bears the port's ids, and its history is short, follows the diagram and
-- leads to the state.
pub record Drawn (port : PortKey) (l u : ℕ) (st : SinkState)
    (hist : List (HistEntry SinkState SinkWhy)) : Type 0 where
  pub own_listener : l ≡ port.0
  pub own_uid : u ≡ port.1
  pub short : length hist ≤ sink_hist_cap
  pub leads : LeadsTo hist (shown st)
  pub drawn : all_drawn hist ≡ true

abbrev pub DrawnAt : PortKey → MilanSink × List Report → Type 0
DrawnAt port r = Drawn port r.0.listener r.0.uid r.0.state r.0.hist

module _ (port : PortKey) where
  pub sink_transition-Drawn :
      (shared : SharedModel) (ts n : ℕ) (to : SinkState) (why : SinkWhy)
      (r : MilanSink × List Report)
      → shown to ≡ to
      → is_edge (shown r.0.state) to ≡ true
      → DrawnAt port r
      → DrawnAt port (sink_transition shared ts n to why r)
  unfolding sink_transition
  sink_transition-Drawn shared ts n to why (s, out) named edge g =
      elim (Bool-cases (same (shown s.state) to)) [
        | inl stays ↦ rw stays g
        | inr moves ↦ rw moves (record {
          own_listener = g.own_listener;
          own_uid = g.own_uid;
          short = length-push_capped sink_hist_cap s.hist _ g.short;
          leads =
              rw named (LeadsTo-push_capped sink_hist_cap (shown s.state) s.hist _ g.leads refl);
          drawn = all_drawn-push_capped sink_hist_cap s.hist _ g.drawn (ground arith);
        })
      ]

  pub sink_warning-Drawn :
      (ts n : ℕ) (why : SinkWhy) (r : MilanSink × List Report)
      → DrawnAt port r
      → DrawnAt port (sink_warning ts n why r)
  unfolding sink_warning
  sink_warning-Drawn ts n why (s, out) g = record {
    own_listener = g.own_listener;
    own_uid = g.own_uid;
    short = length-push_capped sink_hist_cap s.hist _ g.short;
    leads = LeadsTo-push_capped sink_hist_cap (shown s.state) s.hist _ g.leads refl;
    drawn = all_drawn-push_capped sink_hist_cap s.hist _ g.drawn (ground arith);
  }
