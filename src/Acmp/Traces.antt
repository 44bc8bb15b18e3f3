-- ===== src/Acmp/Traces.antt =====
-- The history of a connection in `AcmpLogic` of backend/src/logic/acmp_logic.cpp: `transition`, the
-- `switch` of `onDecode`, and a command's timeout.
use avb_introspection.Base.{
  ℕ, ◌≡◌, refl, ◌||◌, List, ◌==◌, inl, inr, Bool-cases, arith, HistEntry, Linked, Linked-append,
}
use avb_introspection.Context.{VarLayerContext}
use avb_introspection.Shared.{SharedModel}
use avb_introspection.Acmp.Types.{
  Conn, ConnKey, ConnState, ConnWhy, Report, disconnected, connecting, connected, disconnecting,
  failed,
}
use avb_introspection.Acmp.Connections.{
  shown, same, transition, learn_stream, moves, on_connect, on_tx_response, on_rx_response,
  on_disconnect, on_disconnected, react, on_timeout,
}

-- A connection under its key: it bears the key, and its history leads from DISCONNECTED to its state.
pub record Traced (key k : ConnKey) (st : ConnState) (hist : List (HistEntry ConnState ConnWhy))
    : Type 0 where
  pub own_key : k ≡ key
  pub linked : Linked disconnected hist (shown st)

abbrev pub TracedAt : ConnKey → Conn × List Report → Type 0
TracedAt key r = Traced key r.0.key r.0.state r.0.hist

module _ (key : ConnKey) where
  transition-Traced :
      (shared : SharedModel) (ts n : ℕ) (to : ConnState) (why : ConnWhy) (r : Conn × List Report)
      → shown to ≡ to
      → TracedAt key r
      → TracedAt key (transition shared ts n to why r)
  unfolding transition
  transition-Traced shared ts n to why (c, out) named g =
      elim (Bool-cases (same (shown c.state) to)) [
        | inl stays ↦ rw stays g
        | inr moved ↦ rw moved (record {
          own_key = g.own_key;
          linked = rw named (Linked-append disconnected (shown c.state) c.hist _ g.linked refl);
        })
      ]

  module _ (shared : SharedModel) (v : VarLayerContext) where
    moves-Traced :
        (to : ConnState) (why : ConnWhy) (r : Conn × List Report)
        → shown to ≡ to
        → TracedAt key r
        → TracedAt key (moves shared v to why r)
    unfolding moves
    moves-Traced to why r named g = transition-Traced shared _ _ to why r named g

    on_connect-Traced :
        (msg : ℕ) (r : Conn × List Report)
        → TracedAt key r
        → TracedAt key (on_connect shared v msg r)
    unfolding on_connect
    on_connect-Traced msg (c, out) g =
        elim (Bool-cases (same c.state connecting || same c.state connected)) [
          | inl under_way ↦ rw under_way g
          | inr idle ↦ rw idle (moves-Traced connecting _ (c, out) refl g)
        ]

    on_tx_response-Traced :
        (status : ℕ) (r : Conn × List Report)
        → TracedAt key r
        → TracedAt key (on_tx_response shared v status r)
    unfolding on_tx_response learn_stream
    on_tx_response-Traced status (c, out) g = elim (Bool-cases (status == 0)) [
      | inl ok ↦ rw ok (elim (Bool-cases (same c.state connected || same c.state connecting)) [
        | inl under_way ↦ rw under_way g
        | inr idle ↦ rw idle (moves-Traced connecting _ (_, out) refl g)
      ])
      | inr refused ↦ rw refused (moves-Traced failed _ (c, out) refl g)
    ]

    on_rx_response-Traced :
        (status : ℕ) (r : Conn × List Report)
        → TracedAt key r
        → TracedAt key (on_rx_response shared v status r)
    unfolding on_rx_response learn_stream
    on_rx_response-Traced status (c, out) g = elim (Bool-cases (status == 0)) [
      | inl ok ↦ rw ok (moves-Traced connected _ (_, out) refl g)
      | inr refused ↦ rw refused (moves-Traced failed _ (c, out) refl g)
    ]

    on_disconnect-Traced :
        (msg : ℕ) (r : Conn × List Report)
        → TracedAt key r
        → TracedAt key (on_disconnect shared v msg r)
    unfolding on_disconnect
    on_disconnect-Traced msg (c, out) g = elim (Bool-cases (same c.state disconnected)) [
      | inl off ↦ rw off g
      | inr on ↦ rw on (moves-Traced disconnecting _ (c, out) refl g)
    ]

    on_disconnected-Traced :
        (msg status : ℕ) (r : Conn × List Report)
        → TracedAt key r
        → TracedAt key (on_disconnected shared v msg status r)
    unfolding on_disconnected
    on_disconnected-Traced msg status (c, out) g = elim (Bool-cases (status == 0)) [
      | inl ok ↦ rw ok (elim (Bool-cases (same c.state disconnected)) [
        | inl off ↦ rw off g
        | inr on ↦ rw on (elim (Bool-cases (msg == 9)) [
          | inl counts ↦ rw counts (moves-Traced disconnected _ (_, out) refl g)
          | inr plain ↦ rw plain (moves-Traced disconnected _ (c, out) refl g)
        ])
      ])
      | inr refused ↦ rw refused (elim (Bool-cases (same c.state disconnecting)) [
        | inl back ↦ rw back (moves-Traced connected _ (c, out) refl g)
        | inr quiet ↦ rw quiet g
      ])
    ]

    pub react-Traced :
        (msg status : ℕ) (r : Conn × List Report)
        → TracedAt key r
        → TracedAt key (react shared v msg status r)
    unfolding react
    react-Traced msg status r g = elim (Bool-cases ((msg == 0) || (msg == 6))) [
      | inl a ↦ rw a (on_connect-Traced msg r g)
      | inr a ↦ rw a (elim (Bool-cases (msg == 1)) [
        | inl b ↦ rw b (on_tx_response-Traced status r g)
        | inr b ↦ rw b (elim (Bool-cases (msg == 7)) [
          | inl c ↦ rw c (on_rx_response-Traced status r g)
          | inr c ↦ rw c (elim (Bool-cases ((msg == 2) || (msg == 8))) [
            | inl d ↦ rw d (on_disconnect-Traced msg r g)
            | inr d ↦ rw d (elim (Bool-cases ((msg == 3) || (msg == 9))) [
              | inl e ↦ rw e (on_disconnected-Traced msg status r g)
              | inr e ↦ rw e g
            ])
          ])
        ])
      ])
    ]

  pub on_timeout-Traced :
      (shared : SharedModel) (ts cmd : ℕ) (r : Conn × List Report)
      → TracedAt key r
      → TracedAt key (on_timeout shared ts cmd r)
  unfolding on_timeout
  on_timeout-Traced shared ts cmd (c, out) g = elim (Bool-cases ((cmd == 0) || (cmd == 6))) [
    | inl connects ↦ rw connects (elim (Bool-cases (same c.state connecting)) [
      | inl waits ↦ rw waits (transition-Traced shared ts 0 failed _ (c, out) refl g)
      | inr other ↦ rw other g
    ])
    | inr rest ↦ rw rest (elim (Bool-cases ((cmd == 2) || (cmd == 8))) [
      | inl disconnects ↦ rw disconnects (elim (Bool-cases (same c.state disconnecting)) [
        | inl waits ↦ rw waits (transition-Traced shared ts 0 disconnected _ (c, out) refl g)
        | inr other ↦ rw other g
      ])
      | inr none_of_them ↦ rw none_of_them g
    ])
  ]

-- A connection that no message has opened yet is left as it is.
pub on_timeout_unset :
    (shared : SharedModel) (ts cmd : ℕ) (c : Conn) (out : List Report)
    → c.state ≡ ConnState.unset
    → (on_timeout shared ts cmd (c, out)).0 ≡ c
unfolding on_timeout
on_timeout_unset shared ts cmd c out e = ground (arith, e)
