-- ===== src/Engine/Log.antt =====
-- The event log of the state pass in backend/src/engine/engine.cpp.
use avb_introspection.Base.{
  ℕ, zero, suc, ◌+◌, ◌%◌, ◌^◌, ◌≡◌, ◌⊎◌, inl, inr, refl, ap, ◌∙◌, sym, subst, ◌==◌, some, List, [],
  ◌∷◌, ◌++◌, arith, if◌then◌else◌, Bool-cases, if_either, length, length-append, get_elem?,
  append-nil, append_assoc, true, false, Bool, string_key,
}
use avb_introspection.Decode.Types.{Proto, DecodedPacket}
use avb_introspection.Engine.Stamps.{InOrder, by_time-InOrder}
use avb_introspection.Engine.Keeps.{IsKept, feed_all-IsKept, tick_all-IsKept}
use avb_introspection.Engine.{
  Captured, stamped, Packet, Kind, of_packet, of_error, of_transition, Event, Pass, push_event,
  note_device, on_error, on_packet, handle, run, new_pass, by_time, analyze,
}

-- What an event that is a packet's own says: the number of the packet, its time, what became of it, and its
-- protocol.
abbrev pub Main : Type 0
Main = ℕ × ℕ × Kind × Proto

abbrev pub unless_transition : Kind → Main → List Main
unless_transition of_packet m = m ∷ []
unless_transition (of_error e) m = m ∷ []
unless_transition (of_transition t) m = []

abbrev pub main_of : Event → List Main
main_of e = unless_transition e.kind (e.n, e.ts, e.kind, e.proto)

unfoldable pub mains : List Event → List Main
mains [] = []
mains (e ∷ es) = main_of e ++ mains es

-- What the packets call for: one event for each packet of interest.
abbrev pub outcome : DecodedPacket → Kind
outcome d = if d.is_ok then of_packet else of_error d.error

abbrev pub called_for : Packet → List Main
called_for x =
    if x.decoded.interesting then (x.num, x.ts, outcome x.decoded, x.decoded.proto) ∷ [] else []

unfoldable pub all_called_for : List Packet → List Main
all_called_for [] = []
all_called_for (x ∷ xs) = called_for x ++ all_called_for xs

abbrev pub is_error : Kind → ℕ
is_error (of_error e) = 1
is_error _ = 0

unfoldable pub count_errors : List Event → ℕ
count_errors [] = 0
count_errors (e ∷ es) = is_error e.kind + count_errors es

-- The log with the own events `ms` of packets.
pub record LogWf (ms : List Main) (index : ℕ) (events : List Event) (errors : ℕ) : Type 0 where
  pub next : index ≡ length events % 2 ^ 32
  pub numbered : (k : ℕ) (e : Event) → get_elem? events k ≡ some e → e.i ≡ k % 2 ^ 32
  pub main : mains events ≡ ms
  pub failed : errors ≡ count_errors events % 2 ^ 64

abbrev pub IsLogged : List Main → Pass → Type 0
IsLogged ms p = LogWf ms p.event_index p.events p.decode_errors

get_elem?-snoc :
    (xs : List Event) (x : Event) (k : ℕ) (e : Event)
    → get_elem? (xs ++ x ∷ []) k ≡ some e
    → (get_elem? xs k ≡ some e) ⊎ ((k ≡ length xs) × (x ≡ e))
get_elem?-snoc [] x zero e h = inr (refl, ground (arith, h))
get_elem?-snoc [] x (suc k) e h = absurd (ground (arith, h))
get_elem?-snoc (y ∷ xs) x zero e h = inl h
get_elem?-snoc (y ∷ xs) x (suc k) e h = elim (get_elem?-snoc xs x k e h) [
  | inl g ↦ inl g
  | inr g ↦ inr (omega (arith, g.0), g.1)
]

count_errors-append :
    (xs ys : List Event) → count_errors (xs ++ ys) ≡ count_errors xs + count_errors ys
unfolding count_errors
count_errors-append [] ys = omega arith
count_errors-append (x ∷ xs) ys = omega (arith, count_errors-append xs ys)

mains-snoc : (es : List Event) (e : Event) → mains (es ++ e ∷ []) ≡ mains es ++ main_of e
unfolding mains
mains-snoc [] e = append-nil (main_of e)
mains-snoc (x ∷ es) e =
    ap (λ ms. main_of x ++ ms) (mains-snoc es e)
    ∙ sym (append_assoc (main_of x) (mains es) (main_of e))

LogWf-snoc :
    (ms : List Main) (index errors errors' : ℕ) (es : List Event) (e : Event)
    → LogWf ms index es errors
    → e.i ≡ index
    → errors' ≡ (errors + is_error e.kind) % 2 ^ 64
    → LogWf (ms ++ main_of e) ((index + 1) % 2 ^ 32) (es ++ e ∷ []) errors'
unfolding count_errors
LogWf-snoc ms index errors errors' es e h here counted = record {
  next = omega (arith, h.next, length-append es (e ∷ []));
  numbered = λ k x at. elim (get_elem?-snoc es e k x at) [
    | inl g ↦ h.numbered k x g
    | inr g ↦ ap (λ y. y.i) (sym g.1) ∙ (here ∙ (h.next ∙ ap (λ k. k % 2 ^ 32) (sym g.0)))
  ];
  main = mains-snoc es e ∙ ap (λ m. m ++ main_of e) h.main;
  failed = omega (arith, counted, h.failed, count_errors-append es (e ∷ []));
}

push_event-IsLogged :
    (num ts : ℕ) (kind : Kind) (proto : Proto) (ms : List Main) (p : Pass) (errors : ℕ)
    → LogWf ms p.event_index p.events errors
    → p.decode_errors ≡ (errors + is_error kind) % 2 ^ 64
    → IsLogged
        (ms ++ unless_transition kind (num, ts, kind, proto))
        (push_event num ts kind proto p)
unfolding push_event
push_event-IsLogged num ts kind proto ms p errors h e =
    LogWf-snoc ms p.event_index errors p.decode_errors p.events _ h refl e

IsLogged-IsKept : (ms : List Main) (ts : ℕ) → IsKept (IsLogged ms) ts
IsLogged-IsKept ms ts = record {
  pushed = λ num t proto p h.
      subst (λ m. IsLogged m (push_event num ts (of_transition t) proto p)) (append-nil ms)
        (push_event-IsLogged num ts (of_transition t) proto ms p p.decode_errors h
          (omega (arith, h.failed)));
  moved = λ s p h. h;
}

note_device-IsLogged :
    (d : DecodedPacket) (ms : List Main) (p : Pass) → IsLogged ms p → IsLogged ms (note_device d p)
unfolding note_device
note_device-IsLogged d ms p h = if_either (IsLogged ms) (d.src_mac == 0) h h

module _ (x : Packet) (ms : List Main) where
  -- The log with the packet's own event.
  abbrev with_own : Kind → List Main
  with_own kind = ms ++ (x.num, x.ts, kind, x.decoded.proto) ∷ []

  on_packet-IsLogged : (p : Pass) → IsLogged ms p → IsLogged (with_own of_packet) (on_packet x p)
  unfolding on_packet
  on_packet-IsLogged p h =
      feed_all-IsKept (IsLogged (with_own of_packet)) x.ts (IsLogged-IsKept _ x.ts) x.num
        x.decoded.logic_ctxs _
        (push_event-IsLogged x.num x.ts of_packet x.decoded.proto ms _ p.decode_errors h
          (omega (arith, h.failed)))

  on_error-IsLogged :
      (p : Pass) → IsLogged ms p → IsLogged (with_own (of_error x.decoded.error)) (on_error x p)
  unfolding on_error
  on_error-IsLogged p h =
      push_event-IsLogged x.num x.ts (of_error x.decoded.error) x.decoded.proto ms _ p.decode_errors
        h refl

  logged :
      (t : Bool) (p : Pass)
      → IsLogged ms p
      → IsLogged
          (with_own (if t then of_packet else of_error x.decoded.error))
          (if t then on_packet x p else on_error x p)
  logged true p h = on_packet-IsLogged p h
  logged false p h = on_error-IsLogged p h

  handle-IsLogged :
      (services : List Proto) (p : Pass)
      → IsLogged ms p
      → IsLogged (ms ++ called_for x) (handle services x p)
  unfolding handle
  handle-IsLogged services p h = elim (Bool-cases x.decoded.interesting) [
    | inl e ↦ simp e (
        tick_all-IsKept (IsLogged (with_own (outcome x.decoded))) x.ts (IsLogged-IsKept _ x.ts)
          services _ (logged x.decoded.is_ok _ (note_device-IsLogged x.decoded ms p h)))
    | inr e ↦ simp e (subst (λ m. IsLogged m p) (sym (append-nil ms)) h)
  ]

run_keeps-IsLogged :
    (services : List Proto) (xs : List Packet) (ms : List Main) (p : Pass)
    → IsLogged ms p
    → IsLogged (ms ++ all_called_for xs) (run services xs p)
unfolding run all_called_for
run_keeps-IsLogged services [] ms p h = subst (λ m. IsLogged m p) (sym (append-nil ms)) h
run_keeps-IsLogged services (x ∷ xs) ms p h =
    subst (λ m. IsLogged m (run services xs (handle services x p)))
      (append_assoc ms (called_for x) (all_called_for xs))
      (run_keeps-IsLogged services xs (ms ++ called_for x) (handle services x p)
        (handle-IsLogged x ms services p h))

new_pass-IsLogged : IsLogged [] new_pass
unfolding count_errors mains
new_pass-IsLogged = record {
  next = refl;
  numbered = λ k e at. absurd (ground (arith, at));
  main = refl;
  failed = refl;
}

-- After the state pass over a capture, in whatever order the modules are called: the events of the log are
-- numbered from 0 on without a gap, modulo 2^32. The events that are no transitions are, in the order in which
-- the packets are handled, one for each packet of interest, with the packet's number, time and protocol, and
-- for the packet if it was decoded, else for its error. The number of decode errors is the number of the error
-- events, modulo 2^64. The packets that are handled are those of the capture, each once, in the order of their
-- times in the file, and those of one time as they stand there. A packet's number is its place in the file from
-- 1 on, modulo 2^32, and its time is the difference to the time of the first packet, modulo 2^64.
pub analyze-IsLogged :
    (services : List Proto) (cs : List Captured)
    → IsLogged (all_called_for (by_time (stamped cs))) (analyze services cs)
      × InOrder cs (by_time (stamped cs))
unfolding analyze
analyze-IsLogged services cs = (
  run_keeps-IsLogged services (by_time (stamped cs)) [] new_pass new_pass-IsLogged,
  by_time-InOrder cs,
)
