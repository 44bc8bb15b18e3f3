-- ===== src/Msrp/Settle.antt =====
-- `recompute` of `MsrpLogic` in backend/src/logic/msrp_logic.cpp: the state that the declarations call for, and
-- what is published of it.
use avb_introspection.Base.{
  ℕ, ◌≡◌, refl, Bool, true, ◌&&◌, not, Option, none, some, ◌==◌, if◌then◌else◌, arith, Dict, Set,
  find, find-insert, find-erase, contains, contains-add, contains-remove, nat_key,
}
use avb_introspection.Context.{VarLayerContext}
use avb_introspection.Msrp.{
  Decl, decl_none, advertise, failed, decl_code, State, tag, same, new, withdrawn,
  talker_failed_state, established, listener_failed, pending_state, Why, Res, Out, shown, any_ready,
  any_ask_failed, is_none, target, move_to, recompute, event_of, declare, publish_decl,
}

abbrev pub decl_entry : Decl → Option ℕ
decl_entry decl_none = none
decl_entry advertise = some 1
decl_entry failed = some 2

-- The state is the one that the declarations call for.
abbrev pub Settled : Res → Type 0
Settled r =
    (same r.state established ≡ ((decl_code r.decl == 1) && any_ready r.listeners))
    × (same r.state talker_failed_state ≡ (decl_code r.decl == 2))
    × ((same r.state pending_state && (decl_code r.decl == 1)) ≡ (
        (decl_code r.decl == 1)
        && (not (any_ready r.listeners) && not (any_ask_failed r.listeners))))

tag-shown : (a : State) → tag (shown a) ≡ (if tag a == 0 then 1 else tag a)
tag-shown State.unset = refl
tag-shown new = refl
tag-shown withdrawn = refl
tag-shown talker_failed_state = refl
tag-shown established = refl
tag-shown listener_failed = refl
tag-shown pending_state = refl

decl_entry-code : (d : Decl) → decl_entry d ≡ (if is_none d then none else some (decl_code d))
decl_entry-code decl_none = refl
decl_entry-code advertise = refl
decl_entry-code failed = refl

is_none-code : (d : Decl) → is_none d ≡ (decl_code d == 0)
is_none-code decl_none = refl
is_none-code advertise = refl
is_none-code failed = refl

-- The shared model against what it was before a call on the reservation `id`: the streams `s` and the
-- declarations `d`.
pub record Agrees (id : ℕ) (s : Set) (d : Dict ℕ ℕ) (r : Res × Out) : Type 0 where
  pub places :
      (b : ℕ)
      → contains b r.1.shared.established_streams
        ≡ (if b == id then same r.0.state established else contains b s)
  pub decls :
      (b : ℕ)
      → find b r.1.shared.msrp_talker_decl ≡ (if b == id then decl_entry r.0.decl else find b d)

module _ (id : ℕ) (s : Set) (d : Dict ℕ ℕ) where
  move_to-Agrees :
      (ts n : ℕ) (to : State) (why : Why) (r : Res × Out)
      → r.0.stream_id ≡ id
      → Agrees id s d r
      → Agrees id s d (move_to ts n to why r)
  unfolding move_to
  move_to-Agrees ts n to why (r, o) own g = record {
    places = λ b. ground (
      arith,
      own,
      g.places b,
      tag-shown r.state,
      contains-add b r.stream_id o.shared.established_streams,
      contains-remove b r.stream_id o.shared.established_streams,
    );
    decls = λ b. ground (arith, g.decls b);
  }

pub recompute-Settled :
    (ts n : ℕ) (why : Why) (withdrew : Bool) (r : Res × Out)
    → (withdrew ≡ true → is_none r.0.decl ≡ true)
    → Settled (recompute ts n why withdrew r).0
unfolding recompute move_to target
recompute-Settled ts n why withdrew (r, o) e = (
  ground (arith, e, tag-shown r.state, is_none-code r.decl),
  ground (arith, e, tag-shown r.state, is_none-code r.decl),
  ground (arith, e, tag-shown r.state, is_none-code r.decl),
)

pub recompute-Agrees :
    (id : ℕ) (s : Set) (d : Dict ℕ ℕ) (ts n : ℕ) (why : Why) (withdrew : Bool) (r : Res × Out)
    → r.0.stream_id ≡ id
    → Agrees id s d r
    → Agrees id s d (recompute ts n why withdrew r)
unfolding recompute
recompute-Agrees id s d ts n why withdrew (r, o) own g =
    move_to-Agrees id s d ts n _ why (_, o) own (record { places = g.places; decls = g.decls })

pub declare-kept :
    (v : VarLayerContext) (r : Res)
    → ((declare v r).0.stream_id ≡ r.stream_id) × ((declare v r).0.state ≡ r.state)
unfolding declare
declare-kept v r = (ground arith, ground arith)

pub declare_withdraws :
    (v : VarLayerContext) (r : Res) → (event_of v == 5) ≡ true → is_none (declare v r).0.decl ≡ true
unfolding declare
declare_withdraws v r e = ground (arith, e)

pub publish_decl-Agrees :
    (id : ℕ) (s : Set) (d : Dict ℕ ℕ) (r r' : Res) (o : Out)
    → r'.stream_id ≡ id
    → r'.state ≡ r.state
    → Agrees id s d (r, o)
    → Agrees id s d (r', record o { shared = publish_decl r' o.shared })
unfolding publish_decl
publish_decl-Agrees id s d r r' o own kept g = record {
  places = λ b. ground (arith, kept, g.places b);
  decls = λ b. ground (
    arith,
    own,
    g.decls b,
    decl_entry-code r'.decl,
    find-erase b r'.stream_id o.shared.msrp_talker_decl,
    find-insert b r'.stream_id (decl_code r'.decl) o.shared.msrp_talker_decl,
  );
}
