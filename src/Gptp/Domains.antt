-- ===== src/Gptp/Domains.antt =====
-- What `GptpLogic` of backend/src/logic/gptp_logic.cpp does to one domain whatever the message: its
-- transitions, what it publishes, and `evalBmca`. An operation also takes the shared model and the
-- reports not yet drained.
use avb_introspection.Base.{
  ℕ, ◌+◌, ◌*◌, ◌/◌, Bool, true, false, ◌&&◌, ◌||◌, not, Option, none, some, List, [], ◌∷◌, ◌++◌,
  ltb, ◌==◌, if◌then◌else◌, Dict, find, find_or, insert, push_capped, nat_key,
}
use avb_introspection.Shared.{GptpDomainTruth}
use avb_introspection.Gptp.Types.{
  second, announce_timeout_n, hist_cap, overdue, GmState, gm_tag, SyncState, sync_tag, Label, of_gm,
  of_sync, Why, of_domain, Entry, Report,
}
use avb_introspection.Gptp.State.{AnnVec, Domain, Out}

abbrev pub unknown_truth : GptpDomainTruth
unknown_truth = record { gm_known = false; gm_identity = 0; sync_state = 0 }

-- `publish`.
unfoldable pub truth_of : Domain → GptpDomainTruth → GptpDomainTruth
truth_of d t = record {
  gm_known = if d.gm_id == 0 then t.gm_known else true;
  gm_identity = if d.gm_id == 0 then t.gm_identity else d.gm_id;
  sync_state =
      if sync_tag d.sync_state == 1
      then 1
      else if sync_tag d.sync_state == 2
      then 2
      else t.sync_state;
}

unfoldable pub publish : Domain × Out → Domain × Out
publish (d, o) =
    let t = truth_of d (find_or unknown_truth d.num o.shared.gptp_domains) in
    (
      d,
      record o {
        shared = record (o.shared) { gptp_domains = insert d.num t o.shared.gptp_domains };
      },
    )

unfoldable pub emit_dom : ℕ → ℕ → Label → Label → Why → Domain × Out → Domain × Out
emit_dom ts n from to why (d, o) =
    let entry : Entry = record { ts = ts; n = n; from = from; to = to; why = why } in
    let report : Report = record {
      object = of_domain d.num d.gm_id;
      from = from;
      to = to;
      why = why;
      name = "";
      stream = none;
    } in
    (
      record d { hist = push_capped hist_cap d.hist entry },
      record o { pending = o.pending ++ report ∷ [] },
    )

unfoldable pub dom_transition : ℕ → ℕ → GmState → Why → Domain × Out → Domain × Out
dom_transition ts n to why (d, o) =
    if gm_tag d.gm_state == gm_tag to
    then (d, o)
    else publish (emit_dom ts n (of_gm d.gm_state) (of_gm to) why (record d { gm_state = to }, o))

unfoldable pub sync_transition : ℕ → ℕ → SyncState → Why → Domain × Out → Domain × Out
sync_transition ts n to why (d, o) =
    if sync_tag d.sync_state == sync_tag to
    then (d, o)
    else publish
        (emit_dom ts n (of_sync d.sync_state) (of_sync to) why (record d { sync_state = to }, o))

-- `betterThan`: the tuples compared from the left.
unfoldable pub lex_less : List (ℕ × ℕ) → Bool
lex_less [] = false
lex_less ((a, b) ∷ rest) = let later = lex_less rest in ltb a b || ((a == b) && later)

unfoldable pub better_than : AnnVec → AnnVec → Bool
better_than a o = lex_less (
    (a.p1, o.p1)
    ∷ (a.clock_class, o.clock_class)
    ∷ (a.accuracy, o.accuracy)
    ∷ (a.variance, o.variance)
    ∷ (a.p2, o.p2)
    ∷ (a.gm_id, o.gm_id)
    ∷ (a.steps_removed, o.steps_removed)
    ∷ (a.src_clock, o.src_clock)
    ∷ (a.src_port, o.src_port)
    ∷ [])

abbrev pub is_aged : ℕ → AnnVec → Bool
is_aged ts vec = overdue ts vec.last_ts (announce_timeout_n * vec.announce_interval + second / 2)

-- The loops of `evalBmca`: over the announcers that are erased, and over those that remain.
unfoldable pub age_out : ℕ → Dict ℕ AnnVec → Dict ℕ AnnVec
age_out ts [] = []
age_out ts ((key, vec) ∷ m) =
    let rest = age_out ts m in if is_aged ts vec then rest else (key, vec) ∷ rest

abbrev pub pick : Option AnnVec → AnnVec → Option AnnVec
pick none vec = some vec
pick (some best) vec = if better_than vec best then some vec else some best

unfoldable pub best_of : Option AnnVec → Dict ℕ AnnVec → Option AnnVec
best_of best [] = best
best_of best ((key, vec) ∷ m) = best_of (pick best vec) m

abbrev pub set_expected : Option AnnVec → Domain → Domain
set_expected none d = record d { expected_gm = 0; expected_p1 = 0; have_expected_vec = false }
set_expected (some best) d = record d {
  expected_gm = best.gm_id;
  expected_p1 = best.p1;
  have_expected_vec = true;
  expected_vec = best;
}

abbrev pub set_sync_vec : Option AnnVec → Domain → Domain
set_sync_vec none d = record d { have_sync_vec = false; sync_sender_p1 = 255 }
set_sync_vec (some vec) d = record d {
  have_sync_vec = true;
  sync_vec = vec;
  sync_sender_p1 = vec.p1;
}

unfoldable pub eval_bmca : ℕ → Domain → Domain
eval_bmca ts d =
    let left = age_out ts d.announcers in
    set_sync_vec (find d.sync_sender left)
      (set_expected (best_of none left) (record d { announcers = left }))

-- `bmcaState`.
pub data Bmca : Type 0 where
  bmca_unknown converged tiebreak priority_inversion : Bmca

unfoldable pub same_quality : AnnVec → AnnVec → Bool
same_quality a b =
    (a.p1 == b.p1)
    && ((a.clock_class == b.clock_class)
        && ((a.accuracy == b.accuracy) && ((a.variance == b.variance) && (a.p2 == b.p2))))

unfoldable pub bmca_state : Domain → Bmca
bmca_state d =
    if (d.expected_gm == 0) || (d.sync_sender_gm == 0)
    then bmca_unknown
    else if d.expected_gm == d.sync_sender_gm
    then converged
    else if not d.have_expected_vec || not d.have_sync_vec
    then bmca_unknown
    else if same_quality d.expected_vec d.sync_vec
    then tiebreak
    else priority_inversion
