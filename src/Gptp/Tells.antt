-- ===== src/Gptp/Tells.antt =====
-- The operations on a domain of `GptpLogic` in backend/src/logic/gptp_logic.cpp, and what the shared model
-- says of the domain.
use avb_introspection.Base.{
  ℕ, ◌≡◌, refl, ◌∙◌, inl, inr, Bool, true, false, ◌&&◌, ◌||◌, arith, ◌==◌, ==_iff, if◌then◌else◌,
  Bool-cases, find_or, find_or-insert, nat_key,
}
use avb_introspection.Shared.{GptpDomainTruth}
use avb_introspection.Gptp.Types.{GmState, gm_tag, SyncState, sync_tag, Label, of_gm, of_sync, Why}
use avb_introspection.Gptp.State.{Domain, Out}
use avb_introspection.Gptp.Domains.{
  unknown_truth, truth_of, publish, emit_dom, dom_transition, sync_transition,
}

abbrev pub truth_at : ℕ → Out → GptpDomainTruth
truth_at num o = find_or unknown_truth num o.shared.gptp_domains

-- The published sync state is the domain's; and so is the grandmaster, once it is known, unless `spared`.
abbrev pub is_told : Bool → Domain → GptpDomainTruth → Bool
is_told spared d t =
    (t.sync_state == sync_tag d.sync_state)
    && (spared || ((d.gm_id == 0) || (t.gm_known && (t.gm_identity == d.gm_id))))

-- An operation on a domain takes what is told with `a` to what is told with `b`, and leaves what is said of
-- the other domains.
pub record Tells (a b : Bool) (op : Domain × Out → Domain × Out) : Type 0 where
  pub num_kept : (s : Domain × Out) → (op s).0.num ≡ s.0.num
  pub own :
      (s : Domain × Out) (num : ℕ)
      → s.0.num ≡ num
      → is_told a s.0 (truth_at num s.1) ≡ true
      → is_told b (op s).0 (truth_at num (op s).1) ≡ true
  pub others :
      (s : Domain × Out) (k : ℕ) → (k == s.0.num) ≡ false → truth_at k (op s).1 ≡ truth_at k s.1

publish-truth :
    (k : ℕ) (d : Domain) (o : Out)
    → truth_at k (publish (d, o)).1
      ≡ (if k == d.num then truth_of d (truth_at d.num o) else truth_at k o)
unfolding publish
publish-truth k d o =
    find_or-insert unknown_truth k d.num (truth_of d (truth_at d.num o)) o.shared.gptp_domains

truth_of-told :
    (a : Bool) (d : Domain) (t : GptpDomainTruth)
    → is_told true d t ≡ true
    → is_told a d (truth_of d t) ≡ true
unfolding truth_of
truth_of-told a d t h = ground (
  arith,
  h,
  ==_iff t.sync_state (sync_tag d.sync_state),
  ==_iff d.gm_id d.gm_id,
  ==_iff (sync_tag d.sync_state) 1,
  ==_iff (sync_tag d.sync_state) 2,
)

publish-domain : (s : Domain × Out) → (publish s).0 ≡ s.0
unfolding publish
publish-domain (d, o) = refl

pub publish-Tells : (a : Bool) → Tells true a publish
publish-Tells a = record {
  num_kept = λ s. ground (arith, publish-domain s);
  own = λ (d, o) num e h. ground (
    arith,
    e,
    publish-domain (d, o),
    publish-truth num d o,
    ==_iff num d.num,
    truth_of-told a d (truth_at num o) h,
  );
  others = λ (d, o) k ne. ground (arith, ne, publish-truth k d o);
}

-- An operation that neither publishes nor touches what is published.
pub still-Tells :
    (a : Bool) (op : Domain × Out → Domain × Out)
    → ((s : Domain × Out)
        → ((op s).0.num ≡ s.0.num)
          × (((op s).0.sync_state ≡ s.0.sync_state)
              × (((op s).0.gm_id ≡ s.0.gm_id) × ((op s).1.shared ≡ s.1.shared))))
    → Tells a a op
still-Tells a op keeps = record {
  num_kept = λ s. (keeps s).0;
  own = λ s num e h. rw ((keeps s).1.0, (keeps s).1.1.0, (keeps s).1.1.1) h;
  others = λ s k ne. rw (keeps s).1.1.1 refl;
}

-- An operation after which the grandmaster may not be told yet.
pub regm-Tells :
    (a : Bool) (op : Domain × Out → Domain × Out)
    → ((s : Domain × Out)
        → ((op s).0.num ≡ s.0.num)
          × (((op s).0.sync_state ≡ s.0.sync_state) × ((op s).1.shared ≡ s.1.shared)))
    → Tells a true op
regm-Tells a op keeps = record {
  num_kept = λ s. (keeps s).0;
  own = λ s num e h. rw ((keeps s).1.0, (keeps s).1.1) (ground (arith, h));
  others = λ s k ne. rw (keeps s).1.1 refl;
}

pub Tells-then :
    {a b c : Bool} {f g : Domain × Out → Domain × Out}
    → Tells a b f
    → Tells b c g
    → Tells a c (λ s. g (f s))
Tells-then p q = record {
  num_kept = λ s. q.num_kept _ ∙ p.num_kept s;
  own = λ s num e h. q.own _ num (p.num_kept s ∙ e) (p.own s num e h);
  others = λ s k ne. q.others _ k (ground (arith, ne, p.num_kept s)) ∙ p.others s k ne;
}

pub Tells-if :
    {a b : Bool} {f g : Domain × Out → Domain × Out} (test : Domain × Out → Bool)
    → Tells a b f
    → Tells a b g
    → Tells a b (λ s. if test s then f s else g s)
Tells-if test p q = record {
  num_kept =
      λ s. elim (Bool-cases (test s)) [ inl e ↦ rw e (p.num_kept s) | inr e ↦ rw e (q.num_kept s) ];
  own = λ s num same h. elim (Bool-cases (test s)) [
    | inl e ↦ rw e (p.own s num same h)
    | inr e ↦ rw e (q.own s num same h)
  ];
  others = λ s k ne. elim (Bool-cases (test s)) [
    | inl e ↦ rw e (p.others s k ne)
    | inr e ↦ rw e (q.others s k ne)
  ];
}

pub idle-Tells : (a : Bool) → Tells a a (λ s. s)
idle-Tells a = still-Tells a (λ s. s) (λ s. (refl, (refl, (refl, refl))))

pub emit_dom-Tells :
    (a : Bool) (ts n : ℕ) (from to : Label) (why : Why) → Tells a a (emit_dom ts n from to why)
unfolding emit_dom
emit_dom-Tells a ts n from to why =
    still-Tells a (emit_dom ts n from to why) (λ s. (refl, (refl, (refl, refl))))

pub spare : {a b : Bool} {f : Domain × Out → Domain × Out} → Tells true b f → Tells a b f
spare {a} p = record {
  num_kept = p.num_kept;
  own = λ s num e h. p.own s num e (ground (arith, h));
  others = p.others;
}

pub dom_transition-Tells :
    (a : Bool) (ts n : ℕ) (to : GmState) (why : Domain × Out → Why)
    → Tells a a (λ s. dom_transition ts n to (why s) s)
unfolding dom_transition emit_dom
dom_transition-Tells a ts n to why =
    Tells-if (λ s. gm_tag s.0.gm_state == gm_tag to) (idle-Tells a)
      (Tells-then
        (still-Tells a
          (λ (d, o).
            emit_dom ts n (of_gm d.gm_state) (of_gm to) (why (d, o))
              (record d { gm_state = to }, o))
          (λ s. (refl, (refl, (refl, refl)))))
        (spare (publish-Tells a)))

truth_of-moved :
    (a : Bool) (d : Domain) (t : GptpDomainTruth)
    → ((sync_tag d.sync_state == 1) || (sync_tag d.sync_state == 2)) ≡ true
    → is_told a d (truth_of d t) ≡ true
unfolding truth_of
truth_of-moved a d t h = ground (
  arith,
  h,
  ==_iff d.gm_id d.gm_id,
  ==_iff (sync_tag d.sync_state) 1,
  ==_iff (sync_tag d.sync_state) 2,
)

pub sync_transition-Tells :
    (a : Bool) (ts n : ℕ) (to : SyncState) (why : Domain × Out → Why)
    → ((sync_tag to == 1) || (sync_tag to == 2)) ≡ true
    → Tells a a (λ s. sync_transition ts n to (why s) s)
unfolding sync_transition emit_dom
sync_transition-Tells a ts n to why moved =
    Tells-if (λ s. sync_tag s.0.sync_state == sync_tag to) (idle-Tells a)
      (record {
        num_kept = λ s. ground (arith, publish-domain (moving s));
        own = λ s num e h. ground (
          arith,
          e,
          publish-domain (moving s),
          publish-truth num (moving s).0 (moving s).1,
          ==_iff num s.0.num,
          truth_of-moved a (moving s).0 (truth_at num s.1) moved,
        );
        others = λ s k ne. ground (arith, ne, publish-truth k (moving s).0 (moving s).1);
      })
  where
    moving : Domain × Out → Domain × Out
    moving (d, o) =
        emit_dom ts n (of_sync d.sync_state) (of_sync to) (why (d, o))
          (record d { sync_state = to }, o)
