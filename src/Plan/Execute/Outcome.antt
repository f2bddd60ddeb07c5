-- ===== src/Plan/Execute/Outcome.antt =====
-- What ExecutePlan (pkg/plan/plan_execute.go) returns when nothing has cancelled it.

-- A step of the scheduler leaves the errors alone, and returns what they say.
use nelm.Base.{
  String, ◌+◌, Bool, true, false, Option, none, some, List, [], ◌∷◌, ◌≡◌, ◌≢◌, refl, sym, ◌∙◌,
  subst, inl, inr, Result, ok, Err, length, ltb, some-injective, Bool-cases, ℤ,
}
use nelm.Plan.Execute.{
  Waiting, Phase, looping, draining, submitting, finishing, returned, System, workers,
  initial_system, enter_loop, drain, submit, outcome, finish, advance_in, advance, first_of,
  complete_op, fail_op, send_op, cancel_by, schedule, complete, fail, send, cancel, Reached, start,
  later,
}

record Quiet (s s' : System) : Type 0 where
  same_cause : s'.cancelled ≡ s.cancelled
  same_failure : s'.failure ≡ s.failure
  result : (r : Result {0} Unit) → s'.phase ≡ returned r → r ≡ outcome s.failure s.cancelled

enter_loop-returned :
    (again : Bool) (waiting : Waiting) (cancelled : Option Err) (r : Result {0} Unit)
    → enter_loop again waiting cancelled ≢ returned r
unfolding enter_loop
enter_loop-returned again [] cancelled r h = cc
enter_loop-returned false (e ∷ waiting) cancelled r h = cc
enter_loop-returned true (e ∷ waiting) (some cause) r h = cc
enter_loop-returned true (e ∷ waiting) none r h = cc

drain-Quiet : (got : Bool) (channel : List String) (s : System) → Quiet s (drain got channel s)
unfolding drain
drain-Quiet true [] s = record { same_cause = refl; same_failure = refl; result = λ r h. cc }
drain-Quiet false [] s = record { same_cause = refl; same_failure = refl; result = λ r h. cc }
drain-Quiet got (i ∷ l) s = record { same_cause = refl; same_failure = refl; result = λ r h. cc }

returned-injective : {a b : Result {0} Unit} → returned a ≡ returned b → a ≡ b
returned-injective h = cc

finish-Quiet :
    (running sending : List String) (s s' : System)
    → finish running sending s ≡ some s'
    → Quiet s s'
unfolding finish
finish-Quiet [] [] s s' h =
    subst (Quiet s) (some-injective h) (record {
      same_cause = refl;
      same_failure = refl;
      result = λ r h. returned-injective (sym h);
    })
finish-Quiet [] (i ∷ sending) s s' h = cc
finish-Quiet (i ∷ running) [] s s' h = cc
finish-Quiet (i ∷ running) (j ∷ sending) s s' h = cc

advance_in-Quiet :
    (phase : Phase) (n : ℤ) (s s' : System) → advance_in phase n s ≡ some s' → Quiet s s'
unfolding advance_in submit
advance_in-Quiet (looping again) n s s' h = subst (Quiet s) (some-injective h) (record {
  same_cause = refl;
  same_failure = refl;
  result = λ r h. absurd (enter_loop-returned again s.waiting s.cancelled r h);
})
advance_in-Quiet (draining got) n s s' h =
    subst (Quiet s) (some-injective h) (drain-Quiet got s.channel s)
advance_in-Quiet (submitting []) n s s' h =
    subst (Quiet s) (some-injective h)
      (record { same_cause = refl; same_failure = refl; result = λ r h. cc })
advance_in-Quiet (submitting (i ∷ batch)) n s s' h =
    elim (Bool-cases (ltb (length s.running + length s.sending) (workers n))) [
      | inl free ↦
          subst (Quiet s) (some-injective (rw free at h))
            (record { same_cause = refl; same_failure = refl; result = λ r h. cc })
      | inr full ↦ cc (rw full at h)
    ]
advance_in-Quiet finishing n s s' h = finish-Quiet s.running s.sending s s' h
advance_in-Quiet (returned r) n s s' h = cc

-- Without a cancellation no worker has failed, and what is returned is nil.
pub record Intact (s : System) : Type 0 where
  pub no_failure : s.cancelled ≡ none → s.failure ≡ none
  pub nil : (r : Result {0} Unit) → s.phase ≡ returned r → s.cancelled ≡ none → r ≡ ok tt

first_of-none : (cancelled : Option Err) (e : Err) → first_of cancelled e ≢ none
unfolding first_of
first_of-none none e h = cc
first_of-none (some first) e h = cc

Quiet-Intact : (s s' : System) → Quiet s s' → Intact s → Intact s'
unfolding outcome
Quiet-Intact s s' q i = record {
  no_failure = λ h. q.same_failure ∙ i.no_failure (sym q.same_cause ∙ h);
  nil = λ r at h.
      let intact = sym q.same_cause ∙ h in rw (q.result r at, intact, i.no_failure intact) refl;
}

pub reached-Intact : (n : ℤ) (ops : Waiting) (s : System) → Reached n ops s → Intact s
unfolding initial_system advance complete_op fail_op send_op cancel_by
reached-Intact n ops _ start = record { no_failure = λ h. refl; nil = λ r at h. cc }
reached-Intact n ops s' (later {s = s} r (schedule _ h)) =
    Quiet-Intact s s' (advance_in-Quiet s.phase n s s' h) (reached-Intact n ops s r)
reached-Intact n ops _ (later {s = s} r (complete i h)) =
    let before = reached-Intact n ops s r in
    record { no_failure = before.no_failure; nil = before.nil }
reached-Intact n ops _ (later {s = s} r (fail i e h)) = record {
  no_failure = λ h. absurd (first_of-none s.cancelled _ h);
  nil = λ r at h. absurd (first_of-none s.cancelled _ h);
}
reached-Intact n ops _ (later {s = s} r (send i h room)) =
    let before = reached-Intact n ops s r in
    record { no_failure = before.no_failure; nil = before.nil }
reached-Intact n ops _ (later {s = s} r (cancel cause h)) = record {
  no_failure = λ h. cc;
  nil = λ r at h. cc;
}
