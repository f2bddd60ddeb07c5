-- ===== src/Plan/Execute/Capacity.antt =====
-- The bounds of an execution (pkg/plan/plan_execute.go): the workers, and the channel.

-- The operations that the execution has not received as completed and that did not fail.
use nelm.Base.{
  String, ℕ, ◌+◌, ◌≤◌, Bool, true, false, some, List, [], ◌∷◌, ◌≡◌, refl, subst, inl, inr, contains,
  length, ltb, arith, some-injective, Bool-cases, ℤ, pos, negsuc,
}
use nelm.Plan.Execute.{
  Waiting, Phase, looping, draining, submitting, finishing, returned, System, channel_capacity,
  workers, initial_system, drain, submit, finish, advance_in, advance, complete_op, fail_op,
  send_op, cancel_by, Step, schedule, complete, fail, send, cancel, Reached, start, later,
  IsPredecessorMap,
}
use nelm.Plan.Execute.Membership.{length-append, remove-length, unschedule-length, mem-waits}
use nelm.Plan.Execute.Executable.{forget-length}
use nelm.Plan.Execute.Invariant.{Invariant}
use nelm.Plan.Execute.Safety.{reached-Invariant, in_phase}

unfoldable pub remaining : System → ℕ
remaining s = length s.waiting + length s.running + length s.sending + length s.channel

drain-remaining :
    (got : Bool) (channel : List String) (s : System)
    → s.channel ≡ channel
    → remaining (drain got channel s) ≤ remaining s
unfolding drain remaining
drain-remaining true [] s at = omega arith
drain-remaining false [] s at = omega arith
drain-remaining got (i ∷ channel) s at = rw (forget-length i s.waiting, at) (omega arith)

finish-remaining :
    (running sending : List String) (s s' : System)
    → finish running sending s ≡ some s'
    → (remaining s' ≡ remaining s) × (s'.running ≡ s.running) × (s'.sending ≡ s.sending)
unfolding finish remaining
finish-remaining [] [] s s' h =
    subst (λ t. (remaining t ≡ remaining s) × (t.running ≡ s.running) × (t.sending ≡ s.sending))
      (some-injective h) (refl, refl, refl)
finish-remaining [] (i ∷ sending) s s' h = cc
finish-remaining (i ∷ running) [] s s' h = cc
finish-remaining (i ∷ running) (j ∷ sending) s s' h = cc

module _ (edge : String → String → Bool) (ops : Waiting) where
  advance_in-remaining :
      (phase : Phase) (n : ℤ) (s s' : System)
      → s.phase ≡ phase
      → advance_in phase n s ≡ some s'
      → Invariant edge ops s
      → remaining s' ≤ remaining s
  unfolding advance_in submit remaining
  advance_in-remaining (looping again) n s s' at h v =
      subst (λ t. remaining t ≤ remaining s) (some-injective h) (omega arith)
  advance_in-remaining (draining got) n s s' at h v =
      subst (λ t. remaining t ≤ remaining s) (some-injective h)
        (drain-remaining got s.channel s refl)
  advance_in-remaining (submitting []) n s s' at h v =
      subst (λ t. remaining t ≤ remaining s) (some-injective h) (omega arith)
  advance_in-remaining (submitting (i ∷ batch)) n s s' at h v =
      elim (Bool-cases (ltb (length s.running + length s.sending) (workers n))) [
        | inl free ↦
            let fewer =
              unschedule-length i s.waiting
                (mem-waits s.waiting (i, []) (in_phase edge ops s v at).1.0) in
            subst (λ t. remaining t ≤ remaining s) (some-injective (rw free at h)) (omega arith)
        | inr full ↦ cc (rw full at h)
      ]
  advance_in-remaining finishing n s s' at h v =
      let same = (finish-remaining s.running s.sending s s' h).0 in omega arith
  advance_in-remaining (returned r) n s s' at h v = cc

  Step-remaining :
      (n : ℤ) (s s' : System) → Step n s s' → Invariant edge ops s → remaining s' ≤ remaining s
  unfolding advance remaining complete_op fail_op send_op cancel_by
  Step-remaining n s s' (schedule _ h) v = advance_in-remaining s.phase n s s' refl h v
  Step-remaining n s _ (complete i h) v = let fewer = remove-length i s.running h in omega arith
  Step-remaining n s _ (fail i e h) v = let fewer = remove-length i s.running h in omega arith
  Step-remaining n s _ (send i h room) v =
      let fewer = remove-length i s.sending h in rw (length-append s.channel i) (omega arith)
  Step-remaining n s _ (cancel cause h) v = omega arith

  reached-remaining :
      (n : ℤ) (s : System) → IsPredecessorMap edge ops → Reached n ops s → remaining s ≤ length ops
  unfolding remaining initial_system
  reached-remaining n _ m start = omega arith
  reached-remaining n s' m (later {s = s} r step) =
      let before = reached-remaining n s m r in
      let less = Step-remaining n s s' step (reached-Invariant edge ops n s m r) in omega arith

  -- The channel never holds more identifiers than the plan has operations, and one fewer while a
  -- worker is about to send: for a plan of at most 100000 operations no send ever blocks.
  pub channel-bound :
      (n : ℤ) (s : System)
      → IsPredecessorMap edge ops
      → Reached n ops s
      → length s.channel + length s.sending ≤ length ops
  unfolding remaining
  channel-bound n s m r = let most = reached-remaining n s m r in omega arith

  -- A worker that is about to send finds room in the channel.
  pub send-room :
      (n : ℤ) (s : System)
      → IsPredecessorMap edge ops
      → Reached n ops s
      → length ops ≤ channel_capacity
      → (i : String) → contains s.sending i ≡ true
      → ltb (length s.channel) channel_capacity ≡ true
  send-room n s m r small i h =
      let most = channel-bound n s m r in let fewer = remove-length i s.sending h in ground (arith)

pub workers-pos : (n : ℤ) → 1 ≤ workers n
unfolding workers
workers-pos (pos n) = ground (arith)
workers-pos (negsuc n) = omega arith

advance_in-workers :
    (phase : Phase) (n : ℤ) (s s' : System)
    → advance_in phase n s ≡ some s'
    → length s.running + length s.sending ≤ workers n
    → length s'.running + length s'.sending ≤ workers n
unfolding advance_in submit
advance_in-workers (looping again) n s s' h most =
    subst (λ t. length t.running + length t.sending ≤ workers n) (some-injective h) most
advance_in-workers (draining got) n s s' h most =
    subst (λ t. length t.running + length t.sending ≤ workers n) (some-injective h)
      (drained got s.channel)
  where
    drained :
        (got : Bool) (channel : List String)
        → length ((drain got channel s).running) + length ((drain got channel s).sending)
          ≤ workers n
    drained true [] = most
    drained false [] = most
    drained got (i ∷ channel) = most
advance_in-workers (submitting []) n s s' h most =
    subst (λ t. length t.running + length t.sending ≤ workers n) (some-injective h) most
advance_in-workers (submitting (i ∷ batch)) n s s' h most =
    elim (Bool-cases (ltb (length s.running + length s.sending) (workers n))) [
      | inl free ↦
          subst (λ t. length t.running + length t.sending ≤ workers n)
            (some-injective (rw free at h)) (ground (arith, free))
      | inr full ↦ cc (rw full at h)
    ]
advance_in-workers finishing n s s' h most =
    let (same, run, sent) = finish-remaining s.running s.sending s s' h in rw (run, sent) most
advance_in-workers (returned r) n s s' h most = cc

-- At every state at most max(NetworkParallelism, 1) workers are busy, whatever the asked
-- parallelism is (a negative one too).
pub workers-bound :
    (ops : Waiting) (n : ℤ) (s : System)
    → Reached n ops s
    → length s.running + length s.sending ≤ workers n
unfolding initial_system advance complete_op fail_op send_op cancel_by
workers-bound ops n _ start = let some_worker = workers-pos n in omega arith
workers-bound ops n s' (later {s = s} r (schedule _ h)) =
    advance_in-workers s.phase n s s' h (workers-bound ops n s r)
workers-bound ops n _ (later {s = s} r (complete i h)) =
    let most = workers-bound ops n s r in let fewer = remove-length i s.running h in omega arith
workers-bound ops n _ (later {s = s} r (fail i e h)) =
    let most = workers-bound ops n s r in let fewer = remove-length i s.running h in omega arith
workers-bound ops n _ (later {s = s} r (send i h room)) =
    let most = workers-bound ops n s r in let fewer = remove-length i s.sending h in omega arith
workers-bound ops n _ (later {s = s} r (cancel cause h)) = workers-bound ops n s r
