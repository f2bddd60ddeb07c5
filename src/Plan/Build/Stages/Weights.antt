-- ===== src/Plan/Build/Stages/Weights.antt =====
-- addWeightedSubStages (pkg/plan/plan_build.go): how the weights of the stages are collected, sorted
-- and freed of duplicates.
use mathlib.Core.List.Memᴰ
use mathlib.Core.Logic.{⊎_elim}
use nelm.Base.{
  Bool, true, Option, none, some, List, [], ◌∷◌, ◌++◌, Memᴰ, ◌≡◌, refl, ap, sym, ◌∙◌, subst, ◌==◌,
  ◌⊎◌, inl, inr, filter_by, arith, eq_iff, some-injective, Bool-cases, ℤ,
}
use nelm.Common.{Stage}
use nelm.Resource.{IntPtr}
use nelm.Plan.Info.{InstallableResourceInfo}
use nelm.Plan.Build.Stages.{
  int_le, int_eq, insert_int, sort_ints, uniq_ints, StageWeights, append_weight, collect_weight,
  collect_weights,
}
use mathlib.Core.Bool.{false≢true}

int_eq→eq : (a b : ℤ) → int_eq a b ≡ true → a ≡ b
unfolding int_eq
int_eq→eq a b h = ground arith

mem-insert_int : (a b : ℤ) (l : List ℤ) → (a ≡ b) ⊎ Memᴰ a l → Memᴰ a (insert_int b l)
unfolding insert_int
mem-insert_int a b [] (inl e) = Memᴰ.head e
mem-insert_int a b [] (inr m) = absurd (Memᴰ.not-nil m)
mem-insert_int a b (c ∷ l) m = elim (Bool-cases (int_le b c)) [
  | inl e ↦ rw e (⊎_elim Memᴰ.head Memᴰ.tail m)
  | inr e ↦ rw e (
      ⊎_elim (λ same. Memᴰ.tail (mem-insert_int a b l (inl same)))
        (λ old.
          ⊎_elim Memᴰ.head (λ later. Memᴰ.tail (mem-insert_int a b l (inr later)))
            (Memᴰ.cases_cons old))
        m)
]

pub mem-sort_ints : (a : ℤ) (l : List ℤ) → Memᴰ a l → Memᴰ a (sort_ints l)
unfolding sort_ints
mem-sort_ints a [] m = m
mem-sort_ints a (b ∷ l) m =
    mem-insert_int a b (sort_ints l)
      (⊎_elim inl (λ later. inr (mem-sort_ints a l later)) (Memᴰ.cases_cons m))

mem-filter_by : (p : ℤ → Bool) (a : ℤ) (l : List ℤ) → p a ≡ true → Memᴰ a l → Memᴰ a (filter_by p l)
mem-filter_by p a [] h m = m
mem-filter_by p a (b ∷ l) h m = elim (Bool-cases (p b)) [
  | inl e ↦
      rw e (⊎_elim Memᴰ.head (λ later. Memᴰ.tail (mem-filter_by p a l h later)) (Memᴰ.cases_cons m))
  | inr e ↦ rw e (
      ⊎_elim (λ same. absurd (false≢true (sym e ∙ sym (ap p same) ∙ h)))
        (λ later. mem-filter_by p a l h later) (Memᴰ.cases_cons m))
]

pub mem-uniq_ints : (a : ℤ) (l : List ℤ) → Memᴰ a l → Memᴰ a (uniq_ints l)
unfolding uniq_ints
mem-uniq_ints a [] m = m
mem-uniq_ints a (b ∷ l) m = elim (Bool-cases (int_eq b a)) [
  | inl e ↦ Memᴰ.head (sym (int_eq→eq b a e))
  | inr e ↦
      ⊎_elim Memᴰ.head
        (λ later. Memᴰ.tail (mem-filter_by _ a (uniq_ints l) (rw e) (mem-uniq_ints a l later)))
        (Memᴰ.cases_cons m)
]

-- The map has the weight under the stage.
unfoldable pub HasWeight : Stage → ℤ → StageWeights → Type 0
HasWeight stage w m = (ws : List ℤ) × Memᴰ (stage, ws) m × Memᴰ w ws

append_weight_self :
    (stage : Stage) (w : ℤ) (m : StageWeights) → HasWeight stage w (append_weight stage w m)
unfolding append_weight HasWeight
append_weight_self stage w [] = (w ∷ [], Memᴰ.head refl, Memᴰ.head refl)
append_weight_self stage w ((s, ws) ∷ m) = elim (Bool-cases (s == stage)) [
  | inl e ↦ rw e (
    ws ++ w ∷ [],
    Memᴰ.head (ap (λ k. (k, ws ++ w ∷ [])) (sym ((eq_iff s stage).0 e))),
    Memᴰ.append_right ws (Memᴰ.head refl),
  )
  | inr e ↦ let (ws', entry, has) = append_weight_self stage w m in rw e (ws', Memᴰ.tail entry, has)
]

append_weight_keeps :
    (stage' stage : Stage) (w' w : ℤ) (m : StageWeights)
    → HasWeight stage w m
    → HasWeight stage w (append_weight stage' w' m)
unfolding append_weight HasWeight
append_weight_keeps stage' stage w' w [] (ws, entry, has) = absurd (Memᴰ.not-nil entry)
append_weight_keeps stage' stage w' w ((s, vs) ∷ m) (ws, entry, has) =
    elim (Bool-cases (s == stage')) [
      | inl e ↦ rw e (
          ⊎_elim
            (λ same. (
              vs ++ w' ∷ [],
              Memᴰ.head (ap (λ (p : Stage × List ℤ). (p.0, vs ++ w' ∷ [])) same),
              Memᴰ.append_left (w' ∷ [])
                  (subst (Memᴰ w) (ap (λ (p : Stage × List ℤ). p.1) same) has),
            ))
            (λ later. (ws, Memᴰ.tail later, has)) (Memᴰ.cases_cons entry))
      | inr e ↦ rw e (
          ⊎_elim (λ same. (ws, Memᴰ.head same, has))
            (λ later.
              let (ws', entry', has') = append_weight_keeps stage' stage w' w m (ws, later, has) in
              (ws', Memᴰ.tail entry', has'))
            (Memᴰ.cases_cons entry))
    ]

collect_weight_keeps :
    (stage' stage : Stage) (p : Option IntPtr) (w : ℤ) (m : StageWeights)
    → HasWeight stage w m
    → HasWeight stage w (collect_weight stage' p m)
unfolding collect_weight
collect_weight_keeps stage' stage none w m h = h
collect_weight_keeps stage' stage (some p) w m h = append_weight_keeps stage' stage p.value w m h

collect_weight_self :
    (stage : Stage) (p : Option IntPtr) (w : IntPtr) (m : StageWeights)
    → p ≡ some w
    → HasWeight stage w.value (collect_weight stage p m)
unfolding collect_weight
collect_weight_self stage none w m e = absurd (cc e)
collect_weight_self stage (some p) w m e =
    subst (λ k. HasWeight stage k.value (append_weight stage p.value m)) (some-injective e)
      (append_weight_self stage p.value m)

collect_weights_keeps :
    (infos : List InstallableResourceInfo) (stage : Stage) (w : ℤ) (m : StageWeights)
    → HasWeight stage w m
    → HasWeight stage w (collect_weights infos m)
unfolding collect_weights
collect_weights_keeps [] stage w m h = h
collect_weights_keeps (info ∷ infos) stage w m h =
    collect_weights_keeps infos stage w _
      (collect_weight_keeps info.stage stage info.local_resource.weight w m h)

pub collect_weights_mem :
    (infos : List InstallableResourceInfo) (info : InstallableResourceInfo) (w : IntPtr)
    (m : StageWeights)
    → Memᴰ info infos
    → info.local_resource.weight ≡ some w
    → HasWeight info.stage w.value (collect_weights infos m)
unfolding collect_weights
collect_weights_mem [] info w m i e = absurd (Memᴰ.not-nil i)
collect_weights_mem (x ∷ infos) info w m i e =
    ⊎_elim
      (λ same.
        subst
          (λ k.
            HasWeight info.stage w.value
              (collect_weights infos (collect_weight k.stage k.local_resource.weight m)))
          same
          (collect_weights_keeps infos info.stage w.value _
            (collect_weight_self info.stage info.local_resource.weight w m e)))
      (λ later. collect_weights_mem infos info w _ later e) (Memᴰ.cases_cons i)
