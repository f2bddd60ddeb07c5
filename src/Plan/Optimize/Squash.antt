-- ===== src/Plan/Optimize/Squash.antt =====
-- SquashOperation (pkg/plan/plan.go): the vertex goes, and the paths between the others stay.
use nelm.Base.{
  String, true, false, none, ◌≡◌, ◌↔◌, refl, ap, sym, ◌∙◌, subst, ◌==◌, ◌&&◌, ◌||◌, not, inl, inr,
  ok, if◌then◌else◌, arith, eq_iff, >>=-eq-ok, must-eq-ok, Bool-cases,
}
use nelm.Plan.Operation.{Operation, id}
use nelm.Plan.Execute.Membership.{text_eq_self}
use nelm.Plan.Optimize.{
  GraphEdits, NoCycle, IsGraphEdits, remove_incoming, remove_outgoing, connect_pairs,
  squash_operation,
}
use nelm.Plan.Chain.Becomes.{Edges}
use nelm.Plan.Optimize.Connected.{
  connect_pairs-Becomes, remove_incoming-Becomes, remove_outgoing-Becomes,
}
use nelm.Plan.Graph.{GraphLib, IsGraphLib}
use nelm.Plan.Graph.Paths.{Reaches, here, next, Reaches-mono}
use mathlib.Core.Bool.{false≢true}

-- The edges without a vertex that others are connected past.
abbrev past : Edges → String → Edges
past e x i j = (e i j && not (e i x && x == j)) && not (x == i && e x j) || e i x && e x j

module _ (e : Edges) (x : String) (loop : e x x ≡ false) where
  past-keep :
      (i j : String) → (x == i) ≡ false → (x == j) ≡ false → e i j ≡ true → past e x i j ≡ true
  past-keep i j fi fj h = rw (fi, fj, h) (ground (arith))

  past-through : (i j : String) → e i x ≡ true → e x j ≡ true → past e x i j ≡ true
  past-through i j h k = rw (h, k) (ground (arith))

  no_loop : (b : String) → (x == b) ≡ true → e x b ≡ true → ⊥
  no_loop b same h = false≢true (sym loop ∙ subst (λ y. e x y ≡ true) (sym ((eq_iff x b).0 same)) h)

  -- A walk to another vertex, from another vertex or from the one that goes.
  Past : String → String → Type 0
  Past i j =
      ((x == i) ≡ false → Reaches (past e x) i j)
      × ((x == i) ≡ true → (p : String) → e p x ≡ true → Reaches (past e x) p j)

  walk-Past : {i j : String} → (x == j) ≡ false → Reaches e i j → Past i j
  unfolding Past
  walk-Past fj here = (λ _. here, λ same p h. absurd (false≢true (sym fj ∙ same)))
  walk-Past {i} {j} fj (next {b = b} h walk) =
      let (on, through) = walk-Past fj walk in
      (
        λ fi. elim (Bool-cases (x == b)) [
          | inr fb ↦ next (past-keep i b fi fb h) (on fb)
          | inl same ↦ through same i (subst (λ y. e i y ≡ true) (sym ((eq_iff x b).0 same)) h)
        ],
        λ at p k.
            let from_x : e x b ≡ true = subst (λ y. e y b ≡ true) (sym ((eq_iff x i).0 at)) h in
            elim (Bool-cases (x == b)) [
              | inl again ↦ absurd (no_loop b again from_x)
              | inr fb ↦ next (past-through p b k from_x) (on fb)
            ],
      )

  -- A path between others goes past the vertex.
  Reaches-past :
      (i j : String) → (x == i) ≡ false → (x == j) ≡ false → Reaches e i j → Reaches (past e x) i j
  unfolding Past
  Reaches-past i j fi fj walk = (walk-Past fj walk).0 fi

-- And a path past the vertex is one of the graph.
past-Reaches : (e : Edges) (x i j : String) → Reaches (past e x) i j → Reaches e i j
past-Reaches e x i j here = here
past-Reaches e x i j (next {b = b} h walk) = elim (Bool-cases (e i x && e x b)) [
  | inl both ↦
      let to_x : e i x ≡ true = ground (arith, both) in
      let from_x : e x b ≡ true = ground (arith, both) in
      next to_x (next from_x (past-Reaches e x b j walk))
  | inr none_such ↦
      let straight : e i b ≡ true = ground (arith, h, none_such) in
      next straight (past-Reaches e x b j walk)
]

Reaches-same :
    {e e' : Edges}
    → ((i j : String) → e' i j ≡ e i j)
    → (i j : String) → Reaches e i j
    → Reaches e' i j
Reaches-same same i j = Reaches-mono (λ a b h. same a b ∙ h)

module _ (lib : GraphLib) (laws : IsGraphLib lib) (edits : GraphEdits lib)
    (edit_laws : IsGraphEdits lib edits) where
  open lib use {Graph, vertex, edge}

  no_self_loop : (g : Graph) (x : String) → NoCycle lib g → edge g x x ≡ false
  no_self_loop g x acyclic = elim (Bool-cases (edge g x x)) [
    | inl h ↦ absurd (acyclic x x h here)
    | inr h ↦ h
  ]

  -- What a squash makes of the vertices and the edges.
  record Squashed (x : String) (g g' : Graph) : Type 0 where
    vertices : (i : String) → vertex g' i ≡ (if x == i then none else vertex g i)
    edges : (i j : String) → edge g' i j ≡ past (edge g) x i j

  squash_operation-Squashed :
      (g g' : Graph) (op : Operation)
      → squash_operation lib edits g op ≡ ok g'
      → Squashed (id op) g g'
  unfolding squash_operation
  squash_operation-Squashed g g' op h =
      let (g₁, e₁, h₁) =
        >>=-eq-ok (remove_incoming lib edits g (edits.predecessors g (id op)) (id op)) _ h in
      let (g₂, e₂, h₂) =
        >>=-eq-ok (remove_outgoing lib edits g₁ (id op) (edits.adjacent g (id op))) _ h₁ in
      let (g₃, e₃, h₃) =
        >>=-eq-ok
          (connect_pairs lib edits g₂ (edits.predecessors g (id op)) (edits.adjacent g (id op))) _
          h₂ in
      let b₁ =
        remove_incoming-Becomes lib edits edit_laws g (edits.predecessors g (id op)) (id op) e₁ in
      let b₂ =
        remove_outgoing-Becomes lib edits edit_laws g₁ (id op) (edits.adjacent g (id op)) e₂ in
      let b₃ =
        connect_pairs-Becomes lib laws edits g₂ (edits.predecessors g (id op))
          (edits.adjacent g (id op)) e₃ in
      let last =
        edit_laws.remove_vertex_done g₃ g' (id op)
          (must-eq-ok (edits.remove_vertex g₃ (id op)) h₃) in
      record {
        vertices = λ i.
            last.vertices i
            ∙ ap (λ v. if id op == i then none else v)
                (b₃.vertices i ∙ b₂.vertices i ∙ b₁.vertices i);
        edges = λ i j.
            last.edges i j
            ∙ rw
                (
                  b₃.edges i j,
                  b₂.edges i j,
                  b₁.edges i j,
                  edit_laws.predecessors-edge g (id op) i,
                  edit_laws.adjacent-edge g (id op) j,
                )
                refl;
      }

  pub squash_operation-gone :
      (g g' : Graph) (op : Operation)
      → squash_operation lib edits g op ≡ ok g'
      → vertex g' (id op) ≡ none
  squash_operation-gone g g' op h =
      let s = squash_operation-Squashed g g' op h in
      s.vertices (id op) ∙ rw (text_eq_self (id op)) refl

  -- Squashing an operation of a graph without a cycle removes it and no other vertex, and between the
  -- others there is a path afterwards exactly if there was one before.
  pub squash_operation-paths :
      (g g' : Graph) (op : Operation) (i j : String)
      → NoCycle lib g
      → squash_operation lib edits g op ≡ ok g'
      → (id op == i) ≡ false
      → (id op == j) ≡ false
      → (vertex g' (id op) ≡ none)
        × (vertex g' i ≡ vertex g i)
        × (Reaches (edge g) i j ↔ Reaches (edge g') i j)
  squash_operation-paths g g' op i j acyclic h fi fj =
      let s = squash_operation-Squashed g g' op h in
      (
        squash_operation-gone g g' op h,
        s.vertices i ∙ rw fi refl,
        (
          λ walk.
              Reaches-same s.edges i j
                (Reaches-past (edge g) (id op) (no_self_loop g (id op) acyclic) i j fi fj walk),
          λ walk.
              past-Reaches (edge g) (id op) i j (Reaches-same (λ a b. sym (s.edges a b)) i j walk),
        ),
      )

  -- No cycle comes up.
  pub squash_operation-NoCycle :
      (g g' : Graph) (op : Operation)
      → NoCycle lib g
      → squash_operation lib edits g op ≡ ok g'
      → NoCycle lib g'
  squash_operation-NoCycle g g' op acyclic h a b link walk =
      let s = squash_operation-Squashed g g' op h in
      let back =
        past-Reaches (edge g) (id op) b a (Reaches-same (λ i j. sym (s.edges i j)) b a walk) in
      let new : past (edge g) (id op) a b ≡ true = sym (s.edges a b) ∙ link in
      elim (Bool-cases (edge g a b)) [
        | inl straight ↦ acyclic a b straight back
        | inr none_such ↦
            let to_x : edge g a (id op) ≡ true = ground (arith, new, none_such) in
            let from_x : edge g (id op) b ≡ true = ground (arith, new, none_such) in
            acyclic a (id op) to_x (next from_x back)
      ]
