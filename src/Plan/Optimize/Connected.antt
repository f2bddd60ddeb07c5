-- ===== src/Plan/Optimize/Connected.antt =====
-- The loops of SquashOperation (pkg/plan/plan.go) as changes of the edges.
use nelm.Base.{
  String, true, false, List, [], ◌∷◌, ◌≡◌, refl, ◌∙◌, subst, ◌==◌, ◌&&◌, ◌||◌, not, ok, must,
  contains, arith, >>=-eq-ok, must-eq-ok, ok-injective,
}
use nelm.Plan.Optimize.{
  GraphEdits, IsGraphEdits, remove_incoming, remove_outgoing, connect_to_all, connect_pairs,
}
use nelm.Plan.Chain.Becomes.{Becomes, connect-Becomes}
use nelm.Plan.Graph.{GraphLib, IsGraphLib}
use nelm.Plan.Chain.{connect}

module _ (lib : GraphLib) (laws : IsGraphLib lib) where
  open lib use {Graph, vertex, edge}

  pub connect_to_all-Becomes :
      (edits : GraphEdits lib) (g : Graph) {g' : Graph} (p : String) (targets : List String)
      → connect_to_all lib edits g p targets ≡ ok g'
      → Becomes lib (λ i j. edge g i j || p == i && contains targets j) g g'
  unfolding connect_to_all
  connect_to_all-Becomes edits g p [] h =
      subst (Becomes lib (λ i j. edge g i j || p == i && false) g) (ok-injective h)
        (record { vertices = λ i. refl; edges = λ i j. ground (arith) })
  connect_to_all-Becomes edits g p (a ∷ targets) h =
      let (g₁, e, rest) = >>=-eq-ok (must (connect lib g p a)) _ h in
      let one = connect-Becomes lib laws g p a (must-eq-ok (connect lib g p a) e) in
      let all = connect_to_all-Becomes edits g₁ p targets rest in
      record {
        vertices = λ i. all.vertices i ∙ one.vertices i;
        edges = λ i j. all.edges i j ∙ rw (one.edges i j) (ground (arith));
      }

  pub connect_pairs-Becomes :
      (edits : GraphEdits lib) (g : Graph) {g' : Graph} (sources targets : List String)
      → connect_pairs lib edits g sources targets ≡ ok g'
      → Becomes lib (λ i j. edge g i j || contains sources i && contains targets j) g g'
  unfolding connect_pairs
  connect_pairs-Becomes edits g [] targets h =
      subst (Becomes lib (λ i j. edge g i j || false) g) (ok-injective h)
        (record { vertices = λ i. refl; edges = λ i j. ground (arith) })
  connect_pairs-Becomes edits g (p ∷ sources) targets h =
      let (g₁, e, rest) = >>=-eq-ok (connect_to_all lib edits g p targets) _ h in
      let one = connect_to_all-Becomes edits g p targets e in
      let all = connect_pairs-Becomes edits g₁ sources targets rest in
      record {
        vertices = λ i. all.vertices i ∙ one.vertices i;
        edges = λ i j. all.edges i j ∙ rw (one.edges i j) (ground (arith));
      }

module _ (lib : GraphLib) (edits : GraphEdits lib) (laws : IsGraphEdits lib edits) where
  open lib use {Graph, vertex, edge}

  pub remove_incoming-Becomes :
      (g : Graph) {g' : Graph} (sources : List String) (x : String)
      → remove_incoming lib edits g sources x ≡ ok g'
      → Becomes lib (λ i j. edge g i j && not (contains sources i && x == j)) g g'
  unfolding remove_incoming
  remove_incoming-Becomes g [] x h =
      subst (Becomes lib (λ i j. edge g i j && true) g) (ok-injective h)
        (record { vertices = λ i. refl; edges = λ i j. ground (arith) })
  remove_incoming-Becomes g (p ∷ sources) x h =
      let (g₁, e, rest) = >>=-eq-ok (must (edits.remove_edge g p x)) _ h in
      let one = laws.remove_edge_done g g₁ p x (must-eq-ok (edits.remove_edge g p x) e) in
      let all = remove_incoming-Becomes g₁ sources x rest in
      record {
        vertices = λ i. all.vertices i ∙ one.vertices i;
        edges = λ i j. all.edges i j ∙ rw (one.edges i j) (ground (arith));
      }

  pub remove_outgoing-Becomes :
      (g : Graph) {g' : Graph} (x : String) (targets : List String)
      → remove_outgoing lib edits g x targets ≡ ok g'
      → Becomes lib (λ i j. edge g i j && not (x == i && contains targets j)) g g'
  unfolding remove_outgoing
  remove_outgoing-Becomes g x [] h =
      subst (Becomes lib (λ i j. edge g i j && not (x == i && false)) g) (ok-injective h)
        (record { vertices = λ i. refl; edges = λ i j. ground (arith) })
  remove_outgoing-Becomes g x (a ∷ targets) h =
      let (g₁, e, rest) = >>=-eq-ok (must (edits.remove_edge g x a)) _ h in
      let one = laws.remove_edge_done g g₁ x a (must-eq-ok (edits.remove_edge g x a) e) in
      let all = remove_outgoing-Becomes g₁ x targets rest in
      record {
        vertices = λ i. all.vertices i ∙ one.vertices i;
        edges = λ i j. all.edges i j ∙ rw (one.edges i j) (ground (arith));
      }
