-- ===== src/Examples/ListEdits.antt =====
-- The graph of a list of vertices with what Optimize calls beside.
use nelm.Base.{
  String, true, false, none, List, [], ◌∷◌, ◌≡◌, refl, sym, ◌∙◌, subst, ◌==◌, ◌&&◌, not, inl, inr,
  Result, ok, err, message, if◌then◌else◌, filter_by, any, contains, arith, eq_iff, ok-injective,
  Bool-cases,
}
use nelm.Plan.Operation.{id}
use nelm.Plan.Execute.{remove}
use nelm.Plan.Execute.Membership.{text_ne_sym, text_ne, remove-contains}
use nelm.Plan.Optimize.{GraphEdits, RemovesEdge, RemovesVertex, Reduces, IsGraphEdits}
use nelm.Examples.ListGraph.{Entry, look, targets_of, links, list_graph}
use mathlib.Core.Bool.{false≢true}

abbrev pub drop_target : List Entry → String → String → List Entry
drop_target [] a b = []
drop_target ((op, targets) ∷ g) a b =
    let rest = drop_target g a b in
    if id op == a then (op, remove b targets) ∷ g else (op, targets) ∷ rest

abbrev pub drop_entry : List Entry → String → List Entry
drop_entry g a = filter_by (λ e. not (id e.0 == a)) g

abbrev sources_of : List Entry → List Entry → String → List String
sources_of g [] i = []
sources_of g ((op, targets) ∷ rest) i =
    let more = sources_of g rest i in if links g (id op) i then id op ∷ more else more

abbrev drop_free : List Entry → String → List String → Result (List Entry)
drop_free g a [] = ok (drop_entry g a)
drop_free g a (_ ∷ _) = err (message "vertex has edges")

abbrev pub list_edits : GraphEdits list_graph
list_edits = record {
  remove_edge = λ g a b. ok (drop_target g a b);
  remove_vertex = λ g a. drop_free g a (targets_of g a);
  predecessors = λ g i. sources_of g g i;
  adjacent = targets_of;
  transitive_reduction = λ g. ok g;
  search = λ g i test. ok (any test (targets_of g i));
}

drop_target-look : (g : List Entry) (a b i : String) → look (drop_target g a b) i ≡ look g i
drop_target-look [] a b i = refl
drop_target-look ((op, targets) ∷ g) a b i = elim (Bool-cases (id op == a)) [
  | inl e ↦ rw e refl
  | inr e ↦ rw (e, drop_target-look g a b i) refl
]

drop_target-links :
    (g : List Entry) (a b i j : String)
    → links (drop_target g a b) i j ≡ (links g i j && not (a == i && b == j))
drop_target-links [] a b i j = refl
drop_target-links ((op, targets) ∷ g) a b i j = elim (Bool-cases (id op == a)) [
  | inl e ↦ elim (Bool-cases (id op == i)) [
    | inl f ↦
        let same = (eq_iff a i).1 (sym ((eq_iff (id op) a).0 e) ∙ (eq_iff (id op) i).0 f) in
        rw (e, f, same, remove-contains b targets j) refl
    | inr f ↦
        let other : (a == i) ≡ false = text_ne (id op) a i e f in rw (e, f, other) (ground (arith))
  ]
  | inr e ↦ elim (Bool-cases (id op == i)) [
    | inl f ↦
        let other : (a == i) ≡ false = text_ne_sym i a (text_ne (id op) i a f e) in
        rw (e, f, other) (ground (arith))
    | inr f ↦ rw (e, f) (drop_target-links g a b i j)
  ]
]

drop_entry-look :
    (g : List Entry) (a i : String) → look (drop_entry g a) i ≡ (if a == i then none else look g i)
drop_entry-look [] a i = elim (Bool-cases (a == i)) [ inl e ↦ rw e refl | inr e ↦ rw e refl ]
drop_entry-look ((op, targets) ∷ g) a i = elim (Bool-cases (id op == a)) [
  | inl e ↦ elim (Bool-cases (a == i)) [
    | inl f ↦ rw (e, drop_entry-look g a i, f) refl
    | inr f ↦
        let other : (id op == i) ≡ false =
          subst (λ k. (k == i) ≡ false) (sym ((eq_iff (id op) a).0 e)) f in
        rw (e, drop_entry-look g a i, f, other) refl
  ]
  | inr e ↦ elim (Bool-cases (id op == i)) [
    | inl f ↦
        let other : (a == i) ≡ false = text_ne_sym i a (text_ne (id op) i a f e) in
        rw (e, f, other) refl
    | inr f ↦ rw (e, f) (drop_entry-look g a i)
  ]
]

drop_entry-targets :
    (g : List Entry) (a i : String)
    → targets_of (drop_entry g a) i ≡ (if a == i then [] else targets_of g i)
drop_entry-targets [] a i = elim (Bool-cases (a == i)) [ inl e ↦ rw e refl | inr e ↦ rw e refl ]
drop_entry-targets ((op, targets) ∷ g) a i = elim (Bool-cases (id op == a)) [
  | inl e ↦ elim (Bool-cases (a == i)) [
    | inl f ↦ rw (e, drop_entry-targets g a i, f) refl
    | inr f ↦
        let other : (id op == i) ≡ false =
          subst (λ k. (k == i) ≡ false) (sym ((eq_iff (id op) a).0 e)) f in
        rw (e, drop_entry-targets g a i, f, other) refl
  ]
  | inr e ↦ elim (Bool-cases (id op == i)) [
    | inl f ↦
        let other : (a == i) ≡ false = text_ne_sym i a (text_ne (id op) i a f e) in
        rw (e, f, other) refl
    | inr f ↦ rw (e, f) (drop_entry-targets g a i)
  ]
]

drop_free-RemovesVertex :
    (g g' : List Entry) (a : String) (targets : List String)
    → targets_of g a ≡ targets
    → drop_free g a targets ≡ ok g'
    → RemovesVertex list_graph list_edits a g g'
drop_free-RemovesVertex g g' a [] free h =
    subst (RemovesVertex list_graph list_edits a g) (ok-injective h) (record {
      vertices = drop_entry-look g a;
      edges = λ i j. elim (Bool-cases (a == i)) [
        | inl e ↦
            let none_left : targets_of g i ≡ [] =
              subst (λ k. targets_of g k ≡ []) ((eq_iff a i).0 e) free in
            rw (drop_entry-targets g a i, e, none_left) refl
        | inr e ↦ rw (drop_entry-targets g a i, e) refl
      ];
    })
drop_free-RemovesVertex g g' a (_ ∷ _) free h = cc

-- A vertex with a target is in the list.
links-sources :
    (g rest : List Entry) (i p : String)
    → links rest p i ≡ true
    → links g p i ≡ true
    → contains (sources_of g rest i) p ≡ true
links-sources g [] i p h k = absurd (false≢true h)
links-sources g ((op, targets) ∷ rest) i p h k = elim (Bool-cases (id op == p)) [
  | inl e ↦
      let linked : links g (id op) i ≡ true =
        subst (λ q. links g q i ≡ true) (sym ((eq_iff (id op) p).0 e)) k in
      rw (linked, e) refl
  | inr e ↦
      let later_on = links-sources g rest i p (rw e at h) k in
      elim (Bool-cases (links g (id op) i)) [ inl f ↦ rw (f, e) later_on | inr f ↦ rw f later_on ]
]

sources-links :
    (g rest : List Entry) (i p : String)
    → contains (sources_of g rest i) p ≡ true
    → links g p i ≡ true
sources-links g [] i p h = absurd (false≢true h)
sources-links g ((op, targets) ∷ rest) i p h = elim (Bool-cases (links g (id op) i)) [
  | inl f ↦ elim (Bool-cases (id op == p)) [
    | inl e ↦ subst (λ q. links g q i ≡ true) ((eq_iff (id op) p).0 e) f
    | inr e ↦ sources-links g rest i p (rw (f, e) at h)
  ]
  | inr f ↦ sources-links g rest i p (rw f at h)
]

pub list_edits-IsGraphEdits : IsGraphEdits list_graph list_edits
list_edits-IsGraphEdits = record {
  predecessors-edge = λ g i p. elim (Bool-cases (links g p i)) [
    | inl e ↦ links-sources g g i p e e ∙ sym e
    | inr e ↦ elim (Bool-cases (contains (sources_of g g i) p)) [
      | inl f ↦ absurd (false≢true (sym e ∙ sources-links g g i p f))
      | inr f ↦ f ∙ sym e
    ]
  ];
  adjacent-edge = λ g i j. refl;
  remove_edge_done = λ g g' a b h.
      subst (RemovesEdge list_graph list_edits a b g) (ok-injective h)
        (record { vertices = drop_target-look g a b; edges = drop_target-links g a b });
  remove_vertex_done = λ g g' a h. drop_free-RemovesVertex g g' a (targets_of g a) refl h;
  transitive_reduction_done = λ g g' h.
      subst (Reduces list_graph list_edits g) (ok-injective h)
        (record { vertices = λ i. refl; subset = λ i j k. k; paths = λ i j walk. walk });
}
