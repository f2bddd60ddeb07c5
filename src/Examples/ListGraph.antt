-- ===== src/Examples/ListGraph.antt =====
-- A graph as the list of its vertices with their targets: it behaves the way the graph library
-- documents.
use nelm.Base.{
  String, ℕ, zero, suc, Bool, true, false, Option, none, some, List, [], ◌∷◌, map, Memᴰ, ◌≡◌, refl,
  ap, sym, ◌∙◌, subst, ◌==◌, ◌&&◌, ◌||◌, inl, inr, Result, ok, err, graph, vertex_not_found,
  vertex_already_exists, edge_already_exists, edge_creates_cycle, if◌then◌else◌, any, contains, All,
  All-map, length, arith, eq_iff, ok-injective, some-injective, Bool-cases,
}
use nelm.Plan.Operation.{Operation, id}
use nelm.Plan.Graph.{GraphLib, IsGraphLib, AddsVertex, AddsEdge, Has}
use nelm.Plan.Graph.Paths.{Reaches, here, next}
use mathlib.Core.Bool.{false≢true}

-- A vertex with the targets of its edges.
abbrev pub Entry : Type 0
Entry = Operation × List String

abbrev pub look : List Entry → String → Option Operation
look [] i = none
look ((op, targets) ∷ g) i = if id op == i then some op else look g i

abbrev pub targets_of : List Entry → String → List String
targets_of [] i = []
targets_of ((op, targets) ∷ g) i = if id op == i then targets else targets_of g i

abbrev pub links : List Entry → String → String → Bool
links g i j = contains (targets_of g i) j

abbrev pub names : List Entry → List String
names g = map (λ (e : Entry). id e.0) g

abbrev put : List Entry → Operation → Option Operation → Result (List Entry)
put g op none = ok ((op, []) ∷ g)
put g op (some _) = err (graph vertex_already_exists)

-- Whether there is a walk of at most so many edges.
abbrev walks : List Entry → ℕ → String → String → Bool
walks g zero a b = a == b
walks g (suc n) a b = a == b || any (λ t. walks g n t b) (targets_of g a)

abbrev insert : List Entry → String → String → List Entry
insert [] a b = []
insert ((op, targets) ∷ g) a b =
    let rest = insert g a b in if id op == a then (op, b ∷ targets) ∷ g else (op, targets) ∷ rest

abbrev join :
    List Entry → String → String → Option Operation → Option Operation → Result (List Entry)
join g a b none _ = err (graph vertex_not_found)
join g a b (some _) none = err (graph vertex_not_found)
join g a b (some _) (some _) =
    if links g a b
    then err (graph edge_already_exists)
    else if walks g (length g) b a
    then err (graph edge_creates_cycle)
    else ok (insert g a b)

abbrev pub list_graph : GraphLib
list_graph = record {
  Graph = List Entry;
  new = [];
  add_vertex = λ g op. put g op (look g (id op));
  add_edge = λ g a b. join g a b (look g a) (look g b);
  vertex = look;
  edge = links;
  keys = names;
}

no_targets : (g : List Entry) (i : String) → look g i ≡ none → targets_of g i ≡ []
no_targets [] i h = refl
no_targets ((op, targets) ∷ g) i h = elim (Bool-cases (id op == i)) [
  | inl e ↦ absurd (cc (rw e at h))
  | inr e ↦ rw e (no_targets g i (rw e at h))
]

put-AddsVertex :
    (g : List Entry) (op : Operation)
    → look g (id op) ≡ none
    → AddsVertex list_graph op g ((op, []) ∷ g)
put-AddsVertex g op h = record {
  vertices = λ i. refl;
  edges = λ i j. elim (Bool-cases (id op == i)) [
    | inl e ↦ rw e (
        ap (λ ts. contains ts j)
          (sym (no_targets g i (ap (look g) (sym ((eq_iff (id op) i).0 e)) ∙ h))))
    | inr e ↦ rw e
  ];
}

insert-look : (g : List Entry) (a b i : String) → look (insert g a b) i ≡ look g i
insert-look [] a b i = refl
insert-look ((op, targets) ∷ g) a b i = elim (Bool-cases (id op == a)) [
  | inl e ↦ rw e
  | inr e ↦ rw (e, insert-look g a b i)
]

insert-links :
    (g : List Entry) (a b i j : String)
    → Has (look g a)
    → links (insert g a b) i j ≡ (links g i j || a == i && b == j)
insert-links [] a b i j (_, h) = cc
insert-links ((op, targets) ∷ g) a b i j h = elim (Bool-cases (id op == a)) [
  | inl e ↦ elim (Bool-cases (id op == i)) [
    | inl f ↦
        let same = (eq_iff a i).1 (sym ((eq_iff (id op) a).0 e) ∙ (eq_iff (id op) i).0 f) in
        ground (arith, e, f, same)
    | inr f ↦
        let apart : (a == i) ≡ false = rw (← (eq_iff (id op) a).0 e) f in
        ground (arith, e, f, apart)
  ]
  | inr e ↦ elim (Bool-cases (id op == i)) [
    | inl f ↦ let apart = ne_of (id op) a i e f in ground (arith, e, f, apart)
    | inr f ↦ let later = insert-links g a b i j (rw e at h) in rw (e, f) later
  ]
]
  where
    ne_of : (x a i : String) → (x == a) ≡ false → (x == i) ≡ true → (a == i) ≡ false
    ne_of x a i e f = elim (Bool-cases (a == i)) [
      | inl s ↦
          absurd (false≢true (sym e ∙ (eq_iff x a).1 ((eq_iff x i).0 f ∙ sym ((eq_iff a i).0 s))))
      | inr s ↦ s
    ]

any-links :
    (p : String → Bool) (ts : List String)
    → any p ts ≡ true
    → (t : String) × (contains ts t ≡ true) × (p t ≡ true)
any-links p [] h = absurd (false≢true h)
any-links p (t ∷ ts) h = elim (Bool-cases (p t)) [
  | inl e ↦ (t, ground (arith, (eq_iff t t).1 refl), e)
  | inr e ↦ let (u, m, q) = any-links p ts (rw e at h) in (u, ground (arith, m), q)
]

walks-Reaches :
    (g : List Entry) (n : ℕ) (a b : String) → walks g n a b ≡ true → Reaches (links g) a b
walks-Reaches g zero a b h = subst (Reaches (links g) a) ((eq_iff a b).0 h) here
walks-Reaches g (suc n) a b h = elim (Bool-cases (a == b)) [
  | inl e ↦ subst (Reaches (links g) a) ((eq_iff a b).0 e) here
  | inr e ↦
      let (t, link, rest) = any-links (λ t. walks g n t b) (targets_of g a) (rw e at h) in
      next link (walks-Reaches g n t b rest)
]

fits-ok :
    (g : List Entry) (a b : String) (oa ob : Option Operation)
    → Has oa
    → Has ob
    → links g a b ≡ false
    → ¬ Reaches (links g) b a
    → (g' : List Entry) × (join g a b oa ob ≡ ok g')
fits-ok g a b none ob (_, h) hb new apart = absurd (cc h)
fits-ok g a b (some oa) none ha (_, h) new apart = absurd (cc h)
fits-ok g a b (some oa) (some ob) ha hb new apart = elim (Bool-cases (walks g (length g) b a)) [
  | inl e ↦ absurd (apart (walks-Reaches g (length g) b a e))
  | inr e ↦ (insert g a b, rw (new, e))
]

done-AddsEdge :
    (g g' : List Entry) (a b : String) (oa ob : Option Operation)
    → look g a ≡ oa
    → join g a b oa ob ≡ ok g'
    → AddsEdge list_graph a b g g'
done-AddsEdge g g' a b none ob s h = absurd (cc h)
done-AddsEdge g g' a b (some oa) none s h = absurd (cc h)
done-AddsEdge g g' a b (some oa) (some ob) s h = elim (Bool-cases (links g a b)) [
  | inl e ↦ absurd (cc (rw e at h))
  | inr e ↦ elim (Bool-cases (walks g (length g) b a)) [
    | inl f ↦ absurd (cc (rw (e, f) at h))
    | inr f ↦
        subst (AddsEdge list_graph a b g) (ok-injective (rw (e, f) at h))
          (record { vertices = insert-look g a b; edges = λ i j. insert-links g a b i j (oa, s) })
  ]
]

taken-links :
    (g : List Entry) (a b : String) (oa ob : Option Operation)
    → join g a b oa ob ≡ err (graph edge_already_exists)
    → links g a b ≡ true
taken-links g a b none ob h = absurd (cc h)
taken-links g a b (some oa) none h = absurd (cc h)
taken-links g a b (some oa) (some ob) h = elim (Bool-cases (links g a b)) [
  | inl e ↦ e
  | inr e ↦ elim (Bool-cases (walks g (length g) b a)) [
    | inl f ↦ absurd (cc (rw (e, f) at h))
    | inr f ↦ absurd (cc (rw (e, f) at h))
  ]
]

taken-err :
    (g : List Entry) (op : Operation) (o : Option Operation)
    → Has o
    → put g op o ≡ err (graph vertex_already_exists)
taken-err g op none (_, h) = absurd (cc h)
taken-err g op (some _) h = refl

Has-cons :
    (op : Operation) (ts : List String) (g : List Entry) (i : String)
    → Has (look g i)
    → Has (look ((op, ts) ∷ g) i)
Has-cons op ts g i (o, h) = elim (Bool-cases (id op == i)) [
  | inl e ↦ (op, rw e)
  | inr e ↦ (o, rw e h)
]

names-look : (g : List Entry) → All (λ i. Has (look g i)) (names g)
names-look [] = tt
names-look ((op, ts) ∷ g) = (
  (op, rw ((eq_iff (id op) (id op)).1 refl)),
  All-map (Has-cons op ts g) (names g) (names-look g),
)

look-names : (g : List Entry) (i : String) → Has (look g i) → Memᴰ i (names g)
look-names [] i (_, h) = absurd (cc h)
look-names ((op, ts) ∷ g) i h = elim (Bool-cases (id op == i)) [
  | inl e ↦ Memᴰ.head (sym ((eq_iff (id op) i).0 e))
  | inr e ↦ Memᴰ.tail (look-names g i (rw e at h))
]

look-id : (g : List Entry) (i : String) (op : Operation) → look g i ≡ some op → id op ≡ i
look-id [] i op h = absurd (cc h)
look-id ((o, ts) ∷ g) i op h = elim (Bool-cases (id o == i)) [
  | inl e ↦ subst (λ k. id k ≡ i) (some-injective (rw e at h)) ((eq_iff (id o) i).0 e)
  | inr e ↦ look-id g i op (rw e at h)
]

pub list_graph-IsGraphLib : IsGraphLib list_graph
list_graph-IsGraphLib = record {
  vertex-new = λ i. refl;
  edge-new = λ i j. refl;
  add_vertex_fresh = λ g op h. ((op, []) ∷ g, ap (put g op) h, put-AddsVertex g op h);
  add_vertex_taken = λ g op h. taken-err g op (look g (id op)) h;
  add_edge_fits = λ g a b. fits-ok g a b (look g a) (look g b);
  add_edge_done = λ g g' a b. done-AddsEdge g g' a b (look g a) (look g b) refl;
  add_edge_taken = λ g a b. taken-links g a b (look g a) (look g b);
  keys-vertex = names-look;
  vertex-keys = look-names;
  vertex-id = look-id;
}
