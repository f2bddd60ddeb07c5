-- ===== src/Examples/ListPlan.antt =====
-- Plans as lists of vertices: their predecessor map, that a ranked one has no cycle, and a schedule in
-- which the workers go on first.
use nelm.Base.{
  String, ℕ, zero, suc, ◌≤◌, ◌<◌, Bool, true, false, Option, none, some, List, [], ◌∷◌, ◌≡◌, refl,
  subst, ◌==◌, ◌&&◌, inl, inr, if◌then◌else◌, contains, All, length, ltb, arith, eq_iff, Bool-cases,
  pos,
}
use nelm.Plan.Operation.{id}
use nelm.Plan.Execute.{
  Waiting, System, channel_capacity, advance, complete_op, send_op, schedule, complete, send,
  Reached, later, waits, DistinctKeys, IsPredecessorMap,
}
use nelm.Plan.Execute.Membership.{text_eq_self}
use nelm.Plan.Optimize.{NoCycle}
use nelm.Examples.ListEdits.{list_edits, list_edits-IsGraphEdits}
use nelm.Plan.Graph.Paths.{Reaches, here, next}
use nelm.Examples.ListGraph.{Entry, links, list_graph}
use mathlib.Core.Bool.{false≢true}

abbrev list_predecessor_map : List Entry → List Entry → Waiting
list_predecessor_map g [] = []
list_predecessor_map g ((op, targets) ∷ rest) =
    (id op, list_edits.predecessors g (id op)) ∷ list_predecessor_map g rest

abbrev pub predecessor_map : List Entry → Waiting
predecessor_map g = list_predecessor_map g g

-- A vertex with targets is a key.
linked_waits :
    (g rest : List Entry) (p i : String)
    → links rest p i ≡ true
    → waits (list_predecessor_map g rest) p ≡ true
linked_waits g [] p i h = absurd (false≢true h)
linked_waits g ((op, targets) ∷ rest) p i h = elim (Bool-cases (id op == p)) [
  | inl e ↦ rw e refl
  | inr e ↦ rw e (linked_waits g rest p i (rw e at h))
]

predecessor_map-edges :
    (g rest : List Entry)
    → All
        (λ (e : String × List String). (p : String) → contains e.1 p ≡ links g p e.0)
        (list_predecessor_map g rest)
predecessor_map-edges g [] = tt
predecessor_map-edges g ((op, targets) ∷ rest) =
    (λ p. list_edits-IsGraphEdits.predecessors-edge g (id op) p, predecessor_map-edges g rest)

pub predecessor_map-IsPredecessorMap :
    (g : List Entry)
    → DistinctKeys (predecessor_map g)
    → IsPredecessorMap (links g) (predecessor_map g)
predecessor_map-IsPredecessorMap g distinct = record {
  keys = distinct;
  edges = predecessor_map-edges g g;
  sources = λ p i h. linked_waits g g p i h;
}

-- Whether every edge leads from a lower rank to a higher one.
abbrev all_above : (String → ℕ) → ℕ → List String → Bool
all_above rank n [] = true
all_above rank n (t ∷ targets) = ltb n (rank t) && all_above rank n targets

abbrev pub is_ranked : (String → ℕ) → List Entry → Bool
is_ranked rank [] = true
is_ranked rank ((op, targets) ∷ g) = all_above rank (rank (id op)) targets && is_ranked rank g

all_above-lt :
    (rank : String → ℕ) (n : ℕ) (targets : List String) (t : String)
    → all_above rank n targets ≡ true
    → contains targets t ≡ true
    → n < rank t
all_above-lt rank n [] t h m = absurd (false≢true m)
all_above-lt rank n (u ∷ targets) t h m = elim (Bool-cases (u == t)) [
  | inl e ↦ subst (λ k. n < rank k) ((eq_iff u t).0 e) (ground (arith, h))
  | inr e ↦ all_above-lt rank n targets t (ground (arith, h)) (rw e at m)
]

is_ranked-lt :
    (rank : String → ℕ) (g : List Entry) (a b : String)
    → is_ranked rank g ≡ true
    → links g a b ≡ true
    → rank a < rank b
is_ranked-lt rank [] a b h m = absurd (false≢true m)
is_ranked-lt rank ((op, targets) ∷ g) a b h m = elim (Bool-cases (id op == a)) [
  | inl e ↦
      subst (λ k. rank k < rank b) ((eq_iff (id op) a).0 e)
        (all_above-lt rank (rank (id op)) targets b (ground (arith, h)) (rw e at m))
  | inr e ↦ is_ranked-lt rank g a b (ground (arith, h)) (rw e at m)
]

Reaches-le :
    (rank : String → ℕ) (g : List Entry) (a b : String)
    → is_ranked rank g ≡ true
    → Reaches (links g) a b
    → rank a ≤ rank b
Reaches-le rank g a b h here = omega arith
Reaches-le rank g a b h (next {b = c} link walk) =
    let below = is_ranked-lt rank g a c h link in
    let rest = Reaches-le rank g c b h walk in omega arith

pub is_ranked-NoCycle :
    (rank : String → ℕ) (g : List Entry) → is_ranked rank g ≡ true → NoCycle list_graph g
is_ranked-NoCycle rank g h a b link walk =
    let below = is_ranked-lt rank g a b h link in
    let back = Reaches-le rank g b a h walk in absurd (omega arith)

-- The position of a vertex in an order.
abbrev pub position : List String → String → ℕ
position [] i = 0
position (j ∷ order) i = let rest = position order i in if j == i then 0 else suc rest

abbrev after : Option System → System → System
after none s = s
after (some s') s = s'

abbrev finish_send : Bool → String → System → System
finish_send true i s = send_op i s
finish_send false i s = s

abbrev turn : List String → List String → System → System
turn (i ∷ _) sending s = complete_op i s
turn [] (i ∷ _) s = finish_send (ltb (length s.channel) channel_capacity) i s
turn [] [] s = after (advance (pos 1) s) s

-- So many steps.
abbrev pub play : ℕ → System → System
play zero s = s
play (suc k) s = play k (turn s.running s.sending s)

turn-Reached :
    (ops : Waiting) (s : System) (running sending : List String)
    → s.running ≡ running
    → s.sending ≡ sending
    → Reached (pos 1) ops s
    → Reached (pos 1) ops (turn running sending s)
turn-Reached ops s (i ∷ l) sending run sent r = later r (complete i (rw (run, text_eq_self i) refl))
turn-Reached ops s [] (i ∷ l) run sent r = sends (ltb (length s.channel) channel_capacity) refl
  where
    sends :
        (b : Bool)
        → ltb (length s.channel) channel_capacity ≡ b
        → Reached (pos 1) ops (finish_send b i s)
    sends true h = later r (send i (rw (sent, text_eq_self i) refl) h)
    sends false h = r
turn-Reached ops s [] [] run sent r = moves (advance (pos 1) s) refl
  where
    moves : (o : Option System) → advance (pos 1) s ≡ o → Reached (pos 1) ops (after o s)
    moves none h = r
    moves (some s') h = later r (schedule s' h)

pub play-Reached :
    (ops : Waiting) (k : ℕ) (s : System) → Reached (pos 1) ops s → Reached (pos 1) ops (play k s)
play-Reached ops zero s r = r
play-Reached ops (suc k) s r =
    play-Reached ops k (turn s.running s.sending s)
      (turn-Reached ops s s.running s.sending refl refl r)
