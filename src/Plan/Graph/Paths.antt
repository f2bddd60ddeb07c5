-- ===== src/Plan/Graph/Paths.antt =====
-- Walks along the edges of a graph.
use nelm.Base.{String, Bool, true, ◌≡◌}

pub data Reaches (edge : String → String → Bool) : String → String → Type 0 where
  here : {a : String} → Reaches edge a a
  next : {a b c : String} → edge a b ≡ true → Reaches edge b c → Reaches edge a c

pub Reaches-trans :
    {edge : String → String → Bool} {a b c : String}
    → Reaches edge a b
    → Reaches edge b c
    → Reaches edge a c
Reaches-trans here r = r
Reaches-trans (next e q) r = next e (Reaches-trans q r)

pub Reaches-mono :
    {edge edge' : String → String → Bool} {a b : String}
    → ((i j : String) → edge i j ≡ true → edge' i j ≡ true)
    → Reaches edge a b
    → Reaches edge' a b
Reaches-mono h here = here
Reaches-mono h (next e q) = next (h _ _ e) (Reaches-mono h q)
