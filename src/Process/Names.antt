-- ===== src/Process/Names.antt =====
-- The names of the controllers that cmd/seam-core/main.go registers.
use seam_core.Prelude.{
  String, ◌≡◌, refl, ap, true, false, List, [], ◌∷◌, ◌++◌, map, arith, to_lower, ◌==◌, eq_iff, mem,
  unique, any-append,
}
use seam_core.Process.{Controller}
use seam_core.Process.Running.{Running}
use seam_core.Process.Wiring.{lineage_registrations, descendant_registrations, dsns_registrations}

-- A text in the middle of pairwise different texts is not among those before it.
pub mem_before : (x : String) (a b : List String) → unique (a ++ x ∷ b) ≡ true → mem x a ≡ false
mem_before x [] b u = refl
mem_before x (k ∷ a) b u =
    ground (arith, eq_iff k x, eq_iff x k, any-append (λ j. j == k) a (x ∷ b), mem_before x a b)

module _ {Sink : Type 0} where
  abbrev pub names : Running Sink → List String
  names r = map (λ c. c.0) r.controllers

  abbrev pub entry_names : List (String × Controller Sink) → List String
  entry_names cs = map (λ c. c.0) cs

  pub names_add :
      (cs : List (String × Controller Sink)) (c : String × Controller Sink) (ns : List String)
      → entry_names (cs ++ c ∷ []) ++ ns ≡ entry_names cs ++ c.0 ∷ ns
  names_add [] c ns = refl
  names_add (d ∷ cs) c ns = ap (λ l. d.0 ∷ l) (names_add cs c ns)

-- The names of all controllers are pairwise different.
pub all_names_unique :
    (Sink : Type 0) (key ip : String)
    → unique (
        entry_names (lineage_registrations {Sink = Sink} ++ descendant_registrations)
        ++ entry_names (dsns_registrations {Sink = Sink} key ip))
      ≡ true
unfolding to_lower
all_names_unique Sink key ip = refl

pub first_names_unique :
    (Sink : Type 0)
    → unique (
        entry_names (lineage_registrations {Sink = Sink})
        ++ entry_names (descendant_registrations {Sink = Sink}))
      ≡ true
unfolding to_lower
first_names_unique Sink = refl

pub lineage_names_unique :
    (Sink : Type 0) → unique (entry_names (lineage_registrations {Sink = Sink})) ≡ true
unfolding to_lower
lineage_names_unique Sink = refl
