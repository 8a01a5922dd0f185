-- ===== src/Kube/Memory.antt =====
-- An API server in memory: it meets what `Kube.Store` asks for, and serves the tests.
use seam_core.Prelude.{
  ◌≡◌, refl, sym, ◌≢◌, ◌↔◌, inl, inr, Bool, true, false, ◌&&◌, List, [], ◌∷◌, Option, none, some,
  arith, ◌==◌, eq_iff, Bool-cases, find,
}
use mathlib.Core.Option.{some-injective}
use mathlib.Core.Path.{subst}
use seam_core.Kube.Object.{ObjectKey}
use seam_core.Kube.Client.{api, not_found, already_exists, Result, ok, err, ObjectClient}
use seam_core.Kube.Store.{Wrote, ReadAs, IsStore}

abbrev pub same_key : ObjectKey → ObjectKey → Bool
same_key a b = a.namespace == b.namespace && a.name == b.name

pub same_key_iff : (a b : ObjectKey) → (same_key a b ≡ true) ↔ (a ≡ b)
same_key_iff a b = ground (arith, eq_iff a.namespace b.namespace, eq_iff a.name b.name)

module _ {K V : Type 0} (key : V → K) (same : K → K → Bool) where
  -- The newest object of each key counts.
  abbrev pub view_memory : List V → K → Option V
  view_memory s k = find (λ v. same (key v) k) s

  abbrev found : Option V → List V → Result V × List V
  found none s = (err (api not_found), s)
  found (some v) s = (ok v, s)

  abbrev create_new : Option V → V → List V → Result (Unit {0}) × List V
  create_new none v s = (ok tt, v ∷ s)
  create_new (some old) v s = (err (api already_exists), s)

  abbrev overwrite : Option V → V → List V → Result (Unit {0}) × List V
  overwrite none v s = (err (api not_found), s)
  overwrite (some old) v s = (ok tt, v ∷ s)

  abbrev pub memory : ObjectClient (List V) K V
  memory = record {
    fetch = λ k s. found (view_memory s k) s;
    create = λ v s. create_new (view_memory s (key v)) v s;
    patch = λ old v s. overwrite (view_memory s (key v)) v s;
    update = λ v s. overwrite (view_memory s (key v)) v s;
  }

  module _ (same_iff : (a b : K) → (same a b ≡ true) ↔ (a ≡ b)) where
    added : (v : V) (s : List V) → Wrote view_memory (key v) v s (ok tt, v ∷ s)
    added v s = (rw ((same_iff (key v) (key v)).1 refl), λ j n. rw (elsewhere j n) refl)
      where
        elsewhere : (j : K) → j ≢ key v → same (key v) j ≡ false
        elsewhere j n = elim (Bool-cases (same (key v) j)) [
          | inl e ↦ absurd (n (sym ((same_iff (key v) j).0 e)))
          | inr e ↦ e
        ]

    kept_keys : (s : List V) (k : K) (v : V) → view_memory s k ≡ some v → key v ≡ k
    kept_keys [] k v e = cc
    kept_keys (u ∷ s) k v e = elim (Bool-cases (same (key u) k)) [
      | inl q ↦
          let p : some u ≡ some v = rw q at e in
          subst (λ x. key x ≡ k) (some-injective u v p) ((same_iff (key u) k).0 q)
      | inr q ↦ kept_keys s k v (rw q at e)
    ]

    found-ReadAs :
        (k : K) (s : List V) (o : Option V)
        → view_memory s k ≡ o
        → ReadAs view_memory k s (found o s)
    found-ReadAs k s none e = ((λ _. e), λ j. refl)
    found-ReadAs k s (some v) e = (e, λ j. refl)

    create_new-Wrote :
        (v : V) (s : List V) (o : Option V) → Wrote view_memory (key v) v s (create_new o v s)
    create_new-Wrote v s none = added v s
    create_new-Wrote v s (some old) = λ j. refl

    overwrite-Wrote :
        (v : V) (s : List V) (o : Option V) → Wrote view_memory (key v) v s (overwrite o v s)
    overwrite-Wrote v s none = λ j. refl
    overwrite-Wrote v s (some old) = added v s

    pub update-Wrote : (v : V) (s : List V) → Wrote view_memory (key v) v s (memory.update v s)
    update-Wrote v s = overwrite-Wrote v s (view_memory s (key v))

    pub memory-IsStore : IsStore view_memory key memory
    memory-IsStore = record {
      keyed = kept_keys;
      reads = λ k s. found-ReadAs k s (view_memory s k) refl;
      creates = λ v s. create_new-Wrote v s (view_memory s (key v));
      patches = λ old v s e. overwrite-Wrote v s (view_memory s (key v));
    }
