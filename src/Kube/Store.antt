-- ===== src/Kube/Store.antt =====
-- What is relied on of the API server while nobody else writes: a read returns what is stored or
-- fails, and a write either fails and changes nothing or changes the one object.
use seam_core.Prelude.{◌≡◌, ◌≢◌, true, Option, none, some}
use seam_core.Kube.Client.{Result, ok, err, is_not_found, ObjectClient}

module _ {S K V : Type 0} (view : S → K → Option V) where
  -- What holds after a write of `v` at `k`, by its outcome.
  abbrev pub Wrote : K → V → S → Result (Unit {0}) × S → Type 0
  Wrote k v s (ok _, t) = (view t k ≡ some v) × ((j : K) → j ≢ k → view t j ≡ view s j)
  Wrote k v s (err _, t) = (j : K) → view t j ≡ view s j

  -- What a read of `k` says of the store; a read changes nothing.
  abbrev pub ReadAs : K → S → Result V × S → Type 0
  ReadAs k s (ok v, t) = (view s k ≡ some v) × ((j : K) → view t j ≡ view s j)
  ReadAs k s (err e, t) =
      (is_not_found e ≡ true → view s k ≡ none) × ((j : K) → view t j ≡ view s j)

  pub record IsStore (key : V → K) (client : ObjectClient S K V) : Type 0 where
    pub keyed : (s : S) (k : K) (v : V) → view s k ≡ some v → key v ≡ k
    pub reads : (k : K) (s : S) → ReadAs k s (client.fetch k s)
    pub creates : (v : V) (s : S) → Wrote (key v) v s (client.create v s)
    pub patches :
        (old v : V) (s : S) → view s (key v) ≡ some old → Wrote (key v) v s (client.patch old v s)
