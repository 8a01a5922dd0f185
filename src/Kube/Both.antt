-- ===== src/Kube/Both.antt =====
-- Two servers side by side: the clients of each, over the pair of their states.
use seam_core.Prelude.{◌≡◌, ◌↔◌, Bool, true, ◌&&◌, Option, arith, ◌==◌, eq_iff}
use seam_core.Kube.Object.{ObjectKey, GroupVersionKind, Unstructured}
use seam_core.Kube.Client.{Result, ok, err, Api, ObjectClient}
use seam_core.Kube.Store.{Wrote, ReadAs, IsStore}
use seam_core.Kube.Memory.{same_key}
use seam_core.Kube.Deletion.{Updated, IsObjectStore}
use seam_core.Kube.Stable.{StableClient}

abbrev pub same_kind_key : GroupVersionKind × ObjectKey → GroupVersionKind × ObjectKey → Bool
same_kind_key a b =
    a.0.group == b.0.group && a.0.version == b.0.version && a.0.kind == b.0.kind && same_key a.1 b.1

pub same_kind_key_iff : (a b : GroupVersionKind × ObjectKey) → (same_kind_key a b ≡ true) ↔ (a ≡ b)
same_kind_key_iff a b = ground (
  arith,
  eq_iff a.0.group b.0.group,
  eq_iff a.0.version b.0.version,
  eq_iff a.0.kind b.0.kind,
  eq_iff a.1.namespace b.1.namespace,
  eq_iff a.1.name b.1.name,
)

module _ {A B : Type 0} where
  abbrev pub on_left : {X : Type 0} → Api A X → Api (A × B) X
  on_left m (a, b) = ((m a).0, ((m a).1, b))

  abbrev pub on_right : {X : Type 0} → Api B X → Api (A × B) X
  on_right m (a, b) = ((m b).0, (a, (m b).1))

module _ {A B K V : Type 0} where
  abbrev pub left : ObjectClient A K V → ObjectClient (A × B) K V
  left c = record {
    fetch = λ k. on_left (c.fetch k);
    create = λ v. on_left (c.create v);
    patch = λ old v. on_left (c.patch old v);
    update = λ v. on_left (c.update v);
  }

  abbrev pub right : ObjectClient B K V → ObjectClient (A × B) K V
  right c = record {
    fetch = λ k. on_right (c.fetch k);
    create = λ v. on_right (c.create v);
    patch = λ old v. on_right (c.patch old v);
    update = λ v. on_right (c.update v);
  }

  -- The calls on one side leave what is seen of the other.
  pub left-Stable :
      {P : A × B → Type 0} (c : ObjectClient A K V)
      → ((a d : A) (b : B) → P (a, b) → P (d, b))
      → StableClient P (left c)
  left-Stable c h = record {
    fetches = λ k. record { keeps = λ s. h s.0 (c.fetch k s.0).1 s.1 };
    creates = λ v. record { keeps = λ s. h s.0 (c.create v s.0).1 s.1 };
    patches = λ old v. record { keeps = λ s. h s.0 (c.patch old v s.0).1 s.1 };
  }

module _ {A B K V : Type 0} (view : A → K → Option V) where
  abbrev left_view : A × B → K → Option V
  left_view s = view s.0

  left-Wrote :
      (k : K) (v : V) (s : A × B) (p : Result (Unit {0}) × A)
      → Wrote view k v s.0 p
      → Wrote left_view k v s (p.0, (p.1, s.1))
  left-Wrote k v s (ok _, t) h = h
  left-Wrote k v s (err _, t) h = h

  left-ReadAs :
      (k : K) (s : A × B) (p : Result V × A)
      → ReadAs view k s.0 p
      → ReadAs left_view k s (p.0, (p.1, s.1))
  left-ReadAs k s (ok v, t) h = h
  left-ReadAs k s (err e, t) h = h

  pub left-IsStore :
      (key : V → K) (c : ObjectClient A K V) → IsStore view key c → IsStore left_view key (left c)
  left-IsStore key c store = record {
    keyed = λ s. store.keyed s.0;
    reads = λ k s. left-ReadAs k s (c.fetch k s.0) (store.reads k s.0);
    creates = λ v s. left-Wrote (key v) v s (c.create v s.0) (store.creates v s.0);
    patches = λ old v s e. left-Wrote (key v) v s (c.patch old v s.0) (store.patches old v s.0 e);
  }

module _ {A B K V : Type 0} (view : B → K → Option V) where
  abbrev right_view : A × B → K → Option V
  right_view s = view s.1

  right-Wrote :
      (k : K) (v : V) (s : A × B) (p : Result (Unit {0}) × B)
      → Wrote view k v s.1 p
      → Wrote right_view k v s (p.0, (s.0, p.1))
  right-Wrote k v s (ok _, t) h = h
  right-Wrote k v s (err _, t) h = h

  right-ReadAs :
      (k : K) (s : A × B) (p : Result V × B)
      → ReadAs view k s.1 p
      → ReadAs right_view k s (p.0, (s.0, p.1))
  right-ReadAs k s (ok v, t) h = h
  right-ReadAs k s (err e, t) h = h

  pub right-IsStore :
      (key : V → K) (c : ObjectClient B K V) → IsStore view key c → IsStore right_view key (right c)
  right-IsStore key c store = record {
    keyed = λ s. store.keyed s.1;
    reads = λ k s. right-ReadAs k s (c.fetch k s.1) (store.reads k s.1);
    creates = λ v s. right-Wrote (key v) v s (c.create v s.1) (store.creates v s.1);
    patches = λ old v s e. right-Wrote (key v) v s (c.patch old v s.1) (store.patches old v s.1 e);
  }

module _ {A B K : Type 0} (view : B → K → Option Unstructured) where
  right-Updated :
      (k : K) (v : Unstructured) (s : A × B) (p : Result (Unit {0}) × B)
      → Updated view k v s.1 p
      → Updated (right_view {A = A} view) k v s (p.0, (s.0, p.1))
  right-Updated k v s (ok _, t) h = h
  right-Updated k v s (err _, t) h = h

  pub right-IsObjectStore :
      (key : Unstructured → K) (c : ObjectClient B K Unstructured)
      → IsObjectStore view key c
      → IsObjectStore (right_view {A = A} view) key (right c)
  right-IsObjectStore key c store = record {
    stores = right-IsStore view key c store.stores;
    updates =
        λ old v s e d. right-Updated (key v) v s (c.update v s.1) (store.updates old v s.1 e d);
  }
