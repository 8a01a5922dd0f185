-- ===== src/Lineage/Control/Chain.antt =====
-- Relations between the states before and after the calls of a handler, whatever their results.
use seam_core.Prelude.{String}
use seam_core.Kube.Client.{Error, Result, ok, err, wrap, Api, pure, raise, on_result}

module _ {S : Type 0} (R : S → S → Type 0) (after : (s t u : S) → R s t → R t u → R s u) where
  -- A call and its continuations.
  pub chain :
      {A B : Type 0} (f : A → Api S B) (g : Error → Api S B) (s : S) (p : Result A × S)
      → R s p.1
      → ((a : A) (t : S) → R t (f a t).1)
      → ((e : Error) (t : S) → R t (g e t).1)
      → R s (on_result f g p).1
  chain f g s (ok a, t) h k l = after s t _ h (k a t)
  chain f g s (err e, t) h k l = after s t _ h (l e t)

  -- An error under a prefix is one in the same state.
  pub prefixed :
      {A : Type 0} (prefix : String) (s : S) (p : Result A × S)
      → R s p.1
      → R s (on_result pure (λ e. raise (wrap prefix e)) p).1
  prefixed prefix s (ok a, t) h = h
  prefixed prefix s (err e, t) h = h
