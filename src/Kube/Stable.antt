-- ===== src/Kube/Stable.antt =====
-- Predicates on what stands outside the process that the calls of a handler keep.
use seam_core.Prelude.{Bool, true, false, if◌then◌else◌}
use seam_core.Kube.Client.{
  Error, Result, ok, err, Api, pure, raise, try_or, on_result, ObjectClient,
}

pub record Stable {S A : Type 0} (P : S → Type 0) (m : Api S A) : Type 0 where
  pub keeps : (s : S) → P s → P (m s).1

-- A client whose calls keep the predicate.
pub record StableClient {S K V : Type 0} (P : S → Type 0) (c : ObjectClient S K V) : Type 0 where
  pub fetches : (k : K) → Stable P (c.fetch k)
  pub creates : (v : V) → Stable P (c.create v)
  pub patches : (old v : V) → Stable P (c.patch old v)

module _ {S : Type 0} {P : S → Type 0} where
  pub Stable-pure : {A : Type 0} (a : A) → Stable P (pure a)
  Stable-pure a = record { keeps = λ s h. h }

  pub Stable-raise : {A : Type 0} (e : Error) → Stable {A = A} P (raise e)
  Stable-raise e = record { keeps = λ s h. h }

  after :
      {A B : Type 0} {f : A → Api S B} {g : Error → Api S B}
      → ((a : A) → Stable P (f a))
      → ((e : Error) → Stable P (g e))
      → (x : Result A × S) → P x.1
      → P (on_result f g x).1
  after p q (ok a, s) h = (p a).keeps s h
  after p q (err e, s) h = (q e).keeps s h

  pub Stable-try :
      {A B : Type 0} (m : Api S A) (f : A → Api S B) (g : Error → Api S B)
      → Stable P m
      → ((a : A) → Stable P (f a))
      → ((e : Error) → Stable P (g e))
      → Stable P (try_or m f g)
  Stable-try m f g r p q = record { keeps = λ s h. after p q (m s) (r.keeps s h) }

  pub Stable-if :
      {A : Type 0} (b : Bool) (m k : Api S A)
      → Stable P m
      → Stable P k
      → Stable P (if b then m else k)
  Stable-if true m k p q = p
  Stable-if false m k p q = q
