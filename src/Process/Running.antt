-- ===== src/Process/Running.antt =====
-- What the manager of cmd/seam-core/main.go has been given, and what its calls change.
use seam_core.Prelude.{
  String, ◌≡◌, sym, ap, ◌∙◌, Bool, true, false, List, [], ◌∷◌, ◌++◌, map, subst,
}
use mathlib.Core.List.{append-nil, append_assoc}
use seam_core.Kube.Client.{wrap, Result, ok, err, Api, raise, pure, on_result, within, ◌>>◌}
use seam_core.Process.{Handler, Controller, Manager, ManagerOptions, each}

-- The controllers and the webhooks in the order of their registration, and whether the manager has
-- been started.
pub record Running (Sink : Type 0) : Type 0 where
  pub controllers : List (String × Controller Sink)
  pub webhooks : List (String × Handler)
  pub healthz : List String
  pub readyz : List String
  pub started : Bool

abbrev pub blank : {Sink : Type 0} → Running Sink
blank = record { controllers = []; webhooks = []; healthz = []; readyz = []; started = false }

abbrev pub with_controllers :
    {Sink : Type 0} → Running Sink → List (String × Controller Sink) → Running Sink
with_controllers r cs = record r { controllers = r.controllers ++ cs }

-- `P` holds after a call that gave nil, and `E` after one that gave an error.
abbrev pub Post : {S : Type 0} → (S → Type 0) → (S → Type 0) → Result (Unit {0}) × S → Type 0
Post P E (ok _, t) = P t
Post P E (err _, t) = E t

-- From a state with `P`, the calls end with `Q`, or with `E` and an error.
pub record Runs {S : Type 0} (P E Q : S → Type 0) (m : Api S (Unit {0})) : Type 0 where
  pub from : (s : S) → P s → Post Q E (m s)

module _ {S : Type 0} where
  on_within :
      (Q E : S → Type 0) (p : String) (x : Result (Unit {0}) × S)
      → Post Q E x
      → Post Q E (on_result pure (λ e. raise (wrap p e)) x)
  on_within Q E p (ok _, t) h = h
  on_within Q E p (err e, t) h = h

  on_seq :
      {Q E R : S → Type 0} {k : Api S (Unit {0})}
      → Runs Q E R k
      → (x : Result (Unit {0}) × S) → Post Q E x
      → Post R E (on_result (λ _. k) raise x)
  on_seq r (ok _, t) h = r.from t h
  on_seq r (err e, t) h = h

  pub Runs-within :
      {P E Q : S → Type 0} (p : String) (m : Api S (Unit {0}))
      → Runs P E Q m
      → Runs P E Q (within p m)
  Runs-within {E} {Q} p m r = record { from = λ s h. on_within Q E p (m s) (r.from s h) }

  pub Runs-seq :
      {P E Q R : S → Type 0} (m k : Api S (Unit {0}))
      → Runs P E Q m
      → Runs Q E R k
      → Runs P E R (m >> k)
  Runs-seq m k r q = record { from = λ s h. on_seq q (m s) (r.from s h) }

  pub Runs-weaken :
      {P E F Q : S → Type 0} (m : Api S (Unit {0}))
      → ((s : S) → E s → F s)
      → Runs P E Q m
      → Runs P F Q m
  Runs-weaken {E} {F} {Q} m f r = record { from = λ s h. go (m s) (r.from s h) }
    where
      go : (x : Result (Unit {0}) × S) → Post Q E x → Post Q F x
      go (ok _, t) h = h
      go (err _, t) h = f t h

module _ {Sink S : Type 0} (view : S → Running Sink) where
  -- After a call that may change `r` to `r'`, or fail and change nothing.
  abbrev pub Changed : Running Sink → Running Sink → Result (Unit {0}) × S → Type 0
  Changed r r' = Post (λ t. view t ≡ r') (λ t. view t ≡ r)

  -- What is relied on of the manager: a call that succeeds registers what it is given, a call that
  -- fails registers nothing, and only `Start` starts it, also where it returns an error later.
  pub record IsManager (mgr : Manager Sink S) : Type 0 where
    pub creates : (o : ManagerOptions) (s : S) → Changed (view s) blank (mgr.new_manager o s)
    pub completes :
        (name : String) (c : Controller Sink) (s : S)
        → Changed (view s) (with_controllers (view s) ((name, c) ∷ [])) (mgr.complete name c s)
    pub registers :
        (path : String) (h : Handler) (s : S)
        → view (mgr.register path h s)
          ≡ record (view s) { webhooks = (view s).webhooks ++ (path, h) ∷ [] }
    pub healthz_checks :
        (name : String) (s : S)
        → Changed
            (view s)
            (record (view s) { healthz = (view s).healthz ++ name ∷ [] })
            (mgr.add_healthz_check name s)
    pub readyz_checks :
        (name : String) (s : S)
        → Changed
            (view s)
            (record (view s) { readyz = (view s).readyz ++ name ∷ [] })
            (mgr.add_readyz_check name s)
    pub starts : (s : S) → view (mgr.start s).1 ≡ record (view s) { started = true }

  -- Not started yet.
  abbrev pub Idle : S → Type 0
  Idle t = (view t).started ≡ false

  abbrev pub Is : Running Sink → S → Type 0
  Is r t = view t ≡ r

  Changed-Post :
      (r r' : Running Sink) (x : Result (Unit {0}) × S)
      → Changed r r' x
      → r.started ≡ false
      → Post (Is r') Idle x
  Changed-Post r r' (ok _, t) h e = h
  Changed-Post r r' (err _, t) h e = ap (λ (q : Running Sink). q.started) h ∙ e

  -- One call of the manager, before the start.
  pub Runs-call :
      (m : Api S (Unit {0})) (r : Running Sink) (change : Running Sink → Running Sink)
      → ((s : S) → Changed (view s) (change (view s)) (m s))
      → r.started ≡ false
      → Runs (Is r) Idle (Is (change r)) m
  Runs-call m r change does e = record {
    from = λ s h.
        Changed-Post r (change r) (m s) (subst (λ q. Changed q (change q) (m s)) h (does s)) e;
  }

  pub Runs-each :
      {A : Type 0} (f : A → Api S (Unit {0})) (entry : A → String × Controller Sink)
      → ((a : A) (r : Running Sink)
          → r.started ≡ false
          → Runs (Is r) Idle (Is (with_controllers r (entry a ∷ []))) (f a))
      → (xs : List A) (r : Running Sink) → r.started ≡ false
      → Runs (Is r) Idle (Is (with_controllers r (map entry xs))) (each f xs)
  unfolding each
  Runs-each f entry does [] r e = record {
    from = λ s h. h ∙ ap (λ cs. record r { controllers = cs }) (sym (append-nil r.controllers));
  }
  Runs-each f entry does (x ∷ xs) r e = Runs-seq (f x) (each f xs) (does x r e) (
      subst
        (λ cs.
          Runs (Is (with_controllers r (entry x ∷ []))) Idle (Is (record r { controllers = cs }))
            (each f xs))
        (append_assoc r.controllers (entry x ∷ []) (map entry xs))
        (Runs-each f entry does xs (with_controllers r (entry x ∷ [])) e))
