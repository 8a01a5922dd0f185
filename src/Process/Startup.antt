-- ===== src/Process/Startup.antt =====
-- That cmd/seam-core/main.go comes to its end: no controller's name is taken.
use seam_core.Prelude.{
  String, ◌≡◌, refl, sym, ap, ◌∙◌, true, false, List, [], ◌∷◌, ◌++◌, map, subst, mem, unique,
}
use mathlib.Core.List.{append-nil, append_assoc}
use seam_core.Kube.Client.{Result, ok, err, wrap, Api, pure, raise, on_result, within}
use seam_core.Lineage.Registry.{derived_object_gvks}
use seam_core.Lineage.Names.{root_declaration_gvks}
use seam_core.Process.{
  start_lineage, start_descendant, start_dsns, Controller, Flags, Manager, ManagerOptions,
  dsns_gvks, setup_lineage, setup_descendant, setup_dsns, setup_controllers, setup_webhooks,
  setup_checks, main, each, register_immutability, register_authorship,
}
use seam_core.Process.Running.{
  Running, blank, with_controllers, Post, Runs, Runs-within, Runs-seq, IsManager, Idle, Is,
}
use seam_core.Process.Names.{
  names, entry_names, mem_before, names_add, all_names_unique, first_names_unique,
  lineage_names_unique,
}
use seam_core.Process.Wiring.{
  lineage_registration, descendant_registration, dsns_registration, lineage_registrations,
  descendant_registrations, complete_and_started, controlled, new_manager-Runs, setup_webhooks-Runs,
  setup_checks-Runs, start-Runs,
}

module _ {S : Type 0} where
  answers_within :
      (p : String) (x : Result (Unit {0}) × S)
      → x.0 ≡ ok tt
      → (on_result pure (λ e. raise (wrap p e)) x).0 ≡ ok tt
  answers_within p (ok _, t) h = refl
  answers_within p (err e, t) h = cc

  answers_seq :
      (x : Result (Unit {0}) × S) (k : Api S (Unit {0}))
      → x.0 ≡ ok tt
      → ((t : S) → (k t).0 ≡ ok tt)
      → (on_result (λ _. k) raise x).0 ≡ ok tt
  answers_seq (ok _, t) k h f = f t
  answers_seq (err e, t) k h f = cc

module _ {Sink S : Type 0} (view : S → Running Sink) (mgr : Manager Sink S) where
  -- What is relied on of a manager in a cluster that answers: a controller is refused only if its
  -- name is taken.
  pub record IsAnswering : Type 0 where
    pub creates : (o : ManagerOptions) (s : S) → (mgr.new_manager o s).0 ≡ ok tt
    pub completes :
        (name : String) (c : Controller Sink) (s : S)
        → mem name (names (view s)) ≡ false
        → (mgr.complete name c s).0 ≡ ok tt
    pub healthz_checks : (name : String) (s : S) → (mgr.add_healthz_check name s).0 ≡ ok tt
    pub readyz_checks : (name : String) (s : S) → (mgr.add_readyz_check name s).0 ≡ ok tt
    pub starts : (s : S) → (mgr.start s).0 ≡ ok tt

  -- No call ends with an error.
  abbrev Never : S → Type 0
  Never s = ⊥

  sure :
      (Q : S → Type 0) (E : S → Type 0) (x : Result (Unit {0}) × S)
      → x.0 ≡ ok tt
      → Post Q E x
      → Post Q Never x
  sure Q E (ok _, t) e h = h
  sure Q E (err q, t) e h = cc

  module _ (manager : IsManager view mgr) (answering : IsAnswering) (getenv : String → String) where
    completed :
        (m : String) (c : String × Controller Sink) (r : Running Sink)
        → mem c.0 (names r) ≡ false
        → Runs
            (Is view r)
            Never
            (Is view (with_controllers r (c ∷ [])))
            (within m (mgr.complete c.0 c.1))
    completed m c r fresh = Runs-within m (mgr.complete c.0 c.1) (record {
      from = λ s h.
          sure _ _ (mgr.complete c.0 c.1 s)
            (answering.completes c.0 c.1 s (subst (λ q. mem c.0 (names q) ≡ false) (sym h) fresh))
            (subst
              (λ q.
                Post (Is view (with_controllers q (c ∷ []))) (Is view q) (mgr.complete c.0 c.1 s))
              h (manager.completes c.0 c.1 s));
    })

    each_sure :
        {A : Type 0} (f : A → Api S (Unit {0})) (entry : A → String × Controller Sink)
        → ((a : A) (r : Running Sink)
            → mem (entry a).0 (names r) ≡ false
            → Runs (Is view r) Never (Is view (with_controllers r (entry a ∷ []))) (f a))
        → (xs : List A) (r : Running Sink) → unique (names r ++ entry_names (map entry xs)) ≡ true
        → Runs (Is view r) Never (Is view (with_controllers r (map entry xs))) (each f xs)
    unfolding each
    each_sure f entry does [] r u = record {
      from = λ s h. h ∙ ap (λ cs. record r { controllers = cs }) (sym (append-nil r.controllers));
    }
    each_sure f entry does (x ∷ xs) r u =
        Runs-seq (f x) (each f xs)
          (does x r (mem_before (entry x).0 (names r) (entry_names (map entry xs)) u))
          (subst
            (λ cs.
              Runs (Is view (with_controllers r (entry x ∷ []))) Never
                (Is view (record r { controllers = cs })) (each f xs))
            (append_assoc r.controllers (entry x ∷ []) (map entry xs))
            (each_sure f entry does xs (with_controllers r (entry x ∷ []))
              (rw (names_add r.controllers (entry x) (entry_names (map entry xs))) u)))

    lineages_sure :
        Runs
          (Is view blank)
          Never
          (Is view (with_controllers blank lineage_registrations))
          (each (start_lineage mgr getenv) root_declaration_gvks)
    unfolding start_lineage setup_lineage
    lineages_sure =
        each_sure (start_lineage mgr getenv) lineage_registration
          (λ a r e. completed _ (lineage_registration a) r e) root_declaration_gvks blank
          (lineage_names_unique Sink)

    descendants_sure :
        Runs
          (Is view (with_controllers blank lineage_registrations))
          Never
          (Is view (
            with_controllers
              (with_controllers blank lineage_registrations)
              descendant_registrations))
          (each (start_descendant mgr getenv) derived_object_gvks)
    unfolding start_descendant setup_descendant
    descendants_sure =
        each_sure (start_descendant mgr getenv) descendant_registration
          (λ a r e. completed _ (descendant_registration a) r e) derived_object_gvks _
          (first_names_unique Sink)

    abbrev key : String
    key = getenv "CONDUCTOR_SIGNING_KEY_FINGERPRINT"

    abbrev ip : String
    ip = getenv "DSNS_SERVICE_IP"

    dsns_sure :
        Runs
          (Is view (
            with_controllers
              (with_controllers blank lineage_registrations)
              descendant_registrations))
          Never
          (Is view (controlled key ip))
          (each (start_dsns mgr getenv) dsns_gvks)
    unfolding start_dsns setup_dsns
    dsns_sure =
        each_sure (start_dsns mgr getenv) (dsns_registration key ip)
          (λ a r e. completed _ (dsns_registration key ip a) r e) dsns_gvks _
          (all_names_unique Sink key ip)

    setup_controllers_sure :
        Runs (Is view blank) Never (Is view (controlled key ip)) (setup_controllers mgr getenv)
    unfolding setup_controllers
    setup_controllers_sure = Runs-seq _ _ (Runs-seq _ _ lineages_sure descendants_sure) dsns_sure

    certain :
        {P E Q : S → Type 0} (m : Api S (Unit {0}))
        → Runs P E Q m
        → ((s : S) → (m s).0 ≡ ok tt)
        → Runs P Never Q m
    certain {E} {Q} m r answers = record { from = λ s h. sure Q E (m s) (answers s) (r.from s h) }

    setup_webhooks_answers : (s : S) → (setup_webhooks mgr s).0 ≡ ok tt
    unfolding setup_webhooks register_immutability register_authorship
    setup_webhooks_answers s = refl

    setup_checks_answers : (s : S) → (setup_checks mgr s).0 ≡ ok tt
    unfolding setup_checks
    setup_checks_answers s =
        answers_seq _ _ (answers_within _ _ (answering.healthz_checks "healthz" s))
          (λ t. answers_within _ _ (answering.readyz_checks "readyz" t))

    main_sure :
        (parse : Flags → Flags)
        → Runs (Idle view) Never (Is view (complete_and_started key ip)) (main mgr getenv parse)
    unfolding main
    main_sure parse =
        Runs-seq _ _
          (Runs-seq _ _
            (Runs-seq _ _
              (Runs-seq _ _
                (Runs-within _ _
                  (certain _ (new_manager-Runs view mgr manager getenv _) (answering.creates _)))
                setup_controllers_sure)
              (certain _ (setup_webhooks-Runs view mgr manager getenv) setup_webhooks_answers))
            (certain _ (setup_checks-Runs view mgr manager getenv) setup_checks_answers))
          (Runs-within _ _ (certain _ (start-Runs view mgr manager getenv) answering.starts))

    -- In a cluster that answers, where a controller is refused only if its name is taken, `main`
    -- ends without an error, with the manager started and all controllers, webhooks and checks
    -- registered, whatever the environment and the flags.
    pub main_starts :
        (parse : Flags → Flags) (s : S)
        → Idle view s
        → ((main mgr getenv parse s).0 ≡ ok tt)
          × (view (main mgr getenv parse s).1 ≡ complete_and_started key ip)
    main_starts parse s h = done (main mgr getenv parse s) ((main_sure parse).from s h)
      where
        done :
            (x : Result (Unit {0}) × S)
            → Post (Is view (complete_and_started key ip)) Never x
            → (x.0 ≡ ok tt) × (view x.1 ≡ complete_and_started key ip)
        done (ok _, t) h = (refl, h)
        done (err _, t) h = absurd h
