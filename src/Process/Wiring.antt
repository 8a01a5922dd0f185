-- ===== src/Process/Wiring.antt =====
-- What a process of cmd/seam-core/main.go serves once it is started.
use seam_core.Prelude.{
  String, ◌≡◌, refl, ap, ◌∙◌, true, false, List, [], ◌∷◌, ◌++◌, map, to_lower, ◌⊕◌,
}
use seam_core.Kube.Object.{GroupVersionKind}
use seam_core.Kube.Client.{Result, ok, err}
use seam_core.Lineage.Registry.{derived_object_gvks}
use seam_core.Lineage.Names.{root_declaration_gvks}
use seam_core.Process.{
  start_lineage, start_descendant, start_dsns, Handler, root_binding_immutability, authorship_gate,
  root_binding_webhook_path, authorship_webhook_path, Controller, lineage_reconciler,
  descendant_reconciler, dsns_reconciler, Flags, Manager, ManagerOptions, dsns_gvks,
  initial_dsns_state, setup_lineage, setup_descendant, setup_dsns, setup_controllers,
  setup_webhooks, setup_checks, register_immutability, register_authorship, main, each,
}
use seam_core.Process.Running.{
  Running, blank, with_controllers, Post, Runs, Runs-within, Runs-seq, Runs-call, Runs-each,
  Runs-weaken, Changed, IsManager, Idle, Is,
}

module _ {Sink : Type 0} where
  abbrev pub lineage_registration : GroupVersionKind → String × Controller Sink
  lineage_registration gvk = ("lineage-" ⊕ to_lower gvk.kind, lineage_reconciler gvk)

  abbrev pub descendant_registration : GroupVersionKind → String × Controller Sink
  descendant_registration gvk = ("descendant-" ⊕ to_lower gvk.kind, descendant_reconciler gvk)

  -- By the fingerprint of the signing key and by the address of the nameserver.
  abbrev pub dsns_registration : String → String → GroupVersionKind → String × Controller Sink
  dsns_registration key ip gvk =
      ("dsns-" ⊕ to_lower gvk.kind, dsns_reconciler gvk (initial_dsns_state key ip) ip)

  abbrev pub lineage_registrations : List (String × Controller Sink)
  lineage_registrations = map lineage_registration root_declaration_gvks

  abbrev pub descendant_registrations : List (String × Controller Sink)
  descendant_registrations = map descendant_registration derived_object_gvks

  abbrev pub dsns_registrations : String → String → List (String × Controller Sink)
  dsns_registrations key ip = map (dsns_registration key ip) dsns_gvks

  abbrev pub all_registrations : String → String → List (String × Controller Sink)
  all_registrations key ip =
      (lineage_registrations ++ descendant_registrations) ++ dsns_registrations key ip

abbrev pub webhooks_served : List (String × Handler)
webhooks_served =
    (root_binding_webhook_path, root_binding_immutability)
    ∷ (authorship_webhook_path, authorship_gate)
    ∷ []

-- The manager with all controllers, with the webhooks and with the checks.
module _ {Sink : Type 0} (key ip : String) where
  abbrev pub controlled : Running Sink
  controlled = record blank { controllers = all_registrations key ip }

  abbrev pub hooked : Running Sink
  hooked = record controlled { webhooks = webhooks_served }

  abbrev pub checked : Running Sink
  checked = record hooked { healthz = "healthz" ∷ []; readyz = "readyz" ∷ [] }

  abbrev pub complete_and_started : Running Sink
  complete_and_started = record checked { started = true }

module _ {Sink S : Type 0} (view : S → Running Sink) (mgr : Manager Sink S)
    (manager : IsManager view mgr) (getenv : String → String) where
  abbrev key : String
  key = getenv "CONDUCTOR_SIGNING_KEY_FINGERPRINT"

  abbrev ip : String
  ip = getenv "DSNS_SERVICE_IP"

  -- It is not started, or nothing is missing.
  abbrev pub Whole : S → Type 0
  Whole t = (view t).started ≡ true → view t ≡ complete_and_started key ip

  completed :
      (c : String × Controller Sink) (r : Running Sink)
      → r.started ≡ false
      → Runs (Is view r) (Idle view) (Is view (with_controllers r (c ∷ []))) (mgr.complete c.0 c.1)
  completed c r e =
      Runs-call view (mgr.complete c.0 c.1) r (λ q. with_controllers q (c ∷ []))
        (manager.completes c.0 c.1) e

  lineages-Runs :
      Runs
        (Is view blank)
        (Idle view)
        (Is view (with_controllers blank lineage_registrations))
        (each (start_lineage mgr getenv) root_declaration_gvks)
  unfolding start_lineage setup_lineage
  lineages-Runs =
      Runs-each view (start_lineage mgr getenv) lineage_registration
        (λ a r e. Runs-within _ _ (completed (lineage_registration a) r e)) root_declaration_gvks
        blank refl

  descendants-Runs :
      (r : Running Sink)
      → r.started ≡ false
      → Runs
          (Is view r)
          (Idle view)
          (Is view (with_controllers r descendant_registrations))
          (each (start_descendant mgr getenv) derived_object_gvks)
  unfolding start_descendant setup_descendant
  descendants-Runs =
      Runs-each view (start_descendant mgr getenv) descendant_registration
        (λ a r e. Runs-within _ _ (completed (descendant_registration a) r e)) derived_object_gvks

  dsns-Runs :
      (r : Running Sink)
      → r.started ≡ false
      → Runs
          (Is view r)
          (Idle view)
          (Is view (with_controllers r (dsns_registrations key ip)))
          (each (start_dsns mgr getenv) dsns_gvks)
  unfolding start_dsns setup_dsns
  dsns-Runs =
      Runs-each view (start_dsns mgr getenv) (dsns_registration key ip)
        (λ a r e. Runs-within _ _ (completed (dsns_registration key ip a) r e)) dsns_gvks

  setup_controllers-Runs :
      Runs (Is view blank) (Idle view) (Is view (controlled key ip)) (setup_controllers mgr getenv)
  unfolding setup_controllers
  setup_controllers-Runs =
      Runs-seq _ _
        (Runs-seq _ _ lineages-Runs
          (descendants-Runs (with_controllers blank lineage_registrations) refl))
        (dsns-Runs
          (with_controllers (with_controllers blank lineage_registrations) descendant_registrations)
          refl)

  hook : (path : String) (h : Handler) → Running Sink → Running Sink
  hook path h r = record r { webhooks = r.webhooks ++ (path, h) ∷ [] }

  registered :
      (path : String) (h : Handler) (r : Running Sink)
      → Runs (Is view r) (Idle view) (Is view (hook path h r)) (λ s. (ok tt, mgr.register path h s))
  unfolding hook
  registered path h r = record { from = λ s e. manager.registers path h s ∙ ap (hook path h) e }

  pub setup_webhooks-Runs :
      Runs (Is view (controlled key ip)) (Idle view) (Is view (hooked key ip)) (setup_webhooks mgr)
  unfolding setup_webhooks register_immutability register_authorship hook
  setup_webhooks-Runs =
      Runs-seq (register_immutability mgr) (register_authorship mgr)
        (registered root_binding_webhook_path root_binding_immutability (controlled key ip))
        (registered authorship_webhook_path authorship_gate
          (hook root_binding_webhook_path root_binding_immutability (controlled key ip)))

  pub setup_checks-Runs :
      Runs (Is view (hooked key ip)) (Idle view) (Is view (checked key ip)) (setup_checks mgr)
  unfolding setup_checks
  setup_checks-Runs =
      Runs-seq _ _
        (Runs-within _ (mgr.add_healthz_check "healthz") (
          Runs-call view (mgr.add_healthz_check "healthz") (hooked key ip)
            (λ r. record r { healthz = r.healthz ++ "healthz" ∷ [] })
            (manager.healthz_checks "healthz") refl))
        (Runs-within _ (mgr.add_readyz_check "readyz") (
          Runs-call view (mgr.add_readyz_check "readyz") _
            (λ r. record r { readyz = r.readyz ++ "readyz" ∷ [] }) (manager.readyz_checks "readyz")
            refl))

  pub new_manager-Runs :
      (o : ManagerOptions) → Runs (Idle view) (Idle view) (Is view blank) (mgr.new_manager o)
  new_manager-Runs o = record { from = λ s h. go s (mgr.new_manager o s) (manager.creates o s) h }
    where
      go :
          (s : S) (x : Result (Unit {0}) × S)
          → Changed view (view s) blank x
          → Idle view s
          → Post (Is view blank) (Idle view) x
      go s (ok _, t) c h = c
      go s (err _, t) c h = ap (λ (r : Running Sink). r.started) c ∙ h

  pub start-Runs :
      Runs (Is view (checked key ip)) Whole (Is view (complete_and_started key ip)) mgr.start
  start-Runs = record { from = λ s h. go s (mgr.start s) (manager.starts s) h }
    where
      go :
          (s : S) (x : Result (Unit {0}) × S)
          → view x.1 ≡ record (view s) { started = true }
          → Is view (checked key ip) s
          → Post (Is view (complete_and_started key ip)) Whole x
      go s (ok _, t) c h = c ∙ ap (λ (r : Running Sink). record r { started = true }) h
      go s (err _, t) c h = λ _. c ∙ ap (λ (r : Running Sink). record r { started = true }) h

  main-Runs :
      (parse : Flags → Flags)
      → Runs (Idle view) Whole (Is view (complete_and_started key ip)) (main mgr getenv parse)
  unfolding main
  main-Runs parse =
      Runs-seq _ _
        (Runs-weaken _ (λ t h e. absurd (cc))
          (Runs-seq _ _
            (Runs-seq _ _
              (Runs-seq _ _ (Runs-within _ _ (new_manager-Runs _)) setup_controllers-Runs)
              setup_webhooks-Runs)
            setup_checks-Runs))
        (Runs-within _ _ start-Runs)

  Post-Whole :
      (x : Result (Unit {0}) × S) → Post (Is view (complete_and_started key ip)) Whole x → Whole x.1
  Post-Whole (ok _, t) h = λ _. h
  Post-Whole (err _, t) h = h

  -- The manager is started only with all controllers (one for each root kind, each derived kind and
  -- each DSNS kind, the last with one state), the two webhooks and the two checks, if it is not
  -- started before `main`. So it is whatever the environment and the flags, and whichever call
  -- fails.
  pub main-Whole :
      (parse : Flags → Flags) (s : S)
      → Idle view s
      → (view (main mgr getenv parse s).1).started ≡ true
      → view (main mgr getenv parse s).1 ≡ complete_and_started key ip
  main-Whole parse s h = Post-Whole (main mgr getenv parse s) ((main-Runs parse).from s h)
