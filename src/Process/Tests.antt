-- ===== src/Process/Tests.antt =====
-- A manager in memory, and the theorems about the start of the process on it.
use seam_core.Prelude.{
  ℕ, String, ◌≡◌, refl, ap, ◌≢◌, Bool, true, false, [], ◌∷◌, ◌++◌, some, arith, ◌==◌, if◌then◌else◌,
  All, mem, eq_iff,
}
use seam_core.Kube.Client.{message, Result, ok, err}
use seam_core.Webhook.Decide.{
  Json, infrastructure_lineage_index_kind, operation_create, lineage_controller_identity,
  valid_infrastructure_domain_ref,
}
use seam_core.Webhook.Handler.{Request, Extract, allowed, extract_domain_ref, extract_root_binding}
use seam_core.Process.{Controller, Flags, Manager, main, domain_ref_validation}
use seam_core.Process.Running.{Running, blank, with_controllers, Changed, IsManager}
use seam_core.Process.Wiring.{complete_and_started, main-Whole}
use seam_core.Process.Names.{names}
use seam_core.Process.Startup.{IsAnswering, main_starts}
use seam_core.Process.Unchecked.{IsForeign, answer, main-Unchecked}

-- A name that is taken is refused, and every other call succeeds.
abbrev add_controller : Bool → String → Controller ℕ → Running ℕ → Result (Unit {0}) × Running ℕ
add_controller true name c r = (err (message "controller with this name already exists"), r)
add_controller false name c r = (ok tt, with_controllers r ((name, c) ∷ []))

abbrev memory_manager : Manager ℕ (Running ℕ)
memory_manager = record {
  new_manager = λ o r. (ok tt, blank);
  complete = λ name c r. add_controller (mem name (names r)) name c r;
  register = λ path h r. record r { webhooks = r.webhooks ++ (path, h) ∷ [] };
  add_healthz_check = λ name r. (ok tt, record r { healthz = r.healthz ++ name ∷ [] });
  add_readyz_check = λ name r. (ok tt, record r { readyz = r.readyz ++ name ∷ [] });
  start = λ r. (ok tt, record r { started = true });
}

add_controller-Changed :
    (b : Bool) (name : String) (c : Controller ℕ) (r : Running ℕ)
    → Changed (λ q. q) r (with_controllers r ((name, c) ∷ [])) (add_controller b name c r)
add_controller-Changed true name c r = refl
add_controller-Changed false name c r = refl

memory_manager-IsManager : IsManager (λ q. q) memory_manager
memory_manager-IsManager = record {
  creates = λ o r. refl;
  completes = λ name c r. add_controller-Changed (mem name (names r)) name c r;
  registers = λ path h r. refl;
  healthz_checks = λ name r. refl;
  readyz_checks = λ name r. refl;
  starts = λ r. refl;
}

memory_manager-IsAnswering : IsAnswering (λ q. q) memory_manager
memory_manager-IsAnswering = record {
  creates = λ o r. refl;
  completes = λ name c r e. rw e refl;
  healthz_checks = λ name r. refl;
  readyz_checks = λ name r. refl;
  starts = λ r. refl;
}

-- The address of the nameserver is set, and nothing else.
abbrev environment : String → String
environment name = if name == "DSNS_SERVICE_IP" then "10.0.0.7" else ""

abbrev no_flags : Flags → Flags
no_flags flags = flags

main_starts_example :
    ((main memory_manager environment no_flags blank).0 ≡ ok tt)
    × ((main memory_manager environment no_flags blank).1 ≡ complete_and_started "" "10.0.0.7")
main_starts_example =
    main_starts (λ q. q) memory_manager memory_manager-IsManager memory_manager-IsAnswering
      environment no_flags blank refl

-- Documents that are their own text; the domain reference is a foreign one.
abbrev text_json : Json
text_json = record { Doc = String; decode = some; deep_equal = λ a b. a == b }

abbrev foreign_extract : Extract
foreign_extract = record { root_binding = λ s. some (some s); domain_ref = λ s. some "x.org" }

abbrev foreign_request : Request
foreign_request = record {
  kind = infrastructure_lineage_index_kind;
  operation = operation_create;
  username = lineage_controller_identity;
  object_raw = "{}";
  old_object_raw = "";
}

foreign_request-IsForeign : IsForeign text_json foreign_extract foreign_request
unfolding extract_root_binding extract_domain_ref
foreign_request-IsForeign = record {
  kind = refl;
  operation = refl;
  username = refl;
  old = refl;
  binding = some "{}";
  binding_read = refl;
  ref = "x.org";
  ref_read = refl;
  ref_given = ground (arith, eq_iff "x.org" "");
  ref_foreign = ground (arith, eq_iff "x.org" valid_infrastructure_domain_ref);
}

memory_started : (main memory_manager environment no_flags blank).1.started ≡ true
memory_started =
    ap (λ (r : Running ℕ). r.started)
      (main_starts (λ q. q) memory_manager memory_manager-IsManager memory_manager-IsAnswering
        environment no_flags blank refl).1

main-Whole_example :
    (main memory_manager environment no_flags blank).1 ≡ complete_and_started "" "10.0.0.7"
main-Whole_example =
    main-Whole (λ q. q) memory_manager memory_manager-IsManager environment no_flags blank refl
      memory_started

main-Unchecked_example :
    All
      (λ w. answer text_json foreign_extract w.1 foreign_request ≡ allowed "")
      (main memory_manager environment no_flags blank).1.webhooks
    × (answer text_json foreign_extract domain_ref_validation foreign_request ≢ allowed "")
main-Unchecked_example =
    main-Unchecked (λ q. q) memory_manager memory_manager-IsManager environment no_flags blank refl
      memory_started text_json foreign_extract foreign_request foreign_request-IsForeign
