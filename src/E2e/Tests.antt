-- ===== src/E2e/Tests.antt =====
-- Concrete runs of pkg/e2e, and its theorems on them.
use mathlib.Core.Bool.{false≢true}
use seam_core.Prelude.{
  ℕ, suc, ◌+◌, ◌*◌, ◌/◌, ◌≤◌, String, ◌≡◌, refl, ◌↔◌, true, List, [], ◌∷◌, none, some, arith, ltb,
  if◌then◌else◌, ◌==◌, eq_iff, Dict, get, sort_strings, keys, mem,
}
use seam_core.Prelude.Int.{pos}
use seam_core.Kube.Object.{fields, text, text_at}
use seam_core.Kube.Client.{api, message, not_found, ok, err}
use seam_core.Conditions.Validate.{validate_condition, known_condition_types}
use seam_core.Conditions.Vocabulary.{vocabulary}
use seam_core.E2e.Duration.{minute, second}
use seam_core.E2e.Reading.{ObjectField, object, array, extract_conditions, status_for}
use seam_core.E2e.Poller.{
  ConditionPoller, Cluster, new_condition_poller, make_poller, rejects_type, poll, poll_loop, begin,
  observe, observes,
}
use seam_core.E2e.Poller.Construction.{Made, new_condition_poller_iff}
use seam_core.E2e.Poller.Deadline.{IsTicker, Returns, poll-Returns}
use seam_core.E2e.Poller.Success.{ObservedFrom, poll_iff}
use seam_core.E2e.Namespace.{Namespace, webhook_mode_exempt, ensure, Ensured, ensure-Ensured}
use seam_core.E2e.Applier.{Applier, PatchCall, apply, Sent, apply-Sent}
use seam_core.E2e.Registry.{digest_of}
use seam_core.E2e.Registry.Artifact.{push_artifact, pull_artifact}
use seam_core.E2e.Registry.Server.{Ends}
use seam_core.E2e.Registry.RoundTrip.{pull_artifact-push_artifact}
use seam_core.E2e.Servers.{
  namespace_store, view_namespaces, namespace_store-IsStore, namespace_store-IsExclusive,
  oci_client, oci_blob, oci_tagged, OciUploading, oci-IsRegistry,
}

-- A cluster whose clock moves only while the poll waits, up to the next tick. The object is there
-- and ready from a time on.
record Simulated : Type 0 where
  time : ℕ
  made : ℕ
  interval : ℕ
  ticks : ℕ

abbrev ready_object : Dict ObjectField
ready_object =
    (
      "status",
      object (
          (
            "conditions",
            array (fields (("type", text "Ready") ∷ ("status", text "True") ∷ []) ∷ []),
          )
          ∷ []),
    )
    ∷ []

abbrev simulated : ℕ → Cluster Simulated
simulated ready_at = record {
  now = λ s. (s.time, s);
  new_ticker = λ d s. record { time = s.time; made = s.time; interval = d; ticks = 0 };
  fetch = λ s. (if ltb s.time ready_at then err (api not_found) else ok ready_object, s);
  wait = λ s. (none, record s { time = s.made + suc s.ticks * s.interval; ticks = suc s.ticks });
  describe = λ e. "not found";
}

record SimulatedTicking (o d k : ℕ) (s : Simulated) : Type 0 where
  made_at : s.made ≡ o
  every : s.interval ≡ d
  received : s.ticks ≡ k
  passed : o + k * d ≤ s.time

simulated-IsTicker : (ready_at : ℕ) → IsTicker (simulated ready_at) SimulatedTicking
simulated-IsTicker ready_at = record {
  made = λ d s. record { made_at = refl; every = refl; received = refl; passed = grind arith };
  reads = λ o d k s h. (h.passed, h);
  fetches = λ o d k s h. h;
  waits = λ o d k s h e. record {
    made_at = h.made_at;
    every = h.every;
    received = cc (h.received);
    passed = rw (h.made_at, h.every, h.received) (omega arith);
  };
}

abbrev ready_poller : ConditionPoller
ready_poller = record {
  client_name = "ccs-mgmt";
  resource = "rbacprofiles";
  namespace = "seam-system";
  name = "platform-rbacprofile";
  condition_type = "Ready";
  want_status = "True";
  timeout = 3 * minute;
  interval = 5 * second;
}

ready_poller_made :
    new_condition_poller "ccs-mgmt" "rbacprofiles" "seam-system" "platform-rbacprofile" "Ready"
      "True"
      (pos (3 * minute))
      (pos 0)
    ≡ ok ready_poller
unfolding new_condition_poller make_poller rejects_type validate_condition known_condition_types
    sort_strings keys vocabulary
ready_poller_made = refl

abbrev at_start : Simulated
at_start = record { time = 100; made = 0; interval = 0; ticks = 0 }

poll-Returns_example : Returns (
    poll (simulated 1_000) ready_poller (ready_poller.timeout / ready_poller.interval + 2) at_start)
poll-Returns_example =
    poll-Returns (simulated 1_000) SimulatedTicking (simulated-IsTicker 1_000) "ccs-mgmt"
      "rbacprofiles" "seam-system" "platform-rbacprofile" "Ready" "True" (pos (3 * minute)) (pos 0)
      ready_poller ready_poller_made at_start

poll_iff_example :
    ((poll (simulated 12) ready_poller 3 at_start).0 ≡ some (ok tt))
    ↔ ObservedFrom (simulated 12) ready_poller 3 (100, at_start)
poll_iff_example = poll_iff (simulated 12) ready_poller 3 at_start

-- The object is ready in the second round.
poll_runs : (poll (simulated 1_000) ready_poller 5 at_start).0 ≡ some (ok tt)
unfolding poll begin poll_loop observe observes extract_conditions status_for get text_at
poll_runs = refl

new_condition_poller_iff_example :
    Made (new_condition_poller "c" "r" "ns" "n" "Ready" "True" (pos 0) (pos 0))
    ↔ (mem "Ready" known_condition_types ≡ true)
new_condition_poller_iff_example =
    new_condition_poller_iff "c" "r" "ns" "n" "Ready" "True" (pos 0) (pos 0)

abbrev seam_system : Namespace
seam_system = record { name = "seam-system"; labels = [] }

-- The label of a namespace that is there is not changed.
ensure-Ensured_example :
    Ensured "c" namespace_store view_namespaces "seam-system" webhook_mode_exempt
      (seam_system ∷ [])
      (ensure "c" namespace_store "seam-system" webhook_mode_exempt (seam_system ∷ []))
ensure-Ensured_example =
    ensure-Ensured "c" namespace_store view_namespaces namespace_store-IsStore
      namespace_store-IsExclusive "seam-system" webhook_mode_exempt (seam_system ∷ [])

-- A server that lists the calls; a manifest is its name.
abbrev counting : Applier String (List PatchCall)
counting = record {
  client_name = "ccs-test";
  yaml_to_json = λ y. if y == "" then err (message "empty") else ok y;
  decode = λ j. ok (record { name = j; namespace = "" });
  patch = λ call s. (ok "applied", call ∷ s);
}

apply-Sent_example : Sent counting "packbuilds" "pb" [] (apply counting "packbuilds" "pb" [])
apply-Sent_example = apply-Sent counting "packbuilds" "pb" []

pull_artifact-push_artifact_example :
    Ends
      (λ d t. (pull_artifact (oci_client "pack") "p" "v1" t).0 ≡ ok "pack")
      (push_artifact (oci_client "pack") "p" "v1" "pack" (record { blobs = []; tagged = none }))
unfolding digest_of oci_client
pull_artifact-push_artifact_example =
    pull_artifact-push_artifact (oci_client "pack") "p" "v1" (oci_blob "pack") (oci_tagged "pack")
      (OciUploading "pack") (oci-IsRegistry "pack") "pack" refl refl (λ json e. refl) different
      (record { blobs = []; tagged = none })
  where
    different :
        digest_of (oci_client "pack") "pack" ≡ digest_of (oci_client "pack") "{}"
        → ◌≡◌ {A = String} "pack" "{}"
    different e = absurd (false≢true ((eq_iff "sha256:pack" "sha256:{}").1 e))
