-- ===== src/Dns/State.antt =====
-- internal/dns/state.go: the zone and the record keys of each owner, shared by all reconcilers.
-- Each exported method runs under the mutex, so it is one step on the state.
pub mod Ownership
pub mod Reachable
pub mod Sharing
use seam_core.Prelude.{
  ℕ, String, List, [], ◌∷◌, map, Option, none, some, Dict, get, put, remove, split_at,
}
use seam_core.Kube.Object.{ObjectKey}
use seam_core.Kube.Client.{
  Result, ok, err, Api, pure, try_or, on_result, raise, ◌>>=◌, ObjectClient,
}
use seam_core.Dns.Event.{DsnsEvent, Delivery, notify}
use seam_core.Dns.Zone.{
  ZoneFile, Record, new_zone_file, record_key, add_record, remove_record, render,
}
use seam_core.Dns.Writer.{ConfigMap, apply_content}

-- The mutex is not modelled, and the writer is the client that `apply` takes.
pub record DsnsState (Sink : Type 0) : Type 0 where
  pub zone : ZoneFile
  pub owned : Dict (List String)
  pub sinks : List Sink

abbrev pub owned_keys : Option (List String) → List String
owned_keys none = []
owned_keys (some ks) = ks

-- One round of the loop in `removeOwnerLocked`: a key with no colon is passed over.
unfoldable pub remove_key : ZoneFile → String → ZoneFile
unfolding split_at remove_record
remove_key z key = elim (split_at ":" key) [ none ↦ z | some p ↦ remove_record z p.0 p.1 ]

unfoldable pub remove_keys : ZoneFile → List String → ZoneFile
unfolding remove_key
remove_keys z [] = z
remove_keys z (k ∷ ks) = remove_keys (remove_key z k) ks

unfoldable pub add_records : ZoneFile → List Record → ZoneFile
unfolding add_record
add_records z [] = z
add_records z (r ∷ rs) = add_records (add_record z r) rs

abbrev pub key_of_record : Record → String
key_of_record r = record_key r.rtype r.name

module _ {Sink : Type 0} where
  abbrev pub new_dsns_state : DsnsState Sink
  new_dsns_state = record { zone = new_zone_file; owned = []; sinks = [] }

  abbrev pub set_sinks : DsnsState Sink → List Sink → DsnsState Sink
  set_sinks s sinks = record s { sinks = sinks }

  unfoldable pub set_static_record : DsnsState Sink → Record → DsnsState Sink
  unfolding add_record
  set_static_record s r = record s { zone = add_record s.zone r }

  unfoldable pub remove_owner_locked : DsnsState Sink → String → DsnsState Sink
  unfolding remove_keys get remove
  remove_owner_locked s owner = record s {
    zone = remove_keys s.zone (owned_keys (get s.owned owner));
    owned = remove s.owned owner;
  }

  unfoldable pub remove_records : DsnsState Sink → String → DsnsState Sink
  unfolding remove_owner_locked
  remove_records s owner = remove_owner_locked s owner

  -- The rest of `UpdateRecords`, behind the removal of the old records.
  unfoldable pub own_records : DsnsState Sink → String → List Record → DsnsState Sink
  unfolding add_records put
  own_records s owner [] = s
  own_records s owner (r ∷ rs) = record s {
    zone = add_records s.zone (r ∷ rs);
    owned = put s.owned owner (map key_of_record (r ∷ rs));
  }

  unfoldable pub update_records : DsnsState Sink → String → List Record → DsnsState Sink
  unfolding remove_owner_locked own_records
  update_records s owner rs = own_records (remove_owner_locked s owner) owner rs

  -- ZoneSnapshot
  abbrev pub zone_snapshot : ℕ → DsnsState Sink → String
  zone_snapshot now s = render now s.zone

  abbrev sent_for : List Sink → List DsnsEvent → List (Delivery Sink)
  sent_for sinks [] = []
  sent_for sinks (e ∷ es) = notify sinks e

  -- `Apply`: the zone is written, and then the first event goes to the sinks. The result lists the
  -- goroutines that are started.
  module _ {S : Type 0} (client : ObjectClient S ObjectKey ConfigMap) where
    unfoldable pub apply : ℕ → DsnsState Sink → List DsnsEvent → Api S (List (Delivery Sink))
    unfolding render apply_content notify
    apply now s events =
        try_or (apply_content client (render now s.zone)) (λ _. pure (sent_for s.sinks events))
          raise
