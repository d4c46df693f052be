-- ===== src/Util/Controller.antt =====
-- pkg/util/controller.go: the loop that feeds keys from a work queue to a reconciler. The queue and
-- the functions on keys are client-go's.
pub mod Open
pub mod Retry
pub mod Run
use k8s_ext_connector.Prelude.{
  Text, ℕ, zero, suc, Bool, true, false, Option, none, some, if◌then◌else◌, List, [], ◌∷◌,
}
use k8s_ext_connector.Exec.{Error, Result, ok, err, Exec}
use k8s_ext_connector.Api.{ObjectMeta}

-- What `workqueue.Get` hands out: a key, or an item that is no string.
pub data Item : Type 0 where
  key : Text → Item
  other : Item

-- `get` returns `none` when the queue was shut down.
pub record WorkQueue (W : Type 0) : Type 0 where
  pub add : Text → W → W
  pub get : W → Option Item × W
  pub done : Item → W → W
  pub forget : Item → W → W
  pub add_rate_limited : Text → W → W
  pub shut_down : W → W
  pub meta_namespace_key : ObjectMeta → Result Text
  pub split_meta_namespace_key : Text → Result (Text × Text)

-- `ReconcilerInterface`
abbrev pub ReconcilerInterface : Type 0 → Type 0
ReconcilerInterface W = Text → Text → Exec W (Unit {0})

-- What the informer tells of a resource, to the handlers that `NewController` adds.
pub data ResourceEvent : Type 0 where
  add_func : ObjectMeta → ResourceEvent
  update_func : ObjectMeta → ObjectMeta → ResourceEvent
  delete_func : ObjectMeta → ResourceEvent

-- The object of which the handlers take the key.
unfoldable pub object_of : ResourceEvent → ObjectMeta
object_of (add_func object) = object
object_of (update_func old_object new_object) = new_object
object_of (delete_func object) = object

-- The shared informer: waiting for its cache says whether the cache is in sync, and gives the
-- handlers the events that came meanwhile.
pub record Informer (W : Type 0) : Type 0 where
  pub wait_for_cache_sync : W → Bool × List ResourceEvent × W

-- `Run` ended the program by `glog.Fatalf`, is in its loop, or returned.
pub data RunOutcome : Type 0 where
  fatal in_loop returned : RunOutcome

module _ {W : Type 0} (q : WorkQueue W) where
  unfoldable pub enqueue : ObjectMeta → W → W
  enqueue obj w = elim (q.meta_namespace_key obj) [ ok k ↦ q.add k w | err e ↦ w ]

  -- `AddFunc`, `UpdateFunc` and `DeleteFunc`.
  pub handle_event : ResourceEvent → W → W
  unfolding enqueue object_of
  handle_event event w = enqueue (object_of event) w

  unfoldable pub handle_events : List ResourceEvent → W → W
  unfolding handle_event
  handle_events [] w = w
  handle_events (event ∷ events) w = handle_events events (handle_event event w)

  unfoldable pub get_key : ObjectMeta → Text
  get_key obj = elim (q.meta_namespace_key obj) [ ok k ↦ k | err e ↦ [] ]

  -- What follows `Reconcile`.
  pub after_reconcile : Text → Result (Unit {0}) × W → Result (Unit {0}) × W
  after_reconcile k (ok _, w) = (ok tt, q.forget (key k) w)
  after_reconcile k (err e, w) = (err e, q.add_rate_limited k w)

  pub reconcile_key : ReconcilerInterface W → Text → Result (Text × Text) → Exec W (Unit {0})
  unfolding after_reconcile
  reconcile_key r k (err e) w = (err e, w)
  reconcile_key r k (ok (namespace, name)) w = after_reconcile k (r namespace name w)

  -- The function literal in `processNext`, without its deferred call.
  pub process_item : ReconcilerInterface W → Item → Exec W (Unit {0})
  unfolding reconcile_key
  process_item r other w = (ok tt, q.forget other w)
  process_item r (key k) w = reconcile_key r k (q.split_meta_namespace_key k) w

  pub process_got : ReconcilerInterface W → Option Item → W → Bool × W
  unfolding process_item
  process_got r none w = (false, w)
  process_got r (some item) w = (true, q.done item (process_item r item w).1)

  -- The errors that `processNext` logs are left out.
  unfoldable pub process_next : ReconcilerInterface W → W → Bool × W
  unfolding process_got
  process_next r w = process_got r (q.get w).0 (q.get w).1

  -- `for c.processNext() {}`, with the number of rounds that are looked at.
  unfoldable pub reconcile_loop : ℕ → ReconcilerInterface W → W → Bool × W
  reconcile_loop zero r w = (true, w)
  reconcile_loop (suc rounds) r w =
      let (more, w₁) = process_next r w in
      let rest = reconcile_loop rounds r w₁ in if more then rest else (false, w₁)

  -- What follows the loop: the deferred `ShutDown`, if the loop ended.
  abbrev pub after_loop : Bool × W → RunOutcome × W
  after_loop (more, w) = if more then (in_loop, w) else (returned, q.shut_down w)

  unfoldable pub run : ℕ → Informer W → ReconcilerInterface W → W → RunOutcome × W
  unfolding handle_events reconcile_loop
  run rounds informer r w =
      let (synced, events, w₁) = informer.wait_for_cache_sync w in
      let w₂ = handle_events events w₁ in
      let looped = after_loop (reconcile_loop rounds r w₂) in if synced then looped else (fatal, w₂)
