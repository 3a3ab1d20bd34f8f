-- ===== src/Client.antt =====
-- The API client, `client.Client` of controller-runtime: code that the operator calls and that is not
-- its own, hence a record of operations over an unknown state of the cluster.
pub mod Laws
pub mod Loop
pub mod Writes
pub mod Memory
pub mod Listing
pub mod Rounds
pub mod Honest
use namespace_quota_operator.Common.{ℕ, Bool, List}
use namespace_quota_operator.Text.{Text}
use namespace_quota_operator.Labels.{Entries}
use namespace_quota_operator.Effect.{Result}
use namespace_quota_operator.Api.{Object, QuotaProfile, Namespace}

-- The verbs at one kind of object. A cluster-scoped kind has the empty namespace.
pub record Verbs (State Obj : Type 0) : Type 0 where
  -- r.Get(ctx, types.NamespacedName{Namespace, Name}, obj)
  pub get : Text → Text → State → Result Obj
  -- r.List(ctx, list)
  pub list_all : State → Result (List Obj)
  -- r.List(ctx, list, client.InNamespace(namespace))
  pub list : Text → State → Result (List Obj)
  pub create : Obj → State → Result (Unit {0}) × State
  pub update : Obj → State → Result (Unit {0}) × State
  pub delete : Obj → State → Result (Unit {0}) × State

-- The library calls that are neither the operator's nor Go's own.
pub record Library : Type 0 where
  -- lo.Keys, of a map that is not nil
  pub keys : Entries → List Text
  -- controllerutil.ContainsFinalizer, AddFinalizer and RemoveFinalizer, on the list of finalizers
  pub contains_finalizer : List Text → Text → Bool
  pub add_finalizer : List Text → Text → List Text
  pub remove_finalizer : List Text → Text → List Text

pub record Client (Rq Lr : Type 0) : Type 1 where
  pub library : Library
  pub open library use *
  pub State : Type 0
  pub namespaces : Verbs State Namespace
  pub profiles : Verbs State (QuotaProfile Rq Lr)
  pub quotas : Verbs State (Object Rq)
  pub limits : Verbs State (Object Lr)
  -- sort.Slice of profiles by creation time, which leaves the order of equal times open
  pub sort_by_creation : List (QuotaProfile Rq Lr) → List (QuotaProfile Rq Lr)
  -- time.Now().UnixMicro()
  pub now : State → ℕ × State
