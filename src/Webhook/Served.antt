-- ===== src/Webhook/Served.antt =====
-- The API server with the operator's own webhooks before it, as config/webhook/manifests.yaml sets them:
-- every update of a namespace goes through the webhook for namespaces, and every update of a profile
-- through the one for profiles, also where the operator makes it. A webhook that refuses or panics makes
-- the update fail.
use namespace_quota_operator.Effect.{Result, err, api, Outcome, done, fail, panic}
use namespace_quota_operator.Effect.Preserve.{Keeps}
use namespace_quota_operator.Api.{Namespace, QuotaProfile}
use namespace_quota_operator.Client.{Client}
use namespace_quota_operator.Webhook.{quota_profile, namespace}
use namespace_quota_operator.Webhook.Profile.{validate_update}
use namespace_quota_operator.Webhook.Namespaces.{default}
use namespace_quota_operator.Webhook.Namespaces.Preserve.{default-Preserves}

-- What comes after the answer of a webhook: the write, or the failure of the request.
abbrev pub answered :
    {State A : Type 0}
    → Outcome A × State
    → (A → State → Result (Unit {0}) × State)
    → Result (Unit {0}) × State
answered (done a, s) write = write a s
answered (fail e, s) write = (err e, s)
answered (panic, s) write = (err (api 500), s)

-- The webhook for profiles does not look at the old object.
abbrev pub served : {Rq Lr : Type 0} → Client Rq Lr → Client Rq Lr
served c = record c {
  namespaces = record c.namespaces {
    update = λ ns s. answered (default c (namespace ns) s) c.namespaces.update;
  };
  profiles = record c.profiles {
    update = λ q s.
        answered (validate_update c (quota_profile q) (quota_profile q) s, s)
          (λ _. c.profiles.update q);
  };
}

answered-Keeps :
    {State A : Type 0} (Inv : State → Type 0) (r : Outcome A × State)
    (write : A → State → Result (Unit {0}) × State)
    → Inv r.1
    → ((a : A) → Keeps Inv (write a))
    → Inv (answered r write).1
answered-Keeps Inv (done a, s) write h k = k a s h
answered-Keeps Inv (fail e, s) write h k = h
answered-Keeps Inv (panic, s) write h k = h

module _ {Rq Lr : Type 0} (c : Client Rq Lr) (Inv : c.State → Type 0) where
  pub served_namespaces-Keeps :
      Keeps Inv c.now
      → ((ns : Namespace) → Keeps Inv (c.namespaces.update ns))
      → (ns : Namespace) → Keeps Inv ((served c).namespaces.update ns)
  served_namespaces-Keeps clock updates ns s h =
      answered-Keeps Inv (default c (namespace ns) s) c.namespaces.update
        ((default-Preserves c Inv clock (namespace ns)).at s h) updates

  pub served_profiles-Keeps :
      (q : QuotaProfile Rq Lr)
      → Keeps Inv (c.profiles.update q)
      → Keeps Inv ((served c).profiles.update q)
  served_profiles-Keeps q update s h =
      answered-Keeps Inv (validate_update c (quota_profile q) (quota_profile q) s, s)
        (λ _. c.profiles.update q) h (λ _. update)
