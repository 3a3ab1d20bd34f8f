-- ===== src/System/Enforcement.antt =====
-- From every state that the system comes to, one step of the namespace controller brings a namespace
-- in line with its profile, or with having none.
use namespace_quota_operator.Common.{
  ℕ, ◌≤◌, ◌≡◌, ◌≢◌, true, false, List, [], ◌∷◌, none, some, is_some, length, get_elem?, All,
  Option-cases, inl, inr,
}
use namespace_quota_operator.Text.{Text}
use namespace_quota_operator.Text.Split.{lacks}
use namespace_quota_operator.Text.Decimal.{max_int, itoa}
use namespace_quota_operator.Labels.{find}
use namespace_quota_operator.Effect.{Result, ok}
use namespace_quota_operator.Api.{Object, QuotaProfile, Namespace, quota_profile_label_key}
use namespace_quota_operator.Client.{Client}
use namespace_quota_operator.Client.Laws.{named, IsConsistent}
use namespace_quota_operator.Client.Loop.{All-named, named_self, settled_by}
use namespace_quota_operator.Client.Honest.{Everywhere}
use namespace_quota_operator.Ids.{get_profile_id, get_resource_quota_id, get_limit_range_id}
use namespace_quota_operator.NamespaceController.{reconcile}
use namespace_quota_operator.NamespaceController.Sweep.{IsSweepable, IsOwnedBy}
use namespace_quota_operator.NamespaceController.Twice.{lacks-append}
use namespace_quota_operator.NamespaceController.Removal.{IsPlain, kept}
use namespace_quota_operator.NamespaceController.Labelled.{reconcile-labelled}
use namespace_quota_operator.NamespaceController.Unlabelled.{reconcile-unlabelled}
use namespace_quota_operator.System.{Step, reconcile_namespace, Reach, IsCluster}
use namespace_quota_operator.Ids.Profile.{profile_id-full}
use namespace_quota_operator.System.Genuine.{IsGenuine}
use namespace_quota_operator.System.Steps.{AllGenuine, Reach-AllGenuine}

-- The object has no empty profile label, which the webhooks let anyone write.
abbrev pub IsNotBlank : {Spec : Type 0} → Object Spec → Type 0
IsNotBlank o = find o.labels quota_profile_label_key ≢ some []

module _ {Spec : Type 0} (id : Text → Text → Text → Text) where
  IsGenuine-IsPlain : (o : Object Spec) → IsGenuine id o → IsNotBlank o → IsPlain o
  IsGenuine-IsPlain o genuine full marked =
      elim (Option-cases (find o.labels quota_profile_label_key)) [
        | inl bare ↦ absurd (marked bare)
        | inr (label, e) ↦ (genuine label e (λ empty. full (cc (e, empty)))).0
      ]

  IsGenuine-dashed :
      {Rq Lr : Type 0} (q : QuotaProfile Rq Lr) (o : Object Spec)
      → ((namespace name index : Text) → lacks b'-' (id namespace name index) ≡ false)
      → IsGenuine id o
      → IsOwnedBy q o
      → lacks b'-' o.name ≡ false
  IsGenuine-dashed q o dash genuine owned =
      let (_, a, b, i, _, name) = genuine _ owned (profile_id-full q.namespace q.name) in
      rw name (dash a b (itoa i))

quota_id-dashed :
    (namespace name index : Text) → lacks b'-' (get_resource_quota_id namespace name index) ≡ false
unfolding get_resource_quota_id
quota_id-dashed namespace name index = lacks-append b'-' namespace _

-- What holds of all objects of a cluster and of those of a namespace holds of the latter.
here-All :
    {State Spec : Type 0} (objects : State → Text → List (Object Spec))
    (P Q R : Object Spec → Type 0) (s : State) (namespace : Text)
    → ((o : Object Spec) → P o → Q o → R o)
    → Everywhere P objects s
    → All (λ o. named o.name (objects s namespace) ≡ some o) (objects s namespace)
    → All Q (objects s namespace)
    → All R (objects s namespace)
here-All objects P Q R s namespace f good self local =
    both (objects s namespace)
      (All-named P (objects s namespace) (objects s namespace) (good namespace) self) local
  where
    both : (os : List (Object _)) → All P os → All Q os → All R os
    both [] _ _ = tt
    both (o ∷ os) (p, ps) (q, qs) = (f o p q, both os ps qs)

module _ {Rq Lr Context : Type 0} (c : Client Rq Lr) (username : Context → Result Text)
    (quotas : c.State → Text → List (Object Rq)) (limits : c.State → Text → List (Object Lr))
    (cluster : IsCluster c quotas limits) (quotas_api : IsConsistent c.quotas quotas)
    {start s : c.State} (genuine : AllGenuine quotas limits start)
    (reach : Reach c username start s) (n : Text) (full : All IsNotBlank (quotas s n)) where
  -- The quotas of a namespace are ones that the loop over them can settle.
  pub Reach-IsSweepable : (q : QuotaProfile Rq Lr) → All (IsSweepable q) (quotas s n)
  Reach-IsSweepable q =
      here-All quotas (IsGenuine get_resource_quota_id) IsNotBlank (IsSweepable q) s n
        (λ o g f. record {
          no_finalizers = IsGenuine-IsPlain get_resource_quota_id o g f;
          dashed = IsGenuine-dashed get_resource_quota_id q o quota_id-dashed g;
        })
        (Reach-AllGenuine c quotas limits cluster username genuine reach).0
        (named_self (quotas s n) (quotas_api.nodup s n)) full

module _ {Rq Lr Context : Type 0} (c : Client Rq Lr) (username : Context → Result Text)
    (quotas : c.State → Text → List (Object Rq)) (limits : c.State → Text → List (Object Lr))
    (cluster : IsCluster c quotas limits) (quotas_api : IsConsistent c.quotas quotas)
    {start s : c.State} (genuine : AllGenuine quotas limits start)
    (reach : Reach c username start s) (ns : Namespace)
    (stored : c.namespaces.get [] ns.name s ≡ ok ns) (live : is_some ns.deletion_timestamp ≡ false)
    (full : All IsNotBlank (quotas s ns.name)) where
  -- From every state that the system comes to from one in which managed objects are the operator's,
  -- there is a step after which each specification of the profile is that of the quota named after
  -- its index, in a namespace that is stored, is not being deleted and carries the label of a
  -- stored profile without dots in its namespace and name. The conditions: the API of quotas is
  -- consistent, writes of one kind and the clock leave the others alone, the profile has at most
  -- `max_int` specifications, and no quota of the namespace has an empty profile label.
  pub Reach-enforces :
      (q : QuotaProfile Rq Lr)
      → find ns.labels quota_profile_label_key ≡ some (get_profile_id q.namespace q.name)
      → lacks b'.' q.namespace ≡ true
      → lacks b'.' q.name ≡ true
      → c.profiles.get q.namespace q.name s ≡ ok q
      → length q.spec.resource_quota_specs ≤ max_int
      → (s' : c.State) × Step c username s s'
        × ((i : ℕ) (spec : Rq)
            → get_elem? q.spec.resource_quota_specs i ≡ some spec
            → (o : Object Rq) × (named
                  (get_resource_quota_id q.namespace q.name (itoa i))
                  (quotas s' ns.name)
                ≡ some o)
              × (o.spec ≡ spec))
  Reach-enforces q labelled dotless dotless' there fits = (
    (reconcile c [] ns.name s).1,
    reconcile_namespace ns.name s,
    reconcile-labelled c q [] ns.name ns s stored live labelled dotless dotless' quotas quotas_api
        cluster.limits_apart.create cluster.limits_apart.update cluster.limits_apart.delete
        (Reach-IsSweepable c username quotas limits cluster quotas_api genuine reach ns.name full q)
        there fits,
  )

  -- From every state that the system comes to from one in which managed objects are the operator's,
  -- there is a step after which a namespace that is stored, is not being deleted and has no profile
  -- label has lost its quotas and limit ranges with a profile label that were not being deleted,
  -- and has kept the others as they were. The conditions: the API of quotas and that of limit
  -- ranges are consistent, writes of one kind and the clock leave the others alone, and no quota or
  -- limit range of the namespace has an empty profile label.
  pub Reach-cleans :
      (limits_api : IsConsistent c.limits limits)
      → All IsNotBlank (limits s ns.name)
      → find ns.labels quota_profile_label_key ≡ none
      → (s' : c.State) × Step c username s s'
        × ((n : Text)
            → named n (quotas s' ns.name) ≡ settled_by kept (named n (quotas s ns.name)) none)
        × ((n : Text)
            → named n (limits s' ns.name) ≡ settled_by kept (named n (limits s ns.name)) none)
  Reach-cleans limits_api full_limits bare =
      let (good_quotas, good_limits) =
        Reach-AllGenuine c quotas limits cluster username genuine reach in
      let (_, quotas_settled, limits_settled) =
        reconcile-unlabelled c quotas limits quotas_api limits_api cluster.limits_apart.delete
          cluster.quotas_apart.delete [] ns.name ns s stored live bare
          (here-All quotas (IsGenuine get_resource_quota_id) IsNotBlank IsPlain s ns.name
            (IsGenuine-IsPlain get_resource_quota_id) good_quotas
            (named_self (quotas s ns.name) (quotas_api.nodup s ns.name)) full)
          (here-All limits (IsGenuine get_limit_range_id) IsNotBlank IsPlain s ns.name
            (IsGenuine-IsPlain get_limit_range_id) good_limits
            (named_self (limits s ns.name) (limits_api.nodup s ns.name)) full_limits) in
      ((reconcile c [] ns.name s).1, reconcile_namespace ns.name s, quotas_settled, limits_settled)
