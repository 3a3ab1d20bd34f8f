-- ===== src/Webhook/Namespaces/Preserve.antt =====
-- An invariant that reading the clock does not break is one that `Default` keeps: the webhook writes
-- nothing but the namespace that it hands back.
use namespace_quota_operator.Common.{
  ◌&&◌, Bool, true, false, List, [], ◌∷◌, Option, none, some, is_some, ltb,
}
use namespace_quota_operator.Text.{Text, ◌==◌}
use namespace_quota_operator.Labels.{Labels, find, value}
use namespace_quota_operator.Effect.{wrong_object, fail, done, Action, must, lift, query}
use namespace_quota_operator.Effect.Preserve.{
  Preserves, Keeps, Preserves-lift, Preserves-query, Preserves-bind, Preserves-if,
}
use namespace_quota_operator.Api.{QuotaProfile, Namespace, quota_profile_label_key}
use namespace_quota_operator.Client.{Client}
use namespace_quota_operator.Ids.{split_profile_id}
use namespace_quota_operator.ProfileController.{first, set_quota_profile_labels}
use namespace_quota_operator.ProfileController.Preserve.{set_labels-Preserves}
use namespace_quota_operator.Webhook.{
  RuntimeObject, resource_quota, limit_range, quota_profile, namespace,
}
use namespace_quota_operator.Webhook.Namespaces.{
  Round, stop, next, keep_or_replace, resolve_conflict, take_profile, label_round, name_round,
  selector_round, default_round, end_round, default_loop, default,
}

module _ {Rq Lr : Type 0} (c : Client Rq Lr) (Inv : c.State → Type 0)
    (clock : Keeps Inv c.now) where
  set-Preserves :
      (ns : Namespace) (q : QuotaProfile Rq Lr) → Preserves Inv (set_quota_profile_labels c ns q)
  set-Preserves = set_labels-Preserves c Inv clock

  resolve_conflict-Preserves :
      (q : QuotaProfile Rq Lr) (ns : Namespace) → Preserves Inv (resolve_conflict c q ns)
  unfolding resolve_conflict keep_or_replace
  resolve_conflict-Preserves q ns =
      let id = split_profile_id (value ns.labels quota_profile_label_key) in
      Preserves-bind Inv (query (c.profiles.get id.0 id.1)) _
        (Preserves-query Inv (c.profiles.get id.0 id.1))
        (λ existing.
          Preserves-if Inv (ltb q.spec.precedence existing.spec.precedence)
            (set-Preserves ns existing) (set-Preserves ns q))

  take_profile-Preserves :
      (q : QuotaProfile Rq Lr) (ns : Namespace) (label : Option Text)
      → Preserves Inv (take_profile c q ns label)
  unfolding take_profile
  take_profile-Preserves q ns none = set-Preserves ns q
  take_profile-Preserves q ns (some id) =
      Preserves-if Inv _ (set-Preserves ns q) (resolve_conflict-Preserves q ns)

  selector_round-Preserves :
      (q : QuotaProfile Rq Lr) (name : Option Text) (labels : Labels) (ns : Namespace)
      (matched : Bool)
      → Preserves Inv (selector_round c q name labels ns matched)
  unfolding selector_round name_round label_round
  selector_round-Preserves q (some name) labels ns matched =
      Preserves-if Inv (name == ns.name)
        (Preserves-bind Inv _ _ (set-Preserves ns q) (λ ns'. Preserves-lift Inv (done (stop ns'))))
        (Preserves-lift Inv (done (next ns matched)))
  selector_round-Preserves q none (some m) ns matched =
      Preserves-bind Inv (lift (must (first (c.keys m)))) _ (Preserves-lift Inv _) (λ key.
        Preserves-if Inv (is_some (find ns.labels key) && value ns.labels key == value (some m) key)
          (Preserves-bind Inv _ _
            (take_profile-Preserves q ns (find ns.labels quota_profile_label_key))
            (λ ns'. Preserves-lift Inv (done (next ns' true))))
          (Preserves-lift Inv (done (next ns matched))))
  selector_round-Preserves q none none ns matched = Preserves-lift Inv (done (next ns matched))

  default_round-Preserves :
      (q : QuotaProfile Rq Lr) (ns : Namespace) (matched : Bool)
      → Preserves Inv (default_round c q ns matched)
  unfolding default_round
  default_round-Preserves q ns matched =
      Preserves-if Inv (is_some q.deletion_timestamp) (Preserves-lift Inv (done (next ns matched)))
        (selector_round-Preserves q q.spec.match_name q.spec.match_labels ns matched)

  end_round-Preserves :
      (round : Round) (go_on : Namespace → Bool → Action c.State Namespace)
      → ((ns : Namespace) (matched : Bool) → Preserves Inv (go_on ns matched))
      → Preserves Inv (end_round c round go_on)
  unfolding end_round
  end_round-Preserves (stop ns) go_on k = Preserves-lift Inv (done ns)
  end_round-Preserves (next ns matched) go_on k = k ns matched

  default_loop-Preserves :
      (qs : List (QuotaProfile Rq Lr)) (ns : Namespace) (matched : Bool)
      → Preserves Inv (default_loop c qs ns matched)
  unfolding default_loop
  default_loop-Preserves [] ns matched = Preserves-lift Inv (done _)
  default_loop-Preserves (q ∷ qs) ns matched =
      Preserves-bind Inv _ _ (default_round-Preserves q ns matched)
        (λ round. end_round-Preserves round (default_loop c qs) (default_loop-Preserves qs))

  pub default-Preserves : (obj : RuntimeObject Rq Lr) → Preserves Inv (default c obj)
  unfolding default
  default-Preserves (namespace ns) =
      Preserves-bind Inv (query c.profiles.list_all) _ (Preserves-query Inv c.profiles.list_all)
        (λ profiles. default_loop-Preserves (c.sort_by_creation profiles) ns false)
  default-Preserves (resource_quota o) = Preserves-lift Inv (fail wrong_object)
  default-Preserves (limit_range o) = Preserves-lift Inv (fail wrong_object)
  default-Preserves (quota_profile o) = Preserves-lift Inv (fail wrong_object)
  default-Preserves RuntimeObject.other = Preserves-lift Inv (fail wrong_object)
