-- ===== src/System/Harmony.antt =====
-- The stored profiles, which every step of the system keeps from clashing.
use mathlib.Core.Path.{subst}
use namespace_quota_operator.Common.{sym, List, []}
use namespace_quota_operator.Text.{Text}
use namespace_quota_operator.Effect.{Result}
use namespace_quota_operator.Api.{QuotaProfile}
use namespace_quota_operator.Client.{Client}
use namespace_quota_operator.Client.Honest.{IsApart-IsKept}
use namespace_quota_operator.NamespaceController.Preserve.Whole
use namespace_quota_operator.ProfileController
use namespace_quota_operator.ProfileController.{with_finalizers, reconcile_found}
use namespace_quota_operator.ProfileController.Preserve.{found-Preserves, reconcile-found}
use namespace_quota_operator.Webhook.{namespace}
use namespace_quota_operator.Webhook.Namespaces.Preserve.{default-Preserves}
use namespace_quota_operator.Webhook.Served.{served, served_namespaces-Keeps, served_profiles-Keeps}
use namespace_quota_operator.Effect.Preserve.{Keeps}
use namespace_quota_operator.System.{
  Step, create_quota, update_quota, delete_quota, create_limit, update_limit, delete_limit,
  create_namespace, update_namespace, delete_namespace, create_profile, update_profile,
  delete_profile, reconcile_namespace, reconcile_profile, Reach, here, after,
}
use namespace_quota_operator.System.Clashes.{
  IsProfileStore, IsHarmonious, IsFree, admitted-IsFree, admitted_update, written, by_view, deleted,
}

module _ {Rq Lr : Type 0} (c : Client Rq Lr) (profiles : c.State → Text → List (QuotaProfile Rq Lr))
    (store : IsProfileStore c profiles) where
  -- Reconciling a profile writes it with other finalizers at most.
  reconciled :
      (a n : Text) (s : c.State)
      → IsHarmonious c (profiles s)
      → IsHarmonious c (profiles (ProfileController.reconcile (served c) a n s).1)
  reconciled a n s h =
      reconcile-found (served c) (λ s'. IsHarmonious c (profiles s')) a n s h
        (λ q e.
          let near : c.State → Type 0 =
            λ s'. IsHarmonious c (profiles s') × IsFree c q (profiles s') in
          let clock : Keeps near c.now =
            λ s' k. subst (λ v. IsHarmonious c v × IsFree c q v) (sym (store.clock_apart s')) k in
          ((found-Preserves (served c) near clock
              (served_namespaces-Keeps c near clock (λ ns s' k.
                subst (λ v. IsHarmonious c v × IsFree c q v)
                  (sym (store.namespaces_apart.update ns s')) k))
              q
              (λ fs. served_profiles-Keeps c near (with_finalizers c q fs) (λ s' (apart, free).
                written c profiles store q (with_finalizers c q fs) s' _ apart free
                  (λ p clash. record { distinct = clash.distinct; shared = clash.shared })
                  (store.honest.updated (with_finalizers c q fs) s')))
              a n).at
            s (h, λ b m p stored clash. h b m a n p q stored (store.honest.got a n s q e) clash)).0)

  Step-IsHarmonious :
      {Context : Type 0} (username : Context → Result Text) {s s' : c.State}
      → Step c username s s'
      → IsHarmonious c (profiles s)
      → IsHarmonious c (profiles s')
  Step-IsHarmonious username (create_quota ctx o s user accepted) h =
      by_view c profiles store s _ (store.quotas_apart.create o s) h
  Step-IsHarmonious username (update_quota ctx old o s user accepted) h =
      by_view c profiles store s _ (store.quotas_apart.update o s) h
  Step-IsHarmonious username (delete_quota ctx o s user accepted) h =
      by_view c profiles store s _ (store.quotas_apart.delete o s) h
  Step-IsHarmonious username (create_limit ctx o s user accepted) h =
      by_view c profiles store s _ (store.limits_apart.create o s) h
  Step-IsHarmonious username (update_limit ctx old o s user accepted) h =
      by_view c profiles store s _ (store.limits_apart.update o s) h
  Step-IsHarmonious username (delete_limit ctx o s user accepted) h =
      by_view c profiles store s _ (store.limits_apart.delete o s) h
  Step-IsHarmonious username (create_namespace ns ns' s admitted) h =
      by_view c profiles store _ _ (store.namespaces_apart.create ns' _) (
        (default-Preserves c (λ s'. IsHarmonious c (profiles s'))
            (λ s' k. by_view c profiles store s' _ (store.clock_apart s') k) (namespace ns)).at
          s h)
  Step-IsHarmonious username (update_namespace ns ns' s admitted) h =
      by_view c profiles store _ _ (store.namespaces_apart.update ns' _) (
        (default-Preserves c (λ s'. IsHarmonious c (profiles s'))
            (λ s' k. by_view c profiles store s' _ (store.clock_apart s') k) (namespace ns)).at
          s h)
  Step-IsHarmonious username (delete_namespace ns s) h =
      by_view c profiles store s _ (store.namespaces_apart.delete ns s) h
  Step-IsHarmonious username (create_profile q s admitted) h =
      (written c profiles store q q s _ h (admitted-IsFree c profiles store q s admitted)
        (λ p clash. clash) (store.honest.created q s)).0
  Step-IsHarmonious username (update_profile old q s admitted) h =
      (written c profiles store q q s _ h
        (admitted-IsFree c profiles store q s (admitted_update c profiles store old q s admitted))
        (λ p clash. clash) (store.honest.updated q s)).0
  Step-IsHarmonious username (delete_profile q s) h = deleted c profiles store q s h
  Step-IsHarmonious username (reconcile_namespace name s) h =
      (Whole.reconcile-Preserves c (λ s'. IsHarmonious c (profiles s')) (λ _. Unit) (λ _. Unit)
          (IsApart-IsKept c.quotas profiles store.quotas_apart (IsHarmonious c))
          (IsApart-IsKept c.limits profiles store.limits_apart (IsHarmonious c))
          (record { fresh = λ a b namespace i spec. tt; respec = λ o spec _. tt })
          (record { fresh = λ a b namespace i spec. tt; respec = λ o spec _. tt }) [] name).at
        s h
  Step-IsHarmonious username (reconcile_profile a n s) h = reconciled a n s h

  -- If no two stored profiles select by one name or by one label key at the start, none do in any
  -- state that the system comes to. The API may fail, but it keeps what it is given, its list of
  -- all profiles leaves none out, and no write of another kind nor the clock changes the profiles.
  pub Reach-IsHarmonious :
      {Context : Type 0} (username : Context → Result Text) {start s : c.State}
      → IsHarmonious c (profiles start)
      → Reach c username start s
      → IsHarmonious c (profiles s)
  Reach-IsHarmonious username h here = h
  Reach-IsHarmonious username h (after reach step) =
      Step-IsHarmonious username step (Reach-IsHarmonious username h reach)
