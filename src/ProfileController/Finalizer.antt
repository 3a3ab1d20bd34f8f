-- ===== src/ProfileController/Finalizer.antt =====
-- The finalizer of a profile in `Reconcile` and `handleDeletion`.
use namespace_quota_operator.Common.{
  ◌≡◌, ◌≢◌, refl, true, ◌&&◌, List, Option, none, some, arith, Bool-cases, inl, inr,
}
use namespace_quota_operator.Text.{Text, ◌==◌}
use namespace_quota_operator.Labels.{find}
use namespace_quota_operator.Effect.{Error, ok, done, fail, for_each}
use namespace_quota_operator.Effect.Frame.{for_each-frame}
use namespace_quota_operator.Api.{
  QuotaProfile, Namespace, quota_profile_label_key, quota_profile_finalizer,
}
use namespace_quota_operator.Client.{Client}
use namespace_quota_operator.Client.Laws.{named, IsLawful, IsConsistent}
use namespace_quota_operator.Ids.{split_profile_id}
use namespace_quota_operator.ProfileController.{
  with_finalizers, clean_labelled, clean_namespace, handle_deletion, ensure_finalizer,
}

module _ {Rq Lr : Type 0} (c : Client Rq Lr) (q : QuotaProfile Rq Lr) where
  module _ {View : Type 0} (view : c.State → View)
      (update_frame : (ns : Namespace) (s : c.State)
        → view (c.namespaces.update ns s).1 ≡ view s) where
    clean_labelled-frame :
        (ns : Namespace) (l : Option Text) (s : c.State)
        → view (clean_labelled c q ns l s).1 ≡ view s
    unfolding clean_labelled
    clean_labelled-frame ns none s = refl
    clean_labelled-frame ns (some id) s =
        elim (Bool-cases
          ((split_profile_id id).0 == q.namespace && (split_profile_id id).1 == q.name)) [
            | inl ours ↦ rw ours (update_frame _ s)
            | inr other ↦ rw other refl
          ]

    clean_namespace-frame :
        (ns : Namespace) (s : c.State) → view (clean_namespace c q ns s).1 ≡ view s
    unfolding clean_namespace
    clean_namespace-frame ns s = clean_labelled-frame ns (find ns.labels quota_profile_label_key) s

    -- If the cleanup of the namespaces fails, the deletion of a profile that has the operator's
    -- finalizer fails with the same error and leaves the profiles, or any other view of the state
    -- that no update of a namespace changes, as they were: the finalizer stays.
    pub handle_deletion-failed :
        (items : List Namespace) (e : Error) (s : c.State)
        → c.namespaces.list_all s ≡ ok items
        → (for_each (clean_namespace c q) items s).0 ≡ fail e
        → c.contains_finalizer q.finalizers quota_profile_finalizer ≡ true
        → ((handle_deletion c q s).0 ≡ fail e) × (view (handle_deletion c q s).1 ≡ view s)
    unfolding handle_deletion
    handle_deletion-failed items e s listed failed finalizer =
        rw (finalizer, listed, failed, handle_deletion)
          (refl, for_each-frame view (clean_namespace c q) clean_namespace-frame items s)

  -- With a consistent API for profiles, after the finalizer of a stored profile has been seen to,
  -- which ends without error, the profile is stored with the operator's finalizer and its
  -- specification as before. The library's `AddFinalizer` makes a list that contains the finalizer.
  pub ensure_finalizer-holds :
      (profiles : c.State → Text → List (QuotaProfile Rq Lr))
      (api : IsConsistent c.profiles profiles) (lawful : IsLawful c.library) (s : c.State)
      → named q.name (profiles s q.namespace) ≡ some q
      → ((ensure_finalizer c q s).0 ≡ done tt)
        × ((q' : QuotaProfile Rq Lr) × (named q.name
                (profiles (ensure_finalizer c q s).1 q.namespace)
              ≡ some q')
            × (c.contains_finalizer q'.finalizers quota_profile_finalizer ≡ true)
            × (q'.spec ≡ q.spec))
  unfolding ensure_finalizer
  ensure_finalizer-holds profiles api lawful s stored =
      elim (Bool-cases (c.contains_finalizer q.finalizers quota_profile_finalizer)) [
        | inl has ↦ rw (has, ensure_finalizer) (refl, (q, stored, has, refl))
        | inr lacks ↦
            let new : QuotaProfile Rq Lr =
              with_finalizers c q (c.add_finalizer q.finalizers quota_profile_finalizer) in
            let there : named new.name (profiles s new.namespace) ≢ none = λ h. cc (stored, h) in
            rw (lacks, ensure_finalizer)
              (
                rw (api.update_ok new s there) refl,
                (
                  new,
                  ground (arith, api.update_lem new s q.namespace q.name there),
                  lawful.contains-add q.finalizers quota_profile_finalizer,
                  refl,
                ),
              )
      ]
