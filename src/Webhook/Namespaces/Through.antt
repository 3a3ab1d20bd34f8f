-- ===== src/Webhook/Namespaces/Through.antt =====
-- `Default` as a whole: errors and panics on the way.
use namespace_quota_operator.Common.{
  ◌≡◌, refl, Bool, true, false, List, [], ◌∷◌, if◌then◌else◌, All, Some,
}
use namespace_quota_operator.Text.{Text}
use namespace_quota_operator.Effect.{ok, Outcome, done, Action}
use namespace_quota_operator.Api.{QuotaProfile, Namespace}
use namespace_quota_operator.Client.{Client}
use namespace_quota_operator.ProfileController.Labelling.{KeepsRest}
use namespace_quota_operator.Webhook.{namespace}
use namespace_quota_operator.Webhook.Namespaces.{
  Round, stop, next, remove_label, end_round, default_loop, default,
}
use namespace_quota_operator.Webhook.Namespaces.Priority.{
  names, NamedBy, default-NamedBy, default-KeepsRest,
}
use namespace_quota_operator.Webhook.Namespaces.Steps.{
  IsUsable, IsSound, Reach, SoundRound, default_round-Steps,
}

module _ {Rq Lr : Type 0} (c : Client Rq Lr) (s : c.State)
    (clock_frame : (a b : Text) (t : c.State)
      → c.profiles.get a b (c.now t).1 ≡ c.profiles.get a b t) where
  abbrev Ends : Outcome Namespace × c.State → Type 0
  Ends r = (ns : Namespace) × (r.0 ≡ done ns)

  end_round-Ends :
      (r : Round) (go_on : Namespace → Bool → Action c.State Namespace) (t : c.State)
      → SoundRound c s clock_frame r
      → ((ns : Namespace) (matched : Bool) → IsSound c s ns → Ends (go_on ns matched t))
      → Ends (end_round c r go_on t)
  unfolding end_round SoundRound
  end_round-Ends (stop ns) go_on t sound h = (ns, refl)
  end_round-Ends (next ns matched) go_on t sound h = h ns matched sound

  default_loop-Ends :
      (qs : List (QuotaProfile Rq Lr)) (ns : Namespace) (matched : Bool) (t : c.State)
      → IsSound c s ns
      → All (IsUsable c s) qs
      → Reach c s t
      → Ends (default_loop c qs ns matched t)
  unfolding default_loop
  default_loop-Ends [] ns matched t sound usable reach =
      ((if matched then ns else remove_label ns), refl)
  default_loop-Ends (q ∷ qs) ns matched t sound (usable, rest) reach =
      let (r, t', e, reach', sound') =
        default_round-Steps c s clock_frame q ns matched t sound usable reach in
      rw e (
        end_round-Ends r (default_loop c qs) t' sound'
          (λ ns' matched' sound''. default_loop-Ends qs ns' matched' t' sound'' rest reach'))

  -- The webhook lets a namespace through, with all but the operator's two labels as it was, if the
  -- namespace has a map of labels in which a profile label, if there is one, is that of a stored
  -- profile, every listed profile is stored, selectors by labels have a key, no profile has a dot
  -- in its namespace or name, and reading the clock does not change what profiles are stored.
  pub default-through :
      (ns : Namespace) (ps : List (QuotaProfile Rq Lr))
      → c.profiles.list_all s ≡ ok ps
      → All (IsUsable c s) (c.sort_by_creation ps)
      → IsSound c s ns
      → (ns' : Namespace) × ((default c (namespace ns) s).0 ≡ done ns') × KeepsRest ns ns'
  unfolding default
  default-through ns ps listed usable sound =
      let (ns', e) =
        default_loop-Ends (c.sort_by_creation ps) ns false s sound usable (λ a b. refl) in
      let ends : (default c (namespace ns) s).0 ≡ done ns' = rw (listed, default) e in
      (ns', ends, default-KeepsRest c ns ns' s ends)

  -- If a listed profile that is not being deleted names the namespace, the webhook lets the
  -- namespace through with the label of such a profile, whatever profiles select it by label. The
  -- conditions: the namespace has a map of labels in which a profile label, if there is one, is
  -- that of a stored profile, every listed profile is stored, selectors by labels have a key, no
  -- profile has a dot in its namespace or name, and reading the clock does not change what profiles
  -- are stored.
  pub default-by_name :
      (ns : Namespace) (ps : List (QuotaProfile Rq Lr))
      → c.profiles.list_all s ≡ ok ps
      → All (IsUsable c s) (c.sort_by_creation ps)
      → IsSound c s ns
      → Some (λ q. names q ns ≡ true) (c.sort_by_creation ps)
      → (ns' : Namespace) × ((default c (namespace ns) s).0 ≡ done ns')
        × NamedBy c ns ns' (c.sort_by_creation ps)
  default-by_name ns ps listed usable sound named =
      let (ns', ends, _) = default-through ns ps listed usable sound in
      (ns', ends, default-NamedBy c ns ns' s ps listed named ends)
