-- ===== src/System/Agreement.antt =====
-- The label that the webhook puts on a namespace, where the stored profiles are kept apart.
use mathlib.Core.Bool.{false≢true}
use namespace_quota_operator.Common.{
  ◌≡◌, ◌∙◌, inl, inr, true, List, Option, is_some, ap, none, some, All, Some, Some-map, All-Some,
  arith, Bool-cases,
}
use namespace_quota_operator.Text.{Text}
use namespace_quota_operator.Labels.{find}
use namespace_quota_operator.Effect.{Result, ok, done}
use namespace_quota_operator.Api.{QuotaProfile, Namespace, quota_profile_label_key}
use namespace_quota_operator.Client.{Client}
use namespace_quota_operator.Client.Laws.{named}
use namespace_quota_operator.Ids.{get_profile_id}
use namespace_quota_operator.Webhook.{namespace}
use namespace_quota_operator.Webhook.Namespaces.{default}
use namespace_quota_operator.Webhook.Namespaces.Priority.{names, is_name}
use namespace_quota_operator.Webhook.Namespaces.Steps.{IsUsable, IsSound}
use namespace_quota_operator.Webhook.Namespaces.Through.{default-by_name}
use namespace_quota_operator.Webhook.Profile.{is_same_profile}
use namespace_quota_operator.System.{Reach}
use namespace_quota_operator.System.Clashes.{IsProfileStore, IsHarmonious}
use namespace_quota_operator.System.Harmony.{Reach-IsHarmonious}

is_name-some : (o : Option Text) (ns : Namespace) → is_name o ns ≡ true → o ≡ some ns.name
is_name-some none ns h = absurd (false≢true h)
is_name-some (some name) ns h = let e : name ≡ ns.name = ground arith in ap some e

pub named_by :
    {Rq Lr : Type 0} (q : QuotaProfile Rq Lr) (ns : Namespace)
    → names q ns ≡ true
    → q.spec.match_name ≡ some ns.name
named_by q ns h = elim (Bool-cases (is_some q.deletion_timestamp)) [
  | inl gone ↦ absurd (false≢true (rw gone at h))
  | inr live ↦ is_name-some q.spec.match_name ns (rw live at h)
]

module _ {Rq Lr : Type 0} (c : Client Rq Lr) (profiles : c.State → Text → List (QuotaProfile Rq Lr))
    (store : IsProfileStore c profiles) (s : c.State) (harmony : IsHarmonious c (profiles s)) where
  -- Two stored profiles that name one namespace are one.
  one_label :
      (p q : QuotaProfile Rq Lr) (n : Text)
      → c.profiles.get p.namespace p.name s ≡ ok p
      → c.profiles.get q.namespace q.name s ≡ ok q
      → p.spec.match_name ≡ some n
      → q.spec.match_name ≡ some n
      → get_profile_id p.namespace p.name ≡ get_profile_id q.namespace q.name
  one_label p q n got got' by_name by_name' = elim (Bool-cases (is_same_profile c p q)) [
    | inl same ↦
        let space : p.namespace ≡ q.namespace = ground arith in
        let name : p.name ≡ q.name = ground arith in cc (space, name)
    | inr differs ↦ absurd (
        harmony p.namespace p.name q.namespace q.name p q
          (store.honest.got p.namespace p.name s p got)
          (store.honest.got q.namespace q.name s q got')
          (record { distinct = differs; shared = inl (n, by_name, by_name') }))
  ]

  -- What `Default` does where no two stored profiles clash.
  pub labels_own :
      (clock_frame : (a b : Text) (t : c.State)
        → c.profiles.get a b (c.now t).1 ≡ c.profiles.get a b t)
      (ns : Namespace) (ps : List (QuotaProfile Rq Lr)) (q : QuotaProfile Rq Lr)
      → c.profiles.list_all s ≡ ok ps
      → All (IsUsable c s) (c.sort_by_creation ps)
      → IsSound c s ns
      → Some (λ o. (o ≡ q) × (names o ns ≡ true)) (c.sort_by_creation ps)
      → (ns' : Namespace) × ((default c (namespace ns) s).0 ≡ done ns')
        × (find ns'.labels quota_profile_label_key ≡ some (get_profile_id q.namespace q.name))
  labels_own clock_frame ns ps q listed usable sound here =
      let (ns', ends, chosen) =
        default-by_name c s clock_frame ns ps listed usable sound
          (Some-map _ _ _ (λ o h. h.1) here) in
      let (p, (known, _), (named, label)) = All-Some _ _ (c.sort_by_creation ps) usable chosen in
      let (o, (known', _), (is_q, named')) = All-Some _ _ (c.sort_by_creation ps) usable here in
      (
        ns',
        ends,
        label
            ∙ cc (
              is_q,
              one_label p o ns.name known.stored known'.stored (named_by p ns named)
                  (named_by o ns named'),
            ),
      )

module _ {Rq Lr Context : Type 0} (c : Client Rq Lr) (username : Context → Result Text)
    (profiles : c.State → Text → List (QuotaProfile Rq Lr)) (store : IsProfileStore c profiles)
    {start s : c.State} (harmonious : IsHarmonious c (profiles start))
    (reach : Reach c username start s) where
  -- In every state that the system comes to from one in which no two stored profiles select by one
  -- name or by one label key: if a listed profile that is not being deleted names the namespace,
  -- the webhook lets the namespace through with the label of that profile, whatever other profiles
  -- select it. The conditions: the API may fail but keeps what it is given, its list of all
  -- profiles leaves none out, no write of another kind changes the profiles and no reading of the
  -- clock what profiles are found; the namespace has a map of labels in which a profile label, if
  -- there is one, is that of a stored profile, every listed profile is stored, selectors by labels
  -- have a key, and no profile has a dot in its namespace or name.
  pub Reach-labels_own :
      (clock_frame : (a b : Text) (t : c.State)
        → c.profiles.get a b (c.now t).1 ≡ c.profiles.get a b t)
      (ns : Namespace) (ps : List (QuotaProfile Rq Lr)) (q : QuotaProfile Rq Lr)
      → c.profiles.list_all s ≡ ok ps
      → All (IsUsable c s) (c.sort_by_creation ps)
      → IsSound c s ns
      → Some (λ o. (o ≡ q) × (names o ns ≡ true)) (c.sort_by_creation ps)
      → (ns' : Namespace) × ((default c (namespace ns) s).0 ≡ done ns')
        × (find ns'.labels quota_profile_label_key ≡ some (get_profile_id q.namespace q.name))
  Reach-labels_own =
      labels_own c profiles store s (Reach-IsHarmonious c profiles store username harmonious reach)
