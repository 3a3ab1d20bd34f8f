-- ===== src/Client/Writes.antt =====
-- What one write does to one object, with a consistent API.
use namespace_quota_operator.Common.{◌≡◌, ◌≢◌, refl, List, [], Option, none, some, arith}
use namespace_quota_operator.Text.{Text}
use namespace_quota_operator.Effect.{Outcome, done, attempt, command}
use namespace_quota_operator.Api.{Object}
use namespace_quota_operator.Client.{Verbs}
use namespace_quota_operator.Client.Laws.{named, overwrite, IsConsistent}

-- The action ended well, and its state is `s` but for the object `o`, which is now `new`.
abbrev pub Writes :
    {State Spec : Type 0}
    → (State → Text → List (Object Spec))
    → Object Spec
    → Option (Object Spec)
    → State
    → Outcome (Unit {0}) × State
    → Type 0
Writes objects o new s r =
    (r.0 ≡ done tt)
    × ((ns n : Text) → named n (objects r.1 ns) ≡ overwrite o new ns n (named n (objects s ns)))

module _ {State Spec : Type 0} (v : Verbs State (Object Spec))
    (objects : State → Text → List (Object Spec)) (api : IsConsistent v objects) {namespace : Text}
    (o : Object Spec) (s : State) (placed : o.namespace ≡ namespace)
    (stored : named o.name (objects s namespace) ≡ some o) where
  present : named o.name (objects s o.namespace) ≢ none
  present h = cc (placed, stored, h)

  pub kept-Writes : Writes objects o (some o) s (done tt, s)
  kept-Writes = (refl, λ ns n. ground arith)

  pub deleted-Writes : o.finalizers ≡ [] → Writes objects o none s (attempt (v.delete o) s)
  deleted-Writes plain = (refl, λ ns n. api.delete_lem o s ns n plain (cc (placed, stored)))

  pub updated-Writes :
      (spec : Spec)
      → Writes objects o
          (some (record o { spec = spec }))
          s
          (attempt (v.update (record o { spec = spec })) s)
  updated-Writes spec = (refl, λ ns n. api.update_lem (record o { spec = spec }) s ns n present)

  -- An update of the object's labels, whose error would end the action.
  pub relabelled-Writes :
      (o' : Object Spec)
      → o'.namespace ≡ o.namespace
      → o'.name ≡ o.name
      → Writes objects o (some o') s (command (v.update o') s)
  relabelled-Writes o' same_namespace same_name =
      let there : named o'.name (objects s o'.namespace) ≢ none =
        λ h. present (cc (same_namespace, same_name, h)) in
      (
        rw (api.update_ok o' s there),
        λ ns n. ground (arith, same_namespace, same_name, api.update_lem o' s ns n there),
      )
