-- ===== src/Lib.antt =====
-- A model of the namespace quota operator, and the theorems about it.
--
-- The operator keeps a Kubernetes cluster in line with its QuotaProfile objects. A profile selects
-- namespaces by name or by one label and lists resource quotas and limit ranges for them. Four webhooks
-- and two controllers share the work:
--   * the webhook for profiles admits those that have one selector which no other profile has;
--   * the webhook for namespaces puts the label of the profile that selects a namespace on it;
--   * the profile controller does the same for namespaces that exist when a profile changes, and takes
--     the labels off when a profile is deleted;
--   * the namespace controller reads the label and creates, updates and deletes the quotas and limit
--     ranges of the namespace;
--   * the webhooks for quotas and limit ranges refuse changes of managed ones by anyone but service
--     accounts.
-- They meet in the objects of the cluster alone: in the profile label of a namespace, in the label of a
-- managed object, and in its name, which holds the index of its specification.
--
-- Files and code:
--   Api                  api/v1alpha1/quotaprofile_types.go: the constants and QuotaProfileSpec
--   Ids                  internal/controller: getProfileID, splitProfileID, getResourceQuotaID,
--                        getResourceQuotaIndex and those of limit ranges
--   NamespaceController  internal/controller/namespace_controller.go: `reconcile` is Reconcile,
--                        `reconcile_resource_quotas` is reconcileResourceQuotas with `sweep_quota` for
--                        a round of its first loop and `fill_quota` for one of its second,
--                        `reconcile_limit_ranges` is reconcileLimitRanges with `sweep_limit` and
--                        `create_limit`, `delete_managed_…` are deleteManaged…
--   ProfileController    internal/controller/quotaprofile_controller.go: `reconcile`,
--                        `reconcile_namespace` with `label_named` and `label_matching` for a round,
--                        `add_label_to_namespace`, `resolve_conflict`, `handle_deletion` with
--                        `clean_namespace` for a round
--   Webhook/Namespaces   internal/webhook/v1/namespace_webhook.go: `default` is Default, and
--                        `default_round` a round of its loop
--   Webhook/ResourceQuota, Webhook/LimitRange
--                        internal/webhook/v1/resourcequota_webhook.go and limitrange_webhook.go
--   Webhook/Profile      internal/webhook/v1alpha1/quotaprofile_webhook.go
--   Webhook/Requests     who may write which quotas and limit ranges, in words of their own
--   Webhook/Served       config/webhook/manifests.yaml: an API whose updates of namespaces and profiles
--                        are answered by the webhooks first, those of the operator included
--   Start                cmd/main.go: `main` from the parsed flags on; Start/Setup has the
--                        SetupWithManager functions of the controllers and the Setup…WebhookWithManager
--                        functions of the webhooks
--   System               the parts together: `Step` is one step of a cluster, `Reach` any number.
--                        System/Genuine and System/Steps are about managed objects, System/Clashes and
--                        System/Harmony about stored profiles, System/Agreement, System/Relabelling,
--                        System/Enforcement, System/Delivery and System/Creation about what the parts
--                        achieve together
--   Common, Text, Labels, Effect
--                        lists and tests; strings as lists of bytes with strings.Split, strconv.Itoa and
--                        strconv.Atoi; Go maps, which may be nil; errors, panics and state.
--                        Effect/Ensures, Effect/Frame, Effect/Preserve and Effect/Quiet reason about
--                        actions: their results, what they leave alone, what they keep, how they end
--   Client               the API client of controller-runtime, a parameter, and what is asked of it:
--                        Client/Laws of one that is consistent, Client/Honest of one that keeps what
--                        it is given whether its calls succeed or fail
--   Tests                evaluation at concrete inputs
--
-- State: an action takes the state of the cluster and returns a value, an error or a panic, together
-- with the state as it is then. A panic is a nil map that is written to or an index out of range. The
-- client is a record of operations on an unknown type of states. Theorems about the effect of a loop
-- ask for a consistent API (Client/Laws): objects have distinct names in a namespace, reads see all
-- writes, no one else writes meanwhile, and an update does not remove an object. Theorems about the
-- steps of the system ask that a managed object comes from a call that was given it. Theorems about the
-- start of the process, and about the errors and panics of a reconciliation, ask nothing of the
-- libraries. Client/Memory is a cluster in memory that is such an API.
--
-- Steps: requests of users that the webhooks let through, and reconciliations of any namespace and any
-- profile, one after the other and in any order. The profile controller of a step uses the API behind
-- the webhooks (Webhook/Served). Requests by service accounts other than the operator's
-- are not steps. The keys of a map are drawn by lo.Keys in one fixed order, where Go may take another
-- one at each call: there is no difference for the selectors that the webhook for profiles admits, which
-- have one key at most. `main` is run against a library that notes the calls that it gets (Start/Trace).
--
-- Bounds: indices are machine integers of 64 bits, so theorems on them ask for at most 2 ^ 63 - 1
-- specifications. All loops run over lists and are structural recursions. The printing of a decimal
-- number recurses on fuel that is one more than the number, which is enough since each step divides
-- by ten.
--
-- Not modelled: logging; the parsing of flags by the flag package; the scheme and the signal handler,
-- which are passed on to the library; the work queue of
-- controller-runtime; generated code (zz_generated.deepcopy.go); the test helpers; the
-- manifests, but for what that of the webhooks says of updates; and the specifications of
-- quotas and limit ranges, which the operator copies only.
pub mod Common
pub mod Text
pub mod Labels
pub mod Effect
pub mod Api
pub mod Client
pub mod Ids
pub mod ProfileController
pub mod NamespaceController
pub mod Webhook
pub mod Start
pub mod System
mod Tests
