-- ===== src/Errors.antt =====
-- app/api/errors.py: the error codes, and what an operation that may raise returns. A `BridgeError`
-- is its code and its `retryable` flag; its message and details are texts for the caller and are
-- left out. `FusionCadError` (app/fusion_cad/errors.py) carries the same codes.
use mathlib.Core.Bool.{Bool, true, false}
use development_bridge.Prelude.{◌≡◌, refl, ◌⊎◌, inl, inr}

pub data ErrorCode : Type 0 where
  invalid_argument project_not_found repository_not_found repository_conflict : ErrorCode
  repository_clone_failed managed_repository_state_corrupt github_not_configured : ErrorCode
  github_repository_unavailable github_api_error github_rate_limited github_conflict : ErrorCode
  permission_denied policy_violation git_revision_not_found git_command_failed : ErrorCode
  git_index_empty git_operation_in_progress git_push_plan_invalid git_push_rejected : ErrorCode
  git_branch_exists git_branch_not_found git_upstream_not_configured : ErrorCode
  git_worktree_dirty git_fast_forward_rejected idempotency_conflict : ErrorCode
  revision_conflict change_precondition_failed change_plan_invalid : ErrorCode
  change_apply_failed task_not_found job_not_found job_not_cancellable : ErrorCode
  job_execution_not_configured job_busy artifact_not_found : ErrorCode
  artifact_export_not_configured knowledge_not_configured knowledge_source_not_found : ErrorCode
  knowledge_message_not_found knowledge_attachment_not_found : ErrorCode
  knowledge_attachment_corrupt knowledge_export_not_configured : ErrorCode
  telegram_not_configured telegram_authorization_required telegram_source_not_found : ErrorCode
  telegram_rate_limited telegram_request_failed chatgpt_share_fetch_failed : ErrorCode
  chatgpt_share_http_error chatgpt_share_too_large chatgpt_share_unsupported_format : ErrorCode
  desktop_node_not_configured desktop_node_not_found desktop_node_offline : ErrorCode
  desktop_node_busy desktop_node_timeout no_active_design wrong_document ref_stale : ErrorCode
  ref_split ref_ambiguous type_mismatch selector_empty selector_ambiguous : ErrorCode
  precondition_failed unsupported_geometry capability_unavailable : ErrorCode
  capability_degraded view_stale fusion_api_error validation_failed : ErrorCode
  transaction_conflict checkpoint_diverged save_confirmation_required : ErrorCode
  operation_uncertain internal_error : ErrorCode

pub data Error : Type 0 where
  bridge_error : ErrorCode → Bool → Error
  -- sqlite3.IntegrityError
  integrity_error : Error
  -- a failed `assert`
  assertion_error : Error
  value_error : Error

abbrev pub raised : ErrorCode → Error
raised code = bridge_error code false

pub data Result {ℓ} (A : Type ℓ) : Type ℓ where
  ok : A → Result A
  err : Error → Result A

infixl 10 ◌>>=◌
abbrev pub ◌>>=◌ {ℓ κ} : {A : Type ℓ} {B : Type κ} → Result A → (A → Result B) → Result B
ok a >>= f = f a
err e >>= f = err e

abbrev pub guard : Bool → Error → Result (Unit {0})
guard true e = ok tt
guard false e = err e

infixl 10 ◌>>◌
abbrev pub ◌>>◌ {ℓ} : {B : Type ℓ} → Result (Unit {0}) → Result B → Result B
m >> k = m >>= λ _. k

pub Result-cases :
    {A : Type 0} (r : Result A) → ((a : A) × (r ≡ ok a)) ⊎ ((e : Error) × (r ≡ err e))
Result-cases (ok a) = inl (a, refl)
Result-cases (err e) = inr (e, refl)
