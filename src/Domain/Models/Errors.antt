-- ===== src/Domain/Models/Errors.antt =====
-- internal/domain/errors.go. The message of an error is not modelled: it is read by people only.
use next_now_x.Prelude.{Str, List, []}

pub data DomainErrorCode : Type 0 where
  cross_feature_dependency cycle duplicate_dependency duplicate_pull_request : DomainErrorCode
  github_auth invalid_database invalid_document invalid_document_kind : DomainErrorCode
  invalid_parent invalid_pull_request_url invalid_status invalid_title : DomainErrorCode
  not_found references_exist invalid_document_url document_read_failed : DomainErrorCode
  document_too_large document_not_text duplicate_implementation_plan : DomainErrorCode
  invalid_implementation_plan implementation_plan_too_large invalid_config : DomainErrorCode
  invalid_prompt_template invalid_task_label archived_read_only address_in_use : DomainErrorCode
  daemon_unsupported daemon_not_installed daemon_not_running daemon_failed : DomainErrorCode
  update_unavailable update_check_failed update_failed internal : DomainErrorCode

-- `foreign` is an error that is no `*domain.Error`, of which the code knows nothing.
pub data Error : Type 0 where
  domain_error : (code : DomainErrorCode) (path : List Str) → Error
  foreign : Error

abbrev pub new_error : DomainErrorCode → Error
new_error code = domain_error code []

unfoldable pub error_code : Error → DomainErrorCode
error_code (domain_error code _) = code
error_code foreign = internal
