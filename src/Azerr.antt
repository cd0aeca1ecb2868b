-- ===== src/Azerr.antt =====
-- internal/utils/azerr/azerr.go: the errors of the storage services, with their HTTP status.
use localaz.Common.{Bytes, codes, ℕ, String, [], ◌∷◌}

pub data Code : Type 0 where
  container_not_found container_already_exists container_being_deleted blob_not_found : Code
  blob_already_exists invalid_resource_name out_of_range_input invalid_input : Code
  invalid_query_parameter out_of_range_query_param unsupported_header : Code
  missing_required_header invalid_block_list internal_error auth_failed : Code
  queue_not_found queue_already_exists message_not_found pop_receipt_mismatch : Code
  table_not_found table_already_exists resource_not_found entity_already_exists : Code
  update_condition_not_met : Code

pub record AzError : Type 0 where
  pub status : ℕ
  pub code : Code
  pub message : Bytes

abbrev pub new : ℕ → Code → String → AzError
new status code message = record { status = status; code = code; message = codes message }

abbrev pub bad_request : ℕ
bad_request = 400

abbrev pub not_found : ℕ
not_found = 404

abbrev pub method_not_allowed : ℕ
method_not_allowed = 405

abbrev pub conflict : ℕ
conflict = 409

abbrev pub precondition_failed : ℕ
precondition_failed = 412

abbrev pub internal_server_error : ℕ
internal_server_error = 500

abbrev pub invalid_name : AzError
invalid_name =
    new bad_request invalid_resource_name "The specified resource name contains invalid characters."

-- `Internal`
unfoldable pub internal : Bytes → AzError
internal [] =
    new internal_server_error internal_error
      "The server encountered an internal error. Please retry the request."
internal (c ∷ s) = record { status = internal_server_error; code = internal_error; message = c ∷ s }

abbrev pub missing_queue : AzError
missing_queue = new not_found queue_not_found "The specified queue does not exist."

abbrev pub existing_queue : AzError
existing_queue = new conflict queue_already_exists "The specified queue already exists."

abbrev pub missing_message : AzError
missing_message = new not_found message_not_found "The specified message does not exist."

abbrev pub wrong_receipt : AzError
wrong_receipt =
    new bad_request pop_receipt_mismatch
      "The specified pop receipt did not match the pop receipt for a dequeued message."

abbrev pub missing_table : AzError
missing_table = new not_found table_not_found "The table specified does not exist."

abbrev pub existing_table : AzError
existing_table = new conflict table_already_exists "The table specified already exists."

abbrev pub missing_entity : AzError
missing_entity = new not_found resource_not_found "The specified resource does not exist."

abbrev pub existing_entity : AzError
existing_entity = new conflict entity_already_exists "The specified entity already exists."

abbrev pub failed_condition : AzError
failed_condition =
    new precondition_failed update_condition_not_met
      "The update condition specified in the request was not satisfied."
