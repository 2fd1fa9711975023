-- ===== src/Api/Errors.antt =====
-- The statuses that the handlers write for an error.
pub data ApiError : Type 0 where
  bad_request not_found internal_server_error not_implemented : ApiError
