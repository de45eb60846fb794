-- ===== src/Client/Names.antt =====
-- The error codes of the server (api/server.h).

-- `ERR_INTERNAL` and the others of server.h
pub data ApiErr : Type 0 where
  err_internal err_shutting_down err_cmd err_blueprint err_signal err_json_parse err_json_type
        err_json_missing err_token :
      ApiErr
