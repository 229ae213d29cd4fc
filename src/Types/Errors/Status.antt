-- ===== src/Types/Errors/Status.antt =====
-- The status codes of Go's net/http that the program uses.
use staking_api_service.Base.{ℕ}

abbrev pub ok : ℕ
ok = 200

abbrev pub accepted : ℕ
accepted = 202

abbrev pub bad_request : ℕ
bad_request = 400

abbrev pub forbidden : ℕ
forbidden = 403

abbrev pub not_found : ℕ
not_found = 404

abbrev pub internal_server_error : ℕ
internal_server_error = 500
