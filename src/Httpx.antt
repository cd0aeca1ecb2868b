-- ===== src/Httpx.antt =====
-- internal/utils/httpx/httpx.go: the error envelope of the JSON services.
use localaz.Common.{Bytes, codes, ℕ, String}

pub record HttpError : Type 0 where
  pub status : ℕ
  pub code : Bytes
  pub message : Bytes

-- `WriteError`, as the answer that it writes
abbrev pub http_error : ℕ → String → String → HttpError
http_error status code message = record {
  status = status;
  code = codes code;
  message = codes message;
}
