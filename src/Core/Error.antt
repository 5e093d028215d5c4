-- ===== src/Core/Error.antt =====
-- crates/ironfish-core/src/error.rs: the error type and `Result`.
use ironfish.Base.{Text, text, ◌++◌}

-- An `io::Error` or `serde_json::Error` is carried as the text that it displays.
pub data Error : Type 0 where
  invalid_fen engine : Text → Error
  pool_exhausted analysis_timeout analysis_cancelled : Error
  invalid_token token_expired token_not_found unauthorized rate_limit_exceeded : Error
  node_not_found : Text → Error
  not_leader cluster_unavailable : Error
  consensus discovery gossip network storage config io serialization internal : Text → Error

-- `Result<T>`, with this error type.
pub data Result {ℓ} (T : Type ℓ) : Type ℓ where
  err : Error → Result T
  ok : T → Result T

-- `Display`, by which the API reports an error.
unfoldable pub display : Error → Text
display (invalid_fen s) = text "invalid FEN: " ++ s
display (engine s) = text "engine error: " ++ s
display pool_exhausted = text "engine pool exhausted"
display analysis_timeout = text "analysis timeout"
display analysis_cancelled = text "analysis cancelled"
display invalid_token = text "invalid token"
display token_expired = text "token expired"
display token_not_found = text "token not found"
display unauthorized = text "unauthorized"
display rate_limit_exceeded = text "rate limit exceeded"
display (node_not_found s) = text "node not found: " ++ s
display not_leader = text "not leader"
display cluster_unavailable = text "cluster unavailable"
display (consensus s) = text "consensus error: " ++ s
display (discovery s) = text "discovery error: " ++ s
display (gossip s) = text "gossip error: " ++ s
display (network s) = text "network error: " ++ s
display (storage s) = text "storage error: " ++ s
display (config s) = text "configuration error: " ++ s
display (io s) = text "io error: " ++ s
display (serialization s) = text "serialization error: " ++ s
display (internal s) = text "internal error: " ++ s
