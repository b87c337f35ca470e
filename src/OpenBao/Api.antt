-- ===== src/OpenBao/Api.antt =====
-- What the writer of src/targets/openbao.rs calls: requests and responses, and the parameter
-- `Outside` for HTTP, files, the clock and crates.
use you_spin_me.Prelude.{ℕ, Bool, Option, List, Result, Bytes}

pub data Method : Type 0 where
  patch post : Method

-- A request of the client; `token` is the header X-Vault-Token.
pub record Request (U : Type 0) : Type 0 where
  pub method : Method
  pub url : U
  pub token : Option Bytes
  pub content_type : Bytes
  pub body : Bytes

pub record Response : Type 0 where
  pub status : ℕ
  pub body : Bytes

-- An error of the HTTP client, printed with and without the URL.
pub record HttpError : Type 0 where
  pub shown : Bytes
  pub without_url : Bytes

pub record Outside (U E : Type 0) : Type 0 where
  pub http : E → Request U → E × Result HttpError Response
  pub read_to_string : E → Bytes → Result Bytes Bytes
  -- `Instant::now`, in nanoseconds.
  pub now : E → ℕ
  -- Of the `url` crate: `path_segments_mut` (does it succeed), `pop_if_empty` and `push`.
  pub has_segments : U → Bool
  pub pop_if_empty : U → U
  pub push : U → Bytes → U
  -- Of `serde_json`: the write body of a key and a value, the login body, and the two responses.
  pub write_body : Bytes → Bytes → Result Bytes Bytes
  pub login_body : Bytes → Bytes → Bytes
  pub login_response : Bytes → Result Bytes (Bytes × ℕ)
  pub error_response : Bytes → Option (List Bytes)
  pub canonical_reason : ℕ → Option Bytes
  pub to_lowercase : Bytes → Bytes
