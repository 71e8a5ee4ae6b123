-- ===== src/Api/Responses.antt =====
-- The answers of the API (api.py: STATUS, error, _handle, the answer of Api.shell, hardened, with_mcp). A
-- header is its name in lower case and its value; what a text is in base64 is a parameter.
use android_appliance.Base.{
  ℕ, zero, suc, ◌*◌, ◌==◌, Option, none, some, Bool, ◌||◌, List, [], ◌∷◌, ◌++◌, ltb, length,
  if◌then◌else◌,
}
use android_appliance.Base.Text.{Text, codes, text_eq, starts_with}
use android_appliance.Api.Gate.{Kind, http, websocket, other, mcp, api_root}

-- The codes of STATUS, which the errors of the API, the backend and the supervisor carry.
pub data ErrorCode : Type 0 where
  bad_request unauthorized forbidden not_found conflict too_large rate_limited : ErrorCode
  internal boot_failed timeout unavailable : ErrorCode
  -- Any other text.
  other_code : ErrorCode

abbrev pub status_of : ErrorCode → ℕ
status_of bad_request = 400
status_of unauthorized = 401
status_of forbidden = 403
status_of not_found = 404
status_of conflict = 409
status_of too_large = 413
status_of rate_limited = 429
status_of internal = 500
status_of boot_failed = 503
status_of timeout = 503
status_of unavailable = 503
status_of other_code = 500

-- An exception of a handler: one with a code (ApiError, OperationError, LifecycleError), one of Starlette
-- with a status, or any other.
pub data Failure : Type 0 where
  coded : ErrorCode → Failure
  http_exception : ℕ → Failure
  unforeseen : Failure

abbrev pub exception_code : ℕ → ErrorCode
exception_code n =
    if n == 404
    then not_found
    else if n == 401
    then unauthorized
    else if n == 403
    then forbidden
    else bad_request

-- _handle: the status of the answer and the code in it.
unfoldable pub handled : Failure → ℕ × ErrorCode
handled (coded c) = (status_of c, c)
handled (http_exception n) = (n, exception_code n)
handled unforeseen = (status_of internal, internal)

abbrev pub Header : Type 0
Header = Text × Text

-- headers.get
abbrev pub value_of : Text → List Header → Option Text
value_of n [] = none
value_of n (h ∷ hs) = let rest = value_of n hs in if text_eq h.0 n then some h.1 else rest

abbrev pub unless_set : Option Text → Header → List Header → List Header
unless_set none h hs = hs ++ h ∷ []
unless_set (some v) h hs = hs

-- headers.setdefault, once and for a list of headers.
unfoldable pub set_default : Header → List Header → List Header
set_default h hs = unless_set (value_of h.0 hs) h hs

unfoldable pub set_defaults : List Header → List Header → List Header
set_defaults [] hs = hs
set_defaults (d ∷ ds) hs = set_defaults ds (set_default d hs)

abbrev pub security_headers : List Header
security_headers =
    (codes "x-frame-options", codes "DENY")
    ∷ (codes "x-content-type-options", codes "nosniff")
    ∷ (codes "referrer-policy", codes "same-origin")
    ∷ []

abbrev pub page_policy : Text
page_policy =
    codes
      "default-src 'self'; img-src 'self' blob: data:; media-src 'self' blob:; connect-src 'self'; style-src 'self'; "
    ++ codes "script-src 'self'; frame-ancestors 'none'; base-uri 'none'; form-action 'self'"

abbrev pub api_policy : Text
api_policy = codes "frame-ancestors 'none'"

abbrev pub is_api : Text → Bool
is_api path = starts_with api_root path || text_eq path mcp

abbrev pub is_private : Text → Bool
is_private path = is_api path || text_eq path (codes "/login") || text_eq path (codes "/logout")

abbrev pub policy_for : Text → Text
policy_for path = if is_api path then api_policy else page_policy

abbrev pub caching_for : Text → Text
caching_for path = if is_private path then codes "no-store" else codes "no-cache"

-- hardened: the headers of the response to a request of a kind for a path.
unfoldable pub hardened : Kind → Text → List Header → List Header
unfolding set_defaults set_default
hardened http path hs =
    let secured = set_defaults security_headers hs in
    let guarded = set_default (codes "content-security-policy", policy_for path) secured in
    set_default (codes "cache-control", caching_for path) guarded
hardened websocket path hs = hs
hardened other path hs = hs

pub data Target : Type 0 where
  mcp_app api_app : Target

-- with_mcp
unfoldable pub with_mcp : Kind → Text → Target
with_mcp http path = if text_eq path mcp then mcp_app else api_app
with_mcp websocket path = api_app
with_mcp other path = api_app

-- What the shell's command gave (adb.py: ShellResult).
pub record Shelled : Type 0 where
  pub exit_code : ℕ
  pub stdout : List ℕ
  pub stderr : List ℕ

abbrev pub stderr_limit : ℕ
stderr_limit = 16 * 1024

abbrev pub take : ℕ → List ℕ → List ℕ
take zero xs = []
take (suc n) [] = []
take (suc n) (x ∷ xs) = x ∷ take n xs

module _ (base64 : List ℕ → Text) (str : ℕ → Text) where
  -- Api.shell with format=raw: the headers, beside stdout as the body.
  unfoldable pub raw_headers : Shelled → List Header
  raw_headers r =
      let shown =
        (codes "x-exit-code", str r.exit_code)
        ∷ (codes "x-stderr", base64 (take stderr_limit r.stderr))
        ∷ [] in
      if ltb stderr_limit (length r.stderr)
      then shown ++ (codes "x-stderr-truncated", codes "1") ∷ []
      else shown
