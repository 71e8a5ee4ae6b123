-- ===== src/Api/Gate.antt =====
-- Who a request comes from and whether it reaches the application (api.py: client_key, own_origin,
-- AuthMiddleware, Api.login, Api.login_page, Api._local_only). Headers are Latin-1 texts by lower-case
-- name.
use android_appliance.Base.{
  ℕ, Option, none, some, Bool, true, false, not, ◌&&◌, ◌||◌, [], ◌∷◌, ◌++◌, if◌then◌else◌,
}
use android_appliance.Base.Text.{
  Text, codes, text_eq, contains, starts_with, strip, lower, is_empty_text,
}
use android_appliance.Auth.State.{Auth, check_token, check_session, blocked, failed, use_login_code}

pub data Kind : Type 0 where
  http websocket other : Kind

pub record Conn : Type 0 where
  pub kind : Kind
  pub path : Text
  pub method : Text
  -- The unix socket listener marks its requests.
  pub is_local : Bool
  pub header : Text → Option Text
  -- The session cookie.
  pub cookie : Option Text
  pub client : Option Text
  pub scheme : Text

abbrev pub or_text : Option Text → Text → Text
or_text none t = t
or_text (some s) t = if is_empty_text s then t else s

abbrev pub header_or_empty : Option Text → Text
header_or_empty none = []
header_or_empty (some t) = t

-- value.split(",")[-1]
abbrev pub after_comma : Text → Text
after_comma [] = []
after_comma (c ∷ s) = let rest = after_comma s in if contains b',' (c ∷ s) then rest else c ∷ s

abbrev pub last_entry : Option Text → Option Text
last_entry none = none
last_entry (some v) = if is_empty_text v then none else some (strip (after_comma v))

unfoldable pub forwarded : Conn → Text → Bool → Option Text
forwarded conn name trust = if trust then last_entry (conn.header name) else none

unfoldable pub client_key : Conn → Bool → Text
unfolding forwarded
client_key conn trust =
    or_text (forwarded conn (codes "x-forwarded-for") trust)
      (elim conn.client [ none ↦ codes "unknown" | some h ↦ h ])

unfoldable pub host_of : Conn → Bool → Text
unfolding forwarded
host_of conn trust =
    or_text (forwarded conn (codes "x-forwarded-host") trust)
      (header_or_empty (conn.header (codes "host")))

abbrev pub http_scheme : Text → Text
http_scheme s =
    if text_eq s (codes "ws")
    then codes "http"
    else if text_eq s (codes "wss")
    then codes "https"
    else s

unfoldable pub own_origin : Conn → Bool → Text
unfolding forwarded host_of
own_origin conn trust = lower (
    http_scheme (or_text (forwarded conn (codes "x-forwarded-proto") trust) conn.scheme)
    ++ (codes "://" ++ host_of conn trust))

-- Who the request comes from; `nobody` is None.
pub data Principal : Type 0 where
  local token blocked_client session nobody : Principal

abbrev pub is_bearer : Text → Bool
is_bearer (a ∷ b ∷ c ∷ d ∷ e ∷ f ∷ g ∷ s) =
    text_eq (lower (a ∷ b ∷ c ∷ d ∷ e ∷ f ∷ g ∷ [])) (codes "bearer ")
is_bearer _ = false

abbrev pub after_bearer : Text → Text
after_bearer (a ∷ b ∷ c ∷ d ∷ e ∷ f ∷ g ∷ s) = strip s
after_bearer _ = []

abbrev pub mcp : Text
mcp = codes "/mcp"

abbrev pub api_root : Text
api_root = codes "/api/v1"

abbrev pub is_public : Text → Bool
is_public path =
    text_eq path (codes "/api/v1/health")
    || text_eq path (codes "/login")
    || text_eq path (codes "/app.css")

abbrev pub is_safe_method : Text → Bool
is_safe_method m =
    text_eq m (codes "GET") || text_eq m (codes "HEAD") || text_eq m (codes "OPTIONS")

pub data Refusal : Type 0 where
  rate_limited unauthorized to_login forbidden : Refusal

pub data Reaction : Type 0 where
  to_app : Principal → Reaction
  -- A scope that is neither HTTP nor a WebSocket goes to the application as it is.
  passes : Reaction
  responds : Refusal → Reaction
  closes : Reaction

abbrev pub is_websocket : Kind → Bool
is_websocket websocket = true
is_websocket _ = false

abbrev pub respond : Kind → Refusal → Reaction
respond websocket r = closes
respond _ r = responds r

-- MCP is for programs: a cookie does not count there.
abbrev pub for_path : Text → Principal → Principal
for_path path session = if text_eq path mcp then nobody else session
for_path path p = p

-- The same page, by the Origin header of a request that changes state.
abbrev pub is_same_origin : Conn → Bool → Bool
is_same_origin conn trust =
    text_eq (lower (header_or_empty (conn.header (codes "origin")))) (own_origin conn trust)

abbrev pub decide_session : Conn → Bool → Reaction
decide_session conn trust =
    if (is_websocket conn.kind || not (is_safe_method conn.method))
      && not (is_same_origin conn trust)
    then respond conn.kind forbidden
    else to_app session

abbrev pub decide : Conn → Bool → Principal → Reaction
decide conn trust blocked_client =
    if is_public conn.path then to_app blocked_client else respond conn.kind rate_limited
decide conn trust nobody =
    if is_public conn.path
    then to_app nobody
    else if starts_with (codes "/api/") conn.path || text_eq conn.path mcp
    then respond conn.kind unauthorized
    else respond conn.kind to_login
decide conn trust session = decide_session conn trust
decide conn trust local = to_app local
decide conn trust token = to_app token

module _ (mac : Text → Text → Text) (str : ℕ → Text) (int : Text → ℕ) where
  abbrev pub cookie_principal : ℕ → Option Text → Auth → Principal
  cookie_principal seconds none a = nobody
  cookie_principal seconds (some c) a =
      if not (is_empty_text c) && check_session mac str int seconds c a then session else nobody

  -- _principal at the time `now` of the monotonic clock, and `seconds` of the other; the failures of
  -- logins are kept in Auth.
  unfoldable pub principal : ℕ → ℕ → Conn → Bool → Auth → Auth × Principal
  principal now seconds conn trust a =
      let authorization = header_or_empty (conn.header (codes "authorization")) in
      let client = client_key conn trust in
      let checked = blocked now client a in
      if conn.is_local
      then (a, local)
      else if is_bearer authorization
      then (if check_token (after_bearer authorization) a
          then (a, token)
          else if checked.1
          then (checked.0, blocked_client)
          else (failed now client checked.0, nobody))
      else (a, cookie_principal seconds conn.cookie a)

  abbrev pub gate_kind : Kind → Auth × Principal → Auth → Conn → Bool → Auth × Reaction
  gate_kind other p a conn trust = (a, passes)
  gate_kind _ (b, p) a conn trust = (b, decide conn trust (for_path conn.path p))

  -- AuthMiddleware.__call__
  unfoldable pub gate : ℕ → ℕ → Conn → Bool → Auth → Auth × Reaction
  unfolding principal
  gate now seconds conn trust a =
      gate_kind conn.kind (principal now seconds conn trust a) a conn trust

-- The pages of Api.login and Api.login_page.
pub data Page : Type 0 where
  logged_in form cross_origin too_many wrong_token bad_link : Page

abbrev pub is_cross : Option Text → Text → Bool
is_cross none own = false
is_cross (some origin) own = not (text_eq (lower origin) own)

-- `given` is the token of the form, stripped.
unfoldable pub login : ℕ → Conn → Bool → Text → Auth → Auth × Page
login now conn trust given a =
    let client = client_key conn trust in
    let checked = blocked now client a in
    if is_cross (conn.header (codes "origin")) (own_origin conn trust)
    then (a, cross_origin)
    else if check_token given a
    then (a, logged_in)
    else if checked.1
    then (checked.0, too_many)
    else (failed now client checked.0, wrong_token)

abbrev pub after_code : Auth × Bool → Auth × Page
after_code (a, used) = (a, if used then logged_in else bad_link)

unfoldable pub login_page : ℕ → Option Text → Auth → Auth × Page
login_page now none a = (a, form)
login_page now (some code) a = after_code (use_login_code now code a)

-- _local_only: whether the request is accepted.
abbrev pub is_local_principal : Principal → Bool
is_local_principal local = true
is_local_principal _ = false
