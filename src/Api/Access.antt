-- ===== src/Api/Access.antt =====
-- Nothing but a public page is reached without a token, a cookie or the local socket.
use android_appliance.Base.{
  ℕ, ◌≡◌, ◌≢◌, refl, ◌⊎◌, Option, none, some, Bool, true, false, not, ◌&&◌, ◌||◌, if◌then◌else◌,
  arith, sym, subst,
}
use android_appliance.Base.Text.{Text, codes, starts_with, text_eq}
use android_appliance.Auth.State.{Auth, check_token, check_session}
use android_appliance.Api.Gate.{
  Conn, Kind, http, websocket, other, Principal, local, token, blocked_client, session, nobody,
  to_app, gate, principal, gate_kind, decide, for_path, is_public, is_safe_method, is_websocket,
  is_same_origin, mcp, header_or_empty, is_bearer, after_bearer, Refusal, decide_session,
  rate_limited, unauthorized, to_login, forbidden, respond, cookie_principal,
}

-- What the request shows of itself, for the principal that the application is told.
abbrev pub Shows :
    (Text → Text → Text) → (ℕ → Text) → (Text → ℕ) → ℕ → Conn → Bool → Auth → Principal → Type 0
Shows mac str int seconds conn trust a local = conn.is_local ≡ true
Shows mac str int seconds conn trust a token =
    check_token (after_bearer (header_or_empty (conn.header (codes "authorization")))) a ≡ true
Shows mac str int seconds conn trust a session =
    ((c : Text) × (conn.cookie ≡ some c) × (check_session mac str int seconds c a ≡ true))
    × (text_eq conn.path mcp ≡ false)
    × ((is_safe_method conn.method && not (is_websocket conn.kind) ≡ true)
        ⊎ (is_same_origin conn trust ≡ true))
Shows mac str int seconds conn trust a blocked_client = is_public conn.path ≡ true
Shows mac str int seconds conn trust a nobody = is_public conn.path ≡ true

respond-to_app : (k : Kind) (r : Refusal) (p : Principal) → respond k r ≢ to_app p
respond-to_app http r p = ground arith
respond-to_app websocket r p = ground arith
respond-to_app other r p = ground arith

decide_session-to_app :
    (conn : Conn) (trust : Bool) (p : Principal)
    → decide_session conn trust ≡ to_app p
    → (p ≡ session)
      × ((is_safe_method conn.method && not (is_websocket conn.kind) ≡ true)
          ⊎ (is_same_origin conn trust ≡ true))
decide_session-to_app conn trust p h = ground (arith, respond-to_app conn.kind forbidden p)

-- What is done with a request that shows nothing, for any two tests on its path.
unknown-to_app :
    (k : Kind) (open_path is_api : Bool) (p : Principal)
    → (if open_path
        then to_app nobody
        else if is_api
        then respond k unauthorized
        else respond k to_login)
      ≡ to_app p
    → p ≡ nobody
unknown-to_app k open_path is_api p h =
    ground (arith, respond-to_app k unauthorized p, respond-to_app k to_login p)

decide-same_principal :
    (conn : Conn) (trust : Bool) (q p : Principal) → decide conn trust q ≡ to_app p → p ≡ q
decide-same_principal conn trust local p h = ground arith
decide-same_principal conn trust token p h = ground arith
decide-same_principal conn trust blocked_client p h =
    ground (arith, respond-to_app conn.kind rate_limited p)
decide-same_principal conn trust session p h = (decide_session-to_app conn trust p h).0
decide-same_principal conn trust nobody p h =
    unknown-to_app conn.kind (is_public conn.path)
      (starts_with (codes "/api/") conn.path || text_eq conn.path mcp) p h

decide-blocked_client :
    (conn : Conn) (trust : Bool) (p : Principal)
    → decide conn trust blocked_client ≡ to_app p
    → is_public conn.path ≡ true
decide-blocked_client conn trust p h = ground (arith, respond-to_app conn.kind rate_limited p)

decide-nobody :
    (conn : Conn) (trust : Bool) (p : Principal)
    → decide conn trust nobody ≡ to_app p
    → is_public conn.path ≡ true
decide-nobody conn trust p h =
    ground (arith, respond-to_app conn.kind unauthorized p, respond-to_app conn.kind to_login p)

for_path-session :
    (path : Text) (q : Principal)
    → for_path path q ≡ session
    → (q ≡ session) × (text_eq path mcp ≡ false)
for_path-session path session h = ground arith
for_path-session path local h = ground arith
for_path-session path token h = ground arith
for_path-session path blocked_client h = ground arith
for_path-session path nobody h = ground arith

for_path-local : (path : Text) (q : Principal) → for_path path q ≡ local → q ≡ local
for_path-local path session h = ground arith
for_path-local path local h = ground arith
for_path-local path token h = ground arith
for_path-local path blocked_client h = ground arith
for_path-local path nobody h = ground arith

for_path-token : (path : Text) (q : Principal) → for_path path q ≡ token → q ≡ token
for_path-token path session h = ground arith
for_path-token path local h = ground arith
for_path-token path token h = ground arith
for_path-token path blocked_client h = ground arith
for_path-token path nobody h = ground arith

module _ (mac : Text → Text → Text) (str : ℕ → Text) (int : Text → ℕ) where
  gate_kind-to_app :
      (k : Kind) (b : Auth × Principal) (a : Auth) (conn : Conn) (trust : Bool) (p : Principal)
      → (gate_kind mac str int k b a conn trust).1 ≡ to_app p
      → decide conn trust (for_path conn.path b.1) ≡ to_app p
  gate_kind-to_app http b a conn trust p h = h
  gate_kind-to_app websocket b a conn trust p h = h
  gate_kind-to_app other b a conn trust p h = ground arith

  gate_kind-token :
      (k : Kind) (a : Auth) (conn : Conn) (trust : Bool)
      → k ≢ other
      → gate_kind mac str int k (a, token) a conn trust ≡ (a, to_app token)
  gate_kind-token http a conn trust h = refl
  gate_kind-token websocket a conn trust h = refl
  gate_kind-token other a conn trust h = ground arith

  cookie_principal-session :
      (seconds : ℕ) (c : Option Text) (a : Auth)
      → cookie_principal mac str int seconds c a ≡ session
      → (t : Text) × (c ≡ some t) × (check_session mac str int seconds t a ≡ true)
  cookie_principal-session seconds none a h = ground arith
  cookie_principal-session seconds (some c) a h = (c, refl, ground arith)

  principal-local :
      (now seconds : ℕ) (conn : Conn) (trust : Bool) (a : Auth)
      → (principal mac str int now seconds conn trust a).1 ≡ local
      → conn.is_local ≡ true
  unfolding principal
  principal-local now seconds conn trust a h =
      ground (arith, cookie_principal-session seconds conn.cookie a)

  principal-token :
      (now seconds : ℕ) (conn : Conn) (trust : Bool) (a : Auth)
      → (principal mac str int now seconds conn trust a).1 ≡ token
      → check_token (after_bearer (header_or_empty (conn.header (codes "authorization")))) a ≡ true
  unfolding principal
  principal-token now seconds conn trust a h = ground arith

  principal-session :
      (now seconds : ℕ) (conn : Conn) (trust : Bool) (a : Auth)
      → (principal mac str int now seconds conn trust a).1 ≡ session
      → cookie_principal mac str int seconds conn.cookie a ≡ session
  unfolding principal
  principal-session now seconds conn trust a h = ground arith

  gate-principal :
      (now seconds : ℕ) (conn : Conn) (trust : Bool) (a : Auth) (p : Principal)
      → (gate mac str int now seconds conn trust a).1 ≡ to_app p
      → (for_path conn.path (principal mac str int now seconds conn trust a).1 ≡ p)
        × (decide conn trust p ≡ to_app p)
  unfolding gate
  gate-principal now seconds conn trust a p h =
      let b = principal mac str int now seconds conn trust a in
      let d = gate_kind-to_app conn.kind b a conn trust p h in
      let e = decide-same_principal conn trust (for_path conn.path b.1) p d in
      (sym e, subst (λ q. decide conn trust q ≡ to_app p) (sym e) d)

  -- A request reaches the application only if it comes over the local socket, or with the right
  -- token, or with a session cookie that counts (not at the MCP path, and for a change of state or a
  -- WebSocket from the own origin only), or if its path is one of the public ones.
  pub gate_guards :
      (now seconds : ℕ) (conn : Conn) (trust : Bool) (a : Auth) (p : Principal)
      → (gate mac str int now seconds conn trust a).1 ≡ to_app p
      → Shows mac str int seconds conn trust a p
  gate_guards now seconds conn trust a local h =
      let e = gate-principal now seconds conn trust a local h in
      principal-local now seconds conn trust a (for_path-local conn.path _ e.0)
  gate_guards now seconds conn trust a token h =
      let e = gate-principal now seconds conn trust a token h in
      principal-token now seconds conn trust a (for_path-token conn.path _ e.0)
  gate_guards now seconds conn trust a session h =
      let e = gate-principal now seconds conn trust a session h in
      let f = for_path-session conn.path _ e.0 in
      (
        cookie_principal-session seconds conn.cookie a
            (principal-session now seconds conn trust a f.0),
        f.1,
        (decide_session-to_app conn trust session e.1).1,
      )
  gate_guards now seconds conn trust a blocked_client h =
      decide-blocked_client conn trust blocked_client
        (gate-principal now seconds conn trust a blocked_client h).1
  gate_guards now seconds conn trust a nobody h =
      decide-nobody conn trust nobody (gate-principal now seconds conn trust a nobody h).1

  -- The right token is accepted whatever failed before, so nobody is locked out by the failures of
  -- others.
  right_token_works :
      (now seconds : ℕ) (conn : Conn) (trust : Bool) (a : Auth)
      → conn.kind ≢ other
      → conn.is_local ≡ false
      → is_bearer (header_or_empty (conn.header (codes "authorization"))) ≡ true
      → check_token (after_bearer (header_or_empty (conn.header (codes "authorization")))) a ≡ true
      → gate mac str int now seconds conn trust a ≡ (a, to_app token)
  unfolding gate principal
  right_token_works now seconds conn trust a k l b c =
      simp (l, b, c, gate_kind-token conn.kind a conn trust k)
