-- ===== src/Examples/Api.antt =====
-- Requests at concrete inputs.
use android_appliance.Base.{
  ℕ, ◌+◌, ◌*◌, ◌≤◌, ◌≡◌, ◌≢◌, refl, ◌⊎◌, Option, none, some, List, [], ◌∷◌, true, false,
  if◌then◌else◌, length, arith,
}
use android_appliance.Base.Text.{Text, codes, text_eq}
use android_appliance.Auth.State.{Auth, check_token}
use android_appliance.Api.Gate.{
  Conn, http, other, token, to_app, responds, unauthorized, gate, principal,
}
use android_appliance.Api.Access.{Shows, gate_guards}
use android_appliance.Api.Body.{save, upload_limit, mebibyte, disk_reserve}
use android_appliance.Base.{or_else}
use android_appliance.Base.Int.{ℤ, pos}
use android_appliance.Session.Messages.{Json, integer, object, field, no_fields, loaded}
use android_appliance.Api.Body.{gives, read_from}
use android_appliance.Api.Values.{
  Floats, Decoders, Request, whole, json, number, number_or, duration,
}
use android_appliance.Api.Routes.{swipe, swipes, swipe_request, demand}
use android_appliance.Api.Checked.{OnGives}
use android_appliance.Api.Touches.{IsChecked}
use android_appliance.Api.Demands.{demand-IsChecked}
use android_appliance.Api.Responses.{Header, value_of, hardened}
use android_appliance.Api.Hardened.{defaults, hardened_lem}
use android_appliance.Api.Bounds.{fits, SavesIf, save-reserve}

abbrev mac : Text → Text → Text
mac key body = key

abbrev str : ℕ → Text
str n = []

abbrev int : Text → ℕ
int t = 0

abbrev keeper : Auth
keeper = record { token = codes "secret"; session_key = codes "k"; links = []; failures = [] }

abbrev with_token : Text → Option Text
with_token name =
    if text_eq name (codes "authorization") then some (codes "Bearer secret ") else none

abbrev request : (Text → Option Text) → Conn
request h = record {
  kind = http;
  path = codes "/api/v1/shell";
  method = codes "POST";
  is_local = false;
  header = h;
  cookie = none;
  client = some (codes "10.0.0.9");
  scheme = codes "http";
}

reaches : (gate mac str int 1 2 (request with_token) false keeper).1 ≡ to_app token
unfolding gate principal check_token
reaches = refl

refuses : (gate mac str int 1 2 (request (λ name. none)) false keeper).1 ≡ responds unauthorized
unfolding gate principal
refuses = refl

gate_guards_example : Shows mac str int 2 (request with_token) false keeper token
gate_guards_example = gate_guards mac str int 1 2 (request with_token) false keeper token reaches

http_not_other : http ≢ other
http_not_other = ground arith

has_secret : check_token (codes "secret") keeper ≡ true
unfolding check_token
has_secret = refl

abbrev bytes : List (List ℕ)
bytes = (1 ∷ 2 ∷ []) ∷ (3 ∷ []) ∷ []

save-reserve_example :
    let limit = upload_limit 4096 2147483648 in
    let stored = (save limit (some (codes "3")) bytes).0 in
    (length stored ≤ 4096 * mebibyte)
    × ((length stored ≡ 0) ⊎ (length stored + disk_reserve ≤ 2147483648))
    × SavesIf (fits limit (some (codes "3")) bytes) bytes (save limit (some (codes "3")) bytes)
save-reserve_example = save-reserve 4096 2147483648 (some (codes "3")) bytes

-- Whole numbers as the floats.
abbrev wholes : Floats ℤ
wholes = record {
  fits_float = λ n. true;
  is_finite = λ x. true;
  is_duration = λ x. false;
  is_timeout = λ x. false;
  truncated = λ x. x;
  parse = λ t. none;
}

-- A body of one byte is a swipe, or not JSON.
abbrev swipe_json : Json ℤ
swipe_json = object (
    field (codes "x1") (integer (pos 1)) (
      field (codes "y1") (integer (pos 2))
        (field (codes "x2") (integer (pos 3)) (field (codes "y2") (integer (pos 4)) no_fields))))

abbrev swiping : Decoders ℤ
swiping = record { loads = λ body. loaded swipe_json; utf8 = λ body. none }

abbrev swipe_body : Request
swipe_body = record {
  chunks = (123 ∷ []) ∷ [];
  header = λ n. none;
  query = λ n. none;
  package_name = [];
}

swipe_asked :
    demand wholes swiping 100 swipe swipe_body
    ≡ gives (swipes (whole (pos 1)) (whole (pos 2)) (whole (pos 3)) (whole (pos 4)) (pos 300))
unfolding demand swipe_request json number duration number_or read_from
swipe_asked = refl

demand-IsChecked_example :
    OnGives (IsChecked wholes 100) (demand wholes swiping 100 swipe swipe_body)
demand-IsChecked_example = demand-IsChecked wholes swiping 100 (λ x h. cc) swipe swipe_body

-- A handler that sets its own caching.
abbrev cached : List Header
cached = (codes "cache-control", codes "max-age=5") ∷ []

hardened_lem_example :
    value_of (codes "cache-control") (hardened http (codes "/api/v1/status") cached)
    ≡ or_else
        (value_of (codes "cache-control") cached)
        (value_of (codes "cache-control") (defaults (codes "/api/v1/status")))
hardened_lem_example = hardened_lem (codes "/api/v1/status") (codes "cache-control") cached
