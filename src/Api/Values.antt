-- ===== src/Api/Values.antt =====
-- The values in the body and the query of a request (api.py: _json, _number, _duration, _timeout, _bool,
-- _string, _text, _flag, _query_path). json.loads, the decoding of UTF-8, float and what Python tests on
-- a float are parameters.
use android_appliance.Base.{
  ℕ, Option, none, some, Bool, false, ◌&&◌, ◌||◌, ◌*◌, List, leb, all, ◌==◌, if◌then◌else◌,
}
use android_appliance.Base.Int.{ℤ, pos, negsuc}
use android_appliance.Base.Text.{Text, codes, text_eq, lower, is_empty_text}
use android_appliance.Session.Messages.{
  Json, null, boolean, integer, float, string_value, object, Fields, no_fields, Loaded, unreadable,
  too_deep, loaded,
}
use android_appliance.Api.Body.{
  Outcome, bad_request, too_large, value_error, gives, read_body, clean,
}

-- An int or a float.
pub data Number (F : Type 0) : Type 0 where
  whole : ℤ → Number F
  real : F → Number F

-- What the source asks of Python's numbers: if an int fits a float, if a float is finite, if it lies in
-- [0, 60000] and in (0, 86400], its part before the point, and the float in a text.
pub record Floats (F : Type 0) : Type 0 where
  pub fits_float : ℤ → Bool
  pub is_finite : F → Bool
  pub is_duration : F → Bool
  pub is_timeout : F → Bool
  pub truncated : F → ℤ
  pub parse : Text → Option F

pub record Decoders (F : Type 0) : Type 0 where
  pub loads : List ℕ → Loaded F
  pub utf8 : List ℕ → Option Text

pub record Request : Type 0 where
  pub chunks : List (List ℕ)
  pub header : Text → Option Text
  pub query : Text → Option Text
  pub package_name : Text

abbrev pub and_then : {A B : Type 0} → Outcome A → (A → Outcome B) → Outcome B
and_then bad_request f = bad_request
and_then too_large f = too_large
and_then value_error f = value_error
and_then (gives a) f = f a

abbrev pub json_limit : ℕ
json_limit = 1048576

-- The whitespace of bytes.strip.
abbrev pub is_blank : ℕ → Bool
is_blank c = leb 9 c && leb c 13 || c == 32

abbrev pub max_duration : ℕ
max_duration = 60000

abbrev pub max_timeout : ℕ
max_timeout = 24 * 3600

abbrev pub decoded : Option Text → Outcome Text
decoded none = bad_request
decoded (some t) = clean t

module _ {F : Type 0} where
  abbrev pub object_of : Loaded F → Outcome (Fields F)
  object_of unreadable = bad_request
  object_of too_deep = value_error
  object_of (loaded (object fields)) = gives fields
  object_of (loaded j) = bad_request

  -- _json
  unfoldable pub json : Decoders F → Request → Outcome (Fields F)
  json d r =
      and_then (read_body json_limit r.chunks)
        λ body. if all is_blank body then gives no_fields else object_of (d.loads body)

  -- A value that is not the default. math.isfinite fails on an int that no float holds, and that is
  -- no ApiError.
  abbrev pub checked_number : Floats F → Json F → Outcome (Number F)
  checked_number fs (integer n) = if fs.fits_float n then gives (whole n) else value_error
  checked_number fs (float x) = if fs.is_finite x then gives (real x) else bad_request
  checked_number fs j = bad_request

  -- _number without a default, with a number as the default, and with None.
  unfoldable pub number : Floats F → Option (Json F) → Outcome (Number F)
  number fs none = bad_request
  number fs (some j) = checked_number fs j

  unfoldable pub number_or : Floats F → ℕ → Option (Json F) → Outcome (Number F)
  number_or fs default none = gives (whole (pos default))
  number_or fs default (some j) = checked_number fs j

  unfoldable pub number_or_none : Floats F → Option (Json F) → Outcome (Option (Number F))
  number_or_none fs none = gives none
  number_or_none fs (some null) = gives none
  number_or_none fs (some j) = and_then (checked_number fs j) λ n. gives (some n)

  abbrev pub is_duration : Floats F → Number F → Bool
  is_duration fs (whole (pos n)) = leb n max_duration
  is_duration fs (whole (negsuc n)) = false
  is_duration fs (real x) = fs.is_duration x

  -- int(value)
  abbrev pub truncate : Floats F → Number F → ℤ
  truncate fs (whole n) = n
  truncate fs (real x) = fs.truncated x

  -- _duration
  unfoldable pub duration : Floats F → ℕ → Option (Json F) → Outcome ℤ
  unfolding number_or
  duration fs default v =
      and_then (number_or fs default v)
        λ n. if is_duration fs n then gives (truncate fs n) else bad_request

  abbrev pub is_timeout : Floats F → Number F → Bool
  is_timeout fs (whole (pos n)) = leb 1 n && leb n max_timeout
  is_timeout fs (whole (negsuc n)) = false
  is_timeout fs (real x) = fs.is_timeout x

  -- _timeout
  unfoldable pub timeout : Floats F → Option (Number F) → Outcome (Option (Number F))
  timeout fs none = gives none
  timeout fs (some n) = if is_timeout fs n then gives (some n) else bad_request

  -- _bool
  unfoldable pub bool : Bool → Option (Json F) → Outcome Bool
  bool default none = gives default
  bool default (some (boolean b)) = gives b
  bool default (some j) = bad_request

  -- _string without a default, and with one.
  unfoldable pub string : Option (Json F) → Outcome Text
  unfolding clean
  string (some (string_value t)) = clean t
  string v = bad_request

  unfoldable pub string_or : Text → Option (Json F) → Outcome Text
  unfolding clean string
  string_or default none = clean default
  string_or default (some j) = string (some j)

  -- _text
  unfoldable pub text : Decoders F → Request → Outcome Text
  text d r = and_then (read_body json_limit r.chunks) λ body. decoded (d.utf8 body)

abbrev pub or_default : Text → Option Text → Text
or_default default none = default
or_default default (some t) = t

-- _flag
unfoldable pub flag : Request → Text → Bool
flag r key =
    let t = lower (or_default (codes "") (r.query key)) in
    text_eq t (codes "1") || text_eq t (codes "true") || text_eq t (codes "yes")

abbrev pub path_in : Option Text → Outcome Text
path_in none = bad_request
path_in (some t) = if is_empty_text t then bad_request else gives t

-- _query_path
abbrev pub query_path : Request → Outcome Text
query_path r = path_in (r.query (codes "path"))
