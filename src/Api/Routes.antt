-- ===== src/Api/Routes.antt =====
-- What the handlers of the API ask of the backend (api.py: the methods of Api from start to logs, and the
-- answer of shell). A handler gives the call that it makes, or an error.
use android_appliance.Base.{
  ℕ, zero, suc, Option, none, some, Bool, true, false, ◌||◌, List, [], ◌∷◌, ltb, if◌then◌else◌,
}
use android_appliance.Base.Int.{ℤ, pos}
use android_appliance.Base.Text.{Text, codes, text_eq}
use android_appliance.Session.Messages.{Fields, get}
use android_appliance.Api.Body.{Outcome, bad_request, gives, save, query_int, is_text}
use android_appliance.Api.Values.{
  Number, whole, real, Floats, Decoders, Request, and_then, json, number, number_or, number_or_none,
  duration, timeout, bool, string, string_or, text, or_default, flag, query_path,
}

-- A call of a method of the backend. An upload is the bytes of the temporary file.
pub data Demand (F : Type 0) : Type 0 where
  starts : Bool → Option (Number F) → Demand F
  stops : Bool → Demand F
  restarts : Bool → Option (Number F) → Demand F
  waits : Option (Number F) → Demand F
  shoots : Text → ℕ → Option ℕ → Bool → Demand F
  dumps_ui : Bool → Demand F
  taps : Number F → Number F → Demand F
  long_presses : Number F → Number F → ℤ → Demand F
  swipes : Number F → Number F → Number F → Number F → ℤ → Demand F
  types : Text → Text → Demand F
  presses_key : Text → Demand F
  runs : Text → Number F → Demand F
  lists_apps : Bool → Demand F
  installs : List ℕ → Bool → Bool → Bool → Bool → Demand F
  launches : Text → Demand F
  force_stops : Text → Demand F
  uninstalls : Text → Bool → Demand F
  pulls : Text → Demand F
  pushes : List ℕ → Text → Option Text → Demand F
  lists_files : Text → Demand F
  reads_log : Text → ℕ → Demand F

pub data Endpoint : Type 0 where
  start stop restart wait screenshot ui tap long_press swipe text_input key shell : Endpoint
  apps install launch force_stop uninstall pull push list_files logs : Endpoint

module _ {F : Type 0} (fs : Floats F) (d : Decoders F) where
  abbrev pub timeout_of : Fields F → Outcome (Option (Number F))
  timeout_of fields = and_then (number_or_none fs (get (codes "timeout") fields)) (timeout fs)

  -- Lifecycle
  unfoldable pub start_request : Request → Outcome (Demand F)
  start_request r = and_then (json d r) λ fields.
      and_then (bool true (get (codes "wait") fields))
        λ waits_for. and_then (timeout_of fields) λ t. gives (starts waits_for t)

  unfoldable pub stop_request : Request → Outcome (Demand F)
  stop_request r = and_then (json d r) λ fields.
      and_then (bool true (get (codes "wait") fields)) λ waits_for. gives (stops waits_for)

  unfoldable pub restart_request : Request → Outcome (Demand F)
  restart_request r = and_then (json d r) λ fields.
      and_then (bool true (get (codes "wait") fields))
        λ waits_for. and_then (timeout_of fields) λ t. gives (restarts waits_for t)

  unfoldable pub wait_request : Request → Outcome (Demand F)
  wait_request r = and_then (json d r) λ fields. and_then (timeout_of fields) λ t. gives (waits t)

  -- Screen and input
  abbrev pub nonzero : ℕ → Option ℕ
  nonzero zero = none
  nonzero (suc n) = some (suc n)

  abbrev pub shoot : Request → Text → Outcome (Demand F)
  shoot r format = and_then (query_int (r.query (codes "quality")) 85 1 100) λ quality.
      and_then (query_int (r.query (codes "max_size")) 0 16 100000)
        λ max_size. gives (shoots format quality (nonzero max_size) (flag r (codes "passive")))

  unfoldable pub screenshot_request : Request → Outcome (Demand F)
  screenshot_request r =
      let format = or_default (codes "png") (r.query (codes "format")) in
      if text_eq format (codes "png") || text_eq format (codes "jpeg")
      then shoot r format
      else bad_request

  unfoldable pub ui_request : Request → Outcome (Demand F)
  ui_request r =
      let format = or_default (codes "xml") (r.query (codes "format")) in
      if text_eq format (codes "xml")
      then gives (dumps_ui false)
      else if text_eq format (codes "compact")
      then gives (dumps_ui true)
      else bad_request

  abbrev pub number_at : Text → Fields F → Outcome (Number F)
  number_at name fields = number fs (get name fields)

  unfoldable pub tap_request : Request → Outcome (Demand F)
  tap_request r = and_then (json d r) λ fields.
      and_then (number_at (codes "x") fields)
        λ x. and_then (number_at (codes "y") fields) λ y. gives (taps x y)

  unfoldable pub long_press_request : Request → Outcome (Demand F)
  long_press_request r = and_then (json d r) λ fields. and_then (number_at (codes "x") fields) λ x.
      and_then (number_at (codes "y") fields) λ y.
        and_then (duration fs 800 (get (codes "duration_ms") fields))
          λ n. gives (long_presses x y n)

  unfoldable pub swipe_request : Request → Outcome (Demand F)
  swipe_request r = and_then (json d r) λ fields. and_then (number_at (codes "x1") fields) λ x1.
      and_then (number_at (codes "y1") fields) λ y1. and_then (number_at (codes "x2") fields) λ x2.
        and_then (number_at (codes "y2") fields) λ y2.
          and_then (duration fs 300 (get (codes "duration_ms") fields))
            λ n. gives (swipes x1 y1 x2 y2 n)

  abbrev pub is_text_request : Request → Bool
  is_text_request r = is_text (r.header (codes "content-type"))

  abbrev pub type_body : Request → Outcome (Demand F)
  type_body r =
      and_then (text d r)
        λ t. gives (types t (or_default (codes "paste") (r.query (codes "method"))))

  abbrev pub type_json : Request → Outcome (Demand F)
  type_json r = and_then (json d r) λ fields. and_then (string (get (codes "text") fields)) λ t.
      and_then (string_or (codes "paste") (get (codes "method") fields))
        λ method. gives (types t method)

  unfoldable pub text_request : Request → Outcome (Demand F)
  text_request r = if is_text_request r then type_body r else type_json r

  unfoldable pub key_request : Request → Outcome (Demand F)
  key_request r =
      and_then (json d r)
        λ fields. and_then (string (get (codes "key") fields)) λ k. gives (presses_key k)

  -- Shell and apps
  abbrev pub shell_timeout : Option (Number F) → Number F
  shell_timeout none = whole (pos 300)
  shell_timeout (some n) = n

  -- float(raw), where the source's own 300.0 is the number 300.
  abbrev pub parsed : Option F → Outcome (Number F)
  parsed none = bad_request
  parsed (some x) = gives (real x)

  abbrev pub raw_timeout : Option Text → Outcome (Number F)
  raw_timeout none = gives (whole (pos 300))
  raw_timeout (some []) = gives (whole (pos 300))
  raw_timeout (some (c ∷ t)) = parsed (fs.parse (c ∷ t))

  abbrev pub run_for : Text → Number F → Outcome (Demand F)
  run_for command n = and_then (timeout fs (some n)) λ t. gives (runs command (shell_timeout t))

  abbrev pub run_body : Request → Outcome (Demand F)
  run_body r =
      and_then (text d r)
        λ command. and_then (raw_timeout (r.query (codes "timeout"))) (run_for command)

  abbrev pub run_json : Request → Outcome (Demand F)
  run_json r = and_then (json d r) λ fields.
      and_then (string (get (codes "command") fields))
        λ command. and_then (number_or fs 300 (get (codes "timeout") fields)) (run_for command)

  unfoldable pub shell_request : Request → Outcome (Demand F)
  shell_request r = if is_text_request r then run_body r else run_json r

  -- The upload of an APK, with the limit of _upload_limit; the file is gone after the call.
  unfoldable pub install_request : ℕ → Request → Outcome (Demand F)
  install_request limit r =
      let saved = save limit (r.header (codes "content-length")) r.chunks in
      and_then (saved.1) λ size.
        if ltb 0 size
        then gives (
            installs (saved.0) (flag r (codes "replace")) (flag r (codes "grant"))
              (flag r (codes "downgrade")) (flag r (codes "test")))
        else bad_request

  unfoldable pub pull_request : Request → Outcome (Demand F)
  pull_request r = and_then (query_path r) λ path. gives (pulls path)

  unfoldable pub push_request : ℕ → Request → Outcome (Demand F)
  push_request limit r = and_then (query_path r) λ path.
      let saved = save limit (r.header (codes "content-length")) r.chunks in
      and_then (saved.1) λ size. gives (pushes (saved.0) path (r.query (codes "name")))

  unfoldable pub list_files_request : Request → Outcome (Demand F)
  list_files_request r = and_then (query_path r) λ path. gives (lists_files path)

  unfoldable pub logs_request : Request → Outcome (Demand F)
  logs_request r =
      and_then (query_int (r.query (codes "lines")) 200 1 100000)
        λ lines. gives (reads_log (or_default (codes "emulator") (r.query (codes "source"))) lines)

  -- What a request to an endpoint asks of the backend, with the most that an upload may take.
  unfoldable pub demand : ℕ → Endpoint → Request → Outcome (Demand F)
  unfolding start_request stop_request restart_request wait_request screenshot_request ui_request
      tap_request long_press_request swipe_request text_request key_request shell_request
      install_request pull_request push_request list_files_request logs_request
  demand limit start r = start_request r
  demand limit stop r = stop_request r
  demand limit restart r = restart_request r
  demand limit wait r = wait_request r
  demand limit screenshot r = screenshot_request r
  demand limit ui r = ui_request r
  demand limit tap r = tap_request r
  demand limit long_press r = long_press_request r
  demand limit swipe r = swipe_request r
  demand limit text_input r = text_request r
  demand limit key r = key_request r
  demand limit shell r = shell_request r
  demand limit apps r = gives (lists_apps (flag r (codes "all")))
  demand limit install r = install_request limit r
  demand limit launch r = gives (launches r.package_name)
  demand limit force_stop r = gives (force_stops r.package_name)
  demand limit uninstall r = gives (uninstalls r.package_name (flag r (codes "keep_data")))
  demand limit pull r = pull_request r
  demand limit push r = push_request limit r
  demand limit list_files r = list_files_request r
  demand limit logs r = logs_request r
