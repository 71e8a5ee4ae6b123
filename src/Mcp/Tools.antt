-- ===== src/Mcp/Tools.antt =====
-- The tools of an agent (mcp_server.py: _decode, _text, Tools.shell, pull, push, install, logs). The
-- daemon's answer comes as a value. Base64, UTF-8 and the digits of a number are parameters.
use android_appliance.Base.{
  ℕ, ◌-◌, ◌*◌, min, max, Option, none, some, Bool, true, false, ◌&&◌, [], ◌∷◌, ◌==◌, ltb,
  if◌then◌else◌, length,
}
use android_appliance.Base.Int.{ℤ, is_zero_ℤ}
use android_appliance.Base.Text.{Text, codes, text_eq}
use android_appliance.Mcp.Spool.{
  Bytes, Tool, tool_error, answers, Reply, Download, Action, of_tool, finally_unlink, ◌>>=◌, ◌>>◌,
  spool, read_bytes, client_pull, client_push,
}

-- data[:n]
abbrev pub take : ℕ → Bytes → Bytes
take n [] = []
take n (b ∷ bs) = let rest = take (n - 1) bs in if n == 0 then [] else b ∷ rest

abbrev pub kibibyte : ℕ
kibibyte = 1024

abbrev pub max_shell_output : ℕ
max_shell_output = 256 * kibibyte

abbrev pub max_pull : ℕ
max_pull = 8 * (kibibyte * kibibyte)

abbrev pub max_push : ℕ
max_push = 64 * (kibibyte * kibibyte)

abbrev pub max_log_lines : ℕ
max_log_lines = 5000

-- max(1, min(lines, MAX_LOG_LINES)); a negative number of lines is as 0.
abbrev pub log_lines : ℕ → ℕ
log_lines lines = max 1 (min lines max_log_lines)

pub data Encoding : Type 0 where
  automatic as_text as_base64 : Encoding

abbrev pub encoding_named : Text → Option Encoding
encoding_named t =
    if text_eq t (codes "auto")
    then some automatic
    else if text_eq t (codes "text")
    then some as_text
    else if text_eq t (codes "base64")
    then some as_base64
    else none

pub data Pulled : Type 0 where
  text_content : Text → Pulled
  -- With the note that the content is binary, or as it was asked for.
  binary_content base64_content : Bytes → Pulled

module _ (decode_base64 : Text → Option Bytes) (decode_text : Bytes → Option Text) where
  abbrev pub within : ℕ → Option Bytes → Tool Bytes
  within limit none = tool_error
  within limit (some bytes) = if ltb limit (length bytes) then tool_error else answers bytes

  -- _decode
  unfoldable pub decode : Text → ℕ → Tool Bytes
  decode content limit = within limit (decode_base64 content)

  abbrev pub as_content : Encoding → Bytes → Option Text → Tool Pulled
  as_content as_base64 bytes t = answers (base64_content bytes)
  as_content automatic bytes none = answers (binary_content bytes)
  as_content as_text bytes none = tool_error
  as_content automatic bytes (some t) = answers (text_content t)
  as_content as_text bytes (some t) = answers (text_content t)

  abbrev pub content : Encoding → Bytes → Tool Pulled
  content e bytes = as_content e bytes (decode_text bytes)

  abbrev pub is_limited : ℕ → Tool (Unit {0})
  is_limited size = if ltb max_pull size then tool_error else answers tt

  -- The file as the client copies it, if that is not too large.
  unfoldable pub read_copy : Download → Action Bytes
  unfolding client_pull read_bytes
  read_copy d = do size ← client_pull d; of_tool (is_limited size); read_bytes

  unfoldable pub pull_as : Option Encoding → Download → Action Pulled
  unfolding spool read_copy
  pull_as none d = of_tool tool_error
  pull_as (some e) d = do
    spool []
    data_read ← finally_unlink (read_copy d)
    of_tool (content e data_read)

  -- Tools.pull: `d` is how the daemon answers the request of the file.
  unfoldable pub pull : Text → Download → Action Pulled
  pull encoding d = pull_as (encoding_named encoding) d

  -- The content in a temporary file, which the client sends.
  unfoldable pub send_content : Reply ℕ → Bytes → Action ℕ
  unfolding spool client_push
  send_content r bytes = do spool bytes; finally_unlink (client_push r)

  abbrev pub limited : Tool Bytes → Tool Bytes
  limited tool_error = tool_error
  limited (answers bytes) = if ltb max_push (length bytes) then tool_error else answers bytes

  -- The content of a push: exactly one of the two. `encode` is str.encode.
  unfoldable pub push_content : (Text → Bytes) → Option Text → Option Text → Tool Bytes
  unfolding decode
  push_content encode (some t) none = answers (encode t)
  push_content encode none (some c) = decode c max_push
  push_content encode (some t) (some c) = tool_error
  push_content encode none none = tool_error

  -- Tools.push
  unfoldable pub push : (Text → Bytes) → Option Text → Option Text → Reply ℕ → Action ℕ
  unfolding push_content
  push encode text base64 r = of_tool (limited (push_content encode text base64)) >>= send_content r

  -- Tools.install, with the number that stands for the client's output.
  unfoldable pub install : Text → Reply ℕ → Action ℕ
  unfolding decode
  install apk r = of_tool (decode apk max_push) >>= send_content r

-- _text, with the bytes that are shown and the number of those that are not.
unfoldable pub shown : Bytes → ℕ → Bytes × Option ℕ
shown bytes limit =
    (take limit bytes, if ltb limit (length bytes) then some (length bytes - limit) else none)

pub record ShellReply : Type 0 where
  pub exit_code : ℤ
  pub stdout : Bytes
  pub stderr : Bytes

pub data ShellAnswer : Type 0 where
  -- The output alone, for status 0 without error output.
  output : Bytes × Option ℕ → ShellAnswer
  report : ℤ → Bytes × Option ℕ → Bytes × Option ℕ → ShellAnswer

abbrev pub is_empty_bytes : Bytes → Bool
is_empty_bytes [] = true
is_empty_bytes (b ∷ bs) = false

-- Tools.shell
unfoldable pub shell : ShellReply → ShellAnswer
unfolding shown
shell r =
    if is_zero_ℤ r.exit_code && is_empty_bytes r.stderr
    then output (shown r.stdout max_shell_output)
    else report r.exit_code (shown r.stdout max_shell_output) (shown r.stderr max_shell_output)
