-- ===== src/Api/Body.antt =====
-- The bodies and parameters of requests (api.py: _read, _save, _query_int, _clean, _is_text,
-- Api._upload_limit). A body is the list of its chunks, each a list of bytes.
use android_appliance.Base.{
  ℕ, ◌+◌, ◌-◌, ◌*◌, min, Option, none, some, Bool, true, false, ◌&&◌, List, [], ◌∷◌, ◌++◌, ◌==◌,
  ltb, leb, if◌then◌else◌, any, length,
}
use android_appliance.Base.Text.{
  Text, codes, text_eq, contains, strip, is_empty_text, is_number, int_of,
}
use android_appliance.Api.Gate.{header_or_empty}

-- What a handler's step gives: an error that _handle turns into a response, or a value. A
-- `value_error` is no ApiError: its response is the one for an internal error.
pub data Outcome (A : Type 0) : Type 0 where
  bad_request too_large value_error : Outcome A
  gives : A → Outcome A

abbrev pub joined : List (List ℕ) → List ℕ
joined [] = []
joined (chunk ∷ chunks) = chunk ++ joined chunks

-- _read, with the bytes that are there already.
unfoldable pub read_from : ℕ → List ℕ → List (List ℕ) → Outcome (List ℕ)
read_from limit data_read [] = gives data_read
read_from limit data_read (chunk ∷ chunks) =
    let now = data_read ++ chunk in
    let rest = read_from limit now chunks in if ltb limit (length now) then bad_request else rest

abbrev pub read_body : ℕ → List (List ℕ) → Outcome (List ℕ)
read_body limit chunks = read_from limit [] chunks

-- The loop of _save: the bytes in the file, and the size or the error.
unfoldable pub save_from : ℕ → ℕ → List ℕ → List (List ℕ) → List ℕ × Outcome ℕ
save_from limit size written [] = (written, gives size)
save_from limit size written (chunk ∷ chunks) =
    let now = size + length chunk in
    let rest = save_from limit now (written ++ chunk) chunks in
    if ltb limit now then (written, too_large) else rest

-- The test on the declared size, which a request may leave out.
abbrev pub save_declared : ℕ → Bool → Option ℕ → List (List ℕ) → List ℕ × Outcome ℕ
save_declared limit false declared chunks = save_from limit 0 [] chunks
save_declared limit true none chunks = ([], value_error)
save_declared limit true (some n) chunks =
    if ltb limit n then ([], too_large) else save_from limit 0 [] chunks

-- _save with the header Content-Length.
unfoldable pub save : ℕ → Option Text → List (List ℕ) → List ℕ × Outcome ℕ
save limit header chunks =
    let declared = header_or_empty header in
    save_declared limit (is_number declared) (int_of declared) chunks

abbrev pub mebibyte : ℕ
mebibyte = 1024 * 1024

abbrev pub disk_reserve : ℕ
disk_reserve = 1024 * mebibyte

-- max(0, min(max_upload, free - DISK_RESERVE))
unfoldable pub upload_limit : ℕ → ℕ → ℕ
upload_limit max_upload_mib free =
    if leb disk_reserve free then min (max_upload_mib * mebibyte) (free - disk_reserve) else 0

abbrev pub between : ℕ → ℕ → Option ℕ → Outcome ℕ
between low high none = value_error
between low high (some n) = if leb low n && leb n high then gives n else bad_request

abbrev pub query_value : Text → ℕ → ℕ → ℕ → Outcome ℕ
query_value raw default low high =
    if is_empty_text raw
    then gives default
    else if is_number raw
    then between low high (int_of raw)
    else bad_request

-- _query_int
unfoldable pub query_int : Option Text → ℕ → ℕ → ℕ → Outcome ℕ
query_int none default low high = gives default
query_int (some raw) default low high = query_value raw default low high

-- A lone surrogate has no UTF-8 form.
abbrev pub is_surrogate : ℕ → Bool
is_surrogate c = leb 55296 c && leb c 57343

unfoldable pub clean : Text → Outcome Text
clean value =
    if contains 0 value
    then bad_request
    else if any is_surrogate value
    then bad_request
    else gives value

abbrev pub before_semicolon : Text → Text
before_semicolon [] = []
before_semicolon (c ∷ s) = let rest = before_semicolon s in if c == b';' then [] else c ∷ rest

-- _is_text, by the header Content-Type.
unfoldable pub is_text : Option Text → Bool
is_text header = text_eq (strip (before_semicolon (header_or_empty header))) (codes "text/plain")
