-- ===== src/Mcp/Spool.antt =====
-- The temporary file of a tool (mcp_server.py: _spool and the `finally` of pull, push and install) and
-- the client's transfers to and from it (client.py: Client.pull, push, install). An error leaves the
-- file as it is then. What the daemon answers comes as a value.
use android_appliance.Base.{
  ℕ, ◌+◌, Option, none, some, Bool, List, [], ◌∷◌, ◌++◌, if◌then◌else◌, length,
}

abbrev pub Bytes : Type 0
Bytes = List ℕ

-- The result of a tool, or the ToolError that the agent reads.
pub data Tool (A : Type 0) : Type 0 where
  tool_error : Tool A
  answers : A → Tool A

-- The client's answer, or its error.
pub data Reply (A : Type 0) : Type 0 where
  client_error : Reply A
  replies : A → Reply A

-- How the daemon answers the request of a file: with an error, or with a body in chunks, which may
-- break off.
pub data Download : Type 0 where
  refused : Download
  streams : List Bytes → Bool → Download

-- The temporary file, if there is one, and what the client has sent.
pub record Spool : Type 0 where
  pub file : Option Bytes
  pub sent : List Bytes

abbrev pub no_spool : Spool
no_spool = record { file = none; sent = [] }

abbrev pub Action : Type 0 → Type 0
Action A = Spool → Tool A × Spool

module _ {A : Type 0} where
  abbrev pub of_tool : Tool A → Action A
  of_tool t s = (t, s)

  -- The client's error becomes the tool's.
  abbrev pub of_reply : Reply A → Action A
  of_reply client_error s = (tool_error, s)
  of_reply (replies a) s = (answers a, s)

  -- try: m finally: local.unlink(missing_ok=True)
  abbrev pub finally_unlink : Action A → Action A
  finally_unlink m s = let (r, s') = m s in (r, record s' { file = none })

infixl 5 ◌>>=◌ ◌>>◌
abbrev pub ◌>>=◌ : {A B : Type 0} → Action A → (A → Action B) → Action B
◌>>=◌ m f s = let (r, s') = m s in elim r [ answers a ↦ f a s' | tool_error ↦ (tool_error, s') ]

abbrev pub ◌>>◌ : {A B : Type 0} → Action A → Action B → Action B
m >> k = m >>= λ _. k

-- _spool
unfoldable pub spool : Bytes → Action (Unit {0})
spool content s = (answers tt, record s { file = some content })

-- local.read_bytes(), an error where there is no file.
abbrev pub bytes_of : Option Bytes → Tool Bytes
bytes_of none = tool_error
bytes_of (some bytes) = answers bytes

unfoldable pub read_bytes : Action Bytes
read_bytes s = (bytes_of s.file, s)

-- The chunks of a body, each written after the last and its length added to the size.
abbrev pub write_chunks : List Bytes → Bytes × ℕ → Bytes × ℕ
write_chunks [] w = w
write_chunks (c ∷ cs) w = write_chunks cs (w.0 ++ c, w.1 + length c)

-- Client.pull: the size of what was written into the local file.
unfoldable pub client_pull : Download → Action ℕ
client_pull refused s = (tool_error, s)
client_pull (streams chunks breaks) s =
    let written = write_chunks chunks ([], 0) in
    (if breaks then tool_error else answers written.1, record s { file = some written.0 })

-- Client.push and Client.install: the local file is the body of the request.
abbrev pub upload : {A : Type 0} → Reply A → Option Bytes → Action A
upload r none s = (tool_error, s)
upload r (some body) s = of_reply r (record s { sent = s.sent ++ body ∷ [] })

unfoldable pub client_push : {A : Type 0} → Reply A → Action A
client_push r s = upload r s.file s
