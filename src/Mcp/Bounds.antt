-- ===== src/Mcp/Bounds.antt =====
-- What a tool may bring into the context of an agent, and its temporary files (mcp_server.py:
-- Tools.pull, push, install).
use android_appliance.Base.{
  ℕ, ◌≤◌, ◌≡◌, Option, none, some, true, false, List, [], ◌∷◌, ◌++◌, length,
}
use android_appliance.Base.Text.{Text}
use android_appliance.Mcp.Spool.{
  Bytes, Tool, tool_error, answers, Download, refused, streams, Spool, no_spool, of_tool,
  finally_unlink, ◌>>=◌, ◌>>◌, read_bytes,
}
use android_appliance.Mcp.Tools.{
  Encoding, Pulled, text_content, binary_content, base64_content, content, is_limited, max_pull,
  max_push,
}

abbrev pub concat : List Bytes → Bytes
concat [] = []
concat (c ∷ cs) = c ++ concat cs

-- The file that the daemon has, if it answers with all of it.
abbrev pub whole : Download → Option Bytes
whole refused = none
whole (streams chunks true) = none
whole (streams chunks false) = some (concat chunks)

-- No message holds more than the limit of a push.
abbrev pub IsSmall : List Bytes → Type 0
IsSmall [] = Unit
IsSmall (bytes ∷ rest) = (length bytes ≤ max_push) × IsSmall rest

abbrev OnAnswer : {A : Type 0} → (A → Type 0) → Tool A → Type 0
OnAnswer P tool_error = Unit
OnAnswer P (answers a) = P a

module _ (decode_base64 : Text → Option Bytes) (decode_text : Bytes → Option Text) where
  -- What an agent gets of a file is the file, at most 8 MiB of it.
  abbrev pub IsOf : Option Bytes → Tool Pulled → Type 0
  IsOf o tool_error = Unit
  IsOf none (answers p) = ⊥
  IsOf (some bytes) (answers (text_content t)) =
      (decode_text bytes ≡ some t) × (length bytes ≤ max_pull)
  IsOf (some bytes) (answers (binary_content b)) =
      (b ≡ bytes) × (decode_text bytes ≡ none) × (length bytes ≤ max_pull)
  IsOf (some bytes) (answers (base64_content b)) = (b ≡ bytes) × (length bytes ≤ max_pull)

  -- What the agent and the file system get of a copy that ended like this.
  abbrev finish : Encoding → Tool Bytes × Spool → Tool Pulled × Spool
  finish e w =
      (finally_unlink (λ _. w) >>= λ bytes. of_tool (content decode_base64 decode_text e bytes))
        no_spool

  -- A copy that is read gives the file, within the limit, or an error, and has sent nothing.
  abbrev IsCopy : Option Bytes → Tool Bytes × Spool → Type 0
  IsCopy o (tool_error, s) = s.sent ≡ []
  IsCopy none (answers bytes, s) = ⊥
  IsCopy (some b) (answers bytes, s) = (bytes ≡ b) × (length bytes ≤ max_pull) × (s.sent ≡ [])

  -- The rest of the copy after the client's pull.
  abbrev check_copy : Tool ℕ × Spool → Tool Bytes × Spool
  unfolding read_bytes
  check_copy w =
      ((λ (_ : Spool). w) >>= λ size.
      of_tool (is_limited decode_base64 decode_text size) >> read_bytes)
        no_spool
