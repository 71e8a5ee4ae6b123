-- ===== src/Api/Bounds.antt =====
-- What a request can make the daemon hold in memory and on the disk.
use android_appliance.Base.{
  ℕ, ◌+◌, ◌*◌, ◌≤◌, Option, none, some, Bool, true, false, ◌&&◌, List, [], ◌∷◌, ◌++◌, ltb, leb,
  if◌then◌else◌, length, ◌≡◌, refl, sym, ap, ◌⊎◌, inl, inr, arith, length-append, Bool-cases,
  append_assoc, append_nil,
}
use android_appliance.Base.Text.{Text, is_number, int_of}
use android_appliance.Api.Gate.{header_or_empty}
use android_appliance.Api.Body.{
  Outcome, bad_request, too_large, value_error, gives, joined, read_from, read_body, save_from,
  save_declared, save, mebibyte, disk_reserve, upload_limit, query_int, between,
}

joined-length_le :
    (acc chunk : List ℕ) (chunks : List (List ℕ))
    → length (acc ++ chunk) ≤ length (acc ++ joined (chunk ∷ chunks))
joined-length_le acc chunk chunks = omega (
  arith,
  length-append acc chunk,
  length-append acc (joined (chunk ∷ chunks)),
  length-append chunk (joined chunks),
)

read_from_lem :
    (limit : ℕ) (acc : List ℕ) (chunks : List (List ℕ))
    → length acc ≤ limit
    → read_from limit acc chunks ≡ (
        if leb (length (acc ++ joined chunks)) limit
        then gives (acc ++ joined chunks)
        else bad_request)
unfolding read_from
read_from_lem limit acc [] h = rw (append_nil acc) (ground arith)
read_from_lem limit acc (chunk ∷ chunks) h = elim (Bool-cases (ltb limit (length (acc ++ chunk)))) [
  | inl over ↦ ground (arith, joined-length_le acc chunk chunks)
  | inr fits ↦
      rw
        (
          fits,
          read_from_lem limit (acc ++ chunk) chunks (ground arith),
          append_assoc acc chunk (joined chunks),
        )
        refl
]

-- A body is read whole if all its chunks together are within the limit, and refused if not, however
-- it is cut into chunks.
read_body_lem :
    (limit : ℕ) (chunks : List (List ℕ))
    → read_body limit chunks
      ≡ (if leb (length (joined chunks)) limit then gives (joined chunks) else bad_request)
read_body_lem limit chunks = read_from_lem limit [] chunks (omega arith)

save_from_lem :
    (limit size : ℕ) (acc : List ℕ) (chunks : List (List ℕ))
    → size ≡ length acc
    → size ≤ limit
    → (length (save_from limit size acc chunks).0 ≤ limit)
      × (((save_from limit size acc chunks
              ≡ (acc ++ joined chunks, gives (length (acc ++ joined chunks))))
            × (leb (length (acc ++ joined chunks)) limit ≡ true))
          ⊎ (((save_from limit size acc chunks).1 ≡ too_large)
              × (leb (length (acc ++ joined chunks)) limit ≡ false)))
unfolding save_from
save_from_lem limit size acc [] e h =
    (ground arith, inl (rw (append_nil acc, e) refl, rw (append_nil acc) (ground arith)))
save_from_lem limit size acc (chunk ∷ chunks) e h =
    let rec =
      save_from_lem limit (size + length chunk) (acc ++ chunk) chunks
        (omega (arith, length-append acc chunk)) in
    elim (Bool-cases (ltb limit (size + length chunk))) [
      | inl over ↦ rw over (
        ground arith,
        inr (refl, ground (arith, joined-length_le acc chunk chunks, length-append acc chunk)),
      )
      | inr fits ↦ rw (fits, sym (append_assoc acc chunk (joined chunks))) (rec (ground arith))
    ]

-- Whether the header declares no more than the limit, if it declares anything.
abbrev pub declares_within : ℕ → Bool → Option ℕ → Bool
declares_within limit false declared = true
declares_within limit true none = false
declares_within limit true (some n) = leb n limit

abbrev pub fits : ℕ → Option Text → List (List ℕ) → Bool
fits limit header chunks =
    let declared = header_or_empty header in
    declares_within limit (is_number declared) (int_of declared)
    && leb (length (joined chunks)) limit

upload_limit_le :
    (max_upload_mib free : ℕ)
    → (upload_limit max_upload_mib free ≤ max_upload_mib * mebibyte)
      × ((upload_limit max_upload_mib free ≡ 0)
          ⊎ (upload_limit max_upload_mib free + disk_reserve ≤ free))
unfolding upload_limit
upload_limit_le max_upload_mib free = (ground arith, ground arith)

-- What saving does in terms of the whole upload and a test on it.
abbrev pub SavesIf : Bool → List (List ℕ) → List ℕ × Outcome ℕ → Type 0
SavesIf test chunks saved =
    ((saved ≡ (joined chunks, gives (length (joined chunks)))) × (test ≡ true))
    ⊎ (((saved.1 ≡ too_large) ⊎ (saved.1 ≡ value_error)) × (test ≡ false))

save_from-SavesIf :
    (limit : ℕ) (chunks : List (List ℕ))
    → (length (save_from limit 0 [] chunks).0 ≤ limit)
      × SavesIf (leb (length (joined chunks)) limit) chunks (save_from limit 0 [] chunks)
save_from-SavesIf limit chunks =
    let rec = save_from_lem limit 0 [] chunks refl (omega arith) in
    (rec.0, elim rec.1 [ inl k ↦ inl k | inr k ↦ inr (inl k.0, k.1) ])

save_declared-SavesIf :
    (limit : ℕ) (given : Bool) (declared : Option ℕ) (chunks : List (List ℕ))
    → (length (save_declared limit given declared chunks).0 ≤ limit)
      × SavesIf
          (declares_within limit given declared && leb (length (joined chunks)) limit)
          chunks
          (save_declared limit given declared chunks)
save_declared-SavesIf limit false declared chunks = save_from-SavesIf limit chunks
save_declared-SavesIf limit true none chunks = (omega arith, inr (inr refl, refl))
save_declared-SavesIf limit true (some n) chunks = elim (Bool-cases (ltb limit n)) [
  | inl over ↦ rw over (omega arith, inr (inl refl, ground arith))
  | inr less ↦
      let within : leb n limit ≡ true = ground arith in
      rw (less, within) (save_from-SavesIf limit chunks)
]

-- An upload takes no more of the disk than the configured maximum, and it leaves the reserve free
-- unless it writes nothing. It is stored whole, with its size as the answer, exactly if it and the
-- size that its header declares are within the limit; else the handler gives an error.
pub save-reserve :
    (max_upload_mib free : ℕ) (header : Option Text) (chunks : List (List ℕ))
    → let limit = upload_limit max_upload_mib free in
      let stored = (save limit header chunks).0 in
      (length stored ≤ max_upload_mib * mebibyte)
      × ((length stored ≡ 0) ⊎ (length stored + disk_reserve ≤ free))
      × SavesIf (fits limit header chunks) chunks (save limit header chunks)
unfolding save
save-reserve max_upload_mib free header chunks =
    let d = header_or_empty header in
    let s =
      save_declared-SavesIf (upload_limit max_upload_mib free) (is_number d) (int_of d) chunks in
    let b = upload_limit_le max_upload_mib free in
    (omega (arith, s.0, b.0), ground (arith, s.0, b.1), s.1)

query_number-between :
    (given : Bool) (value : Option ℕ) (low high n : ℕ)
    → (if given then between low high value else bad_request) ≡ gives n
    → (low ≤ n) × (n ≤ high)
query_number-between false value low high n h = ground arith
query_number-between true none low high n h = ground arith
query_number-between true (some m) low high n h = ground arith

-- A number of a query is the default or lies between its bounds.
pub query_int-between :
    (raw : Option Text) (default low high n : ℕ)
    → query_int raw default low high ≡ gives n
    → (n ≡ default) ⊎ ((low ≤ n) × (n ≤ high))
unfolding query_int
query_int-between none default low high n h = inl cc
query_int-between (some []) default low high n h = inl cc
query_int-between (some (c ∷ raw)) default low high n h =
    inr (query_number-between (is_number (c ∷ raw)) (int_of (c ∷ raw)) low high n h)

saved_size :
    (limit : ℕ) (test : Bool) (chunks : List (List ℕ)) (saved : List ℕ × Outcome ℕ) (size : ℕ)
    → SavesIf test chunks saved
    → length (saved.0) ≤ limit
    → saved.1 ≡ gives size
    → (length (saved.0) ≡ size) × (size ≤ limit)
saved_size limit test chunks (stored, o) size (inl (e, k)) b h =
    let bytes : stored ≡ joined chunks = ap (λ q. q.0) e in
    let told : o ≡ gives (length (joined chunks)) = ap (λ q. q.1) e in
    let same : length stored ≡ size = cc in (same, ground arith)
saved_size limit test chunks (stored, o) size (inr (inl e, k)) b h = cc
saved_size limit test chunks (stored, o) size (inr (inr e, k)) b h = cc

-- The size of an upload that is taken is that of the stored bytes.
pub save-length :
    (limit : ℕ) (header : Option Text) (chunks : List (List ℕ)) (size : ℕ)
    → (save limit header chunks).1 ≡ gives size
    → (length (save limit header chunks).0 ≡ size) × (size ≤ limit)
unfolding save
save-length limit header chunks size h =
    let d = header_or_empty header in
    let s = save_declared-SavesIf limit (is_number d) (int_of d) chunks in
    saved_size limit _ chunks (save_declared limit (is_number d) (int_of d) chunks) size s.1 s.0 h
