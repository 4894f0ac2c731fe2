-- ===== src/Redact.antt =====
-- internal/exec/redact.go: the writer that replaces secrets in a stream. Bytes are numbers.
pub mod Split
pub mod Stream
use awsbnkctl.Base.{
  ℕ, zero, suc, ◌-◌, String, Bool, true, false, not, ◌&&◌, ◌||◌, Option, none, some, List, [], ◌∷◌,
  ◌++◌, codes, length, take, drop, null, ltb, leb, ◌==◌, if◌then◌else◌,
}

abbrev pub Bytes : Type 0
Bytes = List ℕ

unfoldable pub redact_marker : Bytes
redact_marker = codes "[REDACTED]"

-- What the underlying writer has received stands in `written`.
pub record Redactor : Type 0 where
  pub secrets : List Bytes
  pub max_len : ℕ
  pub buf : Bytes
  pub written : Bytes

unfoldable pub add_secrets : List Bytes → Redactor → Redactor
add_secrets [] r = r
add_secrets (s ∷ ss) r = add_secrets ss (
    if null s then r else record r {
      secrets = r.secrets ++ s ∷ [];
      max_len = if ltb r.max_len (length s) then length s else r.max_len;
    })

unfoldable pub new_redactor : List Bytes → Redactor
new_redactor secrets =
    add_secrets secrets (record { secrets = []; max_len = 0; buf = []; written = [] })

-- bytes.HasPrefix(bytes, s), which is also the test of the inner loop of scan at one position.
unfoldable pub starts_with : Bytes → Bytes → Bool
starts_with [] bytes = true
starts_with (x ∷ s) [] = false
starts_with (x ∷ s) (c ∷ bytes) = (x == c) && starts_with s bytes

-- The inner loop of scan: the length of the first secret that matches.
unfoldable pub first_match : List Bytes → Bytes → Option ℕ
first_match [] bytes = none
first_match (s ∷ ss) bytes = if starts_with s bytes then some (length s) else first_match ss bytes

unfoldable pub any_prefix : List Bytes → Bytes → Bool
any_prefix [] tail = false
any_prefix (s ∷ ss) tail =
    (ltb (length tail) (length s) && starts_with tail s) || any_prefix ss tail

unfoldable pub is_potential_prefix : List Bytes → Bytes → Bool
is_potential_prefix ss tail = if null tail then false else any_prefix ss tail

abbrev pub before : Bytes → Bytes × Bytes → Bytes × Bytes
before out r = (out ++ r.0, r.1)

-- The loop of scan, with the bytes of the last match that are still to be skipped.
unfoldable pub scan_from : List Bytes → Bool → ℕ → Bytes → Bytes × Bytes
scan_from ss final skip [] = ([], [])
scan_from ss final (suc n) (c ∷ bytes) = scan_from ss final n bytes
scan_from ss final zero (c ∷ bytes) = elim (first_match ss (c ∷ bytes)) [
  | some n ↦ before redact_marker (scan_from ss final (n - 1) bytes)
  | none ↦ elim (not final && is_potential_prefix ss (c ∷ bytes)) [
    | true ↦ ([], c ∷ bytes)
    | false ↦ before (c ∷ []) (scan_from ss final zero bytes)
  ]
]

unfoldable pub scan : List Bytes → Bytes → Bool → Bytes × Bytes
scan ss bytes final = scan_from ss final zero bytes

-- Write; `sink` says whether the underlying writer takes the bytes. The result is whether Write
-- returns without an error.
unfoldable pub write : (Bytes → Bool) → Bytes → Redactor → Redactor × Bool
write sink p r =
    let buf = r.buf ++ p in
    let hold = r.max_len - 1 in
    let n = length buf - hold in
    let scanned = scan r.secrets (take n buf) false in
    if null r.secrets
    then (if sink p then (record r { written = r.written ++ p }, true) else (r, false))
    else if leb (length buf) hold
    then (record r { buf = buf }, true)
    else if sink scanned.0
    then (record r { buf = scanned.1 ++ drop n buf; written = r.written ++ scanned.0 }, true)
    else (record r { buf = buf }, false)

unfoldable pub close : (Bytes → Bool) → Redactor → Redactor × Bool
close sink r =
    let out = (scan r.secrets r.buf true).0 in
    if null r.buf
    then (r, true)
    else if sink out
    then (record r { buf = []; written = r.written ++ out }, true)
    else (record r { buf = [] }, false)

-- A stream: the chunks are written one after the other, then the writer is closed.
unfoldable pub write_all : (Bytes → Bool) → List Bytes → Redactor → Redactor
write_all sink [] r = (close sink r).0
write_all sink (p ∷ ps) r = write_all sink ps (write sink p r).0
