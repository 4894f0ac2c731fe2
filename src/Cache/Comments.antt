-- ===== src/Cache/Comments.antt =====
-- A comment stays one when the scanner and the program have trimmed its line.
use Prim.Native.Char.{code}
use Prim.Native.String
use text.Mathlib.TextLemmas.{cons-append}
use awsbnkctl.Base.{◌≡◌, ap, arith, String, true, trim_space, trim_left, trim_right}
use awsbnkctl.Cache.{drop_return, starts_hash, header_line}

drop_return-starts_hash : (s : String) → starts_hash s ≡ true → starts_hash (drop_return s) ≡ true
unfolding drop_return
drop_return-starts_hash String.[] h = h
drop_return-starts_hash (String.◌∷◌ c s) h =
    let same : code c ≡ b'#' = ground arith in rw same (ground arith)

trim_right-starts_hash : (s : String) → starts_hash s ≡ true → starts_hash (trim_right s) ≡ true
unfolding trim_right
trim_right-starts_hash String.[] h = h
trim_right-starts_hash (String.◌∷◌ c s) h =
    let same : code c ≡ b'#' = ground arith in rw same (ground arith)

trim_left-starts_hash : (s : String) → starts_hash s ≡ true → starts_hash (trim_left s) ≡ true
unfolding trim_left
trim_left-starts_hash String.[] h = h
trim_left-starts_hash (String.◌∷◌ c s) h = let same : code c ≡ b'#' = ground arith in rw same h

-- A line that starts with # is a comment after it is trimmed.
pub comment_kept :
    (s : String) → starts_hash s ≡ true → starts_hash (trim_space (drop_return s)) ≡ true
unfolding trim_space
comment_kept s h =
    trim_right-starts_hash (trim_left (drop_return s))
      (trim_left-starts_hash (drop_return s) (drop_return-starts_hash s h))

pub header_starts : (stamp : String) → starts_hash (header_line stamp) ≡ true
header_starts stamp =
    ap starts_hash
      (cons-append "#" " Generated by awsbnkctl on " (String.◌++◌ stamp " — do not edit by hand"))
