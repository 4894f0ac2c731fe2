-- ===== src/Net/Ip4.antt =====
-- Dotted decimal addresses: netip.parseIPv4Fields.
pub mod Bytes
use awsbnkctl.Base.{
  ℕ, ◌+◌, ◌-◌, ◌*◌, ◌||◌, Option, none, some, List, [], ◌∷◌, ◌++◌, ltb, ◌&&◌, ◌==◌, if◌then◌else◌,
  is_digit, length, null,
}

-- `val` is the octet read so far and `dig_len` its digits; `fields` are the finished octets.
unfoldable pub fields_v4 : List ℕ → ℕ → ℕ → List ℕ → Option (List ℕ)
fields_v4 [] val dig_len fields = if ltb (length fields) 3 then none else some (fields ++ val ∷ [])
fields_v4 (c ∷ s) val dig_len fields =
    let digit = fields_v4 s (val * 10 + (c - b'0')) (dig_len + 1) fields in
    let next = fields_v4 s 0 0 (fields ++ val ∷ []) in
    if is_digit c
    then (if dig_len == 1 && val == 0
        then none
        else if ltb 255 (val * 10 + (c - b'0'))
        then none
        else digit)
    else if c == b'.'
    then (if dig_len == 0 || null s || length fields == 3 then none else next)
    else none

unfoldable pub parse_v4 : List ℕ → Option (List ℕ)
unfolding fields_v4
parse_v4 s = fields_v4 s 0 0 []
