-- ===== src/Cache/Errors.antt =====
-- Which files Load accepts.
use Prim.Native.String.{len}
use awsbnkctl.Base.{
  ℕ, suc, ◌≡◌, refl, ◌&&◌, Bool, true, false, none, some, String, Option, List, [], ◌∷◌, all, arith,
  insert, trim_space, is_empty, ltb, cut, ◌||◌, not,
}
use awsbnkctl.Cache.{
  Entries, Loading, loaded, failed, contents, load_file, load_lines, load_line, store_pair,
  scan_lines, drop_return, starts_hash, max_scan_token_size,
}

abbrev pub has_key : Option (String × String) → Bool
has_key none = false
has_key (some (k, v)) = not (is_empty k)

-- A line that is blank, a comment or an entry with a key.
abbrev pub is_entry_or_comment : String → Bool
is_entry_or_comment line = is_empty line || starts_hash line || has_key (cut b'=' line)

-- A line that fits the scanner, and is in order when it is trimmed.
abbrev pub is_good : String → Bool
is_good l = ltb (len l) max_scan_token_size && is_entry_or_comment (trim_space (drop_return l))

abbrev pub is_loaded : Loading → Bool
is_loaded (loaded s) = true
is_loaded (failed e) = false

store_pair_loads :
    (n : ℕ) (line : String) (p : Option (String × String)) (next : Entries → Loading) (m : Entries)
    (b : Bool)
    → ((m' : Entries) → is_loaded (next m') ≡ b)
    → is_loaded (store_pair n line p next m) ≡ (has_key p && b)
store_pair_loads n line none next m b h = refl
store_pair_loads n line (some (k, v)) next m b h = ground (arith, h (insert k v m))

load_line_loads :
    (n : ℕ) (line : String) (next : Entries → Loading) (m : Entries) (b : Bool)
    → ((m' : Entries) → is_loaded (next m') ≡ b)
    → is_loaded (load_line n line next m) ≡ (is_entry_or_comment line && b)
unfolding load_line
load_line_loads n line next m b h =
    ground (arith, h m, store_pair_loads n line (cut b'=' line) next m b h)

load_lines_loads :
    (dir : String) (n : ℕ) (ls : List String) (m : Entries)
    → is_loaded (load_lines dir n ls m) ≡ all is_good ls
unfolding load_lines
load_lines_loads dir n [] m = refl
load_lines_loads dir n (l ∷ ls) m = ground (
  arith,
  load_line_loads (suc n) (trim_space (drop_return l)) (load_lines dir (suc n) ls) m
      (all is_good ls) (load_lines_loads dir (suc n) ls),
)

-- A file is loaded without an error if and only if each of its lines is shorter than the scanner's
-- limit and, when trimmed, is blank, a comment or has a nonempty key in front of an equals sign.
pub load_file_iff :
    (dir text : String) → is_loaded (load_file dir (contents text)) ≡ all is_good (scan_lines text)
unfolding load_file
load_file_iff dir text = load_lines_loads dir 0 (scan_lines text) []
