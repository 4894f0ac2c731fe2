-- ===== src/Cache.antt =====
-- internal/aws/state/state.go: the file of resource ids, state.env. A Go map is an association list
-- in which a key stands once; a path is not modelled, the texts of the file and of the temporary one
-- are.
pub mod Lines
pub mod Comments
pub mod RoundTrip
pub mod Saving
pub mod Recorded
pub mod Errors
use Prim.Native.Char.{code}
use Prim.Native.String
use Prim.Native.String.{len}
use awsbnkctl.Base.{
  ℕ, suc, ◌≡◌, String, Bool, true, false, ◌||◌, ◌&&◌, Option, none, some, List, [], ◌∷◌, ◌++◌, map,
  lookup, insert, is_empty, cut, split, trim_space, ltb, ◌==◌, not, ◌^◌, if◌then◌else◌,
}

abbrev pub Entries : Type 0
Entries = List (String × String)

pub record State : Type 0 where
  pub dir : String
  pub entries : Entries
  pub read_only : Bool

pub data LoadError : Type 0 where
  opening : LoadError
  malformed : ℕ → String → LoadError
  reading : LoadError

pub data Loading : Type 0 where
  loaded : State → Loading
  failed : LoadError → Loading

-- What os.Open gives.
pub data Opened : Type 0 where
  missing : Opened
  refused : Opened
  contents : String → Opened

-- bufio.ScanLines: a carriage return before the line's end is dropped, and nothing stands behind the
-- last end of a line.
unfoldable pub drop_return : String → String
drop_return String.[] = ""
drop_return (String.◌∷◌ c s) =
    let rest = drop_return s in if code c == 13 && is_empty s then "" else String.◌∷◌ c rest

unfoldable pub drop_last_empty : List String → List String
drop_last_empty [] = []
drop_last_empty (p ∷ []) = if is_empty p then [] else p ∷ []
drop_last_empty (p ∷ q ∷ ps) = p ∷ drop_last_empty (q ∷ ps)

unfoldable pub scan_lines : String → List String
scan_lines text = drop_last_empty (split 10 text)

-- bufio.MaxScanTokenSize; a line that does not fit stops the scanner with an error.
abbrev pub max_scan_token_size : ℕ
max_scan_token_size = 2 ^ 16

abbrev pub starts_hash : String → Bool
starts_hash String.[] = false
starts_hash (String.◌∷◌ c s) = code c == b'#'

abbrev pub store_pair :
    ℕ → String → Option (String × String) → (Entries → Loading) → Entries → Loading
store_pair n line none next m = failed (malformed n line)
store_pair n line (some (key, val)) next m =
    if is_empty key then failed (malformed n line) else next (insert key val m)

-- One line of the loop, with the rest of the loop.
unfoldable pub load_line : ℕ → String → (Entries → Loading) → Entries → Loading
load_line n line next m =
    if is_empty line || starts_hash line then next m else store_pair n line (cut b'=' line) next m

unfoldable pub load_lines : String → ℕ → List String → Entries → Loading
load_lines dir n [] m = loaded (record { dir = dir; entries = m; read_only = false })
load_lines dir n (l ∷ ls) m =
    let next = load_lines dir (suc n) ls in
    if ltb (len l) max_scan_token_size
    then load_line (suc n) (trim_space (drop_return l)) next m
    else failed reading

-- Load
unfoldable pub load_file : String → Opened → Loading
load_file dir missing = loaded (record { dir = dir; entries = []; read_only = false })
load_file dir refused = failed opening
load_file dir (contents text) = load_lines dir 0 (scan_lines text) []

abbrev value_or_empty : Option String → String
value_or_empty none = ""
value_or_empty (some v) = v

unfoldable pub get : State → String → String
get s key = value_or_empty (lookup key s.entries)

unfoldable pub set : String → String → State → State
set key value s = record s { entries = insert key value s.entries }

unfoldable pub mark_read_only : State → State
mark_read_only s = record s { read_only = true }

abbrev pub header_line : String → String
header_line stamp =
    String.◌++◌ "# Generated by awsbnkctl on " (String.◌++◌ stamp " — do not edit by hand")

abbrev pub entry_line : String → String → String
entry_line k v = String.◌++◌ k (String.◌++◌ "=" v)

unfoldable pub entry_text : Entries → String
entry_text [] = ""
entry_text ((k, v) ∷ es) = String.◌++◌ (entry_line k v) (String.◌++◌ "\n" (entry_text es))

-- The text that Save writes; `es` are the entries in the order in which Go visits the map.
unfoldable pub file_text : String → Entries → String
file_text stamp es = String.◌++◌ (header_line stamp) (String.◌++◌ "\n" (entry_text es))

-- What the file system does: whether a call succeeds, and what of the text arrives in the temporary
-- file, since Save does not look at the results of its writes.
pub record FileSystem : Type 0 where
  pub makes_directory : Bool
  pub creates : Bool
  pub written : String → String
  pub closes : Bool
  pub renames : Bool
  pub removes : Bool

pub data SaveError : Type 0 where
  mkdir_failed create_failed close_failed rename_failed : SaveError

-- state.env, and state.env.tmp beside it.
pub record Disk : Type 0 where
  pub env : Opened
  pub temp : Opened

-- os.Create, which truncates; the writes; os.Rename; os.Remove, whose error is ignored.
abbrev pub create_temp : Disk → Disk
create_temp d = record d { temp = contents "" }

abbrev pub write_temp : String → Disk → Disk
write_temp text d = record d { temp = contents text }

abbrev pub rename_temp : Disk → Disk
rename_temp d = record { env = d.temp; temp = missing }

abbrev pub remove_temp : FileSystem → Disk → Disk
remove_temp fs d = if fs.removes then record d { temp = missing } else d

-- A run of Save: the disks that it goes through, the last one, and the error.
pub record SaveRun : Type 0 where
  pub visited : List Disk
  pub disk : Disk
  pub error : Option SaveError

abbrev pub run_of : List Disk → Disk → Option SaveError → SaveRun
run_of before d e = record { visited = before ++ (d ∷ []); disk = d; error = e }

-- Close and Rename, when the text is in the temporary file.
unfoldable pub finish_save : FileSystem → List Disk → Disk → SaveRun
finish_save fs before d =
    if not fs.closes
    then run_of (before ++ (d ∷ [])) (remove_temp fs d) (some close_failed)
    else if not fs.renames
    then run_of (before ++ (d ∷ [])) (remove_temp fs d) (some rename_failed)
    else run_of (before ++ (d ∷ [])) (rename_temp d) none

unfoldable pub save_run :
    FileSystem → (stamp : String) → (order : Entries → Entries) → State → Disk → SaveRun
unfolding finish_save
save_run fs stamp order s d =
    if s.read_only
    then run_of [] d none
    else if not fs.makes_directory
    then run_of [] d (some mkdir_failed)
    else if not fs.creates
    then run_of [] d (some create_failed)
    else finish_save fs (d ∷ create_temp d ∷ [])
        (write_temp (fs.written (file_text stamp (order s.entries))) (create_temp d))

-- Save: the disk afterwards, and the error.
unfoldable pub save :
    FileSystem → String → (Entries → Entries) → State → Disk → Disk × Option SaveError
unfolding save_run
save fs stamp order s d = let run = save_run fs stamp order s d in (run.disk, run.error)
