-- ===== src/Cache/RoundTrip.antt =====
-- A state that is saved and loaded again.
use Prim.Native.Char.{Char}
use Prim.Native.String
use Prim.Native.String.{len}
use text.Mathlib.TextLemmas.{cons-append}
use awsbnkctl.Base.{
  ℕ, suc, ◌≡◌, refl, ◌∙◌, ap, arith, String, Bool, true, false, List, [], ◌∷◌, lookup, insert, All,
  is_empty, split, trim_space, ltb, ◌||◌, eq_iff, inl, inr, Bool-cases,
}
use awsbnkctl.Tags.{copy_into}
use awsbnkctl.Tags.Merging.{IsMap, lookup-copy_into, first_of-none}
use awsbnkctl.Cache.{
  Entries, State, loaded, contents, load_file, load_lines, load_line, scan_lines, drop_last_empty,
  drop_return, max_scan_token_size, starts_hash, entry_line, entry_text, header_line, file_text,
  get, Disk, FileSystem, save, save_run, finish_save,
}
use awsbnkctl.Cache.Lines.{is_free, scan_lines-line, cut-entry}
use awsbnkctl.Cache.Comments.{comment_kept, header_starts}

-- What stands on a line of the file as it is: an entry that the scanner reads back unchanged.
abbrev pub IsPlain : String × String → Type 0
IsPlain (k, v) =
    (is_empty k ≡ false)
    × (is_free b'=' k ≡ true)
    × (is_free 10 (entry_line k v) ≡ true)
    × (starts_hash (entry_line k v) ≡ false)
    × (trim_space (drop_return (entry_line k v)) ≡ entry_line k v)
    × (ltb (len (entry_line k v)) max_scan_token_size ≡ true)

scan_lines-nil : scan_lines "" ≡ []
unfolding scan_lines drop_last_empty split
scan_lines-nil = refl

abbrev has_char : String → Bool
has_char String.[] = false
has_char (String.◌∷◌ c s) = true

is_empty_cons : (c : Char) (s : String) → is_empty (String.◌∷◌ c s) ≡ false
is_empty_cons c s = elim (Bool-cases (is_empty (String.◌∷◌ c s))) [
  | inl e ↦ let bad : true ≡ false = ap has_char ((eq_iff (String.◌∷◌ c s) "").0 e) in cc
  | inr n ↦ n
]

or_true : (b : Bool) → (b || true) ≡ true
or_true b = ground arith

is_empty-entry_line : (k v : String) → is_empty k ≡ false → is_empty (entry_line k v) ≡ false
is_empty-entry_line String.[] v h = cc
is_empty-entry_line (String.◌∷◌ c k) v h =
    rw (cons-append c k (String.◌++◌ "=" v)) (is_empty_cons c (String.◌++◌ k (String.◌++◌ "=" v)))

load_lines-entry :
    (dir : String) (n : ℕ) (k v : String) (ls : List String) (m : Entries)
    → IsPlain (k, v)
    → load_lines dir n (entry_line k v ∷ ls) m ≡ load_lines dir (suc n) ls (insert k v m)
unfolding load_lines load_line
load_lines-entry dir n k v ls m (kept, bare, one, shown, trimmed, short) =
    rw (short, trimmed, is_empty-entry_line k v kept, shown, cut-entry k v bare, kept) refl

load_lines-entries :
    (dir : String) (n : ℕ) (es m : Entries)
    → All IsPlain es
    → load_lines dir n (scan_lines (entry_text es)) m
      ≡ loaded (record { dir = dir; entries = copy_into es m; read_only = false })
unfolding load_lines entry_text copy_into
load_lines-entries dir n [] m plain = rw scan_lines-nil refl
load_lines-entries dir n ((k, v) ∷ es) m (p, plain) =
    rw
      (
        scan_lines-line (entry_line k v) (entry_text es) p.2,
        load_lines-entry dir n k v (scan_lines (entry_text es)) m p,
      )
      (load_lines-entries dir (suc n) es (insert k v m) plain)

load_lines-comment :
    (dir : String) (n : ℕ) (l : String) (ls : List String) (m : Entries)
    → ltb (len l) max_scan_token_size ≡ true
    → starts_hash l ≡ true
    → load_lines dir n (l ∷ ls) m ≡ load_lines dir (suc n) ls m
unfolding load_lines load_line
load_lines-comment dir n l ls m short h =
    rw (short, comment_kept l h, or_true (is_empty (trim_space (drop_return l)))) refl

-- What stands between the first line and the end of the file does not matter to a stamp.
abbrev pub IsStamp : String → Type 0
IsStamp stamp =
    (is_free 10 (header_line stamp) ≡ true)
    × (ltb (len (header_line stamp)) max_scan_token_size ≡ true)

-- The text that is written for the entries in an order.
load_file-file_text :
    (dir stamp : String) (es : Entries)
    → IsStamp stamp
    → All IsPlain es
    → load_file dir (contents (file_text stamp es))
      ≡ loaded (record { dir = dir; entries = copy_into es []; read_only = false })
unfolding load_file file_text
load_file-file_text dir stamp es (one, short) plain =
    rw
      (
        scan_lines-line (header_line stamp) (entry_text es) one,
        load_lines-comment dir 0 (header_line stamp) (scan_lines (entry_text es)) [] short
            (header_starts stamp),
      )
      (load_lines-entries dir 1 es [] plain)

-- The entries that Save visits: each entry of the map once, in some order.
abbrev pub IsListing : Entries → Entries → Type 0
IsListing es m = IsMap es × ((key : String) → lookup key es ≡ lookup key m)

copied :
    (key : String) (es m : Entries) → IsListing es m → lookup key (copy_into es []) ≡ lookup key m
copied key es m (one, same) =
    lookup-copy_into key es [] one ∙ first_of-none (lookup key es) ∙ same key

-- When every step of Save succeeds and the whole text is written, a state that is not read-only and
-- whose entries are plain is loaded again from the file with the same value at every key; Save may
-- visit the entries in any order.
pub load_file-save :
    (fs : FileSystem) (stamp : String) (order : Entries → Entries) (s : State) (disk : Disk)
    → s.read_only ≡ false
    → fs.makes_directory ≡ true
    → fs.creates ≡ true
    → fs.closes ≡ true
    → fs.renames ≡ true
    → ((text : String) → fs.written text ≡ text)
    → IsStamp stamp
    → IsListing (order s.entries) s.entries
    → All IsPlain (order s.entries)
    → (t : State) × (load_file s.dir ((save fs stamp order s disk).0.env) ≡ loaded t)
      × ((key : String) → get t key ≡ get s key)
unfolding save save_run finish_save get
load_file-save fs stamp order s disk live d c l r w clock listed plain = (
  record { dir = s.dir; entries = copy_into (order s.entries) []; read_only = false },
  rw (live, d, c, l, r, w (file_text stamp (order s.entries)))
      (load_file-file_text s.dir stamp (order s.entries) clock plain),
  λ key. rw (copied key (order s.entries) s.entries listed) refl,
)
