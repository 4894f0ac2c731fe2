-- ===== src/Tests/Caches.antt =====
-- The state file at concrete inputs.
use awsbnkctl.Base.{◌≡◌, refl, String, true, false, [], ◌∷◌, all, split, trim_space, cut}
use awsbnkctl.Cache.{
  Entries, State, loaded, failed, malformed, missing, contents, FileSystem, load_file, load_lines,
  load_line, scan_lines, drop_last_empty, drop_return, file_text, entry_text, get, save, save_run,
  finish_save, Disk, set,
}
use awsbnkctl.Cache.Errors.{is_good, is_loaded, load_file_iff}
use awsbnkctl.Cache.RoundTrip.{load_file-save}

abbrev pub network_ids : State
network_ids = record {
  dir = ".awsbnkctl/syd";
  entries = ("VPC_ID", "vpc-1") ∷ ("IGW_ID", "igw-2") ∷ [];
  read_only = false;
}

abbrev pub good_disk : FileSystem
good_disk = record {
  makes_directory = true;
  creates = true;
  written = λ t. t;
  closes = true;
  renames = true;
  removes = true;
}

abbrev pub bad_disk : FileSystem
bad_disk = record {
  makes_directory = true;
  creates = true;
  written = λ t. t;
  closes = true;
  renames = false;
  removes = true;
}

abbrev pub at_noon : String
at_noon = "2026-05-23T12:00:00Z"

abbrev reversed : Entries → Entries
reversed [] = []
reversed (x ∷ []) = x ∷ []
reversed (x ∷ y ∷ es) = y ∷ x ∷ es

loaded_ids :
    load_file "d" (contents "# ids\n\n VPC_ID=vpc-1 \r\nARN=a=b")
    ≡ loaded (record {
      dir = "d";
      entries = ("VPC_ID", "vpc-1") ∷ ("ARN", "a=b") ∷ [];
      read_only = false;
    })
unfolding load_file load_lines load_line scan_lines drop_last_empty drop_return split trim_space cut
loaded_ids = refl

-- A value with an end of line in it is written, and the file is refused from then on.
broken_value :
    load_file "d" (contents (file_text at_noon (set "NOTE" "two\nlines" network_ids).entries))
    ≡ failed (malformed 5 "lines")
unfolding load_file load_lines load_line scan_lines drop_last_empty drop_return set file_text
    entry_text split trim_space cut
broken_value = refl

load_file_iff_example :
    is_loaded (load_file "d" (contents "A=1\n=2\n")) ≡ all is_good (scan_lines "A=1\n=2\n")
load_file_iff_example = load_file_iff "d" "A=1\n=2\n"

abbrev no_files : Disk
no_files = record { env = missing; temp = missing }

-- A rename that fails.
temp_removed : (save_run bad_disk at_noon reversed network_ids no_files).disk ≡ no_files
unfolding save_run finish_save
temp_removed = refl

load_file-save_example :
    (t : State) × (load_file ".awsbnkctl/syd"
        ((save good_disk at_noon (λ es. es) network_ids no_files).0.env)
      ≡ loaded t)
    × ((key : String) → get t key ≡ get network_ids key)
unfolding drop_return trim_space
load_file-save_example =
    load_file-save good_disk at_noon (λ es. es) network_ids no_files refl refl refl refl refl
      (λ t. refl) (refl, refl) ((refl, (refl, tt)), λ key. refl)
      ((refl, refl, refl, refl, refl, refl), ((refl, refl, refl, refl, refl, refl), tt))
