-- ===== src/Heal.antt =====
-- internal/aws/phases/heal.go: RunHeal and DetectAll, over any table of repairs. A detector and a fix
-- are steps on the cluster and on the file of ids; they see what the run was given.
pub mod Doctor
pub mod Barred
pub mod Reports
use Prim.Native.String
use awsbnkctl.Base.{
  String, Bool, true, false, not, ◌&&◌, ◌||◌, List, [], ◌∷◌, ◌++◌, null, contains, if◌then◌else◌,
}

-- Whether a cluster, a state file and a log were given.
pub record HealDeps : Type 0 where
  pub has_cluster : Bool
  pub has_state : Bool
  pub dry_run : Bool
  pub has_log : Bool

pub data Detected : Type 0 where
  undetected : String → Detected
  detected : Bool → String → Detected

pub data Fixed : Type 0 where
  unfixed fixed : String → Fixed

pub record Repair (S : Type 0) : Type 0 where
  pub name : String
  pub title : String
  pub needs_intent : Bool
  pub detect : HealDeps → S → Detected × S
  pub fix : HealDeps → S → Fixed × S

pub record HealStatus : Type 0 where
  pub name : String
  pub title : String
  pub healthy : Bool
  pub changed : Bool
  pub skipped : Bool
  pub detail : String
  pub error : String

abbrev pub has_intent : HealDeps → Bool
has_intent d = d.has_cluster && d.has_state

-- `len(want) > 0 && !want[r.Name]` passes a repair over.
abbrev pub is_wanted : List String → String → Bool
is_wanted only name = null only || contains only name

-- A line of the log; without a log it is discarded.
abbrev pub log_line : HealDeps → (name text : String) → List String
log_line d name text =
    if d.has_log
    then String.◌++◌ "[heal] " (String.◌++◌ name (String.◌++◌ ": " (String.◌++◌ text "\n"))) ∷ []
    else []

-- The status, the lines of the log and the cluster behind a repair.
abbrev pub Healing : Type 0 → Type 0
Healing S = HealStatus × List String × S

abbrev pub Healings : Type 0 → Type 0
Healings S = List HealStatus × List String × S

module _ {S : Type 0} where
  abbrev pub status_of : Repair S → HealStatus
  status_of r = record {
    name = r.name;
    title = r.title;
    healthy = false;
    changed = false;
    skipped = false;
    detail = "";
    error = "";
  }

  abbrev pub after_fix : HealDeps → Repair S → String → Fixed × S → Healing S
  after_fix d r detail (unfixed e, s) =
      (record (status_of r) { detail = detail; error = e }, log_line d r.name detail, s)
  after_fix d r detail (fixed text, s) = (
    record (status_of r) { healthy = true; changed = true; detail = text },
    log_line d r.name detail ++ log_line d r.name text,
    s,
  )

  -- What an unhealthy repair comes to.
  abbrev pub mend : HealDeps → Repair S → String → S → Healing S
  mend d r detail s =
      if r.needs_intent && not (has_intent d)
      then (
        record (status_of r) {
          skipped = true;
          detail = String.◌++◌ detail " — run bnk heal -f <cluster.yaml> to repair";
        },
        [],
        s,
      )
      else if d.dry_run
      then (
        record (status_of r) { detail = String.◌++◌ "would repair: " detail },
        log_line d r.name detail,
        s,
      )
      else after_fix d r detail (r.fix d s)

  abbrev pub after_detect : HealDeps → Repair S → Detected × S → Healing S
  after_detect d r (undetected e, s) = (record (status_of r) { error = e }, [], s)
  after_detect d r (detected true text, s) =
      (record (status_of r) { healthy = true; detail = text }, [], s)
  after_detect d r (detected false text, s) = mend d r text s

  unfoldable pub heal_one : HealDeps → Repair S → S → Healing S
  heal_one d r s = after_detect d r (r.detect d s)

  abbrev pub heal_wanted : Bool → HealDeps → Repair S → S → Healings S
  heal_wanted false d r s = ([], [], s)
  heal_wanted true d r s = let (st, lines, s') = heal_one d r s in (st ∷ [], lines, s')

  abbrev pub and_then : Healings S → (S → Healings S) → Healings S
  and_then (sts, lines, s) rest =
      let (sts', lines', s') = rest s in (sts ++ sts', lines ++ lines', s')

  unfoldable pub run_heal : HealDeps → (only : List String) → List (Repair S) → S → Healings S
  unfolding heal_one
  run_heal d only [] s = ([], [], s)
  run_heal d only (r ∷ rs) s =
      and_then (heal_wanted (is_wanted only r.name) d r s) (run_heal d only rs)

  abbrev pub detect_status : Repair S → Detected → HealStatus
  detect_status r (undetected e) = record (status_of r) { error = e }
  detect_status r (detected true text) = record (status_of r) { healthy = true; detail = text }
  detect_status r (detected false text) = record (status_of r) {
    detail = String.◌++◌ text " — `awsbnkctl bnk heal -f <cluster.yaml>` repairs it";
  }

  unfoldable pub detect_all : HealDeps → List (Repair S) → S → List HealStatus × S
  detect_all d [] s = ([], s)
  detect_all d (r ∷ rs) s =
      let (x, s') = r.detect d s in
      let (sts, s'') = detect_all d rs s' in (detect_status r x ∷ sts, s'')
