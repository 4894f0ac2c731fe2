-- ===== src/Cache/Saving.antt =====
-- internal/aws/state/state.go: what Save does to the disk, step by step.
use awsbnkctl.Base.{
  ◌≡◌, refl, ap, ◌⊎◌, inl, inr, Bool-cases, true, false, none, String, some, [], ◌∷◌, All,
}
use awsbnkctl.Cache.{
  Entries, State, FileSystem, Opened, contents, missing, file_text, Disk, SaveRun, create_temp,
  write_temp, remove_temp, finish_save, save_run, save, SaveError,
}

-- The file holds what it held, or, once the temporary file was closed without an error, the new
-- content.
abbrev pub IsWhole : FileSystem → (old new : Opened) → Disk → Type 0
IsWhole fs old new d = (d.env ≡ old) ⊎ ((fs.closes ≡ true) × (d.env ≡ new))

-- The new content in the file, and no temporary file.
abbrev pub IsSaved : FileSystem → Opened → Disk → Type 0
IsSaved fs new d = (fs.closes ≡ true) × (fs.renames ≡ true) × (d.env ≡ new) × (d.temp ≡ missing)

-- What a run says, from the disk with which it began.
abbrev pub IsAtomic : FileSystem → (new : Opened) → Disk → SaveRun → Type 0
IsAtomic fs new d run =
    All (IsWhole fs d.env new) run.visited
    × ((e : SaveError) → run.error ≡ some e → run.disk.env ≡ d.env)
    × (run.error ≡ none → IsSaved fs new run.disk)

remove_temp-env : (fs : FileSystem) (d : Disk) → (remove_temp fs d).env ≡ d.env
remove_temp-env fs d = elim (Bool-cases fs.removes) [ inl e ↦ simp e refl | inr n ↦ simp n refl ]

finish-IsAtomic :
    (fs : FileSystem) (text : String) (d : Disk)
    → IsAtomic fs
        (contents text)
        d
        (finish_save fs (d ∷ create_temp d ∷ []) (write_temp text (create_temp d)))
unfolding finish_save
finish-IsAtomic fs text d =
    let kept = remove_temp-env fs (write_temp text (create_temp d)) in
    elim (Bool-cases fs.closes) [
      | inr n ↦
          simp n
            ((inl refl, (inl refl, (inl refl, (inl kept, tt)))), (λ e h. kept), λ h. absurd (cc))
      | inl c ↦ elim (Bool-cases fs.renames) [
        | inr n ↦
            simp (c, n)
              ((inl refl, (inl refl, (inl refl, (inl kept, tt)))), (λ e h. kept), λ h. absurd (cc))
        | inl r ↦
            simp (c, r)
              (
                (inl refl, (inl refl, (inl refl, (inr (refl, refl), tt)))),
                (λ e h. absurd (cc)),
                λ h. (refl, refl, refl, refl),
              )
      ]
    ]

pub save-IsAtomic :
    (fs : FileSystem) (stamp : String) (order : Entries → Entries) (s : State) (d : Disk)
    → (s.read_only ≡ false
        → IsAtomic fs
            (contents (fs.written (file_text stamp (order s.entries))))
            d
            (save_run fs stamp order s d))
      × (s.read_only ≡ true → save fs stamp order s d ≡ (d, none))
unfolding save save_run
save-IsAtomic fs stamp order s d = (
  λ live. elim (Bool-cases fs.makes_directory) [
    | inr n ↦ simp (live, n) ((inl refl, tt), (λ e h. refl), λ h. absurd (cc))
    | inl m ↦ elim (Bool-cases fs.creates) [
      | inr n ↦ simp (live, m, n) ((inl refl, tt), (λ e h. refl), λ h. absurd (cc))
      | inl c ↦
          simp (live, m, c) (finish-IsAtomic fs (fs.written (file_text stamp (order s.entries))) d)
    ]
  ],
  λ r. simp r refl,
)

pub save_failed :
    (fs : FileSystem) (stamp : String) (order : Entries → Entries) (s : State) (d : Disk)
    (e : SaveError)
    → (save fs stamp order s d).1 ≡ some e
    → (save fs stamp order s d).0.env ≡ d.env
unfolding save
save_failed fs stamp order s d e h = elim (Bool-cases s.read_only) [
  | inl r ↦ ap (λ p. p.0.env) ((save-IsAtomic fs stamp order s d).1 r)
  | inr live ↦ ((save-IsAtomic fs stamp order s d).0 live).1 e h
]
