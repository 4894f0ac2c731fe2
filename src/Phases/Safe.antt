-- ===== src/Phases/Safe.antt =====
-- What an action leaves as it was, and what a failed one does, from the actions that it is made of.
use awsbnkctl.Base.{◌≡◌, refl, ◌∙◌, String, Bool, true, false, Option, none, some, if◌then◌else◌}
use awsbnkctl.Cache.{Opened, Disk, SaveError, save}
use awsbnkctl.Cache.Saving.{save_failed}
use awsbnkctl.Phases.{
  World, Action, Result, ok, err, Reply, PhaseError, Aws, ◌>>=◌, ◌>>◌, set_key, call, require_key,
  check_auth_or_die, save_state, saved, disk_of, carry_on,
}

module _ {S : Type 0} {V : Type 0} (view : World S → V) where
  -- The action does not change what the view shows.
  abbrev pub Keeps : {A : Type 0} → Action S A → Type 0
  Keeps m = (w : World S) → view (m w).1 ≡ view w

  -- When the action fails, it has not changed what the view shows.
  abbrev pub FailsSafely : {A : Type 0} → Action S A → Type 0
  FailsSafely m = (w : World S) (e : PhaseError) → (m w).0 ≡ err e → view (m w).1 ≡ view w

  pub Keeps-FailsSafely : {A : Type 0} (m : Action S A) → Keeps m → FailsSafely m
  Keeps-FailsSafely m k w e h = k w

  pub if-Keeps :
      {A : Type 0} (b : Bool) (m n : Action S A) → Keeps m → Keeps n → Keeps (if b then m else n)
  if-Keeps true m n h k = h
  if-Keeps false m n h k = k

  pub if-FailsSafely :
      {A : Type 0} (b : Bool) (m n : Action S A)
      → FailsSafely m
      → FailsSafely n
      → FailsSafely (if b then m else n)
  if-FailsSafely true m n h k = h
  if-FailsSafely false m n h k = k

  carry_on-Keeps :
      {A B : Type 0} (p : Result A × World S) (f : A → Action S B) (v : V)
      → view p.1 ≡ v
      → ((a : A) → Keeps (f a))
      → view (carry_on p f).1 ≡ v
  carry_on-Keeps (ok a, w) f v h k = k a w ∙ h
  carry_on-Keeps (err x, w) f v h k = h

  pub >>=-Keeps :
      {A B : Type 0} (m : Action S A) (f : A → Action S B)
      → Keeps m
      → ((a : A) → Keeps (f a))
      → Keeps (m >>= f)
  >>=-Keeps m f h k w = carry_on-Keeps (m w) f (view w) (h w) k

  carry_on-FailsSafely :
      {A B : Type 0} (p : Result A × World S) (f : A → Action S B) (v : V) (e : PhaseError)
      → view p.1 ≡ v
      → ((a : A) → FailsSafely (f a))
      → (carry_on p f).0 ≡ err e
      → view (carry_on p f).1 ≡ v
  carry_on-FailsSafely (ok a, w) f v e h k l = k a w e l ∙ h
  carry_on-FailsSafely (err x, w) f v e h k l = h

  pub >>=-FailsSafely :
      {A B : Type 0} (m : Action S A) (f : A → Action S B)
      → Keeps m
      → ((a : A) → FailsSafely (f a))
      → FailsSafely (m >>= f)
  >>=-FailsSafely m f h k w e = carry_on-FailsSafely (m w) f (view w) e (h w) k

  pub >>-Keeps :
      {B : Type 0} (m : Action S Unit) (n : Action S B) → Keeps m → Keeps n → Keeps (m >> n)
  >>-Keeps m n h k = >>=-Keeps m (λ u. n) h (λ u. k)

  pub >>-FailsSafely :
      {B : Type 0} (m : Action S Unit) (n : Action S B)
      → Keeps m
      → FailsSafely n
      → FailsSafely (m >> n)
  >>-FailsSafely m n h k = >>=-FailsSafely m (λ u. n) h (λ u. k)

module _ {S : Type 0} where
  -- The file of ids, and the files with the cloud.
  abbrev pub file_of : World S → Opened
  file_of w = w.file

  abbrev pub outside : World S → S × Opened × Opened
  outside w = (w.cloud, w.file, w.temp)

  pub set_key-Keeps : (key v : String) → Keeps outside (set_key key v)
  unfolding set_key
  set_key-Keeps key v w = refl

  pub set_key-Keeps_file : (key v : String) → Keeps file_of (set_key key v)
  unfolding set_key
  set_key-Keeps_file key v w = refl

  pub require_key-Keeps : (key : String) → Keeps outside (require_key key)
  unfolding require_key
  require_key-Keeps key w = refl

  pub require_key-Keeps_file : (key : String) → Keeps file_of (require_key key)
  unfolding require_key
  require_key-Keeps_file key w = refl

  pub call-Keeps_file :
      {A : Type 0} (name : String) (f : S → Reply A × S) → Keeps file_of (call name f)
  unfolding call
  call-Keeps_file name f w = refl

  module _ (aws : Aws S) where
    pub check_auth_or_die-Keeps : Keeps outside (check_auth_or_die aws)
    unfolding check_auth_or_die
    check_auth_or_die-Keeps w = refl

    pub check_auth_or_die-Keeps_file : Keeps file_of (check_auth_or_die aws)
    unfolding check_auth_or_die
    check_auth_or_die-Keeps_file w = refl

    saved-FailsSafely :
        (p : Disk × Option SaveError) (w : World S) (x : PhaseError)
        → ((e : SaveError) → p.1 ≡ some e → p.0.env ≡ w.file)
        → (saved aws p w).0 ≡ err x
        → (saved aws p w).1.file ≡ w.file
    saved-FailsSafely (d, none) w x h k = cc
    saved-FailsSafely (d, some e) w x h k = h e refl

    pub save_state-FailsSafely : FailsSafely file_of (save_state aws)
    unfolding save_state
    save_state-FailsSafely w x =
        saved-FailsSafely
          (save aws.disk (aws.stamp w.cloud) aws.entry_order w.cache (disk_of aws w)) w x
          (save_failed aws.disk (aws.stamp w.cloud) aws.entry_order w.cache (disk_of aws w))
