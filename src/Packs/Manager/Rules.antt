-- ===== src/Packs/Manager/Rules.antt =====
-- How programs on the disk run when at most one access goes wrong.
use worm.Base.{List, [], ◌∷◌}
use worm.Library.{driver}
use worm.Store.Action.{Result, ok, err}
use worm.Packs.Manager.Disk.{
  Disk, Fate, proceed, refuse, report, crash, Ran, crashed, Prog, ◌>>=◌, attempt,
}

-- Every access is done.
abbrev pub Calm : List Fate → Type 0
Calm [] = Unit
Calm (proceed ∷ fs) = Calm fs
Calm (refuse ∷ fs) = ⊥
Calm (report ∷ fs) = ⊥
Calm (crash ∷ fs) = ⊥

-- One access at most is refused or reported as an error, or the process stops once.
abbrev pub Single : List Fate → Type 0
Single [] = Unit
Single (proceed ∷ fs) = Single fs
Single (refuse ∷ fs) = Calm fs
Single (report ∷ fs) = Calm fs
Single (crash ∷ fs) = Unit

module _ {A : Type 0} (E : Ran A → Type 0) (f : Disk → Disk) (k : Result (Unit {0}) → Prog A)
    (d : Disk) where
  pub attempt-Single :
      (fs : List Fate)
      → Single fs
      → ((fs' : List Fate) → Single fs' → E (k (ok tt) (f d) fs'))
      → ((fs' : List Fate) → Calm fs' → E (k (err driver) d fs'))
      → ((fs' : List Fate) → Calm fs' → E (k (err driver) (f d) fs'))
      → E (crashed d)
      → E ((attempt f >>= k) d fs)
  unfolding attempt
  attempt-Single [] s done refused reported stopped = done [] tt
  attempt-Single (proceed ∷ fs) s done refused reported stopped = done fs s
  attempt-Single (refuse ∷ fs) s done refused reported stopped = refused fs s
  attempt-Single (report ∷ fs) s done refused reported stopped = reported fs s
  attempt-Single (crash ∷ fs) s done refused reported stopped = stopped

  pub attempt-Calm :
      (fs : List Fate)
      → Calm fs
      → ((fs' : List Fate) → Calm fs' → E (k (ok tt) (f d) fs'))
      → E ((attempt f >>= k) d fs)
  unfolding attempt
  attempt-Calm [] s done = done [] tt
  attempt-Calm (proceed ∷ fs) s done = done fs s
  attempt-Calm (refuse ∷ fs) s done = absurd s
  attempt-Calm (report ∷ fs) s done = absurd s
  attempt-Calm (crash ∷ fs) s done = absurd s
