-- ===== src/Ingest/Inbox/View.antt =====
-- The directories of `FileWatcher` in internal/ingest/file.go, seen at one name.
use worm.Base.{
  ℕ, ◌+◌, ◌≤◌, ◌≡◌, refl, ◌∙◌, false, Option, none, some, Bytes, str_eq, str_eq_iff, str_eq_refl,
  get, put, del, get-put, get-del, Bool-cases, inl, inr, arith,
}
use mathlib.Core.Path.{subst}
use worm.Ingest.Inbox.{Directory, Inbox}

-- What the four directories hold under a name.
pub record View : Type 0 where
  pub at_inbox : Option Bytes
  pub at_processing : Option Bytes
  pub at_processed : Option Bytes
  pub at_failed : Option Bytes

abbrev pub view : Bytes → Inbox → View
view n s = record {
  at_inbox = get n s.inbox;
  at_processing = get n s.processing;
  at_processed = get n s.processed;
  at_failed = get n s.failed;
}

abbrev pub count : Option Bytes → ℕ
count none = 0
count (some c) = 1

abbrev pub or_next : Option Bytes → Option Bytes → Option Bytes
or_next none o = o
or_next (some c) o = some c

abbrev pub standing : Option Bytes → Option Bytes → Option Bytes → Option Bytes → View
standing i p q r = record { at_inbox = i; at_processing = p; at_processed = q; at_failed = r }

-- The content of a file, wherever it stands.
abbrev pub content_in : View → Option Bytes
content_in v = or_next v.at_inbox (or_next v.at_processing (or_next v.at_processed v.at_failed))

-- At most one directory has a file of that name.
abbrev pub IsSingle : View → Type 0
IsSingle v = count v.at_inbox + count v.at_processing + count v.at_processed + count v.at_failed ≤ 1

-- A step keeps the file of a name.
pub record Keeps (v w : View) : Type 0 where
  pub same : content_in w ≡ content_in v
  pub single : IsSingle w

-- For every name.
abbrev pub AllKept : Inbox → Inbox → Type 0
AllKept s t = (n : Bytes) → IsSingle (view n s) → Keeps (view n s) (view n t)

-- The three moves of a file.
pub taken-Keeps :
    (p q r : Option Bytes) (c : Bytes)
    → IsSingle (standing (some c) p q r)
    → Keeps (standing (some c) p q r) (standing none (some c) q r)
taken-Keeps none none none c h = record { same = refl; single = omega arith }
taken-Keeps p q (some d) c h = absurd (omega (arith, h))
taken-Keeps p (some d) r c h = absurd (omega (arith, h))
taken-Keeps (some d) q r c h = absurd (omega (arith, h))

pub finished-Keeps :
    (i q r : Option Bytes) (c : Bytes)
    → IsSingle (standing i (some c) q r)
    → Keeps (standing i (some c) q r) (standing i none (some c) r)
finished-Keeps none none none c h = record { same = refl; single = omega arith }
finished-Keeps i q (some d) c h = absurd (omega (arith, h))
finished-Keeps i (some d) r c h = absurd (omega (arith, h))
finished-Keeps (some d) q r c h = absurd (omega (arith, h))

pub failed-Keeps :
    (i q r : Option Bytes) (c : Bytes)
    → IsSingle (standing i (some c) q r)
    → Keeps (standing i (some c) q r) (standing i none q (some c))
failed-Keeps none none none c h = record { same = refl; single = omega arith }
failed-Keeps i q (some d) c h = absurd (omega (arith, h))
failed-Keeps i (some d) r c h = absurd (omega (arith, h))
failed-Keeps (some d) q r c h = absurd (omega (arith, h))

pub del_here : (n : Bytes) (d : Directory) → get n (del n d) ≡ none
del_here n d = get-del n n d ∙ rw (str_eq_refl n) refl

pub put_here : (n c : Bytes) (d : Directory) → get n (put n c d) ≡ some c
put_here n c d = get-put n n c d ∙ rw (str_eq_refl n) refl

pub del_there : (m n : Bytes) (d : Directory) → str_eq m n ≡ false → get n (del m d) ≡ get n d
del_there m n d h = get-del m n d ∙ rw h refl

pub put_there : (m n c : Bytes) (d : Directory) → str_eq m n ≡ false → get n (put m c d) ≡ get n d
put_there m n c d h = get-put m n c d ∙ rw h refl

-- A step that changes what stands under one name only.
pub at_name :
    (m : Bytes) (s t : Inbox)
    → (IsSingle (view m s) → Keeps (view m s) (view m t))
    → ((n : Bytes) → str_eq m n ≡ false → view n t ≡ view n s)
    → AllKept s t
at_name m s t here there n h = elim (Bool-cases (str_eq m n)) [
  | inl e ↦
      let p = (str_eq_iff m n).0 e in
      subst (λ x. IsSingle (view x s) → Keeps (view x s) (view x t)) p here h
  | inr e ↦ rw (there n e) (record { same = refl; single = h })
]
