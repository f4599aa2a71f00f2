-- ===== src/Outbox/Rows.antt =====
-- The rows of the queue: what identifies them, and what a change of the rows with one ID keeps.
use worm.Base.{
  ℕ, zero, suc, ◌+◌, ◌≤◌, ◌≡◌, refl, Bool, List, [], ◌∷◌, map, inl, inr, Bytes, arith, Bool-cases,
  ==_iff, take, keep_where, update_where,
}
use worm.Store.Action.{OutboxEntry}
use worm.Outbox.Queue.{has_id}

-- What identifies a row, and what it asks for.
abbrev pub Label : Type 0
Label = ℕ × Bytes × Bytes

abbrev pub label : OutboxEntry → Label
label r = (r.id, r.destination, r.payload)

abbrev pub labels : List OutboxEntry → List Label
labels rows = map label rows

abbrev pub AllRows : (OutboxEntry → Type 0) → List OutboxEntry → Type 0
AllRows P [] = Unit
AllRows P (r ∷ rows) = P r × AllRows P rows

-- The IDs ascend from a first one.
abbrev pub IsAscending : ℕ → List OutboxEntry → Type 0
IsAscending n [] = Unit
IsAscending n (r ∷ rows) = (n ≤ r.id) × IsAscending (r.id + 1) rows

-- The rows with the ID of an entry ask for what the entry asks for.
abbrev pub Fits : OutboxEntry → List Label → Type 0
Fits e [] = Unit
Fits e ((id, dest, payload) ∷ ls) =
    (id ≡ e.id → (dest ≡ e.destination) × (payload ≡ e.payload)) × Fits e ls

Fits-later :
    (e : OutboxEntry) (n : ℕ) (rows : List OutboxEntry)
    → e.id + 1 ≤ n
    → IsAscending n rows
    → Fits e (labels rows)
Fits-later e n [] h a = tt
Fits-later e n (r ∷ rows) h a = (
  (λ q. absurd (omega (arith, h, a.0, q))),
  Fits-later e (r.id + 1) rows (omega (arith, h, a.0)) a.1,
)

Fits-earlier :
    (r : OutboxEntry) (n : ℕ) (rows es : List OutboxEntry)
    → n ≤ r.id
    → AllRows (λ e. (r.id + 1 ≤ e.id) × Fits e (labels rows)) es
    → AllRows (λ e. (n ≤ e.id) × Fits e (labels (r ∷ rows))) es
Fits-earlier r n rows [] h a = tt
Fits-earlier r n rows (e ∷ es) h a = (
  (omega (arith, h, a.0.0), ((λ q. absurd (omega (arith, a.0.0, q))), a.0.1)),
  Fits-earlier r n rows es h a.1,
)

-- Every row that is kept has an ID from the first one on and fits the rows.
pub kept-Fits :
    (p : OutboxEntry → Bool) (n : ℕ) (rows : List OutboxEntry)
    → IsAscending n rows
    → AllRows (λ e. (n ≤ e.id) × Fits e (labels rows)) (keep_where p rows)
unfolding keep_where
kept-Fits p n [] a = tt
kept-Fits p n (r ∷ rows) a =
    let later = Fits-earlier r n rows (keep_where p rows) a.0 (kept-Fits p (r.id + 1) rows a.1) in
    elim (Bool-cases (p r)) [
      | inl e ↦
          rw e
            (((a.0, ((λ _. (refl, refl)), Fits-later r (r.id + 1) rows (omega arith) a.1)), later))
      | inr e ↦ rw e later
    ]

pub AllRows-take :
    (P : OutboxEntry → Type 0) (n : ℕ) (rows : List OutboxEntry)
    → AllRows P rows
    → AllRows P (take n rows)
AllRows-take P zero rows a = tt
AllRows-take P (suc n) [] a = tt
AllRows-take P (suc n) (r ∷ rows) a = (a.0, AllRows-take P n rows a.1)

-- A change of some rows that leaves their labels alone.
pub labels-update_where :
    (p : OutboxEntry → Bool) (f : OutboxEntry → OutboxEntry) (rows : List OutboxEntry)
    → ((r : OutboxEntry) → label (f r) ≡ label r)
    → labels (update_where p f rows) ≡ labels rows
unfolding update_where
labels-update_where p f [] h = refl
labels-update_where p f (r ∷ rows) h = elim (Bool-cases (p r)) [
  | inl e ↦ rw (e, labels-update_where p f rows h, h r)
  | inr e ↦ rw (e, labels-update_where p f rows h)
]

pub AllRows-update_where :
    (P : OutboxEntry → Type 0) (e : OutboxEntry) (f : OutboxEntry → OutboxEntry)
    (rows : List OutboxEntry)
    → Fits e (labels rows)
    → ((r : OutboxEntry) → r.destination ≡ e.destination → r.payload ≡ e.payload → P r → P (f r))
    → AllRows P rows
    → AllRows P (update_where (has_id e.id) f rows)
unfolding update_where
AllRows-update_where P e f [] fits h a = tt
AllRows-update_where P e f (r ∷ rows) fits h a = elim (Bool-cases (has_id e.id r)) [
  | inl q ↦ rw q (
    (let (d, y) = fits.0 ((==_iff r.id e.id).0 q) in h r d y a.0),
    AllRows-update_where P e f rows fits.1 h a.1,
  )
  | inr q ↦ rw q (a.0, AllRows-update_where P e f rows fits.1 h a.1)
]
