-- ===== src/Store/Action.antt =====
-- The database behind internal/rawstore and internal/outbox: its tables, and actions on it that
-- may fail. SQLite runs each statement, and each transaction, wholly or not at all; whether the
-- next one fails for a reason outside the program is an input, `faults`.
use worm.Base.{ℕ, ℤ, Bool, true, false, List, [], ◌∷◌, Option, Bytes}
use worm.Library.{Error, driver}
use worm.Model.{RawEvent, QuarantineEntry}

pub data Result {ℓ} (A : Type ℓ) : Type ℓ where
  ok : A → Result A
  err : Error → Result A

-- A row of `normalized_events`.
pub record NormalizedRow : Type 0 where
  pub event_id : Bytes
  pub raw_id : Bytes
  pub record_ordinal : ℕ
  pub source_category : Bytes
  pub source_id : Bytes
  pub severity_id : Bytes
  pub activity_name : Bytes
  pub message : Bytes
  pub event_time : ℤ
  pub received_time : ℕ
  pub event_json : Bytes
  pub event_sha256 : Bytes

pub data DeliveryStatus : Type 0 where
  pending delivered failed : DeliveryStatus

-- A row of `outbox`.
pub record OutboxEntry : Type 0 where
  pub id : ℕ
  pub event_id : Bytes
  pub destination : Bytes
  pub payload : Bytes
  pub attempts : ℕ
  pub next_retry_at : ℕ
  pub acknowledged_at : Option ℕ
  pub error_details : Option Bytes
  pub status : DeliveryStatus
  pub created_at : ℕ

pub record Tables : Type 0 where
  pub raw_events : List RawEvent
  pub quarantine : List QuarantineEntry
  pub normalized_events : List NormalizedRow
  pub outbox : List OutboxEntry
  pub next_outbox_id : ℕ

-- `counter` is the sequence number of the store. The head of `faults` says whether the next
-- statement or transaction fails; behind its end nothing fails.
pub record Db : Type 0 where
  pub tables : Tables
  pub counter : ℕ
  pub faults : List Bool

abbrev pub Action : Type 0 → Type 0
Action A = Db → Result A × Db

abbrev pub pure : {A : Type 0} → A → Action A
pure a db = (ok a, db)

abbrev pub raise : {A : Type 0} → Error → Action A
raise e db = (err e, db)

unfoldable pub after : {A B : Type 0} → (A → Action B) → Result A → Db → Result B × Db
after f (ok a) db = f a db
after f (err e) db = (err e, db)

infixl 5 ◌>>=◌ ◌>>◌
unfoldable pub ◌>>=◌ : {A B : Type 0} → Action A → (A → Action B) → Action B
unfolding after
◌>>=◌ m f db = after f (m db).0 (m db).1

unfoldable pub ◌>>◌ : {B : Type 0} → Action (Unit {0}) → Action B → Action B
unfolding ◌>>=◌
◌>>◌ m k = m >>= λ _. k

abbrev pub next_fault : List Bool → Bool
next_fault [] = false
next_fault (b ∷ _) = b

abbrev pub later_faults : List Bool → List Bool
later_faults [] = []
later_faults (_ ∷ bs) = bs

-- One statement or transaction, of which nothing is seen if it fails.
unfoldable pub commit : {A : Type 0} → Db → Result (A × Tables) → Result A × Db
commit db (ok (a, t)) = (ok a, record db { tables = t; faults = later_faults db.faults })
commit db (err e) = (err e, record db { faults = later_faults db.faults })

unfoldable pub transact : {A : Type 0} → (Tables → Result (A × Tables)) → Action A
unfolding commit
transact body db =
    commit db (elim (next_fault db.faults) [ true ↦ err driver | false ↦ body db.tables ])

-- A query.
unfoldable pub query : {A : Type 0} → (Tables → A) → Action A
unfolding transact
query f = transact (λ t. ok (f t, t))
