-- ===== src/App.antt =====
-- Methods: they read and write the database and the storage backend, and may raise. What was
-- written to the storage before an exception stays written; a session's rows do not.
use my_test_bot_repo.Prelude.{Str, Bytes, ◌≡◌, arith}
use my_test_bot_repo.Prelude.Table.{Table}
use my_test_bot_repo.Result.{Error, Result, ok, err}
use my_test_bot_repo.Db.{Db}

-- The scratch directories of the uploads, by id: their files by name.
abbrev pub Scratch : Type 0
Scratch = Table Str (Table Str Bytes)

pub record World (S : Type 0) : Type 0 where
  pub db : Db
  pub store : S
  pub scratch : Scratch

abbrev pub App : Type 0 → Type 0 → Type 0
App S A = World S → Result A × World S

module _ {S A : Type 0} where
  abbrev pub pure : A → App S A
  pure a w = (ok a, w)

  abbrev pub raise : Error → App S A
  raise e w = (err e, w)

  -- A query.
  abbrev pub gets : (Db → A) → App S A
  gets f w = (ok (f w.db), w)

  -- A query that may raise.
  abbrev pub check : (Db → Result A) → App S A
  check f w = (f w.db, w)

  -- Reads and writes of rows.
  abbrev pub transact : (Db → A × Db) → App S A
  transact f w = let (a, db) = f w.db in (ok a, record w { db = db })

  -- A call of the backend that writes, and one that reads.
  abbrev pub on_store : (S → Result A × S) → App S A
  on_store f w = let (r, s) = f w.store in (r, record w { store = s })

  abbrev pub from_store : (S → Result A) → App S A
  from_store f w = (f w.store, w)

  -- A change of the scratch directories.
  abbrev pub on_scratch : (Scratch → A × Scratch) → App S A
  on_scratch f w = let (a, d) = f w.scratch in (ok a, record w { scratch = d })

  -- A query of the scratch directories that may raise.
  abbrev pub from_scratch : (Scratch → Result A) → App S A
  from_scratch f w = (f w.scratch, w)

  -- `with Session(self.engine) as s: ...; s.commit()`: an exception before the commit rolls back.
  abbrev pub session : App S A → App S A
  session m w =
      let (r, w') = m w in elim r [ ok a ↦ (ok a, w') | err e ↦ (err e, record w' { db = w.db }) ]

abbrev pub modify : {S : Type 0} → (Db → Db) → App S (Unit {0})
modify f w = (ok tt, record w { db = f w.db })

infixl 5 ◌>>=◌ ◌>>◌
abbrev pub ◌>>=◌ : {S A B : Type 0} → App S A → (A → App S B) → App S B
◌>>=◌ m f w = let (r, w') = m w in elim r [ ok a ↦ f a w' | err e ↦ (err e, w') ]

abbrev pub ◌>>◌ : {S A B : Type 0} → App S A → App S B → App S B
m >> k = m >>= λ _. k

pub session_of_ok :
    {S A : Type 0} (m : App S A) (w : World S) {a : A} → (m w).0 ≡ ok a → session m w ≡ m w
session_of_ok m w done = ground arith
