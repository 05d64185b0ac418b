-- ===== src/Core/Refcount/Sweep.antt =====
-- Garbage collection keeps the reference counts, and takes no blob that a ref names.
use my_test_bot_repo.Prelude.{
  ℕ, ◌+◌, ◌∷◌, [], Str, Bool, false, List, Option, none, some, ◌≡◌, refl, ap, sym, subst, ◌∙◌,
  nat_eq, str_eq, arith, length, inl, inr, Bool-cases, if◌then◌else◌,
}
use my_test_bot_repo.Prelude.Table.{Table, lookup, erase, lookup-erase, NodupKeys, erase-NodupKeys}
use my_test_bot_repo.Text.{contains}
use my_test_bot_repo.Db.{Db, Blob}
use my_test_bot_repo.App.{World, session_of_ok}
use my_test_bot_repo.Result.{Result, ok}
use my_test_bot_repo.Storage.{Storage}
use my_test_bot_repo.Core.Gc.{garbage, is_garbage, sweep, gc}
use my_test_bot_repo.Core.Refcount.{IsCounted, count_refs}

abbrev pub garbage_row : Option Str → Option Blob → Bool
garbage_row scope none = false
garbage_row scope (some b) = is_garbage scope b

-- The `select` returns the keys of the rows that it asks for.
pub contains-garbage :
    (scope : Option Str) (h : Str) (blobs : Table Str Blob)
    → NodupKeys blobs
    → contains h (garbage scope blobs) ≡ garbage_row scope (lookup h blobs)
unfolding garbage contains lookup
contains-garbage scope h [] u = refl
contains-garbage scope h ((k, b) ∷ rest) u = elim (Bool-cases (is_garbage scope b)) [
  | inl yes_g ↦ rw yes_g (ground (arith, contains-garbage scope h rest u.1, yes_g))
  | inr no_g ↦ rw no_g (
      ground (
        arith,
        contains-garbage scope h rest u.1,
        no_g,
        u.0,
        ap (λ (j : Str). lookup j rest) {x = h} {y = k},
      ))
]

module _ (S : Storage) where
  -- The loop erases the rows whose keys it is given, counts them and touches no other table.
  abbrev Swept : List Str → ℕ → World S.State → Result ℕ × World S.State → Type 0
  Swept rows n w (r, w') =
      (r ≡ ok (n + length rows))
      × (w'.db ≡ record w.db { blobs = w'.db.blobs })
      × NodupKeys w'.db.blobs
      × ((h : Str) → lookup h w'.db.blobs ≡ (if contains h rows then none else lookup h w.db.blobs))

  pub sweep-Swept :
      (rows : List Str) (n : ℕ) (w : World S.State)
      → NodupKeys w.db.blobs
      → Swept rows n w (sweep S rows n w)
  unfolding sweep contains
  sweep-Swept [] n w u = (ground arith, refl, u, λ h. refl)
  sweep-Swept (k ∷ rows) n w u =
      let w' : World S.State = record w {
        store = S.delete k w.store;
        db = record w.db { blobs = erase k w.db.blobs };
      } in
      let (result, same, u', looks) =
        sweep-Swept rows (n + 1) w' (erase-NodupKeys k w.db.blobs u) in
      (ground arith, same, u', λ h. ground (arith, looks h, lookup-erase h k w.db.blobs))

  pub gc-eq-sweep :
      (scope : Option Str) (w : World S.State)
      → NodupKeys w.db.blobs
      → gc S scope w ≡ sweep S (garbage scope w.db.blobs) 0 w
  unfolding gc
  gc-eq-sweep scope w u =
      let rows = garbage scope w.db.blobs in
      let swept : Swept rows 0 w (sweep S rows 0 w) = sweep-Swept rows 0 w u in
      session_of_ok (λ (v : World S.State). sweep S (garbage scope v.db.blobs) 0 v) w swept.0

  -- On a database with one row per key: garbage collection returns the number of rows that it
  -- removes. These are the rows with no references, of the given tenant where one is given; all
  -- other blobs, and all other tables, stay as they are.
  pub gc_exact :
      (scope : Option Str) (w : World S.State)
      → NodupKeys w.db.blobs
      → let (r, w') = gc S scope w in
        (r ≡ ok (length (garbage scope w.db.blobs)))
        × (w'.db ≡ record w.db { blobs = w'.db.blobs })
        × ((h : Str)
            → lookup h w'.db.blobs
              ≡ (if garbage_row scope (lookup h w.db.blobs) then none else lookup h w.db.blobs))
  gc_exact scope w u =
      let (result, same, u', looks) = sweep-Swept (garbage scope w.db.blobs) 0 w u in
      rw (gc-eq-sweep scope w u)
        (ground (arith, result), same, λ h. looks h ∙ rw (contains-garbage scope h w.db.blobs u))

  -- Garbage collection keeps the reference counts exact.
  pub gc-IsCounted :
      (scope : Option Str) (w : World S.State) → IsCounted w.db → IsCounted (gc S scope w).1.db
  gc-IsCounted scope w v =
      let (result, same, u', looks) = sweep-Swept (garbage scope w.db.blobs) 0 w v.unique_blobs in
      rw (gc-eq-sweep scope w v.unique_blobs) (record {
        counts = λ h. ground (
          arith,
          looks h,
          v.counts h,
          contains-garbage scope h w.db.blobs v.unique_blobs,
          ap (λ (db : Db). count_refs h db.refs) same,
        );
        unique = subst (λ (db : Db). NodupKeys db.refs) (sym same) v.unique;
        unique_blobs = u';
      })
