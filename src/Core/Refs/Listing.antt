-- ===== src/Core/Refs/Listing.antt =====
-- What `list_refs` lists.
use my_test_bot_repo.Prelude.{
  Str, Bool, true, Option, none, some, [], ◌∷◌, ◌++◌, ◌==◌, str_eq, ◌≡◌, refl, ap, sym, ◌∙◌, arith,
  length, drop, if◌then◌else◌, inl, inr, Bool-cases,
}
use my_test_bot_repo.Prelude.Table.{Table, lookup, NodupKeys}
use my_test_bot_repo.Text.{starts_with, is_empty}
use my_test_bot_repo.Text.Laws.{starts_with-split}
use my_test_bot_repo.Db.{Db, Ref}
use my_test_bot_repo.Core.Paths.{slash, tpath, untpath}
use my_test_bot_repo.Core.Paths.Laws.{tpath_prefix, untpath-tpath}
use my_test_bot_repo.Core.Refs.{select_refs, list_refs}
use my_test_bot_repo.Core.Refs.Named.{IsNamed}

tpath-untpath :
    (t stored : Str) → starts_with stored (t ++ slash) ≡ true → tpath t (untpath t stored) ≡ stored
unfolding untpath
tpath-untpath t stored fits = rw fits (
    tpath_prefix t (drop (length (t ++ slash)) stored)
    ∙ sym (starts_with-split stored (t ++ slash) fits))

-- A row's shown path is the one that is asked for exactly if its stored path is.
shown_path :
    (t stored p : Str)
    → starts_with stored (t ++ slash) ≡ true
    → (p == untpath t stored) ≡ (tpath t p == stored)
shown_path t stored p fits = elim (Bool-cases (p == untpath t stored)) [
  | inl same ↦
      ground (arith, same, tpath-untpath t stored fits, ap (tpath t) {x = p} {y = untpath t stored})
  | inr other ↦
      ground (arith, other, untpath-tpath t p, ap (untpath t) {x = tpath t p} {y = stored})
]

IsNamed-tail :
    (stored : Str) (r : Ref) (rows : Table Str Ref)
    → NodupKeys ((stored, r) ∷ rows)
    → IsNamed ((stored, r) ∷ rows)
    → IsNamed rows
unfolding lookup
IsNamed-tail stored r rows distinct v = record {
  named = λ s. ground (arith, v.named s, distinct.0);
}

-- The ref, where it is the tenant's own and its path passes the test on the prefix.
abbrev pub listed : (Str → Str → Bool) → Str → Str → Str → Option Ref → Option Ref
listed like prefix t stored none = none
listed like prefix t stored (some r) =
    if r.tenant_id == t
    then (if is_empty prefix then some r else if like stored (tpath t prefix) then some r else none)
    else none

module _ (like : Str → Str → Bool) (prefix t p : Str) where
  lookup-select_refs :
      (rows : Table Str Ref)
      → NodupKeys rows
      → IsNamed rows
      → lookup p (select_refs like prefix t rows)
        ≡ listed like prefix t (tpath t p) (lookup (tpath t p) rows)
  unfolding lookup select_refs
  lookup-select_refs [] distinct v = refl
  lookup-select_refs ((stored, r) ∷ rows) distinct v = ground (
    arith,
    v.named stored,
    distinct.0,
    shown_path t stored p,
    lookup-select_refs rows distinct.1 (IsNamed-tail stored r rows distinct v),
  )

  -- Where every ref is stored under its tenant: the tenant's path is in the listing with its ref,
  -- if the ref is the tenant's own and its stored path is found like the prefix, and otherwise it
  -- is not in the listing.
  pub lookup-list_refs :
      (db : Db)
      → NodupKeys db.refs
      → IsNamed db.refs
      → lookup p (list_refs like prefix t db)
        ≡ listed like prefix t (tpath t p) (lookup (tpath t p) db.refs)
  unfolding list_refs
  lookup-list_refs db distinct v = lookup-select_refs db.refs distinct v
