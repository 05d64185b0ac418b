-- ===== src/Core/Refs/Named.antt =====
-- Refs are stored under their tenants.
use my_test_bot_repo.Prelude.{
  ℕ, Str, Bool, true, Option, none, some, ◌++◌, ◌==◌, str_eq, ◌≡◌, refl, ap, sym, ◌∙◌, arith, inl,
  inr, Bool-cases, Option-cases,
}
use my_test_bot_repo.Prelude.Table.{Table, lookup, insert, erase, lookup-insert, lookup-erase}
use my_test_bot_repo.Text.{starts_with}
use my_test_bot_repo.Text.Laws.{starts_with-append}
use my_test_bot_repo.Db.{Db, Ref}
use my_test_bot_repo.Core.Paths.{slash, tpath}
use my_test_bot_repo.Core.Paths.Laws.{tpath_prefix}
use my_test_bot_repo.Core.Frame.{link_dec-SameFiles, link_new-SameFiles}
use my_test_bot_repo.Core.Blobs.{bump}
use my_test_bot_repo.Core.Refs.{bind_ref, rebind, delete_ref_db}

-- The path of a row begins with its tenant.
abbrev pub named_row : Str → Option Ref → Bool
named_row stored none = true
named_row stored (some r) = starts_with stored (r.tenant_id ++ slash)

pub record IsNamed (refs : Table Str Ref) : Type 0 where
  pub named : (stored : Str) → named_row stored (lookup stored refs) ≡ true

pub starts_with-tpath : (t path : Str) → starts_with (tpath t path) (t ++ slash) ≡ true
starts_with-tpath t path = rw (tpath_prefix t path) (starts_with-append (t ++ slash) path)

pub insert-IsNamed :
    (stored : Str) (r : Ref) (refs : Table Str Ref)
    → starts_with stored (r.tenant_id ++ slash) ≡ true
    → IsNamed refs
    → IsNamed (insert stored r refs)
insert-IsNamed stored r refs fits v = record {
  named = λ s. ground (arith, v.named s, lookup-insert s stored r refs);
}

erase-IsNamed : (stored : Str) (refs : Table Str Ref) → IsNamed refs → IsNamed (erase stored refs)
erase-IsNamed stored refs v = record {
  named = λ s. ground (arith, v.named s, lookup-erase s stored refs);
}

-- A ref that is there keeps its tenant.
pub update-IsNamed :
    (stored : Str) (r s : Ref) (refs : Table Str Ref)
    → lookup stored refs ≡ some r
    → s.tenant_id ≡ r.tenant_id
    → IsNamed refs
    → IsNamed (insert stored s refs)
update-IsNamed stored r s refs there same v =
    insert-IsNamed stored s refs (rw same (ap (named_row stored) (sym there) ∙ v.named stored)) v

rebind-IsNamed :
    (now : ℕ) (t stored h : Str) (ref : Ref) (db : Db)
    → lookup stored db.refs ≡ some ref
    → IsNamed db.refs
    → IsNamed (rebind now t stored h ref db).refs
unfolding rebind bump
rebind-IsNamed now t stored h ref db there v =
    rw ((link_new-SameFiles t h _ _).refs, (link_dec-SameFiles t ref.hash _).refs)
      (update-IsNamed stored ref (record ref { hash = h; updated_at = now }) db.refs there refl v)

pub bind_ref-IsNamed :
    (now : ℕ) (t path h : Str) (db : Db)
    → IsNamed db.refs
    → IsNamed (bind_ref now t (tpath t path) h db).1.refs
unfolding bind_ref bump
bind_ref-IsNamed now t path h db v = elim (Option-cases (lookup (tpath t path) db.refs)) [
  | inl absent ↦ rw (absent, bind_ref) (insert-IsNamed _ _ db.refs (starts_with-tpath t path) v)
  | inr (ref, present) ↦ elim (Bool-cases (ref.hash == h)) [
    | inl same ↦ rw (present, bind_ref, same) v
    | inr moved ↦
        rw (present, bind_ref, moved) (rebind-IsNamed now t (tpath t path) h ref db present v)
  ]
]

pub delete_ref_db-IsNamed :
    (t stored : Str) (db : Db) → IsNamed db.refs → IsNamed (delete_ref_db t stored db).1.refs
unfolding delete_ref_db bump
delete_ref_db-IsNamed t stored db v = elim (Option-cases (lookup stored db.refs)) [
  | inl absent ↦ rw (absent, delete_ref_db) v
  | inr (ref, present) ↦
      rw (present, delete_ref_db, (link_dec-SameFiles t ref.hash _).refs)
        (erase-IsNamed stored db.refs v)
]
