-- ===== src/Core/Shares/Laws.antt =====
-- Shares: what a token gives, until when, and what ends it.
use my_test_bot_repo.Prelude.{
  ℕ, suc, ◌+◌, ◌*◌, ◌≤◌, Str, Bool, false, Option, none, some, [], ◌∷◌, ◌==◌, str_eq, if◌then◌else◌,
  ltb, ◌≡◌, ◌∙◌, Bytes, length, inl, inr, Option-cases, Bool-cases, refl, ap, arith,
}
use my_test_bot_repo.Prelude.Int.{ℤ, pos, negsuc}
use my_test_bot_repo.Prelude.Table.{Table, lookup, lookup-insert, NodupKeys}
use my_test_bot_repo.Result.{ok}
use my_test_bot_repo.Db.{Db, Share, Ref}
use my_test_bot_repo.App.{World}
use my_test_bot_repo.Storage.{Storage, Hasher}
use my_test_bot_repo.Core.Paths.{tpath}
use my_test_bot_repo.Core.Frame.{link_dec-SameFiles}
use my_test_bot_repo.Core.Blobs.{bump}
use my_test_bot_repo.Core.Refs.{
  drop_shares, delete_ref, delete_ref_db, resolve_ref, put_ref, bind_ref, rebind,
}
use my_test_bot_repo.Core.Shares.{second, datetime_max, expiry, create_share, resolve_share}
use my_test_bot_repo.Result.{Result, err}
use my_test_bot_repo.Core.Frame.{link_inc-SameFiles, link_new-SameFiles}
use my_test_bot_repo.Core.Outcome.{with_blob, put_blob_db, put_ref_db, PutRef, put_ref-PutRef}

abbrev pub past : ℕ → Option ℕ → Bool
past later none = false
past later (some t) = ltb t later

module _ (S : Storage) where
  -- Where the expiry is in range: a share that was created has the token that was drawn, and gives
  -- what a read of its ref gives, up to and with the moment that it expires, and nothing after it.
  pub resolve_share-create_share :
      (now later : ℕ) (token path t : Str) (ttl : Option ℤ) {expires : Option ℕ} {given : Str}
      (w : World S.State)
      → expiry now ttl ≡ ok expires
      → (create_share S now token path ttl t w).0 ≡ ok given
      → (given ≡ token)
        × ((resolve_share S later token (create_share S now token path ttl t w).1).0
            ≡ (if past later expires then ok none else (resolve_ref S path t w).0))
  unfolding create_share resolve_share resolve_ref
  resolve_share-create_share now later token path t ttl {expires} w e made =
      let sh : Share = record { ref_path = tpath t path; expires_at = expires; created_at = now } in
      ground (arith, e, made, lookup-insert token token sh w.db.shares)

-- The expiry of a positive number of seconds, where the date stays in range.
expiry_positive :
    (now n : ℕ)
    → now + suc n * second ≤ datetime_max
    → expiry now (some (pos (suc n))) ≡ ok (some (now + suc n * second))
unfolding expiry
expiry_positive now n h = ground arith

-- A share, unless it is one of the given path.
abbrev pub not_of : Str → Option Share → Option Share
not_of stored none = none
not_of stored (some sh) = if sh.ref_path == stored then none else some sh

lookup-drop_shares :
    (stored token : Str) (shares : Table Str Share)
    → NodupKeys shares
    → lookup token (drop_shares stored shares) ≡ not_of stored (lookup token shares)
unfolding drop_shares lookup
lookup-drop_shares stored token [] u = refl
lookup-drop_shares stored token ((k, sh) ∷ shares) u = ground (
  arith,
  lookup-drop_shares stored token shares u.1,
  u.0,
  ap (λ (j : Str). lookup j shares) {x = token} {y = k},
)

shares-bump : (h : Str) (d : ℤ) (db : Db) → (bump h d db).shares ≡ db.shares
unfolding bump
shares-bump h d db = refl

-- The shares after a deletion: those of the ref are gone, and the others stay.
shares-delete_ref_db :
    (t stored token : Str) (ref : Ref) (db : Db)
    → NodupKeys db.shares
    → lookup stored db.refs ≡ some ref
    → lookup token (delete_ref_db t stored db).1.shares ≡ not_of stored (lookup token db.shares)
unfolding delete_ref_db
shares-delete_ref_db t stored token ref db u present =
    rw (present, delete_ref_db)
      (ap (λ (d : Table Str Share). lookup token (drop_shares stored d))
          ((link_dec-SameFiles t ref.hash (bump ref.hash (negsuc 0) db)).shares
            ∙ shares-bump ref.hash (negsuc 0) db)
        ∙ lookup-drop_shares stored token db.shares u)

put_blob_db-shares :
    (now : ℕ) (t h : Str) (size : ℕ) (db : Db) → (put_blob_db now t h size db).shares ≡ db.shares
unfolding put_blob_db
put_blob_db-shares now t h size db =
    (link_inc-SameFiles t h size (with_blob now t h size db)).shares ∙ ground arith

rebind-shares :
    (now : ℕ) (t stored h : Str) (ref : Ref) (db : Db)
    → (rebind now t stored h ref db).shares ≡ db.shares
unfolding rebind bump
rebind-shares now t stored h ref db =
    (link_new-SameFiles t h _ _).shares ∙ (link_dec-SameFiles t ref.hash _).shares

bind_ref-shares :
    (now : ℕ) (t stored h : Str) (db : Db) → (bind_ref now t stored h db).1.shares ≡ db.shares
unfolding bind_ref bump
bind_ref-shares now t stored h db = elim (Option-cases (lookup stored db.refs)) [
  | inl absent ↦ rw (absent, bind_ref) refl
  | inr (ref, present) ↦ elim (Bool-cases (ref.hash == h)) [
    | inl same ↦ rw (present, bind_ref, same) refl
    | inr moved ↦ rw (present, bind_ref, moved) (rebind-shares now t stored h ref db)
  ]
]

put_ref_db-shares :
    (now : ℕ) (t path h : Str) (size : ℕ) (db : Db)
    → (put_ref_db now t path h size db).1.shares ≡ db.shares
unfolding put_ref_db
put_ref_db-shares now t path h size db =
    bind_ref-shares now t (tpath t path) h (put_blob_db now t h size db)
    ∙ put_blob_db-shares now t h size db

module _ (S : Storage) (H : Hasher) where
  -- A put creates and ends no share.
  put_ref-shares :
      (now : ℕ) (path : Str) (bytes : Bytes) (t : Str) (w : World S.State)
      → (put_ref S H now path bytes t w).1.db.shares ≡ w.db.shares
  put_ref-shares now path bytes t w =
      go (put_ref S H now path bytes t w) (put_ref-PutRef S H now bytes t path w)
    where
      go :
          (o : Result (Str × Bool) × World S.State)
          → PutRef S H now bytes t path w o
          → o.1.db.shares ≡ w.db.shares
      go (ok (h, created), w') p =
          ap (λ (r : Bool × Db). r.1.shares) p.2
          ∙ put_ref_db-shares now t path h (length bytes) w.db
      go (err e, w') p = ap (λ (db : Db). db.shares) p

  -- With one row for each token: deleting a ref removes the rows of its shares and no other share,
  -- and its tokens give nothing from then on, also after something is put at the path again.
  pub resolve_share-delete_ref :
      (path t : Str) (ref : Ref) (w : World S.State)
      → NodupKeys w.db.shares
      → lookup (tpath t path) w.db.refs ≡ some ref
      → (token other : Str) (sh : Share) → lookup token w.db.shares ≡ some sh
      → sh.ref_path ≡ tpath t path
      → (now later : ℕ) (bytes : Bytes)
      → let after = (delete_ref S path t w).1 in
        (lookup other after.db.shares ≡ not_of (tpath t path) (lookup other w.db.shares))
        × ((resolve_share S later token after).0 ≡ ok none)
        × ((resolve_share S later token (put_ref S H now path bytes t after).1).0 ≡ ok none)
  unfolding resolve_share delete_ref
  resolve_share-delete_ref path t ref w u present token other sh there same now later bytes =
      let dropped = λ (k : Str). shares-delete_ref_db t (tpath t path) k ref w.db u present in
      let gone : lookup token (delete_ref S path t w).1.db.shares ≡ none =
        dropped token ∙ ground (arith, there, same) in
      (
        dropped other,
        ground (arith, gone),
        ground (
          arith,
          ap (λ (d : Table Str Share). lookup token d)
              (put_ref-shares now path bytes t (delete_ref S path t w).1),
          gone,
        ),
      )
