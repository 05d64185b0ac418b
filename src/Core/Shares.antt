-- ===== src/Core/Shares.antt =====
-- clawfs/core.py: `create_share` and `resolve_share`.
pub mod Laws
use my_test_bot_repo.Prelude.{
  ℕ, zero, suc, ◌+◌, ◌-◌, ◌*◌, Str, Bytes, Bool, false, Option, none, some, str_eq, ltb, leb,
  if◌then◌else◌,
}
use my_test_bot_repo.Prelude.Int.{ℤ, pos, negsuc}
use my_test_bot_repo.Prelude.Table.{lookup, insert}
use my_test_bot_repo.Result.{Result, ok, err, no_such_ref, overflow_error, integrity_error}
use my_test_bot_repo.Db.{Share, Ref}
use my_test_bot_repo.App.{App, pure, gets, check, modify, from_store, session, ◌>>=◌, ◌>>◌}
use my_test_bot_repo.Storage.{Storage}
use my_test_bot_repo.Core.Paths.{tpath}

abbrev pub second : ℕ
second = 1000000

-- `datetime.max`, in microseconds since `datetime.min`: 3652059 days, less one microsecond.
abbrev pub datetime_max : ℕ
datetime_max = 315537897599999999

-- `when + timedelta(seconds=ttl)`
unfoldable pub add_seconds : ℕ → ℤ → Result ℕ
add_seconds when (pos n) =
    let t = when + n * second in if leb t datetime_max then ok t else err overflow_error
add_seconds when (negsuc n) =
    let d = suc n * second in if leb d when then ok (when - d) else err overflow_error

-- `datetime.utcnow() + timedelta(seconds=ttl) if ttl else None`
unfoldable pub expiry : ℕ → Option ℤ → Result (Option ℕ)
unfolding add_seconds
expiry now none = ok none
expiry now (some (pos zero)) = ok none
expiry now (some ttl) = elim (add_seconds now ttl) [ ok t ↦ ok (some t) | err e ↦ err e ]

-- `sh.expires_at and sh.expires_at < datetime.utcnow()`
unfoldable pub is_expired : ℕ → Share → Bool
is_expired now sh = elim sh.expires_at [ none ↦ false | some t ↦ ltb t now ]

abbrev pub need_ref : Str → Option Ref → Result (Unit {0})
need_ref path none = err (no_such_ref path)
need_ref path (some ref) = ok tt

-- The commit of a new row is refused where its key is taken.
abbrev pub need_free : Option Share → Result (Unit {0})
need_free none = ok tt
need_free (some taken) = err integrity_error

module _ (S : Storage) where
  -- `token` is what `secrets.token_urlsafe` returns.
  unfoldable pub create_share : ℕ → Str → Str → Option ℤ → Str → App S.State Str
  create_share now token ref_path ttl tenant_id = session do
    let stored = tpath tenant_id ref_path
    check (λ db. need_ref ref_path (lookup stored db.refs))
    expires ← check (λ db. expiry now ttl)
    check (λ db. need_free (lookup token db.shares))
    modify λ db. record db {
      shares =
          insert token (record { ref_path = stored; expires_at = expires; created_at = now })
            db.shares;
    }
    pure token

  abbrev follow : Option Ref → App S.State (Option Bytes)
  follow none = pure none
  follow (some ref) = do bytes ← from_store (S.get ref.hash); pure (some bytes)

  abbrev open_share : ℕ → Option Share → App S.State (Option Bytes)
  open_share now none = pure none
  open_share now (some sh) =
      if is_expired now sh
      then pure none
      else do ref ← gets (λ db. lookup sh.ref_path db.refs); follow ref

  unfoldable pub resolve_share : ℕ → Str → App S.State (Option Bytes)
  unfolding is_expired
  resolve_share now token = do sh ← gets (λ db. lookup token db.shares); open_share now sh
