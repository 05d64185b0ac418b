-- ===== src/Tests/Data.antt =====
-- A hash function, backends and worlds to run the model on.
use my_test_bot_repo.Prelude.{
  ℕ, suc, ◌+◌, ◌%◌, Str, Bytes, true, none, some, List, [], ◌∷◌, length, ◌≡◌, refl, arith, codes,
  str_eq, path_eq, pair_eq, nat_eq,
}
use my_test_bot_repo.Prelude.Int.{pos}
use my_test_bot_repo.Prelude.Table.{lookup, sum}
use my_test_bot_repo.Db.{Db, Tenant}
use my_test_bot_repo.App.{World}
use my_test_bot_repo.Storage.{Storage, Hasher, IsDigest, IsLawful, is_hex, all_hex}
use my_test_bot_repo.Storage.Local.{local_storage, get}
use my_test_bot_repo.Storage.Local.Laws.{local_storage-IsLawful}
use my_test_bot_repo.Core.Refcount.{IsCounted}
use my_test_bot_repo.Core.Accounting.{IsAccounted}
use my_test_bot_repo.Core.Accounting.Limits.{IsWithin}
use my_test_bot_repo.Core.Contents.{IsStored}

abbrev pub zeros : ℕ → Str
zeros ℕ.zero = []
zeros (suc n) = 48 ∷ zeros n

abbrev pub total : Bytes → ℕ
total [] = 0
total (b ∷ bs) = b + total bs

abbrev pub toy_digest : Bytes → Str
toy_digest d = (48 + length d % 10) ∷ (48 + total d % 10) ∷ zeros 62

digit-hex : (n : ℕ) → is_hex (48 + n % 10) ≡ true
digit-hex n = ground arith

cons-hex : (c : ℕ) (s : Str) → is_hex c ≡ true → all_hex s ≡ true → all_hex (c ∷ s) ≡ true
unfolding all_hex
cons-hex c s hc hs = ground arith

zeros-hex : all_hex (zeros 62) ≡ true
unfolding all_hex
zeros-hex = refl

pub toy_digest-IsDigest : (d : Bytes) → IsDigest (toy_digest d)
toy_digest-IsDigest d = record {
  long = refl;
  hex = cons-hex _ _ (digit-hex (length d)) (cons-hex _ _ (digit-hex (total d)) zeros-hex);
}

abbrev pub toy : Hasher
toy = record { hexdigest = toy_digest; hexdigest-IsDigest = toy_digest-IsDigest }

abbrev pub root : List Str
root = codes "data" ∷ []

abbrev pub disk : Storage
disk = local_storage root

abbrev pub lawful : IsLawful disk
lawful = local_storage-IsLawful root

abbrev pub empty_db : Db
empty_db = record { blobs = []; refs = []; shares = []; uploads = []; tenants = []; links = [] }

abbrev pub fresh : World disk.State
fresh = record { db = empty_db; store = []; scratch = [] }

abbrev pub acme : Str
acme = codes "acme"

abbrev pub acme_row : Tenant
acme_row = record {
  name = acme;
  tokens_csv = codes "sk_acme";
  max_bytes = some (pos 4);
  max_objects = some (pos 2);
  used_bytes = 0;
  used_objects = 0;
  created_at = 0;
}

-- One managed tenant that may hold four bytes.
abbrev pub managed : World disk.State
managed = record fresh { db = record empty_db { tenants = (acme, acme_row) ∷ [] } }

pub fresh-IsCounted : IsCounted empty_db
unfolding lookup sum
fresh-IsCounted = record { counts = λ h. refl; unique = tt; unique_blobs = tt }

pub managed-IsCounted : IsCounted managed.db
unfolding lookup sum
managed-IsCounted = record { counts = λ h. refl; unique = tt; unique_blobs = tt }

pub managed-IsAccounted : IsAccounted managed.db
unfolding lookup sum
managed-IsAccounted = record { charged = λ id. ground arith; held = λ key. tt; unique = tt }

pub managed-IsWithin : IsWithin managed.db
unfolding lookup
managed-IsWithin = record { within = λ id. ground arith }

pub nothing_stored : (h : Str) → IsDigest h → lawful.contents [] h ≡ none
unfolding get lookup
nothing_stored h dh = ground (arith, lawful.get_lem h [] dh)

pub fresh-IsStored : IsStored disk lawful toy fresh
unfolding lookup
fresh-IsStored = record {
  addressed = λ h d dh e. ground (arith, e, nothing_stored h dh);
  digests = λ h there. absurd (there refl);
  backed = λ h there. absurd (there refl);
}

pub managed-IsStored : IsStored disk lawful toy managed
unfolding lookup
managed-IsStored = record {
  addressed = λ h d dh e. ground (arith, e, nothing_stored h dh);
  digests = λ h there. absurd (there refl);
  backed = λ h there. absurd (there refl);
}
