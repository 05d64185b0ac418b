-- ===== src/Storage/Remote.antt =====
-- clawfs/storage.py: what the remote backends share: the names of blobs and the default `put_path`.
-- The clients of the SDKs are not part of the repository; they are records of operations.
pub mod Names
pub mod Clients
pub mod Azure
pub mod S3
pub mod Gcs
use my_test_bot_repo.Prelude.{
  ℕ, Str, Bytes, Bool, true, false, Option, none, some, List, [], ◌∷◌, ◌++◌, length, take, drop,
  ◌==◌, nat_eq, if◌then◌else◌, codes,
}
use my_test_bot_repo.Result.{Error, Result, ok, err, backend_error}

-- What a call of an SDK ends with.
pub data Reply (E : Type 0) (A : Type 0) : Type 0 where
  returned : A → Reply E A
  raised : E → Reply E A

-- "objects/"
abbrev pub prefix : Str
prefix = codes "objects/"

-- `_name(hash_hex)`
unfoldable pub name : Str → Str
name hash_hex = prefix ++ (take 2 hash_hex ++ 47 ∷ drop 2 hash_hex)

-- `s.split("/", 1)` where the separator occurs
unfoldable pub split_once : Str → Option (Str × Str)
split_once [] = none
split_once (c ∷ s) =
    if c == 47
    then some ([], s)
    else elim (split_once s) [ none ↦ none | some (a, b) ↦ some (c ∷ a, b) ]

-- The body of the loops of `iter_hashes`: the hash that a listed name stands for.
abbrev pub joined : Option (Str × Str) → Option Str
joined none = none
joined (some (a, b)) = if length a == 2 then some (a ++ b) else none

unfoldable pub hash_of : Str → Option Str
unfolding split_once
hash_of listed = joined (split_once (drop (length prefix) listed))

abbrev pub yield_to : Option Str → List Str → List Str
yield_to none hs = hs
yield_to (some h) hs = h ∷ hs

unfoldable pub hashes_of : List Str → List Str
hashes_of [] = []
hashes_of (n ∷ names) = yield_to (hash_of n) (hashes_of names)

module _ {E : Type 0} where
  -- A call whose exceptions the method lets through.
  abbrev pub through : {A : Type 0} → Reply E A → Result A
  through (returned a) = ok a
  through (raised e) = err backend_error

  -- A call that writes.
  abbrev pub written : {S : Type 0} → Reply E (Unit {0}) × S → Result (Unit {0}) × S
  written (r, s) = (through r, s)

  abbrev pub listed_hashes : Reply E (List Str) → Result (List Str)
  listed_hashes (returned names) = ok (hashes_of names)
  listed_hashes (raised e) = err backend_error

-- `if self.exists(hash_hex): return`, and else the upload
abbrev pub unless_there :
    {S : Type 0} → Result Bool → S → Result (Unit {0}) × S → Result (Unit {0}) × S
unless_there (ok true) s uploaded = (ok tt, s)
unless_there (ok false) s uploaded = uploaded
unless_there (err e) s uploaded = (err e, s)
