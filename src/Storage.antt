-- ===== src/Storage.antt =====
-- clawfs/storage.py `Storage`: the interface of a backend, and what its clients rely on.
pub mod Local
pub mod Remote
pub mod Config
use my_test_bot_repo.Prelude.{
  ℕ, Str, Bytes, Bool, true, ◌&&◌, ◌||◌, ◌≡◌, Option, none, some, [], ◌∷◌, ◌==◌, nat_eq, str_eq,
  leb, length, is_some, get_or, if◌then◌else◌,
}
use my_test_bot_repo.Result.{Result, ok, err, file_not_found}

-- The methods that the program calls. `put_path` is given the contents of the file `src_path`.
pub record Storage : Type 1 where
  pub State : Type 0
  pub put : Str → Bytes → State → Result (Unit {0}) × State
  pub put_path : Str → Bytes → State → Result (Unit {0}) × State
  pub get : Str → State → Result Bytes
  pub exists : Str → State → Result Bool
  pub delete : Str → State → State

abbrev pub is_hex : ℕ → Bool
is_hex c = (leb 48 c && leb c 57) || (leb 97 c && leb c 102)

unfoldable pub all_hex : Str → Bool
all_hex [] = true
all_hex (c ∷ s) = is_hex c && all_hex s

-- What `hexdigest` of SHA-256 returns: 64 lower-case hexadecimal digits.
pub record IsDigest (h : Str) : Type 0 where
  pub long : length h ≡ 64
  pub hex : all_hex h ≡ true

-- `hashlib.sha256(data).hexdigest()`; `hashlib` is not part of the repository.
pub record Hasher : Type 0 where
  pub hexdigest : Bytes → Str
  pub hexdigest-IsDigest : (d : Bytes) → IsDigest (hexdigest d)

abbrev pub or_not_found : Option Bytes → Result Bytes
or_not_found none = err file_not_found
or_not_found (some d) = ok d

-- A backend that keeps what it is given: a map from digests to contents, where the first contents
-- that are put under a digest stay until they are deleted.
pub record IsLawful (S : Storage) : Type 0 where
  pub contents : S.State → Str → Option Bytes
  pub get_lem : (h : Str) (s : S.State) → IsDigest h → S.get h s ≡ or_not_found (contents s h)
  pub exists_lem : (h : Str) (s : S.State) → IsDigest h → S.exists h s ≡ ok (is_some (contents s h))
  pub put_lem : (h : Str) (d : Bytes) (s : S.State) → IsDigest h → (S.put h d s).0 ≡ ok tt
  pub put_path_lem : (h : Str) (d : Bytes) (s : S.State) → IsDigest h → (S.put_path h d s).0 ≡ ok tt
  pub contents-put :
      (h k : Str) (d : Bytes) (s : S.State)
      → IsDigest h
      → IsDigest k
      → contents (S.put h d s).1 k
        ≡ (if k == h then some (get_or (contents s h) d) else contents s k)
  pub contents-put_path :
      (h k : Str) (d : Bytes) (s : S.State)
      → IsDigest h
      → IsDigest k
      → contents (S.put_path h d s).1 k
        ≡ (if k == h then some (get_or (contents s h) d) else contents s k)
  pub contents-delete :
      (h k : Str) (s : S.State)
      → IsDigest h
      → IsDigest k
      → contents (S.delete h s) k ≡ (if k == h then none else contents s k)
