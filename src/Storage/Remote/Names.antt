-- ===== src/Storage/Remote/Names.antt =====
-- Names of blobs and their hashes.
use my_test_bot_repo.Prelude.{
  ℕ, Str, true, Option, some, List, [], ◌∷◌, ◌++◌, length, take, drop, ◌≡◌, refl, arith, nat_eq,
  str_eq, Option-cases, inl, inr, is_some, Bytes, Option-cases, inl, inr, is_some, Bytes,
}
use my_test_bot_repo.Storage.Remote.Clients.{Lists}
use my_test_bot_repo.Text.{contains, starts_with}
use my_test_bot_repo.Text.Laws.{starts_with-split}
use my_test_bot_repo.Storage.{IsDigest, all_hex}
use my_test_bot_repo.Storage.Remote.{prefix, name, split_once, joined, hash_of, hashes_of}

-- Two digests with one name are one digest.
pub name-injective : (h k : Str) → IsDigest h → IsDigest k → name h ≡ name k → h ≡ k
unfolding name
name-injective [] k dh dk e = absurd (omega (arith, dh.long))
name-injective (a ∷ []) k dh dk e = absurd (omega (arith, dh.long))
name-injective (a ∷ b ∷ s) [] dh dk e = absurd (omega (arith, dk.long))
name-injective (a ∷ b ∷ s) (c ∷ []) dh dk e = absurd (omega (arith, dk.long))
name-injective (a ∷ b ∷ s) (c ∷ d ∷ t) dh dk e = ground arith

split_digest :
    (a b : ℕ) (s : Str)
    → all_hex (a ∷ b ∷ []) ≡ true
    → split_once (a ∷ b ∷ 47 ∷ s) ≡ some (a ∷ b ∷ [], s)
unfolding split_once all_hex
split_digest a b s hex = ground arith

-- The hash that is read from a digest's name is the digest.
pub hash_of-name : (h : Str) → IsDigest h → hash_of (name h) ≡ some h
unfolding hash_of name nat_eq
hash_of-name [] dh = absurd (omega (arith, dh.long))
hash_of-name (a ∷ []) dh = absurd (omega (arith, dh.long))
hash_of-name (a ∷ b ∷ s) dh =
    rw (split_digest a b s (unfold all_hex in ground (arith, dh.hex))) refl

starts_with-name : (h : Str) → starts_with (name h) prefix ≡ true
unfolding name starts_with nat_eq
starts_with-name h = refl

split_once_lem : (s a b : Str) → split_once s ≡ some (a, b) → s ≡ a ++ 47 ∷ b
unfolding split_once
split_once_lem [] a b e = cc
split_once_lem (c ∷ s) a b e = elim (Option-cases (split_once s)) [
  | inl last ↦ ground (arith, last)
  | inr ((a', b'), more) ↦ ground (arith, more, split_once_lem s a' b' more)
]

joined_lem : (a b h : Str) → joined (some (a, b)) ≡ some h → (take 2 h ≡ a) × (drop 2 h ≡ b)
joined_lem [] b h e = ground arith
joined_lem (x ∷ []) b h e = ground arith
joined_lem (x ∷ y ∷ []) b h e = ground arith
joined_lem (x ∷ y ∷ z ∷ a) b h e = ground arith

-- A listed name with the prefix from which a hash is read is the name of the hash.
name-hash_of : (n h : Str) → starts_with n prefix ≡ true → hash_of n ≡ some h → n ≡ name h
unfolding hash_of name
name-hash_of n h p e = elim (Option-cases (split_once (drop (length prefix) n))) [
  | inl whole ↦ absurd (ground (arith, whole))
  | inr ((a, b), parts) ↦
      let (front, back) = joined_lem a b h (rw parts at e) in
      ground (
        arith,
        starts_with-split n prefix p,
        split_once_lem (drop (length prefix) n) a b parts,
        front,
        back,
      )
]

abbrev AllPrefixed : List Str → Type 0
AllPrefixed [] = Unit
AllPrefixed (n ∷ names) = (starts_with n prefix ≡ true) × AllPrefixed names

all_prefixed :
    (names : List Str)
    → ((n : Str) → contains n names ≡ true → starts_with n prefix ≡ true)
    → AllPrefixed names
unfolding contains
all_prefixed [] h = tt
all_prefixed (n ∷ names) h =
    (h n (ground arith), all_prefixed names (λ m c. h m (ground (arith, c))))

contains-prefixed :
    (h : Str) (names : List Str)
    → IsDigest h
    → AllPrefixed names
    → contains h (hashes_of names) ≡ contains (name h) names
unfolding hashes_of contains
contains-prefixed h [] dh ps = refl
contains-prefixed h (n ∷ names) dh ps = elim (Option-cases (hash_of n)) [
  | inl skip ↦ ground (arith, skip, hash_of-name h dh, contains-prefixed h names dh ps.1)
  | inr (k, read) ↦ ground (
    arith,
    read,
    hash_of-name h dh,
    name-hash_of n k ps.0 read,
    contains-prefixed h names dh ps.1,
  )
]

-- Where the listed names are those of the objects with the prefix, the hashes that are read from
-- them are the digests with an object.
pub contains-hashes_of :
    (objects : Str → Option Bytes) (names : List Str) (h : Str)
    → Lists objects prefix names
    → IsDigest h
    → contains h (hashes_of names) ≡ is_some (objects (name h))
contains-hashes_of objects names h listed dh = ground (
  arith,
  contains-prefixed h names dh (all_prefixed names (λ n c. ground (arith, listed n))),
  listed (name h),
  starts_with-name h,
)
