-- ===== src/Uploads/Merge/Laws.antt =====
-- Streaming writes, hashes and counts what it is given, in order and whole.
use my_test_bot_repo.Prelude.{
  ℕ, zero, suc, ◌+◌, ◌<◌, Str, Bytes, List, [], ◌∷◌, ◌++◌, length, length-append, length-drop, take,
  drop, take-append-drop, ◌≡◌, ap, ap, sym, ◌∙◌, arith,
}
use mathlib.Core.List.{append_assoc, append-nil}
use my_test_bot_repo.Prelude.Table.{Table}
use my_test_bot_repo.Uploads.Merge.{Stream, feed_chunks, read_part, merge_parts}

-- The bytes of a list of chunks, and of a list of parts.
abbrev pub concat : List Bytes → Bytes
concat [] = []
concat (c ∷ cs) = c ++ concat cs

abbrev pub concat_parts : Table Str Bytes → Bytes
concat_parts [] = []
concat_parts ((name, bytes) ∷ parts) = bytes ++ concat_parts parts

-- Bytes in one piece.
abbrev pub fed : Stream → Bytes → Stream
fed s bytes = record {
  out = s.out ++ bytes;
  hashed = s.hashed ++ bytes;
  size = s.size + length bytes;
}

fed-fed : (s : Stream) (a b : Bytes) → fed (fed s a) b ≡ fed s (a ++ b)
fed-fed s a b =
    ground (arith, append_assoc s.out a b, append_assoc s.hashed a b, length-append {0} a b)

fed-nil : (s : Stream) → fed s [] ≡ s
fed-nil s = ground (arith, append-nil s.out, append-nil s.hashed)

pub feed_chunks-fed :
    (s : Stream) (chunks : List Bytes) → feed_chunks s chunks ≡ fed s (concat chunks)
unfolding feed_chunks
feed_chunks-fed s [] = sym (fed-nil s)
feed_chunks-fed s ([] ∷ chunks) = feed_chunks-fed s chunks
feed_chunks-fed s ((b ∷ c) ∷ chunks) =
    feed_chunks-fed (fed s (b ∷ c)) chunks ∙ fed-fed s (b ∷ c) (concat chunks)

read_part-fed :
    (fuel buf : ℕ) (rest : Bytes) (s : Stream)
    → 0 < buf
    → length rest < fuel
    → read_part fuel buf rest s ≡ fed s rest
unfolding read_part
read_part-fed zero buf rest s hb hf = absurd (omega arith)
read_part-fed (suc fuel) zero rest s hb hf = absurd (omega arith)
read_part-fed (suc fuel) (suc buf) [] s hb hf = sym (fed-nil s)
read_part-fed (suc fuel) (suc buf) (b ∷ rest) s hb hf =
    read_part-fed fuel (suc buf) (drop buf rest) (fed s (b ∷ take buf rest)) (omega arith)
      (omega (arith, length-drop {0} buf rest))
    ∙ fed-fed s (b ∷ take buf rest) (drop buf rest)
    ∙ ap (λ (r : Bytes). fed s (b ∷ r)) (take-append-drop buf rest)

-- The merged file is the parts one after another; it is what the hash was fed, and the size is its
-- length, whatever the size of the buffer.
pub merge_parts-fed :
    (buf : ℕ) (parts : Table Str Bytes) (s : Stream)
    → 0 < buf
    → merge_parts buf parts s ≡ fed s (concat_parts parts)
unfolding merge_parts
merge_parts-fed buf [] s hb = sym (fed-nil s)
merge_parts-fed buf ((name, bytes) ∷ parts) s hb =
    ap (merge_parts buf parts) (read_part-fed (suc (length bytes)) buf bytes s hb (omega arith))
    ∙ merge_parts-fed buf parts (fed s bytes) hb
    ∙ fed-fed s bytes (concat_parts parts)
