-- ===== src/Uploads/Merge.antt =====
-- clawfs/uploads.py: streaming bytes into a file while hashing and counting them. A hash object is
-- the bytes that it was fed.
pub mod Laws
use my_test_bot_repo.Prelude.{
  ℕ, zero, suc, ◌+◌, Str, Bytes, List, [], ◌∷◌, ◌++◌, length, take, drop, if◌then◌else◌,
}
use my_test_bot_repo.Prelude.Table.{Table}
use my_test_bot_repo.Text.{is_empty}

-- The file that is written, what the hash was fed, and the number of bytes.
pub record Stream : Type 0 where
  pub out : Bytes
  pub hashed : Bytes
  pub size : ℕ

abbrev pub start : Stream
start = record { out = []; hashed = []; size = 0 }

-- `f.write(chunk); h.update(chunk); size += len(chunk)`
unfoldable pub feed : Stream → Bytes → Stream
feed s chunk = record {
  out = s.out ++ chunk;
  hashed = s.hashed ++ chunk;
  size = s.size + length chunk;
}

-- The loop of `write_part` over the chunks of a request.
unfoldable pub feed_chunks : Stream → List Bytes → Stream
unfolding feed
feed_chunks s [] = s
feed_chunks s (chunk ∷ chunks) = feed_chunks (if is_empty chunk then s else feed s chunk) chunks

-- `BUF`
abbrev pub buf_size : ℕ
buf_size = 1048576

-- The loop of `complete` that reads one part by buffers, on fuel: `rest` is unread.
unfoldable pub read_part : ℕ → ℕ → Bytes → Stream → Stream
unfolding feed
read_part zero buf rest s = s
read_part (suc fuel) buf rest s =
    let chunk = take buf rest in
    let more = read_part fuel buf (drop buf rest) (feed s chunk) in
    if is_empty chunk then s else more

-- The loop over the parts. A read takes a byte at least, so one round more than there are bytes is
-- enough.
unfoldable pub merge_parts : ℕ → Table Str Bytes → Stream → Stream
unfolding read_part
merge_parts buf [] s = s
merge_parts buf ((name, bytes) ∷ parts) s =
    merge_parts buf parts (read_part (suc (length bytes)) buf bytes s)
