-- ===== src/Files/Chunks.antt =====
-- `calculateMD5` (assets/web/static/js/files.js): the hash of a file, read in chunks.
pub mod Whole
use Prim.Native.Nat.{min, suc}
use ms_robot.Base.{
  Str, Bool, List, ℕ, ◌∷◌, [], ◌+◌, ◌*◌, Option, ◌≡◌, ◌++◌, take, if◌then◌else◌, ◌-◌, none, length,
  drop, ltb, some, ◌/◌, codes, zero,
}

-- SparkMD5, another project's library: what `new SparkMD5.ArrayBuffer()`, `append` and `end` do.
pub record Spark : Type 1 where
  pub State : Type 0
  pub fresh : State
  pub append : State → List ℕ → State
  pub end_ : State → Str

abbrev pub append_all : (S : Spark) → S.State → List (List ℕ) → S.State
append_all S s [] = s
append_all S s (part ∷ parts) = append_all S (S.append s part) parts

abbrev pub join : List (List ℕ) → List ℕ
join [] = []
join (part ∷ parts) = part ++ join parts

-- Its documentation: appending the parts of some bytes and ending gives the hash of the bytes.
pub record IsHash (S : Spark) (md5 : List ℕ → Str) : Type 0 where
  pub end-append_all :
      (parts : List (List ℕ)) → S.end_ (append_all S S.fresh parts) ≡ md5 (join parts)

-- How the promise is settled, with the hash or the message of the error.
pub data Settled : Type 0 where
  resolved rejected : Str → Settled

abbrev pub mebibytes_2 : ℕ
mebibytes_2 = 2097152

-- `Math.ceil(file.size / chunkSize)`
abbrev pub chunk_count : ℕ → ℕ → ℕ
chunk_count size chunk_size = (size + (chunk_size - 1)) / chunk_size

-- `file.slice(start, end)` with `start = chunk * chunkSize` and
-- `end = Math.min(start + chunkSize, file.size)`
abbrev pub slice_chunk : List ℕ → ℕ → ℕ → List ℕ
slice_chunk bytes chunk_size chunk =
    let start = chunk * chunk_size in
    take (min (start + chunk_size) (length bytes) - start) (drop start bytes)

module _ (S : Spark) (readable : ℕ → Bool) (bytes : List ℕ) (chunk_size : ℕ) where
  -- `loadNextChunk` and its `onload` or `onerror`; `readable n` says whether chunk `n` can be read.
  -- `left` chunks are allowed, none is the promise that is not settled.
  unfoldable pub load_next_chunk : ℕ → ℕ → S.State → Option Settled
  load_next_chunk zero current_chunk spark = none
  load_next_chunk (suc left) current_chunk spark =
      let grown = S.append spark (slice_chunk bytes chunk_size current_chunk) in
      let rest = load_next_chunk left (current_chunk + 1) grown in
      if readable current_chunk
      then if ltb (current_chunk + 1) (chunk_count (length bytes) chunk_size)
        then rest
        else some (resolved (S.end_ grown))
      else some (rejected (codes "读取文件失败"))

-- `calculateMD5`, with whether SparkMD5 is loaded, in chunks of a size.
unfoldable pub calculate_md5_by : (S : Spark) → Bool → (ℕ → Bool) → List ℕ → ℕ → Option Settled
calculate_md5_by S loaded readable bytes chunk_size =
    if loaded
    then load_next_chunk S readable bytes chunk_size (suc (chunk_count (length bytes) chunk_size)) 0
        S.fresh
    else some (rejected (codes "spark-md5库未加载"))

unfoldable pub calculate_md5 : (S : Spark) → Bool → (ℕ → Bool) → List ℕ → Option Settled
calculate_md5 S loaded readable bytes = calculate_md5_by S loaded readable bytes mebibytes_2
