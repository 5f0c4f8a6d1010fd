-- ===== src/Builders/BatchFile.antt =====
-- builders/batch-file.ts. Bytes are numbers and an archive is their list; a stream is the list of the
-- chunks that its reader gives. AES and SHA-256 are parameters. A part size is a natural number: a
-- negative one is refused like 0.
pub mod Slices
pub mod Splitting
pub mod Streams
mod Tests
use ksef_client_ts.Base.{
  ℕ, zero, suc, ◌+◌, ◌-◌, ◌*◌, ◌/◌, min, Bool, true, false, Option, none, some, List, [], ◌∷◌, ◌++◌,
  String, map, ltb, leb, ◌==◌, length, take, drop, flatten, if◌then◌else◌, or_default,
}

abbrev pub Bytes : Type 0
Bytes = List ℕ

abbrev pub batch_max_part_size : ℕ
batch_max_part_size = 100_000_000

abbrev pub batch_max_total_size : ℕ
batch_max_total_size = 5_000_000_000

abbrev pub batch_max_parts : ℕ
batch_max_parts = 50

pub data CompressionType : Type 0 where
  zip tar_gz : CompressionType

pub record BatchFileBuildOptions : Type 0 where
  pub max_part_size : Option ℕ
  pub compression_type : Option CompressionType

pub record FilePart : Type 0 where
  pub ordinal_number : ℕ
  pub file_size : ℕ
  pub file_hash : String

pub record BatchFileInfo : Type 0 where
  pub file_size : ℕ
  pub file_hash : String
  pub compression_type : Option CompressionType
  pub file_parts : List FilePart

pub record BatchFileBuildResult : Type 0 where
  pub batch_file : BatchFileInfo
  pub encrypted_parts : List Bytes

-- One element of `streamParts`: the bytes of its stream, and its metadata.
pub record StreamPart : Type 0 where
  pub content : Bytes
  pub hash_sha : String
  pub file_size : ℕ
  pub ordinal_number : ℕ

pub record BatchStreamBuildResult : Type 0 where
  pub batch_file : BatchFileInfo
  pub stream_parts : List StreamPart

-- The throws of KSeFValidationError.
pub data Result (A : Type 0) : Type 0 where
  built : A → Result A
  bad_part_size empty_archive archive_too_large : Result A
  too_many_parts : ℕ → Result A

-- data.subarray(from, to)
abbrev pub subarray : Bytes → ℕ → ℕ → Bytes
subarray bytes from to = take (to - from) (drop from bytes)

-- The loop of splitBuffer, on fuel; the length of the data is enough.
unfoldable pub split_from : ℕ → Bytes → ℕ → ℕ → List Bytes
split_from zero bytes size offset = []
split_from (suc fuel) bytes size offset =
    let rest = split_from fuel bytes size (offset + size) in
    if ltb offset (length bytes)
    then subarray bytes offset (min (offset + size) (length bytes)) ∷ rest
    else []

unfoldable pub split_buffer : Bytes → ℕ → List Bytes
split_buffer bytes size =
    if leb (length bytes) size then bytes ∷ [] else split_from (length bytes) bytes size 0

-- The guards that `build` and `buildFromStream` share, on the size of the archive.
abbrev pub guarded : {A : Type 0} → ℕ → ℕ → Result A → Result A
guarded part_size size rest =
    if part_size == 0
    then bad_part_size
    else if size == 0
    then empty_archive
    else if ltb batch_max_total_size size
    then archive_too_large
    else rest

-- Math.ceil(a / b)
abbrev pub ceil_div : ℕ → ℕ → ℕ
ceil_div a b = (a + b - 1) / b

module _ (sha256 : Bytes → String) where
  -- The metadata of the encrypted parts, numbered from `i + 1` on.
  unfoldable pub number_parts : ℕ → List Bytes → List FilePart
  number_parts i [] = []
  number_parts i (encrypted ∷ parts) =
      record { ordinal_number = i + 1; file_size = length encrypted; file_hash = sha256 encrypted }
      ∷ number_parts (i + 1) parts

  unfoldable pub number_streams : ℕ → List Bytes → List StreamPart
  number_streams i [] = []
  number_streams i (encrypted ∷ parts) =
      record {
        content = encrypted;
        hash_sha = sha256 encrypted;
        file_size = length encrypted;
        ordinal_number = i + 1;
      }
      ∷ number_streams (i + 1) parts

  module _ (encrypt : Bytes → Bytes) where
    -- BatchFileBuilder.build(zipBytes, encryptFn, options)
    unfoldable pub build : Bytes → BatchFileBuildOptions → Result BatchFileBuildResult
    build zip_bytes options =
        let size = or_default options.max_part_size batch_max_part_size in
        guarded size (length zip_bytes) (
          let raw_parts = split_buffer zip_bytes size in
          if ltb batch_max_parts (length raw_parts)
          then too_many_parts (length raw_parts)
          else built (record {
            batch_file = record {
              file_size = length zip_bytes;
              file_hash = sha256 zip_bytes;
              compression_type = options.compression_type;
              file_parts = number_parts 0 (map encrypt raw_parts);
            };
            encrypted_parts = map encrypt raw_parts;
          }))

-- The chunks that were read and not used yet, their size, and the chunks that are still to be read.
pub record Reading : Type 0 where
  pub pending : List Bytes
  pub pending_size : ℕ
  pub unread : List Bytes

-- The loop that reads up to the target size, or to the end of the stream.
unfoldable pub accumulate : ℕ → List Bytes → ℕ → List Bytes → Reading
accumulate target pending pending_size [] = record {
  pending = pending;
  pending_size = pending_size;
  unread = [];
}
accumulate target pending pending_size (chunk ∷ chunks) =
    let more = accumulate target (pending ++ chunk ∷ []) (pending_size + length chunk) chunks in
    if ltb pending_size target
    then more
    else record { pending = pending; pending_size = pending_size; unread = chunk ∷ chunks }

-- What is left pending once a part is taken.
abbrev pub remainder : ℕ → Bytes → List Bytes → Reading
remainder target buffer unread =
    if ltb target (length buffer)
    then record {
      pending = drop target buffer ∷ [];
      pending_size = length (drop target buffer);
      unread = unread;
    }
    else record { pending = []; pending_size = 0; unread = unread }

-- The loop over the parts, with the parts that are left: the data of each part.
unfoldable pub stream_parts : ℕ → ℕ → ℕ → ℕ → ℕ → Reading → List Bytes
stream_parts zero index part_count zip_size size r = []
stream_parts (suc left) index part_count zip_size size r =
    let target = if index == part_count - 1 then zip_size - index * size else size in
    let filled = accumulate target r.pending r.pending_size r.unread in
    let buffer = flatten filled.pending in
    take target buffer
    ∷ stream_parts left (index + 1) part_count zip_size size (remainder target buffer filled.unread)

module _ (sha256 : Bytes → String) (encrypt_stream : List Bytes → List Bytes) where
  -- BatchFileBuilder.buildFromStream(zipStreamFactory, zipSize, encryptStreamFn, hashStreamFn, options)
  unfoldable pub build_from_stream :
      List Bytes → ℕ → (List Bytes → String) → BatchFileBuildOptions → Result BatchStreamBuildResult
  build_from_stream chunks zip_size hash_stream options =
      let size = or_default options.max_part_size batch_max_part_size in
      guarded size zip_size (
        let part_count = ceil_div zip_size size in
        if ltb batch_max_parts part_count
        then too_many_parts part_count
        else let encrypted =
            map (λ part. flatten (encrypt_stream (part ∷ [])))
              (stream_parts part_count 0 part_count zip_size size
                (record { pending = []; pending_size = 0; unread = chunks })) in
          built (record {
            batch_file = record {
              file_size = zip_size;
              file_hash = hash_stream chunks;
              compression_type = options.compression_type;
              file_parts = number_parts sha256 0 encrypted;
            };
            stream_parts = number_streams sha256 0 encrypted;
          }))
