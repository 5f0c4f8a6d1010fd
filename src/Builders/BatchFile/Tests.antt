-- ===== src/Builders/BatchFile/Tests.antt =====
-- Examples of builders/batch-file.ts: five bytes in parts of two, with a cipher that adds a byte.
use mathlib.Core.List.{append-nil}
use ksef_client_ts.Base.{◌≡◌, refl, ap, none, some, List, [], ◌∷◌, String, flatten}
use ksef_client_ts.Builders.BatchFile.{
  Bytes, BatchFileBuildOptions, BatchFileBuildResult, built, build, build_from_stream, split_buffer,
  split_from, number_parts,
}
use ksef_client_ts.Builders.BatchFile.Splitting.{Splits, build-Splits}
use ksef_client_ts.Builders.BatchFile.Streams.{SameResult, build_from_stream-build}

abbrev digest : Bytes → String
digest [] = "empty"
digest (b ∷ bytes) = "some bytes"

abbrev cipher : Bytes → Bytes
cipher part = 0 ∷ part

abbrev stream_cipher : List Bytes → List Bytes
stream_cipher chunks = (0 ∷ []) ∷ chunks

abbrev options : BatchFileBuildOptions
options = record { max_part_size = some 2; compression_type = none }

abbrev chunks : List Bytes
chunks = (1 ∷ 2 ∷ 3 ∷ []) ∷ (4 ∷ []) ∷ (5 ∷ []) ∷ []

abbrev result : BatchFileBuildResult
result = record {
  batch_file = record {
    file_size = 5;
    file_hash = "some bytes";
    compression_type = none;
    file_parts =
        record { ordinal_number = 1; file_size = 3; file_hash = "some bytes" }
        ∷ record { ordinal_number = 2; file_size = 3; file_hash = "some bytes" }
        ∷ record { ordinal_number = 3; file_size = 2; file_hash = "some bytes" }
        ∷ [];
  };
  encrypted_parts = (0 ∷ 1 ∷ 2 ∷ []) ∷ (0 ∷ 3 ∷ 4 ∷ []) ∷ (0 ∷ 5 ∷ []) ∷ [];
}

built_result : build digest cipher (flatten chunks) options ≡ built result
unfolding build split_buffer split_from number_parts
built_result = refl

build-Splits_example : Splits digest cipher (flatten chunks) 2 result
build-Splits_example = build-Splits digest cipher (flatten chunks) options result built_result

build_from_stream-build_example :
    SameResult digest cipher stream_cipher
      (build digest cipher (flatten chunks) options)
      (build_from_stream digest stream_cipher chunks 5 (λ cs. digest (flatten cs)) options)
build_from_stream-build_example =
    build_from_stream-build digest cipher stream_cipher (λ cs. digest (flatten cs)) options chunks
      (λ part. ap (λ (xs : Bytes). 0 ∷ xs) (append-nil part)) refl
