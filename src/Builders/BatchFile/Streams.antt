-- ===== src/Builders/BatchFile/Streams.antt =====
-- builders/batch-file.ts: the parts that buildFromStream reads, whatever the chunks of the stream are.
use mathlib.Core.List.{append_assoc, append-nil}
use ksef_client_ts.Base.{
  ℕ, zero, suc, ◌+◌, ◌-◌, ◌*◌, ◌≤◌, ◌<◌, ◌≡◌, refl, sym, ap, ◌∙◌, List, [], ◌∷◌, ◌++◌, arith, ltb,
  length, take, drop, flatten, fun_ext, map, length-drop, take_all, flatten-append, length-append,
  ◌⊎◌, inl, inr, Bool-cases, ltb→lt, true, false, String, or_default, ◌==◌,
}
use ksef_client_ts.Builders.BatchFile.{
  Bytes, ceil_div, build, Result, built, too_many_parts, bad_part_size, empty_archive,
  archive_too_large, batch_max_parts, batch_max_total_size, BatchFileBuildResult,
  BatchFileBuildOptions, batch_max_part_size, split_buffer, Reading, accumulate, remainder,
  stream_parts, number_streams, build_from_stream, BatchStreamBuildResult,
}
use ksef_client_ts.Builders.BatchFile.Slices.{slices, ceil_div_step, ceil_div_end, length-slices}
use ksef_client_ts.Builders.BatchFile.Splitting.{split_buffer-slices}

take_over : (n : ℕ) (xs ys : Bytes) → n ≤ length xs → take n (xs ++ ys) ≡ take n xs
take_over zero xs ys h = refl
take_over (suc n) [] ys h = elim h [ ]
take_over (suc n) (x ∷ xs) ys h = rw (take_over n xs ys (omega arith))

drop_over : (n : ℕ) (xs ys : Bytes) → n ≤ length xs → drop n (xs ++ ys) ≡ drop n xs ++ ys
drop_over zero xs ys h = refl
drop_over (suc n) [] ys h = elim h [ ]
drop_over (suc n) (x ∷ xs) ys h = drop_over n xs ys (omega arith)

drop_all : (n : ℕ) (xs : Bytes) → length xs ≤ n → drop n xs ≡ []
drop_all zero [] h = refl
drop_all zero (x ∷ xs) h = elim h [ ]
drop_all (suc n) [] h = refl
drop_all (suc n) (x ∷ xs) h = drop_all n xs (omega arith)

-- A reading that stands for what is left of the archive.
pub record Holds (bytes : Bytes) (r : Reading) : Type 0 where
  pub content : flatten r.pending ++ flatten r.unread ≡ bytes
  pub counted : r.pending_size ≡ length (flatten r.pending)

-- The reading stops only where the target is reached or the stream has ended.
abbrev Reached : ℕ → Reading → Type 0
Reached target r = (target ≤ length (flatten r.pending)) ⊎ (r.unread ≡ [])

accumulate-Holds :
    (target : ℕ) (pending : List Bytes) (size : ℕ) (chunks : List Bytes) (bytes : Bytes)
    → Holds bytes (record { pending = pending; pending_size = size; unread = chunks })
    → Holds bytes (accumulate target pending size chunks)
      × Reached target (accumulate target pending size chunks)
unfolding accumulate
accumulate-Holds target pending size [] bytes h = (h, inr refl)
accumulate-Holds target pending size (chunk ∷ chunks) bytes h =
    elim (Bool-cases (ltb size target)) [
      | inr full ↦
          let c = h.counted in
          let le : target ≤ length (flatten pending) = ground arith in rw full (h, inl le)
      | inl short ↦
          let joined : flatten (pending ++ chunk ∷ []) ≡ flatten pending ++ chunk =
            flatten-append pending (chunk ∷ [])
            ∙ ap (λ xs. flatten pending ++ xs) (append-nil chunk) in
          let l = length-append (flatten pending) chunk in
          let c = h.counted in
          rw short (
            accumulate-Holds target (pending ++ chunk ∷ []) (size + length chunk) chunks bytes
              (record {
                content =
                    rw joined (append_assoc (flatten pending) chunk (flatten chunks) ∙ h.content);
                counted = rw joined (omega arith);
              }))
    ]

module _ (target : ℕ) (bytes : Bytes) (r : Reading) (h : Holds bytes r)
    (reached : Reached target r) where
  taken : take target (flatten r.pending) ≡ take target bytes
  taken = elim reached [
    | inl enough ↦
        sym (take_over target (flatten r.pending) (flatten r.unread) enough)
        ∙ ap (take target) h.content
    | inr ended ↦
        let e : flatten r.pending ++ [] ≡ bytes = rw (sym (ap flatten ended)) h.content in
        ap (take target) (sym (append-nil (flatten r.pending)) ∙ e)
  ]

  abbrev buffer : Bytes
  buffer = flatten r.pending

  left_over : drop target buffer ≡ [] → Reached target r → flatten r.unread ≡ drop target bytes
  left_over over (inl enough) =
      ap (λ xs. xs ++ flatten r.unread) (sym over)
      ∙ sym (drop_over target buffer (flatten r.unread) enough)
      ∙ ap (drop target) h.content
  left_over over (inr ended) =
      let e : flatten r.unread ≡ [] = ap flatten ended in
      let g : buffer ≡ bytes =
        sym (append-nil buffer) ∙ ap (λ xs. buffer ++ xs) (sym e) ∙ h.content in
      e ∙ sym over ∙ ap (drop target) g

  remainder-Holds : Holds (drop target bytes) (remainder target (flatten r.pending) r.unread)
  remainder-Holds = elim (Bool-cases (ltb target (length buffer))) [
    | inl more ↦
        let lt = ltb→lt target (length buffer) more in
        rw more (record {
          content =
              ap (λ xs. xs ++ flatten r.unread) (append-nil (drop target buffer))
              ∙ sym (drop_over target buffer (flatten r.unread) (omega arith))
              ∙ ap (drop target) h.content;
          counted = sym (ap length (append-nil (drop target buffer)));
        })
    | inr rest ↦
        let le : length buffer ≤ target = ground arith in
        let over = drop_all target buffer le in
        rw rest (record { content = left_over over reached; counted = refl })
  ]

module _ (part_count zip_size size : ℕ) (room : 0 < size) where
  -- Whatever the chunks are, the parts are the slices of what is left.
  stream_parts-slices :
      (rounds index : ℕ) (bytes : Bytes) (r : Reading)
      → Holds bytes r
      → index + rounds ≡ part_count
      → zip_size ≡ index * size + length bytes
      → rounds ≡ ceil_div (length bytes) size
      → stream_parts rounds index part_count zip_size size r ≡ slices rounds size bytes
  unfolding stream_parts slices
  stream_parts-slices zero index bytes r h at total parts = refl
  stream_parts-slices (suc zero) index bytes r h at total parts =
      let (some_left, next) = ceil_div_step 0 (length bytes) size room parts in
      let short = ceil_div_end (length bytes - size) size room next in
      let last : (index == part_count - 1) ≡ true = ground arith in
      let target : zip_size - index * size ≡ length bytes = omega arith in
      let (held, reached) =
        accumulate-Holds (length bytes) r.pending r.pending_size r.unread bytes h in
      let t = taken (length bytes) bytes _ held reached in
      let whole : take (length bytes) bytes ≡ take size bytes =
        take_all (length bytes) bytes (omega arith) ∙ sym (take_all size bytes (omega arith)) in
      rw (last, target) (ap (λ xs. xs ∷ []) (t ∙ whole))
  stream_parts-slices (suc (suc n)) index bytes r h at total parts =
      let (some_left, next) = ceil_div_step (suc n) (length bytes) size room parts in
      let (more_left, _) = ceil_div_step n (length bytes - size) size room next in
      let last : (index == part_count - 1) ≡ false = ground arith in
      let (held, reached) = accumulate-Holds size r.pending r.pending_size r.unread bytes h in
      let t = taken size bytes _ held reached in
      let d = length-drop size bytes in
      let product : (index + 1) * size ≡ index * size + size = grind arith in
      let ih =
        stream_parts-slices (suc n) (index + 1) (drop size bytes) _
          (remainder-Holds size bytes _ held reached) (omega arith) (omega arith) (rw d next) in
      rw last (rw (t, ih) refl)

module _ (sha256 : Bytes → String) (encrypt : Bytes → Bytes)
    (encrypt_stream : List Bytes → List Bytes) where
  -- A result of `buildFromStream` that is one of `build`.
  abbrev pub SameResult : Result BatchFileBuildResult → Result BatchStreamBuildResult → Type 0
  SameResult (built r) (built s) =
      (s.batch_file ≡ r.batch_file) × (s.stream_parts ≡ number_streams sha256 0 r.encrypted_parts)
  SameResult bad_part_size bad_part_size = Unit
  SameResult empty_archive empty_archive = Unit
  SameResult archive_too_large archive_too_large = Unit
  SameResult (too_many_parts n) (too_many_parts m) = n ≡ m
  SameResult _ _ = ⊥

  same_parts :
      (chunks : List Bytes) (size : ℕ)
      → 0 < size
      → 0 < length (flatten chunks)
      → ((part : Bytes) → flatten (encrypt_stream (part ∷ [])) ≡ encrypt part)
      → let n = ceil_div (length (flatten chunks)) size in
        (map
            (λ (part : Bytes). flatten (encrypt_stream (part ∷ [])))
            (stream_parts n 0 n
              (length (flatten chunks))
              size
              (record { pending = []; pending_size = 0; unread = chunks }))
          ≡ map encrypt (split_buffer (flatten chunks) size))
        × (length (split_buffer (flatten chunks) size) ≡ n)
  same_parts chunks size room busy same_cipher =
      let bytes = flatten chunks in
      let n = ceil_div (length bytes) size in
      let cut = split_buffer-slices bytes size room busy in
      let start : Holds bytes (record { pending = []; pending_size = 0; unread = chunks }) =
        record { content = refl; counted = refl } in
      let read =
        stream_parts-slices n (length bytes) size room n 0 bytes _ start (omega arith) (omega arith)
          refl in
      (
        ap (map (λ (part : Bytes). flatten (encrypt_stream (part ∷ [])))) (read ∙ sym cut)
            ∙ ap (λ f. map f (split_buffer bytes size)) (fun_ext same_cipher),
        ap length cut ∙ length-slices size room n bytes,
      )

  -- An encryption of streams that gives what the encryption of bytes gives, a hash of streams that
  -- gives the hash of their bytes, and a stream whose chunks, of any sizes, make up the archive:
  -- `buildFromStream` describes the archive as `build` does, and its streams hold the parts of
  -- `build`; it refuses what `build` refuses, with the same error.
  pub build_from_stream-build :
      (hash_stream : List Bytes → String) (options : BatchFileBuildOptions) (chunks : List Bytes)
      → ((part : Bytes) → flatten (encrypt_stream (part ∷ [])) ≡ encrypt part)
      → hash_stream chunks ≡ sha256 (flatten chunks)
      → SameResult (build sha256 encrypt (flatten chunks) options) (
          build_from_stream sha256 encrypt_stream chunks
            (length (flatten chunks))
            hash_stream
            options)
  unfolding build build_from_stream
  build_from_stream-build hash_stream options chunks same_cipher same_hash =
      let size = or_default options.max_part_size batch_max_part_size in
      let bytes = flatten chunks in
      elim (Bool-cases (size == 0)) [
        | inl none_left ↦ rw none_left tt
        | inr sized ↦ elim (Bool-cases (length bytes == 0)) [
          | inl empty ↦ rw (sized, empty) tt
          | inr busy ↦ elim (Bool-cases (ltb batch_max_total_size (length bytes))) [
            | inl large ↦ rw (sized, busy, large) tt
            | inr fits ↦
                let (same, few) =
                  same_parts chunks size (ground arith) (ground arith) same_cipher in
                elim (Bool-cases (ltb batch_max_parts (ceil_div (length bytes) size))) [
                  | inl many ↦ rw (sized, busy, fits, few, many) refl
                  | inr not_many ↦
                      rw (sized, busy, fits, few, not_many, same, same_hash) (refl, refl)
                ]
          ]
        ]
      ]
