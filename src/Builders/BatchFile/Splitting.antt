-- ===== src/Builders/BatchFile/Splitting.antt =====
-- builders/batch-file.ts: splitBuffer, and what `build` makes of an archive.
use ksef_client_ts.Base.{
  ℕ, zero, suc, ◌+◌, ◌-◌, ◌≤◌, ◌<◌, ◌≡◌, refl, sym, ap, ◌∙◌, min, List, [], ◌∷◌, arith, ltb, length,
  take, drop, flatten, All, map, length-map, length-drop, take_all, drop-drop, inl, inr, Bool-cases,
  ltb→lt, lt→ltb, leb, leb→le, false, String, or_default, if◌then◌else◌,
}
use ksef_client_ts.Builders.BatchFile.{
  Bytes, ceil_div, subarray, split_from, split_buffer, number_parts, build, guarded, built,
  too_many_parts, batch_max_parts, BatchFileBuildResult, BatchFileBuildOptions, batch_max_part_size,
  FilePart,
}
use ksef_client_ts.Builders.BatchFile.Slices.{
  slices, ceil_div_step, ceil_div_end, flatten-slices, slices-Fits, Fits, ceil_div-sub,
  ceil_div_zero,
}

module _ (bytes : Bytes) (size : ℕ) (room : 0 < size) where
  -- `subarray` stops at the end of the data.
  subarray-take :
      (offset : ℕ)
      → offset < length bytes
      → subarray bytes offset (min (offset + size) (length bytes)) ≡ take size (drop offset bytes)
  subarray-take offset h = elim (Bool-cases (ltb (length bytes) (offset + size))) [
    | inl last ↦
        let lt = ltb→lt (length bytes) (offset + size) last in
        let d = length-drop offset bytes in
        let e : min (offset + size) (length bytes) - offset ≡ length bytes - offset = omega arith in
        ap (λ n. take n (drop offset bytes)) e
        ∙ take_all (length bytes - offset) (drop offset bytes) (omega arith)
        ∙ sym (take_all size (drop offset bytes) (omega arith))
    | inr whole ↦
        let le : offset + size ≤ length bytes = ground arith in
        let e : min (offset + size) (length bytes) - offset ≡ size = omega arith in
        ap (λ n. take n (drop offset bytes)) e
  ]

  split_from-slices :
      (fuel n offset : ℕ)
      → length bytes ≤ fuel + offset
      → n ≡ ceil_div (length bytes - offset) size
      → split_from fuel bytes size offset ≡ slices n size (drop offset bytes)
  unfolding split_from slices
  split_from-slices zero zero offset h e = refl
  split_from-slices (suc fuel) zero offset h e =
      let left = ceil_div_end (length bytes - offset) size room e in
      let over : ltb offset (length bytes) ≡ false = ground arith in rw over refl
  split_from-slices zero (suc n) offset h e =
      let (some_left, _) = ceil_div_step n (length bytes - offset) size room e in
      absurd (omega arith)
  split_from-slices (suc fuel) (suc n) offset h e =
      let (some_left, next) = ceil_div_step n (length bytes - offset) size room e in
      let lt : offset < length bytes = omega arith in
      let later : length bytes - (offset + size) ≡ length bytes - offset - size = omega arith in
      let ih = split_from-slices fuel n (offset + size) (omega arith) (rw later next) in
      rw (lt→ltb offset (length bytes) lt, subarray-take offset lt, ih, drop-drop offset size bytes)
        refl

  pub split_buffer-slices :
      0 < length bytes → split_buffer bytes size ≡ slices (ceil_div (length bytes) size) size bytes
  unfolding split_buffer slices
  split_buffer-slices busy = elim (Bool-cases (leb (length bytes) size)) [
    | inl one ↦
        let le = leb→le (length bytes) size one in
        let d = ceil_div-sub (length bytes) size room busy in
        let z : length bytes - size ≡ 0 = omega arith in
        let c : ceil_div (length bytes) size ≡ 1 =
          d ∙ ap (λ n. suc (ceil_div n size)) z ∙ ap suc (ceil_div_zero size room) in
        rw (one, c, slices, take_all size bytes le) refl
    | inr more ↦
        let z : length bytes ≡ length bytes - 0 = omega arith in
        let c = ap (λ n. ceil_div n size) z in
        rw (more, split_from-slices (length bytes) (ceil_div (length bytes) size) 0 (omega arith) c)
          refl
  ]

-- What the guards let through.
accepted :
    {A : Type 0} (part_size size parts : ℕ) (result r : A)
    → guarded part_size size
        (if ltb batch_max_parts parts then too_many_parts parts else built result)
      ≡ built r
    → (0 < part_size) × (0 < size) × (parts ≤ batch_max_parts) × (result ≡ r)
accepted part_size size parts result r h = (ground arith, ground arith, ground arith, ground arith)

module _ (sha256 : Bytes → String) (encrypt : Bytes → Bytes) where
  -- The numbered metadata of the parts of a result.
  abbrev pub Describes : ℕ → List FilePart → List Bytes → Type 0
  Describes i [] [] = Unit
  Describes i (f ∷ files) (part ∷ parts) =
      (f.ordinal_number ≡ i + 1)
      × (f.file_size ≡ length part)
      × (f.file_hash ≡ sha256 part)
      × Describes (i + 1) files parts
  Describes i _ _ = ⊥

  number_parts-Describes :
      (i : ℕ) (parts : List Bytes) → Describes i (number_parts sha256 i parts) parts
  unfolding number_parts
  number_parts-Describes i [] = tt
  number_parts-Describes i (part ∷ parts) = (refl, refl, refl, number_parts-Describes (i + 1) parts)

  -- A result of `build` for an archive and a part size.
  pub record Splits (bytes : Bytes) (size : ℕ) (r : BatchFileBuildResult) : Type 0 where
    pub raw_parts : List Bytes
    pub encrypted : r.encrypted_parts ≡ map encrypt raw_parts
    pub whole : flatten raw_parts ≡ bytes
    pub sized : All (Fits size) raw_parts
    pub few : length r.encrypted_parts ≤ batch_max_parts
    pub described : Describes 0 r.batch_file.file_parts r.encrypted_parts
    pub total_size : r.batch_file.file_size ≡ length bytes
    pub total_hash : r.batch_file.file_hash ≡ sha256 bytes

  -- What `build` accepts it cuts into at most 50 parts of 1 byte to the part size each, which make up
  -- the archive in order. It encrypts each part, and describes each encrypted part by its number
  -- from 1 on, its size and its hash, and the archive by its size and hash.
  pub build-Splits :
      (bytes : Bytes) (options : BatchFileBuildOptions) (r : BatchFileBuildResult)
      → build sha256 encrypt bytes options ≡ built r
      → Splits bytes (or_default options.max_part_size batch_max_part_size) r
  unfolding build
  build-Splits bytes options r h =
      let size = or_default options.max_part_size batch_max_part_size in
      let raw = split_buffer bytes size in
      let (room, busy, few, result) = accepted size (length bytes) (length raw) _ r h in
      let cut = split_buffer-slices bytes size room busy in
      let l = length-map encrypt raw in
      rw (sym result) (record {
        raw_parts = raw;
        encrypted = refl;
        whole = rw cut (flatten-slices size room (ceil_div (length bytes) size) bytes refl);
        sized = rw cut (slices-Fits size room (ceil_div (length bytes) size) bytes refl);
        few = omega arith;
        described = number_parts-Describes 0 (map encrypt raw);
        total_size = refl;
        total_hash = refl;
      })
