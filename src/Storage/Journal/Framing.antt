-- ===== src/Storage/Journal/Framing.antt =====
-- Records that are read back, and records that are cut off.
use xde.Prelude.{
  length-take, ℕ, suc, ◌+◌, ◌-◌, ◌/◌, ◌%◌, ◌<◌, ◌^◌, ◌≡◌, refl, ap, ◌∙◌, true, false, none, some,
  List, [], ◌∷◌, ◌++◌, ltb, leb, ◌==◌, if◌then◌else◌, length, take, arith, Bool-cases, inl, inr,
}
use xde.Storage.Journal.{
  magic, format_version, JournalPayload, Codec, le16, le32, from_le16, from_le32, truncated_header,
  truncated_body, loaded, corrupt, frame, persisted, decode_body, body_of, load_raw,
}

from_le32-le32 :
    (n : ℕ)
    → n < 2 ^ 32
    → from_le32 (n % 256) (n / 256 % 256) (n / 65536 % 256) (n / 16777216 % 256) ≡ n
unfolding from_le32
from_le32-le32 n l = omega (arith, l)

take-all : (xs : List ℕ) → take (length xs) xs ≡ xs
take-all [] = refl
take-all (x ∷ xs) = ap (x ∷◌) (take-all xs)

take-append : (xs ys : List ℕ) (k : ℕ) → take (length xs + k) (xs ++ ys) ≡ xs ++ take k ys
take-append [] ys k = let e : 0 + k ≡ k = omega arith in rw e refl
take-append (x ∷ xs) ys k =
    let e : suc (length xs) + k ≡ suc (length xs + k) = omega arith in
    rw e (ap (x ∷◌) (take-append xs ys k))

module _ (codec : Codec) where
  -- The first 18 bytes of a record.
  abbrev header : List ℕ → List ℕ
  header body =
      magic ++ (le16 format_version ++ (le32 (length body % 2 ^ 32) ++ le32 (codec.crc32c body)))

  load_raw-header :
      (body rest : List ℕ)
      → length body < 2 ^ 32
      → codec.crc32c body < 2 ^ 32
      → load_raw codec (header body ++ rest)
        ≡ decode_body codec (body_of codec (header body ++ rest) (length body)) (codec.crc32c body)
  unfolding load_raw le16 le32 from_le16
  load_raw-header body rest l m =
      let long : ltb (length (header body ++ rest)) 18 ≡ false = ground arith in
      let size : length body % 2 ^ 32 ≡ length body = omega (arith, l) in
      let e = from_le32-le32 (length body) l in
      let f = from_le32-le32 (codec.crc32c body) m in rw (size, long, load_raw) (rw (e, f) refl)

  body_of-header :
      (body rest : List ℕ)
      → body_of codec (header body ++ rest) (length body)
        ≡ (if leb (length body) (length rest) then some (take (length body) rest) else none)
  unfolding body_of le16 le32
  body_of-header body rest =
      let e : leb (18 + length body) (length (header body ++ rest))
          ≡ leb (length body) (length rest) =
        ground arith in
      rw e refl

  -- A payload whose encoding is shorter than 2^32 bytes, has a checksum below 2^32 and decodes to
  -- it is read back from the record that is written of it, not dirty.
  pub load_raw-frame :
      (body : List ℕ) (payload : JournalPayload)
      → codec.to_allocvec payload ≡ some body
      → codec.from_bytes body ≡ some payload
      → codec.crc32c body < 2 ^ 32
      → length body < 2 ^ 32
      → (persisted codec payload ≡ some (frame codec body))
        × (load_raw codec (frame codec body) ≡ loaded (record { payload = payload; dirty = false }))
  unfolding persisted frame decode_body le16 le32
  load_raw-frame body payload h round crc l =
      let fits : leb (length body) (length body) ≡ true = ground arith in
      let same : (codec.crc32c body == codec.crc32c body) ≡ true = ground arith in
      (
        rw (h, persisted) refl,
        load_raw-header body body l crc
            ∙ (rw (body_of-header body body, fits, take-all body, decode_body)
                (rw (same, round) refl)),
      )

  load_raw-short : (raw : List ℕ) → length raw < 18 → load_raw codec raw ≡ corrupt truncated_header
  unfolding load_raw
  load_raw-short raw l =
      let e : ltb (length raw) 18 ≡ true = ground (arith, l) in rw (e, load_raw) refl

  load_raw-cut_body :
      (body : List ℕ) (k : ℕ)
      → codec.crc32c body < 2 ^ 32
      → length body < 2 ^ 32
      → k < length body
      → load_raw codec (header body ++ take k body) ≡ corrupt truncated_body
  unfolding decode_body
  load_raw-cut_body body k crc l m =
      let cut : leb (length body) (length (take k body)) ≡ false =
        ground (arith, length-take k body, m) in
      load_raw-header body (take k body) l crc
      ∙ (rw (body_of-header body (take k body), cut, decode_body) refl)

  -- For a body shorter than 2^32 bytes, with a checksum below 2^32, a record that is cut off
  -- anywhere is rejected, as one without its header or without its body.
  pub load_raw-torn :
      (body : List ℕ) (n : ℕ)
      → codec.crc32c body < 2 ^ 32
      → length body < 2 ^ 32
      → n < length (frame codec body)
      → load_raw codec (take n (frame codec body))
        ≡ corrupt (if ltb n 18 then truncated_header else truncated_body)
  unfolding frame le16 le32
  load_raw-torn body n crc l m = elim (Bool-cases (ltb n 18)) [
    | inl e ↦
        let short : length (take n (frame codec body)) < 18 =
          ground (arith, e, length-take n (frame codec body), m) in
        load_raw-short (take n (frame codec body)) short ∙ rw e refl
    | inr e ↦
        let k : ℕ = n - 18 in
        let at : n ≡ length (header body) + k = ground (arith, e) in
        let cut : take n (frame codec body) ≡ header body ++ take k body =
          ap (λ i. take i (header body ++ body)) at ∙ take-append (header body) body k in
        rw (cut, e) (load_raw-cut_body body k crc l (ground (arith, m, e)))
  ]
