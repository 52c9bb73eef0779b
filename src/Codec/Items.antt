-- ===== src/Codec/Items.antt =====
-- Decoding one item that was encoded: the item is read, and the rest of the input is left.
use zenfs_modified.Base.{
  ℕ, suc, ◌<◌, ◌≡◌, refl, sym, ap, ◌∙◌, true, none, some, List, [], ◌∷◌, ◌++◌, length,
  length-append, arith,
}
use mathlib.Core.List.{append-nil}
use zenfs_modified.Base.Int.{negsuc}
use zenfs_modified.Base.Words.{u32_mod, u64_mod}
use zenfs_modified.Store.{ZoneExtent}
use zenfs_modified.Codec.{
  Coding, Target, go, tag_file_size, tag_write_life_time_hint, tag_extent, tag_modification_time,
  tag_active_extent_start, tag_is_sparse, tag_linked_filename, get_io_zone, credit, encode_extent,
  decode_extent, add_extent, add_slice, slice_or_empty, decode_item, decode_loop, synced,
}

-- What the source relies on in RocksDB's coding: each reader takes back what its writer wrote, and
-- leaves what follows; the fixed items have their sizes.
pub record CodingLaws (c : Coding) : Type 0 where
  pub get-put32 :
      (n : ℕ) (rest : List ℕ)
      → n < u32_mod
      → c.get_fixed32 (c.put_fixed32 n ++ rest) ≡ some (n, rest)
  pub get-put64 :
      (n : ℕ) (rest : List ℕ)
      → n < u64_mod
      → c.get_fixed64 (c.put_fixed64 n ++ rest) ≡ some (n, rest)
  pub get-put_prefixed :
      (s rest : List ℕ)
      → length s < u32_mod
      → c.get_length_prefixed (c.put_length_prefixed s ++ rest) ≡ some (s, rest)
  pub get32-nil : c.get_fixed32 [] ≡ none
  pub length-put32 : (n : ℕ) → length (c.put_fixed32 n) ≡ 4
  pub length-put64 : (n : ℕ) → length (c.put_fixed64 n) ≡ 8

-- An extent as it is read back: its level is not stored.
abbrev pub unlevelled : ZoneExtent → ZoneExtent
unlevelled e = record e { level = negsuc 0 }

abbrev pub with_extent : ZoneExtent → Target → Target
with_extent e t = record {
  file = record t.file { extents = t.file.extents ++ unlevelled e ∷ [] };
  zone = credit (unlevelled e) t.zone;
}

module _ (c : Coding) (laws : CodingLaws c) where
  get-put64_end : (n : ℕ) → n < u64_mod → c.get_fixed64 (c.put_fixed64 n) ≡ some (n, [])
  get-put64_end n h = ap c.get_fixed64 (sym (append-nil (c.put_fixed64 n))) ∙ laws.get-put64 n [] h

  pub length-encode_extent : (e : ZoneExtent) → length (encode_extent c e) ≡ 16
  unfolding encode_extent
  length-encode_extent e =
      omega
        (arith, length-append (c.put_fixed64 e.start) (c.put_fixed64 e.length), laws.length-put64)

  -- An extent's encoding is read back as its start and its length.
  pub decode-encode_extent :
      (e : ZoneExtent)
      → e.start < u64_mod
      → e.length < u64_mod
      → decode_extent c (encode_extent c e) ≡ some (e.start, e.length)
  unfolding decode_extent encode_extent length-encode_extent
  decode-encode_extent e hs hl = rw (
    length-encode_extent e,
    laws.get-put64 e.start (c.put_fixed64 e.length) hs,
    get-put64_end e.length hl,
  )

  module _ (io_zones : List ℕ) (zone_size : ℕ) where
    pub file_size_item :
        (t : Target) (n : ℕ) (rest : List ℕ)
        → n < u64_mod
        → decode_item c io_zones zone_size tag_file_size t (c.put_fixed64 n ++ rest)
          ≡ go (record t { file = record t.file { file_size = n } }) rest
    unfolding decode_item
    file_size_item t n rest h = rw (laws.get-put64 n rest h)

    pub life_time_item :
        (t : Target) (n : ℕ) (rest : List ℕ)
        → n < u32_mod
        → decode_item c io_zones zone_size tag_write_life_time_hint t (c.put_fixed32 n ++ rest)
          ≡ go (record t { file = record t.file { lifetime = n } }) rest
    unfolding decode_item
    life_time_item t n rest h = rw (laws.get-put32 n rest h)

    pub modification_time_item :
        (t : Target) (n : ℕ) (rest : List ℕ)
        → n < u64_mod
        → decode_item c io_zones zone_size tag_modification_time t (c.put_fixed64 n ++ rest)
          ≡ go (record t { file = record t.file { m_time = n } }) rest
    unfolding decode_item
    modification_time_item t n rest h = rw (laws.get-put64 n rest h)

    pub active_start_item :
        (t : Target) (n : ℕ) (rest : List ℕ)
        → n < u64_mod
        → decode_item c io_zones zone_size tag_active_extent_start t (c.put_fixed64 n ++ rest)
          ≡ go (record t { file = record t.file { extent_start = n } }) rest
    unfolding decode_item
    active_start_item t n rest h = rw (laws.get-put64 n rest h)

    pub sparse_item :
        (t : Target) (rest : List ℕ)
        → decode_item c io_zones zone_size tag_is_sparse t rest
          ≡ go (record t { file = record t.file { is_sparse = true } }) rest
    unfolding decode_item
    sparse_item t rest = refl

    pub link_item :
        (t : Target) (x : ℕ) (name rest : List ℕ)
        → length (x ∷ name) < u32_mod
        → decode_item c io_zones zone_size tag_linked_filename t
            (c.put_length_prefixed (x ∷ name) ++ rest)
          ≡ go
              (record t {
                file = record t.file { linkfiles = t.file.linkfiles ++ (x ∷ name) ∷ [] };
              })
              rest
    unfolding decode_item
    link_item t x name rest h = rw (laws.get-put_prefixed (x ∷ name) rest h)

    pub extent_item :
        (t : Target) (e : ZoneExtent) (rest : List ℕ)
        → e.start < u64_mod
        → e.length < u64_mod
        → length (encode_extent c e) < u32_mod
        → get_io_zone t.zone zone_size io_zones e.start ≡ some e.zone
        → decode_item c io_zones zone_size tag_extent t
            (c.put_length_prefixed (encode_extent c e) ++ rest)
          ≡ go (with_extent e t) rest
    unfolding decode_item add_extent
    extent_item t e rest hs hl hp hz =
        let input = c.put_length_prefixed (encode_extent c e) ++ rest in
        ap (λ r. add_slice c io_zones zone_size t (slice_or_empty c io_zones zone_size input r))
          (laws.get-put_prefixed (encode_extent c e) rest hp)
        ∙ rw (decode-encode_extent e hs hl, hz, add_extent)

    -- A tag and its item take one round.
    pub decode-tag :
        (n tag : ℕ) (t t' : Target) (rest rest' : List ℕ)
        → tag < u32_mod
        → decode_item c io_zones zone_size tag t rest ≡ go t' rest'
        → decode_loop c io_zones zone_size (suc n) t (c.put_fixed32 tag ++ rest)
          ≡ decode_loop c io_zones zone_size n t' rest'
    unfolding decode_loop
    decode-tag n tag t t' rest rest' h e =
        rw (laws.get-put32 tag rest h, decode_loop) (rw (e, decode_loop))

    pub decode-end :
        (n : ℕ) (t : Target)
        → decode_loop c io_zones zone_size (suc n) t [] ≡ go (synced c io_zones zone_size t) []
    unfolding decode_loop
    decode-end n t = rw (laws.get32-nil, decode_loop)
