-- ===== src/Codec.antt =====
-- fs/zbd_zonefile_zenfs.cc: the record of a file in the metadata log, `ZoneFile::EncodeTo` and
-- `ZoneFile::DecodeFrom`. The fixed-width and length-prefixed items are RocksDB's
-- (util/coding.h): they are the fields of `Coding`. Bytes are numbers.
pub mod Items
pub mod RoundTrip
use mathlib.Core.Option
use zenfs_modified.Base.{
  ℕ, zero, suc, ◌%◌, Bool, true, false, ◌&&◌, Option, none, some, List, [], ◌∷◌, ◌++◌, ltb, leb,
  ◌==◌, if◌then◌else◌, length, drop,
}
use zenfs_modified.Base.Int.{negsuc}
use zenfs_modified.Base.Words.{add64, u32_mod}
use zenfs_modified.Store.{
  Zone, ZoneExtent, ZoneFile, Device, Error, corruption, blocked, ok, err, M, point_at,
}

pub record Coding : Type 0 where
  pub put_fixed32 : ℕ → List ℕ
  pub put_fixed64 : ℕ → List ℕ
  pub put_length_prefixed : List ℕ → List ℕ
  pub get_fixed32 : List ℕ → Option (ℕ × List ℕ)
  pub get_fixed64 : List ℕ → Option (ℕ × List ℕ)
  pub get_length_prefixed : List ℕ → Option (List ℕ × List ℕ)

-- `ZoneFileTag`
abbrev pub tag_file_id : ℕ
tag_file_id = 1

abbrev pub tag_file_size : ℕ
tag_file_size = 3

abbrev pub tag_write_life_time_hint : ℕ
tag_write_life_time_hint = 4

abbrev pub tag_extent : ℕ
tag_extent = 5

abbrev pub tag_modification_time : ℕ
tag_modification_time = 6

abbrev pub tag_active_extent_start : ℕ
tag_active_extent_start = 7

abbrev pub tag_is_sparse : ℕ
tag_is_sparse = 8

abbrev pub tag_linked_filename : ℕ
tag_linked_filename = 9

abbrev pub no_extent : ℕ
no_extent = 0xffff_ffff_ffff_ffff

-- What decoding changes: the file, and the space that the zones count as used.
pub record Target : Type 0 where
  pub file : ZoneFile
  pub zone : ℕ → Zone

-- A step goes on with the rest of the input, or stops the decoding with an error.
pub data Step : Type 0 where
  go : Target → List ℕ → Step
  stop : Error → Target → Step

-- `ZonedBlockDevice::GetIOZone`
unfoldable pub get_io_zone : (ℕ → Zone) → ℕ → List ℕ → ℕ → Option ℕ
unfolding add64
get_io_zone h zone_size [] offset = none
get_io_zone h zone_size (z ∷ zs) offset =
    if leb (h z).start offset && ltb offset (add64 (h z).start zone_size)
    then some z
    else get_io_zone h zone_size zs offset

-- The extent's bytes come to count as used in its zone.
unfoldable pub credit : ZoneExtent → (ℕ → Zone) → ℕ → Zone
unfolding add64
credit e h =
    point_at h e.zone
      (record (h e.zone) { used_capacity = add64 (h e.zone).used_capacity e.length })

module _ (c : Coding) where
  unfoldable pub encode_extent : ZoneExtent → List ℕ
  encode_extent e = c.put_fixed64 e.start ++ c.put_fixed64 e.length

  unfoldable pub encode_extents : List ZoneExtent → List ℕ
  unfolding encode_extent
  encode_extents [] = []
  encode_extents (e ∷ es) =
      c.put_fixed32 tag_extent ++ (c.put_length_prefixed (encode_extent e) ++ encode_extents es)

  unfoldable pub encode_links : List (List ℕ) → List ℕ
  encode_links [] = []
  encode_links (n ∷ ns) =
      c.put_fixed32 tag_linked_filename ++ (c.put_length_prefixed n ++ encode_links ns)

  unfoldable pub encode_sparse : Bool → List ℕ
  encode_sparse true = c.put_fixed32 tag_is_sparse
  encode_sparse false = []

  -- `EncodeTo`, from the extent of the given index on.
  unfoldable pub encode_to : ZoneFile → ℕ → List ℕ
  unfolding encode_extents encode_links encode_sparse
  encode_to v extent_start =
      c.put_fixed32 tag_file_id
      ++ (c.put_fixed64 v.file_id
          ++ (c.put_fixed32 tag_file_size
              ++ (c.put_fixed64 v.file_size
                  ++ (c.put_fixed32 tag_write_life_time_hint
                      ++ (c.put_fixed32 (v.lifetime % u32_mod)
                          ++ (encode_extents (drop extent_start v.extents)
                              ++ (c.put_fixed32 tag_modification_time
                                  ++ (c.put_fixed64 v.m_time
                                      ++ (c.put_fixed32 tag_active_extent_start
                                          ++ (c.put_fixed64 v.extent_start
                                              ++ (encode_sparse v.is_sparse
                                                  ++ encode_links v.linkfiles)))))))))))

  -- `ZoneExtent::DecodeFrom`: the slice must hold the two numbers and nothing else.
  unfoldable pub decode_extent : List ℕ → Option (ℕ × ℕ)
  decode_extent slice =
      if length slice == 16
      then elim (c.get_fixed64 slice) [
        | none ↦ none
        | some (start, rest) ↦ Option.map (λ r. (start, r.0)) (c.get_fixed64 rest)
      ]
      else none

  module _ (io_zones : List ℕ) (zone_size : ℕ) where
    -- The extent's zone is the one that holds its start.
    unfoldable pub add_extent : Target → List ℕ → Option (ℕ × ℕ) → Step
    add_extent t rest none = stop corruption t
    add_extent t rest (some (start, len)) = elim (get_io_zone t.zone zone_size io_zones start) [
      | none ↦ stop corruption t
      | some z ↦
          let e : ZoneExtent = record { start = start; length = len; zone = z; level = negsuc 0 } in
          go
            (record {
              file = record t.file { extents = t.file.extents ++ e ∷ [] };
              zone = credit e t.zone;
            })
            rest
    ]

    -- A number that must be there.
    abbrev pub with_number : Target → (ℕ → ZoneFile) → Option (ℕ × List ℕ) → Step
    with_number t set none = stop corruption t
    with_number t set (some (n, rest)) = go (record t { file = set n }) rest

    -- A missing prefix leaves the slice empty, which is then no extent.
    abbrev pub slice_or_empty : List ℕ → Option (List ℕ × List ℕ) → List ℕ × List ℕ
    slice_or_empty input none = ([], input)
    slice_or_empty input (some r) = r

    abbrev pub add_slice : Target → List ℕ × List ℕ → Step
    add_slice t (slice, rest) = add_extent t rest (decode_extent slice)

    abbrev pub add_link : Target → Option (List ℕ × List ℕ) → Step
    add_link t none = stop corruption t
    add_link t (some ([], rest)) = stop corruption t
    add_link t (some (x ∷ name, rest)) =
        go (record t { file = record t.file { linkfiles = t.file.linkfiles ++ (x ∷ name) ∷ [] } })
          rest

    -- The `switch` of `DecodeFrom`.
    unfoldable pub decode_item : ℕ → Target → List ℕ → Step
    decode_item tag t input =
        if tag == tag_file_size
        then with_number t (λ n. record t.file { file_size = n }) (c.get_fixed64 input)
        else if tag == tag_write_life_time_hint
        then with_number t (λ n. record t.file { lifetime = n }) (c.get_fixed32 input)
        else if tag == tag_extent
        then add_slice t (slice_or_empty input (c.get_length_prefixed input))
        else if tag == tag_modification_time
        then with_number t (λ n. record t.file { m_time = n }) (c.get_fixed64 input)
        else if tag == tag_active_extent_start
        then with_number t (λ n. record t.file { extent_start = n }) (c.get_fixed64 input)
        else if tag == tag_is_sparse
        then go (record t { file = record t.file { is_sparse = true } }) input
        else if tag == tag_linked_filename
        then add_link t (c.get_length_prefixed input)
        else stop corruption t

    abbrev pub synced : Target → Target
    synced t = record t {
      file = record t.file { nr_synced_extents = length t.file.extents % u32_mod };
    }

    -- The loop of `DecodeFrom`. An item takes a tag from the input, so the input's length is fuel
    -- enough; it ends well where no tag is left.
    unfoldable pub decode_loop : ℕ → Target → List ℕ → Step
    decode_loop zero t input = stop blocked t
    decode_loop (suc fuel) t input = elim (c.get_fixed32 input) [
      | none ↦ go (synced t) input
      | some (tag, rest) ↦ elim (decode_item tag t rest) [
        | go t' rest' ↦ decode_loop fuel t' rest'
        | stop e t' ↦ stop e t'
      ]
    ]

    abbrev pub decode_body : Target → Option (ℕ × List ℕ) → Step
    decode_body t none = stop corruption t
    decode_body t (some (id, rest)) =
        decode_loop (suc (length rest)) (record t { file = record t.file { file_id = id } }) rest

    abbrev pub decode_header : Target → Option (ℕ × List ℕ) → Step
    decode_header t none = stop corruption t
    decode_header t (some (tag, rest)) =
        if tag == tag_file_id then decode_body t (c.get_fixed64 rest) else stop corruption t

    -- `DecodeFrom`: the file's number comes first.
    unfoldable pub decode_from : Target → List ℕ → Step
    decode_from t input = decode_header t (c.get_fixed32 input)

module _ {B : Type 0} (c : Coding) where
  -- The call on the device: what was decoded before an error stays.
  unfoldable pub commit : ℕ → Step → M B (Unit {0})
  commit f (go t rest) d = ok tt (record d { file = point_at d.file f t.file; zone = t.zone })
  commit f (stop e t) d = err e (record d { file = point_at d.file f t.file; zone = t.zone })

  unfoldable pub decode_file : ℕ → List ℕ → M B (Unit {0})
  decode_file f input d =
      commit f
        (decode_from c d.io_zones d.zone_size (record { file = d.file f; zone = d.zone }) input) d
