-- ===== src/Codec/RoundTrip.antt =====
-- A file's record is read back: `DecodeFrom` of what `EncodeTo` wrote.
use mathlib.Core.List.{append-nil, append_assoc}
use zenfs_modified.Base.{
  ℕ, suc, ◌+◌, ◌-◌, ◌%◌, ◌≤◌, ◌<◌, ◌≡◌, refl, sym, ap, ◌∙◌, subst, Bool, true, false, ◌||◌, some,
  List, [], ◌∷◌, ◌++◌, map, length, length-append, All, All-mono, arith,
}
use zenfs_modified.Base.Words.{u32_mod, u64_mod}
use zenfs_modified.Store.{Zone, ZoneExtent, ZoneFile}
use zenfs_modified.Codec.{
  Coding, Target, go, tag_file_id, tag_file_size, tag_write_life_time_hint, tag_extent,
  tag_modification_time, tag_active_extent_start, tag_is_sparse, tag_linked_filename, get_io_zone,
  credit, encode_extent, encode_extents, encode_links, encode_sparse, encode_to, decode_item,
  decode_loop, decode_body, decode_header, decode_from, synced,
}
use zenfs_modified.Codec.Items.{
  CodingLaws, file_size_item, life_time_item, modification_time_item, active_start_item,
  sparse_item, link_item, unlevelled, with_extent, extent_item, decode-tag, decode-end,
  length-encode_extent,
}

-- The zones once the extents are counted as used, in their order.
abbrev pub credits : List ZoneExtent → (ℕ → Zone) → ℕ → Zone
credits [] h = h
credits (e ∷ es) h = credits es (credit e h)

abbrev with_all : List ZoneExtent → Target → Target
with_all es t = record {
  file = record t.file { extents = t.file.extents ++ map unlevelled es };
  zone = credits es t.zone;
}

-- The file as it is read back into `fresh`.
abbrev pub restored : ZoneFile → ZoneFile → ZoneFile
restored v fresh =
    let extents = fresh.extents ++ map unlevelled v.extents in
    record fresh {
      file_id = v.file_id;
      file_size = v.file_size;
      lifetime = v.lifetime;
      extents = extents;
      m_time = v.m_time;
      extent_start = v.extent_start;
      is_sparse = v.is_sparse || fresh.is_sparse;
      linkfiles = fresh.linkfiles ++ v.linkfiles;
      nr_synced_extents = length extents % u32_mod;
    }

module _ (c : Coding) (io_zones : List ℕ) (zone_size : ℕ) where
  -- An extent that the zones hold and whose numbers fit their words.
  abbrev pub IsStorable : (ℕ → Zone) → ZoneExtent → Type 0
  IsStorable h e =
      (e.start < u64_mod)
      × (e.length < u64_mod)
      × (get_io_zone h zone_size io_zones e.start ≡ some e.zone)

  -- A file whose numbers fit their words, whose extents lie in the zones, and whose links are named.
  pub record IsEncodable (h : ℕ → Zone) (v : ZoneFile) : Type 0 where
    pub file_id : v.file_id < u64_mod
    pub file_size : v.file_size < u64_mod
    pub lifetime : v.lifetime < u32_mod
    pub m_time : v.m_time < u64_mod
    pub extent_start : v.extent_start < u64_mod
    pub extents : All (IsStorable h) v.extents
    pub linkfiles : All (λ s. (0 < length s) × (length s < u32_mod)) v.linkfiles

  -- Reading takes some rounds of the loop, and no more of them than the input that they use.
  record Reads (t : Target) (input : List ℕ) (t' : Target) (rest : List ℕ) : Type 0 where
    rounds : ℕ
    runs :
        (n : ℕ)
        → decode_loop c io_zones zone_size (rounds + n) t input
          ≡ decode_loop c io_zones zone_size n t' rest
    size : rounds + length rest ≤ length input

  same_fuel :
      (t : Target) (input : List ℕ) (j k : ℕ)
      → j ≡ k
      → decode_loop c io_zones zone_size j t input ≡ decode_loop c io_zones zone_size k t input
  same_fuel t input j k e = ap (λ k. decode_loop c io_zones zone_size k t input) e

  Reads-none : (t : Target) (input : List ℕ) → Reads t input t input
  Reads-none t input = record {
    rounds = 0;
    runs = λ n. same_fuel t input (0 + n) n (omega arith);
    size = omega arith;
  }

  Reads-trans :
      {t t' t'' : Target} {input rest end : List ℕ}
      → Reads t input t' rest
      → Reads t' rest t'' end
      → Reads t input t'' end
  Reads-trans {t} {input = input} r s = record {
    rounds = r.rounds + s.rounds;
    runs = λ n.
        same_fuel t input (r.rounds + s.rounds + n) (r.rounds + (s.rounds + n)) (omega arith)
        ∙ (r.runs (s.rounds + n) ∙ s.runs n);
    size = omega (arith, r.size, s.size);
  }

  module _ (laws : CodingLaws c) where
    Reads-item :
        {t t' : Target} (tag : ℕ) (item rest : List ℕ)
        → tag < u32_mod
        → decode_item c io_zones zone_size tag t (item ++ rest) ≡ go t' rest
        → Reads t (c.put_fixed32 tag ++ (item ++ rest)) t' rest
    Reads-item {t} {t'} tag item rest h e = record {
      rounds = 1;
      runs = λ n.
          same_fuel t (c.put_fixed32 tag ++ (item ++ rest)) (1 + n) (suc n) (omega arith)
          ∙ decode-tag c laws io_zones zone_size n tag t t' (item ++ rest) rest h e;
      size = omega (
        arith,
        laws.length-put32 tag,
        length-append (c.put_fixed32 tag) (item ++ rest),
        length-append item rest,
      );
    }

    Reads-end :
        (t t' : Target) (input : List ℕ)
        → Reads t input t' []
        → decode_loop c io_zones zone_size (suc (length input)) t input
          ≡ go (synced c io_zones zone_size t') []
    Reads-end t t' input r =
        same_fuel t input (suc (length input)) (r.rounds + suc (length input - r.rounds))
          (omega (arith, r.size))
        ∙ (r.runs (suc (length input - r.rounds))
            ∙ decode-end c laws io_zones zone_size (length input - r.rounds) t')

    append_tagged :
        (tag : ℕ) (item more rest : List ℕ)
        → (c.put_fixed32 tag ++ (item ++ more)) ++ rest
          ≡ c.put_fixed32 tag ++ (item ++ (more ++ rest))
    append_tagged tag item more rest =
        append_assoc (c.put_fixed32 tag) (item ++ more) rest
        ∙ ap (λ xs. c.put_fixed32 tag ++ xs) (append_assoc item more rest)

    get_io_zone-credit :
        (e : ZoneExtent) (h : ℕ → Zone) (zs : List ℕ) (o : ℕ)
        → get_io_zone (credit e h) zone_size zs o ≡ get_io_zone h zone_size zs o
    unfolding get_io_zone credit
    get_io_zone-credit e h [] o = refl
    get_io_zone-credit e h (z ∷ zs) o = let rest = get_io_zone-credit e h zs o in ground arith

    IsStorable-credit :
        (e : ZoneExtent) (h : ℕ → Zone) (x : ZoneExtent)
        → IsStorable h x
        → IsStorable (credit e h) x
    IsStorable-credit e h x s = (s.0, s.1, get_io_zone-credit e h io_zones x.start ∙ s.2)

    extents-Reads :
        (es : List ZoneExtent) (t : Target) (rest : List ℕ)
        → All (IsStorable t.zone) es
        → Reads t (encode_extents c es ++ rest) (with_all es t) rest
    unfolding encode_extents credit
    extents-Reads [] t rest s =
        subst
          (λ xs.
            Reads t rest (record { file = record t.file { extents = xs }; zone = t.zone }) rest)
          (sym (append-nil t.file.extents)) (Reads-none t rest)
    extents-Reads (e ∷ es) t rest (s, ss) =
        let more =
          extents-Reads es (with_extent e t) rest
            (All-mono (IsStorable-credit (unlevelled e) t.zone) es ss) in
        let first =
          Reads-item tag_extent (c.put_length_prefixed (encode_extent c e))
            (encode_extents c es ++ rest) (omega arith)
            (extent_item c laws io_zones zone_size t e (encode_extents c es ++ rest) s.0 s.1
              (omega (arith, length-encode_extent c laws e)) s.2) in
        subst (λ xs. Reads t xs (with_all (e ∷ es) t) rest)
          (sym (
            append_tagged tag_extent (c.put_length_prefixed (encode_extent c e))
              (encode_extents c es) rest))
          (subst
            (λ xs.
              Reads t
                (c.put_fixed32 tag_extent
                  ++ (c.put_length_prefixed (encode_extent c e) ++ (encode_extents c es ++ rest)))
                (record { file = record t.file { extents = xs }; zone = credits (e ∷ es) t.zone })
                rest)
            (append_assoc t.file.extents (unlevelled e ∷ []) (map unlevelled es))
            (Reads-trans first more))

    abbrev IsName : List ℕ → Type 0
    IsName s = (0 < length s) × (length s < u32_mod)

    link-decodes :
        (t : Target) (s rest : List ℕ)
        → IsName s
        → decode_item c io_zones zone_size tag_linked_filename t (c.put_length_prefixed s ++ rest)
          ≡ go (record t { file = record t.file { linkfiles = t.file.linkfiles ++ s ∷ [] } }) rest
    link-decodes t [] rest h = ground arith
    link-decodes t (x ∷ s) rest h = link_item c laws io_zones zone_size t x s rest h.1

    abbrev with_links : List (List ℕ) → Target → Target
    with_links ns t = record t { file = record t.file { linkfiles = t.file.linkfiles ++ ns } }

    links-Reads :
        (ns : List (List ℕ)) (t : Target)
        → All IsName ns
        → Reads t (encode_links c ns) (with_links ns t) []
    unfolding encode_links
    links-Reads [] t h =
        subst (λ xs. Reads t [] (record t { file = record t.file { linkfiles = xs } }) [])
          (sym (append-nil t.file.linkfiles)) (Reads-none t [])
    links-Reads (s ∷ ns) t (h, hs) =
        subst
          (λ xs.
            Reads t (encode_links c (s ∷ ns)) (record t { file = record t.file { linkfiles = xs } })
              [])
          (append_assoc t.file.linkfiles (s ∷ []) ns)
          (Reads-trans
            (Reads-item tag_linked_filename (c.put_length_prefixed s) (encode_links c ns)
              (omega arith) (link-decodes t s (encode_links c ns) h))
            (links-Reads ns
              (record t { file = record t.file { linkfiles = t.file.linkfiles ++ s ∷ [] } }) hs))

    sparse-Reads :
        (b : Bool) (t : Target) (rest : List ℕ)
        → Reads t
            (encode_sparse c b ++ rest)
            (record t { file = record t.file { is_sparse = b || t.file.is_sparse } })
            rest
    unfolding encode_sparse
    sparse-Reads true t rest =
        Reads-item tag_is_sparse [] rest (omega arith)
          (sparse_item c laws io_zones zone_size t rest)
    sparse-Reads false t rest = Reads-none t rest

    -- What follows the file's number.
    abbrev body : ZoneFile → List ℕ
    body v =
        c.put_fixed32 tag_file_size
        ++ (c.put_fixed64 v.file_size
            ++ (c.put_fixed32 tag_write_life_time_hint
                ++ (c.put_fixed32 (v.lifetime % u32_mod)
                    ++ (encode_extents c v.extents
                        ++ (c.put_fixed32 tag_modification_time
                            ++ (c.put_fixed64 v.m_time
                                ++ (c.put_fixed32 tag_active_extent_start
                                    ++ (c.put_fixed64 v.extent_start
                                        ++ (encode_sparse c v.is_sparse
                                            ++ encode_links c v.linkfiles)))))))))

    abbrev read_into : ZoneFile → Target → Target
    read_into v t = record {
      file = record t.file {
        file_size = v.file_size;
        lifetime = v.lifetime % u32_mod;
        extents = t.file.extents ++ map unlevelled v.extents;
        m_time = v.m_time;
        extent_start = v.extent_start;
        is_sparse = v.is_sparse || t.file.is_sparse;
        linkfiles = t.file.linkfiles ++ v.linkfiles;
      };
      zone = credits v.extents t.zone;
    }

    body-Reads :
        (v : ZoneFile) (t : Target) → IsEncodable t.zone v → Reads t (body v) (read_into v t) []
    body-Reads v t ok =
        Reads-trans
          (Reads-item tag_file_size (c.put_fixed64 v.file_size) _ (omega arith)
            (file_size_item c laws io_zones zone_size t v.file_size _ ok.file_size))
          (Reads-trans
            (Reads-item tag_write_life_time_hint (c.put_fixed32 (v.lifetime % u32_mod)) _
              (omega arith)
              (life_time_item c laws io_zones zone_size _ (v.lifetime % u32_mod) _ (omega arith)))
            (Reads-trans (extents-Reads v.extents _ _ ok.extents) (
              Reads-trans
                (Reads-item tag_modification_time (c.put_fixed64 v.m_time) _ (omega arith)
                  (modification_time_item c laws io_zones zone_size _ v.m_time _ ok.m_time))
                (Reads-trans
                  (Reads-item tag_active_extent_start (c.put_fixed64 v.extent_start) _ (omega arith)
                    (active_start_item c laws io_zones zone_size _ v.extent_start _
                      ok.extent_start))
                  (Reads-trans (sparse-Reads v.is_sparse _ _)
                    (links-Reads v.linkfiles _ ok.linkfiles))))))

    -- Under the laws of the coding, a file whose numbers fit their words, whose extents lie
    -- in the zones that they name and whose links are not empty is read back from its record:
    -- what the record keeps returns, the extents without their levels and behind those that
    -- were there, all counted as synced, and each counted as used in its zone. The loop's
    -- fuel is enough, and no input is left.
    pub decode_from-encode_to :
        (v : ZoneFile) (t : Target)
        → IsEncodable t.zone v
        → decode_from c io_zones zone_size t (encode_to c v 0)
          ≡ go (record { file = restored v t.file; zone = credits v.extents t.zone }) []
    unfolding decode_from encode_to
    decode_from-encode_to v t ok =
        let named = record t { file = record t.file { file_id = v.file_id } } in
        ap (decode_header c io_zones zone_size t)
          (laws.get-put32 tag_file_id (c.put_fixed64 v.file_id ++ body v) (omega arith))
        ∙ (ap (decode_body c io_zones zone_size t) (laws.get-put64 v.file_id (body v) ok.file_id)
            ∙ (Reads-end named (read_into v named) (body v) (body-Reads v named ok)
                ∙ ap
                    (λ n.
                      go
                        (record {
                          file = record (restored v t.file) { lifetime = n };
                          zone = credits v.extents t.zone;
                        })
                        [])
                    (omega (arith, ok.lifetime))))
