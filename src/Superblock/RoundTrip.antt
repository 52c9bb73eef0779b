-- ===== src/Superblock/RoundTrip.antt =====
-- A superblock is read back from its encoding.
use mathlib.Core.List.{append-nil}
use zenfs_modified.Base.{
  ℕ, zero, suc, ◌<◌, ◌≡◌, refl, sym, ap, ◌∙◌, some, List, [], ◌∷◌, ◌++◌, ◌==◌, length, take, drop,
  length-append, arith,
}
use zenfs_modified.Base.Words.{u32_mod}
use zenfs_modified.Store.{Superblock, Device, ok}
use zenfs_modified.Codec.{Coding}
use zenfs_modified.Codec.Items.{CodingLaws}
use zenfs_modified.Superblock.{
  superblock_magic, current_superblock_version, encoded_size, Reader, ◌⇒◌, read_then, read_bytes,
  put_superblock, read_superblock, renumbered, encode_superblock, checked_superblock,
  decode_superblock,
}

-- A reader that reads goes on with what follows it.
⇒-some :
    {A C : Type 0} (r : Reader A) (k : A → Reader C) {input rest : List ℕ} {a : A}
    → r input ≡ some (a, rest)
    → (r ⇒ k) input ≡ k a rest
unfolding ◌⇒◌
⇒-some r k e = ap (λ o. read_then o k) e

take-append : (n : ℕ) (s rest : List ℕ) → length s ≡ n → take n (s ++ rest) ≡ s
take-append zero [] rest e = refl
take-append zero (x ∷ s) rest e = ground arith
take-append (suc n) [] rest e = ground arith
take-append (suc n) (x ∷ s) rest e = ap (λ xs. x ∷ xs) (take-append n s rest (omega (arith, e)))

drop-append : (n : ℕ) (s rest : List ℕ) → length s ≡ n → drop n (s ++ rest) ≡ rest
drop-append zero [] rest e = refl
drop-append zero (x ∷ s) rest e = ground arith
drop-append (suc n) [] rest e = ground arith
drop-append (suc n) (x ∷ s) rest e = drop-append n s rest (omega (arith, e))

read_bytes-append :
    (n : ℕ) (s rest : List ℕ) → length s ≡ n → read_bytes n (s ++ rest) ≡ some (s, rest)
read_bytes-append n s rest e = rw (take-append n s rest e, drop-append n s rest e)

read_bytes_last : (n : ℕ) (s : List ℕ) → length s ≡ n → read_bytes n s ≡ some (s, [])
read_bytes_last n s e = ap (read_bytes n) (sym (append-nil s)) ∙ read_bytes-append n s [] e

-- A superblock of the program: its numbers fit 32 bits, its texts have their sizes, and its magic
-- number and version are the program's.
pub record IsWritable (sb : Superblock) : Type 0 where
  pub magic : sb.magic ≡ superblock_magic
  pub superblock_version : sb.superblock_version ≡ current_superblock_version
  pub sequence : sb.sequence < u32_mod
  pub flags : sb.flags < u32_mod
  pub block_size : sb.block_size < u32_mod
  pub zone_size : sb.zone_size < u32_mod
  pub nr_zones : sb.nr_zones < u32_mod
  pub finish_treshold : sb.finish_treshold < u32_mod
  pub uuid : length sb.uuid ≡ 37
  pub aux_fs_path : length sb.aux_fs_path ≡ 256
  pub zenfs_version : length sb.zenfs_version ≡ 64
  pub reserved : length sb.reserved ≡ 123

module _ (c : Coding) (laws : CodingLaws c) (sb : Superblock) (w : IsWritable sb) where
  read-put_superblock : read_superblock c (put_superblock c sb) ≡ some (sb, [])
  unfolding read_superblock put_superblock
  read-put_superblock =
      ⇒-some _ _ (laws.get-put32 sb.magic _ (omega (arith, w.magic)))
      ∙ (⇒-some _ _ (read_bytes-append 37 sb.uuid _ w.uuid)
          ∙ (⇒-some _ _ (laws.get-put32 sb.sequence _ w.sequence)
              ∙ (⇒-some _ _
                    (laws.get-put32 sb.superblock_version _ (omega (arith, w.superblock_version)))
                  ∙ (⇒-some _ _ (laws.get-put32 sb.flags _ w.flags)
                      ∙ (⇒-some _ _ (laws.get-put32 sb.block_size _ w.block_size)
                          ∙ (⇒-some _ _ (laws.get-put32 sb.zone_size _ w.zone_size)
                              ∙ (⇒-some _ _ (laws.get-put32 sb.nr_zones _ w.nr_zones)
                                  ∙ (⇒-some _ _
                                        (laws.get-put32 sb.finish_treshold _ w.finish_treshold)
                                      ∙ (⇒-some _ _
                                            (read_bytes-append 256 sb.aux_fs_path _ w.aux_fs_path)
                                          ∙ (⇒-some _ _ (
                                                read_bytes-append 64 sb.zenfs_version _
                                                  w.zenfs_version)
                                              ∙ ⇒-some _ _ (
                                                  read_bytes_last 123 sb.reserved
                                                    w.reserved)))))))))))

  length-put_superblock : length (put_superblock c sb) ≡ encoded_size
  unfolding put_superblock
  length-put_superblock = omega (arith, length-append {0}, laws.length-put32, w)

  decode-put_superblock : decode_superblock c (put_superblock c sb) ≡ some sb
  unfolding decode_superblock
  decode-put_superblock =
      rw (length-put_superblock, ◌==◌)
        (ap (checked_superblock c) read-put_superblock ∙ rw (w.magic) (rw (w.superblock_version)))

module _ {B : Type 0} (c : Coding) (laws : CodingLaws c) (d : Device B) where
  -- Under the laws of the coding, a file system whose superblock, with the next sequence number, is
  -- one of the program's encodes it without error, and what is encoded decodes to that superblock.
  pub encode_superblock-decodes :
      IsWritable (renumbered c d.fs.superblock)
      → (bytes : List ℕ) × (encode_superblock c d
          ≡ ok bytes (record d { fs = record d.fs { superblock = renumbered c d.fs.superblock } }))
        × (decode_superblock c bytes ≡ some (renumbered c d.fs.superblock))
  unfolding encode_superblock
  encode_superblock-decodes w =
      let sb = renumbered c d.fs.superblock in
      (
        put_superblock c sb,
        rw (length-put_superblock c laws sb w, ◌==◌),
        decode-put_superblock c laws sb w,
      )
