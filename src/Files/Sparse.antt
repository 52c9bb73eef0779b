-- ===== src/Files/Sparse.antt =====
-- fs/zbd_zonefile_zenfs.cc: `SparseAppend`, which writes the length of each piece before it. The bytes
-- of the piece stand behind the header's place in the buffer.
use zenfs_modified.Base.{
  zeros, ℕ, zero, suc, ◌+◌, ◌-◌, List, [], ◌∷◌, ◌++◌, drop, take, length, ltb, ◌==◌, min,
  if◌then◌else◌,
}
use zenfs_modified.Base.Words.{add64, add32, sub32}
use zenfs_modified.Store.{
  Backend, M, ◌>>=◌, ◌>>◌, pure, fail, gets, put_file, put_zone, ZoneExtent, blocked,
}
use zenfs_modified.Codec.{Coding}
use zenfs_modified.Zones.{append}
use zenfs_modified.EmptyZones.{Library}
use zenfs_modified.Placement.{FilePolicies}
use zenfs_modified.Files.Data.{padding, active_of, set_alloc_size, renew_if_full, ensure_zone}

abbrev pub sparse_header_size : ℕ
sparse_header_size = 8

-- What is written of the buffer: the header, the piece's bytes, and zeros up to a whole block.
unfoldable pub sparse_block : Coding → List ℕ → ℕ → ℕ → List ℕ
unfolding sub32
sparse_block c data_ wr_size pad =
    let extent_length = sub32 wr_size sparse_header_size in
    take (wr_size + pad)
      (c.put_fixed64 extent_length ++ (take (wr_size - sparse_header_size) data_ ++ zeros pad))

-- The bytes behind the piece; the padding's zeros have overwritten the first of them.
unfoldable pub sparse_rest : List ℕ → ℕ → ℕ → List ℕ
sparse_rest data_ extent_length pad =
    let rest = drop extent_length data_ in zeros (min pad (length rest)) ++ drop pad rest

module _ (c : Coding) {B : Type 0} (be : Backend B) (lib : Library) (fps : FilePolicies B)
    (persist : ℕ → M B (Unit {0})) where
  -- An extent of the bytes behind the header.
  unfoldable pub add_sparse : ℕ → ℕ → ℕ → M B (Unit {0})
  unfolding add64
  add_sparse f z extent_length = do
    v ← gets (λ d. d.zone z)
    file ← gets (λ d. d.file f)
    let e : ZoneExtent = record {
      start = add64 file.extent_start sparse_header_size;
      length = extent_length;
      zone = z;
      level = file.level;
    }
    put_file f (record file {
      extents = file.extents ++ e ∷ [];
      extent_start = v.wp;
      file_size = add64 file.file_size extent_length;
    })
    put_zone z (record v { used_capacity = add64 v.used_capacity extent_length })

  -- The loop of `SparseAppend`. A round that has room for more than the header writes a byte of the
  -- data at least.
  unfoldable pub sparse_loop : ℕ → ℕ → List ℕ → ℕ → M B (Unit {0})
  unfolding add32 sub32 padding
  sparse_loop zero f buffer left = if left == 0 then pure tt else fail blocked
  sparse_loop (suc fuel) f buffer left =
      let rest = do
        z ← active_of be lib fps persist f
        room ← gets (λ d. (d.zone z).capacity)
        block_size ← gets (λ d. d.block_size)
        let whole = add32 left sparse_header_size
        let wr_size = if ltb room whole then room else whole
        let pad = padding block_size wr_size
        let extent_length = sub32 wr_size sparse_header_size
        append be z (sparse_block c buffer wr_size pad) (wr_size + pad)
        add_sparse f z extent_length
        renew_if_full be lib fps persist f z (sub32 left extent_length)
        sparse_loop fuel f (sparse_rest buffer extent_length pad) (sub32 left extent_length)
      in if left == 0 then pure tt else rest

  -- `SparseAppend`
  unfoldable pub sparse_append : ℕ → List ℕ → ℕ → M B (Unit {0})
  sparse_append f buffer data_size = do
    set_alloc_size be lib fps persist f data_size
    v ← gets (λ d. d.file f)
    ensure_zone be lib fps persist f v.active_zone
    sparse_loop data_size f buffer data_size
