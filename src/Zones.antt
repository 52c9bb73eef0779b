-- ===== src/Zones.antt =====
-- fs/zbd_zenfs.cc and fs/zbd_zenfs.h, class `Zone`: the busy flag, which is a lock that is tried and
-- never waited for, and the writes that move the write pointer. A zone is named by its pointer.
pub mod Append
use zenfs_modified.Base.{
  ℕ, zero, suc, ◌/◌, ◌%◌, Bool, true, false, not, ◌||◌, Option, none, some, List, map, ltb, ◌==◌,
  if◌then◌else◌, drop,
}
use zenfs_modified.Base.Int.{pos, negsuc}
use zenfs_modified.Base.Words.{add64, sub64, add32, sub32}
use zenfs_modified.Store.{
  Zone, Backend, ok, err, M, ◌>>=◌, ◌>>◌, pure, fail, gets, assert_that, put_zone, corruption,
  no_space, io_error, blocked,
}

abbrev pub wlth_not_set : ℕ
wlth_not_set = 0

abbrev pub is_used : Zone → Bool
is_used z = ltb 0 z.used_capacity

abbrev pub is_full : Zone → Bool
is_full z = z.capacity == 0

abbrev pub is_empty : Zone → Bool
is_empty z = z.wp == z.start

-- The zone once `n` bytes more of it are written.
abbrev pub advance : ℕ → Zone → Zone
advance n v = record v { wp = add64 v.wp n; capacity = sub64 v.capacity n }

abbrev pub get_zone_nr : ℕ → Zone → ℕ
get_zone_nr zone_size z = z.start / zone_size

module _ {B : Type 0} where
  -- The compare-and-exchange from free to busy: whether it was made.
  unfoldable pub acquire : ℕ → M B Bool
  acquire z = do
    v ← gets (λ d. d.zone z)
    if v.busy then pure false else put_zone z (record v { busy = true }) >> pure true

  unfoldable pub release : ℕ → M B Bool
  release z = do
    v ← gets (λ d. d.zone z)
    if v.busy then put_zone z (record v { busy = false }) >> pure true else pure false

  unfoldable pub check_release : ℕ → M B (Unit {0})
  unfolding release
  check_release z = do
    done ← release z
    if done then pure tt else assert_that false (fail corruption)

  abbrev pub replied : {A : Type 0} → Option A × B → M B A
  replied (some a, b) d = ok a (record d { backend = b })
  replied (none, b) d = err io_error (record d { backend = b })

  -- One call of the backend: its new state, and an I/O error if it reports one.
  unfoldable pub ask : {A : Type 0} → (B → Option A × B) → M B A
  ask op d = replied (op d.backend) d

  unfoldable pub command : (B → Bool × B) → M B (Unit {0})
  command op d =
      let (done, b) = op d.backend in
      if done then ok tt (record d { backend = b }) else err io_error (record d { backend = b })

  -- `ZonedBlockDevice::AddBytesWritten`
  unfoldable pub add_bytes_written : ℕ → M B (Unit {0})
  unfolding add64
  add_bytes_written n d = ok tt (record d { bytes_written = add64 d.bytes_written n })

  -- `ZonedBlockDevice::AddFinishBytesWritten`
  unfoldable pub add_finish_bytes_written : ℕ → M B (Unit {0})
  unfolding add64
  add_finish_bytes_written n d =
      ok tt (record d { finish_bytes_written = add64 d.finish_bytes_written n })

module _ {B : Type 0} (be : Backend B) where
  -- `Zone::Reset`
  unfoldable pub reset : ℕ → M B (Unit {0})
  unfolding ask add32
  reset z = do
    v ← gets (λ d. d.zone z)
    assert_that (not (is_used v)) (assert_that v.busy (pure tt))
    (offline, max_capacity) ← ask (be.reset v.start)
    put_zone z (record v {
      capacity = if offline then 0 else max_capacity;
      max_capacity = if offline then v.max_capacity else max_capacity;
      wp = v.start;
      lifetime = wlth_not_set;
      reset_count = add32 v.reset_count 1;
      level = negsuc 0;
      bytes_of_level = map (λ _. pos 0) v.bytes_of_level;
    })

  -- `Zone::Finish`
  unfoldable pub finish : ℕ → M B (Unit {0})
  unfolding command add64 add32
  finish z = do
    v ← gets (λ d. d.zone z)
    assert_that v.busy (pure tt)
    command (be.finish v.start)
    zone_size ← gets (λ d. d.zone_size)
    put_zone z (record v {
      capacity = 0;
      wp = add64 v.start zone_size;
      finish_count = add32 v.finish_count 1;
    })

  -- `Zone::Close`
  unfoldable pub close : ℕ → M B (Unit {0})
  unfolding command
  close z = do
    v ← gets (λ d. d.zone z)
    assert_that v.busy (pure tt)
    if is_empty v || is_full v then pure tt else command (be.close v.start)

  -- The loop of `Zone::Append`. A round that takes at least a byte leaves less than before, so the
  -- size is fuel enough; a backend that takes none keeps the loop going, which is `blocked`.
  unfoldable pub append_loop : ℕ → ℕ → List ℕ → ℕ → M B (Unit {0})
  append_loop zero z data_ left = if left == 0 then pure tt else fail blocked
  append_loop (suc fuel) z data_ left =
      let rest = do
        v ← gets (λ d. d.zone z)
        ret ← ask (be.write data_ left v.wp)
        put_zone z (advance ret v)
        add_bytes_written ret
        append_loop fuel z (drop ret data_) (sub32 left ret)
      in if left == 0 then pure tt else rest

  -- `Zone::Append`
  unfoldable pub append : ℕ → List ℕ → ℕ → M B (Unit {0})
  append z data_ size = do
    v ← gets (λ d. d.zone z)
    if ltb v.capacity size then fail no_space else do
      block_size ← gets (λ d. d.block_size)
      assert_that (size % block_size == 0) (append_loop size z data_ size)
