-- ===== src/Fs.antt =====
-- fs/fs_zenfs.cc, class `ZenFS`: the names of the files, their records in the metadata log, and the
-- calls that change them.
pub mod FileMap
pub mod Persist
pub mod Calls
pub mod NameFrame
pub mod Agree
pub mod Safe
pub mod LinkSafe
pub mod Destroy
pub mod HoldSafe
pub mod Delete
pub mod Rename
pub mod Link
pub mod Lost
pub mod Refine
pub mod Recovery
pub mod Replay
pub mod Attributes
