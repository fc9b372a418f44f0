-- ===== src/Manifest.antt =====
-- manifest.rs (crates/chorrent/src): what a share contains, and the checks that a downloader makes
-- of a manifest. A text is the list of its code points; a hash is a list of bytes.
pub mod Names
pub mod Validate
pub mod Safe
pub mod Decode
pub mod Folder
pub mod Disk
pub mod Collected
pub mod Built
pub mod DiskTests
pub mod Tests
use chorrent.Common.{ℕ, ◌+◌, ◌/◌, List, [], ◌∷◌}

-- `BLOCK_SIZE.bytes()` of chorrent's chunker.rs.
abbrev pub block_size : ℕ
block_size = 65536

-- `n.div_ceil(BLOCK_SIZE.bytes())`
abbrev pub div_ceil_block : ℕ → ℕ
div_ceil_block n = (n + 65535) / 65536

pub record FileEntry : Type 0 where
  pub path : List (List ℕ)
  pub size : ℕ
  pub root_hash : List ℕ

abbrev pub pieces : FileEntry → ℕ
pieces file = div_ceil_block file.size

pub record Manifest : Type 0 where
  pub name : List ℕ
  pub files : List FileEntry
