-- ===== src/Layout.antt =====
-- The `Layout` of manifest.rs (crates/chorrent/src): piece numbers, counted across all the files
-- of a share, against byte ranges of one file. `none` where the source panics. Sizes and sums are
-- not bounded by the machine's words here.
pub mod Locate
pub mod Tests
use chorrent.Common.{
  ℕ, zero, suc, ◌+◌, ◌-◌, ◌*◌, ◌/◌, min, Option, none, some, List, [], ◌∷◌, map, ltb, leb,
  if◌then◌else◌, ◌>>=◌, get_elem?,
}
use chorrent.Manifest.{FileEntry, Manifest, block_size, div_ceil_block, pieces}

pub record Layout : Type 0 where
  pub first_piece : List ℕ
  pub sizes : List ℕ
  pub total_pieces : ℕ

pub record PieceLocation : Type 0 where
  pub file : ℕ
  pub start : ℕ
  pub end : ℕ

-- The loop of `Layout::new`: the first piece of each file, and the final total.
unfoldable pub first_pieces : ℕ → List FileEntry → List ℕ × ℕ
first_pieces total [] = ([], total)
first_pieces total (file ∷ files) =
    let (firsts, end) = first_pieces (total + pieces file) files in (total ∷ firsts, end)

unfoldable pub new : Manifest → Layout
unfolding first_pieces
new manifest =
    let (firsts, total) = first_pieces 0 manifest.files in
    record {
      first_piece = firsts;
      sizes = map (λ (f : FileEntry). f.size) manifest.files;
      total_pieces = total;
    }

-- `partition_point(|&first| first <= piece)` on an ascending list.
unfoldable pub partition_point : List ℕ → ℕ → ℕ
partition_point [] piece = 0
partition_point (first ∷ rest) piece =
    let n = partition_point rest piece in if leb first piece then suc n else 0

-- `(0..=file).rev().find(|&f| self.sizes[f] > 0)`
unfoldable pub last_nonempty : List ℕ → ℕ → Option (Option ℕ)
last_nonempty sizes zero = do
  size ← get_elem? sizes zero
  some (if ltb 0 size then some zero else none)
last_nonempty sizes (suc f) = do
  size ← get_elem? sizes (suc f)
  let rest = last_nonempty sizes f
  if ltb 0 size then some (some (suc f)) else rest

abbrev pub unwrap_or {ℓ} : {A : Type ℓ} → Option A → A → A
unwrap_or none d = d
unwrap_or (some a) d = a

-- `a - b` on unsigned numbers, in a build with overflow checks.
abbrev pub checked_sub : ℕ → ℕ → Option ℕ
checked_sub a b = if leb b a then some (a - b) else none

unfoldable pub locate : Layout → ℕ → Option PieceLocation
unfolding partition_point last_nonempty
locate layout piece = do
  last ← checked_sub (partition_point layout.first_piece piece) 1
  nonempty ← last_nonempty layout.sizes last
  let file = unwrap_or nonempty last
  first ← get_elem? layout.first_piece file
  index ← checked_sub piece first
  size ← get_elem? layout.sizes file
  some (record {
    file = file;
    start = index * block_size;
    end = min (index * block_size + block_size) size;
  })

-- `pieces_of`: the range from the first to before the second.
unfoldable pub pieces_of : Layout → ℕ → Option (ℕ × ℕ)
pieces_of layout file = do
  first ← get_elem? layout.first_piece file
  size ← get_elem? layout.sizes file
  some (first, first + div_ceil_block size)
