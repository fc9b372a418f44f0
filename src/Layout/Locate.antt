-- ===== src/Layout/Locate.antt =====
-- `locate` and `pieces_of` of manifest.rs are inverse to each other.
use chorrent.Common.{
  ◌*◌, ◌/◌, map, ℕ, zero, suc, ◌+◌, ◌-◌, ◌≤◌, ◌<◌, ◌≡◌, refl, Option, none, some, List, [], ◌∷◌,
  ◌∙◌, inl, inr, arith, Bool-cases, get_elem?, ap, min, ltb, nat_eq,
}
use chorrent.Manifest.{FileEntry, Manifest, block_size, div_ceil_block, pieces}
use chorrent.Layout.{
  PieceLocation, first_pieces, new, checked_sub, partition_point, last_nonempty, locate, pieces_of,
}

-- Where the files before file `f` end.
firsts-ge :
    (t : ℕ) (fs : List FileEntry) (f : ℕ) {a : ℕ}
    → get_elem? (first_pieces t fs).0 f ≡ some a
    → t ≤ a
unfolding first_pieces
firsts-ge t [] f h = cc
firsts-ge t (x ∷ fs) zero h = ground arith
firsts-ge t (x ∷ fs) (suc f) h = omega (arith, firsts-ge (t + pieces x) fs f h)

-- Nothing that starts after `piece` is counted.
partition_before :
    (t : ℕ) (fs : List FileEntry) (piece : ℕ)
    → piece < t
    → partition_point (first_pieces t fs).0 piece ≡ 0
unfolding first_pieces partition_point
partition_before t [] piece h = refl
partition_before t (x ∷ fs) piece h = ground arith

sizes_of : List FileEntry → List ℕ
sizes_of fs = map (λ (f : FileEntry). f.size) fs

-- A piece of file `f` is found there.
partition_point_lem :
    (t : ℕ) (fs : List FileEntry) (f : ℕ) {a z : ℕ} (piece : ℕ)
    → get_elem? (first_pieces t fs).0 f ≡ some a
    → get_elem? (sizes_of fs) f ≡ some z
    → a ≤ piece
    → piece < a + div_ceil_block z
    → partition_point (first_pieces t fs).0 piece ≡ suc f
unfolding first_pieces partition_point sizes_of
partition_point_lem t [] f piece h k le lt = cc
partition_point_lem t (x ∷ fs) zero piece h k le lt =
    ground (arith, partition_before (t + pieces x) fs piece)
partition_point_lem t (x ∷ fs) (suc f) piece h k le lt = ground (
  arith,
  partition_point_lem (t + pieces x) fs f piece h k le lt,
  firsts-ge (t + pieces x) fs f h,
)

-- Every piece belongs to a file.
covering :
    (t : ℕ) (fs : List FileEntry) (piece : ℕ)
    → t ≤ piece
    → piece < (first_pieces t fs).1
    → (f : ℕ) × (a : ℕ) × (z : ℕ) × (get_elem? (first_pieces t fs).0 f ≡ some a)
      × (get_elem? (sizes_of fs) f ≡ some z)
      × (a ≤ piece)
      × (piece < a + div_ceil_block z)
unfolding first_pieces sizes_of
covering t [] piece le lt = absurd (omega arith)
covering t (x ∷ fs) piece le lt = elim (Bool-cases (ltb piece (t + pieces x))) [
  | inl here ↦ (0, t, x.size, refl, refl, le, ground arith)
  | inr later ↦
      let (f, a, z, h, k, le', lt') = covering (t + pieces x) fs piece (ground arith) lt in
      (suc f, a, z, h, k, le', lt')
]

checked_sub_one : (f : ℕ) → checked_sub (suc f) 1 ≡ some f
checked_sub_one f = ground arith

last_nonempty_here :
    (sizes : List ℕ) (f : ℕ) {z : ℕ}
    → get_elem? sizes f ≡ some z
    → 0 < z
    → last_nonempty sizes f ≡ some (some f)
unfolding last_nonempty
last_nonempty_here sizes zero h pos = rw h (ground arith)
last_nonempty_here sizes (suc f) h pos = rw (h, last_nonempty) (ground arith)

-- Where piece `piece` of a file with `size` bytes lies, when the file's pieces start at `first`.
abbrev pub location : ℕ → ℕ → ℕ → ℕ → PieceLocation
location f first size piece = record {
  file = f;
  start = (piece - first) * block_size;
  end = min ((piece - first) * block_size + block_size) size;
}

-- A range of at least one byte and at most one block, inside a file of `size` bytes.
pub record Fits (loc : PieceLocation) (size : ℕ) : Type 0 where
  pub nonempty : loc.start < loc.end
  pub within : loc.end ≤ size
  pub one_block : loc.end ≤ loc.start + block_size

location-Fits :
    (f first size piece : ℕ)
    → first ≤ piece
    → piece < first + div_ceil_block size
    → Fits (location f first size piece) size
location-Fits f first size piece le lt = record {
  nonempty = omega arith;
  within = omega arith;
  one_block = omega arith;
}

module _ (m : Manifest) where
  locate_in_file :
      (f first size piece : ℕ)
      → get_elem? (new m).first_piece f ≡ some first
      → get_elem? (new m).sizes f ≡ some size
      → first ≤ piece
      → piece < first + div_ceil_block size
      → locate (new m) piece ≡ some (location f first size piece)
  unfolding locate new sizes_of
  locate_in_file f first size piece h k le lt =
      rw
        (
          partition_point_lem 0 m.files f piece h k le lt,
          checked_sub_one f,
          last_nonempty_here (sizes_of m.files) f k (omega arith),
          h,
        )
        (ground (arith, k))

  -- What `locate` finds for a piece that starts after `first`, in file `f`.
  abbrev pub Located : ℕ → ℕ → ℕ → Type 0
  Located f first piece =
      (size : ℕ) × (get_elem? (new m).sizes f ≡ some size)
      × (locate (new m) piece ≡ some (location f first size piece))
      × Fits (location f first size piece) size

  -- `locate` finds every piece that `pieces_of` gives a file, in that file, as a nonempty range
  -- of the file's bytes, of at most one block.
  pub locate-pieces_of :
      (f first end piece : ℕ)
      → pieces_of (new m) f ≡ some (first, end)
      → first ≤ piece
      → piece < end
      → Located f first piece
  unfolding pieces_of
  locate-pieces_of f first end piece h le lt =
      by_reads (get_elem? (new m).first_piece f) (get_elem? (new m).sizes f) refl refl
    where
      by_reads :
          (o p : Option ℕ)
          → get_elem? (new m).first_piece f ≡ o
          → get_elem? (new m).sizes f ≡ p
          → Located f first piece
      by_reads none p ho hp = absurd (ground (arith, ho))
      by_reads (some a) none ho hp = absurd (ground (arith, ho, hp))
      by_reads (some a) (some size) ho hp =
          let here : a ≡ first = ground (arith, ho, hp) in
          let stop : a + div_ceil_block size ≡ end = ground (arith, ho, hp) in
          (
            size,
            hp,
            locate_in_file f first size piece (ho ∙ ap some here) hp le (omega arith),
            location-Fits f first size piece le (omega arith),
          )

  -- Every piece below the total is found, in a file whose `pieces_of` has it, as a nonempty
  -- range of the file's bytes, of at most one block.
  pub locate_total :
      (piece : ℕ)
      → piece < (new m).total_pieces
      → (f : ℕ) × (first : ℕ) × (end : ℕ) × (pieces_of (new m) f ≡ some (first, end))
        × (first ≤ piece)
        × (piece < end)
        × Located f first piece
  unfolding pieces_of new sizes_of
  locate_total piece lt =
      let (f, a, z, h, k, le', lt') = covering 0 m.files piece (omega arith) lt in
      (
        f,
        a,
        a + div_ceil_block z,
        rw (h, k),
        le',
        lt',
        (z, k, locate_in_file f a z piece h k le' lt', location-Fits f a z piece le' lt'),
      )

  -- For a byte below the size of a file, `locate` of the file's piece number `b / block_size`
  -- never panics and gives a range of that file that holds the byte.
  locate_byte :
      (f first end size b : ℕ)
      → pieces_of (new m) f ≡ some (first, end)
      → get_elem? (new m).sizes f ≡ some size
      → b < size
      → (loc : PieceLocation) × (locate (new m) (first + b / block_size) ≡ some loc)
        × (loc.file ≡ f)
        × (loc.start ≤ b)
        × (b < loc.end)
  unfolding pieces_of
  locate_byte f first end size b h k lt =
      let stop : end ≡ first + div_ceil_block size =
        by_read (get_elem? (new m).first_piece f) refl in
      let (z, k', found, fine) =
        locate-pieces_of f first end (first + b / block_size) h (omega arith) (omega arith) in
      let same : z ≡ size = ground arith in (_, found, refl, omega arith, omega arith)
    where
      by_read :
          (o : Option ℕ) → get_elem? (new m).first_piece f ≡ o → end ≡ first + div_ceil_block size
      by_read none ho = absurd (ground (arith, ho))
      by_read (some a) ho = ground (arith, ho)
