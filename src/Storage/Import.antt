-- ===== src/Storage/Import.antt =====
-- `ImportingReader` of storage.rs (crates/chorrent/src): it copies a source into the store while the
-- hasher reads it. What one read of the source gives is an argument; `write_all_at` of positioned_io
-- on the destination is a parameter.
use chorrent.Common.{
  ℕ, ◌+◌, ◌*◌, ◌/◌, List, [], ◌∷◌, ◌++◌, leb, nat_beq, if◌then◌else◌, length, take, drop, Result,
  ok,
}
use chorrent.Common.Results.{◌>>=◌}
use chorrent.Manifest.{block_size}
use chorrent.Storage.{IoError}

pub record ImportingReader (Dest : Type 0) : Type 0 where
  pub dest : Dest
  pub pending : List ℕ
  pub written : ℕ

module _ {Dest : Type 0} (write_all_at : Dest → ℕ → List ℕ → Result IoError Dest) where
  abbrev pub start : Dest → ImportingReader Dest
  start dest = record { dest = dest; pending = []; written = 0 }

  -- Write the whole pieces, `whole` bytes, of what is pending.
  unfoldable pub drain : ImportingReader Dest → List ℕ → ℕ → Result IoError (ImportingReader Dest)
  drain reader pending whole =
      if leb 1 whole
      then (do
        dest ← write_all_at reader.dest reader.written (take whole pending)
        ok (record { dest = dest; pending = drop whole pending; written = reader.written + whole }))
      else ok (record reader { pending = pending })

  -- One read that gives the bytes `chunk`.
  unfoldable pub read : ImportingReader Dest → List ℕ → Result IoError (ImportingReader Dest)
  unfolding drain
  read reader chunk =
      let pending = reader.pending ++ chunk in
      drain reader pending (length pending / block_size * block_size)

  unfoldable pub finish : ImportingReader Dest → Result IoError (ℕ × Dest)
  finish reader =
      if nat_beq (length reader.pending) 0 then ok (reader.written, reader.dest) else (do
        dest ← write_all_at reader.dest reader.written reader.pending
        ok (reader.written + length reader.pending, dest))

  -- The hasher reads to the end, then the import is finished.
  unfoldable pub import_all : ImportingReader Dest → List (List ℕ) → Result IoError (ℕ × Dest)
  unfolding read finish
  import_all reader [] = finish reader
  import_all reader (chunk ∷ chunks) = read reader chunk >>= λ r. import_all r chunks
