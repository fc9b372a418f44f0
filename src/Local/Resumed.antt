-- ===== src/Local/Resumed.antt =====
-- What counts after `restore_progress` of local.rs (crates/chorrent/src).
use chorrent.Common.{
  bind_some, some_eq, ands, ℕ, suc, ◌≤◌, ◌<◌, ◌+◌, ◌-◌, ◌≡◌, refl, ◌∙◌, Bool, true, false, Option,
  none, some, List, [], ◌∷◌, arith, leb, min, nat_beq, ◌&&◌, inl, inr, true_at, Bool-cases,
  if◌then◌else◌, length, get_elem?, set, ok,
}
use mathlib.Core.Path.{subst}
use chorrent.Common.Results
use chorrent.Common.Results.{ok_or, bind_ok}
use chorrent.Layout.{Layout, PieceLocation, locate, pieces_of}
use chorrent.Local.{LocalShare, Calls, is_complete_file}
use chorrent.Local.Resume.{
  panicked, is_verified, on_disk, is_there, restore_found, restore_incomplete, restore_file,
  restore_from, restore_progress,
}
use chorrent.Local.Gained.{ok_eq, Resumed, unchanged, Resumed-trans, restore_pieces-Resumed}

-- A range is in a list of them.
abbrev pub ContainsRange : List (ℕ × ℕ) → ℕ → ℕ → Type 0
ContainsRange ranges start end = (i : ℕ) × (get_elem? ranges i ≡ some (start, end))

-- A verified piece has one range that holds all its bytes.
is_verified-source :
    (size : ℕ) (loc : PieceLocation) (ranges : List (ℕ × ℕ))
    → is_verified size loc ranges ≡ true
    → (start : ℕ) × (end : ℕ) × ContainsRange ranges start end
      × (start ≤ loc.start)
      × (min loc.end size ≤ end)
unfolding is_verified
is_verified-source size loc [] h = absurd (cc h)
is_verified-source size loc ((start, end) ∷ ranges) h =
    elim (Bool-cases (leb start loc.start && leb (min loc.end size) (min end size))) [
      | inl here ↦ (
        start,
        end,
        (0, refl),
        ground (arith, ands (leb start loc.start) here),
        ground (arith, ands (leb start loc.start) here),
      )
      | inr not_here ↦
          let (start', end', (i, at), le, le') =
            is_verified-source size loc ranges (rw not_here at h) in
          (start', end', (suc i, at), le, le')
    ]

module _ {Disk : Type 0} where
  -- The piece is in a file whose saved outboard verifies all its bytes on disk, and that was written
  -- there if it is encrypted.
  module _ {Nodes : Type 0} (c : Calls Disk Nodes) where
    pub record IsThere (layout : Layout) (disk : Disk) (all : List (List ℕ)) (piece : ℕ)
        : Type 0 where
      pub file : ℕ
      pub saved : List ℕ
      pub ranges : List (ℕ × ℕ)
      pub written : Option (List Bool)
      pub first : ℕ
      pub past : ℕ
      pub size : ℕ
      pub loc : PieceLocation
      pub is_saved : get_elem? all file ≡ some saved
      pub is_valid : c.valid_byte_ranges disk file saved ≡ some ranges
      pub is_known : c.written_pieces disk file ≡ some written
      pub has_size : get_elem? layout.sizes file ≡ some size
      pub has_pieces : pieces_of layout file ≡ some (first, past)
      pub not_before : first ≤ piece
      pub not_after : piece < past
      pub located : locate layout piece ≡ some loc
      pub start : ℕ
      pub end : ℕ
      pub is_range : ContainsRange ranges start end
      pub from_start : start ≤ loc.start
      pub to_end : min loc.end size ≤ end
      pub stored :
          (bits : List Bool) → written ≡ some bits → get_elem? bits (piece - first) ≡ some true

    module _ (layout : Layout) (disk : Disk) (all : List (List ℕ)) where
      abbrev Why : ℕ → Type 0
      Why piece = IsThere layout disk all piece

      module _ (share : LocalShare Disk) (same_layout : share.layout ≡ layout)
          (same_disk : share.disk ≡ disk) (index : ℕ) (saved : List ℕ)
          (is_saved : get_elem? all index ≡ some saved) where
        found-Resumed :
            (outboards : List (List ℕ)) (share' : LocalShare Disk) (r : Option (List (ℕ × ℕ)))
            (w : Option (Option (List Bool)))
            → c.valid_byte_ranges share.disk index saved ≡ r
            → c.written_pieces share.disk index ≡ w
            → restore_found c (record share { outboards = outboards }) index r w ≡ ok share'
            → Resumed Why share share'
        unfolding is_there
        found-Resumed outboards share' none w valid known h = cc
        found-Resumed outboards share' (some ranges) none valid known h = cc
        found-Resumed outboards share' (some ranges) (some written) valid known h =
            let (size, has_size, h1) =
              bind_some (get_elem? share.layout.sizes index) _ (ok_or_some _ h) in
            let ((first, end), has_pieces, h2) = bind_some (pieces_of share.layout index) _ h1 in
            let r =
              restore_pieces-Resumed Why (is_there share.layout size ranges written first) first
                (end - first) (good ranges written first end size valid known has_size has_pieces)
                (record share { outboards = outboards }) share' h2 in
            record {
              same_layout = r.same_layout;
              same_disk = r.same_disk;
              kept = r.kept;
              new = r.new;
            }
          where
            ok_or_some :
                (o : Option (LocalShare Disk)) {x : LocalShare Disk}
                → ok_or o panicked ≡ ok x
                → o ≡ some x
            ok_or_some none e = cc
            ok_or_some (some y) e = cc

            good :
                (ranges : List (ℕ × ℕ)) (written : Option (List Bool)) (first end size : ℕ)
                → c.valid_byte_ranges share.disk index saved ≡ some ranges
                → c.written_pieces share.disk index ≡ some written
                → get_elem? share.layout.sizes index ≡ some size
                → pieces_of share.layout index ≡ some (first, end)
                → (p : ℕ) → first ≤ p
                → p < first + (end - first)
                → is_there share.layout size ranges written first p ≡ some true
                → Why p
            good ranges written first end size valid known has_size has_pieces p ge lt h =
                let (loc, located, e) = bind_some (locate share.layout p) _ h in
                let both = ands (is_verified size loc ranges) (some_eq e) in
                let (from, to, held, le, le') = is_verified-source size loc ranges both.0 in
                record {
                  file = index;
                  saved = saved;
                  ranges = ranges;
                  written = written;
                  first = first;
                  past = end;
                  size = size;
                  loc = loc;
                  is_saved = is_saved;
                  is_valid =
                      subst (λ d. c.valid_byte_ranges d index saved ≡ some ranges) same_disk valid;
                  is_known = subst (λ d. c.written_pieces d index ≡ some written) same_disk known;
                  has_size = subst (λ l. get_elem? l.sizes index ≡ some size) same_layout has_size;
                  has_pieces =
                      subst (λ l. pieces_of l index ≡ some (first, end)) same_layout has_pieces;
                  not_before = ge;
                  not_after = omega arith;
                  located = subst (λ l. locate l p ≡ some loc) same_layout located;
                  start = from;
                  end = to;
                  is_range = held;
                  from_start = le;
                  to_end = le';
                  stored = λ bits e.
                      true_at bits (p - first) (subst (λ w. on_disk w (p - first) ≡ true) e both.1);
                }

        file-Resumed :
            (o : Option Bool) (share' : LocalShare Disk)
            → restore_file c share index saved o ≡ ok share'
            → Resumed Why share share'
        file-Resumed none share' h = cc
        file-Resumed (some true) share' h =
            subst (Resumed Why share) (ok_eq h) (unchanged Why share)
        file-Resumed (some false) share' h = by_outboard (get_elem? share.outboards index) h
          where
            by_length :
                (b : Bool)
                → (if b
                    then restore_found c
                        (record share { outboards = set share.outboards index saved })
                        index
                        (c.valid_byte_ranges share.disk index saved)
                        (c.written_pieces share.disk index)
                    else ok share)
                  ≡ ok share'
                → Resumed Why share share'
            by_length true h =
                found-Resumed (set share.outboards index saved) share' _ _ refl refl h
            by_length false h = subst (Resumed Why share) (ok_eq h) (unchanged Why share)

            by_outboard :
                (o : Option (List ℕ))
                → restore_incomplete c share index saved o ≡ ok share'
                → Resumed Why share share'
            by_outboard none h = cc
            by_outboard (some outboard) h = by_length (nat_beq (length saved) (length outboard)) h

      from-Resumed :
          (rest : List (List ℕ)) (index : ℕ) (share share' : LocalShare Disk)
          → ((i : ℕ) (saved : List ℕ)
              → get_elem? rest i ≡ some saved
              → get_elem? all (index + i) ≡ some saved)
          → share.layout ≡ layout
          → share.disk ≡ disk
          → restore_from c index rest share ≡ ok share'
          → Resumed Why share share'
      unfolding restore_from
      from-Resumed [] index share share' at l d h =
          subst (Resumed Why share) (ok_eq h) (unchanged Why share)
      from-Resumed (saved ∷ rest) index share share' at l d h =
          by_end (leb (length share.outboards) index)
            (λ share1 l1 d1 h1.
              from-Resumed rest (suc index) share1 share'
                (λ i s e. subst (λ j. get_elem? all j ≡ some s) (omega arith) (at (suc i) s e)) l1
                d1 h1)
            h
        where
          by_end :
              (b : Bool)
              → ((share1 : LocalShare Disk)
                  → share1.layout ≡ layout
                  → share1.disk ≡ disk
                  → restore_from c (suc index) rest share1 ≡ ok share'
                  → Resumed Why share1 share')
              → (if b
                  then ok share
                  else Results.◌>>=◌
                      (restore_file c share index saved (is_complete_file share index))
                      (restore_from c (suc index) rest))
                ≡ ok share'
              → Resumed Why share share'
          by_end true further h = subst (Resumed Why share) (ok_eq h) (unchanged Why share)
          by_end false further h =
              let (share1, first, h1) =
                bind_ok (restore_file c share index saved (is_complete_file share index)) _ h in
              let r =
                file-Resumed share l d index saved
                  (subst (λ i. get_elem? all i ≡ some saved) (omega arith) (at 0 saved refl))
                  (is_complete_file share index) share1 first in
              Resumed-trans r (further share1 (r.same_layout ∙ l) (r.same_disk ∙ d) h1)

    -- If `restore_progress` ends well, every piece that counted still counts. A piece that
    -- counts now counted before, or is in a file with a saved outboard for which a range among
    -- the valid ones starts no later than the piece and ends no earlier than the piece's end in
    -- the file, and if the file keeps track of what was written, the piece was written.
    pub restore_progress-Resumed :
        (share share' : LocalShare Disk) (all : List (List ℕ))
        → restore_progress c share all ≡ ok share'
        → Resumed (IsThere share.layout share.disk all) share share'
    unfolding restore_progress
    restore_progress-Resumed share share' all h =
        from-Resumed share.layout share.disk all all 0 share share'
          (λ i s e. subst (λ j. get_elem? all j ≡ some s) (omega arith) e) refl refl h
