-- ===== src/Scheduler/Tests.antt =====
-- A unit test of scheduler.rs, and its theorems at a scheduler of three pieces with one peer.
use mathlib.Core.Path.{subst}
use mathlib.Core.Option.{some-injective}
use chorrent.Common.{
  ℕ, ◌≡◌, refl, sym, ◌∙◌, Bool, true, false, Option, none, some, List, [], ◌∷◌, arith, ◌>>=◌,
  nat_eq,
}
use chorrent.Common.HashMap
use chorrent.Scheduler.{Piece, Scheduler, new, add_peer, remove_peer, complete, raise}
use chorrent.Scheduler.Pick.{pick, wanted, offer}
use chorrent.Scheduler.Invariant.{Inv}
use chorrent.Scheduler.Remove.{Removed, remove_peer-Removed}
use chorrent.Scheduler.Peers.{add_peer-Added}
use chorrent.Scheduler.Progress.{new-Inv, Completed, complete-Completed}
use chorrent.Scheduler.Chosen.{Chosen}
use chorrent.Scheduler.Assign.{Assignment, pick-Chosen}
use chorrent.Scheduler.Run.{
  Call, adds, learns, removes, picks, completes, fails, run, Advanced, run-Advanced,
}

-- Peer 1 holds pieces 2, 3 and 9 of ten; peer 2 holds 2 and 3; pieces 0 and 1 are here.
windowed : Option (Scheduler ℕ)
unfolding new add_peer remove_peer HashMap.get HashMap.insert
windowed = do
  s ←
      add_peer 1 (false ∷ false ∷ true ∷ true ∷ false ∷ false ∷ false ∷ false ∷ false ∷ true ∷ [])
        (new (true ∷ true ∷ false ∷ false ∷ false ∷ false ∷ false ∷ false ∷ false ∷ false ∷ []) 3)
  add_peer 2 (false ∷ false ∷ true ∷ true ∷ false ∷ false ∷ false ∷ false ∷ false ∷ false ∷ []) s

pick_all : Scheduler ℕ → List ℕ → Option (List (Option ℕ))
pick_all s [] = some []
pick_all s (k ∷ ks) = do (i, s') ← pick k s; rest ← pick_all s' ks; some (i ∷ rest)

urgent_window_goes_in_order_before_rarest :
    (windowed >>= λ s. pick_all s (1 ∷ 1 ∷ 1 ∷ 2 ∷ []))
    ≡ some (some 2 ∷ some 3 ∷ some 9 ∷ none ∷ [])
unfolding windowed pick_all pick wanted offer raise
urgent_window_goes_in_order_before_rarest = refl

-- Piece 0 is on disk.
abbrev fresh : Scheduler ℕ
fresh = new (true ∷ false ∷ false ∷ []) 1

-- Peer 7 holds the other two.
abbrev held : List Bool
held = false ∷ true ∷ true ∷ []

abbrev busy : Scheduler ℕ
busy = record {
  pieces = Piece.done ∷ Piece.missing ∷ Piece.missing ∷ [];
  availability = 0 ∷ 1 ∷ 1 ∷ [];
  peers = (7, held) ∷ [];
  urgent_window = 1;
  first_not_done = 1;
  missing = 2;
  done = 1;
}

busy_lem : add_peer 7 held fresh ≡ some busy
unfolding new add_peer remove_peer raise HashMap.get HashMap.insert
busy_lem = refl

fresh-Inv : Inv fresh
fresh-Inv = new-Inv (true ∷ false ∷ false ∷ []) 1

busy-Inv : Inv busy
unfolding new
busy-Inv =
    let (s, added, a) = add_peer-Added 7 held fresh fresh-Inv refl in
    subst Inv (some-injective s busy (sym added ∙ busy_lem)) a.inv

remove_peer-Removed_example :
    (s' : Scheduler ℕ) × (remove_peer 7 busy ≡ some s') × Removed 7 busy s'
remove_peer-Removed_example = remove_peer-Removed 7 busy busy-Inv

complete-Completed_example :
    (s' : Scheduler ℕ) × (complete 1 busy ≡ some (true, s')) × Completed 1 busy s'
complete-Completed_example = complete-Completed 1 busy busy-Inv (omega arith)

pick-Chosen_example :
    (r : Option ℕ) × ((s' : Scheduler ℕ) × (pick 7 busy ≡ some (r, s'))
      × Chosen busy held 7 r
      × Assignment 7 r busy s')
unfolding HashMap.get
pick-Chosen_example = pick-Chosen 7 busy busy-Inv held refl

abbrev history : List (Call ℕ)
history =
    picks 7 ∷ adds 8 held ∷ picks 8 ∷ fails 2 8 true ∷ learns 8 2 ∷ completes 1 ∷ removes 7 ∷ []

run-Advanced_example : (s' : Scheduler ℕ) × (run history busy ≡ some s') × Advanced busy s'
run-Advanced_example = run-Advanced history busy busy-Inv (omega arith)
