-- ===== src/Discovery/Tests.antt =====
-- A node of discovery.rs (crates/chorrent/src) that hears of a peer, meets it, and loses it.
use chorrent.Common.{ℕ, ◌≡◌, refl, true, false, contains, some, List, [], ◌∷◌, nat_eq}
use chorrent.Discovery.{Happening, neighbor_up, neighbor_down, received, tick, start, keep}
use chorrent.Discovery.Neighbours.{IsSound, is_up, keep-IsSound}

abbrev history : List (Happening ℕ)
history =
    received (some (7, 1 ∷ []))
    ∷ received (some (3, 1 ∷ []))
    ∷ neighbor_up 7
    ∷ neighbor_up 7
    ∷ neighbor_down 7
    ∷ tick 15000000000 (3, 2 ∷ []) (7 ∷ [])
    ∷ []

counts : (keep history (start 3 true true [] [] 0)).peers ≡ 0 ∷ 1 ∷ 0 ∷ []
unfolding keep start chorrent.Discovery.step chorrent.Common.HashMap.insert
    chorrent.Common.HashMap.remove
counts = refl

it_joins_again_when_alone : (keep history (start 3 true true [] [] 0)).joined ≡ (7 ∷ []) ∷ []
unfolding keep start chorrent.Discovery.step chorrent.Common.HashMap.insert
    chorrent.Common.HashMap.remove chorrent.Discovery.bootstrap_known
it_joins_again_when_alone = refl

keep-IsSound_example :
    IsSound 3 (keep history (start 3 true true [] [] 0))
    × ((x : ℕ)
        → contains (keep history (start 3 true true [] [] 0)).neighbours x ≡ is_up x history false)
keep-IsSound_example = keep-IsSound 3 true true [] [] 0 history
