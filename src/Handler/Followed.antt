-- ===== src/Handler/Followed.antt =====
-- What a peer that subscribed to a share knows of it: handler.rs and local.rs against download.rs
-- (crates/chorrent/src), for every order of the tasks.
use chorrent.Common.{
  get_elem?-append_left, get_elem?-append_last, get_elem?-append_one, ℕ, zero, suc, ◌≤◌, ◌<◌, ◌%◌,
  ◌^◌, ◌≡◌, refl, ◌∙◌, sym, ap, Bool, true, false, ◌⊎◌, inl, inr, some, List, [], ◌∷◌, ◌++◌, arith,
  nat_beq, nat_beq_iff, Bool-cases, some_eq, if◌then◌else◌, length, length-append, length-set,
  get_elem?, get_elem?-set, lt-length_of_get_elem?, get_or, set,
}
use mathlib.Core.Path.{subst}
use chorrent.Protocol.Messages.{Response}
use chorrent.Handler.Subscription.{Subscription, subscribe, remove_at, follow, view}

pub view-append :
    (total : ℕ) (bits : List Bool) (frames : List Response) (r : Response)
    → view total bits (frames ++ (r ∷ [])) ≡ follow total (view total bits frames) r
unfolding view
view-append total bits [] r = refl
view-append total bits (f ∷ frames) r = view-append total (follow total bits f) frames r

remove_at-kept :
    (i : ℕ) (xs : List ℕ) (j p : ℕ)
    → get_elem? xs j ≡ some p
    → (i ≡ j) ⊎ ((k : ℕ) × (get_elem? (remove_at i xs) k ≡ some p))
remove_at-kept i [] j p h = cc
remove_at-kept zero (x ∷ xs) zero p h = inl refl
remove_at-kept zero (x ∷ xs) (suc j) p h = inr (j, h)
remove_at-kept (suc i) (x ∷ xs) zero p h = inr (0, h)
remove_at-kept (suc i) (x ∷ xs) (suc j) p h = elim (remove_at-kept i xs j p h) [
  | inl same ↦ inl (ap suc same)
  | inr (k, e) ↦ inr (suc k, e)
]

remove_at-from :
    (i : ℕ) (xs : List ℕ) (k p : ℕ)
    → get_elem? (remove_at i xs) k ≡ some p
    → (j : ℕ) × (get_elem? xs j ≡ some p)
remove_at-from i [] k p h = cc
remove_at-from zero (x ∷ xs) k p h = (suc k, h)
remove_at-from (suc i) (x ∷ xs) zero p h = (0, h)
remove_at-from (suc i) (x ∷ xs) (suc k) p h = let (j, e) = remove_at-from i xs k p h in (suc j, e)

set-kept :
    (have : List Bool) (index p : ℕ)
    → index < length have
    → get_elem? have p ≡ some true
    → get_elem? (set have index true) p ≡ some true
set-kept have index p lt h = get_elem?-set have index p true lt ∙ by_test (nat_beq index p)
  where
    by_test : (b : Bool) → (if b then some true else get_elem? have p) ≡ some true
    by_test true = refl
    by_test false = h

set-new :
    (have : List Bool) (index p : ℕ)
    → index < length have
    → get_elem? (set have index true) p ≡ some true
    → (index ≡ p) ⊎ (get_elem? have p ≡ some true)
set-new have index p lt h = elim (Bool-cases (nat_beq index p)) [
  | inl same ↦ inl ((nat_beq_iff index p).0 same)
  | inr other ↦ inr (sym (get_elem?-set have index p true lt ∙ rw other refl) ∙ h)
]

module _ (total : ℕ) where
  -- The peer's bits, when it has read every frame.
  abbrev pub bits : Subscription → List Bool
  bits s = view total [] s.frames

  -- The peer knows of the piece, or will be told.
  abbrev pub IsOnTheWay : Subscription → ℕ → Type 0
  IsOnTheWay s p =
      (get_or (bits s) p false ≡ true)
      ⊎ ((i : ℕ) × (get_elem? s.untold i ≡ some p))
      ⊎ ((i : ℕ) × (s.cursor ≤ i) × (get_elem? s.sent i ≡ some p))

  pub record Follows (s : Subscription) : Type 0 where
    pub size : length s.have ≡ total
    pub untold_had : (i p : ℕ) → get_elem? s.untold i ≡ some p → get_elem? s.have p ≡ some true
    pub sent_had :
        (i p : ℕ) → s.cursor ≤ i → get_elem? s.sent i ≡ some p → get_elem? s.have p ≡ some true
    pub within : s.cursor ≤ length s.sent
    pub sound : (p : ℕ) → get_or (bits s) p false ≡ true → get_elem? s.have p ≡ some true
    pub sized : s.behind ≡ false → length (bits s) ≡ total
    pub complete : s.behind ≡ false → (p : ℕ) → get_elem? s.have p ≡ some true → IsOnTheWay s p

  pub subscribe-Follows :
      (have : List Bool) (untold sent : List ℕ)
      → length have ≡ total
      → ((i p : ℕ) → get_elem? untold i ≡ some p → get_elem? have p ≡ some true)
      → Follows (subscribe have untold sent)
  unfolding view
  subscribe-Follows have untold sent size had = record {
    size = size;
    untold_had = had;
    sent_had = λ i p ge h. absurd (omega (arith, lt-length_of_get_elem? sent i h, ge));
    within = omega arith;
    sound = λ p h. cc;
    sized = λ h. cc;
    complete = λ h p e. cc;
  }

  pub mark-Follows :
      (s : Subscription) (index : ℕ)
      → get_elem? s.have index ≡ some false
      → Follows s
      → Follows (record s { have = set s.have index true; untold = index ∷ s.untold })
  mark-Follows s index at f =
      let lt = lt-length_of_get_elem? s.have index at in
      record {
        size = length-set s.have index true ∙ f.size;
        untold_had = λ i p h. untold i p lt h;
        sent_had = λ i p ge h. set-kept s.have index p lt (f.sent_had i p ge h);
        within = f.within;
        sound = λ p h. set-kept s.have index p lt (f.sound p h);
        sized = f.sized;
        complete = λ b p h. elim (set-new s.have index p lt h) [
          | inl same ↦ inr (inl (0, ap some same))
          | inr old ↦ shifted p (f.complete b p old)
        ];
      }
    where
      untold :
          (i p : ℕ)
          → index < length s.have
          → get_elem? (index ∷ s.untold) i ≡ some p
          → get_elem? (set s.have index true) p ≡ some true
      untold zero p lt h =
          subst (λ q. get_elem? (set s.have index true) q ≡ some true) (some_eq h)
            (get_elem?-set s.have index index true lt ∙ rw ((nat_beq_iff index index).1 refl) refl)
      untold (suc i) p lt h = set-kept s.have index p lt (f.untold_had i p h)

      shifted :
          (p : ℕ)
          → IsOnTheWay s p
          → IsOnTheWay (record s { have = set s.have index true; untold = index ∷ s.untold }) p
      shifted p (inl h) = inl h
      shifted p (inr (inl (i, h))) = inr (inl (suc i, h))
      shifted p (inr (inr h)) = inr (inr h)

  pub tell-Follows :
      (s : Subscription) (i index : ℕ)
      → total ≤ 2 ^ 32
      → get_elem? s.untold i ≡ some index
      → Follows s
      → Follows
          (record s { untold = remove_at i s.untold; sent = s.sent ++ ((index % 2 ^ 32) ∷ []) })
  tell-Follows s i index small at f =
      let e : index % 2 ^ 32 ≡ index =
        omega
          (arith, lt-length_of_get_elem? s.have index (f.untold_had i index at), f.size, small) in
      record {
        size = f.size;
        untold_had = λ k p h. let (j, e') = remove_at-from i s.untold k p h in f.untold_had j p e';
        sent_had = λ k p ge h. elim (get_elem?-append_one s.sent (index % 2 ^ 32) k h) [
          | inl old ↦ f.sent_had k p ge old
          | inr new ↦
              subst (λ q. get_elem? s.have q ≡ some true) (sym e ∙ new) (f.untold_had i index at)
        ];
        within = grows f.within;
        sound = f.sound;
        sized = f.sized;
        complete = λ b p h. moved e p (f.complete b p h);
      }
    where
      grows : s.cursor ≤ length s.sent → s.cursor ≤ length (s.sent ++ ((index % 2 ^ 32) ∷ []))
      grows h = omega (arith, h, length-append {0} s.sent ((index % 2 ^ 32) ∷ []))

      moved :
          index % 2 ^ 32 ≡ index
          → (p : ℕ) → IsOnTheWay s p
          → IsOnTheWay
              (record s { untold = remove_at i s.untold; sent = s.sent ++ ((index % 2 ^ 32) ∷ []) })
              p
      moved e p (inl h) = inl h
      moved e p (inr (inl (j, h))) = elim (remove_at-kept i s.untold j p h) [
        | inl same ↦
            let e' : index ≡ p =
              some_eq (sym at ∙ subst (λ k. get_elem? s.untold k ≡ some p) (sym same) h) in
            inr (
              inr (
                length s.sent,
                f.within,
                get_elem?-append_last s.sent (index % 2 ^ 32) ∙ ap some (e ∙ e'),
              ))
        | inr (k, e') ↦ inr (inl (k, e'))
      ]
      moved e p (inr (inr (j, ge, h))) =
          inr (inr (j, ge, get_elem?-append_left s.sent ((index % 2 ^ 32) ∷ []) j h))
