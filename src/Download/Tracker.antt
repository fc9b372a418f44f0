-- ===== src/Download/Tracker.antt =====
-- `PeerTracker` of download.rs (crates/chorrent/src): which peers are tried, and how often. A moment is
-- its number of nanoseconds on the clock; the difference of two is zero at least, as tokio's.
use chorrent.Common.{
  ℕ, ◌+◌, ◌-◌, ◌*◌, ◌≤◌, ◌≡◌, ◌≢◌, refl, ◌∙◌, sym, Bool, true, false, ◌||◌, Option, none, some,
  List, [], ◌∷◌, ◌++◌, arith, Eq, ◌==◌, ==_iff, some_eq, ap, ◌⊎◌, inl, inr, ltb, if◌then◌else◌,
  contains, Bool-cases, All,
}
use mathlib.Core.Path.{subst}
use chorrent.Common.HashMap
use chorrent.Download.{Event, peer_discovered}

-- `RETRY_PEER_AFTER`
abbrev pub retry_peer_after : ℕ
retry_peer_after = 20 * 1000000000

-- `candidates` are the ids of the peers that are asked for the manifest.
pub record PeerTracker (K : Type 0) : Type 0 where
  pub me : K
  pub discovered : List K
  pub last_attempt : List (K × ℕ)
  pub events : List (Event K)

module _ {K : Type 0} ⦃e : Eq K⦄ where
  unfoldable pub new_tracker : K → PeerTracker K
  new_tracker me = record { me = me; discovered = []; last_attempt = []; events = [] }

  unfoldable pub discover : K → PeerTracker K → PeerTracker K
  discover id t = if contains t.discovered id then t else record t {
    discovered = id ∷ t.discovered;
    events = t.events ++ (peer_discovered id ∷ []);
  }

  -- The peers by their ids.
  unfoldable pub add_candidate : K → PeerTracker K × List K → PeerTracker K × List K
  add_candidate id (t, candidates) =
      if (id == t.me) || contains candidates id
      then (t, candidates)
      else (discover id t, candidates ++ (id ∷ []))

  -- The match on the moment of the attempt before.
  abbrev pub tried : K → ℕ → PeerTracker K → Option ℕ → PeerTracker K × Bool
  tried id now t none = (record t { last_attempt = HashMap.insert id now t.last_attempt }, true)
  tried id now t (some previous) =
      if ltb (now - previous) retry_peer_after
      then (
        record t {
          last_attempt = HashMap.insert id previous (HashMap.insert id now t.last_attempt);
        },
        false,
      )
      else (record t { last_attempt = HashMap.insert id now t.last_attempt }, true)

  unfoldable pub should_try : K → ℕ → PeerTracker K → PeerTracker K × Bool
  should_try id now t =
      if id == t.me
      then (t, false)
      else (let t' = discover id t in tried id now t' (HashMap.get id t'.last_attempt))

  abbrev pub with_dial : Bool → K → ℕ → List (K × ℕ) → List (K × ℕ)
  with_dial true id now dials = (id, now) ∷ dials
  with_dial false id now dials = dials

  -- The dials that announcements of peers lead to, each at its moment.
  unfoldable pub dials : PeerTracker K → List (K × ℕ) → List (K × ℕ)
  dials t [] = []
  dials t ((id, now) ∷ rest) =
      let (t', go) = should_try id now t in with_dial go id now (dials t' rest)

  discover-last : (id : K) (t : PeerTracker K) → (discover id t).last_attempt ≡ t.last_attempt
  unfolding discover
  discover-last id t = elim (Bool-cases (contains t.discovered id)) [
    | inl h ↦ rw h refl
    | inr h ↦ rw h refl
  ]

  discover-me : (id : K) (t : PeerTracker K) → (discover id t).me ≡ t.me
  unfolding discover
  discover-me id t = elim (Bool-cases (contains t.discovered id)) [
    | inl h ↦ rw h refl
    | inr h ↦ rw h refl
  ]

  -- What an answer of `should_try` means, and what it leaves.
  record Tried (id : K) (now : ℕ) (t t' : PeerTracker K) (go : Bool) : Type 0 where
    same_me : t'.me ≡ t.me
    last :
        (k : K)
        → HashMap.get k t'.last_attempt ≡ (
            if go
            then (if id == k then some now else HashMap.get k t.last_attempt)
            else HashMap.get k t.last_attempt)
    not_me : go ≡ true → id ≢ t.me
    not_soon :
        go ≡ true → (a : ℕ) → HashMap.get id t.last_attempt ≡ some a → a + retry_peer_after ≤ now

  tried-Tried :
      (id : K) (now : ℕ) (t : PeerTracker K) (o : Option ℕ)
      → HashMap.get id t.last_attempt ≡ o
      → id ≢ t.me
      → Tried id now t (tried id now t o).0 (tried id now t o).1
  tried-Tried id now t none h other = record {
    same_me = refl;
    last = λ k. HashMap.get-insert id k now t.last_attempt;
    not_me = λ g. other;
    not_soon = λ g a h'. absurd (cc (h, h'));
  }
  tried-Tried id now t (some previous) h other =
      elim (Bool-cases (ltb (now - previous) retry_peer_after)) [
        | inl soon ↦ rw soon (record {
          same_me = refl;
          last = λ k.
              HashMap.get-insert id k previous (HashMap.insert id now t.last_attempt)
              ∙ restored k (Bool-cases (id == k));
          not_me = λ g. other;
          not_soon = λ g a h'. absurd (cc g);
        })
        | inr late ↦ rw late (record {
          same_me = refl;
          last = λ k. HashMap.get-insert id k now t.last_attempt;
          not_me = λ g. other;
          not_soon = λ g a h'.
              let same : previous ≡ a = some_eq (sym h ∙ h') in ground (arith, late, same);
        })
      ]
    where
      restored :
          (k : K)
          → ((id == k) ≡ true) ⊎ ((id == k) ≡ false)
          → (if id == k
              then some previous
              else HashMap.get k (HashMap.insert id now t.last_attempt))
            ≡ HashMap.get k t.last_attempt
      restored k (inl same) =
          rw same (sym h ∙ ap (λ j. HashMap.get j t.last_attempt) ((==_iff id k).0 same))
      restored k (inr not_same) =
          rw not_same (HashMap.get-insert id k now t.last_attempt ∙ rw not_same refl)

  should_try-Tried :
      (id : K) (now : ℕ) (t : PeerTracker K)
      → Tried id now t (should_try id now t).0 (should_try id now t).1
  unfolding should_try
  should_try-Tried id now t = elim (Bool-cases (id == t.me)) [
    | inl mine ↦ rw mine (record {
      same_me = refl;
      last = λ k. refl;
      not_me = λ g. absurd (cc g);
      not_soon = λ g a h. absurd (cc g);
    })
    | inr other ↦ rw other (
        after_discover (
          tried-Tried id now (discover id t) (HashMap.get id (discover id t).last_attempt) refl
            (λ h. cc (other, (==_iff id t.me).1 (h ∙ discover-me id t)))))
  ]
    where
      after_discover :
          {t' : PeerTracker K} {go : Bool}
          → Tried id now (discover id t) t' go
          → Tried id now t t' go
      after_discover {t'} {go} r = record {
        same_me = r.same_me ∙ discover-me id t;
        last = λ k.
            subst
              (λ (m : List (K × ℕ)).
                HashMap.get k t'.last_attempt
                ≡ (if go then (if id == k then some now else HashMap.get k m) else HashMap.get k m))
              (discover-last id t) (r.last k);
        not_me = λ g h. r.not_me g (h ∙ sym (discover-me id t));
        not_soon = λ g a h. r.not_soon g a (ap (HashMap.get id) (discover-last id t) ∙ h);
      }

  abbrev pub Later : K → ℕ → List (K × ℕ) → Type 0
  Later k a l = All (λ (d : K × ℕ). d.0 ≡ k → a + retry_peer_after ≤ d.1) l

  Later-trans : (k : K) (a b : ℕ) (l : List (K × ℕ)) → a ≤ b → Later k b l → Later k a l
  Later-trans k a b [] le h = tt
  Later-trans k a b (d ∷ l) le (h, hs) =
      ((λ same. omega (arith, h same, le)), Later-trans k a b l le hs)

  abbrev pub Spaced : List (K × ℕ) → Type 0
  Spaced [] = Unit
  Spaced ((k, now) ∷ l) = Later k now l × Spaced l

  dials-Later :
      (t : PeerTracker K) (history : List (K × ℕ)) (k : K) (a : ℕ)
      → HashMap.get k t.last_attempt ≡ some a
      → Later k a (dials t history)
  unfolding dials
  dials-Later t [] k a h = tt
  dials-Later t ((id, now) ∷ rest) k a h =
      by_go (should_try id now t).1 refl (should_try-Tried id now t)
        (λ b h'. dials-Later (should_try id now t).0 rest k b h')
    where
      by_go :
          (go : Bool)
          → (should_try id now t).1 ≡ go
          → Tried id now t (should_try id now t).0 (should_try id now t).1
          → ((b : ℕ)
              → HashMap.get k (should_try id now t).0.last_attempt ≡ some b
              → Later k b (dials (should_try id now t).0 rest))
          → Later k a (with_dial go id now (dials (should_try id now t).0 rest))
      by_go false e r others = others a (r.last k ∙ rw e h)
      by_go true e r others = elim (Bool-cases (id == k)) [
        | inl same ↦
            let is_k = (==_iff id k).0 same in
            let late : a + retry_peer_after ≤ now =
              r.not_soon e a (ap (λ j. HashMap.get j t.last_attempt) is_k ∙ h) in
            (
              (λ s. late),
              Later-trans k a now _ (omega arith) (others now (r.last k ∙ rw e (rw same refl))),
            )
        | inr other ↦
            ((λ s. cc (other, (==_iff id k).1 s)), others a (r.last k ∙ rw e (rw other h)))
      ]

  -- Whatever peers are announced at whatever moments, the tracker never has us dial ourselves,
  -- and between two dials of one peer there are at least the 20 seconds of the pause.
  pub dials-Spaced :
      (t : PeerTracker K) (history : List (K × ℕ))
      → Spaced (dials t history) × All (λ (d : K × ℕ). d.0 ≢ t.me) (dials t history)
  unfolding dials
  dials-Spaced t [] = (tt, tt)
  dials-Spaced t ((id, now) ∷ rest) =
      let r = should_try-Tried id now t in
      let more = dials-Spaced (should_try id now t).0 rest in
      by_go (should_try id now t).1 refl (should_try-Tried id now t) (
        more.0,
        subst (λ me. All (λ (d : K × ℕ). d.0 ≢ me) (dials (should_try id now t).0 rest)) r.same_me
            more.1,
      )
    where
      by_go :
          (go : Bool)
          → (should_try id now t).1 ≡ go
          → Tried id now t (should_try id now t).0 (should_try id now t).1
          → Spaced (dials (should_try id now t).0 rest)
            × All (λ (d : K × ℕ). d.0 ≢ t.me) (dials (should_try id now t).0 rest)
          → Spaced (with_dial go id now (dials (should_try id now t).0 rest))
            × All
                (λ (d : K × ℕ). d.0 ≢ t.me)
                (with_dial go id now (dials (should_try id now t).0 rest))
      by_go false e r h = h
      by_go true e r h = (
        (
          dials-Later (should_try id now t).0 rest id now
              (r.last id ∙ rw e (rw ((==_iff id id).1 refl) refl)),
          h.0,
        ),
        (r.not_me e, h.1),
      )
