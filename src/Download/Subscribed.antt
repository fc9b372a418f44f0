-- ===== src/Download/Subscribed.antt =====
-- A downloader's scheduler follows a seeder: the frames of handler.rs, read by `drive_peer` of
-- download.rs (crates/chorrent/src).
use chorrent.Common.{
  ℕ, suc, ◌≤◌, ◌^◌, ◌≡◌, refl, ◌∙◌, sym, ap, Bool, true, false, Option, some, List, [], ◌∷◌, map,
  some_eq, length, get_elem?, contains, Eq,
}
use mathlib.Core.Path.{subst, ap₂}
use chorrent.Common.HashMap
use chorrent.Local.{Calls}
use chorrent.Protocol.Bits.{unpack_bits}
use chorrent.Protocol.Bitfield.{unpack_bits_total}
use chorrent.Protocol.Messages.{Response}
use chorrent.Scheduler.Bits.{set_peer_has-BitWritten}
use chorrent.Scheduler.Peers.{add_peer-Added}
use chorrent.Download.{Engine, joins, updates, joined, updated, arrived, run}
use chorrent.Download.Agreed.{Agrees, Moved, joined-Moved, updated-Moved}
use chorrent.Handler.Subscription.{Subscription, subscribe, Steps, follow, view, drain}
use chorrent.Handler.CaughtUp.{drain-view}

module _ {K Disk Nodes : Type 0} ⦃e : Eq K⦄ (c : Calls Disk Nodes) (peer : K) where
  -- The peer's bits in the scheduler.
  abbrev pub bits_of : Engine K Disk → Option (List Bool)
  bits_of engine = HashMap.get peer engine.sched.peers

  abbrev Follows : ℕ → List Bool → Response → Engine K Disk → Option (Engine K Disk) → Type 0
  Follows total bits r engine o =
      (engine' : Engine K Disk) × (o ≡ some engine')
      × (bits_of engine' ≡ some (follow total bits r))
      × (engine'.share ≡ engine.share)

  updated-Follows :
      (r : Response) (engine : Engine K Disk) (bits : List Bool)
      → Agrees engine
      → bits_of engine ≡ some bits
      → Follows (length engine.share.have) bits r engine (updated peer r engine)
  unfolding updated
  updated-Follows (Response.have index) engine bits a known =
      let (sched, done, b) = set_peer_has-BitWritten peer index engine.sched a.inv in
      (
        record engine { sched = sched },
        rw done refl,
        b.peers peer ∙ rw (e.same_reflexive peer) (rw known refl),
        refl,
      )
  updated-Follows (Response.bitfield bytes) engine bits a known =
      let (sched, done, b) =
        add_peer-Added peer (unpack_bits bytes (length engine.share.have)) engine.sched a.inv
          ((unpack_bits_total bytes (length engine.share.have)).0 ∙ sym a.same_length) in
      (record engine { sched = sched }, rw done refl, b.known, refl)
  updated-Follows (Response.manifest bytes) engine bits a known = (engine, refl, known, refl)
  updated-Follows (Response.piece bytes) engine bits a known = (engine, refl, known, refl)
  updated-Follows Response.dont_have engine bits a known = (engine, refl, known, refl)
  updated-Follows Response.not_found engine bits a known = (engine, refl, known, refl)
  updated-Follows Response.busy engine bits a known = (engine, refl, known, refl)

  -- An engine that a step gives is the one that the laws are about.
  Agrees-too :
      {o : Option (Engine K Disk)} {engine one other : Engine K Disk}
      → o ≡ some one
      → o ≡ some other
      → Moved engine one
      → Agrees other
  Agrees-too p q m = subst (λ x. Agrees x) (some_eq (sym p ∙ q)) m.agrees

  updates-view :
      (rs : List Response) (engine : Engine K Disk) (bits : List Bool)
      → Agrees engine
      → bits_of engine ≡ some bits
      → (engine' : Engine K Disk) × (run c (map (updates peer) rs) engine ≡ some engine')
        × (bits_of engine' ≡ some (view (length engine.share.have) bits rs))
  unfolding run view
  updates-view [] engine bits a known = (engine, refl, known)
  updates-view (r ∷ rs) engine bits a known =
      let (other, moved, m) = updated-Moved peer r engine a in
      let (engine1, done, known1, same) = updated-Follows r engine bits a known in
      let (engine', done', known') =
        updates-view rs engine1 (follow (length engine.share.have) bits r) (Agrees-too moved done m)
          known1 in
      (
        engine',
        rw done done',
        known'
            ∙ ap (λ s. some (view (length s.have) (follow (length engine.share.have) bits r) rs))
                same,
      )

  -- `joined` of a peer that is not connected.
  joined-Follows :
      (bytes : List ℕ) (engine : Engine K Disk)
      → Agrees engine
      → contains engine.connected peer ≡ false
      → Follows
          (length engine.share.have)
          []
          (Response.bitfield bytes)
          engine
          (joined peer bytes engine)
  unfolding joined
  joined-Follows bytes engine a new =
      let (sched, done, b) =
        add_peer-Added peer (unpack_bits bytes (length engine.share.have)) engine.sched a.inv
          ((unpack_bits_total bytes (length engine.share.have)).0 ∙ sym a.same_length) in
      (
        arrived peer (unpack_bits bytes (length engine.share.have)) sched engine,
        rw (new, done) refl,
        b.known,
        refl,
      )

  -- Take a subscription to a share of at most 2 ^ 32 pieces that started when the seeder had
  -- every piece that was about to be announced. After any interleaving of the tasks, when all
  -- marked pieces are announced, the subscription reads what is left and the first frame was a
  -- bitfield, a downloader with an engine that agrees with its share of as many pieces, to which
  -- the peer is new, takes the frames in order and never panics. Its scheduler ends with exactly
  -- the seeder's bits for that peer.
  pub run-drain :
      (have : List Bool) (untold sent : List ℕ) (t : Subscription) (bytes : List ℕ)
      (rest : List Response) (engine : Engine K Disk)
      → length have ≤ 2 ^ 32
      → ((i p : ℕ) → get_elem? untold i ≡ some p → get_elem? have p ≡ some true)
      → Steps (subscribe have untold sent) t
      → t.untold ≡ []
      → (drain (suc (length t.sent)) t).frames ≡ Response.bitfield bytes ∷ rest
      → Agrees engine
      → length engine.share.have ≡ length have
      → contains engine.connected peer ≡ false
      → (engine' : Engine K Disk) × (run c (joins peer bytes ∷ map (updates peer) rest) engine
          ≡ some engine')
        × (bits_of engine' ≡ some t.have)
  unfolding run view
  run-drain have untold sent t bytes rest engine small had steps told first a same new =
      let (other, moved, m) = joined-Moved peer bytes engine a in
      let (engine1, done, known1, share) = joined-Follows bytes engine a new in
      let (engine', done', known') =
        updates-view rest engine1 (unpack_bits bytes (length engine.share.have))
          (Agrees-too moved done m) known1 in
      let len : length engine1.share.have ≡ length have = ap (λ s. length s.have) share ∙ same in
      (
        engine',
        rw done done',
        known'
            ∙ ap some (
                ap₂ (λ (l : ℕ) (k : ℕ). view l (unpack_bits bytes k) rest) len same
                ∙ sym (ap (view (length have) []) first)
                ∙ drain-view have untold sent t small had steps told),
      )
