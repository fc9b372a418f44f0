-- ===== src/Store/Progress.antt =====
-- The records of store.rs (crates/chorrent/src) are found as they were saved: the progress of a
-- download and the list of allowed peers.
use chorrent.Common.{
  ℕ, Bool, ◌≡◌, refl, ◌∙◌, ap, true, false, Option, none, some, List, [], ◌∷◌, ◌==◌, nat_eq,
  list_eq, length, ok,
}
use chorrent.Store.{Bytes, Table, downloads, progress, access, Crypto, Store, get, put, remove}
use chorrent.Store.Revealed.{IsCrypto}
use chorrent.Store.Lookup.{any_table, get-put, get-remove}
use chorrent.Store.Records.{
  Codecs, found, decoded, download_key, save_progress, load_progress, mark_complete, or_before,
  valid_only, remember_allowed, load_allowed,
}

module _ (c : Crypto) (is_crypto : IsCrypto c) {Ident Code : Type 0} (k : Codecs Ident Code) where
  -- Where postcard reads back lists of outboards, `load_progress` after `save_progress` of a
  -- download gives the outboards that were saved, and other downloads give what they gave
  -- before. After `mark_complete` neither the progress nor the download is found.
  pub load_progress-save_progress :
      (nonce : Bytes) (s : Store) (id : Ident) (dest_dir : Bytes) (outboards : List Bytes)
      → ((l : List Bytes) → k.decode_lists (k.encode_lists l) ≡ some l)
      → length nonce ≡ 24
      → let s' = save_progress c k nonce s id dest_dir outboards in
        (load_progress c k s' id dest_dir ≡ some outboards)
        × ((other : Ident) (dest : Bytes)
            → (download_key c k id dest_dir == download_key c k other dest) ≡ false
            → load_progress c k s' other dest ≡ load_progress c k s other dest)
        × (load_progress c k (mark_complete c k s' id dest_dir) id dest_dir ≡ none)
        × (get c (mark_complete c k s' id dest_dir) downloads (download_key c k id dest_dir)
            ≡ ok none)
  unfolding load_progress save_progress mark_complete
  load_progress-save_progress nonce s id dest_dir outboards decodes long =
      let key = download_key c k id dest_dir in
      let (s', e, after) =
        get-put c is_crypto nonce s progress key (k.encode_lists outboards) long in
      let stored : or_before c k s (put c nonce s progress key (k.encode_lists outboards)) ≡ s' =
        ap (or_before c k s) e in
      let same : (key == key) ≡ true = (list_eq {A = ℕ}).same_reflexive key in
      let here : get c s' progress key ≡ ok (some (k.encode_lists outboards)) =
        after progress key ∙ rw same refl in
      let gone : (t : Table)
          → any_table (downloads ∷ progress ∷ []) t ≡ true
          → get c (remove c s' (downloads ∷ progress ∷ []) key) t key ≡ ok none =
        λ t listed.
          get-remove c is_crypto (downloads ∷ progress ∷ []) s' key t key
          ∙ rw (listed, same) refl in
      (
        rw stored (ap (λ r. decoded k.decode_lists (found r)) here ∙ decodes outboards),
        (λ other dest differ. rw stored (
            ap (λ r. decoded k.decode_lists (found r))
              {y = get c s progress (download_key c k other dest)}
              (after progress (download_key c k other dest) ∙ rw differ refl))),
        rw stored (ap (λ r. decoded k.decode_lists (found r)) (gone progress refl)),
        rw stored (gone downloads refl),
      )

  -- Where postcard reads back lists of peers, `load_allowed` after `remember_allowed` gives
  -- those of the peers that are valid ids, or no list if there was none, and other shares give
  -- what they gave before.
  pub load_allowed-remember_allowed :
      (is_id : Bytes → Bool) (nonce : Bytes) (s : Store) (id : Ident)
      (allowed : Option (List Bytes))
      → ((l : List Bytes) → k.decode_lists (k.encode_lists l) ≡ some l)
      → length nonce ≡ 24
      → (s' : Store) × (remember_allowed c k nonce s id allowed ≡ ok s')
        × (load_allowed c k is_id s' id ≡ valid_only c k is_id allowed)
        × ((other : Ident)
            → (k.id_text id == k.id_text other) ≡ false
            → load_allowed c k is_id s' other ≡ load_allowed c k is_id s other)
  unfolding load_allowed remember_allowed
  load_allowed-remember_allowed is_id nonce s id none decodes long = (
    remove c s (access ∷ []) (k.id_text id),
    refl,
    ap (λ r. valid_only c k is_id (decoded k.decode_lists (found r))) {y = ok none}
        (get-remove c is_crypto (access ∷ []) s (k.id_text id) access (k.id_text id)
          ∙ rw ((list_eq {A = ℕ}).same_reflexive (k.id_text id)) refl),
    λ other differ.
        ap (λ r. valid_only c k is_id (decoded k.decode_lists (found r)))
          {y = get c s access (k.id_text other)}
          (get-remove c is_crypto (access ∷ []) s (k.id_text id) access (k.id_text other)
            ∙ rw differ refl),
  )
  load_allowed-remember_allowed is_id nonce s id (some peers) decodes long =
      let (s', e, after) =
        get-put c is_crypto nonce s access (k.id_text id) (k.encode_lists peers) long in
      let here : get c s' access (k.id_text id) ≡ ok (some (k.encode_lists peers)) =
        after access (k.id_text id) ∙ rw ((list_eq {A = ℕ}).same_reflexive (k.id_text id)) refl in
      (
        s',
        e,
        ap (λ r. valid_only c k is_id (decoded k.decode_lists (found r))) here
            ∙ ap (valid_only c k is_id) (decodes peers),
        λ other differ.
            ap (λ r. valid_only c k is_id (decoded k.decode_lists (found r)))
              {y = get c s access (k.id_text other)}
              (after access (k.id_text other) ∙ rw differ refl),
      )
