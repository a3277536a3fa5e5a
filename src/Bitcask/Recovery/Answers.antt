-- ===== src/Bitcask/Recovery/Answers.antt =====
-- Get and Has on a valid store, and every operation on a closed one.
use in_memory_db.Base.{
  ℕ, ◌<◌, ◌≡◌, refl, ◌∙◌, List, length, ◌==◌, true, false, Option-cases, none, some, ok, err, arith,
  inl, inr, ◌⊎◌, not_found, take, drop, is_some,
}
use in_memory_db.Bitcask.IndexSpec.{IndexSpec}
use in_memory_db.Bitcask.Segment.Appends.{read_at_lem}
use in_memory_db.Bitcask.Db.{Db, get, has, get_locked}
use in_memory_db.Bitcask.Db.Layout.{segment_at_lem}
use in_memory_db.Bitcask.Db.Reads.{IsValid, get_locked_at}

module _ {spec : IndexSpec} where
  open_get :
      (key : List ℕ) (db : Db spec)
      → 0 < length key
      → db.is_closed ≡ false
      → (get key db ≡ get_locked key db) × (has key db ≡ ok (is_some (spec.get db.idx key)))
  unfolding get has
  open_get key db pos live =
      let full : (length key == 0) ≡ false = ground arith in rw (full, live) (refl, refl)

  -- For a non-empty key on a valid, open store, Has and Get agree: either Has says no and Get
  -- fails with the not-found error, or Has says yes and Get returns a value.
  pub get-has :
      (key : List ℕ) (db : Db spec)
      → IsValid db
      → 0 < length key
      → db.is_closed ≡ false
      → ((has key db ≡ ok false) × (get key db ≡ err not_found))
        ⊎ ((value : List ℕ) × (has key db ≡ ok true) × (get key db ≡ ok value))
  get-has key db v pos live =
      let (gets, hases) = open_get key db pos live in
      elim (Option-cases (spec.get db.idx key)) [
        | inl missing ↦ inl (hases ∙ rw missing refl, gets ∙ get_locked_at key db none missing)
        | inr (loc, found) ↦
            let (seg, here, inside) = v.placed key loc found in
            let sized = v.layout.sized loc.seg_id seg here in
            inr (
              take loc.val_len (drop loc.val_offset seg.bytes),
              hases ∙ rw found refl,
              gets
                  ∙ (get_locked_at key db (some loc) found
                      ∙ rw (segment_at_lem loc.seg_id seg db here) (
                          read_at_lem seg loc.val_offset loc.val_len
                            (omega (arith, inside, sized.used)))),
            )
      ]
