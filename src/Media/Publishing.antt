-- ===== src/Media/Publishing.antt =====
-- Who may publish an asset.
use smart_platform_services.Common.{
  ℕ, ◌≡◌, refl, inl, inr, true, false, not, ◌&&◌, none, some, ◌==◌, nat_Eq, Bool-cases, arith, ◌⊎◌,
  if◌then◌else◌,
}
use smart_platform_services.Identity.Contracts.{
  Error, forbidden, not_found, asset_not_ready, asset_not_found,
}
use smart_platform_services.Identity.Exec.{Result-cases, ok, err}
use smart_platform_services.Media.{
  ListingAssetSubject, ListingAsset, ListingAssetRepository, ListingAssetSubjectAuthorizer,
  ListingAssetStorage, is_ready, is_deleted, owned, publish_asset, private_asset,
}

-- What the two lookups promise: they write nothing.
pub record Reads {S : Type 0} (assets : ListingAssetRepository S)
    (subjects : ListingAssetSubjectAuthorizer S) : Type 0 where
  pub find_keeps : (id : ℕ) (s : S) → (assets.find id s).1 ≡ s
  pub assert_owns_keeps :
      (owner : ℕ) (t : ListingAssetSubject) (id : ℕ) (s : S)
      → (subjects.assert_owns owner t id s).1 ≡ s

is_uploader :
    (a : ListingAsset) (owner : ℕ)
    → (a.uploaded_by == owner && not (is_deleted a.status)) ≡ true
    → a.uploaded_by ≡ owner
is_uploader a owner m = ground arith

is_kept :
    (a : ListingAsset) (owner : ℕ)
    → (a.uploaded_by == owner && not (is_deleted a.status)) ≡ true
    → is_deleted a.status ≡ false
is_kept a owner m = ground arith

module _ {S : Type 0} (assets : ListingAssetRepository S)
    (subjects : ListingAssetSubjectAuthorizer S) (storage : ListingAssetStorage S)
    (reads : Reads assets subjects) where
  -- The asset that an operation of its owner has looked up.
  abbrev pub IsOwned : ℕ → ℕ → S → ListingAsset → Type 0
  IsOwned owner id s asset =
      ((assets.find id s).0 ≡ ok (some asset))
      × (asset.uploaded_by ≡ owner)
      × (is_deleted asset.status ≡ false)
      × ((subjects.assert_owns owner asset.subject_type asset.subject_id s).0 ≡ ok tt)

  owned-cases :
      (owner id : ℕ) (s : S)
      → ((asset : ListingAsset) × (owned assets subjects storage owner id s ≡ (ok asset, s))
          × IsOwned owner id s asset)
        ⊎ ((e : Error) × (owned assets subjects storage owner id s ≡ (err e, s)))
  unfolding owned
  owned-cases owner id s =
      let kept = reads.find_keeps id s in
      elim (Result-cases (assets.find id s).0) [
        | inr (e, f) ↦ inr (e, rw (f, kept) refl)
        | inl (none, f) ↦ inr (not_found asset_not_found, rw (f, kept) refl)
        | inl (some a, f) ↦
            elim (Bool-cases (a.uploaded_by == owner && not (is_deleted a.status))) [
              | inr m ↦ inr (not_found asset_not_found, rw (f, kept, m) refl)
              | inl m ↦
                  let asked = reads.assert_owns_keeps owner a.subject_type a.subject_id s in
                  elim (Result-cases (subjects.assert_owns owner a.subject_type a.subject_id s).0) [
                    | inr (e, o) ↦ inr (e, rw (f, kept, m, o, asked) refl)
                    | inl (u, o) ↦ inl (
                      a,
                      rw (f, kept, m, o, asked) refl,
                      (f, is_uploader a owner m, is_kept a owner m, o),
                    )
                  ]
            ]
      ]

  -- An asset that is published, or that its owner reads, is stored, was uploaded by the caller, who owns
  -- the subject, and is not deleted; publishing wants it ready as well, and saves it as published. Where
  -- this fails, the answer is an error and nothing has been written. The two lookups are taken to write
  -- nothing.
  pub publish_asset_lem :
      (owner id : ℕ) (s : S)
      → ((asset : ListingAsset) × IsOwned owner id s asset
          × (private_asset assets subjects storage owner id s ≡ (ok asset, s))
          × (publish_asset assets subjects storage owner id s ≡ (
              if is_ready asset.status
              then assets.save (record asset { published = true }) s
              else (err (forbidden asset_not_ready), s))))
        ⊎ ((e : Error) × (private_asset assets subjects storage owner id s ≡ (err e, s))
            × (publish_asset assets subjects storage owner id s ≡ (err e, s)))
  unfolding private_asset publish_asset
  publish_asset_lem owner id s = elim (owned-cases owner id s) [
    | inr (e, o) ↦ inr (e, o, rw o refl)
    | inl (asset, o, held) ↦ elim (Bool-cases (is_ready asset.status)) [
      | inl k ↦ inl (asset, held, o, rw (o, k) refl)
      | inr k ↦ inl (asset, held, o, rw (o, k) refl)
    ]
  ]
