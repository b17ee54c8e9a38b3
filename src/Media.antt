-- ===== src/Media.antt =====
-- libs/media/src/media.contracts.ts: the assets of listings. The repository, the authorizer and the storage
-- are interfaces without an implementation.
pub mod Publishing
use smart_platform_services.Common.{
  ℕ, ◌≡◌, Bool, true, false, not, ◌&&◌, ◌||◌, Option, none, some, List, Text, ◌==◌, nat_Eq,
}
use smart_platform_services.Identity.Contracts.{
  not_found, forbidden, asset_not_ready, asset_not_found,
}
use smart_platform_services.Identity.Exec.{Exec, pure, throw, require, ◌>>=◌, ◌>>◌}

pub data ListingAssetSubject : Type 0 where
  property room : ListingAssetSubject

pub data ListingAssetStatus : Type 0 where
  pending ready quarantined deleted : ListingAssetStatus

pub record ListingAsset : Type 0 where
  pub id : ℕ
  pub uploaded_by : ℕ
  pub subject_type : ListingAssetSubject
  pub subject_id : ℕ
  pub provider : Text
  pub bucket : Text
  pub object_key : Text
  pub original_name : Text
  pub content_type : Text
  pub size_bytes : ℕ
  pub status : ListingAssetStatus
  pub published : Bool

-- `Omit<ListingAsset, 'id' | 'uploadedBy' | 'published' | 'status'>`
pub record Upload : Type 0 where
  pub subject_type : ListingAssetSubject
  pub subject_id : ℕ
  pub provider : Text
  pub bucket : Text
  pub object_key : Text
  pub original_name : Text
  pub content_type : Text
  pub size_bytes : ℕ

-- `Omit<ListingAsset, 'id' | 'published'>`
pub record NewListingAsset : Type 0 where
  pub upload : Upload
  pub uploaded_by : ℕ
  pub status : ListingAssetStatus

pub record UploadTarget : Type 0 where
  pub provider : Text
  pub bucket : Text
  pub object_key : Text
  pub content_type : Text

pub record ListingAssetRepository (S : Type 0) : Type 0 where
  pub create : NewListingAsset → Exec S ListingAsset
  pub save : ListingAsset → Exec S ListingAsset
  pub find : ℕ → Exec S (Option ListingAsset)
  pub list_published : ListingAssetSubject → ℕ → Exec S (List ListingAsset)

-- Who owns a subject is told by another component.
pub record ListingAssetSubjectAuthorizer (S : Type 0) : Type 0 where
  pub assert_owns : ℕ → ListingAssetSubject → ℕ → Exec S Unit

-- The URL for an upload.
pub record ListingAssetStorage (S : Type 0) : Type 0 where
  pub create_upload_target : UploadTarget → Exec S Text

abbrev pub is_ready : ListingAssetStatus → Bool
is_ready ready = true
is_ready _ = false

abbrev pub is_deleted : ListingAssetStatus → Bool
is_deleted deleted = true
is_deleted _ = false

module _ {S : Type 0} (assets : ListingAssetRepository S)
    (subjects : ListingAssetSubjectAuthorizer S) (storage : ListingAssetStorage S) where
  unfoldable pub begin_upload : ℕ → Upload → Exec S (ListingAsset × Text)
  begin_upload owner_id asset = do
    subjects.assert_owns owner_id asset.subject_type asset.subject_id
    saved ← assets.create (record { upload = asset; uploaded_by = owner_id; status = pending })
    target ← storage.create_upload_target (record {
      provider = saved.provider;
      bucket = saved.bucket;
      object_key = saved.object_key;
      content_type = saved.content_type;
    })
    pure (saved, target)

  -- The asset of an uploader that is not deleted.
  abbrev pub asset_or_missing : ℕ → Option ListingAsset → Exec S ListingAsset
  asset_or_missing owner_id none = throw (not_found asset_not_found)
  asset_or_missing owner_id (some asset) =
      require (asset.uploaded_by == owner_id && not (is_deleted asset.status))
        (not_found asset_not_found)
      >> pure asset

  unfoldable pub owned : ℕ → ℕ → Exec S ListingAsset
  owned owner_id id = do
    found ← assets.find id
    asset ← asset_or_missing owner_id found
    subjects.assert_owns owner_id asset.subject_type asset.subject_id
    pure asset

  unfoldable pub publish_asset : ℕ → ℕ → Exec S ListingAsset
  publish_asset owner_id id = do
    asset ← owned owner_id id
    require (is_ready asset.status) (forbidden asset_not_ready)
    assets.save (record asset { published = true })

  unfoldable pub private_asset : ℕ → ℕ → Exec S ListingAsset
  private_asset owner_id id = owned owner_id id

  unfoldable pub list_public : ListingAssetSubject → ℕ → Exec S (List ListingAsset)
  list_public subject_type subject_id = assets.list_published subject_type subject_id
