-- ===== src/Examples/Assets.antt =====
-- Assets of listings, over lists of assets and the properties of Examples.Properties.
use smart_platform_services.Common.{
  ℕ, ◌≡◌, ◌⊎◌, refl, true, false, List, [], ◌∷◌, text, if◌then◌else◌, ◌==◌, nat_Eq, find_where,
}
use smart_platform_services.Identity.Contracts.{Error, forbidden, asset_not_ready}
use smart_platform_services.Identity.Exec.{Exec, Result, ok, err}
use smart_platform_services.Property.{PropertyStore}
use smart_platform_services.Property.Service.{assert_owner_owns_room, owned_property}
use smart_platform_services.Media.{
  ListingAssetSubject, property, room, ListingAsset, ready, NewListingAsset, ListingAssetRepository,
  ListingAssetSubjectAuthorizer, ListingAssetStorage, is_ready, publish_asset, private_asset,
}
use smart_platform_services.Media.Publishing.{Reads, IsOwned, publish_asset_lem}
use smart_platform_services.Examples.Properties.{houses}

abbrev Tables : Type 0
Tables = List ListingAsset × PropertyStore

-- The answer of a check on the properties, which writes nothing.
abbrev checked {ℓ} : {A : Type ℓ} → Result A → Result {0} Unit
checked (ok a) = ok tt
checked (err e) = err e

abbrev owns : ℕ → ListingAssetSubject → ℕ → Exec Tables Unit
owns owner property id tables = (checked (owned_property owner id tables.1).0, tables)
owns owner room id tables = (checked (assert_owner_owns_room owner id tables.1).0, tables)

abbrev stored : NewListingAsset → ListingAsset
stored new = record {
  id = 1;
  uploaded_by = new.uploaded_by;
  subject_type = new.upload.subject_type;
  subject_id = new.upload.subject_id;
  provider = new.upload.provider;
  bucket = new.upload.bucket;
  object_key = new.upload.object_key;
  original_name = new.upload.original_name;
  content_type = new.upload.content_type;
  size_bytes = new.upload.size_bytes;
  status = new.status;
  published = false;
}

abbrev assets : ListingAssetRepository Tables
assets = record {
  create = λ new tables. (ok (stored new), (stored new ∷ tables.0, tables.1));
  save = λ asset tables. (ok asset, (asset ∷ [], tables.1));
  find = λ id tables. (ok (find_where (λ (a : ListingAsset). a.id == id) tables.0), tables);
  list_published = λ t id tables. (ok tables.0, tables);
}

abbrev subjects : ListingAssetSubjectAuthorizer Tables
subjects = record { assert_owns = owns }

abbrev storage : ListingAssetStorage Tables
storage = record { create_upload_target = λ target tables. (ok target.object_key, tables) }

assets-Reads : Reads assets subjects
assets-Reads = record { find_keeps = λ id s. refl; assert_owns_keeps = owns_keeps }
  where
    owns_keeps :
        (owner : ℕ) (t : ListingAssetSubject) (id : ℕ) (s : Tables) → (owns owner t id s).1 ≡ s
    owns_keeps owner property id s = refl
    owns_keeps owner room id s = refl

abbrev photo : ListingAsset
photo = record {
  id = 7;
  uploaded_by = 50;
  subject_type = room;
  subject_id = 10;
  provider = text "s3";
  bucket = text "b";
  object_key = text "k";
  original_name = text "a.png";
  content_type = text "image/png";
  size_bytes = 9;
  status = ready;
  published = false;
}

abbrev tables : Tables
tables = (photo ∷ [], houses)

publish_asset_lem_example :
    ((asset : ListingAsset) × IsOwned assets subjects storage assets-Reads 50 7 tables asset
      × (private_asset assets subjects storage 50 7 tables ≡ (ok asset, tables))
      × (publish_asset assets subjects storage 50 7 tables ≡ (
          if is_ready asset.status
          then assets.save (record asset { published = true }) tables
          else (err (forbidden asset_not_ready), tables))))
    ⊎ ((e : Error) × (private_asset assets subjects storage 50 7 tables ≡ (err e, tables))
        × (publish_asset assets subjects storage 50 7 tables ≡ (err e, tables)))
publish_asset_lem_example = publish_asset_lem assets subjects storage assets-Reads 50 7 tables
