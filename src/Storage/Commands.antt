-- ===== src/Storage/Commands.antt =====
-- The use cases of apps/storage/src/features/avatar and apps/storage/src/features/post-photo, with
-- their repositories. The model of a collection of MongoDB is a parameter.
use Prim.Native.Char.{code}
use Prim.Native.String.{◌++◌ as ◌<>◌}
use photer_api.Base.{
  ℕ, ◌≤◌, ◌≡◌, String, Bool, true, false, ◌&&◌, ◌||◌, Option, none, some, List, [], ◌∷◌, map, ◌==◌,
  ◌===◌, Action, Result, ok, throws, pure, ◌>>=◌, ◌>>◌, modify, change, count, any, if◌then◌else◌,
}
use photer_api.Storage.{
  S3Client, S3ClientConfig, PhotoMetadata, Storage, UploadedFile, Stamp, upload_file, delete_file,
}

-- Mongoose over the documents of a collection.
pub record MongoModel (R : Type 0) : Type 0 where
  pub create : R → List R → List R
  -- `updateOne`, with `matchedCount`.
  pub update_one : (R → Bool) → (R → R) → List R → ℕ × List R
  -- `updateMany`, with `modifiedCount`.
  pub update_many : (R → Bool) → (R → R) → List R → ℕ × List R
  pub create_lem : (r : R) (t : List R) → create r t ≡ r ∷ t
  -- One document of those that fit is updated, if there is one.
  pub update_one-none :
      (p : R → Bool) (f : R → R) (t : List R) → any p t ≡ false → update_one p f t ≡ (0, t)
  pub update_one-some :
      (p : R → Bool) (f : R → R) (r : R) (t : List R)
      → p r ≡ true
      → any p t ≡ false
      → update_one p f (r ∷ t) ≡ (1, f r ∷ t)
  pub update_many-change :
      (p : R → Bool) (f : R → R) (t : List R) → (update_many p f t).1 ≡ change p f t
  pub update_many-count :
      (p : R → Bool) (f : R → R) (t : List R) → (update_many p f t).0 ≤ count p t

abbrev pub on_metadata : {A : Type 0} → Action (List PhotoMetadata) A → Action Storage A
on_metadata m s = let (r, t) = m s.metadata in (r, record s { metadata = t })

-- `text.replace(prefix, '')`: the first occurrence goes.
abbrev pub strip : (prefix text : String) → Option String
strip String.[] s = some s
strip (String.◌∷◌ c p) String.[] = none
strip (String.◌∷◌ c p) (String.◌∷◌ d s) =
    let rest = strip p s in if code c == code d then rest else none

abbrev or_kept : Option String → String → String
or_kept none kept = kept
or_kept (some rest) kept = rest

abbrev pub replaced : (prefix text : String) → String
replaced p String.[] = ""
replaced p (String.◌∷◌ c s) =
    let rest = replaced p s in or_kept (strip p (String.◌∷◌ c s)) (String.◌∷◌ c rest)

unfoldable pub extract_key_from_url : S3ClientConfig → String → String
extract_key_from_url config url = replaced (config.endpoint <> "/" <> config.bucket_name <> "/") url

abbrev pub metadata_of : ℕ → UploadedFile → PhotoMetadata
metadata_of user_id file = record {
  file_location = file.location;
  file_key = file.key;
  etag = file.etag;
  user_id = user_id;
  is_deleted = false;
}

abbrev pub is_at : String → PhotoMetadata → Bool
is_at url m = m.file_location === url

abbrev pub is_one_of : String → List String → Bool
is_one_of url [] = false
is_one_of url (u ∷ us) = url === u || is_one_of url us

abbrev pub is_file_of : ℕ → List String → PhotoMetadata → Bool
is_file_of user_id urls m = m.user_id == user_id && is_one_of m.file_location urls

abbrev pub marked_metadata : PhotoMetadata → PhotoMetadata
marked_metadata m = record m { is_deleted = true }

-- An uploaded file as the message carries it.
pub record FileInput : Type 0 where
  pub buffer : List ℕ
  pub original_name : String
  pub mimetype : String

pub record Uploaded : Type 0 where
  pub file_url : String
  pub user_id : ℕ

pub record UploadedAll : Type 0 where
  pub file_urls : List String
  pub user_id : ℕ

module _ {S A : Type 0} where
  abbrev pub joined : Result A → Result (List A) × S → Result (List A) × S
  joined (throws e) others = (throws e, others.1)
  joined (ok a) others = elim others.0 [
    | throws e ↦ (throws e, others.1)
    | ok rest ↦ (ok (a ∷ rest), others.1)
  ]

  -- `Promise.all`: every action is started, and the first that throws is the outcome.
  abbrev pub promise_all : List (Action S A) → Action S (List A)
  promise_all [] s = (ok [], s)
  promise_all (m ∷ ms) s = joined (m s).0 (promise_all ms (m s).1)

module _ (client : S3Client) (config : S3ClientConfig) where
  abbrev pub uploads : List (Stamp × FileInput) → ℕ → List (Action Storage UploadedFile)
  uploads files user_id =
      map
        (λ (file : Stamp × FileInput).
          let (stamp, f) = file in
          upload_file client config stamp f.buffer f.mimetype user_id f.original_name "files")
        files

module _ (client : S3Client) (config : S3ClientConfig) (model : MongoModel PhotoMetadata) where
  abbrev pub save_metadata : ℕ → UploadedFile → Action Storage (Unit {0})
  save_metadata user_id file =
      modify (λ (s : Storage). record s {
        metadata = model.create (metadata_of user_id file) s.metadata;
      })

  unfoldable pub upload_avatar : (stamp : Stamp) → FileInput → ℕ → Action Storage Uploaded
  upload_avatar stamp file user_id = do
    location ←
        upload_file client config stamp file.buffer file.mimetype user_id file.original_name
          "avatars"
    save_metadata user_id location
    pure (record { file_url = location.location; user_id = user_id })

  -- `AvatarMetadataRepository.removeAvatarByUrl`
  unfoldable pub remove_avatar_by_url : String → Action Storage Bool
  remove_avatar_by_url url =
      on_metadata
        (λ t. let (n, t') = model.update_one (is_at url) marked_metadata t in (ok (n == 1), t'))

  -- The answer is `{ isDeleted }`.
  unfoldable pub delete_avatar : String → Action Storage Bool
  delete_avatar file_url = do
    delete_file client config (extract_key_from_url config file_url)
    remove_avatar_by_url file_url

  -- `saveFileMetadata`
  abbrev pub save_all : ℕ → List UploadedFile → Action Storage (Unit {0})
  save_all user_id files = promise_all (map (save_metadata user_id) files) >> pure tt

  unfoldable pub upload_post_photo : List (Stamp × FileInput) → ℕ → Action Storage UploadedAll
  upload_post_photo files user_id = do
    locations ← promise_all (uploads client config files user_id)
    save_all user_id locations
    pure
        (record { file_urls = map (λ (f : UploadedFile). f.location) locations; user_id = user_id })

  -- `PostPhotoMetadataRepository.removeFilesByKeys`
  unfoldable pub remove_files_by_keys : ℕ → List String → Action Storage ℕ
  remove_files_by_keys user_id urls = on_metadata (λ t.
      let (n, t') = model.update_many (is_file_of user_id urls) marked_metadata t in (ok n, t'))

  -- The answer is `{ deletedLength }`.
  unfoldable pub delete_post_photo : List String → ℕ → Action Storage ℕ
  delete_post_photo file_urls user_id = do
    promise_all (map (λ url. delete_file client config (extract_key_from_url config url)) file_urls)
    remove_files_by_keys user_id file_urls
