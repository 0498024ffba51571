-- ===== src/Storage.antt =====
-- apps/storage/src/features/common/services/storage.service.ts: files in a bucket of S3. The client of
-- S3 is a parameter, which answers a command; the state keeps the commands that were sent to it.
pub mod Commands
pub mod Deleting
pub mod Uploading
mod Examples
use Prim.Native.Char.{code}
use Prim.Native.String.{◌++◌ as ◌<>◌}
use photer_api.Base.{
  ℕ, String, Bool, true, false, not, truthy, List, ◌∷◌, ◌==◌, Action, Result, ok, throws, error,
  pure, throw, catching, ◌>>=◌, ◌>>◌, if◌then◌else◌,
}
use photer_api.Payments.Text.{decimal}

pub data S3Command : Type 0 where
  put_object : (key mimetype : String) (buffer : List ℕ) → S3Command
  copy_object : (copy_source key : String) → S3Command
  delete_object : (key : String) → S3Command

pub record S3Output : Type 0 where
  pub http_status_code : ℕ
  pub etag : String

abbrev pub S3Client : Type 0
S3Client = S3Command → Result S3Output

pub record S3ClientConfig : Type 0 where
  pub bucket_name : String
  pub endpoint : String
  pub s3_public_url : String

-- A document of the collections of avatars and of photos.
pub record PhotoMetadata : Type 0 where
  pub file_location : String
  pub file_key : String
  pub etag : String
  pub user_id : ℕ
  pub is_deleted : Bool

pub record Storage : Type 0 where
  pub sent : List S3Command
  pub metadata : List PhotoMetadata

pub record UploadedFile : Type 0 where
  pub key : String
  pub location : String
  pub etag : String

-- `s3client.send`
abbrev pub send : S3Client → S3Command → Action Storage S3Output
send client command s = (client command, record s { sent = command ∷ s.sent })

-- `originalName.split('.').pop()`
abbrev after_last_dot : (read : String) → String → String
after_last_dot read String.[] = read
after_last_dot read (String.◌∷◌ c s) =
    let skipped = after_last_dot s s in
    let kept = after_last_dot read s in if code c == b'.' then skipped else kept

unfoldable pub extension_of : String → String
extension_of name = after_last_dot name name

-- The clock and the draw of one name: the date of `toISOString`, `Date.now()` and the random number.
pub record Stamp : Type 0 where
  pub date : String
  pub now : ℕ
  pub draw : ℕ

unfoldable pub generate_file_name :
    (stamp : Stamp) → (user_id : ℕ) → (original_name folder_name : String) → String
unfolding extension_of
generate_file_name stamp user_id original_name folder_name =
    folder_name
    <> "/"
    <> decimal user_id
    <> "/"
    <> stamp.date
    <> "/"
    <> decimal stamp.now
    <> "-"
    <> decimal stamp.draw
    <> "."
    <> extension_of original_name

abbrev pub mimetype_or : String → String
mimetype_or mimetype = if truthy mimetype then mimetype else "aplication/octet-stream"

module _ (client : S3Client) (config : S3ClientConfig) where
  abbrev pub location_of : String → String
  location_of file_name = config.s3_public_url <> "/" <> file_name

  abbrev pub stored : String → S3Output → Action Storage UploadedFile
  stored file_name result =
      if not (result.http_status_code == 200)
      then throw (error "S3 returned a non-200 status")
      else pure (record { key = file_name; location = location_of file_name; etag = result.etag })

  unfoldable pub upload_file :
      (stamp : Stamp)
      → (buffer : List ℕ) → (mimetype : String) → (user_id : ℕ)
      → (original_name folder_name : String) → Action Storage UploadedFile
  upload_file stamp buffer mimetype user_id original_name folder_name =
      let file_name = generate_file_name stamp user_id original_name folder_name in
      catching
        (send client (put_object file_name (mimetype_or mimetype) buffer) >>= stored file_name)
        (λ e. throw (error "File uploading failed"))

  abbrev pub trash_key : String → String
  trash_key key = "trash/" <> key

  abbrev pub delete_answered : S3Output → Action Storage (Unit {0})
  delete_answered result =
      if not (result.http_status_code == 204)
      then throw (error ("S3 delete failed with status " <> decimal result.http_status_code))
      else pure tt

  abbrev pub copied : String → S3Output → Action Storage (Unit {0})
  copied key result =
      if not (result.http_status_code == 200)
      then throw (error ("S3 copy failed with status " <> decimal result.http_status_code))
      else send client (delete_object key) >>= delete_answered

  unfoldable pub delete_file : String → Action Storage (Unit {0})
  delete_file key =
      catching
        (send client (copy_object (config.bucket_name <> "/" <> key) (trash_key key))
          >>= copied key)
        (λ e. throw (error ("Failed to delete file " <> key)))
