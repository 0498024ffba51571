-- ===== src/Storage/Examples.antt =====
-- A client of S3 that accepts every command, a collection as a list, and one avatar.
use photer_api.Base.{
  ℕ, ◌≡◌, refl, String, Bool, true, false, List, [], ◌∷◌, Result, ok, throws, error, ◌⊎◌, change,
  count, text_discrete, if◌then◌else◌, arith, any,
}
use photer_api.Storage.{
  S3Command, put_object, copy_object, delete_object, S3Output, S3ClientConfig, PhotoMetadata,
  Storage, Stamp, UploadedFile, generate_file_name, delete_file,
}
use photer_api.Payments.Text.{decimal}
use photer_api.Storage.Commands.{
  MongoModel, FileInput, upload_avatar, delete_avatar, upload_post_photo,
}
use photer_api.Storage.Deleting.{IsAnswered, delete_file_cases, delete_avatar-upload_avatar}
use photer_api.Storage.Uploading.{IsPlaced, posted, saved, upload_post_photo_all}

module _ {R : Type 0} where
  abbrev update_first : (R → Bool) → (R → R) → List R → ℕ × List R
  update_first p f [] = (0, [])
  update_first p f (x ∷ xs) =
      let (n, rest) = update_first p f xs in if p x then (1, f x ∷ xs) else (n, x ∷ rest)

  update_first-none :
      (p : R → Bool) (f : R → R) (t : List R) → any p t ≡ false → update_first p f t ≡ (0, t)
  update_first-none p f [] e = refl
  update_first-none p f (x ∷ xs) e = ground (arith, update_first-none p f xs)

  update_first-some :
      (p : R → Bool) (f : R → R) (r : R) (t : List R)
      → p r ≡ true
      → any p t ≡ false
      → update_first p f (r ∷ t) ≡ (1, f r ∷ t)
  update_first-some p f r t e h = ground (arith, e)

abbrev list_model : MongoModel PhotoMetadata
list_model = record {
  create = λ r t. r ∷ t;
  update_one = update_first;
  update_many = λ p f t. (count p t, change p f t);
  create_lem = λ r t. refl;
  update_one-none = update_first-none;
  update_one-some = update_first-some;
  update_many-change = λ p f t. refl;
  update_many-count = λ p f t. omega arith;
}

abbrev answering : S3Command → Result S3Output
answering (put_object key mimetype buffer) = ok (record { http_status_code = 200; etag = "e1" })
answering (copy_object source key) = ok (record { http_status_code = 200; etag = "e1" })
answering (delete_object key) = ok (record { http_status_code = 204; etag = "" })

abbrev bucket : S3ClientConfig
bucket = record {
  bucket_name = "photos";
  endpoint = "https://s3.test";
  s3_public_url = "https://s3.test/photos";
}

abbrev avatar : FileInput
avatar = record { buffer = 1 ∷ 2 ∷ []; original_name = "me.v2.png"; mimetype = "image/png" }

abbrev stamp : Stamp
stamp = record { date = "2025-06-24"; now = 1750774778239; draw = 940 }

abbrev photos : List (Stamp × FileInput)
photos =
    (stamp, record { buffer = 7 ∷ []; original_name = "a.jpg"; mimetype = "image/jpeg" })
    ∷ (
      record { date = "2025-06-24"; now = 1750774778240; draw = 12 },
      record { buffer = 8 ∷ []; original_name = "b"; mimetype = "" },
    )
    ∷ []

abbrev nothing : Storage
nothing = record { sent = []; metadata = [] }

abbrev failed : String
failed = "Failed to delete file files/1/x.png"

abbrev to_trash : S3Command
to_trash = copy_object "photos/files/1/x.png" "trash/files/1/x.png"

delete_file_cases_example :
    (IsAnswered answering bucket "files/1/x.png" nothing to_trash 200
      × IsAnswered answering bucket "files/1/x.png" nothing (delete_object "files/1/x.png") 204
      × (delete_file answering bucket "files/1/x.png" nothing ≡ (
        ok tt,
        record { sent = delete_object "files/1/x.png" ∷ to_trash ∷ []; metadata = [] },
      )))
    ⊎ (IsAnswered answering bucket "files/1/x.png" nothing to_trash 200
        × (delete_file answering bucket "files/1/x.png" nothing ≡ (
          throws (error failed),
          record { sent = delete_object "files/1/x.png" ∷ to_trash ∷ []; metadata = [] },
        )))
    ⊎ (delete_file answering bucket "files/1/x.png" nothing
        ≡ (throws (error failed), record { sent = to_trash ∷ []; metadata = [] }))
delete_file_cases_example = delete_file_cases answering bucket "files/1/x.png" nothing

abbrev avatar_key : String
avatar_key = "avatars/3/2025-06-24/1750774778239-940.png"

abbrev avatar_url : String
avatar_url = "https://s3.test/photos/avatars/3/2025-06-24/1750774778239-940.png"

delete_avatar-upload_avatar_example :
    let (a, s') = upload_avatar answering bucket list_model stamp avatar 3 nothing in
    (a ≡ ok (record { file_url = avatar_url; user_id = 3 }))
    × (delete_avatar answering bucket list_model avatar_url s' ≡ (
      ok true,
      record {
        sent =
            delete_object avatar_key
            ∷ copy_object "photos/avatars/3/2025-06-24/1750774778239-940.png"
                "trash/avatars/3/2025-06-24/1750774778239-940.png"
            ∷ put_object avatar_key "image/png" (1 ∷ 2 ∷ [])
            ∷ [];
        metadata =
            record {
              file_location = avatar_url;
              file_key = avatar_key;
              etag = "e1";
              user_id = 3;
              is_deleted = true;
            }
            ∷ [];
      },
    ))
unfolding generate_file_name text_discrete decimal
delete_avatar-upload_avatar_example =
    delete_avatar-upload_avatar answering bucket list_model stamp avatar 3 nothing refl refl refl
      refl refl refl refl refl

abbrev photo_urls : List String
photo_urls =
    "https://s3.test/photos/files/3/2025-06-24/1750774778239-940.jpg"
    ∷ "https://s3.test/photos/files/3/2025-06-24/1750774778240-12.b" ∷ []

upload_post_photo_all_example :
    let (a, s') = upload_post_photo answering bucket list_model photos 3 nothing in
    (s'.sent ≡ (posted answering bucket 3 photos nothing).sent)
    × (((placed_files : List UploadedFile) × IsPlaced answering bucket 3 photos placed_files
          × (a ≡ ok (record { file_urls = photo_urls; user_id = 3 }))
          × (s'.metadata ≡ saved answering bucket 3 placed_files []))
        ⊎ ((a ≡ throws (error "File uploading failed")) × (s'.metadata ≡ [])))
unfolding generate_file_name decimal
upload_post_photo_all_example = upload_post_photo_all answering bucket 3 list_model photos nothing
