-- ===== src/Storage/Uploading.antt =====
-- What the upload of the photos of a post leaves behind: the whole of it, or no document.
use photer_api.Base.{
  ℕ, ◌≡◌, ◌⊎◌, inl, inr, refl, ap, ◌∙◌, String, true, List, [], ◌∷◌, map, arith, ◌==◌, Action,
  Exception, pure, ◌>>◌, Result, Result-cases, Bool-cases, ok, throws, error,
}
use photer_api.Storage.{
  S3Command, put_object, S3Output, S3Client, S3ClientConfig, PhotoMetadata, Storage, UploadedFile,
  Stamp, generate_file_name, upload_file, location_of, mimetype_or,
}
use photer_api.Storage.Commands.{
  MongoModel, FileInput, UploadedAll, metadata_of, promise_all, joined, uploads, save_metadata,
  save_all, upload_post_photo,
}
use photer_api.Storage.Deleting.{bind-ok, bind-throws}

module _ {S A : Type 0} where
  promise_all-joined :
      (m : Action S A) (ms : List (Action S A)) {s u : S} {r : Result A}
      {others : Result (List A) × S}
      → m s ≡ (r, u)
      → promise_all ms u ≡ others
      → promise_all (m ∷ ms) s ≡ joined r others
  promise_all-joined m ms {r = r} q h =
      ap (λ w. joined w.0 (promise_all ms w.1)) q ∙ ap (joined r) h

module _ (client : S3Client) (config : S3ClientConfig) (user_id : ℕ) where
  abbrev name_of : Stamp × FileInput → String
  name_of file = generate_file_name file.0 user_id file.1.original_name "files"

  abbrev put_of : Stamp × FileInput → S3Command
  put_of file = put_object (name_of file) (mimetype_or file.1.mimetype) file.1.buffer

  -- The commands of all files, the last on top.
  abbrev pub posted : List (Stamp × FileInput) → Storage → Storage
  posted [] s = s
  posted (file ∷ files) s = posted files (record s { sent = put_of file ∷ s.sent })

  abbrev pub url_of : Stamp × FileInput → String
  url_of file = location_of client config (name_of file)

  abbrev IsAccepted : Stamp × FileInput → S3Output → Type 0
  IsAccepted file r = (client (put_of file) ≡ ok r) × ((r.http_status_code == 200) ≡ true)

  abbrev placed : Stamp × FileInput → S3Output → UploadedFile
  placed file r = record { key = name_of file; location = url_of file; etag = r.etag }

  abbrev upload : Stamp × FileInput → Action Storage UploadedFile
  upload file =
      upload_file client config file.0 file.1.buffer file.1.mimetype user_id file.1.original_name
        "files"

  upload_file_cases :
      (file : Stamp × FileInput) (s : Storage)
      → ((r : S3Output) × IsAccepted file r
          × (upload file s ≡ (ok (placed file r), record s { sent = put_of file ∷ s.sent })))
        ⊎ (upload file s
            ≡ (throws (error "File uploading failed"), record s { sent = put_of file ∷ s.sent }))
  unfolding upload_file
  upload_file_cases file s = elim (Result-cases (client (put_of file))) [
    | inr (e, q) ↦ inr (ground (arith, q))
    | inl (r, q) ↦ elim (Bool-cases (r.http_status_code == 200)) [
      | inr b ↦ inr (ground (arith, q, b))
      | inl b ↦ inl (r, (q, b), ground (arith, q, b))
    ]
  ]

  -- The files as S3 took them, one for each.
  pub data IsPlaced : List (Stamp × FileInput) → List UploadedFile → Type 0 where
    nothing_placed : IsPlaced [] []
    placed_next :
        {file : Stamp × FileInput}
        → {files : List (Stamp × FileInput)} → {placed_files : List UploadedFile} → (r : S3Output)
        → IsAccepted file r
        → IsPlaced files placed_files
        → IsPlaced (file ∷ files) (placed file r ∷ placed_files)

  IsPlaced-urls :
      {files : List (Stamp × FileInput)} {placed_files : List UploadedFile}
      → IsPlaced files placed_files
      → map (λ (f : UploadedFile). f.location) placed_files ≡ map url_of files
  IsPlaced-urls nothing_placed = refl
  IsPlaced-urls (placed_next {file} r a h) = ap (λ z. url_of file ∷ z) (IsPlaced-urls h)

  promise_all-uploads :
      (files : List (Stamp × FileInput)) (s : Storage)
      → ((placed_files : List UploadedFile) × IsPlaced files placed_files
          × (promise_all (uploads client config files user_id) s
              ≡ (ok placed_files, posted files s)))
        ⊎ (promise_all (uploads client config files user_id) s
            ≡ (throws (error "File uploading failed"), posted files s))
  promise_all-uploads [] s = inl ([], nothing_placed, refl)
  promise_all-uploads (file ∷ files) s =
      let ms = uploads client config files user_id in
      elim (upload_file_cases file s) [
        | inr q ↦ elim (promise_all-uploads files (record s { sent = put_of file ∷ s.sent })) [
          | inr q' ↦ inr (promise_all-joined (upload file) ms q q')
          | inl (fs, h, q') ↦ inr (promise_all-joined (upload file) ms q q')
        ]
        | inl (r, a, q) ↦
            elim (promise_all-uploads files (record s { sent = put_of file ∷ s.sent })) [
              | inr q' ↦ inr (promise_all-joined (upload file) ms q q')
              | inl (fs, h, q') ↦
                  inl (
                    placed file r ∷ fs,
                    placed_next r a h,
                    promise_all-joined (upload file) ms q q',
                  )
            ]
      ]

  -- The documents of the files, the last on top.
  abbrev pub saved : List UploadedFile → List PhotoMetadata → List PhotoMetadata
  saved [] t = t
  saved (f ∷ fs) t = saved fs (metadata_of user_id f ∷ t)

  module _ (model : MongoModel PhotoMetadata) where
    promise_all-save_metadata :
        (fs : List UploadedFile) (s : Storage)
        → promise_all (map (save_metadata client config model user_id) fs) s
          ≡ (ok (map (λ f. tt) fs), record s { metadata = saved fs s.metadata })
    promise_all-save_metadata [] s = refl
    promise_all-save_metadata (f ∷ fs) s =
        promise_all-joined (save_metadata client config model user_id f)
          (map (save_metadata client config model user_id) fs)
          (ap (λ t. (ok tt, record s { metadata = t }))
            (model.create_lem (metadata_of user_id f) s.metadata))
          (promise_all-save_metadata fs
            (record s { metadata = metadata_of user_id f ∷ s.metadata }))

    posted-metadata :
        (files : List (Stamp × FileInput)) (s : Storage) → (posted files s).metadata ≡ s.metadata
    posted-metadata [] s = refl
    posted-metadata (file ∷ files) s =
        posted-metadata files (record s { sent = put_of file ∷ s.sent })

    abbrev answer : List UploadedFile → UploadedAll
    answer fs = record { file_urls = map (λ (f : UploadedFile). f.location) fs; user_id = user_id }

    upload_post_photo-ok :
        (files : List (Stamp × FileInput)) {fs : List UploadedFile} (s u : Storage)
        → promise_all (uploads client config files user_id) s ≡ (ok fs, u)
        → upload_post_photo client config model files user_id s
          ≡ (ok (answer fs), record u { metadata = saved fs u.metadata })
    unfolding upload_post_photo
    upload_post_photo-ok files {fs} s u q =
        let save = save_all client config model user_id in
        let rows = promise_all (map (save_metadata client config model user_id) fs) in
        bind-ok (promise_all (uploads client config files user_id))
          (λ fs. save fs >> pure (answer fs)) q
        ∙ bind-ok (save fs) (λ x. pure (answer fs))
            (bind-ok rows (λ x. pure tt) (promise_all-save_metadata fs u))

    upload_post_photo-throws :
        (files : List (Stamp × FileInput)) {e : Exception} (s u : Storage)
        → promise_all (uploads client config files user_id) s ≡ (throws e, u)
        → upload_post_photo client config model files user_id s ≡ (throws e, u)
    unfolding upload_post_photo
    upload_post_photo-throws files s u q =
        bind-throws (promise_all (uploads client config files user_id))
          (λ fs. save_all client config model user_id fs >> pure (answer fs)) q

    -- The upload of the photos of a post: every file is sent to S3, and either all are taken, and then
    -- the answer has their addresses in the order of the files, and there is one document for each
    -- file as S3 took it; or the upload throws that it failed, and no document is written.
    pub upload_post_photo_all :
        (files : List (Stamp × FileInput)) (s : Storage)
        → let (a, s') = upload_post_photo client config model files user_id s in
          (s'.sent ≡ (posted files s).sent)
          × (((placed_files : List UploadedFile) × IsPlaced files placed_files
                × (a ≡ ok (record { file_urls = map url_of files; user_id = user_id }))
                × (s'.metadata ≡ saved placed_files s.metadata))
              ⊎ ((a ≡ throws (error "File uploading failed")) × (s'.metadata ≡ s.metadata)))
    upload_post_photo_all files s = elim (promise_all-uploads files s) [
      | inr q ↦
          rw (upload_post_photo-throws files s (posted files s) q)
            (refl, inr (refl, posted-metadata files s))
      | inl (fs, h, q) ↦ rw (upload_post_photo-ok files s (posted files s) q) (
        refl,
        inl (
          fs,
          h,
          ap (λ z. ok (record { file_urls = z; user_id = user_id })) (IsPlaced-urls h),
          ap (saved fs) (posted-metadata files s),
        ),
      )
    ]
