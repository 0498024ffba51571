-- ===== src/Storage/Deleting.antt =====
-- What the deletion of a file sends to S3, and the deletion of a file that was uploaded.
use Prim.Native.Char.{Char, code}
use Prim.Native.String.{◌++◌ as ◌<>◌}
use text.Mathlib.TextLemmas.{cons-append, nil-append, append_assoc}
use photer_api.Base.{
  ℕ, ◌≡◌, ◌⊎◌, inl, inr, refl, ap, ◌∙◌, String, true, false, some, List, ◌∷◌, arith, ◌==◌, Action,
  Exception, ◌>>=◌, Result-cases, Bool-cases, ok, throws, error, any,
}
use photer_api.Auth.Accounts.Plain.{same_text}
use photer_api.Storage.{
  S3Command, put_object, copy_object, delete_object, S3Output, S3Client, S3ClientConfig,
  PhotoMetadata, Storage, UploadedFile, Stamp, generate_file_name, upload_file, delete_file,
  trash_key, location_of, mimetype_or,
}
use photer_api.Storage.Commands.{
  MongoModel, FileInput, strip, replaced, extract_key_from_url, metadata_of, is_at, marked_metadata,
  upload_avatar, remove_avatar_by_url, delete_avatar,
}

same_code : (c : Char) → (code c == code c) ≡ true
same_code c = ground arith

strip-append : (p s : String) → strip p (p <> s) ≡ some s
strip-append String.[] s = ap (λ z. some z) (nil-append s)
strip-append (String.◌∷◌ c p) s =
    ap (strip (String.◌∷◌ c p)) (cons-append c p s) ∙ rw (same_code c) (strip-append p s)

replaced-none : (s : String) → replaced "" s ≡ s
replaced-none String.[] = refl
replaced-none (String.◌∷◌ c s) = refl

-- The text behind a prefix is what its replacement by nothing leaves.
replaced-append : (p s : String) → replaced p (p <> s) ≡ s
replaced-append String.[] s = ap (replaced "") (nil-append s) ∙ replaced-none s
replaced-append (String.◌∷◌ c p) s =
    let hit : strip (String.◌∷◌ c p) (String.◌∷◌ c (p <> s)) ≡ some s =
      rw (same_code c) (strip-append p s) in
    ap (replaced (String.◌∷◌ c p)) (cons-append c p s) ∙ rw (hit, replaced) refl

module _ (client : S3Client) (config : S3ClientConfig) (key : String) (s : Storage) where
  abbrev pub copy : S3Command
  copy = copy_object (config.bucket_name <> ("/" <> key)) (trash_key client config key)

  abbrev pub after : List S3Command → Storage
  after sent = record s { sent = sent }

  abbrev pub IsAnswered : S3Command → ℕ → Type 0
  IsAnswered command status =
      (r : S3Output) × (client command ≡ ok r) × ((r.http_status_code == status) ≡ true)

  -- The deletion of a file sends S3 its copy to the trash, and the deletion of the key only after S3
  -- answered the copy with 200; it succeeds only where S3 answered 200 and then 204, and otherwise it
  -- throws that the deletion of the key failed, whichever step failed. No document changes.
  pub delete_file_cases :
      (IsAnswered copy 200
        × IsAnswered (delete_object key) 204
        × (delete_file client config key s ≡ (ok tt, after (delete_object key ∷ copy ∷ s.sent))))
      ⊎ (IsAnswered copy 200
          × (delete_file client config key s ≡ (
            throws (error ("Failed to delete file " <> key)),
            after (delete_object key ∷ copy ∷ s.sent),
          )))
      ⊎ (delete_file client config key s
          ≡ (throws (error ("Failed to delete file " <> key)), after (copy ∷ s.sent)))
  unfolding delete_file
  delete_file_cases = elim (Result-cases (client copy)) [
    | inr (e, q) ↦ inr (inr (ground (arith, q)))
    | inl (r, q) ↦ elim (Bool-cases (r.http_status_code == 200)) [
      | inr b ↦ inr (inr (ground (arith, q, b)))
      | inl b ↦ elim (Result-cases (client (delete_object key))) [
        | inr (e, q') ↦ inr (inl ((r, q, b), ground (arith, q, b, q')))
        | inl (r', q') ↦ elim (Bool-cases (r'.http_status_code == 204)) [
          | inr b' ↦ inr (inl ((r, q, b), ground (arith, q, b, q', b')))
          | inl b' ↦ inl ((r, q, b), (r', q', b'), ground (arith, q, b, q', b'))
        ]
      ]
    ]
  ]

pub bind-ok :
    {S A B : Type 0} (m : Action S A) (k : A → Action S B) {s u : S} {a : A}
    → m s ≡ (ok a, u)
    → (m >>= k) s ≡ k a u
bind-ok m k {s} {u} {a} q = rw (q, ◌>>=◌) (ap (λ z. k a z.1) q)

pub bind-throws :
    {S A B : Type 0} (m : Action S A) (k : A → Action S B) {s u : S} {e : Exception}
    → m s ≡ (throws e, u)
    → (m >>= k) s ≡ (throws e, u)
bind-throws m k {s} {u} {e} q = rw (q, ◌>>=◌) (ap (λ z. (throws e, z.1)) q)

delete_avatar-delete_file :
    (client : S3Client) (config : S3ClientConfig) (model : MongoModel PhotoMetadata)
    (key url : String) (u v : Storage)
    → extract_key_from_url config url ≡ key
    → delete_file client config key u ≡ (ok tt, v)
    → delete_avatar client config model url u ≡ remove_avatar_by_url client config model url v
unfolding delete_avatar
delete_avatar-delete_file client config model key url u v e q =
    ap (λ k. (delete_file client config k >>= λ x. remove_avatar_by_url client config model url) u)
      e
    ∙ bind-ok (delete_file client config key) (λ x. remove_avatar_by_url client config model url) q

module _ (client : S3Client) (config : S3ClientConfig) (model : MongoModel PhotoMetadata)
    (stamp : Stamp) (file : FileInput) (user_id : ℕ) (s : Storage)
    (public : config.s3_public_url ≡ config.endpoint <> ("/" <> config.bucket_name)) where
  abbrev name : String
  name = generate_file_name stamp user_id file.original_name "avatars"

  abbrev put : S3Command
  put = put_object name (mimetype_or file.mimetype) file.buffer

  extract-location : extract_key_from_url config (location_of client config name) ≡ name
  unfolding extract_key_from_url
  extract-location =
      let prefix : String = config.endpoint <> ("/" <> (config.bucket_name <> "/")) in
      let whole : location_of client config name ≡ prefix <> name =
        rw public (simp append_assoc refl) in
      ap (replaced prefix) whole ∙ replaced-append prefix name

  abbrev after_upload : UploadedFile → Storage
  after_upload f = record { sent = put ∷ s.sent; metadata = metadata_of user_id f ∷ s.metadata }

  abbrev stored_as : S3Output → UploadedFile
  stored_as r = record { key = name; location = location_of client config name; etag = r.etag }

  upload_avatar_lem :
      {r : S3Output}
      → client put ≡ ok r
      → (r.http_status_code == 200) ≡ true
      → upload_avatar client config model stamp file user_id s ≡ (
        ok (record { file_url = location_of client config name; user_id = user_id }),
        after_upload (stored_as r),
      )
  unfolding upload_avatar upload_file
  upload_avatar_lem {r} q b =
      ground (arith, q, b, model.create_lem (metadata_of user_id (stored_as r)) s.metadata)

  delete_file_lem :
      (u : Storage) {c d : S3Output}
      → client (copy client config name u) ≡ ok c
      → (c.http_status_code == 200) ≡ true
      → client (delete_object name) ≡ ok d
      → (d.http_status_code == 204) ≡ true
      → delete_file client config name u ≡ (
        ok tt,
        after client config name u (delete_object name ∷ copy client config name u ∷ u.sent),
      )
  unfolding delete_file
  delete_file_lem u qc bc qd bd = ground (arith, qc, bc, qd, bd)

  remove_avatar_by_url_lem :
      (sent : List S3Command) (row : PhotoMetadata)
      → any (is_at row.file_location) s.metadata ≡ false
      → remove_avatar_by_url client config model row.file_location
          (record { sent = sent; metadata = row ∷ s.metadata })
        ≡ (ok true, record { sent = sent; metadata = marked_metadata row ∷ s.metadata })
  unfolding remove_avatar_by_url
  remove_avatar_by_url_lem sent row fresh = ground (
    arith,
    model.update_one-some (is_at row.file_location) marked_metadata row s.metadata
        (same_text row.file_location) fresh,
  )

  -- An avatar that was uploaded, where the public address of the bucket is the one that the service
  -- writes into its keys, no document has its address, and S3 accepts the three commands. Its
  -- deletion by that address sends a copy of exactly the uploaded key to the trash and then its
  -- deletion, answers that it is deleted, and marks the document of the upload.
  pub delete_avatar-upload_avatar :
      {r c d : S3Output}
      → client put ≡ ok r
      → (r.http_status_code == 200) ≡ true
      → client (copy client config name s) ≡ ok c
      → (c.http_status_code == 200) ≡ true
      → client (delete_object name) ≡ ok d
      → (d.http_status_code == 204) ≡ true
      → any (is_at (location_of client config name)) s.metadata ≡ false
      → let (a, s') = upload_avatar client config model stamp file user_id s in
        let location = location_of client config name in
        (a ≡ ok (record { file_url = location; user_id = user_id }))
        × (delete_avatar client config model location s' ≡ (
          ok true,
          record {
            sent = delete_object name ∷ copy client config name s ∷ put ∷ s.sent;
            metadata = marked_metadata (metadata_of user_id (stored_as r)) ∷ s.metadata;
          },
        ))
  delete_avatar-upload_avatar {r} {c} {d} q b qc bc qd bd fresh =
      let location = location_of client config name in
      let u = after_upload (stored_as r) in
      let sent = delete_object name ∷ copy client config name s ∷ put ∷ s.sent in
      rw (upload_avatar_lem q b) (
        refl,
        delete_avatar-delete_file client config model name location u
              (after client config name u sent) extract-location (delete_file_lem u qc bc qd bd)
            ∙ remove_avatar_by_url_lem sent (metadata_of user_id (stored_as r)) fresh,
      )
