-- ===== src/Post/Creation.antt =====
-- What a request to create a post leaves in the tables.
use photer_api.Post.{Post}
