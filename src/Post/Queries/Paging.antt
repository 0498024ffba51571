-- ===== src/Post/Queries/Paging.antt =====
-- What the pages of posts hold.
use Prim.Native.Nat.{min}
use photer_api.Base.{
  subst, ℕ, ◌≤◌, ◌≡◌, refl, ap, ◌∙◌, ◌⊎◌, inl, inr, true, false, none, some, List, map, arith,
  if◌then◌else◌, ◌==◌, Has, All, Delegate, Option-cases, Has-map_inv,
}
use photer_api.User.Repository.{UserRow, same_user, has_id}
use photer_api.Query.{BaseQueryParams, BasePaginatedOutputDto, calculate_skip, map_to_output}
use photer_api.Query.Pager.{Pager, length, take, drop}
use photer_api.Query.Pages.{length-take, Has-page}
use photer_api.Query.Listing.{length-map}
use photer_api.Post.Queries.{
  PostOutputDto, PostRecord, post_column, is_shown, is_shown_of, post_output, find_user_posts,
  anonymous_query, page_of,
}

module _ (post : Pager PostRecord post_column) (q : BaseQueryParams) (t : List PostRecord) where
  -- The shown posts in the order of the query.
  abbrev feed : List PostRecord
  feed = post.sorted is_shown q.sort_by q.sort_direction t

  abbrev at_page : ℕ → BaseQueryParams
  at_page n = record q { page_number = n }

  -- A request without a user for the posts of a user, with a `sortBy` that names a column: `null` when there is no such user; else the
  -- page that is asked for makes no difference. The answer is a page 1 of at most 8 items, and each
  -- item is a public post of that user that is not deleted.
  pub find_user_posts_anonymous :
      (user : Delegate UserRow same_user) (user_id : ℕ) (users : List UserRow)
      → (All (λ r. has_id user_id r ≡ false) users
          × (find_user_posts post user user_id q none users t ≡ none))
        ⊎ ((page : BasePaginatedOutputDto PostOutputDto) × ((n : ℕ)
              → find_user_posts post user user_id (at_page n) none users t ≡ some page)
            × (page.page ≡ 1)
            × (length page.items ≤ 8)
            × ((o : PostOutputDto)
                → Has o page.items
                → (r : PostRecord) × Has r t
                  × (is_shown_of user_id r ≡ true)
                  × (o ≡ post_output r)))
  unfolding find_user_posts map_to_output calculate_skip
  find_user_posts_anonymous user user_id users =
      let size = (anonymous_query q).page_size in
      let small : size ≤ 8 = omega arith in
      let first : min size 1 ≡ 1 =
        (let positive : 1 ≤ (if q.page_size == 0 then 10 else q.page_size) = ground arith in
          omega (arith, positive)) in
      let found = post.sorted (is_shown_of user_id) q.sort_by q.sort_direction t in
      let skip = calculate_skip (anonymous_query q) in
      let read = post.find_page_lem (is_shown_of user_id) q.sort_by q.sort_direction skip size t in
      elim (Option-cases (user.find_first (has_id user_id) users)) [
        | inl n ↦ inl (user.find_first-none (has_id user_id) users n, rw (n, find_user_posts) refl)
        | inr (u, e) ↦ inr (
          page_of post (is_shown_of user_id) (post.count_rows (is_shown_of user_id) t)
              (anonymous_query q) t,
          (λ n. rw (e, find_user_posts) refl),
          first,
          (let l = length-take size (drop skip found) in
              let e : length (
                    map post_output
                      (post.find_page (is_shown_of user_id) q.sort_by q.sort_direction skip size t))
                  ≡ length (take size (drop skip found)) =
                length-map post_output
                  (post.find_page (is_shown_of user_id) q.sort_by q.sort_direction skip size t)
                ∙ ap length read in
              omega (arith, l, e, small)),
          λ o h.
              let (r, k, d) =
                Has-map_inv post_output
                  (post.find_page (is_shown_of user_id) q.sort_by q.sort_direction skip size t) h in
              let (j, f) =
                (post.sorted-Has (is_shown_of user_id) q.sort_by q.sort_direction t r).0
                  (Has-page size skip found r (subst (Has r) read k)) in
              (r, j, f, d),
        )
      ]
