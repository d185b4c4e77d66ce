-- ===== src/Users/Listing.antt =====
-- `findAll` and `findOne` of src/modules/users/users.service.ts. The time is an argument.
use mathlib.Core.List.{Memᴰ}
use mediavault_backend.Prelude.{
  ℕ, ◌≤◌, ◌<◌, String, Bool, Option, none, some, List, [], ◌∷◌, ◌&&◌, ◌||◌, ◌==◌, ◌≡◌, map, get_or,
  length, arith, refl, Result, ok, err, not_found, Option-cases, eq_iff, inl, inr,
}
use mediavault_backend.Platform.Repository.{by_key}
use mediavault_backend.Platform.Queries.{Queries, lower_like, newest, IsOrdered}
use mediavault_backend.Paging.{page_rows, total_pages, Paged, when_given, when_defined, same_flag}
use mediavault_backend.Paging.Pages.{answers, answers_all}
use mediavault_backend.Paging.Queried.{queried, newest_first, newest_total}
use mediavault_backend.Backend.{User, user_id, Session, session_id, Env, Backend}
use mediavault_backend.Auth.{of_user}
use mediavault_backend.Security.{active_of}
use mediavault_backend.Users.Requests.{UserResponse, to_dto}

pub record UserFilters : Type 0 where
  pub role : Option String
  pub is_active : Option Bool
  pub search : Option String
  pub page : Option ℕ
  pub limit : Option ℕ

module _ (env : Env) (q : Queries) where
  unfoldable pub is_listed : UserFilters → User → Bool
  is_listed f u =
      when_given f.role (λ r. u.role.name == r)
      && when_defined f.is_active (same_flag u.is_active)
      && when_given f.search
          (λ s. lower_like q s u.email || lower_like q s u.first_name || lower_like q s u.last_name)

  unfoldable pub listed : UserFilters → Backend env → List User
  listed f b = queried env.users q (newest (λ (u : User). u.created_at)) (is_listed f) b.users

  -- `sessionRepository.count({ where: { user: { id }, expiresAt: MoreThan(now) } })`.
  abbrev pub count_sessions : ℕ → Backend env → String → ℕ
  count_sessions now b id = env.sessions.count (active_of env now id) b.sessions

  abbrev pub with_count : ℕ → Backend env → User → UserResponse
  with_count now b u = to_dto u (count_sessions now b u.id) none

  unfoldable pub find_all : ℕ → UserFilters → Backend env → Paged UserResponse
  find_all now f b = record {
    rows = map (with_count now b) (page_rows (get_or f.page 1) (get_or f.limit 20) (listed f b));
    page = get_or f.page 1;
    limit = get_or f.limit 20;
    total = length (listed f b);
  }

  -- `if (lastSession) dto.lastLoginAt = …`, of the first session in the order.
  abbrev pub last_login : List Session → Option ℕ
  last_login [] = none
  last_login (s ∷ ss) = some s.created_at

  abbrev pub sessions_of : String → Backend env → List Session
  sessions_of id b =
      queried env.sessions q (newest (λ (s : Session). s.created_at)) (of_user env id) b.sessions

  unfoldable pub find_one : ℕ → String → Backend env → Result UserResponse
  find_one now id b = elim (env.users.find_one (by_key user_id id) b.users) [
    | none ↦ err not_found
    | some u ↦ ok (to_dto u (count_sessions now b id) (last_login (sessions_of id b)))
  ]

  find_all_pages :
      (now : ℕ) (f : UserFilters) (b : Backend env)
      → 0 < get_or f.limit 20
      → answers
          (λ page. find_all now (record f { page = some page }) b)
          (total_pages (find_all now f b).total (get_or f.limit 20))
        ≡ map (with_count now b) (listed f b)
  unfolding find_all listed is_listed
  find_all_pages now f b h =
      answers_all (with_count now b) (λ page. find_all now (record f { page = some page }) b)
        (get_or f.limit 20) (listed f b) h (λ page. refl)

  last_login-newest :
      (x : Session) (ss : List Session)
      → IsOrdered (newest (λ (s : Session). s.created_at)) ss
      → Memᴰ x ss
      → (t : ℕ) × (last_login ss ≡ some t) × (x.created_at ≤ t)
  last_login-newest x [] o m = elim m [ ]
  last_login-newest x (s ∷ ss) o m =
      (s.created_at, refl, newest_first (λ (s : Session). s.created_at) x s ss o m)

  -- The last login that a view of a user shows is no earlier than the creation of any session of the
  -- user that is stored, and is there if a session is.
  find_one-newest :
      (now : ℕ) (id k : String) (x : Session) (b : Backend env) (answer : UserResponse)
      → env.sessions.find_one (by_key session_id k) b.sessions ≡ some x
      → x.user.id ≡ id
      → find_one now id b ≡ ok answer
      → (t : ℕ) × (answer.last_login_at ≡ some t) × (x.created_at ≤ t)
  unfolding find_one to_dto
  find_one-newest now id k x b answer e i h =
      elim (Option-cases (env.users.find_one (by_key user_id id) b.users)) [
        | inl n ↦ absurd (ground arith)
        | inr (u, found) ↦
            let by = newest (λ (s : Session). s.created_at) in
            let stored = env.sessions.find (of_user env id) b.sessions in
            let here = q.order_by-complete by stored x (
              env.sessions.find-complete (of_user env id) b.sessions k x e
                ((eq_iff x.user.id id).1 i)) in
            let (t, p, le) =
              last_login-newest x (sessions_of id b)
                (q.order_by-IsOrdered by stored (newest_total (λ (s : Session). s.created_at)))
                here in
            (t, ground arith, le)
      ]
