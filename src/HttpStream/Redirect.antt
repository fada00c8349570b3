-- ===== src/HttpStream/Redirect.antt =====
-- The redirections of `open` of include/avhttp/impl/http_stream.ipp. What one connection and
-- request come to is a parameter, `ask`, over the state of the world; `open` calls itself for each
-- redirection, once for each unit of fuel.
pub mod Limit
mod Tests
use avhttp.Base.{
  ℕ, zero, suc, ◌+◌, ◌≤◌, ◌<◌, Bool, true, false, ◌&&◌, Option, none, some, leb, if◌then◌else◌, ◌≡◌,
  refl, arith, Bytes, inl, inr, Bool-cases,
}
use avhttp.Url.{Url, from_string}

-- `http_code`
pub data HttpCode : Type 0 where
  success : HttpCode
  moved_permanently : HttpCode
  found : HttpCode
  other : ℕ → HttpCode

-- `refused`: an error before the request, which returns at once; `answered`: the code of the
-- request, and the location that it left.
pub data Attempt : Type 0 where
  refused : ℕ → Attempt
  answered : HttpCode → Bytes → Attempt

-- How `open` ends: with the error, with the code, or with the exception for a location that is no
-- URL.
pub data Ending : Type 0 where
  failed : ℕ → Ending
  ended : HttpCode → Ending
  thrown : Ending

abbrev pub is_redirect : HttpCode → Bool
is_redirect moved_permanently = true
is_redirect found = true
is_redirect _ = false

module _ {S : Type 0} (ask : Url → S → S × Attempt) (max_redirects : ℕ) where
  -- The state, `m_redirects`, and the ending.
  abbrev pub Opened : Type 0
  Opened = S × ℕ × Ending

  -- Behind the request; `again` is the call for the location.
  abbrev pub after_attempt : ℕ → S → Attempt → (ℕ → Url → Option Opened) → Option Opened
  after_attempt redirects s (refused e) again = some (s, redirects, failed e)
  after_attempt redirects s (answered code location) again =
      let next = follow (from_string location) in
      if is_redirect code && leb (redirects + 1) max_redirects
      then next
      else some (s, 0, ended code)
    where
      follow : Option Url → Option Opened
      follow none = some (s, redirects + 1, thrown)
      follow (some u) = again (redirects + 1) u

  pub open_url : ℕ → ℕ → Url → S → Option Opened
  open_url zero redirects u s = none
  open_url (suc fuel) redirects u s =
      let a = ask u s in after_attempt redirects a.0 a.1 (λ r v. open_url fuel r v a.0)
