-- ===== src/HttpStream/Redirect/Limit.antt =====
-- How far `open` of include/avhttp/impl/http_stream.ipp follows redirections, and what it keeps of
-- them.
use avhttp.Base.{
  ℕ, zero, suc, ◌+◌, ◌≤◌, ◌<◌, true, false, ◌&&◌, Option, none, some, leb, ◌≡◌, refl, ap, ◌∙◌,
  arith, Bytes, inl, inr, Bool-cases,
}
use avhttp.HttpStream.Redirect.{
  HttpCode, Attempt, refused, answered, Ending, failed, ended, thrown, is_redirect, after_attempt,
  open_url,
}
use avhttp.Url.{Url, from_string}

abbrev HasEnded : Ending → Type 0
HasEnded (ended code) = Unit
HasEnded _ = ⊥

module _ {S : Type 0} (ask : Url → S → S × Attempt) (max_redirects : ℕ) where
  -- A call that returns, with the count of redirections in its limit, and at 0 behind an answer.
  pub record Returns (r : Option (S × ℕ × Ending)) : Type 0 where
    pub out : S × ℕ × Ending
    pub returns : r ≡ some out
    pub in_limit : out.1 ≤ max_redirects
    pub cleared : HasEnded out.2 → out.1 ≡ 0

  followed :
      (redirects : ℕ) (s : S) (code : HttpCode) (location : Bytes)
      (again : ℕ → Url → Option (S × ℕ × Ending)) (o : Option Url)
      → from_string location ≡ o
      → is_redirect code && leb (redirects + 1) max_redirects ≡ true
      → ((u : Url) → redirects + 1 ≤ max_redirects → Returns (again (redirects + 1) u))
      → Returns (after_attempt ask max_redirects redirects s (answered code location) again)
  followed redirects s code location again none e h next =
      rw (h, e)
        (record {
          out = (s, redirects + 1, thrown);
          returns = refl;
          in_limit = ground arith;
          cleared = λ x. absurd x;
        })
  followed redirects s code location again (some u) e h next = rw (h, e) (next u (ground arith))

  after_attempt-Returns :
      (redirects : ℕ) (s : S) (a : Attempt) (again : ℕ → Url → Option (S × ℕ × Ending))
      → redirects ≤ max_redirects
      → ((u : Url) → redirects + 1 ≤ max_redirects → Returns (again (redirects + 1) u))
      → Returns (after_attempt ask max_redirects redirects s a again)
  after_attempt-Returns redirects s (refused e) again h next = record {
    out = (s, redirects, failed e);
    returns = refl;
    in_limit = h;
    cleared = λ x. absurd x;
  }
  after_attempt-Returns redirects s (answered code location) again h next =
      elim (Bool-cases (is_redirect code && leb (redirects + 1) max_redirects)) [
        | inl e ↦ followed redirects s code location again (from_string location) refl e next
        | inr e ↦ rw e (record {
          out = (s, 0, ended code);
          returns = refl;
          in_limit = omega arith;
          cleared = λ x. refl;
        })
      ]

  -- Whatever the servers answer, `open` returns after no more calls than there are redirections left,
  -- and one: the fuel of these is enough. The count stays in its limit, and is 0 behind an answer.
  pub open_url-Returns :
      (fuel redirects : ℕ) (u : Url) (s : S)
      → redirects ≤ max_redirects
      → max_redirects < redirects + fuel
      → Returns (open_url ask max_redirects fuel redirects u s)
  unfolding open_url
  open_url-Returns zero redirects u s h k = absurd (omega arith)
  open_url-Returns (suc fuel) redirects u s h k =
      after_attempt-Returns redirects (ask u s).0 (ask u s).1 _ h
        (λ v p. open_url-Returns fuel (redirects + 1) v (ask u s).0 p (omega arith))

  -- `n` redirections lead from the URL `u`, asked for in the state `s`, to the URL `w` in the state
  -- `t`.
  pub data Leads : ℕ → Url → S → Url → S → Type 0 where
    here : (u : Url) (s : S) → Leads 0 u s u s
    hop :
        (n : ℕ) (u v w : Url) (s t : S) (code : HttpCode) (location : Bytes)
        → (ask u s).1 ≡ answered code location
        → is_redirect code ≡ true
        → from_string location ≡ some v
        → Leads n v (ask u s).0 w t
        → Leads (suc n) u s w t

  open_url-Leads :
      (n fuel redirects : ℕ) (u w : Url) (s t : S)
      → Leads n u s w t
      → redirects + n ≤ max_redirects
      → open_url ask max_redirects (n + fuel) redirects u s
        ≡ open_url ask max_redirects fuel (redirects + n) w t
  unfolding open_url
  open_url-Leads zero fuel redirects u w s t (here _ _) h =
      let e : redirects + 0 ≡ redirects = omega arith in
      let same : 0 + fuel ≡ fuel = omega arith in rw (e, same) refl
  open_url-Leads (suc n) fuel redirects u w s t (hop _ _ v _ _ _ code location a c p more) h =
      let below : leb (redirects + 1) max_redirects ≡ true = ground arith in
      let e : redirects + suc n ≡ redirects + 1 + n = omega arith in
      let next_fuel : suc n + fuel ≡ suc (n + fuel) = omega arith in
      rw next_fuel (
        rw (a, c, below, p, e)
          (open_url-Leads n fuel (redirects + 1) v w (ask u s).0 t more (omega arith)))

  open_url-refused :
      (fuel redirects e : ℕ) (u : Url) (s : S)
      → (ask u s).1 ≡ refused e
      → open_url ask max_redirects (suc fuel) redirects u s
        ≡ some ((ask u s).0, redirects, failed e)
  unfolding open_url
  open_url-refused fuel redirects e u s h = rw h refl

  open_url-at_limit :
      (fuel : ℕ) (code : HttpCode) (location : Bytes) (u : Url) (s : S)
      → (ask u s).1 ≡ answered code location
      → open_url ask max_redirects (suc fuel) max_redirects u s ≡ some ((ask u s).0, 0, ended code)
  unfolding open_url
  open_url-at_limit fuel code location u s h =
      let above : leb (max_redirects + 1) max_redirects ≡ false = ground arith in
      elim (Bool-cases (is_redirect code)) [
        | inl c ↦ rw (h, c, above) refl
        | inr c ↦ rw (h, c) refl
      ]

  -- A call of `open` that follows `n` redirections, up to a URL that cannot be reached, fails and
  -- leaves the count at `n`. The next call, which begins with what the first one left, follows only
  -- the redirections that then remain up to the limit: whatever the server answers behind those is
  -- the result, a further redirection too, and the count is 0 again.
  pub open_url-counts_on :
      (n k e : ℕ) (u w u2 w2 : Url) (s t t2 : S) (code : HttpCode) (location : Bytes)
      → n + k ≡ max_redirects
      → Leads n u s w t
      → (ask w t).1 ≡ refused e
      → Leads k u2 (ask w t).0 w2 t2
      → (ask w2 t2).1 ≡ answered code location
      → (open_url ask max_redirects (n + 1) 0 u s ≡ some ((ask w t).0, n, failed e))
        × (open_url ask max_redirects (k + 1) n u2 (ask w t).0
            ≡ some ((ask w2 t2).0, 0, ended code))
  open_url-counts_on n k e u w u2 w2 s t t2 code location total first gone second last = (
    open_url-Leads n 1 0 u w s t first (omega arith)
        ∙ rw zero_and (open_url-refused 0 n e w t gone),
    open_url-Leads k 1 n u2 w2 (ask w t).0 t2 second (omega arith)
        ∙ ap (λ r. open_url ask max_redirects 1 r w2 t2) total
        ∙ open_url-at_limit 0 code location w2 t2 last,
  )
    where
      zero_and : 0 + n ≡ n
      zero_and = omega arith
