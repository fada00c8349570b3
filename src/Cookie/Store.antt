-- ===== src/Cookie/Store.antt =====
-- The list of cookies of include/avhttp/cookie.hpp: a value that is looked up behind an
-- update.
use avhttp.Base.{
  List, [], ◌∷◌, if◌then◌else◌, text_eq, text_eq_refl, ◌≡◌, refl, sym, Bytes, inl, inr, Bool-cases,
}
use avhttp.Cookie.{HttpCookie, is_empty, update, value_of}

module _ {Time : Type 0} where
  -- `operator()` does not replace: a value that was there stays the one that `operator[]` gives,
  -- and the new one is given only where there was none.
  pub value_of-update :
      (name value : Bytes) (cookies : List (HttpCookie Time))
      → value_of name (update name value cookies)
        ≡ (if is_empty (value_of name cookies) then value else value_of name cookies)
  unfolding value_of update
  value_of-update name [] [] = rw (text_eq_refl name) refl
  value_of-update name (c ∷ value) [] = rw (text_eq_refl name) refl
  value_of-update name value (c ∷ cookies) = elim (Bool-cases (text_eq c.name name)) [
    | inr e ↦ rw e (value_of-update name value cookies)
    | inl e ↦ elim (Bool-cases (is_empty c.value)) [
      | inl q ↦ rw (e, q) (value_of-update name value cookies)
      | inr q ↦ rw (e, q) (sym (rw q refl))
    ]
  ]
