-- ===== src/Settings/Find.antt =====
-- What `option::find` of include/avhttp/settings.hpp sees of `insert` and `remove`.
use avhttp.Base.{
  false, Option, none, some, [], ◌∷◌, ◌++◌, ◌≡◌, refl, ◌∙◌, ap, inl, inr, Bool-cases, Bytes,
  text_eq, text_eq→eq, if◌then◌else◌,
}
use avhttp.Settings.{
  OptionItemList, Options, insert, remove, remove_first, lowered, find, find_loop,
}

abbrev pub or_else : Option Bytes → Option Bytes → Option Bytes
or_else none b = b
or_else (some a) b = some a

find_loop-append :
    (s k v : Bytes) (opts : OptionItemList)
    → find_loop s (opts ++ (k, v) ∷ [])
      ≡ or_else (find_loop s opts) (if text_eq (lowered k) s then some v else none)
unfolding find_loop
find_loop-append s k v [] = refl
find_loop-append s k v ((j, w) ∷ opts) = elim (Bool-cases (text_eq (lowered j) s)) [
  | inl e ↦ rw e refl
  | inr e ↦ rw e (find_loop-append s k v opts)
]

-- A new option is found under its key in any case of letters, if no option was found there before:
-- an earlier one hides it.
pub find-insert :
    (key k v : Bytes) (o : Options)
    → find key (insert k v o)
      ≡ or_else (find key o) (if text_eq (lowered k) (lowered key) then some v else none)
unfolding find insert
find-insert key k v o = find_loop-append (lowered key) k v o.m_opts

find_loop-remove_first :
    (s k : Bytes) (opts : OptionItemList)
    → text_eq (lowered k) s ≡ false
    → find_loop s (remove_first k opts) ≡ find_loop s opts
unfolding find_loop remove_first
find_loop-remove_first s k [] h = refl
find_loop-remove_first s k ((j, w) ∷ opts) h = elim (Bool-cases (text_eq j k)) [
  | inl e ↦
      let hidden : text_eq (lowered j) s ≡ false =
        ap (λ t. text_eq (lowered t) s) (text_eq→eq j k e) ∙ h in
      rw (e, hidden) refl
  | inr e ↦ rw (e, find_loop-remove_first s k opts h) refl
]

-- Removing an option leaves what is found under every key that differs from it in more than the
-- case of its letters.
pub find-remove :
    (key k : Bytes) (o : Options)
    → text_eq (lowered k) (lowered key) ≡ false
    → find key (remove k o) ≡ find key o
unfolding find remove
find-remove key k o h = find_loop-remove_first (lowered key) k o.m_opts h
