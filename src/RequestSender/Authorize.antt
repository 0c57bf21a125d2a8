-- ===== src/RequestSender/Authorize.antt =====
-- Where the access token goes.
use hft_deribit.Prelude.{
  take-length, drop-length, HasNo, ℕ, ◌≡◌, refl, ◌∙◌, arith, true, false, ◌&&◌, [], ◌∷◌, ◌++◌, none,
  some, Text, codes, is_empty, length, not,
}
use hft_deribit.RequestSender.{starts_with, contains, rfind, insert_at, token_member, authorize}

rfind-none : (c : ℕ) (s : Text) → HasNo c s → rfind c s ≡ none
unfolding rfind
rfind-none c [] h = refl
rfind-none c (x ∷ xs) h = ground (arith, rfind-none c xs h.1)

-- The last `c` is the one after which there is none.
rfind-last : (c : ℕ) (pre suf : Text) → HasNo c suf → rfind c (pre ++ c ∷ suf) ≡ some (length pre)
unfolding rfind
rfind-last c [] suf h = ground (arith, rfind-none c suf h)
rfind-last c (x ∷ xs) suf h = ground (arith, rfind-last c xs suf h)

starts_with-append : (s t : Text) → starts_with s (s ++ t) ≡ true
unfolding starts_with
starts_with-append [] t = refl
starts_with-append (x ∷ xs) t = ground (arith, starts_with-append xs t)

contains_of_starts_with : (needle s : Text) → starts_with needle s ≡ true → contains needle s ≡ true
unfolding contains
contains_of_starts_with needle [] h = h
contains_of_starts_with needle (x ∷ xs) h = rw h refl

-- A text that holds another one is found to contain it.
pub contains-append : (pre needle suf : Text) → contains needle (pre ++ needle ++ suf) ≡ true
unfolding contains
contains-append [] needle suf =
    contains_of_starts_with needle (needle ++ suf) (starts_with-append needle suf)
contains-append (x ∷ xs) needle suf = ground (arith, contains-append xs needle suf)

authorize-found :
    (token msg : Text) (pos : ℕ)
    → contains (codes "\"private/") msg ≡ true
    → is_empty token ≡ false
    → rfind b'}' msg ≡ some pos
    → authorize token msg ≡ insert_at msg pos (token_member token)
unfolding authorize
authorize-found token msg pos found nonempty last = rw (found, nonempty, last) refl

insert_at-length : (pre suf t : Text) → insert_at (pre ++ suf) (length pre) t ≡ pre ++ t ++ suf
unfolding insert_at
insert_at-length pre suf t =
    rw (take-length pre suf (length pre) refl, drop-length pre suf (length pre) refl) refl

-- A message that contains "private/ behind a quote gets a token that is not empty as a member in
-- front of its last brace, and nothing else of it changes.
pub authorize_private :
    (token pre suf : Text)
    → contains (codes "\"private/") (pre ++ b'}' ∷ suf) ≡ true
    → is_empty token ≡ false
    → HasNo b'}' suf
    → authorize token (pre ++ b'}' ∷ suf) ≡ pre ++ token_member token ++ b'}' ∷ suf
authorize_private token pre suf found nonempty last =
    authorize-found token (pre ++ b'}' ∷ suf) (length pre) found nonempty
      (rfind-last b'}' pre suf last)
    ∙ insert_at-length pre (b'}' ∷ suf) (token_member token)

-- Any other message, and any message while there is no token, is sent as it is.
authorize_other :
    (token msg : Text)
    → (contains (codes "\"private/") msg && not (is_empty token)) ≡ false
    → authorize token msg ≡ msg
unfolding authorize
authorize_other token msg h = ground arith
