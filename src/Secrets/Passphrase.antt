-- ===== src/Secrets/Passphrase.antt =====
-- The passphrase of a private key (cmd/cli/utils/password.go), of ASCII characters. What the terminal gives
-- is an argument.
use mpc_go.Common.{
  ℕ, ◌+◌, ◌≤◌, ◌≡◌, ◌∷◌, ◌==◌, ◌&&◌, ◌||◌, [], Option, none, some, Text, Bool, true, false, not,
  arith, refl, length, leb, ltb, same, same_iff, if◌then◌else◌,
}

pub data PassphraseError : Type 0 where
  not_read do_not_match too_short not_enough_special empty : PassphraseError

pub data Requested : Type 0 where
  accepted : Text → Requested
  refused : PassphraseError → Requested

abbrev pub is_special : ℕ → Bool
is_special r =
    (ltb r b'a' || ltb b'z' r) && ((ltb r b'A' || ltb b'Z' r) && (ltb r b'0' || ltb b'9' r))

-- The loop, with its count so far.
unfoldable pub count_special : ℕ → ℕ → Text → Bool
count_special n count [] = false
count_special n count (r ∷ s) =
    let counted = count_special n (count + 1) s in
    let skipped = count_special n count s in
    if is_special r then if leb n (count + 1) then true else counted else skipped

unfoldable pub contains_at_least_n_special : Text → ℕ → Bool
contains_at_least_n_special s n = count_special n 0 s

unfoldable pub check_passphrase : Text → Text → Requested
check_passphrase passphrase confirmation =
    if not (same passphrase confirmation)
    then refused do_not_match
    else if ltb (length passphrase) 12
    then refused too_short
    else if not (contains_at_least_n_special passphrase 1)
    then refused not_enough_special
    else accepted passphrase

-- The two entries; `none` is a failed reading.
unfoldable pub request_password : Option Text → Option Text → Requested
request_password none second = refused not_read
request_password (some passphrase) none = refused not_read
request_password (some passphrase) (some confirmation) = check_passphrase passphrase confirmation

unfoldable pub prompt_password : Option Text → Requested
prompt_password none = refused not_read
prompt_password (some password) = if length password == 0 then refused empty else accepted password

-- How many special characters there are.
abbrev pub specials : Text → ℕ
specials [] = 0
specials (r ∷ s) = (if is_special r then 1 else 0) + specials s

count_special-specials :
    (n count : ℕ) (s : Text)
    → count_special n count s ≡ (ltb 0 (specials s) && leb n (count + specials s))
unfolding count_special
count_special-specials n count [] = refl
count_special-specials n count (r ∷ s) =
    ground (arith, count_special-specials n (count + 1) s, count_special-specials n count s)

-- The test for special characters counts them, and asks for one even if none is asked for.
contains-specials :
    (s : Text) (n : ℕ)
    → contains_at_least_n_special s n ≡ (ltb 0 (specials s) && leb n (specials s))
unfolding contains_at_least_n_special
contains-specials s n = ground (arith, count_special-specials n 0 s)

-- A passphrase is accepted exactly if it is entered twice alike, has at least twelve bytes, and has at least
-- one special character.
pub request_password_iff :
    (first second : Option Text) (p : Text)
    → ((request_password first second ≡ accepted p)
        → (first ≡ some p) × (second ≡ some p) × (12 ≤ length p) × (1 ≤ specials p))
      × ((first ≡ some p) × (second ≡ some p) × (12 ≤ length p) × (1 ≤ specials p)
          → (request_password first second ≡ accepted p))
unfolding request_password check_passphrase
request_password_iff none second p = (λ h. ground arith, λ h. ground arith)
request_password_iff (some a) none p = (λ h. ground arith, λ h. ground arith)
request_password_iff (some a) (some b) p = (
  λ h. ground (arith, same_iff a b, contains-specials a 1),
  λ h. ground (arith, same_iff a b, contains-specials a 1),
)
