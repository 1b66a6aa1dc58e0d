-- ===== src/Messaging/Names.antt =====
-- The names that the broker gives to its consumers.
use mpc_go.Common.{
  ℕ, ◌≡◌, ◌≢◌, ◌∷◌, ◌∙◌, ◌==◌, [], Text, true, not, arith, refl, ap, All-append, Lacks, codes, ◌||◌,
  Bool-cases, inl, inr, ◌&&◌,
}
use mpc_go.Messaging.Broker.{replace_all, is_letter, prefix_name, sanitize_consumer_name}

replace_all-Lacks : (c : ℕ) (w s : Text) → Lacks c s → replace_all c w s ≡ s
replace_all-Lacks c w [] h = refl
replace_all-Lacks c w (d ∷ s) h = ground (arith, replace_all-Lacks c w s h.1)

-- What is replaced is gone, unless it comes back with the replacement, and no other byte comes in.
Lacks-replaced : (c : ℕ) (w s : Text) → Lacks c w → Lacks c (replace_all c w s)
Lacks-replaced c w [] h = tt
Lacks-replaced c w (d ∷ s) h = elim (Bool-cases (d == c)) [
  | inl e ↦ rw e (All-append (λ e. e ≢ c) w (replace_all c w s) h (Lacks-replaced c w s h))
  | inr e ↦ rw e (ground arith, Lacks-replaced c w s h)
]

Lacks-other : (b c : ℕ) (w s : Text) → Lacks b w → Lacks b s → Lacks b (replace_all c w s)
Lacks-other b c w [] h k = tt
Lacks-other b c w (d ∷ s) h k = elim (Bool-cases (d == c)) [
  | inl e ↦ rw e (All-append (λ e. e ≢ b) w (replace_all c w s) h (Lacks-other b c w s h k.1))
  | inr e ↦ rw e (k.0, Lacks-other b c w s h k.1)
]

-- None of the bytes that a consumer's name may not have.
abbrev pub IsPlain : Text → Type 0
IsPlain s = Lacks b'.' s × Lacks b':' s × Lacks b' ' s × Lacks b'-' s × Lacks b'>' s × Lacks b'*' s

-- It begins with a letter or an underscore, or is empty.
abbrev pub BeginsWell : Text → Type 0
BeginsWell [] = Unit
BeginsWell (c ∷ s) = (is_letter c || (c == b'_')) ≡ true

abbrev under : Text
under = codes "_"

-- The name after each of the replacements.
abbrev replaced : Text → Text
replaced s = replace_all b'*' (codes "any") (
    replace_all b'>' (codes "all") (
      replace_all b'-' under
        (replace_all b' ' under (replace_all b':' under (replace_all b'.' under s)))))

-- The replacements from one on; a byte that they do not bring in stays out.
abbrev from_star : Text → Text
from_star s = replace_all b'*' (codes "any") s

abbrev from_greater : Text → Text
from_greater s = from_star (replace_all b'>' (codes "all") s)

abbrev from_dash : Text → Text
from_dash s = from_greater (replace_all b'-' under s)

abbrev from_space : Text → Text
from_space s = from_dash (replace_all b' ' under s)

abbrev from_colon : Text → Text
from_colon s = from_space (replace_all b':' under s)

abbrev IsForeign : ℕ → Type 0
IsForeign b = Lacks b under × Lacks b (codes "all") × Lacks b (codes "any")

star_Lacks : (b : ℕ) (s : Text) → IsForeign b → Lacks b s → Lacks b (from_star s)
star_Lacks b s f h = Lacks-other b b'*' (codes "any") s f.2 h

greater_Lacks : (b : ℕ) (s : Text) → IsForeign b → Lacks b s → Lacks b (from_greater s)
greater_Lacks b s f h = star_Lacks b _ f (Lacks-other b b'>' (codes "all") s f.1 h)

dash_Lacks : (b : ℕ) (s : Text) → IsForeign b → Lacks b s → Lacks b (from_dash s)
dash_Lacks b s f h = greater_Lacks b _ f (Lacks-other b b'-' under s f.0 h)

space_Lacks : (b : ℕ) (s : Text) → IsForeign b → Lacks b s → Lacks b (from_space s)
space_Lacks b s f h = dash_Lacks b _ f (Lacks-other b b' ' under s f.0 h)

colon_Lacks : (b : ℕ) (s : Text) → IsForeign b → Lacks b s → Lacks b (from_colon s)
colon_Lacks b s f h = space_Lacks b _ f (Lacks-other b b':' under s f.0 h)

dot-IsForeign : IsForeign b'.'
dot-IsForeign = (omega arith, omega arith, omega arith)

colon-IsForeign : IsForeign b':'
colon-IsForeign = (omega arith, omega arith, omega arith)

space-IsForeign : IsForeign b' '
space-IsForeign = (omega arith, omega arith, omega arith)

dash-IsForeign : IsForeign b'-'
dash-IsForeign = (omega arith, omega arith, omega arith)

greater-IsForeign : IsForeign b'>'
greater-IsForeign = (omega arith, omega arith, omega arith)

star-IsForeign : IsForeign b'*'
star-IsForeign = (omega arith, omega arith, omega arith)

replaced-IsPlain : (s : Text) → IsPlain (replaced s)
replaced-IsPlain s =
    let s1 = replace_all b'.' under s in
    let s2 = replace_all b':' under s1 in
    let s3 = replace_all b' ' under s2 in
    let s4 = replace_all b'-' under s3 in
    let s5 = replace_all b'>' (codes "all") s4 in
    (
      colon_Lacks b'.' s1 dot-IsForeign (Lacks-replaced b'.' under s dot-IsForeign.0),
      space_Lacks b':' s2 colon-IsForeign (Lacks-replaced b':' under s1 colon-IsForeign.0),
      dash_Lacks b' ' s3 space-IsForeign (Lacks-replaced b' ' under s2 space-IsForeign.0),
      greater_Lacks b'-' s4 dash-IsForeign (Lacks-replaced b'-' under s3 dash-IsForeign.0),
      star_Lacks b'>' s5 greater-IsForeign
          (Lacks-replaced b'>' (codes "all") s4 greater-IsForeign.1),
      Lacks-replaced b'*' (codes "any") s5 star-IsForeign.2,
    )

prefix_name-IsPlain : (s : Text) → IsPlain s → IsPlain (prefix_name s) × BeginsWell (prefix_name s)
unfolding prefix_name
prefix_name-IsPlain [] h = (h, tt)
prefix_name-IsPlain (c ∷ s) h = elim (Bool-cases (not (is_letter c) && not (c == b'_'))) [
  | inl e ↦ rw e (
    (
      (omega arith, h.0),
      (omega arith, h.1),
      (omega arith, h.2),
      (omega arith, h.3),
      (omega arith, h.4),
      (omega arith, h.5),
    ),
    ground arith,
  )
  | inr e ↦ rw e (h, ground arith)
]

-- The name of a consumer has none of the bytes that the server refuses in it, and begins with a letter or
-- an underscore.
pub sanitize-IsPlain :
    (name : Text) → IsPlain (sanitize_consumer_name name) × BeginsWell (sanitize_consumer_name name)
unfolding sanitize_consumer_name
sanitize-IsPlain name = prefix_name-IsPlain (replaced name) (replaced-IsPlain name)

replaced-plain : (s : Text) → IsPlain s → replaced s ≡ s
replaced-plain s h = rw (
  replace_all-Lacks b'.' under s h.0,
  replace_all-Lacks b':' under s h.1,
  replace_all-Lacks b' ' under s h.2,
  replace_all-Lacks b'-' under s h.3,
  replace_all-Lacks b'>' (codes "all") s h.4,
  replace_all-Lacks b'*' (codes "any") s h.5,
)

prefix_name-BeginsWell : (s : Text) → BeginsWell s → prefix_name s ≡ s
unfolding prefix_name
prefix_name-BeginsWell [] h = refl
prefix_name-BeginsWell (c ∷ s) h = ground arith

-- A name that was made so is not changed again: a consumer is found under the name it was created with.
sanitize-sanitize :
    (name : Text)
    → sanitize_consumer_name (sanitize_consumer_name name) ≡ sanitize_consumer_name name
unfolding sanitize_consumer_name
sanitize-sanitize name =
    let (p, b) = sanitize-IsPlain name in
    ap prefix_name (replaced-plain (sanitize_consumer_name name) p)
    ∙ prefix_name-BeginsWell (sanitize_consumer_name name) b
