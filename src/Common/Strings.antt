-- ===== src/Common/Strings.antt =====
-- Go strings as lists of bytes, with the operations of package strings that the code uses. A text
-- that the code prints or compares is ASCII here, so `TrimSpace` and `ToLower` look at single bytes.
use Prim.Native.Char.{code}
use Prim.Native.String.{String}
use Prim.Native.Nat.{ℕ, zero, suc, ◌+◌, ◌<◌}
use mathlib.Core.Path.{◌≡◌, refl}
use mathlib.Core.Logic.{◌≢◌, ◌↔◌, ◌⊎◌}
use mathlib.Core.Bool.{Bool, true, false, ◌&&◌, ◌||◌}
use mathlib.Core.List.{List, [], ◌∷◌, ◌++◌, map}
use native.Mathlib.Omega.{arith}
use mpc_go.Common.Numbers.{◌==◌, leb, if◌then◌else◌}
use mpc_go.Common.Lists.{All}

abbrev pub Text : Type 0
Text = List ℕ

abbrev pub codes : String → Text
codes String.[] = []
codes (String.◌∷◌ c s) = code c ∷ codes s

-- Go's `==` on strings.
unfoldable pub same : Text → Text → Bool
same [] [] = true
same [] (_ ∷ _) = false
same (_ ∷ _) [] = false
same (a ∷ s) (b ∷ t) = (a == b) && same s t

pub same_iff : (s t : Text) → (same s t ≡ true) ↔ (s ≡ t)
unfolding same
same_iff [] [] = ground arith
same_iff [] (_ ∷ _) = ground arith
same_iff (_ ∷ _) [] = ground arith
same_iff (a ∷ s) (b ∷ t) = ground (arith, same_iff s t)

-- `slices.Contains`.
unfoldable pub contains : List Text → Text → Bool
contains [] t = false
contains (s ∷ ss) t = same s t || contains ss t

-- `strings.HasPrefix` and `strings.Contains`.
unfoldable pub has_prefix : Text → Text → Bool
has_prefix s [] = true
has_prefix [] (_ ∷ _) = false
has_prefix (a ∷ s) (b ∷ p) = (a == b) && has_prefix s p

unfoldable pub has_infix : Text → Text → Bool
unfolding has_prefix
has_infix [] p = has_prefix [] p
has_infix (a ∷ s) p = has_prefix (a ∷ s) p || has_infix s p

-- `strings.ToLower` on ASCII.
unfoldable pub to_lower : Text → Text
to_lower = map (λ c. if leb b'A' c && leb c b'Z' then c + 32 else c)

abbrev pub is_space : ℕ → Bool
is_space c = (leb 9 c && leb c 13) || (c == 32)

-- `strings.TrimSpace`, from the left and from the right.
unfoldable pub trim_left : Text → Text
trim_left [] = []
trim_left (c ∷ s) = let rest = trim_left s in if is_space c then rest else c ∷ s

abbrev pub trim_cons : ℕ → Text → Text
trim_cons c [] = if is_space c then [] else c ∷ []
trim_cons c (d ∷ s) = c ∷ d ∷ s

unfoldable pub trim_right : Text → Text
trim_right [] = []
trim_right (c ∷ s) = trim_cons c (trim_right s)

unfoldable pub trim_space : Text → Text
trim_space s = trim_right (trim_left s)

-- `strings.Cut` at a separator of one byte: what stands before it, what follows, and whether it is
-- there.
unfoldable pub cut : ℕ → Text → Text × Text × Bool
cut c [] = ([], [], false)
cut c (d ∷ s) =
    let (before, after, found) = cut c s in
    if d == c then ([], s, true) else (d ∷ before, after, found)

-- `strings.SplitN` at a separator of one byte.
unfoldable pub split_n : ℕ → ℕ → Text → List Text
split_n c zero s = []
split_n c (suc zero) s = s ∷ []
split_n c (suc (suc n)) s =
    let (before, after, found) = cut c s in
    let rest = split_n c (suc n) after in if found then before ∷ rest else s ∷ []

-- The text has no such byte.
abbrev pub Lacks : ℕ → Text → Type 0
Lacks c = All (λ d. d ≢ c)

pub cut-append : (c : ℕ) (p rest : Text) → Lacks c p → cut c (p ++ c ∷ rest) ≡ (p, rest, true)
unfolding cut
cut-append c [] rest h = ground arith
cut-append c (d ∷ p) rest h = ground (arith, cut-append c p rest h.1)

pub cut-Lacks : (c : ℕ) (p : Text) → Lacks c p → cut c p ≡ (p, [], false)
unfolding cut
cut-Lacks c [] h = refl
cut-Lacks c (d ∷ p) h = ground (arith, cut-Lacks c p h.1)

pub split_n-append :
    (c n : ℕ) (p rest : Text)
    → Lacks c p
    → split_n c (suc (suc n)) (p ++ c ∷ rest) ≡ p ∷ split_n c (suc n) rest
unfolding split_n
split_n-append c n p rest h = rw (cut-append c p rest h)

-- The text has no byte that `TrimSpace` removes.
abbrev pub NoSpace : Text → Type 0
NoSpace = All (λ d. ((d < 9) ⊎ (13 < d)) × (d ≢ 32))

pub not_space : (d : ℕ) → ((d < 9) ⊎ (13 < d)) × (d ≢ 32) → is_space d ≡ false
not_space d h = ground arith

trim_left-NoSpace : (s : Text) → NoSpace s → trim_left s ≡ s
unfolding trim_left
trim_left-NoSpace [] h = refl
trim_left-NoSpace (c ∷ s) h = rw (not_space c h.0)

trim_right-NoSpace : (s : Text) → NoSpace s → trim_right s ≡ s
unfolding trim_right
trim_right-NoSpace [] h = refl
trim_right-NoSpace (c ∷ []) h = rw (not_space c h.0)
trim_right-NoSpace (c ∷ d ∷ s) h = rw (trim_right-NoSpace (d ∷ s) h.1)

pub trim_space-NoSpace : (s : Text) → NoSpace s → trim_space s ≡ s
unfolding trim_space
trim_space-NoSpace s h = rw (trim_left-NoSpace s h) (trim_right-NoSpace s h)
