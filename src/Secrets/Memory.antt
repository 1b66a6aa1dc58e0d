-- ===== src/Secrets/Memory.antt =====
-- Byte slices that are wiped (pkg/security/memory.go). Slices share their arrays, so the memory is explicit:
-- a list of arrays, and a slice is the number of one. `runtime.GC` and finalizers have no effect here.
use mpc_go.Common.{
  ℕ, zero, suc, ◌+◌, ◌<◌, ◌≡◌, ◌∷◌, ◌++◌, ◌==◌, [], List, Option, none, some, Text, true, arith,
  refl, length, if◌then◌else◌, Bool-cases, inl, inr, ==_iff,
}

-- The array of a slice; a number that no array has reads as the empty one.
unfoldable pub read : List Text → ℕ → Text
read [] a = []
read (bytes ∷ heap) zero = bytes
read (bytes ∷ heap) (suc a) = read heap a

unfoldable pub write : List Text → ℕ → Text → List Text
write [] a bytes = []
write (old ∷ heap) zero bytes = bytes ∷ heap
write (old ∷ heap) (suc a) bytes = old ∷ write heap a bytes

-- `make` and `copy`: a new array.
unfoldable pub allocate : List Text → Text → List Text × ℕ
allocate heap bytes = (heap ++ bytes ∷ [], length heap)

abbrev pub zeros : Text → Text
zeros [] = []
zeros (c ∷ s) = 0 ∷ zeros s

-- The loop over the indices.
unfoldable pub zero_bytes : List Text → ℕ → List Text
zero_bytes heap dat =
    if length (read heap dat) == 0 then heap else write heap dat (zeros (read heap dat))

-- `none` is the nil slice.
pub record SecureBytes : Type 0 where
  pub dat : Option ℕ

unfoldable pub new_secure_bytes : List Text → ℕ → List Text × SecureBytes
new_secure_bytes heap dat =
    let (heap', copied) = allocate heap (read heap dat) in (heap', record { dat = some copied })

unfoldable pub bytes_of : SecureBytes → Option ℕ
bytes_of sb = sb.dat

unfoldable pub copy : List Text → SecureBytes → List Text × ℕ
copy heap sb = elim sb.dat [ none ↦ allocate heap [] | some a ↦ allocate heap (read heap a) ]

unfoldable pub clear : List Text → SecureBytes → List Text × SecureBytes
clear heap sb = elim sb.dat [
  | none ↦ (heap, sb)
  | some a ↦ (zero_bytes heap a, record { dat = none })
]

read-allocate_old :
    (heap : List Text) (bytes : Text) (a : ℕ)
    → a < length heap
    → read (heap ++ bytes ∷ []) a ≡ read heap a
unfolding read
read-allocate_old [] bytes a h = absurd (omega arith)
read-allocate_old (old ∷ heap) bytes zero h = refl
read-allocate_old (old ∷ heap) bytes (suc a) h = read-allocate_old heap bytes a (omega arith)

read-allocate_new :
    (heap : List Text) (bytes : Text) → read (heap ++ bytes ∷ []) (length heap) ≡ bytes
unfolding read
read-allocate_new [] bytes = refl
read-allocate_new (old ∷ heap) bytes = read-allocate_new heap bytes

read-write :
    (heap : List Text) (a b : ℕ) (bytes : Text)
    → a < length heap
    → read (write heap a bytes) b ≡ (if a == b then bytes else read heap b)
unfolding read write
read-write [] a b bytes h = absurd (omega arith)
read-write (old ∷ heap) zero zero bytes h = refl
read-write (old ∷ heap) zero (suc b) bytes h = ground arith
read-write (old ∷ heap) (suc a) zero bytes h = ground arith
read-write (old ∷ heap) (suc a) (suc b) bytes h =
    ground (arith, read-write heap a b bytes (omega arith))

length-append-one :
    (heap : List Text) (bytes : Text) → length (heap ++ bytes ∷ []) ≡ length heap + 1
length-append-one [] bytes = omega arith
length-append-one (old ∷ heap) bytes = omega (arith, length-append-one heap bytes)

zeros_empty : (s : Text) → (length s == 0) ≡ true → zeros s ≡ s
zeros_empty [] h = refl
zeros_empty (c ∷ s) h = absurd (ground arith)

read-zero_bytes :
    (heap : List Text) (a b : ℕ)
    → a < length heap
    → read (zero_bytes heap a) b ≡ (if a == b then zeros (read heap a) else read heap b)
unfolding zero_bytes
read-zero_bytes heap a b h = elim (Bool-cases (length (read heap a) == 0)) [
  | inl e ↦ ground (arith, zeros_empty (read heap a), ==_iff a b)
  | inr e ↦ ground (arith, read-write heap a b (zeros (read heap a)) h)
]

-- The secret that a wrapper takes is copied once, and once more by `Copy`. `Clear` then wipes the
-- wrapper's own bytes, which every slice that `Bytes` gave out shares; it leaves the caller's slice and the
-- copy as they are, and a second `Clear` does nothing.
pub clear-new_secure_bytes :
    (heap : List Text) (dat : ℕ)
    → dat < length heap
    → let (made, sb) = new_secure_bytes heap dat in
      let (copied, c) = copy made sb in
      let (cleared, sb') = clear copied sb in
      (bytes_of sb ≡ some (length heap))
      × (read cleared (length heap) ≡ zeros (read heap dat))
      × (read cleared c ≡ read heap dat)
      × (read cleared dat ≡ read heap dat)
      × (clear cleared sb' ≡ (cleared, sb'))
unfolding new_secure_bytes bytes_of copy clear allocate
clear-new_secure_bytes heap dat h =
    let bytes = read heap dat in
    let made = heap ++ bytes ∷ [] in
    let n = length heap in
    let own : read made n ≡ bytes = read-allocate_new heap bytes in
    let copied = made ++ read made n ∷ [] in
    let c = length made in
    let inside : n < length copied =
      omega (arith, length-append-one heap bytes, length-append-one made (read made n)) in
    (
      refl,
      ground (
        arith,
        read-zero_bytes copied n n inside,
        read-allocate_old made (read made n) n (omega (arith, length-append-one heap bytes)),
        own,
      ),
      ground (
        arith,
        read-zero_bytes copied n c inside,
        read-allocate_new made (read made n),
        own,
        length-append-one heap bytes,
      ),
      ground (
        arith,
        read-zero_bytes copied n dat inside,
        read-allocate_old made (read made n) dat (omega (arith, length-append-one heap bytes)),
        read-allocate_old heap bytes dat h,
      ),
      refl,
    )
