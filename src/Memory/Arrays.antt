-- ===== src/Memory/Arrays.antt =====
-- Char arrays as lists of all their bytes, with the calls of <string.h> on them. The string in an
-- array is what stands before its first 0; an array without one is read up to its end.
use project_so.Prelude.{
  ℕ, zero, suc, ◌+◌, ◌<◌, ◌≡◌, refl, ap, Bool, true, false, ◌&&◌, List, [], ◌∷◌, ◌++◌, arith, ◌==◌,
  ltb, if◌then◌else◌, length, take, drop,
}
use project_so.Prelude.{◌-◌}
use project_so.Prelude.{length-append}

abbrev pub CharArray : Type 0
CharArray = List ℕ

unfoldable pub string_of : CharArray → List ℕ
string_of [] = []
string_of (c ∷ cs) = if c == 0 then [] else c ∷ string_of cs

-- The same bytes in the same order.
unfoldable pub same_bytes : List ℕ → List ℕ → Bool
same_bytes [] [] = true
same_bytes [] (b ∷ bs) = false
same_bytes (a ∷ as') [] = false
same_bytes (a ∷ as') (b ∷ bs) = (a == b) && same_bytes as' bs

-- strcmp(a, b) == 0
abbrev pub same_string : CharArray → CharArray → Bool
same_string a b = same_bytes (string_of a) (string_of b)

-- The array holds the 0 that ends its string.
abbrev pub is_terminated : CharArray → Bool
is_terminated a = ltb (length (string_of a)) (length a)

-- strcpy(dst, src) stays inside both arrays.
abbrev pub strcpy_fits : CharArray → CharArray → Bool
strcpy_fits dst src = is_terminated src && ltb (length (string_of src)) (length dst)

-- memset(a, 0, n)
unfoldable pub zeros : ℕ → CharArray
zeros zero = []
zeros (suc n) = 0 ∷ zeros n

-- `dst` after strcpy(dst, src).
unfoldable pub strcpy : CharArray → CharArray → CharArray
strcpy dst src = string_of src ++ 0 ∷ drop (length (string_of src) + 1) dst

-- An array of `n` bytes that holds a string.
pub record IsArray (n : ℕ) (a : CharArray) : Type 0 where
  pub size : length a ≡ n
  pub terminated : length (string_of a) < n

pub same_bytes_self : (as' : List ℕ) → same_bytes as' as' ≡ true
unfolding same_bytes
same_bytes_self [] = refl
same_bytes_self (a ∷ as') = ground (arith, same_bytes_self as')

pub same_bytes-eq : (as' bs : List ℕ) → same_bytes as' bs ≡ true → as' ≡ bs
unfolding same_bytes
same_bytes-eq [] [] h = refl
same_bytes-eq [] (b ∷ bs) h = cc
same_bytes-eq (a ∷ as') [] h = cc
same_bytes-eq (a ∷ as') (b ∷ bs) h = ground (arith, same_bytes-eq as' bs)

pub string_of-append :
    (s : List ℕ) (rest : CharArray) → string_of s ≡ s → string_of (s ++ 0 ∷ rest) ≡ s
unfolding string_of
string_of-append [] rest h = refl
string_of-append (c ∷ s) rest h = ground (arith, string_of-append s rest)

pub string_of-string_of : (a : CharArray) → string_of (string_of a) ≡ string_of a
unfolding string_of
string_of-string_of [] = refl
string_of-string_of (c ∷ cs) = ground (arith, string_of-string_of cs)

pub string_of-strcpy : (dst src : CharArray) → string_of (strcpy dst src) ≡ string_of src
unfolding strcpy
string_of-strcpy dst src =
    string_of-append (string_of src) (drop (length (string_of src) + 1) dst)
      (string_of-string_of src)

pub string_of-zeros : (n : ℕ) → string_of (zeros n) ≡ []
unfolding string_of zeros
string_of-zeros zero = refl
string_of-zeros (suc n) = refl

pub length-zeros : (n : ℕ) → length (zeros n) ≡ n
unfolding zeros
length-zeros zero = refl
length-zeros (suc n) = ap suc (length-zeros n)

length-drop : (n : ℕ) (a : List ℕ) (k : ℕ) → length a ≡ n + k → length (drop n a) ≡ k
length-drop zero a k h = omega (arith, h)
length-drop (suc n) [] k h = omega (arith, h)
length-drop (suc n) (x ∷ a) k h = length-drop n a k (omega (arith, h))

pub length-strcpy :
    (dst src : CharArray) (n : ℕ)
    → length dst ≡ n
    → length (string_of src) < n
    → length (strcpy dst src) ≡ n
unfolding strcpy
length-strcpy dst src n size short =
    let k = n - (length (string_of src) + 1) in
    omega (
      arith,
      length-append (string_of src) (0 ∷ drop (length (string_of src) + 1) dst),
      length-drop (length (string_of src) + 1) dst k (omega arith),
    )

pub IsArray-strcpy :
    (n : ℕ) (dst src : CharArray)
    → length dst ≡ n
    → length (string_of src) < n
    → IsArray n (strcpy dst src)
IsArray-strcpy n dst src size short = record {
  size = length-strcpy dst src n size short;
  terminated = rw (string_of-strcpy dst src) short;
}

pub IsArray-zeros : (n : ℕ) → 0 < n → IsArray n (zeros n)
IsArray-zeros n pos = record { size = length-zeros n; terminated = rw (string_of-zeros n) pos }

-- `dst` after strcat(dst, src).
unfoldable pub strcat : CharArray → CharArray → CharArray
strcat dst src = let k = length (string_of dst) in take k dst ++ strcpy (drop k dst) src

take-string_of : (a : CharArray) → take (length (string_of a)) a ≡ string_of a
unfolding string_of
take-string_of [] = refl
take-string_of (c ∷ cs) = ground (arith, take-string_of cs)

string_of_behind : (a x : CharArray) → string_of (string_of a ++ x) ≡ string_of a ++ string_of x
unfolding string_of
string_of_behind [] x = refl
string_of_behind (c ∷ cs) x = ground (arith, string_of_behind cs x)

pub string_of-strcat :
    (dst src : CharArray) → string_of (strcat dst src) ≡ string_of dst ++ string_of src
unfolding strcat
string_of-strcat dst src =
    rw (take-string_of dst, string_of_behind dst)
      (ap (λ x. string_of dst ++ x) (string_of-strcpy (drop (length (string_of dst)) dst) src))

pub length-strcat :
    (dst src : CharArray) (n : ℕ)
    → length dst ≡ n
    → length (string_of dst) + length (string_of src) < n
    → length (strcat dst src) ≡ n
unfolding strcat
length-strcat dst src n size short =
    let k = length (string_of dst) in
    let rest = n - k in
    let dropped : length (drop k dst) ≡ rest = length-drop k dst rest (omega arith) in
    rw (take-string_of dst) (
      omega (
        arith,
        length-append (string_of dst) (strcpy (drop k dst) src),
        length-strcpy (drop k dst) src rest dropped (omega arith),
      ))
