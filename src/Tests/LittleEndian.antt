-- ===== src/Tests/LittleEndian.antt =====
-- The encoding of bincode, which writes numbers in little endian and two's complement.
use native.Mathlib.Nat.{pow-suc}
use proyecto_estructura.Prelude.{
  ℕ, zero, suc, ◌+◌, ◌-◌, ◌*◌, ◌/◌, ◌%◌, ◌^◌, ◌<◌, ◌≡◌, refl, ap, Bool, true, false, List, [], ◌∷◌,
  length, length-append, drop, leb, ◌&&◌, ◌++◌, ◌∙◌, Option, none, some, ltb, if◌then◌else◌, arith,
  ◌==◌,
}
use proyecto_estructura.Prelude.Int.{ℤ, pos, negsuc}
use proyecto_estructura.Column.RoundTrip.{drop-append}
use proyecto_estructura.Column.Codec.{take, Bincode, Documented, HasBytes}

abbrev uint_bytes : ℕ → ℕ → List ℕ
uint_bytes zero k = []
uint_bytes (suc n) k = k % 256 ∷ uint_bytes n (k / 256)

abbrev read_uint : ℕ → List ℕ → ℕ
read_uint zero xs = 0
read_uint (suc n) [] = 0
read_uint (suc n) (x ∷ xs) = x + 256 * read_uint n xs

abbrev int_bytes : ℕ → ℤ → List ℕ
int_bytes n (pos k) = uint_bytes n k
int_bytes n (negsuc k) = uint_bytes n (256 ^ n - 1 - k)

abbrev signed : ℕ → ℕ → ℤ
signed n m = if ltb (2 * m) (256 ^ n) then pos m else negsuc (256 ^ n - 1 - m)

-- `n` bytes, when there are as many
abbrev enough : ℕ → List ℕ → Bool
enough n xs = leb n (length xs)

abbrev take_uint : ℕ → List ℕ → Option ℕ
take_uint n xs = if enough n xs then some (read_uint n xs) else none

abbrev read_bool : List ℕ → Option Bool
read_bool [] = none
read_bool (x ∷ xs) = if x == 0 then some false else if x == 1 then some true else none

-- the bytes behind the length, when there are as many
abbrev read_vec : List ℕ → Option (List ℕ)
read_vec xs =
    let n = read_uint 8 xs in
    if leb 8 (length xs) && leb n (length (drop 8 xs)) then some (take n (drop 8 xs)) else none

abbrev pub little_endian : Bincode
little_endian = record {
  uint_bytes = uint_bytes;
  read_uint = take_uint;
  int_bytes = int_bytes;
  read_int = λ n xs. if enough n xs then some (signed n (read_uint n xs)) else none;
  double_bytes = λ d. uint_bytes 8 d.bits;
  read_double = λ xs. if enough 8 xs then some (record { bits = read_uint 8 xs }) else none;
  bool_bytes = λ t. (if t then 1 else 0) ∷ [];
  read_bool = read_bool;
  vec_bytes = λ xs. uint_bytes 8 (length xs) ++ xs;
  read_vec = read_vec;
}

length-uint_bytes : (n k : ℕ) → length (uint_bytes n k) ≡ n
length-uint_bytes zero k = refl
length-uint_bytes (suc n) k = ap (λ i. suc i) (length-uint_bytes n (k / 256))

read_uint-uint_bytes : (n k : ℕ) → k < 256 ^ n → read_uint n (uint_bytes n k) ≡ k
read_uint-uint_bytes zero k h = omega (arith, h)
read_uint-uint_bytes (suc n) k h =
    let small : k / 256 < 256 ^ n = omega (arith, h, pow-suc 256 n) in
    let back = read_uint-uint_bytes n (k / 256) small in rw back (omega arith)

signed-pos : (n k : ℕ) → 2 * k < 256 ^ n → signed n k ≡ pos k
signed-pos n k h = ground arith

signed-negsuc : (n k : ℕ) → 2 * k + 1 < 256 ^ n → signed n (256 ^ n - 1 - k) ≡ negsuc k
signed-negsuc n k h = ground arith

length-int_bytes : (n : ℕ) (z : ℤ) → length (int_bytes n z) ≡ n
length-int_bytes n (pos k) = length-uint_bytes n k
length-int_bytes n (negsuc k) = length-uint_bytes n (256 ^ n - 1 - k)

int_back : (n : ℕ) (z : ℤ) → HasBytes n z → signed n (read_uint n (int_bytes n z)) ≡ z
int_back n (pos k) h = rw (read_uint-uint_bytes n k (omega (arith, h))) (signed-pos n k h)
int_back n (negsuc k) h =
    rw (read_uint-uint_bytes n (256 ^ n - 1 - k) (omega (arith, h))) (signed-negsuc n k h)

bool_back : (t : Bool) → read_bool (little_endian.bool_bytes t) ≡ some t
bool_back true = refl
bool_back false = refl

enough-uint_bytes : (n k : ℕ) → enough n (uint_bytes n k) ≡ true
enough-uint_bytes n k = ground (arith, length-uint_bytes n k)

enough-int_bytes : (n : ℕ) (z : ℤ) → enough n (int_bytes n z) ≡ true
enough-int_bytes n z = ground (arith, length-int_bytes n z)

read_uint-append :
    (n : ℕ) (xs ys : List ℕ) → length xs ≡ n → read_uint n (xs ++ ys) ≡ read_uint n xs
read_uint-append zero xs ys h = refl
read_uint-append (suc n) [] ys h = absurd (omega (arith, h))
read_uint-append (suc n) (x ∷ xs) ys h =
    ap (λ k. x + 256 * k) (read_uint-append n xs ys (omega (arith, h)))

take-length : (xs : List ℕ) → take (length xs) xs ≡ xs
take-length [] = refl
take-length (x ∷ xs) = ap (◌∷◌ x) (take-length xs)

read_vec-append :
    (xs ys : List ℕ) → length xs ≡ 8 → read_uint 8 xs ≡ length ys → read_vec (xs ++ ys) ≡ some ys
read_vec-append xs ys h k =
    let size = length-append xs ys in
    let front = read_uint-append 8 xs ys h ∙ k in
    let back = drop-append xs ys 8 h in rw (front, back, take-length ys) (ground (arith, size, h))

pub little_endian-Documented : Documented little_endian
little_endian-Documented = record {
  uint_size = length-uint_bytes;
  int_size = length-int_bytes;
  double_size = λ d. length-uint_bytes 8 d.bits;
  bool_size = λ t. refl;
  uint_back = λ n k h. rw (enough-uint_bytes n k) (ap some (read_uint-uint_bytes n k h));
  int_back = λ n z h. rw (enough-int_bytes n z) (ap some (int_back n z h));
  double_back = λ d h.
      let n = read_uint 8 (uint_bytes 8 d.bits) in
      ap (λ t. if t then some (record { bits = n }) else none) (enough-uint_bytes 8 d.bits)
      ∙ ap (λ n. some (record { bits = n })) (read_uint-uint_bytes 8 d.bits h);
  bool_back = bool_back;
  vec_size = λ xs.
      length-append (uint_bytes 8 (length xs)) xs
      ∙ ap (λ n. n + length xs) (length-uint_bytes 8 (length xs));
  vec_back = λ xs h.
      read_vec-append (uint_bytes 8 (length xs)) xs (length-uint_bytes 8 (length xs))
        (read_uint-uint_bytes 8 (length xs) h);
}
