-- ===== src/Comm/Buffer.antt =====
-- Message buffers as lists of bytes, with `memcpy` into and out of them. A copy past the end of a
-- buffer is `none`.
use native.Mathlib.Nat.{pow-suc}
use gemini.Prelude.{
  ℕ, zero, suc, ◌+◌, ◌*◌, ◌/◌, ◌%◌, ◌^◌, ◌<◌, ◌≡◌, refl, ap, Option, none, some, List, [], ◌∷◌,
  ◌++◌, arith, if◌then◌else◌, leb, length,
}

abbrev pub Buffer : Type 0
Buffer = List ℕ

-- The bytes of an integer of that many bytes, the least significant one first.
unfoldable pub to_bytes : ℕ → ℕ → List ℕ
to_bytes zero v = []
to_bytes (suc w) v = v % 256 ∷ to_bytes w (v / 256)

unfoldable pub of_bytes : List ℕ → ℕ
of_bytes [] = 0
of_bytes (b ∷ bs) = b + 256 * of_bytes bs

-- `bzero`
unfoldable pub zeros : ℕ → Buffer
zeros zero = []
zeros (suc n) = 0 ∷ zeros n

pub zeros-length : (n : ℕ) → length (zeros n) ≡ n
unfolding zeros
zeros-length zero = refl
zeros-length (suc n) = ap suc (zeros-length n)

infixl 5 ◌>>=◌
abbrev pub ◌>>=◌ : {A B : Type 0} → Option A → (A → Option B) → Option B
none >>= f = none
some a >>= f = f a

pub >>=_assoc :
    {A B C : Type 0} (m : Option A) (f : A → Option B) (g : B → Option C)
    → ((m >>= f) >>= g) ≡ (m >>= λ a. f a >>= g)
>>=_assoc none f g = refl
>>=_assoc (some a) f g = refl

abbrev push : ℕ → Option Buffer → Option Buffer
push b o = o >>= λ buf. some (b ∷ buf)

-- `memcpy(buf + pos, bytes, length)`
unfoldable pub write : ℕ → List ℕ → Buffer → Option Buffer
write (suc pos) bytes [] = none
write (suc pos) bytes (x ∷ buf) = push x (write pos bytes buf)
write zero [] buf = some buf
write zero (b ∷ bytes) [] = none
write zero (b ∷ bytes) (x ∷ buf) = push b (write zero bytes buf)

-- `memcpy(data, buf + pos, n)`
unfoldable pub read : ℕ → ℕ → Buffer → Option (List ℕ)
read (suc pos) n [] = none
read (suc pos) n (x ∷ buf) = read pos n buf
read zero zero buf = some []
read zero (suc n) [] = none
read zero (suc n) (x ∷ buf) = push x (read zero n buf)

-- The text that starts at a position and ends before the first zero byte.
unfoldable pub c_string : ℕ → Buffer → Option (List ℕ)
c_string (suc pos) [] = none
c_string (suc pos) (x ∷ buf) = c_string pos buf
c_string zero [] = none
c_string zero (zero ∷ buf) = some []
c_string zero (suc x ∷ buf) = push (suc x) (c_string zero buf)

-- A buffer of which the first `pos` bytes are written.
abbrev pub Cursor : Type 0
Cursor = Buffer × ℕ

-- `append_msg_data`, given the bytes of the datum.
unfoldable pub append_msg_data : List ℕ → Cursor → Option Cursor
append_msg_data bytes (buf, pos) = write pos bytes buf >>= λ buf'. some (buf', pos + length bytes)

-- `get_msg_data`, for an integer of `w` bytes.
unfoldable pub get_msg_data : ℕ → Cursor → Option (ℕ × ℕ)
get_msg_data w (buf, pos) = read pos w buf >>= λ bytes. some (of_bytes bytes, pos + w)

pub of_bytes-to_bytes : (w v : ℕ) → v < 256 ^ w → of_bytes (to_bytes w v) ≡ v
unfolding of_bytes to_bytes
of_bytes-to_bytes zero v h = omega arith
of_bytes-to_bytes (suc w) v h =
    let h' : v < 256 ^ w * 256 = rw pow-suc at h in
    omega (arith, of_bytes-to_bytes w (v / 256) (omega arith))

pub length-to_bytes : (w v : ℕ) → length (to_bytes w v) ≡ w
unfolding to_bytes
length-to_bytes zero v = refl
length-to_bytes (suc w) v = ap suc (length-to_bytes w (v / 256))

unfoldable pub drop : {A : Type 0} → ℕ → List A → List A
drop zero xs = xs
drop (suc n) [] = []
drop (suc n) (x ∷ xs) = drop n xs

-- A write behind what is written replaces as many bytes, if there is room for them.
pub write-append :
    (done bytes rest : List ℕ)
    → write (length done) bytes (done ++ rest) ≡ (
        if leb (length bytes) (length rest)
        then some (done ++ (bytes ++ drop (length bytes) rest))
        else none)
unfolding write drop
write-append [] [] rest = ground arith
write-append [] (b ∷ bytes) [] = ground arith
write-append [] (b ∷ bytes) (x ∷ rest) = ground (arith, write-append [] bytes rest)
write-append (y ∷ done) bytes rest = ground (arith, write-append done bytes rest)

pub read-append :
    (done bytes rest : List ℕ)
    → read (length done) (length bytes) (done ++ (bytes ++ rest)) ≡ some bytes
unfolding read
read-append [] [] rest = refl
read-append [] (b ∷ bytes) rest = rw (read-append [] bytes rest)
read-append (y ∷ done) bytes rest = read-append done bytes rest
