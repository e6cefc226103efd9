-- ===== src/Comm/Layout.antt =====
-- What a sequence of appended data makes of a buffer.
use native.Mathlib.Nat.{add_assoc}
use mathlib.Core.List.{append_assoc}
use gemini.Prelude.{
  ℕ, zero, suc, ◌+◌, ◌-◌, ◌^◌, ◌<◌, ◌≡◌, refl, sym, ◌∙◌, inl, inr, none, some, List, [], ◌∷◌, ◌++◌,
  arith, if◌then◌else◌, leb, length, length-append, Bool-cases, true, false,
}
use gemini.Comm.Buffer.{
  to_bytes, of_bytes-to_bytes, length-to_bytes, read, drop, write-append, read-append,
  append_msg_data, get_msg_data,
}
use gemini.Comm.Messages.{append_all}

abbrev pub flat : List (List ℕ) → List ℕ
flat [] = []
flat (b ∷ bs) = b ++ flat bs

length-drop : (n : ℕ) (xs : List ℕ) → length (drop n xs) ≡ length xs - n
unfolding drop
length-drop zero xs = omega arith
length-drop (suc n) [] = omega arith
length-drop (suc n) (x ∷ xs) = omega (arith, length-drop n xs)

drop-nil : (n : ℕ) → drop {A = ℕ} n [] ≡ []
unfolding drop
drop-nil zero = refl
drop-nil (suc n) = refl

drop-drop : (m n : ℕ) (xs : List ℕ) → drop m (drop n xs) ≡ drop (n + m) xs
unfolding drop
drop-drop m zero xs = let e : 0 + m ≡ m = omega arith in rw e
drop-drop m (suc n) [] = drop-nil m ∙ sym (drop-nil (suc n + m))
drop-drop m (suc n) (x ∷ xs) =
    let e : suc n + m ≡ suc (n + m) = omega arith in rw e (drop-drop m n xs)

leb_zero : (n : ℕ) → leb 0 n ≡ true
leb_zero n = ground arith

drop_zero : (xs : List ℕ) → drop 0 xs ≡ xs
unfolding drop
drop_zero xs = refl

append-step :
    (b done rest : List ℕ) (pos : ℕ)
    → pos ≡ length done
    → append_msg_data b (done ++ rest, pos) ≡ (
        if leb (length b) (length rest)
        then some (done ++ (b ++ drop (length b) rest), pos + length b)
        else none)
unfolding append_msg_data
append-step b done rest pos e = rw (e, write-append done b rest) (ground arith)

-- The room that is left behind the first of two pieces.
leb-append :
    (b fs rest : List ℕ)
    → leb (length b) (length rest) ≡ true
    → leb (length fs) (length (drop (length b) rest)) ≡ leb (length (b ++ fs)) (length rest)
leb-append b fs rest fits = rw (length-drop (length b) rest, length-append b fs) (ground arith)

leb_append_over :
    (b fs rest : List ℕ)
    → leb (length b) (length rest) ≡ false
    → leb (length (b ++ fs)) (length rest) ≡ false
leb_append_over b fs rest over = rw (length-append b fs) (ground arith)

append_regroup :
    (done b fs rest : List ℕ)
    → done ++ b ++ (fs ++ drop (length fs) (drop (length b) rest))
      ≡ done ++ (b ++ fs ++ drop (length (b ++ fs)) rest)
append_regroup done b fs rest =
    rw (length-append b fs, drop-drop (length fs) (length b) rest) (simp append_assoc)

-- Data that fit are written one behind the other; data that do not fit run past the end.
pub append_all-flat :
    (bs : List (List ℕ)) (done rest : List ℕ) (pos : ℕ)
    → pos ≡ length done
    → append_all bs (done ++ rest, pos) ≡ (
        if leb (length (flat bs)) (length rest)
        then some (done ++ (flat bs ++ drop (length (flat bs)) rest), pos + length (flat bs))
        else none)
unfolding append_all append_msg_data
append_all-flat [] done rest pos e = rw (no_more, leb_zero (length rest), drop_zero rest)
  where
    no_more : pos + 0 ≡ pos
    no_more = omega arith
append_all-flat (b ∷ bs) done rest pos e = elim (Bool-cases (leb (length b) (length rest))) [
  | inl fits ↦
      rw (append-step b done rest pos e, fits, ← append_assoc)
        (append_all-flat bs (done ++ b) (drop (length b) rest) (pos + length b)
            (omega (arith, length-append done b))
          ∙ rw (
            leb-append b (flat bs) rest fits,
            append_regroup done b (flat bs) rest,
            add_assoc pos (length b) (length (flat bs)),
            length-append b (flat bs),
          ))
  | inr over ↦ rw (append-step b done rest pos e, over, leb_append_over b (flat bs) rest over)
]

-- An integer is read where it was written.
pub get_msg_data-append :
    (w v pos : ℕ) (done rest : List ℕ)
    → pos ≡ length done
    → v < 256 ^ w
    → get_msg_data w (done ++ (to_bytes w v ++ rest), pos) ≡ some (v, pos + w)
unfolding get_msg_data
get_msg_data-append w v pos done rest e h = rw (e, here) (rw (of_bytes-to_bytes w v h))
  where
    here : read (length done) w (done ++ (to_bytes w v ++ rest)) ≡ some (to_bytes w v)
    here = rw (length-to_bytes w v) at (read-append done (to_bytes w v) rest)
