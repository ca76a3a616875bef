-- ===== src/Triage/Ancestors.antt =====
-- The loop of newValidator of internal/triage/validate.go over the directories above a file: how
-- many rounds are enough.
use agent_fox.Policy.Paths.{dir_of}
use agent_fox.Policy.Rounds.Above.{IsLast, dir_of-shorter}
use agent_fox.Policy.Text.{Word, Words, contains, same_word_iff, bytes, same_word, Word_Eq}
use agent_fox.Triage.{add_dirs, dir_of}
use agent_fox.Table.{exists_where}
use agent_fox.Prelude.{
  true, false, zero, suc, refl, [], inl, inr, if◌then◌else◌, Bool, ℕ, ◌||◌, ◌≡◌, ◌≤◌, length, arith,
  ◌++◌, ◌+◌, ◌∷◌, ◌==◌,
}

or_second : (a : Bool) → (if a then true else true) ≡ true
or_second true = refl
or_second false = refl

contains_last : (dirs : Words) (q : Word) → contains (dirs ++ q ∷ []) q ≡ true
unfolding exists_where
contains_last [] q = rw ((same_word_iff q q).1 refl) refl
contains_last (d ∷ dirs) q = rw (contains_last dirs q) (or_second (same_word d q))

if_same :
    (a b c : Bool) (x y z : Words)
    → (c ≡ false → y ≡ z)
    → (if a || b || c then x else y) ≡ (if a || b || c then x else z)
if_same true b c x y z h = refl
if_same false true c x y z h = refl
if_same false false true x y z h = refl
if_same false false false x y z h = h refl

known_agree :
    (n k : ℕ) (q : Word) (dirs : Words)
    → 1 ≤ n
    → 1 ≤ k
    → contains dirs q ≡ true
    → add_dirs n q dirs ≡ add_dirs k q dirs
unfolding add_dirs
known_agree zero k q dirs hn hk known = absurd (omega (arith, hn))
known_agree (suc n) zero q dirs hn hk known = absurd (omega (arith, hk))
known_agree (suc n) (suc k) q dirs hn hk known =
    if_same (q == bytes ".") (q == bytes "/") (contains dirs q) dirs
      (add_dirs n (dir_of q) (dirs ++ q ∷ [])) (add_dirs k (dir_of q) (dirs ++ q ∷ []))
      (λ other. cc (known, other))

last_agree :
    (n k : ℕ) (q : Word) (dirs : Words)
    → IsLast q
    → 2 ≤ n
    → 2 ≤ k
    → add_dirs n q dirs ≡ add_dirs k q dirs
unfolding add_dirs
last_agree zero k q dirs last hn hk = absurd (omega (arith, hn))
last_agree (suc n) zero q dirs last hn hk = absurd (omega (arith, hk))
last_agree (suc n) (suc k) q dirs last hn hk =
    let known : contains (dirs ++ q ∷ []) (dir_of q) ≡ true = rw last (contains_last dirs q) in
    if_same (q == bytes ".") (q == bytes "/") (contains dirs q) dirs
      (add_dirs n (dir_of q) (dirs ++ q ∷ [])) (add_dirs k (dir_of q) (dirs ++ q ∷ []))
      (λ other.
        known_agree n k (dir_of q) (dirs ++ q ∷ []) (omega (arith, hn)) (omega (arith, hk)) known)

above_agree :
    (n k : ℕ) (q : Word) (dirs : Words)
    → length q + 2 ≤ n
    → length q + 2 ≤ k
    → add_dirs n (dir_of q) dirs ≡ add_dirs k (dir_of q) dirs
unfolding add_dirs
above_agree zero k q dirs hn hk = absurd (omega (arith, hn))
above_agree (suc n) zero q dirs hn hk = absurd (omega (arith, hk))
above_agree (suc n) (suc k) q dirs hn hk = elim (dir_of-shorter q) [
  | inr last ↦
      last_agree (suc n) (suc k) (dir_of q) dirs last (omega (arith, hn)) (omega (arith, hk))
  | inl shorter ↦
      let up = dir_of q in
      if_same (up == bytes ".") (up == bytes "/") (contains dirs up) dirs
        (add_dirs n (dir_of up) (dirs ++ up ∷ [])) (add_dirs k (dir_of up) (dirs ++ up ∷ []))
        (λ other.
          above_agree n k up (dirs ++ up ∷ []) (omega (arith, shorter, hn))
            (omega (arith, shorter, hk)))
]

-- However many rounds the loop over the directories above a file is given, from two more than the
-- bytes of the file's path on, it finds the same directories.
pub add_dirs_rounds :
    (f : Word) (dirs : Words) (n : ℕ)
    → length f + 2 ≤ n
    → add_dirs n (dir_of f) dirs ≡ add_dirs (length f + 2) (dir_of f) dirs
add_dirs_rounds f dirs n enough = above_agree n (length f + 2) f dirs enough (omega arith)
