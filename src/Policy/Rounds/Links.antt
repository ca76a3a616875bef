-- ===== src/Policy/Rounds/Links.antt =====
-- The rounds of realPath of internal/policy/policy.go: how many of them are enough.
use agent_fox.Policy.Rounds.Above.{IsLast, dir_of-shorter}
use agent_fox.Policy.Text.{Word, same_word_iff, Word_Eq}
use agent_fox.Policy.Paths.{real_path_from, real_path, Machine, dir_of, joined, rel}
use agent_fox.Prelude.{
  true, false, zero, suc, none, some, refl, inl, inr, if◌then◌else◌, Option, Bool, ℕ, ◌≡◌, length,
  ◌<◌, ◌+◌, arith, ◌≤◌, ◌==◌, sym,
}

-- Both come to the path.
abbrev SamePath : Option Word → Option Word → Type 0
SamePath o o' = (w : Word) × ((o ≡ some w) × (o' ≡ some w))

-- The answer of one round, where the later rounds come to a path, if the path is not its own
-- directory.
answer_some :
    (answer : Option Word) (last : Bool) (joins : Word → Word) (p : Word) (up up' : Option Word)
    → (last ≡ false → SamePath up up')
    → SamePath
        (elim answer [ some found ↦ some (joins found) | none ↦ if last then some p else up ])
        (elim answer [ some found ↦ some (joins found) | none ↦ if last then some p else up' ])
answer_some (some found) last joins p up up' later = (joins found, (refl, refl))
answer_some none true joins p up up' later = (p, (refl, refl))
answer_some none false joins p up up' later = later refl

fixed_some :
    (m : Machine) (n k : ℕ) (q p : Word)
    → IsLast q
    → 0 < n
    → 0 < k
    → SamePath (real_path_from m n q p) (real_path_from m k q p)
unfolding real_path_from
fixed_some m zero k q p last hn hk = absurd (omega (arith, hn))
fixed_some m (suc n) zero q p last hn hk = absurd (omega (arith, hk))
fixed_some m (suc n) (suc k) q p last hn hk =
    answer_some (m.eval_symlinks q) (q == dir_of q) (λ found. joined (rel q p) found p) p
      (real_path_from m n (dir_of q) p) (real_path_from m k (dir_of q) p)
      (λ differs.
        absurd (let is_last = (same_word_iff q (dir_of q)).1 (sym last) in cc (differs, is_last)))

real_path_some :
    (m : Machine) (n k : ℕ) (q p : Word)
    → length q + 2 ≤ n
    → length q + 2 ≤ k
    → SamePath (real_path_from m n q p) (real_path_from m k q p)
unfolding real_path_from
real_path_some m zero k q p hn hk = absurd (omega (arith, hn))
real_path_some m (suc n) zero q p hn hk = absurd (omega (arith, hk))
real_path_some m (suc n) (suc k) q p hn hk =
    let above : SamePath (real_path_from m n (dir_of q) p) (real_path_from m k (dir_of q) p) =
      elim (dir_of-shorter q) [
        | inl shorter ↦
            real_path_some m n k (dir_of q) p (omega (arith, shorter, hn))
              (omega (arith, shorter, hk))
        | inr last ↦ fixed_some m n k (dir_of q) p last (omega (arith, hn)) (omega (arith, hk))
      ] in
    answer_some (m.eval_symlinks q) (q == dir_of q) (λ found. joined (rel q p) found p) p
      (real_path_from m n (dir_of q) p) (real_path_from m k (dir_of q) p) (λ differs. above)

-- realPath returns: its loop comes to a path in two more rounds than its argument has bytes, and to
-- the same one however many more it is given.
pub real_path_rounds :
    (m : Machine) (p : Word) (n : ℕ)
    → length p + 2 ≤ n
    → real_path_from m n p p ≡ some (real_path m p)
unfolding real_path
real_path_rounds m p n enough =
    let (w, (long, short)) = real_path_some m n (length p + 2) p p enough (omega arith) in
    rw (long, short) refl
