-- ===== src/Jobs/Hoare.antt =====
-- What holds after a transaction that succeeds: triples, and invariants of the state file.
use agent_fox.Prelude.{
  ◌≡◌, refl, Bool, true, false, Option, none, some, if◌then◌else◌, arith, subst, ◌++◌,
}
use agent_fox.Jobs.Rows.{Db, Event}
use agent_fox.Jobs.Txn.{
  M, Tx, Result, ok, err, Error, Env, Op, World, pure, throw, ◌>>=◌, get_db, of_option, fails,
  note_event, run, commit, begin_tx, ◌>>◌,
}

-- The postcondition of a result; nothing is said of an error, which undoes the transaction.
abbrev pub Post : {A : Type 0} → (A → Tx → Type 0) → Result (A × Tx) → Type 0
Post Q (err e) = Unit {0}
Post Q (ok (a, t)) = Q a t

pub record Triple {A : Type 0} (P : Tx → Type 0) (m : M A) (Q : A → Tx → Type 0) : Type 0 where
  pub at : (t : Tx) → P t → Post Q (m t)

-- `m` keeps an invariant of the file.
pub record Keeps {A : Type 0} (I : Db → Type 0) (m : M A) : Type 0 where
  pub at : (t : Tx) → I t.db → Post (λ a u. I u.db) (m t)

pub Post-weaken :
    {A : Type 0} {Q R : A → Tx → Type 0} (r : Result (A × Tx))
    → ((a : A) (t : Tx) → Q a t → R a t)
    → Post Q r
    → Post R r
Post-weaken (err e) h q = tt
Post-weaken (ok (a, t)) h q = h a t q

bind-Post :
    {A B : Type 0} {Q : A → Tx → Type 0} {R : B → Tx → Type 0} (r : Result (A × Tx)) (f : A → M B)
    → Post Q r
    → ((a : A) → Triple (Q a) (f a) R)
    → Post R (elim r [ err e ↦ err e | ok (a, t) ↦ f a t ])
bind-Post (err e) f q h = tt
bind-Post (ok (a, t)) f q h = (h a).at t q

module _ {A : Type 0} {P : Tx → Type 0} where
  pub Triple-pure : (a : A) {Q : A → Tx → Type 0} → ((t : Tx) → P t → Q a t) → Triple P (pure a) Q
  unfolding pure
  Triple-pure a h = record { at = h }

  pub Triple-throw : (e : Error) {Q : A → Tx → Type 0} → Triple P (throw e) Q
  unfolding throw
  Triple-throw e = record { at = λ t h. tt }

  pub Triple-of_option :
      (e : Error) (o : Option A) → Triple P (of_option e o) (λ a t. (o ≡ some a) × P t)
  unfolding of_option
  Triple-of_option e none = record { at = λ t h. tt }
  Triple-of_option e (some a) = record { at = λ t h. (refl, h) }

  pub Triple-if :
      (b : Bool) (m n : M A) {Q : A → Tx → Type 0}
      → (b ≡ true → Triple P m Q)
      → (b ≡ false → Triple P n Q)
      → Triple P (if b then m else n) Q
  Triple-if true m n hm hn = hm refl
  Triple-if false m n hm hn = hn refl

  pub Triple-weaken :
      {m : M A} {P' : Tx → Type 0} {Q R : A → Tx → Type 0}
      → ((t : Tx) → P' t → P t)
      → ((a : A) (t : Tx) → Q a t → R a t)
      → Triple P m Q
      → Triple P' m R
  Triple-weaken {m} pre post h = record { at = λ t p. Post-weaken (m t) post (h.at t (pre t p)) }

module _ {A : Type 0} {m : M A} {Q : A → Tx → Type 0} where
  pub Triple-fact : {F : Type 0} {P : Tx → Type 0} → (F → Triple P m Q) → Triple (λ t. F × P t) m Q
  Triple-fact h = record { at = λ t p. (h p.0).at t p.1 }

pub Triple-get_db : {P : Tx → Type 0} → Triple P get_db (λ db t. (db ≡ t.db) × P t)
unfolding get_db
Triple-get_db = record { at = λ t h. (refl, h) }

pub Triple-fails : (env : Env) (op : Op) {P : Tx → Type 0} → Triple P (fails env op) (λ u t. P t)
unfolding fails
Triple-fails env op = record { at = λ t h. ground arith }

module _ {A B : Type 0} {P : Tx → Type 0} {Q : A → Tx → Type 0} {R : B → Tx → Type 0} where
  pub Triple-bind :
      (m : M A) (f : A → M B)
      → Triple P m Q
      → ((a : A) → Triple (Q a) (f a) R)
      → Triple P (m >>= f) R
  unfolding ◌>>=◌
  Triple-bind m f hm hf = record { at = λ t p. bind-Post (m t) f (hm.at t p) hf }

-- A step and what follows it, for the steps that leave the transaction as it is.
module _ {B : Type 0} {P : Tx → Type 0} {R : B → Tx → Type 0} where
  pub Triple-read : (f : Db → M B) → ((db : Db) → Triple P (f db) R) → Triple P (get_db >>= f) R
  Triple-read f h =
      Triple-bind _ _ Triple-get_db λ db. Triple-weaken (λ t p. p.1) (λ a t q. q) (h db)

  pub Triple-take :
      {A : Type 0} (e : Error) (o : Option A) (f : A → M B)
      → ((a : A) → o ≡ some a → Triple P (f a) R)
      → Triple P (of_option e o >>= f) R
  Triple-take e o f h = Triple-bind _ _ (Triple-of_option e o) λ a. Triple-fact (h a)

module _ {B : Type 0} {P : Tx → Type 0} {R : B → Tx → Type 0} (k : M B) where
  pub Triple-seam : (env : Env) (op : Op) → Triple P k R → Triple P (fails env op >> k) R
  Triple-seam env op h = Triple-bind _ _ (Triple-fails env op) λ u. h

  -- A guard of the form `if b then throw e`.
  pub Triple-unless :
      (b : Bool) (e : Error)
      → (b ≡ false → Triple P k R)
      → Triple P ((if b then throw e else pure tt) >> k) R
  Triple-unless b e h =
      Triple-bind _ _
        (Triple-if b _ _ {Q = λ u t. (b ≡ false) × P t} (λ g. Triple-throw e)
          (λ g. Triple-pure tt (λ t p. (g, p))))
        λ u. Triple-fact h

  -- A guard of the form `if not b then throw e`.
  pub Triple-when :
      (b : Bool) (e : Error)
      → (b ≡ true → Triple P k R)
      → Triple P ((if b then pure tt else throw e) >> k) R
  Triple-when b e h =
      Triple-bind _ _
        (Triple-if b _ _ {Q = λ u t. (b ≡ true) × P t} (λ g. Triple-pure tt (λ t p. (g, p)))
          (λ g. Triple-throw e))
        λ u. Triple-fact h

module _ {I : Db → Type 0} where
  pub Keeps-Triple : {A : Type 0} {m : M A} → Triple (λ t. I t.db) m (λ a t. I t.db) → Keeps I m
  Keeps-Triple h = record { at = h.at }

  pub Triple-Keeps : {A : Type 0} {m : M A} → Keeps I m → Triple (λ t. I t.db) m (λ a t. I t.db)
  Triple-Keeps h = record { at = h.at }

  pub Keeps-pure : {A : Type 0} (a : A) → Keeps I (pure a)
  Keeps-pure a = Keeps-Triple (Triple-pure a (λ t h. h))

  pub Keeps-throw : {A : Type 0} (e : Error) → Keeps I (throw {A = A} e)
  Keeps-throw e = Keeps-Triple (Triple-throw e)

  pub Keeps-of_option : {A : Type 0} (e : Error) (o : Option A) → Keeps I (of_option e o)
  unfolding of_option
  Keeps-of_option e none = record { at = λ t h. tt }
  Keeps-of_option e (some a) = record { at = λ t h. h }

  pub Keeps-get_db : Keeps I get_db
  unfolding get_db
  Keeps-get_db = record { at = λ t h. h }

  pub Keeps-fails : (env : Env) (op : Op) → Keeps I (fails env op)
  Keeps-fails env op = Keeps-Triple (Triple-fails env op)

  pub Keeps-note_event : (e : Event) → Keeps I (note_event e)
  unfolding note_event
  Keeps-note_event e = record { at = λ t h. h }

  pub Keeps-if :
      {A : Type 0} (b : Bool) (m n : M A) → Keeps I m → Keeps I n → Keeps I (if b then m else n)
  Keeps-if true m n hm hn = hm
  Keeps-if false m n hm hn = hn

  pub Keeps-bind :
      {A B : Type 0} (m : M A) (f : A → M B)
      → Keeps I m
      → ((a : A) → Keeps I (f a))
      → Keeps I (m >>= f)
  Keeps-bind m f hm hf = Keeps-Triple (Triple-bind m f (Triple-Keeps hm) (λ a. Triple-Keeps (hf a)))

pub Keeps-both :
    {A : Type 0} {I J K : Db → Type 0} {m : M A}
    → ((db : Db) → K db → I db × J db)
    → ((db : Db) → I db → J db → K db)
    → Keeps I m
    → Keeps J m
    → Keeps K m
Keeps-both {A = A} {I = I} {J = J} {K = K} {m = m} out back hi hj = record {
  at = λ t h. joined (m t) (hi.at t (out t.db h).0) (hj.at t (out t.db h).1);
}
  where
    joined :
        (r : Result (A × Tx))
        → Post (λ a u. I u.db) r
        → Post (λ a u. J u.db) r
        → Post (λ a u. K u.db) r
    joined (err e) p q = tt
    joined (ok (a, u)) p q = back u.db p q

pub ruleset keeps_rules = (
  Keeps-pure, Keeps-throw, Keeps-of_option, Keeps-get_db, Keeps-fails, Keeps-note_event, Keeps-if,
  Keeps-bind,
)

-- What a transaction leaves, run over the file and the publisher: nothing on an error.
run_cases :
    {A : Type 0} (C : Result A × World → Type 0) (w : World) (r : Result (A × Tx))
    → ((e : Error) → r ≡ err e → C (err e, w))
    → ((a : A) (t : Tx)
        → r ≡ ok (a, t)
        → C (ok a, record { db = t.db; published = w.published ++ t.stored }))
    → C (commit w r)
unfolding commit
run_cases C w (err e) failed done = failed e refl
run_cases C w (ok (a, t)) failed done = done a t refl

pub run_elim :
    {A : Type 0} (C : Result A × World → Type 0) (w : World) (m : M A)
    → ((e : Error) → C (err e, w))
    → ((a : A) (t : Tx)
        → m (begin_tx w.db) ≡ ok (a, t)
        → C (ok a, record { db = t.db; published = w.published ++ t.stored }))
    → C (run m w)
unfolding run
run_elim C w m failed done = run_cases C w (m (begin_tx w.db)) (λ e _. failed e) done

pub Post-ok :
    {A : Type 0} (Q : A → Tx → Type 0) {r : Result (A × Tx)} (a : A) (t : Tx)
    → Post Q r
    → r ≡ ok (a, t)
    → Q a t
Post-ok Q a t q e = subst (Post Q) e q

-- An invariant that a transaction keeps holds after it, whether it succeeds or not.
pub run-Keeps :
    {A : Type 0} (I : Db → Type 0) (m : M A) (w : World) → Keeps I m → I w.db → I (run m w).1.db
run-Keeps I m w k h =
    run_elim (λ r. I r.1.db) w m (λ e. h)
      (λ a t e. Post-ok (λ b u. I u.db) a t (k.at (begin_tx w.db) h) e)
