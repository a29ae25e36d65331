-- ===== src/World/Post.antt =====
-- Postconditions of actions: what holds of the state when an action returns a value, and when it
-- returns an error.
use fishhub_server.Prelude.{
  String, ◌≡◌, refl, sym, ap, ◌∙◌, List, [], ◌∷◌, Bool, Bool-cases, inl, inr,
}
use mathlib.Core.Path.{subst₂}
use fishhub_server.Schema.{Db}
use fishhub_server.World.{
  Error, failed, fails, rest, pure, draw_from, Result, ok, err, World, Action, continue, call, draw,
  settle, transaction, ◌>>=◌, ◌>>◌,
}

pub data Post {A : Type 0} (Q : A → World → Type 0) (E : Error → World → Type 0)
    (o : Result A × World) : Type 0 where
  returns : (a : A) (w : World) → o ≡ (ok a, w) → Q a w → Post Q E o
  errs : (e : Error) (w : World) → o ≡ (err e, w) → E e w → Post Q E o

module _ {A B : Type 0} {Q : A → World → Type 0} {R : B → World → Type 0}
    {E : Error → World → Type 0} where
  -- A sequence has the postcondition of its second part, wherever that starts after the first.
  pub Post-bind :
      (o : Result A × World) (f : A → Action B)
      → Post Q E o
      → ((a : A) (w : World) → Q a w → Post R E (f a w))
      → Post R E (continue o f)
  Post-bind o f (returns a w e q) k = rw e (k a w q)
  Post-bind o f (errs x w e h) k = errs x w (rw e) h

module _ {A : Type 0} {Q : A → World → Type 0} {E : Error → World → Type 0} {o : Result A × World}
    (h : Post Q E o) where
  -- What the state after an error satisfies.
  pub Post-err : {e : Error} → o.0 ≡ err e → E e o.1
  Post-err {e} k = go h
    where
      go : Post Q E o → E e o.1
      go (returns a w p q) = cc (p, k)
      go (errs x w p q) =
          let same : x ≡ e = cc (sym (ap (λ t. t.0) p) ∙ k) in
          subst₂ E same (sym (ap (λ t. t.1) p)) q

  -- What the value and the state after a return satisfy.
  pub Post-ok : {a : A} → o.0 ≡ ok a → Q a o.1
  Post-ok {a} k = go h
    where
      go : Post Q E o → Q a o.1
      go (returns b w p q) =
          let same : b ≡ a = cc (sym (ap (λ t. t.0) p) ∙ k) in
          subst₂ Q same (sym (ap (λ t. t.1) p)) q
      go (errs x w p q) = cc (p, k)

module _ {A : Type 0} where
  -- A property of the state that holds however the action ends is a postcondition.
  pub Post-always :
      (P : World → Type 0) (o : Result A × World) → P o.1 → Post (λ _ w. P w) (λ _ w. P w) o
  Post-always P (ok a, w) h = returns a w refl h
  Post-always P (err e, w) h = errs e w refl h

module _ {A : Type 0} {Q : A → World → Type 0} {E : Error → World → Type 0} where
  -- A call fails before it does anything, or does what it is there for.
  pub Post-call :
      (what : String) (m : Action A) (w : World)
      → ((later : List Bool) → Post Q E (m (record w { faults = later })))
      → ((later : List Bool) → E (failed what) (record w { faults = later }))
      → Post Q E (call what m w)
  unfolding call
  Post-call what m w run stop = elim (Bool-cases (fails w.faults)) [
    | inl fault ↦ rw fault (errs (failed what) _ refl (stop (rest w.faults)))
    | inr fine ↦ rw fine (run (rest w.faults))
  ]

module _ {Q : String → World → Type 0} {E : Error → World → Type 0} where
  pub Post-draw :
      (what : String) (w : World)
      → ((v : String) (left : List String) → Q v (record w { supply = left }))
      → E (failed what) w
      → Post Q E (draw what w)
  unfolding draw
  Post-draw what w run stop = go w.supply
    where
      go : (vs : List String) → Post Q E (draw_from vs what pure w)
      go [] = errs (failed what) w refl stop
      go (v ∷ vs) = returns v (record w { supply = vs }) refl (run v vs)

module _ {A : Type 0} {Q R : A → World → Type 0} {E : Error → World → Type 0}
    {o : Result A × World} where
  pub Post-map : Post Q E o → ((a : A) (w : World) → Q a w → R a w) → Post R E o
  Post-map (returns a w e q) f = returns a w e (f a w q)
  Post-map (errs x w e q) f = errs x w e q

-- Weaker postconditions, of a return and of an error.
pub Post-both :
    {A : Type 0} {Q R : A → World → Type 0} {E F : Error → World → Type 0} {o : Result A × World}
    → Post Q E o
    → ((a : A) (w : World) → Q a w → R a w)
    → ((e : Error) (w : World) → E e w → F e w)
    → Post R F o
Post-both (returns a w e q) f g = returns a w e (f a w q)
Post-both (errs x w e q) f g = errs x w e (g x w q)

-- A property of the state that holds however an action ends.
pub Post-state :
    {A : Type 0} (P : World → Type 0) (o : Result A × World)
    → Post (λ _ w. P w) (λ _ w. P w) o
    → P o.1
Post-state P o (returns a w e p) = rw e p
Post-state P o (errs x w e p) = rw e p

-- The same database and the same time.
abbrev pub Same : World → World → Type 0
Same w w' = (w'.db ≡ w.db) × (w'.now ≡ w.now)

-- An action that leaves the database and the clock alone, whether it returns or fails.
abbrev pub Reads : {A : Type 0} → Action A → Type 0
Reads m = (w : World) → Same w (m w).1

pub Post-Reads :
    {A : Type 0} (m : Action A) (w w0 : World)
    → Reads m
    → Same w0 w
    → Post (λ _ w'. Same w0 w') (λ _ w'. w'.db ≡ w0.db) (m w)
Post-Reads {A} m w w0 reads same = go (m w) (reads w)
  where
    go : (o : Result A × World) → Same w o.1 → Post (λ _ w'. Same w0 w') (λ _ w'. w'.db ≡ w0.db) o
    go (ok a, w') kept = returns a w' refl (kept.0 ∙ same.0, kept.1 ∙ same.1)
    go (err e, w') kept = errs e w' refl (kept.0 ∙ same.0)

-- A transaction whose body ends in a database with the property Q returns in one; a transaction
-- that returns an error has rolled the database back.
pub Post-transaction :
    {A : Type 0} (Q : A → Db → Type 0) (b c : String) (body : Action A) (w : World)
    → ((later : List Bool)
        → Post (λ a w'. Q a w'.db) (λ _ _. Unit {0}) (body (record w { faults = later })))
    → Post (λ a w'. Q a w'.db) (λ _ w'. w'.db ≡ w.db) (transaction b c body w)
unfolding transaction
Post-transaction {A} Q b c body w run = settled _ (
    Post-bind {Q = λ _ w1. (later : List Bool) × (w1 ≡ record w { faults = later })}
      (call b (pure tt) w) (λ _. commits)
      (Post-call b (pure tt) w
        (λ later. returns tt (record w { faults = later }) refl (later, refl)) (λ later. tt))
      (λ _ w1 (later, e). rw e (
        Post-bind (body (record w { faults = later })) committed (run later) (λ a w2 q.
          Post-bind {Q = λ _ w3. Q a w3.db} (call c (pure tt) w2) (λ _. pure a)
            (Post-call c (pure tt) w2 (λ more. returns tt (record w2 { faults = more }) refl q)
              (λ more. tt))
            (λ _ w3 q3. returns a w3 refl q3)))))
  where
    committed : A → Action A
    committed a = do call c (pure tt); pure a

    commits : Action A
    commits = do a ← body; committed a

    settled :
        (o : Result A × World)
        → Post (λ a w'. Q a w'.db) (λ _ _. Unit {0}) o
        → Post (λ a w'. Q a w'.db) (λ _ w'. w'.db ≡ w.db) (settle w.db o)
    settled o (returns a w' e q) = rw e (returns a w' refl q)
    settled o (errs x w' e q) = rw e (errs x _ refl refl)
