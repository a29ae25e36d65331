-- ===== src/World/Keeps.antt =====
-- Actions that keep a property of the database, however they end.
use fishhub_server.Prelude.{String, List, [], ◌∷◌, Bool-cases, inl, inr}
use fishhub_server.Schema.{Db}
use fishhub_server.World.{
  fails, rest, pure, draw_from, Result, ok, err, World, Action, continue, call, draw, settle,
  transaction, publish, ignore, ◌>>=◌, ◌>>◌,
}

module _ (P : Db → Type 0) where
  abbrev pub Keeps : {A : Type 0} → Action A → Type 0
  Keeps m = (w : World) → P w.db → P (m w).1.db

  pub call-Keeps : {A : Type 0} (what : String) (m : Action A) → Keeps m → Keeps (call what m)
  unfolding call
  call-Keeps what m keep w h = elim (Bool-cases (fails w.faults)) [
    | inl fault ↦ rw fault h
    | inr fine ↦ rw fine (keep (record w { faults = rest w.faults }) h)
  ]

  pub bind-Keeps :
      {A B : Type 0} (m : Action A) (f : A → Action B)
      → Keeps m
      → ((a : A) → Keeps (f a))
      → Keeps (m >>= f)
  bind-Keeps {A} {B} m f keep then w h = go (m w) (keep w h)
    where
      go : (o : Result A × World) → P o.1.db → P (continue o f).1.db
      go (ok a, w') k = then a w' k
      go (err e, w') k = k

  pub draw-Keeps : (what : String) → Keeps (draw what)
  unfolding draw
  draw-Keeps what w h = go w.supply
    where
      go : (vs : List String) → P (draw_from vs what pure w).1.db
      go [] = h
      go (v ∷ vs) = h

  pub publish-Keeps :
      (what topic : String) (body : List (String × String)) → Keeps (publish what topic body)
  unfolding publish call
  publish-Keeps what topic body w h = elim (Bool-cases (fails w.faults)) [
    | inl fault ↦ rw fault h
    | inr fine ↦ rw fine h
  ]

  settle-Keeps :
      {A : Type 0} (saved : Db) (o : Result A × World)
      → P saved
      → P o.1.db
      → P (settle saved o).1.db
  unfolding settle
  settle-Keeps saved (ok a, w) h k = k
  settle-Keeps saved (err e, w) h k = h

  pub transaction-Keeps :
      {A : Type 0} (b c : String) (body : Action A) → Keeps body → Keeps (transaction b c body)
  unfolding transaction
  transaction-Keeps {A} b c body keep w h = settle-Keeps w.db (all w) h (
      bind-Keeps (call b (pure tt)) (λ _. rest_of) (call-Keeps b (pure tt) (λ x k. k))
        (λ _. bind-Keeps body committed keep (λ a.
          bind-Keeps (call c (pure tt)) (λ _. pure a) (call-Keeps c (pure tt) (λ x k. k))
            (λ _ x k. k)))
        w h)
    where
      committed : A → Action A
      committed a = do call c (pure tt); pure a

      rest_of : Action A
      rest_of = do a ← body; committed a

      all : Action A
      all = do call b (pure tt); rest_of

  pub ignore-Keeps : {A : Type 0} (m : Action A) → Keeps m → Keeps (ignore m)
  ignore-Keeps m keep = keep
