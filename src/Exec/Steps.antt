-- ===== src/Exec/Steps.antt =====
-- How a sequence of awaits ends: inversion of a result, one await at a time.
use baileys_api.Prelude.{◌≡◌, refl, ap}
use baileys_api.Redis.{Redis}
use baileys_api.Exec.{State, Exec, Result, ok, throw, Error, continue, ◌>>=◌}

module _ {r : Redis} {L : Type 0} {A B : Type 0} where
  -- A block that returns has passed its first await, and ends as the rest of it does.
  pub >>=-ok :
      (m : Exec r L A) (f : A → Exec r L B) (s : State r L) {b : B}
      → ((m >>= f) s).0 ≡ ok b
      → (a : A) × ((m s).0 ≡ ok a) × ((m >>= f) s ≡ f a (m s).1)
  >>=-ok m f s {b} h = go (m s).0 (m s).1 h
    where
      go :
          (res : Result A) (t : State r L)
          → (continue res f t).0 ≡ ok b
          → (a : A) × (res ≡ ok a) × (continue res f t ≡ f a t)
      go (ok a) t e = (a, refl, refl)
      go (throw x) t e = cc

  -- The same, with the result of the rest.
  pub >>=-inv :
      (m : Exec r L A) (f : A → Exec r L B) (s : State r L) {b : B}
      → ((m >>= f) s).0 ≡ ok b
      → (a : A) × ((m s).0 ≡ ok a) × ((f a (m s).1).0 ≡ ok b) × ((m >>= f) s ≡ f a (m s).1)
  >>=-inv m f s {b} h = go (m s).0 (m s).1 h
    where
      go :
          (res : Result A) (t : State r L)
          → (continue res f t).0 ≡ ok b
          → (a : A) × (res ≡ ok a) × ((f a t).0 ≡ ok b) × (continue res f t ≡ f a t)
      go (ok a) t e = (a, refl, e, refl)
      go (throw x) t e = cc

  pub >>=-step :
      (m : Exec r L A) (f : A → Exec r L B) (s : State r L) {a : A}
      → (m s).0 ≡ ok a
      → (m >>= f) s ≡ f a (m s).1
  >>=-step m f s h = ap (λ (x : Result A). continue x f (m s).1) h

  pub >>=-throw :
      (m : Exec r L A) (f : A → Exec r L B) (s : State r L) {e : Error}
      → (m s).0 ≡ throw e
      → (m >>= f) s ≡ (throw e, (m s).1)
  >>=-throw m f s h = ap (λ (x : Result A). continue x f (m s).1) h

  -- What holds after the rest of a block, for every result of its first await, holds after the
  -- block.
  pub >>=-post :
      (m : Exec r L A) (f : A → Exec r L B) (s : State r L) (Q : State r L → Type 0) {b : B}
      → ((m >>= f) s).0 ≡ ok b
      → ((a : A) → (m s).0 ≡ ok a → (f a (m s).1).0 ≡ ok b → Q (f a (m s).1).1)
      → Q ((m >>= f) s).1
  >>=-post m f s Q {b} h rest = go (m s).0 refl h
    where
      go :
          (res : Result A)
          → (m s).0 ≡ res
          → (continue res f (m s).1).0 ≡ ok b
          → Q (continue res f (m s).1).1
      go (ok a) e k = rest a e k
      go (throw x) e k = cc
